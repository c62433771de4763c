-- ===== src/Claimtxman/Monitor/Moves.antt =====
-- The claims that MonitorTxs leaves.
use mathlib.Core.List.{Memᴰ}
use zkevm_bridge_service.Base.{
  ℕ, ◌≤◌, ◌*◌, ◌≡◌, refl, sym, ◌∙◌, subst, inl, inr, List, [], ◌∷◌, ◌++◌, map, Bool, true, false,
  Bool-cases, any, leb, length, ◌==◌, if◌then◌else◌, Result, ok, err, panic, arith,
}
use zkevm_bridge_service.Base.State.{State, bind_result, modify}
use zkevm_bridge_service.Base.Yields.{After}
use zkevm_bridge_service.Storage.Tables.{Deposit, serve, answer}
use zkevm_bridge_service.Claimtxman.Types.{
  created, failed, confirmed, MonitoredTx, add_history, remove_history,
}
use zkevm_bridge_service.Claimtxman.NonceCache.{NonceStore, remove_nonce}
use zkevm_bridge_service.Claimtxman.Single.{
  Lookup, found, not_found, failed_lookup, Estimate, check_tx_history, review_monitored_tx,
  check_tx_history_lem,
}
use zkevm_bridge_service.Claimtxman.Deposits.{ClaimDb}
use zkevm_bridge_service.Claimtxman.Deposits.Queries.{on_tables}
use zkevm_bridge_service.Claimtxman.Deposits.Selected.{AreAll}
use zkevm_bridge_service.Claimtxman.Deposits.Wanted.{seen}
use zkevm_bridge_service.Claimtxman.Monitor.{
  Monitor, Sending, sent, nonce_error, other_error, set_columns, get_deposit_by_deposit_id,
  Monitoring, on_db, update_claim_tx, update, mark_claimed, ask_claimed, check_if_claimed,
  reviewed_gas, asks_nonce, nonce_if, review, is_reverted, after_review, failed_sending, delivered,
  deliver, with_history, signed, priced, send, max_history_size, monitor_tx,
}
use zkevm_bridge_service.Claimtxman.Monitor.Settled.{IsMoved, IsRow, get_deposit-Yields}

module _ (store : NonceStore) (tm : Monitor) (ds : List Deposit) (old : List MonitoredTx) where
  abbrev pub W : Type 0
  W = Monitoring store tm

  -- The deposits as they were, and each claim one of before or moved.
  abbrev pub IsKept : ClaimDb → Type 0
  IsKept db = (db.base.deposits ≡ ds) × AreAll (IsRow tm ds old) db.monitored_txs

  answer-IsKept : (fs : List Bool) (db : ClaimDb) → IsKept db → IsKept (on_tables (answer fs) db).1
  answer-IsKept [] db h = h
  answer-IsKept (true ∷ fs) db h = h
  answer-IsKept (false ∷ fs) db h = h

  pub serve-IsKept : (w : W) → IsKept w.db → IsKept (on_db store tm (on_tables serve) w).1.db
  unfolding serve
  serve-IsKept w h = answer-IsKept w.db.base.faults w.db h

  if-IsKept :
      (b : Bool) (x y : W)
      → (b ≡ true → IsKept x.db)
      → (b ≡ false → IsKept y.db)
      → IsKept (if b then x else y).db
  if-IsKept true x y hx hy = hx refl
  if-IsKept false x y hx hy = hy refl

  -- A claim of before that was just created.
  module _ (s : MonitoredTx) (there : Memᴰ s old) (new : s.status ≡ created) where
    abbrev InFlight : MonitoredTx → Type 0
    InFlight tx =
        (tx.deposit_id ≡ s.deposit_id)
        × (s.gas ≤ tx.gas)
        × (s.nonce ≤ tx.nonce)
        × (tx.status ≡ s.status)

    set_columns-IsRow :
        (tx row : MonitoredTx)
        → IsMoved tm ds s tx
        → IsRow tm ds old row
        → IsRow tm ds old (set_columns tx row)
    unfolding set_columns
    set_columns-IsRow tx row moved h = elim (Bool-cases (row.deposit_id == tx.deposit_id)) [
      | inl same ↦ rw same (inr (s, there, new, moved))
      | inr other ↦ rw other h
    ]

    map-AreRows :
        (tx : MonitoredTx) (rows : List MonitoredTx)
        → IsMoved tm ds s tx
        → AreAll (IsRow tm ds old) rows
        → AreAll (IsRow tm ds old) (map (set_columns tx) rows)
    map-AreRows tx [] moved h = tt
    map-AreRows tx (row ∷ rows) moved (h, hs) =
        (set_columns-IsRow tx row moved h, map-AreRows tx rows moved hs)

    abbrev with_row : MonitoredTx → State W (Unit {0})
    with_row tx = modify λ w. record w {
      db = record w.db { monitored_txs = map (set_columns tx) w.db.monitored_txs };
    }

    updated :
        (tx : MonitoredTx) (z : Result (Unit {0}) × W)
        → IsMoved tm ds s tx
        → IsKept z.1.db
        → IsKept (bind_result z (λ _. with_row tx)).1.db
    updated tx (ok _, w) moved (same, h) = (same, map-AreRows tx w.db.monitored_txs moved h)
    updated tx (err e, w) moved h = h
    updated tx (panic, w) moved h = h

    update-IsKept :
        (tx : MonitoredTx)
        → IsMoved tm ds s tx
        → (w : W) → IsKept w.db
        → IsKept (update store tm tx w).db
    unfolding update update_claim_tx
    update-IsKept tx moved w h =
        updated tx (on_db store tm (on_tables serve) w) moved (serve-IsKept w h)

    in_flight : (tx : MonitoredTx) → InFlight tx → IsMoved tm ds s tx
    in_flight tx (id, gas, nonce, status) = (id, gas, nonce, inl status)

    mark_claimed-IsKept :
        (tx : MonitoredTx) (d : Deposit) (r : Result Bool)
        → InFlight tx
        → Memᴰ d ds
        → d.id ≡ tx.deposit_id
        → tm.is_claimed d.deposit_count d.network_id ≡ r
        → (w : W) → IsKept w.db
        → IsKept (mark_claimed store tm tx r w).db
    mark_claimed-IsKept tx d (ok true) (id, gas, nonce, status) stored same e w h =
        update-IsKept (record tx { status = confirmed })
          (id, gas, nonce, inr (inl (refl, inr (d, stored, same ∙ id, e)))) w h
    mark_claimed-IsKept tx d (ok false) (id, gas, nonce, status) stored same e w h =
        update-IsKept (record tx { status = failed })
          (id, gas, nonce, inr (inr (refl, inr (d, stored, same ∙ id, e)))) w h
    mark_claimed-IsKept tx d (err x) flying stored same e w h = h
    mark_claimed-IsKept tx d panic flying stored same e w h = h

    ask_claimed-IsKept :
        (tx : MonitoredTx) (db : ClaimDb) (z : Result Deposit × ClaimDb) (w : W)
        → InFlight tx
        → IsKept db
        → After seen (seen db) (λ d. Memᴰ d db.base.deposits × (d.id ≡ tx.deposit_id)) z
        → IsKept (ask_claimed store tm tx (z.0, record w { db = z.1 })).db
    ask_claimed-IsKept tx db (ok d, v) w flying h (same, (stored, id)) =
        mark_claimed-IsKept tx d (tm.is_claimed d.deposit_count d.network_id) flying
          (subst (λ xs. Memᴰ d xs) h.0 stored) id refl (record w { db = v })
          (subst IsKept (sym same) h)
    ask_claimed-IsKept tx db (err e, v) w flying h same = subst IsKept (sym same) h
    ask_claimed-IsKept tx db (panic, v) w flying h same = subst IsKept (sym same) h

    check_if_claimed-IsKept :
        (tx : MonitoredTx)
        → InFlight tx
        → (w : W) → IsKept w.db
        → IsKept (check_if_claimed store tm tx w).db
    unfolding check_if_claimed
    check_if_claimed-IsKept tx flying w h =
        ask_claimed-IsKept tx w.db (get_deposit_by_deposit_id tx.deposit_id w.db) w flying h
          ((get_deposit-Yields (seen w.db) tx.deposit_id).at w.db refl)

    nonce_if-IsKept :
        (b : Bool) (from : ℕ) (w : W) → IsKept w.db → IsKept (nonce_if store tm b from w).1.db
    nonce_if-IsKept true from w h = h
    nonce_if-IsKept false from w h = h

    after_review-IsKept :
        (rev : Bool) (next : MonitoredTx → W → W) (r : Result (Unit {0})) (tx : MonitoredTx) (w : W)
        → ((tx : MonitoredTx) → InFlight tx → (w : W) → IsKept w.db → IsKept (next tx w).db)
        → InFlight tx
        → IsKept w.db
        → IsKept (after_review store tm rev next ((r, tx), w)).db
    after_review-IsKept rev next (ok _) tx w keeps flying h = keeps tx flying w h
    after_review-IsKept rev next (err e) tx w keeps flying h =
        if-IsKept rev (check_if_claimed store tm tx w) w
          (λ _. check_if_claimed-IsKept tx flying w h) (λ _. h)
    after_review-IsKept rev next panic tx w keeps flying h =
        if-IsKept rev (check_if_claimed store tm tx w) w
          (λ _. check_if_claimed-IsKept tx flying w h) (λ _. h)

    review_monitored_tx-InFlight :
        (estimate : ℕ → Estimate) (retries : ℕ) (nonce : Result ℕ) (b : Bool) (tx : MonitoredTx)
        → InFlight tx
        → InFlight (review_monitored_tx estimate retries nonce b tx).1
    unfolding review_monitored_tx
    review_monitored_tx-InFlight estimate retries nonce b tx flying = ground arith

    reviewed-IsKept :
        (rev after b : Bool) (next : MonitoredTx → W → W) (tx : MonitoredTx) (w : W)
        → ((tx : MonitoredTx) → InFlight tx → (w : W) → IsKept w.db → IsKept (next tx w).db)
        → InFlight tx
        → IsKept w.db
        → IsKept (after_review store tm rev next (review store tm after b tx w)).db
    unfolding review
    reviewed-IsKept rev after b next tx w keeps flying h =
        let (nonce, v) =
          nonce_if store tm (asks_nonce store tm (reviewed_gas store tm after tx) b) tx.from w in
        let (r, tx') = review_monitored_tx (tm.estimate_gas after tx) tm.retry_number nonce b tx in
        after_review-IsKept rev next r tx' v keeps
          (review_monitored_tx-InFlight (tm.estimate_gas after tx) tm.retry_number nonce b tx
            flying)
          (nonce_if-IsKept (asks_nonce store tm (reviewed_gas store tm after tx) b) tx.from w h)

    failed_sending-IsKept :
        (b : Bool) (tx_hash : ℕ) (tx : MonitoredTx)
        → InFlight tx
        → (w : W) → IsKept w.db
        → IsKept (failed_sending store tm b tx_hash tx w).db
    unfolding failed_sending remove_history
    failed_sending-IsKept b tx_hash tx flying w h =
        let back = remove_history tx_hash tx in
        reviewed-IsKept (is_reverted store tm (reviewed_gas store tm true back)) true b
          (update store tm) back w (λ t flying' v h'. update-IsKept t (in_flight t flying') v h')
          flying h

    delivered-IsKept :
        (r : Sending) (tx_hash : ℕ) (tx : MonitoredTx)
        → InFlight tx
        → (w : W) → IsKept w.db
        → IsKept (delivered store tm r tx_hash tx w).db
    delivered-IsKept sent tx_hash tx flying w h =
        update-IsKept tx (in_flight tx flying) (record w { sent_txs = w.sent_txs ++ tx_hash ∷ [] })
          h
    delivered-IsKept nonce_error tx_hash tx flying w h =
        failed_sending-IsKept true tx_hash tx flying
          (record w { nonces = remove_nonce store tx.from w.nonces }) h
    delivered-IsKept other_error tx_hash tx flying w h =
        failed_sending-IsKept false tx_hash tx flying w h

    deliver-IsKept :
        (l : Lookup) (tx_hash : ℕ) (tx : MonitoredTx)
        → InFlight tx
        → (w : W) → IsKept w.db
        → IsKept (deliver store tm l tx_hash tx w).db
    deliver-IsKept found tx_hash tx flying w h = update-IsKept tx (in_flight tx flying) w h
    deliver-IsKept failed_lookup tx_hash tx flying w h = update-IsKept tx (in_flight tx flying) w h
    deliver-IsKept not_found tx_hash tx flying w h =
        delivered-IsKept (tm.send_transaction tx) tx_hash tx flying w h

    with_history-InFlight :
        (tx_hash : ℕ) (tx : MonitoredTx)
        → InFlight tx
        → InFlight (with_history store tm (add_history tx_hash tx) tx)
    unfolding add_history
    with_history-InFlight tx_hash tx flying =
        elim (Bool-cases (any (λ h. h == tx_hash) tx.history)) [
          | inl known ↦ rw known flying
          | inr fresh ↦ rw fresh flying
        ]

    signed-IsKept :
        (r : Result ℕ) (tx : MonitoredTx)
        → InFlight tx
        → (w : W) → IsKept w.db
        → IsKept (signed store tm r tx w).db
    signed-IsKept (ok tx_hash) tx flying w h =
        deliver-IsKept (tm.transaction_by_hash tx_hash) tx_hash
          (with_history store tm (add_history tx_hash tx) tx)
          (with_history-InFlight tx_hash tx flying) w h
    signed-IsKept (err e) tx flying w h = h
    signed-IsKept panic tx flying w h = h

    priced-IsKept :
        (r : Result ℕ) (tx : MonitoredTx)
        → InFlight tx
        → (w : W) → IsKept w.db
        → IsKept (priced store tm r tx w).db
    priced-IsKept (ok gas_price) tx flying w h =
        let tx' = record tx { gas_price = gas_price * 10 } in
        signed-IsKept (tm.sign tx') tx' flying w h
    priced-IsKept (err e) tx flying w h = h
    priced-IsKept panic tx flying w h = h

    send-IsKept :
        (tx : MonitoredTx) → InFlight tx → (w : W) → IsKept w.db → IsKept (send store tm tx w).db
    unfolding send
    send-IsKept tx flying w h = priced-IsKept tm.suggest_gas_price tx flying w h

    pub monitor_tx-IsKept : (w : W) → IsKept w.db → IsKept (monitor_tx store tm s w).db
    unfolding monitor_tx
    monitor_tx-IsKept w h =
        let checked = check_tx_history tm.receipts tm.pool tm.retry_number s in
        let (claimed, mined) = check_tx_history_lem tm.receipts tm.pool tm.retry_number s in
        let whole : InFlight s = (refl, omega arith, omega arith, refl) in
        if-IsKept checked.receipt_successful _ _
          (λ success.
            update-IsKept (record s { status = confirmed })
              (refl, omega arith, omega arith, inr (inl (refl, inl (claimed.0 success)))) w h)
          (λ unclaimed.
            if-IsKept checked.all_history_tx_mined _ _
              (λ all.
                if-IsKept (leb (max_history_size store tm) (length s.history)) _ _
                  (λ long.
                    update-IsKept (record s { status = failed })
                      (
                        refl,
                        omega arith,
                        omega arith,
                        inr (inr (refl, inl ((mined unclaimed).0 all))),
                      )
                      w h)
                  (λ short.
                    if-IsKept checked.has_failed_receipts _ _
                      (λ bad.
                        reviewed-IsKept (is_reverted store tm (reviewed_gas store tm false s)) false
                          true (send store tm) s w send-IsKept whole h)
                      (λ clean. send-IsKept s whole w h)))
              (λ waiting. h))
