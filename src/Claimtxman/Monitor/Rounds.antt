-- ===== src/Claimtxman/Monitor/Rounds.antt =====
-- A whole run of MonitorTxs.
use mathlib.Core.List.{Memᴰ}
use zkevm_bridge_service.Base.{◌≡◌, refl, sym, subst, inl, List, [], ◌∷◌, Result, ok, err, panic}
use zkevm_bridge_service.Base.State.{State, bind_result}
use zkevm_bridge_service.Base.Yields.{After}
use zkevm_bridge_service.Storage.Tables.{Deposit, serve}
use zkevm_bridge_service.Claimtxman.Types.{created, MonitoredTx}
use zkevm_bridge_service.Claimtxman.NonceCache.{NonceStore}
use zkevm_bridge_service.Claimtxman.Deposits.{ClaimDb}
use zkevm_bridge_service.Claimtxman.Deposits.Queries.{on_tables}
use zkevm_bridge_service.Claimtxman.Deposits.Selected.{AreAll, AreAll-each}
use zkevm_bridge_service.Claimtxman.Deposits.Wanted.{seen, serve-Yields}
use zkevm_bridge_service.Claimtxman.Monitor.{
  Monitor, Monitoring, on_db, monitor_tx, commit_or_rollback, opened, monitor_in_tx, monitor_each,
  monitor_txs, get_created_claim_txs,
}
use zkevm_bridge_service.Claimtxman.Monitor.Settled.{IsRow, get_created-Yields}
use zkevm_bridge_service.Claimtxman.Monitor.Moves.{W, IsKept, serve-IsKept, monitor_tx-IsKept}

module _ (store : NonceStore) (tm : Monitor) (ds : List Deposit) (old : List MonitoredTx) where
  abbrev S : Type 0
  S = W store tm ds old

  abbrev Kept : S → Type 0
  Kept w = IsKept store tm ds old w.db

  commit-Kept :
      (before : S) (z : Result (Unit {0}) × S)
      → Kept before
      → Kept z.1
      → Kept (commit_or_rollback store tm before z).1
  commit-Kept before (ok _, w) hb h = h
  commit-Kept before (err e, w) hb h = hb
  commit-Kept before (panic, w) hb h = h

  opened-Kept :
      (s : MonitoredTx) (z : Result (Unit {0}) × S)
      → Memᴰ s old
      → s.status ≡ created
      → Kept z.1
      → Kept (opened store tm s z).1
  opened-Kept s (ok _, w) there new h =
      let done = monitor_tx-IsKept store tm ds old s there new w h in
      commit-Kept w (on_db store tm (on_tables serve) (monitor_tx store tm s w)) h
        (serve-IsKept store tm ds old (monitor_tx store tm s w) done)
  opened-Kept s (err e, w) there new h = h
  opened-Kept s (panic, w) there new h = h

  monitor_in_tx-Kept :
      (s : MonitoredTx)
      → Memᴰ s old
      → s.status ≡ created
      → (w : S) → Kept w
      → Kept (monitor_in_tx store tm s w).1
  unfolding monitor_in_tx
  monitor_in_tx-Kept s there new w h =
      opened-Kept s (on_db store tm (on_tables serve) w) there new
        (serve-IsKept store tm ds old w h)

  bind-Kept :
      {A B : Type 0} (z : Result A × S) (f : A → State S B)
      → Kept z.1
      → ((a : A) (w : S) → z.0 ≡ ok a → Kept w → Kept (f a w).1)
      → Kept (bind_result z f).1
  bind-Kept (ok a, w) f h next = next a w refl h
  bind-Kept (err e, w) f h next = h
  bind-Kept (panic, w) f h next = h

  abbrev AreNew : List MonitoredTx → Type 0
  AreNew = AreAll (λ t. Memᴰ t old × (t.status ≡ created))

  monitor_each-Kept :
      (txs : List MonitoredTx)
      → AreNew txs
      → (w : S) → Kept w
      → Kept (monitor_each store tm txs w).1
  unfolding monitor_each
  monitor_each-Kept [] new w h = h
  monitor_each-Kept (tx ∷ txs) ((there, fresh), new) w h =
      bind-Kept (monitor_in_tx store tm tx w) (λ _. monitor_each store tm txs)
        (monitor_in_tx-Kept tx there fresh w h) (λ _ v _ h'. monitor_each-Kept txs new v h')

  queried-Kept :
      (db : ClaimDb) (z : Result (List MonitoredTx) × ClaimDb) (w : S)
      (next : List MonitoredTx → State S (Unit {0}))
      → IsKept store tm ds old db
      → db.monitored_txs ≡ old
      → After seen (seen db) (AreAll (λ t. Memᴰ t db.monitored_txs × (t.status ≡ created))) z
      → ((txs : List MonitoredTx) → AreNew txs → (w : S) → Kept w → Kept (next txs w).1)
      → Kept (bind_result (z.0, record w { db = z.1 }) next).1
  queried-Kept db (ok txs, v) w next h is (same, new) keeps =
      keeps txs (subst (λ x. AreAll (λ t. Memᴰ t x × (t.status ≡ created)) txs) is new)
        (record w { db = v }) (subst (IsKept store tm ds old) (sym same) h)
  queried-Kept db (err e, v) w next h is same keeps = subst (IsKept store tm ds old) (sym same) h
  queried-Kept db (panic, v) w next h is same keeps = subst (IsKept store tm ds old) (sym same) h

  begun-Kept :
      (db : ClaimDb) (z : Result (Unit {0}) × ClaimDb) (w : S) (next : State S (Unit {0}))
      → IsKept store tm ds old db
      → db.monitored_txs ≡ old
      → After seen (seen db) (λ _. Unit {0}) z
      → ((w : S) → Kept w → w.db.monitored_txs ≡ old → Kept (next w).1)
      → Kept (bind_result (z.0, record w { db = z.1 }) (λ _. next)).1
  begun-Kept db (ok _, v) w next h is (same, _) keeps =
      keeps (record w { db = v }) (subst (IsKept store tm ds old) (sym same) h)
        (subst (λ (x : ClaimDb). x.monitored_txs ≡ old) (sym same) is)
  begun-Kept db (err e, v) w next h is same keeps = subst (IsKept store tm ds old) (sym same) h
  begun-Kept db (panic, v) w next h is same keeps = subst (IsKept store tm ds old) (sym same) h

  listed-Kept :
      (txs : List MonitoredTx)
      → AreNew txs
      → (w : S) → Kept w
      → Kept (bind_result (on_db store tm (on_tables serve) w) (λ _. monitor_each store tm txs)).1
  listed-Kept txs new w h =
      bind-Kept (on_db store tm (on_tables serve) w) (λ _. monitor_each store tm txs)
        (serve-IsKept store tm ds old w h) (λ _ v _ h'. monitor_each-Kept txs new v h')

  run-Kept : (w : S) → Kept w → w.db.monitored_txs ≡ old → Kept (monitor_txs store tm w).1
  unfolding monitor_txs
  run-Kept w h is =
      begun-Kept w.db (on_tables serve w.db) w _ h is ((serve-Yields (seen w.db)).at w.db refl)
        (λ v h' is'.
          queried-Kept v.db (get_created_claim_txs tm.rollup_id v.db) v _ h' is'
            ((get_created-Yields (seen v.db) tm.rollup_id).at v.db refl) listed-Kept)

-- However MonitorTxs ends: the deposits are as before, and each monitored claim is one of before,
-- or a claim of before that was just created with no less gas and nonce: still created, or
-- confirmed when a transaction of its history had been mined with success or the contract answers
-- that its stored deposit is claimed, or failed when every transaction of its history had been
-- mined or the contract answers that the deposit is not claimed.
pub monitor_txs-IsKept :
    (store : NonceStore) (tm : Monitor) (w : Monitoring store tm)
    → ((monitor_txs store tm w).1.db.base.deposits ≡ w.db.base.deposits)
      × AreAll
          (IsRow tm w.db.base.deposits w.db.monitored_txs)
          (monitor_txs store tm w).1.db.monitored_txs
monitor_txs-IsKept store tm w =
    run-Kept store tm w.db.base.deposits w.db.monitored_txs w
      (refl, AreAll-each _ w.db.monitored_txs (λ t there. inl there)) refl
