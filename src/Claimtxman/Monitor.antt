-- ===== src/Claimtxman/Monitor.antt =====
-- claimtxman/monitortxs.go: MonitorTxs, the loop over the claims that are sent one by one.
-- The nodes and the signer are asked through a record. The clock is left out. A transaction that is
-- not committed leaves no trace, and that PostgreSQL refuses the rest of a transaction after an
-- error is left out.
pub mod Settled
pub mod Moves
pub mod Rounds
pub mod Tests
use zkevm_bridge_service.Base.{
  ℕ, ◌*◌, ◌-◌, List, [], ◌∷◌, ◌++◌, map, Bool, true, false, Option, none, some, find, keep, any,
  leb, ◌==◌, if◌then◌else◌, length, or_err, Result, ok, err, panic, storage_not_found,
}
use zkevm_bridge_service.Base.State.{
  State, bind_result, ◌>>=◌, ◌>>◌, pure, lift, gets, modify, zoom,
}
use zkevm_bridge_service.Storage.Tables.{Deposit, Db, serve}
use zkevm_bridge_service.Storage.Chain.{block_of}
use zkevm_bridge_service.Claimtxman.Types.{
  TxStatus, created, failed, confirmed, MonitoredTx, is_created, add_history, remove_history,
}
use zkevm_bridge_service.Claimtxman.NonceCache.{NonceStore, get_next_nonce, remove_nonce}
use zkevm_bridge_service.Claimtxman.Single.{
  Receipt, Lookup, found, not_found, failed_lookup, Estimate, gas_of, reverted, unavailable,
  Checked, check_tx_history, retry_estimate, review_monitored_tx,
}
use zkevm_bridge_service.Claimtxman.Deposits.{ClaimDb}
use zkevm_bridge_service.Claimtxman.Deposits.Queries.{order_by, on_tables}

-- SendTransaction: sent, an error of the nonce, or another error.
pub data Sending : Type 0 where
  sent nonce_error other_error : Sending

-- The fields of MonitorTxs that are read, and the answers of the nodes and of the signer in a
-- round. The gas is estimated before and after the sending; an estimate that is asked for again is
-- numbered by the attempt. The signer answers with the hash.
pub record Monitor : Type 0 where
  pub rollup_id : ℕ
  pub retry_number : ℕ
  pub receipts : ℕ → Receipt
  pub pool : ℕ → ℕ → Lookup
  pub estimate_gas : Bool → MonitoredTx → ℕ → Estimate
  pub nonce_at : ℕ → Option ℕ
  pub suggest_gas_price : Result ℕ
  pub sign : MonitoredTx → Result ℕ
  pub transaction_by_hash : ℕ → Lookup
  pub send_transaction : MonitoredTx → Sending
  pub is_claimed : ℕ → ℕ → Result Bool

-- The columns that UpdateClaimTx does not set stay.
unfoldable pub set_columns : MonitoredTx → MonitoredTx → MonitoredTx
set_columns tx row =
    if row.deposit_id == tx.deposit_id
    then record tx {
      gas_price = row.gas_price;
      created_at = row.created_at;
      global_exit_root = row.global_exit_root;
    }
    else row

-- A created claim of a deposit to this network.
unfoldable pub is_created_claim : ℕ → ClaimDb → MonitoredTx → Bool
unfolding any
is_created_claim rollup_id db tx =
    if is_created tx.status
    then any (λ d. if d.id == tx.deposit_id then d.destination_network == rollup_id else false)
        db.base.deposits
    else false

-- GetClaimTxsByStatus for the status of a created claim.
unfoldable pub get_created_claim_txs : ℕ → State ClaimDb (List MonitoredTx)
unfolding serve keep is_created_claim order_by
get_created_claim_txs rollup_id = do
  on_tables serve
  gets λ db.
      order_by (λ s t. leb s.created_at t.created_at)
        (keep (is_created_claim rollup_id db) db.monitored_txs)

abbrev pub joined : Deposit → Bool → Result Deposit
joined d true = ok d
joined d false = err storage_not_found

abbrev pub is_some : {A : Type 0} → Option A → Bool
is_some (some a) = true
is_some none = false

-- The join with sync.block; the block number is not read here.
unfoldable pub get_deposit_by_deposit_id : ℕ → State ClaimDb Deposit
unfolding serve find block_of
get_deposit_by_deposit_id deposit_id = do
  on_tables serve
  row ← gets λ db. find (λ d. d.id == deposit_id) db.base.deposits
  d ← lift (or_err storage_not_found row)
  has_block ← gets λ db. is_some (block_of db.base d)
  lift (joined d has_block)

module _ (store : NonceStore) (tm : Monitor) where
  -- The tables, the cache of the nonces, and the hashes of the transactions that were sent.
  pub record Monitoring : Type 0 where
    pub db : ClaimDb
    pub nonces : store.Cache
    pub sent_txs : List ℕ

  abbrev pub on_db : {A : Type 0} → State ClaimDb A → State Monitoring A
  on_db = zoom (λ w. w.db) (λ b w. record w { db = b })

  unfoldable pub update_claim_tx : MonitoredTx → State Monitoring (Unit {0})
  unfolding serve set_columns
  update_claim_tx tx = do
    on_db (on_tables serve)
    modify λ w. record w {
      db = record w.db { monitored_txs = map (set_columns tx) w.db.monitored_txs };
    }

  -- An error of the update is only logged.
  unfoldable pub update : MonitoredTx → Monitoring → Monitoring
  unfolding update_claim_tx
  update tx w = (update_claim_tx tx w).1

  -- checkIfClaimed, whose errors are only logged.
  abbrev pub mark_claimed : MonitoredTx → Result Bool → Monitoring → Monitoring
  mark_claimed tx (ok true) w = update (record tx { status = confirmed }) w
  mark_claimed tx (ok false) w = update (record tx { status = failed }) w
  mark_claimed tx (err e) w = w
  mark_claimed tx panic w = w

  abbrev pub ask_claimed : MonitoredTx → Result Deposit × Monitoring → Monitoring
  ask_claimed tx (ok d, w) = mark_claimed tx (tm.is_claimed d.deposit_count d.network_id) w
  ask_claimed tx (err e, w) = w
  ask_claimed tx (panic, w) = w

  unfoldable pub check_if_claimed : MonitoredTx → Monitoring → Monitoring
  unfolding get_deposit_by_deposit_id update
  check_if_claimed tx w = ask_claimed tx (on_db (get_deposit_by_deposit_id tx.deposit_id) w)

  -- The estimate of ReviewMonitoredTx.
  abbrev pub reviewed_gas : Bool → MonitoredTx → Estimate
  reviewed_gas after tx = retry_estimate (tm.estimate_gas after tx) (tm.retry_number - 1) 0

  abbrev pub asks_nonce : Estimate → Bool → Bool
  asks_nonce (gas_of g) review_nonce = review_nonce
  asks_nonce reverted review_nonce = false
  asks_nonce unavailable review_nonce = false

  abbrev pub nonce_if : Bool → ℕ → Monitoring → Result ℕ × Monitoring
  nonce_if true from w =
      let (r, c) = get_next_nonce store (tm.nonce_at from) from w.nonces in
      (r, record w { nonces = c })
  nonce_if false from w = (ok 0, w)

  -- ReviewMonitoredTx with the cache: its error, the transaction it leaves, and the state.
  unfoldable pub review :
      Bool → Bool → MonitoredTx → Monitoring → (Result (Unit {0}) × MonitoredTx) × Monitoring
  unfolding review_monitored_tx get_next_nonce retry_estimate
  review after review_nonce tx w =
      let (nonce, v) = nonce_if (asks_nonce (reviewed_gas after tx) review_nonce) tx.from w in
      (review_monitored_tx (tm.estimate_gas after tx) tm.retry_number nonce review_nonce tx, v)

  abbrev pub is_reverted : Estimate → Bool
  is_reverted (gas_of g) = false
  is_reverted reverted = true
  is_reverted unavailable = false

  -- What follows a review: `next` when it is well, else the check when the execution reverts.
  abbrev pub after_review :
      Bool
      → (MonitoredTx → Monitoring → Monitoring)
      → (Result (Unit {0}) × MonitoredTx) × Monitoring
      → Monitoring
  after_review rev next ((ok _, tx), w) = next tx w
  after_review rev next ((err e, tx), w) = if rev then check_if_claimed tx w else w
  after_review rev next ((panic, tx), w) = if rev then check_if_claimed tx w else w

  -- A failed sending takes the hash back and reviews the transaction.
  unfoldable pub failed_sending : Bool → ℕ → MonitoredTx → Monitoring → Monitoring
  unfolding remove_history review check_if_claimed update
  failed_sending review_nonce tx_hash tx w =
      let back = remove_history tx_hash tx in
      after_review (is_reverted (reviewed_gas true back)) update (review true review_nonce back w)

  abbrev pub delivered : Sending → ℕ → MonitoredTx → Monitoring → Monitoring
  delivered sent tx_hash tx w = update tx (record w { sent_txs = w.sent_txs ++ tx_hash ∷ [] })
  delivered nonce_error tx_hash tx w =
      failed_sending true tx_hash tx (record w { nonces = remove_nonce store tx.from w.nonces })
  delivered other_error tx_hash tx w = failed_sending false tx_hash tx w

  -- The transaction is sent unless the network has it, or the node cannot tell.
  abbrev pub deliver : Lookup → ℕ → MonitoredTx → Monitoring → Monitoring
  deliver found tx_hash tx w = update tx w
  deliver failed_lookup tx_hash tx w = update tx w
  deliver not_found tx_hash tx w = delivered (tm.send_transaction tx) tx_hash tx w

  abbrev pub with_history : Option MonitoredTx → MonitoredTx → MonitoredTx
  with_history (some tx') tx = tx'
  with_history none tx = tx

  abbrev pub signed : Result ℕ → MonitoredTx → Monitoring → Monitoring
  signed (ok tx_hash) tx w =
      deliver (tm.transaction_by_hash tx_hash) tx_hash (with_history (add_history tx_hash tx) tx) w
  signed (err e) tx w = w
  signed panic tx w = w

  abbrev pub priced : Result ℕ → MonitoredTx → Monitoring → Monitoring
  priced (ok gas_price) tx w =
      let tx' = record tx { gas_price = gas_price * 10 } in signed (tm.sign tx') tx' w
  priced (err e) tx w = w
  priced panic tx w = w

  unfoldable pub send : MonitoredTx → Monitoring → Monitoring
  unfolding add_history failed_sending remove_nonce update
  send tx w = priced tm.suggest_gas_price tx w

  abbrev pub max_history_size : ℕ
  max_history_size = 10

  -- The body of the loop, between the begin of the transaction and its commit.
  unfoldable pub monitor_tx : MonitoredTx → Monitoring → Monitoring
  unfolding check_tx_history update send review check_if_claimed
  monitor_tx tx w =
      let checked = check_tx_history tm.receipts tm.pool tm.retry_number tx in
      if checked.receipt_successful
      then update (record tx { status = confirmed }) w
      else if checked.all_history_tx_mined
      then (if leb max_history_size (length tx.history)
          then update (record tx { status = failed }) w
          else if checked.has_failed_receipts
          then after_review (is_reverted (reviewed_gas false tx)) send (review false true tx w)
          else send tx w)
      else w

  -- commitOrRollback. Rollback itself is served.
  abbrev pub commit_or_rollback :
      Monitoring → Result (Unit {0}) × Monitoring → Result (Unit {0}) × Monitoring
  commit_or_rollback before (ok _, w) = (ok tt, w)
  commit_or_rollback before (err e, w) = (
    err e,
    record w {
      db = record before.db { base = record before.db.base { faults = w.db.base.faults } };
    },
  )
  commit_or_rollback before (panic, w) = (panic, w)

  abbrev pub opened : MonitoredTx → Result (Unit {0}) × Monitoring → Result (Unit {0}) × Monitoring
  opened tx (ok _, w) = commit_or_rollback w (on_db (on_tables serve) (monitor_tx tx w))
  opened tx (err e, w) = (err e, w)
  opened tx (panic, w) = (panic, w)

  unfoldable pub monitor_in_tx : MonitoredTx → State Monitoring (Unit {0})
  unfolding serve monitor_tx
  monitor_in_tx tx w = opened tx (on_db (on_tables serve) w)

  unfoldable pub monitor_each : List MonitoredTx → State Monitoring (Unit {0})
  unfolding monitor_in_tx
  monitor_each [] = pure tt
  monitor_each (tx ∷ txs) = do monitor_in_tx tx; monitor_each txs

  unfoldable pub monitor_txs : State Monitoring (Unit {0})
  unfolding serve get_created_claim_txs monitor_each
  monitor_txs = do
    on_db (on_tables serve)
    txs ← on_db (get_created_claim_txs tm.rollup_id)
    on_db (on_tables serve)
    monitor_each txs
