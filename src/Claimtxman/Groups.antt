-- ===== src/Claimtxman/Groups.antt =====
-- claimtxman/monitor_compressed_txs.go: one round over the groups of compressed claims.
-- The network's answers during a round are the fields of `Network`; the map of the groups is a list
-- of pairs, and a loop over it goes through the list. A nil history that is read panics.
pub mod Confirm
pub mod Retry
use zkevm_bridge_service.Base.{
  ℕ, zero, suc, ◌+◌, ◌%◌, u64_mod, List, [], ◌∷◌, ◌++◌, map, Bool, true, false, ◌&&◌, not, Option,
  none, some, ltb, leb, ◌==◌, if◌then◌else◌, length, any, Result, ok, err, panic, ◌>>=◌,
}
use zkevm_bridge_service.Claimtxman.Types.{
  TxStatus, MonitoredTx, GroupStatus, TxHashEntry, TxHistory, LogLine, GroupEntry, Group,
  GroupingConfig, is_pending, is_outdated, is_exhausted_time_waiting_for_receipt, receipt,
  receipt_failed, receipt_successful, add_pending_tx, is_claim_tx_history_empty, get_more_recent_tx,
}

-- CheckTxWasMined: an error, not mined, or the receipt's status and its number of logs.
pub data Mined : Type 0 where
  unknown waiting : Mined
  mined : ℕ → ℕ → Mined

-- For the compressed data of a group: the gas of the estimated transaction, and the hash of the
-- transaction that was sent with a gas limit. `none` is an error of SendCompressedClaims.
pub record Network : Type 0 where
  pub estimate_gas : List ℕ → Option ℕ
  pub send_compressed_claims : ℕ → List ℕ → Option ℕ
  pub check_tx_was_mined : ℕ → Mined

abbrev pub is_created : GroupStatus → Bool
is_created GroupStatus.created = true
is_created _ = false

abbrev pub is_claiming : GroupStatus → Bool
is_claiming GroupStatus.claiming = true
is_claiming _ = false

abbrev pub put_status : TxStatus → List MonitoredTx → List MonitoredTx
put_status status = map {A = MonitoredTx} (λ tx. record tx { status = status })

-- The part of CanSendNewClaimCall below its scan of the history.
unfoldable pub may_retry : GroupingConfig → ℕ → GroupEntry → List TxHashEntry → Bool
unfolding get_more_recent_tx
may_retry cfg now entry tx_hashes =
    if leb cfg.max_retries entry.num_retries then false else elim (get_more_recent_tx tx_hashes) [
      | none ↦ true
      | some recent ↦ leb (recent.created_at + cfg.retry_interval) now
    ]

unfoldable pub can_send_new_claim_call : GroupingConfig → ℕ → GroupEntry → Bool
unfolding may_retry any is_pending is_outdated
can_send_new_claim_call cfg now entry =
    if is_created entry.status then true else elim entry.claim_tx_history [
      | none ↦ true
      | some h ↦
          if length h.tx_hashes == 0
          then true
          else if any (λ e. is_pending e && not (is_outdated e)) h.tx_hashes
          then false
          else may_retry cfg now entry h.tx_hashes
    ]

abbrev log_send_failed : Group → Group
log_send_failed g = record g {
  db_entry = record g.db_entry { last_log = LogLine.send_failed g.db_entry.group_id };
}

-- The two calls of SendCompressedClaims, and the entry after the second. NumRetries is counted
-- without the wrap-around of the int32, which 2 ^ 31 sendings of one group would reach.
unfoldable pub send_group : Network → GroupingConfig → ℕ → Group → List ℕ → Group
unfolding add_pending_tx
send_group net cfg now g payload = elim (net.estimate_gas payload) [
  | none ↦ log_send_failed g
  | some gas ↦ elim (net.send_compressed_claims ((gas + cfg.gas_offset) % u64_mod) payload) [
    | none ↦ log_send_failed g
    | some tx_hash ↦
        let claiming = record g.db_entry { status = GroupStatus.claiming } in
        let pending = add_pending_tx tx_hash now claiming in
        record g { db_entry = record pending { num_retries = pending.num_retries + 1 } }
  ]
]

-- The body of SendClaims' loop.
unfoldable pub send_claim : Network → GroupingConfig → ℕ → Bool → Group → Group
unfolding can_send_new_claim_call send_group is_claim_tx_history_empty
send_claim net cfg now only_first_one g = elim g.db_entry.compressed_tx_data [
  | none ↦ g
  | some payload ↦
      if not (can_send_new_claim_call cfg now g.db_entry)
      then g
      else if only_first_one && not (is_claim_tx_history_empty g.db_entry)
      then g
      else send_group net cfg now g payload
]

-- What the scan of a history has changed: the entries, the last line of the log, and whether
-- OnFinishClaimGroupTxSuccessful was called, which ends the scan.
pub record Scan : Type 0 where
  pub tx_hashes : List TxHashEntry
  pub last_log : LogLine
  pub finished : Bool

abbrev before : TxHashEntry → Scan → Scan
before e s = record s { tx_hashes = e ∷ s.tx_hashes }

-- CheckReceipts' loop over the history, at entry `index`.
unfoldable pub check_history : Network → ℕ → ℕ → LogLine → List TxHashEntry → Scan
unfolding is_pending receipt
check_history net group_id index log [] = record {
  tx_hashes = [];
  last_log = log;
  finished = false;
}
check_history net group_id index log (e ∷ es) =
    let skip = before e (check_history net group_id (suc index) log es) in
    let unchecked =
      before e (check_history net group_id (suc index) (LogLine.check_failed index e.tx_hash) es) in
    let unmined =
      before e (check_history net group_id (suc index) (LogLine.not_mined e.tx_hash) es) in
    let failed =
      before (receipt receipt_failed e)
        (check_history net group_id (suc index) (LogLine.receipt_or_logs e.tx_hash) es) in
    let done : Scan = record {
      tx_hashes = receipt receipt_successful e ∷ es;
      last_log = LogLine.mined_successfully group_id e.tx_hash;
      finished = true;
    } in
    if not (is_pending e) then skip else elim (net.check_tx_was_mined e.tx_hash) [
      | unknown ↦ unchecked
      | waiting ↦ unmined
      | mined status logs ↦ if status == 1 && ltb 0 logs then done else failed
    ]

abbrev put_scan : Group → TxHistory → Scan → Group
put_scan g h s = record g {
  db_entry = record g.db_entry {
    claim_tx_history = some (record h { tx_hashes = s.tx_hashes });
    last_log = s.last_log;
  };
}

abbrev put_finished : Bool → Group → Group
put_finished true g = record g {
  db_entry = record g.db_entry { status = GroupStatus.confirmed };
  txs = put_status TxStatus.confirmed g.txs;
}
put_finished false g = g

-- The body of CheckReceipts' loop over the groups.
unfoldable pub check_receipts_group : Network → Group → Result Group
unfolding check_history
check_receipts_group net g =
    if is_claiming g.db_entry.status
    then elim g.db_entry.claim_tx_history [
      | none ↦ panic
      | some h ↦
          let scan = check_history net g.db_entry.group_id 0 g.db_entry.last_log h.tx_hashes in
          ok (put_finished scan.finished (put_scan g h scan))
    ]
    else ok g

-- OutdateClaims' loop over the history.
unfoldable pub outdate_history : GroupingConfig → ℕ → LogLine → List TxHashEntry → Scan
unfolding is_pending is_exhausted_time_waiting_for_receipt receipt
outdate_history cfg now log [] = record { tx_hashes = []; last_log = log; finished = false }
outdate_history cfg now log (e ∷ es) =
    if is_pending e && is_exhausted_time_waiting_for_receipt now cfg.retry_timeout e
    then before (receipt receipt_failed e)
        (outdate_history cfg now (LogLine.maximum_wait e.tx_hash) es)
    else before e (outdate_history cfg now log es)

unfoldable pub on_fail_group : Group → Group
on_fail_group g = record g {
  db_entry = record g.db_entry {
    status = GroupStatus.failed;
    last_log = LogLine.maximum_retries g.db_entry.group_id;
  };
  txs = put_status TxStatus.failed g.txs;
}

unfoldable pub outdate_pending : GroupingConfig → ℕ → Group → Result Group
unfolding outdate_history
outdate_pending cfg now g =
    if is_claiming g.db_entry.status
    then elim g.db_entry.claim_tx_history [
      | none ↦ panic
      | some h ↦ ok (put_scan g h (outdate_history cfg now g.db_entry.last_log h.tx_hashes))
    ]
    else ok g

-- The body of OutdateClaims' loop over the groups.
unfoldable pub outdate_group : GroupingConfig → ℕ → Group → Result Group
unfolding outdate_pending on_fail_group
outdate_group cfg now g = do
  g' ← outdate_pending cfg now g
  ok (if leb cfg.max_retries g'.db_entry.num_retries then on_fail_group g' else g')
