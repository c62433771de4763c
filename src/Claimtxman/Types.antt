-- ===== src/Claimtxman/Types.antt =====
-- claimtxman/types/monitoredtx.go and claimtxman/config.go: monitored transactions and their groups.
-- Times are nanoseconds; a hash and an address are numbers; a text of the log is a value.
use zkevm_bridge_service.Base.{
  ℕ, ◌+◌, List, [], ◌∷◌, ◌++◌, map, Bool, true, false, ◌&&◌, Option, none, some, ltb, ◌==◌,
  if◌then◌else◌, length, ℕ_discrete, any, keep,
}

pub data TxStatus : Type 0 where
  created failed confirmed compressing claiming : TxStatus

-- `history` is the map of the hashes of the transactions that were sent; `to` may be nil.
pub record MonitoredTx : Type 0 where
  pub deposit_id : ℕ
  pub from : ℕ
  pub to : Option ℕ
  pub nonce : ℕ
  pub value : ℕ
  pub payload : List ℕ
  pub gas : ℕ
  pub gas_price : ℕ
  pub status : TxStatus
  pub history : List ℕ
  pub created_at : ℕ
  pub updated_at : ℕ
  pub group_id : Option ℕ
  pub global_exit_root : ℕ

-- `unset` is the empty string, the status of a group that has no entry yet.
pub data GroupStatus : Type 0 where
  created claiming failed confirmed unset : GroupStatus

pub record TxHashEntry : Type 0 where
  pub tx_hash : ℕ
  pub receipt_status : Option ℕ
  pub created_at : ℕ

abbrev pub receipt_failed : ℕ
receipt_failed = 0

abbrev pub receipt_successful : ℕ
receipt_successful = 1

abbrev pub receipt_outdated : ℕ
receipt_outdated = 2

-- TxHistoryV2.
pub record TxHistory : Type 0 where
  pub version : ℕ
  pub tx_hashes : List TxHashEntry

-- The lines that LastLog takes.
pub data LogLine : Type 0 where
  empty : LogLine
  mined_successfully : ℕ → ℕ → LogLine
  maximum_retries : ℕ → LogLine
  receipt_or_logs : ℕ → LogLine
  maximum_wait : ℕ → LogLine
  check_failed : ℕ → ℕ → LogLine
  not_mined : ℕ → LogLine
  send_failed : ℕ → LogLine

pub record GroupEntry : Type 0 where
  pub group_id : ℕ
  pub status : GroupStatus
  pub deposit_ids : List ℕ
  pub compressed_tx_data : Option (List ℕ)
  pub claim_tx_history : Option TxHistory
  pub created_at : ℕ
  pub updated_at : ℕ
  pub num_retries : ℕ
  pub last_log : LogLine

pub record Group : Type 0 where
  pub db_entry : GroupEntry
  pub txs : List MonitoredTx

pub record GroupingConfig : Type 0 where
  pub trigger_number_of_claims : ℕ
  pub max_number_of_claims_per_group : ℕ
  pub trigger_retained_claim_period : ℕ
  pub max_retries : ℕ
  pub retry_interval : ℕ
  pub retry_timeout : ℕ
  pub gas_offset : ℕ

unfoldable pub is_pending : TxHashEntry → Bool
is_pending e = elim e.receipt_status [ none ↦ true | some _ ↦ false ]

unfoldable pub is_outdated : TxHashEntry → Bool
is_outdated e = elim e.receipt_status [ none ↦ false | some s ↦ s == receipt_outdated ]

unfoldable pub receipt : ℕ → TxHashEntry → TxHashEntry
receipt status e = record e { receipt_status = some status }

-- `now.Sub(t.CreatedAt) > maxTime`
unfoldable pub is_exhausted_time_waiting_for_receipt : ℕ → ℕ → TxHashEntry → Bool
is_exhausted_time_waiting_for_receipt now max_time e = ltb (e.created_at + max_time) now

-- TxHistoryV2.AddPendingTx
unfoldable pub add_hash : ℕ → ℕ → TxHistory → TxHistory
add_hash tx_hash now h = record h {
  tx_hashes =
      h.tx_hashes ++ record { tx_hash = tx_hash; receipt_status = none; created_at = now } ∷ [];
}

-- MonitoredTxGroupDBEntry.AddPendingTx
unfoldable pub add_pending_tx : ℕ → ℕ → GroupEntry → GroupEntry
unfolding add_hash
add_pending_tx tx_hash now m = elim m.claim_tx_history [
  | none ↦ record m {
    claim_tx_history = some (add_hash tx_hash now (record { version = 1; tx_hashes = [] }));
  }
  | some h ↦ record m { claim_tx_history = some (add_hash tx_hash now h) }
]

unfoldable pub is_claim_tx_history_empty : GroupEntry → Bool
is_claim_tx_history_empty m = elim m.claim_tx_history [
  | none ↦ true
  | some h ↦ length h.tx_hashes == 0
]

-- The scan of GetMoreRecentTx: `best` is the entry at `maxIdx`.
unfoldable pub more_recent : TxHashEntry → List TxHashEntry → TxHashEntry
more_recent best [] = best
more_recent best (e ∷ es) = more_recent (if ltb best.created_at e.created_at then e else best) es

unfoldable pub get_more_recent_tx : List TxHashEntry → Option TxHashEntry
unfolding more_recent
get_more_recent_tx [] = none
get_more_recent_tx (e ∷ es) = some (more_recent e (e ∷ es))

unfoldable pub assign_txs_group_id : Group → Group
assign_txs_group_id g = record g {
  txs = map {A = MonitoredTx} (λ tx. record tx { group_id = some g.db_entry.group_id }) g.txs;
}

unfoldable pub new_monitored_tx_group : GroupEntry → List MonitoredTx → Group
unfolding assign_txs_group_id
new_monitored_tx_group entry txs = assign_txs_group_id (record { db_entry = entry; txs = txs })

unfoldable pub add_tx : MonitoredTx → Group → Group
add_tx tx g = record g { txs = g.txs ++ record tx { group_id = some g.db_entry.group_id } ∷ [] }

unfoldable pub get_tx_by_deposit_id : ℕ → List MonitoredTx → Option MonitoredTx
get_tx_by_deposit_id deposit_id [] = none
get_tx_by_deposit_id deposit_id (tx ∷ txs) =
    if tx.deposit_id == deposit_id then some tx else get_tx_by_deposit_id deposit_id txs

abbrev pub get_txs_deposit_id : List MonitoredTx → List ℕ
get_txs_deposit_id = map λ tx. tx.deposit_id

abbrev pub is_created : TxStatus → Bool
is_created TxStatus.created = true
is_created _ = false

abbrev pub is_none {ℓ} : {A : Type ℓ} → Option A → Bool
is_none none = true
is_none (some _) = false

unfoldable pub is_candidate_to_be_grouped : ℕ → MonitoredTx → Bool
is_candidate_to_be_grouped ger tx =
    is_created tx.status
    && length tx.history == 0
    && is_none tx.group_id
    && tx.global_exit_root == ger

-- AddHistory: the map with the hash, or `none` for ErrAlreadyExists.
unfoldable pub add_history : ℕ → MonitoredTx → Option MonitoredTx
unfolding any
add_history tx_hash tx =
    if any (λ h. h == tx_hash) tx.history
    then none
    else some (record tx { history = tx.history ++ tx_hash ∷ [] })

unfoldable pub remove_history : ℕ → MonitoredTx → MonitoredTx
unfolding keep
remove_history tx_hash tx = record tx {
  history = keep (λ h. if h == tx_hash then false else true) tx.history;
}

pub TxStatus-discrete : Discrete TxStatus
TxStatus-discrete = hlevel

pub MonitoredTx-discrete : Discrete MonitoredTx
MonitoredTx-discrete = hlevel ℕ_discrete

pub GroupEntry-discrete : Discrete GroupEntry
GroupEntry-discrete = hlevel ℕ_discrete
