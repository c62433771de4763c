-- ===== src/Claimtxman/Compressed.antt =====
-- claimtxman/monitor_compressed_txs.go: MonitorTxs, one round of the claims that are sent in groups,
-- with its statements in db/pgstorage/pgstorage_monitored_txs_group.go. The history's JSON is left
-- out; columns that a statement does not name keep their value, or are empty in what it reads.
-- A transaction that is not committed leaves no trace.
use zkevm_bridge_service.Base.{
  ℕ, List, [], ◌∷◌, ◌++◌, map, Bool, true, false, none, some, keep, any, leb, ◌==◌, if◌then◌else◌,
  Result, ok, err, panic, already_exists,
}
use zkevm_bridge_service.Base.State.{State, ◌>>=◌, ◌>>◌, pure, lift, gets, modify, fail, zoom}
use zkevm_bridge_service.Storage.Tables.{Db, serve}
use zkevm_bridge_service.Claimtxman.Types.{
  TxStatus, MonitoredTx, LogLine, GroupEntry, GroupingConfig,
}
use zkevm_bridge_service.Claimtxman.Groups.{Network}
use zkevm_bridge_service.Claimtxman.Pending.{
  PendingTxs, StoreChanges, new_pending_txs, is_empty, process, generate_store_update,
}
use zkevm_bridge_service.Claimtxman.Deposits.{ClaimDb}
use zkevm_bridge_service.Claimtxman.Deposits.Queries.{order_by}
use zkevm_bridge_service.Claimtxman.Monitor.{set_columns}

-- The tables with sync.monitored_txs_group.
pub record Grouped : Type 0 where
  pub db : ClaimDb
  pub groups : List GroupEntry

abbrev pub on_base : {A : Type 0} → State (Db ℕ) A → State Grouped A
on_base = zoom (λ w. w.db.base) (λ b w. record w { db = record w.db { base = b } })

-- The statuses that getPendingTxs asks for.
abbrev pub is_unfinished : TxStatus → Bool
is_unfinished TxStatus.created = true
is_unfinished TxStatus.compressing = true
is_unfinished TxStatus.claiming = true
is_unfinished _ = false

unfoldable pub is_unfinished_claim : ℕ → ClaimDb → MonitoredTx → Bool
unfolding any
is_unfinished_claim rollup_id db tx =
    if is_unfinished tx.status
    then any (λ d. if d.id == tx.deposit_id then d.destination_network == rollup_id else false)
        db.base.deposits
    else false

unfoldable pub get_claim_txs_by_status : ℕ → State Grouped (List MonitoredTx)
unfolding serve keep is_unfinished_claim order_by
get_claim_txs_by_status rollup_id = do
  on_base serve
  gets λ w.
      order_by (λ s t. leb s.created_at t.created_at)
        (keep (is_unfinished_claim rollup_id w.db) w.db.monitored_txs)

-- getGroupsIds, whose order no query depends on.
unfoldable pub get_groups_ids : List MonitoredTx → List ℕ
get_groups_ids [] = []
get_groups_ids (tx ∷ txs) =
    let rest = get_groups_ids txs in elim tx.group_id [ none ↦ rest | some id ↦ id ∷ rest ]

-- A row of GetMonitoredTxsGroups.
abbrev pub read_group : GroupEntry → ℕ × GroupEntry
read_group e = (e.group_id, record e { deposit_ids = []; last_log = LogLine.empty })

unfoldable pub get_monitored_txs_groups : List ℕ → State Grouped (List (ℕ × GroupEntry))
unfolding serve keep any
get_monitored_txs_groups group_ids = do
  on_base serve
  gets λ w. map read_group (keep (λ e. any (λ id. id == e.group_id) group_ids) w.groups)

unfoldable pub latest_group_id : List GroupEntry → ℕ
latest_group_id [] = 0
latest_group_id (e ∷ es) =
    let rest = latest_group_id es in if leb rest e.group_id then e.group_id else rest

unfoldable pub get_latest_monitored_tx_group_id : State Grouped ℕ
unfolding serve latest_group_id
get_latest_monitored_tx_group_id = do on_base serve; gets λ w. latest_group_id w.groups

-- The column last_log has no value in the row of a new group; group_id is the primary key.
unfoldable pub add_monitored_txs_group : GroupEntry → State Grouped (Unit {0})
unfolding serve any
add_monitored_txs_group group = do
  on_base serve
  held ← gets λ w. any (λ e. e.group_id == group.group_id) w.groups
  if held
      then fail already_exists
      else modify
          λ w. record w { groups = w.groups ++ record group { last_log = LogLine.empty } ∷ [] }

unfoldable pub set_group_columns : GroupEntry → GroupEntry → GroupEntry
set_group_columns group row =
    if row.group_id == group.group_id
    then record group { deposit_ids = row.deposit_ids; created_at = row.created_at }
    else row

unfoldable pub update_monitored_txs_group : GroupEntry → State Grouped (Unit {0})
unfolding serve set_group_columns
update_monitored_txs_group group = do
  on_base serve
  modify λ w. record w { groups = map (set_group_columns group) w.groups }

unfoldable pub update_claim_tx : MonitoredTx → State Grouped (Unit {0})
unfolding serve set_columns
update_claim_tx tx = do
  on_base serve
  modify
      λ w. record w { db = record w.db { monitored_txs = map (set_columns tx) w.db.monitored_txs } }

unfoldable pub for_each :
    {A : Type 0} → (A → State Grouped (Unit {0})) → List A → State Grouped (Unit {0})
for_each f [] = pure tt
for_each f (x ∷ xs) = do f x; for_each f xs

-- StoreChanges.Execute.
unfoldable pub execute : ℕ → StoreChanges → State Grouped (Unit {0})
unfolding for_each add_monitored_txs_group update_monitored_txs_group update_claim_tx
execute now changes = do
  for_each add_monitored_txs_group changes.add_groups
  for_each (λ g. update_monitored_txs_group (record g { updated_at = now })) changes.update_groups
  for_each update_claim_tx changes.update_txs

-- The fields of MonitorCompressedTxs that are read, and the answers in a round.
pub record MonitorCompressed : Type 0 where
  pub rollup_id : ℕ
  pub grouping : GroupingConfig
  pub now : ℕ
  pub network : Network
  pub compress : List MonitoredTx → Result (List ℕ)

unfoldable pub get_pending_txs : ℕ → State Grouped PendingTxs
unfolding get_claim_txs_by_status get_groups_ids get_monitored_txs_groups
    get_latest_monitored_tx_group_id new_pending_txs
get_pending_txs rollup_id = do
  m_txs ← get_claim_txs_by_status rollup_id
  groups ← get_monitored_txs_groups (get_groups_ids m_txs)
  last_group_id ← get_latest_monitored_tx_group_id
  lift (new_pending_txs m_txs groups last_group_id)

unfoldable pub store_round : MonitorCompressed → PendingTxs → State Grouped (Unit {0})
unfolding get_pending_txs process generate_store_update execute
store_round tm pending_tx = do
  initial_status ← get_pending_txs tm.rollup_id
  processed ← lift (process tm.network tm.grouping tm.now tm.compress pending_tx)
  store_update ← lift (generate_store_update initial_status processed tm.now)
  execute tm.now store_update

-- internalMonitorTxs.
unfoldable pub internal_monitor_txs : MonitorCompressed → State Grouped (Unit {0})
unfolding get_pending_txs is_empty store_round
internal_monitor_txs tm = do
  pending_tx ← get_pending_txs tm.rollup_id
  if is_empty pending_tx then pure tt else store_round tm pending_tx

-- The tables of before, after a transaction that was not committed.
abbrev pub undone : Grouped → Grouped → Grouped
undone before w = record before {
  db = record before.db { base = record before.db.base { faults = w.db.base.faults } };
}

abbrev pub committed : Grouped → Result (Unit {0}) × Grouped → Result (Unit {0}) × Grouped
committed before (ok _, w) = (ok tt, w)
committed before (err e, w) = (err e, undone before w)
committed before (panic, w) = (panic, undone before w)

-- The error of Rollback is ignored; a panic leaves without it.
abbrev pub ended : Grouped → Result (Unit {0}) × Grouped → Result (Unit {0}) × Grouped
ended before (ok _, w) = committed before (on_base serve w)
ended before (err e, w) = (err e, undone before (on_base serve w).1)
ended before (panic, w) = (panic, undone before w)

abbrev pub begun_with :
    MonitorCompressed → Result (Unit {0}) × Grouped → Result (Unit {0}) × Grouped
begun_with tm (ok _, w) = ended w (internal_monitor_txs tm w)
begun_with tm (err e, w) = (err e, w)
begun_with tm (panic, w) = (panic, w)

-- MonitorTxs.
unfoldable pub monitor_compressed_txs : MonitorCompressed → State Grouped (Unit {0})
unfolding serve internal_monitor_txs
monitor_compressed_txs tm w = begun_with tm (on_base serve w)
