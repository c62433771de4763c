-- ===== src/Claimtxman/Pending.antt =====
-- claimtxman/pending_txs.go, store_changes.go and monitor_compressed_txs.go: the pending
-- transactions, what a round makes of them, and what it stores.
-- The map of the groups is a list of pairs; the order of Go's loops over it is the list's.
pub mod Rounds
pub mod Exhausted
use zkevm_bridge_service.Base.{
  ℕ, suc, ◌+◌, ◌%◌, List, [], ◌∷◌, ◌++◌, map, Bool, true, false, Option, none, some, ◌==◌,
  if◌then◌else◌, length, any, u64_mod, Result, ok, err, panic, ◌>>=◌, group_not_found, tx_not_found,
}
use zkevm_bridge_service.Claimtxman.Types.{
  MonitoredTx, GroupStatus, LogLine, GroupEntry, Group, GroupingConfig, assign_txs_group_id,
  new_monitored_tx_group, add_tx, get_tx_by_deposit_id, get_txs_deposit_id,
  is_candidate_to_be_grouped, MonitoredTx-discrete, GroupEntry-discrete,
}
use zkevm_bridge_service.Claimtxman.Trigger.{choose_txs}
use zkevm_bridge_service.Claimtxman.Groups.{
  Network, send_claim, check_receipts_group, outdate_group,
}

pub record PendingTxs : Type 0 where
  pub group_tx : List (ℕ × Group)
  pub tx_candidates_for_group : List MonitoredTx
  pub last_group_tx_id : ℕ

unfoldable pub get_group : ℕ → List (ℕ × Group) → Option Group
get_group id [] = none
get_group id ((i, g) ∷ gs) = if i == id then some g else get_group id gs

-- `m.GroupTx[id] = &group`
unfoldable pub put_group : ℕ → Group → List (ℕ × Group) → List (ℕ × Group)
put_group id group [] = (id, group) ∷ []
put_group id group ((i, g) ∷ gs) =
    let rest = put_group id group gs in if i == id then (id, group) ∷ gs else (i, g) ∷ rest

unfoldable pub is_empty : PendingTxs → Bool
is_empty p = if length p.group_tx == 0 then length p.tx_candidates_for_group == 0 else false

unfoldable pub generate_new_group_id : PendingTxs → PendingTxs
generate_new_group_id p = record p { last_group_tx_id = (p.last_group_tx_id + 1) % u64_mod }

-- `MonitoredTxGroup{}`
abbrev pub empty_group : Group
empty_group = record {
  db_entry = record {
    group_id = 0;
    status = GroupStatus.unset;
    deposit_ids = [];
    compressed_tx_data = none;
    claim_tx_history = none;
    created_at = 0;
    updated_at = 0;
    num_retries = 0;
    last_log = LogLine.empty;
  };
  txs = [];
}

abbrev pub or_empty : Option Group → Group
or_empty none = empty_group
or_empty (some g) = g

unfoldable pub add_tx_to_group : ℕ → MonitoredTx → PendingTxs → PendingTxs
unfolding get_group put_group add_tx
add_tx_to_group group tx p = record p {
  group_tx = put_group group (add_tx tx (or_empty (get_group group p.group_tx))) p.group_tx;
}

unfoldable pub add_group : Group → PendingTxs → PendingTxs
unfolding get_group put_group
add_group group p = elim (get_group group.db_entry.group_id p.group_tx) [
  | some _ ↦ p
  | none ↦ record p { group_tx = put_group group.db_entry.group_id group p.group_tx }
]

unfoldable pub set_group_db_entry : GroupEntry → PendingTxs → PendingTxs
unfolding get_group put_group assign_txs_group_id
set_group_db_entry group p =
    let held = or_empty (get_group group.group_id p.group_tx) in
    record p {
      group_tx =
          put_group group.group_id (assign_txs_group_id (record held { db_entry = group }))
            p.group_tx;
    }

unfoldable pub get_entry : ℕ → List (ℕ × GroupEntry) → Option GroupEntry
get_entry id [] = none
get_entry id ((i, e) ∷ es) = if i == id then some e else get_entry id es

-- A transaction that is no candidate, in the loop of NewPendingTxs.
unfoldable pub add_grouped : List (ℕ × GroupEntry) → MonitoredTx → PendingTxs → Result PendingTxs
unfolding get_entry set_group_db_entry add_tx_to_group
add_grouped groups tx p = elim tx.group_id [
  | none ↦ ok p
  | some id ↦ elim (get_entry id groups) [
    | none ↦ err group_not_found
    | some entry ↦ ok (add_tx_to_group id tx (set_group_db_entry entry p))
  ]
]

-- The loop of NewPendingTxs.
unfoldable pub sort_txs :
    ℕ → List (ℕ × GroupEntry) → List MonitoredTx → PendingTxs → Result PendingTxs
unfolding is_candidate_to_be_grouped add_grouped
sort_txs ger groups [] p = ok p
sort_txs ger groups (tx ∷ txs) p =
    (if is_candidate_to_be_grouped ger tx
      then ok (record p { tx_candidates_for_group = p.tx_candidates_for_group ++ tx ∷ [] })
      else add_grouped groups tx p)
    >>= λ p'. sort_txs ger groups txs p'

-- The global exit root of the first transaction.
abbrev pub first_ger : List MonitoredTx → ℕ
first_ger [] = 0
first_ger (tx ∷ txs) = tx.global_exit_root

unfoldable pub new_pending_txs : List MonitoredTx → List (ℕ × GroupEntry) → ℕ → Result PendingTxs
unfolding sort_txs
new_pending_txs txs groups last_group_id =
    sort_txs (first_ger txs) groups txs
      (record { group_tx = []; tx_candidates_for_group = []; last_group_tx_id = last_group_id })

pub record StoreChanges : Type 0 where
  pub add_groups : List GroupEntry
  pub update_groups : List GroupEntry
  pub update_txs : List MonitoredTx

abbrev no_changes : StoreChanges
no_changes = record { add_groups = []; update_groups = []; update_txs = [] }

-- The first loop of GenerateStoreUpdate.
unfoldable pub group_changes : ℕ → List (ℕ × Group) → List (ℕ × Group) → StoreChanges
unfolding get_group
group_changes now old [] = no_changes
group_changes now old ((id, group) ∷ gs) =
    let rest = group_changes now old gs in
    elim (get_group id old) [
      | none ↦
          let entry = record group.db_entry {
            updated_at = now;
            deposit_ids = get_txs_deposit_id group.txs;
          } in
          record rest { add_groups = entry ∷ rest.add_groups }
      | some old_group ↦ elim (GroupEntry-discrete old_group.db_entry group.db_entry) [
        | yes _ ↦ rest
        | no _ ↦ record rest {
          update_groups = record group.db_entry { updated_at = now } ∷ rest.update_groups;
        }
      ]
    ]

-- The transactions of a group that differ from those the old state holds.
unfoldable pub changed_txs : List MonitoredTx → List MonitoredTx → Result (List MonitoredTx)
unfolding get_tx_by_deposit_id
changed_txs old [] = ok []
changed_txs old (tx ∷ txs) =
    let rest = changed_txs old txs in
    elim (get_tx_by_deposit_id tx.deposit_id old) [
      | none ↦ err tx_not_found
      | some old_tx ↦ elim (MonitoredTx-discrete old_tx tx) [
        | yes _ ↦ rest
        | no _ ↦ rest >>= λ changed. ok (tx ∷ changed)
      ]
    ]

-- The second loop of GenerateStoreUpdate.
unfoldable pub tx_changes : List (ℕ × Group) → List (ℕ × Group) → Result (List MonitoredTx)
unfolding get_group changed_txs
tx_changes old [] = ok []
tx_changes old ((id, group) ∷ gs) = do
  changed ← elim (get_group id old) [
    | none ↦ ok group.txs
    | some old_group ↦ changed_txs old_group.txs group.txs
  ]
  rest ← tx_changes old gs
  ok (changed ++ rest)

unfoldable pub generate_store_update : PendingTxs → PendingTxs → ℕ → Result StoreChanges
unfolding group_changes tx_changes
generate_store_update old_state new_state now = do
  changed ← tx_changes old_state.group_tx new_state.group_tx
  ok (record (group_changes now old_state.group_tx new_state.group_tx) { update_txs = changed })

unfoldable pub send_claims : Network → GroupingConfig → ℕ → Bool → PendingTxs → PendingTxs
unfolding send_claim
send_claims net cfg now only_first_one p = record p {
  group_tx = map (λ (id, g). (id, send_claim net cfg now only_first_one g)) p.group_tx;
}

-- A loop whose body may panic.
unfoldable pub each_group : (Group → Result Group) → List (ℕ × Group) → Result (List (ℕ × Group))
each_group f [] = ok []
each_group f ((id, g) ∷ gs) = do g' ← f g; gs' ← each_group f gs; ok ((id, g') ∷ gs')

unfoldable pub check_receipts : Network → PendingTxs → Result PendingTxs
unfolding each_group check_receipts_group
check_receipts net p = do
  gs ← each_group (check_receipts_group net) p.group_tx
  ok (record p { group_tx = gs })

unfoldable pub outdate_claims : GroupingConfig → ℕ → PendingTxs → Result PendingTxs
unfolding each_group outdate_group
outdate_claims cfg now p = do
  gs ← each_group (outdate_group cfg now) p.group_tx
  ok (record p { group_tx = gs })

-- The entry of a new group, before and after the compression of its claims.
abbrev pub new_entry : ℕ → ℕ → GroupEntry
new_entry id now = record {
  group_id = id;
  status = GroupStatus.created;
  deposit_ids = [];
  compressed_tx_data = none;
  claim_tx_history = none;
  created_at = now;
  updated_at = 0;
  num_retries = 0;
  last_log = LogLine.empty;
}

abbrev pub put_compressed : List ℕ → Group → Group
put_compressed data_of g = record g {
  db_entry = record g.db_entry { compressed_tx_data = some data_of };
}

-- `compress` is GetCompressClaimParametersFromMonitoredTx and the contract's CompressClaimCall.
unfoldable pub create_new_groups :
    GroupingConfig → ℕ → (List MonitoredTx → Result (List ℕ)) → PendingTxs → Result PendingTxs
unfolding choose_txs generate_new_group_id new_monitored_tx_group add_group
create_new_groups cfg now compress p =
    let group_txs = choose_txs cfg now p.tx_candidates_for_group in
    if length group_txs == 0
    then ok p
    else let numbered = generate_new_group_id p in
      let group = new_monitored_tx_group (new_entry numbered.last_group_tx_id now) group_txs in
      compress group.txs >>= λ data_of. ok (add_group (put_compressed data_of group) numbered)

unfoldable pub process :
    Network
    → GroupingConfig
    → ℕ
    → (List MonitoredTx → Result (List ℕ))
    → PendingTxs
    → Result PendingTxs
unfolding send_claims check_receipts outdate_claims create_new_groups
process net cfg now compress p = do
  checked ← check_receipts net (send_claims net cfg now false p)
  outdated ← outdate_claims cfg now checked
  create_new_groups cfg now compress outdated
