-- ===== src/Claimtxman/Tests.antt =====
-- The theorems on the claims at concrete groups and configurations.
use mathlib.Core.List.{Memᴰ}
use zkevm_bridge_service.Base.{
  ℕ, ◌+◌, ◌≤◌, ◌<◌, ◌≡◌, true, ◌↔◌, ◌⊎◌, ◌==◌, if◌then◌else◌, subst, some-injective, refl, List, [],
  ◌∷◌, false, Option, none, some, u64_mod, Result, ok, arith,
}
use zkevm_bridge_service.Claimtxman.Types.{
  TxStatus, MonitoredTx, GroupStatus, TxHashEntry, TxHistory, LogLine, Group, GroupingConfig,
}
use zkevm_bridge_service.Claimtxman.Trigger.{choose_txs, within_limit, IsOverdue, choose_txs_lem}
use zkevm_bridge_service.Claimtxman.Groups.{
  Network, mined, put_status, check_receipts_group, send_claim,
}
use zkevm_bridge_service.Claimtxman.Groups.Confirm.{
  HasSuccess, hashes_of, check_receipts_group-confirmed,
}
use zkevm_bridge_service.Claimtxman.Groups.Retry.{IsSingle, in_flight}
use zkevm_bridge_service.Claimtxman.Pending.{PendingTxs, process}
use zkevm_bridge_service.Claimtxman.Pending.Exhausted.{process-exhausted}
use zkevm_bridge_service.Claimtxman.Pending.Rounds.{AllGroups, process-AllSingle}
use zkevm_bridge_service.Claimtxman.Single.{
  Receipt, Lookup, found, Estimate, gas_of, check_tx_history, IsClaimed, AreMined,
  check_tx_history_lem, review_monitored_tx, review_monitored_tx-grows,
}
use zkevm_bridge_service.Claimtxman.Single as Single
use zkevm_bridge_service.Claimtxman.NonceCache.{
  NonceStore, get_next_nonce, get_next_nonce-increases,
}

abbrev pub config : GroupingConfig
config = record {
  trigger_number_of_claims = 2;
  max_number_of_claims_per_group = 2;
  trigger_retained_claim_period = 100;
  max_retries = 1;
  retry_interval = 5;
  retry_timeout = 50;
  gas_offset = 3;
}

-- A claim that waits for a group.
abbrev pub claim : ℕ → MonitoredTx
claim deposit_id = record {
  deposit_id = deposit_id;
  from = 1;
  to = some 2;
  nonce = 0;
  value = 0;
  payload = [];
  gas = 0;
  gas_price = 0;
  status = TxStatus.created;
  history = [];
  created_at = 0;
  updated_at = 0;
  group_id = none;
  global_exit_root = 4;
}

abbrev claims : List MonitoredTx
claims = claim 1 ∷ claim 2 ∷ claim 3 ∷ []

abbrev sent : TxHashEntry
sent = record { tx_hash = 11; receipt_status = none; created_at = 2 }

abbrev history : TxHistory
history = record { version = 1; tx_hashes = sent ∷ [] }

-- A group whose first transaction is in flight.
abbrev group : Group
group = record {
  db_entry = record {
    group_id = 1;
    status = GroupStatus.claiming;
    deposit_ids = 1 ∷ [];
    compressed_tx_data = some (9 ∷ []);
    claim_tx_history = some history;
    created_at = 1;
    updated_at = 1;
    num_retries = 1;
    last_log = LogLine.empty;
  };
  txs = claim 1 ∷ [];
}

-- A network on which every transaction is mined with a log.
abbrev network : Network
network = record {
  estimate_gas = λ _. some 5;
  send_compressed_claims = λ _ _. some 12;
  check_tx_was_mined = λ _. mined 1 2;
}

abbrev pending : PendingTxs
pending = record { group_tx = (1, group) ∷ []; tx_candidates_for_group = []; last_group_tx_id = 1 }

choose_txs_lem_example :
    (IsOverdue config 10 claims ⊎ (2 ≤ 3) → choose_txs config 10 claims ≡ within_limit 2 claims)
    × (¬ IsOverdue config 10 claims → 3 < 2 → choose_txs config 10 claims ≡ [])
choose_txs_lem_example = choose_txs_lem config 10 claims

check_receipts_group-confirmed_example :
    (g' : Group) × (h' : TxHistory) × (check_receipts_group network group ≡ ok g')
    × (g'.db_entry.claim_tx_history ≡ some h')
    × (hashes_of h'.tx_hashes ≡ hashes_of history.tx_hashes)
    × (HasSuccess network history.tx_hashes
        → (g'.db_entry.status ≡ GroupStatus.confirmed)
          × (g'.txs ≡ put_status TxStatus.confirmed group.txs))
    × (¬ HasSuccess network history.tx_hashes
        → (g'.db_entry.status ≡ GroupStatus.claiming) × (g'.txs ≡ group.txs))
check_receipts_group-confirmed_example =
    check_receipts_group-confirmed network group history refl refl

-- The group after a round at time 10.
abbrev failed_group : Group
failed_group = record {
  db_entry = record group.db_entry {
    status = GroupStatus.failed;
    claim_tx_history =
        some (record { version = 1; tx_hashes = record sent { receipt_status = some 1 } ∷ [] });
    last_log = LogLine.maximum_retries 1;
  };
  txs = put_status TxStatus.failed group.txs;
}

retries : 1 ≤ (send_claim network config 10 false group).db_entry.num_retries
unfolding send_claim
retries = omega arith

abbrev compress : List MonitoredTx → Result (List ℕ)
compress _ = ok (6 ∷ [])

abbrev pending_after : PendingTxs
pending_after = record pending { group_tx = (1, failed_group) ∷ [] }

processed_all : process network config 10 compress pending ≡ ok pending_after
unfolding process
processed_all = refl

process-exhausted_example :
    (g' : Group) × Memᴰ (1, g') pending_after.group_tx
    × (g'.db_entry.status ≡ GroupStatus.failed)
    × (g'.txs ≡ put_status TxStatus.failed group.txs)
process-exhausted_example =
    process-exhausted network config 10 compress pending pending_after 1 group processed_all
      (Memᴰ.head refl) retries

single : IsSingle group
unfolding in_flight
single = (omega arith, λ e. cc)

process-AllSingle_example : AllGroups IsSingle pending_after.group_tx
process-AllSingle_example =
    process-AllSingle network config 10 compress pending pending_after (single, tt) processed_all

pub own_entry : (from : ℕ) (new old : Option ℕ) → (if from == from then new else old) ≡ new
own_entry from new old = ground arith

-- A cache that holds what is added last for each sender.
abbrev pub cache : NonceStore
cache = record {
  Cache = ℕ → Option ℕ;
  get = λ from c. c from;
  touch = λ from c. c;
  add = λ from nonce c other. if other == from then some nonce else c other;
  remove = λ from c other. if other == from then none else c other;
  get-add = λ from nonce c. own_entry from (some nonce) (c from);
  get-remove = λ from c. own_entry from none (c from);
}

get_next_nonce-increases_example :
    (first second : ℕ) × (c' c'' : ℕ → Option ℕ) × (get_next_nonce cache (some 4) 1 (λ _. some 6)
      ≡ (ok first, c'))
    × (get_next_nonce cache (some 5) 1 c' ≡ (ok second, c''))
    × (4 ≤ first)
    × ((t : ℕ) → some 6 ≡ some t → t < first)
    × (c' 1 ≡ some first)
    × (5 ≤ second)
    × (first < second)
    × (c'' 1 ≡ some second)
get_next_nonce-increases_example =
    get_next_nonce-increases cache 4 5 1 (λ _. some 6)
      (λ t e. subst (λ n. n + 2 < u64_mod) (some-injective e) (omega arith)) (omega arith)

-- A claim that was sent twice; the second transaction was mined.
abbrev sent_twice : MonitoredTx
sent_twice = record (claim 1) { history = 3 ∷ 4 ∷ [] }

abbrev receipts : ℕ → Receipt
receipts tx_hash = if tx_hash == 4 then Single.mined 1 else Single.no_receipt

check_tx_history_lem_example :
    ((check_tx_history receipts (λ _ _. found) 2 sent_twice).receipt_successful ≡ true
      ↔ IsClaimed receipts (3 ∷ 4 ∷ []))
    × ((check_tx_history receipts (λ _ _. found) 2 sent_twice).receipt_successful ≡ false
        → ((check_tx_history receipts (λ _ _. found) 2 sent_twice).all_history_tx_mined ≡ true)
          ↔ AreMined receipts (3 ∷ 4 ∷ []))
check_tx_history_lem_example = check_tx_history_lem receipts (λ _ _. found) 2 sent_twice

review_monitored_tx-grows_example :
    (0 ≤ (review_monitored_tx (λ _. gas_of 8) 2 (ok 5) true sent_twice).1.gas)
    × (0 ≤ (review_monitored_tx (λ _. gas_of 8) 2 (ok 5) true sent_twice).1.nonce)
    × ((review_monitored_tx (λ _. gas_of 8) 2 (ok 5) true sent_twice).1.status ≡ TxStatus.created)
    × ((review_monitored_tx (λ _. gas_of 8) 2 (ok 5) false sent_twice).1.nonce ≡ 0)
review_monitored_tx-grows_example =
    review_monitored_tx-grows (λ _. gas_of 8) 2 (ok 5) true sent_twice
