-- ===== src/Claimtxman/Deposits/Tests.antt =====
-- claimtxman/claimtxman.go's claims of three deposits: an asset, a message from an address that is
-- not authorised, and one from an address that is.
use zkevm_bridge_service.Base.{
  ℕ, zero, suc, ◌≡◌, refl, List, [], ◌∷◌, true, false, none, some, any, keep, find, ◌==◌, ok,
  if◌then◌else◌,
}
use zkevm_bridge_service.Base.State.{pure}
use zkevm_bridge_service.Storage.Tables.{Deposit, GlobalExitRoot, Db, serve}
use zkevm_bridge_service.Claimtxman.Types.{MonitoredTx}
use zkevm_bridge_service.Claimtxman.NonceCache.{get_next_nonce}
use zkevm_bridge_service.Claimtxman.Tests.{cache}
use zkevm_bridge_service.Claimtxman.Deposits.{
  ClaimTxManager, Nodes, Claiming, gas, failed, is_claimable, is_deposit_message_allowed,
  claim_deposits, claim_in_tx, claim_deposit, add_claim_tx, retry_gas, next_nonce, store_claim_tx,
  add_monitored,
}
use zkevm_bridge_service.Claimtxman.Deposits.Allowed.{
  IsExtended, monitored, claim_deposits-IsExtended,
}
use zkevm_bridge_service.Claimtxman.Deposits.Queries.{
  put, order_by, matches_address, has_claim, is_ignored, has_monitored_tx, is_pending_to_claim,
  with_blocks, count_pending, select_pending, get_pending_deposits_to_claim,
}
use zkevm_bridge_service.Claimtxman.Deposits.Process.{
  pending_from_l1, messages_from_l1, deposits_from_l1, deposits_to_claim, process_pending_deposits,
}
use zkevm_bridge_service.Claimtxman.Deposits.Processed.{Adds, process_pending_deposits-Adds}

abbrev pub manager : ClaimTxManager
manager = record {
  l2_network_id = 1;
  from = 9;
  authorized_claim_message_addresses = 5 ∷ [];
  retry_number = 3;
  are_claims_between_l2s_enabled = true;
  ignore_deposit_after_x_l1_blocks = 10;
}

abbrev siblings : ℕ → List ℕ
siblings zero = []
siblings (suc n) = 0 ∷ siblings n

abbrev pub answers : Nodes
answers = record {
  claim_proof = λ ger deposit_count network_id. pure (ger, siblings 32, siblings 32);
  build_send_claim = λ deposit proof rollup_proof ger. ok (some 2, deposit.id ∷ []);
  estimate_gas = λ to payload attempt. if attempt == 0 then failed else gas 7;
  l1_block_number = ok 30;
  nonce_at = some 4;
}

abbrev pub deposit : ℕ → ℕ → ℕ → Deposit
deposit id leaf_type address = record {
  leaf_type = leaf_type;
  original_network = 0;
  original_address = address;
  amount = 1;
  destination_network = 1;
  destination_address = 6;
  deposit_count = id;
  block_id = 1;
  block_number = 12;
  network_id = 0;
  tx_hash = 0;
  metadata = [];
  id = id;
  ready_for_claim = true;
}

abbrev pending : List Deposit
pending = deposit 1 0 3 ∷ deposit 2 1 3 ∷ deposit 3 1 5 ∷ []

abbrev pub tables : Db ℕ
tables = record {
  blocks = [];
  deposits = pending;
  roots = [];
  rht = [];
  rollup_exit = [];
  claims = [];
  tokens = [];
  exit_roots = [];
  events = [];
  next_exit_root_id = 1;
  next_deposit_id = 4;
  next_leaf_id = 1;
  next_block_id = 2;
  faults = [];
}

abbrev before : Claiming cache manager answers
before = record {
  db = record { base = tables; monitored_txs = []; ignored = [] };
  nonces = λ _. none;
}

abbrev after : Claiming cache manager answers
after = (claim_deposits cache manager answers 8 pending before).1

claim_deposits-IsExtended_example :
    IsExtended cache manager answers pending [] (monitored cache manager answers after)
claim_deposits-IsExtended_example = claim_deposits-IsExtended cache manager answers 8 pending before

abbrev ids : List MonitoredTx → List ℕ
ids [] = []
ids (t ∷ ts) = t.deposit_id ∷ ids ts

claimed_ids : ids (monitored cache manager answers after) ≡ 1 ∷ 3 ∷ []
unfolding claim_deposits is_claimable is_deposit_message_allowed claim_in_tx claim_deposit
    add_claim_tx retry_gas next_nonce store_claim_tx add_monitored serve any get_next_nonce
claimed_ids = refl

-- The exit roots of the L2 have moved.
abbrev moved : GlobalExitRoot ℕ
moved = record {
  id = 1;
  block_id = 0;
  block_number = 12;
  network_id = 1;
  global_exit_root = 8;
  exit_roots = 6 ∷ 7 ∷ [];
}

abbrev pub synced_tables : Claiming cache manager answers
synced_tables = record before {
  db = record before.db {
    base = record tables {
      blocks = record { id = 1; block_number = 12; block_hash = 3; network_id = 0 } ∷ [];
    };
  };
}

abbrev processed : Claiming cache manager answers
processed = (process_pending_deposits cache manager answers moved synced_tables).1

process_pending_deposits-Adds_example :
    Adds manager false synced_tables.db processed.db.monitored_txs
process_pending_deposits-Adds_example =
    process_pending_deposits-Adds cache manager answers moved synced_tables

ids_of_claims : ids (monitored cache manager answers processed) ≡ 1 ∷ 3 ∷ []
unfolding process_pending_deposits deposits_to_claim deposits_from_l1 messages_from_l1
    pending_from_l1 get_pending_deposits_to_claim count_pending select_pending with_blocks
    is_pending_to_claim has_monitored_tx is_ignored has_claim matches_address order_by put
    claim_deposits is_claimable is_deposit_message_allowed claim_in_tx claim_deposit add_claim_tx
    retry_gas next_nonce store_claim_tx add_monitored serve any keep find get_next_nonce
ids_of_claims = refl
