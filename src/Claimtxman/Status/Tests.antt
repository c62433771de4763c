-- ===== src/Claimtxman/Status/Tests.antt =====
-- updateDepositsStatus of claimtxman/claimtxman.go on three deposits from L1 of which a global exit
-- root has the first two.
use zkevm_bridge_service.Base.{ℕ, ◌≡◌, refl, List, [], ◌∷◌, Bool, true, false, ℕ_discrete}
use zkevm_bridge_service.Bridgectrl.Tests.{Term, Term-discrete, term_keccak, empty, pair, empty_db}
use zkevm_bridge_service.Storage.Tables.{Deposit, GlobalExitRoot, Db, serve}
use zkevm_bridge_service.Storage.Trees.{same_digest}
use zkevm_bridge_service.Storage.Ready.{
  scalar, counts_at, mark, is_l1_deposit_to, is_l2_deposit, mark_ready, root_counts, leaves_at,
  mark_up_to, update_l1_deposits_status, update_l2_deposits_status,
}
use zkevm_bridge_service.Claimtxman.Deposits.Tests.{deposit}
use zkevm_bridge_service.Claimtxman.Status.{
  Network, in_transaction, update_by_ger, update_deposits_status,
}
use zkevm_bridge_service.Claimtxman.Status.Marks.{IsMarked}
use zkevm_bridge_service.Claimtxman.Status.Proven.{IsProven, update_deposits_status-IsMarked}

abbrev net : Network
net = record { l2_network_id = 1; rollup_id = 1 }

abbrev root : Term
root = pair empty empty

abbrev unready : ℕ → Deposit
unready id = record (deposit id 0 3) { ready_for_claim = false }

abbrev db : Db Term
db = record empty_db {
  deposits = unready 1 ∷ unready 2 ∷ unready 3 ∷ [];
  roots = record { root = root; deposit_id = 2; network = 0 } ∷ [];
}

abbrev ger : GlobalExitRoot Term
ger = record {
  id = 1;
  block_id = 4;
  block_number = 0;
  network_id = 1;
  global_exit_root = empty;
  exit_roots = root ∷ empty ∷ [];
}

update_deposits_status-IsMarked_example :
    IsMarked (IsProven net false (root ∷ empty ∷ []) db) db (update_deposits_status net ger db).1
update_deposits_status-IsMarked_example = update_deposits_status-IsMarked net ger db

abbrev ready_ids : List Deposit → List (ℕ × Bool)
ready_ids [] = []
ready_ids (d ∷ ds) = (d.id, d.ready_for_claim) ∷ ready_ids ds

two_are_ready :
    ready_ids (update_deposits_status net ger db).1.deposits
    ≡ (1, true) ∷ (2, true) ∷ (3, false) ∷ []
unfolding same_digest scalar counts_at mark is_l1_deposit_to is_l2_deposit mark_ready root_counts
    leaves_at mark_up_to update_l1_deposits_status update_l2_deposits_status in_transaction
    update_by_ger update_deposits_status serve Term-discrete ℕ_discrete
two_are_ready = refl
