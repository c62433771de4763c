-- ===== src/Synchronizer/Kept.antt =====
-- The handlers of the events leave what the pool sees as it is.
use zkevm_bridge_service.Base.{ℕ, ◌≡◌, refl, ◌∙◌, List, [], ◌∷◌, Result, ok, err, storage_not_found}
use zkevm_bridge_service.Base.Keeps.{Keeps, keeps_rules}
use zkevm_bridge_service.Bridgectrl.Keccak.{Keccak}
use zkevm_bridge_service.Storage.Tables.{
  Deposit, GlobalExitRoot, SetClaim, BackwardLet, ForwardLet, LeafData,
}
use zkevm_bridge_service.Storage.ExitRoots.{get_l1_exit_root_by_ger, get_l2_exit_roots_by_ger}
use zkevm_bridge_service.Storage.Reads.{
  get_l1_exit_root_by_ger-tables, get_l2_exit_roots_by_ger-tables,
}
use zkevm_bridge_service.Etherman.Types.{VerifiedBatch}
use zkevm_bridge_service.Synchronizer.World.{Config, World, in_pool}
use zkevm_bridge_service.Synchronizer.Rollback.{
  committed, IsRolledBack, or_rollback-IsRolledBack, in_tx-committed, in_trees-committed,
  in_pool-committed,
}
use zkevm_bridge_service.Synchronizer.Events.{
  check_local_exit_root, verify_batch, or_none, update_l2_gers, l1_global_exit_root, known_roots,
  l2_global_exit_root, store_deposit, check_tree, go_backward, add_leaves, go_forward,
  apply_unset_claim, apply_set_claim,
}

module _ {D : Type 0} ⦃k : Keccak D⦄ where
  pub ruleset committed_rules = (keeps_rules, in_tx-committed, in_trees-committed)

  pub check_local_exit_root-committed :
      (cfg : Config) (batch : VerifiedBatch D) → Keeps committed (check_local_exit_root cfg batch)
  unfolding check_local_exit_root
  check_local_exit_root-committed cfg batch = search committed_rules

  pub verify_batch-committed :
      (cfg : Config) (batch : VerifiedBatch D) (id : ℕ)
      → Keeps committed (verify_batch cfg batch id)
  unfolding verify_batch
  verify_batch-committed cfg batch id = search (committed_rules, check_local_exit_root-committed)

  pub or_none-committed :
      (z : Result (List (GlobalExitRoot D)) × World D) → committed (or_none z).1 ≡ committed z.1
  or_none-committed (err storage_not_found, w) = refl
  or_none-committed other = refl

  pub l2_rows-committed :
      (ger : D) → Keeps committed (λ w. or_none (in_pool (get_l2_exit_roots_by_ger ger) w))
  l2_rows-committed ger = record {
    at = λ w.
        or_none-committed (in_pool (get_l2_exit_roots_by_ger ger) w)
        ∙ (get_l2_exit_roots_by_ger-tables ger).at w.db;
  }

  pub update_l2_gers-committed :
      (gers : List (GlobalExitRoot D)) (roots : List D)
      → Keeps committed (update_l2_gers roots gers)
  unfolding update_l2_gers
  update_l2_gers-committed [] roots = search committed_rules
  update_l2_gers-committed (ger ∷ gers) roots =
      search (committed_rules, update_l2_gers-committed gers)

  pub l1_global_exit_root-committed :
      (ger : GlobalExitRoot D) → Keeps committed (l1_global_exit_root ger)
  unfolding l1_global_exit_root
  l1_global_exit_root-committed ger =
      search (committed_rules, l2_rows-committed, update_l2_gers-committed)

  pub known_roots-committed :
      (z : Result (GlobalExitRoot D) × World D) → committed (known_roots z).1 ≡ committed z.1
  known_roots-committed (ok ger, w) = refl
  known_roots-committed (err storage_not_found, w) = refl
  known_roots-committed other = refl

  pub l1_roots-committed :
      (ger : D) → Keeps committed (λ w. known_roots (in_pool (get_l1_exit_root_by_ger ger) w))
  l1_roots-committed ger = record {
    at = λ w.
        known_roots-committed (in_pool (get_l1_exit_root_by_ger ger) w)
        ∙ (get_l1_exit_root_by_ger-tables ger).at w.db;
  }

  pub l2_global_exit_root-committed :
      (ger : GlobalExitRoot D) → Keeps committed (l2_global_exit_root ger)
  unfolding l2_global_exit_root
  l2_global_exit_root-committed ger = search (committed_rules, l1_roots-committed)

  pub store_deposit-committed :
      (deposit : Deposit) → Keeps {W = World D} committed (store_deposit deposit)
  unfolding store_deposit
  store_deposit-committed deposit = search committed_rules

  pub check_tree-committed :
      (cfg : Config) (n : ℕ) (root : D) (count : ℕ) → Keeps committed (check_tree cfg n root count)
  unfolding check_tree
  check_tree-committed cfg n root count = search committed_rules

  pub go_backward-committed :
      (cfg : Config) (event : BackwardLet D) (n : ℕ) → Keeps committed (go_backward cfg event n)
  unfolding go_backward
  go_backward-committed cfg event n = search (committed_rules, check_tree-committed)

  pub add_leaves-committed :
      (ls : List LeafData) (cfg : Config) (event : ForwardLet D) (n initial i : ℕ)
      → Keeps committed (add_leaves cfg event n initial i ls)
  unfolding add_leaves
  add_leaves-committed [] cfg event n initial i = search committed_rules
  add_leaves-committed (l ∷ ls) cfg event n initial i =
      search (committed_rules, store_deposit-committed, add_leaves-committed ls)

  pub go_forward-committed :
      (cfg : Config) (event : ForwardLet D) (n : ℕ) → Keeps committed (go_forward cfg event n)
  unfolding go_forward
  go_forward-committed cfg event n =
      search (committed_rules, check_tree-committed, add_leaves-committed)

  pub apply_unset_claim-committed :
      (cfg : Config) (event : SetClaim)
      → Keeps {W = World D} committed (apply_unset_claim cfg event)
  unfolding apply_unset_claim
  apply_unset_claim-committed cfg event = search committed_rules

  pub apply_set_claim-committed :
      (cfg : Config) (event : SetClaim) (n : ℕ)
      → Keeps {W = World D} committed (apply_set_claim cfg event n)
  unfolding apply_set_claim
  apply_set_claim-committed cfg event n = search committed_rules
