-- ===== src/Synchronizer/Events.antt =====
-- synchronizer/synchronizer.go: the handlers of the events of a block. A panic ends the process.
use zkevm_bridge_service.Base.{
  ℕ, ◌+◌, ◌%◌, List, [], ◌∷◌, false, ◌&&◌, some, any, ◌==◌, if◌then◌else◌, length, u32_mod, Result,
  ok, err, panic, storage_not_found, exit_roots_length, wrong_root, wrong_destination,
}
use zkevm_bridge_service.Base.State.{State, ◌>>=◌, ◌>>◌, pure, fail}
use zkevm_bridge_service.Bridgectrl.Keccak.{Keccak}
use zkevm_bridge_service.Bridgectrl.Controller.{
  add_deposit, reorg_mt, get_exit_root, add_rollup_leaf,
}
use zkevm_bridge_service.Storage.Tables.{
  Deposit, Claim, GlobalExitRoot, SetClaim, BackwardLet, ForwardLet, LeafData, TokenWrapped,
  backward_let, forward_let, set_claim, unset_claim,
}
use zkevm_bridge_service.Storage.Trees.{same_digest, check_if_root_exists}
use zkevm_bridge_service.Storage.Chain.{
  insert_deposit, get_deposit, add_claim, add_event, add_token_wrapped, DecodeToken,
  delete_claim_by_global_index, get_number_deposits, reset_deposits,
}
use zkevm_bridge_service.Storage.ExitRoots.{
  add_global_exit_root, get_l1_exit_root_by_ger, get_l2_exit_roots_by_ger, update_l2_ger,
  add_remove_l2_ger,
}
use zkevm_bridge_service.Etherman.Types.{VerifiedBatch}
use zkevm_bridge_service.Synchronizer.World.{
  Config, World, Outcome, in_tx, in_pool, in_trees, or_rollback,
}

abbrev pub claim_of : Config → SetClaim → ℕ → Deposit → Claim
claim_of cfg event block_number deposit = record {
  mainnet_flag = event.mainnet_flag;
  rollup_index = event.rollup_index;
  index = event.index;
  original_network = deposit.original_network;
  original_address = deposit.original_address;
  amount = deposit.amount;
  destination_address = deposit.destination_address;
  block_id = event.block_id;
  block_number = block_number;
  network_id = cfg.network_id;
  tx_hash = event.tx_hash;
  global_index = event.global_index;
}

-- `RollupIndex + 1` is a uint32.
abbrev pub deposit_network : SetClaim → ℕ
deposit_network event = if event.mainnet_flag then 0 else (event.rollup_index + 1) % u32_mod

module _ {D : Type 0} ⦃k : Keccak D⦄ where
  -- The calculated exit root of a rollup that this service follows has to be there.
  unfoldable pub check_local_exit_root : Config → VerifiedBatch D → State (World D) (Unit {0})
  unfolding check_if_root_exists any
  check_local_exit_root cfg batch =
      if any (λ n. batch.rollup_id == n) cfg.all_network_ids
      then (do
        exists ← in_tx (check_if_root_exists batch.local_exit_root batch.rollup_id)
        if exists then pure tt else fail wrong_root)
      else pure tt

  unfoldable pub verify_batch : Config → VerifiedBatch D → ℕ → State (World D) (Unit {0})
  unfolding check_local_exit_root add_rollup_leaf
  verify_batch cfg batch block_id = do
    check_local_exit_root cfg batch
    in_trees (
        add_rollup_leaf (record {
          id = 0;
          leaf = batch.local_exit_root;
          rollup_id = batch.rollup_id;
          root = k.hash_zero;
          block_id = block_id;
        }))

  unfoldable pub process_verify_batch :
      Config → VerifiedBatch D → ℕ → World D → Outcome D (Unit {0})
  unfolding same_digest verify_batch or_rollback
  process_verify_batch cfg batch block_id w =
      if same_digest batch.local_exit_root k.hash_zero
      then some (ok tt, w)
      else or_rollback cfg (verify_batch cfg batch block_id) w

  -- `err != nil && !errors.Is(err, ErrStorageNotFound)`: no row is no row to update.
  abbrev pub or_none :
      Result (List (GlobalExitRoot D)) × World D → Result (List (GlobalExitRoot D)) × World D
  or_none (err storage_not_found, w) = (ok [], w)
  or_none (ok gers, w) = (ok gers, w)
  or_none (err e, w) = (err e, w)
  or_none (panic, w) = (panic, w)

  -- The loop over the rows of the other networks that wait for their exit roots.
  unfoldable pub update_l2_gers : List D → List (GlobalExitRoot D) → State (World D) (Unit {0})
  unfolding update_l2_ger
  update_l2_gers exit_roots [] = pure tt
  update_l2_gers exit_roots (ger ∷ gers) = do
    in_tx (update_l2_ger (record ger { exit_roots = exit_roots }))
    update_l2_gers exit_roots gers

  unfoldable pub l1_global_exit_root : GlobalExitRoot D → State (World D) (Unit {0})
  unfolding get_l2_exit_roots_by_ger update_l2_gers add_global_exit_root
  l1_global_exit_root ger = do
    gers ← λ w. or_none (in_pool (get_l2_exit_roots_by_ger ger.global_exit_root) w)
    update_l2_gers ger.exit_roots gers
    in_tx (add_global_exit_root ger)

  -- The exit roots of L1's row of the root, if there is one.
  abbrev pub known_roots : Result (GlobalExitRoot D) × World D → Result (List D) × World D
  known_roots (ok l1_ger, w) = (ok l1_ger.exit_roots, w)
  known_roots (err storage_not_found, w) = (ok [], w)
  known_roots (err e, w) = (err e, w)
  known_roots (panic, w) = (panic, w)

  unfoldable pub l2_global_exit_root : GlobalExitRoot D → State (World D) (Unit {0})
  unfolding get_l1_exit_root_by_ger add_global_exit_root
  l2_global_exit_root ger = do
    exit_roots ← λ w. known_roots (in_pool (get_l1_exit_root_by_ger ger.global_exit_root) w)
    in_tx (add_global_exit_root (record ger { exit_roots = exit_roots }))

  -- Exit roots of another length than 0 and 2 are refused without a rollback.
  unfoldable pub process_global_exit_root :
      Config → GlobalExitRoot D → ℕ → World D → Outcome D (Unit {0})
  unfolding l1_global_exit_root l2_global_exit_root or_rollback
  process_global_exit_root cfg event block_id w =
      let ger = record event { block_id = block_id; network_id = cfg.network_id } in
      if length ger.exit_roots == 2
      then or_rollback cfg (l1_global_exit_root ger) w
      else if length ger.exit_roots == 0
      then or_rollback cfg (l2_global_exit_root ger) w
      else some (err exit_roots_length, w)

  -- A deposit's row and its leaf.
  unfoldable pub store_deposit : Deposit → State (World D) (Unit {0})
  unfolding insert_deposit add_deposit
  store_deposit deposit = do
    deposit_id ← in_tx (insert_deposit deposit)
    in_trees (add_deposit (record deposit { id = deposit_id }))

  unfoldable pub process_deposit : Config → Deposit → ℕ → World D → Outcome D (Unit {0})
  unfolding store_deposit or_rollback
  process_deposit cfg deposit block_id =
      or_rollback cfg
        (store_deposit (record deposit { block_id = block_id; network_id = cfg.network_id }))

  unfoldable pub process_claim : Config → Claim → ℕ → World D → Outcome D (Unit {0})
  unfolding add_claim or_rollback
  process_claim cfg claim block_id =
      or_rollback cfg
        (in_tx (add_claim (record claim { block_id = block_id; network_id = cfg.network_id })))

  unfoldable pub process_token_wrapped :
      Config → DecodeToken → TokenWrapped → ℕ → World D → Outcome D (Unit {0})
  unfolding add_token_wrapped or_rollback
  process_token_wrapped cfg decode token block_id = or_rollback cfg (
      in_tx (
        add_token_wrapped decode
          (record token { block_id = block_id; network_id = cfg.network_id })))

  unfoldable pub process_remove_l2_global_exit_root :
      Config → GlobalExitRoot D → ℕ → World D → Outcome D (Unit {0})
  unfolding add_remove_l2_ger or_rollback
  process_remove_l2_global_exit_root cfg ger block_id =
      or_rollback cfg (
        in_tx (add_remove_l2_ger (record ger { block_id = block_id; network_id = cfg.network_id })))

  -- The tree's root and the number of deposits are those of an event.
  unfoldable pub check_tree : Config → ℕ → D → ℕ → State (World D) (Unit {0})
  unfolding get_number_deposits get_exit_root same_digest
  check_tree cfg block_number root deposit_count = do
    deposit_cnt ← in_tx (get_number_deposits cfg.network_id block_number)
    let_root ← in_trees (get_exit_root cfg.network_id)
    if same_digest let_root root && deposit_cnt == deposit_count then pure tt else fail wrong_root

  unfoldable pub go_backward : Config → BackwardLet D → ℕ → State (World D) (Unit {0})
  unfolding check_tree reset_deposits reorg_mt add_event
  go_backward cfg event block_number = do
    check_tree cfg block_number event.previous_root event.previous_deposit_count
    in_tx (reset_deposits event.new_deposit_count cfg.network_id)
    in_trees (reorg_mt event.new_deposit_count cfg.network_id)
    check_tree cfg block_number event.new_root event.new_deposit_count
    in_tx (add_event (backward_let event))

  unfoldable pub process_backward_let_sovereign :
      Config → BackwardLet D → ℕ → ℕ → World D → Outcome D (Unit {0})
  unfolding go_backward or_rollback
  process_backward_let_sovereign cfg event block_id block_number =
      or_rollback cfg (go_backward cfg (record event { block_id = block_id }) block_number)

  abbrev pub deposit_of_leaf : Config → ForwardLet D → ℕ → ℕ → LeafData → Deposit
  deposit_of_leaf cfg event block_number deposit_count l = record {
    leaf_type = l.leaf_type;
    original_network = l.origin_network;
    original_address = l.origin_address;
    amount = l.amount;
    destination_network = l.destination_network;
    destination_address = l.destination_address;
    deposit_count = deposit_count;
    block_id = event.block_id;
    block_number = block_number;
    network_id = cfg.network_id;
    tx_hash = event.tx_hash;
    metadata = l.metadata;
    id = 0;
    ready_for_claim = false;
  }

  -- The loop over the new leaves, from the index `i` on.
  unfoldable pub add_leaves :
      Config → ForwardLet D → ℕ → ℕ → ℕ → List LeafData → State (World D) (Unit {0})
  unfolding store_deposit
  add_leaves cfg event block_number initial i [] = pure tt
  add_leaves cfg event block_number initial i (l ∷ ls) = do
    store_deposit (deposit_of_leaf cfg event block_number ((initial + i) % u32_mod) l)
    add_leaves cfg event block_number initial (i + 1) ls

  unfoldable pub go_forward : Config → ForwardLet D → ℕ → State (World D) (Unit {0})
  unfolding check_tree get_number_deposits add_leaves add_event
  go_forward cfg event block_number = do
    check_tree cfg block_number event.previous_root event.previous_deposit_count
    initial ← in_tx (get_number_deposits cfg.network_id block_number)
    add_leaves cfg event block_number initial 0 event.new_leaves
    check_tree cfg block_number event.new_root event.new_deposit_count
    in_tx (add_event (forward_let event))

  unfoldable pub process_forward_let_sovereign :
      Config → ForwardLet D → ℕ → ℕ → World D → Outcome D (Unit {0})
  unfolding go_forward or_rollback
  process_forward_let_sovereign cfg event block_id block_number =
      or_rollback cfg (go_forward cfg (record event { block_id = block_id }) block_number)

  unfoldable pub apply_unset_claim : Config → SetClaim → State (World D) (Unit {0})
  unfolding add_event delete_claim_by_global_index
  apply_unset_claim cfg event = do
    in_tx (add_event (unset_claim event))
    in_tx (delete_claim_by_global_index event.global_index cfg.network_id)

  unfoldable pub process_unset_claim_sovereign :
      Config → SetClaim → ℕ → World D → Outcome D (Unit {0})
  unfolding apply_unset_claim or_rollback
  process_unset_claim_sovereign cfg event block_id =
      or_rollback cfg (apply_unset_claim cfg (record event { block_id = block_id }))

  unfoldable pub apply_set_claim : Config → SetClaim → ℕ → State (World D) (Unit {0})
  unfolding add_event get_deposit add_claim
  apply_set_claim cfg event block_number = do
    in_tx (add_event (set_claim event))
    deposit ← in_tx (get_deposit event.index (deposit_network event))
    if cfg.network_id == deposit.destination_network
        then in_tx (add_claim (claim_of cfg event block_number deposit))
        else fail wrong_destination

  unfoldable pub process_set_claim_sovereign :
      Config → SetClaim → ℕ → ℕ → World D → Outcome D (Unit {0})
  unfolding apply_set_claim or_rollback
  process_set_claim_sovereign cfg event block_id block_number =
      or_rollback cfg (apply_set_claim cfg (record event { block_id = block_id }) block_number)
