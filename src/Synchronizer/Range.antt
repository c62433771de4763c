-- ===== src/Synchronizer/Range.antt =====
-- synchronizer/synchronizer.go: processBlockRange, which stores the blocks of a range one by one,
-- and resetState.
use zkevm_bridge_service.Base.{
  ℕ, List, [], ◌∷◌, true, false, Option, none, some, ◌==◌, if◌then◌else◌, length, get_elem?, Result,
  ok, err, panic, or_panic, messy_events, l1_ger_not_found,
}
use zkevm_bridge_service.Base.State.{State, ◌>>=◌, ◌>>◌, pure, lift, gets, modify}
use zkevm_bridge_service.Bridgectrl.Keccak.{Keccak}
use zkevm_bridge_service.Bridgectrl.Controller.{reorg_mt}
use zkevm_bridge_service.Storage.Tables.{GlobalExitRoot}
use zkevm_bridge_service.Storage.Trees.{same_digest}
use zkevm_bridge_service.Storage.Chain.{DecodeToken, add_block, reset, get_number_deposits}
use zkevm_bridge_service.Storage.ExitRoots.{
  get_latest_l1_synced_exit_root, get_latest_trusted_exit_root,
}
use zkevm_bridge_service.Etherman.Types.{
  EventOrder, Order, BlockData, global_exit_roots_order, remove_l2_ger_order, deposits_order,
  claims_order, tokens_order, verify_batch_order, backward_let_order, unset_claim_order,
  set_claim_order, forward_let_order, other_order,
}
use zkevm_bridge_service.Synchronizer.World.{
  Config, World, Outcome, in_tx, in_pool, in_trees, begin_db_transaction, commit, and_then,
  or_rollback,
}
use zkevm_bridge_service.Synchronizer.Events.{
  process_verify_batch, process_global_exit_root, process_deposit, process_claim,
  process_token_wrapped, process_remove_l2_global_exit_root, process_backward_let_sovereign,
  process_forward_let_sovereign, process_unset_claim_sovereign, process_set_claim_sovereign,
}

module _ {D : Type 0} ⦃k : Keccak D⦄ where
  -- Without an event at its position the range ends, and the transaction is left open.
  abbrev pub on_event :
      {E : Type 0}
      → Option E
      → (E → World D → Outcome D (Unit {0}))
      → World D
      → Outcome D (Unit {0})
  on_event none handler w = some (err messy_events, w)
  on_event (some event) handler w = handler event w

  abbrev pub at_pos :
      {E : Type 0}
      → List E
      → ℕ
      → (E → World D → Outcome D (Unit {0}))
      → World D
      → Outcome D (Unit {0})
  at_pos events pos = on_event (get_elem? events pos)

  unfoldable pub note_ger : GlobalExitRoot D → World D → World D
  note_ger ger w =
      if length ger.exit_roots == 2
      then record w { new_l1_ger = true }
      else if length ger.exit_roots == 0
      then record w { new_l2_ger = true }
      else w

  module _ (cfg : Config) (decode : DecodeToken) where
    unfoldable pub process_event : BlockData D → ℕ → EventOrder → ℕ → World D → Outcome D (Unit {0})
    unfolding note_ger process_global_exit_root process_remove_l2_global_exit_root process_deposit
        process_claim process_token_wrapped process_verify_batch process_backward_let_sovereign
        process_unset_claim_sovereign process_set_claim_sovereign process_forward_let_sovereign
    process_event b id global_exit_roots_order pos =
        at_pos b.global_exit_roots pos
          (λ ger w. process_global_exit_root cfg ger id (note_ger ger w))
    process_event b id remove_l2_ger_order pos =
        at_pos b.remove_l2_ger pos (λ ger. process_remove_l2_global_exit_root cfg ger id)
    process_event b id deposits_order pos =
        at_pos b.deposits pos (λ deposit. process_deposit cfg deposit id)
    process_event b id claims_order pos = at_pos b.claims pos (λ claim. process_claim cfg claim id)
    process_event b id tokens_order pos =
        at_pos b.tokens pos (λ token. process_token_wrapped cfg decode token id)
    process_event b id verify_batch_order pos =
        at_pos b.verified_batches pos (λ batch. process_verify_batch cfg batch id)
    process_event b id backward_let_order pos =
        at_pos b.backward_lets pos
          (λ event. process_backward_let_sovereign cfg event id b.block.block_number)
    process_event b id unset_claim_order pos =
        at_pos b.unset_claims pos (λ event. process_unset_claim_sovereign cfg event id)
    process_event b id set_claim_order pos =
        at_pos b.set_claims pos
          (λ event. process_set_claim_sovereign cfg event id b.block.block_number)
    process_event b id forward_let_order pos =
        at_pos b.forward_lets pos
          (λ event. process_forward_let_sovereign cfg event id b.block.block_number)
    process_event b id other_order pos = λ w. some (ok tt, w)

    unfoldable pub process_events : BlockData D → ℕ → List Order → World D → Outcome D (Unit {0})
    unfolding process_event and_then
    process_events b id [] w = some (ok tt, w)
    process_events b id (o ∷ os) w =
        and_then (process_event b id o.name o.pos w) (process_events b id os)

    -- AddBlock, whose error is rolled back, then the events with the id of the block's row.
    abbrev pub stored : BlockData D → Result ℕ × World D → Outcome D (Unit {0})
    stored b (ok id, w) = process_events b id b.order w
    stored b (err e, w) = or_rollback cfg (λ v. (err e, v)) w
    stored b (panic, w) = some (panic, w)

    unfoldable pub store_block : BlockData D → World D → Outcome D (Unit {0})
    unfolding add_block process_events or_rollback
    store_block b w =
        stored b (in_tx (add_block (record b.block { network_id = cfg.network_id })) w)

    -- No transaction, no rollback.
    abbrev pub begun :
        (World D → Outcome D (Unit {0})) → Result (Unit {0}) × World D → Outcome D (Unit {0})
    begun next (ok _, w) = next w
    begun next (err e, w) = some (err e, w)
    begun next (panic, w) = some (panic, w)

    unfoldable pub process_block : BlockData D → World D → Outcome D (Unit {0})
    unfolding begin_db_transaction store_block and_then commit or_rollback
    process_block b w =
        begun (λ v. and_then (store_block b v) (or_rollback cfg commit)) (begin_db_transaction w)

    unfoldable pub process_blocks : List (BlockData D) → World D → Outcome D (Unit {0})
    unfolding process_block and_then
    process_blocks [] w = some (ok tt, w)
    process_blocks (b ∷ bs) w = and_then (process_block b w) (process_blocks bs)

    -- The latest L1 root goes to the channels if the rollups' exit root in it is new.
    unfoldable pub send_l1_ger : State (World D) (Unit {0})
    unfolding get_latest_l1_synced_exit_root same_digest
    send_l1_ger = do
      ger ← in_pool get_latest_l1_synced_exit_root
      root ← lift (or_panic (get_elem? ger.exit_roots 1))
      last ← gets λ w. w.l1_rollup_exit_root
      if same_digest last root
          then pure tt
          else modify λ w. record w { l1_rollup_exit_root = root; sent_l1 = ger ∷ w.sent_l1 }

    -- An L2 root whose L1 row is not there yet is not sent, and is no error.
    abbrev sent : Result (GlobalExitRoot D) × World D → Result (Unit {0}) × World D
    sent (ok ger, w) = (ok tt, record w { sent_l2 = ger ∷ w.sent_l2 })
    sent (err l1_ger_not_found, w) = (ok tt, w)
    sent (err e, w) = (err e, w)
    sent (panic, w) = (panic, w)

    unfoldable pub send_l2_ger : State (World D) (Unit {0})
    unfolding get_latest_trusted_exit_root
    send_l2_ger w = sent (in_pool (get_latest_trusted_exit_root cfg.network_id) w)

    unfoldable pub send_gers : State (World D) (Unit {0})
    unfolding send_l1_ger send_l2_ger
    send_gers = do
      l1 ← gets λ w. w.new_l1_ger
      (if l1 then send_l1_ger else pure tt)
      l2 ← gets λ w. w.new_l2_ger
      if l2 then send_l2_ger else pure tt

    unfoldable pub process_block_range : List (BlockData D) → World D → Outcome D (Unit {0})
    unfolding process_blocks and_then send_gers
    process_block_range bs w =
        and_then (process_blocks bs (record w { new_l1_ger = false; new_l2_ger = false }))
          (λ v. some (send_gers v))

    unfoldable pub go_back : ℕ → State (World D) (Unit {0})
    unfolding reset get_number_deposits reorg_mt commit
    go_back block_number = do
      in_tx (reset block_number cfg.network_id)
      deposit_cnt ← in_tx (get_number_deposits cfg.network_id block_number)
      in_trees (reorg_mt deposit_cnt cfg.network_id)
      commit

    unfoldable pub reset_state : ℕ → World D → Outcome D (Unit {0})
    unfolding begin_db_transaction go_back or_rollback
    reset_state block_number w =
        begun (or_rollback cfg (go_back block_number)) (begin_db_transaction w)
