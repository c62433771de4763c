-- ===== src/Etherman/Types.antt =====
-- etherman/types.go and etherman/etherman.go: a block with its events, and their order.
use zkevm_bridge_service.Base.{ℕ, List}
use zkevm_bridge_service.Storage.Tables.{
  Block, Deposit, Claim, GlobalExitRoot, SetClaim, BackwardLet, ForwardLet, TokenWrapped,
}

-- etherman.VerifiedBatch, as far as it is read.
pub record VerifiedBatch (D : Type 0) : Type 0 where
  pub block_number : ℕ
  pub rollup_id : ℕ
  pub local_exit_root : D

-- etherman.EventOrder; other names are skipped.
pub data EventOrder : Type 0 where
  global_exit_roots_order remove_l2_ger_order deposits_order claims_order tokens_order : EventOrder
  verify_batch_order backward_let_order unset_claim_order set_claim_order : EventOrder
  forward_let_order other_order : EventOrder

-- etherman.Order.
pub record Order : Type 0 where
  pub name : EventOrder
  pub pos : ℕ

-- etherman.Block with its events, and the order of these.
pub record BlockData (D : Type 0) : Type 0 where
  pub block : Block
  pub global_exit_roots : List (GlobalExitRoot D)
  pub remove_l2_ger : List (GlobalExitRoot D)
  pub deposits : List Deposit
  pub claims : List Claim
  pub tokens : List TokenWrapped
  pub verified_batches : List (VerifiedBatch D)
  pub unset_claims : List SetClaim
  pub set_claims : List SetClaim
  pub backward_lets : List (BackwardLet D)
  pub forward_lets : List (ForwardLet D)
  pub order : List Order
