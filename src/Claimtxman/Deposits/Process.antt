-- ===== src/Claimtxman/Deposits/Process.antt =====
-- claimtxman/claimtxman.go: processPendingDeposits. The mutex and the waiting are left out; the second
-- query after the waiting sees the tables of the first.
use zkevm_bridge_service.Base.{
  ℕ, List, [], ◌∷◌, ◌++◌, Bool, true, false, ◌&&◌, not, Option, none, some, length, leb, ◌==◌,
  if◌then◌else◌, Result, Error, ok, err, panic, storage_not_found,
}
use zkevm_bridge_service.Base.State.{State, ◌>>=◌, pure, lift, zoom}
use zkevm_bridge_service.Storage.Tables.{Deposit, GlobalExitRoot, serve}
use zkevm_bridge_service.Claimtxman.NonceCache.{NonceStore}
use zkevm_bridge_service.Claimtxman.Deposits.{
  ClaimTxManager, ClaimDb, Nodes, Claiming, on_base, rollback_state, claim_deposits,
}
use zkevm_bridge_service.Claimtxman.Deposits.Queries.{
  only_l1, get_deposits_from_other_l2_to_claim, get_pending_deposits_to_claim,
  get_latest_trusted_ger_by_deposit,
}

-- The global exit root to prove against and the deposits, or nothing yet.
abbrev pub Found : Type 0
Found = Option (ℕ × List Deposit)

-- errors.Is(err, gerror.ErrStorageNotFound).
abbrev pub is_not_found : Error → Bool
is_not_found storage_not_found = true
is_not_found e = false

module _ (store : NonceStore) (tm : ClaimTxManager) (nodes : Nodes) where
  abbrev pub W : Type 0
  W = Claiming store tm nodes

  abbrev pub on_db : {A : Type 0} → State ClaimDb A → State W A
  on_db = zoom (λ w. w.db) (λ b w. record w { db = b })

  -- What follows a query that may find nothing.
  abbrev pub or_else : State W (Option ℕ) → Result ℕ × W → Result (Option ℕ) × W
  or_else otherwise (ok ger, w) = (ok (some ger), w)
  or_else otherwise (err e, w) = if is_not_found e then otherwise w else (err e, w)
  or_else otherwise (panic, w) = (panic, w)

  unfoldable pub latest_trusted_ger : Deposit → State W ℕ
  unfolding get_latest_trusted_ger_by_deposit
  latest_trusted_ger d =
      on_db (get_latest_trusted_ger_by_deposit d.deposit_count d.network_id d.destination_network)

  -- The query is tried twice.
  unfoldable pub retried_ger : Deposit → State W (Option ℕ)
  unfolding latest_trusted_ger
  retried_ger d w =
      or_else (λ v. or_else (pure none) (latest_trusted_ger d v)) (latest_trusted_ger d w)

  abbrev pub at_ger : List Deposit → Option ℕ → Found
  at_ger ds none = none
  at_ger ds (some ger) = some (ger, ds)

  -- The root of the first deposit is the one that all are proved against.
  unfoldable pub with_trusted_ger : ℕ → List Deposit → State W Found
  unfolding retried_ger
  with_trusted_ger ger [] = pure (some (ger, []))
  with_trusted_ger ger (d ∷ ds) = do found ← retried_ger d; pure (at_ger (d ∷ ds) found)

  unfoldable pub deposits_from_other_l2 : ℕ → State W Found
  unfolding get_deposits_from_other_l2_to_claim with_trusted_ger
  deposits_from_other_l2 ger =
      if tm.are_claims_between_l2s_enabled
      then (do
        deposits ← on_db (get_deposits_from_other_l2_to_claim tm.l2_network_id)
        with_trusted_ger ger deposits)
      else pure (some (ger, []))

  unfoldable pub pending_from_l1 : ℕ → ℕ → State W (List Deposit)
  unfolding get_pending_deposits_to_claim
  pending_from_l1 address leaf_type = do
    (deposits, _) ←
        on_db (get_pending_deposits_to_claim address tm.l2_network_id leaf_type 0 0 only_l1)
    pure deposits

  unfoldable pub messages_from_l1 : List ℕ → State W (List Deposit)
  unfolding pending_from_l1
  messages_from_l1 [] = pure []
  messages_from_l1 (address ∷ addresses) = do
    messages ← pending_from_l1 address 1
    rest ← messages_from_l1 addresses
    pure (messages ++ rest)

  unfoldable pub deposits_from_l1 : ℕ → State W Found
  unfolding pending_from_l1 messages_from_l1
  deposits_from_l1 ger = do
    assets ← pending_from_l1 0 0
    messages ← messages_from_l1 tm.authorized_claim_message_addresses
    pure (some (ger, assets ++ messages))

  abbrev pub is_from_l1 : GlobalExitRoot ℕ → Bool
  is_from_l1 ger = not (ger.block_id == 0) && ger.network_id == 0

  -- The log reads an exit root of the event first.
  unfoldable pub deposits_to_claim : GlobalExitRoot ℕ → State W Found
  unfolding deposits_from_other_l2 deposits_from_l1
  deposits_to_claim ger =
      if is_from_l1 ger
      then (if leb 2 (length ger.exit_roots)
          then deposits_from_other_l2 ger.global_exit_root
          else lift panic)
      else (if leb 1 (length ger.exit_roots)
          then deposits_from_l1 ger.global_exit_root
          else lift panic)

  -- The commit of the queries' transaction, then the claims.
  abbrev pub claims_after : W → ℕ → List Deposit → Result (Unit {0}) × W → Result (Unit {0}) × W
  claims_after before ger ds (ok _, w) = claim_deposits store tm nodes ger ds w
  claims_after before ger ds (err e, w) = rollback_state store tm nodes before (err e, w)
  claims_after before ger ds (panic, w) = rollback_state store tm nodes before (panic, w)

  -- Without a trusted root the transaction is neither committed nor rolled back.
  abbrev pub claimed : W → Result Found × W → Result (Unit {0}) × W
  claimed before (ok none, w) = (ok tt, w)
  claimed before (ok (some (ger, ds)), w) =
      claims_after before ger ds (on_base store tm nodes serve w)
  claimed before (err e, w) = rollback_state store tm nodes before (err e, w)
  claimed before (panic, w) = rollback_state store tm nodes before (panic, w)

  abbrev pub begun : GlobalExitRoot ℕ → Result (Unit {0}) × W → Result (Unit {0}) × W
  begun ger (ok _, w) = claimed w (deposits_to_claim ger w)
  begun ger (err e, w) = (err e, w)
  begun ger (panic, w) = (panic, w)

  unfoldable pub process_pending_deposits : GlobalExitRoot ℕ → State W (Unit {0})
  unfolding serve deposits_to_claim claim_deposits
  process_pending_deposits ger w = begun ger (on_base store tm nodes serve w)
