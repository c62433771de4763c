-- ===== src/Storage/Ready.antt =====
-- db/pgstorage/pgstorage.go: the statements that mark deposits as ready for the claim. A scalar
-- subquery with two rows is an error of the statement.
pub mod Joins
use zkevm_bridge_service.Base.{
  ℕ, List, [], map, ◌∷◌, ◌++◌, Bool, true, false, ◌&&◌, not, Option, none, some, leb, ◌==◌,
  if◌then◌else◌, Result, ok, err, database,
}
use zkevm_bridge_service.Base.State.{State, ◌>>=◌, ◌>>◌, pure, lift, gets, modify}
use zkevm_bridge_service.Bridgectrl.Keccak.{Keccak}
use zkevm_bridge_service.Storage.Tables.{RootRow, RollupExitLeaf, Deposit, Db, serve}
use zkevm_bridge_service.Storage.Trees.{same_digest}

-- NULL without a row.
unfoldable pub scalar : {A : Type 0} → List A → Result (Option A)
scalar [] = ok none
scalar (a ∷ []) = ok (some a)
scalar (a ∷ b ∷ rest) = err database

unfoldable pub counts_at : ℕ → List Deposit → List ℕ
counts_at id [] = []
counts_at id (d ∷ ds) =
    let rest = counts_at id ds in if d.id == id then d.deposit_count ∷ rest else rest

-- The deposits of the statement's WHERE clause.
unfoldable pub mark : (Deposit → Bool) → ℕ → Deposit → Deposit
mark chosen count d =
    if leb d.deposit_count count && chosen d && not d.ready_for_claim
    then record d { ready_for_claim = true }
    else d

unfoldable pub is_l1_deposit_to : ℕ → Deposit → Bool
is_l1_deposit_to destination_network d =
    d.network_id == 0 && d.destination_network == destination_network

unfoldable pub is_l2_deposit : ℕ → Bool → Deposit → Bool
is_l2_deposit network_id is_dest_net_l1 d =
    d.network_id == network_id
    && (if is_dest_net_l1 then d.destination_network == 0 else not (d.destination_network == 0))

module _ {D : Type 0} where
  -- No deposit count is below NULL.
  unfoldable pub mark_ready : (Deposit → Bool) → Option ℕ → State (Db D) (Unit {0})
  unfolding mark
  mark_ready chosen none = pure tt
  mark_ready chosen (some count) =
      modify λ db. record db { deposits = map (mark chosen count) db.deposits }

module _ {D : Type 0} ⦃k : Keccak D⦄ where
  -- The join of mt.root with sync.deposit for a root of a network.
  unfoldable pub root_counts : D → ℕ → List (RootRow D) → List Deposit → List ℕ
  unfolding same_digest counts_at
  root_counts root network [] ds = []
  root_counts root network (r ∷ rs) ds =
      let rest = root_counts root network rs ds in
      if same_digest r.root root && r.network == network
      then counts_at r.deposit_id ds ++ rest
      else rest

  unfoldable pub leaves_at : D → ℕ → List (RollupExitLeaf D) → List D
  unfolding same_digest
  leaves_at root rollup_id [] = []
  leaves_at root rollup_id (l ∷ ls) =
      let rest = leaves_at root rollup_id ls in
      if same_digest l.root root && l.rollup_id == rollup_id then l.leaf ∷ rest else rest

  -- The marking of the deposits up to the one with this root.
  unfoldable pub mark_up_to : (Deposit → Bool) → ℕ → Option D → State (Db D) (Unit {0})
  unfolding root_counts scalar mark_ready
  mark_up_to chosen network none = pure tt
  mark_up_to chosen network (some root) = do
    counts ← gets λ db. root_counts root network db.roots db.deposits
    count ← lift (scalar counts)
    mark_ready chosen count

  unfoldable pub update_l1_deposits_status : D → ℕ → State (Db D) (Unit {0})
  unfolding serve is_l1_deposit_to mark_up_to
  update_l1_deposits_status exit_root destination_network = do
    serve
    mark_up_to (is_l1_deposit_to destination_network) 0 (some exit_root)

  unfoldable pub update_l2_deposits_status : D → ℕ → ℕ → Bool → State (Db D) (Unit {0})
  unfolding serve is_l2_deposit leaves_at scalar mark_up_to
  update_l2_deposits_status exit_root rollup_id network_id is_dest_net_l1 = do
    serve
    leaves ← gets λ db. leaves_at exit_root rollup_id db.rollup_exit
    leaf ← lift (scalar leaves)
    mark_up_to (is_l2_deposit network_id is_dest_net_l1) network_id leaf
