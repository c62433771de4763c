-- ===== src/Bridgectrl/RollupTree.antt =====
-- bridgectrl/merkletree.go: storeLeaves and addRollupExitLeaf, the tree of the rollups' exit roots.
pub mod Numbered
use zkevm_bridge_service.Base.{
  ℕ, zero, suc, ◌+◌, ◌-◌, ◌%◌, List, [], ◌∷◌, ◌++◌, map, none, some, ◌==◌, if◌then◌else◌, Result,
  ok, err, panic, length, get_elem?, set, u32_mod, rollup_id_mismatch,
}
use zkevm_bridge_service.Base.State.{State, ◌>>=◌, pure, lift}
use zkevm_bridge_service.Bridgectrl.Keccak.{Keccak}
use zkevm_bridge_service.Bridgectrl.Levels.{build_mt_root}
use zkevm_bridge_service.Storage.Tables.{RollupExitLeaf, Db}
use zkevm_bridge_service.Storage.Trees.{
  is_rollup_exit_root, add_rollup_exit_leaves, get_latest_rollup_exit_leaves,
}

module _ {D : Type 0} ⦃k : Keccak D⦄ where
  -- `leaves[i]` goes with the rollup `i + 1`.
  abbrev pub numbered : ℕ → List D → List (ℕ × D)
  numbered i [] = []
  numbered i (leaf ∷ leaves) = (i + 1, leaf) ∷ numbered (i + 1) leaves

  unfoldable pub store_leaves : ℕ → List D → ℕ → State (Db D) (Unit {0})
  unfolding build_mt_root is_rollup_exit_root add_rollup_exit_leaves
  store_leaves height leaves block_id = do
    root ← lift (build_mt_root height leaves)
    exist ← is_rollup_exit_root root
    if exist then pure tt else add_rollup_exit_leaves (numbered 0 leaves) root block_id

  -- The empty rollups from position `i` on.
  abbrev pub empty_rollups : ℕ → ℕ → ℕ → List (RollupExitLeaf D)
  empty_rollups zero i block_id = []
  empty_rollups (suc n) i block_id =
      record {
        id = 0;
        leaf = k.hash_zero;
        rollup_id = (i + 1) % u32_mod;
        root = k.hash_zero;
        block_id = block_id;
      }
      ∷ empty_rollups n (i + 1) block_id

  -- The leaves after the new one is in its place. `RollupId - 1` is a uint32: for the rollup 0 it
  -- is the largest one.
  unfoldable pub place_leaf :
      RollupExitLeaf D → List (RollupExitLeaf D) → Result (List (RollupExitLeaf D))
  place_leaf rollup_leaf stored =
      let filled =
        stored
        ++ empty_rollups (rollup_leaf.rollup_id - length stored) (length stored)
            rollup_leaf.block_id in
      let position = (rollup_leaf.rollup_id + u32_mod - 1) % u32_mod in
      elim (get_elem? filled position) [
        | none ↦ panic
        | some there ↦
            if there.rollup_id == rollup_leaf.rollup_id
            then ok (set filled position rollup_leaf)
            else err rollup_id_mismatch
      ]

  unfoldable pub add_rollup_exit_leaf : ℕ → RollupExitLeaf D → State (Db D) (Unit {0})
  unfolding get_latest_rollup_exit_leaves place_leaf store_leaves
  add_rollup_exit_leaf height rollup_leaf = do
    stored ← get_latest_rollup_exit_leaves
    placed ← lift (place_leaf rollup_leaf stored)
    store_leaves height (map (λ l. l.leaf) placed) rollup_leaf.block_id
