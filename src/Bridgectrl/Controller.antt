-- ===== src/Bridgectrl/Controller.antt =====
-- bridgectrl/bridgectrl.go and HashDeposit of bridgectrl/hash.go: the trees of the networks, and
-- the leaf of a deposit. The map of the tree ids is a list of pairs, the newest pair first.
pub mod Reads
pub mod Routing
use zkevm_bridge_service.Base.{
  ℕ, zero, suc, ◌+◌, ◌/◌, ◌%◌, ◌^◌, List, [], ◌∷◌, ◌++◌, leb, ◌==◌, if◌then◌else◌, Option, none,
  some, get_elem?, set, u32_mod, Result, ok, panic, or_err, network_not_register,
}
use zkevm_bridge_service.Base.State.{State, ◌>>=◌, pure, lift}
use zkevm_bridge_service.Bridgectrl.Keccak.{Keccak}
use zkevm_bridge_service.Bridgectrl.MerkleTree.{
  MerkleTree, add_leaf, reset_leaf, rollback_mt, tree_root, new_merkle_tree,
}
use zkevm_bridge_service.Bridgectrl.MerkleTree as MT
use zkevm_bridge_service.Bridgectrl.RollupTree.{add_rollup_exit_leaf}
use zkevm_bridge_service.Storage.Tables.{Deposit, RollupExitLeaf, Db}

pub record BridgeController (D : Type 0) : Type 0 where
  pub exit_trees : List (MerkleTree D)
  pub rollups_tree : MerkleTree D
  pub merkle_tree_ids : List (ℕ × ℕ)

-- The controller with the database of its calls.
pub record Controlled (D : Type 0) : Type 0 where
  pub bridge : BridgeController D
  pub db : Db D

-- The big-endian bytes of a number.
unfoldable pub be : ℕ → ℕ → List ℕ
be zero v = []
be (suc n) v = be n (v / 256) ++ (v % 256) ∷ []

unfoldable pub find_id : ℕ → List (ℕ × ℕ) → Option ℕ
find_id network_id [] = none
find_id network_id ((n, id) ∷ ids) = if n == network_id then some id else find_id network_id ids

module _ {D : Type 0} ⦃k : Keccak D⦄ where
  -- Amount.FillBytes panics if the amount does not fit 32 bytes.
  unfoldable pub hash_deposit : Deposit → Result D
  unfolding be
  hash_deposit d =
      let meta_hash = k.digest_bytes (k.keccak d.metadata) in
      let bytes =
        d.leaf_type ∷ be 4 d.original_network
        ++ be 20 d.original_address
        ++ be 4 d.destination_network
        ++ be 20 d.destination_address
        ++ be 32 d.amount
        ++ meta_hash in
      if leb (2 ^ 256) d.amount then panic else ok (k.keccak bytes)

  unfoldable pub get_merkle_tree_id : BridgeController D → ℕ → Result ℕ
  unfolding find_id
  get_merkle_tree_id bridge network_id =
      or_err network_not_register (find_id network_id bridge.merkle_tree_ids)

  -- The state after a call on the tree at an index.
  abbrev pub put_back :
      {A : Type 0} → ℕ → Controlled D → Result A × MT.Stored D → Result A × Controlled D
  put_back id c (r, s) = (
    r,
    record c {
      bridge = record c.bridge { exit_trees = set c.bridge.exit_trees id s.tree };
      db = s.db;
    },
  )

  abbrev pub on_found :
      {A : Type 0} → ℕ → State (MT.Stored D) A → Option (MerkleTree D) → State (Controlled D) A
  on_found id m none c = (panic, c)
  on_found id m (some t) c = put_back id c (m (record { tree = t; db = c.db }))

  -- A call on the exit tree of a network.
  unfoldable pub on_tree : {A : Type 0} → ℕ → State (MT.Stored D) A → State (Controlled D) A
  unfolding get_merkle_tree_id
  on_tree network_id m = do
    id ← λ c. (get_merkle_tree_id c.bridge network_id, c)
    λ c. on_found id m (get_elem? c.bridge.exit_trees id) c

  unfoldable pub add_deposit : Deposit → State (Controlled D) (Unit {0})
  unfolding hash_deposit on_tree add_leaf
  add_deposit deposit = do
    leaf ← lift (hash_deposit deposit)
    on_tree deposit.network_id (add_leaf deposit.id leaf deposit.deposit_count)

  unfoldable pub reorg_mt : ℕ → ℕ → State (Controlled D) (Unit {0})
  unfolding on_tree reset_leaf
  reorg_mt deposit_count network_id = on_tree network_id (reset_leaf deposit_count)

  unfoldable pub rollback_tree : ℕ → State (Controlled D) (Unit {0})
  unfolding on_tree rollback_mt
  rollback_tree network_id = on_tree network_id (rollback_mt network_id)

  unfoldable pub get_exit_root : ℕ → State (Controlled D) D
  unfolding on_tree tree_root
  get_exit_root network_id = on_tree network_id tree_root

  abbrev on_db : {A : Type 0} → Result A × Db D → Controlled D → Result A × Controlled D
  on_db (r, db) c = (r, record c { db = db })

  unfoldable pub add_rollup_leaf : RollupExitLeaf D → State (Controlled D) (Unit {0})
  unfolding add_rollup_exit_leaf
  add_rollup_leaf rollup_leaf c =
      on_db (add_rollup_exit_leaf c.bridge.rollups_tree.height rollup_leaf c.db) c

  -- The loop over the networks, from the tree id `i` on.
  unfoldable pub network_trees :
      ℕ → ℕ → List ℕ → List (ℕ × ℕ) → State (Db D) (List (MerkleTree D) × List (ℕ × ℕ))
  unfolding new_merkle_tree
  network_trees height i [] ids = pure ([], ids)
  network_trees height i (network_id ∷ network_ids) ids = do
    mt ← new_merkle_tree height network_id
    (trees, all_ids) ← network_trees height (i + 1) network_ids ((network_id, i % u32_mod) ∷ ids)
    pure (mt ∷ trees, all_ids)

  -- `math.MaxInt32` is the network of the rollups' tree.
  unfoldable pub new_bridge_controller : ℕ → List ℕ → State (Db D) (BridgeController D)
  unfolding network_trees
  new_bridge_controller height network_ids = do
    (trees, ids) ← network_trees height 0 network_ids []
    rollups_tree ← new_merkle_tree height 2147483647
    pure (record { exit_trees = trees; rollups_tree = rollups_tree; merkle_tree_ids = ids })
