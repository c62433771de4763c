-- ===== src/Bridgectrl/MerkleTree.antt =====
-- bridgectrl/merkletree.go: the tree object and its methods on the database.
-- A nil slice and an empty one are not told apart. `height` is a uint8, counts and ids are uint32.
pub mod Insert
pub mod Reads
use zkevm_bridge_service.Base.{
  ℕ, zero, suc, ◌+◌, ◌-◌, ◌%◌, List, [], ◌∷◌, ◌++◌, map, reverse, Bool, true, false, not, Option,
  none, some, ltb, leb, ◌==◌, if◌then◌else◌, Result, ok, err, panic, or_panic, length, get_elem?,
  set, any, bit, u32_mod, mismatched_deposit_count, multiple_roots, rollup_id_mismatch,
  storage_not_found, missing_node, Error,
}
use zkevm_bridge_service.Base.State.{State, ◌>>=◌, ◌>>◌, pure, fail, lift, gets, modify, zoom}
use zkevm_bridge_service.Bridgectrl.Keccak.{Keccak, zero_at, zero_hashes}
use zkevm_bridge_service.Bridgectrl.Levels.{
  Triple, add_levels, build_levels, or_zero, only_root, build_mt_root,
}
use zkevm_bridge_service.Storage.Tables.{Node, RollupExitLeaf, Db}
use zkevm_bridge_service.Storage.Trees.{
  set_root, get_root, bulk_set, get_node, get_last_deposit_count, is_rollup_exit_root,
  add_rollup_exit_leaves, get_latest_rollup_exit_leaves, same_digest,
}

pub record MerkleTree (D : Type 0) : Type 0 where
  pub network_id : ℕ
  pub height : ℕ
  pub count : ℕ
  pub siblings : List D

-- The tree object with the database that it writes to.
pub record Stored (D : Type 0) : Type 0 where
  pub tree : MerkleTree D
  pub db : Db D

-- The uint8 `height - 1` wraps; a loop from it down to 0 makes that many rounds and one more.
abbrev pub rounds_down : ℕ → ℕ
rounds_down height = suc ((height + 255) % 256)

-- fmt.Errorf around an error makes it another error.
abbrev pub wrap : {W A : Type 0} → Result A × W → Result A × W
wrap (ok a, w) = (ok a, w)
wrap (err e, w) = (err missing_node, w)
wrap (panic, w) = (panic, w)

module _ {D : Type 0} ⦃k : Keccak D⦄ where
  abbrev pub on_db : {A : Type 0} → State (Db D) A → State (Stored D) A
  on_db = zoom (λ s. s.db) (λ db s. record s { db = db })

  abbrev pub put_tree : (MerkleTree D → MerkleTree D) → State (Stored D) (Unit {0})
  put_tree f = modify λ s. record s { tree = f s.tree }

  unfoldable pub tree_root : State (Stored D) D
  unfolding get_root
  tree_root = do
    mt ← gets λ s. s.tree
    if mt.count == 0
        then lift (zero_at mt.height)
        else on_db (get_root (mt.count - 1) mt.network_id)

  unfoldable pub zero_levels : ℕ → ℕ → State (Stored D) (List D)
  zero_levels zero h = pure []
  zero_levels (suc rounds) h = do
    left ← lift (zero_at h)
    rest ← zero_levels rounds (suc h)
    pure (left ∷ rest)

  -- The loop of initSiblings from level `h - 1` down, before the slice is inverted.
  unfoldable pub init_levels : ℕ → ℕ → D → State (Stored D) (List D)
  unfolding get_node bit
  init_levels zero index cur = pure []
  init_levels (suc h) index cur = do
    value ← λ s. wrap (on_db (get_node cur) s)
    rest ← init_levels h index (if bit index h then value.right else value.left)
    pure (value.left ∷ rest)

  unfoldable pub init_siblings : State (Stored D) (List D)
  unfolding tree_root zero_levels init_levels
  init_siblings = do
    mt ← gets λ s. s.tree
    if mt.count == 0 then zero_levels mt.height 0 else do
      root ← tree_root
      levels ← init_levels (rounds_down mt.height) (mt.count - 1) root
      pure (reverse levels)

  -- `mt.siblings, err = mt.initSiblings(…)`: an error leaves the nil slice.
  abbrev pub assigned : Result (List D) × Stored D → Result (Unit {0}) × Stored D
  assigned (ok siblings, s) = (ok tt, record s { tree = record s.tree { siblings = siblings } })
  assigned (err e, s) = (err e, record s { tree = record s.tree { siblings = [] } })
  assigned (panic, s) = (panic, s)

  unfoldable pub load_siblings : State (Stored D) (Unit {0})
  unfolding init_siblings
  load_siblings s = assigned (init_siblings s)

  unfoldable pub reset_leaf : ℕ → State (Stored D) (Unit {0})
  unfolding load_siblings
  reset_leaf deposit_count = do put_tree (λ mt. record mt { count = deposit_count }); load_siblings

  -- GetLastDepositCount, and the count after it: no deposit is the count 0.
  abbrev pub next : Result ℕ × Db D → Result ℕ × Db D
  next (ok deposit_cnt, db) = (ok ((deposit_cnt + 1) % u32_mod), db)
  next (err storage_not_found, db) = (ok 0, db)
  next (err e, db) = (err e, db)
  next (panic, db) = (panic, db)

  unfoldable pub next_count : ℕ → State (Db D) ℕ
  unfolding get_last_deposit_count
  next_count network_id db = next (get_last_deposit_count network_id db)

  unfoldable pub rollback_mt : ℕ → State (Stored D) (Unit {0})
  unfolding next_count load_siblings
  rollback_mt network_id = do
    count ← on_db (next_count network_id)
    put_tree λ mt. record mt { count = count }
    load_siblings

  abbrev made : Result (Unit {0}) × Stored D → Result (MerkleTree D) × Db D
  made (ok _, s) = (ok s.tree, s.db)
  made (err e, s) = (err e, s.db)
  made (panic, s) = (panic, s.db)

  unfoldable pub new_merkle_tree : ℕ → ℕ → State (Db D) (MerkleTree D)
  unfolding next_count load_siblings
  new_merkle_tree height network_id = do
    count ← next_count network_id
    let mt : MerkleTree D = record {
      network_id = network_id;
      height = height;
      count = count;
      siblings = [];
    }
    λ db. made (load_siblings (record { tree = mt; db = db }))

  abbrev pub rows_of : ℕ → List (Triple D) → List (Node D)
  rows_of deposit_id = map λ (key, left, right). record {
    key = key;
    left = left;
    right = right;
    deposit_id = deposit_id;
  }

  unfoldable pub add_leaf : ℕ → D → ℕ → State (Stored D) (Unit {0})
  unfolding add_levels set_root bulk_set
  add_leaf deposit_id leaf index = do
    mt ← gets λ s. s.tree
    if not (index == mt.count) then fail mismatched_deposit_count else do
      (cur, siblings, leaves) ← lift (add_levels mt.height 0 index leaf true mt.siblings)
      put_tree λ t. record t { siblings = siblings }
      on_db (set_root cur deposit_id mt.network_id)
      on_db (bulk_set (rows_of deposit_id leaves))
      put_tree λ t. record t { count = (t.count + 1) % u32_mod }

  -- Every level's rows, in the order in which they are stored.
  abbrev pub all_rows : ℕ → List (List (Triple D)) → List (Node D)
  all_rows deposit_id [] = []
  all_rows deposit_id (level ∷ levels) = rows_of deposit_id level ++ all_rows deposit_id levels

  unfoldable pub update_leaf : ℕ → List D → State (Stored D) (Unit {0})
  unfolding or_zero build_levels only_root set_root bulk_set
  update_leaf deposit_id leaves = do
    mt ← gets λ s. s.tree
    start ← lift (or_zero leaves)
    (nodes, ns) ← lift (build_levels mt.height 0 [] start)
    root ← lift (only_root ns)
    on_db (set_root root deposit_id mt.network_id)
    on_db (bulk_set (all_rows deposit_id nodes))
    put_tree λ t. record t { count = length leaves % u32_mod }

  -- One node of getLeaves: a key that is missing is skipped if it is a zero hash.
  abbrev children : D → Result (Node D) × Stored D → Result (List D) × Stored D
  children key (ok value, s) = (ok (value.left ∷ value.right ∷ []), s)
  children key (err e, s) =
      (if any (λ z. same_digest z key) zero_hashes then ok [] else err missing_node, s)
  children key (panic, s) = (panic, s)

  unfoldable pub level_leaves : List D → State (Stored D) (List D)
  unfolding get_node
  level_leaves [] = pure []
  level_leaves (c ∷ cur) = do
    leaves ← λ s. children c (on_db (get_node c) s)
    rest ← level_leaves cur
    pure (leaves ++ rest)

  unfoldable pub get_leaves_loop : ℕ → List D → State (Stored D) (List D)
  unfolding level_leaves
  get_leaves_loop zero cur = pure cur
  get_leaves_loop (suc h) cur = do below ← level_leaves cur; get_leaves_loop h below

  unfoldable pub get_leaves : State (Stored D) (List D)
  unfolding tree_root get_leaves_loop
  get_leaves = do
    mt ← gets λ s. s.tree
    root ← tree_root
    get_leaves_loop (rounds_down mt.height) (root ∷ [])
