-- ===== src/Bridgectrl/MerkleTree/Insert.antt =====
-- addLeaf on the tree object and the database: what a new deposit does to both.
use zkevm_bridge_service.Base.{
  ℕ, suc, ◌+◌, ◌%◌, ◌^◌, ◌≤◌, ◌<◌, ◌≡◌, refl, sym, ap, ap₂, subst, ◌∙◌, List, [], ◌∷◌, ◌++◌, length,
  length-append, Bool, true, ◌==◌, u32_mod, ok, div-pow_of_lt, arith,
}
use zkevm_bridge_service.Bridgectrl.Keccak.{Keccak}
use zkevm_bridge_service.Bridgectrl.Levels.{Triple, add_levels}
use zkevm_bridge_service.Bridgectrl.Levels.Append.{AreSiblings, path_rows, add_levels_lem}
use zkevm_bridge_service.Bridgectrl.Tree.{
  node, leaf_of, exit_root, leaf_of-EmptyFrom, leaf_of-AgreeBelow, leaf_of-last, EmptyFrom,
}
use zkevm_bridge_service.Bridgectrl.MerkleTree.{MerkleTree, Stored, rows_of, add_leaf}
use zkevm_bridge_service.Storage.Trees.{set_root, bulk_set}

module _ {D : Type 0} ⦃k : Keccak D⦄ where
  -- The tree object holds these leaves.
  abbrev pub IsTree : List D → MerkleTree D → Type 0
  IsTree leaves mt =
      (mt.count ≡ length leaves)
      × (length mt.siblings ≡ mt.height)
      × AreSiblings 0 (leaf_of leaves) (length leaves) mt.siblings

  -- What addLeaf writes and changes, given what its loop computes.
  unfoldable written : ℕ → D → List D → List (Triple D) → Stored D → Stored D
  written deposit_id root siblings leaves s = record {
    tree = record s.tree { siblings = siblings; count = (s.tree.count + 1) % u32_mod };
    db = record s.db {
      roots =
          s.db.roots
          ++ record { root = root; deposit_id = deposit_id; network = s.tree.network_id } ∷ [];
      rht = s.db.rht ++ rows_of deposit_id leaves;
    };
  }

  add_leaf-written :
      (deposit_id : ℕ) (leaf root : D) (siblings : List D) (leaves : List (Triple D)) (s : Stored D)
      → s.db.faults ≡ []
      → add_levels s.tree.height 0 s.tree.count leaf true s.tree.siblings
        ≡ ok (root, siblings, leaves)
      → add_leaf deposit_id leaf s.tree.count s ≡ (ok tt, written deposit_id root siblings leaves s)
  unfolding add_leaf written set_root bulk_set
  add_leaf-written deposit_id leaf root siblings leaves s none run = served s.db.faults none
    where
      at : List Bool → Stored D
      at faults = record s { db = record s.db { faults = faults } }

      here : (s.tree.count == s.tree.count) ≡ true
      here = ground arith

      served :
          (faults : List Bool)
          → faults ≡ []
          → add_leaf deposit_id leaf s.tree.count (at faults)
            ≡ (ok tt, written deposit_id root siblings leaves (at faults))
      served [] e = rw (here, run) refl
      served (f ∷ fs) e = cc

  -- When no statement fails, for a height of at most 65 and a tree object that holds fewer than
  -- 2 ^ height leaves, the count after them a uint32: addLeaf at the next index succeeds, the tree
  -- object then holds the leaves with the new one, and the root that is stored for the deposit is
  -- that of the tree over them.
  pub add_leaf-IsTree :
      (deposit_id : ℕ) (leaf : D) (leaves : List D) (s : Stored D)
      → s.db.faults ≡ []
      → s.tree.height ≤ 65
      → length leaves < 2 ^ s.tree.height
      → length leaves + 1 < u32_mod
      → IsTree leaves s.tree
      → (s' : Stored D) × (add_leaf deposit_id leaf (length leaves) s ≡ (ok tt, s'))
        × IsTree (leaves ++ leaf ∷ []) s'.tree
        × (s'.db.roots
            ≡ s.db.roots
              ++ record {
                root = exit_root s.tree.height (leaves ++ leaf ∷ []);
                deposit_id = deposit_id;
                network = s.tree.network_id;
              }
                ∷ [])
  unfolding written exit_root node
  add_leaf-IsTree deposit_id leaf leaves s none le room small (count, len, siblings) =
      let all = leaves ++ leaf ∷ [] in
      let n = length leaves in
      let h = s.tree.height in
      let more = length-append leaves (leaf ∷ []) in
      let empty : EmptyFrom 0 (leaf_of all) (suc n) =
        subst (EmptyFrom 0 (leaf_of all)) (omega (arith, more)) (leaf_of-EmptyFrom all) in
      let (siblings', run, len', new_siblings) =
        add_levels_lem h 0 n n h 0 (leaf_of leaves) (leaf_of all) true s.tree.siblings (omega arith)
          (omega arith) (div-pow_of_lt n h room) (omega arith) len (leaf_of-AgreeBelow leaves leaf)
          empty siblings in
      let root = node h (leaf_of all) 0 in
      let rows = path_rows h 0 (leaf_of all) n in
      let at_last : leaf ≡ node 0 (leaf_of all) n = sym (leaf_of-last leaves leaf) in
      let start = ap₂ (λ i l. add_levels h 0 i l true s.tree.siblings) count at_last in
      let done = add_leaf-written deposit_id leaf root siblings' rows s none (start ∙ run) in
      let longer : suc n ≡ length all = omega (arith, more) in
      (
        written deposit_id root siblings' rows s,
        ap (λ i. add_leaf deposit_id leaf i s) (sym count) ∙ done,
        (
          omega (arith, count, small, longer),
          len',
          subst (λ j. AreSiblings 0 (leaf_of all) j siblings') longer new_siblings,
        ),
        refl,
      )
