-- ===== src/Bridgectrl/Levels.antt =====
-- bridgectrl/merkletree.go: the loops over the levels of a tree, and the functions that need no
-- database. `h` and the heights are uint8, indices are uint32; a slice is a list.
pub mod Append
pub mod Build
pub mod Binding
pub mod Proofs
use zkevm_bridge_service.Base.{
  ℕ, zero, suc, ◌+◌, ◌-◌, ◌/◌, ◌%◌, List, [], ◌∷◌, ◌++◌, Bool, true, false, ◌||◌, Option, none,
  some, leb, ◌==◌, if◌then◌else◌, Result, ok, err, panic, ◌>>=◌, or_panic, length, get_elem?, bit,
  multiple_roots, out_of_bounds,
}
use zkevm_bridge_service.Bridgectrl.Keccak.{Keccak, zero_at}

-- A parent and its two children.
abbrev pub Triple : Type 0 → Type 0
Triple D = D × D × D

module _ {D : Type 0} ⦃k : Keccak D⦄ where
  -- addLeaf's loop from level `h` with `rounds` levels left. `siblings` is `mt.siblings[h:]`; the
  -- result is the last `cur`, the new `mt.siblings[h:]` and the rows of `leaves`.
  unfoldable pub add_levels : ℕ → ℕ → ℕ → D → Bool → List D → Result (D × List D × List (Triple D))
  unfolding bit
  add_levels zero h index cur filled siblings = ok (cur, siblings, [])
  add_levels (suc rounds) h index cur filled [] =
      let right = do
        z ← zero_at h
        let parent = k.hash cur z
        (root, above, leaves) ← add_levels rounds (suc h) index parent false []
        ok (root, above, (parent, cur, z) ∷ leaves)
      in if bit index h || filled then panic else right
  add_levels (suc rounds) h index cur filled (sibling ∷ siblings) =
      let left = do
        let parent = k.hash sibling cur
        (root, above, leaves) ← add_levels rounds (suc h) index parent filled siblings
        ok (root, sibling ∷ above, (parent, sibling, cur) ∷ leaves)
      in let right = do
        z ← zero_at h
        let parent = k.hash cur z
        (root, above, leaves) ← add_levels rounds (suc h) index parent false siblings
        ok (root, (if filled then cur else sibling) ∷ above, (parent, cur, z) ∷ leaves)
        in if bit index h then left else right

  -- buildIntermediate: the hashes and the rows of one level. `leaves[i+1]` panics past the end.
  unfoldable pub build_intermediate : List D → Result (List (Triple D) × List D)
  build_intermediate [] = ok ([], [])
  build_intermediate (left ∷ []) = panic
  build_intermediate (left ∷ right ∷ rest) = do
    let hash = k.hash left right
    (nodes, hashes) ← build_intermediate rest
    ok ((hash, left, right) ∷ nodes, hash ∷ hashes)

  -- `if len(leaves)%2 == 1 { leaves = append(leaves, zeroHashes[h]) }`
  unfoldable pub pad_level : ℕ → List D → Result (List D)
  pad_level h leaves =
      if length leaves % 2 == 1 then (do z ← zero_at h; ok (leaves ++ z ∷ [])) else ok leaves

  -- The loop that updateLeaf and buildMTRoot share, with the rows of each level and the last `ns`.
  unfoldable pub build_levels :
      ℕ → ℕ → List (Triple D) → List D → Result (List (List (Triple D)) × List (Triple D))
  unfolding build_intermediate pad_level
  build_levels zero h ns leaves = ok ([], ns)
  build_levels (suc rounds) h ns leaves = do
    padded ← pad_level h leaves
    (level, hashes) ← build_intermediate padded
    (nodes, last) ← build_levels rounds (suc h) level hashes
    ok (level ∷ nodes, last)

  -- `if len(leaves) == 0 { leaves = append(leaves, zeroHashes[0]) }`
  unfoldable pub or_zero : List D → Result (List D)
  or_zero [] = do z ← zero_at 0; ok (z ∷ [])
  or_zero (l ∷ ls) = ok (l ∷ ls)

  -- `if len(ns) != 1 { return error }`, then `ns[0][0]`.
  unfoldable pub only_root : List (Triple D) → Result D
  only_root [] = err multiple_roots
  only_root ((root, _, _) ∷ []) = ok root
  only_root (a ∷ b ∷ rest) = err multiple_roots

  unfoldable pub build_mt_root : ℕ → List D → Result D
  unfolding build_levels or_zero only_root
  build_mt_root height leaves = do
    start ← or_zero leaves
    (nodes, ns) ← build_levels height 0 [] start
    only_root ns

  -- `leaves[index-1]` or `leaves[index+1]`, with the bound that the code checks.
  unfoldable pub sibling_at : ℕ → List D → Result D
  sibling_at index leaves =
      if index % 2 == 1
      then or_panic (get_elem? leaves (index - 1))
      else if leb (length leaves) (index + 1)
      then err out_of_bounds
      else or_panic (get_elem? leaves (index + 1))

  -- The loop of ComputeSiblings. `index = uint32(float64(index) / 2)` is a halving: a uint32 is
  -- exact as a float64.
  unfoldable pub sibling_levels :
      ℕ → ℕ → ℕ → List (Triple D) → List D → Result (List D × List (Triple D))
  unfolding build_intermediate pad_level sibling_at
  sibling_levels zero h index ns leaves = ok ([], ns)
  sibling_levels (suc rounds) h index ns leaves = do
    padded ← pad_level h leaves
    sibling ← sibling_at index padded
    (level, hashes) ← build_intermediate padded
    (siblings, last) ← sibling_levels rounds (suc h) (index / 2) level hashes
    ok (sibling ∷ siblings, last)

  unfoldable pub compute_siblings : ℕ → List D → ℕ → Result (List D × D)
  unfolding or_zero sibling_levels only_root
  compute_siblings rollup_index leaves height = do
    start ← or_zero leaves
    (siblings, ns) ←
        if leb (length start) rollup_index
        then err out_of_bounds
        else sibling_levels height 0 rollup_index [] start
    root ← only_root ns
    ok (siblings, root)

  -- The loop of calculateRoot from level `h` with `rounds` levels left; `proof` is `smtProof[h:]`.
  unfoldable pub proof_levels : ℕ → ℕ → ℕ → D → List D → Result D
  unfolding bit
  proof_levels zero h index node proof = ok node
  proof_levels (suc rounds) h index node [] = panic
  proof_levels (suc rounds) h index node (sibling ∷ proof) =
      proof_levels rounds (suc h) index
        (if bit index h then k.hash sibling node else k.hash node sibling) proof

  unfoldable pub calculate_root : D → List D → ℕ → ℕ → Result D
  unfolding proof_levels
  calculate_root leaf proof index height = proof_levels height 0 index leaf proof
