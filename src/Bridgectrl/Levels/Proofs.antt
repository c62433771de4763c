-- ===== src/Bridgectrl/Levels/Proofs.antt =====
-- ComputeSiblings and calculateRoot: the Merkle proof of a leaf, and its check.
use native.Mathlib.Nat.{pow-succ'}
use zkevm_bridge_service.Base.{
  ℕ, zero, suc, ◌+◌, ◌-◌, ◌*◌, ◌/◌, ◌%◌, ◌^◌, ◌≤◌, ◌<◌, ◌≡◌, refl, sym, ◌∙◌, ap, ap₂, List, [], ◌∷◌,
  length, get_elem?-get_or, true, false, if◌then◌else◌, ◌==◌, leb, ℕ_discrete, div-pow-suc,
  div-pow_of_lt, arith, ok, err, multiple_roots, out_of_bounds,
}
use zkevm_bridge_service.Bridgectrl.Keccak.{Keccak, zero_hash}
use zkevm_bridge_service.Bridgectrl.Levels.{
  Triple, sibling_at, sibling_levels, compute_siblings, proof_levels, calculate_root,
}
use zkevm_bridge_service.Bridgectrl.Levels.Build.{
  IsLevel, Verdict, Final, pairs, pair_hashes, pad_level_lem, level_lem,
}
use zkevm_bridge_service.Bridgectrl.Tree.{node, leaf_of, exit_root}

-- The other child of a node's parent.
abbrev pub sibling : ℕ → ℕ
sibling i = if i % 2 == 1 then i - 1 else i + 1

module _ {D : Type 0} ⦃k : Keccak D⦄ where
  -- The siblings of node `i` of level `h` and of the nodes above it, `rounds` levels up.
  unfoldable pub proof_of : ℕ → ℕ → (ℕ → D) → ℕ → List D
  proof_of zero h f i = []
  proof_of (suc rounds) h f i = node h f (sibling i) ∷ proof_of rounds (suc h) f (i / 2)

  parent_of :
      (h i : ℕ) (f : ℕ → D)
      → (if i % 2 == 1
          then k.hash (node h f (sibling i)) (node h f i)
          else k.hash (node h f i) (node h f (sibling i)))
        ≡ node (suc h) f (i / 2)
  unfolding node
  parent_of h i f = elim (ℕ_discrete (i % 2) 1) [
    | yes odd ↦
        let l : i - 1 ≡ 2 * (i / 2) = omega arith in
        let r : i ≡ 2 * (i / 2) + 1 = omega arith in
        rw odd (ap₂ k.hash (ap (node h f) l) (ap (node h f) r))
    | no even ↦
        let even' : i % 2 ≡ 0 = omega arith in
        let l : i ≡ 2 * (i / 2) = omega arith in
        let r : i + 1 ≡ 2 * (i / 2) + 1 = omega arith in
        rw even' (ap₂ k.hash (ap (node h f) l) (ap (node h f) r))
  ]

  proof_levels_lem :
      (rounds h index i top p : ℕ) (f : ℕ → D)
      → index / 2 ^ h ≡ i
      → h + rounds ≡ top
      → index / 2 ^ top ≡ p
      → proof_levels rounds h index (node h f i) (proof_of rounds h f i) ≡ ok (node top f p)
  unfolding proof_levels proof_of
  proof_levels_lem zero h index i top p f e t q =
      let same_level : h ≡ top = omega arith in
      let same_node : i ≡ p = sym e ∙ ap (λ j. index / 2 ^ j) same_level ∙ q in
      rw (same_level, same_node) refl
  proof_levels_lem (suc rounds) h index i top p f e t q =
      let e' = div-pow-suc index h ∙ ap (λ j. j / 2) e in
      let rest = proof_levels_lem rounds (suc h) index (i / 2) top p f e' (omega arith) q in
      rw (e, parent_of h i f) rest

  -- calculateRoot, given the leaf and the siblings of its path, returns the tree's root.
  pub calculate_root-proof_of :
      (height i : ℕ) (f : ℕ → D)
      → i < 2 ^ height
      → calculate_root (f i) (proof_of height 0 f i) i height ≡ ok (node height f 0)
  unfolding calculate_root node
  calculate_root-proof_of height i f lt =
      proof_levels_lem height 0 i i height 0 f (omega arith) (omega arith)
        (div-pow_of_lt i height lt)

  sibling_at-ok :
      (h : ℕ) (f : ℕ → D) (ys : List D) (n i : ℕ)
      → length ys ≡ 2 * n
      → i < length ys
      → IsLevel h f ys
      → sibling_at i ys ≡ ok (node h f (sibling i))
  unfolding sibling_at
  sibling_at-ok h f ys n i len lt lev = elim (ℕ_discrete (i % 2) 1) [
    | yes odd ↦ rw (odd, get_elem?-get_or ys (i - 1) (zero_hash h) (omega arith), lev (i - 1)) refl
    | no even ↦
        let even' : i % 2 ≡ 0 = omega arith in
        let inside : leb (length ys) (i + 1) ≡ false = ground arith in
        rw (even', inside, get_elem?-get_or ys (i + 1) (zero_hash h) (omega arith), lev (i + 1))
          refl
  ]

  sibling_levels_lem :
      (rounds h top i : ℕ) (f : ℕ → D) (ns : List (Triple D)) (xs : List D)
      → h + rounds ≡ top
      → top ≤ 65
      → i < length xs
      → IsLevel h f xs
      → (rounds ≡ 0 → Verdict h f (length xs) ns)
      → (last : List (Triple D)) × (sibling_levels rounds h i ns xs
          ≡ ok (proof_of rounds h f i, last))
        × Final rounds top f (length xs) last
  unfolding sibling_levels proof_of
  sibling_levels_lem zero h top i f ns xs t b lt lev v =
      let same : h ≡ top = omega arith in
      let (one, more) = v refl in
      (ns, refl, (λ le. rw (← same) (one (omega arith)), λ many. more (omega arith)))
  sibling_levels_lem (suc rounds) h top i f ns xs t b lt lev v =
      let (ys, pad, len, lev') = pad_level_lem h f xs (omega arith) lev in
      let (built, len', lev'', v') = level_lem h f ys ((length xs + 1) / 2) len lev' in
      let found = sibling_at-ok h f ys ((length xs + 1) / 2) i len (omega arith) lev' in
      let (last, run, fin) =
        sibling_levels_lem rounds (suc h) top (i / 2) f (pairs ys) (pair_hashes ys) (omega arith) b
          (omega arith) lev'' (λ _. rw len' v') in
      (
        last,
        rw (pad, found, built, run) refl,
        (
          λ le. fin.0 (omega (arith, pow-succ' 2 rounds)),
          λ many. fin.1 (omega (arith, pow-succ' 2 rounds)),
        ),
      )

  IsLevel-leaves : (leaves : List D) → IsLevel 0 (leaf_of leaves) leaves
  unfolding node zero_hash
  IsLevel-leaves leaves i = refl

  -- For a height from 1 to 65 and at least one leaf, ComputeSiblings refuses an index past the
  -- leaves and more than 2 ^ height leaves; otherwise it returns the siblings on the path of the
  -- leaf at the index, with the root of the tree over the leaves.
  pub compute_siblings-exit_root :
      (index : ℕ) (leaves : List D) (height : ℕ)
      → 0 < height
      → height ≤ 65
      → 0 < length leaves
      → (length leaves ≤ index → compute_siblings index leaves height ≡ err out_of_bounds)
        × (index < length leaves
            → 2 ^ height < length leaves
            → compute_siblings index leaves height ≡ err multiple_roots)
        × (index < length leaves
            → length leaves ≤ 2 ^ height
            → compute_siblings index leaves height
              ≡ ok (proof_of height 0 (leaf_of leaves) index, exit_root height leaves))
  unfolding compute_siblings exit_root
  compute_siblings-exit_root index [] height pos le some_leaf = elim some_leaf [ ]
  compute_siblings-exit_root index (l ∷ ls) height pos le some_leaf = (
    λ out. rw (past out) refl,
    λ inside many. rw (within inside, (levels inside).1, (levels inside).2.1 many) refl,
    λ inside few. rw (within inside, (levels inside).1, (levels inside).2.0 few) refl,
  )
    where
      past : length (l ∷ ls) ≤ index → leb (length (l ∷ ls)) index ≡ true
      past out = ground arith

      within : index < length (l ∷ ls) → leb (length (l ∷ ls)) index ≡ false
      within inside = ground arith

      levels :
          index < length (l ∷ ls)
          → (last : List (Triple D)) × (sibling_levels height 0 index [] (l ∷ ls)
              ≡ ok (proof_of height 0 (leaf_of (l ∷ ls)) index, last))
            × Final height height (leaf_of (l ∷ ls)) (length (l ∷ ls)) last
      levels inside =
          sibling_levels_lem height 0 height index (leaf_of (l ∷ ls)) [] (l ∷ ls) (omega arith) le
            inside (IsLevel-leaves (l ∷ ls)) (λ e. absurd (omega arith))
