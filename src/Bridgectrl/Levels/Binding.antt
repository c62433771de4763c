-- ===== src/Bridgectrl/Levels/Binding.antt =====
-- What a Merkle proof commits to, if nobody finds two inputs of Keccak-256 with one output.
use zkevm_bridge_service.Base.{
  ℕ, zero, suc, ◌+◌, ◌*◌, ◌/◌, ◌%◌, ◌^◌, ◌<◌, ◌≡◌, sym, ◌∙◌, ap, List, [], ◌∷◌, ℕ_discrete,
  div-pow-suc, div-pow_of_lt, arith, ok,
}
use zkevm_bridge_service.Bridgectrl.Keccak.{Keccak}
use zkevm_bridge_service.Bridgectrl.Levels.{proof_levels, calculate_root}
use zkevm_bridge_service.Bridgectrl.Levels.Proofs.{proof_of, calculate_root-proof_of}
use zkevm_bridge_service.Bridgectrl.Tree.{node, node-suc, leaf_of, exit_root}

-- Collision resistance, in its ideal form: the hash of two digests determines them.
abbrev pub IsCollisionFree : {D : Type 0} → Keccak D → Type 0
IsCollisionFree {D} k = (a b c d : D) → k.hash a b ≡ k.hash c d → (a ≡ c) × (b ≡ d)

module _ {D : Type 0} ⦃k : Keccak D⦄ (free : IsCollisionFree k) where
  proof_levels-binding :
      (rounds h index i top p : ℕ) (f : ℕ → D) (a : D) (proof : List D)
      → index / 2 ^ h ≡ i
      → h + rounds ≡ top
      → index / 2 ^ top ≡ p
      → proof_levels rounds h index a proof ≡ ok (node top f p)
      → a ≡ node h f i
  unfolding proof_levels
  proof_levels-binding zero h index i top p f a proof e t q run =
      let same_level : h ≡ top = omega arith in
      let same_node : i ≡ p = sym e ∙ ap (λ j. index / 2 ^ j) same_level ∙ q in
      rw (same_level, same_node) (cc)
  proof_levels-binding (suc rounds) h index i top p f a [] e t q run = cc
  proof_levels-binding (suc rounds) h index i top p f a (s ∷ ss) e t q run =
      let e' = div-pow-suc index h ∙ ap (λ j. j / 2) e in
      let up =
        proof_levels-binding rounds (suc h) index (i / 2) top p f _ ss e' (omega arith) q run in
      elim (ℕ_discrete (i % 2) 1) [
        | yes odd ↦
            let r : 2 * (i / 2) + 1 ≡ i = omega arith in
            (free _ _ _ _ (rw (e, odd) at up ∙ node-suc h f (i / 2))).1 ∙ ap (node h f) r
        | no even ↦
            let even' : i % 2 ≡ 0 = omega arith in
            let l : 2 * (i / 2) ≡ i = omega arith in
            (free _ _ _ _ (rw (e, even') at up ∙ node-suc h f (i / 2))).0 ∙ ap (node h f) l
      ]

  -- If the hash has no collisions, then for an index below 2 ^ height calculateRoot over any proof
  -- returns the root of the tree over some leaves only for the leaf that stands at the index.
  pub calculate_root-binding :
      (height index : ℕ) (leaves : List D) (leaf : D) (proof : List D)
      → index < 2 ^ height
      → calculate_root leaf proof index height ≡ ok (exit_root height leaves)
      → leaf ≡ leaf_of leaves index
  unfolding calculate_root exit_root node
  calculate_root-binding height index leaves leaf proof lt run =
      proof_levels-binding height 0 index index height 0 (leaf_of leaves) leaf proof (omega arith)
        (omega arith) (div-pow_of_lt index height lt) run

  -- If the hash has no collisions, two trees of one height with one root have the same leaves at
  -- every index below 2 ^ height.
  pub exit_root-injective :
      (height : ℕ) (xs ys : List D) (index : ℕ)
      → exit_root height xs ≡ exit_root height ys
      → index < 2 ^ height
      → leaf_of xs index ≡ leaf_of ys index
  unfolding exit_root
  exit_root-injective height xs ys index same lt =
      calculate_root-binding height index ys (leaf_of xs index)
        (proof_of height 0 (leaf_of xs) index) lt
        (calculate_root-proof_of height index (leaf_of xs) lt ∙ ap ok same)
