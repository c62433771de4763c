-- ===== src/Bridgectrl/Tree.antt =====
-- The Merkle tree that bridgectrl/merkletree.go keeps, as a function of its leaves: what the
-- incremental and the rebuilding code are measured against.
use zkevm_bridge_service.Base.{
  ℕ, zero, suc, ◌+◌, ◌*◌, ◌/◌, ◌≤◌, ◌<◌, ◌≡◌, refl, ap₂, List, [], ◌∷◌, ◌++◌, length, get_or, arith,
}
use zkevm_bridge_service.Bridgectrl.Keccak.{Keccak, zero_hash}

module _ {D : Type 0} ⦃k : Keccak D⦄ where
  -- Node `i` of level `h` over the leaves `f`: level 0 holds the leaves.
  unfoldable pub node : ℕ → (ℕ → D) → ℕ → D
  node zero f i = f i
  node (suc h) f i = k.hash (node h f (2 * i)) (node h f (2 * i + 1))

  pub node-suc :
      (h : ℕ) (f : ℕ → D) (i : ℕ)
      → node (suc h) f i ≡ k.hash (node h f (2 * i)) (node h f (2 * i + 1))
  unfolding node
  node-suc h f i = refl

  -- The leaves of a list; the others are empty.
  abbrev pub leaf_of : List D → ℕ → D
  leaf_of leaves i = get_or leaves i k.hash_zero

  -- The root of the tree of a height with these leaves.
  unfoldable pub exit_root : ℕ → List D → D
  exit_root height leaves = node height (leaf_of leaves) 0

  -- Past `m` a level holds empty trees.
  abbrev pub EmptyFrom : ℕ → (ℕ → D) → ℕ → Type 0
  EmptyFrom h f m = (i : ℕ) → m ≤ i → node h f i ≡ zero_hash h

  pub EmptyFrom-suc :
      (h : ℕ) (f : ℕ → D) (m : ℕ) → EmptyFrom h f m → EmptyFrom (suc h) f ((m + 1) / 2)
  unfolding node zero_hash
  EmptyFrom-suc h f m e i le = ap₂ k.hash (e (2 * i) (omega arith)) (e (2 * i + 1) (omega arith))

  -- Below `m` a level holds the same nodes over `f` and over `g`.
  abbrev pub AgreeBelow : ℕ → (ℕ → D) → (ℕ → D) → ℕ → Type 0
  AgreeBelow h f g m = (i : ℕ) → i < m → node h f i ≡ node h g i

  pub AgreeBelow-suc :
      (h : ℕ) (f g : ℕ → D) (m : ℕ) → AgreeBelow h f g m → AgreeBelow (suc h) f g (m / 2)
  unfolding node
  AgreeBelow-suc h f g m e i lt = ap₂ k.hash (e (2 * i) (omega arith)) (e (2 * i + 1) (omega arith))

  pub leaf_of-EmptyFrom : (leaves : List D) → EmptyFrom 0 (leaf_of leaves) (length leaves)
  unfolding node zero_hash
  leaf_of-EmptyFrom [] i h = refl
  leaf_of-EmptyFrom (l ∷ ls) zero h = elim h [ ]
  leaf_of-EmptyFrom (l ∷ ls) (suc i) h = leaf_of-EmptyFrom ls i (omega arith)

  pub leaf_of-AgreeBelow :
      (leaves : List D) (leaf : D)
      → AgreeBelow 0 (leaf_of leaves) (leaf_of (leaves ++ leaf ∷ [])) (length leaves)
  unfolding node
  leaf_of-AgreeBelow [] leaf i h = elim h [ ]
  leaf_of-AgreeBelow (l ∷ ls) leaf zero h = refl
  leaf_of-AgreeBelow (l ∷ ls) leaf (suc i) h = leaf_of-AgreeBelow ls leaf i (omega arith)

  pub leaf_of-last :
      (leaves : List D) (leaf : D) → leaf_of (leaves ++ leaf ∷ []) (length leaves) ≡ leaf
  leaf_of-last [] leaf = refl
  leaf_of-last (l ∷ ls) leaf = leaf_of-last ls leaf
