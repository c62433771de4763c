-- ===== src/Bridgectrl/Levels/Build.antt =====
-- updateLeaf's and buildMTRoot's loop computes the root of the tree over all the leaves.
use native.Mathlib.Nat.{pow-succ'}
use zkevm_bridge_service.Base.{
  ℕ, zero, suc, ◌+◌, ◌*◌, ◌/◌, ◌%◌, ◌^◌, ◌≤◌, ◌<◌, ◌≡◌, refl, ◌∙◌, ap, ap₂, List, [], ◌∷◌, ◌++◌,
  length, length-append, get_or, ℕ_discrete, one_le_pow, arith, ok, err, multiple_roots,
}
use zkevm_bridge_service.Bridgectrl.Keccak.{Keccak, zero_hash, zero_at-ok}
use zkevm_bridge_service.Bridgectrl.Levels.{
  Triple, build_intermediate, pad_level, build_levels, or_zero, only_root, build_mt_root,
}
use zkevm_bridge_service.Bridgectrl.Tree.{node, leaf_of, exit_root}

module _ {D : Type 0} ⦃k : Keccak D⦄ where
  -- The list holds level `h` of the tree: past its end there are empty trees.
  abbrev pub IsLevel : ℕ → (ℕ → D) → List D → Type 0
  IsLevel h f xs = (i : ℕ) → get_or xs i (zero_hash h) ≡ node h f i

  get_or-pad : (xs : List D) (z : D) (i : ℕ) → get_or (xs ++ z ∷ []) i z ≡ get_or xs i z
  get_or-pad [] z zero = refl
  get_or-pad [] z (suc i) = refl
  get_or-pad (x ∷ xs) z zero = refl
  get_or-pad (x ∷ xs) z (suc i) = get_or-pad xs z i

  pub pad_level_lem :
      (h : ℕ) (f : ℕ → D) (xs : List D)
      → h ≤ 64
      → IsLevel h f xs
      → (ys : List D) × (pad_level h xs ≡ ok ys)
        × (length ys ≡ 2 * ((length xs + 1) / 2))
        × IsLevel h f ys
  unfolding pad_level
  pad_level_lem h f xs le lev = elim (ℕ_discrete (length xs % 2) 1) [
    | yes odd ↦ (
      xs ++ zero_hash h ∷ [],
      rw (odd, zero_at-ok h le) refl,
      omega (arith, length-append xs (zero_hash h ∷ [])),
      λ i. get_or-pad xs (zero_hash h) i ∙ lev i,
    )
    | no even ↦ let even' : length xs % 2 ≡ 0 = omega arith in (xs, rw even' refl, omega arith, lev)
  ]

  -- The rows that build_intermediate makes, and their hashes.
  unfoldable pub pairs : List D → List (Triple D)
  pairs [] = []
  pairs (a ∷ []) = []
  pairs (a ∷ b ∷ r) = (k.hash a b, a, b) ∷ pairs r

  unfoldable pub pair_hashes : List D → List D
  pair_hashes [] = []
  pair_hashes (a ∷ []) = []
  pair_hashes (a ∷ b ∷ r) = k.hash a b ∷ pair_hashes r

  build_intermediate-pairs :
      (ys : List D) (n : ℕ)
      → length ys ≡ 2 * n
      → build_intermediate ys ≡ ok (pairs ys, pair_hashes ys)
  unfolding build_intermediate pairs pair_hashes
  build_intermediate-pairs [] n e = refl
  build_intermediate-pairs (a ∷ []) n e = absurd (omega arith)
  build_intermediate-pairs (a ∷ b ∷ r) zero e = absurd (omega arith)
  build_intermediate-pairs (a ∷ b ∷ r) (suc n) e = rw (build_intermediate-pairs r n (omega arith))

  length-pair_hashes : (ys : List D) (n : ℕ) → length ys ≡ 2 * n → length (pair_hashes ys) ≡ n
  unfolding pair_hashes
  length-pair_hashes [] n e = omega arith
  length-pair_hashes (a ∷ []) n e = absurd (omega arith)
  length-pair_hashes (a ∷ b ∷ r) zero e = absurd (omega arith)
  length-pair_hashes (a ∷ b ∷ r) (suc n) e = ap suc (length-pair_hashes r n (omega arith))

  get_or-pair_hashes :
      (ys : List D) (n : ℕ) (z : D) (i : ℕ)
      → length ys ≡ 2 * n
      → get_or (pair_hashes ys) i (k.hash z z)
        ≡ k.hash (get_or ys (2 * i) z) (get_or ys (2 * i + 1) z)
  unfolding pair_hashes
  get_or-pair_hashes [] n z i e = refl
  get_or-pair_hashes (a ∷ []) n z i e = absurd (omega arith)
  get_or-pair_hashes (a ∷ b ∷ r) zero z i e = absurd (omega arith)
  get_or-pair_hashes (a ∷ b ∷ r) (suc n) z zero e = refl
  get_or-pair_hashes (a ∷ b ∷ r) (suc n) z (suc i) e =
      let left : 2 * suc i ≡ suc (suc (2 * i)) = omega arith in
      let right : 2 * suc i + 1 ≡ suc (suc (2 * i + 1)) = omega arith in
      rw (right, left) (get_or-pair_hashes r n z i (omega arith))

  pair_hashes-IsLevel :
      (h : ℕ) (f : ℕ → D) (ys : List D) (n : ℕ)
      → length ys ≡ 2 * n
      → IsLevel h f ys
      → IsLevel (suc h) f (pair_hashes ys)
  unfolding node zero_hash
  pair_hashes-IsLevel h f ys n e lev i =
      get_or-pair_hashes ys n (zero_hash h) i e ∙ ap₂ k.hash (lev (2 * i)) (lev (2 * i + 1))

  -- What `len(ns) != 1` decides after a level with `n` nodes.
  abbrev pub Verdict : ℕ → (ℕ → D) → ℕ → List (Triple D) → Type 0
  Verdict h f n ns =
      (n ≡ 1 → only_root ns ≡ ok (node h f 0)) × (1 < n → only_root ns ≡ err multiple_roots)

  only_root-pairs :
      (h : ℕ) (f : ℕ → D) (ys : List D) (n : ℕ)
      → length ys ≡ 2 * n
      → IsLevel h f ys
      → Verdict (suc h) f n (pairs ys)
  unfolding node only_root pairs
  only_root-pairs h f [] n e lev = (λ one. absurd (omega arith), λ two. absurd (omega arith))
  only_root-pairs h f (a ∷ []) n e lev = absurd (omega arith)
  only_root-pairs h f (a ∷ b ∷ []) n e lev =
      (λ one. ap ok (ap₂ k.hash (lev 0) (lev 1)), λ two. absurd (omega arith))
  only_root-pairs h f (a ∷ b ∷ c ∷ []) n e lev = absurd (omega arith)
  only_root-pairs h f (a ∷ b ∷ c ∷ d ∷ r) n e lev = (λ one. absurd (omega arith), λ two. refl)

  -- One level, as each of the loops does it.
  pub level_lem :
      (h : ℕ) (f : ℕ → D) (ys : List D) (n : ℕ)
      → length ys ≡ 2 * n
      → IsLevel h f ys
      → (build_intermediate ys ≡ ok (pairs ys, pair_hashes ys))
        × (length (pair_hashes ys) ≡ n)
        × IsLevel (suc h) f (pair_hashes ys)
        × Verdict (suc h) f n (pairs ys)
  level_lem h f ys n e lev = (
    build_intermediate-pairs ys n e,
    length-pair_hashes ys n e,
    pair_hashes-IsLevel h f ys n e lev,
    only_root-pairs h f ys n e lev,
  )

  -- What it decides after all levels.
  abbrev pub Final : ℕ → ℕ → (ℕ → D) → ℕ → List (Triple D) → Type 0
  Final rounds top f n ns =
      (n ≤ 2 ^ rounds → only_root ns ≡ ok (node top f 0))
      × (2 ^ rounds < n → only_root ns ≡ err multiple_roots)

  pub build_levels_lem :
      (rounds h top : ℕ) (f : ℕ → D) (ns : List (Triple D)) (xs : List D)
      → h + rounds ≡ top
      → top ≤ 65
      → 0 < length xs
      → IsLevel h f xs
      → (rounds ≡ 0 → Verdict h f (length xs) ns)
      → (nodes : List (List (Triple D))) × (last : List (Triple D)) × (build_levels rounds h ns xs
          ≡ ok (nodes, last))
        × Final rounds top f (length xs) last
  unfolding build_levels
  build_levels_lem zero h top f ns xs t b pos lev v =
      let same : h ≡ top = omega arith in
      let (one, more) = v refl in
      ([], ns, refl, (λ le. rw (← same) (one (omega arith)), λ lt. more (omega arith)))
  build_levels_lem (suc rounds) h top f ns xs t b pos lev v =
      let (ys, pad, len, lev') = pad_level_lem h f xs (omega arith) lev in
      let (built, len', lev'', v') = level_lem h f ys ((length xs + 1) / 2) len lev' in
      let (nodes, last, run, fin) =
        build_levels_lem rounds (suc h) top f (pairs ys) (pair_hashes ys) (omega arith) b
          (omega arith) lev'' (λ _. rw len' v') in
      (
        pairs ys ∷ nodes,
        last,
        rw (pad, built, run) refl,
        (
          λ le. fin.0 (omega (arith, pow-succ' 2 rounds)),
          λ lt. fin.1 (omega (arith, pow-succ' 2 rounds)),
        ),
      )

  pub or_zero-IsLevel :
      (leaves : List D)
      → (xs : List D) × (or_zero leaves ≡ ok xs)
        × (0 < length xs)
        × (length leaves ≤ length xs)
        × (length xs ≤ length leaves + 1)
        × (0 < length leaves → xs ≡ leaves)
        × IsLevel 0 (leaf_of leaves) xs
  unfolding or_zero node zero_hash
  or_zero-IsLevel [] = (
    k.hash_zero ∷ [],
    rw (zero_at-ok 0 (omega arith)) refl,
    omega arith,
    omega arith,
    omega arith,
    λ pos. elim pos [ ],
    empty,
  )
    where
      empty : (i : ℕ) → get_or (k.hash_zero ∷ []) i k.hash_zero ≡ k.hash_zero
      empty zero = refl
      empty (suc i) = refl
  or_zero-IsLevel (l ∷ ls) =
      (l ∷ ls, refl, omega arith, omega arith, omega arith, λ _. refl, λ i. refl)

  -- For a height from 1 to 65, buildMTRoot returns the root of the tree of that height over the
  -- leaves (the empty leaf past their end) when there are at most 2 ^ height of them, and the error
  -- of more than one root when there are more.
  pub build_mt_root-exit_root :
      (height : ℕ) (leaves : List D)
      → 0 < height
      → height ≤ 65
      → (length leaves ≤ 2 ^ height → build_mt_root height leaves ≡ ok (exit_root height leaves))
        × (2 ^ height < length leaves → build_mt_root height leaves ≡ err multiple_roots)
  unfolding build_mt_root exit_root
  build_mt_root-exit_root height leaves pos le =
      let (xs, start, some_leaf, lower, upper, same, lev) = or_zero-IsLevel leaves in
      let (nodes, last, run, fin) =
        build_levels_lem height 0 height (leaf_of leaves) [] xs (omega arith) le some_leaf lev
          (λ e. absurd (omega arith)) in
      (
        λ few. rw (start, run) (fin.0 (few_leaves xs leaves height same upper few)),
        λ many. rw (start, run) (fin.1 (omega arith)),
      )
    where
      few_leaves :
          (xs ls : List D) (n : ℕ)
          → (0 < length ls → xs ≡ ls)
          → length xs ≤ length ls + 1
          → length ls ≤ 2 ^ n
          → length xs ≤ 2 ^ n
      few_leaves xs [] n s u f = omega (arith, one_le_pow n)
      few_leaves xs (l ∷ ls) n s u f = rw (s (omega arith)) f
