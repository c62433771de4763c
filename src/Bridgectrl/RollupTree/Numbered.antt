-- ===== src/Bridgectrl/RollupTree/Numbered.antt =====
-- addRollupExitLeaf: the leaves of the rollups keep the places of their ids.
use zkevm_bridge_service.Base.{
  ℕ, zero, suc, ◌+◌, ◌-◌, ◌%◌, ◌<◌, ◌≡◌, ◌≢◌, refl, ap, subst, ◌∙◌, List, [], ◌∷◌, ◌++◌, length,
  length-append, get_elem?, get_elem?-append, set, true, ◌==◌, some, u32_mod, ok, arith,
}
use zkevm_bridge_service.Bridgectrl.Keccak.{Keccak}
use zkevm_bridge_service.Bridgectrl.RollupTree.{empty_rollups, place_leaf}
use zkevm_bridge_service.Storage.Tables.{RollupExitLeaf}

module _ {D : Type 0} where
  -- From position `i` on, the leaf at a position has the rollup id after it.
  abbrev pub AreNumbered : ℕ → List (RollupExitLeaf D) → Type 0
  AreNumbered i [] = Unit {0}
  AreNumbered i (l ∷ ls) = (l.rollup_id ≡ i + 1) × AreNumbered (suc i) ls

  AreNumbered-append :
      (i n : ℕ) (xs ys : List (RollupExitLeaf D))
      → AreNumbered i xs
      → i + length xs ≡ n
      → AreNumbered n ys
      → AreNumbered i (xs ++ ys)
  AreNumbered-append i n [] ys all e rest = subst (λ j. AreNumbered j ys) (omega arith) rest
  AreNumbered-append i n (x ∷ xs) ys (here, all) e rest =
      (here, AreNumbered-append (suc i) n xs ys all (omega arith) rest)

  numbered_at :
      (i j : ℕ) (ls : List (RollupExitLeaf D))
      → AreNumbered i ls
      → j < length ls
      → (l : RollupExitLeaf D) × (get_elem? ls j ≡ some l) × (l.rollup_id ≡ i + j + 1)
  numbered_at i j [] all lt = elim lt [ ]
  numbered_at i zero (l ∷ ls) (here, all) lt = (l, refl, omega (arith, here))
  numbered_at i (suc j) (l ∷ ls) (here, all) lt =
      let (m, found, e) = numbered_at (suc i) j ls all (omega arith) in (m, found, omega (arith, e))

  AreNumbered-set :
      (i j : ℕ) (ls : List (RollupExitLeaf D)) (l : RollupExitLeaf D)
      → AreNumbered i ls
      → l.rollup_id ≡ i + j + 1
      → AreNumbered i (set ls j l)
  AreNumbered-set i j [] l all e = tt
  AreNumbered-set i zero (x ∷ ls) l (here, all) e = (omega (arith, e), all)
  AreNumbered-set i (suc j) (x ∷ ls) l (here, all) e =
      (here, AreNumbered-set (suc i) j ls l all (omega (arith, e)))

  get_elem?-set :
      (ls : List (RollupExitLeaf D)) (j : ℕ) (l : RollupExitLeaf D)
      → j < length ls
      → get_elem? (set ls j l) j ≡ some l
  get_elem?-set [] j l lt = elim lt [ ]
  get_elem?-set (x ∷ ls) zero l lt = refl
  get_elem?-set (x ∷ ls) (suc j) l lt = get_elem?-set ls j l (omega arith)

  get_elem?-set_other :
      (ls : List (RollupExitLeaf D)) (i j : ℕ) (l : RollupExitLeaf D)
      → i ≢ j
      → get_elem? (set ls j l) i ≡ get_elem? ls i
  get_elem?-set_other [] i j l other = refl
  get_elem?-set_other (x ∷ ls) zero zero l other = absurd (other refl)
  get_elem?-set_other (x ∷ ls) (suc i) zero l other = refl
  get_elem?-set_other (x ∷ ls) zero (suc j) l other = refl
  get_elem?-set_other (x ∷ ls) (suc i) (suc j) l other =
      get_elem?-set_other ls i j l (λ e. other (ap suc e))

==_of : (a b : ℕ) → a ≡ b → (a == b) ≡ true
==_of a b e = ground arith

AreNumbered-empty_rollups :
    (D : Type 0) ⦃k : Keccak D⦄ (n i block_id : ℕ)
    → i + n < u32_mod
    → AreNumbered i (empty_rollups {D = D} n i block_id)
AreNumbered-empty_rollups D zero i block_id lt = tt
AreNumbered-empty_rollups D (suc n) i block_id lt = (
  omega arith,
  subst (λ j. AreNumbered j (empty_rollups {D = D} n (i + 1) block_id)) (omega arith)
      (AreNumbered-empty_rollups D n (i + 1) block_id (omega arith)),
)

length-empty_rollups :
    (D : Type 0) ⦃k : Keccak D⦄ (n i block_id : ℕ) → length (empty_rollups {D = D} n i block_id) ≡ n
length-empty_rollups D zero i block_id = refl
length-empty_rollups D (suc n) i block_id = ap suc (length-empty_rollups D n (i + 1) block_id)

module _ {D : Type 0} ⦃k : Keccak D⦄ where
  place_leaf-found :
      (l : RollupExitLeaf D) (stored : List (RollupExitLeaf D)) (j : ℕ) (there : RollupExitLeaf D)
      → (l.rollup_id + u32_mod - 1) % u32_mod ≡ j
      → get_elem?
          (stored ++ empty_rollups (l.rollup_id - length stored) (length stored) l.block_id)
          j
        ≡ some there
      → (there.rollup_id == l.rollup_id) ≡ true
      → place_leaf l stored
        ≡ ok (
            set
              (stored ++ empty_rollups (l.rollup_id - length stored) (length stored) l.block_id)
              j
              l)
  unfolding place_leaf
  place_leaf-found l stored j there position found fits =
      rw (place_leaf, position, found, fits, position) refl

  -- Where the stored leaves have the rollup ids 1, 2, … in order, and the new leaf's rollup id is
  -- the uint32 `suc j`, and there are fewer than 2 ^ 32 of them: addRollupExitLeaf does not panic and finds no mismatch. The leaves that it
  -- goes on with are numbered in the same way, hold the new leaf at position `j`, and hold every
  -- other stored leaf where it was.
  pub place_leaf-AreNumbered :
      (l : RollupExitLeaf D) (stored : List (RollupExitLeaf D)) (j : ℕ)
      → AreNumbered 0 stored
      → l.rollup_id ≡ suc j
      → suc j < u32_mod
      → length stored < u32_mod
      → (placed : List (RollupExitLeaf D)) × (place_leaf l stored ≡ ok placed)
        × AreNumbered 0 placed
        × (get_elem? placed j ≡ some l)
        × ((i : ℕ) → i ≢ j → i < length stored → get_elem? placed i ≡ get_elem? stored i)
  unfolding place_leaf
  place_leaf-AreNumbered l stored j numbered id small few =
      let n = length stored in
      let added = empty_rollups (l.rollup_id - n) n l.block_id in
      let filled = stored ++ added in
      let numbers : AreNumbered 0 filled =
        AreNumbered-append 0 n stored added numbered (omega arith) (
          AreNumbered-empty_rollups D (l.rollup_id - n) n l.block_id
            (omega (arith, id, small, few))) in
      let inside : j < length filled = omega (
        arith,
        id,
        length-append stored added,
        length-empty_rollups D (l.rollup_id - n) n l.block_id,
      ) in
      let position : (l.rollup_id + u32_mod - 1) % u32_mod ≡ j = omega (arith, id, small) in
      let (there, found, same_id) = numbered_at 0 j filled numbers inside in
      let fits : (there.rollup_id == l.rollup_id) ≡ true =
        ==_of (there.rollup_id) l.rollup_id (omega (arith, id, same_id)) in
      (
        set filled j l,
        place_leaf-found l stored j there position found fits,
        AreNumbered-set 0 j filled l numbers (omega (arith, id)),
        get_elem?-set filled j l inside,
        λ i other lt. get_elem?-set_other filled i j l other ∙ get_elem?-append stored added i lt,
      )
