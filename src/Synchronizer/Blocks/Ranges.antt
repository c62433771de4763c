-- ===== src/Synchronizer/Blocks/Ranges.antt =====
-- Ranges of the blocks of a chain that hold events.
use mathlib.Core.List.{Memᴰ}
use mathlib.Core.List.Memᴰ
use zkevm_bridge_service.Base.{
  ℕ, suc, ◌≤◌, ◌<◌, ◌≡◌, refl, sym, ap, ◌∙◌, ◌⊎◌, inl, inr, List, [], ◌∷◌, ◌++◌, Bool, true, false,
  ◌&&◌, leb, Bool-cases, keep, arith,
}
use zkevm_bridge_service.Storage.Tables.{Block}
use zkevm_bridge_service.Etherman.Types.{BlockData}
use zkevm_bridge_service.Synchronizer.Blocks.{last_block_of}

module _ {D : Type 0} where
  abbrev pub number : BlockData D → ℕ
  number b = b.block.block_number

  abbrev pub within : ℕ → ℕ → BlockData D → Bool
  within a b x = leb a (number x) && leb (number x) b

  -- The blocks of a range.
  abbrev pub between : ℕ → ℕ → List (BlockData D) → List (BlockData D)
  between a b = keep (within a b)

  -- Ascending numbers, from this one on.
  abbrev pub AreFrom : ℕ → List (BlockData D) → Type 0
  AreFrom lo [] = Unit {0}
  AreFrom lo (x ∷ xs) = (lo ≤ number x) × AreFrom (suc (number x)) xs

  AreFrom-less : (lo hi : ℕ) (xs : List (BlockData D)) → lo ≤ hi → AreFrom hi xs → AreFrom lo xs
  AreFrom-less lo hi [] le h = tt
  AreFrom-less lo hi (x ∷ xs) le (above, h) = (omega arith, h)

  between-cons :
      (a b : ℕ) (x : BlockData D) (xs : List (BlockData D))
      → a ≤ number x
      → number x ≤ b
      → between a b (x ∷ xs) ≡ x ∷ between a b xs
  unfolding keep
  between-cons a b x xs low high = let inside : within a b x ≡ true = ground arith in rw inside refl

  between-skip :
      (a b : ℕ) (x : BlockData D) (xs : List (BlockData D))
      → (number x < a) ⊎ (b < number x)
      → between a b (x ∷ xs) ≡ between a b xs
  unfolding keep
  between-skip a b x xs away = let outside : within a b x ≡ false = ground arith in rw outside refl

  pub between-none : (n : ℕ) (xs : List (BlockData D)) → between (suc n) n xs ≡ []
  unfolding keep
  between-none n [] = refl
  between-none n (x ∷ xs) =
      let outside : within (suc n) n x ≡ false = ground arith in rw outside (between-none n xs)

  -- Nothing is below the blocks.
  between-below :
      (a b lo : ℕ) (xs : List (BlockData D)) → AreFrom lo xs → b < lo → between a b xs ≡ []
  unfolding keep
  between-below a b lo [] h less = refl
  between-below a b lo (x ∷ xs) (above, h) less =
      between-skip a b x xs (inr (omega arith))
      ∙ between-below a b (suc (number x)) xs h (omega arith)

  -- Where a range starts does not matter for blocks behind that.
  pub between-from :
      (a a' b lo : ℕ) (xs : List (BlockData D))
      → AreFrom lo xs
      → a ≤ lo
      → a' ≤ lo
      → between a b xs ≡ between a' b xs
  unfolding keep
  between-from a a' b lo [] h le le' = refl
  between-from a a' b lo (x ∷ xs) (above, h) le le' =
      let rest = between-from a a' b (suc (number x)) xs h (omega arith) (omega arith) in
      let same : within a b x ≡ within a' b x = ground arith in rw (same, rest) refl

  pub between-split :
      (a m b lo : ℕ) (xs : List (BlockData D))
      → AreFrom lo xs
      → a ≤ suc m
      → m ≤ b
      → between a b xs ≡ between a m xs ++ between (suc m) b xs
  unfolding keep
  between-split a m b lo [] h le le' = refl
  between-split a m b lo (x ∷ xs) (above, h) le le' = elim (Bool-cases (leb (number x) m)) [
    | inl left ↦
        let rest = between-split a m b (suc (number x)) xs h le le' in
        let later : within (suc m) b x ≡ false = ground arith in
        elim (Bool-cases (leb a (number x))) [
          | inl inside ↦
              let here : within a b x ≡ true = ground arith in
              let here' : within a m x ≡ true = ground arith in rw (here, here', later, rest) refl
          | inr before ↦
              let out : within a b x ≡ false = ground arith in
              let out' : within a m x ≡ false = ground arith in rw (out, out', later, rest) refl
        ]
    | inr right ↦
        let none_before = between-below a m (suc m) (x ∷ xs) ((ground arith), h) (omega arith) in
        between-from a (suc m) b (suc m) (x ∷ xs) ((ground arith), h) le (omega arith)
        ∙ ap (λ l. l ++ between (suc m) b (x ∷ xs)) (sym none_before)
  ]

  pub AreFrom-Memᴰ :
      (lo : ℕ) (xs : List (BlockData D)) (x : BlockData D)
      → AreFrom lo xs
      → Memᴰ x xs
      → lo ≤ number x
  AreFrom-Memᴰ lo [] x h there = elim (Memᴰ.not-nil there) [ ]
  AreFrom-Memᴰ lo (y ∷ ys) x (above, h) (Memᴰ.head same) = omega (arith, ap number same)
  AreFrom-Memᴰ lo (y ∷ ys) x (above, h) (Memᴰ.tail there) =
      omega (arith, AreFrom-Memᴰ (suc (number y)) ys x h there)

  -- A range that starts at a block of the list.
  pub between-at :
      (b lo : ℕ) (xs : List (BlockData D)) (x : BlockData D)
      → AreFrom lo xs
      → Memᴰ x xs
      → number x ≤ b
      → between (number x) b xs ≡ x ∷ between (suc (number x)) b xs
  between-at b lo [] x h there le = elim (Memᴰ.not-nil there) [ ]
  between-at b lo (y ∷ ys) x (above, h) (Memᴰ.head same) le =
      let n = number x in
      let is : number x ≡ number y = ap number same in
      between-cons n b y ys (omega arith) (omega arith)
      ∙ ap (λ z. z ∷ between n b ys) (sym same)
      ∙ ap (λ l. x ∷ l)
          (between-from n (suc n) b (suc (number y)) ys h (omega arith) (omega arith)
            ∙ sym (between-skip (suc n) b y ys (inl (omega arith))))
  between-at b lo (y ∷ ys) x (above, h) (Memᴰ.tail there) le =
      let after = AreFrom-Memᴰ (suc (number y)) ys x h there in
      between-skip (number x) b y ys (inl (omega arith))
      ∙ between-at b (suc (number y)) ys x h there le
      ∙ ap (λ l. x ∷ l) (sym (between-skip (suc (number x)) b y ys (inl (omega arith))))

  -- The last block of a range that is not empty: none of the range comes after it.
  abbrev pub IsNewest : Block → ℕ → ℕ → List (BlockData D) → Type 0
  IsNewest last from to xs =
      (between from to xs ≡ [])
      ⊎ ((x : BlockData D) × Memᴰ x xs
          × (last_block_of last (between from to xs) ≡ x.block)
          × (from ≤ number x)
          × (number x ≤ to)
          × (between (suc (number x)) to xs ≡ []))

  pub between-IsNewest :
      (last : Block) (from to lo : ℕ) (xs : List (BlockData D))
      → AreFrom lo xs
      → IsNewest last from to xs
  unfolding keep
  between-IsNewest last from to lo [] h = inl refl
  between-IsNewest last from to lo (x ∷ xs) (above, h) = elim (Bool-cases (within from to x)) [
    | inl inside ↦
        let low : from ≤ number x = ground arith in
        let high : number x ≤ to = ground arith in
        let here = between-cons from to x xs low high in
        inr (elim (between-IsNewest x.block from to (suc (number x)) xs h) [
          | inl empty ↦ (
            x,
            Memᴰ.head refl,
            ap (last_block_of last) (here ∙ ap (λ l. x ∷ l) empty),
            low,
            high,
            between-skip (suc (number x)) to x xs (inl (omega arith))
                ∙ between-from (suc (number x)) from to (suc (number x)) xs h (omega arith)
                    (omega arith)
                ∙ empty,
          )
          | inr (y, there, is, low', high', rest) ↦
              let after = AreFrom-Memᴰ (suc (number x)) xs y h there in
              (
                y,
                Memᴰ.tail there,
                ap (last_block_of last) here ∙ is,
                low',
                high',
                between-skip (suc (number y)) to x xs (inl (omega arith)) ∙ rest,
              )
        ])
    | inr outside ↦
        let skipped : between from to (x ∷ xs) ≡ between from to xs = rw outside refl in
        elim (between-IsNewest last from to (suc (number x)) xs h) [
          | inl empty ↦ inl (skipped ∙ empty)
          | inr (y, there, is, low', high', rest) ↦
              let after = AreFrom-Memᴰ (suc (number x)) xs y h there in
              inr (
                y,
                Memᴰ.tail there,
                ap (last_block_of last) skipped ∙ is,
                low',
                high',
                between-skip (suc (number y)) to x xs (inl (omega arith)) ∙ rest,
              )
        ]
  ]

  pub between-AreFrom :
      (a b lo : ℕ) (xs : List (BlockData D)) → AreFrom lo xs → AreFrom lo (between a b xs)
  unfolding keep
  between-AreFrom a b lo [] h = tt
  between-AreFrom a b lo (x ∷ xs) (above, h) = elim (Bool-cases (within a b x)) [
    | inl inside ↦ rw inside (above, between-AreFrom a b (suc (number x)) xs h)
    | inr outside ↦
        rw outside (between-AreFrom a b lo xs (AreFrom-less lo (suc (number x)) xs (omega arith) h))
  ]
