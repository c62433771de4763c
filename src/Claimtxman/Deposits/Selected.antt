-- ===== src/Claimtxman/Deposits/Selected.antt =====
-- Lists of deposits that a query selects and puts in order.
use mathlib.Core.List.{Memᴰ}
use mathlib.Core.List.Memᴰ
use zkevm_bridge_service.Base.{
  ℕ, ◌≡◌, refl, subst, sym, inl, inr, List, [], ◌∷◌, ◌++◌, Bool, true, false, Bool-cases, any, keep,
  find, Option, none, some, ◌==◌, if◌then◌else◌, arith,
}
use zkevm_bridge_service.Storage.Tables.{Block, Deposit}
use zkevm_bridge_service.Claimtxman.Deposits.Queries.{
  put, order_by, join_block, with_blocks, without_blocks,
}

abbrev pub AreAll : {A : Type 0} → (A → Type 0) → List A → Type 0
AreAll P [] = Unit {0}
AreAll P (x ∷ xs) = P x × AreAll P xs

module _ {A : Type 0} (P : A → Type 0) where
  pub AreAll-Memᴰ : (x : A) (xs : List A) → AreAll P xs → Memᴰ x xs → P x
  AreAll-Memᴰ x [] h there = elim (Memᴰ.not-nil there) [ ]
  AreAll-Memᴰ x (y ∷ ys) (h, hs) (Memᴰ.head e) = subst P (sym e) h
  AreAll-Memᴰ x (y ∷ ys) (h, hs) (Memᴰ.tail there) = AreAll-Memᴰ x ys hs there

  pub AreAll-each : (xs : List A) → ((x : A) → Memᴰ x xs → P x) → AreAll P xs
  AreAll-each [] h = tt
  AreAll-each (x ∷ xs) h = (h x (Memᴰ.head refl), AreAll-each xs (λ y there. h y (Memᴰ.tail there)))

  pub AreAll-append : (xs ys : List A) → AreAll P xs → AreAll P ys → AreAll P (xs ++ ys)
  AreAll-append [] ys h h' = h'
  AreAll-append (x ∷ xs) ys (h, hs) h' = (h, AreAll-append xs ys hs h')

  AreAll-if :
      (b : Bool) (xs ys : List A) → AreAll P xs → AreAll P ys → AreAll P (if b then xs else ys)
  AreAll-if true xs ys h h' = h
  AreAll-if false xs ys h h' = h'

  AreAll-put :
      (before : A → A → Bool) (x : A) (xs : List A) → P x → AreAll P xs → AreAll P (put before x xs)
  unfolding put
  AreAll-put before x [] h hs = (h, tt)
  AreAll-put before x (y ∷ ys) h hs =
      AreAll-if (before x y) (x ∷ y ∷ ys) (y ∷ put before x ys) (h, hs)
        (hs.0, AreAll-put before x ys h hs.1)

  pub AreAll-order_by :
      (before : A → A → Bool) (xs : List A) → AreAll P xs → AreAll P (order_by before xs)
  unfolding order_by
  AreAll-order_by before [] h = tt
  AreAll-order_by before (x ∷ xs) (h, hs) =
      AreAll-put before x (order_by before xs) h (AreAll-order_by before xs hs)

  pub AreAll-keep :
      (p : A → Bool) (xs : List A) → ((x : A) → Memᴰ x xs → p x ≡ true → P x) → AreAll P (keep p xs)
  unfolding keep
  AreAll-keep p [] h = tt
  AreAll-keep p (x ∷ xs) h =
      let rest = AreAll-keep p xs (λ y there. h y (Memᴰ.tail there)) in
      elim (Bool-cases (p x)) [
        | inl kept ↦ rw kept (h x (Memᴰ.head refl) kept, rest)
        | inr dropped ↦ rw dropped rest
      ]

pub any-false :
    {A : Type 0} (p : A → Bool) (x : A) (xs : List A) → any p xs ≡ false → Memᴰ x xs → p x ≡ false
unfolding any
any-false p x [] h there = elim (Memᴰ.not-nil there) [ ]
any-false p x (y ∷ ys) h (Memᴰ.head e) = subst (λ z. p z ≡ false) (sym e) (ground arith)
any-false p x (y ∷ ys) h (Memᴰ.tail there) = any-false p x ys (ground arith) there

module _ (P : Deposit → Type 0)
    (keeps : (d : Deposit) (n : ℕ) → P d → P (record d { block_number = n })) where
  AreAll-join_block :
      (d : Deposit) (b : Option Block) (ds : List Deposit)
      → P d
      → AreAll P ds
      → AreAll P (join_block d b ds)
  AreAll-join_block d (some b) ds h hs = (keeps d b.block_number h, hs)
  AreAll-join_block d none ds h hs = hs

  -- The join with the blocks changes no more than the block number.
  pub AreAll-with_blocks :
      (blocks : List Block) (ds : List Deposit) → AreAll P ds → AreAll P (with_blocks blocks ds)
  unfolding with_blocks
  AreAll-with_blocks blocks [] h = tt
  AreAll-with_blocks blocks (d ∷ ds) (h, hs) =
      AreAll-join_block d (find (λ b. b.id == d.block_id) blocks) (with_blocks blocks ds) h
        (AreAll-with_blocks blocks ds hs)

  pub AreAll-without_blocks : (ds : List Deposit) → AreAll P ds → AreAll P (without_blocks ds)
  AreAll-without_blocks [] h = tt
  AreAll-without_blocks (d ∷ ds) (h, hs) = (keeps d 0 h, AreAll-without_blocks ds hs)
