-- ===== src/Storage/Ready/Joins.antt =====
-- db/pgstorage/pgstorage.go: what the subqueries of the statements that mark deposits find, when
-- some of the deposits were marked before.
use mathlib.Core.List.{Memᴰ}
use mathlib.Core.List.Memᴰ
use zkevm_bridge_service.Base.{
  ℕ, ◌≡◌, refl, sym, ap, ◌∙◌, ◌⊎◌, inl, inr, subst, List, [], ◌∷◌, ◌++◌, Bool, true, false, ◌&&◌,
  ◌==◌, if◌then◌else◌, arith,
}
use zkevm_bridge_service.Bridgectrl.Keccak.{Keccak}
use zkevm_bridge_service.Storage.Tables.{RootRow, RollupExitLeaf, Deposit}
use zkevm_bridge_service.Storage.Trees.{same_digest}
use zkevm_bridge_service.Storage.Reads.{same_digest-eq}
use zkevm_bridge_service.Storage.Ready.{counts_at, root_counts, leaves_at}

abbrev pub made_ready : Deposit → Deposit
made_ready d = record d { ready_for_claim = true }

-- The same deposits, of which some with P were marked.
abbrev pub Marked : (Deposit → Type 0) → List Deposit → List Deposit → Type 0
Marked P [] [] = Unit {0}
Marked P (d ∷ ds) (e ∷ es) = ((e ≡ d) ⊎ ((e ≡ made_ready d) × P d)) × Marked P ds es
Marked P ds es = ⊥

marked_twice :
    (P : Deposit → Type 0) (d e f : Deposit)
    → (e ≡ d) ⊎ ((e ≡ made_ready d) × P d)
    → (f ≡ e) ⊎ ((f ≡ made_ready e) × P e)
    → (f ≡ d) ⊎ ((f ≡ made_ready d) × P d)
marked_twice P d e f (inl a) (inl b) = inl (b ∙ a)
marked_twice P d e f (inl a) (inr (b, p)) = inr (b ∙ ap made_ready a, subst P a p)
marked_twice P d e f (inr (a, p)) (inl b) = inr (b ∙ a, p)
marked_twice P d e f (inr (a, p)) (inr (b, q)) = inr (b ∙ ap made_ready a, p)

pub Marked-trans :
    (P : Deposit → Type 0) (xs ys zs : List Deposit)
    → Marked P xs ys
    → Marked P ys zs
    → Marked P xs zs
Marked-trans P [] [] [] h h' = tt
Marked-trans P [] [] (z ∷ zs) h h' = elim h' [ ]
Marked-trans P [] (y ∷ ys) zs h h' = elim h [ ]
Marked-trans P (x ∷ xs) [] zs h h' = elim h [ ]
Marked-trans P (x ∷ xs) (y ∷ ys) [] h h' = elim h' [ ]
Marked-trans P (x ∷ xs) (y ∷ ys) (z ∷ zs) (a, h) (b, h') =
    (marked_twice P x y z a b, Marked-trans P xs ys zs h h')

pub Marked-refl : (P : Deposit → Type 0) (xs : List Deposit) → Marked P xs xs
Marked-refl P [] = tt
Marked-refl P (x ∷ xs) = (inl refl, Marked-refl P xs)

pub only : {A : Type 0} {a x : A} → Memᴰ a (x ∷ []) → a ≡ x
only (Memᴰ.head e) = e
only (Memᴰ.tail there) = elim (Memᴰ.not-nil there) [ ]

if-Memᴰ :
    {A : Type 0} {a : A} (b : Bool) (xs rest : List A)
    → Memᴰ a (if b then xs ++ rest else rest)
    → ((b ≡ true) × Memᴰ a xs) ⊎ Memᴰ a rest
if-Memᴰ true xs rest there = elim (Memᴰ.append_cases xs there) [
  | inl first ↦ inl (refl, first)
  | inr later ↦ inr later
]
if-Memᴰ false xs rest there = inr there

-- A deposit of this id and count.
abbrev pub HasCount : List Deposit → ℕ → ℕ → Type 0
HasCount ds id count = (e : Deposit) × Memᴰ e ds × (e.id ≡ id) × (e.deposit_count ≡ count)

HasCount-more :
    (d : Deposit) (ds : List Deposit) (id count : ℕ)
    → HasCount ds id count
    → HasCount (d ∷ ds) id count
HasCount-more d ds id count (e, there, same, counted) = (e, Memᴰ.tail there, same, counted)

mark_cases-HasCount :
    (P : Deposit → Type 0) (d e : Deposit) (ds : List Deposit) (id count : ℕ)
    → (e ≡ d) ⊎ ((e ≡ made_ready d) × P d)
    → e.id ≡ id
    → e.deposit_count ≡ count
    → HasCount (d ∷ ds) id count
mark_cases-HasCount P d e ds id count (inl a) same counted =
    (d, Memᴰ.head refl, ap (λ x. x.id) (sym a) ∙ same, ap (λ x. x.deposit_count) (sym a) ∙ counted)
mark_cases-HasCount P d e ds id count (inr (a, p)) same counted =
    (d, Memᴰ.head refl, ap (λ x. x.id) (sym a) ∙ same, ap (λ x. x.deposit_count) (sym a) ∙ counted)

counts_at-Marked :
    (P : Deposit → Type 0) (xs ys : List Deposit) (id count : ℕ)
    → Marked P xs ys
    → Memᴰ count (counts_at id ys)
    → HasCount xs id count
unfolding counts_at
counts_at-Marked P [] [] id count h there = elim (Memᴰ.not-nil there) [ ]
counts_at-Marked P [] (y ∷ ys) id count h there = elim h [ ]
counts_at-Marked P (x ∷ xs) [] id count h there = elim h [ ]
counts_at-Marked P (x ∷ xs) (y ∷ ys) id count (a, h) there =
    elim (if-Memᴰ (y.id == id) (y.deposit_count ∷ []) (counts_at id ys) there) [
      | inl (same, first) ↦
          mark_cases-HasCount P x y xs id count a (ground arith) (sym (only first))
      | inr later ↦ HasCount-more x xs id count (counts_at-Marked P xs ys id count h later)
    ]

module _ {D : Type 0} ⦃k : Keccak D⦄ where
  -- A row with this root, whose deposit has this count.
  abbrev pub RowAt : List (RootRow D) → List Deposit → D → ℕ → ℕ → Type 0
  RowAt rs ds root network count =
      (r : RootRow D) × Memᴰ r rs
      × (r.root ≡ root)
      × (r.network ≡ network)
      × HasCount ds r.deposit_id count

  pub root_counts-Marked :
      (P : Deposit → Type 0) (xs ys : List Deposit) (rs : List (RootRow D)) (root : D)
      (network count : ℕ)
      → Marked P xs ys
      → Memᴰ count (root_counts root network rs ys)
      → RowAt rs xs root network count
  unfolding root_counts
  root_counts-Marked P xs ys [] root network count h there = elim (Memᴰ.not-nil there) [ ]
  root_counts-Marked P xs ys (r ∷ rs) root network count h there =
      elim (if-Memᴰ (same_digest r.root root && r.network == network) (counts_at r.deposit_id ys)
        (root_counts root network rs ys) there) [
          | inl (same, first) ↦ (
            r,
            Memᴰ.head refl,
            same_digest-eq r.root root (ground arith),
            ground arith,
            counts_at-Marked P xs ys r.deposit_id count h first,
          )
          | inr later ↦
              let (row, place, same, on, counted) =
                root_counts-Marked P xs ys rs root network count h later in
              (row, Memᴰ.tail place, same, on, counted)
        ]

  pub leaves_at-row :
      (root : D) (rollup_id : ℕ) (ls : List (RollupExitLeaf D)) (leaf : D)
      → Memᴰ leaf (leaves_at root rollup_id ls)
      → (l : RollupExitLeaf D) × Memᴰ l ls
        × (l.root ≡ root)
        × (l.rollup_id ≡ rollup_id)
        × (l.leaf ≡ leaf)
  unfolding leaves_at
  leaves_at-row root rollup_id [] leaf there = elim (Memᴰ.not-nil there) [ ]
  leaves_at-row root rollup_id (l ∷ ls) leaf there =
      elim (if-Memᴰ (same_digest l.root root && l.rollup_id == rollup_id) (l.leaf ∷ [])
        (leaves_at root rollup_id ls) there) [
          | inl (same, first) ↦ (
            l,
            Memᴰ.head refl,
            same_digest-eq l.root root (ground arith),
            ground arith,
            sym (only first),
          )
          | inr later ↦
              let (row, place, same, of, leaf_of) = leaves_at-row root rollup_id ls leaf later in
              (row, Memᴰ.tail place, same, of, leaf_of)
        ]
