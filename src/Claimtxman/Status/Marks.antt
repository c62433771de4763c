-- ===== src/Claimtxman/Status/Marks.antt =====
-- Lemmas on the statements of db/pgstorage/pgstorage.go that mark deposits as ready.
use mathlib.Core.List.{Memᴰ}
use zkevm_bridge_service.Base.{
  ℕ, ◌≡◌, ◌≤◌, refl, sym, ap, ◌∙◌, ◌⊎◌, inl, inr, subst, List, [], ◌∷◌, map, Bool, true, ◌&&◌, not,
  leb, Bool-cases, Option, none, some, Result, ok, err, panic, arith,
}
use zkevm_bridge_service.Base.State.{State, bind_result}
use zkevm_bridge_service.Bridgectrl.Keccak.{Keccak}
use zkevm_bridge_service.Storage.Tables.{Deposit, Db, serve}
use zkevm_bridge_service.Storage.Reads.{serve-tables}
use zkevm_bridge_service.Storage.Ready.{scalar, mark, mark_ready, root_counts, mark_up_to}
use zkevm_bridge_service.Storage.Ready.Joins.{
  made_ready, Marked, Marked-trans, RowAt, root_counts-Marked,
}

pub scalar-Memᴰ : {A : Type 0} (xs : List A) (a : A) → scalar xs ≡ ok (some a) → Memᴰ a xs
unfolding scalar
scalar-Memᴰ [] a h = cc
scalar-Memᴰ (x ∷ []) a h = Memᴰ.head (cc)
scalar-Memᴰ (x ∷ y ∷ rest) a h = cc

mark-Marked :
    (P : Deposit → Type 0) (chosen : Deposit → Bool) (count : ℕ) (d : Deposit)
    → (d.deposit_count ≤ count → chosen d ≡ true → P d)
    → (mark chosen count d ≡ d) ⊎ ((mark chosen count d ≡ made_ready d) × P d)
unfolding mark
mark-Marked P chosen count d fits =
    elim (Bool-cases (leb d.deposit_count count && chosen d && not d.ready_for_claim)) [
      | inl taken ↦ inr (rw taken refl, fits (ground arith) (ground arith))
      | inr left ↦ inl (rw left refl)
    ]

map-mark-Marked :
    (P : Deposit → Type 0) (chosen : Deposit → Bool) (count : ℕ) (ds : List Deposit)
    → ((d : Deposit) → d.deposit_count ≤ count → chosen d ≡ true → P d)
    → Marked P ds (map (mark chosen count) ds)
map-mark-Marked P chosen count [] fits = tt
map-mark-Marked P chosen count (d ∷ ds) fits =
    (mark-Marked P chosen count d (fits d), map-mark-Marked P chosen count ds fits)

module _ {D : Type 0} ⦃k : Keccak D⦄ where
  -- The root's deposit is not before this one.
  abbrev pub IsCovered : Db D → D → ℕ → Deposit → Type 0
  IsCovered db root network d =
      (count : ℕ) × RowAt db.roots db.deposits root network count × (d.deposit_count ≤ count)

  -- The same roots and leaves, and deposits of which some with P were marked.
  abbrev pub IsMarked : (Deposit → Type 0) → Db D → Db D → Type 0
  IsMarked P before db =
      (db.roots ≡ before.roots)
      × (db.rollup_exit ≡ before.rollup_exit)
      × Marked P before.deposits db.deposits

  abbrev pub Marks : {A : Type 0} → (Deposit → Type 0) → Db D → State (Db D) A → Type 0
  Marks P before m = (db : Db D) → IsMarked P before db → IsMarked P before (m db).1

  pub Marks-bind :
      {A B : Type 0} (P : Deposit → Type 0) (before : Db D) (r : Result A × Db D)
      (f : A → State (Db D) B)
      → IsMarked P before r.1
      → ((a : A) → r.0 ≡ ok a → IsMarked P before (f a r.1).1)
      → IsMarked P before (bind_result r f).1
  Marks-bind P before (ok a, db) f h after = after a refl
  Marks-bind P before (err e, db) f h after = h
  Marks-bind P before (panic, db) f h after = h

  pub serve-Marks : (P : Deposit → Type 0) (before : Db D) → Marks P before serve
  serve-Marks P before db h = subst (λ (x : Db D). IsMarked P before x) (sym (serve-tables.at db)) h

  mark_ready-Marks :
      (P : Deposit → Type 0) (before : Db D) (chosen : Deposit → Bool) (o : Option ℕ)
      → ((count : ℕ)
          → o ≡ some count
          → (d : Deposit) → d.deposit_count ≤ count
          → chosen d ≡ true
          → P d)
      → Marks P before (mark_ready chosen o)
  unfolding mark_ready
  mark_ready-Marks P before chosen none fits db h = h
  mark_ready-Marks P before chosen (some count) fits db (roots, leaves, marked) = (
    roots,
    leaves,
    Marked-trans P before.deposits db.deposits (map (mark chosen count) db.deposits) marked
        (map-mark-Marked P chosen count db.deposits (fits count refl)),
  )

  pub mark_up_to-Marks :
      (P : Deposit → Type 0) (before : Db D) (chosen : Deposit → Bool) (network : ℕ)
      (leaf : Option D)
      → ((root : D)
          → leaf ≡ some root
          → (d : Deposit) → IsCovered before root network d
          → chosen d ≡ true
          → P d)
      → Marks P before (mark_up_to chosen network leaf)
  unfolding mark_up_to
  mark_up_to-Marks P before chosen network none fits db h = h
  mark_up_to-Marks P before chosen network (some root) fits db (roots, leaves, marked) =
      let counts = root_counts root network db.roots db.deposits in
      Marks-bind P before (scalar counts, db) (mark_ready chosen) (roots, leaves, marked)
        (λ o found.
          mark_ready-Marks P before chosen o
            (λ count e d below picked.
              let row =
                root_counts-Marked P before.deposits db.deposits db.roots root network count marked
                  (scalar-Memᴰ counts count (found ∙ ap ok e)) in
              fits root refl d
                (count, subst (λ rs. RowAt rs before.deposits root network count) roots row, below)
                picked)
            db (roots, leaves, marked))
