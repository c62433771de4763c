-- ===== src/Bridgectrl/Levels/Append.antt =====
-- addLeaf's loop over the levels computes the root of the tree with the leaf appended.
use zkevm_bridge_service.Base.{
  ℕ, zero, suc, ◌+◌, ◌-◌, ◌*◌, ◌/◌, ◌%◌, ◌^◌, ◌≤◌, ◌≡◌, refl, sym, ◌∙◌, ap, ap₂, List, [], ◌∷◌,
  length, Bool, true, false, if◌then◌else◌, div-pow-suc, ℕ_discrete, subst, arith, ok,
}
use zkevm_bridge_service.Bridgectrl.Keccak.{Keccak, zero_hash, zero_at-ok}
use zkevm_bridge_service.Bridgectrl.Levels.{Triple, add_levels}
use zkevm_bridge_service.Bridgectrl.Tree.{
  node, EmptyFrom, EmptyFrom-suc, AgreeBelow, AgreeBelow-suc,
}

-- A full subtree at the end makes one node more.
abbrev pub grown : Bool → ℕ → ℕ
grown filled m = if filled then suc m else m

module _ {D : Type 0} ⦃k : Keccak D⦄ where
  -- `mt.siblings[h:]` for `m` nodes of level `h`: where the number is odd, the sibling is the last.
  abbrev pub AreSiblings : ℕ → (ℕ → D) → ℕ → List D → Type 0
  AreSiblings h f m [] = Unit {0}
  AreSiblings h f m (s ∷ ss) = (m % 2 ≡ 1 → s ≡ node h f (m - 1)) × AreSiblings (suc h) f (m / 2) ss

  -- The rows on the path from node `m` of level `h` up.
  unfoldable pub path_rows : ℕ → ℕ → (ℕ → D) → ℕ → List (Triple D)
  path_rows zero h f m = []
  path_rows (suc rounds) h f m =
      (node (suc h) f (m / 2), node h f (2 * (m / 2)), node h f (2 * (m / 2) + 1))
      ∷ path_rows rounds (suc h) f (m / 2)

  -- The parent of the node that the loop stands at, by the parity of its position.
  parent_odd :
      (h m : ℕ) (g : ℕ → D) (x : D)
      → m % 2 ≡ 1
      → x ≡ node h g (m - 1)
      → (x ≡ node h g (2 * (m / 2)))
        × (node h g m ≡ node h g (2 * (m / 2) + 1))
        × (k.hash x (node h g m) ≡ node (suc h) g (m / 2))
  unfolding node
  parent_odd h m g x odd e =
      let l : m - 1 ≡ 2 * (m / 2) = omega arith in
      let r : m ≡ 2 * (m / 2) + 1 = omega arith in
      let l' = e ∙ ap (node h g) l in let r' = ap (node h g) r in (l', r', ap₂ k.hash l' r')

  parent_even :
      (h m : ℕ) (g : ℕ → D)
      → m % 2 ≡ 0
      → EmptyFrom h g (suc m)
      → (node h g m ≡ node h g (2 * (m / 2)))
        × (zero_hash h ≡ node h g (2 * (m / 2) + 1))
        × (k.hash (node h g m) (zero_hash h) ≡ node (suc h) g (m / 2))
  unfolding node
  parent_even h m g even z =
      let l : m ≡ 2 * (m / 2) = omega arith in
      let l' = ap (node h g) l in
      let r' = sym (z (2 * (m / 2) + 1) (omega arith)) in (l', r', ap₂ k.hash l' r')

  keep_odd :
      (h m : ℕ) (g : ℕ → D) (filled : Bool) (x : D) (ss : List D)
      → m % 2 ≡ 1
      → x ≡ node h g (m - 1)
      → AreSiblings (suc h) g (grown filled (m / 2)) ss
      → AreSiblings h g (grown filled m) (x ∷ ss)
  keep_odd h m g true x ss odd e sib =
      let same : suc (m / 2) ≡ suc m / 2 = omega arith in
      (λ odd'. absurd (omega arith), subst (λ j. AreSiblings (suc h) g j ss) same sib)
  keep_odd h m g false x ss odd e sib = (λ _. e, sib)

  keep_even :
      (h m : ℕ) (g : ℕ → D) (filled : Bool) (x : D) (ss : List D)
      → m % 2 ≡ 0
      → AreSiblings (suc h) g (m / 2) ss
      → AreSiblings h g (grown filled m) ((if filled then node h g m else x) ∷ ss)
  keep_even h m g true x ss even sib =
      let same : m / 2 ≡ suc m / 2 = omega arith in
      let last : m ≡ suc m - 1 = omega arith in
      (λ _. ap (node h g) last, subst (λ j. AreSiblings (suc h) g j ss) same sib)
  keep_even h m g false x ss even sib = (λ odd. absurd (omega arith), sib)

  -- The row that the round at level `h` adds.
  abbrev path_row : ℕ → (ℕ → D) → ℕ → Triple D
  path_row h g m = (node (suc h) g (m / 2), node h g (2 * (m / 2)), node h g (2 * (m / 2) + 1))

  add_levels_odd :
      (rounds h index m : ℕ) (g : ℕ → D) (filled : Bool) (x : D) (xs ss : List D) (r : D)
      (rows : List (Triple D))
      → index / 2 ^ h ≡ m
      → m % 2 ≡ 1
      → x ≡ node h g (m - 1)
      → add_levels rounds (suc h) index (node (suc h) g (m / 2)) filled xs ≡ ok (r, ss, rows)
      → add_levels (suc rounds) h index (node h g m) filled (x ∷ xs)
        ≡ ok (r, x ∷ ss, path_row h g m ∷ rows)
  unfolding add_levels
  add_levels_odd rounds h index m g filled x xs ss r rows e odd xe run =
      let (xl, mr, pe) = parent_odd h m g x odd xe in rw (e, odd, pe, run) (cc)

  add_levels_even :
      (rounds h index m : ℕ) (g : ℕ → D) (filled : Bool) (x : D) (xs ss : List D) (r : D)
      (rows : List (Triple D))
      → index / 2 ^ h ≡ m
      → m % 2 ≡ 0
      → h ≤ 64
      → EmptyFrom h g (suc m)
      → add_levels rounds (suc h) index (node (suc h) g (m / 2)) false xs ≡ ok (r, ss, rows)
      → add_levels (suc rounds) h index (node h g m) filled (x ∷ xs)
        ≡ ok (r, (if filled then node h g m else x) ∷ ss, path_row h g m ∷ rows)
  unfolding add_levels
  add_levels_even rounds h index m g filled x xs ss r rows e even le z run =
      let (ml, zr, pe) = parent_even h m g even z in rw (e, even, zero_at-ok h le, pe, run) (cc)

  -- From level `h`, where the new tree has `m + 1` nodes and the loop stands at the last.
  pub add_levels_lem :
      (rounds h index m top p : ℕ) (f g : ℕ → D) (filled : Bool) (siblings : List D)
      → index / 2 ^ h ≡ m
      → h + rounds ≡ top
      → index / 2 ^ top ≡ p
      → top ≤ 65
      → length siblings ≡ rounds
      → AgreeBelow h f g m
      → EmptyFrom h g (suc m)
      → AreSiblings h f m siblings
      → (siblings' : List D) × (add_levels rounds h index (node h g m) filled siblings
          ≡ ok (node top g p, siblings', path_rows rounds h g m))
        × (length siblings' ≡ rounds)
        × AreSiblings h g (grown filled m) siblings'
  unfolding add_levels path_rows
  add_levels_lem zero h index m top p f g filled [] e t q b l a z s =
      let same_level : h ≡ top = omega arith in
      let same_node : m ≡ p = sym e ∙ ap (λ j. index / 2 ^ j) same_level ∙ q in
      ([], rw (same_level, same_node), refl, tt)
  add_levels_lem zero h index m top p f g filled (x ∷ xs) e t q b l a z s = absurd (omega arith)
  add_levels_lem (suc rounds) h index m top p f g filled [] e t q b l a z s = absurd (omega arith)
  add_levels_lem (suc rounds) h index m top p f g filled (x ∷ xs) e t q b l a z s =
      let e' = div-pow-suc index h ∙ ap (λ j. j / 2) e in
      let a' = AgreeBelow-suc h f g m a in
      let z' : EmptyFrom (suc h) g (suc (m / 2)) =
        λ i le. EmptyFrom-suc h g (suc m) z i (omega arith) in
      elim (ℕ_discrete (m % 2) 1) [
        | yes odd ↦
            let xe = s.0 odd ∙ a (m - 1) (omega arith) in
            let (ss, run, len, sib) =
              add_levels_lem rounds (suc h) index (m / 2) top p f g filled xs e' (omega arith) q b
                (omega arith) a' z' s.1 in
            (
              x ∷ ss,
              add_levels_odd rounds h index m g filled x xs ss _ _ e odd xe run,
              ap suc len,
              keep_odd h m g filled x ss odd xe sib,
            )
        | no even' ↦
            let even : m % 2 ≡ 0 = omega arith in
            let (ss, run, len, sib) =
              add_levels_lem rounds (suc h) index (m / 2) top p f g false xs e' (omega arith) q b
                (omega arith) a' z' s.1 in
            (
              (if filled then node h g m else x) ∷ ss,
              add_levels_even rounds h index m g filled x xs ss _ _ e even (omega arith) z run,
              ap suc len,
              keep_even h m g filled x ss even sib,
            )
      ]
