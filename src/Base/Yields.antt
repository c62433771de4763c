-- ===== src/Base/Yields.antt =====
-- Calls that leave what is seen of a state as it was, and what is known of their results.
use mathlib.Core.Path.{◌≡◌, refl}
use mathlib.Core.Bool.{Bool, true, false}
use zkevm_bridge_service.Base.Tests.{if◌then◌else◌}
use zkevm_bridge_service.Base.Run.{Result, ok, err, panic}
use zkevm_bridge_service.Base.State.{State, bind_result, ◌>>=◌, pure, gets, lift}

module _ {W V : Type 0} (view : W → V) (s : V) where
  abbrev pub After : {A : Type 0} → (A → Type 0) → Result A × W → Type 0
  After P (ok a, w) = (view w ≡ s) × P a
  After P (err e, w) = view w ≡ s
  After P (panic, w) = view w ≡ s

  pub record Yields {A : Type 0} (P : A → Type 0) (m : State W A) : Type 0 where
    pub at : (w : W) → view w ≡ s → After P (m w)

module _ {W V A : Type 0} (view : W → V) (s : V) (P : A → Type 0) where
  pub After-same : (z : Result A × W) → After view s P z → view z.1 ≡ s
  After-same (ok a, w) h = h.0
  After-same (err e, w) h = h
  After-same (panic, w) h = h

  After-lift :
      (r : Result A) (w : W) → view w ≡ s → ((a : A) → r ≡ ok a → P a) → After view s P (r, w)
  After-lift (ok a) w same h = (same, h a refl)
  After-lift (err e) w same h = same
  After-lift panic w same h = same

module _ {W V : Type 0} {view : W → V} {s : V} where
  bind_result-After :
      {A B : Type 0} {P : A → Type 0} {Q : B → Type 0} (z : Result A × W) (f : A → State W B)
      → After view s P z
      → ((a : A) → P a → Yields view s Q (f a))
      → After view s Q (bind_result z f)
  bind_result-After (ok a, w) f (same, p) after = (after a p).at w same
  bind_result-After (err e, w) f h after = h
  bind_result-After (panic, w) f h after = h

  pub Yields-bind :
      {A B : Type 0} {P : A → Type 0} {Q : B → Type 0} {m : State W A} {f : A → State W B}
      → Yields view s P m
      → ((a : A) → P a → Yields view s Q (f a))
      → Yields view s Q (m >>= f)
  Yields-bind {P} {m} {f} first after = record {
    at = λ w same. bind_result-After (m w) f (first.at w same) after;
  }

  pub Yields-pure : {A : Type 0} {P : A → Type 0} (a : A) → P a → Yields view s P (pure a)
  Yields-pure a p = record { at = λ w same. (same, p) }

  pub Yields-if :
      {A : Type 0} {P : A → Type 0} (b : Bool) {m n : State W A}
      → (b ≡ true → Yields view s P m)
      → (b ≡ false → Yields view s P n)
      → Yields view s P (if b then m else n)
  Yields-if true hm hn = hm refl
  Yields-if false hm hn = hn refl

  pub Yields-lift :
      {A : Type 0} {P : A → Type 0} (r : Result A)
      → ((a : A) → r ≡ ok a → P a)
      → Yields view s P (lift r)
  Yields-lift {P} r h = record { at = λ w same. After-lift view s P r w same h }

  pub Yields-gets :
      {A : Type 0} {P : A → Type 0} (f : W → A)
      → ((w : W) → view w ≡ s → P (f w))
      → Yields view s P (gets f)
  Yields-gets f h = record { at = λ w same. (same, h w same) }
