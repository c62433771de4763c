-- ===== src/Base/Keeps.antt =====
-- Calls on a state that leave what is seen of it as it was.
use mathlib.Core.Path.{◌≡◌, refl, ◌∙◌}
use mathlib.Core.Bool.{Bool, true, false}
use zkevm_bridge_service.Base.Tests.{if◌then◌else◌}
use zkevm_bridge_service.Base.Run.{Result, ok, err, panic, Error}
use zkevm_bridge_service.Base.State.{State, bind_result, ◌>>=◌, pure, lift, gets, fail}

module _ {ℓ κ λ'} {W : Type ℓ} {V : Type κ} {A : Type λ'} where
  pub record Keeps (view : W → V) (m : State W A) : Type (ℓ ⊔ κ) where
    pub at : (w : W) → view (m w).1 ≡ view w

module _ {ℓ κ λ' ρ} {W : Type ℓ} {V : Type κ} {A : Type λ'} {B : Type ρ} {view : W → V} where
  bind_result-view :
      (r : Result A × W) (f : A → State W B)
      → ((a : A) → Keeps view (f a))
      → view (bind_result r f).1 ≡ view r.1
  bind_result-view (ok a, w) f after = (after a).at w
  bind_result-view (err e, w) f after = refl
  bind_result-view (panic, w) f after = refl

  pub Keeps-bind :
      {m : State W A} {f : A → State W B}
      → Keeps view m
      → ((a : A) → Keeps view (f a))
      → Keeps view (m >>= f)
  Keeps-bind {m} {f} before after = record {
    at = λ w. bind_result-view (m w) f after ∙ before.at w;
  }

module _ {ℓ κ λ'} {W : Type ℓ} {V : Type κ} {A : Type λ'} {view : W → V} where
  pub Keeps-if :
      (b : Bool) {m n : State W A} → Keeps view m → Keeps view n → Keeps view (if b then m else n)
  Keeps-if true hm hn = hm
  Keeps-if false hm hn = hn

  pub Keeps-lift : (r : Result A) → Keeps view (lift r)
  Keeps-lift r = record { at = λ w. refl }

  pub Keeps-pure : (a : A) → Keeps view (pure a)
  Keeps-pure a = record { at = λ w. refl }

  pub Keeps-fail : (e : Error) → Keeps view (fail {A = A} e)
  Keeps-fail e = record { at = λ w. refl }

  pub Keeps-gets : (f : W → A) → Keeps view (gets f)
  Keeps-gets f = record { at = λ w. refl }

pub ruleset keeps_rules = (Keeps-bind, Keeps-lift, Keeps-pure, Keeps-fail, Keeps-gets, Keeps-if)
