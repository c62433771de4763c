-- ===== src/Base/State.antt =====
-- A call that reads and writes a state, and keeps what it wrote when it fails.
use mathlib.Core.Path.{◌≡◌, refl}
use mathlib.Core.Logic.{◌⊎◌, inl, inr}
use mathlib.Core.Bool.{Bool, true, false}
use zkevm_bridge_service.Base.Tests.{if◌then◌else◌}
use zkevm_bridge_service.Base.Run.{Result, ok, err, panic, Error}

abbrev pub State {ℓ κ} : Type ℓ → Type κ → Type (ℓ ⊔ κ)
State W A = W → Result A × W

abbrev pub bind_result {ℓ κ λ'} :
    {W : Type ℓ} {A : Type κ} {B : Type λ'} → Result A × W → (A → State W B) → Result B × W
bind_result (ok a, w) f = f a w
bind_result (err e, w) f = (err e, w)
bind_result (panic, w) f = (panic, w)

infixl 5 ◌>>=◌ ◌>>◌
abbrev pub ◌>>=◌ {ℓ κ λ'} :
    {W : Type ℓ} {A : Type κ} {B : Type λ'} → State W A → (A → State W B) → State W B
◌>>=◌ m f w = bind_result (m w) f

abbrev pub ◌>>◌ {ℓ κ} : {W : Type ℓ} {B : Type κ} → State W (Unit {0}) → State W B → State W B
m >> r = m >>= λ _. r

abbrev pub pure {ℓ κ} : {W : Type ℓ} {A : Type κ} → A → State W A
pure a w = (ok a, w)

abbrev pub fail {ℓ κ} : {W : Type ℓ} {A : Type κ} → Error → State W A
fail e w = (err e, w)

abbrev pub lift {ℓ κ} : {W : Type ℓ} {A : Type κ} → Result A → State W A
lift r w = (r, w)

abbrev pub gets {ℓ κ} : {W : Type ℓ} {A : Type κ} → (W → A) → State W A
gets f w = (ok (f w), w)

abbrev pub modify {ℓ} : {W : Type ℓ} → (W → W) → State W (Unit {0})
modify f w = (ok tt, f w)

-- A call on a part of the state.
abbrev pub zoom {ℓ κ λ'} :
    {W : Type ℓ} {V : Type κ} {A : Type λ'} → (W → V) → (V → W → W) → State V A → State W A
zoom part put m w = let (r, v) = m (part w) in (r, put v w)

bind_result-eq-ok {ℓ κ λ'} :
    {W : Type ℓ} {A : Type κ} {B : Type λ'} (r : Result A × W) (f : A → State W B) {b : B} {w' : W}
    → bind_result r f ≡ (ok b, w')
    → (a : A) × (v : W) × (r ≡ (ok a, v)) × (f a v ≡ (ok b, w'))
bind_result-eq-ok (ok a, v) f h = (a, v, refl, h)
bind_result-eq-ok (err e, v) f h = cc
bind_result-eq-ok (panic, v) f h = cc

-- A chain that ends well went well at each of its calls.
pub bind-eq-ok {ℓ κ λ'} :
    {W : Type ℓ} {A : Type κ} {B : Type λ'} (m : State W A) (f : A → State W B) (w : W) {b : B}
    {w' : W}
    → (m >>= f) w ≡ (ok b, w')
    → (a : A) × (v : W) × (m w ≡ (ok a, v)) × (f a v ≡ (ok b, w'))
bind-eq-ok m f w h = bind_result-eq-ok (m w) f h

-- The branch that a conditional call took.
pub if-at {ℓ κ} :
    {W : Type ℓ} {A : Type κ} (b : Bool) (f g : State W A) (w : W) {z : Result A × W}
    → (if b then f else g) w ≡ z
    → ((b ≡ true) × (f w ≡ z)) ⊎ ((b ≡ false) × (g w ≡ z))
if-at true f g w h = inl (refl, h)
if-at false f g w h = inr (refl, h)
