-- ===== src/Base/Run.antt =====
-- How a call ends: a value, a returned error, or a run-time panic.
use mathlib.Core.Path.{◌≡◌, refl}
use mathlib.Core.Option.{Option, none, some}

pub data Error : Type 0 where
  storage_not_found network_not_register deposit_not_synced : Error
  mismatched_deposit_count multiple_roots out_of_bounds rollup_id_mismatch wrong_root : Error
  no_siblings not_synced : Error
  missing_node exit_roots_length messy_events wrong_block wrong_state wrong_destination : Error
  cannot_reset_l1 l1_ger_not_found : Error
  group_not_found tx_not_found compress_failed node_failed already_exists : Error
  database : Error

pub data Result {ℓ} (A : Type ℓ) : Type ℓ where
  panic : Result A
  err : Error → Result A
  ok : A → Result A

infixl 5 ◌>>=◌
abbrev pub ◌>>=◌ {ℓ ℓ'} : {X : Type ℓ} {Y : Type ℓ'} → Result X → (X → Result Y) → Result Y
panic >>= next = panic
err e >>= next = err e
ok x >>= next = next x

-- An index expression: out of range it panics.
abbrev pub or_panic {ℓ} : {A : Type ℓ} → Option A → Result A
or_panic (some a) = ok a
or_panic none = panic

abbrev pub or_err {ℓ} : {A : Type ℓ} → Error → Option A → Result A
or_err e (some a) = ok a
or_err e none = err e

pub >>=-eq-ok {ℓ ℓ'} :
    {X : Type ℓ} {Y : Type ℓ'} (call : Result X) (next : X → Result Y) {y : Y}
    → (call >>= next) ≡ ok y
    → (x : X) × (call ≡ ok x) × (next x ≡ ok y)
>>=-eq-ok panic next run = cc
>>=-eq-ok (err e) next run = cc
>>=-eq-ok (ok x) next run = (x, refl, run)

pub ok-injective {ℓ} : {A : Type ℓ} {a b : A} → ok a ≡ ok b → a ≡ b
ok-injective h = cc

pub or_err-eq-ok {ℓ} :
    {A : Type ℓ} (e : Error) (o : Option A) {a : A} → or_err e o ≡ ok a → o ≡ some a
or_err-eq-ok e (some b) h = cc
or_err-eq-ok e none h = cc
