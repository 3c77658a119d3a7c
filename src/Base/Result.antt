-- ===== src/Base/Result.antt =====
-- A Python call that may raise: the value, or the exception that leaves the call.
use mathlib.Core.Path.{◌≡◌, refl}
use mathlib.Core.Logic.{◌⊎◌, inl, inr}

-- The exceptions that the program raises or lets through.
pub data Exn : Type 0 where
  value_error type_error attribute_error key_error index_error statistics_error : Exn
  division_by_zero invalid_operation not_found overflow_error : Exn

pub data Result {ℓ} (A : Type ℓ) : Type ℓ where
  ok : A → Result A
  raise : Exn → Result A

module _ {ℓ κ} {A : Type ℓ} {B : Type κ} where
  -- What follows a call runs if the call returned.
  infixl 5 ◌>>=◌
  abbrev pub ◌>>=◌ : Result A → (A → Result B) → Result B
  raise x >>= after = raise x
  ok value >>= after = after value

  -- A sequence that returned ran both parts.
  pub bind-ok :
      (call : Result A) (after : A → Result B) {end : B}
      → (call >>= after) ≡ ok end
      → (value : A) × (call ≡ ok value) × (after value ≡ ok end)
  bind-ok (raise x) after run = cc
  bind-ok (ok value) after run = (value, refl, run)

  -- So did a call whose value is only wrapped.
  pub map-ok :
      (call : Result A) (wrap : A → B) {end : B}
      → (call >>= λ value. ok (wrap value)) ≡ ok end
      → (value : A) × (call ≡ ok value) × (end ≡ wrap value)
  map-ok (raise x) wrap run = cc
  map-ok (ok value) wrap run = (value, refl, cc)

pub ok-injective {ℓ} : {A : Type ℓ} (a b : A) → ◌≡◌ {A = Result A} (ok a) (ok b) → a ≡ b
ok-injective a b h = cc

pub Result-cases {ℓ} :
    {A : Type ℓ} (r : Result A) → ((a : A) × (r ≡ ok a)) ⊎ ((x : Exn) × (r ≡ raise x))
Result-cases (ok a) = inl (a, refl)
Result-cases (raise x) = inr (x, refl)
