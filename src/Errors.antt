-- ===== src/Errors.antt =====
-- domain/errors.py of the services: the exceptions, less their texts, and code that may raise them.
use keviq_core.Prelude.{◌≡◌, refl, Option, none, some, Bool, true, false, ◌⊎◌, inl, inr}

-- `domain_error` is a bare `DomainError`; `value_error`, `runtime_error`, `type_error`, `key_error` and `attribute_error` are
-- Python's own, `integrity_error` is any refusal of the
-- database, of a value out of range too, and `http_not_found` the answer 404 of a route.
pub data Error : Type 0 where
  invalid_transition terminal_state immutable_field domain_validation domain_error : Error
  value_error runtime_error type_error key_error attribute_error : Error
  artifact_not_found incomplete_provenance model_alias lineage_cycle lineage_self_loop : Error
  integrity_error http_not_found sandbox_busy : Error

pub data Result {ℓ} (A : Type ℓ) : Type ℓ where
  ok : A → Result A
  err : Error → Result A

-- What comes after code that may raise.
module _ {ℓ κ} {A : Type ℓ} {B : Type κ} where
  infixl 5 ◌>>=◌
  abbrev pub ◌>>=◌ : Result A → (A → Result B) → Result B
  err raised >>= after = err raised
  ok value >>= after = after value

module _ {ℓ} {B : Type ℓ} where
  infixl 5 ◌>>◌
  abbrev pub ◌>>◌ : Result (Unit {0}) → Result B → Result B
  err raised >> after = err raised
  ok _ >> after = after

-- `if test: raise e`
abbrev pub raise_if : Bool → Error → Result (Unit {0})
raise_if true e = err e
raise_if false e = ok tt

-- `if o is None: raise e`
abbrev pub or_raise {ℓ} : {A : Type ℓ} → Option A → Error → Result A
or_raise none e = err e
or_raise (some a) e = ok a

pub Result-cases {ℓ} :
    {A : Type ℓ} (m : Result A) → ((a : A) × (m ≡ ok a)) ⊎ ((e : Error) × (m ≡ err e))
Result-cases (ok a) = inl (a, refl)
Result-cases (err e) = inr (e, refl)
