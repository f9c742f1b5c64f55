-- ===== src/Errors.antt =====
-- errors.py (src/asterun/errors.py): the codes that an AsterunError carries, and methods that
-- raise. An error keeps its code; the message, the details and the retry advice are not modelled.
-- `key_error`, `type_error`, `value_error` and `attribute_error` are Python's own errors, and `integrity` is sqlite3's
-- IntegrityError.
pub mod Exec
use asterun.Prelude.{Bool, true, false, ◌≡◌, refl, ◌⊎◌, inl, inr}

pub data Code : Type 0 where
  config_required auth_required scope_denied capability_unsupported revision_conflict : Code
  rate_limited backend_unavailable remote_state_unknown unknown_field unknown_project : Code
  path_out_of_scope path_invalid invalid_config invalid_request not_found : Code
  run_already_terminal idempotency_conflict instance_locked intent_persist_failed : Code
  binding_mismatch budget_exhausted : Code
  invalid_state cursor_expired lease_conflict lease_lost unknown_remote budget_unknown : Code
  key_error integrity type_error value_error attribute_error : Code

pub data Result {ℓ} (A : Type ℓ) : Type ℓ where
  ok : A → Result A
  err : Code → Result A

-- Chains of steps that may raise and change nothing.
infixl 10 ◌>>=◌ ◌>>◌
abbrev pub ◌>>=◌ {ℓ κ} : {A : Type ℓ} {B : Type κ} → Result A → (A → Result B) → Result B
ok a >>= f = f a
err c >>= f = err c

abbrev pub ◌>>◌ {ℓ} : {B : Type ℓ} → Result (Unit {0}) → Result B → Result B
m >> k = m >>= λ _. k

pub Result-cases {ℓ} :
    {A : Type ℓ} (r : Result A) → ((a : A) × (r ≡ ok a)) ⊎ ((c : Code) × (r ≡ err c))
Result-cases (ok a) = inl (a, refl)
Result-cases (err c) = inr (c, refl)
