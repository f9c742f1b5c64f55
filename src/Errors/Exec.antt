-- ===== src/Errors/Exec.antt =====
-- Methods that change a store and may raise. What was written before a raise stays written, so the
-- state comes back beside the error; `transaction` is the method of that name in
-- src/asterun/control_store.py, which takes those writes back.
use asterun.Prelude.{Bool, true, false, Option, none, some}
use asterun.Errors.{Code, Result, ok, err}

abbrev pub Exec {ℓ} : Type ℓ → Type ℓ → Type ℓ
Exec S A = S → Result A × S

module _ {ℓ} {S A : Type ℓ} where
  abbrev pub pure : A → Exec S A
  pure a s = (ok a, s)

  abbrev pub raise : Code → Exec S A
  raise c s = (err c, s)

  abbrev pub lift : Result A → Exec S A
  lift r s = (r, s)

  abbrev pub gets : (S → A) → Exec S A
  gets f s = (ok (f s), s)

  -- `None` raises the code, a value goes on.
  abbrev pub need : Option A → Code → Exec S A
  need none c s = (err c, s)
  need (some a) c s = (ok a, s)

module _ {ℓ} {S A B : Type ℓ} where
  abbrev pub continue : Result A → (A → Exec S B) → Exec S B
  continue (ok a) f s = f a s
  continue (err c) f s = (err c, s)

  infixl 10 ◌>>=◌
  abbrev pub ◌>>=◌ : Exec S A → (A → Exec S B) → Exec S B
  ◌>>=◌ m f s = let (r, s') = m s in continue r f s'

abbrev pub Unit₀ : Type 0
Unit₀ = Unit {0}

infixl 10 ◌>>◌
abbrev pub ◌>>◌ : {S B : Type 0} → Exec S Unit₀ → Exec S B → Exec S B
m >> n = m >>= λ _. n

abbrev pub modify : {S : Type 0} → (S → S) → Exec S Unit₀
modify f s = (ok tt, f s)

-- `if bad: raise AsterunError(code, ...)`
abbrev pub raise_when : {S : Type 0} → Bool → Code → Exec S Unit₀
raise_when true c s = (err c, s)
raise_when false c s = (ok tt, s)

-- The statement that ends a transaction: COMMIT or RELEASE after a body that returned, ROLLBACK to
-- the state at its start after one that raised.
abbrev pub settle_with {ℓ} : {S A : Type ℓ} → S → Result A × S → Result A × S
settle_with start (ok a, s) = (ok a, s)
settle_with start (err c, s) = (err c, start)

unfoldable pub transaction {ℓ} : {S A : Type ℓ} → Exec S A → Exec S A
transaction body s = settle_with s (body s)
