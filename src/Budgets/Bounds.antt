-- ===== src/Budgets/Bounds.antt =====
-- The amount of tokens that a dispatch asks for (src/asterun/context_budget/ledger.py).
use asterun.Prelude.{
  [], ◌∷◌, ◌==◌, ◌≢◌, string_eq, refl, ℕ, ◌+◌, ◌-◌, ◌≤◌, ◌⊎◌, String, Option, none, some, Dict, ◌≡◌,
  refl, ap, arith, inl, inr, ltb, leb, Bool-cases,
}
use asterun.Prelude.Int.{ℤ, pos, ◌-ℤ◌}
use asterun.Errors.{ok}
use asterun.Control.Db.{Db}
use asterun.Control.Budget.{MeterKey, Total, budget_totals}
use asterun.Budgets.{amount_for, min_ℤ, max_ℤ, token_total, namespace}

-- A soft budget is a positive number, where there is one.
abbrev pub IsPositive : Option ℕ → Type 0
IsPositive none = Unit
IsPositive (some n) = 1 ≤ n

-- tokens that were used or are held
abbrev pub taken : Total → ℕ
taken t = t.settled + t.held

-- The amount is the soft budget or the limit, whichever is less; without a soft budget it is what makes
-- up the limit, or one token where nothing is left.
abbrev pub IsShare : Option ℕ → ℕ → ℕ → ℕ → Type 0
IsShare (some soft) limit gone n = ((n ≡ soft) × (soft ≤ limit)) ⊎ ((n ≡ limit) × (limit ≤ soft))
IsShare none limit gone n = (gone + n ≡ limit) ⊎ ((limit ≤ gone) × (n ≡ 1))

abbrev Asked : Option ℕ → ℕ → ℕ → ℤ → Type 0
Asked soft limit gone a = (n : ℕ) × (a ≡ pos n) × (1 ≤ n) × (n ≤ limit) × IsShare soft limit gone n

least-Asked :
    (soft limit gone : ℕ)
    → 1 ≤ soft
    → 1 ≤ limit
    → Asked (some soft) limit gone (min_ℤ (pos soft) (pos limit))
least-Asked soft limit gone p q = elim (Bool-cases (leb soft limit)) [
  | inl less ↦ (soft, ground arith, p, ground arith, inl (refl, ground arith))
  | inr more ↦ (limit, ground arith, q, omega arith, inr (refl, ground arith))
]

left-Asked :
    (limit : ℕ) (t : Total)
    → 1 ≤ limit
    → Asked none limit
        (taken t)
        (max_ℤ (pos 1) (min_ℤ (pos limit) (pos limit -ℤ pos t.settled -ℤ pos t.held)))
unfolding ◌-ℤ◌
left-Asked limit t q = elim (Bool-cases (ltb (t.settled + t.held) limit)) [
  | inl room ↦
      (limit - (t.settled + t.held), ground arith, ground arith, omega arith, inl (ground arith))
  | inr full ↦ (1, ground arith, omega arith, q, inr (ground arith, refl))
]

-- The first total of the meter, and nothing where there is none.
abbrev pub IsTokenTotal : Dict MeterKey Total → Total → Type 0
IsTokenTotal [] t = taken t ≡ 0
IsTokenTotal ((k, u) ∷ rows) t =
    ((k.0 ≡ "tokens") × (u ≡ t)) ⊎ ((k.0 ≢ "tokens") × IsTokenTotal rows t)

token_total-IsTokenTotal : (rows : Dict MeterKey Total) → IsTokenTotal rows (token_total rows)
token_total-IsTokenTotal [] = omega arith
token_total-IsTokenTotal ((k, u) ∷ rows) = elim (Bool-cases (k.0 == "tokens")) [
  | inl same ↦ rw same (inl ((string_eq.equal_iff k.0 "tokens").0 same, refl))
  | inr other ↦ rw other (
      inr
        ((λ e. cc ((string_eq.equal_iff k.0 "tokens").1 e, other)), token_total-IsTokenTotal rows))
]

-- Where the totals of the budget can be read, a dispatch with a positive limit, and a positive soft budget
-- if it has one, asks for at least one token and at most the limit: for the soft budget or the limit,
-- whichever is less; and without a soft budget for what the limit leaves beside the settled and the held
-- part of the first total of tokens, if there is one, or for one token where it leaves nothing. Asking
-- changes nothing.
pub amount_for-IsShare :
    (budget : String) (soft : Option ℕ) (limit : ℕ) (s : Db) (rows : Dict MeterKey Total)
    → IsPositive soft
    → 1 ≤ limit
    → budget_totals namespace budget s ≡ ok rows
    → (t : Total) × (n : ℕ) × IsTokenTotal rows t
      × IsShare soft limit (taken t) n
      × (amount_for budget soft (pos limit) s ≡ (ok (pos n), s))
      × (1 ≤ n)
      × (n ≤ limit)
amount_for-IsShare budget (some soft) limit s rows p q read =
    let (n, is, least, most, share) = least-Asked soft limit (taken (token_total rows)) p q in
    (token_total rows, n, token_total-IsTokenTotal rows, share, ap (λ a. (ok a, s)) is, least, most)
amount_for-IsShare budget none limit s rows p q read =
    let (n, is, least, most, share) = left-Asked limit (token_total rows) q in
    (
      token_total rows,
      n,
      token_total-IsTokenTotal rows,
      share,
      rw read (ap (λ a. (ok a, s)) is),
      least,
      most,
    )
