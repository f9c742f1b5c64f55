-- ===== src/Control/Budget/Spending.antt =====
-- `_budget_totals` of control_store.py against a plain account of a budget: what each of its reservations
-- used or may use, added up over the rows.
use asterun.Prelude.{
  ℕ, ◌+◌, String, ◌≡◌, refl, inl, inr, Bool, true, false, Option, none, some, List, [], ◌∷◌, Dict,
  lookup, insert, keep, arith, ◌==◌, string_eq, option_eq, pair_eq, if◌then◌else◌, lookup-insert,
  Option-cases, Bool-cases, ◌∙◌,
}
use asterun.Prelude.Int.{pos, negsuc}
use asterun.Errors.{ok, err, Result-cases}
use asterun.Control.Db.{
  Db, Number, int, other, Measure, ReservationRow, ReservationStatus, held, settled, released,
  uncertain,
}
use asterun.Control.Budget.{
  MeterKey, Total, key_of, safe_amount, add_measure, amounts_from, amounts, find_reservation,
  counted, counted_as, marked, add_row, total_rows, budget_totals, of_budget, used,
}
use asterun.Control.Budget.Totals.{or_zero, key_eq, count_row, sum_rows, budget_totals-used}

abbrev pub magnitude : Number → ℕ
magnitude (int (pos n)) = n
magnitude _ = 0

-- what a list of measures has for a meter and pool, added up
unfoldable pub amount_of : MeterKey → List Measure → ℕ
amount_of k [] = 0
amount_of k (m ∷ ms) = (if key_of m == k then magnitude m.amount else 0) + amount_of k ms

-- what a reservation used or may use: its actual use once settled, nothing once released, and what it
-- reserved while that is held or its use is uncertain
abbrev pub spent : MeterKey → ReservationStatus → Option (List Measure) → List Measure → ℕ
spent k held actual reserved = amount_of k reserved
spent k uncertain actual reserved = amount_of k reserved
spent k released actual reserved = 0
spent k settled none reserved = 0
spent k settled (some actual) reserved = amount_of k actual

abbrev pub spent_by : Db → String → MeterKey → String → ℕ
spent_by s n k id = elim (find_reservation id n s) [
  | err c ↦ 0
  | ok r ↦ spent k r.status r.actual r.reserved
]

-- the rows of a budget in a namespace, added up
unfoldable pub spending : Db → String → String → MeterKey → List ReservationRow → ℕ
spending s n b k [] = 0
spending s n b k (row ∷ rows) =
    (if row.namespace_id == n then (if row.budget_id == b then spent_by s n k row.id else 0) else 0)
    + spending s n b k rows

safe_amount-magnitude : (x : Number) (n : ℕ) → safe_amount x ≡ some n → magnitude x ≡ n
safe_amount-magnitude (int (pos m)) n h = ground arith
safe_amount-magnitude (int (negsuc m)) n h = absurd (ground arith)
safe_amount-magnitude other n h = absurd (ground arith)

add_measure-amount :
    (acc acc' : Dict MeterKey ℕ) (m : Measure) (k : MeterKey)
    → add_measure acc m ≡ ok acc'
    → or_zero (lookup k acc')
      ≡ or_zero (lookup k acc) + (if key_of m == k then magnitude m.amount else 0)
add_measure-amount acc acc' m k h = elim (Option-cases (lookup (key_of m) acc)) [
  | inr (n, there) ↦ absurd (ground (arith, there))
  | inl new ↦ elim (Option-cases (safe_amount m.amount)) [
    | inl e ↦ absurd (ground (arith, new, e))
    | inr (n, e) ↦
        let same : insert (key_of m) n acc ≡ acc' = ground (arith, new, e) in
        ground (
          arith,
          same,
          new,
          lookup-insert (key_of m) k n acc,
          safe_amount-magnitude m.amount n e,
          key_eq.equal_iff (key_of m) k,
        )
  ]
]

amounts_from-amount :
    (acc d : Dict MeterKey ℕ) (ms : List Measure) (k : MeterKey)
    → amounts_from acc ms ≡ ok d
    → or_zero (lookup k d) ≡ or_zero (lookup k acc) + amount_of k ms
unfolding amounts_from amount_of
amounts_from-amount acc d [] k h = ground arith
amounts_from-amount acc d (m ∷ ms) k h = elim (Result-cases (add_measure acc m)) [
  | inr (c, e) ↦ absurd (ground arith)
  | inl (acc', e) ↦
      let first = add_measure-amount acc acc' m k e in
      let rest = amounts_from-amount acc' d ms k (ground arith) in omega arith
]

marked-amount :
    (done b : Bool) (ms : List Measure) (d : Dict MeterKey ℕ) (k : MeterKey)
    → marked done (amounts ms) ≡ ok (b, d)
    → or_zero (lookup k d) ≡ amount_of k ms
unfolding amounts lookup
marked-amount done b ms d k h = elim (Result-cases (amounts_from [] ms)) [
  | inr (c, e) ↦ absurd (ground arith)
  | inl (d', e) ↦ omega (arith, amounts_from-amount [] d ms k (ground arith))
]

counted-spent :
    (status : ReservationStatus) (actual : Option (List Measure)) (reserved : List Measure)
    (b : Bool) (d : Dict MeterKey ℕ) (k : MeterKey)
    → counted_as status actual reserved ≡ ok (b, d)
    → or_zero (lookup k d) ≡ spent k status actual reserved
unfolding lookup
counted-spent settled none reserved b d k h = absurd (ground arith)
counted-spent settled (some actual) reserved b d k h = marked-amount true b actual d k h
counted-spent released actual reserved b d k h = let e : [] ≡ d = ground arith in rw (← e) refl
counted-spent held actual reserved b d k h = marked-amount false b reserved d k h
counted-spent uncertain actual reserved b d k h = marked-amount false b reserved d k h

count_row-spent :
    (s : Db) (n : String) (row : ReservationRow) (totals totals' : Dict MeterKey Total)
    (k : MeterKey)
    → add_row s n row totals ≡ ok totals'
    → count_row s n k row ≡ spent_by s n k row.id
unfolding count_row
count_row-spent s n row totals totals' k h = elim (Result-cases (find_reservation row.id n s)) [
  | inr (c, e) ↦ absurd (ground arith)
  | inl (r, e) ↦ elim (Result-cases (counted r)) [
    | inr (c, f) ↦ absurd (ground arith)
    | inl ((b, d), f) ↦ ground (arith, counted-spent r.status r.actual r.reserved b d k f)
  ]
]

sum_rows-spending :
    (s : Db) (n b : String) (rows : List ReservationRow) (totals totals' : Dict MeterKey Total)
    (k : MeterKey)
    → total_rows s n (keep (of_budget n b) rows) totals ≡ ok totals'
    → sum_rows s n k (keep (of_budget n b) rows) ≡ spending s n b k rows
unfolding total_rows sum_rows spending
sum_rows-spending s n b [] totals totals' k h = refl
sum_rows-spending s n b (row ∷ rows) totals totals' k h = elim (Bool-cases (of_budget n b row)) [
  | inr outside ↦ ground (arith, sum_rows-spending s n b rows totals totals' k)
  | inl inside ↦ elim (Result-cases (add_row s n row totals)) [
    | inr (c, e) ↦ absurd (ground arith)
    | inl (next, e) ↦ ground (
      arith,
      count_row-spent s n row totals next k e,
      sum_rows-spending s n b rows next totals' k,
    )
  ]
]

-- For every meter and billing pool, settled and held together are the sum over the rows of the budget
-- in the namespace: the actual use where a reservation is settled, what it reserved where it is held or
-- uncertain, nothing where it is released.
pub budget_totals-spending :
    (n b : String) (s : Db) (totals : Dict MeterKey Total) (k : MeterKey)
    → budget_totals n b s ≡ ok totals
    → used totals k ≡ spending s n b k s.reservations
unfolding budget_totals
budget_totals-spending n b s totals k h =
    elim (Result-cases (total_rows s n (keep (of_budget n b) s.reservations) [])) [
      | inr (c, e) ↦ absurd (ground arith)
      | inl (plain, e) ↦
          budget_totals-used n b s totals k h ∙ sum_rows-spending s n b s.reservations [] plain k e
    ]
