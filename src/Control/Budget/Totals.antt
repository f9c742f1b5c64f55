-- ===== src/Control/Budget/Totals.antt =====
-- `_budget_totals` against the plain sum: for each meter and pool, the total is the sum of what the
-- reservations of the budget count for.
use asterun.Prelude.{
  ℕ, ◌+◌, String, ◌≡◌, refl, ◌∙◌, inl, inr, Bool, true, false, Option, none, some, List, [], ◌∷◌,
  Dict, lookup, insert, keep, arith, ◌==◌, string_eq, option_eq, pair_eq, if◌then◌else◌,
  lookup-insert, Distinct, Distinct-insert, Option-cases, Eq,
}
use asterun.Errors.{ok, err, Result-cases}
use asterun.Control.Db.{
  Db, Measure, ReservationRow, ReservationStatus, held, settled, released, uncertain,
}
use asterun.Control.Budget.{
  MeterKey, Total, key_of, safe_amount, add_measure, amounts_from, amounts, total_of, add_to,
  add_amounts, find_reservation, counted, counted_as, marked, add_row, total_rows, insert_sorted,
  sorted_totals, budget_totals, of_budget, used,
}

instance abbrev pub key_eq : Eq MeterKey
key_eq = pair_eq

abbrev pub or_zero : Option ℕ → ℕ
or_zero none = 0
or_zero (some n) = n

add_measure-Distinct :
    (acc acc' : Dict MeterKey ℕ) (m : Measure)
    → Distinct acc
    → add_measure acc m ≡ ok acc'
    → Distinct acc'
add_measure-Distinct acc acc' m d h = elim (Option-cases (safe_amount m.amount)) [
  | inl e ↦ absurd (ground arith)
  | inr (n, e) ↦
      let same : insert (key_of m) n acc ≡ acc' = ground arith in
      rw (← same) (Distinct-insert (key_of m) n acc d)
]

amounts_from-Distinct :
    (acc m : Dict MeterKey ℕ) (ms : List Measure)
    → Distinct acc
    → amounts_from acc ms ≡ ok m
    → Distinct m
unfolding amounts_from
amounts_from-Distinct acc m [] d h = let same : acc ≡ m = ground arith in rw (← same) d
amounts_from-Distinct acc m (x ∷ ms) d h = elim (Result-cases (add_measure acc x)) [
  | inr (c, e) ↦ absurd (ground arith)
  | inl (acc', e) ↦
      amounts_from-Distinct acc' m ms (add_measure-Distinct acc acc' x d e) (ground arith)
]

-- `_amounts` has one entry for each meter and pool.
pub amounts-Distinct : (m : Dict MeterKey ℕ) (ms : List Measure) → amounts ms ≡ ok m → Distinct m
unfolding amounts
amounts-Distinct m ms h = amounts_from-Distinct [] m ms tt h

used-add_to :
    (b : Bool) (n : ℕ) (totals : Dict MeterKey Total) (j k : MeterKey)
    → used (insert j (add_to b n (total_of totals j)) totals) k
      ≡ used totals k + (if j == k then n else 0)
used-add_to true n totals j k =
    ground
      (arith, lookup-insert j k (add_to true n (total_of totals j)) totals, key_eq.equal_iff j k)
used-add_to false n totals j k =
    ground
      (arith, lookup-insert j k (add_to false n (total_of totals j)) totals, key_eq.equal_iff j k)

pub used-add_amounts :
    (b : Bool) (m : Dict MeterKey ℕ) (totals : Dict MeterKey Total) (k : MeterKey)
    → Distinct m
    → used (add_amounts b m totals) k ≡ used totals k + or_zero (lookup k m)
unfolding add_amounts lookup
used-add_amounts b [] totals k d = omega arith
used-add_amounts b ((j, n) ∷ m) totals k d = ground (
  arith,
  used-add_amounts b m (insert j (add_to b n (total_of totals j)) totals) k d.1,
  used-add_to b n totals j k,
  d.0,
  key_eq.equal_iff j k,
)

pub add_amounts-Distinct :
    (b : Bool) (m : Dict MeterKey ℕ) (totals : Dict MeterKey Total)
    → Distinct totals
    → Distinct (add_amounts b m totals)
unfolding add_amounts
add_amounts-Distinct b [] totals d = d
add_amounts-Distinct b ((j, n) ∷ m) totals d =
    add_amounts-Distinct b m _ (Distinct-insert j (add_to b n (total_of totals j)) totals d)

lookup-insert_sorted :
    (k : MeterKey) (e : MeterKey × Total) (es : Dict MeterKey Total)
    → lookup e.0 es ≡ none
    → lookup k (insert_sorted e es) ≡ (if e.0 == k then some e.1 else lookup k es)
unfolding insert_sorted lookup
lookup-insert_sorted k (j, t) [] h = refl
lookup-insert_sorted k (j, t) ((i, u) ∷ es) h = ground (
  arith,
  lookup-insert_sorted k (j, t) es,
  key_eq.equal_iff i j,
  key_eq.equal_iff j k,
  key_eq.equal_iff i k,
)

pub lookup-sorted_totals :
    (k : MeterKey) (es : Dict MeterKey Total)
    → Distinct es
    → lookup k (sorted_totals es) ≡ lookup k es
unfolding sorted_totals lookup
lookup-sorted_totals k [] d = refl
lookup-sorted_totals k ((j, t) ∷ es) d =
    lookup-insert_sorted k (j, t) (sorted_totals es) (lookup-sorted_totals j es d.1 ∙ d.0)
    ∙ ground (arith, lookup-sorted_totals k es d.1)

-- What one reservation counts for, and what the rows of a list count for together.
unfoldable pub count_row : Db → String → MeterKey → ReservationRow → ℕ
count_row s n k row = elim (find_reservation row.id n s) [
  | err c ↦ 0
  | ok r ↦ elim (counted r) [ err c ↦ 0 | ok (done, m) ↦ or_zero (lookup k m) ]
]

unfoldable pub sum_rows : Db → String → MeterKey → List ReservationRow → ℕ
unfolding count_row
sum_rows s n k [] = 0
sum_rows s n k (row ∷ rows) = count_row s n k row + sum_rows s n k rows

marked-Distinct :
    (done b : Bool) (ms : List Measure) (m : Dict MeterKey ℕ)
    → marked done (amounts ms) ≡ ok (b, m)
    → Distinct m
marked-Distinct done b ms m h = elim (Result-cases (amounts ms)) [
  | inr (c, e) ↦ absurd (ground arith)
  | inl (m', e) ↦ amounts-Distinct m ms (ground arith)
]

counted-Distinct :
    (status : ReservationStatus) (actual : Option (List Measure)) (reserved : List Measure)
    (b : Bool) (m : Dict MeterKey ℕ)
    → counted_as status actual reserved ≡ ok (b, m)
    → Distinct m
counted-Distinct settled none reserved b m h = absurd (ground arith)
counted-Distinct settled (some actual) reserved b m h = marked-Distinct true b actual m h
counted-Distinct released actual reserved b m h = let e : [] ≡ m = ground arith in rw (← e) tt
counted-Distinct held actual reserved b m h = marked-Distinct false b reserved m h
counted-Distinct uncertain actual reserved b m h = marked-Distinct false b reserved m h

add_row-used :
    (s : Db) (n : String) (row : ReservationRow) (totals totals' : Dict MeterKey Total)
    (k : MeterKey)
    → Distinct totals
    → add_row s n row totals ≡ ok totals'
    → (used totals' k ≡ used totals k + count_row s n k row) × Distinct totals'
unfolding count_row
add_row-used s n row totals totals' k d h = elim (Result-cases (find_reservation row.id n s)) [
  | inr (c, e) ↦ absurd (ground arith)
  | inl (r, e) ↦ elim (Result-cases (counted r)) [
    | inr (c, f) ↦ absurd (ground arith)
    | inl ((b, m), f) ↦
        let dm : Distinct m = counted-Distinct r.status r.actual r.reserved b m f in
        let is : add_amounts b m totals ≡ totals' = ground arith in
        (
          ground (arith, used-add_amounts b m totals k dm),
          rw (← is) (add_amounts-Distinct b m totals d),
        )
  ]
]

total_rows-used :
    (s : Db) (n : String) (rows : List ReservationRow) (totals totals' : Dict MeterKey Total)
    (k : MeterKey)
    → Distinct totals
    → total_rows s n rows totals ≡ ok totals'
    → (used totals' k ≡ used totals k + sum_rows s n k rows) × Distinct totals'
unfolding total_rows sum_rows
total_rows-used s n [] totals totals' k d h =
    let is : totals ≡ totals' = ground arith in rw (← is) (omega arith, d)
total_rows-used s n (row ∷ rows) totals totals' k d h =
    elim (Result-cases (add_row s n row totals)) [
      | inr (c, e) ↦ absurd (ground arith)
      | inl (next, e) ↦
          let (now, dn) = add_row-used s n row totals next k d e in
          let (rest, dr) = total_rows-used s n rows next totals' k dn (ground arith) in
          (omega arith, dr)
    ]

-- Settled and held together are what the rows of the budget count for.
pub budget_totals-used :
    (n b : String) (s : Db) (totals : Dict MeterKey Total) (k : MeterKey)
    → budget_totals n b s ≡ ok totals
    → used totals k ≡ sum_rows s n k (keep (of_budget n b) s.reservations)
unfolding budget_totals lookup
budget_totals-used n b s totals k h =
    elim (Result-cases (total_rows s n (keep (of_budget n b) s.reservations) [])) [
      | inr (c, e) ↦ absurd (ground arith)
      | inl (plain, e) ↦
          let (sum_eq, d) = total_rows-used s n _ [] plain k tt e in
          let is : sorted_totals plain ≡ totals = ground arith in
          ground (arith, sum_eq, lookup-sorted_totals k plain d, is)
    ]
