-- ===== src/Control/Reservations/Limits.antt =====
-- After `reserve` the budget's use stays within its limits.
use mathlib.Core.Path.{ap₂}
use asterun.Prelude.{
  ℕ, ◌+◌, ◌≤◌, String, ◌≡◌, refl, ◌∙◌, ap, subst, inl, inr, Bool, true, false, some, List, [], ◌∷◌,
  ◌++◌, Dict, lookup, keep, All, arith, ltb, ◌==◌, string_eq, option_eq, pair_eq, lookup-insert,
  lookup-insert_self, ==_refl, Bool-cases, Option-cases,
}
use asterun.Errors.{ok}
use asterun.Control.Db.{Db, Reservation, ReservationRow, Budget}
use asterun.Control.Entities.{select, put_row}
use asterun.Control.Budget.{MeterKey, Total, amounts, find_budget, within_limits, of_budget, used}
use asterun.Control.Budget.Totals.{budget_totals-used, count_row, sum_rows, or_zero, key_eq}
use asterun.Control.Reservations.{entity, row_matches, is_held, store, reserve}
use asterun.Control.Reservations.Admission.{reserve-Admitted}

within_limits-fits :
    (limits : Dict MeterKey ℕ) (current : Dict MeterKey Total) (wanted : Dict MeterKey ℕ)
    (k : MeterKey) (n : ℕ)
    → within_limits limits current wanted ≡ ok tt
    → lookup k wanted ≡ some n
    → (limit : ℕ) × (lookup k limits ≡ some limit) × (used current k + n ≤ limit)
unfolding within_limits lookup
within_limits-fits limits current [] k n h e = absurd (ground arith)
within_limits-fits limits current ((j, m) ∷ wanted) k n h e =
    elim (Option-cases (lookup j limits)) [
      | inl none_there ↦ absurd (ground arith)
      | inr (limit, there) ↦ elim (Bool-cases (ltb limit (used current j + m))) [
        | inl over ↦ absurd (ground arith)
        | inr under ↦ elim (Bool-cases (j == k)) [
          | inl same ↦
              let is_k : j ≡ k = (key_eq.equal_iff j k).0 same in
              let is_n : m ≡ n = ground arith in
              (
                limit,
                rw (← is_k) there,
                subst (λ i. used current i + n ≤ limit) is_k (ground arith),
              )
          | inr other ↦ within_limits-fits limits current wanted k n (ground arith) (ground arith)
        ]
      ]
    ]

keep-empty :
    (p : ReservationRow → Bool) (rows : List ReservationRow)
    → keep p rows ≡ []
    → All (λ row. p row ≡ false) rows
keep-empty p [] h = tt
keep-empty p (row ∷ rows) h = elim (Bool-cases (p row)) [
  | inl in' ↦ absurd (ground arith)
  | inr out ↦ (out, keep-empty p rows (ground arith))
]

keep-append_row :
    (p : ReservationRow → Bool) (rows : List ReservationRow) (row : ReservationRow)
    → p row ≡ true
    → keep p (rows ++ row ∷ []) ≡ keep p rows ++ row ∷ []
keep-append_row p [] row h = ground arith
keep-append_row p (x ∷ rows) row h = ground (arith, keep-append_row p rows row h)

sum_rows-append :
    (s : Db) (n : String) (k : MeterKey) (rows : List ReservationRow) (row : ReservationRow)
    → sum_rows s n k (rows ++ row ∷ []) ≡ sum_rows s n k rows + count_row s n k row
unfolding sum_rows
sum_rows-append s n k [] row = omega arith
sum_rows-append s n k (x ∷ rows) row = omega (arith, sum_rows-append s n k rows row)

module _ (n id : String) (r : Reservation) (s : Db) where
  new_row : ReservationRow
  new_row = record { namespace_id = n; id = id; budget_id = r.budget_id; action_id = r.action_id }

  select-store_other :
      (other : String)
      → (id == other) ≡ false
      → select "Reservation" other n (store n id r s) ≡ select "Reservation" other n s
  unfolding select put_row
  select-store_other other ne = ground (
    arith,
    lookup-insert (n, ("Reservation", id)) (n, ("Reservation", other)) (entity n id r) s.entities,
    ==_refl n,
    ne,
  )

  select-store_self : select "Reservation" id n (store n id r s) ≡ some (entity n id r)
  unfolding select put_row
  select-store_self = lookup-insert_self (n, ("Reservation", id)) (entity n id r) s.entities

  count_row-store_other :
      (k : MeterKey) (row : ReservationRow)
      → of_budget n r.budget_id row ≡ true
      → row_matches n id r row ≡ false
      → count_row (store n id r s) n k row ≡ count_row s n k row
  unfolding count_row
  count_row-store_other k row mine apart =
      let ne : (id == row.id) ≡ false =
        ground (arith, string_eq.equal_iff id row.id, string_eq.equal_iff row.id id) in
      rw (select-store_other row.id ne, count_row)

  sum_rows-store_other :
      (k : MeterKey) (rows : List ReservationRow)
      → All (λ row. row_matches n id r row ≡ false) rows
      → sum_rows (store n id r s) n k (keep (of_budget n r.budget_id) rows)
        ≡ sum_rows s n k (keep (of_budget n r.budget_id) rows)
  unfolding sum_rows
  sum_rows-store_other k [] h = refl
  sum_rows-store_other k (row ∷ rows) h = elim (Bool-cases (of_budget n r.budget_id row)) [
    | inl mine ↦
        rw mine
          (omega (arith, count_row-store_other k row mine h.0, sum_rows-store_other k rows h.1))
    | inr other ↦ rw other (sum_rows-store_other k rows h.1)
  ]

  count_row-store_self :
      (k : MeterKey) (wanted : Dict MeterKey ℕ)
      → amounts r.reserved ≡ ok wanted
      → is_held r.status ≡ true
      → count_row (store n id r s) n k new_row ≡ or_zero (lookup k wanted)
  unfolding count_row new_row
  count_row-store_self k wanted e st = ground (arith, select-store_self, e, st)

-- the use of a budget that the reservations of the tables make of a meter and pool
abbrev pub budget_use : String → String → MeterKey → Db → ℕ
budget_use n budget k s = sum_rows s n k (keep (of_budget n budget) s.reservations)

budget_use-store :
    (n id : String) (r : Reservation) (s : Db) (k : MeterKey) (wanted : Dict MeterKey ℕ)
    → keep (row_matches n id r) s.reservations ≡ []
    → amounts r.reserved ≡ ok wanted
    → is_held r.status ≡ true
    → budget_use n r.budget_id k (store n id r s)
      ≡ budget_use n r.budget_id k s + or_zero (lookup k wanted)
unfolding new_row put_row
budget_use-store n id r s k wanted new e st =
    ap (sum_rows (store n id r s) n k) (
      keep-append_row (of_budget n r.budget_id) s.reservations (new_row n id r s)
        (ground (arith, ==_refl n, ==_refl r.budget_id)))
    ∙ sum_rows-append (store n id r s) n k (keep (of_budget n r.budget_id) s.reservations)
        (new_row n id r s)
    ∙ ap₂ (λ a b. a + b)
        (sum_rows-store_other n id r s k s.reservations
          (keep-empty (row_matches n id r) s.reservations new))
        (count_row-store_self n id r s k wanted e st)

-- A new reservation that is accepted belongs to a budget of its task whose limits name each meter
-- and pool it asks for; it raises the use of each by exactly what it reserved, and the use that all
-- reservations of the budget then make, settled and held, is within the limit.
pub reserve-within_limits :
    (n id : String) (r r' : Reservation) (s s' : Db) (wanted : Dict MeterKey ℕ) (k : MeterKey)
    (m : ℕ)
    → keep (row_matches n id r) s.reservations ≡ []
    → reserve n id r s ≡ (ok r', s')
    → amounts r.reserved ≡ ok wanted
    → lookup k wanted ≡ some m
    → (budget : Budget) × (limits : Dict MeterKey ℕ) × (limit : ℕ) × (find_budget r.budget_id n s
        ≡ ok budget)
      × (budget.task_id ≡ r.task_id)
      × (amounts budget.limits ≡ ok limits)
      × (lookup k limits ≡ some limit)
      × (budget_use n r.budget_id k s' ≡ budget_use n r.budget_id k s + m)
      × (budget_use n r.budget_id k s' ≤ limit)
reserve-within_limits n id r r' s s' wanted k m new h e asks =
    let a = reserve-Admitted n id r r' s s' new h in
    let same_wanted : a.wanted ≡ wanted = ground (arith, a.wanted_is) in
    let asks' : lookup k a.wanted ≡ some m = rw same_wanted asks in
    let (limit, there, fits) = within_limits-fits a.limits a.current a.wanted k m a.fits asks' in
    let grows : budget_use n r.budget_id k s' ≡ budget_use n r.budget_id k s + m =
      ap (budget_use n r.budget_id k) a.stored
      ∙ budget_use-store n id r s k wanted new e a.status_is
      ∙ ap (λ o. budget_use n r.budget_id k s + or_zero o) asks in
    let known : used a.current k ≡ budget_use n r.budget_id k s =
      budget_totals-used n r.budget_id s a.current k a.current_is in
    (
      a.budget,
      a.limits,
      limit,
      a.budget_is,
      a.same_task,
      a.limits_are,
      there,
      grows,
      omega (arith, grows, known, fits),
    )
