-- ===== src/Control/Reservations/Admission.antt =====
-- `reserve` admits a reservation only within the limits of its budget.
use asterun.Prelude.{
  ℕ, String, ◌≡◌, inl, inr, true, not, ◌||◌, [], Dict, keep, arith, ◌==◌, string_eq, option_eq,
  pair_eq, Bool-cases,
}
use asterun.Errors.{ok, Result-cases}
use asterun.Control.Db.{Db, Reservation, Budget}
use asterun.Control.Budget.{
  MeterKey, Total, amounts, is_some, find_budget, budget_totals, within_limits,
}
use asterun.Control.Reservations.{
  is_held, is_empty, row_matches, store, admit, reserve, reserve_rows,
}

-- What a reservation that was admitted was checked against.
pub record Admitted (n id : String) (r : Reservation) (s s' : Db) : Type 0 where
  pub wanted : Dict MeterKey ℕ
  pub budget : Budget
  pub limits : Dict MeterKey ℕ
  pub current : Dict MeterKey Total
  pub wanted_is : amounts r.reserved ≡ ok wanted
  pub status_is : is_held r.status ≡ true
  pub budget_is : find_budget r.budget_id n s ≡ ok budget
  pub same_task : budget.task_id ≡ r.task_id
  pub limits_are : amounts budget.limits ≡ ok limits
  pub current_is : budget_totals n r.budget_id s ≡ ok current
  pub fits : within_limits limits current wanted ≡ ok tt
  pub stored : s' ≡ store n id r s

-- The facts that a successful `admit` went through.
admit-Admitted :
    (n id : String) (r r' : Reservation) (s s' : Db) (wanted : Dict MeterKey ℕ)
    → amounts r.reserved ≡ ok wanted
    → is_held r.status ≡ true
    → admit n id r wanted s ≡ (ok r', s')
    → Admitted n id r s s'
admit-Admitted n id r r' s s' wanted e st h = elim (Result-cases (find_budget r.budget_id n s)) [
  | inr (c, f) ↦ absurd (ground arith)
  | inl (budget, f) ↦ elim (Bool-cases (budget.task_id == r.task_id)) [
    | inr apart ↦ absurd (ground arith)
    | inl same ↦ elim (Result-cases (amounts budget.limits)) [
      | inr (c, g) ↦ absurd (ground arith)
      | inl (limits, g) ↦ elim (Result-cases (budget_totals n r.budget_id s)) [
        | inr (c, b) ↦ absurd (ground arith)
        | inl (current, b) ↦ elim (Result-cases (within_limits limits current wanted)) [
          | inr (c, w) ↦ absurd (ground arith)
          | inl (done, w) ↦ record {
            wanted = wanted;
            budget = budget;
            limits = limits;
            current = current;
            wanted_is = e;
            status_is = st;
            budget_is = f;
            same_task = (string_eq.equal_iff budget.task_id r.task_id).0 same;
            limits_are = g;
            current_is = b;
            fits = w;
            stored = ground arith;
          }
        ]
      ]
    ]
  ]
]

pub reserve-Admitted :
    (n id : String) (r r' : Reservation) (s s' : Db)
    → keep (row_matches n id r) s.reservations ≡ []
    → reserve n id r s ≡ (ok r', s')
    → Admitted n id r s s'
unfolding reserve
reserve-Admitted n id r r' s s' new h = elim (Result-cases (amounts r.reserved)) [
  | inr (c, e) ↦ absurd (ground arith)
  | inl (wanted, e) ↦
      elim (Bool-cases (is_empty wanted || (not (is_held r.status) || is_some r.actual))) [
        | inl bad ↦ absurd (ground arith)
        | inr good ↦
            elim (Result-cases
              ((reserve_rows n id r wanted (keep (row_matches n id r) s.reservations) s).0)) [
                | inr (c, f) ↦ absurd (ground arith)
                | inl (x, f) ↦ admit-Admitted n id r r' s s' wanted e (ground arith) (ground arith)
              ]
      ]
]

-- A new reservation that is accepted is returned as it was given.
pub reserve-returned :
    (n id : String) (r r' : Reservation) (s s' : Db)
    → keep (row_matches n id r) s.reservations ≡ []
    → reserve n id r s ≡ (ok r', s')
    → r' ≡ r
unfolding reserve
reserve-returned n id r r' s s' new h =
    let a = reserve-Admitted n id r r' s s' new h in
    ground (
      arith,
      new,
      a.wanted_is,
      a.status_is,
      a.budget_is,
      a.limits_are,
      a.current_is,
      a.fits,
      (string_eq.equal_iff a.budget.task_id r.task_id).1 a.same_task,
    )
