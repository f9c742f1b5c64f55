-- ===== src/Budgets/Guard.antt =====
-- What a guarded dispatch has reserved.
use asterun.Prelude.{
  ℕ, ◌≤◌, String, ◌≡◌, refl, true, Option, none, some, [], ◌∷◌, Dict, keep, lookup, insert, leb,
  arith, inl, inr, Bool-cases, Option-cases, string_eq, ==_refl, ◌++◌, lookup-insert_ne, option_eq,
  pair_eq, sym, ap, subst, ◌∙◌,
}
use asterun.Prelude.Int.{ℤ, pos, negsuc}
use asterun.Errors.{Result, ok, err, Result-cases}
use asterun.Errors.Exec.{Exec, transaction, settle_with, continue, ◌>>=◌}
use asterun.Control.Db.{Db, Reservation, Budget, max_int}
use asterun.Control.Entities.{put, put_row, select}
use asterun.Control.Budget.{
  MeterKey, amounts, find_reservation, find_budget, as_budget, budget_totals,
}
use asterun.Control.Reservations.Settlement.{find_reservation-put}
use asterun.Control.Reservations.Limits.{budget_use, reserve-within_limits}
use asterun.Control.Reservations.{reserve, row_matches, entity, store}
use asterun.Control.Reservations.Admission.{reserve-Admitted, reserve-returned}
use asterun.Budgets.{
  Profile, tokens, namespace, guard_dispatch, guard_found, task_budget, reserve_for, reserve_run,
  explain, reservation, reservation_id, budget_id, ensure_budget, or_absent, is_exhausted,
  is_absent, is_of, first_limit, amount_for, positive_int,
}

pub amount_for-keeps :
    (bid : String) (soft : Option ℕ) (limit : ℤ) (s : Db) → (amount_for bid soft limit s).1 ≡ s
amount_for-keeps bid none limit s = elim (Result-cases (budget_totals namespace bid s)) [
  | inl (rows, e) ↦ rw e refl
  | inr (c, e) ↦ rw e refl
]
amount_for-keeps bid (some soft) limit s = refl

explain-ok :
    (bid : String) (res : Result Reservation) (r : Reservation) (s s' : Db)
    → explain bid res s ≡ (ok (some r), s')
    → (res ≡ ok r) × (s ≡ s')
explain-ok bid (ok q) r s s' h = ground arith
explain-ok bid (err c) r s s' h = elim (Bool-cases (is_exhausted c)) [
  | inr other ↦ absurd (ground arith)
  | inl spent ↦ elim (Result-cases (budget_totals namespace bid s)) [
    | inl (rows, e) ↦ absurd (ground arith)
    | inr (d, e) ↦ absurd (ground arith)
  ]
]

or_absent-found {ℓ} : {A : Type ℓ} (r : Result A) (a : A) → or_absent r ≡ ok (some a) → r ≡ ok a
or_absent-found (ok b) a h = ground arith
or_absent-found (err c) a h = elim (Bool-cases (is_absent c)) [
  | inl gone ↦ absurd (ground arith)
  | inr other ↦ absurd (ground arith)
]

settle_with-ok :
    {A : Type 0} (s : Db) (x : Result A × Db) (a : A) (s' : Db)
    → settle_with s x ≡ (ok a, s')
    → x ≡ (ok a, s')
settle_with-ok s (ok b, t) a s' h = h
settle_with-ok s (err c, t) a s' h = absurd (ground arith)

bind-ok :
    {A B : Type 0} (m : Exec Db A) (f : A → Exec Db B) (b : B) (s s' : Db)
    → (m >>= f) s ≡ (ok b, s')
    → (a : A) × (t : Db) × (m s ≡ (ok a, t)) × (f a t ≡ (ok b, s'))
bind-ok m f b s s' h = elim (Result-cases (m s).0) [
  | inl (a, e) ↦ (a, (m s).1, ground (arith, e), ground (arith, e))
  | inr (c, e) ↦ absurd (ground (arith, e))
]

token_amount :
    (n : ℤ) (wanted : Dict MeterKey ℕ)
    → amounts (tokens n ∷ []) ≡ ok wanted
    → (m : ℕ) × (lookup ("tokens", none) wanted ≡ some m)
unfolding amounts lookup insert
token_amount (pos n) wanted h = elim (Bool-cases (leb n max_int)) [
  | inl safe ↦ (n, ground arith)
  | inr unsafe ↦ absurd (ground arith)
]
token_amount (negsuc n) wanted h = absurd (ground arith)

find_reservation-store :
    (n id : String) (r : Reservation) (s : Db) → find_reservation id n (store n id r s) ≡ ok r
find_reservation-store n id r s = find_reservation-put n id r (record s {
  reservations =
      s.reservations
      ++ record { namespace_id = n; id = id; budget_id = r.budget_id; action_id = r.action_id }
        ∷ [];
})

find_budget-store :
    (n id b : String) (r : Reservation) (s : Db)
    → find_budget b n (store n id r s) ≡ find_budget b n s
unfolding select put_row
find_budget-store n id b r s = ap as_budget (
    lookup-insert_ne (n, ("Reservation", id)) (n, ("Budget", b)) (entity n id r) s.entities
      (λ h. absurd (
        let same =
          (string_eq.equal_iff "Reservation" "Budget").1
            (ap (λ (x : String × (String × String)). x.1.0) h) in
        ground (arith, same))))

module _ (digest : String → String) where
  -- A run for which a reservation of its own is found is dispatched on that reservation, and nothing
  -- is reserved again, whatever the time and the profile are.
  pub guard_dispatch-again :
      (task run now : String) (p : Profile) (r : Reservation) (s : Db)
      → find_reservation (reservation_id run) namespace s ≡ ok r
      → is_of digest task run r ≡ true
      → guard_dispatch digest task run now (some p) s ≡ (ok (some r), s)
  unfolding guard_dispatch transaction
  guard_dispatch-again task run now p r s found mine = rw (found, mine) refl

  task_budget-rows :
      (task : String) (p : Profile) (s : Db)
      → (task_budget digest task p s).1.reservations ≡ s.reservations
  unfolding ensure_budget put put_row transaction
  task_budget-rows task p s =
      elim (Result-cases (find_budget (budget_id digest task) namespace s)) [
        | inl (b, e) ↦ ground (arith, e)
        | inr (c, e) ↦ elim (Bool-cases (is_absent c)) [
          | inr other ↦ ground (arith, e, other)
          | inl gone ↦ elim (Option-cases (positive_int p.task_hard)) [
            | inl no_limit ↦ ground (arith, e, gone, no_limit)
            | inr (hard, limit) ↦ ground (arith, e, gone, limit)
          ]
        ]
      ]

  reserve_for-reserved :
      (task run now : String) (p : Profile) (b : Budget) (r : Reservation) (s s' : Db)
      → reserve_for digest task run now p (some b) s ≡ (ok (some r), s')
      → (amount : ℤ) × (reserve namespace
            (reservation_id run)
            (reservation digest task run now amount)
            s
          ≡ (ok r, s'))
  reserve_for-reserved task run now p b r s s' h = elim (Result-cases (first_limit b)) [
    | inr (c, e) ↦ absurd (ground arith)
    | inl (limit, e) ↦
        let bid = budget_id digest task in
        let soft = positive_int p.segment_soft in
        elim (Result-cases (amount_for bid soft limit s).0) [
          | inr (c, f) ↦ absurd (ground (arith, amount_for-keeps bid soft limit s))
          | inl (amount, f) ↦
              let whole : reserve_run digest task run now amount s ≡ (ok (some r), s') =
                ground (arith, amount_for-keeps bid soft limit s) in
              let made =
                reserve namespace (reservation_id run) (reservation digest task run now amount) s in
              let both = explain-ok bid made.0 r made.1 s' whole in
              (amount, ground (arith, both.0, both.1))
        ]
  ]

  -- Without a reservation of the run, the budget is found or opened and then reserved from.
  guard_dispatch-fresh :
      (task run now : String) (p : Profile) (s : Db)
      → or_absent (find_reservation (reservation_id run) namespace s) ≡ ok none
      → guard_dispatch digest task run now (some p) s
        ≡ settle_with s ((task_budget digest task p >>= reserve_for digest task run now p) s)
  unfolding guard_dispatch transaction
  guard_dispatch-fresh task run now p s absent =
      ap
        (λ (x : Result (Option Reservation)).
          settle_with s (continue x (guard_found digest task run now p) s))
        absent

  guard_dispatch-reserved :
      (task run now : String) (p : Profile) (r : Reservation) (s s' : Db)
      → or_absent (find_reservation (reservation_id run) namespace s) ≡ ok none
      → guard_dispatch digest task run now (some p) s ≡ (ok (some r), s')
      → (t : Db) × (amount : ℤ) × (t.reservations ≡ s.reservations)
        × (reserve namespace (reservation_id run) (reservation digest task run now amount) t
            ≡ (ok r, s'))
  guard_dispatch-reserved task run now p r s s' absent h =
      let inner =
        settle_with-ok s ((task_budget digest task p >>= reserve_for digest task run now p) s)
          (some r) s' (sym (guard_dispatch-fresh task run now p s absent) ∙ h) in
      let (found, t, opened, made) =
        bind-ok (task_budget digest task p) (reserve_for digest task run now p) (some r) s s'
          inner in
      elim (Option-cases found) [
        | inl nothing ↦ absurd (ground arith)
        | inr (b, there) ↦
            let whole : reserve_for digest task run now p (some b) t ≡ (ok (some r), s') =
              subst
                (λ (o : Option Budget). reserve_for digest task run now p o t ≡ (ok (some r), s'))
                there made in
            let (amount, reserved) = reserve_for-reserved task run now p b r t s' whole in
            (
              t,
              amount,
              sym (ap (λ (x : Result (Option Budget) × Db). x.1.reservations) opened)
                  ∙ task_budget-rows task p s,
              reserved,
            )
      ]

  -- What a first dispatch of a run reserved is stored, and it is a reservation of that run.
  pub guard_dispatch-stored :
      (task run now : String) (p : Profile) (r : Reservation) (s s' : Db)
      → or_absent (find_reservation (reservation_id run) namespace s) ≡ ok none
      → keep
          (row_matches namespace (reservation_id run) (reservation digest task run now (pos 0)))
          s.reservations
        ≡ []
      → guard_dispatch digest task run now (some p) s ≡ (ok (some r), s')
      → (find_reservation (reservation_id run) namespace s' ≡ ok r)
        × (is_of digest task run r ≡ true)
  guard_dispatch-stored task run now p r s s' absent new h =
      let (t, amount, rows, made) = guard_dispatch-reserved task run now p r s s' absent h in
      let r₀ = reservation digest task run now amount in
      let n_rows : keep (row_matches namespace (reservation_id run) r₀) t.reservations ≡ [] =
        rw rows new in
      let a = reserve-Admitted namespace (reservation_id run) r₀ r t s' n_rows made in
      let same : r ≡ r₀ = reserve-returned namespace (reservation_id run) r₀ r t s' n_rows made in
      (
        ap (find_reservation (reservation_id run) namespace) a.stored
            ∙ find_reservation-store namespace (reservation_id run) r₀ t
            ∙ ap (λ (x : Reservation). ok x) (sym same),
        rw same (ground (arith, ==_refl (budget_id digest task), ==_refl run, ==_refl task)),
      )

  -- Where the run has no reservation and no row is in the way, a dispatch that reserves keeps the task
  -- within its budget: the budget belongs to the task and has a limit of tokens, and what all
  -- reservations of the budget then count for is within it.
  pub guard_dispatch-within :
      (task run now : String) (p : Profile) (r : Reservation) (s s' : Db)
      → or_absent (find_reservation (reservation_id run) namespace s) ≡ ok none
      → keep
          (row_matches namespace (reservation_id run) (reservation digest task run now (pos 0)))
          s.reservations
        ≡ []
      → guard_dispatch digest task run now (some p) s ≡ (ok (some r), s')
      → (budget : Budget) × (limits : Dict MeterKey ℕ) × (limit : ℕ) × (find_budget
            (budget_id digest task)
            namespace
            s'
          ≡ ok budget)
        × (budget.task_id ≡ task)
        × (amounts budget.limits ≡ ok limits)
        × (lookup ("tokens", none) limits ≡ some limit)
        × (budget_use namespace (budget_id digest task) ("tokens", none) s' ≤ limit)
  guard_dispatch-within task run now p r s s' absent new h =
      let (t, amount, rows, made) = guard_dispatch-reserved task run now p r s s' absent h in
      let r₀ = reservation digest task run now amount in
      let n_rows : keep (row_matches namespace (reservation_id run) r₀) t.reservations ≡ [] =
        rw rows new in
      let a = reserve-Admitted namespace (reservation_id run) r₀ r t s' n_rows made in
      let (m, asked) = token_amount amount a.wanted a.wanted_is in
      let (budget, limits, limit, found, of_task, limits_are, there, grows, fits) =
        reserve-within_limits namespace (reservation_id run) r₀ r t s' a.wanted ("tokens", none) m
          n_rows made a.wanted_is asked in
      (
        budget,
        limits,
        limit,
        (ap (find_budget (budget_id digest task) namespace) a.stored
            ∙ find_budget-store namespace (reservation_id run) (budget_id digest task) r₀ t
            ∙ found),
        of_task,
        limits_are,
        there,
        fits,
      )
