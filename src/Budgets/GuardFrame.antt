-- ===== src/Budgets/GuardFrame.antt =====
-- What a dispatch and the end of one run leave of another run's reservation
-- (src/asterun/context_budget/ledger.py).
use asterun.Budgets.Frame.{
  row_at, settle_with-keeps, reserve-keeps, settle-keeps, mark_uncertain-keeps,
}
use asterun.Budgets.Settle.{settle_run, settle_held, is_row}
use asterun.Prelude.{
  String, ◌≡◌, ◌≢◌, refl, ap, ◌∙◌, Bool, Option, none, some, [], ◌∷◌, arith, string_eq, pair_eq,
  lookup-insert_ne, inl, inr, Bool-cases, Option-cases, ◌&&◌, any, ℕ,
}
use asterun.Prelude.Int.{ℤ}
use asterun.Errors.{Result, ok, err, Result-cases}
use asterun.Errors.Exec.{transaction, pure, ◌>>=◌}
use asterun.Control.Db.{Db, Body, Reservation, Budget}
use asterun.Control.Entities.{put, put_row}
use asterun.Control.Budget.{find_reservation, find_budget, budget_totals}
use asterun.Control.Reservations.{reserve, is_held}
use asterun.Budgets.Guard.{amount_for-keeps}
use asterun.Budgets.{
  Profile, namespace, guard_dispatch, guard_found, task_budget, reserve_for, reserve_run, explain,
  is_exhausted, reservation, reservation_id, budget_id, ensure_budget, or_absent, is_absent,
  amount_for, positive_int, is_exhausted, new_budget, first_limit, is_of, tokens,
}

module _ (k : String) where
  budget-keeps :
      (id : String) (b : Budget) (s : Db)
      → row_at k (
          put_row
            (record { namespace_id = namespace; kind = "Budget"; id = id; body = Body.budget b })
            s)
        ≡ row_at k s
  unfolding put_row
  budget-keeps id b s =
      lookup-insert_ne (namespace, ("Budget", id)) (namespace, ("Reservation", k))
        (record { namespace_id = namespace; kind = "Budget"; id = id; body = Body.budget b })
        s.entities
        (λ h. absurd (
          let same =
            (string_eq.equal_iff "Budget" "Reservation").1
              (ap (λ (x : String × (String × String)). x.1.0) h) in
          ground (arith, same)))

  explain-keeps :
      (bid : String) (r : Result Reservation) (s : Db) → row_at k (explain bid r s).1 ≡ row_at k s
  explain-keeps bid (ok r) s = refl
  explain-keeps bid (err c) s = elim (Bool-cases (is_exhausted c)) [
    | inr other ↦ ground (arith, other)
    | inl spent ↦ elim (Result-cases (budget_totals namespace bid s)) [
      | inl (rows, e) ↦ ground (arith, spent, e)
      | inr (d, e) ↦ ground (arith, spent, e)
    ]
  ]

  module _ (digest : String → String) where
    ensure_budget-keeps :
        (task : String) (hard : ℕ) (s : Db)
        → row_at k (ensure_budget digest task hard s).1 ≡ row_at k s
    unfolding ensure_budget put transaction
    ensure_budget-keeps task hard s =
        elim (Result-cases (find_budget (budget_id digest task) namespace s)) [
          | inl (b, e) ↦ ground (arith, e)
          | inr (c, e) ↦ elim (Bool-cases (is_absent c)) [
            | inr other ↦ ground (arith, e, other)
            | inl gone ↦ ground (
              arith,
              e,
              gone,
              budget-keeps (budget_id digest task) (new_budget digest task hard) s,
            )
          ]
        ]

    ensured-keeps :
        (task : String) (hard : ℕ) (s : Db)
        → row_at k ((ensure_budget digest task hard >>= λ b. pure (some b)) s).1 ≡ row_at k s
    ensured-keeps task hard s = elim (Result-cases (ensure_budget digest task hard s).0) [
      | inr (c, e) ↦ rw e (ensure_budget-keeps task hard s)
      | inl (b, e) ↦ rw e (ensure_budget-keeps task hard s)
    ]

    task_budget-keeps :
        (task : String) (p : Profile) (s : Db)
        → row_at k (task_budget digest task p s).1 ≡ row_at k s
    task_budget-keeps task p s =
        elim (Result-cases (find_budget (budget_id digest task) namespace s)) [
          | inl (b, e) ↦ ground (arith, e)
          | inr (c, e) ↦ elim (Bool-cases (is_absent c)) [
            | inr other ↦ ground (arith, e, other)
            | inl gone ↦ elim (Option-cases (positive_int p.task_hard)) [
              | inl no_limit ↦ ground (arith, e, gone, no_limit)
              | inr (hard, limit) ↦ ground (arith, e, gone, limit, ensured-keeps task hard s)
            ]
          ]
        ]

    reserve_run-keeps :
        (task run now : String) (amount : ℤ) (s : Db)
        → reservation_id run ≢ k
        → row_at k (reserve_run digest task run now amount s).1 ≡ row_at k s
    reserve_run-keeps task run now amount s ne =
        let r = reservation digest task run now amount in
        let made = reserve namespace (reservation_id run) r s in
        explain-keeps (budget_id digest task) made.0 made.1
        ∙ reserve-keeps k (reservation_id run) r s ne

    reserve_for-keeps :
        (task run now : String) (p : Profile) (b : Option Budget) (s : Db)
        → reservation_id run ≢ k
        → row_at k (reserve_for digest task run now p b s).1 ≡ row_at k s
    reserve_for-keeps task run now p none s ne = refl
    reserve_for-keeps task run now p (some b) s ne = elim (Result-cases (first_limit b)) [
      | inr (c, e) ↦ rw e refl
      | inl (limit, e) ↦
          let ask = amount_for (budget_id digest task) (positive_int p.segment_soft) limit in
          let same =
            amount_for-keeps (budget_id digest task) (positive_int p.segment_soft) limit s in
          rw e (elim (Result-cases (ask s).0) [
            | inr (c, f) ↦ rw (f, same) refl
            | inl (amount, f) ↦ rw (f, same) (reserve_run-keeps task run now amount s ne)
          ])
    ]

    guard_found-keeps :
        (task run now : String) (p : Profile) (found : Option Reservation) (s : Db)
        → reservation_id run ≢ k
        → row_at k (guard_found digest task run now p found s).1 ≡ row_at k s
    guard_found-keeps task run now p (some r) s ne = elim (Bool-cases (is_of digest task run r)) [
      | inl mine ↦ rw mine refl
      | inr other ↦ rw other refl
    ]
    guard_found-keeps task run now p none s ne =
        elim (Result-cases (task_budget digest task p s).0) [
          | inr (c, e) ↦ rw e (task_budget-keeps task p s)
          | inl (b, e) ↦ rw e (
              reserve_for-keeps task run now p b (task_budget digest task p s).1 ne
              ∙ task_budget-keeps task p s)
        ]

    -- A guard of another run leaves a reservation as it was.
    pub guard_dispatch-keeps :
        (task run now : String) (p : Option Profile) (s : Db)
        → reservation_id run ≢ k
        → row_at k (guard_dispatch digest task run now p s).1 ≡ row_at k s
    unfolding guard_dispatch transaction
    guard_dispatch-keeps task run now none s ne = refl
    guard_dispatch-keeps task run now (some p) s ne =
        elim (Result-cases (or_absent (find_reservation (reservation_id run) namespace s))) [
          | inr (c, e) ↦ rw e refl
          | inl (found, e) ↦
              rw e (settle_with-keeps k s _ (guard_found-keeps task run now p found s ne))
        ]

  settle_held-keeps :
      (id : String) (processed : Option ℤ) (now : String) (s : Db)
      → id ≢ k
      → row_at k (settle_held id processed now s) ≡ row_at k s
  settle_held-keeps id none now s ne = mark_uncertain-keeps k id now s ne
  settle_held-keeps id (some used) now s ne = settle-keeps k id (tokens used ∷ []) now s ne

  -- The end of another run leaves a reservation as it was.
  pub settle_run-keeps :
      (terminal : Bool) (processed : Option ℤ) (run now : String) (s : Db)
      → reservation_id run ≢ k
      → row_at k (settle_run terminal processed run now s) ≡ row_at k s
  unfolding settle_run
  settle_run-keeps terminal processed run now s ne =
      elim (Bool-cases (terminal && any (is_row (reservation_id run)) s.reservations)) [
        | inr gone ↦ rw gone refl
        | inl there ↦ elim (Result-cases (find_reservation (reservation_id run) namespace s)) [
          | inr (c, e) ↦ rw (there, e) refl
          | inl (r, e) ↦ elim (Bool-cases (is_held r.status)) [
            | inr closed ↦ rw (there, e) (rw closed refl)
            | inl open_still ↦
                rw (there, e)
                  (rw open_still (settle_held-keeps (reservation_id run) processed now s ne))
          ]
        ]
      ]
