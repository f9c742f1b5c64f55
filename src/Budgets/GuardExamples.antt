-- ===== src/Budgets/GuardExamples.antt =====
-- The theorems about guarded dispatches at the first run of a task that may process 1000 tokens.
use asterun.Prelude.{
  arith, ℕ, ◌≤◌, true, String, ◌≡◌, refl, none, some, List, ◌≢◌, [], ◌∷◌, Dict, lookup, insert,
  option_eq, pair_eq, string_eq,
}
use asterun.Prelude.Int.{pos}
use asterun.Errors.{ok}
use asterun.Errors.Exec.{transaction}
use asterun.Control.Db.{Db, Reservation, Budget, int, empty}
use asterun.Control.Entities.{select, put, put_row}
use asterun.Control.Budget.{
  Total, MeterKey, amounts, find_reservation, find_budget, budget_totals, within_limits,
}
use asterun.Control.Reservations.{reserve}
use asterun.Control.Reservations.Limits.{budget_use}
use asterun.Budgets.{
  amount_for, Profile, namespace, guard_dispatch, reservation, reservation_id, budget_id,
  ensure_budget, or_absent,
}
use asterun.Budgets.Bounds.{IsShare, IsTokenTotal, taken, amount_for-IsShare}
use asterun.Budgets.Guard.{guard_dispatch-within}
use asterun.Budgets.Once.{LedgerOp, dispatch, finish, run_ops, guard_dispatch-once}

abbrev digest : String → String
digest t = t

abbrev profile : Profile
profile = record { task_hard = int (pos 1000); segment_soft = int (pos 400) }

abbrev larger : Profile
larger = record { task_hard = int (pos 5000); segment_soft = int (pos 900) }

abbrev charged : Reservation
charged = reservation digest "t1" "r1" "10:00Z" (pos 400)

abbrev after : Db
after = (guard_dispatch digest "t1" "r1" "10:00Z" (some profile) empty).1

no_reservation : or_absent (find_reservation (reservation_id "r1") namespace empty) ≡ ok none
unfolding select lookup
no_reservation = refl

dispatched :
    guard_dispatch digest "t1" "r1" "10:00Z" (some profile) empty ≡ (ok (some charged), after)
unfolding guard_dispatch ensure_budget put put_row transaction reserve select within_limits amounts
    budget_totals lookup insert
dispatched = refl

-- Another run of the task and one of another task are dispatched, and the other run ends.
abbrev meanwhile : List LedgerOp
meanwhile =
    dispatch "t1" "r2" "10:10Z" (some profile)
    ∷ dispatch "t2" "r1" "10:15Z" (some profile)
    ∷ finish true (some (pos 90)) "r2" "10:20Z"
    ∷ []

r2-ne-r1 : ◌≢◌ {A = String} "r2" "r1"
r2-ne-r1 e = cc ((string_eq.equal_iff "r2" "r1").1 e)

guard_dispatch-once_example :
    guard_dispatch digest "t1" "r1" "11:00Z" (some larger) (run_ops digest after meanwhile)
    ≡ (ok (some charged), run_ops digest after meanwhile)
guard_dispatch-once_example =
    guard_dispatch-once digest "t1" "r1" "10:00Z" "11:00Z" profile larger charged empty after
      meanwhile no_reservation refl dispatched (tt, (tt, (r2-ne-r1, tt)))

guard_dispatch-within_example :
    (budget : Budget) × (limits : Dict MeterKey ℕ) × (limit : ℕ) × (find_budget
        (budget_id digest "t1")
        namespace
        after
      ≡ ok budget)
    × (budget.task_id ≡ "t1")
    × (amounts budget.limits ≡ ok limits)
    × (lookup ("tokens", none) limits ≡ some limit)
    × (budget_use namespace (budget_id digest "t1") ("tokens", none) after ≤ limit)
guard_dispatch-within_example =
    guard_dispatch-within digest "t1" "r1" "10:00Z" profile charged empty after no_reservation refl
      dispatched

after_totals :
    budget_totals namespace (budget_id digest "t1") after
    ≡ ok ((("tokens", none), record { settled = 0; held = 400 }) ∷ [])
unfolding guard_dispatch ensure_budget put put_row transaction reserve select within_limits amounts
    budget_totals lookup insert
after_totals = refl

amount_for-IsShare_example :
    (t : Total) × (n : ℕ) × IsTokenTotal
      ((("tokens", none), record { settled = 0; held = 400 }) ∷ [])
      t
    × IsShare none 1000 (taken t) n
    × (amount_for (budget_id digest "t1") none (pos 1000) after ≡ (ok (pos n), after))
    × (1 ≤ n)
    × (n ≤ 1000)
amount_for-IsShare_example =
    amount_for-IsShare (budget_id digest "t1") none 1000 after
      ((("tokens", none), record { settled = 0; held = 400 }) ∷ []) tt (omega arith) after_totals
