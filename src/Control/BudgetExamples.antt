-- ===== src/Control/BudgetExamples.antt =====
-- The theorems about budgets at a budget of 100 tokens that holds one reservation.
use asterun.Prelude.{
  ℕ, ◌+◌, ◌≤◌, String, ◌≡◌, refl, [], ◌∷◌, Dict, lookup, insert, keep, none, some, string_eq,
  nat_eq, option_eq, pair_eq,
}
use asterun.Prelude.Int.{pos}
use asterun.Errors.{ok, err, invalid_state}
use asterun.Control.Db.{Db, Body, Measure, int, Reservation, Budget, held, empty}
use asterun.Control.Entities.{put_row, select}
use asterun.Control.Budget.{MeterKey, amounts, find_budget, budget_totals, used, within_limits}
use asterun.Control.Budget.Spending.{spending, budget_totals-spending}
use asterun.Control.Reservations.{reserve, settle, mark_uncertain, row_matches, settled_with}
use asterun.Control.Reservations.Limits.{budget_use, reserve-within_limits}
use asterun.Control.Reservations.Settlement.{settle-final}

abbrev tokens : ℕ → Measure
tokens n = record { meter = "tokens"; billing_pool_ref = none; amount = int (pos n) }

abbrev budget : Budget
budget = record { task_id = "t1"; limits = tokens 100 ∷ [] }

abbrev funded : Db
funded =
    put_row (record { namespace_id = "ns"; kind = "Budget"; id = "b1"; body = Body.budget budget })
      empty

abbrev wants : String → ℕ → Reservation
wants action n = record {
  task_id = "t1";
  budget_id = "b1";
  action_id = action;
  reserved = tokens n ∷ [];
  actual = none;
  status = held;
  receipt_evidence_ids = [];
  revision = 1;
  updated_at = "10:00Z";
}

abbrev first : Db
first = (reserve "ns" "res1" (wants "a1" 60) funded).1

abbrev wanted : ℕ → Dict MeterKey ℕ
wanted n = (("tokens", none), n) ∷ []

first_reserved : reserve "ns" "res1" (wants "a1" 60) funded ≡ (ok (wants "a1" 60), first)
unfolding reserve select within_limits amounts budget_totals lookup insert
first_reserved = refl

first_is_new : keep (row_matches "ns" "res1" (wants "a1" 60)) funded.reservations ≡ []
unfolding put_row
first_is_new = refl

first_amounts : amounts (wants "a1" 60).reserved ≡ ok (wanted 60)
unfolding amounts lookup insert
first_amounts = refl

first_asks : lookup ("tokens", none) (wanted 60) ≡ some 60
unfolding lookup
first_asks = refl

reserve-within_limits_example :
    (b : Budget) × (limits : Dict MeterKey ℕ) × (limit : ℕ) × (find_budget "b1" "ns" funded ≡ ok b)
    × (b.task_id ≡ "t1")
    × (amounts b.limits ≡ ok limits)
    × (lookup ("tokens", none) limits ≡ some limit)
    × (budget_use "ns" "b1" ("tokens", none) first
        ≡ budget_use "ns" "b1" ("tokens", none) funded + 60)
    × (budget_use "ns" "b1" ("tokens", none) first ≤ limit)
reserve-within_limits_example =
    reserve-within_limits "ns" "res1" (wants "a1" 60) (wants "a1" 60) funded first (wanted 60)
      ("tokens", none) 60 first_is_new first_reserved first_amounts first_asks

first_totals :
    budget_totals "ns" "b1" first ≡ ok ((("tokens", none), record { settled = 0; held = 60 }) ∷ [])
unfolding reserve select within_limits amounts budget_totals lookup insert
first_totals = refl

budget_totals-spending_example :
    used ((("tokens", none), record { settled = 0; held = 60 }) ∷ []) ("tokens", none)
    ≡ spending first "ns" "b1" ("tokens", none) first.reservations
budget_totals-spending_example =
    budget_totals-spending "ns" "b1" first
      ((("tokens", none), record { settled = 0; held = 60 }) ∷ []) ("tokens", none) first_totals

abbrev after_use : Db
after_use = (settle "ns" "res1" (tokens 45 ∷ []) ("ev1" ∷ []) "10:20Z" first).1

abbrev spent : Reservation
spent = settled_with (tokens 45 ∷ []) ("ev1" ∷ []) "10:20Z" (wants "a1" 60)

use_amounts : amounts (tokens 45 ∷ []) ≡ ok (wanted 45)
unfolding amounts lookup insert
use_amounts = refl

first_settled :
    settle "ns" "res1" (tokens 45 ∷ []) ("ev1" ∷ []) "10:20Z" first ≡ (ok spent, after_use)
unfolding settle reserve select within_limits amounts budget_totals lookup insert
first_settled = refl

settle-final_example :
    (settle "ns" "res1" (tokens 45 ∷ []) [] "10:40Z" after_use ≡ (ok spent, after_use))
    × (mark_uncertain "ns" "res1" "10:40Z" after_use ≡ (err invalid_state, after_use))
settle-final_example =
    settle-final "ns" "res1" (tokens 45 ∷ []) ("ev1" ∷ []) [] "10:20Z" "10:40Z" (wanted 45) spent
      first after_use use_amounts first_settled
