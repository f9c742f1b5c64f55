-- ===== src/Budgets.antt =====
-- src/asterun/context_budget/ledger.py: the budget of tokens that a task may process, kept in the
-- tables of the control store. `guard_dispatch` reserves before a run is dispatched.
pub mod Frame
pub mod Guard
pub mod GuardFrame
pub mod Once
pub mod Bounds
pub mod Settle
mod GuardExamples
use Prim.Native.String.{◌++◌ as joined}
use asterun.Prelude.{
  ℕ, String, Bool, true, false, not, ◌&&◌, Option, none, some, List, [], ◌∷◌, Dict, ltb, ◌==◌,
  string_eq, if◌then◌else◌,
}
use asterun.Prelude.Int.{ℤ, pos, negsuc, ◌-ℤ◌, leb_ℤ}
use asterun.Errors.{
  Code, Result, ok, err, not_found, key_error, idempotency_conflict, budget_exhausted,
}
use asterun.Errors.Exec.{Exec, pure, raise, lift, raise_when, transaction, ◌>>=◌, ◌>>◌}
use asterun.Control.Db.{Db, Entity, Body, Number, int, other, Measure, Reservation, Budget, held}
use asterun.Control.Entities.{put}
use asterun.Control.Budget.{MeterKey, Total, find_reservation, find_budget, budget_totals}
use asterun.Control.Reservations.{reserve}

-- NAMESPACE
abbrev pub namespace : String
namespace = "asterun.context_budget.v1"

-- the limits of a profile; a missing one is no positive integer
pub record Profile : Type 0 where
  pub task_hard : Number
  pub segment_soft : Number

-- `_positive_int`, with the number
abbrev pub positive_int : Number → Option ℕ
positive_int (int (pos n)) = if ltb 0 n then some n else none
positive_int _ = none

abbrev pub tokens : ℤ → Measure
tokens n = record { meter = "tokens"; billing_pool_ref = none; amount = int n }

abbrev pub is_absent : Code → Bool
is_absent not_found = true
is_absent _ = false

abbrev pub is_exhausted : Code → Bool
is_exhausted budget_exhausted = true
is_exhausted _ = false

-- a `get` under `except AsterunError` that goes on after NOT_FOUND only
abbrev pub or_absent {ℓ} : {A : Type ℓ} → Result A → Result (Option A)
or_absent (ok a) = ok (some a)
or_absent (err c) = if is_absent c then ok none else err c

-- `bud["limits"][0]["limit"]`, as an integer
abbrev pub first_limit : Budget → Result ℤ
first_limit b = elim b.limits [
  | [] ↦ err key_error
  | m ∷ ms ↦ elim m.amount [ int n ↦ ok n | other ↦ err key_error ]
]

-- `_totals`: the first row of the meter `tokens`
abbrev pub token_total : Dict MeterKey Total → Total
token_total [] = record { settled = 0; held = 0 }
token_total ((k, t) ∷ rows) = let rest = token_total rows in if k.0 == "tokens" then t else rest

abbrev pub totals : String → Exec Db Total
totals bid = do rows ← λ s. (budget_totals namespace bid s, s); pure (token_total rows)

abbrev pub min_ℤ : ℤ → ℤ → ℤ
min_ℤ a b = if leb_ℤ a b then a else b

abbrev pub max_ℤ : ℤ → ℤ → ℤ
max_ℤ a b = if leb_ℤ b a then a else b

-- the amount that a dispatch asks for
abbrev pub amount_for : String → Option ℕ → ℤ → Exec Db ℤ
amount_for bid (some soft) limit = pure (min_ℤ (pos soft) limit)
amount_for bid none limit = do
  t ← totals bid
  pure (max_ℤ (pos 1) (min_ℤ limit (limit -ℤ pos t.settled -ℤ pos t.held)))

-- BUDGET_EXHAUSTED is raised again once the totals for its details are read.
abbrev pub explain : String → Result Reservation → Exec Db (Option Reservation)
explain bid (ok r) s = (ok (some r), s)
explain bid (err c) s = elim (is_exhausted c) [
  | true ↦ (totals bid >>= λ _. raise budget_exhausted) s
  | false ↦ (err c, s)
]

abbrev pub reservation_id : String → String
reservation_id run = joined "res_cb_" run

-- `digest` is the first 24 hexadecimal digits of a text's SHA-256.
module _ (digest : String → String) where
  abbrev pub budget_id : String → String
  budget_id task = joined "bud_cb_" (digest task)

  abbrev pub budget_entity : String → Budget → Entity
  budget_entity task b = record {
    namespace_id = namespace;
    kind = "Budget";
    id = budget_id task;
    body = Body.budget b;
  }

  abbrev pub new_budget : String → ℕ → Budget
  new_budget task hard = record { task_id = task; limits = tokens (pos hard) ∷ [] }

  -- an existing budget keeps its limits
  unfoldable pub ensure_budget : String → ℕ → Exec Db Budget
  ensure_budget task hard s = elim (or_absent (find_budget (budget_id task) namespace s)) [
    | err c ↦ (err c, s)
    | ok found ↦ elim found [
      | some b ↦ (ok b, s)
      | none ↦
          (put (budget_entity task (new_budget task hard)) >>= λ _. pure (new_budget task hard)) s
    ]
  ]

  -- the budget of the task; there is none where the profile has no hard limit
  abbrev pub task_budget : String → Profile → Exec Db (Option Budget)
  task_budget task p s = elim (or_absent (find_budget (budget_id task) namespace s)) [
    | err c ↦ (err c, s)
    | ok found ↦ elim found [
      | some b ↦ (ok (some b), s)
      | none ↦ elim (positive_int p.task_hard) [
        | none ↦ (ok none, s)
        | some hard ↦ (ensure_budget task hard >>= λ b. pure (some b)) s
      ]
    ]
  ]

  abbrev pub reservation : String → String → String → ℤ → Reservation
  reservation task run now amount = record {
    task_id = task;
    budget_id = budget_id task;
    action_id = run;
    reserved = tokens amount ∷ [];
    actual = none;
    status = held;
    receipt_evidence_ids = [];
    revision = 1;
    updated_at = now;
  }

  -- `reserve`, whose error is looked at
  abbrev pub reserve_run : String → String → String → ℤ → Exec Db (Option Reservation)
  reserve_run task run now amount s =
      let (r, s') = reserve namespace (reservation_id run) (reservation task run now amount) s in
      explain (budget_id task) r s'

  abbrev pub reserve_for :
      String → String → String → Profile → Option Budget → Exec Db (Option Reservation)
  reserve_for task run now p none = pure none
  reserve_for task run now p (some b) = do
    limit ← lift (first_limit b)
    amount ← amount_for (budget_id task) (positive_int p.segment_soft) limit
    reserve_run task run now amount

  -- a reservation of the run must belong to its task and budget
  abbrev pub is_of : String → String → Reservation → Bool
  is_of task run r =
      (r.budget_id == budget_id task) && ((r.action_id == run) && (r.task_id == task))

  abbrev pub guard_found :
      String → String → String → Profile → Option Reservation → Exec Db (Option Reservation)
  guard_found task run now p (some r) =
      raise_when (not (is_of task run r)) idempotency_conflict >> pure (some r)
  guard_found task run now p none = task_budget task p >>= reserve_for task run now p

  -- `selected` is what `_profile` finds: nothing where the mode is not `enforce`.
  unfoldable pub guard_dispatch :
      String → String → String → Option Profile → Exec Db (Option Reservation)
  unfolding transaction ensure_budget
  guard_dispatch task run now none = pure none
  guard_dispatch task run now (some p) = transaction do
    existing ← λ s. (or_absent (find_reservation (reservation_id run) namespace s), s)
    guard_found task run now p existing
