-- ===== src/Control/Budget.antt =====
-- The budgets of control_store.py: `_amounts`, `_budget_totals`, `reserve`, `settle` and
-- `mark_uncertain`. A reservation holds amounts of a budget until they are settled.
pub mod Totals
pub mod Spending
use Prim.Native.Nat.{Ordering}
use Prim.Native.String.{compare}
use asterun.Prelude.{
  ℕ, zero, suc, ◌+◌, String, Bool, true, false, not, ◌&&◌, ◌||◌, Option, none, some, List, [], ◌∷◌,
  ◌++◌, Dict, lookup, insert, keep, contains, leb, ltb, ◌==◌, string_eq, nat_eq, option_eq, pair_eq,
  if◌then◌else◌,
}
use asterun.Prelude.Int.{pos}
use asterun.Errors.{
  Code, Result, ok, err, invalid_request, invalid_state, idempotency_conflict, not_found, key_error,
  type_error, binding_mismatch, budget_unknown, budget_exhausted,
}
use asterun.Errors.Exec.{
  Exec, Unit₀, pure, raise, lift, gets, modify, raise_when, transaction, ◌>>=◌, ◌>>◌,
}
use asterun.Control.Db.{
  Db, Entity, Body, Number, int, other, Measure, Reservation, ReservationRow, ReservationStatus,
  held, settled, released, uncertain, Budget, max_int,
}
use asterun.Control.Entities.{select, put_row}

-- _METERS
abbrev pub meters : List String
meters = "tokens" ∷ "turns" ∷ "tool_actions" ∷ "wall_ms" ∷ "usd_micros" ∷ []

-- a meter and its billing pool
abbrev pub MeterKey : Type 0
MeterKey = String × Option String

abbrev pub key_of : Measure → MeterKey
key_of m = (m.meter, m.billing_pool_ref)

-- `type(amount) is int and 0 <= amount <= _MAX_INT`
abbrev pub safe_amount : Number → Option ℕ
safe_amount (int (pos n)) = if leb n max_int then some n else none
safe_amount _ = none

abbrev pub is_some {ℓ} : {A : Type ℓ} → Option A → Bool
is_some none = false
is_some (some a) = true

-- one round of the loop of `_amounts`
abbrev pub add_measure : Dict MeterKey ℕ → Measure → Result (Dict MeterKey ℕ)
add_measure acc m =
    if not (contains meters m.meter) || is_some (lookup (key_of m) acc)
    then err invalid_request
    else elim (safe_amount m.amount) [
      | none ↦ err invalid_request
      | some n ↦ ok (insert (key_of m) n acc)
    ]

unfoldable pub amounts_from : Dict MeterKey ℕ → List Measure → Result (Dict MeterKey ℕ)
amounts_from acc [] = ok acc
amounts_from acc (m ∷ ms) = elim (add_measure acc m) [
  | err c ↦ err c
  | ok acc' ↦ amounts_from acc' ms
]

-- `_amounts`; the field that it reads is `amount`, or `limit` in a budget's limits.
unfoldable pub amounts : List Measure → Result (Dict MeterKey ℕ)
unfolding amounts_from
amounts ms = amounts_from [] ms

pub record Total : Type 0 where
  pub settled : ℕ
  pub held : ℕ

abbrev pub total_of : Dict MeterKey Total → MeterKey → Total
total_of totals k = elim (lookup k totals) [ none ↦ record { settled = 0; held = 0 } | some t ↦ t ]

-- `total["settled" if status == "SETTLED" else "held"] += amount`
abbrev pub add_to : Bool → ℕ → Total → Total
add_to true n t = record t { settled = t.settled + n }
add_to false n t = record t { held = t.held + n }

unfoldable pub add_amounts : Bool → Dict MeterKey ℕ → Dict MeterKey Total → Dict MeterKey Total
add_amounts is_settled [] totals = totals
add_amounts is_settled ((k, n) ∷ rest) totals =
    add_amounts is_settled rest (insert k (add_to is_settled n (total_of totals k)) totals)

-- `get("Reservation", ...)` and `get("Budget", ...)`, and the fields of what they find
abbrev pub as_reservation : Option Entity → Result Reservation
as_reservation none = err not_found
as_reservation (some e) = elim e.body [ Body.reservation r ↦ ok r | _ ↦ err key_error ]

abbrev pub as_budget : Option Entity → Result Budget
as_budget none = err not_found
as_budget (some e) = elim e.body [ Body.budget b ↦ ok b | _ ↦ err key_error ]

abbrev pub find_reservation : String → String → Db → Result Reservation
find_reservation id namespace s = as_reservation (select "Reservation" id namespace s)

abbrev pub find_budget : String → String → Db → Result Budget
find_budget id namespace s = as_budget (select "Budget" id namespace s)

-- What a reservation counts for: its actual use once settled, nothing once released, else what it
-- reserved. A settled reservation without its use is Python's TypeError.
abbrev pub marked : Bool → Result (Dict MeterKey ℕ) → Result (Bool × Dict MeterKey ℕ)
marked done (err c) = err c
marked done (ok m) = ok (done, m)

abbrev pub counted_as :
    ReservationStatus → Option (List Measure) → List Measure → Result (Bool × Dict MeterKey ℕ)
counted_as settled none reserved = err type_error
counted_as settled (some actual) reserved = marked true (amounts actual)
counted_as released actual reserved = ok (false, [])
counted_as held actual reserved = marked false (amounts reserved)
counted_as uncertain actual reserved = marked false (amounts reserved)

abbrev pub counted : Reservation → Result (Bool × Dict MeterKey ℕ)
counted r = counted_as r.status r.actual r.reserved

-- one row of the loop of `_budget_totals`
abbrev pub add_row :
    Db → String → ReservationRow → Dict MeterKey Total → Result (Dict MeterKey Total)
add_row s namespace row totals = elim (find_reservation row.id namespace s) [
  | err c ↦ err c
  | ok r ↦ elim (counted r) [ err c ↦ err c | ok (done, m) ↦ ok (add_amounts done m totals) ]
]

unfoldable pub total_rows :
    Db → String → List ReservationRow → Dict MeterKey Total → Result (Dict MeterKey Total)
unfolding add_amounts amounts
total_rows s namespace [] totals = ok totals
total_rows s namespace (row ∷ rows) totals = elim (add_row s namespace row totals) [
  | err c ↦ err c
  | ok totals' ↦ total_rows s namespace rows totals'
]

-- `sorted(..., key=lambda value: (value["meter"], value["billing_pool_ref"] or ""))`
abbrev pub pool_text : Option String → String
pool_text none = ""
pool_text (some pool) = pool

abbrev pub key_le : MeterKey → MeterKey → Bool
key_le (m, p) (n, q) = elim (compare m n) [
  | Ordering.lt ↦ true
  | Ordering.gt ↦ false
  | Ordering.eq ↦ elim (compare (pool_text p) (pool_text q)) [ Ordering.gt ↦ false | _ ↦ true ]
]

unfoldable pub insert_sorted : MeterKey × Total → Dict MeterKey Total → Dict MeterKey Total
insert_sorted e [] = e ∷ []
insert_sorted e (f ∷ fs) = if key_le e.0 f.0 then e ∷ (f ∷ fs) else f ∷ insert_sorted e fs

unfoldable pub sorted_totals : Dict MeterKey Total → Dict MeterKey Total
unfolding insert_sorted
sorted_totals [] = []
sorted_totals (e ∷ es) = insert_sorted e (sorted_totals es)

abbrev pub of_budget : String → String → ReservationRow → Bool
of_budget namespace budget row = (row.namespace_id == namespace) && (row.budget_id == budget)

-- `_budget_totals`
unfoldable pub budget_totals : String → String → Db → Result (Dict MeterKey Total)
unfolding total_rows sorted_totals
budget_totals namespace budget s =
    elim (total_rows s namespace (keep (of_budget namespace budget) s.reservations) []) [
      | err c ↦ err c
      | ok totals ↦ ok (sorted_totals totals)
    ]

-- `row["settled"] + row["held"]`, 0 where there is no row
abbrev pub used : Dict MeterKey Total → MeterKey → ℕ
used totals k = (total_of totals k).settled + (total_of totals k).held

-- the loop of `reserve` over the amounts
unfoldable pub within_limits :
    Dict MeterKey ℕ → Dict MeterKey Total → Dict MeterKey ℕ → Result Unit₀
within_limits limits totals [] = ok tt
within_limits limits totals ((k, n) ∷ rest) = elim (lookup k limits) [
  | none ↦ err budget_unknown
  | some limit ↦ elim (ltb limit (used totals k + n)) [
    | true ↦ err budget_exhausted
    | false ↦ within_limits limits totals rest
  ]
]
