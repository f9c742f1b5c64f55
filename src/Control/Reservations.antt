-- ===== src/Control/Reservations.antt =====
-- `reserve`, `settle` and `mark_uncertain` of control_store.py: the life of a reservation.

pub mod Admission
pub mod Settlement
pub mod Limits
use asterun.Prelude.{
  ℕ, ◌+◌, String, Bool, true, false, not, ◌&&◌, ◌||◌, Option, none, some, List, [], ◌∷◌, ◌++◌, Dict,
  lookup, insert, keep, all, contains, discard, ◌==◌, string_eq, nat_eq, option_eq, pair_eq,
  if◌then◌else◌,
}
use asterun.Errors.{
  Code, Result, ok, err, invalid_request, invalid_state, idempotency_conflict, binding_mismatch,
  type_error,
}
use asterun.Errors.Exec.{
  Exec, Unit₀, pure, raise, lift, gets, modify, raise_when, transaction, ◌>>=◌, ◌>>◌,
}
use asterun.Control.Db.{
  Db, Entity, Body, Measure, Reservation, ReservationRow, ReservationStatus, held, settled,
  released, uncertain, Budget,
}
use asterun.Control.Entities.{put_row}
use asterun.Control.Budget.{
  MeterKey, Total, amounts, is_some, find_reservation, find_budget, budget_totals, within_limits,
}

abbrev pub entity : String → String → Reservation → Entity
entity namespace id r = record {
  namespace_id = namespace;
  kind = "Reservation";
  id = id;
  body = Body.reservation r;
}

abbrev pub is_held : ReservationStatus → Bool
is_held held = true
is_held _ = false

abbrev pub is_empty {ℓ} : {A : Type ℓ} → List A → Bool
is_empty [] = true
is_empty (x ∷ xs) = false

-- `_amounts(a) == _amounts(b)`: the dictionaries have the same keys and values.
abbrev pub covers : Dict MeterKey ℕ → Dict MeterKey ℕ → Bool
covers a b = all (λ e. option_eq.equal (lookup e.0 b) (some e.1)) a

abbrev pub same_amounts : Dict MeterKey ℕ → Dict MeterKey ℕ → Bool
same_amounts a b = covers a b && covers b a

-- `id=? OR (budget_id=? AND action_id=?)` in the namespace
abbrev pub row_matches : String → String → Reservation → ReservationRow → Bool
row_matches namespace id r row =
    (row.namespace_id == namespace)
    && ((row.id == id) || ((row.budget_id == r.budget_id) && (row.action_id == r.action_id)))

-- the comparison of a reservation with the one that was found for it
abbrev pub same_binding : Reservation → Reservation → Result Bool
same_binding previous r =
    if (previous.budget_id == r.budget_id)
      && ((previous.action_id == r.action_id) && (previous.task_id == r.task_id))
    then elim (amounts previous.reserved) [
      | err c ↦ err c
      | ok m ↦ elim (amounts r.reserved) [ err c ↦ err c | ok n ↦ ok (same_amounts m n) ]
    ]
    else ok false

-- the branch of `reserve` for rows that are there already
abbrev pub reuse : String → Reservation → List ReservationRow → Exec Db Reservation
reuse namespace r (row ∷ []) = do
  previous ← λ s. (find_reservation row.id namespace s, s)
  same ← lift (same_binding previous r)
  raise_when (not same) idempotency_conflict
  pure previous
reuse namespace r _ = raise idempotency_conflict

-- the INSERT and `_put` of `reserve`
abbrev pub store : String → String → Reservation → Db → Db
store namespace id r s = put_row (entity namespace id r) (record s {
  reservations =
      s.reservations
      ++ record {
        namespace_id = namespace;
        id = id;
        budget_id = r.budget_id;
        action_id = r.action_id;
      }
        ∷ [];
})

-- the branch of `reserve` for a new reservation of the amounts `wanted`
abbrev pub admit : String → String → Reservation → Dict MeterKey ℕ → Exec Db Reservation
admit namespace id r wanted = do
  budget ← λ s. (find_budget r.budget_id namespace s, s)
  raise_when (not (budget.task_id == r.task_id)) binding_mismatch
  limits ← lift (amounts budget.limits)
  current ← λ s. (budget_totals namespace r.budget_id s, s)
  lift (within_limits limits current wanted)
  modify (store namespace id r)
  pure r

abbrev pub reserve_rows :
    String → String → Reservation → Dict MeterKey ℕ → List ReservationRow → Exec Db Reservation
reserve_rows namespace id r wanted [] = admit namespace id r wanted
reserve_rows namespace id r wanted (row ∷ rows) = reuse namespace r (row ∷ rows)

-- The reservation is given by its namespace, its id and its fields.
unfoldable pub reserve : String → String → Reservation → Exec Db Reservation
unfolding transaction put_row
reserve namespace id r = do
  wanted ← lift (amounts r.reserved)
  raise_when (is_empty wanted || (not (is_held r.status) || is_some r.actual)) invalid_request
  transaction
      (λ s. reserve_rows namespace id r wanted (keep (row_matches namespace id r) s.reservations) s)

-- `list(dict.fromkeys(ids))`: the first of each, in order
unfoldable pub unique_from : List String → List String → List String
unique_from seen [] = []
unique_from seen (x ∷ xs) =
    let fresh = x ∷ unique_from (x ∷ seen) xs in
    let old = unique_from seen xs in if contains seen x then old else fresh

-- `amounts.keys() <= reserved.keys()`
abbrev pub keys_within : Dict MeterKey ℕ → Dict MeterKey ℕ → Bool
keys_within a b = all (λ e. is_some (lookup e.0 b)) a

abbrev pub settled_with : List Measure → List String → String → Reservation → Reservation
settled_with actual evidence now r = record r {
  actual = some actual;
  status = settled;
  receipt_evidence_ids = unique_from [] evidence;
  revision = r.revision + 1;
  updated_at = now;
}

-- `settle` of a reservation that is settled: the same amounts, or a conflict
abbrev pub settle_again :
    Dict MeterKey ℕ → Reservation → Option (List Measure) → Exec Db Reservation
settle_again used r none = raise type_error
settle_again used r (some before) = do
  m ← lift (amounts before)
  raise_when (not (same_amounts m used)) idempotency_conflict
  pure r

-- `settle` of a reservation that is held or uncertain
abbrev pub settle_open :
    String
    → String
    → List Measure
    → Dict MeterKey ℕ
    → List String
    → String
    → Reservation
    → Exec Db Reservation
settle_open namespace id actual used evidence now r = do
  m ← lift (amounts r.reserved)
  raise_when (not (keys_within used m)) invalid_request
  modify (put_row (entity namespace id (settled_with actual evidence now r)))
  pure (settled_with actual evidence now r)

abbrev pub settle_found :
    String
    → String
    → List Measure
    → Dict MeterKey ℕ
    → List String
    → String
    → Reservation
    → ReservationStatus
    → Exec Db Reservation
settle_found namespace id actual used evidence now r settled = settle_again used r r.actual
settle_found namespace id actual used evidence now r released = raise invalid_state
settle_found namespace id actual used evidence now r held =
    settle_open namespace id actual used evidence now r
settle_found namespace id actual used evidence now r uncertain =
    settle_open namespace id actual used evidence now r

unfoldable pub settle : String → String → List Measure → List String → String → Exec Db Reservation
unfolding transaction put_row unique_from
settle namespace id actual evidence now = do
  used ← lift (amounts actual)
  transaction do
    r ← λ s. (find_reservation id namespace s, s)
    settle_found namespace id actual used evidence now r r.status

abbrev pub uncertain_at : String → Reservation → Reservation
uncertain_at now r = record r { status = uncertain; revision = r.revision + 1; updated_at = now }

abbrev pub mark_found : String → String → String → Reservation → Exec Db Reservation
mark_found namespace id now r = elim r.status [
  | uncertain ↦ pure r
  | held ↦ (do
    modify (put_row (entity namespace id (uncertain_at now r)))
    pure (uncertain_at now r))
  | _ ↦ raise invalid_state
]

unfoldable pub mark_uncertain : String → String → String → Exec Db Reservation
unfolding transaction put_row
mark_uncertain namespace id now =
    transaction do r ← λ s. (find_reservation id namespace s, s); mark_found namespace id now r
