-- ===== src/Budgets/Settle.antt =====
-- `settle_run` of src/asterun/context_budget/ledger.py: what a run that ended has used. Every error
-- inside it is swallowed, and its writes are then undone by the transaction they stand in.
use asterun.Prelude.{
  String, ◌≡◌, Bool, false, ◌&&◌, Option, none, some, [], ◌∷◌, any, ◌==◌, string_eq, if◌then◌else◌,
}
use asterun.Prelude.Int.{ℤ}
use asterun.Errors.{Result, ok, err}
use asterun.Control.Db.{Db, Reservation, ReservationRow}
use asterun.Control.Budget.{find_reservation}
use asterun.Control.Reservations.{settle, mark_uncertain, is_held}
use asterun.Budgets.{namespace, tokens, reservation_id}

abbrev pub is_row : String → ReservationRow → Bool
is_row id row = (row.namespace_id == namespace) && (row.id == id)

-- what is written for a reservation that is still held
abbrev pub settle_held : String → Option ℤ → String → Db → Db
settle_held id (some used) now s = (settle namespace id (tokens used ∷ []) [] now s).1
settle_held id none now s = (mark_uncertain namespace id now s).1

abbrev pub settle_row : String → Option ℤ → String → Result Reservation → Db → Db
settle_row id processed now (err c) s = s
settle_row id processed now (ok r) s =
    if is_held r.status then settle_held id processed now s else s

-- `processed` is what `run_processed` reads of the run, and `terminal` whether the run has ended.
unfoldable pub settle_run : Bool → Option ℤ → String → String → Db → Db
settle_run terminal processed run now s =
    let id = reservation_id run in
    if terminal && any (is_row id) s.reservations
    then settle_row id processed now (find_reservation id namespace s) s
    else s

-- the state has the reservation, and it is no longer held
abbrev pub IsClosed : String → Db → Type 0
IsClosed id s =
    (r : Reservation) × (find_reservation id namespace s ≡ ok r) × (is_held r.status ≡ false)
