-- ===== src/Budgets/Once.antt =====
-- A run is charged once (src/asterun/context_budget/ledger.py), whatever is dispatched in the meantime.
use text.Mathlib.TextLemmas.{append_cancel_left}
use asterun.Prelude.{
  String, ◌≡◌, ◌≢◌, refl, ap, ◌∙◌, Bool, Option, none, some, List, [], ◌∷◌, keep, ◌==◌, string_eq,
  pair_eq, inl, inr, Bool-cases,
}
use asterun.Prelude.Int.{ℤ, pos}
use asterun.Errors.{ok}
use asterun.Errors.Exec.{transaction}
use asterun.Control.Db.{Db, Reservation}
use asterun.Control.Entities.{select}
use asterun.Control.Budget.{find_reservation, as_reservation}
use asterun.Control.Reservations.{row_matches}
use asterun.Budgets.{
  Profile, namespace, guard_dispatch, reservation, reservation_id, or_absent, is_of,
}
use asterun.Budgets.Settle.{settle_run}
use asterun.Budgets.Guard.{guard_dispatch-stored, guard_dispatch-again}
use asterun.Budgets.Frame.{row_at}
use asterun.Budgets.GuardFrame.{guard_dispatch-keeps, settle_run-keeps}

-- The operations of the ledger: the guard of a dispatch, of a task and a run, and the end of a run.
pub data LedgerOp : Type 0 where
  dispatch : String → String → String → Option Profile → LedgerOp
  finish : Bool → Option ℤ → String → String → LedgerOp

-- Any dispatch, or the end of another run
abbrev pub Spares : String → LedgerOp → Type 0
Spares run (dispatch task other now p) = Unit
Spares run (finish terminal processed other now) = other ≢ run

abbrev pub AllSpare : String → List LedgerOp → Type 0
AllSpare run [] = Unit
AllSpare run (op ∷ ops) = Spares run op × AllSpare run ops

id-apart : (other run : String) → other ≢ run → reservation_id other ≢ reservation_id run
id-apart other run ne h = ne (append_cancel_left "res_cb_" other run h)

find-kept :
    (k : String) (s t : Db)
    → row_at k t ≡ row_at k s
    → find_reservation k namespace t ≡ find_reservation k namespace s
unfolding select
find-kept k s t h = ap as_reservation h

module _ (digest : String → String) where
  unfoldable pub run_op : Db → LedgerOp → Db
  run_op s (dispatch task run now p) = (guard_dispatch digest task run now p s).1
  run_op s (finish terminal processed run now) = settle_run terminal processed run now s

  unfoldable pub run_ops : Db → List LedgerOp → Db
  unfolding run_op
  run_ops s [] = s
  run_ops s (op ∷ ops) = run_ops (run_op s op) ops

  -- A run that has a reservation is not charged, for whatever task it is dispatched.
  own-guard :
      (task run now : String) (p : Option Profile) (r : Reservation) (s : Db)
      → find_reservation (reservation_id run) namespace s ≡ ok r
      → (guard_dispatch digest task run now p s).1 ≡ s
  unfolding guard_dispatch transaction
  own-guard task run now none r s found = refl
  own-guard task run now (some p) r s found = elim (Bool-cases (is_of digest task run r)) [
    | inl mine ↦ rw (found, mine) refl
    | inr other ↦ rw (found, other) refl
  ]

  run_op-found :
      (run : String) (r : Reservation) (s : Db) (op : LedgerOp)
      → Spares run op
      → find_reservation (reservation_id run) namespace s ≡ ok r
      → find_reservation (reservation_id run) namespace (run_op s op) ≡ ok r
  unfolding run_op
  run_op-found run r s (dispatch task other now p) spares found = elim (Bool-cases (other == run)) [
    | inl same ↦
        rw ((string_eq.equal_iff other run).0 same, own-guard task run now p r s found) found
    | inr apart ↦
        find-kept (reservation_id run) s _ (
          guard_dispatch-keeps (reservation_id run) digest task other now p s
            (id-apart other run (λ e. cc ((string_eq.equal_iff other run).1 e, apart))))
        ∙ found
  ]
  run_op-found run r s (finish terminal processed other now) spares found =
      find-kept (reservation_id run) s _ (
        settle_run-keeps (reservation_id run) terminal processed other now s
          (id-apart other run spares))
      ∙ found

  run_ops-found :
      (run : String) (r : Reservation) (s : Db) (ops : List LedgerOp)
      → AllSpare run ops
      → find_reservation (reservation_id run) namespace s ≡ ok r
      → find_reservation (reservation_id run) namespace (run_ops s ops) ≡ ok r
  unfolding run_ops
  run_ops-found run r s [] spare found = found
  run_ops-found run r s (op ∷ ops) spare found =
      run_ops-found run r (run_op s op) ops spare.1 (run_op-found run r s op spare.0 found)

  -- A run is charged once. Where a first dispatch of the run reserved, with no reservation and no row in the
  -- way, then after any dispatches, of this run and of others, for any task, and any ends of other runs, a
  -- guard of the run for its task, at any time and under any profile, answers with the same reservation and
  -- changes nothing.
  pub guard_dispatch-once :
      (task run now later : String) (p q : Profile) (r : Reservation) (s s' : Db)
      (ops : List LedgerOp)
      → or_absent (find_reservation (reservation_id run) namespace s) ≡ ok none
      → keep
          (row_matches namespace (reservation_id run) (reservation digest task run now (pos 0)))
          s.reservations
        ≡ []
      → guard_dispatch digest task run now (some p) s ≡ (ok (some r), s')
      → AllSpare run ops
      → guard_dispatch digest task run later (some q) (run_ops s' ops)
        ≡ (ok (some r), run_ops s' ops)
  guard_dispatch-once task run now later p q r s s' ops absent new first spare =
      let (stored, mine) = guard_dispatch-stored digest task run now p r s s' absent new first in
      guard_dispatch-again digest task run later q r (run_ops s' ops)
        (run_ops-found run r s' ops spare stored) mine
