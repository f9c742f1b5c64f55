-- ===== src/Scheduler/Projection.antt =====
-- The slot marks of application.py (`_assign_slot`, `_persisted_slot_held`, `_project_slot`): a run
-- stores whether it holds a slot, and the scheduler projects the stored mark.
use asterun.Prelude.{
  String, ◌≡◌, Bool, true, false, Option, none, some, arith, string_eq, Bool-cases, inl, inr, not,
  ◌&&◌,
}
use asterun.Contracts.{RunStatus, is_terminal, OperationStatus}
use asterun.Scheduler.{Scheduler, start, finish}
use asterun.Scheduler.Slots.{start-start}
use asterun.Scheduler.Counts.{contains-discard_self}

-- The marks in `run.native`: `slot_held` and `concurrency_released`.
pub record SlotMarks : Type 0 where
  pub slot_held : Option Bool
  pub concurrency_released : Bool

unfoldable pub assign_slot : RunStatus → Bool → SlotMarks → SlotMarks
assign_slot status held marks = elim (is_terminal status) [
  | true ↦ record { slot_held = none; concurrency_released = false }
  | false ↦ elim held [
    | true ↦ record { slot_held = some true; concurrency_released = false }
    | false ↦ record { slot_held = some false; concurrency_released = true }
  ]
]

-- whether an operation has left its first state; no operation counts as not dispatched
abbrev pub not_dispatched : Option OperationStatus → Bool
not_dispatched none = true
not_dispatched (some OperationStatus.intended) = true
not_dispatched (some _) = false

unfoldable pub persisted_slot_held : RunStatus → SlotMarks → Option OperationStatus → Bool
persisted_slot_held status marks operation = elim (is_terminal status) [
  | true ↦ false
  | false ↦ elim marks.slot_held [
    | some held ↦ held
    | none ↦ elim (not_dispatched operation) [
      | true ↦ false
      | false ↦ elim marks.concurrency_released [ true ↦ false | false ↦ true ]
    ]
  ]
]

-- `backend`, `run` and `workspace` are the run's backend, its id and its task's workspace key.
unfoldable pub project_slot :
    RunStatus
    → SlotMarks
    → Option OperationStatus
    → String
    → String
    → String
    → Scheduler
    → Scheduler
project_slot status marks operation backend run workspace s =
    elim (persisted_slot_held status marks operation) [
      | true ↦ start s backend (some run) (some workspace)
      | false ↦ finish s backend (some run)
    ]

-- `_persisted_slot_held` reads back the mark that `_assign_slot` wrote, for every operation and
-- whatever the marks were; of a terminal run it reads that no slot is held.
pub persisted_slot_held-assign_slot :
    (status : RunStatus) (held : Bool) (marks : SlotMarks) (operation : Option OperationStatus)
    → persisted_slot_held status (assign_slot status held marks) operation
      ≡ not (is_terminal status) && held
unfolding persisted_slot_held assign_slot
persisted_slot_held-assign_slot status held marks operation = ground arith

finish-finish_same :
    (s : Scheduler) (b r : String) → finish (finish s b (some r)) b (some r) ≡ finish s b (some r)
unfolding finish
finish-finish_same s b r = ground (arith, contains-discard_self s.inflight_runs r)

module _ (status : RunStatus) (marks : SlotMarks) (operation : Option OperationStatus)
    (b r w : String) where
  project_slot_held :
      persisted_slot_held status marks operation ≡ true
      → (s : Scheduler) → project_slot status marks operation b r w s ≡ start s b (some r) (some w)
  unfolding project_slot
  project_slot_held e s = rw (e, project_slot)

  project_slot_free :
      persisted_slot_held status marks operation ≡ false
      → (s : Scheduler) → project_slot status marks operation b r w s ≡ finish s b (some r)
  unfolding project_slot
  project_slot_free e s = rw (e, project_slot)

  -- Projecting the marks of a run twice in a row changes no more than projecting them once, whether
  -- the run holds a slot or not.
  pub project_slot_idem :
      (s : Scheduler)
      → project_slot status marks operation b r w (project_slot status marks operation b r w s)
        ≡ project_slot status marks operation b r w s
  project_slot_idem s = elim (Bool-cases (persisted_slot_held status marks operation)) [
    | inl e ↦ simp (project_slot_held e, start-start)
    | inr e ↦ simp (project_slot_free e, finish-finish_same)
  ]
