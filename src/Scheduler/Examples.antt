-- ===== src/Scheduler/Examples.antt =====
-- The theorems about scheduler.py on a scheduler with two slots, one for each backend.
use asterun.Prelude.{
  ◌≡◌, refl, true, false, not, ◌&&◌, none, some, [], lookup, insert, remove, string_eq,
}
use asterun.Contracts.{RunStatus, OperationStatus, is_terminal}
use asterun.Scheduler.{
  Scheduler, SchedulerConfig, start, finish, enqueue, can_start, can_enqueue, dequeue_ready,
  pop_ready,
}
use asterun.Scheduler.Counts.{Positive}
use asterun.Scheduler.Limits.{
  WithinLimits, Reach, here, next, starting, queueing, finishing, dequeueing, empty,
  empty-WithinLimits, Reach-WithinLimits,
}
use asterun.Scheduler.Slots.{finish-start, start-start}
use asterun.Scheduler.Queue.{Picked, dequeue_ready-Picked}
use asterun.Scheduler.Projection.{
  SlotMarks, assign_slot, persisted_slot_held, project_slot, project_slot_idem,
  persisted_slot_held-assign_slot,
}

abbrev small : SchedulerConfig
small = record {
  max_queue = 1;
  per_backend_concurrency = 1;
  max_runs_per_task = 4;
  max_concurrency = some 2;
  local_check_concurrency = 2;
}

-- One run on "codex" in "/w", and one that waits for the same backend.
abbrev busy : Scheduler
busy = start (empty small) "codex" (some "r1") (some "/w")

abbrev waiting : Scheduler
waiting = enqueue busy "codex" "t2" "r2" (some "/v")

abbrev served : Scheduler
served = (dequeue_ready (finish waiting "codex" (some "r1"))).1

busy_can_start : can_start (empty small) "codex" (some "/w") ≡ true
unfolding can_start lookup
busy_can_start = refl

busy_is_full : can_start busy "codex" (some "/v") ≡ false
unfolding can_start start lookup insert
busy_is_full = refl

busy-can_enqueue : can_enqueue busy ≡ true
unfolding can_enqueue start
busy-can_enqueue = refl

served-Reach : Reach (empty small) served
served-Reach =
    next
      (next
        (next (next here (starting "codex" "r1" (some "/w") busy_can_start refl))
          (queueing "codex" "t2" "r2" (some "/v") busy-can_enqueue))
        (finishing "codex" (some "r1")))
      dequeueing

Reach-WithinLimits_example : WithinLimits served
Reach-WithinLimits_example = Reach-WithinLimits (empty-WithinLimits small) served-Reach

nothing_in_flight : Positive (empty small).inflight
nothing_in_flight = (empty-WithinLimits small).positive

no_workspace : lookup "r1" (empty small).workspaces ≡ none
unfolding lookup
no_workspace = refl

finish-start_example :
    finish (start (empty small) "codex" (some "r1") (some "/w")) "codex" (some "r1") ≡ empty small
finish-start_example =
    finish-start (empty small) "codex" "r1" (some "/w") nothing_in_flight refl no_workspace

start-start_example : start busy "grok" (some "r1") none ≡ busy
start-start_example = start-start (empty small) "codex" "grok" "r1" "/w" none

dequeue_ready-Picked_example :
    Picked waiting (dequeue_ready waiting).0 (dequeue_ready waiting).1.queue
dequeue_ready-Picked_example = dequeue_ready-Picked waiting

dequeue_served : (dequeue_ready (finish waiting "codex" (some "r1"))).1.queue ≡ []
unfolding dequeue_ready finish enqueue start can_start lookup insert remove pop_ready
dequeue_served = refl

abbrev unmarked : SlotMarks
unmarked = record { slot_held = none; concurrency_released = false }

persisted_slot_held-assign_slot_example :
    persisted_slot_held RunStatus.running
      (assign_slot RunStatus.running true unmarked)
      (some OperationStatus.dispatched)
    ≡ not (is_terminal RunStatus.running) && true
persisted_slot_held-assign_slot_example =
    persisted_slot_held-assign_slot RunStatus.running true unmarked
      (some OperationStatus.dispatched)

project_slot_idem_example :
    project_slot RunStatus.running unmarked (some OperationStatus.dispatched) "codex" "r1" "/w" (
      project_slot RunStatus.running unmarked
        (some OperationStatus.dispatched)
        "codex"
        "r1"
        "/w"
        (empty small))
    ≡ project_slot RunStatus.running unmarked
        (some OperationStatus.dispatched)
        "codex"
        "r1"
        "/w"
        (empty small)
project_slot_idem_example =
    project_slot_idem RunStatus.running unmarked (some OperationStatus.dispatched) "codex" "r1" "/w"
      (empty small)
