-- ===== src/Scheduler/Slots.antt =====
-- `start` and `finish` of scheduler.py against one another: the slots of one run.
use asterun.Prelude.{
  String, ◌≡◌, false, Option, none, some, arith, Dict, lookup, remove, contains, remove-insert_new,
  remove_absent, lookup-insert_self, string_eq, Option-cases, inl, inr,
}
use asterun.Scheduler.{Scheduler, hold, hold_missing, start, finish}
use asterun.Scheduler.Counts.{
  Positive, release_slot-insert, discard-append_new, contains-append_self,
}

remove-hold :
    (w : Option String) (r : String) (held : Dict String String)
    → lookup r held ≡ none
    → remove r (hold w r held) ≡ held
remove-hold none r held h = remove_absent r held h
remove-hold (some w) r held h = remove-insert_new r w held h

-- A run that takes a slot and gives it back under the same backend leaves the scheduler as it was,
-- whatever its workspace: no count, run or workspace is lost or left behind. The run was not in
-- flight and held no workspace, and no backend had an entry with the count 0.
pub finish-start :
    (s : Scheduler) (b r : String) (w : Option String)
    → Positive s.inflight
    → contains s.inflight_runs r ≡ false
    → lookup r s.workspaces ≡ none
    → finish (start s b (some r) w) b (some r) ≡ s
unfolding finish start
finish-start s b r w p new free = rw new (
    rw (contains-append_self s.inflight_runs r) (
      ground (
        arith,
        release_slot-insert b s.inflight p,
        discard-append_new s.inflight_runs r new,
        remove-hold w r s.workspaces free,
      )))

lookup-hold_missing :
    (r : String) (w : String) (held : Dict String String)
    → (v : String) × (lookup r (hold_missing (some w) r held) ≡ some v)
lookup-hold_missing r w held = elim (Option-cases (lookup r held)) [
  | inl e ↦ (w, ground (arith, e, lookup-insert_self r w held))
  | inr (v, e) ↦ (v, ground (arith, e))
]

-- Starting a run again, under any backend and with any workspace, changes nothing once the run has
-- a slot and its workspace.
pub start-start :
    (s : Scheduler) (b c r w : String) (v : Option String)
    → start (start s b (some r) (some w)) c (some r) v ≡ start s b (some r) (some w)
unfolding start
start-start s b c r w none = ground (arith, contains-append_self s.inflight_runs r)
start-start s b c r w (some v) = ground (
  arith,
  contains-append_self s.inflight_runs r,
  lookup-insert_self r w s.workspaces,
  lookup-hold_missing r w s.workspaces,
)
