-- ===== src/Control/EventExamples.antt =====
-- The theorems about the event tables on a short history.
use Prim.Native.Nat.{min}
use asterun.Prelude.{◌+◌, ◌≤◌, String, ◌≡◌, refl, List, [], ◌∷◌, arith, lookup, insert}
use asterun.Errors.{Code, ok, err}
use asterun.Errors.Exec.{transaction}
use asterun.Control.Db.{Db, Event, empty}
use asterun.Control.Events.{append_event, prune_events, events, stream_of}
use asterun.Control.Events.Rows.{Run}
use asterun.Control.Events.Numbering.{IsNumbered}
use asterun.Control.Events.Identity.{EventOp, append, prune, run_ops, append_event-once}
use asterun.Control.Events.History.{empty-IsNumbered, run_ops-IsNumbered}
use asterun.Control.Events.Paging.{events_page}

abbrev event : String → Event
event id = record {
  namespace_id = "ns_local";
  task_id = "t1";
  id = id;
  sequence = 0;
  payload = "{}";
}

-- Three events, the first of which is removed again; a repeated identity is refused.
abbrev history : List EventOp
history =
    append (event "e1")
    ∷ append (event "e2")
    ∷ append (event "e3")
    ∷ append (event "e1")
    ∷ prune "ns_local" "t1" 1
    ∷ []

abbrev stored : Db
stored = run_ops empty history

stored_stream : (stream_of stored "ns_local" "t1") ≡ record { sequence = 3; floor = 1 }
unfolding run_ops append_event prune_events transaction lookup insert
stored_stream = refl

run_ops-IsNumbered_example : IsNumbered stored
run_ops-IsNumbered_example = run_ops-IsNumbered empty history empty-IsNumbered

stored_cursor : (stream_of stored "ns_local" "t1").floor ≤ 1
unfolding run_ops append_event prune_events transaction lookup insert
stored_cursor = omega arith

stored_latest : 1 ≤ (stream_of stored "ns_local" "t1").sequence
unfolding run_ops append_event prune_events transaction lookup insert
stored_latest = omega arith

events_page_example :
    (page : List Event) × (events "ns_local" "t1" 1 1 stored ≡ (ok page, stored))
    × Run 1 (min (1 + 1) (stream_of stored "ns_local" "t1").sequence) page
events_page_example =
    events_page "ns_local" "t1" 1 1 stored (run_ops-IsNumbered empty history empty-IsNumbered)
      stored_cursor stored_latest (omega arith) (omega arith)

first_appended : (append_event (event "e1") empty).0 ≡ ok (record (event "e1") { sequence = 1 })
unfolding append_event transaction lookup insert
first_appended = refl

append_event-once_example :
    (c : Code) × (append_event
        (event "e1")
        (run_ops (append_event (event "e1") empty).1 (prune "ns_local" "t1" 1 ∷ []))
      ≡ (err c, run_ops (append_event (event "e1") empty).1 (prune "ns_local" "t1" 1 ∷ [])))
append_event-once_example =
    append_event-once (event "e1") (record (event "e1") { sequence = 1 }) (event "e1") empty
      (prune "ns_local" "t1" 1 ∷ []) first_appended refl refl
