-- ===== src/Stores/Examples.antt =====
-- A sequence of calls on both stores: an intent, its replay, an event, and the failing and repeated calls.
use asterun.Prelude.{
  length, ◌<◌, arith, ℕ, String, false, true, none, some, List, [], ◌∷◌, Dict, lookup, insert,
  string_eq, ◌≡◌, refl, sym, ap,
}
use asterun.Prelude.Int.{pos, eqb_ℤ}
use asterun.Json.{Json, null, integer, Python}
use asterun.Contracts.Examples.{
  strict, a_task, a_task-ValidTask, a_run, a_run-ValidRun, an_operation,
  an_operation-ValidOperation, an_event,
}
use asterun.Control.Db.{Db}
use asterun.Stores.Memory.{MemoryStore, new_store, bucket}
use asterun.Stores.Memory
use asterun.Stores.Sqlite.{SqliteStore}
use asterun.Stores.Sqlite.Intents
use asterun.Errors.{err, ok, intent_persist_failed, revision_conflict}
use asterun.Contracts.Tasks.{Task}
use asterun.Stores.Handoff.{memory_commit_handoff, next_snapshot}
use asterun.Stores.Handoff.Once.{memory_commit_handoff-once}
use asterun.Stores.Paging.{all_events, all_events-bucket}
use asterun.Stores.Atomic.{commit_intent-undone, commit_intent-replayed}
use asterun.Stores.Refinement.{
  Numbered, no_hooks, Call, commit_intent, append_event, list_events, get_run,
  find_operation_for_run, bootstrap_applied_revision, cas_apply_revision,
}
use asterun.Stores.Refinement.Steps.{
  AllAdmitted, all_in_memory, all_in_database, new_database, all_in_database-in_memory,
}

abbrev no_digest : Dict String Json → String
no_digest d = ""

abbrev empty_control : Db
empty_control = record {
  entities = [];
  operations = [];
  event_streams = [];
  events = [];
  event_ids = [];
  outbox = [];
  leases = [];
  reservations = [];
  blobs = [];
}

abbrev calls : List Call
calls =
    commit_intent (an_operation "o1" "r1") a_task (a_run "r1") none
    ∷ commit_intent (an_operation "o2" "r2") a_task (a_run "r2") none
    ∷ append_event "r1" an_event
    ∷ list_events "r1" 0 10
    ∷ get_run "r1"
    ∷ find_operation_for_run "r1"
    ∷ bootstrap_applied_revision (pos 1)
    ∷ cas_apply_revision (pos 1) (pos 2)
    ∷ []

calls-AllAdmitted : AllAdmitted strict no_digest calls new_store
unfolding lookup insert Memory.commit_intent Memory.append_event Memory.bootstrap_applied_revision
    Memory.cas_apply_revision Memory.get_run
calls-AllAdmitted = (
  (
    an_operation-ValidOperation "o1" "r1" refl refl,
    a_task-ValidTask,
    a_run-ValidRun "r1" refl,
    tt,
    refl,
    refl,
  ),
  (
    (
      an_operation-ValidOperation "o2" "r2" refl refl,
      a_task-ValidTask,
      a_run-ValidRun "r2" refl,
      tt,
      refl,
      refl,
    ),
    (tt, (tt, (tt, (tt, (tt, (tt, tt)))))),
  ),
)

all_in_database-in_memory_example :
    (all_in_database strict no_digest calls (new_database empty_control)).0
    ≡ (all_in_memory strict no_digest calls new_store).0
all_in_database-in_memory_example =
    all_in_database-in_memory strict no_digest calls empty_control calls-AllAdmitted

-- a database in which a run of the id is stored, where a new intent breaks a constraint at its third statement
abbrev with_run : SqliteStore
with_run = record (new_database empty_control) { runs = ("r1", []) ∷ [] }

broken_intent :
    (Intents.commit_intent strict no_digest no_hooks
      (an_operation "o1" "r1")
      a_task
      (a_run "r1")
      none
      with_run).0
    ≡ err intent_persist_failed
unfolding Intents.commit_intent lookup insert
broken_intent = refl

commit_intent-undone_example :
    (Intents.commit_intent strict no_digest no_hooks
      (an_operation "o1" "r1")
      a_task
      (a_run "r1")
      none
      with_run).1
    ≡ with_run
commit_intent-undone_example =
    commit_intent-undone strict no_digest no_hooks (an_operation "o1" "r1") a_task (a_run "r1") none
      with_run intent_persist_failed broken_intent

abbrev stored_intent : MemoryStore
stored_intent =
    (Memory.commit_intent strict no_digest (an_operation "o1" "r1") a_task (a_run "r1") none
      new_store).1

first_intent :
    (Memory.commit_intent strict no_digest
      (an_operation "o1" "r1")
      a_task
      (a_run "r1")
      none
      new_store).0
    ≡ ok (an_operation "o1" "r1", (a_task, (a_run "r1", false)))
unfolding Memory.commit_intent lookup insert
first_intent = refl

commit_intent-replayed_example :
    Memory.commit_intent strict no_digest
      (an_operation "o2" "r2")
      a_task
      (a_run "r2")
      none
      stored_intent
    ≡ (ok (an_operation "o1" "r1", (a_task, (a_run "r1", true))), stored_intent)
commit_intent-replayed_example =
    commit_intent-replayed strict no_digest (an_operation "o1" "r1") (an_operation "o2" "r2") a_task
      a_task (a_run "r1") (a_run "r2") none none new_store
      (an_operation "o1" "r1", (a_task, (a_run "r1", false))) refl refl first_intent

-- a comparison by the kind of the value, and of integers by their value
abbrev by_kind : Python
by_kind = record strict {
  equal = λ a b. elim a [ integer x ↦ elim b [ integer y ↦ eqb_ℤ x y | _ ↦ false ] | _ ↦ true ];
}

abbrev handed_off : MemoryStore
handed_off = record new_store { tasks = ("t1", a_task) ∷ []; runs = ("r1", a_run "r1") ∷ [] }

only_task : {t : Task} → some a_task ≡ some t → t.id ≡ "t1"
only_task {t} e = sym (ap (λ o. elim o [ none ↦ "t1" | some t ↦ t.id ]) e)

handed_off-keyed : (t : Task) → lookup "t1" handed_off.tasks ≡ some t → t.id ≡ "t1"
unfolding lookup
handed_off-keyed t e = only_task e

abbrev no_sha256 : List ℕ → String
no_sha256 content = "00"

first_handoff :
    (memory_commit_handoff by_kind no_digest no_sha256 "t1" "r1" null (pos 0) (1 ∷ []) handed_off).0
    ≡ ok (next_snapshot (pos 0) "00")
unfolding memory_commit_handoff Memory.get_task Memory.get_run lookup insert
first_handoff = refl

memory_commit_handoff-once_example :
    (memory_commit_handoff by_kind no_digest no_sha256 "t1" "r1" null
      (pos 0)
      (2 ∷ [])
      (memory_commit_handoff by_kind no_digest no_sha256 "t1" "r1" null
        (pos 0)
        (1 ∷ [])
        handed_off).1).0
    ≡ err revision_conflict
memory_commit_handoff-once_example =
    memory_commit_handoff-once by_kind no_digest no_sha256 (pos 0) (1 ∷ []) "t1" "r1" null null
      (next_snapshot (pos 0) "00") (2 ∷ []) handed_off (λ a b. refl) handed_off-keyed first_handoff

-- one event of a run, read with fuel for two pages
abbrev one_event : MemoryStore
one_event = record new_store { events = ("r1", record an_event { seq = pos 1 } ∷ []) ∷ [] }

one_event-Numbered : Numbered 0 (bucket "r1" one_event)
unfolding lookup
one_event-Numbered = (refl, tt)

one_event-length : length (bucket "r1" one_event) < 2
unfolding lookup
one_event-length = omega arith

all_events-bucket_example : all_events "r1" 2 one_event ≡ some (bucket "r1" one_event)
all_events-bucket_example = all_events-bucket "r1" 2 one_event one_event-Numbered one_event-length
