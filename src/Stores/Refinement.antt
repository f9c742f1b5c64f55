-- ===== src/Stores/Refinement.antt =====
-- The calls on both stores, and when a database holds what a MemoryStore holds: the relation
-- between `MemoryStore` (src/asterun/store.py) and `SqliteStore` (src/asterun/sqlite_store.py) with no hook.
pub mod Documents
pub mod Numbering
pub mod EventCalls
pub mod Keys
pub mod Conflicts
pub mod Replays
pub mod Commits
pub mod Updates
pub mod Steps
use asterun.Prelude.{
  ℕ, suc, String, Bool, true, false, Option, none, some, List, [], ◌∷◌, Dict, lookup, values, keep,
  ◌==◌, string_eq, pair_eq, ◌≡◌, Distinct,
}
use asterun.Prelude.Int.{ℤ, pos}
use asterun.Errors.{Result, ok, err}
use asterun.Errors.Exec.{Exec, Unit₀}
use asterun.Json.{Json, Python}
use asterun.Contracts.Tasks.{Task}
use asterun.Contracts.Tasks
use asterun.Contracts.Tasks.RoundTrip.{ValidTask}
use asterun.Contracts.Runs.{Run}
use asterun.Contracts.Runs
use asterun.Contracts.Runs.RoundTrip.{ValidRun}
use asterun.Contracts.Sessions.{SessionBinding}
use asterun.Contracts.Sessions
use asterun.Contracts.Sessions.RoundTrip.{ValidSessionBinding}
use asterun.Contracts.Approvals.{ApprovalRequest}
use asterun.Contracts.Approvals
use asterun.Contracts.Approvals.RoundTrip.{ValidApprovalRequest}
use asterun.Contracts.Operations.{Operation}
use asterun.Contracts.Operations.RoundTrip.{ValidOperation}
use asterun.Contracts.Events.{Event}
use asterun.Contracts.Events
use asterun.Stores.Memory.{MemoryStore, OperationKey, key_of, bucket, head, Intent, intend}
use asterun.Stores.Memory
use asterun.Stores.Sqlite.{SqliteStore, EventRow, Hooks}
use asterun.Stores.Sqlite
use asterun.Stores.Sqlite.Intents.{row_of, operation_of}
use asterun.Stores.Sqlite.Intents
use asterun.Stores.Mirrors.{Mirrors}

pub data Call : Type 0 where
  save_task : Task → Call
  get_task : String → Call
  save_run : Run → Call
  get_run : String → Call
  list_runs : String → Call
  save_approval : ApprovalRequest → Call
  get_approval : String → Call
  find_pending_approval : String → Call
  save_session : SessionBinding → Call
  get_session : String → Call
  find_session_by_native : String → String → Call
  append_event : String → Event → Call
  list_events : String → ℕ → ℕ → Call
  last_event_sequence : String → Call
  get_applied_revision : Call
  bootstrap_applied_revision : ℤ → Call
  cas_apply_revision : ℤ → ℤ → Call
  get_operation : String → Call
  find_operation_by_key : OperationKey → Call
  find_operation_for_run : String → Call
  save_operation : Operation → Call
  commit_intent : Operation → Task → Run → Option SessionBinding → Call

pub data Answer : Type 0 where
  done : Answer
  task : Task → Answer
  run : Run → Answer
  run_list : List Run → Answer
  approval : ApprovalRequest → Answer
  maybe_approval : Option ApprovalRequest → Answer
  session : SessionBinding → Answer
  maybe_session : Option SessionBinding → Answer
  event : Event → Answer
  event_list : List Event → Answer
  sequence : ℕ → Answer
  maybe_revision : Option ℤ → Answer
  revision : ℤ → Answer
  operation : Operation → Answer
  maybe_operation : Option Operation → Answer
  intent : Intent → Answer

abbrev pub map_result : {A B : Type 0} → (A → B) → Result A → Result B
map_result f (ok a) = ok (f a)
map_result f (err c) = err c

abbrev pub returns : {S A : Type 0} → (A → Answer) → Exec S A → Exec S Answer
returns f body s = let (r, s') = body s in (map_result f r, s')

abbrev pub just_done : Unit₀ → Answer
just_done u = done

-- the application sets no hook
abbrev pub no_hooks : Hooks
no_hooks = record { run_hook = none; quota_hook = none; intent_hook = none }

module _ (py : Python) (digest : Dict String Json → String) where
  abbrev pub in_memory : Call → Exec MemoryStore Answer
  in_memory (save_task t) = returns just_done (Memory.save_task t)
  in_memory (get_task id) = returns task (Memory.get_task id)
  in_memory (save_run r) = returns just_done (Memory.save_run r)
  in_memory (get_run id) = returns run (Memory.get_run id)
  in_memory (list_runs id) = λ m. (ok (run_list (Memory.list_runs id m)), m)
  in_memory (save_approval a) = returns just_done (Memory.save_approval a)
  in_memory (get_approval id) = returns approval (Memory.get_approval id)
  in_memory (find_pending_approval id) =
      λ m. (ok (maybe_approval (Memory.find_pending_approval id m)), m)
  in_memory (save_session b) = returns just_done (Memory.save_session b)
  in_memory (get_session id) = returns session (Memory.get_session id)
  in_memory (find_session_by_native backend native) =
      λ m. (ok (maybe_session (Memory.find_session_by_native backend native m)), m)
  in_memory (append_event id e) = returns event (Memory.append_event id e)
  in_memory (list_events id cursor size) =
      λ m. (ok (event_list (Memory.list_events id cursor size m)), m)
  in_memory (last_event_sequence id) = λ m. (ok (sequence (Memory.last_event_sequence id m)), m)
  in_memory get_applied_revision = λ m. (ok (maybe_revision (Memory.get_applied_revision m)), m)
  in_memory (bootstrap_applied_revision n) = returns revision (Memory.bootstrap_applied_revision n)
  in_memory (cas_apply_revision expected new) =
      returns revision (Memory.cas_apply_revision expected new)
  in_memory (get_operation id) = returns operation (Memory.get_operation id)
  in_memory (find_operation_by_key key) =
      λ m. (ok (maybe_operation (Memory.find_operation_by_key key m)), m)
  in_memory (find_operation_for_run id) =
      λ m. (ok (maybe_operation (Memory.find_operation_for_run id m)), m)
  in_memory (save_operation o) = returns just_done (Memory.save_operation o)
  in_memory (commit_intent o t r b) = returns intent (Memory.commit_intent py digest o t r b)

  abbrev pub in_database : Call → Exec SqliteStore Answer
  in_database (save_task t) = returns just_done (Sqlite.save_task t)
  in_database (get_task id) = returns task (Sqlite.get_task py id)
  in_database (save_run r) = returns just_done (Sqlite.save_run no_hooks r)
  in_database (get_run id) = returns run (Sqlite.get_run py id)
  in_database (list_runs id) = λ s. (map_result run_list (Sqlite.list_runs py id s), s)
  in_database (save_approval a) = returns just_done (Sqlite.save_approval a)
  in_database (get_approval id) = returns approval (Sqlite.get_approval py id)
  in_database (find_pending_approval id) =
      λ s. (map_result maybe_approval (Sqlite.find_pending_approval py id s), s)
  in_database (save_session b) = returns just_done (Sqlite.save_session b)
  in_database (get_session id) = returns session (Sqlite.get_session py id)
  in_database (find_session_by_native backend native) =
      λ s. (map_result maybe_session (Sqlite.find_session_by_native py backend native s), s)
  in_database (append_event id e) = returns event (Sqlite.append_event id e)
  in_database (list_events id cursor size) =
      λ s. (map_result event_list (Sqlite.list_events py id cursor size s), s)
  in_database (last_event_sequence id) = λ s. (ok (sequence (Sqlite.last_event_sequence id s)), s)
  in_database get_applied_revision = λ s. (ok (maybe_revision (Sqlite.get_applied_revision s)), s)
  in_database (bootstrap_applied_revision n) =
      returns revision (Sqlite.bootstrap_applied_revision n)
  in_database (cas_apply_revision expected new) =
      returns revision (Sqlite.cas_apply_revision expected new)
  in_database (get_operation id) = returns operation (Intents.get_operation py id)
  in_database (find_operation_by_key key) =
      λ s. (map_result maybe_operation (Intents.find_operation_by_key py key s), s)
  in_database (find_operation_for_run id) =
      λ s. (map_result maybe_operation (Intents.find_operation_for_run py id s), s)
  in_database (save_operation o) = returns just_done (Intents.save_operation o)
  in_database (commit_intent o t r b) =
      returns intent (Intents.commit_intent py digest no_hooks o t r b)

-- the rows that are written of a run's events
abbrev pub sequence_of : ℤ → ℕ
sequence_of (pos n) = n
sequence_of _ = 0

abbrev pub event_row : String → Event → EventRow
event_row id e = record { run_id = id; seq = sequence_of e.seq; payload = Events.to_dict e }

abbrev pub event_rows : String → List Event → List EventRow
event_rows id [] = []
event_rows id (e ∷ es) = event_row id e ∷ event_rows id es

abbrev pub of_run : String → EventRow → Bool
of_run id r = r.run_id == id

-- The events are numbered from the successor of `n` on.
abbrev pub Numbered : ℕ → List Event → Type 0
Numbered n [] = Unit
Numbered n (e ∷ es) = (e.seq ≡ pos (suc n)) × Numbered (suc n) es

abbrev pub has_key : OperationKey → Operation → Bool
has_key key o = key_of o == key

abbrev pub AgreesOnEvents : MemoryStore → SqliteStore → Type 0
AgreesOnEvents m s =
    (id : String)
    → (keep (of_run id) s.events ≡ event_rows id (bucket id m)) × Numbered 0 (bucket id m)

-- No two operations have the same idempotency key.
abbrev pub UniqueKeys : Dict String Operation → Type 0
UniqueKeys d =
    (k j : String) (p q : Operation)
    → lookup k d ≡ some p
    → lookup j d ≡ some q
    → key_of p ≡ key_of q
    → k ≡ j

-- A database that holds what the store in memory holds.
pub record Holds (py : Python) (m : MemoryStore) (s : SqliteStore) : Type 0 where
  pub tasks_held : Mirrors Tasks.to_dict (λ k. Tasks.from_dict py) m.tasks s.tasks
  pub runs_held : Mirrors Runs.to_dict (λ k. Runs.from_dict py) m.runs s.runs
  pub approvals_held :
      Mirrors Approvals.to_dict (λ k. Approvals.from_dict py) m.approvals s.approvals
  pub sessions_held : Mirrors Sessions.to_dict (λ k. Sessions.from_dict py) m.sessions s.sessions
  pub operations_held : Mirrors row_of (operation_of py) m.operations s.operations
  pub events_held : AgreesOnEvents m s
  pub revision_held : s.applied_config_revision ≡ m.applied_config_revision
  pub failure_held : s.fail_next_intent ≡ m.fail_next_intent
  pub ids_distinct : Distinct m.operations
  pub keys_held :
      (key : OperationKey)
      → lookup key m.ops_by_key ≡ head (keep (has_key key) (values m.operations))
  pub unique_held : UniqueKeys m.operations

abbrev pub ValidSession : Python → Option SessionBinding → Type 0
ValidSession py none = Unit
ValidSession py (some b) = ValidSessionBinding py b

-- What is asked of a call: what it saves reads back, a new intent has ids that no operation or run has,
-- and an operation is saved where it is stored, with the key, hash and time that it had.
abbrev pub Admits : Python → Call → MemoryStore → Type 0
Admits py (save_task t) m = ValidTask py t
Admits py (save_run r) m = ValidRun py r
Admits py (save_approval a) m = ValidApprovalRequest py a
Admits py (save_session b) m = ValidSessionBinding py b
Admits py (commit_intent o t r b) m =
    ValidOperation py (intend o t r)
    × ValidTask py t
    × ValidRun py r
    × ValidSession py b
    × (lookup o.id m.operations ≡ none)
    × (lookup r.id m.runs ≡ none)
Admits py (save_operation o) m =
    ValidOperation py o
    × ((p : Operation) × (lookup o.id m.operations ≡ some p)
        × (key_of p ≡ key_of o)
        × (p.input_hash ≡ o.input_hash)
        × (p.created_at ≡ o.created_at))
Admits py _ m = Unit

-- The same answer, and a database that still holds what is in memory.
abbrev pub SameStep : Python → Result Answer × MemoryStore → Result Answer × SqliteStore → Type 0
SameStep py x y = (y.0 ≡ x.0) × Holds py x.1 y.1
