-- ===== src/Stores/Refinement/Steps.antt =====
-- Every call, and every sequence of calls, on the two stores.
use asterun.Prelude.{String, false, none, List, [], ◌∷◌, Dict, lookup, ◌≡◌, refl, ap}
use asterun.Errors.{Result, ok}
use asterun.Json.{Json, Python}
use asterun.Stores.Memory.{MemoryStore, new_store}
use asterun.Stores.Memory
use asterun.Stores.Sqlite.{SqliteStore}
use asterun.Stores.Sqlite
use asterun.Stores.Sqlite.Intents
use asterun.Control.Db.{Db}
use asterun.Stores.Refinement.{
  Call, Answer, in_memory, in_database, Holds, Admits, SameStep, map_result, save_task, get_task,
  save_run, get_run, list_runs, save_approval, get_approval, find_pending_approval, save_session,
  get_session, find_session_by_native, append_event, list_events, last_event_sequence,
  get_applied_revision, bootstrap_applied_revision, cas_apply_revision, get_operation,
  find_operation_by_key, find_operation_for_run, save_operation, commit_intent, maybe_approval,
  maybe_session, maybe_operation, maybe_revision, run_list, event_list, sequence, operation, intent,
}
use asterun.Stores.Refinement.Documents.{
  save_task-SameStep, get_task-SameStep, save_run-SameStep, get_run-SameStep, list_runs-ok,
  save_approval-SameStep, get_approval-SameStep, find_pending_approval-ok, save_session-SameStep,
  get_session-SameStep, find_session_by_native-ok, bootstrap_applied_revision-SameStep,
  cas_apply_revision-SameStep, need-SameStep,
}
use asterun.Stores.Refinement.EventCalls.{
  append_event-SameStep, list_events-ok, last_event_sequence-eq,
}
use asterun.Stores.Refinement.Keys.{
  find_operation_by_key-ok, find_operation_for_run-ok, read_operation-eq,
}
use asterun.Stores.Refinement.Updates.{save_operation-SameStep}
use asterun.Stores.Refinement.Commits.{commit_intent-SameResult}

-- a database with no row but those of the control store
abbrev pub new_database : Db → SqliteStore
new_database control = record {
  tasks = [];
  runs = [];
  approvals = [];
  sessions = [];
  operations = [];
  events = [];
  applied_config_revision = none;
  fail_next_intent = false;
  control = control;
}

module _ (py : Python) (digest : Dict String Json → String) where
  -- One call: the database answers as the store in memory does, and holds what that one then holds.
  pub in_database-SameStep :
      (c : Call) (m : MemoryStore) (s : SqliteStore)
      → Holds py m s
      → Admits py c m
      → SameStep py (in_memory py digest c m) (in_database py digest c s)
  unfolding Memory.get_applied_revision Sqlite.get_applied_revision Memory.get_operation
      Intents.get_operation
  in_database-SameStep (save_task t) m s h a = save_task-SameStep py digest m s h t a
  in_database-SameStep (get_task id) m s h a = get_task-SameStep py digest m s h id
  in_database-SameStep (save_run r) m s h a = save_run-SameStep py digest m s h r a
  in_database-SameStep (get_run id) m s h a = get_run-SameStep py digest m s h id
  in_database-SameStep (list_runs id) m s h a =
      (ap (map_result run_list) (list_runs-ok py digest m s h id), h)
  in_database-SameStep (save_approval x) m s h a = save_approval-SameStep py digest m s h x a
  in_database-SameStep (get_approval id) m s h a = get_approval-SameStep py digest m s h id
  in_database-SameStep (find_pending_approval id) m s h a =
      (ap (map_result maybe_approval) (find_pending_approval-ok py digest m s h id), h)
  in_database-SameStep (save_session b) m s h a = save_session-SameStep py digest m s h b a
  in_database-SameStep (get_session id) m s h a = get_session-SameStep py digest m s h id
  in_database-SameStep (find_session_by_native backend native) m s h a =
      (ap (map_result maybe_session) (find_session_by_native-ok py digest m s h backend native), h)
  in_database-SameStep (append_event id e) m s h a = append_event-SameStep py m s h digest id e
  in_database-SameStep (list_events id cursor size) m s h a =
      (ap (map_result event_list) (list_events-ok py m s h id cursor size), h)
  in_database-SameStep (last_event_sequence id) m s h a =
      (ap (λ n. ok (sequence n)) (last_event_sequence-eq py m s h id), h)
  in_database-SameStep get_applied_revision m s h a =
      (ap (λ n. ok (maybe_revision n)) h.revision_held, h)
  in_database-SameStep (bootstrap_applied_revision n) m s h a =
      bootstrap_applied_revision-SameStep py digest m s h n
  in_database-SameStep (cas_apply_revision expected n) m s h a =
      cas_apply_revision-SameStep py digest m s h expected n
  in_database-SameStep (get_operation id) m s h a =
      need-SameStep py digest m s h operation _ _ (read_operation-eq py m s h id)
  in_database-SameStep (find_operation_by_key key) m s h a =
      (ap (map_result maybe_operation) (find_operation_by_key-ok py m s h key), h)
  in_database-SameStep (find_operation_for_run id) m s h a =
      (ap (map_result maybe_operation) (find_operation_for_run-ok py m s h id), h)
  in_database-SameStep (save_operation o) m s h a = save_operation-SameStep py m s h digest o a
  in_database-SameStep (commit_intent o t r b) m s h a =
      let (same, held) = commit_intent-SameResult py m s h o t r b digest a in
      (ap (map_result intent) same, held)

  -- the answers of a sequence of calls
  abbrev pub all_in_memory : List Call → MemoryStore → List (Result Answer) × MemoryStore
  all_in_memory [] m = ([], m)
  all_in_memory (c ∷ cs) m =
      let (r, m') = in_memory py digest c m in let (rs, m'') = all_in_memory cs m' in (r ∷ rs, m'')

  abbrev pub all_in_database : List Call → SqliteStore → List (Result Answer) × SqliteStore
  all_in_database [] s = ([], s)
  all_in_database (c ∷ cs) s =
      let (r, s') = in_database py digest c s in
      let (rs, s'') = all_in_database cs s' in (r ∷ rs, s'')

  -- Each call of the sequence is admitted in the state that it meets.
  abbrev pub AllAdmitted : List Call → MemoryStore → Type 0
  AllAdmitted [] m = Unit
  AllAdmitted (c ∷ cs) m = Admits py c m × AllAdmitted cs (in_memory py digest c m).1

  all_calls-Holds :
      (cs : List Call) (m : MemoryStore) (s : SqliteStore)
      → Holds py m s
      → AllAdmitted cs m
      → ((all_in_database cs s).0 ≡ (all_in_memory cs m).0)
        × Holds py (all_in_memory cs m).1 (all_in_database cs s).1
  all_calls-Holds [] m s h a = (refl, h)
  all_calls-Holds (c ∷ cs) m s h a =
      let (same, held) = in_database-SameStep c m s h a.0 in
      let (rest, last) =
        all_calls-Holds cs (in_memory py digest c m).1 (in_database py digest c s).1 held a.1 in
      ((rw (same, rest) refl), last)

  new_database-Holds : (control : Db) → Holds py new_store (new_database control)
  unfolding lookup
  new_database-Holds control = record {
    tasks_held = record { copied = refl; readable = tt };
    runs_held = record { copied = refl; readable = tt };
    approvals_held = record { copied = refl; readable = tt };
    sessions_held = record { copied = refl; readable = tt };
    operations_held = record { copied = refl; readable = tt };
    events_held = λ id. (refl, tt);
    revision_held = refl;
    failure_held = refl;
    ids_distinct = tt;
    keys_held = λ key. refl;
    unique_held = λ k j p q e. absurd cc;
  }

  -- A new database with no hook answers every sequence of admitted calls, `list_task_ids` not among
  -- them, as a new MemoryStore does, errors included. Admitted is a call whose saved values read back, a new intent with an operation and a run
  -- whose ids are not stored, and the saving of an operation that is stored with its key, input hash and time.
  pub all_in_database-in_memory :
      (cs : List Call) (control : Db)
      → AllAdmitted cs new_store
      → (all_in_database cs (new_database control)).0 ≡ (all_in_memory cs new_store).0
  all_in_database-in_memory cs control a =
      (all_calls-Holds cs new_store (new_database control) (new_database-Holds control) a).0
