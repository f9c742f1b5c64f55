-- ===== src/Stores/Refinement/Documents.antt =====
-- The calls on tasks, runs, approvals, sessions and the applied revision: both stores answer alike.
use asterun.Prelude.{
  String, Option, none, some, Dict, lookup, ◌==◌, string_eq, pair_eq, ◌≡◌, refl, ap, Option-cases,
  Bool-cases, inl, inr, ◌&&◌,
}
use asterun.Prelude.Int.{ℤ, eqb_ℤ}
use asterun.Errors.{Result, ok, not_found}
use asterun.Errors.Exec.{need, transaction}
use asterun.Json.{Json, Python}
use asterun.Contracts.Tasks.{Task}
use asterun.Contracts.Tasks
use asterun.Contracts.Tasks.RoundTrip.{ValidTask, task_from_dict-to_dict}
use asterun.Contracts.Runs.{Run}
use asterun.Contracts.Runs
use asterun.Contracts.Runs.RoundTrip.{ValidRun, run_from_dict-to_dict}
use asterun.Contracts.Sessions.{SessionBinding}
use asterun.Contracts.Sessions
use asterun.Contracts.Sessions.RoundTrip.{ValidSessionBinding, session_binding_from_dict-to_dict}
use asterun.Contracts.Approvals.{ApprovalRequest}
use asterun.Contracts.Approvals
use asterun.Contracts.Approvals.RoundTrip.{ValidApprovalRequest, approval_request_from_dict-to_dict}
use asterun.Stores.Memory.{MemoryStore, is_pending, is_native, head}
use asterun.Stores.Memory
use asterun.Stores.Sqlite.{SqliteStore, Document, read_row, is_of_task}
use asterun.Stores.Sqlite
use asterun.Stores.Mirrors.{
  Mirrors, Mirrors-insert, Mirrors-first_match, Mirrors-read_all, lookup-map_values,
  Readable-lookup,
}
use asterun.Stores.Refinement.{
  Answer, task, run, approval, session, returns, in_memory, in_database, Holds, SameStep,
  map_result, save_task, get_task, save_run, get_run, save_approval, get_approval, save_session,
  get_session, bootstrap_applied_revision, cas_apply_revision,
}

-- A row is read as the value in memory, or is not there where there is none.
pub read_row-Mirrors :
    {S A : Type 0} (state : S) (enc : A → Document) (from : Document → Result A) (id : String)
    (m : Dict String A) (d : Dict String Document)
    → Mirrors enc (λ k. from) m d
    → read_row from (lookup id d) ≡ (need (lookup id m) not_found state).0
read_row-Mirrors state enc from id m d h =
    rw (h.copied, lookup-map_values enc id m)
      (elim (Option-cases (lookup id m)) [
        | inl e ↦ rw e refl
        | inr (a, e) ↦ rw e (Readable-lookup enc (λ k. from) id a m h.readable e)
      ])

module _ (py : Python) (digest : Dict String Json → String) (m : MemoryStore) (s : SqliteStore)
    (h : Holds py m s) where
  -- a call that only reads one value
  pub need-SameStep :
      {A : Type 0} (f : A → Answer) (o : Option A) (r : Result A)
      → r ≡ (need o not_found m).0
      → SameStep py (returns f (need o not_found) m) (map_result f r, s)
  need-SameStep f none r e = (ap (map_result f) e, h)
  need-SameStep f (some a) r e = (ap (map_result f) e, h)

  pub save_task-SameStep :
      (t : Task)
      → ValidTask py t
      → SameStep py (in_memory py digest (save_task t) m) (in_database py digest (save_task t) s)
  unfolding Memory.save_task Sqlite.save_task
  save_task-SameStep t valid = (
    refl,
    record {
      tasks_held =
          Mirrors-insert Tasks.to_dict (λ k. Tasks.from_dict py) t.id t m.tasks s.tasks
            (task_from_dict-to_dict py t valid) h.tasks_held;
      runs_held = h.runs_held;
      approvals_held = h.approvals_held;
      sessions_held = h.sessions_held;
      operations_held = h.operations_held;
      events_held = h.events_held;
      revision_held = h.revision_held;
      failure_held = h.failure_held;
      ids_distinct = h.ids_distinct;
      keys_held = h.keys_held;
      unique_held = h.unique_held;
    },
  )

  pub get_task-SameStep :
      (id : String)
      → SameStep py (in_memory py digest (get_task id) m) (in_database py digest (get_task id) s)
  unfolding Memory.get_task Sqlite.get_task
  get_task-SameStep id =
      need-SameStep task (lookup id m.tasks) (read_row (Tasks.from_dict py) (lookup id s.tasks))
        (read_row-Mirrors m Tasks.to_dict (Tasks.from_dict py) id m.tasks s.tasks h.tasks_held)

  pub save_run-SameStep :
      (r : Run)
      → ValidRun py r
      → SameStep py (in_memory py digest (save_run r) m) (in_database py digest (save_run r) s)
  unfolding Memory.save_run Sqlite.save_run transaction
  save_run-SameStep r valid = (
    refl,
    record {
      tasks_held = h.tasks_held;
      runs_held =
          Mirrors-insert Runs.to_dict (λ k. Runs.from_dict py) r.id r m.runs s.runs
            (run_from_dict-to_dict py r valid) h.runs_held;
      approvals_held = h.approvals_held;
      sessions_held = h.sessions_held;
      operations_held = h.operations_held;
      events_held = h.events_held;
      revision_held = h.revision_held;
      failure_held = h.failure_held;
      ids_distinct = h.ids_distinct;
      keys_held = h.keys_held;
      unique_held = h.unique_held;
    },
  )

  pub get_run-SameStep :
      (id : String)
      → SameStep py (in_memory py digest (get_run id) m) (in_database py digest (get_run id) s)
  unfolding Memory.get_run Sqlite.get_run
  get_run-SameStep id =
      need-SameStep run (lookup id m.runs) (read_row (Runs.from_dict py) (lookup id s.runs))
        (read_row-Mirrors m Runs.to_dict (Runs.from_dict py) id m.runs s.runs h.runs_held)

  pub save_approval-SameStep :
      (a : ApprovalRequest)
      → ValidApprovalRequest py a
      → SameStep py
          (in_memory py digest (save_approval a) m)
          (in_database py digest (save_approval a) s)
  unfolding Memory.save_approval Sqlite.save_approval
  save_approval-SameStep a valid = (
    refl,
    record {
      tasks_held = h.tasks_held;
      runs_held = h.runs_held;
      approvals_held =
          Mirrors-insert Approvals.to_dict (λ k. Approvals.from_dict py) a.id a m.approvals
            s.approvals (approval_request_from_dict-to_dict py a valid) h.approvals_held;
      sessions_held = h.sessions_held;
      operations_held = h.operations_held;
      events_held = h.events_held;
      revision_held = h.revision_held;
      failure_held = h.failure_held;
      ids_distinct = h.ids_distinct;
      keys_held = h.keys_held;
      unique_held = h.unique_held;
    },
  )

  pub get_approval-SameStep :
      (id : String)
      → SameStep py
          (in_memory py digest (get_approval id) m)
          (in_database py digest (get_approval id) s)
  unfolding Memory.get_approval Sqlite.get_approval
  get_approval-SameStep id =
      need-SameStep approval (lookup id m.approvals)
        (read_row (Approvals.from_dict py) (lookup id s.approvals))
        (read_row-Mirrors m Approvals.to_dict (Approvals.from_dict py) id m.approvals s.approvals
          h.approvals_held)

  pub save_session-SameStep :
      (b : SessionBinding)
      → ValidSessionBinding py b
      → SameStep py
          (in_memory py digest (save_session b) m)
          (in_database py digest (save_session b) s)
  unfolding Memory.save_session Sqlite.save_session
  save_session-SameStep b valid = (
    refl,
    record {
      tasks_held = h.tasks_held;
      runs_held = h.runs_held;
      approvals_held = h.approvals_held;
      sessions_held =
          Mirrors-insert Sessions.to_dict (λ k. Sessions.from_dict py) b.conversation_id b
            m.sessions s.sessions (session_binding_from_dict-to_dict py b valid) h.sessions_held;
      operations_held = h.operations_held;
      events_held = h.events_held;
      revision_held = h.revision_held;
      failure_held = h.failure_held;
      ids_distinct = h.ids_distinct;
      keys_held = h.keys_held;
      unique_held = h.unique_held;
    },
  )

  pub get_session-SameStep :
      (id : String)
      → SameStep py
          (in_memory py digest (get_session id) m)
          (in_database py digest (get_session id) s)
  unfolding Memory.get_session Sqlite.get_session
  get_session-SameStep id =
      need-SameStep session (lookup id m.sessions)
        (read_row (Sessions.from_dict py) (lookup id s.sessions))
        (read_row-Mirrors m Sessions.to_dict (Sessions.from_dict py) id m.sessions s.sessions
          h.sessions_held)

  pub find_pending_approval-ok :
      (id : String) → Sqlite.find_pending_approval py id s ≡ ok (Memory.find_pending_approval id m)
  unfolding Memory.find_pending_approval Sqlite.find_pending_approval
  find_pending_approval-ok id =
      Mirrors-first_match Approvals.to_dict (Approvals.from_dict py)
        (λ a. (a.run_id == id) && is_pending a.state) m.approvals s.approvals h.approvals_held

  pub find_session_by_native-ok :
      (backend native : String)
      → Sqlite.find_session_by_native py backend native s
        ≡ ok (Memory.find_session_by_native backend native m)
  unfolding Memory.find_session_by_native Sqlite.find_session_by_native
  find_session_by_native-ok backend native =
      Mirrors-first_match Sessions.to_dict (Sessions.from_dict py) (is_native backend native)
        m.sessions s.sessions h.sessions_held

  pub list_runs-ok : (id : String) → Sqlite.list_runs py id s ≡ ok (Memory.list_runs id m)
  unfolding Memory.list_runs Sqlite.list_runs is_of_task lookup
  list_runs-ok id =
      Mirrors-read_all Runs.to_dict (Runs.from_dict py) (is_of_task id) (λ r. r.task_id == id)
        m.runs s.runs (λ r. refl) h.runs_held

  with_revision :
      (n : Option ℤ)
      → Holds py
          (record m { applied_config_revision = n })
          (record s { applied_config_revision = n })
  with_revision n = record {
    tasks_held = h.tasks_held;
    runs_held = h.runs_held;
    approvals_held = h.approvals_held;
    sessions_held = h.sessions_held;
    operations_held = h.operations_held;
    events_held = h.events_held;
    revision_held = refl;
    failure_held = h.failure_held;
    ids_distinct = h.ids_distinct;
    keys_held = h.keys_held;
    unique_held = h.unique_held;
  }

  pub bootstrap_applied_revision-SameStep :
      (n : ℤ)
      → SameStep py
          (in_memory py digest (bootstrap_applied_revision n) m)
          (in_database py digest (bootstrap_applied_revision n) s)
  unfolding Memory.bootstrap_applied_revision Sqlite.bootstrap_applied_revision
      Sqlite.get_applied_revision
  bootstrap_applied_revision-SameStep n = elim (Option-cases m.applied_config_revision) [
    | inl e ↦ rw (h.revision_held, e) (refl, with_revision (some n))
    | inr (current, e) ↦ rw (h.revision_held, e) (refl, with_revision (some current))
  ]

  pub cas_apply_revision-SameStep :
      (expected n : ℤ)
      → SameStep py
          (in_memory py digest (cas_apply_revision expected n) m)
          (in_database py digest (cas_apply_revision expected n) s)
  unfolding Memory.cas_apply_revision Sqlite.cas_apply_revision Sqlite.get_applied_revision
      transaction
  cas_apply_revision-SameStep expected n = elim (Option-cases m.applied_config_revision) [
    | inl e ↦ rw (h.revision_held, e) (refl, with_revision none)
    | inr (current, e) ↦
        rw (h.revision_held, e)
          (elim (Bool-cases (eqb_ℤ current expected)) [
            | inl same ↦ rw same (refl, with_revision (some n))
            | inr other ↦ rw other (refl, with_revision (some current))
          ])
  ]
