-- ===== src/Stores/Sqlite/Intents.antt =====
-- The table `operations` of src/asterun/sqlite_store.py: `commit_intent`, `save_operation`, `get_operation`
-- and the searches.
use asterun.Prelude.{
  String, Bool, true, false, not, ◌||◌, Option, none, some, [], ◌∷◌, Dict, lookup, insert, ◌==◌,
  string_eq, pair_eq, if◌then◌else◌,
}
use asterun.Errors.{
  Code, Result, ok, err, not_found, integrity, idempotency_conflict, intent_persist_failed, ◌>>=◌,
}
use asterun.Errors.Exec.{
  Exec, Unit₀, pure, modify, raise, transaction, ◌>>=◌ as ◌>>>=◌, ◌>>◌ as ◌>>>◌,
}
use asterun.Json.{Json, string, Python, typed_id, optional_id, optional_string}
use asterun.Json.Entries.{is_absent}
use asterun.Contracts.Enums.{operation_status_text, operation_status_from}
use asterun.Contracts.Tasks.{Task}
use asterun.Contracts.Tasks
use asterun.Contracts.Runs.{Run}
use asterun.Contracts.Runs
use asterun.Contracts.Sessions.{SessionBinding}
use asterun.Contracts.Operations.{Operation}
use asterun.Stores.Memory.{OperationKey, key_of, intend, references, Intent}
use asterun.Stores.Sqlite.{
  OperationRow, SqliteStore, Hooks, get_task, get_run, save_session, find_pending_approval,
  last_event_sequence,
}
use asterun.Stores.Transition.{Reads, cas}

-- the columns that are written of an operation
abbrev pub row_of : Operation → OperationRow
row_of o = record {
  idempotency_key = o.idempotency_key;
  principal = o.principal;
  action = o.action;
  target = o.target;
  input_hash = o.input_hash;
  status = operation_status_text o.status;
  created_at = o.created_at;
  task_id = o.task_id;
  run_id = o.run_id;
}

-- the columns of the constraint UNIQUE
abbrev pub row_key : OperationRow → OperationKey
row_key r = (r.principal, (r.action, (r.target, r.idempotency_key)))

-- `SELECT id FROM operations WHERE ...`, the first row
unfoldable pub find_id : (OperationRow → Bool) → Dict String OperationRow → Option String
find_id test [] = none
find_id test ((id, r) ∷ rows) = if test r then some id else find_id test rows

abbrev pub row_has_key : OperationKey → OperationRow → Bool
row_has_key key r = row_key r == key

abbrev pub row_has_run : String → OperationRow → Bool
row_has_run run r = elim r.run_id [ none ↦ false | some id ↦ id == run ]

-- `UPDATE operations SET status=?, task_id=?, run_id=? WHERE id=?`
abbrev pub update_row : Operation → OperationRow → OperationRow
update_row o r = record r {
  status = operation_status_text o.status;
  task_id = o.task_id;
  run_id = o.run_id;
}

abbrev pub updated : Operation → Option OperationRow → SqliteStore → SqliteStore
updated o none s = s
updated o (some r) s = record s { operations = insert o.id (update_row o r) s.operations }

unfoldable pub save_operation : Operation → Exec SqliteStore Unit₀
save_operation o = modify (λ s. updated o (lookup o.id s.operations) s)

-- the three INSERT statements of a new intent, where an id or a key that is there breaks a constraint
abbrev pub insert_operation : Operation → Exec SqliteStore Unit₀
insert_operation o s =
    if not (is_absent (lookup o.id s.operations))
      || not (is_absent (find_id (row_has_key (key_of o)) s.operations))
    then (err integrity, s)
    else (ok tt, record s { operations = insert o.id (row_of o) s.operations })

abbrev pub upsert_task : Task → Exec SqliteStore Unit₀
upsert_task t = modify (λ s. record s { tasks = insert t.id (Tasks.to_dict t) s.tasks })

abbrev pub insert_run : Run → Exec SqliteStore Unit₀
insert_run r s =
    if is_absent (lookup r.id s.runs)
    then (ok tt, record s { runs = insert r.id (Runs.to_dict r) s.runs })
    else (err integrity, s)

abbrev pub save_some_session : Option SessionBinding → Exec SqliteStore Unit₀
save_some_session none = pure tt
save_some_session (some b) = save_session b

abbrev pub call_intent_hook :
    Option (Operation → Task → Run → Option SessionBinding → Exec SqliteStore Unit₀)
    → Operation
    → Task
    → Run
    → Option SessionBinding
    → Exec SqliteStore Unit₀
call_intent_hook none o t r session = pure tt
call_intent_hook (some hook) o t r session = hook o t r session

-- `except sqlite3.Error`
abbrev pub store_error : Code → Code
store_error integrity = intent_persist_failed
store_error c = c

abbrev pub as_store_error : {A : Type 0} → Result A × SqliteStore → Result A × SqliteStore
as_store_error (ok a, s) = (ok a, s)
as_store_error (err c, s) = (err (store_error c), s)

module _ (py : Python) where
  abbrev pub operation_of : String → OperationRow → Result Operation
  operation_of id r = do
    id' ← typed_id py (string id)
    status' ← operation_status_from (some (string r.status))
    task_id' ← optional_id py (some (optional_string r.task_id))
    run_id' ← optional_id py (some (optional_string r.run_id))
    ok (record {
      id = id';
      idempotency_key = r.idempotency_key;
      principal = r.principal;
      action = r.action;
      target = r.target;
      input_hash = r.input_hash;
      status = status';
      created_at = r.created_at;
      task_id = task_id';
      run_id = run_id';
    })

  abbrev pub read_operation : String → Option OperationRow → Result Operation
  read_operation id none = err not_found
  read_operation id (some r) = operation_of id r

  unfoldable pub get_operation : String → Exec SqliteStore Operation
  get_operation id s = (read_operation id (lookup id s.operations), s)

  -- the operation of a found row, if there is one
  abbrev pub found : Option String → SqliteStore → Result (Option Operation)
  found none s = ok none
  found (some id) s = do o ← read_operation id (lookup id s.operations); ok (some o)

  unfoldable pub find_operation_by_key : OperationKey → SqliteStore → Result (Option Operation)
  unfolding find_id
  find_operation_by_key key s = found (find_id (row_has_key key) s.operations) s

  abbrev pub find_idempotent_operation : Operation → SqliteStore → Result (Option Operation)
  find_idempotent_operation o s = find_operation_by_key (key_of o) s

  unfoldable pub find_operation_for_run : String → SqliteStore → Result (Option Operation)
  unfolding find_id
  find_operation_for_run run s = found (find_id (row_has_run run) s.operations) s

  abbrev pub reads : SqliteStore → Reads
  reads s = record {
    task = λ id. (get_task py id s).0;
    run = λ id. (get_run py id s).0;
    pending_approval = λ run. find_pending_approval py run s;
    operation_for_run = λ run. find_operation_for_run run s;
    event_sequence = λ run. last_event_sequence run s;
  }

  -- an intent that is there, with the task and the run that it names
  abbrev pub refer : Operation → Option (String × String) → Exec SqliteStore Intent
  refer o none = raise not_found
  refer o (some (t, r)) =
      get_task py t >>>= λ task. get_run py r >>>= λ run. pure (o, (task, (run, true)))

  -- the row that the first SELECT finds, compared by the hash of its input
  abbrev pub replay_row : String → Operation → Option OperationRow → Exec SqliteStore Intent
  replay_row id o none = raise not_found
  replay_row id o (some row) =
      if row.input_hash == o.input_hash
      then (get_operation id >>>= λ found. refer found (references found))
      else raise idempotency_conflict

  abbrev pub replay : String → Operation → Exec SqliteStore Intent
  replay id o s = replay_row id o (lookup id s.operations) s

module _ (py : Python) (digest : Dict String Json → String) (hooks : Hooks) where
  -- the writes of a new intent
  abbrev pub write_intent : Operation → Task → Run → Option SessionBinding → Exec SqliteStore Unit₀
  write_intent o t r session =
      insert_operation o
      >>> (upsert_task t
          >>> (insert_run r
              >>> (save_some_session session >>> call_intent_hook hooks.intent_hook o t r session)))

  abbrev pub commit_new : Operation → Task → Run → Option SessionBinding → Exec SqliteStore Intent
  commit_new o t r session =
      (λ s. (cas py digest (reads py s) t r, s))
      >>> (write_intent (intend o t r) t r session >>> pure (intend o t r, (t, (r, false))))

  -- the two branches, by the row that has the key
  abbrev pub commit_found :
      Option String → Operation → Task → Run → Option SessionBinding → Exec SqliteStore Intent
  commit_found none o t r session = commit_new o t r session
  commit_found (some id) o t r session = replay py id o

  -- the body of the transaction
  abbrev pub commit_key : Operation → Task → Run → Option SessionBinding → Exec SqliteStore Intent
  commit_key o t r session s =
      commit_found (find_id (row_has_key (key_of o)) s.operations) o t r session s

  unfoldable pub commit_intent :
      Operation → Task → Run → Option SessionBinding → Exec SqliteStore Intent
  unfolding find_id cas get_task get_run find_pending_approval find_operation_for_run
      last_event_sequence save_session transaction get_operation
  commit_intent o t r session s =
      if s.fail_next_intent
      then (err intent_persist_failed, record s { fail_next_intent = false })
      else as_store_error (transaction (commit_key o t r session) s)
