-- ===== src/Stores/Memory.antt =====
-- `MemoryStore` of src/asterun/store.py. The store holds the objects themselves; here they are
-- values, so a caller's change to an object is in the store only once it is saved.
use asterun.Prelude.{
  ℕ, suc, String, Bool, true, false, not, ◌&&◌, Option, none, some, List, [], ◌∷◌, ◌++◌, Dict,
  lookup, insert, values, keys, keep, length, take, ◌==◌, string_eq, pair_eq, if◌then◌else◌,
}
use asterun.Prelude.Int.{ℤ, pos, ltb_ℤ, eqb_ℤ}
use asterun.Errors.{
  Result, ok, err, not_found, revision_conflict, idempotency_conflict, intent_persist_failed,
}
use asterun.Errors.Exec.{Exec, Unit₀, pure, raise, lift, need, modify, raise_when, ◌>>=◌, ◌>>◌}
use asterun.Json.{Json, Python}
use asterun.Stores.Manifests.{with_manifest, typed_ids}
use asterun.Contracts.{OperationStatus}
use asterun.Contracts.Enums.{ApprovalState}
use asterun.Contracts.Tasks.{Task}
use asterun.Contracts.Runs.{Run}
use asterun.Contracts.Sessions.{SessionBinding}
use asterun.Contracts.Approvals.{ApprovalRequest}
use asterun.Contracts.Operations.{Operation}
use asterun.Contracts.Events.{Event}
use asterun.Stores.Transition.{Reads, cas}

abbrev pub OperationKey : Type 0
OperationKey = String × (String × (String × String))

pub record MemoryStore : Type 0 where
  pub tasks : Dict String Task
  pub runs : Dict String Run
  pub approvals : Dict String ApprovalRequest
  pub events : Dict String (List Event)
  pub operations : Dict String Operation
  pub sessions : Dict String SessionBinding
  pub ops_by_key : Dict OperationKey Operation
  pub applied_config_revision : Option ℤ
  pub checkpoint_blobs : Dict String (List ℕ)
  pub fail_next_intent : Bool

abbrev pub new_store : MemoryStore
new_store = record {
  tasks = [];
  runs = [];
  approvals = [];
  events = [];
  operations = [];
  sessions = [];
  ops_by_key = [];
  applied_config_revision = none;
  checkpoint_blobs = [];
  fail_next_intent = false;
}

unfoldable pub save_task : Task → Exec MemoryStore Unit₀
save_task t = modify (λ m. record m { tasks = insert t.id t m.tasks })

unfoldable pub get_task : String → Exec MemoryStore Task
get_task id m = need (lookup id m.tasks) not_found m

unfoldable pub save_run : Run → Exec MemoryStore Unit₀
save_run r = modify (λ m. record m { runs = insert r.id r m.runs })

unfoldable pub get_run : String → Exec MemoryStore Run
get_run id m = need (lookup id m.runs) not_found m

unfoldable pub list_runs : String → MemoryStore → List Run
list_runs task m = keep (λ r. r.task_id == task) (values m.runs)

unfoldable pub save_approval : ApprovalRequest → Exec MemoryStore Unit₀
save_approval a = modify (λ m. record m { approvals = insert a.id a m.approvals })

unfoldable pub get_approval : String → Exec MemoryStore ApprovalRequest
get_approval id m = need (lookup id m.approvals) not_found m

abbrev pub is_pending : ApprovalState → Bool
is_pending ApprovalState.pending = true
is_pending _ = false

-- the first of a list, if any
abbrev pub head {ℓ} : {A : Type ℓ} → List A → Option A
head [] = none
head (x ∷ xs) = some x

unfoldable pub find_pending_approval : String → MemoryStore → Option ApprovalRequest
find_pending_approval run m =
    head (keep (λ a. (a.run_id == run) && is_pending a.state) (values m.approvals))

abbrev pub bucket : String → MemoryStore → List Event
bucket run m = elim (lookup run m.events) [ none ↦ [] | some es ↦ es ]

abbrev pub numbered : ℕ → Event → Event
numbered n e = record e { seq = pos n }

unfoldable pub append_event : String → Event → Exec MemoryStore Event
append_event run e m =
    let e' = numbered (suc (length (bucket run m))) e in
    (ok e', record m { events = insert run (bucket run m ++ e' ∷ []) m.events })

-- `cursor` and `page_size` are not negative.
unfoldable pub list_events : String → ℕ → ℕ → MemoryStore → List Event
list_events run cursor page_size m =
    take page_size (keep (λ e. ltb_ℤ (pos cursor) e.seq) (bucket run m))

-- The run of the dictionary is copied before it is changed.
unfoldable pub save_payload_manifest : String → String → Json → Exec MemoryStore Unit₀
unfolding get_run save_run
save_payload_manifest run scope manifest = do
  held ← get_run run
  updated ← lift (with_manifest scope manifest held)
  save_run updated

module _ (py : Python) where
  unfoldable pub list_task_ids : MemoryStore → Result (List String)
  list_task_ids m = typed_ids py (keys m.tasks)

-- `_idempotency_key`
abbrev pub key_of : Operation → OperationKey
key_of o = (o.principal, (o.action, (o.target, o.idempotency_key)))

abbrev pub find_operation_by_key : OperationKey → MemoryStore → Option Operation
find_operation_by_key key m = lookup key m.ops_by_key

abbrev pub find_idempotent_operation : Operation → MemoryStore → Option Operation
find_idempotent_operation o m = find_operation_by_key (key_of o) m

unfoldable pub save_operation : Operation → Exec MemoryStore Unit₀
save_operation o = modify (λ m. record m {
  operations = insert o.id o m.operations;
  ops_by_key = insert (key_of o) o m.ops_by_key;
})

unfoldable pub get_operation : String → Exec MemoryStore Operation
get_operation id m = need (lookup id m.operations) not_found m

abbrev pub has_run : String → Operation → Bool
has_run run o = elim o.run_id [ none ↦ false | some r ↦ r == run ]

unfoldable pub find_operation_for_run : String → MemoryStore → Option Operation
find_operation_for_run run m = head (keep (has_run run) (values m.operations))

-- `events[-1].seq if events else 0`
abbrev pub last_of : ℕ → List Event → ℕ
last_of n [] = n
last_of n (e ∷ es) = last_of (elim e.seq [ pos k ↦ k | _ ↦ n ]) es

abbrev pub last_event_sequence : String → MemoryStore → ℕ
last_event_sequence run m = last_of 0 (bucket run m)

unfoldable pub get_applied_revision : MemoryStore → Option ℤ
get_applied_revision m = m.applied_config_revision

unfoldable pub bootstrap_applied_revision : ℤ → Exec MemoryStore ℤ
bootstrap_applied_revision revision m = elim m.applied_config_revision [
  | none ↦ (ok revision, record m { applied_config_revision = some revision })
  | some current ↦ (ok current, m)
]

unfoldable pub cas_apply_revision : ℤ → ℤ → Exec MemoryStore ℤ
cas_apply_revision expected new m = elim m.applied_config_revision [
  | none ↦ (err revision_conflict, m)
  | some current ↦
      if eqb_ℤ current expected
      then (ok new, record m { applied_config_revision = some new })
      else (err revision_conflict, m)
]

unfoldable pub save_session : SessionBinding → Exec MemoryStore Unit₀
save_session b = modify (λ m. record m { sessions = insert b.conversation_id b m.sessions })

unfoldable pub get_session : String → Exec MemoryStore SessionBinding
get_session id m = need (lookup id m.sessions) not_found m

abbrev pub is_native : String → String → SessionBinding → Bool
is_native backend native b =
    (b.backend == backend) && elim b.backend_session_id [ none ↦ false | some s ↦ s == native ]

unfoldable pub find_session_by_native : String → String → MemoryStore → Option SessionBinding
find_session_by_native backend native m = head (keep (is_native backend native) (values m.sessions))

-- the sessions of a commit
abbrev pub with_session :
    Option SessionBinding → Dict String SessionBinding → Dict String SessionBinding
with_session none sessions = sessions
with_session (some b) sessions = insert b.conversation_id b sessions

-- `operation.task_id = task.id` and the two assignments that follow
abbrev pub intend : Operation → Task → Run → Operation
intend o t r = record o {
  task_id = some t.id;
  run_id = some r.id;
  status = OperationStatus.intended;
}

-- What `commit_intent` returns: the operation, its task and run, and whether they were there.
abbrev pub Intent : Type 0
Intent = Operation × (Task × (Run × Bool))

unfoldable pub store_intent :
    Operation → Task → Run → Option SessionBinding → MemoryStore → MemoryStore
store_intent o t r session m = record m {
  operations = insert o.id o m.operations;
  ops_by_key = insert (key_of o) o m.ops_by_key;
  tasks = insert t.id t m.tasks;
  runs = insert r.id r m.runs;
  sessions = with_session session m.sessions;
}

-- the task and the run that an operation names
abbrev pub references : Operation → Option (String × String)
references o = elim o.task_id [
  | none ↦ none
  | some t ↦ elim o.run_id [ none ↦ none | some r ↦ some (t, r) ]
]

-- an intent that is there, with the task and the run that it names
abbrev pub refer : Operation → Option (String × String) → Exec MemoryStore Intent
refer o none = raise not_found
refer o (some (t, r)) = do task ← get_task t; run ← get_run r; pure (o, (task, (run, true)))

-- the branch of an intent that is there
unfoldable pub replay : Operation → Operation → Exec MemoryStore Intent
unfolding get_task get_run
replay existing o =
    raise_when (not (existing.input_hash == o.input_hash)) idempotency_conflict
    >> refer existing (references existing)

abbrev pub reads : MemoryStore → Reads
reads m = record {
  task = λ id. (get_task id m).0;
  run = λ id. (get_run id m).0;
  pending_approval = λ run. ok (find_pending_approval run m);
  operation_for_run = λ run. ok (find_operation_for_run run m);
  event_sequence = λ run. last_event_sequence run m;
}

module _ (py : Python) (digest : Dict String Json → String) where
  -- the branch of a new intent
  abbrev pub commit_new : Operation → Task → Run → Option SessionBinding → Exec MemoryStore Intent
  commit_new o t r session = do
    checked ← λ m. (cas py digest (reads m) t r, m)
    modify (store_intent (intend o t r) t r session)
    pure (intend o t r, (t, (r, false)))

  -- the two branches, by the operation that has the key
  abbrev pub commit_found :
      Option Operation → Operation → Task → Run → Option SessionBinding → Exec MemoryStore Intent
  commit_found none o t r session = commit_new o t r session
  commit_found (some existing) o t r session = replay existing o

  unfoldable pub commit_intent :
      Operation → Task → Run → Option SessionBinding → Exec MemoryStore Intent
  unfolding replay store_intent cas find_pending_approval find_operation_for_run
  commit_intent o t r session m =
      if m.fail_next_intent
      then (err intent_persist_failed, record m { fail_next_intent = false })
      else commit_found (lookup (key_of o) m.ops_by_key) o t r session m

-- `sha256` is hashlib's digest in hexadecimal.
module _ (sha256 : List ℕ → String) where
  unfoldable pub put_checkpoint_blob : List ℕ → Exec MemoryStore String
  put_checkpoint_blob content m = (
    ok (sha256 content),
    record m { checkpoint_blobs = insert (sha256 content) content m.checkpoint_blobs },
  )

  unfoldable pub get_checkpoint_blob : String → Exec MemoryStore (List ℕ)
  get_checkpoint_blob digest m = elim (lookup digest m.checkpoint_blobs) [
    | none ↦ (err not_found, m)
    | some content ↦ if sha256 content == digest then (ok content, m) else (err not_found, m)
  ]
