-- ===== src/Stores/Sqlite.antt =====
-- `SqliteStore` of src/asterun/sqlite_store.py: its tables, documents, events and the applied revision;
-- Stores/Sqlite/Intents is about the operations. A column `payload` holds the document that
-- `_json_dump` writes and `_json_load` reads. The connection's errors are those of its constraints.
pub mod Intents
use asterun.Prelude.{
  ℕ, suc, String, Bool, true, false, Option, none, some, List, [], ◌∷◌, ◌++◌, Dict, lookup, insert,
  values, keys, keep, take, ltb, leb, ◌==◌, string_eq, pair_eq, if◌then◌else◌, ◌&&◌,
}
use asterun.Prelude.Int.{ℤ, pos, eqb_ℤ}
use asterun.Errors.{Code, Result, ok, err, not_found, revision_conflict, type_error, ◌>>=◌}
use asterun.Errors.Exec.{
  Exec, Unit₀, pure, raise, lift, gets, need, modify, transaction, ◌>>=◌ as ◌>>>=◌, ◌>>◌ as ◌>>>◌,
}
use asterun.Json.{Json, string, object, Fields, no_fields, field, Python, typed_id, get_field}
use asterun.Contracts.Tasks.{Task}
use asterun.Contracts.Tasks
use asterun.Contracts.Runs.{Run}
use asterun.Contracts.Runs
use asterun.Contracts.Sessions.{SessionBinding}
use asterun.Contracts.Sessions
use asterun.Contracts.Approvals.{ApprovalRequest}
use asterun.Contracts.Approvals
use asterun.Contracts.Operations.{Operation}
use asterun.Contracts.Events.{Event}
use asterun.Contracts.Events
use asterun.Control.Db.{Db}
use asterun.Control.Entities.{put_blob, get_blob}
use asterun.Stores.Memory.{is_pending, is_native, numbered}
use asterun.Stores.Manifests.{with_manifest}

abbrev pub Document : Type 0
Document = Dict String Json

-- a row of `operations` without its key, the id
pub record OperationRow : Type 0 where
  pub idempotency_key : String
  pub principal : String
  pub action : String
  pub target : String
  pub input_hash : String
  pub status : String
  pub created_at : String
  pub task_id : Option String
  pub run_id : Option String

pub record EventRow : Type 0 where
  pub run_id : String
  pub seq : ℕ
  pub payload : Document

-- `control` holds the tables of control_store.py in the same database.
pub record SqliteStore : Type 0 where
  pub tasks : Dict String Document
  pub runs : Dict String Document
  pub approvals : Dict String Document
  pub sessions : Dict String Document
  pub operations : Dict String OperationRow
  pub events : List EventRow
  pub applied_config_revision : Option ℤ
  pub fail_next_intent : Bool
  pub control : Db

-- the attributes that the application sets to be called inside a write
pub record Hooks : Type 0 where
  pub run_hook : Option (Run → Exec SqliteStore Unit₀)
  pub quota_hook : Option (Run → Exec SqliteStore Unit₀)
  pub intent_hook : Option (Operation → Task → Run → Option SessionBinding → Exec SqliteStore Unit₀)

-- `if self.run_hook is not None: self.run_hook(run)`
abbrev pub call_hook : Option (Run → Exec SqliteStore Unit₀) → Run → Exec SqliteStore Unit₀
call_hook none r = pure tt
call_hook (some hook) r = hook r

-- a row of `_get`, read by the contract's `from_dict`
abbrev pub read_row : {A : Type 0} → (Document → Result A) → Option Document → Result A
read_row from none = err not_found
read_row from (some document) = from document

-- `for row in rows: ... if test: return item`
abbrev pub first_match :
    {A : Type 0} → (Document → Result A) → (A → Bool) → List Document → Result (Option A)
first_match from test [] = ok none
first_match from test (d ∷ ds) = do
  a ← from d
  elim (test a) [ true ↦ ok (some a) | false ↦ first_match from test ds ]

-- `[from_dict(row) for row in rows]`
abbrev pub read_all : {A : Type 0} → (Document → Result A) → List Document → Result (List A)
read_all from [] = ok []
read_all from (d ∷ ds) = do a ← from d; rest ← read_all from ds; ok (a ∷ rest)

-- `json_extract(payload, '$.task_id') = ?`
unfoldable pub is_of_task : String → Document → Bool
unfolding lookup
is_of_task task d = elim (lookup "task_id" d) [
  | none ↦ false
  | some v ↦ elim v [ string s ↦ s == task | _ ↦ false ]
]

-- `SELECT COALESCE(MAX(seq), 0) FROM events WHERE run_id=?`
abbrev pub max_sequence : String → List EventRow → ℕ
max_sequence run [] = 0
max_sequence run (r ∷ rs) =
    let rest = max_sequence run rs in
    if r.run_id == run then (if ltb rest r.seq then r.seq else rest) else rest

-- ORDER BY seq
abbrev pub insert_row : EventRow → List EventRow → List EventRow
insert_row r [] = r ∷ []
insert_row r (s ∷ rs) =
    let rest = insert_row r rs in if leb r.seq s.seq then r ∷ s ∷ rs else s ∷ rest

abbrev pub by_seq : List EventRow → List EventRow
by_seq [] = []
by_seq (r ∷ rs) = insert_row r (by_seq rs)

abbrev pub after : String → ℕ → EventRow → Bool
after run cursor r = (r.run_id == run) && ltb cursor r.seq

abbrev pub payloads : List EventRow → List Document
payloads [] = []
payloads (r ∷ rs) = r.payload ∷ payloads rs

unfoldable pub save_task : Task → Exec SqliteStore Unit₀
save_task t = modify (λ s. record s { tasks = insert t.id (Tasks.to_dict t) s.tasks })

unfoldable pub save_approval : ApprovalRequest → Exec SqliteStore Unit₀
save_approval a =
    modify (λ s. record s { approvals = insert a.id (Approvals.to_dict a) s.approvals })

unfoldable pub save_session : SessionBinding → Exec SqliteStore Unit₀
save_session b =
    modify (λ s. record s { sessions = insert b.conversation_id (Sessions.to_dict b) s.sessions })

unfoldable pub last_event_sequence : String → SqliteStore → ℕ
last_event_sequence run s = max_sequence run s.events

unfoldable pub append_event : String → Event → Exec SqliteStore Event
append_event run e s =
    let e' = numbered (suc (max_sequence run s.events)) e in
    (
      ok e',
      record s {
        events =
            s.events
            ++ record {
              run_id = run;
              seq = suc (max_sequence run s.events);
              payload = Events.to_dict e';
            }
              ∷ [];
      },
    )

unfoldable pub get_applied_revision : SqliteStore → Option ℤ
get_applied_revision s = s.applied_config_revision

unfoldable pub bootstrap_applied_revision : ℤ → Exec SqliteStore ℤ
unfolding get_applied_revision
bootstrap_applied_revision revision s = elim (get_applied_revision s) [
  | none ↦ (ok revision, record s { applied_config_revision = some revision })
  | some current ↦ (ok current, s)
]

-- BEGIN to COMMIT or ROLLBACK
unfoldable pub cas_apply_revision : ℤ → ℤ → Exec SqliteStore ℤ
unfolding get_applied_revision transaction
cas_apply_revision expected new = transaction (λ s. elim (get_applied_revision s) [
  | none ↦ (err revision_conflict, s)
  | some current ↦ elim (eqb_ℤ current expected) [
    | false ↦ (err revision_conflict, s)
    | true ↦ (ok new, record s { applied_config_revision = some new })
  ]
])

module _ (py : Python) where
  unfoldable pub get_task : String → Exec SqliteStore Task
  get_task id s = (read_row (Tasks.from_dict py) (lookup id s.tasks), s)

  unfoldable pub get_run : String → Exec SqliteStore Run
  get_run id s = (read_row (Runs.from_dict py) (lookup id s.runs), s)

  unfoldable pub get_approval : String → Exec SqliteStore ApprovalRequest
  get_approval id s = (read_row (Approvals.from_dict py) (lookup id s.approvals), s)

  unfoldable pub get_session : String → Exec SqliteStore SessionBinding
  get_session id s = (read_row (Sessions.from_dict py) (lookup id s.sessions), s)

  unfoldable pub find_pending_approval : String → SqliteStore → Result (Option ApprovalRequest)
  find_pending_approval run s =
      first_match (Approvals.from_dict py) (λ a. (a.run_id == run) && is_pending a.state)
        (values s.approvals)

  unfoldable pub find_session_by_native :
      String → String → SqliteStore → Result (Option SessionBinding)
  find_session_by_native backend native s =
      first_match (Sessions.from_dict py) (is_native backend native) (values s.sessions)

  unfoldable pub list_runs : String → SqliteStore → Result (List Run)
  list_runs task s = read_all (Runs.from_dict py) (keep (is_of_task task) (values s.runs))

  unfoldable pub list_events : String → ℕ → ℕ → SqliteStore → Result (List Event)
  list_events run cursor page_size s =
      read_all (Events.from_dict py)
        (payloads (take page_size (by_seq (keep (after run cursor) s.events))))

module _ (hooks : Hooks) where
  abbrev pub upsert_run : Run → Exec SqliteStore Unit₀
  upsert_run r = modify (λ s. record s { runs = insert r.id (Runs.to_dict r) s.runs })

  unfoldable pub save_run : Run → Exec SqliteStore Unit₀
  unfolding transaction
  save_run r =
      transaction (upsert_run r >>> (call_hook hooks.run_hook r >>> call_hook hooks.quota_hook r))

module _ (py : Python) (hooks : Hooks) where
  unfoldable pub save_payload_manifest : String → String → Json → Exec SqliteStore Unit₀
  unfolding transaction get_run save_run
  save_payload_manifest run scope manifest =
      transaction
        (get_run py run >>>= λ r. lift (with_manifest scope manifest r) >>>= save_run hooks)

-- The checkpoints are blobs of the control store, in a namespace of their own.
module _ (sha256 : List ℕ → String) where
  abbrev pub in_control : {A : Type 0} → Exec Db A → Exec SqliteStore A
  in_control body s = let (r, db) = body s.control in (r, record s { control = db })

  unfoldable pub put_checkpoint_blob : List ℕ → Exec SqliteStore String
  put_checkpoint_blob content = in_control (put_blob sha256 "asterun_checkpoint_v1" content)

  unfoldable pub get_checkpoint_blob : String → Exec SqliteStore (List ℕ)
  get_checkpoint_blob digest = in_control (get_blob sha256 "asterun_checkpoint_v1" digest)
