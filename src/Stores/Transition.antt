-- ===== src/Stores/Transition.antt =====
-- `cas` of src/asterun/context_transition.py and `state` of src/asterun/handoff.py: a run that switches
-- contexts is committed only while its source task and run are as they were.
use asterun.Prelude.{ℕ, String, Bool, true, false, not, Option, none, some, Dict, remove, string_eq}
use asterun.Prelude.Int.{pos}
use asterun.Errors.{Result, ok, err, ◌>>=◌, type_error, revision_conflict}
use asterun.Errors.Exec.{Unit₀}
use asterun.Json.{
  Json, null, integer, string, object, Fields, no_fields, field, Python, truthy, raw, required,
  get_field, pop_field, typed_id,
}
use asterun.Contracts.Enums.{operation_status_text}
use asterun.Contracts.Tasks.{Task}
use asterun.Contracts.Tasks
use asterun.Contracts.Runs.{Run}
use asterun.Contracts.Runs
use asterun.Contracts.Approvals.{ApprovalRequest}
use asterun.Contracts.Approvals
use asterun.Contracts.Operations.{Operation}

-- What `cas` reads of a store.
pub record Reads : Type 0 where
  pub task : String → Result Task
  pub run : String → Result Run
  pub pending_approval : String → Result (Option ApprovalRequest)
  pub operation_for_run : String → Result (Option Operation)
  pub event_sequence : String → ℕ

-- `digest` is the SHA-256 of a document's JSON text.
module _ (py : Python) (digest : Dict String Json → String) where
  abbrev pub operation_view : Option Operation → Json
  operation_view none = null
  operation_view (some o) = object (
      field "id" (string o.id) (field "status" (string (operation_status_text o.status)) no_fields))

  abbrev pub approval_view : Option ApprovalRequest → Json
  approval_view none = null
  approval_view (some a) =
      object (
        field "id" (string a.id) (field "sha256" (string (digest (Approvals.to_dict a))) no_fields))

  abbrev pub task_digest : Task → String
  task_digest t = digest (remove "handoff_snapshot" (Tasks.to_dict t))

  -- the keys of a run's native data that come and go without changing the run
  abbrev pub settled_native : Fields → Fields
  settled_native native = pop_field "slot_held" (
      pop_field "concurrency_released" (
        pop_field "unapplied_approval"
          (pop_field "unapplied_result" (pop_field "payload_manifests" native))))

  abbrev pub run_digest : Run → String
  run_digest r = digest (Runs.to_dict (record r { native = settled_native r.native }))

  -- `handoff.state`
  abbrev pub state : Reads → Task → Run → Result Json
  state reads t r = do
    approval ← reads.pending_approval r.id
    operation ← reads.operation_for_run r.id
    ok (
        object (
          field "operation" (operation_view operation) (
            field "task_sha256" (string (task_digest t)) (
              field "run_sha256" (string (run_digest r)) (
                field "source_event_sequence" (integer (pos (reads.event_sequence r.id)))
                  (field "pending_approval" (approval_view approval) no_fields))))))

  abbrev pub conflict : Bool → Result Unit₀
  conflict true = err revision_conflict
  conflict false = ok tt

  -- `record[key]` on a value that is no `dict`
  abbrev pub mapping_of : Json → Result Fields
  mapping_of (object fs) = ok fs
  mapping_of v = err type_error

  -- the second half of the test, which is not evaluated where the first one fails
  abbrev pub same_authority : Reads → Fields → Task → Run → Bool → Result Unit₀
  same_authority reads transition current source false = err revision_conflict
  same_authority reads transition current source true = do
    now ← state reads current source
    authority ← required (get_field "source_authority" transition)
    conflict (not (py.equal now authority))

  -- `cas` where the run carries the record of a transition
  abbrev pub cas_record : Reads → Task → Json → Result Unit₀
  cas_record reads t v = do
    current ← reads.task t.id
    transition ← mapping_of v
    named ← required (get_field "source_run_id" transition)
    source_id ← typed_id py named
    source ← reads.run source_id
    expected ← required (get_field "source_task_sha256" transition)
    same_authority reads transition current source
        (py.equal (string (digest (Tasks.to_dict current))) expected)

  unfoldable pub cas : Reads → Task → Run → Result Unit₀
  unfolding remove
  cas reads t r =
      let transition = raw (get_field "context_transition" r.native) in
      elim (truthy transition) [ true ↦ cas_record reads t transition | false ↦ ok tt ]
