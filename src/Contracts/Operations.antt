-- ===== src/Contracts/Operations.antt =====
-- `Operation` of src/asterun/contracts.py with its `to_dict` and `from_dict`. A field that holds whatever was
-- read (`data.get(key)` with no conversion) is a JSON value.
pub mod RoundTrip
use asterun.Prelude.{
  String, ◌≡◌, refl, Bool, true, false, Option, none, some, List, [], ◌∷◌, Dict, lookup, string_eq,
  ◌==◌, ap, ◌∙◌, fun_ext,
}
use asterun.Prelude.Int.{ℤ, pos, eqb_ℤ}
use asterun.Errors.{Result, ok, err, ◌>>=◌}
use asterun.Json.{
  Json, null, boolean, integer, string, array, object, Items, no_items, Fields, no_fields, Python,
  truthy, required, raw, or_default, flag, required_text, text_or, text_default, required_int,
  int_or, fields_or_empty, optional_fields, items_or_empty, required_id, optional_id, is_true,
  text_only, optional_string, optional_object, unless_null,
}
use asterun.Json.Entries.{compact, when, join, lookup-compact, listed_once}
use asterun.Contracts.{RunStatus, OperationStatus, is_failed, failed_reason}
use asterun.Contracts.Enums.{
  AcceptanceStatus, DeliveryStatus, EventType, ApprovalState, run_status_text, run_status_from,
  run_status_from-text, operation_status_text, operation_status_from, operation_status_from-text,
  acceptance_status_text, acceptance_status_from, acceptance_status_from-text, delivery_status_text,
  delivery_status_from, delivery_status_from-text, event_type_text, event_type_from,
  event_type_from-text, approval_state_text, approval_state_from, approval_state_from-text,
}

pub record Operation : Type 0 where
  pub id : String
  pub idempotency_key : String
  pub principal : String
  pub action : String
  pub target : String
  pub input_hash : String
  pub status : OperationStatus
  pub created_at : String
  pub task_id : Option String
  pub run_id : Option String

-- the keys of `to_dict`, where `none` is a key that is left out
abbrev pub entries : Operation → Dict String (Option Json)
entries o =
    ("id", some (string o.id))
    ∷ ("idempotency_key", some (string o.idempotency_key))
    ∷ ("principal", some (string o.principal))
    ∷ ("action", some (string o.action))
    ∷ ("target", some (string o.target))
    ∷ ("input_hash", some (string o.input_hash))
    ∷ ("status", some (string (operation_status_text o.status)))
    ∷ ("created_at", some (string o.created_at))
    ∷ ("task_id", some (optional_string o.task_id))
    ∷ ("run_id", some (optional_string o.run_id))
    ∷ []

abbrev pub to_dict : Operation → Dict String Json
to_dict o = compact (entries o)

-- `from_dict`, which reads the document by its keys
module _ (py : Python) where
  abbrev pub read : (String → Option Json) → Result Operation
  read get = do
    id' ← required_id py (get "id")
    idempotency_key' ← required_text py (get "idempotency_key")
    principal' ← required_text py (get "principal")
    action' ← required_text py (get "action")
    target' ← required_text py (get "target")
    input_hash' ← required_text py (get "input_hash")
    status' ← operation_status_from (get "status")
    created_at' ← required_text py (get "created_at")
    task_id' ← optional_id py (get "task_id")
    run_id' ← optional_id py (get "run_id")
    ok (record {
      id = id';
      idempotency_key = idempotency_key';
      principal = principal';
      action = action';
      target = target';
      input_hash = input_hash';
      status = status';
      created_at = created_at';
      task_id = task_id';
      run_id = run_id';
    })

  unfoldable pub from_dict : Dict String Json → Result Operation
  from_dict document = read (λ key. lookup key document)
