-- ===== src/Contracts/Runs.antt =====
-- `Run` of src/asterun/contracts.py with its `to_dict` and `from_dict`. A field that holds whatever was
-- read (`data.get(key)` with no conversion) is a JSON value.
pub mod RoundTrip
use asterun.Prelude.{
  String, ◌≡◌, refl, Bool, true, false, Option, none, some, List, [], ◌∷◌, Dict, lookup, string_eq,
  ◌==◌, ap, ◌∙◌, fun_ext,
}
use asterun.Prelude.Int.{ℤ, pos, eqb_ℤ}
use asterun.Errors.{Result, ok, err, ◌>>=◌}
use asterun.Json.{
  Json, null, boolean, integer, string, array, object, Items, no_items, Fields, no_fields, Python,
  truthy, required, raw, or_default, flag, required_text, text_or, text_default, required_int,
  int_or, fields_or_empty, optional_fields, items_or_empty, required_id, optional_id, is_true,
  text_only, optional_string, optional_object, unless_null,
}
use asterun.Json.Entries.{compact, when, join, lookup-compact, listed_once}
use asterun.Contracts.{RunStatus, OperationStatus, is_failed, failed_reason}
use asterun.Contracts.Enums.{
  AcceptanceStatus, DeliveryStatus, EventType, ApprovalState, run_status_text, run_status_from,
  run_status_from-text, operation_status_text, operation_status_from, operation_status_from-text,
  acceptance_status_text, acceptance_status_from, acceptance_status_from-text, delivery_status_text,
  delivery_status_from, delivery_status_from-text, event_type_text, event_type_from,
  event_type_from-text, approval_state_text, approval_state_from, approval_state_from-text,
}

pub record Run : Type 0 where
  pub id : String
  pub task_id : String
  pub backend : String
  pub status : RunStatus
  pub created_at : String
  pub cancel_requested : Bool
  pub terminated : Bool
  pub error_code : Json
  pub plugin_reason : Option String
  pub summary : String
  pub native : Fields
  pub role : String
  pub prompt : String
  pub conversation_id : Option String
  pub target_hash : String
  pub approval_attempts : Items
  pub output : Json

-- the keys of `to_dict`, where `none` is a key that is left out
abbrev pub entries : Run → Dict String (Option Json)
entries r =
    ("id", some (string r.id))
    ∷ ("task_id", some (string r.task_id))
    ∷ ("backend", some (string r.backend))
    ∷ ("status", some (string (run_status_text r.status)))
    ∷ ("created_at", some (string r.created_at))
    ∷ ("cancel_requested", some (boolean r.cancel_requested))
    ∷ ("terminated", some (boolean r.terminated))
    ∷ ("error_code", some r.error_code)
    ∷ ("plugin_reason", failed_reason r.status r.plugin_reason)
    ∷ ("summary", some (string r.summary))
    ∷ ("native", some (object r.native))
    ∷ ("role", some (string r.role))
    ∷ ("prompt", some (string r.prompt))
    ∷ ("conversation_id", some (optional_string r.conversation_id))
    ∷ ("target_hash", some (string r.target_hash))
    ∷ ("approval_attempts", some (array r.approval_attempts))
    ∷ ("output", unless_null r.output)
    ∷ []

abbrev pub to_dict : Run → Dict String Json
to_dict r = compact (entries r)

-- `from_dict`, which reads the document by its keys
module _ (py : Python) where
  abbrev pub read : (String → Option Json) → Result Run
  read get = do
    id' ← required_id py (get "id")
    task_id' ← required_id py (get "task_id")
    backend' ← required_id py (get "backend")
    status' ← run_status_from (get "status")
    created_at' ← required_text py (get "created_at")
    cancel_requested' ← ok (flag (get "cancel_requested"))
    terminated' ← ok (flag (get "terminated"))
    error_code' ← ok (raw (get "error_code"))
    plugin_reason' ← ok (text_only (get "plugin_reason"))
    summary' ← ok (text_or py "" (get "summary"))
    native' ← fields_or_empty py (get "native")
    role' ← ok (text_or py "implementation" (get "role"))
    prompt' ← ok (text_or py "" (get "prompt"))
    conversation_id' ← optional_id py (get "conversation_id")
    target_hash' ← ok (text_or py "" (get "target_hash"))
    approval_attempts' ← items_or_empty py (get "approval_attempts")
    output' ← ok (raw (get "output"))
    ok (record {
      id = id';
      task_id = task_id';
      backend = backend';
      status = status';
      created_at = created_at';
      cancel_requested = cancel_requested';
      terminated = terminated';
      error_code = error_code';
      plugin_reason = plugin_reason';
      summary = summary';
      native = native';
      role = role';
      prompt = prompt';
      conversation_id = conversation_id';
      target_hash = target_hash';
      approval_attempts = approval_attempts';
      output = output';
    })

  unfoldable pub from_dict : Dict String Json → Result Run
  from_dict document = read (λ key. lookup key document)
