-- ===== src/Contracts/Sessions.antt =====
-- `SessionBinding` of src/asterun/contracts.py with its `to_dict` and `from_dict`. A field that holds whatever was
-- read (`data.get(key)` with no conversion) is a JSON value.
pub mod RoundTrip
use asterun.Prelude.{
  String, ◌≡◌, refl, Bool, true, false, Option, none, some, List, [], ◌∷◌, Dict, lookup, string_eq,
  ◌==◌, ap, ◌∙◌, fun_ext,
}
use asterun.Prelude.Int.{ℤ, pos, eqb_ℤ}
use asterun.Errors.{Result, ok, err, ◌>>=◌}
use asterun.Json.{
  Json, null, boolean, integer, string, array, object, Items, no_items, Fields, no_fields, Python,
  truthy, required, raw, or_default, flag, required_text, text_or, text_default, required_int,
  int_or, fields_or_empty, optional_fields, items_or_empty, required_id, optional_id, is_true,
  text_only, optional_string, optional_object, unless_null,
}
use asterun.Json.Entries.{compact, when, join, lookup-compact, listed_once}
use asterun.Contracts.{RunStatus, OperationStatus, is_failed, failed_reason}
use asterun.Contracts.Enums.{
  AcceptanceStatus, DeliveryStatus, EventType, ApprovalState, run_status_text, run_status_from,
  run_status_from-text, operation_status_text, operation_status_from, operation_status_from-text,
  acceptance_status_text, acceptance_status_from, acceptance_status_from-text, delivery_status_text,
  delivery_status_from, delivery_status_from-text, event_type_text, event_type_from,
  event_type_from-text, approval_state_text, approval_state_from, approval_state_from-text,
}

pub record SessionBinding : Type 0 where
  pub conversation_id : String
  pub backend : String
  pub workspace : String
  pub account_ref : String
  pub runtime_ref : String
  pub created_at : String
  pub updated_at : String
  pub backend_session_id : Option String
  pub latest_turn_id : Json
  pub task_id : Option String
  pub config_revision : ℤ

-- the keys of `to_dict`, where `none` is a key that is left out
abbrev pub entries : SessionBinding → Dict String (Option Json)
entries b =
    ("conversation_id", some (string b.conversation_id))
    ∷ ("backend", some (string b.backend))
    ∷ ("workspace", some (string b.workspace))
    ∷ ("account_ref", some (string b.account_ref))
    ∷ ("runtime_ref", some (string b.runtime_ref))
    ∷ ("created_at", some (string b.created_at))
    ∷ ("updated_at", some (string b.updated_at))
    ∷ ("backend_session_id", some (optional_string b.backend_session_id))
    ∷ ("latest_turn_id", some b.latest_turn_id)
    ∷ ("task_id", some (optional_string b.task_id))
    ∷ ("config_revision", some (integer b.config_revision))
    ∷ []

abbrev pub to_dict : SessionBinding → Dict String Json
to_dict b = compact (entries b)

-- `from_dict`, which reads the document by its keys
module _ (py : Python) where
  abbrev pub read : (String → Option Json) → Result SessionBinding
  read get = do
    conversation_id' ← required_id py (get "conversation_id")
    backend' ← required_id py (get "backend")
    workspace' ← required_text py (get "workspace")
    account_ref' ← required_id py (get "account_ref")
    runtime_ref' ← required_id py (get "runtime_ref")
    created_at' ← required_text py (get "created_at")
    updated_at' ← required_text py (get "updated_at")
    backend_session_id' ← optional_id py (get "backend_session_id")
    latest_turn_id' ← ok (raw (get "latest_turn_id"))
    task_id' ← optional_id py (get "task_id")
    config_revision' ← int_or py (pos 1) (get "config_revision")
    ok (record {
      conversation_id = conversation_id';
      backend = backend';
      workspace = workspace';
      account_ref = account_ref';
      runtime_ref = runtime_ref';
      created_at = created_at';
      updated_at = updated_at';
      backend_session_id = backend_session_id';
      latest_turn_id = latest_turn_id';
      task_id = task_id';
      config_revision = config_revision';
    })

  unfoldable pub from_dict : Dict String Json → Result SessionBinding
  from_dict document = read (λ key. lookup key document)
