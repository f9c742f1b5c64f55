-- ===== src/Contracts/Approvals.antt =====
-- `ApprovalRequest` of src/asterun/contracts.py with its `to_dict` and `from_dict`. A field that holds whatever was
-- read (`data.get(key)` with no conversion) is a JSON value.
pub mod RoundTrip
use asterun.Prelude.{
  String, ◌≡◌, refl, Bool, true, false, Option, none, some, List, [], ◌∷◌, Dict, lookup, string_eq,
  ◌==◌, ap, ◌∙◌, fun_ext,
}
use asterun.Prelude.Int.{ℤ, pos, eqb_ℤ}
use asterun.Errors.{Result, ok, err, ◌>>=◌}
use asterun.Json.{
  Json, null, boolean, integer, string, array, object, Items, no_items, Fields, no_fields, Python,
  truthy, required, raw, or_default, flag, required_text, text_or, text_default, required_int,
  int_or, fields_or_empty, optional_fields, items_or_empty, required_id, optional_id, is_true,
  text_only, optional_string, optional_object, unless_null,
}
use asterun.Json.Entries.{compact, when, join, lookup-compact, listed_once}
use asterun.Contracts.{RunStatus, OperationStatus, is_failed, failed_reason}
use asterun.Contracts.Enums.{
  AcceptanceStatus, DeliveryStatus, EventType, ApprovalState, run_status_text, run_status_from,
  run_status_from-text, operation_status_text, operation_status_from, operation_status_from-text,
  acceptance_status_text, acceptance_status_from, acceptance_status_from-text, delivery_status_text,
  delivery_status_from, delivery_status_from-text, event_type_text, event_type_from,
  event_type_from-text, approval_state_text, approval_state_from, approval_state_from-text,
}

pub record ApprovalRequest : Type 0 where
  pub id : String
  pub task_id : String
  pub run_id : String
  pub summary : String
  pub state : ApprovalState
  pub created_at : String
  pub expires_at : Json
  pub target_hash : String
  pub native_request : Fields
  pub decision_source : Json
  pub assessment : Fields
  pub response_status : String
  pub native_confirmed : Bool

-- the keys of `to_dict`, where `none` is a key that is left out
abbrev pub entries : ApprovalRequest → Dict String (Option Json)
entries a =
    ("id", some (string a.id))
    ∷ ("task_id", some (string a.task_id))
    ∷ ("run_id", some (string a.run_id))
    ∷ ("summary", some (string a.summary))
    ∷ ("state", some (string (approval_state_text a.state)))
    ∷ ("created_at", some (string a.created_at))
    ∷ ("expires_at", some a.expires_at)
    ∷ ("target_hash", some (string a.target_hash))
    ∷ ("native_request", some (object a.native_request))
    ∷ ("decision_source", some a.decision_source)
    ∷ ("assessment", some (object a.assessment))
    ∷ ("response_status", some (string a.response_status))
    ∷ ("native_confirmed", some (boolean a.native_confirmed))
    ∷ []

abbrev pub to_dict : ApprovalRequest → Dict String Json
to_dict a = compact (entries a)

-- `from_dict`, which reads the document by its keys
module _ (py : Python) where
  abbrev pub read : (String → Option Json) → Result ApprovalRequest
  read get = do
    id' ← required_id py (get "id")
    task_id' ← required_id py (get "task_id")
    run_id' ← required_id py (get "run_id")
    summary' ← required_text py (get "summary")
    state' ← approval_state_from (get "state")
    created_at' ← required_text py (get "created_at")
    expires_at' ← ok (raw (get "expires_at"))
    target_hash' ← ok (text_or py "" (get "target_hash"))
    native_request' ← fields_or_empty py (get "native_request")
    decision_source' ← ok (raw (get "decision_source"))
    assessment' ← fields_or_empty py (get "assessment")
    response_status' ← ok (text_default py "not_sent" (get "response_status"))
    native_confirmed' ← ok (is_true (get "native_confirmed"))
    ok (record {
      id = id';
      task_id = task_id';
      run_id = run_id';
      summary = summary';
      state = state';
      created_at = created_at';
      expires_at = expires_at';
      target_hash = target_hash';
      native_request = native_request';
      decision_source = decision_source';
      assessment = assessment';
      response_status = response_status';
      native_confirmed = native_confirmed';
    })

  unfoldable pub from_dict : Dict String Json → Result ApprovalRequest
  from_dict document = read (λ key. lookup key document)
