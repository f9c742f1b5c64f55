-- ===== src/Contracts/Tasks.antt =====
-- `Task` of src/asterun/contracts.py with its `to_dict` and `from_dict`. A field that holds whatever was
-- read (`data.get(key)` with no conversion) is a JSON value.
pub mod RoundTrip
use asterun.Prelude.{
  String, ◌≡◌, refl, Bool, true, false, Option, none, some, List, [], ◌∷◌, Dict, lookup, string_eq,
  ◌==◌, ap, ◌∙◌, fun_ext,
}
use asterun.Prelude.Int.{ℤ, pos, eqb_ℤ}
use asterun.Errors.{Result, ok, err, ◌>>=◌}
use asterun.Json.{
  Json, null, boolean, integer, string, array, object, Items, no_items, Fields, no_fields, Python,
  truthy, required, raw, or_default, flag, required_text, text_or, text_default, required_int,
  int_or, fields_or_empty, optional_fields, items_or_empty, required_id, optional_id, is_true,
  text_only, optional_string, optional_object, unless_null,
}
use asterun.Json.Entries.{compact, when, join, lookup-compact, listed_once}
use asterun.Contracts.{RunStatus, OperationStatus, is_failed, failed_reason}
use asterun.Contracts.Enums.{
  AcceptanceStatus, DeliveryStatus, EventType, ApprovalState, run_status_text, run_status_from,
  run_status_from-text, operation_status_text, operation_status_from, operation_status_from-text,
  acceptance_status_text, acceptance_status_from, acceptance_status_from-text, delivery_status_text,
  delivery_status_from, delivery_status_from-text, event_type_text, event_type_from,
  event_type_from-text, approval_state_text, approval_state_from, approval_state_from-text,
}

pub record Task : Type 0 where
  pub id : String
  pub workspace : String
  pub backend : String
  pub text : String
  pub script : String
  pub acceptance : AcceptanceStatus
  pub delivery : DeliveryStatus
  pub created_at : String
  pub current_run_id : Option String
  pub conversation_id : Option String
  pub account_ref : Option String
  pub model_id : Option String
  pub billing_pool_ref : Option String
  pub runtime_ref : Option String
  pub config_revision : ℤ
  pub paused : Bool
  pub orchestration_owner : String
  pub evidence_stale : Bool
  pub input_hash : String
  pub evidence_input_hash : String
  pub execution_digest : String
  pub findings : Items
  pub repair_count : ℤ
  pub review_status : String
  pub run_count : ℤ
  pub workspace_root : String
  pub quality : Fields
  pub capability : Json
  pub capability_input : Fields
  pub read_scope : Option Fields
  pub external_evaluation : Json
  pub external_require_review : Bool
  pub stage_gate : Json
  pub dependencies : Items
  pub dependency_state : Json
  pub external_observations : Json
  pub dispatch_materials : Json
  pub handoff_snapshot : Json

-- the keys of `to_dict`, where `none` is a key that is left out
abbrev pub entries : Task → Dict String (Option Json)
entries t =
    ("id", some (string t.id))
    ∷ ("workspace", some (string t.workspace))
    ∷ ("backend", some (string t.backend))
    ∷ ("text", some (string t.text))
    ∷ ("script", some (string t.script))
    ∷ ("acceptance", some (string (acceptance_status_text t.acceptance)))
    ∷ ("delivery", some (string (delivery_status_text t.delivery)))
    ∷ ("created_at", some (string t.created_at))
    ∷ ("current_run_id", some (optional_string t.current_run_id))
    ∷ ("conversation_id", some (optional_string t.conversation_id))
    ∷ ("account_ref", some (optional_string t.account_ref))
    ∷ ("model_id", some (optional_string t.model_id))
    ∷ ("billing_pool_ref", some (optional_string t.billing_pool_ref))
    ∷ ("runtime_ref", some (optional_string t.runtime_ref))
    ∷ ("config_revision", some (integer t.config_revision))
    ∷ ("paused", some (boolean t.paused))
    ∷ ("orchestration_owner", some (string t.orchestration_owner))
    ∷ ("evidence_stale", some (boolean t.evidence_stale))
    ∷ ("input_hash", some (string t.input_hash))
    ∷ ("evidence_input_hash", some (string t.evidence_input_hash))
    ∷ ("findings", some (array t.findings))
    ∷ ("repair_count", some (integer t.repair_count))
    ∷ ("review_status", some (string t.review_status))
    ∷ ("run_count", some (integer t.run_count))
    ∷ ("workspace_root", some (string t.workspace_root))
    ∷ ("quality", some (object t.quality))
    ∷ ("execution_digest", when (truthy (string t.execution_digest)) (string t.execution_digest))
    ∷ ("capability", when (truthy t.capability) t.capability)
    ∷ ("capability_input", when (truthy t.capability) (object t.capability_input))
    ∷ ("read_scope", optional_object t.read_scope)
    ∷ ("external_evaluation", when (truthy t.external_evaluation) t.external_evaluation)
    ∷ ("external_require_review", when t.external_require_review (boolean true))
    ∷ ("stage_gate", when (truthy t.stage_gate) t.stage_gate)
    ∷ ("dependencies", when (truthy (array t.dependencies)) (array t.dependencies))
    ∷ ("dependency_state", when (truthy t.dependency_state) t.dependency_state)
    ∷ ("external_observations", when (truthy t.external_observations) t.external_observations)
    ∷ ("dispatch_materials", when (truthy t.dispatch_materials) t.dispatch_materials)
    ∷ ("handoff_snapshot", when (truthy t.handoff_snapshot) t.handoff_snapshot)
    ∷ []

abbrev pub to_dict : Task → Dict String Json
to_dict t = compact (entries t)

-- `from_dict`, which reads the document by its keys
module _ (py : Python) where
  abbrev pub read : (String → Option Json) → Result Task
  read get = do
    id' ← required_id py (get "id")
    workspace' ← required_text py (get "workspace")
    backend' ← required_id py (get "backend")
    text' ← ok (text_or py "" (get "text"))
    script' ← ok (text_or py "success" (get "script"))
    acceptance' ← acceptance_status_from (get "acceptance")
    delivery' ← delivery_status_from (get "delivery")
    created_at' ← required_text py (get "created_at")
    current_run_id' ← optional_id py (get "current_run_id")
    conversation_id' ← optional_id py (get "conversation_id")
    account_ref' ← optional_id py (get "account_ref")
    model_id' ← optional_id py (get "model_id")
    billing_pool_ref' ← optional_id py (get "billing_pool_ref")
    runtime_ref' ← optional_id py (get "runtime_ref")
    config_revision' ← int_or py (pos 1) (get "config_revision")
    paused' ← ok (flag (get "paused"))
    orchestration_owner' ← ok (text_or py "core" (get "orchestration_owner"))
    evidence_stale' ← ok (flag (get "evidence_stale"))
    input_hash' ← ok (text_or py "" (get "input_hash"))
    evidence_input_hash' ← ok (text_or py "" (get "evidence_input_hash"))
    execution_digest' ← ok (text_or py "" (get "execution_digest"))
    findings' ← items_or_empty py (get "findings")
    repair_count' ← int_or py (pos 0) (get "repair_count")
    review_status' ← ok (text_or py "not_configured" (get "review_status"))
    run_count' ← int_or py (pos 1) (get "run_count")
    workspace_root' ← ok (text_or py "" (get "workspace_root"))
    quality' ← fields_or_empty py (get "quality")
    capability' ← ok (raw (get "capability"))
    capability_input' ← fields_or_empty py (get "capability_input")
    read_scope' ← optional_fields py (get "read_scope")
    external_evaluation' ← ok (or_default (object no_fields) (get "external_evaluation"))
    external_require_review' ← ok (flag (get "external_require_review"))
    stage_gate' ← ok (or_default (object no_fields) (get "stage_gate"))
    dependencies' ← items_or_empty py (get "dependencies")
    dependency_state' ← ok (or_default (object no_fields) (get "dependency_state"))
    external_observations' ← ok (or_default (object no_fields) (get "external_observations"))
    dispatch_materials' ← ok (or_default (array no_items) (get "dispatch_materials"))
    handoff_snapshot' ← ok (or_default (object no_fields) (get "handoff_snapshot"))
    ok (record {
      id = id';
      workspace = workspace';
      backend = backend';
      text = text';
      script = script';
      acceptance = acceptance';
      delivery = delivery';
      created_at = created_at';
      current_run_id = current_run_id';
      conversation_id = conversation_id';
      account_ref = account_ref';
      model_id = model_id';
      billing_pool_ref = billing_pool_ref';
      runtime_ref = runtime_ref';
      config_revision = config_revision';
      paused = paused';
      orchestration_owner = orchestration_owner';
      evidence_stale = evidence_stale';
      input_hash = input_hash';
      evidence_input_hash = evidence_input_hash';
      execution_digest = execution_digest';
      findings = findings';
      repair_count = repair_count';
      review_status = review_status';
      run_count = run_count';
      workspace_root = workspace_root';
      quality = quality';
      capability = capability';
      capability_input = capability_input';
      read_scope = read_scope';
      external_evaluation = external_evaluation';
      external_require_review = external_require_review';
      stage_gate = stage_gate';
      dependencies = dependencies';
      dependency_state = dependency_state';
      external_observations = external_observations';
      dispatch_materials = dispatch_materials';
      handoff_snapshot = handoff_snapshot';
    })

  unfoldable pub from_dict : Dict String Json → Result Task
  from_dict document = read (λ key. lookup key document)
