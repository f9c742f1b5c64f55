-- ===== src/Contracts/Examples.antt =====
-- A task, a run and an operation with their documents.
use asterun.Prelude.{String, false, none, some, ◌≡◌, refl, ◌==◌, string_eq}
use asterun.Prelude.Int.{pos}
use asterun.Errors.{ok, err, value_error, type_error}
use asterun.Json.{null, string, object, array, no_items, no_fields, field, Python}
use asterun.Contracts.{RunStatus, OperationStatus}
use asterun.Contracts.Enums.{AcceptanceStatus, DeliveryStatus, EventType}
use asterun.Contracts.Tasks.{Task}
use asterun.Contracts.Tasks
use asterun.Contracts.Tasks.RoundTrip.{ValidTask, task_from_dict-to_dict}
use asterun.Contracts.Runs.{Run}
use asterun.Contracts.Runs
use asterun.Contracts.Runs.RoundTrip.{ValidRun, run_from_dict-to_dict}
use asterun.Contracts.Operations.{Operation}
use asterun.Contracts.Operations.RoundTrip.{ValidOperation}
use asterun.Contracts.Events.{Event}

-- conversions that refuse every other type
abbrev pub strict : Python
strict = record {
  str_of = λ v. "";
  int_of = λ v. err value_error;
  dict_of = λ v. err type_error;
  list_of = λ v. err type_error;
  blank = λ s. s == "";
  equal = λ a b. false;
}

abbrev pub a_task : Task
a_task = record {
  id = "t1";
  workspace = "home";
  backend = "codex";
  text = "write the parser";
  script = "success";
  acceptance = AcceptanceStatus.pending;
  delivery = DeliveryStatus.not_configured;
  created_at = "2026-01-01T00:00:00Z";
  current_run_id = some "r1";
  conversation_id = none;
  account_ref = none;
  model_id = some "large";
  billing_pool_ref = none;
  runtime_ref = none;
  config_revision = pos 3;
  paused = false;
  orchestration_owner = "core";
  evidence_stale = false;
  input_hash = "";
  evidence_input_hash = "";
  execution_digest = "";
  findings = no_items;
  repair_count = pos 0;
  review_status = "not_configured";
  run_count = pos 1;
  workspace_root = "";
  quality = no_fields;
  capability = string "review";
  capability_input = field "depth" (string "full") no_fields;
  read_scope = some no_fields;
  external_evaluation = object no_fields;
  external_require_review = false;
  stage_gate = object no_fields;
  dependencies = no_items;
  dependency_state = object no_fields;
  external_observations = object no_fields;
  dispatch_materials = array no_items;
  handoff_snapshot = object no_fields;
}

pub a_task-ValidTask : ValidTask strict a_task
a_task-ValidTask = record {
  id_valid = (refl, refl);
  backend_valid = (refl, refl);
  script_set = refl;
  current_run_id_valid = (refl, refl);
  conversation_id_valid = tt;
  account_ref_valid = tt;
  model_id_valid = (refl, refl);
  billing_pool_ref_valid = tt;
  runtime_ref_valid = tt;
  config_revision_set = refl;
  orchestration_owner_set = refl;
  review_status_set = refl;
  run_count_set = refl;
  capability_null = λ h. cc;
  capability_input_empty = λ h. cc;
  external_evaluation_default = λ h. refl;
  stage_gate_default = λ h. refl;
  dependency_state_default = λ h. refl;
  external_observations_default = λ h. refl;
  dispatch_materials_default = λ h. refl;
  handoff_snapshot_default = λ h. refl;
}

abbrev pub a_run : String → Run
a_run name = record {
  id = name;
  task_id = "t1";
  backend = "codex";
  status = RunStatus.failed;
  created_at = "2026-01-01T00:00:00Z";
  cancel_requested = false;
  terminated = false;
  error_code = null;
  plugin_reason = some "quota";
  summary = "";
  native = no_fields;
  role = "implementation";
  prompt = "";
  conversation_id = none;
  target_hash = "";
  approval_attempts = no_items;
  output = null;
}

pub a_run-ValidRun : (name : String) → (name == "") ≡ false → ValidRun strict (a_run name)
a_run-ValidRun name h = record {
  id_valid = (h, h);
  task_id_valid = (refl, refl);
  backend_valid = (refl, refl);
  plugin_reason_failed = λ h. cc;
  role_set = refl;
  conversation_id_valid = tt;
}

abbrev pub an_operation : String → String → Operation
an_operation name run = record {
  id = name;
  idempotency_key = "k1";
  principal = "user";
  action = "submit";
  target = "home";
  input_hash = "abc";
  status = OperationStatus.intended;
  created_at = "2026-01-01T00:00:00Z";
  task_id = some "t1";
  run_id = some run;
}

pub an_operation-ValidOperation :
    (name run : String)
    → (name == "") ≡ false
    → (run == "") ≡ false
    → ValidOperation strict (an_operation name run)
an_operation-ValidOperation name run h k = record {
  id_valid = (h, h);
  task_id_valid = (refl, refl);
  run_id_valid = (k, k);
}

abbrev pub an_event : Event
an_event = record {
  seq = pos 0;
  event_type = EventType.task_created;
  source = "core";
  timestamp = "2026-01-01T00:00:00Z";
  schema_version = pos 1;
  payload = no_fields;
}

task_from_dict-to_dict_example : Tasks.from_dict strict (Tasks.to_dict a_task) ≡ ok a_task
task_from_dict-to_dict_example = task_from_dict-to_dict strict a_task a_task-ValidTask

run_from_dict-to_dict_example : Runs.from_dict strict (Runs.to_dict (a_run "r1")) ≡ ok (a_run "r1")
run_from_dict-to_dict_example = run_from_dict-to_dict strict (a_run "r1") (a_run-ValidRun "r1" refl)
