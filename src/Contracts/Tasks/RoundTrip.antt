-- ===== src/Contracts/Tasks/RoundTrip.antt =====
-- What `to_dict` writes of a `Task`, `from_dict` reads back.
use asterun.Prelude.{String, ◌≡◌, refl, false, lookup, string_eq, ◌==◌, ap, ◌∙◌, fun_ext}
use asterun.Prelude.Int.{pos, eqb_ℤ}
use asterun.Errors.{ok}
use asterun.Json.{null, array, object, no_items, no_fields, Python, truthy}
use asterun.Json.Entries.{join, lookup-compact, listed_once}
use asterun.Json.Readings.{
  ValidId, ValidOption, required_id-string, optional_id-string, text_or-empty, text_or-set,
  text_or-when, int_or-zero, int_or-set, fields_or_empty-object, fields_or_empty-when,
  items_or_empty-array, items_or_empty-when, flag-when, raw-when, optional_fields-object,
  or_default-when,
}
use asterun.Contracts.Enums.{acceptance_status_from-text, delivery_status_from-text}
use asterun.Contracts.Tasks.{Task, entries, to_dict, read, from_dict}

-- The values that `from_dict` leaves as they are: it reads an empty text, a 0 or an empty document as
-- the default of its field, and refuses a blank identifier.
pub record ValidTask (py : Python) (t : Task) : Type 0 where
  pub id_valid : ValidId py t.id
  pub backend_valid : ValidId py t.backend
  pub script_set : (t.script == "") ≡ false
  pub current_run_id_valid : ValidOption py t.current_run_id
  pub conversation_id_valid : ValidOption py t.conversation_id
  pub account_ref_valid : ValidOption py t.account_ref
  pub model_id_valid : ValidOption py t.model_id
  pub billing_pool_ref_valid : ValidOption py t.billing_pool_ref
  pub runtime_ref_valid : ValidOption py t.runtime_ref
  pub config_revision_set : eqb_ℤ t.config_revision (pos 0) ≡ false
  pub orchestration_owner_set : (t.orchestration_owner == "") ≡ false
  pub review_status_set : (t.review_status == "") ≡ false
  pub run_count_set : eqb_ℤ t.run_count (pos 0) ≡ false
  pub capability_null : truthy t.capability ≡ false → t.capability ≡ null
  pub capability_input_empty : truthy t.capability ≡ false → t.capability_input ≡ no_fields
  pub external_evaluation_default :
      truthy t.external_evaluation ≡ false → t.external_evaluation ≡ object no_fields
  pub stage_gate_default : truthy t.stage_gate ≡ false → t.stage_gate ≡ object no_fields
  pub dependency_state_default :
      truthy t.dependency_state ≡ false → t.dependency_state ≡ object no_fields
  pub external_observations_default :
      truthy t.external_observations ≡ false → t.external_observations ≡ object no_fields
  pub dispatch_materials_default :
      truthy t.dispatch_materials ≡ false → t.dispatch_materials ≡ array no_items
  pub handoff_snapshot_default :
      truthy t.handoff_snapshot ≡ false → t.handoff_snapshot ≡ object no_fields

-- Each key of the document is read as it was written.
lookup-to_dict : (t : Task) (key : String) → lookup key (to_dict t) ≡ join (lookup key (entries t))
unfolding lookup listed_once
lookup-to_dict t key = lookup-compact key (entries t) refl

module _ (py : Python) where
  read-entries : (t : Task) → ValidTask py t → read py (λ key. join (lookup key (entries t))) ≡ ok t
  unfolding lookup
  read-entries t v =
      rw
        (
          required_id-string py t.id v.id_valid,
          required_id-string py t.backend v.backend_valid,
          text_or-empty py t.text,
          text_or-set py "success" t.script v.script_set,
          acceptance_status_from-text t.acceptance,
          delivery_status_from-text t.delivery,
          optional_id-string py t.current_run_id v.current_run_id_valid,
          optional_id-string py t.conversation_id v.conversation_id_valid,
          optional_id-string py t.account_ref v.account_ref_valid,
          optional_id-string py t.model_id v.model_id_valid,
          optional_id-string py t.billing_pool_ref v.billing_pool_ref_valid,
          optional_id-string py t.runtime_ref v.runtime_ref_valid,
          int_or-set py (pos 1) t.config_revision v.config_revision_set,
          text_or-set py "core" t.orchestration_owner v.orchestration_owner_set,
          text_or-empty py t.input_hash,
          text_or-empty py t.evidence_input_hash,
          text_or-when py t.execution_digest,
          items_or_empty-array py t.findings,
          int_or-zero py t.repair_count,
          text_or-set py "not_configured" t.review_status v.review_status_set,
          int_or-set py (pos 1) t.run_count v.run_count_set,
          text_or-empty py t.workspace_root,
          fields_or_empty-object py t.quality,
          raw-when t.capability v.capability_null,
          fields_or_empty-when py (truthy t.capability) t.capability_input v.capability_input_empty,
          optional_fields-object py t.read_scope,
          or_default-when (object no_fields) t.external_evaluation v.external_evaluation_default,
          flag-when t.external_require_review,
          or_default-when (object no_fields) t.stage_gate v.stage_gate_default,
          items_or_empty-when py t.dependencies,
          or_default-when (object no_fields) t.dependency_state v.dependency_state_default,
          or_default-when (object no_fields) t.external_observations
              v.external_observations_default,
          or_default-when (array no_items) t.dispatch_materials v.dispatch_materials_default,
          or_default-when (object no_fields) t.handoff_snapshot v.handoff_snapshot_default,
        )
        refl

  -- A task whose values are valid is read back from its document as it was written.
  pub task_from_dict-to_dict : (t : Task) → ValidTask py t → from_dict py (to_dict t) ≡ ok t
  unfolding from_dict
  task_from_dict-to_dict t v = ap (read py) (fun_ext (lookup-to_dict t)) ∙ read-entries t v
