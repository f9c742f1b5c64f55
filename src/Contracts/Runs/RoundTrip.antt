-- ===== src/Contracts/Runs/RoundTrip.antt =====
-- What `to_dict` writes of a `Run`, `from_dict` reads back.
use asterun.Prelude.{String, ◌≡◌, refl, false, none, lookup, string_eq, ◌==◌, ap, ◌∙◌, fun_ext}
use asterun.Errors.{ok}
use asterun.Json.{Python}
use asterun.Json.Entries.{join, lookup-compact, listed_once}
use asterun.Json.Readings.{
  ValidId, ValidOption, required_id-string, optional_id-string, text_or-empty, text_or-set,
  fields_or_empty-object, items_or_empty-array, raw-unless_null,
}
use asterun.Contracts.{is_failed, text_only-failed_reason}
use asterun.Contracts.Enums.{run_status_from-text}
use asterun.Contracts.Runs.{Run, entries, to_dict, read, from_dict}

-- The values that `from_dict` leaves as they are: it reads an empty text, a 0 or an empty document as
-- the default of its field, and refuses a blank identifier.
pub record ValidRun (py : Python) (r : Run) : Type 0 where
  pub id_valid : ValidId py r.id
  pub task_id_valid : ValidId py r.task_id
  pub backend_valid : ValidId py r.backend
  pub plugin_reason_failed : is_failed r.status ≡ false → r.plugin_reason ≡ none
  pub role_set : (r.role == "") ≡ false
  pub conversation_id_valid : ValidOption py r.conversation_id

-- Each key of the document is read as it was written.
lookup-to_dict : (r : Run) (key : String) → lookup key (to_dict r) ≡ join (lookup key (entries r))
unfolding lookup listed_once
lookup-to_dict r key = lookup-compact key (entries r) refl

module _ (py : Python) where
  read-entries : (r : Run) → ValidRun py r → read py (λ key. join (lookup key (entries r))) ≡ ok r
  unfolding lookup
  read-entries r v =
      rw
        (
          required_id-string py r.id v.id_valid,
          required_id-string py r.task_id v.task_id_valid,
          required_id-string py r.backend v.backend_valid,
          run_status_from-text r.status,
          text_only-failed_reason r.status r.plugin_reason v.plugin_reason_failed,
          text_or-empty py r.summary,
          fields_or_empty-object py r.native,
          text_or-set py "implementation" r.role v.role_set,
          text_or-empty py r.prompt,
          optional_id-string py r.conversation_id v.conversation_id_valid,
          text_or-empty py r.target_hash,
          items_or_empty-array py r.approval_attempts,
          raw-unless_null r.output,
        )
        refl

  -- A run whose values are valid is read back from its document as it was written.
  pub run_from_dict-to_dict : (r : Run) → ValidRun py r → from_dict py (to_dict r) ≡ ok r
  unfolding from_dict
  run_from_dict-to_dict r v = ap (read py) (fun_ext (lookup-to_dict r)) ∙ read-entries r v
