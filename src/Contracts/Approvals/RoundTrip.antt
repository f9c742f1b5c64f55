-- ===== src/Contracts/Approvals/RoundTrip.antt =====
-- What `to_dict` writes of a `ApprovalRequest`, `from_dict` reads back.
use asterun.Prelude.{String, ◌≡◌, refl, lookup, string_eq, ap, ◌∙◌, fun_ext}
use asterun.Errors.{ok}
use asterun.Json.{Python}
use asterun.Json.Entries.{join, lookup-compact, listed_once}
use asterun.Json.Readings.{
  ValidId, required_id-string, text_or-empty, fields_or_empty-object, is_true-boolean,
}
use asterun.Contracts.Enums.{approval_state_from-text}
use asterun.Contracts.Approvals.{ApprovalRequest, entries, to_dict, read, from_dict}

-- The values that `from_dict` leaves as they are: it reads an empty text, a 0 or an empty document as
-- the default of its field, and refuses a blank identifier.
pub record ValidApprovalRequest (py : Python) (a : ApprovalRequest) : Type 0 where
  pub id_valid : ValidId py a.id
  pub task_id_valid : ValidId py a.task_id
  pub run_id_valid : ValidId py a.run_id

-- Each key of the document is read as it was written.
lookup-to_dict :
    (a : ApprovalRequest) (key : String) → lookup key (to_dict a) ≡ join (lookup key (entries a))
unfolding lookup listed_once
lookup-to_dict a key = lookup-compact key (entries a) refl

module _ (py : Python) where
  read-entries :
      (a : ApprovalRequest)
      → ValidApprovalRequest py a
      → read py (λ key. join (lookup key (entries a))) ≡ ok a
  unfolding lookup
  read-entries a v =
      rw
        (
          required_id-string py a.id v.id_valid,
          required_id-string py a.task_id v.task_id_valid,
          required_id-string py a.run_id v.run_id_valid,
          approval_state_from-text a.state,
          text_or-empty py a.target_hash,
          fields_or_empty-object py a.native_request,
          fields_or_empty-object py a.assessment,
          is_true-boolean a.native_confirmed,
        )
        refl

  -- A request for approval whose values are valid is read back from its document as it was written.
  pub approval_request_from_dict-to_dict :
      (a : ApprovalRequest) → ValidApprovalRequest py a → from_dict py (to_dict a) ≡ ok a
  unfolding from_dict
  approval_request_from_dict-to_dict a v =
      ap (read py) (fun_ext (lookup-to_dict a)) ∙ read-entries a v
