-- ===== src/Contracts/Sessions/RoundTrip.antt =====
-- What `to_dict` writes of a `SessionBinding`, `from_dict` reads back.
use asterun.Prelude.{String, ◌≡◌, refl, false, lookup, string_eq, ap, ◌∙◌, fun_ext}
use asterun.Prelude.Int.{pos, eqb_ℤ}
use asterun.Errors.{ok}
use asterun.Json.{Python}
use asterun.Json.Entries.{join, lookup-compact, listed_once}
use asterun.Json.Readings.{ValidId, ValidOption, required_id-string, optional_id-string, int_or-set}
use asterun.Contracts.Sessions.{SessionBinding, entries, to_dict, read, from_dict}

-- The values that `from_dict` leaves as they are: it reads an empty text, a 0 or an empty document as
-- the default of its field, and refuses a blank identifier.
pub record ValidSessionBinding (py : Python) (b : SessionBinding) : Type 0 where
  pub conversation_id_valid : ValidId py b.conversation_id
  pub backend_valid : ValidId py b.backend
  pub account_ref_valid : ValidId py b.account_ref
  pub runtime_ref_valid : ValidId py b.runtime_ref
  pub backend_session_id_valid : ValidOption py b.backend_session_id
  pub task_id_valid : ValidOption py b.task_id
  pub config_revision_set : eqb_ℤ b.config_revision (pos 0) ≡ false

-- Each key of the document is read as it was written.
lookup-to_dict :
    (b : SessionBinding) (key : String) → lookup key (to_dict b) ≡ join (lookup key (entries b))
unfolding lookup listed_once
lookup-to_dict b key = lookup-compact key (entries b) refl

module _ (py : Python) where
  read-entries :
      (b : SessionBinding)
      → ValidSessionBinding py b
      → read py (λ key. join (lookup key (entries b))) ≡ ok b
  unfolding lookup
  read-entries b v =
      rw
        (
          required_id-string py b.conversation_id v.conversation_id_valid,
          required_id-string py b.backend v.backend_valid,
          required_id-string py b.account_ref v.account_ref_valid,
          required_id-string py b.runtime_ref v.runtime_ref_valid,
          optional_id-string py b.backend_session_id v.backend_session_id_valid,
          optional_id-string py b.task_id v.task_id_valid,
          int_or-set py (pos 1) b.config_revision v.config_revision_set,
        )
        refl

  -- A binding of a session whose values are valid is read back from its document as it was written.
  pub session_binding_from_dict-to_dict :
      (b : SessionBinding) → ValidSessionBinding py b → from_dict py (to_dict b) ≡ ok b
  unfolding from_dict
  session_binding_from_dict-to_dict b v =
      ap (read py) (fun_ext (lookup-to_dict b)) ∙ read-entries b v
