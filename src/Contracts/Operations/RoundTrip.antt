-- ===== src/Contracts/Operations/RoundTrip.antt =====
-- What `to_dict` writes of a `Operation`, `from_dict` reads back.
use asterun.Prelude.{String, ◌≡◌, refl, lookup, string_eq, ap, ◌∙◌, fun_ext}
use asterun.Errors.{ok}
use asterun.Json.{Python}
use asterun.Json.Entries.{join, lookup-compact, listed_once}
use asterun.Json.Readings.{ValidId, ValidOption, required_id-string, optional_id-string}
use asterun.Contracts.Enums.{operation_status_from-text}
use asterun.Contracts.Operations.{Operation, entries, to_dict, read, from_dict}

-- The values that `from_dict` leaves as they are: it reads an empty text, a 0 or an empty document as
-- the default of its field, and refuses a blank identifier.
pub record ValidOperation (py : Python) (o : Operation) : Type 0 where
  pub id_valid : ValidId py o.id
  pub task_id_valid : ValidOption py o.task_id
  pub run_id_valid : ValidOption py o.run_id

-- Each key of the document is read as it was written.
lookup-to_dict :
    (o : Operation) (key : String) → lookup key (to_dict o) ≡ join (lookup key (entries o))
unfolding lookup listed_once
lookup-to_dict o key = lookup-compact key (entries o) refl

module _ (py : Python) where
  read-entries :
      (o : Operation) → ValidOperation py o → read py (λ key. join (lookup key (entries o))) ≡ ok o
  unfolding lookup
  read-entries o v =
      rw
        (
          required_id-string py o.id v.id_valid,
          operation_status_from-text o.status,
          optional_id-string py o.task_id v.task_id_valid,
          optional_id-string py o.run_id v.run_id_valid,
        )
        refl

  -- A operation whose values are valid is read back from its document as it was written.
  pub operation_from_dict-to_dict :
      (o : Operation) → ValidOperation py o → from_dict py (to_dict o) ≡ ok o
  unfolding from_dict
  operation_from_dict-to_dict o v = ap (read py) (fun_ext (lookup-to_dict o)) ∙ read-entries o v
