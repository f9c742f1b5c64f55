-- ===== src/Contracts/Events.antt =====
-- `Event` of src/asterun/contracts.py with its `to_dict` and `from_dict`. A field that holds whatever was
-- read (`data.get(key)` with no conversion) is a JSON value.
pub mod RoundTrip
use asterun.Prelude.{
  String, ◌≡◌, refl, Bool, true, false, Option, none, some, List, [], ◌∷◌, Dict, lookup, string_eq,
  ◌==◌, ap, ◌∙◌, fun_ext,
}
use asterun.Prelude.Int.{ℤ, pos, eqb_ℤ}
use asterun.Errors.{Result, ok, err, ◌>>=◌}
use asterun.Json.{
  Json, null, boolean, integer, string, array, object, Items, no_items, Fields, no_fields, Python,
  truthy, required, raw, or_default, flag, required_text, text_or, text_default, required_int,
  int_or, fields_or_empty, optional_fields, items_or_empty, required_id, optional_id, is_true,
  text_only, optional_string, optional_object, unless_null,
}
use asterun.Json.Entries.{compact, when, join, lookup-compact, listed_once}
use asterun.Contracts.{RunStatus, OperationStatus, is_failed, failed_reason}
use asterun.Contracts.Enums.{
  AcceptanceStatus, DeliveryStatus, EventType, ApprovalState, run_status_text, run_status_from,
  run_status_from-text, operation_status_text, operation_status_from, operation_status_from-text,
  acceptance_status_text, acceptance_status_from, acceptance_status_from-text, delivery_status_text,
  delivery_status_from, delivery_status_from-text, event_type_text, event_type_from,
  event_type_from-text, approval_state_text, approval_state_from, approval_state_from-text,
}

pub record Event : Type 0 where
  pub seq : ℤ
  pub event_type : EventType
  pub source : String
  pub timestamp : String
  pub schema_version : ℤ
  pub payload : Fields

-- the keys of `to_dict`, where `none` is a key that is left out
abbrev pub entries : Event → Dict String (Option Json)
entries e =
    ("seq", some (integer e.seq))
    ∷ ("type", some (string (event_type_text e.event_type)))
    ∷ ("source", some (string e.source))
    ∷ ("timestamp", some (string e.timestamp))
    ∷ ("schema_version", some (integer e.schema_version))
    ∷ ("payload", some (object e.payload))
    ∷ []

abbrev pub to_dict : Event → Dict String Json
to_dict e = compact (entries e)

-- `from_dict`, which reads the document by its keys
module _ (py : Python) where
  abbrev pub read : (String → Option Json) → Result Event
  read get = do
    seq' ← required_int py (get "seq")
    event_type' ← event_type_from (get "type")
    source' ← required_text py (get "source")
    timestamp' ← required_text py (get "timestamp")
    schema_version' ← required_int py (get "schema_version")
    payload' ← fields_or_empty py (get "payload")
    ok (record {
      seq = seq';
      event_type = event_type';
      source = source';
      timestamp = timestamp';
      schema_version = schema_version';
      payload = payload';
    })

  unfoldable pub from_dict : Dict String Json → Result Event
  from_dict document = read (λ key. lookup key document)
