-- ===== src/Contracts/Events/RoundTrip.antt =====
-- What `to_dict` writes of a `Event`, `from_dict` reads back.
use asterun.Prelude.{String, ◌≡◌, refl, lookup, string_eq, ap, ◌∙◌, fun_ext}
use asterun.Errors.{ok}
use asterun.Json.{Python}
use asterun.Json.Entries.{join, lookup-compact, listed_once}
use asterun.Json.Readings.{fields_or_empty-object}
use asterun.Contracts.Enums.{event_type_from-text}
use asterun.Contracts.Events.{Event, entries, to_dict, read, from_dict}

-- Each key of the document is read as it was written.
lookup-to_dict : (e : Event) (key : String) → lookup key (to_dict e) ≡ join (lookup key (entries e))
unfolding lookup listed_once
lookup-to_dict e key = lookup-compact key (entries e) refl

module _ (py : Python) where
  read-entries : (e : Event) → read py (λ key. join (lookup key (entries e))) ≡ ok e
  unfolding lookup
  read-entries e = rw (event_type_from-text e.event_type, fields_or_empty-object py e.payload) refl

  -- A event is read back from its document as it was written.
  pub event_from_dict-to_dict : (e : Event) → from_dict py (to_dict e) ≡ ok e
  unfolding from_dict
  event_from_dict-to_dict e = ap (read py) (fun_ext (lookup-to_dict e)) ∙ read-entries e
