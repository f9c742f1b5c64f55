-- ===== src/Control/Entities.antt =====
-- `get`, `put` and `_put` of control_store.py, and the blobs.
pub mod Blobs
use asterun.Prelude.{
  ℕ, String, ◌≡◌, Bool, true, false, not, ◌&&◌, Option, none, some, List, [], ◌∷◌, Dict, lookup,
  insert, ◌==◌, string_eq, nat_eq, list_eq, pair_eq, if◌then◌else◌,
}
use asterun.Errors.{Code, Result, ok, err, not_found, invalid_request, invalid_state}
use asterun.Errors.Exec.{
  Exec, pure, raise, need, gets, modify, raise_when, transaction, ◌>>=◌, ◌>>◌,
}
use asterun.Control.Db.{Db, Entity, Event, Body}

-- the row of control_events with this namespace and id
unfoldable pub find_event : String → String → List Event → Option Event
find_event namespace id [] = none
find_event namespace id (e ∷ es) =
    if (e.namespace_id == namespace) && (e.id == id) then some e else find_event namespace id es

abbrev pub event_entity : Event → Entity
event_entity e = record {
  namespace_id = e.namespace_id;
  kind = "Event";
  id = e.id;
  body = Body.event e;
}

abbrev pub found_event : Option Event → Option Entity
found_event none = none
found_event (some e) = some (event_entity e)

unfoldable pub select : String → String → String → Db → Option Entity
unfolding find_event
select kind id namespace s =
    if kind == "Event"
    then found_event (find_event namespace id s.events)
    else lookup (namespace, (kind, id)) s.entities

unfoldable pub get : String → String → String → Exec Db Entity
unfolding select
get kind id namespace s = need (select kind id namespace s) not_found s

-- `_put`: insert, or replace the payload of the key
unfoldable pub put_row : Entity → Db → Db
put_row e s = record s { entities = insert (e.namespace_id, (e.kind, e.id)) e s.entities }

unfoldable pub put : Entity → Exec Db Entity
unfolding put_row transaction
put e =
    raise_when (e.kind == "Event") invalid_request >> (transaction (modify (put_row e)) >> pure e)

-- `sha256` is hashlib's digest in hexadecimal.
module _ (sha256 : List ℕ → String) where
  -- the content of a found blob, whose digest is checked again
  abbrev pub checked_blob : String → Option (List ℕ) → Exec Db (List ℕ)
  checked_blob digest none = raise not_found
  checked_blob digest (some content) =
      if sha256 content == digest then pure content else raise invalid_state

  unfoldable pub get_blob : String → String → Exec Db (List ℕ)
  get_blob namespace digest s = checked_blob digest (lookup (namespace, digest) s.blobs) s

  -- INSERT OR IGNORE
  abbrev pub insert_blob : String → List ℕ → Db → Db
  insert_blob namespace content s = elim (lookup (namespace, sha256 content) s.blobs) [
    | none ↦ record s { blobs = insert (namespace, sha256 content) content s.blobs }
    | some _ ↦ s
  ]

  -- the re-reading of the blob that was just inserted
  abbrev pub reread : List ℕ → String → List ℕ → Exec Db String
  reread content digest stored = if stored == content then pure digest else raise invalid_state

  unfoldable pub put_blob : String → List ℕ → Exec Db String
  unfolding transaction get_blob
  put_blob namespace content = transaction do
    modify (insert_blob namespace content)
    stored ← get_blob namespace (sha256 content)
    reread content (sha256 content) stored
