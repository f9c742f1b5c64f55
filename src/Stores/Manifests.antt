-- ===== src/Stores/Manifests.antt =====
-- The manifest that `save_payload_manifest` of src/asterun/store.py and src/asterun/sqlite_store.py puts into a
-- run, and the identifiers of `list_task_ids`.
use asterun.Prelude.{String, Option, none, some, List, [], ◌∷◌, ◌==◌, string_eq, if◌then◌else◌}
use asterun.Errors.{Result, ok, err, type_error, ◌>>=◌}
use asterun.Json.{Json, string, object, Fields, no_fields, field, get_field, Python, typed_id}
use asterun.Contracts.Runs.{Run}

-- `mapping[key] = value`
abbrev pub set_field : String → Json → Fields → Fields
set_field key v no_fields = field key v no_fields
set_field key v (field k w fs) =
    let rest = set_field key v fs in if k == key then field k v fs else field k w rest

-- `native.setdefault('payload_manifests', {})`, which must take an item
abbrev pub manifests : Option Json → Result Fields
manifests none = ok no_fields
manifests (some (object fs)) = ok fs
manifests (some v) = err type_error

abbrev pub with_manifest : String → Json → Run → Result Run
with_manifest scope manifest r = do
  held ← manifests (get_field "payload_manifests" r.native)
  ok (record r {
    native = set_field "payload_manifests" (object (set_field scope manifest held)) r.native;
  })

module _ (py : Python) where
  -- `[TaskId(key) for key in keys]`
  abbrev pub typed_ids : List String → Result (List String)
  typed_ids [] = ok []
  typed_ids (s ∷ ss) = do id ← typed_id py (string s); ids ← typed_ids ss; ok (id ∷ ids)
