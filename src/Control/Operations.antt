-- ===== src/Control/Operations.antt =====
-- `find_operation` and `save_operation` of control_store.py: an idempotency key is bound to one
-- operation and one command digest.
pub mod Binding
use asterun.Prelude.{
  String, Bool, true, false, ◌&&◌, ◌||◌, Option, none, some, List, [], ◌∷◌, lookup, insert, Dict,
  ◌==◌, string_eq, pair_eq, if◌then◌else◌,
}
use asterun.Errors.{Code, Result, ok, err, idempotency_conflict}
use asterun.Errors.Exec.{
  Exec, Unit₀, pure, raise, gets, modify, raise_when, transaction, ◌>>=◌, ◌>>◌,
}
use asterun.Control.Db.{Db, Entity}
use asterun.Control.Entities.{get, put_row}

-- namespace, principal, method and idempotency key
abbrev pub Key : Type 0
Key = String × (String × (String × String))

abbrev pub bound : Db → Key → Option (String × String)
bound s key = lookup key s.operations

abbrev pub find_bound : String → Option (String × String) → Exec Db (Option Entity)
find_bound namespace none s = (ok none, s)
find_bound namespace (some (id, digest)) s = elim ((get "Operation" id namespace s).0) [
  | ok operation ↦ (ok (some operation), s)
  | err c ↦ (err c, s)
]

unfoldable pub find_operation : String → String → String → String → Exec Db (Option Entity)
unfolding get
find_operation namespace principal method key s =
    find_bound namespace (bound s (namespace, (principal, (method, key)))) s

-- UNIQUE(namespace_id, operation_id)
unfoldable pub operation_taken : String → String → Dict Key (String × String) → Bool
operation_taken namespace id [] = false
operation_taken namespace id (((n, k), (i, d)) ∷ rows) =
    ((n == namespace) && (i == id)) || operation_taken namespace id rows

-- the row of the key decides: it is returned, refused, or inserted
abbrev pub save_row : Entity → Key → String → Option (String × String) → Exec Db Entity
save_row operation key digest (some (id, old)) =
    if old == digest then get "Operation" id operation.namespace_id else raise idempotency_conflict
save_row operation key digest none = do
  taken ← gets (λ s. operation_taken operation.namespace_id operation.id s.operations)
  raise_when taken idempotency_conflict
  modify (λ s. record s { operations = insert key (operation.id, digest) s.operations })
  modify (put_row operation)
  pure operation

-- `method` is the operation's own field.
unfoldable pub save_operation : Entity → String → String → String → String → Exec Db Entity
unfolding transaction get put_row operation_taken
save_operation operation method principal key digest =
    let k : Key = (operation.namespace_id, (principal, (method, key))) in
    transaction (λ s. save_row operation k digest (bound s k) s)
