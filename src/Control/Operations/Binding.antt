-- ===== src/Control/Operations/Binding.antt =====
-- The binding of an idempotency key lasts.
use asterun.Prelude.{
  String, ◌≡◌, inl, inr, none, some, insert, arith, ◌==◌, string_eq, pair_eq, lookup-insert_self,
  if◌then◌else◌, Bool-cases,
}
use asterun.Errors.{ok, err, idempotency_conflict}
use asterun.Control.Db.{Db, Entity}
use asterun.Control.Entities.{get, put_row}
use asterun.Control.Operations.{Key, bound, save_operation, find_operation, operation_taken}

module _ (op : Entity) (method principal key digest : String) where
  abbrev op_key : Key
  op_key = (op.namespace_id, (principal, (method, key)))

  -- the tables after a new operation was saved
  abbrev saved : Db → Db
  saved s = put_row op (record s { operations = insert op_key (op.id, digest) s.operations })

  saved_is :
      (s s' : Db) (r : Entity)
      → bound s op_key ≡ none
      → save_operation op method principal key digest s ≡ (ok r, s')
      → (r ≡ op) × (s' ≡ saved s)
  unfolding save_operation
  saved_is s s' r new h = elim (Bool-cases (operation_taken op.namespace_id op.id s.operations)) [
    | inl taken ↦ absurd (ground arith)
    | inr free ↦ ground arith
  ]

  get-saved :
      (s : Db)
      → op.kind ≡ "Operation"
      → get "Operation" op.id op.namespace_id (saved s) ≡ (ok op, saved s)
  unfolding get put_row
  get-saved s k =
      ground (arith, k, lookup-insert_self (op.namespace_id, (op.kind, op.id)) op s.entities)

  bound-saved : (s : Db) → bound (saved s) op_key ≡ some (op.id, digest)
  unfolding put_row
  bound-saved s = lookup-insert_self op_key (op.id, digest) s.operations

  found :
      (s : Db)
      → bound s op_key ≡ some (op.id, digest)
      → get "Operation" op.id op.namespace_id s ≡ (ok op, s)
      → find_operation op.namespace_id principal method key s ≡ (ok (some op), s)
  unfolding find_operation
  found s old e = ground (arith, old, e)

  again :
      (op' : Entity) (digest' : String) (s : Db)
      → op'.namespace_id ≡ op.namespace_id
      → bound s op_key ≡ some (op.id, digest)
      → get "Operation" op.id op.namespace_id s ≡ (ok op, s)
      → save_operation op' method principal key digest' s
        ≡ (if digest == digest' then (ok op, s) else (err idempotency_conflict, s))
  unfolding save_operation
  again op' digest' s same old found = rw same (
      rw (old, save_operation)
        (elim (Bool-cases (digest == digest')) [
          | inl same_digest ↦ rw same_digest (ground (arith, found))
          | inr other ↦ rw other
        ]))

  -- After a new operation was saved under its key, saving any operation under that key gives back
  -- the first one where the digest of the command is the same, and is refused as a conflict where it
  -- is not; `find_operation` finds the first one. None of these changes the tables.
  pub save_operation-bound :
      (op' r : Entity) (digest' : String) (s s' : Db)
      → op.kind ≡ "Operation"
      → op'.namespace_id ≡ op.namespace_id
      → bound s op_key ≡ none
      → save_operation op method principal key digest s ≡ (ok r, s')
      → (save_operation op' method principal key digest' s'
          ≡ (if digest == digest' then (ok op, s') else (err idempotency_conflict, s')))
        × (find_operation op.namespace_id principal method key s' ≡ (ok (some op), s'))
  save_operation-bound op' r digest' s s' k same new h =
      let (_, s'_is) = saved_is s s' r new h in
      rw s'_is (
        again op' digest' (saved s) same (bound-saved s) (get-saved s k),
        found (saved s) (bound-saved s) (get-saved s k),
      )
