-- ===== src/Stores/Refinement/Updates.antt =====
-- `save_operation` in the two stores, on an operation that is stored.
use asterun.Prelude.{
  String, Bool, true, false, some, [], ◌∷◌, Dict, lookup, insert, values, keep, ◌==◌, string_eq,
  pair_eq, ◌≡◌, refl, sym, ap, ◌∙◌, subst, arith, Bool-cases, inl, inr, Distinct, Distinct-insert,
  lookup-insert, ==_refl,
}
use asterun.Json.{Json, Python}
use asterun.Contracts.Operations.{Operation}
use asterun.Contracts.Operations.RoundTrip.{ValidOperation}
use asterun.Stores.Memory.{MemoryStore, OperationKey, key_of, head}
use asterun.Stores.Memory
use asterun.Stores.Sqlite.{SqliteStore, OperationRow}
use asterun.Stores.Sqlite.Intents.{row_of, operation_of, update_row, updated}
use asterun.Stores.Sqlite.Intents
use asterun.Stores.Mirrors.{Mirrors-insert, lookup-map_values, map_option}
use asterun.Stores.Refinement.{
  Holds, SameStep, Admits, save_operation, in_memory, in_database, has_key, UniqueKeys,
}
use asterun.Stores.Refinement.Keys.{operation_of-row_of, stored-cases, contradiction}

-- A value that does not pass, written over one that does not, changes no search.
head-insert_miss :
    (test : Operation → Bool) (id : String) (o p : Operation) (d : Dict String Operation)
    → lookup id d ≡ some p
    → test p ≡ false
    → test o ≡ false
    → head (keep test (values (insert id o d))) ≡ head (keep test (values d))
unfolding lookup insert
head-insert_miss test id o p [] l missed miss = absurd cc
head-insert_miss test id o p ((j, q) ∷ d) l missed miss = elim (Bool-cases (j == id)) [
  | inl same ↦ ground (arith, l, same, missed, miss)
  | inr other ↦ rw other (elim (Bool-cases (test q)) [
    | inl hit ↦ rw hit refl
    | inr m ↦ rw m (head-insert_miss test id o p d (ground (arith, l, other)) missed miss)
  ])
]

-- A value that passes is found where no other stored one does.
head-insert_only :
    (test : Operation → Bool) (id : String) (o p : Operation) (d : Dict String Operation)
    → Distinct d
    → lookup id d ≡ some p
    → test o ≡ true
    → ((j : String) (q : Operation) → lookup j d ≡ some q → test q ≡ true → j ≡ id)
    → head (keep test (values (insert id o d))) ≡ some o
unfolding lookup insert
head-insert_only test id o p [] distinct l hit only = absurd cc
head-insert_only test id o p ((j, q) ∷ d) distinct l hit only = elim (Bool-cases (j == id)) [
  | inl same ↦ rw (same, hit) refl
  | inr other ↦ rw other (elim (Bool-cases (test q)) [
    | inl hit' ↦
        contradiction (j == id) ((string_eq.equal_iff j id).1 (only j q (rw (==_refl j) refl) hit'))
          other
    | inr m ↦ rw m (
        head-insert_only test id o p d distinct.1 (ground (arith, l, other)) hit (λ i r e t.
          only i r
            (elim (Bool-cases (j == i)) [
              | inl same ↦ ground (arith, string_eq.equal_iff j i, same, distinct.0, e)
              | inr apart ↦ rw apart e
            ])
            t))
  ])
]

-- a row by the columns that are not updated
abbrev columns : Operation → OperationKey → String → String → OperationRow
columns o (principal', (action', (target', key'))) hash' created' = record (row_of o) {
  principal = principal';
  action = action';
  target = target';
  idempotency_key = key';
  input_hash = hash';
  created_at = created';
}

-- The columns that are not updated were the same.
update_row-row_of :
    (o p : Operation)
    → key_of p ≡ key_of o
    → p.input_hash ≡ o.input_hash
    → p.created_at ≡ o.created_at
    → update_row o (row_of p) ≡ row_of o
update_row-row_of o p k e c =
    ap (λ k. columns o k p.input_hash p.created_at) k
    ∙ ap (λ x. columns o (key_of o) x p.created_at) e
    ∙ ap (columns o (key_of o) o.input_hash) c

module _ (py : Python) (m : MemoryStore) (s : SqliteStore) (h : Holds py m s) (o p : Operation)
    (stored : lookup o.id m.operations ≡ some p) (same : key_of p ≡ key_of o) where
  -- what is stored after the write has the key of what was stored under its id
  stored_before :
      (k : String) (q : Operation)
      → lookup k (insert o.id o m.operations) ≡ some q
      → (r : Operation) × (lookup k m.operations ≡ some r) × (key_of r ≡ key_of q)
  stored_before k q e = elim (stored-cases k o.id o q m.operations e) [
    | inl (a, b) ↦ (p, ap (λ k. lookup k m.operations) a ∙ stored, same ∙ ap key_of (sym b))
    | inr l ↦ (q, l, refl)
  ]

  unique-update : UniqueKeys (insert o.id o m.operations)
  unique-update k j q r e1 e2 e =
      let (q', l1, k1) = stored_before k q e1 in
      let (r', l2, k2) = stored_before j r e2 in h.unique_held k j q' r' l1 l2 (k1 ∙ e ∙ sym k2)

  keys-update :
      (key : OperationKey)
      → lookup key (insert (key_of o) o m.ops_by_key)
        ≡ head (keep (has_key key) (values (insert o.id o m.operations)))
  keys-update key = elim (Bool-cases (has_key key o)) [
    | inl hit ↦
        lookup-insert (key_of o) key o m.ops_by_key
        ∙ rw hit (
            sym (
              head-insert_only (has_key key) o.id o p m.operations h.ids_distinct stored hit
                (λ j q l t. h.unique_held j o.id q p l stored (
                  (pair_eq.equal_iff (key_of q) key).0 t
                  ∙ sym ((pair_eq.equal_iff (key_of o) key).0 hit)
                  ∙ sym same))))
    | inr miss ↦
        lookup-insert (key_of o) key o m.ops_by_key
        ∙ rw miss (
            h.keys_held key
            ∙ sym (
                head-insert_miss (has_key key) o.id o p m.operations stored
                  (ap (λ k. k == key) same ∙ miss) miss))
  ]

module _ (py : Python) (m : MemoryStore) (s : SqliteStore) (h : Holds py m s)
    (digest : Dict String Json → String) where
  updated-Holds :
      (o p : Operation)
      → ValidOperation py o
      → lookup o.id m.operations ≡ some p
      → key_of p ≡ key_of o
      → Holds py
          (record m {
            operations = insert o.id o m.operations;
            ops_by_key = insert (key_of o) o m.ops_by_key;
          })
          (record s { operations = insert o.id (row_of o) s.operations })
  updated-Holds o p v stored same = record {
    tasks_held = h.tasks_held;
    runs_held = h.runs_held;
    approvals_held = h.approvals_held;
    sessions_held = h.sessions_held;
    operations_held =
        Mirrors-insert row_of (operation_of py) o.id o m.operations s.operations
          (operation_of-row_of py o v) h.operations_held;
    events_held = h.events_held;
    revision_held = h.revision_held;
    failure_held = h.failure_held;
    ids_distinct = Distinct-insert o.id o m.operations h.ids_distinct;
    keys_held = keys-update py m s h o p stored same;
    unique_held = unique-update py m s h o p stored same;
  }

  row_of_stored :
      (o p : Operation)
      → lookup o.id m.operations ≡ some p
      → lookup o.id s.operations ≡ some (row_of p)
  row_of_stored o p stored =
      ap (lookup o.id) h.operations_held.copied
      ∙ lookup-map_values row_of o.id m.operations
      ∙ ap (map_option row_of) stored

  pub save_operation-SameStep :
      (o : Operation)
      → Admits py (save_operation o) m
      → SameStep py
          (in_memory py digest (save_operation o) m)
          (in_database py digest (save_operation o) s)
  unfolding Memory.save_operation Intents.save_operation
  save_operation-SameStep o (v, (p, stored, same, e, c)) = (
    refl,
    subst
        (λ s'.
          Holds py
            (record m {
              operations = insert o.id o m.operations;
              ops_by_key = insert (key_of o) o m.ops_by_key;
            })
            s')
        (sym (
          ap (λ r. updated o r s) (row_of_stored o p stored)
          ∙ ap (λ r. record s { operations = insert o.id r s.operations })
              (update_row-row_of o p same e c)))
        (updated-Holds o p v stored same),
  )
