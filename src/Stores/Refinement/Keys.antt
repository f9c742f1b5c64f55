-- ===== src/Stores/Refinement/Keys.antt =====
-- The operations of the two stores: the index of keys in memory and the search of a row.
use asterun.Prelude.{
  String, Bool, true, false, ◌⊎◌, ◌≢◌, none, some, [], ◌∷◌, Dict, lookup, insert, values, keep,
  ◌==◌, string_eq, pair_eq, ◌≡◌, refl, sym, ap, ◌∙◌, subst, arith, Bool-cases, Option-cases, inl,
  inr, if◌then◌else◌, lookup-insert,
}
use asterun.Errors.{ok, not_found}
use asterun.Errors.Exec.{need}
use asterun.Json.{Python}
use asterun.Json.Readings.{optional_id-string}
use asterun.Contracts.Enums.{operation_status_from-text}
use asterun.Contracts.Operations.{Operation}
use asterun.Contracts.Operations.RoundTrip.{ValidOperation}
use asterun.Stores.Memory.{MemoryStore, OperationKey, key_of, head, has_run}
use asterun.Stores.Memory
use asterun.Stores.Sqlite.{SqliteStore, OperationRow}
use asterun.Stores.Sqlite.Intents.{
  row_of, operation_of, read_operation, found, find_id, row_has_key, row_has_run,
}
use asterun.Stores.Sqlite.Intents
use asterun.Stores.Mirrors.{find_id-map_values, lookup-map_values, Readable-lookup}
use asterun.Stores.Refinement.{Holds, has_key, UniqueKeys}

-- A valid operation is read back from its row.
pub operation_of-row_of :
    (py : Python) (o : Operation) → ValidOperation py o → operation_of py o.id (row_of o) ≡ ok o
operation_of-row_of py o v =
    rw
      (
        v.id_valid.0,
        operation_status_from-text o.status,
        optional_id-string py o.task_id v.task_id_valid,
        optional_id-string py o.run_id v.run_id_valid,
      )
      refl

-- The first value of a new entry that passes is that of the earlier entries, if one of them passes.
pub head-insert_new :
    (test : Operation → Bool) (id : String) (o : Operation) (d : Dict String Operation)
    → lookup id d ≡ none
    → head (keep test (values (insert id o d))) ≡ (elim (head (keep test (values d))) [
      | none ↦ if test o then some o else none
      | some p ↦ some p
    ])
unfolding lookup insert
head-insert_new test id o [] fresh = elim (Bool-cases (test o)) [
  | inl hit ↦ rw hit refl
  | inr miss ↦ rw miss refl
]
head-insert_new test id o ((j, p) ∷ d) fresh = elim (Bool-cases (j == id)) [
  | inl same ↦ absurd (ground arith)
  | inr other ↦ rw other (elim (Bool-cases (test p)) [
    | inl hit ↦ rw hit refl
    | inr miss ↦ rw miss (head-insert_new test id o d (ground arith))
  ])
]

pub contradiction {ℓ} : {A : Type ℓ} (b : Bool) → b ≡ true → b ≡ false → A
contradiction b h k = absurd cc

pub has_key-same : (p : Operation) (key : OperationKey) → key_of p ≡ key → has_key key p ≡ true
has_key-same p key same = (pair_eq.equal_iff (key_of p) key).1 same

some_injective : {A : Type 0} {a b : A} → some a ≡ some b → a ≡ b
some_injective h = cc

-- What is stored after a write was written, or was there.
pub stored-cases :
    (k id : String) (o p : Operation) (d : Dict String Operation)
    → lookup k (insert id o d) ≡ some p
    → ((k ≡ id) × (p ≡ o)) ⊎ (lookup k d ≡ some p)
stored-cases k id o p d e = elim (Bool-cases (id == k)) [
  | inl same ↦ inl (
    sym ((string_eq.equal_iff id k).0 same),
    sym (some_injective (sym (lookup-insert id k o d ∙ rw same refl) ∙ e)),
  )
  | inr other ↦ inr (sym (lookup-insert id k o d ∙ rw other refl) ∙ e)
]

-- Where no value passes, a stored one does not.
stored_miss :
    (test : Operation → Bool) (id : String) (p : Operation) (d : Dict String Operation)
    → head (keep test (values d)) ≡ none
    → lookup id d ≡ some p
    → test p ≡ false
unfolding lookup
stored_miss test id p [] e l = absurd cc
stored_miss test id p ((j, q) ∷ d) e l = elim (Bool-cases (test q)) [
  | inl hit ↦ absurd (ground (arith, e, hit))
  | inr miss ↦ elim (Bool-cases (j == id)) [
    | inl same ↦ ground (arith, l, same, miss)
    | inr other ↦ stored_miss test id p d (ground (arith, e, miss)) (ground (arith, l, other))
  ]
]

module _ (py : Python) (m : MemoryStore) (s : SqliteStore) (h : Holds py m s) where
  -- A search over the rows finds what the same search over the values finds.
  find_row :
      (test' : OperationRow → Bool) (test : Operation → Bool)
      → ((o : Operation) → test' (row_of o) ≡ test o)
      → found py (find_id test' s.operations) s ≡ ok (head (keep test (values m.operations)))
  find_row test' test same =
      rw h.operations_held.copied
        (elim (find_id-map_values row_of test' test m.operations same h.ids_distinct) [
          | inl (e1, e2) ↦ rw (e1, e2) refl
          | inr (k, a, e1, e2, e3) ↦
              rw
                (
                  e1,
                  e2,
                  lookup-map_values row_of k m.operations,
                  e3,
                  Readable-lookup row_of (operation_of py) k a m.operations
                      h.operations_held.readable e3,
                )
                refl
        ])

  pub find_operation_for_run-ok :
      (id : String)
      → Intents.find_operation_for_run py id s ≡ ok (Memory.find_operation_for_run id m)
  unfolding Intents.find_operation_for_run Memory.find_operation_for_run
  find_operation_for_run-ok id = find_row (row_has_run id) (has_run id) (λ o. refl)

  pub find_operation_by_key-ok :
      (key : OperationKey)
      → Intents.find_operation_by_key py key s ≡ ok (Memory.find_operation_by_key key m)
  unfolding Intents.find_operation_by_key
  find_operation_by_key-ok key =
      find_row (row_has_key key) (has_key key) (λ o. refl) ∙ ap ok (sym (h.keys_held key))

  pub read_operation-eq :
      (id : String)
      → read_operation py id (lookup id s.operations)
        ≡ (need (lookup id m.operations) not_found m).0
  read_operation-eq id =
      rw (h.operations_held.copied, lookup-map_values row_of id m.operations)
        (elim (Option-cases (lookup id m.operations)) [
          | inl e ↦ rw e refl
          | inr (a, e) ↦ rw e (
              Readable-lookup row_of (operation_of py) id a m.operations h.operations_held.readable
                e)
        ])

  -- The index of keys, once an operation with a new id and a new key is stored.
  pub keys-insert_new :
      (o : Operation)
      → lookup o.id m.operations ≡ none
      → lookup (key_of o) m.ops_by_key ≡ none
      → (key : OperationKey)
      → lookup key (insert (key_of o) o m.ops_by_key)
        ≡ head (keep (has_key key) (values (insert o.id o m.operations)))
  keys-insert_new o fresh unused key =
      rw
        (
          lookup-insert (key_of o) key o m.ops_by_key,
          head-insert_new (has_key key) o.id o m.operations fresh,
          sym (h.keys_held key),
        )
        (elim (Bool-cases (has_key key o)) [
          | inl hit ↦
              rw
                (
                  hit,
                  subst (λ k. lookup k m.ops_by_key ≡ none)
                      ((pair_eq.equal_iff (key_of o) key).0 hit) unused,
                  hit,
                )
                refl
          | inr miss ↦ elim (Option-cases (lookup key m.ops_by_key)) [
            | inl e ↦ rw (miss, e, miss) refl
            | inr (p, e) ↦ rw (miss, e) refl
          ]
        ])

  unused_key :
      (o : Operation)
      → lookup (key_of o) m.ops_by_key ≡ none
      → (k : String) (p : Operation) → lookup k m.operations ≡ some p
      → key_of p ≢ key_of o
  unused_key o unused k p l same =
      contradiction (has_key (key_of o) p) (has_key-same p (key_of o) same) (
        stored_miss (has_key (key_of o)) k p m.operations (sym (h.keys_held (key_of o)) ∙ unused) l)

  -- A new operation with a new key keeps the keys apart.
  pub unique-insert_new :
      (o : Operation)
      → lookup o.id m.operations ≡ none
      → lookup (key_of o) m.ops_by_key ≡ none
      → UniqueKeys (insert o.id o m.operations)
  unique-insert_new o fresh unused k j p q e1 e2 same =
      elim (stored-cases k o.id o p m.operations e1) [
        | inl (a, b) ↦ elim (stored-cases j o.id o q m.operations e2) [
          | inl (c, d) ↦ a ∙ sym c
          | inr l ↦ absurd (unused_key o unused j q l (sym same ∙ ap key_of b))
        ]
        | inr l ↦ elim (stored-cases j o.id o q m.operations e2) [
          | inl (c, d) ↦ absurd (unused_key o unused k p l (same ∙ ap key_of d))
          | inr l' ↦ h.unique_held k j p q l l' same
        ]
      ]
