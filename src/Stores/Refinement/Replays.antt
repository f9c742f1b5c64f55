-- ===== src/Stores/Refinement/Replays.antt =====
-- The branch of `commit_intent` for a key that is there, in the two stores.
use asterun.Prelude.{
  String, true, Option, none, some, lookup, ◌==◌, string_eq, pair_eq, ◌≡◌, refl, ap, ◌∙◌,
  Option-cases, Bool-cases, inl, inr,
}
use asterun.Errors.{Result, ok, err, not_found, idempotency_conflict}
use asterun.Errors.Exec.{settle_with}
use asterun.Json.{Python}
use asterun.Contracts.Tasks.{Task}
use asterun.Contracts.Tasks
use asterun.Contracts.Runs.{Run}
use asterun.Contracts.Runs
use asterun.Contracts.Operations.{Operation}
use asterun.Stores.Memory.{
  MemoryStore, key_of, head, Intent, intend, references, store_intent, with_session,
}
use asterun.Stores.Memory
use asterun.Stores.Sqlite.{SqliteStore}
use asterun.Stores.Sqlite
use asterun.Stores.Sqlite.Intents.{row_of, operation_of, as_store_error, row_has_key, find_id}
use asterun.Stores.Sqlite.Intents
use asterun.Stores.Mirrors.{lookup-map_values, map_option}
use asterun.Stores.Refinement.{Holds}
use asterun.Stores.Refinement.Documents.{read_row-Mirrors}
use asterun.Stores.Refinement.Keys.{read_operation-eq}
use asterun.Stores.Refinement.Conflicts.{Kept, settle-Kept}

-- The same result, and a database that still holds what is in memory.
abbrev pub SameResult :
    {A : Type 0} → Python → Result A × MemoryStore → Result A × SqliteStore → Type 0
SameResult py x y = (y.0 ≡ x.0) × Holds py x.1 y.1

module _ (py : Python) (m : MemoryStore) (s : SqliteStore) (h : Holds py m s) where
  -- Both stores stay as they are, and answer alike with no error of a constraint.
  abbrev pub Unchanged : {A : Type 0} → Result A × MemoryStore → Result A × SqliteStore → Type 0
  Unchanged {A} x y = (r : Result A) × (x ≡ (r, m)) × (y ≡ (r, s)) × Kept r

  -- what a transaction makes of them
  pub Unchanged-SameResult :
      {A : Type 0} (x : Result A × MemoryStore) (y : Result A × SqliteStore)
      → Unchanged x y
      → SameResult py x (as_store_error (settle_with s y))
  Unchanged-SameResult x y (r, ex, ey, k) = rw (ex, ey, settle-Kept r s k) (refl, h)

  refer-Unchanged :
      (p : Operation) (o : Option (String × String))
      → Unchanged {A = Intent} (Memory.refer p o m) (Intents.refer py p o s)
  unfolding Sqlite.get_run Sqlite.get_task Memory.get_run Memory.get_task
  refer-Unchanged p none = (err not_found, refl, refl, refl)
  refer-Unchanged p (some (t, r)) = elim (Option-cases (lookup t m.tasks)) [
    | inl e ↦
        rw (read_row-Mirrors m Tasks.to_dict (Tasks.from_dict py) t m.tasks s.tasks h.tasks_held, e)
          (err not_found, refl, refl, refl)
    | inr (task, e) ↦
        rw (read_row-Mirrors m Tasks.to_dict (Tasks.from_dict py) t m.tasks s.tasks h.tasks_held, e)
          (elim (Option-cases (lookup r m.runs)) [
            | inl e' ↦
                rw
                  (
                    read_row-Mirrors m Runs.to_dict (Runs.from_dict py) r m.runs s.runs h.runs_held,
                    e',
                  )
                  (err not_found, refl, refl, refl)
            | inr (run, e') ↦
                rw
                  (
                    read_row-Mirrors m Runs.to_dict (Runs.from_dict py) r m.runs s.runs h.runs_held,
                    e',
                  )
                  (ok (p, (task, (run, true))), refl, refl, tt)
          ])
  ]

  row_there :
      (id : String) (p : Operation)
      → lookup id m.operations ≡ some p
      → lookup id s.operations ≡ some (row_of p)
  row_there id p e =
      ap (lookup id) h.operations_held.copied
      ∙ lookup-map_values row_of id m.operations
      ∙ ap (map_option row_of) e

  pub replay-Unchanged :
      (p o : Operation) (id : String)
      → lookup id m.operations ≡ some p
      → Unchanged {A = Intent} (Memory.replay p o m) (Intents.replay py id o s)
  unfolding Memory.replay Intents.get_operation
  replay-Unchanged p o id e =
      rw (row_there id p e, Intents.replay_row)
        (elim (Bool-cases (p.input_hash == o.input_hash)) [
          | inl same ↦
              rw (same, read_operation-eq py m s h id, e) (refer-Unchanged p (references p))
          | inr other ↦ rw other (err idempotency_conflict, refl, refl, refl)
        ])
