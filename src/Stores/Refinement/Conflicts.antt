-- ===== src/Stores/Refinement/Conflicts.antt =====
-- The errors of `cas` and of a replayed intent are none of the database's constraints, and both stores
-- give `cas` the same to read.
use asterun.Prelude.{
  ℕ, String, Bool, true, false, Option, none, some, Dict, lookup, string_eq, ◌≡◌, refl, ap, fun_ext,
  Bool-cases, inl, inr,
}
use asterun.Errors.{Result, ok, err, not_found, ◌>>=◌}
use asterun.Errors.Exec.{need, settle_with, Unit₀}
use asterun.Json.{
  Json, null, boolean, integer, decimal, string, array, object, Fields, Python, required, get_field,
  typed_id, truthy, raw,
}
use asterun.Contracts.Tasks.{Task}
use asterun.Contracts.Tasks
use asterun.Contracts.Runs.{Run}
use asterun.Contracts.Runs
use asterun.Contracts.Approvals.{ApprovalRequest}
use asterun.Contracts.Operations.{Operation}
use asterun.Stores.Memory.{MemoryStore}
use asterun.Stores.Memory
use asterun.Stores.Transition.{Reads, cas, cas_record, conflict, mapping_of, same_authority}
use asterun.Stores.Sqlite.{SqliteStore}
use asterun.Stores.Sqlite
use asterun.Stores.Sqlite.Intents.{store_error, as_store_error}
use asterun.Stores.Sqlite.Intents
use asterun.Stores.Refinement.{Holds}
use asterun.Stores.Refinement.Documents.{read_row-Mirrors, find_pending_approval-ok}
use asterun.Stores.Refinement.EventCalls.{last_event_sequence-eq}
use asterun.Stores.Refinement.Keys.{find_operation_for_run-ok}

-- The result stays as it is where `commit_intent` turns the database's errors into its own.
abbrev pub Kept : {A : Type 0} → Result A → Type 0
Kept (ok a) = Unit
Kept (err c) = store_error c ≡ c

pub Kept-bind :
    {A B : Type 0} (r : Result A) (f : A → Result B)
    → Kept r
    → ((a : A) → Kept (f a))
    → Kept (r >>= f)
Kept-bind (ok a) f h k = k a
Kept-bind (err c) f h k = h

pub Kept-need : {S A : Type 0} (o : Option A) (s : S) → Kept (need o not_found s).0
Kept-need none s = refl
Kept-need (some a) s = tt

Kept-required : (o : Option Json) → Kept (required o)
Kept-required none = refl
Kept-required (some v) = tt

Kept-test :
    (b : Bool) (x y : Result Unit₀) → Kept x → Kept y → Kept (elim b [ true ↦ x | false ↦ y ])
Kept-test true x y h k = h
Kept-test false x y h k = k

pub settle-Kept :
    {A : Type 0} (r : Result A) (s : SqliteStore)
    → Kept r
    → as_store_error (settle_with s (r, s)) ≡ (r, s)
settle-Kept (ok a) s h = refl
settle-Kept (err c) s h = ap (λ c. (err c, s)) h

module _ (py : Python) (digest : Dict String Json → String) where
  Kept-typed_id : (v : Json) → Kept (typed_id py v)
  Kept-typed_id null = refl
  Kept-typed_id (boolean b) = refl
  Kept-typed_id (integer n) = refl
  Kept-typed_id (decimal t z) = refl
  Kept-typed_id (array xs) = refl
  Kept-typed_id (object fs) = refl
  Kept-typed_id (string s) = elim (Bool-cases (py.blank s)) [
    | inl blank ↦ rw blank refl
    | inr set ↦ rw set tt
  ]

  Kept-conflict : (b : Bool) → Kept (conflict py digest b)
  Kept-conflict true = refl
  Kept-conflict false = tt

  Kept-mapping_of : (v : Json) → Kept (mapping_of py digest v)
  Kept-mapping_of null = refl
  Kept-mapping_of (boolean b) = refl
  Kept-mapping_of (integer n) = refl
  Kept-mapping_of (decimal text z) = refl
  Kept-mapping_of (string s) = refl
  Kept-mapping_of (array xs) = refl
  Kept-mapping_of (object transition) = tt

  Kept-same_authority :
      (m : MemoryStore) (transition : Fields) (current : Task) (source : Run) (b : Bool)
      → Kept (same_authority py digest (Memory.reads m) transition current source b)
  Kept-same_authority m transition current source false = refl
  Kept-same_authority m transition current source true =
      Kept-bind (required (get_field "source_authority" transition)) _
        (Kept-required (get_field "source_authority" transition)) (λ authority. Kept-conflict _)

  Kept-cas_record :
      (m : MemoryStore) (t : Task) (v : Json) → Kept (cas_record py digest (Memory.reads m) t v)
  unfolding Memory.get_task Memory.get_run
  Kept-cas_record m t v =
      Kept-bind (need (lookup t.id m.tasks) not_found m).0 _ (Kept-need (lookup t.id m.tasks) m)
        (λ current. Kept-bind (mapping_of py digest v) _ (Kept-mapping_of v) (λ transition.
          Kept-bind (required (get_field "source_run_id" transition)) _
            (Kept-required (get_field "source_run_id" transition))
            (λ named. Kept-bind (typed_id py named) _ (Kept-typed_id named) (λ id.
              Kept-bind (need (lookup id m.runs) not_found m).0 _ (Kept-need (lookup id m.runs) m)
                (λ source.
                  Kept-bind (required (get_field "source_task_sha256" transition)) _
                    (Kept-required (get_field "source_task_sha256" transition))
                    (λ expected. Kept-same_authority m transition current source _))))))

  pub Kept-cas : (m : MemoryStore) (t : Task) (r : Run) → Kept (cas py digest (Memory.reads m) t r)
  unfolding cas
  Kept-cas m t r =
      Kept-test (truthy (raw (get_field "context_transition" r.native))) _ _
        (Kept-cas_record m t (raw (get_field "context_transition" r.native))) tt

module _ (py : Python) (m : MemoryStore) (s : SqliteStore) (h : Holds py m s) where
  get_task-eq : (id : String) → (Sqlite.get_task py id s).0 ≡ (Memory.get_task id m).0
  unfolding Sqlite.get_task Memory.get_task
  get_task-eq id =
      read_row-Mirrors m Tasks.to_dict (Tasks.from_dict py) id m.tasks s.tasks h.tasks_held

  get_run-eq : (id : String) → (Sqlite.get_run py id s).0 ≡ (Memory.get_run id m).0
  unfolding Sqlite.get_run Memory.get_run
  get_run-eq id = read_row-Mirrors m Runs.to_dict (Runs.from_dict py) id m.runs s.runs h.runs_held

  reads_of :
      (String → Result Task)
      → (String → Result Run)
      → (String → Result (Option ApprovalRequest))
      → (String → Result (Option Operation))
      → (String → ℕ)
      → Reads
  reads_of a b c d e = record {
    task = a;
    run = b;
    pending_approval = c;
    operation_for_run = d;
    event_sequence = e;
  }

  -- `cas` reads the same of both stores.
  pub reads-eq : Intents.reads py s ≡ Memory.reads m
  reads-eq =
      rw
        (
          fun_ext get_task-eq,
          fun_ext get_run-eq,
          fun_ext (find_pending_approval-ok py (λ d. "") m s h),
          fun_ext (find_operation_for_run-ok py m s h),
          fun_ext (last_event_sequence-eq py m s h),
        )
        refl
