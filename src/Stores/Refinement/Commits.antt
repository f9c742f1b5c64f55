-- ===== src/Stores/Refinement/Commits.antt =====
-- `commit_intent` in the two stores.
use asterun.Prelude.{
  String, Bool, true, false, Option, none, some, Dict, lookup, insert, string_eq, pair_eq, ◌≡◌,
  refl, sym, ap, ◌∙◌, subst, inl, inr, if◌then◌else◌, Distinct-insert,
}
use asterun.Errors.{Result, ok, err, intent_persist_failed, Result-cases}
use asterun.Errors.Exec.{settle_with, transaction, continue, Exec, Unit₀, pure, ◌>>◌}
use asterun.Json.{Json, Python}
use asterun.Contracts.Tasks.{Task}
use asterun.Contracts.Tasks
use asterun.Contracts.Tasks.RoundTrip.{task_from_dict-to_dict}
use asterun.Contracts.Runs.{Run}
use asterun.Contracts.Runs
use asterun.Contracts.Runs.RoundTrip.{run_from_dict-to_dict}
use asterun.Contracts.Sessions.{SessionBinding}
use asterun.Contracts.Sessions
use asterun.Contracts.Sessions.RoundTrip.{session_binding_from_dict-to_dict}
use asterun.Contracts.Operations.{Operation}
use asterun.Stores.Transition.{cas}
use asterun.Stores.Memory.{
  MemoryStore, key_of, head, Intent, intend, references, store_intent, with_session,
}
use asterun.Stores.Memory
use asterun.Stores.Sqlite.{SqliteStore}
use asterun.Stores.Sqlite
use asterun.Stores.Sqlite.Intents.{row_of, operation_of, as_store_error, row_has_key, find_id}
use asterun.Stores.Sqlite.Intents
use asterun.Stores.Mirrors.{
  Mirrors, Mirrors-insert, find_id-map_values, lookup-map_values, map_option,
}
use asterun.Stores.Refinement.{Holds, Admits, commit_intent, no_hooks, has_key, ValidSession}
use asterun.Stores.Refinement.Keys.{operation_of-row_of, keys-insert_new, unique-insert_new}
use asterun.Stores.Refinement.Conflicts.{Kept, Kept-cas, reads-eq}
use asterun.Stores.Refinement.Replays.{SameResult, Unchanged-SameResult, replay-Unchanged}

fork :
    {A : Type 0} (py : Python) (b : Bool) (x x' : Result A × MemoryStore)
    (y y' : Result A × SqliteStore)
    → SameResult py x y
    → SameResult py x' y'
    → SameResult py (if b then x else x') (if b then y else y')
fork py true x x' y y' h h' = h
fork py false x x' y y' h h' = h'

-- A statement that goes through, and what follows it.
then-ok :
    {B : Type 0} (first : Exec SqliteStore Unit₀) (next : Exec SqliteStore B) (s s' : SqliteStore)
    → first s ≡ (ok tt, s')
    → (first >> next) s ≡ next s'
then-ok first next s s' e = ap (λ x. continue x.0 (λ u. next) x.1) e

-- A row is missing where the value is.
row_absent :
    {A B : Type 0} (enc : A → B) (dec : String → B → Result A) (id : String) (m : Dict String A)
    (d : Dict String B)
    → Mirrors enc dec m d
    → lookup id m ≡ none
    → lookup id d ≡ none
row_absent enc dec id m d h e =
    ap (lookup id) h.copied ∙ lookup-map_values enc id m ∙ ap (map_option enc) e

module _ (py : Python) (m : MemoryStore) (s : SqliteStore) (h : Holds py m s) where
  abbrev sessions_with :
      Option SessionBinding → Dict String (Dict String Json) → Dict String (Dict String Json)
  sessions_with none d = d
  sessions_with (some b) d = insert b.conversation_id (Sessions.to_dict b) d

  sessions-Mirrors :
      (b : Option SessionBinding)
      → ValidSession py b
      → Mirrors Sessions.to_dict
          (λ k. Sessions.from_dict py)
          (with_session b m.sessions)
          (sessions_with b s.sessions)
  sessions-Mirrors none v = h.sessions_held
  sessions-Mirrors (some b) v =
      Mirrors-insert Sessions.to_dict (λ k. Sessions.from_dict py) b.conversation_id b m.sessions
        s.sessions (session_binding_from_dict-to_dict py b v) h.sessions_held

  recovered :
      Holds py (record m { fail_next_intent = false }) (record s { fail_next_intent = false })
  recovered = record {
    tasks_held = h.tasks_held;
    runs_held = h.runs_held;
    approvals_held = h.approvals_held;
    sessions_held = h.sessions_held;
    operations_held = h.operations_held;
    events_held = h.events_held;
    revision_held = h.revision_held;
    failure_held = refl;
    ids_distinct = h.ids_distinct;
    keys_held = h.keys_held;
    unique_held = h.unique_held;
  }

  -- the rows of a new intent, in a database and in memory
  module _ (o : Operation) (t : Task) (r : Run) (b : Option SessionBinding) where
    abbrev written : SqliteStore
    written = record s {
      operations = insert o.id (row_of (intend o t r)) s.operations;
      tasks = insert t.id (Tasks.to_dict t) s.tasks;
      runs = insert r.id (Runs.to_dict r) s.runs;
      sessions = sessions_with b s.sessions;
    }

    written-Holds :
        Admits py (commit_intent o t r b) m
        → lookup (key_of o) m.ops_by_key ≡ none
        → Holds py (store_intent (intend o t r) t r b m) written
    unfolding store_intent
    written-Holds a unused = record {
      tasks_held =
          Mirrors-insert Tasks.to_dict (λ k. Tasks.from_dict py) t.id t m.tasks s.tasks
            (task_from_dict-to_dict py t a.1) h.tasks_held;
      runs_held =
          Mirrors-insert Runs.to_dict (λ k. Runs.from_dict py) r.id r m.runs s.runs
            (run_from_dict-to_dict py r a.2) h.runs_held;
      approvals_held = h.approvals_held;
      sessions_held = sessions-Mirrors b a.3;
      operations_held =
          Mirrors-insert row_of (operation_of py) o.id (intend o t r) m.operations s.operations
            (operation_of-row_of py (intend o t r) a.0) h.operations_held;
      events_held = h.events_held;
      revision_held = h.revision_held;
      failure_held = h.failure_held;
      ids_distinct = Distinct-insert o.id (intend o t r) m.operations h.ids_distinct;
      keys_held = keys-insert_new py m s h (intend o t r) a.4 unused;
      unique_held = unique-insert_new py m s h (intend o t r) a.4 unused;
    }

    insert_operation-ok :
        lookup o.id m.operations ≡ none
        → find_id (row_has_key (key_of o)) s.operations ≡ none
        → Intents.insert_operation (intend o t r) s
          ≡ (ok tt, record s { operations = insert o.id (row_of (intend o t r)) s.operations })
    insert_operation-ok fresh unused =
        rw
          (
            row_absent row_of (operation_of py) o.id m.operations s.operations h.operations_held
                fresh,
            unused,
          )
          refl

    save_some_session-ok :
        (b : Option SessionBinding) (s : SqliteStore)
        → Intents.save_some_session b s
          ≡ (ok tt, record s { sessions = sessions_with b s.sessions })
    unfolding Sqlite.save_session
    save_some_session-ok none s = refl
    save_some_session-ok (some b) s = refl

    insert_run-ok :
        (s : SqliteStore)
        → lookup r.id s.runs ≡ none
        → Intents.insert_run r s ≡ (ok tt, record s { runs = insert r.id (Runs.to_dict r) s.runs })
    insert_run-ok s e = rw e refl

    -- the database after the first two statements, and after the third
    abbrev with_task : SqliteStore
    with_task = record s {
      operations = insert o.id (row_of (intend o t r)) s.operations;
      tasks = insert t.id (Tasks.to_dict t) s.tasks;
    }

    abbrev with_run : SqliteStore
    with_run = record with_task { runs = insert r.id (Runs.to_dict r) s.runs }

    -- the statements of a new intent break no constraint
    write_intent-written :
        (digest : Dict String Json → String)
        → Admits py (commit_intent o t r b) m
        → find_id (row_has_key (key_of o)) s.operations ≡ none
        → Intents.write_intent py digest no_hooks (intend o t r) t r b s ≡ (ok tt, written)
    write_intent-written digest a unused =
        then-ok (Intents.insert_operation (intend o t r)) _ s _ (insert_operation-ok a.4 unused)
        ∙ then-ok (Intents.insert_run r) _ with_task _ (
            insert_run-ok with_task
              (row_absent Runs.to_dict (λ k. Runs.from_dict py) r.id m.runs s.runs h.runs_held a.5))
        ∙ then-ok (Intents.save_some_session b) _ with_run _ (save_some_session-ok b with_run)

    module _ (digest : Dict String Json → String) where
      commit_new-SameResult :
          Admits py (commit_intent o t r b) m
          → lookup (key_of o) m.ops_by_key ≡ none
          → find_id (row_has_key (key_of o)) s.operations ≡ none
          → SameResult {A = Intent} py
              (Memory.commit_new py digest o t r b m)
              (as_store_error (settle_with s (Intents.commit_new py digest no_hooks o t r b s)))
      commit_new-SameResult a unused free =
          elim (Result-cases (cas py digest (Memory.reads m) t r)) [
            | inl (u, e) ↦
                rw
                  (
                    ap (λ x. cas py digest x t r) (reads-eq py m s h),
                    e,
                    then-ok {B = Intent}
                        (Intents.write_intent py digest no_hooks (intend o t r) t r b)
                        (pure (intend o t r, (t, (r, false)))) s written
                        (write_intent-written digest a free),
                  )
                  (refl, written-Holds a unused)
            | inr (c, e) ↦
                rw (ap (λ x. cas py digest x t r) (reads-eq py m s h), e)
                  (ap err (subst Kept e (Kept-cas py digest m t r)), h)
          ]

      commit_key-SameResult :
          Admits py (commit_intent o t r b) m
          → SameResult {A = Intent} py
              (Memory.commit_found py digest (lookup (key_of o) m.ops_by_key) o t r b m)
              (as_store_error (settle_with s (Intents.commit_key py digest no_hooks o t r b s)))
      commit_key-SameResult a =
          elim (find_id-map_values row_of (row_has_key (key_of o)) (has_key (key_of o)) m.operations
            (λ o. refl) h.ids_distinct) [
              | inl (e1, e2) ↦
                  rw
                    (
                      h.keys_held (key_of o) ∙ e2,
                      ap (find_id (row_has_key (key_of o))) h.operations_held.copied ∙ e1,
                    )
                    (commit_new-SameResult a (h.keys_held (key_of o) ∙ e2)
                      (ap (find_id (row_has_key (key_of o))) h.operations_held.copied ∙ e1))
              | inr (id, p, e1, e2, e3) ↦
                  rw
                    (
                      h.keys_held (key_of o) ∙ e2,
                      ap (find_id (row_has_key (key_of o))) h.operations_held.copied ∙ e1,
                    )
                    (Unchanged-SameResult py m s h (Memory.replay p o m) (Intents.replay py id o s)
                      (replay-Unchanged py m s h p o id e3))
            ]

      -- Both stores commit an intent alike, whether it fails, is there, or is new.
      pub commit_intent-SameResult :
          Admits py (commit_intent o t r b) m
          → SameResult {A = Intent} py
              (Memory.commit_intent py digest o t r b m)
              (Intents.commit_intent py digest no_hooks o t r b s)
      unfolding Memory.commit_intent Intents.commit_intent transaction
      commit_intent-SameResult a =
          subst
            (λ failing. SameResult {A = Intent} py (Memory.commit_intent py digest o t r b m) (
              if failing
              then (err intent_persist_failed, record s { fail_next_intent = false })
              else as_store_error
                  (settle_with s (Intents.commit_key py digest no_hooks o t r b s))))
            (sym h.failure_held)
            (fork py m.fail_next_intent _ _ _ _ (refl, recovered) (commit_key-SameResult a))
