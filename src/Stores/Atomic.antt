-- ===== src/Stores/Atomic.antt =====
-- A failed `commit_intent` of src/asterun/sqlite_store.py, and one that is repeated on MemoryStore.
use asterun.Prelude.{
  String, Bool, true, false, Option, none, some, Dict, lookup, ◌==◌, string_eq, pair_eq, ==_refl,
  if◌then◌else◌, ◌≡◌, refl, sym, ap, ◌∙◌, Bool-cases, Option-cases, inl, inr, lookup-insert_self,
}
use asterun.Errors
use asterun.Errors.{Code, Result, ok, err, Result-cases, not_found, idempotency_conflict}
use asterun.Errors.Exec.{settle_with, transaction}
use asterun.Json.{Json, Python}
use asterun.Contracts.Tasks.{Task}
use asterun.Contracts.Runs.{Run}
use asterun.Contracts.Sessions.{SessionBinding}
use asterun.Contracts.Operations.{Operation}
use asterun.Stores.Transition.{cas}
use asterun.Stores.Memory.{MemoryStore, key_of, Intent, intend, store_intent, references}
use asterun.Stores.Memory
use asterun.Stores.Sqlite.{SqliteStore, Hooks}
use asterun.Stores.Sqlite.Intents.{as_store_error, commit_intent, commit_key}

module _ {A : Type 0} (s : SqliteStore) (c : Code) where
  settle-undone :
      (x : Result A × SqliteStore)
      → (as_store_error (settle_with s x)).0 ≡ err c
      → (as_store_error (settle_with s x)).1 ≡ s
  settle-undone (ok a, s') h = absurd cc
  settle-undone (err d, s') h = refl

-- A `commit_intent` that raises, in whatever statement or hook, leaves every table as it was; only the
-- request to fail once is used up.
pub commit_intent-undone :
    (py : Python) (digest : Dict String Json → String) (hooks : Hooks) (o : Operation) (t : Task)
    (r : Run) (session : Option SessionBinding) (s : SqliteStore) (c : Code)
    → (commit_intent py digest hooks o t r session s).0 ≡ err c
    → (commit_intent py digest hooks o t r session s).1 ≡ record s { fail_next_intent = false }
unfolding commit_intent transaction
commit_intent-undone py digest hooks o t r session s c h = go s.fail_next_intent refl h
  where
    go :
        (b : Bool)
        → s.fail_next_intent ≡ b
        → (if b
            then (err Errors.intent_persist_failed, record s { fail_next_intent = false })
            else as_store_error (settle_with s (commit_key py digest hooks o t r session s))).0
          ≡ err c
        → (if b
            then (err Errors.intent_persist_failed, record s { fail_next_intent = false })
            else as_store_error (settle_with s (commit_key py digest hooks o t r session s))).1
          ≡ record s { fail_next_intent = false }
    go true e h = refl
    go false e h =
        settle-undone {A = Intent} s c (commit_key py digest hooks o t r session s) h
        ∙ ap (λ b. record s { fail_next_intent = b }) e

module _ (py : Python) (digest : Dict String Json → String) where
  -- What a new intent leaves behind answers a commit of its key and input.
  replay-store_intent :
      (o p : Operation) (t u : Task) (r q : Run) (session later : Option SessionBinding)
      (m : MemoryStore)
      → m.fail_next_intent ≡ false
      → key_of p ≡ key_of o
      → p.input_hash ≡ o.input_hash
      → Memory.commit_intent py digest p u q later (store_intent (intend o t r) t r session m)
        ≡ (ok (intend o t r, (t, (r, true))), store_intent (intend o t r) t r session m)
  unfolding Memory.commit_intent store_intent Memory.replay Memory.get_task Memory.get_run
  replay-store_intent o p t u r q session later m f k e =
      rw
        (
          f,
          k,
          lookup-insert_self (key_of o) (intend o t r) m.ops_by_key,
          e,
          ==_refl o.input_hash,
          lookup-insert_self t.id t m.tasks,
          lookup-insert_self r.id r m.runs,
        )
        refl

  -- the answer of a replay
  abbrev pub replayed : Intent → Intent
  replayed (o, (t, (r, b))) = (o, (t, (r, true)))

  abbrev again : Intent → Result Intent → Result Intent
  again i (ok j) = ok (replayed j)
  again i (err c) = ok i

  refer-replayed :
      (p : Operation) (named : Option (String × String)) (m : MemoryStore) (i : Intent)
      → (Memory.refer p named m).0 ≡ ok i
      → Memory.refer p named m ≡ (ok (replayed i), m)
  unfolding Memory.get_task Memory.get_run
  refer-replayed p none m i = λ h. absurd cc
  refer-replayed p (some (t, r)) m i = elim (Option-cases (lookup t m.tasks)) [
    | inl e ↦ rw e (λ h. absurd cc)
    | inr (task, e) ↦ rw e (elim (Option-cases (lookup r m.runs)) [
      | inl e' ↦ rw e' (λ h. absurd cc)
      | inr (run, e') ↦ rw e' (λ h. ap (λ x. (x, m)) (ap (again (p, (task, (run, true)))) h))
    ])
  ]

  replay-replayed :
      (existing o : Operation) (m : MemoryStore) (i : Intent)
      → (Memory.replay existing o m).0 ≡ ok i
      → Memory.replay existing o m ≡ (ok (replayed i), m)
  unfolding Memory.replay
  replay-replayed existing o m i = elim (Bool-cases (existing.input_hash == o.input_hash)) [
    | inl same ↦ rw same (refer-replayed existing (references existing) m i)
    | inr other ↦ rw other (λ h. absurd cc)
  ]

  same_input :
      (existing o p : Operation) (m : MemoryStore)
      → p.input_hash ≡ o.input_hash
      → Memory.replay existing p m ≡ Memory.replay existing o m
  unfolding Memory.replay
  same_input existing o p m e = rw e refl

  commit-failing :
      (o : Operation) (t : Task) (r : Run) (session : Option SessionBinding) (m : MemoryStore)
      → m.fail_next_intent ≡ true
      → Memory.commit_intent py digest o t r session m
        ≡ (err Errors.intent_persist_failed, record m { fail_next_intent = false })
  unfolding Memory.commit_intent
  commit-failing o t r session m h =
      ap
        (λ b.
          if b
          then (err Errors.intent_persist_failed, record m { fail_next_intent = false })
          else Memory.commit_found py digest (lookup (key_of o) m.ops_by_key) o t r session m)
        h

  commit-going :
      (o : Operation) (t : Task) (r : Run) (session : Option SessionBinding) (m : MemoryStore)
      → m.fail_next_intent ≡ false
      → Memory.commit_intent py digest o t r session m
        ≡ Memory.commit_found py digest (lookup (key_of o) m.ops_by_key) o t r session m
  unfolding Memory.commit_intent
  commit-going o t r session m h =
      ap
        (λ b.
          if b
          then (err Errors.intent_persist_failed, record m { fail_next_intent = false })
          else Memory.commit_found py digest (lookup (key_of o) m.ops_by_key) o t r session m)
        h

  -- the commit of a key that is there, once the store does not fail
  found-replayed :
      (found : Option Operation) (o p : Operation) (t u : Task) (r q : Run)
      (session later : Option SessionBinding) (m : MemoryStore) (i : Intent)
      → lookup (key_of o) m.ops_by_key ≡ found
      → m.fail_next_intent ≡ false
      → key_of p ≡ key_of o
      → p.input_hash ≡ o.input_hash
      → (Memory.commit_found py digest found o t r session m).0 ≡ ok i
      → Memory.commit_intent py digest p u q later
          (Memory.commit_found py digest found o t r session m).1
        ≡ (ok (replayed i), (Memory.commit_found py digest found o t r session m).1)
  unfolding Memory.commit_intent
  found-replayed none o p t u r q session later m i l f k e =
      elim (Result-cases (cas py digest (Memory.reads m) t r)) [
        | inl (_, c) ↦ rw c (λ h.
            replay-store_intent o p t u r q session later m f k e
            ∙ ap (λ x. (x, store_intent (intend o t r) t r session m))
                (ap (again (intend o t r, (t, (r, true)))) h))
        | inr (_, c) ↦ rw c (λ h. absurd cc)
      ]
  found-replayed (some existing) o p t u r q session later m i l f k e = λ h.
      ap (λ x. Memory.commit_intent py digest p u q later x.1) (replay-replayed existing o m i h)
      ∙ commit-going p u q later m f
      ∙ ap (λ x. Memory.commit_found py digest x p u q later m)
          (ap (λ x. lookup x m.ops_by_key) k ∙ l)
      ∙ same_input existing o p m e
      ∙ replay-replayed existing o m i h
      ∙ ap (λ x. (ok (replayed i), x.1)) (sym (replay-replayed existing o m i h))

  -- A commit made directly on the store that a successful one left, with its key and input hash, gives
  -- the answer of that one again: the same operation, task and run, marked as there; it changes nothing.
  pub commit_intent-replayed :
      (o p : Operation) (t u : Task) (r q : Run) (session later : Option SessionBinding)
      (m : MemoryStore) (i : Intent)
      → key_of p ≡ key_of o
      → p.input_hash ≡ o.input_hash
      → (Memory.commit_intent py digest o t r session m).0 ≡ ok i
      → Memory.commit_intent py digest p u q later
          (Memory.commit_intent py digest o t r session m).1
        ≡ (ok (replayed i), (Memory.commit_intent py digest o t r session m).1)
  commit_intent-replayed o p t u r q session later m i k e = elim (Bool-cases m.fail_next_intent) [
    | inl failing ↦ rw (commit-failing o t r session m failing) (λ h. absurd cc)
    | inr going ↦ rw (commit-going o t r session m going) (
        found-replayed (lookup (key_of o) m.ops_by_key) o p t u r q session later m i refl going k
          e)
  ]
