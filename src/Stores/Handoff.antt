-- ===== src/Stores/Handoff.antt =====
-- `commit` of src/asterun/handoff.py, the commit of a hand-off's snapshot, over either store:
-- `commit_handoff` of MemoryStore (src/asterun/store.py) and of SqliteStore (src/asterun/sqlite_store.py).
pub mod Once
use asterun.Prelude.{
  ℕ, String, Bool, true, false, not, Option, none, some, List, Dict, lookup, insert, if◌then◌else◌,
  ◌≡◌, refl, sym, ap, ◌∙◌, subst, Bool-cases, Option-cases, inl, inr, ◌⊎◌, string_eq, arith,
  lookup-insert_self,
}
use asterun.Prelude.Int.{ℤ, pos, eqb_ℤ, ◌+ℤ◌}
use asterun.Errors.{
  Code, Result, ok, err, Result-cases, not_found, revision_conflict, attribute_error,
  ◌>>=◌ as ◌>>=ᵣ◌,
}
use asterun.Errors.Exec.{Exec, Unit₀, pure, raise, lift, transaction, need, ◌>>=◌, ◌>>◌}
use asterun.Json.{Json, integer, string, object, Fields, no_fields, field, get_field, Python, raw}
use asterun.Contracts.Tasks.{Task}
use asterun.Contracts.Runs.{Run}
use asterun.Stores.Transition.{Reads, state}
use asterun.Stores.Memory.{MemoryStore}
use asterun.Stores.Memory
use asterun.Stores.Sqlite.{SqliteStore}
use asterun.Stores.Sqlite
use asterun.Stores.Sqlite.Intents

-- what the hand-off uses of a store
pub record HandoffStore (S : Type 0) : Type 0 where
  pub get_task : String → Exec S Task
  pub get_run : String → Exec S Run
  pub reads : S → Reads
  pub put_checkpoint_blob : List ℕ → Exec S String
  pub save_task : Task → Exec S Unit₀

-- `handoff_snapshot.get('revision', 0)`
abbrev pub snapshot_revision : Json → Result Json
snapshot_revision (object fs) = elim (get_field "revision" fs) [
  | none ↦ ok (integer (pos 0))
  | some v ↦ ok v
]
snapshot_revision v = err attribute_error

-- `{'revision': expected_revision + 1, 'sha256': sha}`
abbrev pub next_snapshot : ℤ → String → Json
next_snapshot revision sha =
    object (field "revision" (integer (revision +ℤ pos 1)) (field "sha256" (string sha) no_fields))

module _ {S : Type 0} (py : Python) (digest : Dict String Json → String)
    (store : HandoffStore S) where
  -- the write of the snapshot
  abbrev pub write_snapshot : Task → ℤ → List ℕ → Exec S Json
  write_snapshot t revision content = do
    sha ← store.put_checkpoint_blob content
    store.save_task (record t { handoff_snapshot = next_snapshot revision sha })
    pure (next_snapshot revision sha)

  -- the comparison of the state that was just read
  abbrev pub commit_state : Result Json → Task → Json → ℤ → List ℕ → Exec S Json
  commit_state (err c) t expected revision content = raise c
  commit_state (ok now) t expected revision content =
      if py.equal now expected then write_snapshot t revision content else raise revision_conflict

  -- the second half of the test, which is not evaluated where the first one fails
  abbrev pub commit_same : Bool → Task → Run → Json → ℤ → List ℕ → Exec S Json
  commit_same false t r expected revision content = raise revision_conflict
  commit_same true t r expected revision content =
      λ s. commit_state (state py digest (store.reads s) t r) t expected revision content s

  -- the test of the revision that the stored task has
  abbrev pub commit_found : Task → Run → Json → ℤ → List ℕ → Exec S Json
  commit_found t r expected revision content = do
    stored ← lift (snapshot_revision t.handoff_snapshot)
    commit_same (py.equal stored (integer revision)) t r expected revision content

  abbrev pub commit : String → String → Json → ℤ → List ℕ → Exec S Json
  commit task run expected revision content = do
    t ← store.get_task task
    r ← store.get_run run
    commit_found t r expected revision content

module _ (py : Python) (digest : Dict String Json → String) (sha256 : List ℕ → String) where
  abbrev pub in_memory : HandoffStore MemoryStore
  in_memory = record {
    get_task = Memory.get_task;
    get_run = Memory.get_run;
    reads = Memory.reads;
    put_checkpoint_blob = Memory.put_checkpoint_blob sha256;
    save_task = Memory.save_task;
  }

  abbrev pub in_database : HandoffStore SqliteStore
  in_database = record {
    get_task = Sqlite.get_task py;
    get_run = Sqlite.get_run py;
    reads = Intents.reads py;
    put_checkpoint_blob = Sqlite.put_checkpoint_blob sha256;
    save_task = Sqlite.save_task;
  }

  -- MemoryStore.commit_handoff
  unfoldable pub memory_commit_handoff : String → String → Json → ℤ → List ℕ → Exec MemoryStore Json
  unfolding Memory.get_task Memory.get_run Memory.put_checkpoint_blob Memory.save_task
  memory_commit_handoff = commit py digest in_memory

  -- SqliteStore.commit_handoff
  unfoldable pub sqlite_commit_handoff : String → String → Json → ℤ → List ℕ → Exec SqliteStore Json
  unfolding transaction
  sqlite_commit_handoff task run expected revision content =
      transaction (commit py digest in_database task run expected revision content)
