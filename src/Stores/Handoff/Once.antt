-- ===== src/Stores/Handoff/Once.antt =====
-- Of two commits of a hand-off that expect the same revision, only one succeeds.
use asterun.Prelude.{
  ℕ, String, Bool, true, false, some, List, Dict, lookup, insert, ◌≡◌, refl, ap, ◌∙◌, subst,
  Bool-cases, Option-cases, inl, inr, string_eq, arith, lookup-insert_self,
}
use asterun.Prelude.Int.{ℤ, pos, eqb_ℤ, ◌+ℤ◌}
use asterun.Errors.{Result, ok, err, Result-cases, revision_conflict}
use asterun.Json.{Json, integer, Python}
use asterun.Contracts.Tasks.{Task}
use asterun.Contracts.Runs.{Run}
use asterun.Stores.Transition.{state}
use asterun.Stores.Memory.{MemoryStore}
use asterun.Stores.Memory
use asterun.Stores.Handoff.{
  commit_found, commit_same, commit_state, in_memory, memory_commit_handoff, snapshot_revision,
  next_snapshot,
}

next_apart : (n : ℤ) → eqb_ℤ (n +ℤ pos 1) n ≡ false
unfolding ◌+ℤ◌
next_apart n = ground arith

module _ (py : Python) (digest : Dict String Json → String) (sha256 : List ℕ → String)
    (revision : ℤ) (content : List ℕ) where
  -- the store after the write of the next snapshot
  abbrev written : Task → MemoryStore → MemoryStore
  written t m = record m {
    checkpoint_blobs = insert (sha256 content) content m.checkpoint_blobs;
    tasks =
        insert t.id (record t { handoff_snapshot = next_snapshot revision (sha256 content) })
          m.tasks;
  }

  commit_state-written :
      (now : Result Json) (t : Task) (expected v : Json) (m : MemoryStore)
      → (commit_state py digest (in_memory py digest sha256) now t expected revision content m).0
        ≡ ok v
      → (commit_state py digest (in_memory py digest sha256) now t expected revision content m).1
        ≡ written t m
  unfolding Memory.put_checkpoint_blob Memory.save_task
  commit_state-written (err c) t expected v m = λ h. absurd cc
  commit_state-written (ok now) t expected v m = elim (Bool-cases (py.equal now expected)) [
    | inl same ↦ rw same (λ h. refl)
    | inr other ↦ rw other (λ h. absurd cc)
  ]

  commit_same-written :
      (b : Bool) (t : Task) (r : Run) (expected v : Json) (m : MemoryStore)
      → (commit_same py digest (in_memory py digest sha256) b t r expected revision content m).0
        ≡ ok v
      → (commit_same py digest (in_memory py digest sha256) b t r expected revision content m).1
        ≡ written t m
  commit_same-written false t r expected v m h = absurd cc
  commit_same-written true t r expected v m h =
      commit_state-written (state py digest (Memory.reads m) t r) t expected v m h

  commit_found-written :
      (t : Task) (r : Run) (expected v : Json) (m : MemoryStore)
      → (commit_found py digest (in_memory py digest sha256) t r expected revision content m).0
        ≡ ok v
      → (commit_found py digest (in_memory py digest sha256) t r expected revision content m).1
        ≡ written t m
  commit_found-written t r expected v m =
      elim (Result-cases (snapshot_revision t.handoff_snapshot)) [
        | inl (stored, e) ↦
            rw e (commit_same-written (py.equal stored (integer revision)) t r expected v m)
        | inr (c, e) ↦ rw e (λ h. absurd cc)
      ]

  -- A commit that succeeded found the task and the run, and left the next snapshot.
  commit-written :
      (task run : String) (expected v : Json) (m : MemoryStore)
      → (memory_commit_handoff py digest sha256 task run expected revision content m).0 ≡ ok v
      → (t : Task) × (r : Run) × (lookup task m.tasks ≡ some t)
        × (lookup run m.runs ≡ some r)
        × ((memory_commit_handoff py digest sha256 task run expected revision content m).1
            ≡ written t m)
  unfolding memory_commit_handoff Memory.get_task Memory.get_run
  commit-written task run expected v m = elim (Option-cases (lookup task m.tasks)) [
    | inl e ↦ rw e (λ h. absurd cc)
    | inr (t, e) ↦ rw e (elim (Option-cases (lookup run m.runs)) [
      | inl e' ↦ rw e' (λ h. absurd cc)
      | inr (r, e') ↦ rw e' (λ h. (t, r, refl, refl, commit_found-written t r expected v m h))
    ])
  ]

  -- the next snapshot refuses the revision that was expected
  written-conflict :
      (t : Task) (run : String) (r : Run) (expected : Json) (later : List ℕ) (m : MemoryStore)
      → ((a b : ℤ) → py.equal (integer a) (integer b) ≡ eqb_ℤ a b)
      → lookup run m.runs ≡ some r
      → (memory_commit_handoff py digest sha256 t.id run expected revision later (written t m)).0
        ≡ err revision_conflict
  unfolding memory_commit_handoff Memory.get_task Memory.get_run
  written-conflict t run r expected later m law e =
      rw
        (
          lookup-insert_self t.id
              (record t { handoff_snapshot = next_snapshot revision (sha256 content) }) m.tasks,
          e,
          law (revision +ℤ pos 1) revision,
          next_apart revision,
        )
        refl

  -- After a commit that succeeded, another one for the run that expects the same revision is a conflict,
  -- whatever state and content it has, where `==` compares integers and a task stands under its own id.
  pub memory_commit_handoff-once :
      (task run : String) (expected other v : Json) (later : List ℕ) (m : MemoryStore)
      → ((a b : ℤ) → py.equal (integer a) (integer b) ≡ eqb_ℤ a b)
      → ((t : Task) → lookup task m.tasks ≡ some t → t.id ≡ task)
      → (memory_commit_handoff py digest sha256 task run expected revision content m).0 ≡ ok v
      → (memory_commit_handoff py digest sha256 task run other revision later
          (memory_commit_handoff py digest sha256 task run expected revision content m).1).0
        ≡ err revision_conflict
  memory_commit_handoff-once task run expected other v later m law keyed h =
      let (t, r, e1, e2, e3) = commit-written task run expected v m h in
      ap (λ m'. (memory_commit_handoff py digest sha256 task run other revision later m').0) e3
      ∙ subst
          (λ id.
            (memory_commit_handoff py digest sha256 id run other revision later (written t m)).0
            ≡ err revision_conflict)
          (keyed t e1) (written-conflict t run r other later m law e2)
