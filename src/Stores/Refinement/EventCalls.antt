-- ===== src/Stores/Refinement/EventCalls.antt =====
-- The calls on events: both stores answer alike, and give a new event the same number.
use asterun.Prelude.{
  ℕ, suc, String, none, some, List, [], ◌∷◌, ◌++◌, Dict, insert, keep, take, length, ◌==◌,
  string_eq, ==_refl, ==_ne, ◌≢◌, ◌≡◌, refl, sym, ap, ◌∙◌, subst, arith, Bool-cases, inl, inr,
  lookup-insert_self, lookup-insert_ne,
}
use asterun.Prelude.Int.{pos, ltb_ℤ}
use asterun.Errors.{ok}
use asterun.Json.{Json, Python}
use asterun.Contracts.Events.{Event}
use asterun.Stores.Memory.{MemoryStore, bucket, numbered}
use asterun.Stores.Memory
use asterun.Stores.Sqlite.{SqliteStore, max_sequence, by_seq, payloads, read_all, after}
use asterun.Stores.Sqlite
use asterun.Stores.Refinement.{
  in_memory, in_database, Holds, SameStep, append_event, event, event_row, event_rows, of_run,
  Numbered, AgreesOnEvents,
}
use asterun.Stores.Refinement.Numbering.{
  max_sequence-keep, max_sequence-event_rows, last_of-Numbered, keep-after, keep-append,
  by_seq-event_rows, take-event_rows, read_all-event_rows, Numbered-append, event_rows-append,
}

append_nil {ℓ} : {A : Type ℓ} (xs : List A) → xs ++ [] ≡ xs
append_nil [] = refl
append_nil (x ∷ xs) = ap (λ r. x ∷ r) (append_nil xs)

bucket-insert_self :
    (id : String) (es : List Event) (m : MemoryStore)
    → bucket id (record m { events = insert id es m.events }) ≡ es
bucket-insert_self id es m =
    ap (λ o. elim o [ none ↦ [] | some es ↦ es ]) (lookup-insert_self id es m.events)

bucket-insert_ne :
    (id j : String) (es : List Event) (m : MemoryStore)
    → id ≢ j
    → bucket j (record m { events = insert id es m.events }) ≡ bucket j m
bucket-insert_ne id j es m h =
    ap (λ o. elim o [ none ↦ [] | some es ↦ es ]) (lookup-insert_ne id j es m.events h)

module _ (py : Python) (m : MemoryStore) (s : SqliteStore) (h : Holds py m s) where
  max_sequence-bucket : (id : String) → max_sequence id s.events ≡ length (bucket id m)
  max_sequence-bucket id =
      max_sequence-keep id s.events
      ∙ ap (max_sequence id) (h.events_held id).0
      ∙ max_sequence-event_rows id (bucket id m) (h.events_held id).1

  pub last_event_sequence-eq :
      (id : String) → Sqlite.last_event_sequence id s ≡ Memory.last_event_sequence id m
  unfolding Sqlite.last_event_sequence
  last_event_sequence-eq id =
      max_sequence-bucket id ∙ omega (arith, last_of-Numbered 0 (bucket id m) (h.events_held id).1)

  pub list_events-ok :
      (id : String) (cursor size : ℕ)
      → Sqlite.list_events py id cursor size s ≡ ok (Memory.list_events id cursor size m)
  unfolding Sqlite.list_events Memory.list_events
  list_events-ok id cursor size =
      rw
        (
          keep-after id cursor s.events,
          (h.events_held id).0,
          by_seq-event_rows id cursor 0 (bucket id m) (h.events_held id).1,
          take-event_rows id size (keep (λ e. ltb_ℤ (pos cursor) e.seq) (bucket id m)),
        )
        (read_all-event_rows py id (take size (keep (λ e. ltb_ℤ (pos cursor) e.seq) (bucket id m))))

  module _ (id : String) (e : Event) (next : e.seq ≡ pos (suc (length (bucket id m)))) where
    abbrev appended : MemoryStore
    appended = record m { events = insert id (bucket id m ++ e ∷ []) m.events }

    abbrev with_row : SqliteStore
    with_row = record s { events = s.events ++ event_row id e ∷ [] }

    abbrev AgreesAt : String → Type 0
    AgreesAt j =
        (keep (of_run j) with_row.events ≡ event_rows j (bucket j appended))
        × Numbered 0 (bucket j appended)

    AgreesAt-run : AgreesAt id
    AgreesAt-run = rw (bucket-insert_self id (bucket id m ++ e ∷ []) m) (
      keep-append (of_run id) s.events (event_row id e ∷ [])
          ∙ rw ((h.events_held id).0, ==_refl id) (sym (event_rows-append id (bucket id m) e)),
      Numbered-append 0 (bucket id m) e (h.events_held id).1 (next ∙ ap pos (omega arith)),
    )

    AgreesAt-elsewhere : (j : String) → id ≢ j → AgreesAt j
    AgreesAt-elsewhere j other = rw (bucket-insert_ne id j (bucket id m ++ e ∷ []) m other) (
      keep-append (of_run j) s.events (event_row id e ∷ [])
          ∙ rw ((h.events_held j).0, ==_ne id j other) (append_nil (event_rows j (bucket j m))),
      (h.events_held j).1,
    )

    AgreesOnEvents-append : AgreesOnEvents appended with_row
    AgreesOnEvents-append j = elim (Bool-cases (id == j)) [
      | inl same ↦ subst AgreesAt ((string_eq.equal_iff id j).0 same) AgreesAt-run
      | inr other ↦ AgreesAt-elsewhere j (λ p. absurd (ground (arith, string_eq.equal_iff id j)))
    ]

    append-Holds : Holds py appended with_row
    append-Holds = record {
      tasks_held = h.tasks_held;
      runs_held = h.runs_held;
      approvals_held = h.approvals_held;
      sessions_held = h.sessions_held;
      operations_held = h.operations_held;
      events_held = AgreesOnEvents-append;
      revision_held = h.revision_held;
      failure_held = h.failure_held;
      ids_distinct = h.ids_distinct;
      keys_held = h.keys_held;
      unique_held = h.unique_held;
    }

  module _ (digest : Dict String Json → String) where
    pub append_event-SameStep :
        (id : String) (e : Event)
        → SameStep py
            (in_memory py digest (append_event id e) m)
            (in_database py digest (append_event id e) s)
    unfolding Sqlite.append_event Memory.append_event
    append_event-SameStep id e =
        subst
          (λ k. SameStep py (in_memory py digest (append_event id e) m) (
            ok (event (numbered (suc k) e)),
            record s { events = s.events ++ event_row id (numbered (suc k) e) ∷ [] },
          ))
          (sym (max_sequence-bucket id))
          (refl, append-Holds id (numbered (suc (length (bucket id m))) e) refl)
