-- ===== src/Control/Events/Numbering.antt =====
-- The invariant of the event tables, kept by every operation on them.
use asterun.Prelude.{
  ℕ, ◌+◌, ◌≤◌, String, ◌≡◌, inl, inr, sym, ap, Bool, true, false, List, [], ◌∷◌, ◌++◌, keep, any,
  All, contains, arith, leb, string_eq, nat_eq, pair_eq, if◌then◌else◌, lookup-insert,
  lookup-insert_self, ==_refl, subst, Bool-cases,
}
use asterun.Errors.{Result, ok, err, invalid_state, idempotency_conflict}
use asterun.Control.Db.{Db, Event, max_int}
use asterun.Control.Events.{
  stream_of, of_task, open_stream, id_taken, row_clash, store_id, store_event, store_sequence,
  append_event,
}
use asterun.Control.Events.Rows.{Run, Run-append}

pub record IsNumbered (s : Db) : Type 0 where
  -- the rows of a task are numbered from above its floor up to its last number
  pub numbered :
      (n t : String)
      → Run (stream_of s n t).floor (stream_of s n t).sequence (keep (of_task n t) s.events)
  pub bounded : (n t : String) → (stream_of s n t).sequence ≤ max_int
  -- every row's identity is recorded
  pub known : All (λ e. contains s.event_ids (e.namespace_id, e.id) ≡ true) s.events

abbrev pub latest : Db → Event → ℕ
latest s e = (stream_of s e.namespace_id e.task_id).sequence

abbrev pub numbered_event : Event → Db → Event
numbered_event e s = record e { sequence = latest s e + 1 }

-- the tables after an event was appended
abbrev pub appended : Event → Db → Db
appended e s = store_sequence e.namespace_id e.task_id (latest s e + 1) (
    store_event (numbered_event e s)
      (store_id (numbered_event e s) (open_stream e.namespace_id e.task_id s)))

stream_of-open_stream :
    (n t : String) (s : Db) → stream_of (open_stream n t s) n t ≡ stream_of s n t
stream_of-open_stream n t s = rw (lookup-insert_self (n, t) (stream_of s n t) s.event_streams)

-- Every way in which `append_event` ends; an error leaves the tables as they were.
abbrev pub append_outcome : Event → Db → Result Event × Db
append_outcome e s =
    if leb max_int (latest s e)
    then (err invalid_state, s)
    else if id_taken e s
    then (err idempotency_conflict, s)
    else if any (row_clash (numbered_event e s)) s.events
    then (err idempotency_conflict, s)
    else (ok (numbered_event e s), appended e s)

pub append_event-cases : (e : Event) (s : Db) → append_event e s ≡ append_outcome e s
unfolding append_event
append_event-cases e s =
    rw (stream_of-open_stream e.namespace_id e.task_id s)
      (elim (Bool-cases (leb max_int (latest s e))) [
        | inl full ↦ rw full
        | inr room ↦ rw room (elim (Bool-cases (id_taken e s)) [
          | inl taken ↦ rw taken
          | inr new ↦ rw new (elim (Bool-cases (any (row_clash (numbered_event e s)) s.events)) [
            | inl clash ↦ rw clash
            | inr free ↦ rw free (rw (stream_of-open_stream e.namespace_id e.task_id s))
          ])
        ])
      ])

-- What a stream's row is after the tables of an appended event.
stream_of-appended :
    (e : Event) (s : Db) (n t : String)
    → stream_of (appended e s) n t ≡ (
        if of_task n t e
        then record { sequence = latest s e + 1; floor = (stream_of s n t).floor }
        else stream_of s n t)
stream_of-appended e s n t = ground (
  arith,
  stream_of-open_stream e.namespace_id e.task_id s,
  lookup-insert (e.namespace_id, e.task_id) (n, t) (stream_of s e.namespace_id e.task_id)
      s.event_streams,
  lookup-insert (e.namespace_id, e.task_id) (n, t)
      (record {
        sequence = latest s e + 1;
        floor = (stream_of (open_stream e.namespace_id e.task_id s) e.namespace_id e.task_id).floor;
      })
      (open_stream e.namespace_id e.task_id s).event_streams,
  string_eq.equal_iff e.namespace_id n,
  string_eq.equal_iff e.task_id t,
)

keep-append_one :
    (p : Event → Bool) (es : List Event) (e : Event)
    → keep p (es ++ e ∷ []) ≡ (if p e then keep p es ++ e ∷ [] else keep p es)
keep-append_one p [] e = ground arith
keep-append_one p (d ∷ es) e = ground (arith, keep-append_one p es e)

pub of_task_eq :
    (n t : String) (e : Event) → of_task n t e ≡ true → (e.namespace_id ≡ n) × (e.task_id ≡ t)
of_task_eq n t e h =
    ground (arith, string_eq.equal_iff e.namespace_id n, string_eq.equal_iff e.task_id t)

latest_same :
    (n t : String) (e : Event) (s : Db)
    → of_task n t e ≡ true
    → latest s e ≡ (stream_of s n t).sequence
latest_same n t e s h =
    let (ns, ts) = of_task_eq n t e h in λ i. (stream_of s (ns i) (ts i)).sequence

numbered-appended :
    (e : Event) (s : Db) (n t : String)
    → IsNumbered s
    → Run
        (stream_of (appended e s) n t).floor
        (stream_of (appended e s) n t).sequence
        (keep (of_task n t) (appended e s).events)
numbered-appended e s n t h = rw (stream_of-appended e s n t) (
    rw (keep-append_one (of_task n t) s.events (numbered_event e s))
      (elim (Bool-cases (of_task n t e)) [
        | inr apart ↦ rw apart (h.numbered n t)
        | inl same ↦ rw same (
            subst
              (λ k.
                Run (stream_of s n t).floor (k + 1)
                  (keep (of_task n t) s.events ++ numbered_event e s ∷ []))
              (sym (latest_same n t e s same))
              (Run-append _ _ _ (numbered_event e s) (h.numbered n t)
                (ap (λ k. k + 1) (latest_same n t e s same))))
      ]))

pub contains-append :
    (ids : List (String × String)) (i j : String × String)
    → contains ids j ≡ true
    → contains (ids ++ i ∷ []) j ≡ true
contains-append [] i j h = cc
contains-append (k ∷ ids) i j h = ground (arith, contains-append ids i j)

pub contains-append_self :
    (ids : List (String × String)) (i : String × String) → contains (ids ++ i ∷ []) i ≡ true
contains-append_self [] i = ground (arith, ==_refl i.0, ==_refl i.1)
contains-append_self (k ∷ ids) i = ground (arith, contains-append_self ids i)

known-appended :
    (es : List Event) (ids : List (String × String)) (e : Event)
    → All (λ d. contains ids (d.namespace_id, d.id) ≡ true) es
    → All
        (λ d. contains (ids ++ (e.namespace_id, e.id) ∷ []) (d.namespace_id, d.id) ≡ true)
        (es ++ e ∷ [])
known-appended [] ids e h = (contains-append_self ids (e.namespace_id, e.id), tt)
known-appended (d ∷ es) ids e h = (
  contains-append ids (e.namespace_id, e.id) (d.namespace_id, d.id) h.0,
  known-appended es ids e h.1,
)

appended-IsNumbered :
    (e : Event) (s : Db)
    → IsNumbered s
    → leb max_int (latest s e) ≡ false
    → IsNumbered (appended e s)
appended-IsNumbered e s h room = record {
  numbered = λ n t. numbered-appended e s n t h;
  bounded = λ n t. rw (stream_of-appended e s n t) (ground (arith, h.bounded n t, room));
  known = known-appended s.events s.event_ids (numbered_event e s) h.known;
}

-- Whether an event is appended or refused, the streams stay numbered.
pub append_event-IsNumbered : (e : Event) (s : Db) → IsNumbered s → IsNumbered (append_event e s).1
append_event-IsNumbered e s h =
    rw (append_event-cases e s) (elim (Bool-cases (leb max_int (latest s e))) [
      | inl full ↦ rw full h
      | inr room ↦ rw room (elim (Bool-cases (id_taken e s)) [
        | inl taken ↦ rw taken h
        | inr new ↦ rw new (elim (Bool-cases (any (row_clash (numbered_event e s)) s.events)) [
          | inl clash ↦ rw clash h
          | inr free ↦ rw free (appended-IsNumbered e s h room)
        ])
      ])
    ])
