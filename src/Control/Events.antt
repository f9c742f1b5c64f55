-- ===== src/Control/Events.antt =====
-- `append_event`, `events` and `prune_events` of control_store.py: one numbered stream of events for
-- each task, whose oldest part may be removed.
pub mod Rows
pub mod Numbering
pub mod Identity
pub mod History
pub mod Paging
pub mod Pruning
use asterun.Prelude.{
  ℕ, zero, suc, ◌+◌, String, Bool, true, false, not, ◌&&◌, ◌||◌, Option, none, some, List, [], ◌∷◌,
  ◌++◌, Dict, lookup, insert, keep, take, any, contains, leb, ltb, ◌==◌, string_eq, nat_eq, pair_eq,
  if◌then◌else◌,
}
use asterun.Errors.{
  Code, Result, ok, err, invalid_request, invalid_state, idempotency_conflict, cursor_expired,
}
use asterun.Errors.Exec.{
  Exec, Unit₀, pure, raise, gets, modify, raise_when, transaction, ◌>>=◌, ◌>>◌,
}
use asterun.Control.Db.{Db, Event, Stream, max_int}

abbrev pub or_new : Option Stream → Stream
or_new none = record { sequence = 0; floor = 0 }
or_new (some stream) = stream

-- The stream's row, or (0, 0) where it has none.
abbrev pub stream_of : Db → String → String → Stream
stream_of s namespace task = or_new (lookup (namespace, task) s.event_streams)

-- `WHERE namespace_id=? AND task_id=?`
abbrev pub of_task : String → String → Event → Bool
of_task namespace task e = (e.namespace_id == namespace) && (e.task_id == task)

-- INSERT OR IGNORE INTO control_event_streams
abbrev pub open_stream : String → String → Db → Db
open_stream namespace task s = record s {
  event_streams = insert (namespace, task) (stream_of s namespace task) s.event_streams;
}

-- the primary key of control_event_ids, and both keys of control_events
abbrev pub id_taken : Event → Db → Bool
id_taken e s = contains s.event_ids (e.namespace_id, e.id)

abbrev pub row_clash : Event → Event → Bool
row_clash e row =
    (row.namespace_id == e.namespace_id)
    && (((row.task_id == e.task_id) && (row.sequence == e.sequence)) || (row.id == e.id))

-- the two INSERT statements and the UPDATE that follows them
abbrev pub store_id : Event → Db → Db
store_id e s = record s { event_ids = s.event_ids ++ (e.namespace_id, e.id) ∷ [] }

abbrev pub store_event : Event → Db → Db
store_event e s = record s { events = s.events ++ e ∷ [] }

abbrev pub store_sequence : String → String → ℕ → Db → Db
store_sequence namespace task n s = record s {
  event_streams =
      insert (namespace, task) (record { sequence = n; floor = (stream_of s namespace task).floor })
        s.event_streams;
}

-- `append_event`: the event comes back with its number, one above the stream's last.
unfoldable pub append_event : Event → Exec Db Event
unfolding transaction
append_event e = transaction do
  modify (open_stream e.namespace_id e.task_id)
  latest ← gets (λ s. (stream_of s e.namespace_id e.task_id).sequence)
  raise_when (leb max_int latest) invalid_state
  let e' = record e { sequence = latest + 1 }
  taken ← gets (id_taken e')
  raise_when taken idempotency_conflict
  modify (store_id e')
  clash ← gets (λ s. any (row_clash e') s.events)
  raise_when clash idempotency_conflict
  modify (store_event e')
  modify (store_sequence e.namespace_id e.task_id (latest + 1))
  pure e'

-- ORDER BY sequence
unfoldable pub insert_row : Event → List Event → List Event
insert_row e [] = e ∷ []
insert_row e (f ∷ fs) = if leb e.sequence f.sequence then e ∷ (f ∷ fs) else f ∷ insert_row e fs

unfoldable pub by_sequence : List Event → List Event
unfolding insert_row
by_sequence [] = []
by_sequence (e ∷ es) = insert_row e (by_sequence es)

-- `events`; the types of `after` and `limit` are those of the numbers that pass its first check.
unfoldable pub events : String → String → ℕ → ℕ → Exec Db (List Event)
unfolding transaction by_sequence
events namespace task after limit = do
  raise_when (not (leb after max_int) || not (leb 1 limit && leb limit 10000)) invalid_request
  transaction do
    stream ← gets (λ s. stream_of s namespace task)
    raise_when (ltb after stream.floor) cursor_expired
    raise_when (ltb stream.sequence after) invalid_request
    gets (λ s.
        take limit
          (by_sequence (keep (λ e. of_task namespace task e && ltb after e.sequence) s.events)))

-- the DELETE and the UPDATE of `prune_events`
abbrev pub drop_through : String → String → ℕ → Db → Db
drop_through namespace task through s = record s {
  events = keep (λ e. not (of_task namespace task e && leb e.sequence through)) s.events;
  event_streams =
      insert (namespace, task)
        (record { sequence = (stream_of s namespace task).sequence; floor = through })
        s.event_streams;
}

unfoldable pub prune_events : String → String → ℕ → Exec Db Unit₀
unfolding transaction
prune_events namespace task through = transaction do
  stream ← gets (λ s. stream_of s namespace task)
  raise_when (not (leb through stream.sequence)) invalid_request
  elim (leb through stream.floor) [
    | true ↦ pure tt
    | false ↦ modify (drop_through namespace task through)
  ]
