-- ===== src/Control/Events/Identity.antt =====
-- An event's identity is used once: removing old events does not free it.
use asterun.Prelude.{
  ℕ, String, ◌≡◌, inl, inr, true, List, [], ◌∷◌, contains, arith, leb, string_eq, pair_eq,
  Bool-cases, subst, ◌∙◌, sym,
}
use asterun.Errors.{Code, Result, ok, err, idempotency_conflict, invalid_state}
use asterun.Control.Db.{Db, Event, max_int}
use asterun.Control.Events.{append_event, prune_events}
use asterun.Control.Events.Numbering.{
  append_event-cases, append_outcome, latest, contains-append, contains-append_self,
}
use asterun.Control.Events.Pruning.{prune_events-cases}

-- The operations that write the event tables.
pub data EventOp : Type 0 where
  append : Event → EventOp
  prune : String → String → ℕ → EventOp

-- A failed operation ends its own transaction only, and the next one goes on.
unfoldable pub run_op : Db → EventOp → Db
run_op s (append e) = (append_event e s).1
run_op s (prune n t through) = (prune_events n t through s).1

unfoldable pub run_ops : Db → List EventOp → Db
unfolding run_op
run_ops s [] = s
run_ops s (op ∷ ops) = run_ops (run_op s op) ops

outcome-keeps_ids :
    (e : Event) (s : Db) (i : String × String)
    → contains s.event_ids i ≡ true
    → contains (append_outcome e s).1.event_ids i ≡ true
outcome-keeps_ids e s i h = ground (arith, h, contains-append s.event_ids (e.namespace_id, e.id) i)

prune-keeps_ids :
    (n t : String) (through : ℕ) (s : Db) → (prune_events n t through s).1.event_ids ≡ s.event_ids
prune-keeps_ids n t through s = rw (prune_events-cases n t through s) (ground arith)

run_op-keeps_ids :
    (s : Db) (op : EventOp) (i : String × String)
    → contains s.event_ids i ≡ true
    → contains (run_op s op).event_ids i ≡ true
unfolding run_op
run_op-keeps_ids s (append e) i h =
    subst (λ (r : Result Event × Db). contains r.1.event_ids i ≡ true)
      (sym (append_event-cases e s)) (outcome-keeps_ids e s i h)
run_op-keeps_ids s (prune n t through) i h =
    subst (λ ids. contains ids i ≡ true) (sym (prune-keeps_ids n t through s)) h

run_ops-keeps_ids :
    (s : Db) (ops : List EventOp) (i : String × String)
    → contains s.event_ids i ≡ true
    → contains (run_ops s ops).event_ids i ≡ true
unfolding run_ops
run_ops-keeps_ids s [] i h = h
run_ops-keeps_ids s (op ∷ ops) i h =
    run_ops-keeps_ids (run_op s op) ops i (run_op-keeps_ids s op i h)

outcome_ok-recorded :
    (e e' : Event) (s : Db)
    → (append_outcome e s).0 ≡ ok e'
    → contains (append_outcome e s).1.event_ids (e.namespace_id, e.id) ≡ true
outcome_ok-recorded e e' s h =
    ground (arith, contains-append_self s.event_ids (e.namespace_id, e.id))

append_ok-recorded :
    (e e' : Event) (s : Db)
    → (append_event e s).0 ≡ ok e'
    → contains (append_event e s).1.event_ids (e.namespace_id, e.id) ≡ true
append_ok-recorded e e' s =
    subst
      (λ (r : Result Event × Db).
        r.0 ≡ ok e' → contains r.1.event_ids (e.namespace_id, e.id) ≡ true)
      (sym (append_event-cases e s)) (outcome_ok-recorded e e' s)

refused_taken :
    (d : Event) (s : Db)
    → contains s.event_ids (d.namespace_id, d.id) ≡ true
    → (c : Code) × (append_event d s ≡ (err c, s))
refused_taken d s h = elim (Bool-cases (leb max_int (latest s d))) [
  | inl full ↦ (invalid_state, append_event-cases d s ∙ rw full)
  | inr room ↦ (idempotency_conflict, append_event-cases d s ∙ rw (room, h))
]

-- Once an event was appended, no later event of that namespace gets its id: after any appends and
-- prunes, the removal of the event included, an append with the id is refused and changes nothing.
pub append_event-once :
    (e e' d : Event) (s : Db) (ops : List EventOp)
    → (append_event e s).0 ≡ ok e'
    → d.namespace_id ≡ e.namespace_id
    → d.id ≡ e.id
    → (c : Code) × (append_event d (run_ops (append_event e s).1 ops)
        ≡ (err c, run_ops (append_event e s).1 ops))
append_event-once e e' d s ops h same_ns same_id =
    refused_taken d (run_ops (append_event e s).1 ops) (
      rw (same_ns, same_id)
        (run_ops-keeps_ids (append_event e s).1 ops (e.namespace_id, e.id)
          (append_ok-recorded e e' s h)))
