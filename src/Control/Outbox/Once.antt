-- ===== src/Control/Outbox/Once.antt =====
-- An action is claimed for delivery at most once.
use asterun.Prelude.{
  String, ◌≡◌, inl, inr, ◌⊎◌, sym, subst, Option, none, some, List, [], ◌∷◌, arith, string_eq,
  pair_eq, lookup-insert, lookup-insert_self, Option-cases,
}
use asterun.Errors.{Result, ok, err, unknown_remote, invalid_state}
use asterun.Control.Db.{Db, DeliveryStatus, waiting, delivering, done}
use asterun.Control.Outbox.{
  Delivery, row_of, enqueue, mark_delivery, finish_delivery, delivery, claim, complete,
}

-- The operations that write the outbox.
pub data OutboxOp : Type 0 where
  put : String → String → String → OutboxOp
  mark : String → Option String → OutboxOp
  finish : String → Option String → OutboxOp

unfoldable pub run_op : Db → OutboxOp → Db
run_op s (put action namespace payload) = (enqueue action namespace payload s).1
run_op s (mark action namespace) = (mark_delivery action namespace s).1
run_op s (finish action namespace) = (finish_delivery action namespace s).1

unfoldable pub run_ops : Db → List OutboxOp → Db
unfolding run_op
run_ops s [] = s
run_ops s (op ∷ ops) = run_ops (run_op s op) ops

-- The row is there and no longer waits.
abbrev pub IsClaimed : Option (String × DeliveryStatus) → Type 0
IsClaimed none = ⊥
IsClaimed (some (payload, waiting)) = ⊥
IsClaimed (some (payload, delivering)) = Unit
IsClaimed (some (payload, done)) = Unit

enqueue-IsClaimed :
    (action n payload m u : String) (s : Db)
    → IsClaimed (row_of s m u)
    → IsClaimed (row_of (enqueue action n payload s).1 m u)
unfolding enqueue
enqueue-IsClaimed action n payload m u s h = ground (
  arith,
  lookup-insert (n, action) (m, u) (payload, waiting) s.outbox,
  string_eq.equal_iff n m,
  string_eq.equal_iff action u,
)

claim-IsClaimed :
    (r : Result Delivery) (m u : String) (s : Db)
    → IsClaimed (row_of s m u)
    → IsClaimed (row_of (claim r s).1 m u)
claim-IsClaimed (err c) m u s h = h
claim-IsClaimed (ok item) m u s h = ground (
  arith,
  lookup-insert (item.namespace_id, item.action_id) (m, u) (item.payload, delivering) s.outbox,
  string_eq.equal_iff item.namespace_id m,
  string_eq.equal_iff item.action_id u,
)

complete-IsClaimed :
    (r : Result Delivery) (m u : String) (s : Db)
    → IsClaimed (row_of s m u)
    → IsClaimed (row_of (complete r s).1 m u)
complete-IsClaimed (err c) m u s h = h
complete-IsClaimed (ok item) m u s h = ground (
  arith,
  lookup-insert (item.namespace_id, item.action_id) (m, u) (item.payload, done) s.outbox,
  string_eq.equal_iff item.namespace_id m,
  string_eq.equal_iff item.action_id u,
)

-- ROLLBACK after an error of `claim` or `complete` changes nothing: neither wrote before it.
mark_delivery-claim :
    (action : String) (n : Option String) (s : Db)
    → (mark_delivery action n s).1 ≡ (claim (delivery action n s) s).1
unfolding mark_delivery
mark_delivery-claim action n s = ground arith

finish_delivery-complete :
    (action : String) (n : Option String) (s : Db)
    → (finish_delivery action n s).1 ≡ (complete (delivery action n s) s).1
unfolding finish_delivery
finish_delivery-complete action n s = ground arith

run_op-IsClaimed :
    (s : Db) (op : OutboxOp) (m u : String)
    → IsClaimed (row_of s m u)
    → IsClaimed (row_of (run_op s op) m u)
unfolding run_op
run_op-IsClaimed s (put action n payload) m u h = enqueue-IsClaimed action n payload m u s h
run_op-IsClaimed s (mark action n) m u h =
    subst (λ t. IsClaimed (row_of t m u)) (sym (mark_delivery-claim action n s))
      (claim-IsClaimed (delivery action n s) m u s h)
run_op-IsClaimed s (finish action n) m u h =
    subst (λ t. IsClaimed (row_of t m u)) (sym (finish_delivery-complete action n s))
      (complete-IsClaimed (delivery action n s) m u s h)

run_ops-IsClaimed :
    (s : Db) (ops : List OutboxOp) (m u : String)
    → IsClaimed (row_of s m u)
    → IsClaimed (row_of (run_ops s ops) m u)
unfolding run_ops
run_ops-IsClaimed s [] m u h = h
run_ops-IsClaimed s (op ∷ ops) m u h =
    run_ops-IsClaimed (run_op s op) ops m u (run_op-IsClaimed s op m u h)

marked-IsClaimed :
    (action n : String) (s s' : Db) (item : Delivery)
    → mark_delivery action (some n) s ≡ (ok item, s')
    → IsClaimed (row_of s' n action)
unfolding mark_delivery
marked-IsClaimed action n s s' item h = elim (Option-cases (row_of s n action)) [
  | inl e ↦ absurd (ground arith)
  | inr ((payload, status), e) ↦
      ground (arith, e, lookup-insert_self (n, action) (payload, delivering) s.outbox)
]

refused_claimed :
    (action n : String) (s : Db)
    → IsClaimed (row_of s n action)
    → (mark_delivery action (some n) s ≡ (err unknown_remote, s))
      ⊎ (mark_delivery action (some n) s ≡ (err invalid_state, s))
unfolding mark_delivery
refused_claimed action n s h = ground arith

-- Once an action was claimed for delivery it is never claimed again: after any enqueueing, claiming
-- and finishing, in any order, a claim is refused as uncertain or as done, and changes nothing.
pub mark_delivery-once :
    (action n : String) (s s' : Db) (item : Delivery) (ops : List OutboxOp)
    → mark_delivery action (some n) s ≡ (ok item, s')
    → (mark_delivery action (some n) (run_ops s' ops) ≡ (err unknown_remote, run_ops s' ops))
      ⊎ (mark_delivery action (some n) (run_ops s' ops) ≡ (err invalid_state, run_ops s' ops))
mark_delivery-once action n s s' item ops h =
    refused_claimed action n (run_ops s' ops)
      (run_ops-IsClaimed s' ops n action (marked-IsClaimed action n s s' item h))
