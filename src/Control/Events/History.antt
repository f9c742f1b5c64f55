-- ===== src/Control/Events/History.antt =====
-- The event tables after any history of appends and prunes.
use asterun.Prelude.{refl, List, [], ◌∷◌, lookup, arith, string_eq, pair_eq}
use asterun.Control.Db.{Db, empty}
use asterun.Control.Events.Numbering.{IsNumbered, append_event-IsNumbered}
use asterun.Control.Events.Pruning.{prune_events-IsNumbered}
use asterun.Control.Events.Identity.{EventOp, append, prune, run_op, run_ops}

pub empty-IsNumbered : IsNumbered empty
unfolding lookup
empty-IsNumbered = record { numbered = λ n t. refl; bounded = λ n t. omega arith; known = tt }

-- After any history of appends and prunes, refused ones included, every stream of a well-numbered
-- store is well numbered: its rows carry the consecutive numbers from above the floor to the last
-- one given, that number is a safe integer, and the identity of every row is recorded.
pub run_ops-IsNumbered : (s : Db) (ops : List EventOp) → IsNumbered s → IsNumbered (run_ops s ops)
unfolding run_ops run_op
run_ops-IsNumbered s [] h = h
run_ops-IsNumbered s (append e ∷ ops) h =
    run_ops-IsNumbered (run_op s (append e)) ops (append_event-IsNumbered e s h)
run_ops-IsNumbered s (prune n t through ∷ ops) h =
    run_ops-IsNumbered (run_op s (prune n t through)) ops (prune_events-IsNumbered n t through s h)
