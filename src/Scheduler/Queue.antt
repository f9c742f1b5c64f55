-- ===== src/Scheduler/Queue.antt =====
-- The order of the queue of scheduler.py: what `dequeue_ready` picks and what it leaves.
use asterun.Prelude.{
  ◌≡◌, refl, ap, sym, ◌∙◌, inl, inr, Bool, true, false, Option, none, some, List, [], ◌∷◌, ◌++◌,
  arith, Bool-cases, Option-cases, All, string_eq,
}
use asterun.Scheduler.{Scheduler, QueueItem, can_start, pop_ready, dequeue_ready}

abbrev pub ready : Scheduler → QueueItem → Bool
ready s item = can_start s item.backend item.workspace

-- What `dequeue_ready` may answer: an item that can start, before which no item can, taken out of
-- its place; or nothing, where no item can start.
pub data Picked (s : Scheduler) : Option QueueItem → List QueueItem → Type 0 where
  first :
      (before : List QueueItem) (item : QueueItem) (after queue : List QueueItem)
      → s.queue ≡ before ++ item ∷ after
      → queue ≡ before ++ after
      → All (λ i. ready s i ≡ false) before
      → ready s item ≡ true
      → Picked s (some item) queue
  nothing :
      (queue : List QueueItem)
      → queue ≡ s.queue
      → All (λ i. ready s i ≡ false) s.queue
      → Picked s none queue

abbrev Found : (QueueItem → Bool) → List QueueItem → QueueItem → List QueueItem → Type 0
Found p xs x rest =
    (before after : List QueueItem) × (xs ≡ before ++ x ∷ after)
    × (rest ≡ before ++ after)
    × All (λ i. p i ≡ false) before
    × (p x ≡ true)

pop_ready-cons :
    (p : QueueItem → Bool) (y : QueueItem) (ys : List QueueItem) (x : QueueItem)
    (rest : List QueueItem) (z : QueueItem) (left : List QueueItem)
    → p y ≡ false
    → pop_ready p ys ≡ some (z, left)
    → pop_ready p (y ∷ ys) ≡ some (x, rest)
    → (z ≡ x) × (y ∷ left ≡ rest)
unfolding pop_ready
pop_ready-cons p y ys x rest z left no' e h = ground arith

pop_ready-some :
    (p : QueueItem → Bool) (xs : List QueueItem) (x : QueueItem) (rest : List QueueItem)
    → pop_ready p xs ≡ some (x, rest)
    → Found p xs x rest
unfolding pop_ready
pop_ready-some p [] x rest h = absurd (ground arith)
pop_ready-some p (y ∷ ys) x rest h = elim (Bool-cases (p y)) [
  | inl yes' ↦ ([], ys, ground arith, ground arith, tt, ground arith)
  | inr no' ↦ elim (Option-cases (pop_ready p ys)) [
    | inl e ↦ absurd (ground arith)
    | inr ((z, left), e) ↦
        let (before, after, xs_eq, rest_eq, none_ready, x_ready) = pop_ready-some p ys z left e in
        let (same, rest_is) = pop_ready-cons p y ys x rest z left no' e h in
        (
          y ∷ before,
          after,
          ground arith,
          sym rest_is ∙ ap (λ l. y ∷ l) rest_eq,
          (no', none_ready),
          rw (← same) x_ready,
        )
  ]
]

pop_ready-none :
    (p : QueueItem → Bool) (xs : List QueueItem) → pop_ready p xs ≡ none → All (λ i. p i ≡ false) xs
unfolding pop_ready
pop_ready-none p [] h = tt
pop_ready-none p (y ∷ ys) h = (ground arith, pop_ready-none p ys (ground arith))

-- `dequeue_ready` takes the first item of the queue that can start and leaves the others in their
-- order; it takes none exactly when no queued item can start.
pub dequeue_ready-Picked : (s : Scheduler) → Picked s (dequeue_ready s).0 (dequeue_ready s).1.queue
unfolding dequeue_ready
dequeue_ready-Picked s = elim (Option-cases (pop_ready (ready s) s.queue)) [
  | inl e ↦ rw (e, dequeue_ready) (Picked.nothing s.queue refl (pop_ready-none _ s.queue e))
  | inr ((x, left), e) ↦
      let (before, after, xs_eq, rest_eq, none_ready, x_ready) =
        pop_ready-some _ s.queue x left e in
      rw (e, dequeue_ready) (Picked.first before x after left xs_eq rest_eq none_ready x_ready)
]
