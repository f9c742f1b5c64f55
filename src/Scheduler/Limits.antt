-- ===== src/Scheduler/Limits.antt =====
-- The limits of scheduler.py over every sequence of admitted steps. A caller starts a run only
-- after `can_start` and queues one only after `can_enqueue`, as application.py does after `admit`;
-- it may release, drop, dequeue and repeat a start at any time.
use asterun.Prelude.{
  ℕ, suc, ◌+◌, ◌≤◌, String, ◌≡◌, Bool, true, false, Option, none, some, List, [], ◌∷◌, arith,
  lookup, values, contains, length, ◌==◌, string_eq, keep, sym, subst, not, inl, inr, Option-cases,
  Bool-cases, lookup-insert, lookup-remove, length-append,
}
use asterun.Scheduler.{
  Scheduler, SchedulerConfig, QueueItem, inflight_for, sum, can_start, can_enqueue, start, finish,
  enqueue, drop_run, dequeue_ready, pop_ready,
}
use asterun.Scheduler.Counts.{
  Positive, Positive-insert, Positive-release_slot, sum-values-insert, sum-values-release_slot,
  lookup-release_slot_le, contains-values, contains-append_self, contains-append_le,
  contains-discard_ne,
}

abbrev pub UnderTotal : Option ℕ → ℕ → Type 0
UnderTotal none n = Unit
UnderTotal (some limit) n = n ≤ limit

pub record WithinLimits (s : Scheduler) : Type 0 where
  pub per_backend : (b : String) → inflight_for s b ≤ s.config.per_backend_concurrency
  pub total : UnderTotal s.config.max_concurrency (sum (values s.inflight))
  pub queue_bound : length s.queue ≤ s.config.max_queue
  pub positive : Positive s.inflight
  -- only a run that is in flight holds a workspace
  pub held_in_flight :
      (r w : String) → lookup r s.workspaces ≡ some w → contains s.inflight_runs r ≡ true
  -- two runs never hold one workspace
  pub exclusive :
      (r q w : String) → lookup r s.workspaces ≡ some w → lookup q s.workspaces ≡ some w → r ≡ q

pub data Step (s : Scheduler) : Scheduler → Type 0 where
  starting :
      (b r : String) (w : Option String)
      → can_start s b w ≡ true
      → contains s.inflight_runs r ≡ false
      → Step s (start s b (some r) w)
  restarting :
      (b r w : String) (v : Option String)
      → contains s.inflight_runs r ≡ true
      → lookup r s.workspaces ≡ some w
      → Step s (start s b (some r) v)
  finishing : (b : String) (r : Option String) → Step s (finish s b r)
  queueing :
      (b t r : String) (w : Option String) → can_enqueue s ≡ true → Step s (enqueue s b t r w)
  dropping : (r : String) → Step s (drop_run s r)
  dequeueing : Step s (dequeue_ready s).1

pub data Reach (s : Scheduler) : Scheduler → Type 0 where
  here : Reach s s
  next : {t u : Scheduler} → Reach s t → Step t u → Reach s u

abbrev pub empty : SchedulerConfig → Scheduler
empty c = record { config = c; inflight = []; inflight_runs = []; queue = []; workspaces = [] }

UnderTotal-zero : (limit : Option ℕ) → UnderTotal limit 0
UnderTotal-zero none = tt
UnderTotal-zero (some n) = omega arith

UnderTotal-mono : (limit : Option ℕ) (m n : ℕ) → m ≤ n → UnderTotal limit n → UnderTotal limit m
UnderTotal-mono none m n le h = tt
UnderTotal-mono (some k) m n le h = omega arith

pub empty-WithinLimits : (c : SchedulerConfig) → WithinLimits (empty c)
unfolding lookup
empty-WithinLimits c = record {
  per_backend = λ b. omega arith;
  total = UnderTotal-zero c.max_concurrency;
  queue_bound = omega arith;
  positive = λ b n e. ground arith;
  held_in_flight = λ r w e. ground arith;
  exclusive = λ r q w e f. ground arith;
}

module _ {s : Scheduler} (h : WithinLimits s) where
  starting-per_backend :
      (b r : String) (w : Option String) (c : String)
      → can_start s b w ≡ true
      → inflight_for (start s b (some r) w) c ≤ s.config.per_backend_concurrency
  unfolding can_start start
  starting-per_backend b r w c ok = ground (
    arith,
    h.per_backend c,
    lookup-insert b c (inflight_for s b + 1) s.inflight,
    string_eq.equal_iff b c,
  )

  starting-total :
      (b r : String) (w : Option String)
      → can_start s b w ≡ true
      → UnderTotal s.config.max_concurrency (sum (values (start s b (some r) w).inflight))
  unfolding can_start start
  starting-total b r w ok =
      ground (arith, h.total, sum-values-insert b (inflight_for s b + 1) s.inflight)

  starting-held :
      (b r : String) (w : Option String) (q v : String)
      → contains s.inflight_runs r ≡ false
      → lookup q (start s b (some r) w).workspaces ≡ some v
      → contains (start s b (some r) w).inflight_runs q ≡ true
  unfolding start
  starting-held b r none q v new e =
      ground (arith, h.held_in_flight q v, contains-append_le s.inflight_runs r q)
  starting-held b r (some w) q v new e = ground (
    arith,
    h.held_in_flight q v,
    contains-append_le s.inflight_runs r q,
    contains-append_self s.inflight_runs r,
    lookup-insert r q w s.workspaces,
    string_eq.equal_iff r q,
  )

  starting-exclusive :
      (b r : String) (w : Option String) (p q v : String)
      → can_start s b w ≡ true
      → contains s.inflight_runs r ≡ false
      → lookup p (start s b (some r) w).workspaces ≡ some v
      → lookup q (start s b (some r) w).workspaces ≡ some v
      → p ≡ q
  unfolding start can_start
  starting-exclusive b r none p q v ok new e f = ground (arith, h.exclusive p q v)
  starting-exclusive b r (some w) p q v ok new e f = ground (
    arith,
    h.exclusive p q v,
    contains-values p v s.workspaces,
    contains-values q v s.workspaces,
    lookup-insert r p w s.workspaces,
    lookup-insert r q w s.workspaces,
    string_eq.equal_iff r p,
    string_eq.equal_iff r q,
  )

config-start :
    (s : Scheduler) (b r : String) (w : Option String) → (start s b (some r) w).config ≡ s.config
unfolding start
config-start s b r w = ground arith

starting-Positive :
    {s : Scheduler} (h : WithinLimits s) (b r : String) (w : Option String)
    → contains s.inflight_runs r ≡ false
    → Positive (start s b (some r) w).inflight
unfolding start
starting-Positive {s} h b r w new =
    rw new (Positive-insert b (inflight_for s b + 1) s.inflight (omega arith) h.positive)

starting-WithinLimits :
    {s : Scheduler} (b r : String) (w : Option String)
    → WithinLimits s
    → can_start s b w ≡ true
    → contains s.inflight_runs r ≡ false
    → WithinLimits (start s b (some r) w)
starting-WithinLimits {s} b r w h ok new = record {
  per_backend = λ c. rw (config-start s b r w) (starting-per_backend h b r w c ok);
  total = rw (config-start s b r w) (starting-total h b r w ok);
  queue_bound = unfold start in ground (arith, h.queue_bound);
  positive = starting-Positive h b r w new;
  held_in_flight = λ q v. starting-held h b r w q v new;
  exclusive = λ p q v. starting-exclusive h b r w p q v ok new;
}

restarting_same :
    {s : Scheduler} (b r w : String) (v : Option String)
    → contains s.inflight_runs r ≡ true
    → lookup r s.workspaces ≡ some w
    → start s b (some r) v ≡ s
unfolding start
restarting_same b r w none old e = ground arith
restarting_same b r w (some v) old e = ground arith

finishing-WithinLimits :
    {s : Scheduler} (b : String) (r : Option String) → WithinLimits s → WithinLimits (finish s b r)
unfolding finish
finishing-WithinLimits {s} b none h = record {
  per_backend = λ c. omega (arith, h.per_backend c, lookup-release_slot_le b c s.inflight);
  total =
      UnderTotal-mono s.config.max_concurrency _ _ (sum-values-release_slot b s.inflight) h.total;
  queue_bound = h.queue_bound;
  positive = Positive-release_slot b s.inflight h.positive;
  held_in_flight = h.held_in_flight;
  exclusive = h.exclusive;
}
finishing-WithinLimits {s} b (some r) h = elim (Bool-cases (contains s.inflight_runs r)) [
  | inr out ↦ rw out h
  | inl inside ↦ rw inside (record {
    per_backend = λ c. omega (arith, h.per_backend c, lookup-release_slot_le b c s.inflight);
    total =
        UnderTotal-mono s.config.max_concurrency _ _ (sum-values-release_slot b s.inflight) h.total;
    queue_bound = h.queue_bound;
    positive = Positive-release_slot b s.inflight h.positive;
    held_in_flight = λ q v e. ground (
      arith,
      lookup-remove r q s.workspaces,
      h.held_in_flight q v,
      contains-discard_ne s.inflight_runs r q,
    );
    exclusive = λ p q v e f.
        ground (
          arith,
          lookup-remove r p s.workspaces,
          lookup-remove r q s.workspaces,
          h.exclusive p q v,
        );
  })
]

length-keep : (p : QueueItem → Bool) (xs : List QueueItem) → length (keep p xs) ≤ length xs
length-keep p [] = omega arith
length-keep p (x ∷ xs) = ground (arith, length-keep p xs)

length-pop_ready :
    (p : QueueItem → Bool) (xs : List QueueItem) (x : QueueItem) (rest : List QueueItem)
    → pop_ready p xs ≡ some (x, rest)
    → length xs ≡ suc (length rest)
unfolding pop_ready
length-pop_ready p [] x rest h = ground arith
length-pop_ready p (y ∷ ys) x rest h = elim (Option-cases (pop_ready p ys)) [
  | inl e ↦ ground (arith, e)
  | inr ((z, left), e) ↦ ground (arith, e, length-pop_ready p ys z left e)
]

-- The queue, and nothing else, may have changed, and it is no longer than the limit.
requeue :
    {s : Scheduler} (queue : List QueueItem)
    → WithinLimits s
    → length queue ≤ s.config.max_queue
    → WithinLimits (record s { queue = queue })
requeue queue h le = record {
  per_backend = h.per_backend;
  total = h.total;
  queue_bound = le;
  positive = h.positive;
  held_in_flight = h.held_in_flight;
  exclusive = h.exclusive;
}

queueing-WithinLimits :
    {s : Scheduler} (b t r : String) (w : Option String)
    → WithinLimits s
    → can_enqueue s ≡ true
    → WithinLimits (enqueue s b t r w)
unfolding enqueue can_enqueue
queueing-WithinLimits {s} b t r w h room = requeue _ h (
    ground (
      arith,
      length-append s.queue (record { backend = b; task_id = t; run_id = r; workspace = w } ∷ []),
    ))

dropping-WithinLimits : {s : Scheduler} (r : String) → WithinLimits s → WithinLimits (drop_run s r)
unfolding drop_run
dropping-WithinLimits {s} r h =
    requeue _ h (omega (arith, h.queue_bound, length-keep (λ item. not (item.run_id == r)) s.queue))

dequeueing-WithinLimits : {s : Scheduler} → WithinLimits s → WithinLimits (dequeue_ready s).1
unfolding dequeue_ready
dequeueing-WithinLimits {s} h =
    elim (Option-cases (pop_ready (λ item. can_start s item.backend item.workspace) s.queue)) [
      | inl e ↦ rw (e, dequeue_ready) h
      | inr ((x, left), e) ↦
          rw (e, dequeue_ready)
            (requeue left h (omega (arith, h.queue_bound, length-pop_ready _ s.queue x left e)))
    ]

Step-WithinLimits : {s t : Scheduler} → Step s t → WithinLimits s → WithinLimits t
Step-WithinLimits (starting b r w ok new) h = starting-WithinLimits b r w h ok new
Step-WithinLimits {s} (restarting b r w v old e) h =
    subst WithinLimits (sym (restarting_same b r w v old e)) h
Step-WithinLimits (finishing b r) h = finishing-WithinLimits b r h
Step-WithinLimits (queueing b t r w room) h = queueing-WithinLimits b t r w h room
Step-WithinLimits (dropping r) h = dropping-WithinLimits r h
Step-WithinLimits dequeueing h = dequeueing-WithinLimits h

-- From a scheduler within its limits every sequence of admitted steps stays within them: no backend
-- passes its concurrency, the slots together do not pass the total, the queue does not pass its
-- length, no entry counts 0, only runs in flight hold a workspace, and no workspace is held twice.
pub Reach-WithinLimits : {s t : Scheduler} → WithinLimits s → Reach s t → WithinLimits t
Reach-WithinLimits h here = h
Reach-WithinLimits h (next r st) = Step-WithinLimits st (Reach-WithinLimits h r)
