-- ===== src/Scheduler.antt =====
-- src/asterun/scheduler.py: the bounded waiting queue and the concurrency slots. A method that
-- mutates the `Scheduler` returns the new record; an id is its text.
pub mod Counts
mod Examples
pub mod Slots
pub mod Projection
pub mod Queue
pub mod Limits
use asterun.Prelude.{
  ℕ, ◌+◌, ◌-◌, String, Bool, true, not, ◌&&◌, Option, none, some, List, [], ◌∷◌, ◌++◌, Dict, lookup,
  insert, remove, values, length, contains, discard, keep, ltb, leb, ◌==◌, string_eq, if◌then◌else◌,
}
use asterun.Errors.{Result, ok, err, rate_limited}

-- SchedulerConfig of config.py
pub record SchedulerConfig : Type 0 where
  pub max_queue : ℕ
  pub per_backend_concurrency : ℕ
  pub max_runs_per_task : ℕ
  pub max_concurrency : Option ℕ
  pub local_check_concurrency : ℕ

pub record QueueItem : Type 0 where
  pub backend : String
  pub task_id : String
  pub run_id : String
  pub workspace : Option String

pub record Scheduler : Type 0 where
  pub config : SchedulerConfig
  pub inflight : Dict String ℕ
  pub inflight_runs : List String
  pub queue : List QueueItem
  pub workspaces : Dict String String

abbrev pub or_zero : Option ℕ → ℕ
or_zero none = 0
or_zero (some n) = n

-- self.inflight.get(backend, 0)
abbrev pub inflight_for : Scheduler → String → ℕ
inflight_for s backend = or_zero (lookup backend s.inflight)

abbrev pub sum : List ℕ → ℕ
sum [] = 0
sum (n ∷ ns) = n + sum ns

-- the first conjunct of `can_start`
abbrev pub below_total : Option ℕ → ℕ → Bool
below_total none used = true
below_total (some limit) used = ltb used limit

-- the last conjunct of `can_start`
abbrev pub workspace_free : Option String → Dict String String → Bool
workspace_free none held = true
workspace_free (some w) held = not (contains (values held) w)

unfoldable pub can_start : Scheduler → String → Option String → Bool
can_start s backend workspace =
    below_total s.config.max_concurrency (sum (values s.inflight))
    && (ltb (inflight_for s backend) s.config.per_backend_concurrency
        && workspace_free workspace s.workspaces)

unfoldable pub can_enqueue : Scheduler → Bool
can_enqueue s = ltb (length s.queue) s.config.max_queue

-- the two texts that `admit` returns
pub data Admission : Type 0 where
  start_now wait_in_queue : Admission

unfoldable pub admit : Scheduler → String → Option String → Result Admission
admit s backend workspace =
    if can_start s backend workspace
    then ok start_now
    else if can_enqueue s
    then ok wait_in_queue
    else err rate_limited

-- `self.workspaces[run_id] = workspace`, where a workspace is given
abbrev pub hold : Option String → String → Dict String String → Dict String String
hold none run held = held
hold (some w) run held = insert run w held

-- the early return of `start`: a run that is in flight may still get its workspace
abbrev pub hold_missing : Option String → String → Dict String String → Dict String String
hold_missing none run held = held
hold_missing (some w) run held = elim (lookup run held) [ none ↦ insert run w held | some _ ↦ held ]

unfoldable pub start : Scheduler → String → Option String → Option String → Scheduler
start s backend none workspace = record s {
  inflight = insert backend (inflight_for s backend + 1) s.inflight;
}
start s backend (some run) workspace =
    if contains s.inflight_runs run
    then record s { workspaces = hold_missing workspace run s.workspaces }
    else record s {
      inflight = insert backend (inflight_for s backend + 1) s.inflight;
      inflight_runs = s.inflight_runs ++ run ∷ [];
      workspaces = hold workspace run s.workspaces;
    }

unfoldable pub enqueue : Scheduler → String → String → String → Option String → Scheduler
enqueue s backend task run workspace = record s {
  queue =
      s.queue
      ++ record { backend = backend; task_id = task; run_id = run; workspace = workspace } ∷ [];
}

-- Scheduler.remove
unfoldable pub drop_run : Scheduler → String → Scheduler
drop_run s run = record s { queue = keep (λ item. not (item.run_id == run)) s.queue }

-- the last lines of `finish`: one slot of the backend is given back
abbrev pub release_slot : Dict String ℕ → String → ℕ → Dict String ℕ
release_slot slots backend current =
    if leb current 1 then remove backend slots else insert backend (current - 1) slots

unfoldable pub finish : Scheduler → String → Option String → Scheduler
finish s backend none = record s {
  inflight = release_slot s.inflight backend (inflight_for s backend);
}
finish s backend (some run) =
    if contains s.inflight_runs run
    then record s {
      inflight = release_slot s.inflight backend (inflight_for s backend);
      inflight_runs = discard s.inflight_runs run;
      workspaces = remove run s.workspaces;
    }
    else s

-- the loop of `dequeue_ready`: the first item that can start, and the queue without it
unfoldable pub pop_ready : (QueueItem → Bool) → List QueueItem → Option (QueueItem × List QueueItem)
pop_ready ready [] = none
pop_ready ready (item ∷ rest) =
    let later = pop_ready ready rest in
    if ready item
    then some (item, rest)
    else elim later [ none ↦ none | some (found, left) ↦ some (found, item ∷ left) ]

unfoldable pub dequeue_ready : Scheduler → Option QueueItem × Scheduler
dequeue_ready s = elim (pop_ready (λ item. can_start s item.backend item.workspace) s.queue) [
  | none ↦ (none, s)
  | some (item, left) ↦ (some item, record s { queue = left })
]
