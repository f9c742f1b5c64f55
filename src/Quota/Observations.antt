-- ===== src/Quota/Observations.antt =====
-- What src/asterun/quota/selection.py reads of a quota window, and the rows it makes of it:
-- `resolve_prefs`, the first loop of `score_candidate`, and the helpers of both.
use asterun.Prelude.{
  ℕ, suc, ◌*◌, ◌/◌, String, Bool, false, not, ◌&&◌, ◌||◌, Option, none, some, List, Dict, lookup,
  leb, ltb, ◌==◌, string_eq, option_eq, if◌then◌else◌,
}
use asterun.Prelude.Int.{ℤ, pos, negsuc, ◌-ℤ◌, leb_ℤ}

-- The preferences as they are written, where every key may be missing, and completed.
pub record RawPrefs : Type 0 where
  pub raw_horizon_hours : Option ℕ
  pub raw_waste_threshold_bp : Option ℕ
  pub raw_switch_margin_bp : Option ℕ
  pub raw_require_confidence : Option String
  pub raw_consider_short_windows : Option Bool
  pub raw_floor_short_bp : Option ℕ
  pub raw_floor_long_bp : Option ℕ

pub record Prefs : Type 0 where
  pub horizon_hours : ℕ
  pub waste_threshold_bp : ℕ
  pub switch_margin_bp : ℕ
  pub require_confidence : String
  pub consider_short_windows : Bool
  pub floor_short_bp : ℕ
  pub floor_long_bp : ℕ

abbrev pub or_else {ℓ} : {A : Type ℓ} → Option A → A → A
or_else none d = d
or_else (some a) d = a

abbrev pub resolve_prefs : RawPrefs → Prefs
resolve_prefs raw = record {
  horizon_hours = or_else raw.raw_horizon_hours 72;
  waste_threshold_bp = or_else raw.raw_waste_threshold_bp 1000;
  switch_margin_bp = or_else raw.raw_switch_margin_bp 500;
  require_confidence = or_else raw.raw_require_confidence "medium";
  consider_short_windows = or_else raw.raw_consider_short_windows false;
  floor_short_bp = or_else raw.raw_floor_short_bp 500;
  floor_long_bp = or_else raw.raw_floor_long_bp 1000;
}

-- The keys of an observation that are read; a missing key is `none`.
pub record Observation : Type 0 where
  pub paid_overage : Bool
  pub bucket_id : Option String
  pub window_kind : Option String
  pub used_bp : Option ℤ
  pub exhausted_hint : Option String
  pub window_duration_s : Option ℤ
  pub resets_at : Option String
  pub observed_at : Option String
  pub window_epoch : Option String
  pub confidence : Option String

pub record Window : Type 0 where
  pub observation : Observation
  pub freshness : Option String
  pub history : List Observation

-- `est_bp_per_run`: one number, or a number for each kind of window
pub data Estimates : Type 0 where
  flat : ℕ → Estimates
  by_kind : Dict String ℕ → Estimates

pub record Row : Type 0 where
  pub bucket : String
  pub kind : String
  pub used : ℤ
  pub remaining : ℤ
  pub duration : Option ℕ
  pub t_seconds : Option ℤ
  pub row_resets_at : Option String
  pub row_confidence : Option String
  pub est : ℕ
  pub short : Bool
  pub row_history : List Observation
  pub row_observation : Observation

abbrev pub or_empty : Option String → String
or_empty none = ""
or_empty (some t) = t

-- `bool(text)`
abbrev pub is_set : Option String → Bool
is_set none = false
is_set (some t) = not (t == "")

abbrev pub is_fresh : Option String → Bool
is_fresh freshness = freshness == some "fresh"

abbrev pub default_duration : Option String → Option ℕ
default_duration kind =
    if kind == some "5h"
    then some 18000
    else if kind == some "weekly"
    then some 604800
    else if kind == some "monthly"
    then some 2592000
    else none

abbrev pub duration_s : Observation → Option ℕ
duration_s o = elim o.window_duration_s [
  | none ↦ default_duration o.window_kind
  | some raw ↦ elim raw [
    | pos n ↦ if ltb 0 n then some n else default_duration o.window_kind
    | negsuc n ↦ default_duration o.window_kind
  ]
]

abbrev pub below_day : Option ℕ → Bool
below_day none = false
below_day (some d) = ltb d 86400

abbrev pub is_short : Observation → Option ℕ → Bool
is_short o duration = (o.window_kind == some "5h") || below_day duration

abbrev pub estimate : Estimates → Option String → ℕ
estimate (flat n) kind = n
estimate (by_kind d) none = or_else (lookup "default" d) 100
estimate (by_kind d) (some kind) = or_else (lookup kind d) (or_else (lookup "default" d) 100)

-- `int((a - b).total_seconds())` of two instants in microseconds; `int` rounds towards 0
abbrev pub truncated : ℤ → ℤ
truncated (pos n) = pos (n / 1000000)
truncated (negsuc n) = pos 0 -ℤ pos (suc n / 1000000)

abbrev pub seconds_to : Option ℕ → Option ℕ → Option ℤ
seconds_to (some reset) (some moment) = some (truncated (pos reset -ℤ pos moment))
seconds_to _ _ = none

abbrev pub parsed : (String → Option ℕ) → Option String → Option ℕ
parsed parse_time none = none
parsed parse_time (some t) = parse_time t

abbrev pub has_reset : Option ℕ → Option ℕ → Bool
has_reset (some reset) (some moment) = leb reset moment
has_reset _ _ = false

abbrev pub spent_use : Option ℤ → Bool
spent_use none = false
spent_use (some used) = leb_ℤ (pos 10000) used

-- What the first loop takes an item for. An item that is no dictionary is `none`.
pub data Seen : Type 0 where
  skipped paid latch spent : Seen
  counted : Row → Seen

-- `parse_time` is `_parse_time`, which gives the microseconds of an instant, or nothing for a text
-- that is no time; `now` is the instant of the call.
module _ (parse_time : String → Option ℕ) where
  abbrev pub is_latch : Observation → Option String → Option ℕ → Bool
  is_latch o freshness now =
      (freshness == some "latched") && not (has_reset (parsed parse_time o.resets_at) now)

  abbrev pub row_of : Window → ℤ → Option ℕ → ℕ → Estimates → Row
  row_of w used now inflight_runs estimates = record {
    bucket = or_empty w.observation.bucket_id;
    kind = or_empty w.observation.window_kind;
    used = used;
    remaining =
        pos 10000 -ℤ used -ℤ pos (inflight_runs * estimate estimates w.observation.window_kind);
    duration = duration_s w.observation;
    t_seconds = seconds_to (parsed parse_time w.observation.resets_at) now;
    row_resets_at = w.observation.resets_at;
    row_confidence = w.observation.confidence;
    est = estimate estimates w.observation.window_kind;
    short = is_short w.observation (duration_s w.observation);
    row_history = w.history;
    row_observation = w.observation;
  }

  abbrev pub is_spent : Window → Bool
  is_spent w =
      (w.freshness == some "exhausted")
      || (is_fresh w.freshness
          && (is_set w.observation.exhausted_hint || spent_use w.observation.used_bp))

  abbrev pub fresh_row : Window → Option ℤ → Option ℕ → ℕ → Estimates → Seen
  fresh_row w none now inflight_runs estimates = skipped
  fresh_row w (some used) now inflight_runs estimates =
      if is_fresh w.freshness then counted (row_of w used now inflight_runs estimates) else skipped

  unfoldable pub see : Option ℕ → ℕ → Estimates → Option Window → Seen
  see now inflight_runs estimates none = skipped
  see now inflight_runs estimates (some w) =
      if w.observation.paid_overage
      then paid
      else if is_latch w.observation w.freshness now
      then latch
      else if is_spent w
      then spent
      else fresh_row w w.observation.used_bp now inflight_runs estimates
