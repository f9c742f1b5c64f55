-- ===== src/Quota/Scoring.antt =====
-- `score_candidate` of src/asterun/quota/selection.py: the value of what a candidate's windows would
-- let expire unused.
pub mod Windows
pub mod Tiers
use Prim.Native.Nat.{max}
use Prim.Native.String.{◌++◌ as joined}
use asterun.Prelude.{
  ℕ, zero, suc, ◌+◌, ◌-◌, ◌*◌, ◌/◌, String, Bool, true, false, not, ◌&&◌, ◌||◌, Option, none, some,
  List, [], ◌∷◌, ◌++◌, map, Dict, lookup, insert, values, keep, any, contains, leb, ltb, ◌==◌,
  string_eq, option_eq, nat_eq, if◌then◌else◌,
}
use asterun.Prelude.Int.{ℤ, pos, negsuc, ◌+ℤ◌, ◌-ℤ◌, ◌*ℤ◌, ltb_ℤ, leb_ℤ}
use asterun.Quota.Observations.{
  Prefs, Observation, Window, Estimates, Row, Seen, skipped, paid, latch, spent, counted, see,
  parsed, or_empty, is_set,
}
use asterun.Quota.Selection.{Score, before}

-- The result of the first loop: the marks of what it met, and the rows.
pub record Scan : Type 0 where
  pub paid_ignored : Bool
  pub latched : Bool
  pub exhausted : Bool
  pub rows : List Row

abbrev pub add_seen : Seen → Scan → Scan
add_seen skipped scan = scan
add_seen paid scan = record scan { paid_ignored = true }
add_seen latch scan = record scan { latched = true }
add_seen spent scan = record scan { exhausted = true }
add_seen (counted row) scan = record scan { rows = row ∷ scan.rows }

-- `a // n` for n > 0: the quotient rounded down
abbrev pub floor_div : ℤ → ℕ → ℤ
floor_div (pos a) n = pos (a / n)
floor_div (negsuc a) n = negsuc (a / n)

abbrev pub row_reset : Row → String
row_reset r = if is_set r.row_resets_at then or_empty r.row_resets_at else "9999-12-31T23:59:59Z"

abbrev pub floor_bp : Prefs → Row → ℕ
floor_bp p r = if r.short then p.floor_short_bp else p.floor_long_bp

abbrev pub is_below_floor : Prefs → Row → Bool
is_below_floor p r = ltb_ℤ r.remaining (pos (floor_bp p r + r.est))

-- `_CONFIDENCE_RANK.get(value, unknown)`
abbrev pub rank : Option String → ℤ → ℤ
rank value unknown =
    if value == some "low"
    then pos 0
    else if value == some "medium"
    then pos 1
    else if value == some "high"
    then pos 2
    else unknown

abbrev pub confidence_ok : Option String → String → Bool
confidence_ok confidence require = leb_ℤ (rank (some require) (pos 1)) (rank confidence (negsuc 0))

abbrev pub min_remaining : List Row → Option ℤ
min_remaining [] = none
min_remaining (r ∷ rs) = elim (min_remaining rs) [
  | none ↦ some r.remaining
  | some m ↦ if ltb_ℤ m r.remaining then some m else some r.remaining
]

-- A point of use: an instant and what was used then.
abbrev pub same_epoch : Option String → Option String → Bool
same_epoch epoch other = not (is_set epoch) || ((other == none) || (other == epoch))

abbrev pub insert_point : ℕ × ℤ → List (ℕ × ℤ) → List (ℕ × ℤ)
insert_point p [] = p ∷ []
insert_point p (q ∷ qs) =
    let later = insert_point p qs in if leb p.0 q.0 then p ∷ (q ∷ qs) else q ∷ later

-- one pair of neighbours: the use and the seconds between them
abbrev pub rate : ℕ × ℤ → ℕ × ℤ → Option (ℕ × ℕ)
rate (at, used) (at', used') = elim (used' -ℤ used) [
  | negsuc n ↦ none
  | pos delta ↦ if leb 1800 ((at' - at) / 1000000) then some (delta, (at' - at) / 1000000) else none
]

abbrev pub rates : List (ℕ × ℤ) → List (ℕ × ℕ)
rates [] = []
rates (p ∷ ps) = elim ps [
  | [] ↦ []
  | q ∷ qs ↦ let later = rates ps in elim (rate p q) [ none ↦ later | some r ↦ r ∷ later ]
]

-- the mean that halves the weight of what came before
unfoldable pub average : ℕ × ℕ → List (ℕ × ℕ) → ℕ × ℕ
average (n, d) [] = (n, d)
average (n, d) ((delta, gap) ∷ later) = average (delta * d + n * gap, 2 * gap * d) later

abbrev pub mean : List (ℕ × ℕ) → Option (ℕ × ℕ)
mean [] = none
mean (r ∷ later) = some (average r later)

-- `numerator // denominator` where both are positive, else 0
abbrev pub quotient : ℤ → ℕ → ℕ
quotient (pos n) d = n / d
quotient (negsuc n) d = 0

module _ (parse_time : String → Option ℕ) where
  abbrev pub point : Option String → Observation → Option (ℕ × ℤ)
  point epoch o =
      if same_epoch epoch o.window_epoch
      then elim o.used_bp [
        | none ↦ none
        | some used ↦ elim (parsed parse_time o.observed_at) [
          | none ↦ none
          | some at ↦ some (at, used)
        ]
      ]
      else none

  -- the points in the order of time; those of one instant keep their order
  abbrev pub points : Option String → List Observation → List (ℕ × ℤ)
  points epoch [] = []
  points epoch (o ∷ os) =
      let later = points epoch os in
      elim (point epoch o) [ none ↦ later | some p ↦ insert_point p later ]

  unfoldable pub ewma_per_second : Observation → List Observation → Option (ℕ × ℕ)
  ewma_per_second o history = mean (rates (points o.window_epoch (history ++ o ∷ [])))

  -- `_waste` of a row whose window lasts `duration` and ends in `t` seconds, t being at most that
  unfoldable pub waste : Row → ℕ → ℕ → ℕ
  unfolding ewma_per_second
  waste r duration t = elim (ewma_per_second r.row_observation r.row_history) [
    | some (n, d) ↦ quotient (r.remaining *ℤ pos d -ℤ pos (n * t)) d
    | none ↦
        if leb (max 3600 (duration / 10)) (duration - t)
        then quotient (r.remaining *ℤ pos (duration - t) -ℤ (r.used *ℤ pos t)) (duration - t)
        else quotient (r.remaining *ℤ pos duration -ℤ pos (10000 * t)) duration
  ]

-- A row with its value.
pub record Valued : Type 0 where
  pub row : Row
  pub wasted : ℕ
  pub s_a : ℤ

-- the end of the window in seconds, where the row may have a value: it lies ahead, within the
-- horizon and within the length of the window
abbrev pub span : Prefs → Row → Option (ℕ × ℕ)
span p r = if r.short && not p.consider_short_windows then none else elim r.duration [
  | none ↦ none
  | some duration ↦ elim r.t_seconds [
    | none ↦ none
    | some end ↦ elim end [
      | negsuc n ↦ none
      | pos t ↦
          if ltb 0 t && (leb t (p.horizon_hours * 3600) && leb t duration)
          then some (duration, t)
          else none
    ]
  ]
]

abbrev pub lower : Option Valued → Row → Bool
lower none r = true
lower (some v) r = ltb_ℤ r.remaining v.row.remaining

-- `score_candidate` returns a score, the least remainder and the names of the windows.
pub record Scored : Type 0 where
  pub score : Score
  pub u_value : Option ℤ
  pub windows_used : List String

module _ (parse_time : String → Option ℕ) where
  -- one round of the loop of `_value_rows`
  abbrev pub add_value : Prefs → Row → Dict String Valued → Dict String Valued
  add_value p r chosen = elim (span p r) [
    | none ↦ chosen
    | some (duration, t) ↦
        if lower (lookup r.kind chosen) r
        then insert r.kind
            (record {
              row = r;
              wasted = waste parse_time r duration t;
              s_a = floor_div (r.remaining *ℤ pos 3600) t;
            })
            chosen
        else chosen
  ]

  unfoldable pub value_rows_from : Prefs → Dict String Valued → List Row → Dict String Valued
  unfolding waste
  value_rows_from p chosen [] = chosen
  value_rows_from p chosen (r ∷ rs) = value_rows_from p (add_value p r chosen) rs

  unfoldable pub value_rows : Prefs → List Row → List Valued
  unfolding value_rows_from
  value_rows p rows = values (value_rows_from p [] rows)

  unfoldable pub scan : Option ℕ → ℕ → Estimates → List (Option Window) → Scan
  unfolding see
  scan now inflight estimates [] = record {
    paid_ignored = false;
    latched = false;
    exhausted = false;
    rows = [];
  }
  scan now inflight estimates (w ∷ ws) =
      add_seen (see parse_time now inflight estimates w) (scan now inflight estimates ws)

-- `_best_waste`
abbrev pub wastes_more : Valued → Valued → Bool
wastes_more v best =
    ltb best.wasted v.wasted
    || ((v.wasted == best.wasted) && before (row_reset v.row) (row_reset best.row))

unfoldable pub best_waste_from : Valued → List Valued → Valued
best_waste_from best [] = best
best_waste_from best (v ∷ vs) = best_waste_from (if wastes_more v best then v else best) vs

unfoldable pub best_waste : List Valued → Option Valued
unfolding best_waste_from
best_waste [] = none
best_waste (v ∷ vs) = some (best_waste_from v vs)

abbrev pub wasted_of : Option Valued → ℕ
wasted_of none = 0
wasted_of (some v) = v.wasted

abbrev pub s_a_of : Option Valued → ℤ
s_a_of none = pos 0
s_a_of (some v) = v.s_a

abbrev pub reset_of : Option Valued → Option String
reset_of none = none
reset_of (some v) = v.row.row_resets_at

abbrev pub has_some {ℓ} : {A : Type ℓ} → Option A → Bool
has_some none = false
has_some (some a) = true

abbrev pub when : Bool → String → List String
when true code = code ∷ []
when false code = []

abbrev pub is_nil {ℓ} : {A : Type ℓ} → List A → Bool
is_nil [] = true
is_nil (x ∷ xs) = false

-- `_result`
abbrev pub result : ℕ → ℕ → ℤ → Option ℤ → Bool → List String → List String → Option String → Scored
result tier score score_a u excluded codes windows resets = record {
  score = record {
    tier = tier;
    s = pos score;
    s_a = score_a;
    excluded = excluded;
    reason_codes = codes;
    resets_at = resets;
    can_start = none;
  };
  u_value = u;
  windows_used = windows;
}

abbrev pub window_names : List Row → List String
window_names rows = map (λ r. joined r.bucket (joined "/" r.kind)) rows

-- What `score_candidate` computes of the rows before it decides.
pub record Measures : Type 0 where
  pub best : Option Valued
  pub best_qualified : Option Valued
  pub below_floor : Bool
  pub codes : List String

abbrev pub qualifies : Prefs → Valued → Bool
qualifies p v = confidence_ok v.row.row_confidence p.require_confidence

abbrev pub scan_codes : Scan → List String
scan_codes s =
    when s.paid_ignored "paid_overage_ignored"
    ++ when s.latched "latched"
    ++ when s.exhausted "exhausted"

-- The decisions at the end of `score_candidate`.
unfoldable pub decide : Prefs → ℕ → Scan → Measures → Scored
decide p weight s m =
    let score = weight * wasted_of m.best in
    let qualified = weight * wasted_of m.best_qualified in
    let finish = λ (tier : ℕ) (excluded : Bool) (codes : List String).
      result tier score (s_a_of m.best) (min_remaining s.rows) excluded codes (window_names s.rows)
        (reset_of m.best) in
    if s.latched || s.exhausted
    then finish 3 true (m.codes ++ when m.below_floor "below_floor")
    else if is_nil s.rows
    then result 2 0 (pos 0) none false (m.codes ++ "unknown" ∷ []) (window_names s.rows) none
    else if m.below_floor
    then finish 3 false (m.codes ++ "below_floor" ∷ [])
    else if leb p.waste_threshold_bp qualified && has_some m.best_qualified
    then finish 0 false m.codes
    else finish 1 false (
        m.codes
        ++ when
            (has_some m.best
              && (ltb qualified p.waste_threshold_bp && leb p.waste_threshold_bp score))
            "confidence_below_required")

-- the early return of a candidate of which nothing is known
abbrev pub nothing_known : Scan → Bool
nothing_known s = is_nil s.rows && not (s.latched || s.exhausted)

module _ (parse_time : String → Option ℕ) where
  abbrev pub measures : Prefs → Scan → Measures
  measures p s =
      let ranked = value_rows parse_time p s.rows in
      record {
        best = best_waste ranked;
        best_qualified = best_waste (keep (qualifies p) ranked);
        below_floor = any (is_below_floor p) s.rows;
        codes = scan_codes s;
      }

  abbrev pub score_scan : Prefs → ℕ → Bool → Scan → Scored
  score_scan p weight no_windows s =
      if nothing_known s
      then result 2 0 (pos 0) none false
          (when s.paid_ignored "paid_overage_ignored"
            ++ (if no_windows then "no_windows" else "unknown") ∷ [])
          [] none
      else decide p weight s (measures p s)

  unfoldable pub score_candidate :
      List (Option Window) → Option ℕ → Prefs → ℕ → Estimates → ℕ → Scored
  unfolding scan value_rows best_waste decide
  score_candidate windows now p inflight estimates weight =
      score_scan p weight (is_nil windows) (scan parse_time now inflight estimates windows)
