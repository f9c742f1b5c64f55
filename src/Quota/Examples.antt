-- ===== src/Quota/Examples.antt =====
-- The theorems about quotas at two candidates: one whose week is about to end mostly unused, and one
-- that keeps its pace.
use asterun.Prelude.{
  ℕ, String, ◌≡◌, refl, ◌⊎◌, true, false, Option, none, some, List, [], ◌∷◌, Dict, lookup, contains,
  string_eq, insert,
}
use asterun.Prelude.Int.{pos, ◌+ℤ◌, ◌-ℤ◌, ◌*ℤ◌, ◌≤ℤ◌}
use asterun.Errors.{ok}
use asterun.Quota.Observations.{Prefs, resolve_prefs, Observation, Window, flat, see, is_latch}
use asterun.Quota.Selection.{
  Score, Group, Selection, choice, select, score_of, usable, rounded, removed, fresh_choice, beats,
  switch_to, best_from, switch, waste_margin, with_sticky, latched_score, unknown_score,
}
use asterun.Quota.Selection.Usable.{select-usable, select-margin}
use asterun.Quota.Selection.Sticky.{select-keeps_sticky}
use asterun.Quota.Scoring.{
  Scored, scan, score_candidate, waste, value_rows, value_rows_from, best_waste, best_waste_from,
  decide, ewma_per_second,
}
use asterun.Quota.Scoring.Windows.{Agree, score_candidate-paid, score_candidate-latched}
use asterun.Quota.Scoring.Tiers.{Wasteful, score_candidate-Wasteful}

abbrev with_score : ℕ → ℕ → Score
with_score tier s = record {
  tier = tier;
  s = pos s;
  s_a = pos 0;
  excluded = false;
  reason_codes = [];
  resets_at = none;
  can_start = none;
}

abbrev scores : Dict String Score
scores = ("codex", with_score 1 300) ∷ ("grok", with_score 0 2400) ∷ []

abbrev pair : Group
pair = record { members = "codex" ∷ "grok" ∷ []; primary = "codex" }

abbrev switched : Selection
switched = record {
  choice = record { chosen = "grok"; mode = switch; reason_code = waste_margin };
  primary = "codex";
  candidates =
      record {
        alias = "codex";
        tier = 1;
        s = pos 300;
        s_a = pos 0;
        excluded = false;
        reason_codes = [];
      }
      ∷ record {
        alias = "grok";
        tier = 0;
        s = pos 2400;
        s_a = pos 0;
        excluded = false;
        reason_codes = [];
      }
      ∷ [];
}

switches : select scores pair 500 none ≡ ok switched
unfolding select choice fresh_choice beats rounded switch_to best_from with_sticky lookup ◌+ℤ◌
switches = refl

select-usable_example :
    (switched.choice.chosen ≡ "codex")
    ⊎ ((contains pair.members "grok" ≡ true) × (usable (score_of scores "grok") ≡ true))
select-usable_example = select-usable scores pair 500 none switched switches

primary_there : removed (score_of scores "codex") ≡ false
unfolding lookup
primary_there = refl

select-margin_example :
    (switched.choice.chosen ≡ "codex")
    ⊎ (((score_of scores "grok").tier ≡ 0)
        × (rounded (score_of scores "codex").s +ℤ pos 500 ≤ℤ rounded (score_of scores "grok").s))
select-margin_example = select-margin scores pair 500 switched switches primary_there

grok_usable : usable (score_of scores "grok") ≡ true
unfolding lookup
grok_usable = refl

grok_unlatched : latched_score (score_of scores "grok") ≡ false
unfolding lookup
grok_unlatched = refl

codex_known : unknown_score (score_of scores "codex") ≡ false
unfolding lookup
codex_known = refl

select-keeps_sticky_example :
    (r : Selection) × (select scores pair 500 (some "grok") ≡ ok r)
    × ((r.choice.chosen ≡ "grok")
        ⊎ (rounded (score_of scores "grok").s +ℤ pos 500
            ≤ℤ rounded (score_of scores r.choice.chosen).s))
select-keeps_sticky_example =
    select-keeps_sticky scores pair 500 "grok" refl refl grok_usable grok_unlatched codex_known

-- Times as they stand in the windows below, in microseconds.
abbrev clock : String → Option ℕ
clock t = lookup t (("09:00", 32400000000) ∷ ("21:00", 75600000000) ∷ ("08:00", 28800000000) ∷ [])

abbrev week : Observation
week = record {
  paid_overage = false;
  bucket_id = some "main";
  window_kind = some "weekly";
  used_bp = some (pos 2000);
  exhausted_hint = none;
  window_duration_s = none;
  resets_at = some "21:00";
  observed_at = some "08:00";
  window_epoch = none;
  confidence = some "high";
}

abbrev window : Option String → Observation → Window
window freshness o = record { observation = o; freshness = freshness; history = [] }

abbrev fresh_week : Option Window
fresh_week = some (window (some "fresh") week)

abbrev paid_week : Window
paid_week = window (some "fresh") (record week { paid_overage = true })

abbrev latched_week : Window
latched_week = window (some "latched") week

abbrev prefs : Prefs
prefs = resolve_prefs (record {
  raw_horizon_hours = none;
  raw_waste_threshold_bp = none;
  raw_switch_margin_bp = none;
  raw_require_confidence = none;
  raw_consider_short_windows = none;
  raw_floor_short_bp = none;
  raw_floor_long_bp = none;
})

abbrev nine : Option ℕ
nine = some 32400000000

abbrev scored : List (Option Window) → Scored
scored windows = score_candidate clock windows nine prefs 1 (flat 100) 1

score_candidate-paid_example :
    Agree (scored (fresh_week ∷ some paid_week ∷ [])) (scored (fresh_week ∷ []))
score_candidate-paid_example =
    score_candidate-paid clock (fresh_week ∷ []) [] paid_week nine prefs 1 (flat 100) 1 refl

still_latched : is_latch clock latched_week.observation latched_week.freshness nine ≡ true
unfolding lookup
still_latched = refl

score_candidate-latched_example :
    ((scored (fresh_week ∷ some latched_week ∷ [])).score.tier ≡ 3)
    × ((scored (fresh_week ∷ some latched_week ∷ [])).score.excluded ≡ true)
score_candidate-latched_example =
    score_candidate-latched clock (fresh_week ∷ []) [] latched_week nine prefs 1 (flat 100) 1 refl
      still_latched

wasteful_week : (scored (fresh_week ∷ [])).score.tier ≡ 0
unfolding score_candidate scan see value_rows value_rows_from waste ewma_per_second best_waste
    best_waste_from decide lookup insert ◌-ℤ◌ ◌*ℤ◌
wasteful_week = refl

score_candidate-Wasteful_example :
    Wasteful prefs (scan clock nine 1 (flat 100) (fresh_week ∷ [])) (scored (fresh_week ∷ []))
score_candidate-Wasteful_example =
    score_candidate-Wasteful clock (fresh_week ∷ []) nine prefs 1 (flat 100) 1 wasteful_week
