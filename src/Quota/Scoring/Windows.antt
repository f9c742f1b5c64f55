-- ===== src/Quota/Scoring/Windows.antt =====
-- What single windows do to a candidate's score.
use asterun.Prelude.{
  ℕ, String, ◌≡◌, refl, Bool, true, false, ◌||◌, ◌&&◌, ◌*◌, leb, Option, some, List, [], ◌∷◌, ◌++◌,
  arith, inl, inr, ap, ◌∙◌, Bool-cases,
}
use asterun.Quota.Observations.{Prefs, Window, Estimates, Seen, latch, see, is_latch}
use asterun.Quota.Scoring.{
  Scan, Scored, Measures, scan_codes, wasted_of, has_some, add_seen, scan, decide, measures,
  score_scan, score_candidate, is_nil, nothing_known,
}

add_seen-marked :
    (seen : Seen) (s : Scan)
    → add_seen seen (record s { paid_ignored = true })
      ≡ record (add_seen seen s) { paid_ignored = true }
add_seen-marked Seen.skipped s = refl
add_seen-marked Seen.paid s = refl
add_seen-marked Seen.latch s = refl
add_seen-marked Seen.spent s = refl
add_seen-marked (Seen.counted r) s = refl

-- The two results agree on everything but the reason codes.
abbrev pub Agree : Scored → Scored → Type 0
Agree a b =
    (a.score.tier ≡ b.score.tier)
    × (a.score.s ≡ b.score.s)
    × (a.score.s_a ≡ b.score.s_a)
    × (a.score.excluded ≡ b.score.excluded)
    × (a.score.resets_at ≡ b.score.resets_at)
    × (a.u_value ≡ b.u_value)
    × (a.windows_used ≡ b.windows_used)

decide-marked :
    (p : Prefs) (weight : ℕ) (s : Scan) (m : Measures) (codes : List String)
    → Agree
        (decide p weight (record s { paid_ignored = true }) (record m { codes = codes }))
        (decide p weight s m)
unfolding decide
decide-marked p weight s m codes = elim (Bool-cases (s.latched || s.exhausted)) [
  | inl out ↦ rw out (refl, refl, refl, refl, refl, refl, refl)
  | inr open_still ↦ elim (Bool-cases (is_nil s.rows)) [
    | inl none_left ↦ rw (open_still, none_left) (refl, refl, refl, refl, refl, refl, refl)
    | inr some_left ↦ elim (Bool-cases m.below_floor) [
      | inl low ↦ rw (open_still, some_left, low) (refl, refl, refl, refl, refl, refl, refl)
      | inr above ↦
          elim (Bool-cases (
            leb p.waste_threshold_bp (weight * wasted_of m.best_qualified)
            && has_some m.best_qualified)) [
              | inl wasteful ↦
                  rw (open_still, some_left, above, wasteful)
                    (refl, refl, refl, refl, refl, refl, refl)
              | inr calm ↦
                  rw (open_still, some_left, above, calm) (refl, refl, refl, refl, refl, refl, refl)
            ]
    ]
  ]
]

module _ (parse_time : String → Option ℕ) where
  scan-marked :
      (now : Option ℕ) (inflight : ℕ) (est : Estimates) (xs ys : List (Option Window))
      (w : Option Window)
      → (see parse_time now inflight est w ≡ latch)
      → (scan parse_time now inflight est (xs ++ w ∷ ys)).latched ≡ true
  unfolding scan
  scan-marked now inflight est [] ys w h = rw h refl
  scan-marked now inflight est (x ∷ xs) ys w h =
      ground (arith, scan-marked now inflight est xs ys w h)

  -- A paid window changes no more of the scan than the mark that it was there.
  scan-paid :
      (now : Option ℕ) (inflight : ℕ) (est : Estimates) (xs ys : List (Option Window)) (w : Window)
      → w.observation.paid_overage ≡ true
      → scan parse_time now inflight est (xs ++ some w ∷ ys)
        ≡ record (scan parse_time now inflight est (xs ++ ys)) { paid_ignored = true }
  unfolding scan see
  scan-paid now inflight est [] ys w h = rw h refl
  scan-paid now inflight est (x ∷ xs) ys w h =
      ap (add_seen (see parse_time now inflight est x)) (scan-paid now inflight est xs ys w h)
      ∙ add_seen-marked (see parse_time now inflight est x)
          (scan parse_time now inflight est (xs ++ ys))

  score_scan-marked :
      (p : Prefs) (weight : ℕ) (none_left none_there : Bool) (s : Scan)
      → Agree
          (score_scan parse_time p weight none_left (record s { paid_ignored = true }))
          (score_scan parse_time p weight none_there s)
  score_scan-marked p weight none_left none_there s = elim (Bool-cases (nothing_known s)) [
    | inl nothing ↦ rw nothing (refl, refl, refl, refl, refl, refl, refl)
    | inr known ↦ rw known (
        decide-marked p weight s (measures parse_time p s)
          (scan_codes (record s { paid_ignored = true })))
  ]

  score_scan-latched :
      (p : Prefs) (weight : ℕ) (none_there : Bool) (s : Scan)
      → s.latched ≡ true
      → ((score_scan parse_time p weight none_there s).score.tier ≡ 3)
        × ((score_scan parse_time p weight none_there s).score.excluded ≡ true)
  unfolding decide
  score_scan-latched p weight none_there s h = ground arith

  -- Windows of paid overage count for nothing: with or without one, wherever it stands among the
  -- windows, a candidate has the same tier, scores, exclusion, reset, remainder and windows used.
  pub score_candidate-paid :
      (xs ys : List (Option Window)) (w : Window) (now : Option ℕ) (p : Prefs) (inflight : ℕ)
      (est : Estimates) (weight : ℕ)
      → w.observation.paid_overage ≡ true
      → Agree
          (score_candidate parse_time (xs ++ some w ∷ ys) now p inflight est weight)
          (score_candidate parse_time (xs ++ ys) now p inflight est weight)
  unfolding score_candidate
  score_candidate-paid xs ys w now p inflight est weight h =
      rw (scan-paid now inflight est xs ys w h) (
        score_scan-marked p weight (is_nil (xs ++ some w ∷ ys)) (is_nil (xs ++ ys))
          (scan parse_time now inflight est (xs ++ ys)))

  -- A candidate with a latched window, which is neither paid nor past its reset, gets the last tier
  -- and is excluded, whatever its other windows are.
  pub score_candidate-latched :
      (xs ys : List (Option Window)) (w : Window) (now : Option ℕ) (p : Prefs) (inflight : ℕ)
      (est : Estimates) (weight : ℕ)
      → w.observation.paid_overage ≡ false
      → is_latch parse_time w.observation w.freshness now ≡ true
      → ((score_candidate parse_time (xs ++ some w ∷ ys) now p inflight est weight).score.tier ≡ 3)
        × ((score_candidate parse_time (xs ++ some w ∷ ys) now p inflight est weight).score.excluded
            ≡ true)
  unfolding score_candidate see
  score_candidate-latched xs ys w now p inflight est weight h k =
      score_scan-latched p weight (is_nil (xs ++ some w ∷ ys))
        (scan parse_time now inflight est (xs ++ some w ∷ ys))
        (scan-marked now inflight est xs ys (some w) (rw (h, k) refl))
