-- ===== src/Quota/Scoring/Tiers.antt =====
-- What tier 0, the tier that `select` switches to, says of a candidate.
use asterun.Prelude.{
  ℕ, zero, suc, ◌+◌, ◌*◌, ◌≤◌, String, ◌≡◌, refl, Bool, false, ◌||◌, ◌&&◌, leb, Option, List, [],
  ◌∷◌, keep, any, All, arith, inl, inr, Bool-cases, if◌then◌else◌,
}
use asterun.Prelude.Int.{pos, ◌≤ℤ◌}
use asterun.Quota.Observations.{Prefs, Window, Estimates, Row}
use asterun.Quota.Scoring.{
  Scan, Scored, Valued, Measures, scan, decide, measures, score_scan, score_candidate, is_nil,
  nothing_known, best_waste, best_waste_from, wastes_more, wasted_of, has_some, value_rows,
  qualifies, floor_bp, is_below_floor,
}

abbrev pub AtMost : ℕ → Valued → Type 0
AtMost n v = v.wasted ≤ n

best_waste_from-le :
    (n : ℕ) (best : Valued) (vs : List Valued)
    → best.wasted ≤ n
    → All (AtMost n) vs
    → (best_waste_from best vs).wasted ≤ n
unfolding best_waste_from
best_waste_from-le n best [] h k = h
best_waste_from-le n best (v ∷ vs) h k =
    best_waste_from-le n (if wastes_more v best then v else best) vs
      (elim (Bool-cases (wastes_more v best)) [ inl more ↦ rw more k.0 | inr less ↦ rw less h ]) k.1

wastes_more-wasted :
    (v best : Valued)
    → (best.wasted ≤ (if wastes_more v best then v else best).wasted)
      × (v.wasted ≤ (if wastes_more v best then v else best).wasted)
wastes_more-wasted v best = elim (Bool-cases (wastes_more v best)) [
  | inl more ↦ rw more (ground arith, ground arith)
  | inr less ↦ rw less (ground arith, ground arith)
]

best_waste_from-ge :
    (best : Valued) (vs : List Valued)
    → (best.wasted ≤ (best_waste_from best vs).wasted)
      × All (AtMost (best_waste_from best vs).wasted) vs
unfolding best_waste_from
best_waste_from-ge best [] = (ground arith, tt)
best_waste_from-ge best (v ∷ vs) =
    let first = wastes_more-wasted v best in
    let tail = best_waste_from-ge (if wastes_more v best then v else best) vs in
    (ground arith, (ground arith, tail.1))

All-keep-AtMost :
    (n : ℕ) (q : Valued → Bool) (vs : List Valued) → All (AtMost n) vs → All (AtMost n) (keep q vs)
All-keep-AtMost n q [] h = tt
All-keep-AtMost n q (v ∷ vs) h = elim (Bool-cases (q v)) [
  | inl kept ↦ rw kept (h.0, All-keep-AtMost n q vs h.1)
  | inr dropped ↦ rw dropped (All-keep-AtMost n q vs h.1)
]

best_waste-le : (n : ℕ) (vs : List Valued) → All (AtMost n) vs → wasted_of (best_waste vs) ≤ n
unfolding best_waste
best_waste-le n [] h = ground arith
best_waste-le n (v ∷ vs) h = best_waste_from-le n v vs h.0 h.1

best_waste-ge : (vs : List Valued) → All (AtMost (wasted_of (best_waste vs))) vs
unfolding best_waste
best_waste-ge [] = tt
best_waste-ge (v ∷ vs) = best_waste_from-ge v vs

-- The best of some of the rows wastes no more than the best of all.
best_waste-keep :
    (q : Valued → Bool) (vs : List Valued)
    → wasted_of (best_waste (keep q vs)) ≤ wasted_of (best_waste vs)
best_waste-keep q vs =
    best_waste-le (wasted_of (best_waste vs)) (keep q vs)
      (All-keep-AtMost (wasted_of (best_waste vs)) q vs (best_waste-ge vs))

abbrev pub AboveFloor : Prefs → Row → Type 0
AboveFloor p r = pos (floor_bp p r + r.est) ≤ℤ r.remaining

none_below : (p : Prefs) (rs : List Row) → any (is_below_floor p) rs ≡ false → All (AboveFloor p) rs
none_below p [] h = tt
none_below p (r ∷ rs) h = (ground arith, none_below p rs (ground arith))

scale : (w a b : ℕ) → a ≤ b → w * a ≤ w * b
scale zero a b h = ground arith
scale (suc w) a b h = ground (arith, scale w a b h)

-- What tier 0 asks of the rows and of what was met beside them.
pub record Wasteful (p : Prefs) (s : Scan) (r : Scored) : Type 0 where
  pub not_latched : s.latched ≡ false
  pub not_exhausted : s.exhausted ≡ false
  pub above_floor : All (AboveFloor p) s.rows
  pub worth_it : pos p.waste_threshold_bp ≤ℤ r.score.s
  pub not_excluded : r.score.excluded ≡ false

decide-tier0 :
    (p : Prefs) (weight : ℕ) (s : Scan) (m : Measures)
    → (decide p weight s m).score.tier ≡ 0
    → (s.latched ≡ false)
      × (s.exhausted ≡ false)
      × (m.below_floor ≡ false)
      × (p.waste_threshold_bp ≤ weight * wasted_of m.best_qualified)
      × ((decide p weight s m).score.s ≡ pos (weight * wasted_of m.best))
      × ((decide p weight s m).score.excluded ≡ false)
unfolding decide
decide-tier0 p weight s m h = elim (Bool-cases (s.latched || s.exhausted)) [
  | inl out ↦ absurd (ground arith)
  | inr open_still ↦ elim (Bool-cases (is_nil s.rows)) [
    | inl none_left ↦ absurd (ground arith)
    | inr some_left ↦ elim (Bool-cases m.below_floor) [
      | inl low ↦ absurd (ground arith)
      | inr above ↦
          elim (Bool-cases (
            leb p.waste_threshold_bp (weight * wasted_of m.best_qualified)
            && has_some m.best_qualified)) [
              | inl wasteful ↦ (
                ground arith,
                ground arith,
                above,
                ground arith,
                (rw (open_still, some_left, above, wasteful) refl),
                (rw (open_still, some_left, above, wasteful) refl),
              )
              | inr calm ↦ absurd (ground arith)
            ]
    ]
  ]
]

module _ (parse_time : String → Option ℕ) where
  score_scan-Wasteful :
      (p : Prefs) (weight : ℕ) (empty : Bool) (s : Scan)
      → (score_scan parse_time p weight empty s).score.tier ≡ 0
      → Wasteful p s (score_scan parse_time p weight empty s)
  score_scan-Wasteful p weight empty s h = elim (Bool-cases (nothing_known s)) [
    | inl nothing ↦ absurd (ground arith)
    | inr known ↦
        let decided : (decide p weight s (measures parse_time p s)).score.tier ≡ 0 = ground arith in
        let facts = decide-tier0 p weight s (measures parse_time p s) decided in
        let more = best_waste-keep (qualifies p) (value_rows parse_time p s.rows) in
        rw known (record {
          not_latched = facts.0;
          not_exhausted = facts.1;
          above_floor = none_below p s.rows facts.2;
          worth_it = rw facts.4 (
              ground (
                arith,
                facts.3,
                scale weight (wasted_of (measures parse_time p s).best_qualified)
                    (wasted_of (measures parse_time p s).best) more,
              ));
          not_excluded = facts.5;
        })
  ]

  -- A candidate gets tier 0 only where no window is latched or exhausted, every fresh window keeps
  -- its floor and one more run, its score reaches the threshold of waste, and it is not excluded.
  pub score_candidate-Wasteful :
      (windows : List (Option Window)) (now : Option ℕ) (p : Prefs) (inflight : ℕ) (est : Estimates)
      (weight : ℕ)
      → (score_candidate parse_time windows now p inflight est weight).score.tier ≡ 0
      → Wasteful p
          (scan parse_time now inflight est windows)
          (score_candidate parse_time windows now p inflight est weight)
  unfolding score_candidate
  score_candidate-Wasteful windows now p inflight est weight h =
      score_scan-Wasteful p weight (is_nil windows) (scan parse_time now inflight est windows) h
