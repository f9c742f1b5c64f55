-- ===== src/Quota/Selection/Sticky.antt =====
-- The earlier choice of `select` (src/asterun/quota/selection.py): when it is kept.
use asterun.Prelude.{
  ℕ, String, ◌≡◌, refl, ◌⊎◌, inl, inr, Bool, true, false, Option, some, List, [], ◌∷◌, Dict,
  contains, keep, sym, ap, ◌∙◌, all, length, ◌==◌, string_eq, nat_eq, Bool-cases, arith,
}
use asterun.Prelude.Int.{pos, ◌+ℤ◌, ◌≤ℤ◌}
use asterun.Errors.{Result, ok}
use asterun.Quota.Selection.{
  Score, Group, Choice, Selection, Reason, choose, score_of, usable, removed, unknown_score,
  latched_score, beats, rounded, settled_reason, switch_to, fresh_choice, keeps, with_sticky,
  choice, select, finish, publish, single_candidate, stay_primary, primary_excluded, waste_margin,
  primary_mode, fallback_primary,
}
use asterun.Quota.Selection.Usable.{challenges}

switch_to-settled :
    (cs : Dict String Score) (g : Group) (delta : ℕ) (pool : List String) (why : Reason)
    (stay : Choice)
    → settled_reason why ≡ false
    → settled_reason stay.reason_code ≡ false
    → settled_reason (switch_to cs g delta pool why stay).reason_code ≡ false
unfolding switch_to
switch_to-settled cs g delta [] why stay h k = k
switch_to-settled cs g delta (a ∷ pool) why stay h k = h

-- The fresh choice is final only where the primary is unknown.
fresh_choice-settled :
    (cs : Dict String Score) (g : Group) (delta : ℕ)
    → unknown_score (score_of cs g.primary) ≡ false
    → settled_reason (fresh_choice cs g delta).reason_code ≡ false
unfolding fresh_choice
fresh_choice-settled cs g delta h = elim (Bool-cases (removed (score_of cs g.primary))) [
  | inl gone ↦ rw gone (
      switch_to-settled cs g delta (keep (λ a. usable (score_of cs a)) g.members) primary_excluded
        (choose g.primary fallback_primary primary_excluded) refl refl)
  | inr there ↦ elim (Bool-cases ((score_of cs g.primary).tier == 2)) [
    | inl unknown ↦ absurd (ground arith)
    | inr tier ↦
        rw (there, tier)
          (switch_to-settled cs g delta (keep (challenges cs g delta) g.members) waste_margin
            (choose g.primary primary_mode stay_primary) refl refl)
  ]
]

all-member :
    (p : String → Bool) (xs : List String) (a : String)
    → contains xs a ≡ true
    → p a ≡ false
    → all p xs ≡ false
all-member p [] a h k = absurd (ground arith)
all-member p (x ∷ xs) a h k = elim (Bool-cases (x == a)) [
  | inl same ↦ ground (arith, string_eq.equal_iff x a)
  | inr other ↦ ground (arith, all-member p xs a (ground arith) k)
]

select-choice :
    (cs : Dict String Score) (g : Group) (delta : ℕ) (sticky : Option String) (r : Result Choice)
    → choice cs g delta sticky ≡ r
    → select cs g delta sticky ≡ publish cs g r
unfolding select
select-choice cs g delta sticky r h = ap (publish cs g) h

choice-single :
    (cs : Dict String Score) (g : Group) (delta : ℕ) (sticky : Option String)
    → (length g.members == 1) ≡ true
    → choice cs g delta sticky ≡ ok (choose g.primary primary_mode single_candidate)
unfolding choice
choice-single cs g delta sticky h = rw h refl

choice-compared :
    (cs : Dict String Score) (g : Group) (delta : ℕ) (sticky : Option String)
    → (length g.members == 1) ≡ false
    → all (λ a. latched_score (score_of cs a)) g.members ≡ false
    → all (λ a. unknown_score (score_of cs a)) g.members ≡ false
    → contains g.members g.primary ≡ true
    → choice cs g delta sticky ≡ ok (with_sticky cs g delta sticky (fresh_choice cs g delta))
unfolding choice
choice-compared cs g delta sticky many free known inside = ground arith

single-member :
    (xs : List String) (a b : String)
    → (length xs == 1) ≡ true
    → contains xs a ≡ true
    → contains xs b ≡ true
    → a ≡ b
single-member [] a b h k l = absurd (ground arith)
single-member (x ∷ []) a b h k l =
    sym ((string_eq.equal_iff x a).0 (ground arith)) ∙ (string_eq.equal_iff x b).0 (ground arith)
single-member (x ∷ y ∷ xs) a b h k l = absurd (ground arith)

with_sticky-margin :
    (cs : Dict String Score) (g : Group) (delta : ℕ) (sticky : String) (c : Choice)
    → contains g.members sticky ≡ true
    → usable (score_of cs sticky) ≡ true
    → settled_reason c.reason_code ≡ false
    → ((with_sticky cs g delta (some sticky) c).chosen ≡ sticky)
      ⊎ (rounded (score_of cs sticky).s +ℤ pos delta
          ≤ℤ rounded (score_of cs (with_sticky cs g delta (some sticky) c).chosen).s)
unfolding with_sticky keeps beats
with_sticky-margin cs g delta sticky c inside good open_choice =
    elim (Bool-cases (keeps cs g delta sticky c)) [
      | inl kept ↦ rw kept (inl refl)
      | inr dropped ↦ elim (Bool-cases (sticky == c.chosen)) [
        | inl same ↦ rw dropped (inl (sym ((string_eq.equal_iff sticky c.chosen).0 same)))
        | inr other ↦ rw dropped (inr (ground arith))
      ]
    ]

-- A usable earlier choice among the members that is not latched is left only for a member whose
-- rounded score passes its score by the margin. The primary is a member and is not unknown.
pub select-keeps_sticky :
    (cs : Dict String Score) (g : Group) (delta : ℕ) (sticky : String)
    → contains g.members sticky ≡ true
    → contains g.members g.primary ≡ true
    → usable (score_of cs sticky) ≡ true
    → latched_score (score_of cs sticky) ≡ false
    → unknown_score (score_of cs g.primary) ≡ false
    → (r : Selection) × (select cs g delta (some sticky) ≡ ok r)
      × ((r.choice.chosen ≡ sticky)
          ⊎ (rounded (score_of cs sticky).s +ℤ pos delta
              ≤ℤ rounded (score_of cs r.choice.chosen).s))
select-keeps_sticky cs g delta sticky inside p_inside good unlatched known =
    elim (Bool-cases (length g.members == 1)) [
      | inl one ↦ (
        finish cs g (choose g.primary primary_mode single_candidate),
        select-choice cs g delta (some sticky) (ok (choose g.primary primary_mode single_candidate))
            (choice-single cs g delta (some sticky) one),
        inl (single-member g.members g.primary sticky one p_inside inside),
      )
      | inr many ↦ (
        finish cs g (with_sticky cs g delta (some sticky) (fresh_choice cs g delta)),
        select-choice cs g delta (some sticky)
            (ok (with_sticky cs g delta (some sticky) (fresh_choice cs g delta)))
            (choice-compared cs g delta (some sticky) many
              (all-member (λ a. latched_score (score_of cs a)) g.members sticky inside unlatched)
              (all-member (λ a. unknown_score (score_of cs a)) g.members g.primary p_inside known)
              p_inside),
        with_sticky-margin cs g delta sticky (fresh_choice cs g delta) inside good
            (fresh_choice-settled cs g delta known),
      )
    ]
