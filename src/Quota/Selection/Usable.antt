-- ===== src/Quota/Selection/Usable.antt =====
-- Who may be chosen: the members that `select` leaves its primary for.
use asterun.Prelude.{
  ℕ, String, ◌≡◌, refl, ◌⊎◌, inl, inr, Bool, true, false, not, ◌&&◌, Option, none, some, List, [],
  ◌∷◌, Dict, contains, keep, all, ◌==◌, string_eq, nat_eq, list_eq, Bool-cases, arith, ==_refl,
}
use asterun.Prelude.Int.{pos, ◌+ℤ◌, ◌≤ℤ◌}
use asterun.Errors.{ok}
use asterun.Quota.Selection.{
  Score, Group, Choice, Selection, Reason, choose, score_of, usable, removed, beats, better,
  best_from, fallback_primary, primary_mode, rounded, switch_to, fresh_choice, keeps, with_sticky,
  choice, select,
}

best_from-all :
    (p : String → Bool) (wins : String → String → Bool) (w : String) (xs : List String)
    → all p (w ∷ xs) ≡ true
    → p (best_from wins w xs) ≡ true
unfolding best_from
best_from-all p wins w [] h = ground arith
best_from-all p wins w (x ∷ xs) h = elim (Bool-cases (wins x w)) [
  | inl e ↦ rw e (best_from-all p wins x xs (ground arith))
  | inr e ↦ rw e (best_from-all p wins w xs (ground arith))
]

-- What is kept was in the list and passed the test.
all-keep_within :
    (p : String → Bool) (xs ys : List String)
    → ((a : String) → contains xs a ≡ true → contains ys a ≡ true)
    → all (λ a. contains ys a && p a) (keep p xs) ≡ true
all-keep_within p [] ys h = refl
all-keep_within p (x ∷ xs) ys h =
    ground
      (arith, h x (ground (arith, ==_refl x)), all-keep_within p xs ys (λ a k. h a (ground arith)))

all-keep :
    (p : String → Bool) (xs : List String) → all (λ a. contains xs a && p a) (keep p xs) ≡ true
all-keep p xs = all-keep_within p xs xs (λ a h. h)

-- A switch goes to one of the pool; without a pool the choice stays.
pub switch_to-chosen :
    (p : String → Bool) (cs : Dict String Score) (g : Group) (delta : ℕ) (pool : List String)
    (why : Reason) (stay : Choice)
    → all p pool ≡ true
    → (switch_to cs g delta pool why stay ≡ stay)
      ⊎ (p (switch_to cs g delta pool why stay).chosen ≡ true)
unfolding switch_to
switch_to-chosen p cs g delta [] why stay h = inl refl
switch_to-chosen p cs g delta (a ∷ pool) why stay h =
    inr (best_from-all p (better cs g.members delta) a pool h)

all-weaken :
    (p q : String → Bool) (xs : List String)
    → ((a : String) → p a ≡ true → q a ≡ true)
    → all p xs ≡ true
    → all q xs ≡ true
all-weaken p q [] h k = refl
all-weaken p q (x ∷ xs) h k = ground (arith, h x (ground arith), all-weaken p q xs h (ground arith))

-- The members that a known primary is left for.
abbrev pub challenges : Dict String Score → Group → ℕ → String → Bool
challenges cs g delta a =
    not (a == g.primary)
    && ((score_of cs a).tier == 0
        && (not (score_of cs a).excluded && beats delta (score_of cs a) (score_of cs g.primary)))

abbrev pub usable_member : Dict String Score → Group → String → Bool
usable_member cs g a = contains g.members a && usable (score_of cs a)

-- Where the fresh choice goes, for a primary that is removed and for one that is not.
pub fresh_choice-removed :
    (cs : Dict String Score) (g : Group) (delta : ℕ)
    → removed (score_of cs g.primary) ≡ true
    → ((fresh_choice cs g delta).chosen ≡ g.primary)
      ⊎ (usable_member cs g (fresh_choice cs g delta).chosen ≡ true)
unfolding fresh_choice
fresh_choice-removed cs g delta h =
    rw h
      (elim (switch_to-chosen (usable_member cs g) cs g delta
        (keep (λ a. usable (score_of cs a)) g.members) Reason.primary_excluded
        (choose g.primary fallback_primary Reason.primary_excluded)
        (all-keep (λ a. usable (score_of cs a)) g.members)) [
          | inl stays ↦ inl (rw stays refl)
          | inr moves ↦ inr moves
        ])

pub fresh_choice-known :
    (cs : Dict String Score) (g : Group) (delta : ℕ)
    → removed (score_of cs g.primary) ≡ false
    → ((fresh_choice cs g delta).chosen ≡ g.primary)
      ⊎ ((contains g.members (fresh_choice cs g delta).chosen
            && challenges cs g delta (fresh_choice cs g delta).chosen)
          ≡ true)
unfolding fresh_choice
fresh_choice-known cs g delta h = rw h (elim (Bool-cases ((score_of cs g.primary).tier == 2)) [
  | inl unknown ↦ rw unknown (inl refl)
  | inr known ↦
      rw known
        (elim (switch_to-chosen (λ a. contains g.members a && challenges cs g delta a) cs g delta
          (keep (challenges cs g delta) g.members) Reason.waste_margin
          (choose g.primary primary_mode Reason.stay_primary)
          (all-keep (challenges cs g delta) g.members)) [
            | inl stays ↦ inl (rw stays refl)
            | inr moves ↦ inr moves
          ])
])

fresh_choice-usable :
    (cs : Dict String Score) (g : Group) (delta : ℕ)
    → ((fresh_choice cs g delta).chosen ≡ g.primary)
      ⊎ (usable_member cs g (fresh_choice cs g delta).chosen ≡ true)
fresh_choice-usable cs g delta = elim (Bool-cases (removed (score_of cs g.primary))) [
  | inl gone ↦ fresh_choice-removed cs g delta gone
  | inr there ↦ elim (fresh_choice-known cs g delta there) [
    | inl stays ↦ inl stays
    | inr moves ↦ inr (ground arith)
  ]
]

with_sticky-usable :
    (cs : Dict String Score) (g : Group) (delta : ℕ) (sticky : Option String) (c : Choice)
    → (c.chosen ≡ g.primary) ⊎ (usable_member cs g c.chosen ≡ true)
    → ((with_sticky cs g delta sticky c).chosen ≡ g.primary)
      ⊎ (usable_member cs g (with_sticky cs g delta sticky c).chosen ≡ true)
unfolding with_sticky keeps
with_sticky-usable cs g delta none c h = h
with_sticky-usable cs g delta (some a) c h = elim (Bool-cases (keeps cs g delta a c)) [
  | inl kept ↦ rw kept (inr (ground arith))
  | inr dropped ↦ rw dropped h
]

-- Whatever was chosen before, `select` answers with the primary, or with a member whose windows are
-- known and which is neither excluded nor near its end.
pub select-usable :
    (cs : Dict String Score) (g : Group) (delta : ℕ) (sticky : Option String) (r : Selection)
    → select cs g delta sticky ≡ ok r
    → (r.choice.chosen ≡ g.primary)
      ⊎ ((contains g.members r.choice.chosen ≡ true)
          × (usable (score_of cs r.choice.chosen) ≡ true))
unfolding select choice
select-usable cs g delta sticky r h =
    elim (with_sticky-usable cs g delta sticky (fresh_choice cs g delta)
      (fresh_choice-usable cs g delta)) [ inl stays ↦ ground arith | inr moves ↦ ground arith ]

-- Without an earlier choice, `select` leaves a primary that is not removed only for a member of tier
-- 0 whose rounded score passes the primary's by the margin.
pub select-margin :
    (cs : Dict String Score) (g : Group) (delta : ℕ) (r : Selection)
    → select cs g delta none ≡ ok r
    → removed (score_of cs g.primary) ≡ false
    → (r.choice.chosen ≡ g.primary)
      ⊎ (((score_of cs r.choice.chosen).tier ≡ 0)
          × (rounded (score_of cs g.primary).s +ℤ pos delta
              ≤ℤ rounded (score_of cs r.choice.chosen).s))
unfolding select choice with_sticky beats
select-margin cs g delta r h k = elim (fresh_choice-known cs g delta k) [
  | inl stays ↦ ground arith
  | inr moves ↦ ground arith
]
