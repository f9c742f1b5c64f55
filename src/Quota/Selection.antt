-- ===== src/Quota/Selection.antt =====
-- `select` of src/asterun/quota/selection.py and its helpers. A score is the dictionary that
-- `score_candidate` returns, with the `can_start` that its caller may add. `switch_margin_bp` is a
-- natural number, as config_v2.py demands.
pub mod Usable
pub mod Sticky
use Prim.Native.Nat.{Ordering}
use Prim.Native.String.{compare}
use asterun.Prelude.{
  ℕ, zero, suc, ◌+◌, ◌*◌, ◌/◌, String, Bool, true, false, not, ◌&&◌, ◌||◌, Option, none, some, List,
  [], ◌∷◌, map, Dict, lookup, contains, keep, all, length, ltb, ◌==◌, string_eq, nat_eq,
  if◌then◌else◌,
}
use asterun.Prelude.Int.{ℤ, pos, negsuc, ◌+ℤ◌, ◌-ℤ◌, ltb_ℤ, leb_ℤ, eqb_ℤ, pos_part, neg_part}
use asterun.Errors.{Code, Result, ok, err, key_error}

-- The tiers are 0 (about to be wasted), 1 (fresh), 2 (unknown) and 3 (near its end, or removed).
pub record Score : Type 0 where
  pub tier : ℕ
  pub s : ℤ
  pub s_a : ℤ
  pub excluded : Bool
  pub reason_codes : List String
  pub resets_at : Option String
  pub can_start : Option Bool

pub record Group : Type 0 where
  pub members : List String
  pub primary : String

pub data Mode : Type 0 where
  primary_mode switch fallback_primary : Mode

pub data Reason : Type 0 where
  single_candidate all_latched all_unknown stay_primary primary_excluded primary_unknown : Reason
  waste_margin sticky_kept : Reason

pub record Choice : Type 0 where
  pub chosen : String
  pub mode : Mode
  pub reason_code : Reason

pub record PublicCandidate : Type 0 where
  pub alias : String
  pub tier : ℕ
  pub s : ℤ
  pub s_a : ℤ
  pub excluded : Bool
  pub reason_codes : List String

pub record Selection : Type 0 where
  pub choice : Choice
  pub primary : String
  pub candidates : List PublicCandidate

abbrev pub no_score : Score
no_score = record {
  tier = 2;
  s = pos 0;
  s_a = pos 0;
  excluded = false;
  reason_codes = "unknown" ∷ [];
  resets_at = none;
  can_start = none;
}

-- `scores[alias]` of a member
abbrev pub score_of : Dict String Score → String → Score
score_of candidates alias = elim (lookup alias candidates) [ none ↦ no_score | some c ↦ c ]

abbrev pub public_candidate : String → Score → PublicCandidate
public_candidate alias c = record {
  alias = alias;
  tier = c.tier;
  s = c.s;
  s_a = c.s_a;
  excluded = c.excluded;
  reason_codes = c.reason_codes;
}

abbrev pub removed : Score → Bool
removed c = c.excluded || (c.tier == 3)

abbrev pub latched_score : Score → Bool
latched_score c = contains c.reason_codes "latched"

-- `tier in (0, 1) and not excluded`
abbrev pub usable : Score → Bool
usable c = ((c.tier == 0) || (c.tier == 1)) && not c.excluded

abbrev pub negated : ℕ → ℤ
negated zero = pos 0
negated (suc n) = negsuc n

unfoldable pub rounded : ℤ → ℤ
rounded (pos n) = pos ((n + 50) / 100 * 100)
rounded (negsuc n) = negated ((suc n + 50) / 100 * 100)

unfoldable pub beats : ℕ → Score → Score → Bool
unfolding rounded
beats delta challenger incumbent = leb_ℤ (rounded incumbent.s +ℤ pos delta) (rounded challenger.s)

-- `abs(a - b) >= delta`
abbrev pub apart : ℤ → ℤ → ℕ → Bool
apart a b delta = leb_ℤ (pos delta) (a -ℤ b) || leb_ℤ (pos delta) (b -ℤ a)

-- `resets_at or _FAR_RESET`
abbrev pub reset_of : Score → String
reset_of c = elim c.resets_at [
  | none ↦ "9999-12-31T23:59:59Z"
  | some at ↦ if at == "" then "9999-12-31T23:59:59Z" else at
]

abbrev pub before : String → String → Bool
before a b = elim (compare a b) [ Ordering.lt ↦ true | _ ↦ false ]

abbrev pub index : List String → String → ℕ
index [] a = 0
index (x ∷ xs) a = let later = index xs a in if x == a then 0 else suc later

-- the test that only counts where both sides have it
abbrev pub starts_before : Option Bool → Option Bool → Option Bool
starts_before (some true) (some false) = some true
starts_before (some false) (some true) = some false
starts_before _ _ = none

unfoldable pub better : Dict String Score → List String → ℕ → String → String → Bool
unfolding rounded
better candidates members delta left right =
    let a = score_of candidates left in
    let b = score_of candidates right in
    if apart (rounded a.s) (rounded b.s) delta && not (eqb_ℤ (rounded a.s) (rounded b.s))
    then ltb_ℤ (rounded b.s) (rounded a.s)
    else if not (reset_of a == reset_of b)
    then before (reset_of a) (reset_of b)
    else if not (eqb_ℤ a.s_a b.s_a)
    then ltb_ℤ b.s_a a.s_a
    else elim (starts_before a.can_start b.can_start) [
      | some starts ↦ starts
      | none ↦ ltb (index members left) (index members right)
    ]

-- `_best`, its loop and its first winner
unfoldable pub best_from : (String → String → Bool) → String → List String → String
best_from wins winner [] = winner
best_from wins winner (alias ∷ aliases) =
    best_from wins (if wins alias winner then alias else winner) aliases

-- what a selection says, in the order of chosen, mode and reason
abbrev pub choose : String → Mode → Reason → Choice
choose chosen mode reason = record { chosen = chosen; mode = mode; reason_code = reason }

-- a switch to the best of the pool, where there is one
unfoldable pub switch_to : Dict String Score → Group → ℕ → List String → Reason → Choice → Choice
unfolding best_from better
switch_to candidates group delta [] reason stay = stay
switch_to candidates group delta (alias ∷ pool) reason stay =
    choose (best_from (better candidates group.members delta) alias pool) switch reason

-- The choice before `sticky` is looked at.
unfoldable pub fresh_choice : Dict String Score → Group → ℕ → Choice
unfolding switch_to beats
fresh_choice candidates group delta =
    let p = score_of candidates group.primary in
    if removed p
    then switch_to candidates group delta (keep (λ a. usable (score_of candidates a)) group.members)
        primary_excluded (choose group.primary fallback_primary primary_excluded)
    else if p.tier == 2
    then choose group.primary fallback_primary primary_unknown
    else switch_to candidates group delta
        (keep
          (λ a.
            not (a == group.primary)
            && ((score_of candidates a).tier == 0
                && (not (score_of candidates a).excluded && beats delta (score_of candidates a) p)))
          group.members)
        waste_margin (choose group.primary primary_mode stay_primary)

abbrev pub settled_reason : Reason → Bool
settled_reason all_unknown = true
settled_reason primary_unknown = true
settled_reason all_latched = true
settled_reason _ = false

-- whether `sticky` is kept over the choice
unfoldable pub keeps : Dict String Score → Group → ℕ → String → Choice → Bool
unfolding beats
keeps candidates group delta sticky c =
    let held = score_of candidates sticky in
    contains group.members sticky
    && (not (sticky == c.chosen)
        && (not (settled_reason c.reason_code)
            && (((held.tier == 0) || (held.tier == 1))
                && (not (removed held) && not (beats delta (score_of candidates c.chosen) held)))))

unfoldable pub with_sticky : Dict String Score → Group → ℕ → Option String → Choice → Choice
unfolding keeps
with_sticky candidates group delta none c = c
with_sticky candidates group delta (some sticky) c =
    if keeps candidates group delta sticky c
    then choose sticky (if sticky == group.primary then primary_mode else switch) sticky_kept
    else c

abbrev pub unknown_score : Score → Bool
unknown_score c = (c.tier == 2) && not c.excluded

unfoldable pub choice : Dict String Score → Group → ℕ → Option String → Result Choice
unfolding fresh_choice with_sticky
choice candidates group delta sticky =
    if length group.members == 1
    then ok (choose group.primary primary_mode single_candidate)
    else if not (length group.members == 0)
        && all (λ a. latched_score (score_of candidates a)) group.members
    then ok (choose group.primary fallback_primary all_latched)
    else if all (λ a. unknown_score (score_of candidates a)) group.members
    then ok (choose group.primary fallback_primary all_unknown)
    else if not (contains group.members group.primary)
    then err key_error
    else ok (with_sticky candidates group delta sticky (fresh_choice candidates group delta))

-- `finish` of `select`
abbrev pub finish : Dict String Score → Group → Choice → Selection
finish candidates group c = record {
  choice = c;
  primary = group.primary;
  candidates = map (λ a. public_candidate a (score_of candidates a)) group.members;
}

abbrev pub publish : Dict String Score → Group → Result Choice → Result Selection
publish candidates group (err c) = err c
publish candidates group (ok c) = ok (finish candidates group c)

unfoldable pub select : Dict String Score → Group → ℕ → Option String → Result Selection
unfolding choice
select candidates group delta sticky =
    publish candidates group (choice candidates group delta sticky)
