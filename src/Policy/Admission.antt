-- ===== src/Policy/Admission.antt =====
-- What the checks of src/asterun/policy.py let through.
use mathlib.Core.List.{Memᴰ}
use mathlib.Core.List.Memᴰ
use mathlib.Core.List.Memᴰ.{head, tail}
use asterun.Prelude.{
  ◌+◌, ◌<◌, String, Bool, true, false, ◌||◌, Option, none, some, List, [], ◌∷◌, contains, ◌==◌,
  string_eq, if◌then◌else◌, ◌≡◌, refl, sym, ap, arith, ◌↔◌, ◌⊎◌, inl, inr, Bool-cases,
}
use asterun.Prelude.Int.{ℤ, pos, pos_part, neg_part, eqb_ℤ, ◌≤ℤ◌}
use asterun.Errors.{Result, ok, err, auth_required, scope_denied}
use asterun.Errors.Exec.{Unit₀}
use asterun.Json.{Json, null, boolean, integer, decimal, string, array, object, Python}
use asterun.Json.Readings.{int_or-set}
use asterun.Policy.{
  Grant, Moment, zoned, naive, enforce_grant, is_expired, covers, passed, to_dict, from_dict,
  items_of, texts_of, expired_at, resources_from, resources_json,
}

abbrev pub IsBefore : ℤ → ℤ → Type 0
IsBefore a b = pos_part a + neg_part b < pos_part b + neg_part a

-- The present lies before the expiry, if there is one: both are read as moments with a time zone.
abbrev pub IsCurrent : (String → Option Moment) → String → Json → Type 0
IsCurrent parse now null = Unit
IsCurrent parse now (string s) =
    (e : ℤ) × (n : ℤ) × (parse s ≡ some (zoned e)) × (parse now ≡ some (zoned n)) × IsBefore n e
IsCurrent parse now _ = ⊥

-- There is no list of resources, or it has "*" or the resource.
abbrev pub IsNamed : Option (List String) → String → Type 0
IsNamed none resource = Unit
IsNamed (some rs) resource = Memᴰ "*" rs ⊎ Memᴰ resource rs

abbrev pub IsPermitted : (String → Option Moment) → Option Grant → String → String → Type 0
IsPermitted parse none resource now = Unit
IsPermitted parse (some g) resource now =
    IsCurrent parse now g.expires_at × IsNamed g.resources resource

contains_iff : (rs : List String) (x : String) → (contains rs x ≡ true) ↔ Memᴰ x rs
contains_iff [] x = ((λ h. absurd cc), (λ m. absurd (Memᴰ.not-nil m)))
contains_iff (r ∷ rs) x = elim (Bool-cases (r == x)) [
  | inl same ↦ ((λ h. head (sym ((string_eq.equal_iff r x).0 same))), (λ m. rw same refl))
  | inr other ↦ (
    (λ h. tail ((contains_iff rs x).0 (ground (arith, other, h)))),
    (λ m. elim (Memᴰ.cases_cons m) [
      | inl e ↦ rw ((string_eq.equal_iff r x).1 (sym e)) refl
      | inr there ↦ rw (other, (contains_iff rs x).1 there) refl
    ]),
  )
]

either_iff :
    (rs : List String) (x y : String)
    → (contains rs x || contains rs y ≡ true) ↔ (Memᴰ x rs ⊎ Memᴰ y rs)
either_iff rs x y = elim (Bool-cases (contains rs x)) [
  | inl there ↦ rw there ((λ h. inl ((contains_iff rs x).0 there)), (λ m. refl))
  | inr missing ↦ rw missing (
    (λ h. inr ((contains_iff rs y).0 h)),
    (λ m. elim m [
      | inl first ↦ absurd (ground (arith, missing, (contains_iff rs x).1 first))
      | inr second ↦ (contains_iff rs y).1 second
    ]),
  )
]

covers_iff : (g : Grant) (x : String) → (covers g x ≡ true) ↔ IsNamed g.resources x
unfolding covers
covers_iff g x = named_iff g.resources
  where
    named_iff :
        (rs : Option (List String))
        → ((elim rs [ none ↦ true | some rs ↦ contains rs "*" || contains rs x ]) ≡ true)
          ↔ IsNamed rs x
    named_iff none = ((λ h. tt), (λ h. refl))
    named_iff (some rs) = either_iff rs "*" x

passed_iff :
    (parse : String → Option Moment) (expiry now : Option Moment)
    → (passed parse expiry now ≡ false)
      ↔ ((e : ℤ) × (n : ℤ) × (expiry ≡ some (zoned e)) × (now ≡ some (zoned n)) × IsBefore n e)
passed_iff parse none now = ((λ h. absurd cc), (λ (e, n, p, q, l). absurd cc))
passed_iff parse (some naive) none = ((λ h. absurd cc), (λ (e, n, p, q, l). absurd cc))
passed_iff parse (some naive) (some now) =
    ((λ h. absurd cc), (λ (e, n, p, q, l). absurd (ground (arith, p))))
passed_iff parse (some (zoned expiry)) none = ((λ h. absurd cc), (λ (e, n, p, q, l). absurd cc))
passed_iff parse (some (zoned expiry)) (some naive) =
    ((λ h. absurd cc), (λ (e, n, p, q, l). absurd (ground (arith, q))))
passed_iff parse (some (zoned expiry)) (some (zoned now)) = (
  (λ h. (expiry, now, refl, refl, ground (arith, h))),
  (λ (e, n, p, q, l). ground (arith, p, q, l)),
)

expired_at_iff :
    (parse : String → Option Moment) (now : String) (expiry : Json)
    → (expired_at parse (parse now) expiry ≡ false) ↔ IsCurrent parse now expiry
expired_at_iff parse now null = ((λ h. tt), (λ h. refl))
expired_at_iff parse now (string s) = passed_iff parse (parse s) (parse now)
expired_at_iff parse now (boolean x) = ((λ h. absurd cc), (λ h. absurd h))
expired_at_iff parse now (integer n) = ((λ h. absurd cc), (λ h. absurd h))
expired_at_iff parse now (decimal t z) = ((λ h. absurd cc), (λ h. absurd h))
expired_at_iff parse now (array xs) = ((λ h. absurd cc), (λ h. absurd h))
expired_at_iff parse now (object fs) = ((λ h. absurd cc), (λ h. absurd h))

-- the two tests of `enforce_grant`
abbrev granted : Bool → Bool → Result Unit₀
granted expired covered =
    if expired then err auth_required else if covered then ok tt else err scope_denied

checks_iff :
    (expired covered : Bool)
    → (granted expired covered ≡ ok tt) ↔ ((expired ≡ false) × (covered ≡ true))
checks_iff true covered = ((λ h. absurd cc), (λ h. absurd cc))
checks_iff false true = ((λ h. (refl, refl)), (λ h. refl))
checks_iff false false = ((λ h. absurd cc), (λ h. absurd cc))

-- A request passes the check of its grant exactly where it has none, or where the grant has no expiry, or
-- one that is a text which reads, as the present does, as a moment with a time zone, and the present is
-- the earlier of the two, and the grant has no list of resources, or "*" or the resource is in it.
pub enforce_grant_iff :
    (parse : String → Option Moment) (grant : Option Grant) (resource now : String)
    → (enforce_grant parse grant resource now ≡ ok tt) ↔ IsPermitted parse grant resource now
unfolding enforce_grant is_expired
enforce_grant_iff parse none resource now = ((λ h. tt), (λ h. refl))
enforce_grant_iff parse (some g) resource now =
    let both = checks_iff (expired_at parse (parse now) g.expires_at) (covers g resource) in
    let time = expired_at_iff parse now g.expires_at in
    let scope = covers_iff g resource in
    ((λ h. (time.0 (both.0 h).0, scope.0 (both.0 h).1)), (λ h. both.1 (time.1 h.0, scope.1 h.1)))

passed-later :
    (parse : String → Option Moment) (expiry : Option Moment) (a b : ℤ)
    → a ≤ℤ b
    → passed parse expiry (some (zoned a)) ≡ true
    → passed parse expiry (some (zoned b)) ≡ true
passed-later parse none a b l h = refl
passed-later parse (some naive) a b l h = refl
passed-later parse (some (zoned expiry)) a b l h = ground (arith, l, h)

expired_at-later :
    (parse : String → Option Moment) (expiry : Json) (a b : ℤ)
    → a ≤ℤ b
    → expired_at parse (some (zoned a)) expiry ≡ true
    → expired_at parse (some (zoned b)) expiry ≡ true
expired_at-later parse null a b l h = absurd cc
expired_at-later parse (boolean x) a b l h = refl
expired_at-later parse (integer n) a b l h = refl
expired_at-later parse (decimal t z) a b l h = refl
expired_at-later parse (string s) a b l h = passed-later parse (parse s) a b l h
expired_at-later parse (array xs) a b l h = refl
expired_at-later parse (object fs) a b l h = refl

-- A grant that was refused as expired is refused so at every later moment, for every workspace.
pub enforce_grant-expired_later :
    (parse : String → Option Moment) (grant : Option Grant) (resource other now later : String)
    (a b : ℤ)
    → parse now ≡ some (zoned a)
    → parse later ≡ some (zoned b)
    → a ≤ℤ b
    → enforce_grant parse grant resource now ≡ err auth_required
    → enforce_grant parse grant other later ≡ err auth_required
unfolding enforce_grant is_expired
enforce_grant-expired_later parse none resource other now later a b p q l = λ h. absurd cc
enforce_grant-expired_later parse (some g) resource other now later a b p q l =
    rw (p, q)
      (elim (Bool-cases (expired_at parse (some (zoned a)) g.expires_at)) [
        | inl expired ↦ λ h. rw (expired_at-later parse g.expires_at a b l expired) refl
        | inr current ↦ rw current (elim (Bool-cases (covers g resource)) [
          | inl covered ↦ rw covered (λ h. absurd cc)
          | inr outside ↦ rw outside (λ h. absurd cc)
        ])
      ])

module _ (py : Python) where
  texts_of-items_of : (rs : List String) → texts_of py (items_of rs) ≡ rs
  texts_of-items_of [] = refl
  texts_of-items_of (r ∷ rs) = ap (λ x. r ∷ x) (texts_of-items_of rs)

  resources_from-json : (rs : Option (List String)) → resources_from py (resources_json rs) ≡ ok rs
  resources_from-json none = refl
  resources_from-json (some rs) = ap (λ x. ok (some x)) (texts_of-items_of rs)

  -- A grant whose revision is not 0 is read back from its document as it was written.
  pub grant_from_dict-to_dict :
      (g : Grant) → eqb_ℤ g.revision (pos 0) ≡ false → from_dict py (to_dict g) ≡ ok g
  unfolding from_dict
  grant_from_dict-to_dict g h =
      rw (resources_from-json g.resources, int_or-set py (pos 1) g.revision h) refl
