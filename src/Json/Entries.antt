-- ===== src/Json/Entries.antt =====
-- A document that is built from keys of which some are left out, and what is read from it.
use asterun.Prelude.{
  String, ◌≡◌, refl, Bool, true, false, Option, none, some, [], ◌∷◌, Dict, lookup, arith, ◌&&◌,
  ◌==◌, string_eq, Bool-cases, inl, inr,
}
use asterun.Json.{Json}

-- the entries that are there
abbrev pub compact : Dict String (Option Json) → Dict String Json
compact [] = []
compact ((k, v) ∷ es) = let rest = compact es in elim v [ none ↦ rest | some j ↦ (k, j) ∷ rest ]

-- `**({key: value} if test else {})`
abbrev pub when : Bool → Json → Option Json
when true v = some v
when false v = none

abbrev pub join : Option (Option Json) → Option Json
join none = none
join (some v) = v

abbrev pub is_absent {ℓ} : {A : Type ℓ} → Option A → Bool
is_absent none = true
is_absent (some a) = false

-- No key is listed twice.
unfoldable pub listed_once : Dict String (Option Json) → Bool
unfolding lookup
listed_once [] = true
listed_once ((k, v) ∷ es) = is_absent (lookup k es) && listed_once es

lookup-compact_absent :
    (k : String) (es : Dict String (Option Json))
    → lookup k es ≡ none
    → lookup k (compact es) ≡ none
unfolding lookup
lookup-compact_absent k [] h = refl
lookup-compact_absent k ((j, none) ∷ es) h = lookup-compact_absent k es (ground arith)
lookup-compact_absent k ((j, some v) ∷ es) h = ground (arith, lookup-compact_absent k es)

-- A key that is listed once reads back what was listed for it.
pub lookup-compact :
    (k : String) (es : Dict String (Option Json))
    → listed_once es ≡ true
    → lookup k (compact es) ≡ join (lookup k es)
unfolding lookup listed_once
lookup-compact k [] d = refl
lookup-compact k ((j, none) ∷ es) d = elim (Bool-cases (j == k)) [
  | inl same ↦ ground (arith, string_eq.equal_iff j k, lookup-compact_absent k es)
  | inr other ↦ ground (arith, lookup-compact k es (ground arith))
]
lookup-compact k ((j, some v) ∷ es) d = ground (arith, lookup-compact k es (ground arith))
