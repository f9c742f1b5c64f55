-- ===== src/Prelude/Dicts.antt =====
-- Python's `dict`, and a table of the database with its primary key: an association list in the
-- order of insertion. A write to a key that is there keeps the key's place.
use mathlib.Core.Path.{◌≡◌, refl, ◌∙◌}
use mathlib.Core.Logic.{◌≢◌, inl, inr}
use mathlib.Core.List.{List, [], ◌∷◌}
use mathlib.Core.Option.{Option, none, some}
use native.Mathlib.Omega.{arith}
use asterun.Prelude.Tests.{Eq, ◌==◌, if◌then◌else◌, ==_refl, ==_ne, Bool-cases}

abbrev pub Dict {ℓ κ} : Type ℓ → Type κ → Type (ℓ ⊔ κ)
Dict K V = List (K × V)

module _ {ℓ κ} {K : Type ℓ} {V : Type κ} ⦃e : Eq K⦄ where
  unfoldable pub lookup : K → Dict K V → Option V
  lookup k [] = none
  lookup k ((j, v) ∷ m) = if j == k then some v else lookup k m

  unfoldable pub insert : K → V → Dict K V → Dict K V
  insert k v [] = (k, v) ∷ []
  insert k v ((j, w) ∷ m) = if j == k then (j, v) ∷ m else (j, w) ∷ insert k v m

  unfoldable pub remove : K → Dict K V → Dict K V
  remove k [] = []
  remove k ((j, w) ∷ m) = let rest = remove k m in if j == k then rest else (j, w) ∷ rest

  pub lookup-insert :
      (new key : K) (value : V) (d : Dict K V)
      → lookup key (insert new value d) ≡ (if new == key then some value else lookup key d)
  unfolding lookup insert
  lookup-insert new key value [] = refl
  lookup-insert new key value ((i, w) ∷ d) = ground (
    arith,
    e.equal_iff i key,
    e.equal_iff i new,
    e.equal_iff new key,
    lookup-insert new key value d,
  )

  pub lookup-remove :
      (k j : K) (m : Dict K V) → lookup j (remove k m) ≡ (if k == j then none else lookup j m)
  unfolding lookup remove
  lookup-remove k j [] = ground arith
  lookup-remove k j ((i, w) ∷ m) =
      ground (arith, e.equal_iff k j, e.equal_iff i k, e.equal_iff i j, lookup-remove k j m)

  pub lookup-insert_self : (k : K) (v : V) (m : Dict K V) → lookup k (insert k v m) ≡ some v
  lookup-insert_self k v m = rw (lookup-insert, ==_refl k)

  pub lookup-insert_ne :
      (k j : K) (v : V) (m : Dict K V) → k ≢ j → lookup j (insert k v m) ≡ lookup j m
  lookup-insert_ne k j v m h = rw (lookup-insert, ==_ne k j h)

  -- Inserting a new key and removing it again restores the very list.
  pub remove-insert_new :
      (k : K) (v : V) (m : Dict K V) → lookup k m ≡ none → remove k (insert k v m) ≡ m
  unfolding lookup insert remove
  remove-insert_new k v [] h = ground (arith, ==_refl k)
  remove-insert_new k v ((j, w) ∷ m) h = ground (arith, remove-insert_new k v m)

  pub remove_absent : (k : K) (m : Dict K V) → lookup k m ≡ none → remove k m ≡ m
  unfolding lookup remove
  remove_absent k [] h = refl
  remove_absent k ((j, w) ∷ m) h = ground (arith, remove_absent k m)

  -- Writing back the value that a key had restores the very list.
  pub insert-insert_back :
      (k : K) (v w : V) (m : Dict K V) → lookup k m ≡ some w → insert k w (insert k v m) ≡ m
  unfolding lookup insert
  insert-insert_back k v w [] h = ground arith
  insert-insert_back k v w ((j, u) ∷ m) h =
      ground (arith, e.equal_iff j k, insert-insert_back k v w m)

-- No key has two entries.
abbrev pub Distinct {ℓ κ} : {K : Type ℓ} {V : Type κ} ⦃e : Eq K⦄ → Dict K V → Type κ
Distinct [] = Unit
Distinct ((k, v) ∷ m) = (lookup k m ≡ none) × Distinct m

module _ {ℓ κ} {K : Type ℓ} {V : Type κ} ⦃e : Eq K⦄ where
  pub Distinct-insert : (k : K) (v : V) (m : Dict K V) → Distinct m → Distinct (insert k v m)
  unfolding insert lookup
  Distinct-insert k v [] h = (refl, tt)
  Distinct-insert k v ((j, w) ∷ m) h = elim (Bool-cases (j == k)) [
    | inl same ↦ rw same h
    | inr other ↦ rw other (
      lookup-insert k j v m ∙ ground (arith, h.0, e.equal_iff j k, e.equal_iff k j),
      Distinct-insert k v m h.1,
    )
  ]

abbrev pub values {ℓ κ} : {K : Type ℓ} {V : Type κ} → Dict K V → List V
values [] = []
values ((k, v) ∷ m) = v ∷ values m

abbrev pub keys {ℓ κ} : {K : Type ℓ} {V : Type κ} → Dict K V → List K
keys [] = []
keys ((k, v) ∷ m) = k ∷ keys m
