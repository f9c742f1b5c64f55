-- ===== src/Stores/Mirrors.antt =====
-- A table of the database that holds the rows written of a dictionary's values.
use asterun.Prelude.{
  String, Bool, Option, none, some, [], ◌∷◌, Dict, lookup, insert, values, keep, ◌==◌, string_eq,
  ◌≡◌, refl, sym, ap, ◌∙◌, subst, arith, Bool-cases, inl, inr, ◌⊎◌, Distinct,
}
use asterun.Errors.{Result, ok}
use asterun.Stores.Memory.{head}
use asterun.Stores.Sqlite.{Document, first_match, read_all, OperationRow}
use asterun.Stores.Sqlite.Intents.{find_id}

abbrev pub map_values {ℓ κ μ} :
    {K : Type ℓ} {A : Type κ} {B : Type μ} → (A → B) → Dict K A → Dict K B
map_values f [] = []
map_values f ((k, a) ∷ d) = (k, f a) ∷ map_values f d

abbrev pub map_option {ℓ κ} : {A : Type ℓ} {B : Type κ} → (A → B) → Option A → Option B
map_option f none = none
map_option f (some a) = some (f a)

module _ {A B : Type 0} (enc : A → B) where
  pub lookup-map_values :
      (k : String) (d : Dict String A) → lookup k (map_values enc d) ≡ map_option enc (lookup k d)
  unfolding lookup
  lookup-map_values k [] = refl
  lookup-map_values k ((j, a) ∷ d) = elim (Bool-cases (j == k)) [
    | inl same ↦ rw same refl
    | inr other ↦ rw other (lookup-map_values k d)
  ]

  pub insert-map_values :
      (k : String) (a : A) (d : Dict String A)
      → insert k (enc a) (map_values enc d) ≡ map_values enc (insert k a d)
  unfolding insert
  insert-map_values k a [] = refl
  insert-map_values k a ((j, b) ∷ d) = elim (Bool-cases (j == k)) [
    | inl same ↦ rw same refl
    | inr other ↦ rw other (ap (λ r. (j, enc b) ∷ r) (insert-map_values k a d))
  ]

-- Each row is read as the value that it was written of.
abbrev pub Readable : {A B : Type 0} → (A → B) → (String → B → Result A) → Dict String A → Type 0
Readable enc dec [] = Unit
Readable enc dec ((k, a) ∷ d) = (dec k (enc a) ≡ ok a) × Readable enc dec d

module _ {A B : Type 0} (enc : A → B) (dec : String → B → Result A) where
  pub Readable-insert :
      (k : String) (a : A) (d : Dict String A)
      → dec k (enc a) ≡ ok a
      → Readable enc dec d
      → Readable enc dec (insert k a d)
  unfolding insert
  Readable-insert k a [] good h = (good, tt)
  Readable-insert k a ((j, b) ∷ d) good h = elim (Bool-cases (j == k)) [
    | inl same ↦
        rw same
          (subst (λ i. dec i (enc a) ≡ ok a) (sym ((string_eq.equal_iff j k).0 same)) good, h.1)
    | inr other ↦ rw other (h.0, Readable-insert k a d good h.1)
  ]

  pub Readable-lookup :
      (k : String) (a : A) (d : Dict String A)
      → Readable enc dec d
      → lookup k d ≡ some a
      → dec k (enc a) ≡ ok a
  unfolding lookup
  Readable-lookup k a [] h e = ground arith
  Readable-lookup k a ((j, b) ∷ d) h e = elim (Bool-cases (j == k)) [
    | inl same ↦ ground (arith, h.0, string_eq.equal_iff j k, e)
    | inr other ↦ Readable-lookup k a d h.1 (ground arith)
  ]

  pub record Mirrors (m : Dict String A) (d : Dict String B) : Type 0 where
    pub copied : d ≡ map_values enc m
    pub readable : Readable enc dec m

  pub Mirrors-insert :
      (k : String) (a : A) (m : Dict String A) (d : Dict String B)
      → dec k (enc a) ≡ ok a
      → Mirrors m d
      → Mirrors (insert k a m) (insert k (enc a) d)
  Mirrors-insert k a m d good h = record {
    copied = ap (insert k (enc a)) h.copied ∙ insert-map_values enc k a m;
    readable = Readable-insert k a m good h.readable;
  }

-- The searches over documents, which are read without their key.
module _ {A : Type 0} (enc : A → Document) (from : Document → Result A) where
  first_match-values :
      (test : A → Bool) (m : Dict String A)
      → Readable enc (λ k. from) m
      → first_match from test (values (map_values enc m)) ≡ ok (head (keep test (values m)))
  first_match-values test [] h = refl
  first_match-values test ((k, a) ∷ m) h = rw h.0 (elim (Bool-cases (test a)) [
    | inl hit ↦ rw hit refl
    | inr miss ↦ rw miss (first_match-values test m h.1)
  ])

  read_all-values :
      (test' : Document → Bool) (test : A → Bool) (m : Dict String A)
      → ((a : A) → test' (enc a) ≡ test a)
      → Readable enc (λ k. from) m
      → read_all from (keep test' (values (map_values enc m))) ≡ ok (keep test (values m))
  read_all-values test' test [] same h = refl
  read_all-values test' test ((k, a) ∷ m) same h = rw (same a) (elim (Bool-cases (test a)) [
    | inl hit ↦ rw (hit, h.0, read_all-values test' test m same h.1) refl
    | inr miss ↦ rw miss (read_all-values test' test m same h.1)
  ])

  pub Mirrors-first_match :
      (test : A → Bool) (m : Dict String A) (d : Dict String Document)
      → Mirrors enc (λ k. from) m d
      → first_match from test (values d) ≡ ok (head (keep test (values m)))
  Mirrors-first_match test m d h =
      ap (λ d. first_match from test (values d)) h.copied ∙ first_match-values test m h.readable

  pub Mirrors-read_all :
      (test' : Document → Bool) (test : A → Bool) (m : Dict String A) (d : Dict String Document)
      → ((a : A) → test' (enc a) ≡ test a)
      → Mirrors enc (λ k. from) m d
      → read_all from (keep test' (values d)) ≡ ok (keep test (values m))
  Mirrors-read_all test' test m d same h =
      ap (λ d. read_all from (keep test' (values d))) h.copied
      ∙ read_all-values test' test m same h.readable

-- The search of a row and that of a value find the same.
module _ {A : Type 0} (enc : A → OperationRow) (test' : OperationRow → Bool) (test : A → Bool) where
  abbrev pub SameFind : Dict String A → Type 0
  SameFind m =
      ((find_id test' (map_values enc m) ≡ none) × (head (keep test (values m)) ≡ none))
      ⊎ ((k : String) × (a : A) × (find_id test' (map_values enc m) ≡ some k)
          × (head (keep test (values m)) ≡ some a)
          × (lookup k m ≡ some a))

  pub find_id-map_values :
      (m : Dict String A) → ((a : A) → test' (enc a) ≡ test a) → Distinct m → SameFind m
  unfolding find_id lookup
  find_id-map_values [] same h = inl (refl, refl)
  find_id-map_values ((k, a) ∷ m) same h = elim (Bool-cases (test a)) [
    | inl hit ↦
        inr (k, a, (rw (same a, hit) refl), (rw hit refl), ground (arith, string_eq.equal_iff k k))
    | inr miss ↦ elim (find_id-map_values m same h.1) [
      | inl (e1, e2) ↦ inl ((rw (same a, miss) e1), (rw miss e2))
      | inr (j, b, e1, e2, e3) ↦ inr (
        j,
        b,
        (rw (same a, miss) e1),
        (rw miss e2),
        ground (arith, string_eq.equal_iff k j, h.0, e3),
      )
    ]
  ]
