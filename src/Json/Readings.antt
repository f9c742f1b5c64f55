-- ===== src/Json/Readings.antt =====
-- What the conversions of Json read of the values that are written.
use asterun.Prelude.{
  String, ◌≡◌, refl, sym, Bool, true, false, Option, none, some, arith, ◌==◌, string_eq, Bool-cases,
  inl, inr,
}
use asterun.Prelude.Int.{ℤ, pos, eqb_ℤ}
use asterun.Errors.{ok}
use asterun.Json.{
  Json, null, boolean, integer, decimal, string, array, object, Items, no_items, item, Fields,
  no_fields, field, Python, truthy, raw, or_default, flag, text_or, int_or, fields_or_empty,
  optional_fields, items_or_empty, required_id, optional_id, is_true, optional_string,
  optional_object, unless_null,
}
use asterun.Json.Entries.{when}

-- An identifier that is accepted, and one that may be missing.
abbrev pub ValidId : Python → String → Type 0
ValidId py s = (py.blank s ≡ false) × ((s == "") ≡ false)

abbrev pub ValidOption : Python → Option String → Type 0
ValidOption py none = Unit
ValidOption py (some s) = ValidId py s

pub is_true-boolean : (b : Bool) → is_true (some (boolean b)) ≡ b
is_true-boolean true = refl
is_true-boolean false = refl

pub flag-when : (b : Bool) → flag (when b (boolean true)) ≡ b
flag-when true = refl
flag-when false = refl

pub raw-when : (v : Json) → (truthy v ≡ false → v ≡ null) → raw (when (truthy v) v) ≡ v
raw-when v h = elim (Bool-cases (truthy v)) [ inl t ↦ rw t refl | inr f ↦ rw f (sym (h f)) ]

pub raw-unless_null : (v : Json) → raw (unless_null v) ≡ v
raw-unless_null null = refl
raw-unless_null (boolean b) = refl
raw-unless_null (integer n) = refl
raw-unless_null (decimal t z) = refl
raw-unless_null (string s) = refl
raw-unless_null (array xs) = refl
raw-unless_null (object fs) = refl

pub or_default-when :
    (d v : Json) → (truthy v ≡ false → v ≡ d) → or_default d (when (truthy v) v) ≡ v
or_default-when d v h = elim (Bool-cases (truthy v)) [
  | inl t ↦ rw t (rw t refl)
  | inr f ↦ rw f (sym (h f))
]

module _ (py : Python) where
  pub required_id-string : (s : String) → ValidId py s → required_id py (some (string s)) ≡ ok s
  required_id-string s h = rw h.0 refl

  pub optional_id-string :
      (o : Option String) → ValidOption py o → optional_id py (some (optional_string o)) ≡ ok o
  optional_id-string none h = refl
  optional_id-string (some s) h = ground (arith, h.0, h.1)

  pub text_or-empty : (s : String) → text_or py "" (some (string s)) ≡ s
  text_or-empty s = ground (arith, string_eq.equal_iff s "")

  pub text_or-when : (s : String) → text_or py "" (when (truthy (string s)) (string s)) ≡ s
  text_or-when s = ground (arith, string_eq.equal_iff s "")

  pub text_or-set : (d s : String) → (s == "") ≡ false → text_or py d (some (string s)) ≡ s
  text_or-set d s h = ground (arith, h)

  pub int_or-set : (d n : ℤ) → eqb_ℤ n (pos 0) ≡ false → int_or py d (some (integer n)) ≡ ok n
  int_or-set d n h = ground (arith, h)

  pub int_or-zero : (n : ℤ) → int_or py (pos 0) (some (integer n)) ≡ ok n
  int_or-zero n = ground arith

  pub fields_or_empty-object : (fs : Fields) → fields_or_empty py (some (object fs)) ≡ ok fs
  fields_or_empty-object no_fields = refl
  fields_or_empty-object (field k v fs) = refl

  pub fields_or_empty-when :
      (b : Bool) (fs : Fields)
      → (b ≡ false → fs ≡ no_fields)
      → fields_or_empty py (when b (object fs)) ≡ ok fs
  fields_or_empty-when true fs h = fields_or_empty-object fs
  fields_or_empty-when false fs h = rw (h refl) refl

  pub items_or_empty-array : (xs : Items) → items_or_empty py (some (array xs)) ≡ ok xs
  items_or_empty-array no_items = refl
  items_or_empty-array (item x xs) = refl

  pub items_or_empty-when :
      (xs : Items) → items_or_empty py (when (truthy (array xs)) (array xs)) ≡ ok xs
  items_or_empty-when no_items = refl
  items_or_empty-when (item x xs) = refl

  pub optional_fields-object : (o : Option Fields) → optional_fields py (optional_object o) ≡ ok o
  optional_fields-object none = refl
  optional_fields-object (some fs) = refl
