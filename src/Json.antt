-- ===== src/Json.antt =====
-- JSON values as Python's json module reads and writes them, and the built-in conversions by which
-- src/asterun/contracts.py reads a stored document (`str`, `int`, `bool`, `dict`, `list`).
pub mod Entries
pub mod Readings
use asterun.Prelude.{
  ℕ, String, Bool, true, false, not, Option, none, some, List, [], ◌∷◌, ◌==◌, string_eq,
  if◌then◌else◌,
}
use asterun.Prelude.Int.{ℤ, pos, eqb_ℤ}
use asterun.Errors.{Result, ok, err, key_error, type_error}

-- A number that is no `int` is its text, and whether it is zero.
mutual
  pub data Json : Type 0 where
    null : Json
    boolean : Bool → Json
    integer : ℤ → Json
    decimal : String → Bool → Json
    string : String → Json
    array : Items → Json
    object : Fields → Json

  pub data Items : Type 0 where
    no_items : Items
    item : Json → Items → Items

  pub data Fields : Type 0 where
    no_fields : Fields
    field : String → Json → Fields → Fields

-- `bool(value)`
abbrev pub truthy : Json → Bool
truthy null = false
truthy (boolean b) = b
truthy (integer n) = not (eqb_ℤ n (pos 0))
truthy (decimal text zero) = not zero
truthy (string s) = not (s == "")
truthy (array no_items) = false
truthy (array (item x xs)) = true
truthy (object no_fields) = false
truthy (object (field k v fs)) = true

-- `mapping.get(key)`
abbrev pub get_field : String → Fields → Option Json
get_field key no_fields = none
get_field key (field k v fs) = let rest = get_field key fs in if k == key then some v else rest

-- `mapping.pop(key, None)`
abbrev pub pop_field : String → Fields → Fields
pop_field key no_fields = no_fields
pop_field key (field k v fs) =
    let rest = pop_field key fs in if k == key then rest else field k v rest

-- What Python's conversions do with a value of another type than the one that is written,
-- whether a text is blank after `strip()`, and `==` on JSON values.
pub record Python : Type 0 where
  pub str_of : Json → String
  pub int_of : Json → Result ℤ
  pub dict_of : Json → Result Fields
  pub list_of : Json → Result Items
  pub blank : String → Bool
  pub equal : Json → Json → Bool

-- `data[key]`
abbrev pub required : Option Json → Result Json
required none = err key_error
required (some v) = ok v

-- `data.get(key)`
abbrev pub raw : Option Json → Json
raw none = null
raw (some v) = v

-- `data.get(key) or default`
abbrev pub or_default : Json → Option Json → Json
or_default d none = d
or_default d (some v) = if truthy v then v else d

-- `bool(data.get(key))`
abbrev pub flag : Option Json → Bool
flag v = truthy (raw v)

-- `value is True`
abbrev pub is_true : Option Json → Bool
is_true (some (boolean true)) = true
is_true _ = false

-- `value if isinstance(value, str) else None`
abbrev pub text_only : Option Json → Option String
text_only (some (string s)) = some s
text_only _ = none

-- `None if value is None else value.value`
abbrev pub optional_string : Option String → Json
optional_string none = null
optional_string (some s) = string s

-- `**({key: value} if value is not None else {})`
abbrev pub optional_object : Option Fields → Option Json
optional_object none = none
optional_object (some fs) = some (object fs)

abbrev pub unless_null : Json → Option Json
unless_null null = none
unless_null v = some v

module _ (py : Python) where
  -- `str(value)`
  abbrev pub text : Json → String
  text (string s) = s
  text v = py.str_of v

  -- `str(data[key])`
  abbrev pub required_text : Option Json → Result String
  required_text none = err key_error
  required_text (some v) = ok (text v)

  -- `str(data.get(key) or default)`
  abbrev pub text_or : String → Option Json → String
  text_or d v = text (or_default (string d) v)

  -- `str(data.get(key, default))`
  abbrev pub text_default : String → Option Json → String
  text_default d none = d
  text_default d (some v) = text v

  -- `int(value)`
  abbrev pub int_from : Json → Result ℤ
  int_from (integer n) = ok n
  int_from v = py.int_of v

  -- `int(data[key])`
  abbrev pub required_int : Option Json → Result ℤ
  required_int none = err key_error
  required_int (some v) = int_from v

  -- `int(data.get(key) or default)`
  abbrev pub int_or : ℤ → Option Json → Result ℤ
  int_or d v = int_from (or_default (integer d) v)

  -- `dict(value)`
  abbrev pub dict_from : Json → Result Fields
  dict_from (object fs) = ok fs
  dict_from v = py.dict_of v

  -- `dict(data.get(key) or {})`
  abbrev pub fields_or_empty : Option Json → Result Fields
  fields_or_empty v = dict_from (or_default (object no_fields) v)

  -- `None if data.get(key) is None else dict(data[key])`
  abbrev pub optional_fields : Option Json → Result (Option Fields)
  optional_fields v = elim (raw v) [
    | null ↦ ok none
    | w ↦ elim (dict_from w) [ err c ↦ err c | ok fs ↦ ok (some fs) ]
  ]

  -- `list(data.get(key) or [])`
  abbrev pub list_from : Json → Result Items
  list_from (array xs) = ok xs
  list_from v = py.list_of v

  abbrev pub items_or_empty : Option Json → Result Items
  items_or_empty v = list_from (or_default (array no_items) v)

  -- `TypedId(value)`, which refuses a value that is no text, and a blank text
  abbrev pub typed_id : Json → Result String
  typed_id (string s) = if py.blank s then err type_error else ok s
  typed_id v = err type_error

  -- `TypedId(data[key])`
  abbrev pub required_id : Option Json → Result String
  required_id none = err key_error
  required_id (some v) = typed_id v

  -- `None if not data.get(key) else TypedId(data[key])`
  abbrev pub optional_id : Option Json → Result (Option String)
  optional_id v =
      if truthy (raw v)
      then elim (typed_id (raw v)) [ err c ↦ err c | ok s ↦ ok (some s) ]
      else ok none
