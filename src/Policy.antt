-- ===== src/Policy.antt =====
-- src/asterun/policy.py: who may use which workspace, grants with an expiry and a scope, and the keys that a
-- request may not carry. A decision's reason is a message, which is left out.
pub mod Admission
pub mod Examples
use asterun.Prelude.{
  ℕ, String, Bool, true, false, not, ◌||◌, ◌&&◌, Option, none, some, List, [], ◌∷◌, contains, any,
  ◌==◌, string_eq, if◌then◌else◌,
}
use asterun.Prelude.Int.{ℤ, pos, ltb_ℤ}
use asterun.Errors.{Code, Result, ok, err, auth_required, scope_denied, type_error, ◌>>=◌, ◌>>◌}
use asterun.Errors.Exec.{Unit₀}
use asterun.Json.{
  Json, null, integer, string, array, Items, no_items, item, Fields, no_fields, field, get_field,
  Python, raw, int_or, text,
}

-- FORBIDDEN_REQUEST_KEYS
abbrev pub forbidden_request_keys : List String
forbidden_request_keys =
    "principal" ∷ "granted" ∷ "set_ready" ∷ "set_granted" ∷ "authorization" ∷ "actor"
    ∷ "account_ref" ∷ "runtime_ref" ∷ "billing_pool_ref" ∷ "auth" ∷ []

pub record Principal : Type 0 where
  pub subject_id : String
  pub source : String

pub record Decision : Type 0 where
  pub allowed : Bool
  pub code : Option Code

-- `expires_at` is whatever `from_dict` read.
pub record Grant : Type 0 where
  pub expires_at : Json
  pub resources : Option (List String)
  pub revision : ℤ

-- A moment that `datetime.fromisoformat` reads: with a time zone it is a number, and without one it
-- compares with nothing.
pub data Moment : Type 0 where
  zoned : ℤ → Moment
  naive : Moment

-- `resource in self.resources`, where "*" stands for all of them
unfoldable pub covers : Grant → String → Bool
covers g resource = elim g.resources [
  | none ↦ true
  | some rs ↦ contains rs "*" || contains rs resource
]

abbrev pub items_of : List String → Items
items_of [] = no_items
items_of (s ∷ ss) = item (string s) (items_of ss)

abbrev pub resources_json : Option (List String) → Json
resources_json none = null
resources_json (some rs) = array (items_of rs)

abbrev pub to_dict : Grant → Fields
to_dict g = field "expires_at" g.expires_at (
    field "resources" (resources_json g.resources)
      (field "revision" (integer g.revision) no_fields))

abbrev pub deny : Decision
deny = record { allowed = false; code = some scope_denied }

abbrev pub allow : Decision
allow = record { allowed = true; code = none }

-- AllowConfiguredWorkspaces.authorize; the action is not looked at
unfoldable pub authorize : List String → Principal → String → String → Decision
authorize aliases p action resource =
    if not (p.source == "process" || p.source == "test")
    then deny
    else if resource == "*"
    then allow
    else if contains aliases resource
    then allow
    else deny

-- DenyAll.authorize
abbrev pub deny_all : Principal → String → String → Decision
deny_all p action resource = deny

abbrev pub or_denied : Option Code → Code
or_denied none = scope_denied
or_denied (some c) = c

unfoldable pub enforce : Decision → Result Unit₀
enforce d = if d.allowed then ok tt else err (or_denied d.code)

-- the keys of a mapping
abbrev pub field_keys : Fields → List String
field_keys no_fields = []
field_keys (field k v fs) = k ∷ field_keys fs

-- the test whether a forbidden key is among those of the request; an empty request has none
unfoldable pub reject_self_reported_authority : Option Fields → Result Unit₀
reject_self_reported_authority none = ok tt
reject_self_reported_authority (some payload) =
    if any (contains forbidden_request_keys) (field_keys payload) then err scope_denied else ok tt

module _ (py : Python) where
  -- `tuple(str(item) for item in resources)`, which iterates over what it is given
  abbrev pub texts_of : Items → List String
  texts_of no_items = []
  texts_of (item v vs) = text py v ∷ texts_of vs

  abbrev pub resources_from : Json → Result (Option (List String))
  resources_from null = ok none
  resources_from (array vs) = ok (some (texts_of vs))
  resources_from v = do vs ← py.list_of v; ok (some (texts_of vs))

  unfoldable pub from_dict : Fields → Result Grant
  from_dict document = do
    resources' ← resources_from (raw (get_field "resources" document))
    revision' ← int_or py (pos 1) (get_field "revision" document)
    ok (record {
      expires_at = raw (get_field "expires_at" document);
      resources = resources';
      revision = revision';
    })

-- `parse` is datetime.fromisoformat of a text whose "Z" was replaced, where `none` is a text that it
-- refuses; a moment with a time zone is counted in microseconds.
module _ (parse : String → Option Moment) where
  -- the two moments, compared: a naive expiry has passed, and a naive present cannot be compared
  abbrev pub passed : Option Moment → Option Moment → Bool
  passed none now = true
  passed (some naive) none = true
  passed (some naive) (some now) = true
  passed (some (zoned expiry)) none = true
  passed (some (zoned expiry)) (some naive) = true
  passed (some (zoned expiry)) (some (zoned now)) = not (ltb_ℤ now expiry)

  abbrev pub expired_at : Option Moment → Json → Bool
  expired_at now null = false
  expired_at now (string s) = passed (parse s) now
  expired_at now _ = true

  unfoldable pub is_expired : Grant → String → Bool
  is_expired g now = expired_at (parse now) g.expires_at

  unfoldable pub enforce_grant : Option Grant → String → String → Result Unit₀
  unfolding is_expired covers
  enforce_grant none resource now = ok tt
  enforce_grant (some g) resource now =
      if is_expired g now
      then err auth_required
      else if covers g resource
      then ok tt
      else err scope_denied
