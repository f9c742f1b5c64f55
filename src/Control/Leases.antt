-- ===== src/Control/Leases.antt =====
-- `claim_lease`, `check_lease` and `release_lease` of control_store.py: a resource has one holder at
-- a time, and each claim gets a fencing token one above the last.
pub mod Exclusion
pub mod Fencing
pub mod Tenure
use asterun.Prelude.{
  ℕ, ◌+◌, String, Bool, true, false, not, ◌&&◌, ◌||◌, Option, none, some, lookup, insert, leb, ltb,
  ◌==◌, string_eq, nat_eq, option_eq, pair_eq, if◌then◌else◌, Dict,
}
use asterun.Errors.{Result, ok, err, invalid_request, invalid_state, lease_conflict, lease_lost}
use asterun.Errors.Exec.{
  Exec, Unit₀, pure, lift, gets, modify, raise_when, transaction, ◌>>=◌, ◌>>◌,
}
use asterun.Control.Db.{Db, Lease, max_int}

abbrev pub lease_of : Db → String → String → Option Lease
lease_of s namespace resource = lookup (namespace, resource) s.leases

abbrev pub token_of : Option Lease → ℕ
token_of none = 0
token_of (some lease) = lease.fencing_token

abbrev pub store_lease : String → String → Lease → Db → Db
store_lease namespace resource lease s = record s {
  leases = insert (namespace, resource) lease s.leases;
}

-- `parse_utc` is datetime.fromisoformat on a text that ends in Z: the instant, or none where it
-- raises or the Z is missing.
module _ (parse_utc : String → Option ℕ) where
  -- `_time`
  abbrev pub time : String → Result ℕ
  time value = elim (parse_utc value) [ none ↦ err invalid_request | some t ↦ ok t ]

  -- whether another holder's lease is still valid; its time is read only where there is one
  abbrev pub held_by_other : Option Lease → String → ℕ → Result Bool
  held_by_other none holder now = ok false
  held_by_other (some lease) holder now = elim lease.holder_id [
    | none ↦ ok false
    | some h ↦ elim (h == holder) [
      | true ↦ ok false
      | false ↦ elim (time lease.expires_at) [ err c ↦ err c | ok t ↦ ok (ltb now t) ]
    ]
  ]

  -- the insertion that replaces the row of the resource
  abbrev pub claim_row : String → String → String → String → Option Lease → Exec Db Lease
  claim_row namespace resource holder expires_at row = do
    raise_when (ltb max_int (token_of row + 1)) invalid_state
    modify (
        store_lease namespace resource (record {
          holder_id = some holder;
          expires_at = expires_at;
          fencing_token = token_of row + 1;
        }))
    pure (record {
      holder_id = some holder;
      expires_at = expires_at;
      fencing_token = token_of row + 1;
    })

  unfoldable pub claim_lease : String → String → String → String → String → Exec Db Lease
  unfolding transaction
  claim_lease namespace resource holder expires_at now = do
    timestamp ← lift (time now)
    expiry ← lift (time expires_at)
    raise_when (leb expiry timestamp) invalid_request
    transaction do
      row ← gets (λ s. lease_of s namespace resource)
      held ← lift (held_by_other row holder timestamp)
      raise_when held lease_conflict
      claim_row namespace resource holder expires_at row

  -- the last test of `check_lease`
  abbrev pub unexpired : Lease → String → Result Bool
  unexpired lease now = elim (time lease.expires_at) [
    | err c ↦ err c
    | ok e ↦ elim (time now) [ err c ↦ err c | ok t ↦ ok (ltb t e) ]
  ]

  abbrev pub check_row : Lease → String → ℕ → String → Exec Db Lease
  check_row lease holder token now =
      if option_eq.equal lease.holder_id (some holder) && (lease.fencing_token == token)
      then (do valid ← lift (unexpired lease now); raise_when (not valid) lease_lost; pure lease)
      else λ s. (err lease_lost, s)

  unfoldable pub check_lease : String → String → String → ℕ → String → Exec Db Lease
  check_lease namespace resource holder token now s = elim (lease_of s namespace resource) [
    | none ↦ (err lease_lost, s)
    | some lease ↦ check_row lease holder token now s
  ]

-- the UPDATE of `release_lease` and its row count
abbrev pub release_row : String → String → String → ℕ → Option Lease → Exec Db Unit₀
release_row namespace resource holder token none s = (err lease_lost, s)
release_row namespace resource holder token (some lease) s =
    if option_eq.equal lease.holder_id (some holder) && (lease.fencing_token == token)
    then (ok tt, store_lease namespace resource (record lease { holder_id = none }) s)
    else (err lease_lost, s)

unfoldable pub release_lease : String → String → String → ℕ → Exec Db Unit₀
unfolding transaction
release_lease namespace resource holder token =
    transaction (λ s. release_row namespace resource holder token (lease_of s namespace resource) s)
