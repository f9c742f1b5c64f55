-- ===== src/Control/Leases/Exclusion.antt =====
-- What a successful claim of a lease stores (`claim_lease` of control_store.py).
use asterun.Prelude.{
  ℕ, ◌+◌, String, ◌≡◌, Option, some, arith, string_eq, nat_eq, option_eq, pair_eq,
}
use asterun.Errors.{ok}
use asterun.Control.Db.{Db, Lease}
use asterun.Control.Leases.{lease_of, token_of, store_lease, claim_lease}

abbrev pub granted : String → String → Option Lease → Lease
granted holder expires_at row = record {
  holder_id = some holder;
  expires_at = expires_at;
  fencing_token = token_of row + 1;
}

module _ (parse_utc : String → Option ℕ) where
  -- A claim that succeeds has stored the lease that it returns, with the next token.
  pub claim_lease-ok :
      (n r holder expires now : String) (s s' : Db) (lease : Lease)
      → claim_lease parse_utc n r holder expires now s ≡ (ok lease, s')
      → (lease ≡ granted holder expires (lease_of s n r)) × (s' ≡ store_lease n r lease s)
  unfolding claim_lease
  claim_lease-ok n r holder expires now s s' lease h = ground arith
