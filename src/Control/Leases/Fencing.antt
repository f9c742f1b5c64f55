-- ===== src/Control/Leases/Fencing.antt =====
-- Fencing: the tokens of a resource only grow, so a holder that lost its lease stays out.
use asterun.Prelude.{
  ℕ, ◌<◌, ◌≤◌, String, ◌≡◌, inl, inr, Option, none, List, [], ◌∷◌, arith, string_eq, nat_eq,
  option_eq, pair_eq, lookup-insert, lookup-insert_self, Option-cases,
}
use asterun.Errors.{ok, err, lease_lost}
use asterun.Control.Db.{Db, Lease}
use asterun.Control.Leases.{lease_of, token_of, claim_lease, check_lease, release_lease}
use asterun.Control.Leases.Exclusion.{claim_lease-ok, granted}

-- The operations that write the lease table: a claim with its resource, holder, expiry and time, and
-- a release.
pub data LeaseOp : Type 0 where
  claim : String → String → String → String → String → LeaseOp
  release : String → String → String → ℕ → LeaseOp

abbrev pub token_at : Db → String → String → ℕ
token_at s n r = token_of (lease_of s n r)

module _ (parse_utc : String → Option ℕ) where
  unfoldable pub run_op : Db → LeaseOp → Db
  run_op s (claim n r holder expires now) = (claim_lease parse_utc n r holder expires now s).1
  run_op s (release n r holder token) = (release_lease n r holder token s).1

  unfoldable pub run_ops : Db → List LeaseOp → Db
  unfolding run_op
  run_ops s [] = s
  run_ops s (op ∷ ops) = run_ops (run_op s op) ops

  claim-token :
      (n r holder expires now m u : String) (s : Db)
      → token_at s m u ≤ token_at (claim_lease parse_utc n r holder expires now s).1 m u
  unfolding claim_lease
  claim-token n r holder expires now m u s = ground (
    arith,
    lookup-insert (n, r) (m, u) (granted holder expires (lease_of s n r)) s.leases,
    string_eq.equal_iff n m,
    string_eq.equal_iff r u,
  )

  release-token :
      (n r holder m u : String) (token : ℕ) (s : Db)
      → token_at s m u ≤ token_at (release_lease n r holder token s).1 m u
  unfolding release_lease
  release-token n r holder m u token s = elim (Option-cases (lease_of s n r)) [
    | inl e ↦ ground (arith, e)
    | inr (lease, e) ↦ ground (
      arith,
      e,
      lookup-insert (n, r) (m, u) (record lease { holder_id = none }) s.leases,
      string_eq.equal_iff n m,
      string_eq.equal_iff r u,
    )
  ]

  run_op-token :
      (s : Db) (op : LeaseOp) (m u : String) → token_at s m u ≤ token_at (run_op s op) m u
  unfolding run_op
  run_op-token s (claim n r holder expires now) m u = claim-token n r holder expires now m u s
  run_op-token s (release n r holder token) m u = release-token n r holder m u token s

  run_ops-token :
      (s : Db) (ops : List LeaseOp) (m u : String) → token_at s m u ≤ token_at (run_ops s ops) m u
  unfolding run_ops
  run_ops-token s [] m u = omega arith
  run_ops-token s (op ∷ ops) m u =
      omega (arith, run_op-token s op m u, run_ops-token (run_op s op) ops m u)

  check-stale :
      (n r holder now : String) (token : ℕ) (s : Db)
      → token < token_at s n r
      → check_lease parse_utc n r holder token now s ≡ (err lease_lost, s)
  unfolding check_lease
  check-stale n r holder now token s h = ground arith

  claimed_token :
      (n r a expires now : String) (s s' : Db) (lease : Lease)
      → claim_lease parse_utc n r a expires now s ≡ (ok lease, s')
      → token_at s' n r ≡ lease.fencing_token
  claimed_token n r a expires now s s' lease claimed =
      let stored = (claim_lease-ok parse_utc n r a expires now s s' lease claimed).1 in
      rw (stored, lookup-insert_self (n, r) lease s.leases)

  -- Once a claim succeeded, whatever claims and releases follow, no check with an earlier token of
  -- the resource succeeds again, under any holder's name and at any time.
  pub check_lease-fenced :
      (n r a b expires now now' : String) (s s' : Db) (lease : Lease) (ops : List LeaseOp)
      (token : ℕ)
      → claim_lease parse_utc n r a expires now s ≡ (ok lease, s')
      → token < lease.fencing_token
      → check_lease parse_utc n r b token now' (run_ops s' ops) ≡ (err lease_lost, run_ops s' ops)
  check_lease-fenced n r a b expires now now' s s' lease ops token claimed older =
      check-stale n r b now' token (run_ops s' ops) (
        omega (arith, run_ops-token s' ops n r, claimed_token n r a expires now s s' lease claimed))
