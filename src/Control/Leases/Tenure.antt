-- ===== src/Control/Leases/Tenure.antt =====
-- A lease is its holder's until it expires (`claim_lease`, `check_lease` and `release_lease` of
-- control_store.py), whatever the other holders do in the meantime.
use asterun.Prelude.{
  ℕ, ◌<◌, String, ◌≡◌, ◌≢◌, refl, subst, sym, ◌∙◌, ◌⊎◌, inl, inr, Bool, false, ◌&&◌, Option, none,
  some, List, [], ◌∷◌, arith, ltb, ◌==◌, string_eq, nat_eq, option_eq, pair_eq, lookup-insert,
  lookup-insert_self, ==_refl, ==_ne, if◌then◌else◌, Bool-cases, Option-cases,
}
use asterun.Errors.{ok, err, lease_conflict, lease_lost}
use asterun.Control.Db.{Db, Lease}
use asterun.Control.Leases.{lease_of, claim_lease, check_lease, release_lease}
use asterun.Control.Leases.Exclusion.{claim_lease-ok, granted}
use asterun.Control.Leases.Fencing.{LeaseOp, claim, release, run_op, run_ops}

abbrev is_at : String → String → String → String → Bool
is_at n r m u = (m == n) && (u == r)

-- another resource
abbrev pub IsElsewhere : String → String → String → String → Type 0
IsElsewhere n r m u = (m ≢ n) ⊎ (u ≢ r)

-- before the instant, or a time that was not read
abbrev pub IsEarly : ℕ → Option ℕ → Type 0
IsEarly te none = Unit
IsEarly te (some t) = t < te

module _ (parse_utc : String → Option ℕ) where
  -- A claim or release of another resource, a claim of another holder before the expiry, or a release in
  -- another holder's name.
  abbrev pub IsForeign : String → String → String → ℕ → LeaseOp → Type 0
  IsForeign n r a te (claim m u b expires now) =
      IsElsewhere n r m u ⊎ ((b ≢ a) × IsEarly te (parse_utc now))
  IsForeign n r a te (release m u b token) = IsElsewhere n r m u ⊎ (b ≢ a)

  abbrev pub AllForeign : String → String → String → ℕ → List LeaseOp → Type 0
  AllForeign n r a te [] = Unit
  AllForeign n r a te (op ∷ ops) = IsForeign n r a te op × AllForeign n r a te ops

  -- The resource is leased to the holder until the instant.
  abbrev HoldsTill : String → String → String → ℕ → Lease → Db → Type 0
  HoldsTill n r a te lease s =
      (lease_of s n r ≡ some lease)
      × (lease.holder_id ≡ some a)
      × (parse_utc lease.expires_at ≡ some te)

  refused_at :
      (n r a b expires now : String) (te : ℕ) (s : Db) (lease : Lease)
      → HoldsTill n r a te lease s
      → b ≢ a
      → IsEarly te (parse_utc now)
      → (claim_lease parse_utc n r b expires now s).1 ≡ s
  unfolding claim_lease
  refused_at n r a b expires now te s lease (row, ha, pe) ne early =
      elim (Option-cases (parse_utc now)) [
        | inl unread ↦ ground (arith, unread)
        | inr (t, read) ↦
            let before : t < te = subst (IsEarly te) read early in
            ground (arith, read, row, ha, pe, before, ==_ne a b (λ e. ne (sym e)))
      ]

  claim-elsewhere :
      (n r m u b expires now : String) (s : Db)
      → is_at n r m u ≡ false
      → lease_of (claim_lease parse_utc m u b expires now s).1 n r ≡ lease_of s n r
  unfolding claim_lease
  claim-elsewhere n r m u b expires now s elsewhere-is_at = ground (
    arith,
    lookup-insert (m, u) (n, r) (granted b expires (lease_of s m u)) s.leases,
    elsewhere-is_at,
  )

  release-elsewhere :
      (n r m u b : String) (token : ℕ) (s : Db)
      → is_at n r m u ≡ false
      → lease_of (release_lease m u b token s).1 n r ≡ lease_of s n r
  unfolding release_lease
  release-elsewhere n r m u b token s elsewhere-is_at = elim (Option-cases (lease_of s m u)) [
    | inl e ↦ ground (arith, e)
    | inr (lease, e) ↦ ground (
      arith,
      e,
      lookup-insert (m, u) (n, r) (record lease { holder_id = none }) s.leases,
      elsewhere-is_at,
    )
  ]

  release-other :
      (n r a b : String) (token : ℕ) (s : Db) (lease : Lease)
      → lease_of s n r ≡ some lease
      → lease.holder_id ≡ some a
      → b ≢ a
      → (release_lease n r b token s).1 ≡ s
  unfolding release_lease
  release-other n r a b token s lease row ha ne =
      ground (arith, row, ha, ==_ne a b (λ e. ne (sym e)))

  elsewhere-is_at : (n r m u : String) → IsElsewhere n r m u → is_at n r m u ≡ false
  elsewhere-is_at n r m u (inl h) = rw (==_ne m n h) refl
  elsewhere-is_at n r m u (inr h) = ground (arith, ==_ne u r h)

  -- the same place, or another one
  place_cases : (n r m u : String) → ((m ≡ n) × (u ≡ r)) ⊎ (is_at n r m u ≡ false)
  place_cases n r m u = elim (Bool-cases (m == n)) [
    | inr other ↦ inr (rw other refl)
    | inl same ↦ elim (Bool-cases (u == r)) [
      | inr other ↦ inr (ground (arith, other))
      | inl there ↦ inl ((string_eq.equal_iff m n).0 same, (string_eq.equal_iff u r).0 there)
    ]
  ]

  run_op-HoldsTill :
      (n r a : String) (te : ℕ) (s : Db) (lease : Lease) (op : LeaseOp)
      → HoldsTill n r a te lease s
      → IsForeign n r a te op
      → HoldsTill n r a te lease (run_op parse_utc s op)
  unfolding run_op
  run_op-HoldsTill n r a te s lease (claim m u b expires now) (row, ha, pe) foreign = elim foreign [
    | inl away ↦
        (claim-elsewhere n r m u b expires now s (elsewhere-is_at n r m u away) ∙ row, ha, pe)
    | inr (ne, early) ↦ elim (place_cases n r m u) [
      | inr away ↦ (claim-elsewhere n r m u b expires now s away ∙ row, ha, pe)
      | inl (mn, ur) ↦
          rw (mn, ur, refused_at n r a b expires now te s lease (row, ha, pe) ne early)
            (row, ha, pe)
    ]
  ]
  run_op-HoldsTill n r a te s lease (release m u b token) (row, ha, pe) foreign = elim foreign [
    | inl away ↦ (release-elsewhere n r m u b token s (elsewhere-is_at n r m u away) ∙ row, ha, pe)
    | inr ne ↦ elim (place_cases n r m u) [
      | inr away ↦ (release-elsewhere n r m u b token s away ∙ row, ha, pe)
      | inl (mn, ur) ↦ rw (mn, ur, release-other n r a b token s lease row ha ne) (row, ha, pe)
    ]
  ]

  run_ops-HoldsTill :
      (n r a : String) (te : ℕ) (s : Db) (lease : Lease) (ops : List LeaseOp)
      → HoldsTill n r a te lease s
      → AllForeign n r a te ops
      → HoldsTill n r a te lease (run_ops parse_utc s ops)
  unfolding run_ops
  run_ops-HoldsTill n r a te s lease [] held foreign = held
  run_ops-HoldsTill n r a te s lease (op ∷ ops) held foreign =
      run_ops-HoldsTill n r a te (run_op parse_utc s op) lease ops
        (run_op-HoldsTill n r a te s lease op held foreign.0) foreign.1

  claimed-HoldsTill :
      (n r a expires now : String) (s s' : Db) (lease : Lease) {te : ℕ}
      → claim_lease parse_utc n r a expires now s ≡ (ok lease, s')
      → parse_utc expires ≡ some te
      → HoldsTill n r a te lease s'
  claimed-HoldsTill n r a expires now s s' lease claimed pe =
      let (is_granted, is_stored) = claim_lease-ok parse_utc n r a expires now s s' lease claimed in
      (
        rw (is_stored, lookup-insert_self (n, r) lease s.leases) refl,
        rw is_granted refl,
        rw is_granted pe,
      )

  conflict_at :
      (n r a b expires now : String) (s : Db) (lease : Lease) {te t e : ℕ}
      → HoldsTill n r a te lease s
      → b ≢ a
      → parse_utc now ≡ some t
      → parse_utc expires ≡ some e
      → t < te
      → t < e
      → claim_lease parse_utc n r b expires now s ≡ (err lease_conflict, s)
  unfolding claim_lease
  conflict_at n r a b expires now s lease (row, ha, pe) ne pn px before ahead =
      ground (arith, row, ha, pe, pn, px, ==_ne a b (λ e. ne (sym e)))

  -- After a claim with a time of expiry, and any claims and releases in which no other holder claims the
  -- resource at or after that time and the holder neither claims nor releases it, a claim of the
  -- resource by another holder before that time is refused as a conflict and changes nothing, where its own
  -- times can be read and it asks for a time in its future.
  pub claim_lease-excludes :
      (n r a b expires now expires' now' : String) (s s' : Db) (lease : Lease) (ops : List LeaseOp)
      {te t' e' : ℕ}
      → claim_lease parse_utc n r a expires now s ≡ (ok lease, s')
      → parse_utc expires ≡ some te
      → AllForeign n r a te ops
      → b ≢ a
      → parse_utc now' ≡ some t'
      → parse_utc expires' ≡ some e'
      → t' < te
      → t' < e'
      → claim_lease parse_utc n r b expires' now' (run_ops parse_utc s' ops)
        ≡ (err lease_conflict, run_ops parse_utc s' ops)
  claim_lease-excludes n r a b expires now expires' now' s s' lease ops claimed pe foreign ne pn px
        before ahead =
      conflict_at n r a b expires' now' (run_ops parse_utc s' ops) lease
        (run_ops-HoldsTill n r a _ s' lease ops
          (claimed-HoldsTill n r a expires now s s' lease claimed pe) foreign)
        ne pn px before ahead

  check_at :
      (n r a now : String) (s : Db) (lease : Lease) {te t : ℕ}
      → HoldsTill n r a te lease s
      → parse_utc now ≡ some t
      → check_lease parse_utc n r a lease.fencing_token now s
        ≡ (if ltb t te then (ok lease, s) else (err lease_lost, s))
  unfolding check_lease
  check_at n r a now s lease (row, ha, pe) pn = ground (arith, row, ha, pe, pn, ==_refl a)

  -- After a claim with a time of expiry, and any claims and releases in which no other holder claims the
  -- resource at or after that time and the holder neither claims nor releases it, the holder's check with
  -- the token of its claim, at a time that can be read, gives its lease before the expiry and is refused
  -- from then on; it changes nothing.
  pub check_lease-claimed :
      (n r a expires now now' : String) (s s' : Db) (lease : Lease) (ops : List LeaseOp) {te t' : ℕ}
      → claim_lease parse_utc n r a expires now s ≡ (ok lease, s')
      → parse_utc expires ≡ some te
      → AllForeign n r a te ops
      → parse_utc now' ≡ some t'
      → check_lease parse_utc n r a lease.fencing_token now' (run_ops parse_utc s' ops) ≡ (
          if ltb t' te
          then (ok lease, run_ops parse_utc s' ops)
          else (err lease_lost, run_ops parse_utc s' ops))
  check_lease-claimed n r a expires now now' s s' lease ops claimed pe foreign pn =
      check_at n r a now' (run_ops parse_utc s' ops) lease
        (run_ops-HoldsTill n r a _ s' lease ops
          (claimed-HoldsTill n r a expires now s s' lease claimed pe) foreign)
        pn
