-- ===== src/Control/Reservations/Settlement.antt =====
-- A settled reservation stays settled as it is.
use asterun.Prelude.{
  ℕ, String, ◌≡◌, refl, inl, inr, true, Option, none, some, List, [], ◌∷◌, Dict, lookup, all, arith,
  string_eq, nat_eq, option_eq, pair_eq, lookup-insert_self, ==_refl, Bool-cases, Distinct,
}
use asterun.Errors.{ok, err, Result-cases, invalid_state}
use asterun.Control.Db.{
  Db, Measure, Reservation, ReservationStatus, held, settled, released, uncertain,
}
use asterun.Control.Entities.{select, put_row}
use asterun.Control.Budget.{MeterKey, amounts, find_reservation}
use asterun.Control.Budget.Totals.{amounts-Distinct, key_eq}
use asterun.Control.Reservations.{
  entity, covers, same_amounts, settled_with, settle_found, settle_open, settle_again, settle,
  mark_uncertain, keys_within,
}

pub find_reservation-put :
    (n id : String) (r : Reservation) (s : Db)
    → find_reservation id n (put_row (entity n id r) s) ≡ ok r
unfolding select put_row
find_reservation-put n id r s =
    ground (arith, lookup-insert_self (n, ("Reservation", id)) (entity n id r) s.entities)

-- What holds of a reservation and the tables after `settle` returned it: it is stored, it is settled,
-- and its use is the amounts that were given.
pub record IsSettled (n id : String) (m : Dict MeterKey ℕ) (r : Reservation) (s : Db) : Type 0 where
  pub found : find_reservation id n s ≡ ok r
  pub status : r.status ≡ settled
  pub actual : List Measure
  pub actual_is : r.actual ≡ some actual
  pub before : Dict MeterKey ℕ
  pub before_is : amounts actual ≡ ok before
  pub same : same_amounts before m ≡ true

weaken :
    (k : MeterKey) (v : ℕ) (a b : Dict MeterKey ℕ)
    → lookup k a ≡ none
    → all (λ e. option_eq.equal (lookup e.0 a) (some e.1)) b ≡ true
    → all (λ e. option_eq.equal (lookup e.0 ((k, v) ∷ a)) (some e.1)) b ≡ true
unfolding lookup
weaken k v a [] new h = refl
weaken k v a ((j, w) ∷ b) new h = ground (arith, weaken k v a b new, key_eq.equal_iff k j)

covers_refl : (m : Dict MeterKey ℕ) → Distinct m → covers m m ≡ true
unfolding lookup
covers_refl [] d = refl
covers_refl ((k, v) ∷ m) d = ground (
  arith,
  weaken k v m m d.0 (covers_refl m d.1),
  ==_refl k.0,
  key_eq.equal_iff k k,
  nat_eq.equal_iff v v,
)

module _ (n id : String) (actual : List Measure) (evidence : List String) (now : String) where
  settle_open-IsSettled :
      (r₀ r : Reservation) (m : Dict MeterKey ℕ) (s s' : Db)
      → amounts actual ≡ ok m
      → settle_open n id actual m evidence now r₀ s ≡ (ok r, s')
      → IsSettled n id m r s'
  settle_open-IsSettled r₀ r m s s' am h = elim (Result-cases (amounts r₀.reserved)) [
    | inr (c, e) ↦ absurd (ground arith)
    | inl (reserved, e) ↦ elim (Bool-cases (keys_within m reserved)) [
      | inr beyond ↦ absurd (ground arith)
      | inl within ↦
          let r_is : settled_with actual evidence now r₀ ≡ r = ground arith in
          let s_is : put_row (entity n id (settled_with actual evidence now r₀)) s ≡ s' =
            ground arith in
          let both : covers m m ≡ true = covers_refl m (amounts-Distinct m actual am) in
          record {
            found =
                rw (← s_is, ← r_is)
                  (find_reservation-put n id (settled_with actual evidence now r₀) s);
            status = rw (← r_is);
            actual = actual;
            actual_is = rw (← r_is);
            before = m;
            before_is = am;
            same = ground arith;
          }
    ]
  ]

  settle_again-IsSettled :
      (r₀ r : Reservation) (m : Dict MeterKey ℕ) (s s' : Db) (o : Option (List Measure))
      → find_reservation id n s ≡ ok r₀
      → r₀.status ≡ settled
      → r₀.actual ≡ o
      → settle_again m r₀ o s ≡ (ok r, s')
      → IsSettled n id m r s'
  settle_again-IsSettled r₀ r m s s' none f st a h = absurd (ground arith)
  settle_again-IsSettled r₀ r m s s' (some a₀) f st a h = elim (Result-cases (amounts a₀)) [
    | inr (c, e) ↦ absurd (ground arith)
    | inl (before, e) ↦
        let r_is : r₀ ≡ r = ground arith in
        let s_is : s ≡ s' = ground arith in
        record {
          found = rw (← s_is, ← r_is) f;
          status = rw (← r_is) st;
          actual = a₀;
          actual_is = rw (← r_is) a;
          before = before;
          before_is = e;
          same = ground arith;
        }
  ]

  settle_found-IsSettled :
      (r₀ r : Reservation) (m : Dict MeterKey ℕ) (s s' : Db) (st : ReservationStatus)
      → amounts actual ≡ ok m
      → find_reservation id n s ≡ ok r₀
      → r₀.status ≡ st
      → settle_found n id actual m evidence now r₀ st s ≡ (ok r, s')
      → IsSettled n id m r s'
  settle_found-IsSettled r₀ r m s s' settled am f st h =
      settle_again-IsSettled r₀ r m s s' r₀.actual f st refl h
  settle_found-IsSettled r₀ r m s s' released am f st h = absurd (ground arith)
  settle_found-IsSettled r₀ r m s s' held am f st h = settle_open-IsSettled r₀ r m s s' am h
  settle_found-IsSettled r₀ r m s s' uncertain am f st h = settle_open-IsSettled r₀ r m s s' am h

  pub settle-IsSettled :
      (r : Reservation) (m : Dict MeterKey ℕ) (s s' : Db)
      → amounts actual ≡ ok m
      → settle n id actual evidence now s ≡ (ok r, s')
      → IsSettled n id m r s'
  unfolding settle
  settle-IsSettled r m s s' am h = elim (Result-cases (find_reservation id n s)) [
    | inr (c, f) ↦ absurd (ground arith)
    | inl (r₀, f) ↦
        elim (Result-cases ((settle_found n id actual m evidence now r₀ r₀.status s).0)) [
          | inr (c, g) ↦ absurd (ground arith)
          | inl (x, g) ↦ settle_found-IsSettled r₀ r m s s' r₀.status am f refl (ground arith)
        ]
  ]

-- On a settled reservation every later call leaves the tables alone.
settle-settled :
    (n id : String) (actual : List Measure) (evidence : List String) (now : String)
    (m : Dict MeterKey ℕ) (r : Reservation) (s : Db)
    → IsSettled n id m r s
    → amounts actual ≡ ok m
    → settle n id actual evidence now s ≡ (ok r, s)
unfolding settle
settle-settled n id actual evidence now m r s i am =
    ground (arith, i.found, i.status, i.actual_is, i.before_is, i.same, am)

-- Once `settle` has settled a reservation, settling it again with the same amounts, whatever the
-- evidence and the time, gives back the same reservation, and marking it uncertain is refused as an
-- invalid state; neither changes the tables.
pub settle-final :
    (n id : String) (actual : List Measure) (evidence evidence' : List String) (now now' : String)
    (m : Dict MeterKey ℕ) (r : Reservation) (s s' : Db)
    → amounts actual ≡ ok m
    → settle n id actual evidence now s ≡ (ok r, s')
    → (settle n id actual evidence' now' s' ≡ (ok r, s'))
      × (mark_uncertain n id now' s' ≡ (err invalid_state, s'))
unfolding mark_uncertain
settle-final n id actual evidence evidence' now now' m r s s' am h =
    let i = settle-IsSettled n id actual evidence now r m s s' am h in
    (settle-settled n id actual evidence' now' m r s' i am, ground (arith, i.found, i.status))
