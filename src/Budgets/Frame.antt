-- ===== src/Budgets/Frame.antt =====
-- `reserve`, `settle` and `mark_uncertain` of control_store.py leave every other reservation of the namespace as
-- it was.
use asterun.Prelude.{
  String, ◌≡◌, ◌≢◌, refl, ap, true, false, Option, none, some, List, [], ◌∷◌, lookup, string_eq,
  pair_eq, lookup-insert_ne, inl, inr, Bool-cases, ◌++◌, ◌==◌, ◌||◌, not, keep, Dict, ℕ,
}
use asterun.Errors.{Result, ok, err, Result-cases}
use asterun.Errors.Exec.{transaction, settle_with}
use asterun.Control.Db.{
  Db, Entity, Reservation, ReservationRow, ReservationStatus, held, settled, released, uncertain,
  Measure,
}
use asterun.Control.Entities.{put_row}
use asterun.Control.Budget.{
  MeterKey, amounts, find_reservation, find_budget, budget_totals, within_limits, is_some,
}
use asterun.Control.Reservations.{
  reserve, reserve_rows, reuse, admit, entity, store, settle, settle_found, settle_open,
  settle_again, mark_uncertain, mark_found, uncertain_at, settled_with, same_binding, is_empty,
  is_held, row_matches, keys_within, same_amounts,
}
use asterun.Budgets.{namespace}

abbrev pub row_at : String → Db → Option Entity
row_at k s = lookup (namespace, ("Reservation", k)) s.entities

module _ (k : String) where
  pub settle_with-keeps :
      {A : Type 0} (s : Db) (x : Result A × Db)
      → row_at k x.1 ≡ row_at k s
      → row_at k (settle_with s x).1 ≡ row_at k s
  settle_with-keeps s (ok a, t) h = h
  settle_with-keeps s (err c, t) h = refl

  -- what is stored under another id
  pub written-keeps :
      (id : String) (r : Reservation) (s : Db)
      → id ≢ k
      → row_at k (put_row (entity namespace id r) s) ≡ row_at k s
  unfolding put_row
  written-keeps id r s ne =
      lookup-insert_ne (namespace, ("Reservation", id)) (namespace, ("Reservation", k))
        (entity namespace id r) s.entities
        (λ h. ne (ap (λ (x : String × (String × String)). x.1.1) h))

  pub store-keeps :
      (id : String) (r : Reservation) (s : Db)
      → id ≢ k
      → row_at k (store namespace id r s) ≡ row_at k s
  store-keeps id r s ne =
      written-keeps id r
        (record s {
          reservations =
              s.reservations
              ++ record {
                namespace_id = namespace;
                id = id;
                budget_id = r.budget_id;
                action_id = r.action_id;
              }
                ∷ [];
        })
        ne

  pub admit-keeps :
      (id : String) (r : Reservation) (wanted : Dict MeterKey ℕ) (s : Db)
      → id ≢ k
      → row_at k (admit namespace id r wanted s).1 ≡ row_at k s
  admit-keeps id r wanted s ne = elim (Result-cases (find_budget r.budget_id namespace s)) [
    | inr (c, e) ↦ rw e refl
    | inl (b, e) ↦ rw e (elim (Bool-cases (b.task_id == r.task_id)) [
      | inr other ↦ rw other refl
      | inl same ↦ rw same (elim (Result-cases (amounts b.limits)) [
        | inr (c, f) ↦ rw f refl
        | inl (limits, f) ↦ rw f (elim (Result-cases (budget_totals namespace r.budget_id s)) [
          | inr (c, g) ↦ rw g refl
          | inl (rows, g) ↦ rw g (elim (Result-cases (within_limits limits rows wanted)) [
            | inr (c, h) ↦ rw h refl
            | inl (u, h) ↦ rw h (store-keeps id r s ne)
          ])
        ])
      ])
    ])
  ]

  pub reuse-keeps :
      (r : Reservation) (rows : List ReservationRow) (s : Db)
      → row_at k (reuse namespace r rows s).1 ≡ row_at k s
  reuse-keeps r [] s = refl
  reuse-keeps r (row ∷ []) s = elim (Result-cases (find_reservation row.id namespace s)) [
    | inr (c, e) ↦ rw e refl
    | inl (q, e) ↦ rw e (elim (Result-cases (same_binding q r)) [
      | inr (c, f) ↦ rw f refl
      | inl (true, f) ↦ rw f refl
      | inl (false, f) ↦ rw f refl
    ])
  ]
  reuse-keeps r (row ∷ next ∷ rows) s = refl

  pub reserve_rows-keeps :
      (id : String) (r : Reservation) (wanted : Dict MeterKey ℕ) (rows : List ReservationRow)
      (s : Db)
      → id ≢ k
      → row_at k (reserve_rows namespace id r wanted rows s).1 ≡ row_at k s
  reserve_rows-keeps id r wanted [] s ne = admit-keeps id r wanted s ne
  reserve_rows-keeps id r wanted (row ∷ rows) s ne = reuse-keeps r (row ∷ rows) s

  pub reserve-keeps :
      (id : String) (r : Reservation) (s : Db)
      → id ≢ k
      → row_at k (reserve namespace id r s).1 ≡ row_at k s
  unfolding reserve transaction
  reserve-keeps id r s ne = elim (Result-cases (amounts r.reserved)) [
    | inr (c, e) ↦ rw e refl
    | inl (wanted, e) ↦
        rw e (elim (Bool-cases (is_empty wanted || (not (is_held r.status) || is_some r.actual))) [
          | inl bad ↦ rw bad refl
          | inr good ↦ rw good (
              settle_with-keeps s _ (
                reserve_rows-keeps id r wanted (keep (row_matches namespace id r) s.reservations) s
                  ne))
        ])
  ]

  pub settle_open-keeps :
      (id : String) (actual : List Measure) (used : Dict MeterKey ℕ) (now : String)
      (r : Reservation) (s : Db)
      → id ≢ k
      → row_at k (settle_open namespace id actual used [] now r s).1 ≡ row_at k s
  settle_open-keeps id actual used now r s ne = elim (Result-cases (amounts r.reserved)) [
    | inr (c, e) ↦ rw e refl
    | inl (m, e) ↦ rw e (elim (Bool-cases (keys_within used m)) [
      | inr outside ↦ rw outside refl
      | inl within ↦ rw within (written-keeps id (settled_with actual [] now r) s ne)
    ])
  ]

  pub settle_again-keeps :
      (used : Dict MeterKey ℕ) (r : Reservation) (before : Option (List Measure)) (s : Db)
      → row_at k (settle_again used r before s).1 ≡ row_at k s
  settle_again-keeps used r none s = refl
  settle_again-keeps used r (some before) s = elim (Result-cases (amounts before)) [
    | inr (c, e) ↦ rw e refl
    | inl (m, e) ↦ rw e (elim (Bool-cases (same_amounts m used)) [
      | inr other ↦ rw other refl
      | inl same ↦ rw same refl
    ])
  ]

  pub settle_found-keeps :
      (id : String) (actual : List Measure) (used : Dict MeterKey ℕ) (now : String)
      (r : Reservation) (status : ReservationStatus) (s : Db)
      → id ≢ k
      → row_at k (settle_found namespace id actual used [] now r status s).1 ≡ row_at k s
  settle_found-keeps id actual used now r settled s ne = settle_again-keeps used r r.actual s
  settle_found-keeps id actual used now r released s ne = refl
  settle_found-keeps id actual used now r held s ne = settle_open-keeps id actual used now r s ne
  settle_found-keeps id actual used now r uncertain s ne =
      settle_open-keeps id actual used now r s ne

  pub settle-keeps :
      (id : String) (actual : List Measure) (now : String) (s : Db)
      → id ≢ k
      → row_at k (settle namespace id actual [] now s).1 ≡ row_at k s
  unfolding settle transaction
  settle-keeps id actual now s ne = elim (Result-cases (amounts actual)) [
    | inr (c, e) ↦ rw e refl
    | inl (used, e) ↦ rw e (elim (Result-cases (find_reservation id namespace s)) [
      | inr (c, f) ↦ rw f refl
      | inl (r, f) ↦
          rw f (settle_with-keeps s _ (settle_found-keeps id actual used now r r.status s ne))
    ])
  ]

  pub mark_found-keeps :
      (id now : String) (r : Reservation) (status : ReservationStatus) (s : Db)
      → r.status ≡ status
      → id ≢ k
      → row_at k (mark_found namespace id now r s).1 ≡ row_at k s
  mark_found-keeps id now r uncertain s e ne = rw e refl
  mark_found-keeps id now r held s e ne = rw e (written-keeps id (uncertain_at now r) s ne)
  mark_found-keeps id now r settled s e ne = rw e refl
  mark_found-keeps id now r released s e ne = rw e refl

  pub mark_uncertain-keeps :
      (id now : String) (s : Db)
      → id ≢ k
      → row_at k (mark_uncertain namespace id now s).1 ≡ row_at k s
  unfolding mark_uncertain transaction
  mark_uncertain-keeps id now s ne = elim (Result-cases (find_reservation id namespace s)) [
    | inr (c, f) ↦ rw f refl
    | inl (r, f) ↦ rw f (settle_with-keeps s _ (mark_found-keeps id now r r.status s refl ne))
  ]
