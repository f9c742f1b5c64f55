-- ===== src/Control/Events/Pruning.antt =====
-- `prune_events` keeps the streams numbered: it removes the oldest rows and raises the floor.
use asterun.Prelude.{
  ℕ, ◌≤◌, String, ◌≡◌, refl, inl, inr, Bool, true, false, not, ◌&&◌, List, [], ◌∷◌, keep, All,
  contains, arith, leb, ltb, ◌==◌, string_eq, pair_eq, if◌then◌else◌, lookup-insert, Bool-cases,
}
use asterun.Errors.{ok, err, invalid_request}
use asterun.Control.Db.{Db, Event}
use asterun.Control.Events.{stream_of, of_task, drop_through, prune_events}
use asterun.Control.Events.Rows.{Run, Run-keep}
use asterun.Control.Events.Numbering.{IsNumbered}

-- Every way in which `prune_events` ends; an error leaves the tables as they were.
pub prune_events-cases :
    (n t : String) (through : ℕ) (s : Db)
    → prune_events n t through s ≡ (
        if leb through (stream_of s n t).sequence
        then (if leb through (stream_of s n t).floor
            then (ok tt, s)
            else (ok tt, drop_through n t through s))
        else (err invalid_request, s))
unfolding prune_events
prune_events-cases n t through s = elim (Bool-cases (leb through (stream_of s n t).sequence)) [
  | inr beyond ↦ rw beyond
  | inl fits ↦ rw fits (elim (Bool-cases (leb through (stream_of s n t).floor)) [
    | inl done ↦ rw done
    | inr more ↦ rw more
  ])
]

stream_of-drop_through :
    (n t : String) (through : ℕ) (s : Db) (m u : String)
    → stream_of (drop_through n t through s) m u ≡ (
        if (n == m) && (t == u)
        then record { sequence = (stream_of s m u).sequence; floor = through }
        else stream_of s m u)
stream_of-drop_through n t through s m u = ground (
  arith,
  lookup-insert (n, t) (m, u) (record { sequence = (stream_of s n t).sequence; floor = through })
      s.event_streams,
  string_eq.equal_iff n m,
  string_eq.equal_iff t u,
)

keep-drop_same :
    (n t : String) (through : ℕ) (es : List Event)
    → keep (of_task n t) (keep (λ e. not (of_task n t e && leb e.sequence through)) es)
      ≡ keep (λ e. ltb through e.sequence) (keep (of_task n t) es)
keep-drop_same n t through [] = refl
keep-drop_same n t through (e ∷ es) = ground (arith, keep-drop_same n t through es)

keep-drop_other :
    (n t m u : String) (through : ℕ) (es : List Event)
    → (n == m) && (t == u) ≡ false
    → keep (of_task m u) (keep (λ e. not (of_task n t e && leb e.sequence through)) es)
      ≡ keep (of_task m u) es
keep-drop_other n t m u through [] h = refl
keep-drop_other n t m u through (e ∷ es) h = ground (
  arith,
  keep-drop_other n t m u through es h,
  string_eq.equal_iff e.namespace_id n,
  string_eq.equal_iff e.namespace_id m,
  string_eq.equal_iff e.task_id t,
  string_eq.equal_iff e.task_id u,
  string_eq.equal_iff n m,
  string_eq.equal_iff t u,
)

numbered-drop_through :
    (n t : String) (through : ℕ) (s : Db) (m u : String)
    → IsNumbered s
    → (stream_of s n t).floor ≤ through
    → through ≤ (stream_of s n t).sequence
    → Run
        (stream_of (drop_through n t through s) m u).floor
        (stream_of (drop_through n t through s) m u).sequence
        (keep (of_task m u) (drop_through n t through s).events)
numbered-drop_through n t through s m u h p q =
    rw (stream_of-drop_through n t through s m u) (elim (Bool-cases ((n == m) && (t == u))) [
      | inr apart ↦ rw apart (rw (keep-drop_other n t m u through s.events apart) (h.numbered m u))
      | inl same ↦
          let ns : n ≡ m = ground (arith, string_eq.equal_iff n m) in
          let ts : t ≡ u = ground (arith, string_eq.equal_iff t u) in
          rw same (
            rw (← ns, ← ts)
              (rw (keep-drop_same n t through s.events)
                (Run-keep _ _ through _ (h.numbered n t) p q)))
    ])

known-keep :
    (p : Event → Bool) (es : List Event) (ids : List (String × String))
    → All (λ d. contains ids (d.namespace_id, d.id) ≡ true) es
    → All (λ d. contains ids (d.namespace_id, d.id) ≡ true) (keep p es)
known-keep p [] ids h = tt
known-keep p (e ∷ es) ids h = elim (Bool-cases (p e)) [
  | inl in' ↦ rw in' (h.0, known-keep p es ids h.1)
  | inr out ↦ rw out (known-keep p es ids h.1)
]

drop_through-IsNumbered :
    (n t : String) (through : ℕ) (s : Db)
    → IsNumbered s
    → leb through (stream_of s n t).floor ≡ false
    → leb through (stream_of s n t).sequence ≡ true
    → IsNumbered (drop_through n t through s)
drop_through-IsNumbered n t through s h p q = record {
  numbered = λ m u. numbered-drop_through n t through s m u h (ground arith) (ground arith);
  bounded = λ m u. rw (stream_of-drop_through n t through s m u) (ground (arith, h.bounded m u));
  known = known-keep _ s.events s.event_ids h.known;
}

-- Whether the bound is accepted or refused, the streams stay numbered.
pub prune_events-IsNumbered :
    (n t : String) (through : ℕ) (s : Db) → IsNumbered s → IsNumbered (prune_events n t through s).1
prune_events-IsNumbered n t through s h =
    rw (prune_events-cases n t through s)
      (elim (Bool-cases (leb through (stream_of s n t).sequence)) [
        | inr beyond ↦ rw beyond h
        | inl fits ↦ rw fits (elim (Bool-cases (leb through (stream_of s n t).floor)) [
          | inl done ↦ rw done h
          | inr more ↦ rw more (drop_through-IsNumbered n t through s h more fits)
        ])
      ])
