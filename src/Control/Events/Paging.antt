-- ===== src/Control/Events/Paging.antt =====
-- What a client reads with `events`: pages without gaps, and cursors that are refused.
use Prim.Native.Nat.{min}
use asterun.Prelude.{
  ℕ, ◌+◌, ◌≤◌, String, ◌≡◌, refl, ◌∙◌, inl, inr, Bool, false, not, ◌&&◌, ◌||◌, List, [], ◌∷◌, take,
  keep, arith, leb, ltb, string_eq, if◌then◌else◌, Bool-cases,
}
use asterun.Errors.{ok, err, cursor_expired, invalid_request}
use asterun.Control.Db.{Db, Event, max_int}
use asterun.Control.Events.{stream_of, of_task, events, by_sequence}
use asterun.Control.Events.Rows.{Run, page-Run}
use asterun.Control.Events.Numbering.{IsNumbered}

abbrev rows_after : String → String → ℕ → Db → List Event
rows_after n t after s = by_sequence (keep (λ e. of_task n t e && ltb after e.sequence) s.events)

-- `events` past its first check, in one expression.
pub events-cases :
    (n t : String) (after limit : ℕ) (s : Db)
    → after ≤ max_int
    → 1 ≤ limit
    → limit ≤ 10000
    → events n t after limit s ≡ (
        if ltb after (stream_of s n t).floor
        then (err cursor_expired, s)
        else if ltb (stream_of s n t).sequence after
        then (err invalid_request, s)
        else (ok (take limit (rows_after n t after s)), s))
unfolding events
events-cases n t after limit s a b c =
    let in_range : not (leb after max_int) || not (leb 1 limit && leb limit 10000) ≡ false =
      ground arith in
    rw in_range (elim (Bool-cases (ltb after (stream_of s n t).floor)) [
      | inl old ↦ rw old
      | inr kept ↦ rw kept (elim (Bool-cases (ltb (stream_of s n t).sequence after)) [
        | inl future ↦ rw future
        | inr past ↦ rw past
      ])
    ])

keep-and : (p q : Event → Bool) (es : List Event) → keep (λ e. p e && q e) es ≡ keep q (keep p es)
keep-and p q [] = refl
keep-and p q (e ∷ es) = ground (arith, keep-and p q es)

-- From a cursor inside the retained window a page holds the events after it, numbered without a gap
-- from the cursor on: as many as the page size, or all that there are. The tables do not change.
pub events_page :
    (n t : String) (after limit : ℕ) (s : Db)
    → IsNumbered s
    → (stream_of s n t).floor ≤ after
    → after ≤ (stream_of s n t).sequence
    → 1 ≤ limit
    → limit ≤ 10000
    → (page : List Event) × (events n t after limit s ≡ (ok page, s))
      × Run after (min (after + limit) (stream_of s n t).sequence) page
events_page n t after limit s h p q a b = (
  take limit (rows_after n t after s),
  events-cases n t after limit s (omega (arith, h.bounded n t)) a b ∙ ground arith,
  rw (keep-and (of_task n t) (λ e. ltb after e.sequence) s.events)
      (page-Run limit _ _ after _ (h.numbered n t) p q),
)
