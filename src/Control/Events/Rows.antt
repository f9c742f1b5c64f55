-- ===== src/Control/Events/Rows.antt =====
-- Lists of numbered events: selecting, ordering, and runs of consecutive numbers.
use Prim.Native.Nat.{min}
use asterun.Prelude.{
  subst, Bool-cases, inl, inr, ℕ, zero, suc, ◌+◌, ◌≤◌, ◌≡◌, refl, List, [], ◌∷◌, ◌++◌, keep, take,
  length, arith, ltb,
}
use asterun.Control.Db.{Event}
use asterun.Control.Events.{by_sequence}

-- The events are numbered first + 1, first + 2, ..., last.
abbrev pub Run : ℕ → ℕ → List Event → Type 0
Run first last [] = first ≡ last
Run first last (e ∷ es) = (e.sequence ≡ first + 1) × Run (first + 1) last es

pub Run-le : (first last : ℕ) (es : List Event) → Run first last es → first ≤ last
Run-le first last [] h = omega arith
Run-le first last (e ∷ es) h = omega (arith, Run-le (first + 1) last es h.1)

pub Run-length : (first last : ℕ) (es : List Event) → Run first last es → first + length es ≡ last
Run-length first last [] h = omega arith
Run-length first last (e ∷ es) h = omega (arith, Run-length (first + 1) last es h.1)

pub Run-append :
    (first last : ℕ) (es : List Event) (e : Event)
    → Run first last es
    → e.sequence ≡ last + 1
    → Run first (last + 1) (es ++ e ∷ [])
Run-append first last [] e h n = ground arith
Run-append first last (d ∷ es) e h n = (h.0, Run-append (first + 1) last es e h.1 n)

keep_all :
    (first last after : ℕ) (es : List Event)
    → Run first last es
    → after ≤ first
    → keep (λ e. ltb after e.sequence) es ≡ es
keep_all first last after [] h p = refl
keep_all first last after (e ∷ es) h p = ground (arith, keep_all (first + 1) last after es h.1)

-- Dropping the numbers up to `after` leaves the run from there.
pub Run-keep :
    (first last after : ℕ) (es : List Event)
    → Run first last es
    → first ≤ after
    → after ≤ last
    → Run after last (keep (λ e. ltb after e.sequence) es)
Run-keep first last after [] h p q = omega arith
Run-keep first last after (e ∷ es) h p q = elim (Bool-cases (ltb after e.sequence)) [
  | inl above ↦
      let same : first ≡ after = ground arith in
      rw (keep_all first last after (e ∷ es) h (omega arith))
        (subst (λ n. Run n last (e ∷ es)) same h)
  | inr below ↦ rw below (Run-keep (first + 1) last after es h.1 (ground arith) q)
]

by_sequence-Run : (first last : ℕ) (es : List Event) → Run first last es → by_sequence es ≡ es
unfolding by_sequence
by_sequence-Run first last [] h = refl
by_sequence-Run first last (e ∷ []) h = refl
by_sequence-Run first last (e ∷ (f ∷ es)) h =
    ground (arith, by_sequence-Run (first + 1) last (f ∷ es) h.1)

-- The first `limit` events of a run are a run of that many, or all of it.
pub Run-take :
    (limit first last : ℕ) (es : List Event)
    → Run first last es
    → Run first (min (first + limit) last) (take limit es)
Run-take zero first last es h = omega (arith, Run-le first last es h)
Run-take (suc limit) first last [] h = omega arith
Run-take (suc limit) first last (e ∷ es) h = (
  h.0,
  subst (λ n. Run (first + 1) (min n last) (take limit es)) (omega arith)
      (Run-take limit (first + 1) last es h.1),
)

-- A page of a stream: what follows `after`, in order, up to the size of the page.
pub page-Run :
    (limit first last after : ℕ) (es : List Event)
    → Run first last es
    → first ≤ after
    → after ≤ last
    → Run after
        (min (after + limit) last)
        (take limit (by_sequence (keep (λ e. ltb after e.sequence) es)))
page-Run limit first last after es h p q =
    let kept = Run-keep first last after es h p q in
    rw (by_sequence-Run after last _ kept) (Run-take limit after last _ kept)
