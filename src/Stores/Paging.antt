-- ===== src/Stores/Paging.antt =====
-- `_events` of src/asterun/capsule/assemble.py, which reads all events of a run page by page, over the
-- `list_events` of MemoryStore. The fuel counts the pages; `none` is a loop that is cut off.
use asterun.Prelude.{
  ℕ, zero, suc, ◌+◌, ◌≤◌, ◌<◌, String, Option, none, some, List, [], ◌∷◌, ◌++◌, keep, take, length,
  length-append, ltb, if◌then◌else◌, ◌≡◌, refl, sym, ap, ◌∙◌, subst, arith, Bool-cases, inl, inr,
}
use asterun.Prelude.Int.{ℤ, pos, negsuc, ltb_ℤ}
use asterun.Contracts.Events.{Event}
use asterun.Stores.Memory.{MemoryStore, bucket, list_events}
use asterun.Stores.Refinement.{Numbered}
use asterun.Stores.Refinement.Numbering.{event_after}

-- _PAGE_SIZE
abbrev pub page_size : ℕ
page_size = 100

-- `page[-1].seq`
abbrev pub last_sequence : Event → List Event → ℤ
last_sequence e [] = e.seq
last_sequence e (f ∷ es) = last_sequence f es

abbrev pub then_rest : List Event → Option (List Event) → Option (List Event)
then_rest page none = none
then_rest page (some rest) = some (page ++ rest)

-- `if ... last <= cursor: return`, or on from the last number
abbrev pub advance : (ℕ → Option (List Event)) → ℕ → List Event → ℤ → Option (List Event)
advance next cursor page (negsuc k) = some page
advance next cursor page (pos k) =
    let rest = next k in if ltb cursor k then then_rest page rest else some page

abbrev pub read_page : (ℕ → Option (List Event)) → ℕ → List Event → Option (List Event)
read_page next cursor [] = some []
read_page next cursor (e ∷ es) = advance next cursor (e ∷ es) (last_sequence e es)

-- the loop from a cursor
abbrev pub events_from : (ℕ → List Event) → ℕ → ℕ → Option (List Event)
events_from pages zero cursor = none
events_from pages (suc fuel) cursor = read_page (events_from pages fuel) cursor (pages cursor)

unfoldable pub all_events : String → ℕ → MemoryStore → Option (List Event)
all_events run fuel m = events_from (λ cursor. list_events run cursor page_size m) fuel 0

abbrev rest_after : ℕ → List Event → List Event
rest_after zero es = es
rest_after (suc n) [] = []
rest_after (suc n) (e ∷ es) = rest_after n es

-- the events after a cursor
abbrev later : ℕ → List Event → List Event
later cursor es = keep (λ e. ltb_ℤ (pos cursor) e.seq) es

take-rest_after : (n : ℕ) (es : List Event) → take n es ++ rest_after n es ≡ es
take-rest_after zero es = refl
take-rest_after (suc n) [] = refl
take-rest_after (suc n) (e ∷ es) = ap (λ r. e ∷ r) (take-rest_after n es)

length-rest_after : (n : ℕ) (es : List Event) → length (rest_after n es) ≤ length es
length-rest_after zero es = omega arith
length-rest_after (suc n) [] = omega arith
length-rest_after (suc n) (e ∷ es) = omega (arith, length-rest_after n es)

Numbered-after :
    (n : ℕ) (front rest : List Event)
    → Numbered n (front ++ rest)
    → Numbered (n + length front) rest
Numbered-after n [] rest h = subst (λ k. Numbered k rest) (omega arith) h
Numbered-after n (e ∷ front) rest h =
    subst (λ k. Numbered k rest) (omega arith) (Numbered-after (suc n) front rest h.1)

Numbered-take : (size n : ℕ) (es : List Event) → Numbered n es → Numbered n (take size es)
Numbered-take zero n es h = tt
Numbered-take (suc size) n [] h = tt
Numbered-take (suc size) n (e ∷ es) h = (h.0, Numbered-take size (suc n) es h.1)

append_assoc : (xs ys zs : List Event) → (xs ++ ys) ++ zs ≡ xs ++ (ys ++ zs)
append_assoc [] ys zs = refl
append_assoc (x ∷ xs) ys zs = ap (λ r. x ∷ r) (append_assoc xs ys zs)

later-all : (cursor n : ℕ) (es : List Event) → Numbered n es → cursor ≤ n → later cursor es ≡ es
later-all cursor n [] h l = refl
later-all cursor n (e ∷ es) h l =
    rw (event_after cursor n e h.0) (elim (Bool-cases (ltb cursor (suc n))) [
      | inl hit ↦ rw hit (ap (λ r. e ∷ r) (later-all cursor (suc n) es h.1 (omega arith)))
      | inr miss ↦ absurd (ground (arith, l, miss))
    ])

-- After the number of a list's last event stand the events that follow the list.
later-rest :
    (n : ℕ) (front rest : List Event)
    → Numbered n (front ++ rest)
    → later (n + length front) (front ++ rest) ≡ rest
later-rest n [] rest h = later-all (n + 0) n rest h (omega arith)
later-rest n (e ∷ front) rest h =
    rw (event_after (n + suc (length front)) n e h.0)
      (elim (Bool-cases (ltb (n + suc (length front)) (suc n))) [
        | inl hit ↦ absurd (ground (arith, hit))
        | inr miss ↦ rw miss (
            subst (λ k. later k (front ++ rest) ≡ rest) (omega arith)
              (later-rest (suc n) front rest h.1))
      ])

last_sequence-Numbered :
    (n : ℕ) (e : Event) (es : List Event)
    → Numbered n (e ∷ es)
    → last_sequence e es ≡ pos (n + length (e ∷ es))
last_sequence-Numbered n e [] h = h.0 ∙ ap pos (omega arith)
last_sequence-Numbered n e (f ∷ es) h =
    last_sequence-Numbered (suc n) f es h.1 ∙ ap pos (omega arith)

-- a page that ends at a later number goes on from there
advance-next :
    (next : ℕ → Option (List Event)) (cursor k : ℕ) (page rest : List Event) (last : ℤ)
    → last ≡ pos k
    → cursor < k
    → next k ≡ some rest
    → advance next cursor page last ≡ some (page ++ rest)
advance-next next cursor k page rest last e l h = rw (e, h) (ground (arith, l))

module _ (size : ℕ) (es : List Event) (numbered : Numbered 0 es) where
  abbrev pages : ℕ → List Event
  pages cursor = take (suc size) (later cursor es)

  pages-rest :
      (front rest : List Event) → es ≡ front ++ rest → pages (length front) ≡ take (suc size) rest
  pages-rest front rest e = ap (take (suc size)) (
      ap (later (length front)) e
      ∙ ap (λ k. later k (front ++ rest)) (omega arith)
      ∙ later-rest 0 front rest (subst (Numbered 0) e numbered))

  last_sequence-page :
      (front : List Event) (x : Event) (rest : List Event)
      → es ≡ front ++ x ∷ rest
      → last_sequence x (take size rest) ≡ pos (length (front ++ x ∷ take size rest))
  last_sequence-page front x rest e =
      last_sequence-Numbered (0 + length front) x (take size rest) (
        Numbered-take (suc size) (0 + length front) (x ∷ rest)
          (Numbered-after 0 front (x ∷ rest) (subst (Numbered 0) e numbered)))
      ∙ ap pos (omega (arith, length-append front (x ∷ take size rest)))

  split_page :
      (front : List Event) (x : Event) (rest : List Event)
      → es ≡ front ++ x ∷ rest
      → es ≡ (front ++ x ∷ take size rest) ++ rest_after size rest
  split_page front x rest e =
      e
      ∙ sym (
          append_assoc front (x ∷ take size rest) (rest_after size rest)
          ∙ ap (λ r. front ++ x ∷ r) (take-rest_after size rest))

  -- Enough fuel reads all that is left.
  events_from-rest :
      (fuel : ℕ) (front rest : List Event)
      → es ≡ front ++ rest
      → length rest < fuel
      → events_from pages fuel (length front) ≡ some rest
  events_from-rest zero front rest e l = absurd (omega (arith, l))
  events_from-rest (suc fuel) front [] e l =
      ap (read_page (events_from pages fuel) (length front)) (pages-rest front [] e)
  events_from-rest (suc fuel) front (x ∷ rest) e l =
      ap (read_page (events_from pages fuel) (length front)) (pages-rest front (x ∷ rest) e)
      ∙ advance-next (events_from pages fuel) (length front) (length (front ++ x ∷ take size rest))
          (x ∷ take size rest) (rest_after size rest) (last_sequence x (take size rest))
          (last_sequence-page front x rest e)
          (omega (arith, length-append front (x ∷ take size rest)))
          (events_from-rest fuel (front ++ x ∷ take size rest) (rest_after size rest)
            (split_page front x rest e) (omega (arith, l, length-rest_after size rest)))
      ∙ ap (λ r. some (x ∷ r)) (take-rest_after size rest)

-- The loop ends: on a run whose events are numbered from 1 without a gap, more fuel than there are events
-- reads them all, in their order.
pub all_events-bucket :
    (run : String) (fuel : ℕ) (m : MemoryStore)
    → Numbered 0 (bucket run m)
    → length (bucket run m) < fuel
    → all_events run fuel m ≡ some (bucket run m)
unfolding all_events list_events
all_events-bucket run fuel m numbered l =
    events_from-rest 99 (bucket run m) numbered fuel [] (bucket run m) refl l
