-- ===== src/Stores/Refinement/Numbering.antt =====
-- The events of a run in the two stores: the rows that are written of a numbered list.
use asterun.Prelude.{
  ℕ, zero, suc, ◌+◌, ◌≤◌, String, Bool, List, [], ◌∷◌, ◌++◌, keep, take, length, ltb, string_eq,
  ==_refl, ◌≡◌, refl, ap, ◌∙◌, arith, Bool-cases, inl, inr,
}
use asterun.Prelude.Int.{pos, ltb_ℤ}
use asterun.Errors.{ok}
use asterun.Json.{Python}
use asterun.Contracts.Events.{Event}
use asterun.Contracts.Events
use asterun.Contracts.Events.RoundTrip.{event_from_dict-to_dict}
use asterun.Stores.Memory.{last_of}
use asterun.Stores.Sqlite.{EventRow, max_sequence, by_seq, insert_row, after, payloads, read_all}
use asterun.Stores.Refinement.{sequence_of, event_row, event_rows, of_run, Numbered}

-- What a table's rows of one run say does not depend on the other rows.
pub max_sequence-keep :
    (id : String) (rows : List EventRow)
    → max_sequence id rows ≡ max_sequence id (keep (of_run id) rows)
max_sequence-keep id [] = refl
max_sequence-keep id (r ∷ rows) = ground (arith, max_sequence-keep id rows)

pub keep-after :
    (id : String) (cursor : ℕ) (rows : List EventRow)
    → keep (after id cursor) rows ≡ keep (λ r. ltb cursor r.seq) (keep (of_run id) rows)
keep-after id cursor [] = refl
keep-after id cursor (r ∷ rows) = ground (arith, keep-after id cursor rows)

pub keep-append {ℓ} :
    {A : Type ℓ} (test : A → Bool) (xs ys : List A)
    → keep test (xs ++ ys) ≡ keep test xs ++ keep test ys
keep-append test [] ys = refl
keep-append test (x ∷ xs) ys = elim (Bool-cases (test x)) [
  | inl hit ↦ rw hit (ap (λ r. x ∷ r) (keep-append test xs ys))
  | inr miss ↦ rw miss (keep-append test xs ys)
]

max_sequence-event_rows_cons :
    (id : String) (n : ℕ) (e : Event) (es : List Event)
    → Numbered n (e ∷ es)
    → max_sequence id (event_rows id (e ∷ es)) ≡ n + length (e ∷ es)
max_sequence-event_rows_cons id n e [] h = rw (h.0, ==_refl id) (ground arith)
max_sequence-event_rows_cons id n e (f ∷ es) h =
    rw (max_sequence-event_rows_cons id (suc n) f es h.1, h.0, ==_refl id) (ground arith)

-- The largest number of a run's rows is how many events it has.
pub max_sequence-event_rows :
    (id : String) (es : List Event) → Numbered 0 es → max_sequence id (event_rows id es) ≡ length es
max_sequence-event_rows id [] h = refl
max_sequence-event_rows id (e ∷ es) h = max_sequence-event_rows_cons id 0 e es h ∙ omega arith

pub last_of-Numbered : (n : ℕ) (es : List Event) → Numbered n es → last_of n es ≡ n + length es
last_of-Numbered n [] h = omega arith
last_of-Numbered n (e ∷ es) h = rw h.0 (last_of-Numbered (suc n) es h.1 ∙ omega arith)

insert_row-event_rows :
    (id : String) (test : Event → Bool) (n : ℕ) (r : EventRow) (es : List Event)
    → r.seq ≤ suc n
    → Numbered n es
    → insert_row r (event_rows id (keep test es)) ≡ r ∷ event_rows id (keep test es)
insert_row-event_rows id test n r [] l h = refl
insert_row-event_rows id test n r (e ∷ es) l h = elim (Bool-cases (test e)) [
  | inl hit ↦ rw (hit, h.0) (ground (arith, l))
  | inr miss ↦ rw miss (insert_row-event_rows id test (suc n) r es (omega arith) h.1)
]

row_after :
    (id : String) (cursor n : ℕ) (e : Event)
    → e.seq ≡ pos (suc n)
    → ltb cursor (sequence_of e.seq) ≡ ltb cursor (suc n)
row_after id cursor n e h = ap (λ i. ltb cursor (sequence_of i)) h

pub event_after :
    (cursor n : ℕ) (e : Event) → e.seq ≡ pos (suc n) → ltb_ℤ (pos cursor) e.seq ≡ ltb cursor (suc n)
event_after cursor n e h = ap (ltb_ℤ (pos cursor)) h ∙ ground arith

-- The rows after the cursor stand in order, and are those of the events after it.
pub by_seq-event_rows :
    (id : String) (cursor n : ℕ) (es : List Event)
    → Numbered n es
    → by_seq (keep (λ r. ltb cursor r.seq) (event_rows id es))
      ≡ event_rows id (keep (λ e. ltb_ℤ (pos cursor) e.seq) es)
by_seq-event_rows id cursor n [] h = refl
by_seq-event_rows id cursor n (e ∷ es) h = elim (Bool-cases (ltb cursor (suc n))) [
  | inl hit ↦
      rw (row_after id cursor n e h.0, hit, event_after cursor n e h.0, hit)
        (ap (insert_row (event_row id e)) (by_seq-event_rows id cursor (suc n) es h.1)
          ∙ insert_row-event_rows id (λ e. ltb_ℤ (pos cursor) e.seq) (suc n) (event_row id e) es
              (rw h.0 (omega arith)) h.1)
  | inr miss ↦
      rw (row_after id cursor n e h.0, miss, event_after cursor n e h.0, miss)
        (by_seq-event_rows id cursor (suc n) es h.1)
]

pub take-event_rows :
    (id : String) (size : ℕ) (es : List Event)
    → take size (event_rows id es) ≡ event_rows id (take size es)
take-event_rows id zero es = refl
take-event_rows id (suc size) [] = refl
take-event_rows id (suc size) (e ∷ es) = ap (λ r. event_row id e ∷ r) (take-event_rows id size es)

pub read_all-event_rows :
    (py : Python) (id : String) (es : List Event)
    → read_all (Events.from_dict py) (payloads (event_rows id es)) ≡ ok es
read_all-event_rows py id [] = refl
read_all-event_rows py id (e ∷ es) =
    rw (event_from_dict-to_dict py e, read_all-event_rows py id es) refl

pub Numbered-append :
    (n : ℕ) (es : List Event) (e : Event)
    → Numbered n es
    → e.seq ≡ pos (suc (n + length es))
    → Numbered n (es ++ e ∷ [])
Numbered-append n [] e h last = (last ∙ ap pos (omega arith), tt)
Numbered-append n (f ∷ es) e h last =
    (h.0, Numbered-append (suc n) es e h.1 (last ∙ ap pos (omega arith)))

pub event_rows-append :
    (id : String) (es : List Event) (e : Event)
    → event_rows id (es ++ e ∷ []) ≡ event_rows id es ++ event_row id e ∷ []
event_rows-append id [] e = refl
event_rows-append id (f ∷ es) e = ap (λ r. event_row id f ∷ r) (event_rows-append id es e)
