-- ===== src/Scheduler/Counts.antt =====
-- Arithmetic of the table of slots: what `insert` and `remove` do to the sum of its counts.
use asterun.Prelude.{
  ℕ, ◌+◌, ◌-◌, ◌≤◌, String, ◌≡◌, true, false, some, List, [], ◌∷◌, ◌++◌, arith, Dict, lookup,
  insert, remove, values, contains, discard, ◌==◌, string_eq, ==_refl, lookup-insert, lookup-remove,
  remove-insert_new, insert-insert_back, Option-cases, inl, inr,
}
use asterun.Scheduler.{or_zero, sum, release_slot}

pub sum-values-insert :
    (b : String) (v : ℕ) (m : Dict String ℕ)
    → sum (values (insert b v m)) + or_zero (lookup b m) ≡ sum (values m) + v
unfolding lookup insert
sum-values-insert b v [] = omega arith
sum-values-insert b v ((c, w) ∷ m) = ground (arith, sum-values-insert b v m)

pub sum-values-remove :
    (b : String) (m : Dict String ℕ)
    → sum (values (remove b m)) + or_zero (lookup b m) ≤ sum (values m)
unfolding lookup remove
sum-values-remove b [] = omega arith
sum-values-remove b ((c, w) ∷ m) = ground (arith, sum-values-remove b m)

-- Giving a slot back never raises the sum, nor the count of any backend.
pub sum-values-release_slot :
    (b : String) (m : Dict String ℕ)
    → sum (values (release_slot m b (or_zero (lookup b m)))) ≤ sum (values m)
sum-values-release_slot b m =
    ground (arith, sum-values-remove b m, sum-values-insert b (or_zero (lookup b m) - 1) m)

pub lookup-release_slot_le :
    (b c : String) (m : Dict String ℕ)
    → or_zero (lookup c (release_slot m b (or_zero (lookup b m)))) ≤ or_zero (lookup c m)
lookup-release_slot_le b c m = ground (
  arith,
  lookup-remove b c m,
  lookup-insert b c (or_zero (lookup b m) - 1) m,
  string_eq.equal_iff b c,
)

-- No backend has an entry with the count 0.
abbrev pub Positive : Dict String ℕ → Type 0
Positive m = (b : String) (n : ℕ) → lookup b m ≡ some n → 1 ≤ n

pub Positive-insert :
    (b : String) (v : ℕ) (m : Dict String ℕ) → 1 ≤ v → Positive m → Positive (insert b v m)
Positive-insert b v m h p c n e = ground (arith, lookup-insert b c v m, p c n)

pub Positive-release_slot :
    (b : String) (m : Dict String ℕ)
    → Positive m
    → Positive (release_slot m b (or_zero (lookup b m)))
Positive-release_slot b m p c n e =
    ground (arith, lookup-remove b c m, lookup-insert b c (or_zero (lookup b m) - 1) m, p c n)

-- Taking a slot and giving it back restores the very table.
pub release_slot-insert :
    (b : String) (m : Dict String ℕ)
    → Positive m
    → release_slot
        (insert b (or_zero (lookup b m) + 1) m)
        b
        (or_zero (lookup b (insert b (or_zero (lookup b m) + 1) m)))
      ≡ m
release_slot-insert b m p = elim (Option-cases (lookup b m)) [
  | inl e ↦ ground (
    arith,
    e,
    lookup-insert b b (or_zero (lookup b m) + 1) m,
    ==_refl b,
    remove-insert_new b (or_zero (lookup b m) + 1) m e,
  )
  | inr (n, e) ↦ ground (
    arith,
    e,
    p b n e,
    lookup-insert b b (or_zero (lookup b m) + 1) m,
    ==_refl b,
    insert-insert_back b (or_zero (lookup b m) + 1) n m e,
  )
]

pub discard-append_new :
    (xs : List String) (a : String) → contains xs a ≡ false → discard (xs ++ a ∷ []) a ≡ xs
discard-append_new [] a h = ground (arith, ==_refl a)
discard-append_new (x ∷ xs) a h = ground (arith, discard-append_new xs a)

-- A value that a key has is among the values.
pub contains-values :
    (k w : String) (m : Dict String String) → lookup k m ≡ some w → contains (values m) w ≡ true
unfolding lookup
contains-values k w [] h = cc
contains-values k w ((j, v) ∷ m) h =
    ground (arith, contains-values k w m, string_eq.equal_iff j k, string_eq.equal_iff v w)

pub contains-append_self : (xs : List String) (a : String) → contains (xs ++ a ∷ []) a ≡ true
contains-append_self [] a = ground (arith, ==_refl a)
contains-append_self (x ∷ xs) a = ground (arith, contains-append_self xs a)

pub contains-append_le :
    (xs : List String) (a b : String) → contains xs b ≡ true → contains (xs ++ a ∷ []) b ≡ true
contains-append_le [] a b h = cc
contains-append_le (x ∷ xs) a b h = ground (arith, contains-append_le xs a b)

pub contains-discard_ne :
    (xs : List String) (a b : String) → (a == b) ≡ false → contains (discard xs a) b ≡ contains xs b
contains-discard_ne [] a b h = ground arith
contains-discard_ne (x ∷ xs) a b h = ground (
  arith,
  contains-discard_ne xs a b,
  string_eq.equal_iff x a,
  string_eq.equal_iff x b,
  string_eq.equal_iff a b,
)

pub contains-discard_self : (xs : List String) (a : String) → contains (discard xs a) a ≡ false
contains-discard_self [] a = ground arith
contains-discard_self (x ∷ xs) a = ground (arith, contains-discard_self xs a)
