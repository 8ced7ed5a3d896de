-- ===== src/Heap/Search.antt =====
-- The linear search of the metadata table for an offset.
use my_operating_system.Base.{
  ℕ, zero, suc, ◌+◌, ◌<◌, ◌≡◌, ◌≢◌, arith, none, some, List, [], ◌∷◌, ◌==◌, length, get_or,
  Bool-cases, inl, inr,
}
use my_operating_system.Heap.{Entry, find_offset, free_entry}

-- The index that the search returns holds the offset.
pub find_offset-some :
    (off : ℕ) (es : List Entry) (k j : ℕ)
    → find_offset off es k ≡ some j
    → (i : ℕ) × (j ≡ k + i) × (i < length es) × ((get_or es i free_entry).offset ≡ off)
unfolding find_offset
find_offset-some off [] k j h = absurd (ground arith)
find_offset-some off (e ∷ es) k j h = elim (Bool-cases (e.offset == off)) [
  | inl eq ↦ (0, ground arith, ground arith, ground arith)
  | inr ne ↦
      let (i, at, inside, holds) = find_offset-some off es (k + 1) j (ground arith) in
      (suc i, omega arith, omega arith, holds)
]

-- Where one entry alone holds the offset, the search returns its index.
pub find_offset_unique :
    (off : ℕ) (es : List Entry) (k i : ℕ)
    → i < length es
    → (get_or es i free_entry).offset ≡ off
    → ((j : ℕ) → j < i → (get_or es j free_entry).offset ≢ off)
    → find_offset off es k ≡ some (k + i)
unfolding find_offset
find_offset_unique off [] k i h e first = absurd (omega arith)
find_offset_unique off (x ∷ es) k zero h e first = ground arith
find_offset_unique off (x ∷ es) k (suc i) h e first = ground (
  arith,
  first 0 (omega arith),
  find_offset_unique off es (k + 1) i (omega arith) e (λ j lt. first (suc j) (omega arith)),
)

-- A search that fails has seen every entry.
pub find_offset-none :
    (off : ℕ) (es : List Entry) (k : ℕ)
    → find_offset off es k ≡ none
    → (i : ℕ) → i < length es
    → (get_or es i free_entry).offset ≢ off
unfolding find_offset
find_offset-none off [] k h i lt = absurd (omega arith)
find_offset-none off (x ∷ es) k h zero lt = ground arith
find_offset-none off (x ∷ es) k h (suc i) lt = elim (Bool-cases (x.offset == off)) [
  | inl eq ↦ absurd (ground arith)
  | inr ne ↦ find_offset-none off es (k + 1) (ground arith) i (omega arith)
]
