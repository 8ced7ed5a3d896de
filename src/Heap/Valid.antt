-- ===== src/Heap/Valid.antt =====
-- The invariant of the allocator: the blocks in use lie below `heap_top` and apart from one
-- another, and an entry is either in use or marked free.
use my_operating_system.Base.{
  ℕ, ◌+◌, ◌%◌, ◌^◌, ◌≤◌, ◌<◌, ◌≡◌, ◌≢◌, ◌⊎◌, inl, inr, refl, arith, some, true, ◌==◌, length,
  get_or, set, if◌then◌else◌, Bool-cases, length-set, get_or-set_self, get_or-set_ne,
  length-replicate, get_or-replicate,
}
use my_operating_system.Base.Bits.{bit_and_low}
use my_operating_system.Heap.{
  Entry, Heap, MemError, mem_init, ensure_init, max_entries, free_entry, entry_at, align, place,
  set_error,
}

-- An entry is free, or a block of some even, non-zero size at an even offset, below the top.
abbrev pub Fits : ℕ → Entry → Type 0
Fits top e =
    ((e.offset ≡ 0xFFFF) × (e.size ≡ 0))
    ⊎ ((0 < e.size) × (e.offset % 2 ≡ 0) × (e.size % 2 ≡ 0) × (e.offset + e.size ≤ top))

-- Two blocks in use do not overlap.
abbrev pub Apart : Entry → Entry → Type 0
Apart e f =
    (e.offset ≡ 0xFFFF)
    ⊎ (f.offset ≡ 0xFFFF)
    ⊎ (e.offset + e.size ≤ f.offset)
    ⊎ (f.offset + f.size ≤ e.offset)

pub record IsValid (h : Heap) : Type 0 where
  pub count : length h.table ≡ max_entries
  pub ready : h.initialized ≡ true
  pub even : h.heap_top % 2 ≡ 0
  pub small : h.heap_top < 2 ^ 16
  pub fits : (i : ℕ) → Fits h.heap_top (entry_at h i)
  pub apart : (i j : ℕ) → i ≢ j → Apart (entry_at h i) (entry_at h j)

-- Before the first call nothing is asked of the memory that will hold the table.
abbrev pub IsSound : Heap → Type 0
IsSound h = h.initialized ≡ true → IsValid h

pub mem_init-IsValid : (h : Heap) → IsValid (mem_init h)
unfolding mem_init
mem_init-IsValid h = record {
  count = length-replicate max_entries free_entry;
  ready = refl;
  even = omega arith;
  small = omega arith;
  fits = λ i. ground (arith, get_or-replicate max_entries free_entry i);
  apart = λ i j ne. ground (arith, get_or-replicate max_entries free_entry i);
}

pub ensure_init-IsValid : (h : Heap) → IsSound h → IsValid (ensure_init h)
unfolding ensure_init
ensure_init-IsValid h s = elim (Bool-cases h.initialized) [
  | inl e ↦ simp e (s e)
  | inr e ↦ simp e (mem_init-IsValid h)
]

pub align_lem : (size : ℕ) → size < 2 ^ 16 → align size ≡ (size + size % 2) % 2 ^ 16
unfolding align
align_lem size h = ground (arith, bit_and_low 1 size)

pub set_error-IsValid : (e : MemError) (h : Heap) → IsValid h → IsValid (set_error e h)
unfolding set_error
set_error-IsValid e h v = record {
  count = v.count;
  ready = v.ready;
  even = v.even;
  small = v.small;
  fits = v.fits;
  apart = v.apart;
}

abbrev pub block : ℕ → ℕ → Entry
block off size = record { offset = off; size = size }

module _ (h : Heap) (i : ℕ) (e : Entry) (inside : i < length h.table) where
  pub entry_at-set :
      (j : ℕ) → get_or (set h.table i e) j free_entry ≡ (if j == i then e else entry_at h j)
  entry_at-set j =
      ground (
        arith,
        get_or-set_self h.table i e free_entry inside,
        get_or-set_ne h.table i j e free_entry,
      )

pub place-IsValid :
    (size : ℕ) (h : Heap) (i : ℕ)
    → IsValid h
    → 0 < size
    → size % 2 ≡ 0
    → h.heap_top + size < 2 ^ 16
    → i < length h.table
    → IsValid (place size (some i) h).1
unfolding place set_error
place-IsValid size h i v pos even below inside = record {
  count = ground (arith, v.count, length-set h.table i (block h.heap_top size));
  ready = v.ready;
  even = ground (arith, v.even);
  small = omega arith;
  fits = λ j. ground (arith, v.fits j, v.even, entry_at-set h i (block h.heap_top size) inside j);
  apart = λ j k ne. ground (
    arith,
    v.fits j,
    v.fits k,
    v.apart j k ne,
    entry_at-set h i (block h.heap_top size) inside j,
    entry_at-set h i (block h.heap_top size) inside k,
  );
}
