-- ===== src/Heap/Malloc.antt =====
-- What `malloc` does on each of its paths.
use my_operating_system.Base.{
  ℕ, ◌+◌, ◌%◌, ◌^◌, ◌≤◌, ◌<◌, ◌≡◌, ◌≢◌, ◌⊎◌, inl, inr, refl, arith, none, some, ◌==◌, length,
  Bool-cases, u16, Option-cases,
}
use my_operating_system.Heap.{
  Heap, MemError, mem_ok, zero_size, no_metadata, ensure_init, heap_base, heap_limit, entry_at,
  find_offset, align, place, malloc_ready, malloc, set_error,
}
use my_operating_system.Heap.Search.{find_offset-some, find_offset-none}
use my_operating_system.Heap.Valid.{
  IsValid, IsSound, block, place-IsValid, set_error-IsValid, ensure_init-IsValid, align_lem,
  entry_at-set,
}

malloc_ready_zero : (h : Heap) → malloc_ready 0 h ≡ (0, set_error zero_size h)
unfolding malloc_ready
malloc_ready_zero h = refl

-- The heap check of line 50 cannot be met by 16-bit values, so the search decides.
pub malloc_ready_search :
    (size : ℕ) (h : Heap)
    → h.heap_top < 2 ^ 16
    → size < 2 ^ 16
    → size ≢ 0
    → malloc_ready size h ≡ place (align size) (find_offset 0xFFFF h.table 0) h
unfolding malloc_ready
malloc_ready_search size h top small pos = ground (arith, align_lem size small)

abbrev pub FreeAt : Heap → ℕ → Type 0
FreeAt h i = (i < length h.table) × ((entry_at h i).offset ≡ 0xFFFF)

abbrev pub NoneFree : Heap → Type 0
NoneFree h = (i : ℕ) → i < length h.table → (entry_at h i).offset ≢ 0xFFFF

search_cases :
    (h : Heap)
    → ((find_offset 0xFFFF h.table 0 ≡ none) × NoneFree h)
      ⊎ ((i : ℕ) × (find_offset 0xFFFF h.table 0 ≡ some i) × FreeAt h i)
search_cases h = elim (Option-cases (find_offset 0xFFFF h.table 0)) [
  | inl e ↦ inl (e, find_offset-none 0xFFFF h.table 0 e)
  | inr (j, e) ↦
      let (i, at, inside, holds) = find_offset-some 0xFFFF h.table 0 j e in
      let same : i ≡ j = omega arith in inr (i, rw same e, (inside, holds))
]

-- What one call of `malloc` that returns a block has done: the entry at `index` was free and holds
-- the new block, which is the next `size` bytes of the heap.
pub record Placed (h h' : Heap) (p size : ℕ) : Type 0 where
  pub index : ℕ
  pub was_free : FreeAt h index
  pub holds : entry_at h' index ≡ block h.heap_top size
  pub others : (j : ℕ) → j ≢ index → entry_at h' j ≡ entry_at h j
  pub pointer : p ≡ heap_base + h.heap_top
  pub top : h'.heap_top ≡ h.heap_top + size
  pub within : p + size ≤ heap_limit
  pub no_error : h'.last_error ≡ mem_ok

-- What a call that returns NULL has done: the error says why, and nothing else is changed.
pub record Refused (h h' : Heap) (size : ℕ) : Type 0 where
  pub same : (h'.table ≡ h.table) × (h'.heap_top ≡ h.heap_top)
  pub why :
      ((size ≡ 0) × (h'.last_error ≡ zero_size)) ⊎ (NoneFree h × (h'.last_error ≡ no_metadata))

place-Placed :
    (size : ℕ) (h : Heap) (i : ℕ)
    → FreeAt h i
    → h.heap_top + size < 2 ^ 16
    → let (p, h') = place size (some i) h in Placed h h' p size
unfolding place set_error
place-Placed size h i free room = record {
  index = i;
  was_free = free;
  holds = ground (arith, entry_at-set h i (block h.heap_top size) free.0 i);
  others = λ j ne. ground (arith, entry_at-set h i (block h.heap_top size) free.0 j);
  pointer = refl;
  top = omega arith;
  within = omega arith;
  no_error = refl;
}

-- The three results of `malloc_ready`, with what holds in each.
module _ (size : ℕ) (h : Heap) (v : IsValid h) (small : size < 2 ^ 16)
    (room : h.heap_top + size + 1 < 2 ^ 16) where
  abbrev Outcome : ℕ × Heap → Type 0
  Outcome (p, h') =
      IsValid h'
      × (((p ≡ 0) × Refused h h' size) ⊎ ((p ≢ 0) × (size ≢ 0) × Placed h h' p (align size)))

  rounded : align size ≡ size + size % 2
  rounded = omega (arith, align_lem size small)

  refused : (e : MemError) → Refused h (set_error e h) size → Outcome (0, set_error e h)
  refused e r = (set_error-IsValid e h v, inl (refl, r))

  placed : size ≢ 0 → (i : ℕ) → FreeAt h i → Outcome (place (align size) (some i) h)
  placed pos i free = (
    place-IsValid (align size) h i v (omega (arith, rounded, v.even))
        (omega (arith, rounded, v.even)) (omega (arith, rounded, v.even)) free.0,
    inr (
      unfold place in omega arith,
      pos,
      place-Placed (align size) h i free (omega (arith, rounded, v.even)),
    ),
  )

  searched : size ≢ 0 → Outcome (place (align size) (find_offset 0xFFFF h.table 0) h)
  searched pos = elim (search_cases h) [
    | inl (e, full) ↦ rw e (
        unfold place in
        refused no_metadata (record {
          same = unfold set_error in (refl, refl);
          why = inr (full, unfold set_error in refl);
        }))
    | inr (i, e, free) ↦ rw e (placed pos i free)
  ]

  zero_case : size ≡ 0 → Outcome (malloc_ready size h)
  zero_case e = rw malloc_ready-eq_zero (
      refused zero_size (record {
        same = unfold set_error in (refl, refl);
        why = inl (e, unfold set_error in refl);
      }))
    where
      malloc_ready-eq_zero : malloc_ready size h ≡ (0, set_error zero_size h)
      malloc_ready-eq_zero = rw e (malloc_ready_zero h)

  malloc_ready-Outcome : Outcome (malloc_ready size h)
  malloc_ready-Outcome = elim (Bool-cases (size == 0)) [
    | inl e ↦ zero_case (ground arith)
    | inr e ↦ rw (malloc_ready_search size h v.small small (ground arith)) (searched (ground arith))
  ]

-- A call of `malloc` on a sound heap, where the rounded size still fits below 64 KiB, keeps the
-- allocator valid. It returns NULL exactly for size 0 and when no metadata entry is free, with the
-- error for that and all else unchanged; otherwise it returns the next bytes of the heap, inside
-- of its limits, and records the block in an entry that was free, with the other entries kept.
pub malloc_lem :
    (size : ℕ) (h : Heap)
    → IsSound h
    → size < 2 ^ 16
    → (ensure_init h).heap_top + size + 1 < 2 ^ 16
    → let (p, h') = malloc size h in
      IsValid h'
      × (((p ≡ 0) × Refused (ensure_init h) h' size)
          ⊎ ((p ≢ 0) × (size ≢ 0) × Placed (ensure_init h) h' p (size + size % 2)))
unfolding malloc
malloc_lem size h s small room =
    rw (cast, ← rounded size (ensure_init h) v small room)
      (malloc_ready-Outcome size (ensure_init h) v small room)
  where
    v : IsValid (ensure_init h)
    v = ensure_init-IsValid h s

    cast : u16 size ≡ size
    cast = omega arith
