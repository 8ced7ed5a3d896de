-- ===== src/Heap/Free.antt =====
-- What `free` does, alone and after `malloc`.
use my_operating_system.Base.{
  ℕ, ◌+◌, ◌%◌, ◌^◌, ◌<◌, ◌≡◌, ◌≢◌, ◌⊎◌, inl, inr, refl, ◌∙◌, arith, some, length, Option-cases,
  length-set,
}
use native.Mathlib.Decide.{ℕ_discrete}
use my_operating_system.Heap.{
  Heap, mem_ok, invalid_ptr, ensure_init, free_entry, entry_at, find_offset, malloc, free, release,
  offset_of, set_error,
}
use my_operating_system.Heap.Search.{find_offset-some, find_offset-none}
use my_operating_system.Heap.Valid.{
  IsValid, IsSound, set_error-IsValid, ensure_init-IsValid, entry_at-set,
}
use my_operating_system.Heap.Malloc.{Placed, malloc_lem}

release-IsValid : (h : Heap) (i : ℕ) → IsValid h → i < length h.table → IsValid (release (some i) h)
unfolding release set_error
release-IsValid h i v inside = record {
  count = ground (arith, v.count, length-set h.table i free_entry);
  ready = v.ready;
  even = v.even;
  small = v.small;
  fits = λ j. ground (arith, v.fits j, entry_at-set h i free_entry inside j);
  apart = λ j k ne. ground (
    arith,
    v.apart j k ne,
    entry_at-set h i free_entry inside j,
    entry_at-set h i free_entry inside k,
  );
}

-- What a call of `free` has done with the entry that held the offset.
pub record Released (h h' : Heap) (off : ℕ) : Type 0 where
  pub index : ℕ
  pub inside : index < length h.table
  pub held : (entry_at h index).offset ≡ off
  pub holds : entry_at h' index ≡ free_entry
  pub others : (j : ℕ) → j ≢ index → entry_at h' j ≡ entry_at h j
  pub no_error : h'.last_error ≡ mem_ok

release-Released :
    (h : Heap) (off i : ℕ)
    → i < length h.table
    → (entry_at h i).offset ≡ off
    → Released h (release (some i) h) off
unfolding release set_error
release-Released h off i inside held = record {
  index = i;
  inside = inside;
  held = held;
  holds = ground (arith, entry_at-set h i free_entry inside i);
  others = λ j ne. ground (arith, entry_at-set h i free_entry inside j);
  no_error = refl;
}

free_search :
    (p : ℕ) (h : Heap) → p ≢ 0 → free p h ≡ release (find_offset (offset_of p) h.table 0) h
unfolding free
free_search p h ne = ground arith

-- `free` of any pointer but NULL keeps the allocator valid and gives no space back. It frees one
-- entry that holds the pointer's offset, and no other; where no entry holds it, the table is kept
-- and the error is MEM_ERR_INVALID_PTR.
pub free_lem :
    (p : ℕ) (h : Heap)
    → IsValid h
    → p ≢ 0
    → let h' = free p h in
      IsValid h'
      × (h'.heap_top ≡ h.heap_top)
      × (Released h h' (offset_of p)
          ⊎ (((i : ℕ) → i < length h.table → (entry_at h i).offset ≢ offset_of p)
              × (h'.table ≡ h.table)
              × (h'.last_error ≡ invalid_ptr)))
free_lem p h v ne = elim (Option-cases (find_offset (offset_of p) h.table 0)) [
  | inl e ↦
      rw (free_search p h ne, e)
        (unfold release set_error in
          (
            set_error-IsValid invalid_ptr h v,
            refl,
            inr (find_offset-none (offset_of p) h.table 0 e, refl, refl),
          ))
  | inr (j, e) ↦
      let (i, at, inside, held) = find_offset-some (offset_of p) h.table 0 j e in
      let same : j ≡ i = omega arith in
      rw (free_search p h ne, e, same)
        (
          release-IsValid h i v inside,
          unfold release set_error in refl,
          inl (release-Released h (offset_of p) i inside held),
        )
]

module _ (h h' : Heap) (p size : ℕ) (v : IsValid h) (v' : IsValid h') (q : Placed h h' p size) where
  -- No entry but the new one holds its offset.
  only_index : (j : ℕ) → (entry_at h' j).offset ≡ h.heap_top → j ≡ q.index
  only_index j e = elim (ℕ_discrete j q.index) [
    | yes same ↦ same
    | no ne ↦ absurd (ground (arith, v.fits j, v.even, q.others j ne))
  ]

  offset_of-placed : offset_of p ≡ h.heap_top
  unfolding offset_of
  offset_of-placed = omega (arith, v.small, q.pointer)

  -- The entry that held the block was marked free before.
  index_free : entry_at h q.index ≡ free_entry
  index_free = ground (arith, v.fits q.index, q.was_free.1)

  undone : Released h' (free p h') (offset_of p) → (j : ℕ) → entry_at (free p h') j ≡ entry_at h j
  undone r j =
      let same : r.index ≡ q.index = only_index r.index (r.held ∙ offset_of-placed) in
      elim (ℕ_discrete j q.index) [
        | yes e ↦ ground (arith, r.holds, index_free)
        | no ne ↦ ground (arith, r.others j, q.others j ne)
      ]

  free-placed :
      ((j : ℕ) → entry_at (free p h') j ≡ entry_at h j)
      × ((free p h').last_error ≡ mem_ok)
      × ((free p h').heap_top ≡ h.heap_top + size)
  free-placed =
      let freed = free_lem p h' v' (omega (arith, q.pointer)) in
      elim freed.2 [
        | inl r ↦ (undone r, r.no_error, freed.1 ∙ q.top)
        | inr r ↦ absurd (
            ground (arith, r.0 q.index, offset_of-placed, q.holds, v.count, v'.count, q.was_free.0))
      ]

-- Where `malloc` returns a block, `free` of it puts every entry of the table back as it was before
-- the two calls, without an error. The heap's top stays where `malloc` moved it.
pub free-malloc :
    (size : ℕ) (h : Heap)
    → IsSound h
    → size < 2 ^ 16
    → (ensure_init h).heap_top + size + 1 < 2 ^ 16
    → let (p, h') = malloc size h in
      p ≢ 0
      → ((j : ℕ) → entry_at (free p h') j ≡ entry_at (ensure_init h) j)
        × ((free p h').last_error ≡ mem_ok)
        × ((free p h').heap_top ≡ (ensure_init h).heap_top + (size + size % 2))
free-malloc size h s small room ne = elim (malloc_lem size h s small room).1 [
  | inl r ↦ absurd (ne r.0)
  | inr r ↦
      free-placed (ensure_init h) (malloc size h).1 (malloc size h).0 (size + size % 2)
        (ensure_init-IsValid h s) (malloc_lem size h s small room).0 r.2
]
