-- ===== src/Heap/Wrap.antt =====
-- The heap's top is a `uint16_t`, while the heap is 0xF0000 bytes long.
use my_operating_system.Base.{
  ℕ, ◌+◌, ◌-◌, ◌%◌, ◌^◌, ◌≤◌, ◌<◌, ◌≡◌, ◌≢◌, refl, arith, true, false, u16, List, ◌∷◌, none, some,
  replicate, Option, ap,
}
use my_operating_system.Heap.{
  Entry, Heap, MemError, mem_ok, heap_exhausted, heap_base, malloc, mem_init, ensure_init,
  malloc_ready, find_offset, place, set_error, align, entry_at, free_entry,
}
use my_operating_system.Heap.Valid.{align_lem, block}
use my_operating_system.Heap.Malloc.{malloc_ready_search}

place-ne-exhausted :
    (size : ℕ) (o : Option ℕ) (h : Heap) → (place size o h).1.last_error ≢ heap_exhausted
unfolding place set_error
place-ne-exhausted size none h = cc
place-ne-exhausted size (some i) h = cc

-- Whatever the size and however full the heap is, `malloc` does not report MEM_ERR_HEAP_EXHAUSTED:
-- no `uint16_t` top reaches the limit that line 50 compares with.
pub malloc-ne-exhausted :
    (size : ℕ) (h : Heap)
    → (ensure_init h).heap_top < 2 ^ 16
    → (malloc size h).1.last_error ≢ heap_exhausted
unfolding malloc malloc_ready set_error
malloc-ne-exhausted size h top = ground (
  arith,
  align_lem (u16 size),
  place-ne-exhausted (align (u16 size)) (find_offset 0xFFFF (ensure_init h).table 0)
      (ensure_init h),
)

abbrev heap : List Entry → ℕ → MemError → Heap
heap t top e = record { table = t; heap_top = top; initialized = true; last_error = e }

malloc_even :
    (size : ℕ) (t : List Entry) (top : ℕ) (e : MemError)
    → top < 2 ^ 16
    → size < 2 ^ 16
    → size % 2 ≡ 0
    → size ≢ 0
    → malloc size (heap t top e) ≡ place size (find_offset 0xFFFF t 0) (heap t top e)
unfolding malloc ensure_init
malloc_even size t top e ht hs even pos =
    ground (arith, malloc_ready_search size (heap t top e), align_lem size)

module _ (a b c : ℕ) (rest : List Entry) (e : MemError) (ha : a < 2 ^ 16) (hb : b < 2 ^ 16)
    (hc : c < 2 ^ 16) (ea : a % 2 ≡ 0) (eb : b % 2 ≡ 0) (ec : c % 2 ≡ 0) (pa : a ≢ 0) (pb : b ≢ 0)
    (pc : c ≢ 0) (full : 2 ^ 16 ≤ a + b) where
  first :
      malloc a (heap (free_entry ∷ free_entry ∷ free_entry ∷ rest) 0 e)
      ≡ (heap_base, heap (block 0 a ∷ free_entry ∷ free_entry ∷ rest) a mem_ok)
  unfolding place set_error find_offset
  first = ground (arith, malloc_even a (free_entry ∷ free_entry ∷ free_entry ∷ rest) 0 e)

  second :
      malloc b (heap (block 0 a ∷ free_entry ∷ free_entry ∷ rest) a mem_ok)
      ≡ (heap_base + a, heap (block 0 a ∷ block a b ∷ free_entry ∷ rest) (a + b - 2 ^ 16) mem_ok)
  unfolding place set_error find_offset
  second = ground (arith, malloc_even b (block 0 a ∷ free_entry ∷ free_entry ∷ rest) a mem_ok)

  third : malloc c (heap (block 0 a ∷ block a b ∷ free_entry ∷ rest) (a + b - 2 ^ 16) mem_ok) ≡ (
    heap_base + (a + b - 2 ^ 16),
    heap
        (block 0 a ∷ block a b ∷ block (a + b - 2 ^ 16) c ∷ rest)
        (u16 (a + b - 2 ^ 16 + c))
        mem_ok,
  )
  unfolding place set_error find_offset
  third =
      ground
        (arith, malloc_even c (block 0 a ∷ block a b ∷ free_entry ∷ rest) (a + b - 2 ^ 16) mem_ok)

start :
    (a : ℕ) (h : Heap)
    → h.initialized ≡ false
    → malloc a h
      ≡ malloc a
          (heap (free_entry ∷ free_entry ∷ free_entry ∷ replicate 1020 free_entry) 0 h.last_error)
unfolding malloc ensure_init mem_init
start a h off = simp off

-- Three calls of `malloc` from the start, of even sizes, the first two of which make up 64 KiB or
-- more: all three succeed, nothing was freed, and the third block begins inside of the first.
pub malloc_overlap :
    (a b c : ℕ) (h : Heap)
    → h.initialized ≡ false
    → (a < 2 ^ 16) × (b < 2 ^ 16) × (c < 2 ^ 16)
    → (a % 2 ≡ 0) × (b % 2 ≡ 0) × (c % 2 ≡ 0)
    → (a ≢ 0) × (b ≢ 0) × (c ≢ 0)
    → 2 ^ 16 ≤ a + b
    → let (p, h₁) = malloc a h in
      let (q, h₂) = malloc b h₁ in
      let (r, h₃) = malloc c h₂ in
      (h₁.last_error ≡ mem_ok)
      × (h₂.last_error ≡ mem_ok)
      × (h₃.last_error ≡ mem_ok)
      × (entry_at h₃ 0 ≡ block (p - heap_base) a)
      × (entry_at h₃ 2 ≡ block (r - heap_base) c)
      × (p ≤ r)
      × (r < p + a)
malloc_overlap a b c h off small even pos full =
    rw
      (
        start a h off,
        first a b c rest h.last_error small.0 small.1 small.2 even.0 even.1 even.2 pos.0 pos.1 pos.2
            full,
        second a b c rest h.last_error small.0 small.1 small.2 even.0 even.1 even.2 pos.0 pos.1
            pos.2 full,
        third a b c rest h.last_error small.0 small.1 small.2 even.0 even.1 even.2 pos.0 pos.1 pos.2
            full,
      )
      (refl, refl, refl, refl, ap (λ (t : ℕ). block t c) (omega arith), omega arith, omega arith)
  where
    rest : List Entry
    rest = replicate 1020 free_entry
