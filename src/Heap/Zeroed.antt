-- ===== src/Heap/Zeroed.antt =====
-- `zalloc`: a new block of zeros.
use my_operating_system.Base.{
  ℕ, ◌+◌, ◌%◌, ◌^◌, ◌≤◌, ◌<◌, ◌≡◌, ◌≢◌, ◌⊎◌, inl, inr, refl, ◌∙◌, arith, ◌==◌, false, u16,
}
use my_operating_system.Memory.{Memory, memset}
use my_operating_system.Memory.Blocks.{memset_lem}
use my_operating_system.Heap.{Heap, malloc, zalloc, ensure_init}
use my_operating_system.Heap.Valid.{IsValid, IsSound}
use my_operating_system.Heap.Malloc.{Refused, Placed, malloc_lem}

zalloc_null :
    (size : ℕ) (h : Heap) (m : Memory)
    → (malloc size h).0 ≡ 0
    → zalloc size h m ≡ (0, (malloc size h).1, m)
unfolding zalloc
zalloc_null size h m e = rw e refl

zalloc_block :
    (size : ℕ) (h : Heap) (m : Memory)
    → (malloc size h).0 ≢ 0
    → zalloc size h m
      ≡ ((malloc size h).0, (malloc size h).1, memset (malloc size h).0 0 (u16 size) m)
unfolding zalloc
zalloc_block size h m ne =
    let some_block : ((malloc size h).0 == 0) ≡ false = ground (arith, ne) in rw some_block refl

-- Under the conditions of `malloc`, `zalloc` keeps the allocator valid. It returns NULL as `malloc`
-- does and then changes no byte, or the block that `malloc` returns: every byte of the size asked
-- for is 0 there, and no other byte has changed.
pub zalloc_lem :
    (size : ℕ) (h : Heap) (m : Memory)
    → IsSound h
    → size < 2 ^ 16
    → (ensure_init h).heap_top + size + 1 < 2 ^ 16
    → let (p, h', m') = zalloc size h m in
      IsValid h'
      × (((p ≡ 0) × Refused (ensure_init h) h' size × ((x : ℕ) → m' x ≡ m x))
          ⊎ ((p ≢ 0)
              × Placed (ensure_init h) h' p (size + size % 2)
              × ((x : ℕ) → p ≤ x → x < p + size → m' x ≡ 0)
              × ((x : ℕ) → (x < p) ⊎ (p + size ≤ x) → m' x ≡ m x)))
zalloc_lem size h m s small room =
    let (valid, outcome) = malloc_lem size h s small room in
    let p = (malloc size h).0 in
    let cast : u16 size ≡ size = omega arith in
    elim outcome [
      | inl (e, refused) ↦ rw (zalloc_null size h m e) (valid, inl (refl, refused, λ x. refl))
      | inr (ne, _, placed) ↦ rw (zalloc_block size h m ne) (
        valid,
        inr (
          ne,
          placed,
          λ x lo hi. memset_lem p 0 (u16 size) m x ∙ ground (arith, lo, hi, cast),
          λ x out. memset_lem p 0 (u16 size) m x ∙ ground (arith, out, cast),
        ),
      )
    ]
