-- ===== src/Heap/Realloc.antt =====
-- What `realloc` does with the bytes of a block.
use my_operating_system.Base.{
  ℕ, ◌+◌, ◌^◌, ◌≤◌, ◌<◌, ◌≡◌, ◌≢◌, ◌⊎◌, inl, inr, refl, ap, ◌∙◌, arith, some, true, false, length,
  u16, leb, ◌==◌, Bool-cases,
}
use my_operating_system.Memory.{Memory}
use my_operating_system.Memory.Blocks.{IsBytes, memcpy_lem}
use my_operating_system.Heap.{
  Heap, mem_ok, ensure_init, entry_at, find_offset, malloc, free, heap_base, offset_of, realloc,
  resize, move_block, set_error,
}
use my_operating_system.Heap.Search.{find_offset_unique}
use my_operating_system.Heap.Valid.{IsValid, set_error-IsValid}
use my_operating_system.Heap.Malloc.{malloc_lem}
use my_operating_system.Heap.Free.{free_lem}

pub ensured : (h : Heap) → IsValid h → ensure_init h ≡ h
unfolding ensure_init
ensured h v = let ready = v.ready in rw ready refl

-- A block in use is found by its address.
pub found :
    (h : Heap) (i src : ℕ)
    → IsValid h
    → i < length h.table
    → (entry_at h i).offset ≢ 0xFFFF
    → src ≡ heap_base + (entry_at h i).offset
    → find_offset (offset_of src) h.table 0 ≡ some i
unfolding offset_of
found h i src v inside used e =
    let at_i = v.fits i in
    let small = v.small in
    let off : (entry_at h i).offset ≡ offset_of src = omega (arith, at_i, small) in
    let first : (j : ℕ) → j < i → (entry_at h j).offset ≢ offset_of src = λ j lt e'.
      let at_j = v.fits j in let apart = v.apart j i (omega arith) in omega (arith, at_j, apart) in
    find_offset_unique (offset_of src) h.table 0 i inside off first ∙ ap some (omega arith)

-- The `old` bytes of a block at `src` are at `q`, and no byte elsewhere has changed.
pub record Copied (old src q : ℕ) (m m' : Memory) : Type 0 where
  pub same : (j : ℕ) → j < old → m' (q + j) ≡ m (src + j)
  pub kept : (x : ℕ) → (x < q) ⊎ (q + old ≤ x) → m' x ≡ m x

-- With no memory for a new block the old one is kept, with its bytes; else they are in the result.
abbrev pub Moved : ℕ → ℕ → Memory → ℕ × Heap × Memory → Type 0
Moved old src m (q, h, m') =
    IsValid h × (((q ≡ 0) × (m' ≡ m)) ⊎ ((q ≢ 0) × (h.last_error ≡ mem_ok) × Copied old src q m m'))

unmoved :
    (old src : ℕ) (h : Heap) (m : Memory)
    → IsValid h
    → src ≢ 0
    → Moved old src m (src, set_error mem_ok h, m)
unfolding set_error
unmoved old src h m v ne = (
  set_error-IsValid mem_ok h v,
  inr (ne, refl, record { same = λ j lt. refl; kept = λ x o. refl }),
)

move_block-Moved :
    (old src q : ℕ) (h : Heap) (m : Memory)
    → IsValid h
    → src ≢ 0
    → IsBytes m
    → (q ≡ 0) ⊎ (src + old ≤ q)
    → Moved old src m (move_block src old (q, h) m)
unfolding move_block
move_block-Moved old src q h m v ne b (inl e) =
    let z : (q == 0) ≡ true = ground (arith, e) in rw z (v, inl (refl, refl))
move_block-Moved old src q h m v ne b (inr le) =
    let z : (q == 0) ≡ false = ground (arith, le, ne) in
    let nz : q ≢ 0 = omega arith in
    let (same, kept) = memcpy_lem q src old m b (omega arith) in
    rw z (
      set_error-IsValid mem_ok (free src h) (free_lem src h v ne).0,
      inr (nz, unfold set_error in refl, record { same = same; kept = kept }),
    )

pub realloc-resize :
    (src size i : ℕ) (h : Heap) (m : Memory)
    → src ≢ 0
    → 0 < size
    → size < 2 ^ 16
    → find_offset (offset_of src) h.table 0 ≡ some i
    → realloc src size h m ≡ resize src size (some i) h m
unfolding realloc
realloc-resize src size i h m ne pos small e =
    let a : (src == 0) ≡ false = ground arith in
    let b : (u16 size == 0) ≡ false = ground arith in
    let c : u16 size ≡ size = omega arith in
    rw (a, b, e) (ap (λ (n : ℕ). resize src n (some i) h m) c)

module _ (size i src : ℕ) (h : Heap) (m : Memory) (v : IsValid h) (b : IsBytes m) where
  new_block :
      0 < size
      → size < 2 ^ 16
      → h.heap_top + size + 1 < 2 ^ 16
      → src + (entry_at h i).size ≤ heap_base + h.heap_top
      → IsValid (malloc size h).1
        × (((malloc size h).0 ≡ 0) ⊎ (src + (entry_at h i).size ≤ (malloc size h).0))
  new_block pos small room below =
      let same = ensured h v in
      let (v', r) = malloc_lem size h (λ e. v) small (rw same room) in
      (
        v',
        elim r [
          | inl (z, refused) ↦ inl z
          | inr (nz, ns, placed) ↦
              let p = placed.pointer in
              let top = ap (λ (t : Heap). t.heap_top) same in inr (omega (arith, p, top, below))
        ],
      )

  resize-Moved :
      0 < size
      → size < 2 ^ 16
      → h.heap_top + size + 1 < 2 ^ 16
      → src ≢ 0
      → src + (entry_at h i).size ≤ heap_base + h.heap_top
      → Moved (entry_at h i).size src m (resize src size (some i) h m)
  unfolding resize
  resize-Moved pos small room ne below = elim (Bool-cases (leb size (entry_at h i).size)) [
    | inl e ↦ rw e (unmoved (entry_at h i).size src h m v ne)
    | inr e ↦
        let (v', apart) = new_block pos small room below in
        rw e (
          move_block-Moved (entry_at h i).size src (malloc size h).0 (malloc size h).1 m v' ne b
            apart)
  ]

-- `realloc` of a block in use, for a size other than 0 and with room below 64 KiB, leaves the heap
-- valid. It returns NULL and changes no byte, or it reports success and the bytes of the block are
-- where its result points, while no byte elsewhere has changed.
pub realloc_lem :
    (src size i : ℕ) (h : Heap) (m : Memory)
    → IsValid h
    → IsBytes m
    → i < length h.table
    → (entry_at h i).offset ≢ 0xFFFF
    → src ≡ heap_base + (entry_at h i).offset
    → 0 < size
    → size < 2 ^ 16
    → h.heap_top + size + 1 < 2 ^ 16
    → Moved (entry_at h i).size src m (realloc src size h m)
realloc_lem src size i h m v b inside used e pos small room =
    let fits = v.fits i in
    let ne : src ≢ 0 = omega arith in
    rw (realloc-resize src size i h m ne pos small (found h i src v inside used e))
      (resize-Moved size i src h m v b pos small room ne (omega (arith, fits)))
