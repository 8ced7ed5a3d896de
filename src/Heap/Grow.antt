-- ===== src/Heap/Grow.antt =====
-- What `realloc` does for its caller and for the holders of the other blocks, when it is given a
-- block in use or NULL.
use native.Mathlib.Decide.{ℕ_discrete}
use my_operating_system.Base.{
  ℕ, ◌+◌, ◌^◌, ◌≤◌, ◌<◌, ◌≡◌, ◌≢◌, ◌⊎◌, inl, inr, refl, ap, arith, true, false, some, u16, leb,
  ◌==◌, Bool-cases,
}
use my_operating_system.Memory.{Memory}
use my_operating_system.Memory.Blocks.{IsBytes, memcpy_lem, memcpy-IsBytes}
use my_operating_system.Heap.{
  Heap, mem_ok, malloc, free, heap_base, realloc, resize, move_block, set_error,
}
use my_operating_system.Heap.Valid.{IsValid, set_error-IsValid}
use my_operating_system.Heap.Realloc.{found, realloc-resize}
use my_operating_system.Heap.Made.{Made, malloc-Made}
use my_operating_system.Heap.Without.{free-Without, Live-IsAddress}
use my_operating_system.Heap.Blocks.{
  Holds, Live, Live-range, Live-error, error-Live, SameBlocks, free-Live,
}

-- NULL, or a block in use.
abbrev pub Given : Heap → ℕ → ℕ → Type 0
Given h src cap = ((src ≡ 0) × (cap ≡ 0)) ⊎ Live h src cap

-- The block at `q` has taken the place of the one at `src`, of `cap` bytes: it has their bytes, and
-- no other block, and no byte below the old top or outside of the heap's first 64 KiB, has changed.
pub record Grown (src cap size : ℕ) (h : Heap) (m : Memory) (q : ℕ) (h' : Heap) (m' : Memory)
    : Type 0 where
  pub extent : ℕ
  pub live : Live h' q extent
  pub large : size ≤ extent
  pub position : (q ≡ src) ⊎ (heap_base + h.heap_top ≤ q)
  pub top : h'.heap_top ≤ h.heap_top + size + 1
  pub copied : (j : ℕ) → j < cap → m' (q + j) ≡ m (src + j)
  pub below : (x : ℕ) → x < heap_base + h.heap_top → m' x ≡ m x
  pub outside : (x : ℕ) → (x < heap_base) ⊎ (heap_base + 2 ^ 16 ≤ x) → m' x ≡ m x
  pub bytes : IsBytes m'
  pub others : (t k : ℕ) → t ≢ src → Live h t k → Live h' t k
  pub before : (t k : ℕ) → Live h' t k → (Live h t k × (t ≢ src)) ⊎ (t ≡ q)

-- The result is NULL, with every byte as it was, or the new block.
abbrev pub Regrown : (src cap size : ℕ) → Heap → Memory → ℕ × Heap × Memory → Type 0
Regrown src cap size h m (q, h', m') =
    IsValid h'
    × (((q ≡ 0) × (m' ≡ m) × SameBlocks h h') ⊎ ((q ≢ 0) × Grown src cap size h m q h' m'))

-- In place.
kept-Regrown :
    (src cap size : ℕ) (h : Heap) (m : Memory)
    → IsValid h
    → IsBytes m
    → Live h src cap
    → size ≤ cap
    → Regrown src cap size h m (src, set_error mem_ok h, m)
kept-Regrown src cap size h m v b live le =
    let range = Live-range h v src cap live in
    (
      set_error-IsValid mem_ok h v,
      inr (
        omega (arith, range),
        record {
          extent = cap;
          live = Live-error mem_ok h src cap live;
          large = le;
          position = inl refl;
          top = unfold set_error in omega arith;
          copied = λ j lt. refl;
          below = λ x lt. refl;
          outside = λ x o. refl;
          bytes = b;
          others = λ t k ne. Live-error mem_ok h t k;
          before = λ t k l. elim (ℕ_discrete t src) [
            | yes e ↦ inr e
            | no ne ↦ inl (error-Live mem_ok h t k l, ne)
          ];
        },
      ),
    )

-- With a new block.
move_block-Regrown :
    (src cap size q : ℕ) (h h' : Heap) (m : Memory)
    → IsValid h
    → IsValid h'
    → IsBytes m
    → Live h src cap
    → cap < size
    → (((q ≡ 0) × SameBlocks h h') ⊎ ((q ≢ 0) × Made h size q h'))
    → Regrown src cap size h m (move_block src cap (q, h') m)
unfolding move_block
move_block-Regrown src cap size q h h' m v v' b live lt (inl (e, blocks)) =
    let z : (q == 0) ≡ true = ground (arith, e) in rw z (v', inl (refl, refl, blocks))
move_block-Regrown src cap size q h h' m v v' b live lt (inr (ne, made)) =
    let z : (q == 0) ≡ false = ground (arith, ne) in
    let range = Live-range h v src cap live in
    let at = made.at_top in
    let top = made.top in
    let near = made.near in
    let small = v'.small in
    let large = made.large in
    let (same, kept) = memcpy_lem q src cap m b (inr (omega (arith, at, range))) in
    let without = free-Without src h' v' (inr (Live-IsAddress h src cap v live)) in
    let (v'', top', others) = free-Live h' src cap v' (made.others src cap live) in
    let apart : q ≢ src = omega (arith, at, range) in
    rw z (
      set_error-IsValid mem_ok (free src h') v'',
      inr (
        ne,
        record {
          extent = made.extent;
          live =
              Live-error mem_ok (free src h') q made.extent (others q made.extent apart made.live);
          large = made.large;
          position = inr (omega (arith, at));
          top = unfold set_error in omega (arith, top', top, near);
          copied = same;
          below = λ x lt. kept x (omega (arith, at));
          outside = λ x o. kept x (omega (arith, at, top, small, large));
          bytes = memcpy-IsBytes q src cap m b;
          others =
              λ t k ne l. Live-error mem_ok (free src h') t k (others t k ne (made.others t k l));
          before = λ t k l.
              let (l', ne) = without.gone t k (error-Live mem_ok (free src h') t k l) in
              elim (made.before t k l') [ inl old ↦ inl (old, ne) | inr e ↦ inr e ];
        },
      ),
    )

resize-Regrown :
    (src cap size i : ℕ) (h : Heap) (m : Memory)
    → IsValid h
    → IsBytes m
    → Holds h src cap i
    → size < 2 ^ 16
    → h.heap_top + size + 1 < 2 ^ 16
    → Regrown src cap size h m (resize src size (some i) h m)
unfolding resize
resize-Regrown src cap size i h m v b l small room =
    rw (← l.extent) (elim (Bool-cases (leb size cap)) [
      | inl e ↦ rw e (kept-Regrown src cap size h m v b (i, l) (ground (arith, e)))
      | inr e ↦
          let (v', made) = malloc-Made size h v small room in
          rw e (
            move_block-Regrown src cap size (malloc size h).0 h (malloc size h).1 m v v' b (i, l)
              (ground (arith, e)) made)
    ])

realloc_null :
    (size : ℕ) (h : Heap) (m : Memory)
    → size < 2 ^ 16
    → realloc 0 size h m ≡ ((malloc size h).0, (malloc size h).1, m)
unfolding realloc
realloc_null size h m small =
    let c : u16 size ≡ size = omega arith in ap (λ (n : ℕ). ((malloc n h).0, (malloc n h).1, m)) c

null-Regrown :
    (size : ℕ) (h : Heap) (m : Memory)
    → IsValid h
    → IsBytes m
    → size < 2 ^ 16
    → h.heap_top + size + 1 < 2 ^ 16
    → Regrown 0 0 size h m ((malloc size h).0, (malloc size h).1, m)
null-Regrown size h m v b small room =
    let (v', made) = malloc-Made size h v small room in
    (
      v',
      elim made [
        | inl (z, blocks) ↦ inl (z, refl, blocks)
        | inr (ne, made) ↦ inr (ne, made-Grown made)
      ],
    )
  where
    made-Grown :
        Made h size (malloc size h).0 (malloc size h).1
        → Grown 0 0 size h m (malloc size h).0 (malloc size h).1 m
    made-Grown made =
        let at = made.at_top in
        let top = made.top in
        let near = made.near in
        record {
          extent = made.extent;
          live = made.live;
          large = made.large;
          position = inr (omega (arith, at));
          top = omega (arith, top, near);
          copied = λ j lt. absurd (omega arith);
          below = λ x lt. refl;
          outside = λ x o. refl;
          bytes = b;
          others = λ t k ne. made.others t k;
          before = λ t k l. elim (made.before t k l) [
            | inl old ↦ let range = Live-range h v t k old in inl (old, omega (arith, range))
            | inr e ↦ inr e
          ];
        }

-- `realloc` of a block in use or of NULL, for a size other than 0 and with room below 64 KiB, leaves
-- the heap valid. It returns NULL, with every byte and the blocks in use as they were; or it returns a
-- block in use of at least that size, at the same address or behind all that were handed out before: it
-- has the bytes of the old block, the other blocks in use are those from before, and no byte below the
-- old top, and none outside of the heap's first 64 KiB, has changed.
pub realloc-Regrown :
    (src cap size : ℕ) (h : Heap) (m : Memory)
    → IsValid h
    → IsBytes m
    → Given h src cap
    → 0 < size
    → size < 2 ^ 16
    → h.heap_top + size + 1 < 2 ^ 16
    → Regrown src cap size h m (realloc src size h m)
realloc-Regrown src cap size h m v b (inl (z, e)) pos small room =
    rw (z, e, realloc_null size h m small) (null-Regrown size h m v b small room)
realloc-Regrown src cap size h m v b (inr (i, l)) pos small room =
    let range = Live-range h v src cap (i, l) in
    let ne : src ≢ 0 = omega (arith, range) in
    rw (realloc-resize src size i h m ne pos small (found h i src v l.inside l.used l.address))
      (resize-Regrown src cap size i h m v b l small room)
