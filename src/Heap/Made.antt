-- ===== src/Heap/Made.antt =====
-- What `malloc` does for the holders of blocks.
use mathlib.Core.Path.{subst}
use my_operating_system.Base.{ℕ, ◌∙◌, ◌+◌, ◌%◌, ◌^◌, ◌≤◌, ◌<◌, ◌≡◌, ◌≢◌, ◌⊎◌, inl, inr, ap, arith}
use my_operating_system.Heap.{Heap, malloc, heap_base}
use my_operating_system.Heap.Valid.{IsValid}
use my_operating_system.Heap.Malloc.{malloc_lem, Placed}
use my_operating_system.Heap.Realloc.{ensured}
use my_operating_system.Heap.Blocks.{
  Live, Live-before, SameBlocks, same_table-SameBlocks, Live-placed, placed-Live,
}

-- What `malloc` has done for the holders of blocks.
pub record Made (h : Heap) (size q : ℕ) (h' : Heap) : Type 0 where
  pub extent : ℕ
  pub live : Live h' q extent
  pub large : size ≤ extent
  pub at_top : q ≡ heap_base + h.heap_top
  pub top : h'.heap_top ≡ h.heap_top + extent
  pub near : extent ≤ size + 1
  pub others : (t k : ℕ) → Live h t k → Live h' t k
  pub before : (t k : ℕ) → Live h' t k → Live h t k ⊎ (t ≡ q)

pub malloc-Made :
    (size : ℕ) (h : Heap)
    → IsValid h
    → size < 2 ^ 16
    → h.heap_top + size + 1 < 2 ^ 16
    → IsValid (malloc size h).1
      × ((((malloc size h).0 ≡ 0) × SameBlocks h (malloc size h).1)
          ⊎ (((malloc size h).0 ≢ 0) × Made h size (malloc size h).0 (malloc size h).1))
malloc-Made size h v small room =
    let same = ensured h v in
    let (v', made) = malloc_lem size h (λ _. v) small (rw same room) in
    (
      v',
      elim made [
        | inl (z, refused) ↦ inl (
          z,
          same_table-SameBlocks h (malloc size h).1
              (refused.same.0 ∙ ap (λ (g : Heap). g.table) same),
        )
        | inr (nz, pos, placed) ↦ inr (
          nz,
          placed-Made v' (
              subst (λ (g : Heap). Placed g (malloc size h).1 (malloc size h).0 (size + size % 2))
                same placed),
        )
      ],
    )
  where
    placed-Made :
        IsValid (malloc size h).1
        → Placed h (malloc size h).1 (malloc size h).0 (size + size % 2)
        → Made h size (malloc size h).0 (malloc size h).1
    placed-Made v' q = record {
      extent = size + size % 2;
      live = Live-placed h (malloc size h).1 (malloc size h).0 (size + size % 2) v v' q;
      large = omega arith;
      at_top = q.pointer;
      top = q.top;
      near = omega arith;
      others = placed-Live h (malloc size h).1 (malloc size h).0 (size + size % 2) v v' q;
      before = Live-before h (malloc size h).1 (malloc size h).0 (size + size % 2) q v v';
    }
