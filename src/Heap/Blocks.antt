-- ===== src/Heap/Blocks.antt =====
-- The blocks in use as their holder sees them: an address and a size.
use my_operating_system.Base.{
  ℕ, ◌+◌, ◌^◌, ◌≤◌, ◌<◌, ◌≡◌, ◌≢◌, ◌⊎◌, inl, inr, refl, arith, length, sym, List, get_or, ◌∙◌, ap,
}
use native.Mathlib.Decide.{ℕ_discrete}
use my_operating_system.Heap.{
  Heap, Entry, MemError, invalid_ptr, free_entry, entry_at, heap_base, free, offset_of, set_error,
}
use my_operating_system.Heap.Valid.{IsValid}
use my_operating_system.Heap.Malloc.{Placed}
use my_operating_system.Heap.Free.{Released, free_lem}

-- The entry that holds a block of `n` bytes at `p`.
pub record Holds (h : Heap) (p n i : ℕ) : Type 0 where
  pub inside : i < length h.table
  pub used : (entry_at h i).offset ≢ 0xFFFF
  pub address : p ≡ heap_base + (entry_at h i).offset
  pub extent : n ≡ (entry_at h i).size

-- A block of `n` bytes at `p` is in use.
abbrev pub Live : Heap → ℕ → ℕ → Type 0
Live h p n = (i : ℕ) × Holds h p n i

module _ (h : Heap) (v : IsValid h) where
  pub Live-range :
      (p n : ℕ)
      → Live h p n
      → (heap_base ≤ p) × (0 < n) × (p + n ≤ heap_base + h.heap_top) × (p + n < heap_base + 2 ^ 16)
  Live-range p n (i, l) =
      let fits = v.fits i in
      let used = l.used in
      let at = l.address in
      let size = l.extent in
      let small = v.small in
      (
        omega (arith, at),
        omega (arith, fits, used, size),
        omega (arith, fits, used, at, size),
        omega (arith, fits, used, at, size, small),
      )

  pub Live-apart : (p n q k : ℕ) → Live h p n → Live h q k → p ≢ q → (p + n ≤ q) ⊎ (q + k ≤ p)
  Live-apart p n q k (i, l) (j, r) ne = elim (ℕ_discrete i j) [
    | yes same ↦
        absurd
          (ne (l.address ∙ ap (λ (t : ℕ). heap_base + (entry_at h t).offset) same ∙ sym r.address))
    | no other ↦
        let apart = v.apart i j other in
        let a = l.address in
        let b = r.address in
        let c = l.extent in
        let d = r.extent in
        let u = l.used in let w = r.used in omega (arith, apart, a, b, c, d, u, w)
  ]

-- A step that keeps the entries keeps the blocks.
pub Holds-kept :
    (h h' : Heap) (p n i : ℕ)
    → length h'.table ≡ length h.table
    → entry_at h' i ≡ entry_at h i
    → Holds h p n i
    → Holds h' p n i
Holds-kept h h' p n i same e l =
    let inside = l.inside in
    record {
      inside = omega (arith, same, inside);
      used = rw e l.used;
      address = rw e l.address;
      extent = rw e l.extent;
    }

pub Live-error : (e : MemError) (h : Heap) (p n : ℕ) → Live h p n → Live (set_error e h) p n
unfolding set_error
Live-error e h p n (i, l) = (i, Holds-kept h (set_error e h) p n i refl refl l)

module _ (h h' : Heap) (p size : ℕ) (v : IsValid h) (v' : IsValid h') (q : Placed h h' p size) where
  pub Live-placed : Live h' p size
  Live-placed =
      let holds = q.holds in
      let top = q.pointer in
      let small = v.small in
      let even = v.even in
      let free = q.was_free in
      let count = v.count in
      let count' = v'.count in
      (
        q.index,
        record {
          inside = omega (arith, free, count, count');
          used = rw holds (omega (arith, small, even));
          address = rw holds q.pointer;
          extent = rw holds refl;
        },
      )

  pub placed-Live : (t k : ℕ) → Live h t k → Live h' t k
  placed-Live t k (i, l) =
      let used = l.used in
      let free = q.was_free in
      let ne : i ≢ q.index = λ e. used (ap (λ (j : ℕ). (entry_at h j).offset) e ∙ free.1) in
      (i, Holds-kept h h' t k i (v'.count ∙ sym v.count) (q.others i ne) l)

offset_of-live :
    (h : Heap) (src n i : ℕ) → IsValid h → Holds h src n i → offset_of src ≡ (entry_at h i).offset
unfolding offset_of
offset_of-live h src n i v l =
    let fits = v.fits i in
    let small = v.small in
    let used = l.used in let at = l.address in omega (arith, fits, small, used, at)

-- What a call of `free` has done with the table.
abbrev pub Freed : Heap → Heap → ℕ → Type 0
Freed h h' off =
    Released h h' off
    ⊎ (((i : ℕ) → i < length h.table → (entry_at h i).offset ≢ off)
        × (h'.table ≡ h.table)
        × (h'.last_error ≡ invalid_ptr))

Freed-entry :
    (h h' : Heap) (src n j t k i : ℕ)
    → IsValid h
    → Holds h src n j
    → Freed h h' (offset_of src)
    → t ≢ src
    → Holds h t k i
    → entry_at h' i ≡ entry_at h i
Freed-entry h h' src n j t k i v s (inl r) ne l =
    let off = offset_of-live h src n j v s in
    let other : i ≢ r.index = λ e. ne (
      l.address
      ∙ ap (λ (x : ℕ). heap_base + (entry_at h x).offset) e
      ∙ ap (λ (x : ℕ). heap_base + x) (r.held ∙ off)
      ∙ sym s.address) in
    r.others i other
Freed-entry h h' src n j t k i v s (inr r) ne l =
    ap (λ (table : List Entry). get_or table i free_entry) r.1

-- `free` of one block keeps the others.
pub free-Live :
    (h : Heap) (src n : ℕ)
    → IsValid h
    → Live h src n
    → IsValid (free src h)
      × ((free src h).heap_top ≡ h.heap_top)
      × ((t k : ℕ) → t ≢ src → Live h t k → Live (free src h) t k)
free-Live h src n v live =
    let range = Live-range h v src n live in
    let freed = free_lem src h v (omega (arith, range)) in
    (
      freed.0,
      freed.1,
      λ t k ne (i, l). (
        i,
        Holds-kept h (free src h) t k i (freed.0.count ∙ sym v.count)
            (Freed-entry h (free src h) src n live.0 t k i v live.1 freed.2 ne l) l,
      ),
    )

module _ (h h' : Heap) (p size : ℕ) (q : Placed h h' p size) where
  -- A block in use after `malloc` was in use before, or is the new one.
  pub Live-before : IsValid h → IsValid h' → (t k : ℕ) → Live h' t k → Live h t k ⊎ (t ≡ p)
  Live-before v v' t k (i, l) = elim (ℕ_discrete i q.index) [
    | yes e ↦ inr (
        l.address
        ∙ ap (λ (j : ℕ). heap_base + (entry_at h' j).offset) e
        ∙ ap (λ (x : Entry). heap_base + x.offset) q.holds
        ∙ sym q.pointer)
    | no ne ↦ inl (i, Holds-kept h' h t k i (v.count ∙ sym v'.count) (sym (q.others i ne)) l)
  ]

pub error-Live : (e : MemError) (h : Heap) (p n : ℕ) → Live (set_error e h) p n → Live h p n
unfolding set_error
error-Live e h p n (i, l) = (i, Holds-kept (set_error e h) h p n i refl refl l)

-- The same blocks are in use.
abbrev pub SameBlocks : Heap → Heap → Type 0
SameBlocks h h' = ((t k : ℕ) → Live h t k → Live h' t k) × ((t k : ℕ) → Live h' t k → Live h t k)

pub same_table-SameBlocks : (h h' : Heap) → h'.table ≡ h.table → SameBlocks h h'
same_table-SameBlocks h h' same =
    let entry : (i : ℕ) → entry_at h' i ≡ entry_at h i =
      λ i. ap (λ (table : List Entry). get_or table i free_entry) same in
    let size = ap (λ (table : List Entry). length table) same in
    (
      λ t k (i, l). (i, Holds-kept h h' t k i size (entry i) l),
      λ t k (i, l). (i, Holds-kept h' h t k i (sym size) (sym (entry i)) l),
    )
