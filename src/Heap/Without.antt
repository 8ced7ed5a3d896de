-- ===== src/Heap/Without.antt =====
-- Which blocks are in use after a call of `free`.
use my_operating_system.Base.{
  ℕ, ◌+◌, ◌≤◌, ◌<◌, ◌≡◌, ◌≢◌, ◌⊎◌, inl, inr, ap, ◌∙◌, sym, arith, List, length, get_or,
}
use my_operating_system.Heap.{Heap, Entry, free_entry, entry_at, heap_base, free, offset_of}
use my_operating_system.Heap.Valid.{IsValid}
use my_operating_system.Heap.Free.{Released, free_lem}
use my_operating_system.Heap.Blocks.{Holds-kept, Live, Live-range}

-- An address at which a block may begin.
abbrev pub IsAddress : ℕ → Type 0
IsAddress p = (heap_base ≤ p) × (p < heap_base + 0xFFFF)

pub Live-IsAddress : (h : Heap) (p n : ℕ) → IsValid h → Live h p n → IsAddress p
Live-IsAddress h p n v live =
    let range = Live-range h v p n live in
    let even = v.even in
    let small = v.small in (omega (arith, range), omega (arith, range, even, small))

offset_of-address : (p : ℕ) → IsAddress p → (offset_of p ≢ 0xFFFF) × (p ≡ heap_base + offset_of p)
unfolding offset_of
offset_of-address p at = (omega (arith, at), omega (arith, at))

-- The blocks in use after are those in use before, but those at the addresses of `P`.
pub record Without (P : ℕ → Type 0) (h h' : Heap) : Type 0 where
  pub valid : IsValid h'
  pub kept : (t k : ℕ) → Live h t k → ¬ P t → Live h' t k
  pub gone : (t k : ℕ) → Live h' t k → Live h t k × (¬ P t)

module _ (h h' : Heap) (p : ℕ) (at : IsAddress p) (v : IsValid h) (v' : IsValid h') where
  Released-Without : Released h h' (offset_of p) → Without (λ t. t ≡ p) h h'
  Released-Without r = record {
    valid = v';
    kept = λ t k (i, l) ne.
        let other : i ≢ r.index = λ e. ne (
          l.address
          ∙ ap (λ (x : ℕ). heap_base + (entry_at h x).offset) e
          ∙ ap (λ (x : ℕ). heap_base + x) r.held
          ∙ sym (offset_of-address p at).1) in
        (i, Holds-kept h h' t k i (v'.count ∙ sym v.count) (r.others i other) l);
    gone = λ t k (i, l).
        let used = l.used in
        let other : i ≢ r.index = λ e.
          used (ap (λ (x : ℕ). (entry_at h' x).offset) e ∙ ap (λ (x : Entry). x.offset) r.holds) in
        let before = Holds-kept h' h t k i (v.count ∙ sym v'.count) (sym (r.others i other)) l in
        let apart = v.apart i r.index other in
        let fits = v.fits i in
        let fits' = v.fits r.index in
        let held = r.held in
        let address = before.address in
        let used' = before.used in
        let here = offset_of-address p at in
        ((i, before), λ e. omega (arith, e, apart, fits, fits', held, address, used', here));
  }

  missing-Without :
      ((i : ℕ) → i < length h.table → (entry_at h i).offset ≢ offset_of p)
      → h'.table ≡ h.table
      → Without (λ t. t ≡ p) h h'
  missing-Without none_there same =
      let entry : (i : ℕ) → entry_at h' i ≡ entry_at h i =
        λ i. ap (λ (table : List Entry). get_or table i free_entry) same in
      record {
        valid = v';
        kept = λ t k (i, l) ne. (i, Holds-kept h h' t k i (v'.count ∙ sym v.count) (entry i) l);
        gone = λ t k (i, l).
            let before = Holds-kept h' h t k i (v.count ∙ sym v'.count) (sym (entry i)) l in
            let here = offset_of-address p at in
            let address = before.address in
            let other = none_there i before.inside in
            ((i, before), λ e. omega (arith, e, here, address, other));
      }

-- `free` of NULL, or of an address in the heap.
pub free-Without :
    (p : ℕ) (h : Heap) → IsValid h → (p ≡ 0) ⊎ IsAddress p → Without (λ t. t ≡ p) h (free p h)
free-Without p h v (inl z) =
    let same : free p h ≡ h = unfold free in ground (arith, z) in
    rw same (record {
      valid = v;
      kept = λ t k live ne. live;
      gone = λ t k live. let range = Live-range h v t k live in (live, omega (arith, range, z));
    })
free-Without p h v (inr at) =
    let freed = free_lem p h v (omega (arith, at)) in
    elim freed.2 [
      | inl r ↦ Released-Without h (free p h) p at v freed.0 r
      | inr (none_there, same, _) ↦ missing-Without h (free p h) p at v freed.0 none_there same
    ]
