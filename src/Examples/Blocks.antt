-- ===== src/Examples/Blocks.antt =====
-- The theorems on the allocator at concrete inputs.
use my_operating_system.Base.{
  ap, ℕ, ◌+◌, ◌-◌, ◌%◌, ◌^◌, ◌≤◌, ◌<◌, ◌≡◌, ◌≢◌, ◌⊎◌, inr, refl, arith, false, [], length,
}
use my_operating_system.Memory.{Memory}
use my_operating_system.Heap.{
  Entry, zalloc, realloc, Heap, mem_ok, invalid_ptr, malloc, free, ensure_init, mem_init,
  malloc_ready, align, find_offset, place, entry_at, offset_of, heap_base,
}
use my_operating_system.Heap.Valid.{IsValid, IsSound, block, mem_init-IsValid}
use my_operating_system.Heap.Malloc.{Refused, Placed, malloc_lem}
use my_operating_system.Heap.Zeroed.{zalloc_lem}
use my_operating_system.Heap.Free.{Released, free_lem, free-malloc}
use my_operating_system.Heap.Grow.{Regrown, realloc-Regrown}
use my_operating_system.Heap.Wrap.{malloc_overlap}

abbrev pub zeroes : Memory
zeroes _ = 0

-- Memory before the first call of the allocator.
abbrev pub start : Heap
start = record { table = []; heap_top = 0; initialized = false; last_error = mem_ok }

start-IsSound : IsSound start
start-IsSound e = absurd (cc)

start_room : (ensure_init start).heap_top + 6 + 1 < 2 ^ 16
unfolding ensure_init mem_init
start_room = omega arith

malloc_lem_example :
    IsValid (malloc 6 start).1
    × ((((malloc 6 start).0 ≡ 0) × Refused (ensure_init start) (malloc 6 start).1 6)
        ⊎ (((malloc 6 start).0 ≢ 0)
            × (◌≢◌ {A = ℕ} 6 0)
            × Placed (ensure_init start) (malloc 6 start).1 (malloc 6 start).0 (6 + 6 % 2)))
malloc_lem_example = malloc_lem 6 start start-IsSound (omega arith) start_room

zalloc_lem_example :
    let (p, h', m') = zalloc 6 start (λ _. 1) in
    IsValid h'
    × (((p ≡ 0) × Refused (ensure_init start) h' 6 × ((x : ℕ) → m' x ≡ 1))
        ⊎ ((p ≢ 0)
            × Placed (ensure_init start) h' p (6 + 6 % 2)
            × ((x : ℕ) → p ≤ x → x < p + 6 → m' x ≡ 0)
            × ((x : ℕ) → (x < p) ⊎ (p + 6 ≤ x) → m' x ≡ 1)))
zalloc_lem_example = zalloc_lem 6 start (λ _. 1) start-IsSound (omega arith) start_room

start_pointer : (malloc 6 start).0 ≡ 0xF000
unfolding malloc malloc_ready align ensure_init mem_init find_offset place
start_pointer = refl

free_lem_example :
    IsValid (free 0xF008 (mem_init start))
    × ((free 0xF008 (mem_init start)).heap_top ≡ (mem_init start).heap_top)
    × (Released (mem_init start) (free 0xF008 (mem_init start)) (offset_of 0xF008)
        ⊎ (((i : ℕ)
              → i < length (mem_init start).table
              → (entry_at (mem_init start) i).offset ≢ offset_of 0xF008)
            × ((free 0xF008 (mem_init start)).table ≡ (mem_init start).table)
            × ((free 0xF008 (mem_init start)).last_error ≡ invalid_ptr)))
free_lem_example = free_lem 0xF008 (mem_init start) (mem_init-IsValid start) (omega arith)

free-malloc_example :
    ((j : ℕ)
      → entry_at (free (malloc 6 start).0 (malloc 6 start).1) j ≡ entry_at (ensure_init start) j)
    × ((free (malloc 6 start).0 (malloc 6 start).1).last_error ≡ mem_ok)
    × ((free (malloc 6 start).0 (malloc 6 start).1).heap_top
        ≡ (ensure_init start).heap_top + (6 + 6 % 2))
free-malloc_example =
    free-malloc 6 start start-IsSound (omega arith) start_room (omega (arith, start_pointer))

abbrev first_call : ℕ × Heap
first_call = malloc 40000 start

abbrev second_call : ℕ × Heap
second_call = malloc 30000 first_call.1

abbrev third_call : ℕ × Heap
third_call = malloc 16 second_call.1

malloc_overlap_example :
    (first_call.1.last_error ≡ mem_ok)
    × (second_call.1.last_error ≡ mem_ok)
    × (third_call.1.last_error ≡ mem_ok)
    × (entry_at third_call.1 0 ≡ block (first_call.0 - heap_base) 40000)
    × (entry_at third_call.1 2 ≡ block (third_call.0 - heap_base) 16)
    × (first_call.0 ≤ third_call.0)
    × (third_call.0 < first_call.0 + 40000)
malloc_overlap_example =
    malloc_overlap 40000 30000 16 start refl (omega arith) (omega arith) (omega arith) (omega arith)

abbrev one_block : Heap
one_block = (malloc 6 start).1

one_block-IsValid : IsValid one_block
one_block-IsValid = malloc_lem_example.0

one_block_entry : entry_at one_block 0 ≡ block 0 6
unfolding malloc malloc_ready align ensure_init mem_init find_offset place
one_block_entry = refl

one_block_top : one_block.heap_top ≡ 6
unfolding malloc malloc_ready align ensure_init mem_init find_offset place
one_block_top = refl

realloc-Regrown_example :
    Regrown 0xF000
      (entry_at one_block 0).size
      20
      one_block
      zeroes
      (realloc 0xF000 20 one_block zeroes)
realloc-Regrown_example =
    realloc-Regrown 0xF000 (entry_at one_block 0).size 20 one_block zeroes one_block-IsValid
      (λ a. omega arith)
      (inr (
        0,
        record {
          inside = omega (arith, one_block-IsValid);
          used = omega (arith, ap (λ (e : Entry). e.offset) one_block_entry);
          address = omega (arith, ap (λ (e : Entry). e.offset) one_block_entry);
          extent = refl;
        },
      ))
      (omega arith) (omega arith) (omega (arith, one_block_top))
