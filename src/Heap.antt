-- ===== src/Heap.antt =====
-- The allocator: kernel/MEMORY_MANAGMENT/memory_managment.c and its two headers.
-- The metadata table stands at 0xE000 and the heap at 0xF000. The table is kept as a list of its
-- entries beside the byte memory, since its 4092 bytes end below HEAP_BASE. A pointer is its
-- address, and NULL is 0. A parameter of type `uint16_t` is cut to 16 bits where the call makes
-- the conversion.
pub mod Search
pub mod Valid
pub mod Malloc
pub mod Free
pub mod Realloc
pub mod Zeroed
pub mod Wrap
pub mod Blocks
pub mod Without
pub mod Made
pub mod Grow
use my_operating_system.Base.{
  ℕ, zero, suc, ◌+◌, ◌-◌, ◌*◌, ◌/◌, ◌%◌, ◌^◌, Bool, true, false, Option, none, some, List, [], ◌∷◌,
  ltb, leb, ◌==◌, if◌then◌else◌, u16, u32, sub_u32, bit_and, get_or, set, replicate,
}
use my_operating_system.Memory.{Memory, memset, memcpy}

abbrev pub table_base : ℕ
table_base = 0xE000

abbrev pub heap_base : ℕ
heap_base = 0xF000

abbrev pub heap_size : ℕ
heap_size = 0xF0000

abbrev pub heap_limit : ℕ
heap_limit = heap_base + heap_size

abbrev pub table_size : ℕ
table_size = 0x0FFF

abbrev pub max_entries : ℕ
max_entries = table_size / 4

-- `struct mem_entry`
pub record Entry : Type 0 where
  pub offset : ℕ
  pub size : ℕ

-- `mem_error_t`
pub data MemError : Type 0 where
  mem_ok not_initialized zero_size no_metadata heap_exhausted : MemError
  invalid_ptr realloc_not_found : MemError

-- The static variables of the file.
pub record Heap : Type 0 where
  pub table : List Entry
  pub heap_top : ℕ
  pub initialized : Bool
  pub last_error : MemError

unfoldable pub set_error : MemError → Heap → Heap
set_error e h = record h { last_error = e }

-- The offset 0xFFFF marks an entry that is not in use.
abbrev pub free_entry : Entry
free_entry = record { offset = 0xFFFF; size = 0 }

unfoldable pub mem_init : Heap → Heap
mem_init h = record h { table = replicate max_entries free_entry; heap_top = 0; initialized = true }

-- The search loops: the index of the first entry with this offset.
unfoldable pub find_offset : ℕ → List Entry → ℕ → Option ℕ
find_offset off [] i = none
find_offset off (e ∷ es) i = if e.offset == off then some i else find_offset off es (i + 1)

abbrev pub entry_at : Heap → ℕ → Entry
entry_at h i = get_or h.table i free_entry

-- Lines 46 to 48: sizes are rounded up to an even number, in 16 bits.
unfoldable pub align : ℕ → ℕ
align size = if bit_and size 1 == 1 then u16 (size + 1) else size

-- Lines 56 to 69: the first entry that is not in use takes the block at `heap_top`.
unfoldable pub place : ℕ → Option ℕ → Heap → ℕ × Heap
place size none h = (0, set_error no_metadata h)
place size (some i) h = (
  heap_base + h.heap_top,
  set_error mem_ok (record h {
    table = set h.table i (record { offset = h.heap_top; size = size });
    heap_top = u16 (h.heap_top + size);
  }),
)

-- `malloc` once the table is there.
unfoldable pub malloc_ready : ℕ → Heap → ℕ × Heap
unfolding align place set_error
malloc_ready size h =
    if size == 0
    then (0, set_error zero_size h)
    else if ltb heap_limit (heap_base + h.heap_top + align size)
    then (0, set_error heap_exhausted h)
    else place (align size) (find_offset 0xFFFF h.table 0) h

-- Lines 37 and 38.
unfoldable pub ensure_init : Heap → Heap
ensure_init h = if h.initialized then h else mem_init h

unfoldable pub malloc : ℕ → Heap → ℕ × Heap
malloc size h = malloc_ready (u16 size) (ensure_init h)

-- `(uint16_t)((uintptr_t)ptr - HEAP_BASE)`
unfoldable pub offset_of : ℕ → ℕ
offset_of ptr = u16 (sub_u32 ptr heap_base)

unfoldable pub release : Option ℕ → Heap → Heap
release none h = set_error invalid_ptr h
release (some i) h = set_error mem_ok (record h { table = set h.table i free_entry })

unfoldable pub free : ℕ → Heap → Heap
unfolding offset_of release set_error
free ptr h = if ptr == 0 then h else release (find_offset (offset_of ptr) h.table 0) h

-- Lines 117 to 129: a new block, the old bytes copied to it, and the old block freed.
unfoldable pub move_block : ℕ → ℕ → ℕ × Heap → Memory → ℕ × Heap × Memory
move_block src old_size (dst, h) m =
    if dst == 0 then (0, h, m) else (dst, set_error mem_ok (free src h), memcpy dst src old_size m)

-- Lines 107 to 133, with the index that the search found.
unfoldable pub resize : ℕ → ℕ → Option ℕ → Heap → Memory → ℕ × Heap × Memory
resize src new_size none h m = (0, set_error realloc_not_found h, m)
resize src new_size (some i) h m =
    if leb new_size (entry_at h i).size
    then (src, set_error mem_ok h, m)
    else move_block src (entry_at h i).size (malloc new_size h) m

unfoldable pub realloc : ℕ → ℕ → Heap → Memory → ℕ × Heap × Memory
unfolding offset_of resize move_block set_error
realloc src size h m =
    let new_size = u16 size in
    if src == 0
    then (let (p, h') = malloc new_size h in (p, h', m))
    else if new_size == 0
    then (0, free src h, m)
    else resize src new_size (find_offset (offset_of src) h.table 0) h m

-- The zeroing loop runs over the size asked for, not the rounded one.
unfoldable pub zalloc : ℕ → Heap → Memory → ℕ × Heap × Memory
zalloc size h m =
    let (p, h') = malloc size h in if p == 0 then (0, h', m) else (p, h', memset p 0 (u16 size) m)
