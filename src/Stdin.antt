-- ===== src/Stdin.antt =====
-- The line buffer between the keyboard and the tasks: kernel/stdin/stdin.c. A call that waits for
-- input that is not there returns `none`: the caller spins on `pause` until an interrupt brings
-- it.
pub mod Fifo
pub mod Line
use my_operating_system.Base.{
  ℕ, zero, suc, ◌+◌, ◌-◌, ◌*◌, ◌%◌, ◌^◌, Bool, Option, none, some, ltb, leb, ◌==◌, ◌&&◌,
  if◌then◌else◌, u8, u32,
}
use my_operating_system.Memory.{Memory, write, memcpy}
use my_operating_system.Heap.{Heap, malloc}

abbrev pub stdin_size : ℕ
stdin_size = 1024 * 1024

-- The address of the buffer.
abbrev pub stdin_base : ℕ
stdin_base = 0xD00000

pub record Stdin : Type 0 where
  pub memory : Memory
  pub in_count : ℕ
  pub out_count : ℕ
  pub peek_count : ℕ
  pub new_line_count : ℕ

abbrev pub char_at : Stdin → ℕ → ℕ
char_at s i = s.memory (stdin_base + i)

unfoldable pub stdin_insert : ℕ → Stdin → Stdin
stdin_insert c s =
    if ltb s.in_count stdin_size
    then (if c == 0 then s else record s {
      memory = write s.memory (stdin_base + s.in_count) c;
      in_count = s.in_count + 1;
      new_line_count = if c == 10 then u32 (s.new_line_count + 1) else s.new_line_count;
    })
    else s

-- Lines 40 to 44.
unfoldable pub advance : Stdin → Stdin
advance s = record s {
  out_count = s.out_count + 1;
  new_line_count =
      if char_at s s.out_count == 10 && ltb 0 s.new_line_count
      then s.new_line_count - 1
      else s.new_line_count;
}

unfoldable pub read_char : Stdin → Option (ℕ × Stdin)
unfolding advance
read_char s = if leb s.in_count s.out_count then none else some (char_at s s.out_count, advance s)

unfoldable pub peek_char : Stdin → Option (ℕ × Stdin)
peek_char s =
    if leb s.in_count s.peek_count
    then none
    else some (char_at s s.peek_count, record s { peek_count = s.peek_count + 1 })

-- Lines 66 to 75: the length of the first line from `at` on, `i` characters of which have been
-- seen and `n` are left; 0 if there is no newline.
unfoldable pub line_length : Memory → ℕ → ℕ → ℕ → ℕ
line_length m at i zero = 0
line_length m at i (suc n) =
    let rest = line_length m at (i + 1) n in if m (at + i) == 10 then i + 1 else rest

-- The result of `read_line`: the pointer, and the state of the allocator and of the buffer. Timer
-- interrupts may fall between any two statements, but `enter_critical` keeps other tasks out.
unfoldable pub read_line : Heap → Stdin → Option (ℕ × Heap × Stdin)
read_line h s =
    let len = line_length s.memory (stdin_base + s.out_count) 0 (s.in_count - s.out_count) in
    let (dst, h') = malloc (len + 1) h in
    if ltb s.new_line_count 1
    then none
    else if len == 0
    then some (0, h, s)
    else if dst == 0
    then some (0, h', s)
    else some (
      dst,
      h',
      record s {
        memory = write (memcpy dst (stdin_base + s.out_count) len s.memory) (dst + len) 0;
        out_count = s.out_count + len;
        new_line_count = if ltb 0 s.new_line_count then s.new_line_count - 1 else s.new_line_count;
      },
    )
