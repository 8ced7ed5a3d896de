-- ===== src/Screen.antt =====
-- The text screen of the kernel: kernel/SCREEN_DRIVER/screen_driver.c. The state is the cursor and
-- the memory in which the video buffer lies. A string is the list of its bytes before the
-- terminating zero.
pub mod Cursor
use my_operating_system.Base.{
  ℕ, zero, suc, ◌+◌, ◌-◌, ◌*◌, ◌%◌, List, [], ◌∷◌, ltb, leb, ◌==◌, ◌&&◌, if◌then◌else◌, u8,
}
use my_operating_system.Memory.{Memory, write}

abbrev pub video_memory_base : ℕ
video_memory_base = 0xB8000

abbrev pub columns : ℕ
columns = 80

abbrev pub rows : ℕ
rows = 25

pub record Screen : Type 0 where
  pub cursor_x : ℕ
  pub cursor_y : ℕ
  pub memory : Memory

-- The loop of `clear_screen`, with `n` cells left at the address `a`.
unfoldable pub blank : ℕ → ℕ → Memory → Memory
blank a zero m = m
blank a (suc n) m = blank (a + 2) n (write (write m a b' ') (a + 1) 0x00)

unfoldable pub clear_screen : Screen → Screen
clear_screen s = record {
  cursor_x = 0;
  cursor_y = 0;
  memory = blank video_memory_base (rows * columns) s.memory;
}

-- The address `cur` of the cell under the cursor.
abbrev pub cell : Screen → ℕ
cell s = video_memory_base + (s.cursor_y * columns + s.cursor_x) * 2

unfoldable pub store_cell : ℕ → ℕ → ℕ → Memory → Memory
store_cell a c color m = write (write m a c) (a + 1) color

unfoldable pub next_row : Screen → Screen
next_row s = record s { cursor_x = 0; cursor_y = (s.cursor_y + 1) % rows }

-- `case 8`
unfoldable pub backspace : ℕ → Screen → Screen
backspace color s =
    let m = store_cell (cell s - 2) b' ' color s.memory in
    if s.cursor_x == 0 && ltb 0 s.cursor_y
    then record { cursor_x = columns - 1; cursor_y = s.cursor_y - 1; memory = m }
    else if ltb 0 s.cursor_x
    then record s { cursor_x = s.cursor_x - 1; memory = m }
    else record s { memory = m }

-- `case 9`
unfoldable pub tab : Screen → Screen
unfolding next_row
tab s =
    let x = u8 (s.cursor_x + (8 - s.cursor_x % 8)) in
    if leb columns x then next_row s else record s { cursor_x = x }

-- Lines 83 to 90: any other character.
unfoldable pub put_plain : ℕ → ℕ → Screen → Screen
put_plain c color s =
    let m = store_cell (cell s) c color s.memory in
    let x = (s.cursor_x + 1) % columns in
    if x == 0
    then record { cursor_x = 0; cursor_y = (s.cursor_y + 1) % rows; memory = m }
    else record s { cursor_x = x; memory = m }

unfoldable pub put_char : ℕ → ℕ → Screen → Screen
unfolding next_row backspace tab put_plain
put_char c color s =
    if c == 0
    then s
    else if c == 10
    then next_row s
    else if c == 13
    then record s { cursor_x = 0 }
    else if c == 8
    then backspace color s
    else if c == 9
    then tab s
    else put_plain c color s

unfoldable pub print_string : List ℕ → Screen → Screen
print_string [] s = s
print_string (c ∷ cs) s = print_string cs (put_char c 0x04 s)
