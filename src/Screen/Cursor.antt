-- ===== src/Screen/Cursor.antt =====
-- The position of the cursor, and the bytes that `put_char` touches.
use my_operating_system.Base.{
  ℕ, ◌+◌, ◌-◌, ◌*◌, ◌%◌, ◌≤◌, ◌<◌, ◌≡◌, ◌≢◌, ◌⊎◌, ◌↔◌, inl, inr, arith, List, [], ◌∷◌, length,
}
use native.Mathlib.Decide.{ℕ_discrete}
use my_operating_system.Memory.{Memory, write}
use my_operating_system.Screen.{
  Screen, video_memory_base, columns, rows, cell, store_cell, put_char, print_string,
}

pub record OnScreen (s : Screen) : Type 0 where
  pub x : s.cursor_x < columns
  pub y : s.cursor_y < rows

-- The addresses of the 80 * 25 cells, two bytes each.
abbrev pub IsVideo : ℕ → Type 0
IsVideo a = (video_memory_base ≤ a) × (a < video_memory_base + 4000)

pub store_cell_lem :
    (a c color : ℕ) (m : Memory) (x : ℕ) → x ≢ a → x ≢ a + 1 → store_cell a c color m x ≡ m x
unfolding store_cell write
store_cell_lem a c color m x p q = ground arith

-- Every character leaves the cursor on the screen.
pub put_char-OnScreen : (c color : ℕ) (s : Screen) → OnScreen s → OnScreen (put_char c color s)
unfolding put_char
put_char-OnScreen c color s h = ground arith

pub put_char-IsVideo :
    (c color : ℕ) (s : Screen) (a : ℕ)
    → OnScreen s
    → (c ≢ 8) ⊎ (0 < s.cursor_y * columns + s.cursor_x)
    → (put_char c color s).memory a ≢ s.memory a
    → IsVideo a
unfolding put_char
put_char-IsVideo c color s a h p = ground (
  arith,
  store_cell_lem (cell s - 2) b' ' color s.memory a,
  store_cell_lem (cell s) c color s.memory a,
)

abbrev zeroes : Memory
zeroes _ = 0

-- A backspace at the top left corner stores a space before the video buffer.
backspace_below :
    (color : ℕ) (s : Screen)
    → s.cursor_x ≡ 0
    → s.cursor_y ≡ 0
    → (put_char 8 color s).memory (video_memory_base - 2) ≡ b' '
unfolding put_char store_cell write
backspace_below color s hx hy = ground arith

-- From a cursor on the screen, a character leaves every byte outside of the video buffer, whatever
-- the memory holds, exactly if it is no backspace or the cursor is not in the top left corner.
pub put_char-stays_iff :
    (c color : ℕ) (s : Screen)
    → OnScreen s
    → ((m : Memory) (a : ℕ)
        → (put_char c color (record s { memory = m })).memory a ≢ m a
        → IsVideo a)
      ↔ ((c ≢ 8) ⊎ (0 < s.cursor_y * columns + s.cursor_x))
put_char-stays_iff c color s h = (
  λ stays. elim (ℕ_discrete c 8) [
    | no ne ↦ inl ne
    | yes e ↦ elim (ℕ_discrete (s.cursor_y * columns + s.cursor_x) 0) [
      | no ne ↦ inr (omega arith)
      | yes corner ↦
          let blank = record s { memory = zeroes } in
          let below : (put_char c color blank).memory (video_memory_base - 2) ≡ b' ' =
            rw e (backspace_below color blank (omega arith) (omega arith)) in
          let video = stays zeroes (video_memory_base - 2) (λ q. omega (arith, below, q)) in
          absurd (omega (arith, video.0))
    ]
  ],
  λ p m a changed.
      put_char-IsVideo c color (record s { memory = m }) a (record { x = h.x; y = h.y }) p changed,
)

-- A character that the switch does not treat is drawn at the cursor.
abbrev pub IsPlain : ℕ → Type 0
IsPlain c = (c ≢ 0) × (c ≢ 8) × (c ≢ 9) × (c ≢ 10) × (c ≢ 13)

abbrev pub AllPlain : List ℕ → Type 0
AllPlain [] = Unit
AllPlain (c ∷ cs) = IsPlain c × AllPlain cs

abbrev pub position : Screen → ℕ
position s = s.cursor_y * columns + s.cursor_x

position-put_char :
    (c color : ℕ) (s : Screen)
    → OnScreen s
    → IsPlain c
    → position (put_char c color s) ≡ (position s + 1) % 2000
unfolding put_char
position-put_char c color s h p = ground arith

-- A string of plain characters moves the cursor on by its length, going round from the bottom
-- right corner to the top left.
pub position-print_string :
    (cs : List ℕ) (s : Screen)
    → OnScreen s
    → AllPlain cs
    → position (print_string cs s) ≡ (position s + length cs) % 2000
unfolding print_string
position-print_string [] s h p = omega arith
position-print_string (c ∷ cs) s h p = omega (
  arith,
  position-print_string cs (put_char c 0x04 s) (put_char-OnScreen c 0x04 s h) p.1,
  position-put_char c 0x04 s h p.0,
)
