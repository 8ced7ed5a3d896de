-- ===== src/System/Accesses.antt =====
-- The accesses of one `put_char`: the step relation takes those of several calls in any order.
use mathlib.Core.Path.{subst}
use my_operating_system.Base.{ℕ, ◌+◌, ◌-◌, ◌*◌, ◌<◌, ◌≡◌, ◌⊎◌, inl, inr, sym, arith}
use my_operating_system.Memory.{Memory}
use my_operating_system.Screen.{
  Screen, video_memory_base, columns, put_char, cell, store_cell, next_row, backspace, tab,
  put_plain,
}
use my_operating_system.Terminal.{Terminal}
use my_operating_system.System.{Draws, move, draw, print, with_cell}
use my_operating_system.System.Bytes.{InBytes, put_char-InBytes}

-- A sequence of accesses.
pub data Accesses (t : Terminal) : Terminal → Type 0 where
  start : Accesses t t
  then : {u w : Terminal} → Accesses t u → Draws u w → Accesses t w

-- What a call leaves in the memory: no cell, the cell before the cursor or the one under it.
memory-cases :
    (c color : ℕ) (s : Screen)
    → ((put_char c color s).memory ≡ s.memory)
      ⊎ ((put_char c color s).memory ≡ store_cell (cell s - 2) b' ' color s.memory)
      ⊎ ((put_char c color s).memory ≡ store_cell (cell s) c color s.memory)
unfolding put_char next_row backspace tab put_plain
memory-cases c color s = ground arith

-- Two bytes of a cell, one after the other.
two_bytes :
    (x y i a v w : ℕ) (t : Terminal)
    → x < 256
    → y < 256
    → i < 3
    → a ≡ video_memory_base + (y * columns + x) * 2 + i - 2
    → Accesses t (with_cell (a + 1) w (with_cell a v t))
two_bytes x y i a v w t hx hy hi e =
    let e' : video_memory_base + (y * columns + x) * 2 + (i + 1) - 2 ≡ a + 1 = omega arith in
    let first : Accesses t (with_cell a v t) =
      subst (λ (b : ℕ). Accesses t (with_cell b v t)) (sym e)
        (then start (draw {x = x} {y = y} {i = i} v hx hy (omega arith))) in
    then first (
      subst (λ (b : ℕ). Draws (with_cell a v t) (with_cell b w (with_cell a v t))) e'
        (draw {x = x} {y = y} {i = i + 1} w hx hy (omega arith)))

-- The terminal with a memory and a cursor.
abbrev with_screen : ℕ → ℕ → Terminal → Memory → Terminal
with_screen x y t m = record t {
  screen = record { cursor_x = x; cursor_y = y; memory = m };
  stdin = record t.stdin { memory = m };
}

-- What `put_char` does, from whatever cursor another task has left, is a sequence of accesses.
pub put_char-Accesses :
    (c color : ℕ) (t : Terminal) → InBytes t.screen → Accesses t (print c color t)
unfolding store_cell
put_char-Accesses c color t on =
    let s : Screen = record t.screen { memory = t.stdin.memory } in
    let drawn = put_char c color s in
    let small = put_char-InBytes c color s (record { x = on.x; y = on.y }) in
    let x = s.cursor_x in
    let y = s.cursor_y in
    let done : Memory → Terminal = with_screen drawn.cursor_x drawn.cursor_y t in
    elim (memory-cases c color s) [
      | inl e ↦
          subst (λ (m : Memory). Accesses t (done m)) (sym e) (then start (move small.x small.y))
      | inr (inl e) ↦
          subst (λ (m : Memory). Accesses t (done m)) (sym e)
            (then (two_bytes x y 0 (cell s - 2) b' ' color t on.x on.y (omega arith) (omega arith))
              (move small.x small.y))
      | inr (inr e) ↦
          subst (λ (m : Memory). Accesses t (done m)) (sym e)
            (then (two_bytes x y 2 (cell s) c color t on.x on.y (omega arith) (omega arith))
              (move small.x small.y))
    ]
