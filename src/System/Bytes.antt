-- ===== src/System/Bytes.antt =====
-- The stores of a task's step: they leave bytes, and what is pending for the readers.
use my_operating_system.Base.{ℕ, ◌+◌, ◌-◌, ◌*◌, ◌≤◌, ◌<◌, ◌≡◌, refl, arith}
use my_operating_system.Memory.{Memory, write}
use my_operating_system.Memory.Blocks.{IsBytes, write-IsBytes}
use my_operating_system.Screen.{
  Screen, video_memory_base, columns, put_char, store_cell, cell, next_row, backspace, tab,
  put_plain,
}
use my_operating_system.Screen.Cursor.{store_cell_lem}
use my_operating_system.Stdin.{Stdin, stdin_insert, stdin_base}
use my_operating_system.Stdin.Fifo
use my_operating_system.Stdin.Fifo.{pending}
use my_operating_system.Terminal.{Terminal}
use my_operating_system.Terminal.Echo.{chars-kept}
use my_operating_system.System.{print, Draws, move, draw}

store_cell-IsBytes : (a c color : ℕ) (m : Memory) → IsBytes m → IsBytes (store_cell a c color m)
unfolding store_cell
store_cell-IsBytes a c color m b = write-IsBytes (write m a c) (a + 1) color (write-IsBytes m a c b)

pub put_char-IsBytes :
    (c color : ℕ) (s : Screen) → IsBytes s.memory → IsBytes (put_char c color s).memory
unfolding put_char next_row backspace tab put_plain
put_char-IsBytes c color s b x = ground (
  arith,
  b x,
  store_cell-IsBytes (cell s - 2) b' ' color s.memory b x,
  store_cell-IsBytes (cell s) c color s.memory b x,
)

pub stdin_insert-IsBytes :
    (c : ℕ) (s : Stdin) → IsBytes s.memory → IsBytes (stdin_insert c s).memory
unfolding stdin_insert
stdin_insert-IsBytes c s b x =
    ground (arith, b x, write-IsBytes s.memory (stdin_base + s.in_count) c b x)

-- The cursor's variables have 8 bits each, and may be off the screen while a `put_char` is
-- interrupted.
pub record InBytes (s : Screen) : Type 0 where
  pub x : s.cursor_x < 256
  pub y : s.cursor_y < 256

pub put_char-InBytes : (c color : ℕ) (s : Screen) → InBytes s → InBytes (put_char c color s)
unfolding put_char
put_char-InBytes c color s h = ground arith

-- No cell that two bytes make up reaches the line buffer.
put_char-below_stdin :
    (c color : ℕ) (s : Screen) (a : ℕ)
    → InBytes s
    → stdin_base ≤ a
    → (put_char c color s).memory a ≡ s.memory a
unfolding put_char next_row backspace tab put_plain
put_char-below_stdin c color s a h p = ground (
  arith,
  store_cell_lem (cell s - 2) b' ' color s.memory a,
  store_cell_lem (cell s) c color s.memory a,
)

-- What a step of a task keeps of the terminal.
pub record IsSound (t : Terminal) : Type 0 where
  pub screen : InBytes t.screen
  pub stdin : Fifo.IsValid t.stdin
  pub bytes : IsBytes t.stdin.memory

module _ (c color : ℕ) (t : Terminal) (sound : IsSound t) where
  before : Screen
  before = record t.screen { memory = t.stdin.memory }

  before-InBytes : InBytes before
  unfolding before
  before-InBytes = let on = sound.screen in record { x = on.x; y = on.y }

  pub print-IsSound : IsSound (print c color t)
  unfolding before
  print-IsSound =
      let on = put_char-InBytes c color before before-InBytes in
      let v = sound.stdin in
      record {
        screen = record { x = on.x; y = on.y };
        stdin = record { ordered = v.ordered; fits = v.fits };
        bytes = put_char-IsBytes c color before sound.bytes;
      }

  pub pending-print : pending (print c color t).stdin ≡ pending t.stdin
  unfolding before
  pending-print =
      chars-kept t.stdin.memory _ t.stdin.out_count (t.stdin.in_count - t.stdin.out_count)
        (λ a h. put_char-below_stdin c color before a before-InBytes h)

-- An access of an interrupted `put_char` keeps that too.
pub Draws-IsSound : (t u : Terminal) → IsSound t → Draws t u → IsSound u
Draws-IsSound t _ sound (move hx hy) =
    let v = sound.stdin in
    record {
      screen = record { x = hx; y = hy };
      stdin = record { ordered = v.ordered; fits = v.fits };
      bytes = sound.bytes;
    }
Draws-IsSound t _ sound (draw v hx hy hi) =
    let on = sound.screen in
    let valid = sound.stdin in
    record {
      screen = record { x = on.x; y = on.y };
      stdin = record { ordered = valid.ordered; fits = valid.fits };
      bytes = write-IsBytes t.stdin.memory _ v sound.bytes;
    }

write-below : (m : Memory) (a v x : ℕ) → a < x → write m a v x ≡ m x
unfolding write
write-below m a v x h = ground arith

-- The rest of the terminal stays.
pub record Drawn (t u : Terminal) : Type 0 where
  pub keyboard : u.keyboard ≡ t.keyboard
  pub taken : u.current_char_out ≡ t.current_char_out
  pub input : u.stdin.in_count ≡ t.stdin.in_count
  pub pending : pending u.stdin ≡ pending t.stdin

pub Draws-Drawn : (t u : Terminal) → Draws t u → Drawn t u
Draws-Drawn t _ (move hx hy) = record {
  keyboard = refl;
  taken = refl;
  input = refl;
  pending = refl;
}
Draws-Drawn t _ (draw {x = x} {y = y} {i = i} v hx hy hi) = record {
  keyboard = refl;
  taken = refl;
  input = refl;
  pending =
      chars-kept t.stdin.memory _ t.stdin.out_count (t.stdin.in_count - t.stdin.out_count) (λ a h.
        write-below t.stdin.memory (video_memory_base + (y * columns + x) * 2 + i - 2) v a
          (omega arith));
}
