-- ===== src/System.antt =====
-- The running kernel: the timer interrupt, the keyboard interrupt and the statements of the tasks,
-- one after another in any order that the hardware and the scheduler allow. The parts are those of
-- Tasks, Keyboard, Terminal, Stdin and Heap; the order of the tasks is that of `k_setup_tasks` in
-- kernel/main.c, where task 1 runs `stdin_loop` and task 2 runs `echo_task`.
pub mod Bytes
pub mod Keys
pub mod Insert
pub mod Running
pub mod History
pub mod Round
pub mod Prints
pub mod Drain
pub mod Start
pub mod Accesses
use my_operating_system.Base.{
  ℕ, ◌+◌, ◌-◌, ◌*◌, ◌<◌, ◌≡◌, List, [], ◌∷◌, ◌++◌, some, get_or, ◌==◌, if◌then◌else◌, u8, u32, ltb,
  Bool, ◌&&◌, ◌!=◌,
}
use my_operating_system.Memory.{write}
use my_operating_system.Io.{Trace, Device, inb, cli}
use my_operating_system.Heap.{Heap}
use my_operating_system.Tasks.{Tasks, timer_isr}
use my_operating_system.Keyboard.{Keyboard, ok, keyboard_isr}
use my_operating_system.Screen.{video_memory_base, columns, put_char}
use my_operating_system.Stdin.{Stdin, stdin_size, stdin_base, read_line}
use my_operating_system.Memory.Spans.{bytes_at}
use my_operating_system.Terminal.{Terminal}

-- The local variable `c` of `stdin_loop`: not set in this round, read from the buffer, shown on the
-- screen, or stored in the line buffer with its line's end not counted yet.
pub data Hand : Type 0 where
  empty : Hand
  taken : ℕ → Hand
  shown : ℕ → Hand
  stored : ℕ → Hand

-- The state, with two histories that the code does not keep: the scancodes that the keyboard handler
-- has read, the latest first, and the characters that the readers have got.
pub record System : Type 0 where
  pub tasks : Tasks
  pub trace : Trace
  pub heap : Heap
  pub terminal : Terminal
  pub hand : Hand
  pub pressed : List ℕ
  pub delivered : List ℕ

abbrev pub buffer : System → List ℕ
buffer s = s.terminal.keyboard.char_buffer

abbrev pub stdin_of : System → Stdin
stdin_of s = s.terminal.stdin

-- `const char c = char_buffer[current_char_out++];`
abbrev pub take_char : System → System
take_char s = record s {
  terminal = record s.terminal { current_char_out = s.terminal.current_char_out + 1 };
  hand = taken (get_or (buffer s) s.terminal.current_char_out 0);
}

-- The screen and the line buffer after one access of a `put_char` that is interrupted, where other
-- tasks move the cursor between its accesses: the cursor's variables get some byte, and a byte goes
-- to a place of the cell that some two bytes make up, or of the cell before it.
abbrev pub with_cursor : ℕ → ℕ → Terminal → Terminal
with_cursor x y t = record t {
  screen = record { cursor_x = x; cursor_y = y; memory = t.stdin.memory };
}

abbrev pub with_cell : ℕ → ℕ → Terminal → Terminal
with_cell a v t =
    let m = write t.stdin.memory a v in
    record t { screen = record t.screen { memory = m }; stdin = record t.stdin { memory = m } }

pub data Draws (t : Terminal) : Terminal → Type 0 where
  move : {x y : ℕ} → x < 256 → y < 256 → Draws t (with_cursor x y t)
  draw :
      {x y i : ℕ} (v : ℕ)
      → x < 256
      → y < 256
      → i < 4
      → Draws t (with_cell (video_memory_base + (y * columns + x) * 2 + i - 2) v t)

-- A character that some task prints, with no other task between. The screen and the line buffer lie in one memory.
abbrev pub print : ℕ → ℕ → Terminal → Terminal
print c color t =
    let drawn = put_char c color (record t.screen { memory = t.stdin.memory }) in
    record t { screen = drawn; stdin = record t.stdin { memory = drawn.memory } }

-- The two tests of `stdin_insert`
abbrev pub is_kept : ℕ → Stdin → Bool
is_kept c s = ltb s.in_count stdin_size && (c != 0)

-- `stdin[stdin_in_count++] = c;` behind these tests
abbrev pub store_char : ℕ → Stdin → Stdin
store_char c s =
    if is_kept c s
    then record s { memory = write s.memory (stdin_base + s.in_count) c; in_count = s.in_count + 1 }
    else s

-- `if (c == '\n') { new_line_count++; }`
abbrev pub count_line : ℕ → Stdin → Stdin
count_line c s = record s {
  new_line_count = if c == 10 then u32 (s.new_line_count + 1) else s.new_line_count;
}

abbrev pub with_stdin : Stdin → Hand → System → System
with_stdin stdin hand s = record s { terminal = record s.terminal { stdin = stdin }; hand = hand }

-- What a call of `read_line` gives its caller: nothing with NULL, or else the text at the pointer,
-- as long as the buffer has advanced.
abbrev pub line_read : ℕ → Stdin → Stdin → List ℕ
line_read p before after =
    if p == 0 then [] else bytes_at after.memory p (after.out_count - before.out_count)

-- What port 0x60 answers to the second read of an interrupt, that of the handler.
abbrev pub pressed_key : Device → Trace → ℕ
pressed_key dev t = u8 (dev (inb dev 0x60 (cli ∷ t)).1 0x60)

-- One step. An interrupt comes between two statements of `stdin_loop` and `stdin_insert`, and between
-- two accesses of `put_char`, whichever task calls it: `show` and `print_char` are the calls with no
-- interrupt in them, `access` is an access of any other call, and `shown_at_last` the return of one to
-- `stdin_loop`. The statements of `read_line` that stand in a critical section are one step, and only
-- `echo_task` reads.
pub data Step (s : System) : System → Type 0 where
  tick :
      (esp : ℕ)
      → Step s (record s {
        tasks = (timer_isr esp s.trace s.tasks).0;
        trace = (timer_isr esp s.trace s.tasks).1;
      })
  key :
      (dev : Device) {k : Keyboard} {t : Trace}
      → keyboard_isr dev s.trace s.terminal.keyboard ≡ (ok k, t)
      → Step s (record s {
        terminal = record s.terminal { keyboard = k };
        trace = t;
        pressed = pressed_key dev s.trace ∷ s.pressed;
      })
  take :
      s.tasks.running_task ≡ 1
      → s.hand ≡ empty
      → s.terminal.current_char_out < s.terminal.keyboard.current_char_in
      → Step s (take_char s)
  show :
      {c : ℕ}
      → s.tasks.running_task ≡ 1
      → s.hand ≡ taken c
      → Step s (record s { terminal = print c 0x0F s.terminal; hand = shown c })
  insert :
      {c : ℕ}
      → s.tasks.running_task ≡ 1
      → s.hand ≡ shown c
      → Step s (
          with_stdin
            (store_char c s.terminal.stdin)
            (if is_kept c s.terminal.stdin then stored c else empty)
            s)
  count :
      {c : ℕ}
      → s.tasks.running_task ≡ 1
      → s.hand ≡ stored c
      → Step s (with_stdin (count_line c s.terminal.stdin) empty s)
  shown_at_last :
      {c : ℕ} → s.tasks.running_task ≡ 1 → s.hand ≡ taken c → Step s (record s { hand = shown c })
  access : {t : Terminal} → Draws s.terminal t → Step s (record s { terminal = t })
  print_char : (c color : ℕ) → Step s (record s { terminal = print c color s.terminal })
  line :
      {p : ℕ} {h : Heap} {after : Stdin}
      → s.tasks.running_task ≡ 2
      → read_line s.heap s.terminal.stdin ≡ some (p, h, after)
      → Step s (record s {
        heap = h;
        terminal = record s.terminal { stdin = after };
        delivered = s.delivered ++ line_read p s.terminal.stdin after;
      })

pub data Reach (s : System) : System → Type 0 where
  here : Reach s s
  next : {t u : System} → Reach s t → Step t u → Reach s u
