-- ===== src/System/History.antt =====
-- Whatever the order of the interrupts and of the tasks' statements, what the readers have got is
-- what the keyboard has sent.
use mathlib.Core.Path.{ap₂, subst}
use my_operating_system.Base.{
  ℕ, ◌^◌, ◌<◌, ◌≡◌, refl, sym, ap, ◌∙◌, arith, Bool, false, List, [], ◌++◌, length, get_or,
}
use my_operating_system.Memory.Blocks.{IsBytes}
use my_operating_system.Tasks.RoundRobin
use my_operating_system.Screen.Cursor.{OnScreen}
use my_operating_system.Stdin.Fifo
use my_operating_system.Stdin.Fifo.{pending}
use my_operating_system.Terminal.Echo.{typed}
use my_operating_system.System.{
  Hand, empty, System, buffer, Step, tick, key, take, show, pressed_key, insert, count, print_char,
  line, shown_at_last, access, Reach, here, next,
}
use my_operating_system.System.Keys.{decode, decode-nil, keyboard_isr-Stored}
use my_operating_system.System.Running.{
  visible, visible-nil, held, HoldsByte, under_way, under_way-idle, IsRunning,
}
use my_operating_system.System.Running.Interrupts.{tick-IsRunning, key-IsRunning}
use my_operating_system.System.Running.Loop.{
  print-IsRunning, access-IsRunning, shown_at_last-IsRunning, take-IsRunning, show-IsRunning,
  insert-IsRunning, count-IsRunning,
}
use my_operating_system.System.Running.Readers.{line-IsRunning}

Step-IsRunning : (s t : System) → IsRunning s → Step s t → IsRunning t
Step-IsRunning s _ v (tick esp) = tick-IsRunning esp s v
Step-IsRunning s _ v (key dev {k = k} {t = t} e) =
    key-IsRunning (pressed_key dev s.trace) k t s v
      (keyboard_isr-Stored dev s.trace t s.terminal.keyboard k e)
Step-IsRunning s _ v (take run e lt) = take-IsRunning s v e lt
Step-IsRunning s _ v (show {c = c} run e) = show-IsRunning c s v e
Step-IsRunning s _ v (insert {c = c} run e) = insert-IsRunning c s v e
Step-IsRunning s _ v (count {c = c} run e) = count-IsRunning c s v e
Step-IsRunning s _ v (shown_at_last {c = c} run e) = shown_at_last-IsRunning c s v e
Step-IsRunning s _ v (access {t = t} d) = access-IsRunning t s v d
Step-IsRunning s _ v (print_char c color) = print-IsRunning c color s.hand s v refl v.hand_byte
Step-IsRunning s _ v (line {p = p} {h = h} {after = after} run e) = line-IsRunning p h after s v e

pub Reach-IsRunning : (s t : System) → IsRunning s → Reach s t → IsRunning t
Reach-IsRunning s _ v here = v
Reach-IsRunning s _ v (next {t = t} {u = u} r st) = Step-IsRunning t u (Reach-IsRunning s t v r) st

-- The state when the tasks start: no key has been read and nothing is on its way.
pub record IsStart (s : System) : Type 0 where
  pub tasks : RoundRobin.IsValid s.tasks
  pub free : s.tasks.critical ≡ 0
  pub task_1 : 1 < s.tasks.task_count
  pub screen : OnScreen s.terminal.screen
  pub bytes : IsBytes s.terminal.stdin.memory
  pub top : s.heap.heap_top < 2 ^ 16
  pub places : length (buffer s) ≡ 500
  pub small : (i : ℕ) → get_or (buffer s) i 0 < 256
  pub no_key : s.terminal.keyboard.current_char_in ≡ 0
  pub no_shift : s.terminal.keyboard.is_l_shifted ≡ false
  pub not_taken : s.terminal.current_char_out ≡ 0
  pub no_input : s.terminal.stdin.in_count ≡ 0
  pub no_output : s.terminal.stdin.out_count ≡ 0
  pub no_hand : s.hand ≡ empty
  pub not_pressed : s.pressed ≡ []
  pub not_delivered : s.delivered ≡ []

pub start-IsRunning : (s : System) → IsStart s → IsRunning s
start-IsRunning s v =
    let no_key = v.no_key in
    let not_taken = v.not_taken in
    let no_input = v.no_input in
    let no_output = v.no_output in
    let no_lag : length (held s.hand) ≡ 0 = ap (λ (h : Hand). length (held h)) v.no_hand in
    let nothing : typed (buffer s) 0 s.terminal.keyboard.current_char_in ≡ [] =
      ap (λ (n : ℕ). typed (buffer s) 0 n) no_key in
    record {
      tasks = v.tasks;
      free = v.free;
      task_1 = v.task_1;
      sound = record {
        screen = let on = v.screen in record { x = omega (arith, on.x); y = omega (arith, on.y) };
        stdin = record { ordered = omega arith; fits = omega arith };
        bytes = v.bytes;
      };
      top = v.top;
      places = v.places;
      keys = omega arith;
      ordered = omega arith;
      lag = omega (arith, no_lag);
      hand_byte = subst HoldsByte (sym v.no_hand) tt;
      small = v.small;
      decoded =
          ap decode v.not_pressed
          ∙ decode-nil
          ∙ ap₂ (λ (b : Bool) (l : List ℕ). (b, l)) (sym v.no_shift) (sym nothing);
      kept =
          ap visible nothing
          ∙ visible-nil
          ∙ sym (rw (v.not_delivered) (under_way-idle s v.no_hand (omega arith) (omega arith)));
    }

-- From a state at the start of the tasks (`IsStart`: empty buffers in a memory of bytes, a valid
-- schedule with a task 1, no critical section), the interrupts, the statements of `stdin_loop` and
-- `stdin_insert`, the calls of `read_line` by task 2 and the accesses of the tasks' `put_char` to the
-- cursor and the cells are taken in any order; a keyboard interrupt that C leaves undefined is no
-- step. In every state that they lead to, the characters that task 2 has got, followed by those on
-- their way to it, are the characters of the scancodes that the keyboard handler has read, in their
-- order, the keys without a character left out: none is lost, doubled or out of place. The schedule
-- and the input buffer are valid there.
pub history_lem :
    (s t : System)
    → IsStart s
    → Reach s t
    → (visible (decode t.pressed).1 ≡ t.delivered ++ under_way t)
      × RoundRobin.IsValid t.tasks
      × Fifo.IsValid t.terminal.stdin
history_lem s t start r =
    let v = Reach-IsRunning s t (start-IsRunning s start) r in
    (ap (λ (d : Bool × List ℕ). visible d.1) v.decoded ∙ v.kept, v.tasks, v.sound.stdin)
