-- ===== src/System/Running/Readers.antt =====
-- The calls of `read_line` keep the invariant of the running kernel.
use mathlib.Core.Path.{subst}
use mathlib.Core.Option.{some-injective, none-ne-some}
use my_operating_system.Base.{
  ℕ, suc, ◌-◌, ◌^◌, ◌<◌, ◌≡◌, ◌≢◌, refl, sym, ap, ◌∙◌, arith, false, some, List, [], ◌++◌,
  append_assoc, ◌==◌,
}
use my_operating_system.Memory.Blocks.{IsBytes}
use my_operating_system.Heap.{Heap}
use my_operating_system.Stdin.{Stdin, read_line}
use my_operating_system.Stdin.Fifo
use my_operating_system.Stdin.Fifo.{pending}
use my_operating_system.Memory.Spans.{bytes_at}
use my_operating_system.Stdin.Line.{waits, fails, reads, read_line_lem, TextRead}
use my_operating_system.Terminal.Echo.{typed}
use my_operating_system.System.{System, buffer, line_read}
use my_operating_system.System.Running.{visible, held, IsRunning}

-- A reader has taken the characters `read` off what is pending.
taken-IsRunning :
    (h : Heap) (after : Stdin) (read : List ℕ) (s : System)
    → IsRunning s
    → h.heap_top < 2 ^ 16
    → Fifo.IsValid after
    → IsBytes after.memory
    → after.in_count ≡ s.terminal.stdin.in_count
    → pending s.terminal.stdin ≡ read ++ pending after
    → IsRunning (record s {
      heap = h;
      terminal = record s.terminal { stdin = after };
      delivered = s.delivered ++ read;
    })
taken-IsRunning h after read s v top valid bytes same e =
    let o = s.terminal.current_char_out in
    let n = s.terminal.keyboard.current_char_in in
    let ahead = visible (held s.hand ++ typed (buffer s) o (n - o)) in
    let lag = v.lag in
    let w = v.sound in
    record {
      tasks = v.tasks;
      free = v.free;
      task_1 = v.task_1;
      sound = record { screen = w.screen; stdin = valid; bytes = bytes };
      top = top;
      places = v.places;
      keys = v.keys;
      ordered = v.ordered;
      lag = omega (arith, same);
      hand_byte = v.hand_byte;
      small = v.small;
      decoded = v.decoded;
      kept =
          v.kept
          ∙ ap (λ (l : List ℕ). s.delivered ++ (l ++ ahead)) e
          ∙ ap (λ (l : List ℕ). s.delivered ++ l) (append_assoc read (pending after) ahead)
          ∙ sym (append_assoc s.delivered read (pending after ++ ahead));
    }

-- A reader that gets nothing leaves the buffer.
nothing-IsRunning :
    (h : Heap) (s : System)
    → IsRunning s
    → h.heap_top < 2 ^ 16
    → IsRunning (record s {
      heap = h;
      terminal = record s.terminal { stdin = s.terminal.stdin };
      delivered = s.delivered ++ [];
    })
nothing-IsRunning h s v top =
    taken-IsRunning h s.terminal.stdin [] s v top v.sound.stdin v.sound.bytes refl refl

line_read-taken :
    (p k : ℕ) (s after : Stdin)
    → p ≢ 0
    → TextRead s after p k
    → line_read p s after ≡ bytes_at after.memory p (suc k)
line_read-taken p k s after ne r =
    let out = r.output in
    let some_line : (p == 0) ≡ false = ground arith in
    let len : after.out_count - s.out_count ≡ suc k = omega arith in
    rw some_line (ap (λ (n : ℕ). bytes_at after.memory p n) len)

-- The state after a call of `read_line` that returned.
abbrev after_read_line : System → ℕ × Heap × Stdin → System
after_read_line s (p, h, after) = record s {
  heap = h;
  terminal = record s.terminal { stdin = after };
  delivered = s.delivered ++ line_read p s.terminal.stdin after;
}

pub line-IsRunning :
    (p : ℕ) (h : Heap) (after : Stdin) (s : System)
    → IsRunning s
    → read_line s.heap s.terminal.stdin ≡ some (p, h, after)
    → IsRunning (record s {
      heap = h;
      terminal = record s.terminal { stdin = after };
      delivered = s.delivered ++ line_read p s.terminal.stdin after;
    })
line-IsRunning p h after s v e =
    let w = v.sound in
    let b = s.terminal.stdin in
    elim (read_line_lem s.heap b w.stdin w.bytes v.top) [
      | waits none_there _ ↦ absurd (none-ne-some (p, h, after) (sym none_there ∙ e))
      | fails {h = h'} e' _ top ↦
          subst (λ (r : ℕ × Heap × Stdin). IsRunning (after_read_line s r))
            (some-injective (0, h', b) (p, h, after) (sym e' ∙ e)) (nothing-IsRunning h' s v top)
      | reads {p = p'} {h = h'} {after = after'} k e' _ top ne r ↦
          subst (λ (r : ℕ × Heap × Stdin). IsRunning (after_read_line s r))
            (some-injective (p', h', after') (p, h, after) (sym e' ∙ e))
            (taken-IsRunning h' after' (line_read p' b after') s v top r.valid r.bytes r.input (
              r.taken
              ∙ ap (λ (l : List ℕ). l ++ pending after')
                  (sym (line_read-taken p' k b after' ne r))))
    ]
