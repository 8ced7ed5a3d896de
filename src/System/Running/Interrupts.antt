-- ===== src/System/Running/Interrupts.antt =====
-- The two interrupts keep the invariant of the running kernel.
use mathlib.Core.Path.{ap₂, subst}
use my_operating_system.Base.{
  ℕ, ◌+◌, ◌-◌, ◌<◌, ◌≡◌, refl, sym, ap, ◌∙◌, arith, Bool, List, [], ◌∷◌, ◌++◌, append_assoc, length,
  length-set, get_or, get_or-set_self, get_or-set_ne, set,
}
use native.Mathlib.Decide.{ℕ_discrete}
use my_operating_system.Io.{Trace}
use my_operating_system.Tasks.{timer_isr}
use my_operating_system.Tasks.RoundRobin.{timer_handler-IsValid, timer_handler-current}
use my_operating_system.Keyboard.{Keyboard, scancode_to_char}
use my_operating_system.Stdin.Fifo.{pending}
use my_operating_system.Terminal.Echo.{typed}
use my_operating_system.System.{System}
use my_operating_system.System.Keys.{value, decode-cons, Stored, typed-Stored, value_small}
use my_operating_system.System.Running.{visible, held, IsRunning, visible-append}

set_small :
    (l : List ℕ) (at v i : ℕ)
    → ((j : ℕ) → get_or l j 0 < 256)
    → v < 256
    → at < length l
    → get_or (set l at v) i 0 < 256
set_small l at v i small h lt = elim (ℕ_discrete at i) [
  | yes e ↦ rw (← e) (omega (arith, get_or-set_self l at v 0 lt))
  | no ne ↦ omega (arith, get_or-set_ne l at i v 0 ne, small i)
]

pub tick-IsRunning :
    (esp : ℕ) (s : System)
    → IsRunning s
    → IsRunning (record s {
      tasks = (timer_isr esp s.trace s.tasks).0;
      trace = (timer_isr esp s.trace s.tasks).1;
    })
unfolding timer_isr
tick-IsRunning esp s v =
    let (_, count, crit) = timer_handler-current esp s.tasks v.tasks v.free in
    record {
      tasks = timer_handler-IsValid esp s.tasks v.tasks;
      free = crit;
      task_1 = omega (arith, count, v.task_1);
      sound = v.sound;
      top = v.top;
      places = v.places;
      keys = v.keys;
      ordered = v.ordered;
      lag = v.lag;
      hand_byte = v.hand_byte;
      small = v.small;
      decoded = v.decoded;
      kept = v.kept;
    }

append-visible :
    (a p h t : List ℕ) (v : ℕ)
    → (a ++ (p ++ visible (h ++ t))) ++ visible (v ∷ [])
      ≡ a ++ (p ++ visible (h ++ (t ++ (v ∷ []))))
append-visible a p h t v =
    rw (append_assoc, append_assoc, ← visible-append (h ++ t) (v ∷ []), append_assoc) refl

pub key-IsRunning :
    (c : ℕ) (k : Keyboard) (t : Trace) (s : System)
    → IsRunning s
    → Stored c s.terminal.keyboard k
    → IsRunning (record s {
      terminal = record s.terminal { keyboard = k };
      trace = t;
      pressed = c ∷ s.pressed;
    })
key-IsRunning c k t s v d =
    let old = s.terminal.keyboard in
    let n = old.current_char_in in
    let o = s.terminal.current_char_out in
    let c' = value (scancode_to_char old.is_l_shifted c).0 in
    let room = d.room in
    let count = d.count in
    let ordered = v.ordered in
    let all : typed k.char_buffer 0 k.current_char_in ≡ typed old.char_buffer 0 n ++ (c' ∷ []) =
      ap (λ (j : ℕ). typed k.char_buffer 0 j) count
      ∙ typed-Stored c old k d v.places 0 n (omega arith) in
    let more : k.current_char_in - o ≡ (n - o) + 1 = omega arith in
    let rest : typed k.char_buffer o (k.current_char_in - o)
        ≡ typed old.char_buffer o (n - o) ++ (c' ∷ []) =
      ap (λ (j : ℕ). typed k.char_buffer o j) more
      ∙ typed-Stored c old k d v.places o (n - o) (omega arith) in
    record {
      tasks = v.tasks;
      free = v.free;
      task_1 = v.task_1;
      sound = let w = v.sound in record { screen = w.screen; stdin = w.stdin; bytes = w.bytes };
      top = v.top;
      places = ap (λ (l : List ℕ). length l) d.stored ∙ length-set old.char_buffer n c' ∙ v.places;
      keys = omega arith;
      ordered = omega arith;
      lag = v.lag;
      hand_byte = v.hand_byte;
      small = λ i.
          subst (λ (l : List ℕ). get_or l i 0 < 256) (sym d.stored)
            (set_small old.char_buffer n c' i v.small (value_small old.is_l_shifted c)
              (rw (v.places) room));
      decoded =
          decode-cons c s.pressed (typed old.char_buffer 0 n) old.is_l_shifted v.decoded
          ∙ ap₂ (λ (b : Bool) (l : List ℕ). (b, l)) (sym d.shift) (sym all);
      kept =
          ap (λ (l : List ℕ). visible l) all
          ∙ visible-append (typed old.char_buffer 0 n) (c' ∷ [])
          ∙ ap (λ (l : List ℕ). l ++ visible (c' ∷ [])) v.kept
          ∙ append-visible s.delivered (pending s.terminal.stdin) (held s.hand)
              (typed old.char_buffer o (n - o)) c'
          ∙ ap
              (λ (l : List ℕ).
                s.delivered ++ (pending s.terminal.stdin ++ visible (held s.hand ++ l)))
              (sym rest);
    }
