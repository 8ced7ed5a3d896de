-- ===== src/System/Running.antt =====
-- The invariant of the running kernel.
pub mod Interrupts
pub mod Loop
pub mod Readers
use my_operating_system.Base.{
  ℕ, ◌+◌, ◌-◌, ◌^◌, ◌≤◌, ◌<◌, ◌≡◌, refl, sym, ap, ◌∙◌, arith, Bool, List, [], ◌∷◌, ◌++◌, append-nil,
  length, get_or, ◌==◌, if◌then◌else◌,
}
use my_operating_system.Tasks.RoundRobin
use my_operating_system.Stdin.Fifo
use my_operating_system.Stdin.Fifo.{pending}
use my_operating_system.Terminal.Echo.{typed}
use my_operating_system.System.{Hand, empty, taken, shown, stored, System, buffer}
use my_operating_system.System.Bytes.{IsSound}
use my_operating_system.System.Keys.{decode}

-- The characters that reach a reader: a key that has none is stored as 0.
pub visible : List ℕ → List ℕ
visible [] = []
visible (c ∷ cs) = if c == 0 then visible cs else c ∷ visible cs

abbrev pub held : Hand → List ℕ
held empty = []
held (taken c) = c ∷ []
held (shown c) = c ∷ []
held (stored c) = []

abbrev pub HoldsByte : Hand → Type 0
HoldsByte empty = Unit {0}
HoldsByte (taken c) = c < 256
HoldsByte (shown c) = c < 256
HoldsByte (stored c) = Unit {0}

-- The characters on their way: in the line buffer, in the hand of `stdin_loop`, in the keyboard's
-- buffer.
abbrev pub under_way : System → List ℕ
under_way s =
    let t = s.terminal in
    pending t.stdin
    ++ visible (
        held s.hand
        ++ typed t.keyboard.char_buffer t.current_char_out
            (t.keyboard.current_char_in - t.current_char_out))

pub record IsRunning (s : System) : Type 0 where
  pub tasks : RoundRobin.IsValid s.tasks
  pub free : s.tasks.critical ≡ 0
  pub task_1 : 1 < s.tasks.task_count
  pub sound : IsSound s.terminal
  pub top : s.heap.heap_top < 2 ^ 16
  pub places : length (buffer s) ≡ 500
  pub keys : s.terminal.keyboard.current_char_in ≤ 500
  pub ordered : s.terminal.current_char_out ≤ s.terminal.keyboard.current_char_in
  pub lag : s.terminal.stdin.in_count + length (held s.hand) ≤ s.terminal.current_char_out
  pub hand_byte : HoldsByte s.hand
  pub small : (i : ℕ) → get_or (buffer s) i 0 < 256
  pub decoded :
      decode s.pressed
      ≡ (s.terminal.keyboard.is_l_shifted, typed (buffer s) 0 s.terminal.keyboard.current_char_in)
  pub kept :
      visible (typed (buffer s) 0 s.terminal.keyboard.current_char_in) ≡ s.delivered ++ under_way s

pub visible-append : (a b : List ℕ) → visible (a ++ b) ≡ visible a ++ visible b
unfolding visible
visible-append [] b = refl
visible-append (c ∷ a) b = ground (arith, visible-append a b)

pub visible-one : (c : ℕ) → visible (c ∷ []) ≡ (if c == 0 then [] else c ∷ [])
unfolding visible
visible-one c = refl

pub visible-nil : visible [] ≡ []
unfolding visible
visible-nil = refl

-- Nothing is on its way when both buffers are empty and the hand too.
pub under_way-idle :
    (s : System)
    → s.hand ≡ empty
    → s.terminal.stdin.in_count ≡ s.terminal.stdin.out_count
    → s.terminal.keyboard.current_char_in ≡ s.terminal.current_char_out
    → under_way s ≡ []
under_way-idle s e read taken_all =
    let none_in : s.terminal.stdin.in_count - s.terminal.stdin.out_count ≡ 0 = omega arith in
    let none_typed : s.terminal.keyboard.current_char_in - s.terminal.current_char_out ≡ 0 =
      omega arith in
    rw (none_in, none_typed, e, visible-nil) refl

-- What has been typed is then read or waits in the line buffer.
pub delivered-stored :
    (s : System)
    → IsRunning s
    → s.hand ≡ empty
    → s.terminal.keyboard.current_char_in ≡ s.terminal.current_char_out
    → s.delivered ++ pending s.terminal.stdin ≡ visible (decode s.pressed).1
delivered-stored s v e taken_all =
    let none_typed : s.terminal.keyboard.current_char_in - s.terminal.current_char_out ≡ 0 =
      omega arith in
    let p = pending s.terminal.stdin in
    let stored_all : under_way s ≡ p = rw (none_typed, e, visible-nil) (append-nil p) in
    sym (
      ap (λ (d : Bool × List ℕ). visible d.1) v.decoded
      ∙ v.kept
      ∙ ap (λ (l : List ℕ). s.delivered ++ l) stored_all)
