-- ===== src/Terminal.antt =====
-- The way of a typed character: `stdin_loop` of kernel/stdin/stdin.c takes it from the buffer of the
-- keyboard, shows it and puts it in the line buffer. The screen and the line buffer lie in one memory.
-- The tasks of kernel/main.c: `echo_task` prints the lines that it reads, the others a letter each.
-- `idt_common_isr` and `idt_print_isr_id` of kernel/IDT/interrupt_stub.c print the number of an
-- interrupt.
pub mod Echo
pub mod Lines
use my_operating_system.Base.{
  ℕ, zero, suc, ◌+◌, ◌==◌, List, [], ◌∷◌, ltb, if◌then◌else◌, get_or, u8, Option, none, some,
}
use my_operating_system.Memory.{Memory}
use my_operating_system.Io.{Trace, outb}
use my_operating_system.Keyboard.{Keyboard}
use my_operating_system.Screen.{Screen, put_char, print_string}
use my_operating_system.Heap.{Heap}
use my_operating_system.Stdin.{Stdin, stdin_insert, read_line}
use my_operating_system.Digits.{uint32_to_str}

pub record Terminal : Type 0 where
  pub keyboard : Keyboard
  pub current_char_out : ℕ
  pub screen : Screen
  pub stdin : Stdin

-- `put_char(c, 0x0F); stdin_insert(c);`
unfoldable pub echo : ℕ → Screen → Stdin → Screen × Stdin
echo c screen stdin =
    let shown = put_char c 0x0F (record screen { memory = stdin.memory }) in
    let stored = stdin_insert c (record stdin { memory = shown.memory }) in
    (record shown { memory = stored.memory }, stored)

-- One round of the loop. The index of `char_buffer` is taken to be within it.
unfoldable pub stdin_loop : Terminal → Terminal
stdin_loop t =
    if ltb t.current_char_out t.keyboard.current_char_in
    then (let (screen, stdin) =
          echo (get_or t.keyboard.char_buffer t.current_char_out 0) t.screen t.stdin in
        record t { current_char_out = t.current_char_out + 1; screen = screen; stdin = stdin })
    else t

-- The bytes of the text at `p`; `none` says that the rounds ran out.
unfoldable pub text_at : ℕ → Memory → ℕ → Option (List ℕ)
text_at zero m p = none
text_at (suc f) m p =
    let rest = text_at f m (p + 1) in
    if m p == 0 then some [] else elim rest [ none ↦ none | some l ↦ some (m p ∷ l) ]

-- "Interrupt received: "
abbrev received : List ℕ
received =
    b'I' ∷ b'n' ∷ b't' ∷ b'e' ∷ b'r' ∷ b'r' ∷ b'u' ∷ b'p' ∷ b't' ∷ b' ' ∷ b'r' ∷ b'e' ∷ b'c' ∷ b'e'
    ∷ b'i' ∷ b'v' ∷ b'e' ∷ b'd' ∷ b':' ∷ b' ' ∷ []

-- `buff` is the address of the local array. A number of 8 bits has three digits at most.
unfoldable pub idt_print_isr_id : ℕ → ℕ → Screen → Option Screen
idt_print_isr_id buff id s =
    let s = print_string received s in
    let m = uint32_to_str (u8 id) buff s.memory in
    elim (text_at 4 m buff) [
      | none ↦ none
      | some digits ↦ some (print_string (10 ∷ []) (print_string digits (record s { memory = m })))
    ]

-- The entry point of an interrupt without a handler; `id` is on the stack, put there by its stub.
unfoldable pub idt_common_isr : ℕ → ℕ → Screen → Trace → Option (Screen × Trace)
unfolding outb
idt_common_isr buff id s t = elim (idt_print_isr_id buff id s) [
  | none ↦ none
  | some s ↦ some (s, outb 0xA0 0x20 (outb 0x20 0x20 t))
]

-- `print_string` on a string in memory, which it reads as it goes; `none` says that the rounds ran
-- out.
unfoldable pub print_from : ℕ → ℕ → Screen → Option Screen
print_from zero p s = none
print_from (suc f) p s =
    let rest = print_from f (p + 1) (put_char (s.memory p) 0x04 s) in
    if s.memory p == 0 then some s else rest

-- What a round of `echo_task` comes to: it waits for a line, it has echoed one, or its rounds of
-- `print_string` ran out.
pub data Echoed : Type 0 where
  waiting endless : Echoed
  echoed : Heap → Terminal → Echoed

-- "oopsi... an error occourd.\n"
abbrev oopsi : List ℕ
oopsi =
    b'o' ∷ b'o' ∷ b'p' ∷ b's' ∷ b'i' ∷ b'.' ∷ b'.' ∷ b'.' ∷ b' ' ∷ b'a' ∷ b'n' ∷ b' ' ∷ b'e' ∷ b'r'
    ∷ b'r' ∷ b'o' ∷ b'r' ∷ b' ' ∷ b'o' ∷ b'c' ∷ b'c' ∷ b'o' ∷ b'u' ∷ b'r' ∷ b'd' ∷ b'.' ∷ 10 ∷ []

-- One round of the loop, with at most `f` characters for its second `print_string`.
unfoldable pub echo_round : ℕ → Heap → Terminal → Echoed
echo_round f h t = elim (read_line h t.stdin) [
  | none ↦ waiting
  | some (str, h', stdin) ↦
      let screen = record t.screen { memory = stdin.memory } in
      let screen = if str == 0 then print_string oopsi screen else screen in
      elim (print_from f str screen) [
        | none ↦ endless
        | some screen ↦
            echoed h'
              (record t { screen = screen; stdin = record stdin { memory = screen.memory } })
      ]
]

-- "enter lines and i will echo them...\n\n", which `echo_task` prints before its loop
unfoldable pub echo_greeting : Screen → Screen
echo_greeting s =
    print_string
      (b'e' ∷ b'n' ∷ b't' ∷ b'e' ∷ b'r' ∷ b' ' ∷ b'l' ∷ b'i' ∷ b'n' ∷ b'e' ∷ b's' ∷ b' ' ∷ b'a'
        ∷ b'n' ∷ b'd' ∷ b' ' ∷ b'i' ∷ b' ' ∷ b'w' ∷ b'i' ∷ b'l' ∷ b'l' ∷ b' ' ∷ b'e' ∷ b'c' ∷ b'h'
        ∷ b'o' ∷ b' ' ∷ b't' ∷ b'h' ∷ b'e' ∷ b'm' ∷ b'.' ∷ b'.' ∷ b'.' ∷ 10 ∷ 10 ∷ [])
      s

-- The loops of these tasks up to their call of `k_sleep`
unfoldable pub task_a : Screen → Screen
task_a s = print_string (b'A' ∷ []) s

unfoldable pub task_b : Screen → Screen
task_b s = print_string (b'B' ∷ []) s

unfoldable pub task_c : Screen → Screen
task_c s = print_string (b'C' ∷ []) s
