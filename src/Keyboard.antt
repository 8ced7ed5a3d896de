-- ===== src/Keyboard.antt =====
-- The keyboard driver: kernel/IDT/ISRs/keyboard/keyboard.c. An access behind the end of an array
-- is the result `fault`, since C leaves undefined what it reads or destroys.
mod Tables
pub mod Decode
unfoldable pub use Tables.{
  scancode_map_indexes, scancode_map_values, shifted_scancode_map_indexes,
  shifted_scancode_map_values, map_size, shifted_map_size,
}
use my_operating_system.Base.{
  ℕ, zero, suc, ◌+◌, ◌<◌, Bool, true, false, Option, none, some, List, [], ◌∷◌, ltb, ◌==◌,
  if◌then◌else◌, get_elem?, set, u8,
}
use my_operating_system.Io.{Trace, Device, inb, outb, cli, sti}

pub data Result {ℓ} (A : Type ℓ) : Type ℓ where
  ok : A → Result A
  fault : Result A

-- The file's variables; `scancode_buffer` has 1000 places and `char_buffer` 500.
pub record Keyboard : Type 0 where
  pub scancode_buffer : List ℕ
  pub char_buffer : List ℕ
  pub current_scancode_in : ℕ
  pub current_char_in : ℕ
  pub is_l_shifted : Bool

-- The loop over a pair of tables, with `n` rounds left: it returns the value beside the first
-- index that is the scancode. Both arrays are followed element by element.
unfoldable pub look_up : ℕ → List ℕ → List ℕ → ℕ → Result (Option ℕ)
look_up zero indexes vals scancode = ok none
look_up (suc n) [] vals scancode = fault
look_up (suc n) (i ∷ indexes) [] scancode = fault
look_up (suc n) (i ∷ indexes) (v ∷ vals) scancode =
    if i == scancode then ok (some v) else look_up n indexes vals scancode

abbrev pub or_question : Result (Option ℕ) → Result ℕ
or_question (ok none) = ok b'?'
or_question (ok (some c)) = ok c
or_question fault = fault

-- Lines 49 to 56.
unfoldable pub plain_char : ℕ → Result ℕ
plain_char scancode =
    or_question (look_up map_size scancode_map_indexes scancode_map_values scancode)

-- Lines 38 to 56: the loop over the shifted tables runs to `map_size` too, and falls through to
-- the plain tables where it finds nothing.
abbrev pub else_plain : Result (Option ℕ) → ℕ → Result ℕ
else_plain (ok none) scancode = plain_char scancode
else_plain (ok (some c)) scancode = ok c
else_plain fault scancode = fault

unfoldable pub shifted_char : ℕ → Result ℕ
shifted_char scancode =
    else_plain (look_up map_size shifted_scancode_map_indexes shifted_scancode_map_values scancode)
      scancode

-- The character and the new state of the left shift key.
unfoldable pub scancode_to_char : Bool → ℕ → Result ℕ × Bool
scancode_to_char shifted scancode =
    if scancode == 0x2A
    then (ok 0, true)
    else if scancode == 0xAA
    then (ok 0, false)
    else if ltb 0x80 scancode
    then (ok 0, shifted)
    else if shifted
    then (shifted_char scancode, shifted)
    else (plain_char scancode, shifted)

-- `char_buffer[current_char_in++] = c`
unfoldable pub append_char : Result ℕ → Keyboard → Result Keyboard
append_char fault k = fault
append_char (ok c) k =
    if ltb k.current_char_in 500
    then ok (record k {
      char_buffer = set k.char_buffer k.current_char_in c;
      current_char_in = k.current_char_in + 1;
    })
    else fault

unfoldable pub handle_scancode : ℕ → Keyboard → Result Keyboard
unfolding append_char
handle_scancode scancode k =
    let (c, shifted) = scancode_to_char k.is_l_shifted scancode in
    append_char c (record k { is_l_shifted = shifted })

-- The parameter is overwritten by what port 0x60 answers.
unfoldable pub keyboard_handler_c : Device → Trace → Keyboard → Result Keyboard × Trace
unfolding inb handle_scancode
keyboard_handler_c dev t k =
    let (scancode, t') = inb dev 0x60 t in
    let k' =
      if ltb k.current_scancode_in 999
      then (record k {
        scancode_buffer = set k.scancode_buffer k.current_scancode_in scancode;
        current_scancode_in = k.current_scancode_in + 1;
      })
      else k in
    (handle_scancode scancode k', t')

-- The handler's entry point. Its own read of the port is the argument that the handler ignores.
unfoldable pub keyboard_isr : Device → Trace → Keyboard → Result Keyboard × Trace
unfolding inb outb keyboard_handler_c
keyboard_isr dev t k =
    let (scancode, t) = inb dev 0x60 (cli ∷ t) in
    let (k', t) = keyboard_handler_c dev t k in (k', sti ∷ outb 0x20 0x20 t)

-- A round of the loop of `key_map_task`
unfoldable pub key_map_round : Keyboard → Result Keyboard
unfolding handle_scancode
key_map_round k = handle_scancode b' ' k
