-- ===== src/Format.antt =====
-- `snprintf` of kernel/STRING/string.c, over the byte memory. `args` gives the words of the argument
-- array. The local array `tmp` is a memory of its own, from address 0 on.
pub mod Bounds
use my_operating_system.Base.{
  ℕ, zero, suc, ◌+◌, ◌-◌, ◌*◌, ◌%◌, ◌^◌, Bool, true, false, Option, none, some, ◌&&◌, ◌||◌, ltb,
  leb, ◌==◌, ◌!=◌, if◌then◌else◌, u32, sub_u32,
}
use my_operating_system.Memory.{Memory, write}
use my_operating_system.Digits.{itoa}

-- `for (j…; j < len && pos < lim; …) buf[pos++] = tmp[j]`, with `n` characters left.
unfoldable pub copy_digits : Memory → ℕ → ℕ → ℕ → ℕ → ℕ → Memory → ℕ × Memory
copy_digits tmp j zero buf lim pos m = (pos, m)
copy_digits tmp j (suc n) buf lim pos m =
    let rest = copy_digits tmp (j + 1) n buf lim (pos + 1) (write m (buf + pos) (tmp j)) in
    if ltb pos lim then rest else (pos, m)

-- `for (j…; s[j] && pos < lim; …) buf[pos++] = s[j]`, with room for `n` characters.
unfoldable pub copy_string : ℕ → ℕ → ℕ → ℕ → Memory → ℕ × Memory
copy_string s zero buf pos m = (pos, m)
copy_string s (suc n) buf pos m =
    let rest = copy_string (s + 1) n buf (pos + 1) (write m (buf + pos) (m s)) in
    if m s == 0 then (pos, m) else rest

abbrev blank_tmp : Memory
blank_tmp a = 0

unfoldable pub put_number : ℕ → ℕ → Bool → ℕ → ℕ → ℕ → Memory → ℕ × Memory
put_number val base uppercase buf lim pos m =
    let (len, tmp) = itoa val 0 base uppercase blank_tmp in copy_digits tmp 0 len buf lim pos m

-- `%d`: a value with the sign bit is negative, and is written as `-` and its negation.
unfoldable pub put_signed : ℕ → ℕ → ℕ → ℕ → Memory → ℕ × Memory
put_signed val buf lim pos m =
    if leb (2 ^ 31) val
    then put_number (sub_u32 0 val) 10 false buf lim (pos + 1) (write m (buf + pos) b'-')
    else put_number val 10 false buf lim pos m

-- Lines 292 to 320: what the letter behind `%` does. Any letter but these is skipped.
unfoldable pub directive : ℕ → ℕ → ℕ → ℕ → ℕ → Memory → ℕ × Memory
directive letter arg buf lim pos m =
    if letter == b'%'
    then (pos + 1, write m (buf + pos) b'%')
    else if letter == b'd'
    then put_signed arg buf lim pos m
    else if letter == b'u'
    then put_number arg 10 false buf lim pos m
    else if letter == b'x'
    then put_number arg 16 false buf lim pos m
    else if letter == b'X'
    then put_number arg 16 true buf lim pos m
    else if letter == b's'
    then copy_string arg (lim - pos) buf pos m
    else (pos, m)

abbrev pub takes_argument : ℕ → Bool
takes_argument letter =
    (letter == b'd') || (letter == b'u') || (letter == b'x') || (letter == b'X') || (letter == b's')

-- The loop over the format at the pointer `fmt`; `none` says that the rounds ran out.
unfoldable pub format_from : ℕ → ℕ → (ℕ → ℕ) → ℕ → ℕ → ℕ → ℕ → Memory → Option (ℕ × Memory)
format_from zero fmt args idx buf lim pos m = none
format_from (suc f) fmt args idx buf lim pos m =
    let letter = m (fmt + 1) in
    let after = directive letter (args idx) buf lim pos m in
    let plain = format_from f (fmt + 1) args idx buf lim (pos + 1) (write m (buf + pos) (m fmt)) in
    let special =
      format_from f (fmt + 2) args (if takes_argument letter then idx + 1 else idx) buf lim after.0
        after.1 in
    if (m fmt == 0) || leb lim pos
    then some (pos, m)
    else if m fmt != b'%'
    then plain
    else if letter == 0
    then some (pos, m)
    else special

-- The final `buf[pos] = 0`.
abbrev pub end_text : ℕ → ℕ × Memory → ℕ × Memory
end_text buf (pos, m) = (pos, write m (buf + pos) 0)

-- `size - 1` wraps to 2^32 - 1 for the size 0.
unfoldable pub snprintf : ℕ → ℕ → ℕ → ℕ → (ℕ → ℕ) → Memory → Option (ℕ × Memory)
snprintf fuel buf size fmt args m = elim (format_from fuel fmt args 0 buf (sub_u32 size 1) 0 m) [
  | none ↦ none
  | some r ↦ some (end_text buf r)
]
