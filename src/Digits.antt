-- ===== src/Digits.antt =====
-- Numbers as text: the conversions of kernel/UTILS/utils.c, and `reverse` and `itoa` of
-- kernel/STRING/string.c, over the byte memory. A `static const` table of digits is a function.
pub mod Reverse
pub mod Store
pub mod Convert
use my_operating_system.Base.{
  ℕ, zero, suc, ◌+◌, ◌-◌, ◌*◌, ◌/◌, ◌%◌, ◌^◌, Bool, true, false, ltb, ◌==◌, if◌then◌else◌, u8, u32,
  ◌<<<◌, ◌>>>◌, bit_and, bit_or,
}
use my_operating_system.Memory.{Memory, write}

unfoldable pub combine_u16_to_u32 : ℕ → ℕ → ℕ
combine_u16_to_u32 hi lo = bit_or (hi <<< 16) lo

unfoldable pub combine_u8_to_u16 : ℕ → ℕ → ℕ
combine_u8_to_u16 hi lo = bit_or (hi <<< 8) lo

-- `while (start < end)` exchanges the bytes at the two pointers; `n` bounds the rounds.
unfoldable pub swap_ends : ℕ → ℕ → ℕ → Memory → Memory
swap_ends zero start end m = m
swap_ends (suc n) start end m =
    let rest = swap_ends n (start + 1) (end - 1) (write (write m start (m end)) end (m start)) in
    if ltb start end then rest else m

-- `len` is not 0: with 0 the last index wraps.
unfoldable pub reverse : ℕ → ℕ → Memory → Memory
unfolding swap_ends
reverse str len m = swap_ends len str (str + len - 1) m

-- The table "0123456789ABCDEF", or with small letters.
abbrev pub digit_char : Bool → ℕ → ℕ
digit_char uppercase d = if ltb d 10 then 48 + d else if uppercase then 55 + d else 87 + d

-- The loop `while (value)`, which stores the lowest digit first; it returns the pointer behind the
-- last one. `n` bounds the rounds: 32 are enough for 32 bits in every base.
unfoldable pub put_digits : (ℕ → ℕ) → ℕ → ℕ → ℕ → ℕ → Memory → ℕ × Memory
put_digits digit base zero value p m = (p, m)
put_digits digit base (suc n) value p m =
    let rest = put_digits digit base n (value / base) (p + 1) (write m p (digit (value % base))) in
    if value == 0 then (p, m) else rest

-- The digits with a zero behind them, and then in order; it returns their number.
unfoldable pub to_text : (ℕ → ℕ) → ℕ → ℕ → ℕ → Memory → ℕ × Memory
to_text digit base value buffer m =
    if value == 0
    then (1, write (write m buffer b'0') (buffer + 1) 0)
    else (let (p, m') = put_digits digit base 32 value buffer m in
        (p - buffer, reverse buffer (p - buffer) (write m' p 0)))

unfoldable pub itoa : ℕ → ℕ → ℕ → Bool → Memory → ℕ × Memory
unfolding to_text
itoa val buf base uppercase m = to_text (digit_char uppercase) base val buf m

-- `'0' + (value % 10)`
abbrev pub decimal_char : ℕ → ℕ
decimal_char d = 48 + d

unfoldable pub uint32_to_str : ℕ → ℕ → Memory → Memory
unfolding to_text
uint32_to_str value buffer m = (to_text decimal_char 10 value buffer m).1

unfoldable pub uint16_to_str : ℕ → ℕ → Memory → Memory
unfolding to_text
uint16_to_str value buffer m = (to_text decimal_char 10 value buffer m).1

-- `hex[(value >> shift) & 0xF]`
abbrev pub nibble : ℕ → ℕ → ℕ
nibble value shift = digit_char true (bit_and (value >>> shift) 0xF)

unfoldable pub uint8_to_hex : ℕ → ℕ → Memory → Memory
uint8_to_hex value buffer m =
    write (write (write m buffer (nibble value 4)) (buffer + 1) (nibble value 0)) (buffer + 2) 0

unfoldable pub uint8_to_hex_prefixed : ℕ → ℕ → Memory → Memory
unfolding uint8_to_hex
uint8_to_hex_prefixed value buffer m =
    uint8_to_hex value (buffer + 2) (write (write m buffer b'0') (buffer + 1) b'x')

-- The loop of `uint32_to_hex`: the nibble `n - 1` comes next, the lowest last.
unfoldable pub hex_digits : ℕ → ℕ → ℕ → Memory → Memory
hex_digits zero value p m = write m p 0
hex_digits (suc n) value p m = hex_digits n value (p + 1) (write m p (nibble value (n * 4)))

unfoldable pub uint32_to_hex : ℕ → ℕ → Memory → Memory
unfolding hex_digits
uint32_to_hex value buffer m = hex_digits 8 value buffer m

-- The four stores of `uint16_to_hex` and the zero behind them are the same steps.
unfoldable pub uint16_to_hex : ℕ → ℕ → Memory → Memory
unfolding hex_digits
uint16_to_hex value buffer m = hex_digits 4 value buffer m

unfoldable pub uint16_to_hex_prefixed : ℕ → ℕ → Memory → Memory
unfolding hex_digits
uint16_to_hex_prefixed value buffer m =
    hex_digits 4 value (buffer + 2) (write (write m buffer b'0') (buffer + 1) b'x')
