-- ===== src/Digits/Convert.antt =====
-- The text that `itoa`, `uint32_to_str` and `uint16_to_str` write, read back as a number.
use my_operating_system.Base.{
  ℕ, zero, suc, ◌+◌, ◌-◌, ◌/◌, ◌%◌, ◌^◌, ◌≤◌, ◌<◌, ◌≡◌, ◌≢◌, ◌⊎◌, inl, inr, refl, ap, ◌∙◌, arith,
  Bool, false, ltb, leb, ◌==◌, ◌&&◌, if◌then◌else◌, Bool-cases,
}
use native.Mathlib.Decide.{ℕ_discrete}
use my_operating_system.Memory.{Memory, write}
use my_operating_system.Memory.Blocks.{IsBytes, same_at, write-IsBytes}
use my_operating_system.Digits.{
  put_digits, to_text, reverse, itoa, digit_char, decimal_char, uint32_to_str, uint16_to_str,
}
use my_operating_system.Digits.Reverse.{reverse_lem}
use my_operating_system.Digits.Store.{
  digit_count, digit_count_step, read_number, read_number-reversed, put_digits-end,
  put_digits-outside, Reads, put_digits-value, put_digits-top, digit_count-le,
}

-- The text that a conversion leaves at `buffer`: `n` digits, read as a number highest first give
-- `value`, the first is 0 only if it is alone, and a zero ends them. No other byte has changed.
pub record IsNumber (digit_value : ℕ → ℕ) (base value buffer n : ℕ) (m m' : Memory) : Type 0 where
  pub reads : read_number digit_value base m' buffer n ≡ value
  pub leading : (n ≡ 1) ⊎ (digit_value (m' buffer) ≢ 0)
  pub ends : m' (buffer + n) ≡ 0
  pub kept : (x : ℕ) → (x < buffer) ⊎ (buffer + n < x) → m' x ≡ m x

module _ (digit digit_value : ℕ → ℕ) (base : ℕ) (ok : Reads digit digit_value base) where
  put_digits-IsBytes :
      (n value p : ℕ) (m : Memory) → IsBytes m → IsBytes (put_digits digit base n value p m).1
  unfolding put_digits
  put_digits-IsBytes zero value p m b = b
  put_digits-IsBytes (suc n) value p m b = elim (Bool-cases (value == 0)) [
    | inl e ↦ rw e b
    | inr e ↦ rw e (
        put_digits-IsBytes n (value / base) (p + 1) (write m p (digit (value % base)))
          (write-IsBytes m p _ b))
  ]

  to_text-zero :
      (buffer : ℕ) (m : Memory)
      → let (n, m') = to_text digit base 0 buffer m in
        (n ≡ 1) × IsNumber digit_value base 0 buffer n m m'
  unfolding to_text write read_number
  to_text-zero buffer m = (
    refl,
    record {
      reads = ground (arith, ok.zero_digit);
      leading = inl refl;
      ends = ground arith;
      kept = λ x h. ground arith;
    },
  )

  module _ (value buffer : ℕ) (m : Memory) (small : value < 2 ^ 32) (ne : value ≢ 0)
      (bytes : IsBytes m) where
    count : ℕ
    count = digit_count base 32 value

    stored : Memory
    stored = (put_digits digit base 32 value buffer m).1

    turned : Memory
    turned = reverse buffer count (write stored (buffer + count) 0)

    count_pos : 0 < count
    unfolding count
    count_pos = rw (digit_count_step base 31 value ne) (omega arith)

    turned_at :
        (x : ℕ)
        → turned x ≡ (
            if leb buffer x && ltb x (buffer + count)
            then stored (buffer + (buffer + count - 1) - x)
            else if x == buffer + count
            then 0
            else stored x)
    unfolding turned stored
    turned_at x =
        reverse_lem buffer count _ x
          (write-IsBytes _ (buffer + count) 0 (put_digits-IsBytes 32 value buffer m bytes))
          count_pos
        ∙ unfold write in ground (arith, count_pos)

    top : digit_value (stored (buffer + count - 1)) ≢ 0
    unfolding stored count
    top = put_digits-top digit digit_value base ok 32 value buffer m small ne

    outside : (x : ℕ) → (x < buffer) ⊎ (buffer + count ≤ x) → stored x ≡ m x
    unfolding stored count
    outside x h = put_digits-outside digit base 32 value buffer m x h

    turned-IsNumber : IsNumber digit_value base value buffer count m turned
    turned-IsNumber = record {
      reads =
          read_number-reversed digit_value base stored turned buffer buffer count (λ i lt. ground (
            arith,
            turned_at (buffer + i),
            same_at stored (buffer + (buffer + count - 1) - (buffer + i))
                (buffer + (count - 1 - i)),
          ))
          ∙ unfold stored count in
            put_digits-value digit digit_value base ok 32 value buffer m small;
      leading = inr (λ z. top (
          ground (
            arith,
            turned_at buffer,
            count_pos,
            z,
            ap digit_value (turned_at buffer),
            same_at stored (buffer + (buffer + count - 1) - buffer) (buffer + count - 1),
          )));
      ends = ground (arith, turned_at (buffer + count));
      kept = λ x h. ground (arith, turned_at x, count_pos, outside x);
    }

    nonzero : (v : ℕ) → v ≢ 0 → (v == 0) ≡ false
    nonzero v h = ground arith

    to_text-turned : to_text digit base value buffer m ≡ (count, turned)
    unfolding to_text turned stored count
    to_text-turned =
        let end = put_digits-end digit base 32 value buffer m in
        let len : (put_digits digit base 32 value buffer m).0 - buffer ≡ digit_count base 32 value =
          omega (arith, end) in
        rw (nonzero value ne, len, end) refl

  -- The bytes of `m` are bytes; `n` digits are enough for `value` where it is below `base ^ n`.
  pub to_text_lem :
      (value buffer j : ℕ) (m : Memory)
      → value < 2 ^ 32
      → value < base ^ j
      → 0 < j
      → IsBytes m
      → let (n, m') = to_text digit base value buffer m in
        (0 < n) × (n ≤ j) × IsNumber digit_value base value buffer n m m'
  to_text_lem value buffer j m small fits pos b = elim (ℕ_discrete value 0) [
    | yes e ↦
        let (one, number) = to_text-zero buffer m in
        rw (e) (omega (arith, one), omega (arith, one), number)
    | no ne ↦ rw (to_text-turned value buffer m small ne b) (
      count_pos value buffer m small ne b,
      unfold count in digit_count-le base j 32 value (omega (arith, ok.base_large)) fits,
      turned-IsNumber value buffer m small ne b,
    )
  ]

-- The digit that a character stands for, in either case.
abbrev pub char_value : ℕ → ℕ
char_value c = if ltb c 58 then c - 48 else if ltb c 97 then c - 55 else c - 87

digit_char-Reads :
    (uppercase : Bool) (base : ℕ)
    → 2 ≤ base
    → base ≤ 16
    → Reads (digit_char uppercase) char_value base
digit_char-Reads uppercase base lo hi = record {
  base_large = lo;
  digit_read = λ d h. ground arith;
  digit_small = λ d h. ground arith;
  zero_digit = refl;
}

-- What `itoa` writes for a 32-bit value in a base from 2 to 16, read with the highest digit first,
-- is the value. There is no leading zero but in "0", a zero byte ends the text, and no byte outside
-- of the text and that zero changes. The result is the length, at most `j` where the value is below
-- `base ^ j`.
pub itoa_lem :
    (val buf base j : ℕ) (uppercase : Bool) (m : Memory)
    → val < 2 ^ 32
    → 2 ≤ base
    → base ≤ 16
    → val < base ^ j
    → 0 < j
    → IsBytes m
    → let (n, m') = itoa val buf base uppercase m in
      (0 < n) × (n ≤ j) × IsNumber char_value base val buf n m m'
unfolding itoa
itoa_lem val buf base j uppercase m small lo hi fits pos b =
    to_text_lem (digit_char uppercase) char_value base (digit_char-Reads uppercase base lo hi) val
      buf j m small fits pos b

abbrev pub decimal_value : ℕ → ℕ
decimal_value c = c - 48

decimal-Reads : Reads decimal_char decimal_value 10
decimal-Reads = record {
  base_large = omega arith;
  digit_read = λ d h. omega arith;
  digit_small = λ d h. omega arith;
  zero_digit = refl;
}

-- `uint32_to_str` and `uint16_to_str` write the value in decimal: at most 10 digits, or 5, that read
-- back as the value, with no leading zero but in "0", a zero byte behind them, and no other byte
-- changed.
pub uint_to_str_lem :
    (value buffer : ℕ) (m : Memory)
    → IsBytes m
    → (value < 2 ^ 32
        → (n : ℕ) × (0 < n)
          × (n ≤ 10)
          × IsNumber decimal_value 10 value buffer n m (uint32_to_str value buffer m))
      × (value < 2 ^ 16
          → (n : ℕ) × (0 < n)
            × (n ≤ 5)
            × IsNumber decimal_value 10 value buffer n m (uint16_to_str value buffer m))
unfolding uint32_to_str uint16_to_str
uint_to_str_lem value buffer m b =
    let lem = to_text_lem decimal_char decimal_value 10 decimal-Reads value buffer in
    let n = (to_text decimal_char 10 value buffer m).0 in
    (
      λ h. let (a, c, d) = lem 10 m h (omega arith) (omega arith) b in (n, a, c, d),
      λ h. let (a, c, d) = lem 5 m (omega arith) (omega arith) (omega arith) b in (n, a, c, d),
    )
