-- ===== src/Digits/Store.antt =====
-- The loop that stores the digits of a number, lowest first.
use my_operating_system.Base.{
  ℕ, zero, suc, ◌+◌, ◌-◌, ◌*◌, ◌/◌, ◌%◌, ◌^◌, ◌≤◌, ◌<◌, ◌≡◌, ◌≢◌, ◌⊎◌, inl, refl, ap, ◌∙◌, arith,
  ◌==◌, if◌then◌else◌,
}
use native.Mathlib.Decide.{ℕ_discrete}
use native.Mathlib.Nat.{mod-lt, mod-add-div, div-lt_iff_lt-mul, pow-suc, pow-zero}
use my_operating_system.Memory.{Memory, write}
use my_operating_system.Memory.Blocks.{same_at}
use my_operating_system.Digits.{put_digits}

-- The digits that a number has; `n` bounds them.
pub digit_count : ℕ → ℕ → ℕ → ℕ
digit_count base zero value = 0
digit_count base (suc n) value =
    let rest = digit_count base n (value / base) in if value == 0 then 0 else rest + 1

digit_count-zero : (base n value : ℕ) → value ≡ 0 → digit_count base n value ≡ 0
unfolding digit_count
digit_count-zero base zero value h = refl
digit_count-zero base (suc n) value h = ground arith

pub digit_count_step :
    (base n value : ℕ)
    → value ≢ 0
    → digit_count base (suc n) value ≡ suc (digit_count base n (value / base))
unfolding digit_count
digit_count_step base n value h = ground arith

put_digits_step :
    (digit : ℕ → ℕ) (base n value p : ℕ) (m : Memory)
    → value ≢ 0
    → put_digits digit base (suc n) value p m
      ≡ put_digits digit base n (value / base) (p + 1) (write m p (digit (value % base)))
unfolding put_digits
put_digits_step digit base n value p m h = ground arith

module _ (digit_value : ℕ → ℕ) (base : ℕ) where
  -- The number that `n` digits from `p` on make up, the lowest first.
  pub lowest_first : Memory → ℕ → ℕ → ℕ
  lowest_first m p zero = 0
  lowest_first m p (suc n) = digit_value (m p) + base * lowest_first m (p + 1) n

  -- The same with the highest first, as a reader takes them.
  unfoldable pub read_number : Memory → ℕ → ℕ → ℕ
  read_number m p zero = 0
  read_number m p (suc n) = read_number m p n * base + digit_value (m (p + n))

  pub read_number-reversed :
      (m m' : Memory) (p q n : ℕ)
      → ((i : ℕ) → i < n → m' (p + i) ≡ m (q + (n - 1 - i)))
      → read_number m' p n ≡ lowest_first m q n
  unfolding read_number lowest_first
  read_number-reversed m m' p q zero h = refl
  read_number-reversed m m' p q (suc n) h = omega (
    arith,
    ap (λ (t : ℕ). t * base)
        (read_number-reversed m m' p (q + 1) n
          (λ i lt. h i (omega arith) ∙ same_at m _ _ (omega arith))),
    ap digit_value (h n (omega arith) ∙ same_at m (q + (suc n - 1 - n)) q (omega arith)),
  )

module _ (digit : ℕ → ℕ) (base : ℕ) where
  pub put_digits-end :
      (n value p : ℕ) (m : Memory)
      → (put_digits digit base n value p m).0 ≡ p + digit_count base n value
  unfolding put_digits digit_count
  put_digits-end zero value p m = ground arith
  put_digits-end (suc n) value p m =
      ground (arith, put_digits-end n (value / base) (p + 1) (write m p (digit (value % base))))

  pub put_digits-outside :
      (n value p : ℕ) (m : Memory) (x : ℕ)
      → (x < p) ⊎ (p + digit_count base n value ≤ x)
      → (put_digits digit base n value p m).1 x ≡ m x
  unfolding put_digits digit_count write
  put_digits-outside zero value p m x h = refl
  put_digits-outside (suc n) value p m x h =
      ground
        (arith, put_digits-outside n (value / base) (p + 1) (write m p (digit (value % base))) x)

-- `digit_value` reads back the characters that `digit` gives to the digits of the base.
pub record Reads (digit digit_value : ℕ → ℕ) (base : ℕ) : Type 0 where
  pub base_large : 2 ≤ base
  pub digit_read : (d : ℕ) → d < base → digit_value (digit d) ≡ d
  pub digit_small : (d : ℕ) → d < base → digit d < 256
  pub zero_digit : digit_value b'0' ≡ 0

double-le : (a b : ℕ) → 2 ≤ b → a * 2 ≤ a * b
double-le a b h = grind arith

module _ (digit digit_value : ℕ → ℕ) (base : ℕ) (ok : Reads digit digit_value base) where
  -- The first digit stored stays as the rest is stored behind it.
  put_digits-first :
      (n value p : ℕ) (m : Memory)
      → digit_value
          ((put_digits digit base n (value / base) (p + 1) (write m p (digit (value % base)))).1 p)
        ≡ value % base
  unfolding write
  put_digits-first n value p m =
      let d = value % base in
      let small : d < base = mod-lt value (omega (arith, ok.base_large)) in
      let kept : (put_digits digit base n (value / base) (p + 1) (write m p (digit d))).1 p
          ≡ digit d =
        put_digits-outside digit base n (value / base) (p + 1) (write m p (digit d)) p
          (inl (omega arith))
        ∙ ground (arith, ok.digit_small d small) in
      ap digit_value kept ∙ ok.digit_read d small

  half : (n value : ℕ) → value < 2 ^ suc n → value / base < 2 ^ n
  half n value h =
      (div-lt_iff_lt-mul {k = base} {x = value} {y = 2 ^ n} (omega (arith, ok.base_large))).1
        (omega (arith, pow-suc 2 n, double-le (2 ^ n) base ok.base_large))

  pub put_digits-value :
      (n value p : ℕ) (m : Memory)
      → value < 2 ^ n
      → lowest_first digit_value base
          (put_digits digit base n value p m).1
          p
          (digit_count base n value)
        ≡ value
  unfolding lowest_first
  put_digits-value zero value p m h = unfold digit_count in omega arith
  put_digits-value (suc n) value p m h = elim (ℕ_discrete value 0) [
    | yes e ↦ rw (digit_count-zero base (suc n) value e) (omega arith)
    | no ne ↦
        rw (put_digits_step digit base n value p m ne, digit_count_step base n value ne)
          (omega (
            arith,
            put_digits-first n value p m,
            ap (λ (t : ℕ). base * t)
                (put_digits-value n (value / base) (p + 1) (write m p (digit (value % base)))
                  (half n value h)),
            mod-add-div value base,
          ))
  ]

  -- The highest digit is not zero.
  pub put_digits-top :
      (n value p : ℕ) (m : Memory)
      → value < 2 ^ n
      → value ≢ 0
      → digit_value ((put_digits digit base n value p m).1 (p + digit_count base n value - 1)) ≢ 0
  put_digits-top zero value p m h pos = absurd (omega arith)
  put_digits-top (suc n) value p m h pos =
      rw (put_digits_step digit base n value p m pos, digit_count_step base n value pos)
        (elim (ℕ_discrete (value / base) 0) [
          | yes e ↦ λ z. pos (
              omega (
                arith,
                mod-add-div value base,
                ap (λ (t : ℕ). base * t) e,
                put_digits-first n value p m,
                at_index value p (p + suc (digit_count base n (value / base)) - 1) p
                    (omega (arith, digit_count-zero base n (value / base) e)),
                z,
              ))
          | no ne ↦ λ z.
              put_digits-top n (value / base) (p + 1) (write m p (digit (value % base)))
                (half n value h) ne (at_index value p _ _ (omega arith) ∙ z)
        ])
    where
      at_index :
          (value p a b : ℕ)
          → a ≡ b
          → digit_value (
              (put_digits digit base n (value / base) (p + 1) (write m p (digit (value % base)))).1
                a)
            ≡ digit_value (
                (put_digits digit base n
                    (value / base)
                    (p + 1)
                    (write m p (digit (value % base)))).1
                  b)
      at_index value p a b e =
          ap
            (λ (t : ℕ). digit_value (
              (put_digits digit base n (value / base) (p + 1) (write m p (digit (value % base)))).1
                t))
            e

pub digit_count-le :
    (base j n value : ℕ) → 0 < base → value < base ^ j → digit_count base n value ≤ j
digit_count-le base j zero value b h = unfold digit_count in omega arith
digit_count-le base zero (suc n) value b h =
    rw (digit_count-zero base (suc n) value (omega (arith, pow-zero base))) (omega arith)
digit_count-le base (suc j) (suc n) value b h = elim (ℕ_discrete value 0) [
  | yes e ↦ rw (digit_count-zero base (suc n) value e) (omega arith)
  | no ne ↦ rw (digit_count_step base n value ne) (
      omega (
        arith,
        digit_count-le base j n (value / base) b (
            (div-lt_iff_lt-mul {k = base} {x = value} {y = base ^ j} b).1
              (rw (← pow-suc base j) h)),
      ))
]
