-- ===== src/Division/Words.antt =====
-- When the 64-bit division of the compiler's helper functions is the division of the numbers.
use native.Mathlib.Nat.{
  add-mul-div_right, div-eq_of_lt, add-mul-mod_self_right, mod-eq_of_lt, div-lt_iff_lt-mul,
  zero-add,
}
use native.Mathlib.Decide.{dec_lt}
use my_operating_system.Base.{
  ℕ, ◌+◌, ◌*◌, ◌/◌, ◌%◌, ◌^◌, ◌≤◌, ◌<◌, ◌≡◌, refl, ◌⊎◌, inl, inr, sym, ap, ◌∙◌, arith, none, some,
  u32,
}
use my_operating_system.Division.{Divide, IsDivl, div64_32, udivdi3, umoddi3}

quotient_unique : (n d q r : ℕ) → r + q * d ≡ n → r < d → n / d ≡ q
quotient_unique n d q r e lt =
    ap (λ (t : ℕ). t / d) (sym e)
    ∙ add-mul-div_right r q (omega (arith, lt))
    ∙ ap (λ (t : ℕ). t + q) (div-eq_of_lt lt)
    ∙ zero-add q

remainder_unique : (n d q r : ℕ) → r + q * d ≡ n → r < d → n % d ≡ r
remainder_unique n d q r e lt =
    ap (λ (t : ℕ). t % d) (sym e) ∙ add-mul-mod_self_right r q d ∙ mod-eq_of_lt lt

-- The two helper functions for dividends and divisors of 64 bits. Where the lower word of the
-- divisor is above the upper word of the dividend they give the quotient and the remainder of a
-- division by that lower word, which is the divisor if that has 32 bits. In all other cases, and so
-- for every quotient by a divisor of 32 bits that has more than 32 bits, the processor raises a
-- divide error.
pub udivdi3_lem :
    (divl : Divide) (dividend divisor : ℕ)
    → IsDivl divl
    → dividend < 2 ^ 64
    → ((dividend / 2 ^ 32 < u32 divisor)
        × (udivdi3 divl dividend divisor ≡ some (dividend / u32 divisor))
        × (umoddi3 divl dividend divisor ≡ some (dividend % u32 divisor)))
      ⊎ ((u32 divisor ≤ dividend / 2 ^ 32)
          × (udivdi3 divl dividend divisor ≡ none)
          × (umoddi3 divl dividend divisor ≡ none))
unfolding udivdi3 umoddi3 div64_32
udivdi3_lem divl dividend divisor v small =
    let d = u32 divisor in
    let high : u32 (dividend / 2 ^ 32) ≡ dividend / 2 ^ 32 = omega arith in
    elim (dec_lt (dividend / 2 ^ 32) d) [
      | yes lt ↦
          let (q, r, e, sum, r_lt) =
            v.divides (u32 (dividend / 2 ^ 32)) (u32 dividend) d (rw high lt) (omega arith)
              (omega arith) in
          let total : r + q * d ≡ dividend = sum ∙ omega arith in
          inl (
            lt,
            rw (udivdi3, e) (ap some (sym (quotient_unique dividend d q r total r_lt))),
            rw (umoddi3, e) (ap some (sym (remainder_unique dividend d q r total r_lt))),
          )
      | no ge ↦
          let e = v.error (u32 (dividend / 2 ^ 32)) (u32 dividend) d (rw high (omega arith)) in
          inr (omega arith, rw (udivdi3, e) refl, rw (umoddi3, e) refl)
    ]

-- A divisor of 32 bits: the helper functions divide exactly when the quotient has 32 bits.
pub udivdi3-fits :
    (divl : Divide) (dividend divisor : ℕ)
    → IsDivl divl
    → dividend < 2 ^ 64
    → 0 < divisor
    → divisor < 2 ^ 32
    → ((dividend / divisor < 2 ^ 32)
        × (udivdi3 divl dividend divisor ≡ some (dividend / divisor))
        × (umoddi3 divl dividend divisor ≡ some (dividend % divisor)))
      ⊎ ((2 ^ 32 ≤ dividend / divisor)
          × (udivdi3 divl dividend divisor ≡ none)
          × (umoddi3 divl dividend divisor ≡ none))
udivdi3-fits divl dividend divisor v small pos fits =
    let same : u32 divisor ≡ divisor = omega arith in
    let (to, from) = div-lt_iff_lt-mul {k = divisor} {x = dividend} {y = 2 ^ 32} pos in
    elim (udivdi3_lem divl dividend divisor v small) [
      | inl (lt, q, r) ↦ inl (
        from (omega (arith, lt, same)),
        q ∙ ap (λ (d : ℕ). some (dividend / d)) same,
        r ∙ ap (λ (d : ℕ). some (dividend % d)) same,
      )
      | inr (ge, q, r) ↦ elim (dec_lt (dividend / divisor) (2 ^ 32)) [
        | yes lt ↦ absurd (omega (arith, to lt, ge, same))
        | no large ↦ inr (omega arith, q, r)
      ]
    ]
