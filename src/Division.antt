-- ===== src/Division.antt =====
-- The divisions of kernel/UTILS/asm_utils.c. The two instructions are parameters: a function of the
-- upper word, the lower word and the divisor, whose result is `none` when the processor raises a
-- divide error. Signed numbers are their words in two's complement.
pub mod Words
use my_operating_system.Base.{ℕ, ◌+◌, ◌*◌, ◌^◌, ◌≤◌, ◌<◌, ◌≡◌, Option, none, some, u32, ◌>>>◌}

-- `divl` or `idivl`: the quotient and the remainder
abbrev pub Divide : Type 0
Divide = ℕ → ℕ → ℕ → Option (ℕ × ℕ)

-- What the processor's manual says of `divl`: a divide error if the quotient does not fit into 32
-- bits, also for the divisor 0, and otherwise the quotient and the remainder.
pub record IsDivl (divl : Divide) : Type 0 where
  pub divides :
      (high low divisor : ℕ)
      → high < divisor
      → low < 2 ^ 32
      → divisor < 2 ^ 32
      → (quotient : ℕ) × (remainder : ℕ) × (divl high low divisor ≡ some (quotient, remainder))
        × (remainder + quotient * divisor ≡ high * 2 ^ 32 + low)
        × (remainder < divisor)
  pub error : (high low divisor : ℕ) → divisor ≤ high → divl high low divisor ≡ none

-- The quotient, and the remainder that is stored at the pointer if there is one.
unfoldable pub div64_32 : Divide → ℕ → ℕ → Option (ℕ × ℕ)
div64_32 divl dividend divisor = divl (u32 (dividend >>> 32)) (u32 dividend) divisor

-- The shift of a signed number fills the upper bits, which the cast cuts off.
unfoldable pub idiv64_32 : Divide → ℕ → ℕ → Option (ℕ × ℕ)
idiv64_32 idivl dividend divisor = idivl (u32 (dividend >>> 32)) (u32 dividend) divisor

unfoldable pub udivdi3 : Divide → ℕ → ℕ → Option ℕ
unfolding div64_32
udivdi3 divl dividend divisor = elim (div64_32 divl dividend (u32 divisor)) [
  | none ↦ none
  | some (quotient, remainder) ↦ some quotient
]

unfoldable pub umoddi3 : Divide → ℕ → ℕ → Option ℕ
unfolding div64_32
umoddi3 divl dividend divisor = elim (div64_32 divl dividend (u32 divisor)) [
  | none ↦ none
  | some (quotient, remainder) ↦ some remainder
]
