-- ===== src/Base/Bits.antt =====
-- `&` with a mask of low bits and `|` of disjoint fields, as arithmetic, at every width;
-- and properties of a small range that are checked value by value.
use Prim.Native.Nat.{ℕ, zero, suc, ◌+◌, ◌-◌, ◌*◌, ◌/◌, ◌%◌, ◌^◌, ◌≤◌, ◌<◌, min, max}
use Prim.Native.Nat.{bit_and, bit_or, digits, bit_and-bitwise, bit_or-bitwise}
use mathlib.Core.Path.{◌≡◌, refl, ap}
use mathlib.Core.Bool.{Bool, true, ◌&&◌}
use native.Mathlib.Nat.{pow-suc, one-le-pow}
use native.Mathlib.Omega.{arith}

-- Both operations run `digits` on a count of binary places. Two counts that cover the first
-- number give one result, so each operation is known by its lowest digit and its halves.
module _ (rest : ℕ → ℕ) (digit : ℕ → ℕ → ℕ) where
  digits-covered : (n m a b : ℕ) → a ≤ n → a ≤ m → digits rest digit n a b ≡ digits rest digit m a b
  digits-covered zero zero a b hn hm = refl
  digits-covered zero (suc m) zero b hn hm = refl
  digits-covered zero (suc m) (suc a) b hn hm = absurd (omega arith)
  digits-covered (suc n) zero zero b hn hm = refl
  digits-covered (suc n) zero (suc a) b hn hm = absurd (omega arith)
  digits-covered (suc n) (suc m) zero b hn hm = refl
  digits-covered (suc n) (suc m) (suc a) b hn hm =
      ap (λ (t : ℕ). t * 2 + digit (suc a % 2) (b % 2))
        (digits-covered n m (suc a / 2) (b / 2) (omega arith) (omega arith))

and_halves : (a b : ℕ) → bit_and a b ≡ bit_and (a / 2) (b / 2) * 2 + min (a % 2) (b % 2)
and_halves zero b = omega (arith, bit_and-bitwise 0 b, bit_and-bitwise 0 (b / 2))
and_halves (suc a) b = omega (
  arith,
  bit_and-bitwise (suc a) b,
  bit_and-bitwise (suc a / 2) (b / 2),
  digits-covered (λ y. zero) min a (suc a / 2) (suc a / 2) (b / 2) (omega arith) (omega arith),
)

or_halves : (a b : ℕ) → bit_or a b ≡ bit_or (a / 2) (b / 2) * 2 + max (a % 2) (b % 2)
or_halves zero b = omega (arith, bit_or-bitwise 0 b, bit_or-bitwise 0 (b / 2))
or_halves (suc a) b = omega (
  arith,
  bit_or-bitwise (suc a) b,
  bit_or-bitwise (suc a / 2) (b / 2),
  digits-covered (λ y. y) max a (suc a / 2) (suc a / 2) (b / 2) (omega arith) (omega arith),
)

or-zero_below : (n a : ℕ) → a ≤ n → bit_or a 0 ≡ a
or-zero_below n zero h = refl
or-zero_below zero (suc a) h = absurd (omega arith)
or-zero_below (suc n) (suc a) h =
    omega (arith, or_halves (suc a) 0, or-zero_below n (suc a / 2) (omega arith))

and-zero_below : (n a : ℕ) → a ≤ n → bit_and a 0 ≡ 0
and-zero_below n zero h = refl
and-zero_below zero (suc a) h = absurd (omega arith)
and-zero_below (suc n) (suc a) h =
    omega (arith, and_halves (suc a) 0, and-zero_below n (suc a / 2) (omega arith))

and_mask-sum : (k hi lo : ℕ) → lo < 2 ^ k → bit_and (hi * 2 ^ k + lo) (2 ^ k - 1) ≡ lo
and_mask-sum zero hi lo h = omega (arith, and-zero_below (hi * 1 + lo) (hi * 1 + lo))
and_mask-sum (suc k) hi lo h = ground (
  arith,
  and_halves (hi * 2 ^ suc k + lo) (2 ^ suc k - 1),
  ap (λ (t : ℕ). hi * t) (pow-suc 2 k),
  pow-suc 2 k,
  one-le-pow k 2,
  and_mask-sum k hi (lo / 2) (omega (arith, pow-suc 2 k)),
)

-- `x & (2^k - 1)` is the remainder by 2^k.
pub bit_and_low : (k x : ℕ) → bit_and x (2 ^ k - 1) ≡ x % 2 ^ k
bit_and_low k x = ground (arith, one-le-pow k 2, and_mask-sum k (x / 2 ^ k) (x % 2 ^ k))

-- A mask whose low bits are 0 sees the high field alone.
pub bit_and_high :
    (k hi lo mask : ℕ)
    → lo < 2 ^ k
    → bit_and (hi * 2 ^ k + lo) (mask * 2 ^ k) ≡ bit_and hi mask * 2 ^ k
bit_and_high zero hi lo mask h =
    let same : hi * 2 ^ 0 + lo ≡ hi = omega arith in
    let same_mask : mask * 2 ^ 0 ≡ mask = omega arith in rw (same, same_mask) (omega arith)
bit_and_high (suc k) hi lo mask h = ground (
  arith,
  and_halves (hi * 2 ^ suc k + lo) (mask * 2 ^ suc k),
  ap (λ (t : ℕ). hi * t) (pow-suc 2 k),
  ap (λ (t : ℕ). mask * t) (pow-suc 2 k),
  ap (λ (t : ℕ). bit_and hi mask * t) (pow-suc 2 k),
  pow-suc 2 k,
  bit_and_high k hi (lo / 2) mask (omega (arith, pow-suc 2 k)),
)

-- `(hi <<< k) | lo` is their sum where `lo` fits the low bits.
pub bit_or_join : (k hi lo : ℕ) → lo < 2 ^ k → bit_or (hi * 2 ^ k) lo ≡ hi * 2 ^ k + lo
bit_or_join zero hi lo h = ground (arith, or-zero_below hi hi)
bit_or_join (suc k) hi lo h = ground (
  arith,
  or_halves (hi * 2 ^ suc k) lo,
  ap (λ (t : ℕ). hi * t) (pow-suc 2 k),
  pow-suc 2 k,
  bit_or_join k hi (lo / 2) (omega (arith, pow-suc 2 k)),
)

-- A test of every value below a bound.
abbrev pub all_below : ℕ → (ℕ → Bool) → Bool
all_below zero p = true
all_below (suc n) p = p n && all_below n p

pub all_below_at : (n : ℕ) (p : ℕ → Bool) (x : ℕ) → all_below n p ≡ true → x < n → p x ≡ true
all_below_at zero p x all h = absurd (omega arith)
all_below_at (suc n) p x all h = ground (arith, all_below_at n p x)
