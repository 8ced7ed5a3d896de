-- ===== src/Text/Length.antt =====
-- What the string functions find in a terminated string.
use my_operating_system.Base.{
  ℕ, zero, suc, ◌+◌, ◌-◌, ◌<◌, ◌≡◌, ◌≢◌, ◌↔◌, arith, some, ◌&&◌, ltb, leb, ◌==◌, if◌then◌else◌, ap,
}
use native.Mathlib.Decide.{ℕ_discrete}
use my_operating_system.Base.Signed.{ℤ, sub_ℕ, pos}
use my_operating_system.Memory.{Memory, write}
use my_operating_system.Text.{
  str_none, strlen_from, strlen, strcmp_from, strcmp, ascii_from, utf16_to_ascii,
}

-- At `p` there is a string of `n` bytes, none of them zero, and a zero behind them.
abbrev pub IsText : Memory → ℕ → ℕ → Type 0
IsText m p zero = m p ≡ 0
IsText m p (suc n) = (m p ≢ 0) × IsText m (p + 1) n

strlen_from_lem :
    (f n : ℕ) (m : Memory) (p len : ℕ)
    → IsText m p n
    → n < f
    → strlen_from f m p len ≡ some (len + n)
unfolding strlen_from
strlen_from_lem zero n m p len t h = absurd (omega arith)
strlen_from_lem (suc f) zero m p len t h = ground arith
strlen_from_lem (suc f) (suc n) m p len t h =
    ground (arith, strlen_from_lem f n m (p + 1) (len + 1) t.1 (omega arith))

-- With more steps than the string has bytes, `strlen` of a terminated string returns their number.
pub strlen_lem :
    (fuel n : ℕ) (m : Memory) (s : ℕ)
    → s ≢ 0
    → IsText m s n
    → n < fuel
    → strlen fuel m s ≡ (str_none, some n)
unfolding strlen
strlen_lem fuel n m s nz t h = ground (arith, strlen_from_lem fuel n m s 0 t h)

-- The strings at the two pointers are the same, byte by byte, to their ends.
abbrev pub SameText : Memory → ℕ → ℕ → ℕ → Type 0
SameText m a b zero = m b ≡ 0
SameText m a b (suc n) = (m a ≡ m b) × SameText m (a + 1) (b + 1) n

strcmp_from_lem :
    (f n : ℕ) (m : Memory) (a b : ℕ)
    → IsText m a n
    → n < f
    → (d : ℤ) × (strcmp_from f m a b ≡ some d) × ((d ≡ pos 0) ↔ SameText m a b n)
unfolding strcmp_from
strcmp_from_lem zero n m a b t h = absurd (omega arith)
strcmp_from_lem (suc f) zero m a b t h = (sub_ℕ (m a) (m b), ground arith, ground arith)
strcmp_from_lem (suc f) (suc n) m a b t h = elim (ℕ_discrete (m a) (m b)) [
  | yes e ↦
      let (d, runs, same) = strcmp_from_lem f n m (a + 1) (b + 1) t.1 (omega arith) in
      (d, ground arith, ((λ z. (e, same.0 z)), (λ st. same.1 st.1)))
  | no ne ↦ (sub_ℕ (m a) (m b), ground arith, ground arith)
]

-- With more steps than the first string has bytes, `strcmp` returns, and it returns 0 exactly if
-- the two strings are the same to their ends.
pub strcmp_lem :
    (fuel n : ℕ) (m : Memory) (a b : ℕ)
    → a ≢ 0
    → b ≢ 0
    → IsText m a n
    → n < fuel
    → (d : ℤ) × (strcmp fuel m a b ≡ (str_none, some d)) × ((d ≡ pos 0) ↔ SameText m a b n)
unfolding strcmp
strcmp_lem fuel n m a b na nb t h =
    let (d, runs, same) = strcmp_from_lem fuel n m a b t h in (d, ground arith, same)

ascii_from_lem :
    (units : ℕ → ℕ) (dest i n : ℕ) (m : Memory) (x : ℕ)
    → ascii_from units dest i n m x ≡ (
        if leb (dest + i) x && ltb x (dest + i + n)
        then (if leb (units (x - dest)) 0x7F then units (x - dest) else b'?')
        else m x)
unfolding ascii_from write
ascii_from_lem units dest i zero m x = ground arith
ascii_from_lem units dest i (suc n) m x = ground (
  arith,
  ascii_from_lem units dest (i + 1) n
      (write m (dest + i) (if leb (units i) 0x7F then units i else b'?')) x,
  units_at,
)
  where
    units_at : x ≡ dest + i → units (x - dest) ≡ units i
    units_at e = let same : x - dest ≡ i = omega arith in ap units same

-- `utf16_to_ascii` writes `len` bytes and a zero behind them: each code unit up to 0x7F as it is,
-- and a question mark for any other. Nothing else is written.
pub utf16_to_ascii_lem :
    (units : ℕ → ℕ) (len dest : ℕ) (m : Memory) (x : ℕ)
    → (utf16_to_ascii units len dest m).1 x ≡ (
        if x == dest + len
        then 0
        else if leb dest x && ltb x (dest + len)
        then (if leb (units (x - dest)) 0x7F then units (x - dest) else b'?')
        else m x)
unfolding utf16_to_ascii write
utf16_to_ascii_lem units len dest m x = ground (arith, ascii_from_lem units dest 0 len m x)
