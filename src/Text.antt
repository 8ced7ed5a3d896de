-- ===== src/Text.antt =====
-- The string functions of kernel/STRING/string.c that work in place, over the byte memory. The
-- walk to a terminating zero has no bound in the source; here it has a number of steps that it may
-- take, and `none` says that they ran out.
pub mod Length
pub mod Split
use my_operating_system.Base.{
  ℕ, zero, suc, ◌+◌, ◌-◌, ◌<◌, Bool, Option, none, some, ◌&&◌, ltb, leb, ◌==◌, ◌!=◌, if◌then◌else◌,
  u8,
}
use my_operating_system.Base.Signed.{ℤ, sub_ℕ, pos}
use my_operating_system.Memory.{Memory, write}

-- `str_error_t`, the kinds that the functions set.
pub data StrError : Type 0 where
  str_none alloc_fail invalid_arg overflow internal : StrError

-- The loop of `strlen`, at the pointer `p`.
unfoldable pub strlen_from : ℕ → Memory → ℕ → ℕ → Option ℕ
strlen_from zero m p len = none
strlen_from (suc f) m p len =
    let rest = strlen_from f m (p + 1) (len + 1) in if m p == 0 then some len else rest

unfoldable pub strlen : ℕ → Memory → ℕ → StrError × Option ℕ
strlen fuel m s = if s == 0 then (invalid_arg, some 0) else (str_none, strlen_from fuel m s 0)

-- The loop of `strcmp`, at the pointers `a` and `b`; bytes are compared as `unsigned char`.
unfoldable pub strcmp_from : ℕ → Memory → ℕ → ℕ → Option ℤ
strcmp_from zero m a b = none
strcmp_from (suc f) m a b =
    let rest = strcmp_from f m (a + 1) (b + 1) in
    if m a != 0 && (m a == m b) then rest else some (sub_ℕ (m a) (m b))

unfoldable pub strcmp : ℕ → Memory → ℕ → ℕ → StrError × Option ℤ
strcmp fuel m a b =
    if a == 0
    then (invalid_arg, some (pos 0))
    else if b == 0
    then (invalid_arg, some (pos 0))
    else (str_none, strcmp_from fuel m a b)

-- The second loop of `strncpy`: zeroes up to `n`, with `k` places left.
unfoldable pub pad : ℕ → ℕ → Memory → Memory
pad p zero m = m
pad p (suc k) m = pad (p + 1) k (write m p 0)

-- The first loop of `strncpy`, with `k` places left, and what follows it.
unfoldable pub strncpy_from : ℕ → ℕ → ℕ → Memory → Memory
strncpy_from dest src zero m = m
strncpy_from dest src (suc k) m =
    if m src == 0
    then pad dest (suc k) m
    else strncpy_from (dest + 1) (src + 1) k (write m dest (m src))

-- A negative `n` is refused like a NULL argument; here `n` is the count of a call that is not.
unfoldable pub strncpy : ℕ → ℕ → ℕ → Memory → StrError × ℕ × Memory
strncpy dest src n m =
    if dest == 0
    then (invalid_arg, 0, m)
    else if src == 0
    then (invalid_arg, 0, m)
    else (str_none, dest, strncpy_from dest src n m)

-- The second loop of `strncat`, with `k` characters left, and the zero behind them.
unfoldable pub strncat_from : ℕ → ℕ → ℕ → Memory → Memory
strncat_from dest src zero m = write m dest 0
strncat_from dest src (suc k) m =
    let rest = strncat_from (dest + 1) (src + 1) k (write m dest (m src)) in
    if m src == 0 then write m dest 0 else rest

-- A negative `n` is refused like a NULL argument. The first loop is the walk of `strlen`; `none` says
-- that its steps ran out.
unfoldable pub strncat : ℕ → ℕ → ℕ → ℕ → Memory → StrError × Option (ℕ × Memory)
strncat fuel dest src n m =
    if dest == 0
    then (invalid_arg, some (0, m))
    else if src == 0
    then (invalid_arg, some (0, m))
    else (
      str_none,
      elim (strlen_from fuel m dest 0) [
        | none ↦ none
        | some i ↦ some (dest, strncat_from (dest + i) src n m)
      ],
    )

-- The loop of `utf16_to_ascii`, where `units` gives the code units of the source.
unfoldable pub ascii_from : (ℕ → ℕ) → ℕ → ℕ → ℕ → Memory → Memory
ascii_from units dest i zero m = m
ascii_from units dest i (suc n) m =
    ascii_from units dest (i + 1) n
      (write m (dest + i) (if leb (units i) 0x7F then units i else b'?'))

-- Both pointers are other than NULL.
unfoldable pub utf16_to_ascii : (ℕ → ℕ) → ℕ → ℕ → Memory → ℕ × Memory
utf16_to_ascii units len dest m = (len, write (ascii_from units dest 0 len m) (dest + len) 0)
