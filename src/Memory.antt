-- ===== src/Memory.antt =====
-- The byte memory, and the block functions of kernel/MEMORY_MANAGMENT/memory_managment.c
-- (`memset`, `memcpy`) and kernel/UTILS/utils.c (`memcmp`).
-- An address is a number; the flat memory gives each address its byte. A loop that counts `n`
-- down is a recursion on `n`.
pub mod Blocks
pub mod Spans
use my_operating_system.Base.{ℕ, zero, suc, ◌+◌, ◌==◌, if◌then◌else◌, u8}
use my_operating_system.Base.Signed.{ℤ, pos, sub_ℕ}

abbrev pub Memory : Type 0
Memory = ℕ → ℕ

-- The store of one byte.
unfoldable pub write : Memory → ℕ → ℕ → Memory
write m a v x = if x == a then u8 v else m x

-- The loop of `memset`, with `n` rounds left at the pointer `p`.
unfoldable pub memset : ℕ → ℕ → ℕ → Memory → Memory
memset p c zero m = m
memset p c (suc n) m = memset (p + 1) c n (write m p c)

-- The loop of `memcpy`: it copies upwards, a byte at a time.
unfoldable pub memcpy : ℕ → ℕ → ℕ → Memory → Memory
memcpy d s zero m = m
memcpy d s (suc n) m = memcpy (d + 1) (s + 1) n (write m d (m s))

-- The loop of `memcmp`, with `n` bytes left at the pointers `p` and `q`.
unfoldable pub memcmp : ℕ → ℕ → ℕ → Memory → ℤ
memcmp p q zero m = pos 0
memcmp p q (suc n) m = if m p == m q then memcmp (p + 1) (q + 1) n m else sub_ℕ (m p) (m q)
