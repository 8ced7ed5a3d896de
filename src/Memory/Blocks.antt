-- ===== src/Memory/Blocks.antt =====
-- What `memset`, `memcpy` and `memcmp` do to and say of each byte.
use my_operating_system.Base.{
  ℕ, zero, suc, ◌+◌, ◌≤◌, ◌<◌, ◌≡◌, ◌⊎◌, refl, ap, arith, ltb, leb, ◌&&◌, if◌then◌else◌, u8,
}
use my_operating_system.Memory.{Memory, write, memset, memcpy}

-- Every byte of memory is a byte.
abbrev pub IsBytes : Memory → Type 0
IsBytes m = (a : ℕ) → m a < 256

-- Equal addresses hold equal bytes.
pub same_at : (m : Memory) (a b : ℕ) → a ≡ b → m a ≡ m b
same_at m a b e = ap m e

-- `memset` stores `(unsigned char)c` at each of the `n` addresses from `s` on, and changes no
-- other byte.
pub memset_lem :
    (s c n : ℕ) (m : Memory) (x : ℕ)
    → memset s c n m x ≡ (if leb s x && ltb x (s + n) then u8 c else m x)
unfolding memset write
memset_lem s c zero m x = ground arith
memset_lem s c (suc n) m x = ground (arith, memset_lem (s + 1) c n (write m s c) x)

-- Outside of the destination `memcpy` changes nothing.
pub memcpy_outside :
    (d s n : ℕ) (m : Memory) (x : ℕ) → (x < d) ⊎ (d + n ≤ x) → memcpy d s n m x ≡ m x
unfolding memcpy write
memcpy_outside d s zero m x h = refl
memcpy_outside d s (suc n) m x h =
    ground (arith, memcpy_outside (d + 1) (s + 1) n (write m d (m s)) x)

pub write-IsBytes : (m : Memory) (a v : ℕ) → IsBytes m → IsBytes (write m a v)
unfolding write
write-IsBytes m a v b x = ground (arith, b x)

pub memcpy-IsBytes : (d s n : ℕ) (m : Memory) → IsBytes m → IsBytes (memcpy d s n m)
unfolding memcpy
memcpy-IsBytes d s zero m b = b
memcpy-IsBytes d s (suc n) m b =
    memcpy-IsBytes (d + 1) (s + 1) n (write m d (m s)) (write-IsBytes m d (m s) b)

-- Where the destination does not begin inside of the source, behind its first byte, `memcpy`
-- leaves at each destination byte the source byte as it was before the call.
pub memcpy_inside :
    (d s n : ℕ) (m : Memory)
    → IsBytes m
    → (d ≤ s) ⊎ (s + n ≤ d)
    → (i : ℕ) → i < n
    → memcpy d s n m (d + i) ≡ m (s + i)
unfolding memcpy write
memcpy_inside d s zero m b h i lt = absurd (omega arith)
memcpy_inside d s (suc n) m b h zero lt =
    ground (arith, memcpy_outside (d + 1) (s + 1) n (write m d (m s)) (d + 0), b s)
memcpy_inside d s (suc n) m b h (suc i) lt = ground (
  arith,
  memcpy_inside (d + 1) (s + 1) n (write m d (m s)) (write-IsBytes m d (m s) b) (omega arith) i,
)

-- Where the destination does not begin inside of the source, behind its first byte, `memcpy`
-- leaves at each of the `n` destination bytes the source byte as it was before the call, and
-- every byte outside of the destination as it was.
pub memcpy_lem :
    (d s n : ℕ) (m : Memory)
    → IsBytes m
    → (d ≤ s) ⊎ (s + n ≤ d)
    → ((i : ℕ) → i < n → memcpy d s n m (d + i) ≡ m (s + i))
      × ((x : ℕ) → (x < d) ⊎ (d + n ≤ x) → memcpy d s n m x ≡ m x)
memcpy_lem d s n m b h = (memcpy_inside d s n m b h, memcpy_outside d s n m)
