-- ===== src/Digits/Reverse.antt =====
-- What `reverse` does to each byte.
use my_operating_system.Base.{
  ℕ, zero, suc, ◌+◌, ◌-◌, ◌*◌, ◌<◌, ◌≡◌, inl, inr, arith, true, ltb, leb, ◌==◌, ◌&&◌, if◌then◌else◌,
  Bool-cases, ◌∙◌,
}
use my_operating_system.Memory.{Memory, write}
use my_operating_system.Memory.Blocks.{IsBytes, same_at, write-IsBytes}
use my_operating_system.Digits.{swap_ends, reverse}

-- One round exchanges two bytes.
exchange_lem :
    (m : Memory) (a b x : ℕ)
    → IsBytes m
    → write (write m a (m b)) b (m a) x ≡ (if x == b then m a else if x == a then m b else m x)
unfolding write
exchange_lem m a b x bytes = ground (arith, bytes a, bytes b)

-- The loop maps each address between the pointers to the one as far from the other end.
swap_ends_lem :
    (n start end : ℕ) (m : Memory) (x : ℕ)
    → IsBytes m
    → end < start + 2 * n
    → swap_ends n start end m x ≡ (if leb start x && leb x end then m (start + end - x) else m x)
unfolding swap_ends
swap_ends_lem zero start end m x b h = ground (arith, same_at m (start + end - x) x)
swap_ends_lem (suc n) start end m x b h = elim (Bool-cases (ltb start end)) [
  | inl lt ↦
      let m' = write (write m start (m end)) end (m start) in
      let b' = write-IsBytes _ end (m start) (write-IsBytes m start (m end) b) in
      rw (lt) (
        swap_ends_lem n (start + 1) (end - 1) m' x b' (ground arith)
        ∙ inner_round start end m x b lt)
  | inr ge ↦ rw (ge) (ground (arith, same_at m (start + end - x) x))
]
  where
    inner_round :
        (start end : ℕ) (m : Memory) (x : ℕ)
        → IsBytes m
        → ltb start end ≡ true
        → (if leb (start + 1) x && leb x (end - 1)
            then write (write m start (m end)) end (m start) (start + 1 + (end - 1) - x)
            else write (write m start (m end)) end (m start) x)
          ≡ (if leb start x && leb x end then m (start + end - x) else m x)
    inner_round start end m x b lt = ground (
      arith,
      exchange_lem m start end x b,
      exchange_lem m start end (start + 1 + (end - 1) - x) b,
      same_at m (start + end - x) start,
      same_at m (start + end - x) end,
      same_at m (start + 1 + (end - 1) - x) (start + end - x),
    )

-- `reverse` puts the `len` bytes from `str` on in the opposite order and changes no other.
pub reverse_lem :
    (str len : ℕ) (m : Memory) (x : ℕ)
    → IsBytes m
    → 0 < len
    → reverse str len m x
      ≡ (if leb str x && ltb x (str + len) then m (str + (str + len - 1) - x) else m x)
unfolding reverse
reverse_lem str len m x b h =
    ground (arith, swap_ends_lem len str (str + len - 1) m x b (omega arith))
