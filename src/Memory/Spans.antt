-- ===== src/Memory/Spans.antt =====
-- The bytes of a stretch of memory as a list.
use my_operating_system.Base.{
  ℕ, zero, suc, ◌+◌, ◌≤◌, ◌<◌, ◌≡◌, refl, ap, ◌∙◌, arith, List, [], ◌∷◌, ◌++◌,
}
use my_operating_system.Memory.{Memory}
use my_operating_system.Memory.Blocks.{same_at}

-- The bytes that a caller finds at a pointer.
abbrev pub bytes_at : Memory → ℕ → ℕ → List ℕ
bytes_at m p zero = []
bytes_at m p (suc n) = m p ∷ bytes_at m (p + 1) n

pub bytes_at-kept :
    (m m' : Memory) (p n : ℕ)
    → ((x : ℕ) → p ≤ x → x < p + n → m' x ≡ m x)
    → bytes_at m' p n ≡ bytes_at m p n
bytes_at-kept m m' p zero same = refl
bytes_at-kept m m' p (suc n) same = ground (
  arith,
  same p (omega arith) (omega arith),
  bytes_at-kept m m' (p + 1) n (λ x lo hi. same x (omega arith) (omega arith)),
)

pub bytes_at-copied :
    (m m' : Memory) (p q n : ℕ)
    → ((i : ℕ) → i < n → m' (p + i) ≡ m (q + i))
    → bytes_at m' p n ≡ bytes_at m q n
bytes_at-copied m m' p q zero same = refl
bytes_at-copied m m' p q (suc n) same = ground (
  arith,
  same 0 (omega arith),
  same_at m' (p + 0) p,
  same_at m (q + 0) q,
  bytes_at-copied m m' (p + 1) (q + 1) n (λ i lt.
      same_at m' (p + 1 + i) (p + suc i) (omega arith)
      ∙ same (suc i) (omega arith)
      ∙ same_at m (q + suc i) (q + 1 + i) (omega arith)),
)

pub bytes_at-split :
    (m : Memory) (p q a b n : ℕ)
    → q ≡ p + a
    → n ≡ a + b
    → bytes_at m p n ≡ bytes_at m p a ++ bytes_at m q b
bytes_at-split m p q zero b n e e' =
    let same_p : q ≡ p = omega arith in let same_n : n ≡ b = omega arith in rw (same_p, same_n) refl
bytes_at-split m p q (suc a) b zero e e' = absurd (omega arith)
bytes_at-split m p q (suc a) b (suc n) e e' =
    ap (λ (l : List ℕ). m p ∷ l) (bytes_at-split m (p + 1) q a b n (omega arith) (omega arith))
