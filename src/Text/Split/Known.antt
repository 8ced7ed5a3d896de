-- ===== src/Text/Split/Known.antt =====
-- The addresses that the label `fail` of `strsplit` gives to `free`.
use mathlib.Core.Path.{subst}
use my_operating_system.Base.{
  ℕ, zero, suc, ◌+◌, ◌<◌, ◌≡◌, ◌⊎◌, inl, inr, ap, arith, List, [], ◌∷◌, length,
}
use my_operating_system.Memory.{Memory}
use my_operating_system.Heap.{Heap}
use my_operating_system.Heap.Valid.{IsValid}
use my_operating_system.Heap.Without.{IsAddress, Live-IsAddress}
use my_operating_system.Machine.{long_at}
use my_operating_system.Text.Split.{place_of}
use my_operating_system.Text.Split.Tokens.{Tokens, Array}

-- Where the heap's own addresses are, so that `free` can be given them.
pub record Known (m : Memory) (dest count buffer : ℕ) : Type 0 where
  pub buffer_at : (buffer ≡ 0) ⊎ IsAddress buffer
  pub array_at :
      ((dest ≡ 0) × (count ≡ 0))
      ⊎ (IsAddress dest × ((j : ℕ) → j < count → IsAddress (long_at m (place_of dest j))))

Tokens-IsAddress :
    (h : Heap) (m : Memory) (a b k : ℕ) (ws : List (List ℕ)) (j : ℕ)
    → IsValid h
    → Tokens h m a b k ws
    → j < length ws
    → IsAddress (long_at m (place_of a (k + j)))
Tokens-IsAddress h m a b k [] j v tokens lt = absurd (omega arith)
Tokens-IsAddress h m a b k (w ∷ ws) zero v (token, tokens) lt =
    let same : k + 0 ≡ k = omega arith in
    rw same (Live-IsAddress h (long_at m (place_of a k)) token.extent v token.live)
Tokens-IsAddress h m a b k (w ∷ ws) (suc j) v (token, tokens) lt =
    let same : k + suc j ≡ k + 1 + j = omega arith in
    rw same (Tokens-IsAddress h m a b (k + 1) ws j v tokens (omega arith))

pub Known-Array :
    (h : Heap) (m : Memory) (dest count buffer : ℕ) (ws : List (List ℕ))
    → IsValid h
    → count ≡ length ws
    → Array h m dest buffer ws
    → (buffer ≡ 0) ⊎ IsAddress buffer
    → Known m dest count buffer
Known-Array h m dest count buffer ws v as_many array at = record {
  buffer_at = at;
  array_at = elim array [
    | inl (z, none) ↦
        let empty = ap (λ (l : List (List ℕ)). length l) none in
        inl (z, omega (arith, as_many, empty))
    | inr (n, live, ne, room, tokens, distinct) ↦ inr (
      Live-IsAddress h dest n v live,
      λ j lt.
          let same : 0 + j ≡ j = omega arith in
          subst (λ (i : ℕ). IsAddress (long_at m (place_of dest i))) same
            (Tokens-IsAddress h m dest buffer 0 ws j v tokens (omega (arith, as_many, lt))),
    )
  ];
}
