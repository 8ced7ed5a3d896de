-- ===== src/Text/Split/Frames.antt =====
-- The array of tokens when the buffer moves.
use my_operating_system.Base.{
  ℕ, ◌+◌, ◌≤◌, ◌<◌, ◌≡◌, ◌≢◌, ◌⊎◌, inl, inr, refl, ap, ◌∙◌, arith, List, length,
}
use my_operating_system.Memory.{Memory}
use my_operating_system.Heap.{Heap}
use my_operating_system.Heap.Valid.{IsValid}
use my_operating_system.Heap.Blocks.{Live, Live-range, Live-apart}
use my_operating_system.Heap.Grow.{Grown}
use my_operating_system.Machine.{long_at}
use my_operating_system.Text.Split.{place_of}
use my_operating_system.Text.Split.Tokens.{Array, Frame, Tokens-kept, long_at-same}

-- The memory `m2` differs from `m1` inside of the block only.
abbrev pub Within : Memory → Memory → ℕ → ℕ → Type 0
Within m1 m2 q n = (x : ℕ) → (x < q) ⊎ (q + n ≤ x) → m2 x ≡ m1 x

module _ (src cap size q : ℕ) (h h1 : Heap) (m m1 m2 : Memory) (v : IsValid h) (v1 : IsValid h1)
    (g : Grown src cap size h m q h1 m1) (w : Within m1 m2 q g.extent) where
  pub other_block :
      (t k : ℕ)
      → t ≢ src
      → Live h t k
      → Live h1 t k × (t ≢ q) × ((x : ℕ) → t ≤ x → x < t + k → m2 x ≡ m x)
  other_block t k ne live =
      let range = Live-range h v t k live in
      let live1 = g.others t k ne live in
      let apart : t ≢ q = elim g.position [
        | inl e ↦ λ e'. ne (e' ∙ e)
        | inr le ↦ omega (arith, range, le)
      ] in
      let sides = Live-apart h1 v1 t k q g.extent live1 g.live apart in
      (live1, apart, λ x lo hi. w x (omega (arith, sides)) ∙ g.below x (omega (arith, range)))

  -- The array is not in the block that has moved.
  pub Array-slots :
      (dest : ℕ) (ws : List (List ℕ))
      → Array h m dest src ws
      → (j : ℕ) → j < length ws
      → long_at m2 (place_of dest j) ≡ long_at m (place_of dest j)
  Array-slots dest ws (inl (z, none)) j lt =
      let empty = ap (λ (l : List (List ℕ)). length l) none in absurd (omega (arith, empty))
  Array-slots dest ws (inr (n, live, ne, room, tokens, distinct)) j lt =
      let (live1, apart, same) = other_block dest n ne live in
      long_at-same m m2 (place_of dest j) (place_of dest j)
        (λ i four. same (place_of dest j + i) (omega arith) (omega arith))

  -- The buffer has moved from `src` to `q`.
  pub Array-buffer : (dest : ℕ) (ws : List (List ℕ)) → Array h m dest src ws → Array h1 m2 dest q ws
  Array-buffer dest ws (inl none) = inl none
  Array-buffer dest ws (inr (n, live, ne, room, tokens, distinct)) =
      let (live1, apart, same) = other_block dest n ne live in
      let slot = Array-slots dest ws (inr (n, live, ne, room, tokens, distinct)) in
      inr (
        n,
        live1,
        apart,
        room,
        Tokens-kept {a = dest} {b = src} {a' = dest} {b' = q} 0 ws
            (λ t k not_a not_b l.
              let (l1, other, kept) = other_block t k not_b l in (l1, not_a, other, kept))
            (λ j lt. slot j (omega arith)) tokens,
        λ i j lt hi. rw (slot i (omega arith), slot j hi) (distinct i j lt hi),
      )

-- Without the buffer the array is an array still.
pub Array-forget :
    (h : Heap) (m : Memory) (dest buffer : ℕ) (ws : List (List ℕ))
    → IsValid h
    → Array h m dest buffer ws
    → Array h m dest 0 ws
Array-forget h m dest buffer ws v (inl none) = inl none
Array-forget h m dest buffer ws v (inr (n, live, ne, room, tokens, distinct)) =
    let range = Live-range h v dest n live in
    let frame : Frame h m dest buffer h m dest 0 = λ t k not_a not_b l.
      let at = Live-range h v t k l in (l, not_a, omega (arith, at), λ x lo hi. refl) in
    inr (
      n,
      live,
      omega (arith, range),
      room,
      Tokens-kept {a = dest} {b = buffer} {a' = dest} {b' = 0} 0 ws frame (λ j lt. refl) tokens,
      distinct,
    )
