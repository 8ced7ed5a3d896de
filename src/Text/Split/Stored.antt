-- ===== src/Text/Split/Stored.antt =====
-- The array of tokens when it moves and takes one more.
use native.Mathlib.Nat.{zero-add}
use native.Mathlib.Decide.{ℕ_discrete}
use my_operating_system.Base.{
  ℕ, ◌+◌, ◌*◌, ◌^◌, ◌≤◌, ◌<◌, ◌≡◌, ◌≢◌, ◌⊎◌, inl, inr, refl, ap, ◌∙◌, sym, arith, List, [], ◌∷◌,
  ◌++◌, length, length-append, ◌>>>◌,
}
use my_operating_system.Memory.{Memory, write}
use my_operating_system.Memory.Blocks.{same_at, IsBytes, write-IsBytes}
use my_operating_system.Memory.Spans.{bytes_at, bytes_at-kept}
use my_operating_system.Heap.{Heap}
use my_operating_system.Heap.Valid.{IsValid}
use my_operating_system.Heap.Blocks.{Live, Live-range}
use my_operating_system.Heap.Grow.{Grown, Given}
use my_operating_system.Machine.{long_at, write_long}
use my_operating_system.Text.Split.{place_of}
use my_operating_system.Text.Split.Tokens.{
  Token, Tokens, Array, Frame, Tokens-kept, Tokens-append, Tokens-apart, Distinct, long_at-same,
}
use my_operating_system.Text.Split.Frames.{Within, other_block}

write_long-at : (m : Memory) (p v : ℕ) → v < 2 ^ 32 → long_at (write_long m p v) p ≡ v
unfolding write_long write
write_long-at m p v h = ground arith

pub write_long-outside : (m : Memory) (p v x : ℕ) → (x < p) ⊎ (p + 4 ≤ x) → write_long m p v x ≡ m x
unfolding write_long write
write_long-outside m p v x o = ground arith

pub write_long-IsBytes : (m : Memory) (p v : ℕ) → IsBytes m → IsBytes (write_long m p v)
unfolding write_long
write_long-IsBytes m p v b =
    write-IsBytes _ (p + 3) (v >>> 24) (
      write-IsBytes _ (p + 2) (v >>> 16)
        (write-IsBytes _ (p + 1) (v >>> 8) (write-IsBytes m p v b)))

-- The block at `p` holds the text `w`, which a zero ends.
pub record Ended (h : Heap) (m : Memory) (p : ℕ) (w : List ℕ) : Type 0 where
  pub extent : ℕ
  pub live : Live h p extent
  pub room : length w < extent
  pub text : bytes_at m p (length w) ≡ w
  pub ended : m (p + length w) ≡ 0

Ended-Token :
    {h h1 : Heap} {m m2 : Memory} {q p : ℕ} {w : List ℕ}
    → ((k : ℕ)
        → Live h p k
        → Live h1 p k × (p ≢ q) × (p ≢ 0) × ((x : ℕ) → p ≤ x → x < p + k → m2 x ≡ m x))
    → Ended h m p w
    → Token h1 m2 q 0 p w
Ended-Token {m = m} {m2 = m2} {p = p} {w = w} frame ended =
    let (live, not_a, not_b, same) = frame ended.extent ended.live in
    let room = ended.room in
    record {
      extent = ended.extent;
      live = live;
      not_array = not_a;
      not_buffer = not_b;
      room = room;
      text = bytes_at-kept m m2 p (length w) (λ x lo hi. same x lo (omega arith)) ∙ ended.text;
      ended = same (p + length w) (omega arith) (omega arith) ∙ ended.ended;
    }

-- What the array is for `realloc`.
pub Array-Given :
    (h : Heap) (m : Memory) (dest p : ℕ) (ws : List (List ℕ))
    → Array h m dest p ws
    → (cap : ℕ) × Given h dest cap × (length ws * 4 ≤ cap)
Array-Given h m dest p ws (inl (z, none)) =
    let empty = ap (λ (l : List (List ℕ)). length l) none in
    (0, inl (z, refl), omega (arith, empty))
Array-Given h m dest p ws (inr (n, live, ne, room, tokens, distinct)) = (n, inr live, room)

module _ (dest cap size q p n : ℕ) (ws : List (List ℕ)) (w : List ℕ) (h h1 : Heap) (m m1 : Memory)
    (v : IsValid h) (v1 : IsValid h1) (g : Grown dest cap size h m q h1 m1)
    (as_many : n ≡ length ws) (large : (n + 1) * 4 ≤ size) (held : length ws * 4 ≤ cap) where
  abbrev pub stored : Memory
  stored = write_long m1 (place_of q n) p

  pub stored-Within : Within m1 stored q g.extent
  stored-Within x o = let big = g.large in write_long-outside m1 (place_of q n) p x (omega arith)

  pub stored-slot :
      (j : ℕ) → j < length ws → long_at stored (place_of q j) ≡ long_at m (place_of dest j)
  stored-slot j lt = long_at-same m stored (place_of dest j) (place_of q j) λ i four.
      write_long-outside m1 (place_of q n) p (place_of q j + i) (omega arith)
      ∙ same_at m1 (q + j * 4 + i) (q + (j * 4 + i)) (omega arith)
      ∙ g.copied (j * 4 + i) (omega arith)
      ∙ same_at m (dest + (j * 4 + i)) (dest + j * 4 + i) (omega arith)

  pub stored-place : p < 2 ^ 32 → long_at stored (place_of q n) ≡ p
  stored-place small = write_long-at m1 (place_of q n) p small

  stored-last : p < 2 ^ 32 → long_at stored (place_of q (length ws)) ≡ p
  stored-last small =
      ap (λ (j : ℕ). long_at stored (place_of q j)) (sym as_many)
      ∙ write_long-at m1 (place_of q n) p small

  stored-Distinct : Array h m dest p ws → p < 2 ^ 32 → Distinct stored q (length ws + 1)
  stored-Distinct (inl (z, none)) small i j lt hi =
      let empty = ap (λ (l : List (List ℕ)). length l) none in absurd (omega (arith, empty))
  stored-Distinct (inr (k, live, ne, room, tokens, distinct)) small i j lt hi =
      elim (ℕ_discrete j (length ws)) [
        | yes last ↦ λ e.
            let zero_i : 0 + i ≡ i = omega arith in
            let apart = Tokens-apart h m dest p 0 ws i tokens (omega arith) in
            apart (
              ap (λ (x : ℕ). long_at m (place_of dest x)) zero_i
              ∙ sym (stored-slot i (omega arith))
              ∙ e
              ∙ ap (λ (x : ℕ). long_at stored (place_of q x)) last
              ∙ stored-last small)
        | no before ↦
            rw (stored-slot i (omega arith), stored-slot j (omega arith))
              (distinct i j lt (omega arith))
      ]

  -- The array of `p`, with the buffer at `p` behind its tokens, has moved from `dest` to `q`.
  pub Array-stored : Array h m dest p ws → Ended h m p w → Array h1 stored q 0 (ws ++ (w ∷ []))
  Array-stored array ended =
      let other = other_block dest cap size q h h1 m m1 stored v v1 g stored-Within in
      let range = Live-range h v p ended.extent ended.live in
      let big = g.large in
      let frame : Frame h m dest p h1 stored q 0 = λ t k not_a not_b l.
        let (l1, apart, kept) = other t k not_a l in
        let at = Live-range h v t k l in (l1, apart, omega (arith, at), kept) in
      let apart : p ≢ dest = elim array [
        | inl (z, none) ↦ omega (arith, range, z)
        | inr (k, live, ne, room, tokens, distinct) ↦ λ e. ne (sym e)
      ] in
      let token : Token h1 stored q 0 p w =
        Ended-Token
          (λ k l. let (l1, ne, kept) = other p k apart l in (l1, ne, omega (arith, range), kept))
          ended in
      let slot : long_at stored (place_of q (0 + length ws)) ≡ p =
        ap (λ (j : ℕ). long_at stored (place_of q j)) (zero-add (length ws))
        ∙ stored-last (omega (arith, range)) in
      let old : Array h m dest p ws → Tokens h1 stored q 0 0 ws = λ arr. elim arr [
        | inl (z, none) ↦ rw none tt
        | inr (k, live, ne, room, tokens, distinct) ↦
            Tokens-kept {a = dest} {b = p} {a' = q} {b' = 0} 0 ws frame
              (λ j lt. stored-slot j (omega arith)) tokens
      ] in
      let qs = Live-range h1 v1 q g.extent g.live in
      inr (
        g.extent,
        g.live,
        omega (arith, qs),
        omega (arith, length-append ws (w ∷ []), big),
        Tokens-append 0 ws w (old array) (rw slot token),
        λ i j lt hi.
            stored-Distinct array (omega (arith, range)) i j lt
              (omega (arith, length-append ws (w ∷ []))),
      )
