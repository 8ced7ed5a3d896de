-- ===== src/Text/Split/Owned.antt =====
-- Which blocks in use are the function's own, and which were in use before it.
use native.Mathlib.Decide.{ℕ_discrete}
use my_operating_system.Base.{
  ℕ, ◌+◌, ◌*◌, ◌^◌, ◌≤◌, ◌<◌, ◌≡◌, ◌⊎◌, inl, inr, ap, ◌∙◌, sym, arith, List, length,
}
use my_operating_system.Memory.{Memory}
use my_operating_system.Heap.{Heap}
use my_operating_system.Heap.Valid.{IsValid}
use my_operating_system.Heap.Blocks.{Live, Live-range, SameBlocks}
use my_operating_system.Heap.Grow.{Grown}
use my_operating_system.Machine.{long_at}
use my_operating_system.Text.Split.{place_of}
use my_operating_system.Text.Split.Tokens.{Array}
use my_operating_system.Text.Split.Frames.{Within, other_block, Array-slots}
use my_operating_system.Text.Split.Stored.{stored, stored-slot, stored-place, stored-Within}

-- The addresses of the buffer, the array and the tokens.
abbrev pub Own : Memory → ℕ → ℕ → ℕ → ℕ → Type 0
Own m dest count buffer t =
    (t ≡ buffer) ⊎ (t ≡ dest) ⊎ ((j : ℕ) × (j < count) × (t ≡ long_at m (place_of dest j)))

-- The blocks in use are those of `h0` and those of the function, which are others.
pub record Owned (h0 h : Heap) (m : Memory) (dest count buffer : ℕ) : Type 0 where
  pub old : (t k : ℕ) → Live h0 t k → Live h t k × (¬ Own m dest count buffer t)
  pub new : (t k : ℕ) → Live h t k → Live h0 t k ⊎ Own m dest count buffer t

pub Owned-same :
    (h0 h h1 : Heap) (m : Memory) (dest count buffer : ℕ)
    → SameBlocks h h1
    → Owned h0 h m dest count buffer
    → Owned h0 h1 m dest count buffer
Owned-same h0 h h1 m dest count buffer same o = record {
  old = λ t k l. let (l', other) = o.old t k l in (same.0 t k l', other);
  new = λ t k l. o.new t k (same.1 t k l);
}

module _ (src cap size q : ℕ) (h0 h h1 : Heap) (m m1 m2 : Memory) (v : IsValid h) (v1 : IsValid h1)
    (g : Grown src cap size h m q h1 m1) (w : Within m1 m2 q g.extent) where
  -- The buffer has moved from `src` to `q`.
  pub Owned-buffer :
      (dest count : ℕ) (ws : List (List ℕ))
      → count ≡ length ws
      → Array h m dest src ws
      → Owned h0 h m dest count src
      → Owned h0 h1 m2 dest count q
  Owned-buffer dest count ws as_many array o =
      let slot : (j : ℕ) → j < count → long_at m2 (place_of dest j) ≡ long_at m (place_of dest j) =
        λ j lt.
          Array-slots src cap size q h h1 m m1 m2 v v1 g w dest ws array j
            (omega (arith, as_many)) in
      record {
        old = λ t k l0.
            let (l, other) = o.old t k l0 in
            let (l1, apart, _) =
              other_block src cap size q h h1 m m1 m2 v v1 g w t k (λ e. other (inl e)) l in
            (
              l1,
              λ own. elim own [
                | inl e ↦ apart e
                | inr (inl e) ↦ other (inr (inl e))
                | inr (inr (j, lt, e)) ↦ other (inr (inr (j, lt, e ∙ slot j lt)))
              ],
            );
        new = λ t k l1. elim (g.before t k l1) [
          | inr e ↦ inr (inl e)
          | inl (l, ne) ↦ elim (o.new t k l) [
            | inl l0 ↦ inl l0
            | inr (inl e) ↦ absurd (ne e)
            | inr (inr (inl e)) ↦ inr (inr (inl e))
            | inr (inr (inr (j, lt, e))) ↦ inr (inr (inr (j, lt, e ∙ sym (slot j lt))))
          ]
        ];
      }

module _ (dest cap size q p n : ℕ) (ws : List (List ℕ)) (w : List ℕ) (h0 h h1 : Heap)
    (m m1 : Memory) (v : IsValid h) (v1 : IsValid h1) (g : Grown dest cap size h m q h1 m1)
    (as_many : n ≡ length ws) (large : (n + 1) * 4 ≤ size) (held : length ws * 4 ≤ cap) where
  -- The array has moved from `dest` to `q`, and the buffer `p` is the last token.
  pub Owned-stored :
      p < 2 ^ 32
      → Owned h0 h m dest n p
      → Owned h0 h1
          (stored dest cap size q p n ws w h h1 m m1 v v1 g as_many large held)
          q
          (n + 1)
          0
  Owned-stored small o =
      let m2 = stored dest cap size q p n ws w h h1 m m1 v v1 g as_many large held in
      let within = stored-Within dest cap size q p n ws w h h1 m m1 v v1 g as_many large held in
      let last = stored-place dest cap size q p n ws w h h1 m m1 v v1 g as_many large held small in
      let slot : (j : ℕ) → j < n → long_at m2 (place_of q j) ≡ long_at m (place_of dest j) = λ j lt.
        stored-slot dest cap size q p n ws w h h1 m m1 v v1 g as_many large held j
          (omega (arith, as_many)) in
      let place : (j : ℕ) → j ≡ n → long_at m2 (place_of q j) ≡ p =
        λ j e. ap (λ (x : ℕ). long_at m2 (place_of q x)) e ∙ last in
      record {
        old = λ t k l0.
            let (l, other) = o.old t k l0 in
            let (l1, apart, _) =
              other_block dest cap size q h h1 m m1 m2 v v1 g within t k (λ e. other (inr (inl e)))
                l in
            let range = Live-range h v t k l in
            (
              l1,
              λ own. elim own [
                | inl e ↦ omega (arith, e, range)
                | inr (inl e) ↦ apart e
                | inr (inr (j, lt, e)) ↦ elim (ℕ_discrete j n) [
                  | yes is_last ↦ other (inl (e ∙ place j is_last))
                  | no not_last ↦
                      let before : j < n = omega (arith, lt, not_last) in
                      other (inr (inr (j, before, e ∙ slot j before)))
                ]
              ],
            );
        new = λ t k l1. elim (g.before t k l1) [
          | inr e ↦ inr (inr (inl e))
          | inl (l, ne) ↦ elim (o.new t k l) [
            | inl l0 ↦ inl l0
            | inr (inl e) ↦ inr (inr (inr (n, omega arith, e ∙ sym last)))
            | inr (inr (inl e)) ↦ absurd (ne e)
            | inr (inr (inr (j, lt, e))) ↦
                inr (inr (inr (j, omega (arith, lt), e ∙ sym (slot j lt))))
          ]
        ];
      }
