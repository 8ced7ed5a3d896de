-- ===== src/Text/Split/Steps.antt =====
-- What `append_char` does, and the call of `realloc` that it shares with `end_token`.
use mathlib.Core.Path.{subst}
use my_operating_system.Base.{
  sym, ℕ, ◌+◌, ◌^◌, ◌≤◌, ◌<◌, ◌≡◌, ◌≢◌, ◌⊎◌, inl, inr, refl, ap, ◌∙◌, arith, true, false, List, [],
  ◌∷◌, ◌++◌, length, length-append, ◌==◌, u16,
}
use my_operating_system.Memory.{Memory, write}
use my_operating_system.Memory.Spans.{bytes_at-split}
use my_operating_system.Heap.{Heap, heap_base, realloc}
use my_operating_system.Heap.Valid.{IsValid}
use my_operating_system.Heap.Blocks.{SameBlocks}
use my_operating_system.Heap.Grow.{Regrown, realloc-Regrown}
use my_operating_system.Machine.{Machine, call_realloc, store, str_set_error}
use my_operating_system.Text.Split.{Split, append_char, append_at}
use my_operating_system.Text.Split.Owned.{Owned, Owned-same}
use my_operating_system.Text.Split.Known.{Known, Known-Array}
use my_operating_system.Text.{alloc_fail}
use my_operating_system.Text.Split.State.{Failed, Outside, Holds, Stepped, went, failed, Extended}
use my_operating_system.Text.Split.Extend.{Buffer-Given, Buffer-IsAddress, Grown-Extended}

-- The call of `realloc` for one more byte in the buffer, and the store there of a value that may
-- depend on the memory.
abbrev pub Grows :
    ℕ
    → ℕ
    → Heap
    → Memory
    → Heap
    → Memory
    → ℕ
    → List (List ℕ)
    → List ℕ
    → ℕ
    → ℕ
    → (Memory → ℕ)
    → ℕ × Heap × Memory
    → Type 0
Grows buffer n h m h0 m0 left ws cur dest count v (q, h1, m1) =
    IsValid h1
    × Outside m0 m1
    × (((q ≡ 0) × (m1 ≡ m) × SameBlocks h h1)
        ⊎ ((q ≢ 0) × Extended h0 m0 left ws cur dest count (v m1) q h1 (write m1 (q + n) (v m1))))

module _ (h0 : Heap) (m0 : Memory) (cost left : ℕ) (ws : List (List ℕ)) (cur : List ℕ) (st : Split)
    (s : Machine) (holds : Holds h0 m0 (cost + left) ws cur st s)
    (cheap : length cur + 2 ≤ cost) where
  pub realloc-Grows :
      (v : Memory → ℕ)
      → Grows st.buffer st.current_count s.heap s.ata.memory h0 m0 left ws cur st.dest st.count v
          (realloc st.buffer (st.current_count + 1) s.heap s.ata.memory)
  realloc-Grows v =
      let n = holds.current in
      let room = holds.room in
      let (cap, given, fits) = Buffer-Given s.heap s.ata.memory st.buffer cur holds.buffer in
      go cap fits (realloc st.buffer (st.current_count + 1) s.heap s.ata.memory) (
        realloc-Regrown st.buffer cap (st.current_count + 1) s.heap s.ata.memory holds.valid
          holds.bytes given (omega arith) (omega (arith, room, n)) (omega (arith, room, n)))
    where
      go :
          (cap : ℕ)
          → length cur ≤ cap
          → (r : ℕ × Heap × Memory)
          → Regrown st.buffer cap (st.current_count + 1) s.heap s.ata.memory r
          → Grows st.buffer st.current_count s.heap s.ata.memory h0 m0 left ws cur st.dest st.count
              v r
      go cap fits (q, h1, m1) (v1, inl (z, same, blocks)) =
          (v1, λ x o. ap (λ (m : Memory). m x) same ∙ holds.outside x o, inl (z, same, blocks))
      go cap fits (q, h1, m1) (v1, inr (ne, g)) = (
        v1,
        λ x o. g.outside x o ∙ holds.outside x o,
        inr (
          ne,
          Grown-Extended h0 m0 cost left ws cur st s holds (v m1) q h1 m1 v1 cap fits cheap g,
        ),
      )

  -- Without a block for the buffer all is as before.
  pub no_block-Failed :
      (h1 : Heap) (m1 : Memory)
      → IsValid h1
      → Outside m0 m1
      → m1 ≡ s.ata.memory
      → SameBlocks s.heap h1
      → Failed h0 m0 st
          (record s { heap = h1; ata = record s.ata { memory = m1 }; str_error = alloc_fail })
  no_block-Failed h1 m1 v1 out same blocks = record {
    valid = v1;
    outside = out;
    error = refl;
    owned =
        subst (λ (m : Memory). Owned h0 h1 m st.dest st.count st.buffer) (sym same)
          (Owned-same h0 s.heap h1 s.ata.memory st.dest st.count st.buffer blocks holds.owned);
    known =
        subst (λ (m : Memory). Known m st.dest st.count st.buffer) (sym same)
          (Known-Array s.heap s.ata.memory st.dest st.count st.buffer ws holds.valid holds.count
            holds.array
            (Buffer-IsAddress s.heap s.ata.memory st.buffer cur holds.valid holds.buffer));
  }

  -- The byte behind the characters is the next character.
  Extended-Holds :
      (q : ℕ) (h1 : Heap) (m1 : Memory)
      → (str c : ℕ) → m0 str ≡ c
      → (str < heap_base) ⊎ (heap_base + 2 ^ 16 ≤ str)
      → m1 str ≡ m0 str
      → Extended h0 m0 left ws cur st.dest st.count
          (m1 str)
          q
          h1
          (write m1 (q + st.current_count) (m1 str))
      → Holds h0 m0 left ws
          (cur ++ (c ∷ []))
          (record st { buffer = q; current_count = u16 (st.current_count + 1) })
          (record s {
            heap = h1;
            ata = record s.ata { memory = write m1 (q + st.current_count) (m1 str) };
          })
  Extended-Holds q h1 m1 str c e away same x =
      let m2 : Memory = write m1 (q + st.current_count) (m1 str) in
      let n = holds.current in
      let room = holds.room in
      let len = length-append cur (c ∷ []) in
      let large = x.large in
      let last = x.last in
      let byte = x.bytes str in
      let seen = x.outside str away in
      let there : m2 (q + length cur) ≡ c = omega (arith, last, byte, seen, same, e) in
      record {
        valid = x.valid;
        bytes = x.bytes;
        outside = x.outside;
        room = x.room;
        count = holds.count;
        current = omega (arith, n, room, len);
        array = x.array;
        buffer = inr (
          x.extent,
          x.live,
          omega (arith, len),
          omega (arith, len, large),
          bytes_at-split m2 q (q + length cur) (length cur) 1 (length (cur ++ (c ∷ []))) refl len
              ∙ ap (λ (l : List ℕ). l ++ (m2 (q + length cur) ∷ [])) x.text
              ∙ ap (λ (y : ℕ). cur ++ (y ∷ [])) there,
        );
        owned = x.owned;
      }

  pub append_char-Stepped :
      (str c : ℕ)
      → m0 str ≡ c
      → (str < heap_base) ⊎ (heap_base + 2 ^ 16 ≤ str)
      → Stepped h0 m0 (Holds h0 m0 left ws (cur ++ (c ∷ []))) (append_char str st s)
  unfolding append_char append_at call_realloc store str_set_error
  append_char-Stepped str c e away =
      let m' = (realloc st.buffer (st.current_count + 1) s.heap s.ata.memory).2 in
      let h' = (realloc st.buffer (st.current_count + 1) s.heap s.ata.memory).1 in
      let q = (realloc st.buffer (st.current_count + 1) s.heap s.ata.memory).0 in
      let (v1, out, grows) = realloc-Grows (λ m. m str) in
      elim grows [
        | inl (z, same, blocks) ↦
            let null : (q == 0) ≡ true = ground (arith, z) in
            rw null (failed (no_block-Failed h' m' v1 out same blocks))
        | inr (ne, x) ↦
            let some_block : (q == 0) ≡ false = ground (arith, ne) in
            rw some_block (went (Extended-Holds q h' m' str c e away (out str away) x))
      ]
