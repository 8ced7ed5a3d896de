-- ===== src/Text/Split/End.antt =====
-- What `end_token` does: a token more in the array.
use mathlib.Core.Path.{subst}
use my_operating_system.Base.{
  sym, ℕ, ◌+◌, ◌*◌, ◌≤◌, ◌≡◌, inl, inr, refl, ap, ◌∙◌, arith, true, false, List, [], ◌∷◌, ◌++◌,
  length, length-append, ◌==◌, u16,
}
use my_operating_system.Memory.{Memory}
use my_operating_system.Heap.{Heap, realloc}
use my_operating_system.Heap.Valid.{IsValid}
use my_operating_system.Heap.Blocks.{Live-range, SameBlocks}
use my_operating_system.Heap.Grow.{Grown, Regrown, realloc-Regrown}
use my_operating_system.Machine.{
  Machine, call_realloc, store, store_long, write_long, str_set_error, ◌>>=◌,
}
use my_operating_system.Text.Split.{Split, end_token, terminate_token, add_token, place_of}
use my_operating_system.Text.Split.Stored.{
  Ended, Array-Given, Array-stored, write_long-outside, write_long-IsBytes,
}
use my_operating_system.Text.Split.State.{Holds, Failed, Stepped, went, failed, Restarted, Extended}
use my_operating_system.Text.{alloc_fail}
use my_operating_system.Heap.Without.{Live-IsAddress}
use my_operating_system.Text.Split.Owned.{Owned, Owned-same, Owned-stored}
use my_operating_system.Text.Split.Known.{Known, Known-Array}
use my_operating_system.Text.Split.Steps.{realloc-Grows, no_block-Failed}

module _ (h0 : Heap) (m0 : Memory) (cost left : ℕ) (ws : List (List ℕ)) (cur : List ℕ) (st : Split)
    (s : Machine) (holds : Holds h0 m0 (length cur + 2 + (cost + left)) ws cur st s)
    (cheap : (length ws + 1) * 4 + 1 ≤ cost) (p : ℕ) (h : Heap) (m : Memory)
    (x : Extended h0 m0 (cost + left) ws cur st.dest st.count 0 p h m) where
  abbrev array_bytes : ℕ
  array_bytes = (st.count + 1) * 4

  token_text : Ended h m p cur
  token_text =
      let last = x.last in
      record {
        extent = x.extent;
        live = x.live;
        room = x.large;
        text = x.text;
        ended = omega (arith, last);
      }

  -- The tokens with the new one.
  Grown-Restarted :
      (cap q : ℕ) (h1 : Heap) (m1 : Memory)
      → length ws * 4 ≤ cap
      → IsValid h1
      → Grown st.dest cap array_bytes h m q h1 m1
      → Restarted h0 m0 left
          (ws ++ (cur ∷ []))
          (record st { dest = q; count = u16 (st.count + 1); buffer = 0 })
          (record s {
            heap = h1;
            ata = record s.ata { memory = write_long m1 (place_of q st.count) p };
          })
  Grown-Restarted cap q h1 m1 held v1 g =
      let n = holds.count in
      let room = x.room in
      let room0 = holds.room in
      let top = g.top in
      let big = g.large in
      let range = Live-range h1 v1 q g.extent g.live in
      let len = length-append ws (cur ∷ []) in
      let p_range = Live-range h x.valid p x.extent x.live in
      record {
        valid = v1;
        bytes = write_long-IsBytes m1 (place_of q st.count) p g.bytes;
        outside = λ y o.
            write_long-outside m1 (place_of q st.count) p y (omega (arith, o, range, big))
            ∙ g.outside y o
            ∙ x.outside y o;
        room = omega (arith, room, top, n);
        count = omega (arith, n, len, room);
        current = refl;
        array =
            Array-stored st.dest cap array_bytes q p st.count ws cur h h1 m m1 x.valid v1 g n
              (omega arith) held x.array token_text;
        buffer = inl (refl, refl);
        owned =
            subst (λ (k : ℕ). Owned h0 h1 (write_long m1 (place_of q st.count) p) q k 0)
              (omega (arith, n, room))
              (Owned-stored st.dest cap array_bytes q p st.count ws cur h0 h h1 m m1 x.valid v1 g n
                (omega arith) held (omega (arith, p_range)) x.owned);
      }

  array-Regrown :
      (cap : ℕ) × (length ws * 4 ≤ cap)
      × Regrown st.dest cap array_bytes h m (realloc st.dest array_bytes h m)
  array-Regrown =
      let n = holds.count in
      let room = x.room in
      let (cap, given, held) = Array-Given h m st.dest p ws x.array in
      (
        cap,
        held,
        realloc-Regrown st.dest cap array_bytes h m x.valid x.bytes given (omega arith)
            (omega (arith, n, room)) (omega (arith, n, room)),
      )

  -- The state in which the buffer has its terminating zero.
  abbrev ended_state : Machine
  ended_state = record s { heap = h; ata = record s.ata { memory = m } }

  -- Without a block for the array the token is in the buffer still.
  no_place-Failed :
      (h1 : Heap) (m1 : Memory)
      → IsValid h1
      → m1 ≡ m
      → SameBlocks h h1
      → Failed h0 m0
          (record st { buffer = p })
          (record s { heap = h1; ata = record s.ata { memory = m1 }; str_error = alloc_fail })
  no_place-Failed h1 m1 v1 same blocks = record {
    valid = v1;
    outside = λ y o. ap (λ (t : Memory). t y) same ∙ x.outside y o;
    error = refl;
    owned =
        subst (λ (t : Memory). Owned h0 h1 t st.dest st.count p) (sym same)
          (Owned-same h0 h h1 m st.dest st.count p blocks x.owned);
    known =
        subst (λ (t : Memory). Known t st.dest st.count p) (sym same)
          (Known-Array h m st.dest st.count p ws x.valid holds.count x.array
            (inr (Live-IsAddress h p x.extent x.valid x.live)));
  }

  add_token-Stepped :
      Stepped h0 m0
        (Restarted h0 m0 left (ws ++ (cur ∷ [])))
        ((call_realloc st.dest array_bytes >>= λ q. add_token st p q (q == 0)) ended_state)
  unfolding call_realloc add_token str_set_error store_long
  add_token-Stepped =
      let (cap, held, (v1, grown)) = array-Regrown in
      elim grown [
        | inl (z, same, blocks) ↦
            let null : ((realloc st.dest array_bytes h m).0 == 0) ≡ true = ground (arith, z) in
            rw null (failed (no_place-Failed _ _ v1 same blocks))
        | inr (ne, g) ↦
            let some_block : ((realloc st.dest array_bytes h m).0 == 0) ≡ false =
              ground (arith, ne) in
            rw some_block (went (Grown-Restarted cap _ _ _ held v1 g))
      ]

pub end_token-Stepped :
    (h0 : Heap) (m0 : Memory) (cost left : ℕ) (ws : List (List ℕ)) (cur : List ℕ) (st : Split)
    (s : Machine)
    → Holds h0 m0 (length cur + 2 + (cost + left)) ws cur st s
    → (length ws + 1) * 4 + 1 ≤ cost
    → Stepped h0 m0 (Restarted h0 m0 left (ws ++ (cur ∷ []))) (end_token st s)
unfolding end_token call_realloc terminate_token store str_set_error
end_token-Stepped h0 m0 cost left ws cur st s holds cheap =
    let (v1, out, grows) =
      realloc-Grows h0 m0 (length cur + 2) (cost + left) ws cur st s holds (omega arith) (λ m. 0) in
    elim grows [
      | inl (z, same, blocks) ↦
          let null : ((realloc st.buffer (st.current_count + 1) s.heap s.ata.memory).0 == 0)
              ≡ true =
            ground (arith, z) in
          rw null (
            failed (
              no_block-Failed h0 m0 (length cur + 2) (cost + left) ws cur st s holds (omega arith) _
                _ v1 out same blocks))
      | inr (ne, x) ↦
          let some_block : ((realloc st.buffer (st.current_count + 1) s.heap s.ata.memory).0 == 0)
              ≡ false =
            ground (arith, ne) in
          rw some_block (add_token-Stepped h0 m0 cost left ws cur st s holds cheap _ _ _ x)
    ]
