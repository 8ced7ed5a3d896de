-- ===== src/Text/Split/Pending.antt =====
-- What `end_pending` does: the characters so far become a token, if there are any.
use mathlib.Core.Path.{subst}
use my_operating_system.Base.{
  ℕ, suc, ◌+◌, ◌*◌, ◌≤◌, ◌≡◌, inl, inr, refl, ap, arith, true, List, [], ◌∷◌, ◌++◌, length,
  append-nil, ◌!=◌, ◌&&◌, ltb,
}
use my_operating_system.Memory.{Memory}
use my_operating_system.Heap.{Heap}
use my_operating_system.Heap.Blocks.{Live-range}
use my_operating_system.Machine.{Machine}
use my_operating_system.Text.Split.{Split, end_pending}
use my_operating_system.Text.Split.Pieces.{piece}
use my_operating_system.Text.Split.Frames.{Array-forget}
use my_operating_system.Text.Split.Owned.{Owned}
use my_operating_system.Text.Split.State.{Buffer, Holds, Stepped, went, Restarted}
use my_operating_system.Text.Split.End.{end_token-Stepped}

pub Holds-less :
    (h0 : Heap) (m0 : Memory) (a b : ℕ) (ws : List (List ℕ)) (cur : List ℕ) (st : Split)
    (s : Machine)
    → b ≤ a
    → Holds h0 m0 a ws cur st s
    → Holds h0 m0 b ws cur st s
Holds-less h0 m0 a b ws cur st s le holds =
    let room = holds.room in
    record {
      valid = holds.valid;
      bytes = holds.bytes;
      outside = holds.outside;
      room = omega arith;
      count = holds.count;
      current = holds.current;
      array = holds.array;
      buffer = holds.buffer;
      owned = holds.owned;
    }

no_piece-Restarted :
    (h0 : Heap) (m0 : Memory) (left : ℕ) (ws : List (List ℕ)) (st : Split) (s : Machine)
    → Holds h0 m0 left ws [] st s
    → Restarted h0 m0 left (ws ++ []) st s
no_piece-Restarted h0 m0 left ws st s holds = rw (append-nil ws) (record {
  valid = holds.valid;
  bytes = holds.bytes;
  outside = holds.outside;
  room = holds.room;
  count = holds.count;
  current = refl;
  array = Array-forget s.heap s.ata.memory st.dest st.buffer ws holds.valid holds.array;
  buffer = inl (refl, refl);
  owned =
      subst (λ (b : ℕ). Owned h0 s.heap s.ata.memory st.dest st.count b) (no_buffer holds.buffer)
        holds.owned;
})
  where
    no_buffer : Buffer s.heap s.ata.memory st.buffer [] → st.buffer ≡ 0
    no_buffer (inl (z, none)) = z
    no_buffer (inr (n, live, some_char, room, text)) = absurd (omega (arith, some_char))

-- Something is pending exactly where there are characters.
pending_iff :
    (h0 : Heap) (m0 : Memory) (left : ℕ) (ws : List (List ℕ)) (cur : List ℕ) (st : Split)
    (s : Machine)
    → Holds h0 m0 left ws cur st s
    → ((st.buffer != 0) && ltb 0 st.current_count) ≡ ltb 0 (length cur)
pending_iff h0 m0 left ws cur st s holds =
    let n = holds.current in
    elim holds.buffer [
      | inl (z, none_there) ↦
          let len = ap (λ (l : List ℕ). length l) none_there in ground (arith, n, len, z)
      | inr (k, live, some_char, room, text) ↦
          let range = Live-range s.heap holds.valid st.buffer k live in ground (arith, n, range)
    ]

pub end_pending-Stepped :
    (h0 : Heap) (m0 : Memory) (left : ℕ) (ws : List (List ℕ)) (cur : List ℕ) (st : Split)
    (s : Machine)
    → Holds h0 m0 (length cur + 2 + ((length ws + 1) * 4 + 1 + left)) ws cur st s
    → Stepped h0 m0 (Restarted h0 m0 left (ws ++ piece cur)) (end_pending st s)
unfolding end_pending
end_pending-Stepped h0 m0 left ws [] st s holds = rw (pending_iff h0 m0 _ ws [] st s holds) (
    went (
      no_piece-Restarted h0 m0 left ws st s
        (Holds-less h0 m0 _ left ws [] st s (omega arith) holds)))
end_pending-Stepped h0 m0 left ws (c ∷ cs) st s holds =
    let more : ltb 0 (suc (length cs)) ≡ true = ground arith in
    rw (pending_iff h0 m0 _ ws (c ∷ cs) st s holds, more)
      (end_token-Stepped h0 m0 ((length ws + 1) * 4 + 1) left ws (c ∷ cs) st s holds (omega arith))
