-- ===== src/Text/Split/Extend.antt =====
-- What a longer buffer does to the state of `strsplit`.
use my_operating_system.Base.{ℕ, ◌+◌, ◌≤◌, ◌≡◌, ◌⊎◌, inl, inr, refl, ap, ◌∙◌, arith, List, length}
use my_operating_system.Memory.{Memory, write}
use my_operating_system.Memory.Blocks.{write-IsBytes}
use my_operating_system.Memory.Spans.{bytes_at, bytes_at-kept, bytes_at-copied}
use my_operating_system.Heap.{Heap}
use my_operating_system.Heap.Valid.{IsValid}
use my_operating_system.Heap.Blocks.{Live-range}
use my_operating_system.Heap.Grow.{Grown, Given}
use my_operating_system.Machine.{Machine}
use my_operating_system.Text.Split.{Split}
use my_operating_system.Text.Split.Frames.{Within, Array-buffer}
use my_operating_system.Text.Split.Owned.{Owned-buffer}
use my_operating_system.Heap.Without.{IsAddress, Live-IsAddress}
use my_operating_system.Text.Split.State.{Buffer, Holds, Extended}

pub Buffer-Given :
    (h : Heap) (m : Memory) (buffer : ℕ) (cur : List ℕ)
    → Buffer h m buffer cur
    → (cap : ℕ) × Given h buffer cap × (length cur ≤ cap)
Buffer-Given h m buffer cur (inl (z, none)) =
    let empty = ap (λ (l : List ℕ). length l) none in (0, inl (z, refl), omega (arith, empty))
Buffer-Given h m buffer cur (inr (n, live, some_char, room, text)) = (n, inr live, room)

Buffer-text :
    (h : Heap) (m : Memory) (buffer : ℕ) (cur : List ℕ)
    → Buffer h m buffer cur
    → bytes_at m buffer (length cur) ≡ cur
Buffer-text h m buffer cur (inl (z, none)) = rw none refl
Buffer-text h m buffer cur (inr (n, live, some_char, room, text)) = text

pub Buffer-IsAddress :
    (h : Heap) (m : Memory) (buffer : ℕ) (cur : List ℕ)
    → IsValid h
    → Buffer h m buffer cur
    → (buffer ≡ 0) ⊎ IsAddress buffer
Buffer-IsAddress h m buffer cur v (inl (z, none)) = inl z
Buffer-IsAddress h m buffer cur v (inr (n, live, some_char, room, text)) =
    inr (Live-IsAddress h buffer n v live)

module _ (h0 : Heap) (m0 : Memory) (cost left : ℕ) (ws : List (List ℕ)) (cur : List ℕ) (st : Split)
    (s : Machine) (holds : Holds h0 m0 (cost + left) ws cur st s) (v : ℕ) (q : ℕ) (h1 : Heap)
    (m1 : Memory) (v1 : IsValid h1) where
  pub Grown-Extended :
      (cap : ℕ)
      → length cur ≤ cap
      → length cur + 2 ≤ cost
      → Grown st.buffer cap (st.current_count + 1) s.heap s.ata.memory q h1 m1
      → Extended h0 m0 left ws cur st.dest st.count v q h1 (write m1 (q + st.current_count) v)
  unfolding write
  Grown-Extended cap fits cheap g =
      let room = holds.room in
      let top = g.top in
      let large = g.large in
      let q_range = Live-range h1 v1 q g.extent g.live in
      let m = s.ata.memory in
      let m2 : Memory = write m1 (q + st.current_count) v in
      let n = holds.current in
      let within : Within m1 m2 q g.extent = λ x o. ground arith in
      record {
        valid = v1;
        bytes = write-IsBytes m1 (q + st.current_count) v g.bytes;
        outside = λ x o. within x (omega (arith, q_range)) ∙ g.outside x o ∙ holds.outside x o;
        room = omega (arith, room, top);
        array =
            Array-buffer st.buffer cap (st.current_count + 1) q s.heap h1 m m1 m2 holds.valid v1 g
              within st.dest ws holds.array;
        extent = g.extent;
        live = g.live;
        large = omega (arith, large);
        text =
            bytes_at-kept m1 m2 q (length cur) (λ x lo hi. ground arith)
            ∙ bytes_at-copied m m1 q st.buffer (length cur) (λ i lt. g.copied i (omega arith))
            ∙ Buffer-text s.heap m st.buffer cur holds.buffer;
        last = ground arith;
        owned =
            Owned-buffer st.buffer cap (st.current_count + 1) q h0 s.heap h1 m m1 m2 holds.valid v1
              g within st.dest st.count ws holds.count holds.array holds.owned;
      }
