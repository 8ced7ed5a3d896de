-- ===== src/Text/Split/State.antt =====
-- What holds between the rounds of `strsplit`, and what a part of a round comes to.
use my_operating_system.Base.{
  ℕ, ◌+◌, ◌^◌, ◌≤◌, ◌<◌, ◌≡◌, ◌⊎◌, Option, some, true, false, Bool, List, [], length, u8,
}
use my_operating_system.Memory.{Memory}
use my_operating_system.Memory.Blocks.{IsBytes}
use my_operating_system.Memory.Spans.{bytes_at}
use my_operating_system.Heap.{Heap, heap_base}
use my_operating_system.Heap.Valid.{IsValid}
use my_operating_system.Heap.Blocks.{Live, SameBlocks}
use my_operating_system.Text.{alloc_fail}
use my_operating_system.Machine.{Machine}
use my_operating_system.Text.Split.{Split}
use my_operating_system.Text.Split.Tokens.{Array}
use my_operating_system.Text.Split.Owned.{Owned}
use my_operating_system.Text.Split.Known.{Known}

-- No byte outside of the heap's first 64 KiB differs.
abbrev pub Outside : Memory → Memory → Type 0
Outside m0 m = (x : ℕ) → (x < heap_base) ⊎ (heap_base + 2 ^ 16 ≤ x) → m x ≡ m0 x

-- NULL for no characters, or a block in use that begins with them.
abbrev pub Buffer : Heap → Memory → ℕ → List ℕ → Type 0
Buffer h m buffer cur =
    ((buffer ≡ 0) × (cur ≡ []))
    ⊎ ((n : ℕ) × Live h buffer n
        × (0 < length cur)
        × (length cur ≤ n)
        × (bytes_at m buffer (length cur) ≡ cur))

-- The variables stand for the tokens `ws` and the characters `cur` of the next, with `left` bytes
-- of the heap to go.
pub record Holds (h0 : Heap) (m0 : Memory) (left : ℕ) (ws : List (List ℕ)) (cur : List ℕ)
    (st : Split) (s : Machine) : Type 0 where
  pub valid : IsValid s.heap
  pub bytes : IsBytes s.ata.memory
  pub outside : Outside m0 s.ata.memory
  pub room : s.heap.heap_top + left < 2 ^ 16
  pub count : st.count ≡ length ws
  pub current : st.current_count ≡ length cur
  pub array : Array s.heap s.ata.memory st.dest st.buffer ws
  pub buffer : Buffer s.heap s.ata.memory st.buffer cur
  pub owned : Owned h0 s.heap s.ata.memory st.dest st.count st.buffer

-- A block could not be had, and the variables stand for what is to be freed.
pub record Failed (h0 : Heap) (m0 : Memory) (st : Split) (s : Machine) : Type 0 where
  pub valid : IsValid s.heap
  pub outside : Outside m0 s.ata.memory
  pub error : s.str_error ≡ alloc_fail
  pub owned : Owned h0 s.heap s.ata.memory st.dest st.count st.buffer
  pub known : Known s.ata.memory st.dest st.count st.buffer

-- All has been freed: the blocks in use are those from before.
pub record Cleared (h0 : Heap) (m0 : Memory) (s : Machine) : Type 0 where
  pub valid : IsValid s.heap
  pub outside : Outside m0 s.ata.memory
  pub error : s.str_error ≡ alloc_fail
  pub blocks : SameBlocks h0 s.heap

-- A step has gone on, or it has failed.
pub data Stepped (h0 : Heap) (m0 : Memory) (P : Split → Machine → Type 0)
    : Option ((Bool × Split) × Machine) → Type 0 where
  went : {st : Split} {s : Machine} → P st s → Stepped h0 m0 P (some ((true, st), s))
  failed : {st : Split} {s : Machine} → Failed h0 m0 st s → Stepped h0 m0 P (some ((false, st), s))

-- The state after a token: the array has it, and the next has no characters.
abbrev pub Restarted : Heap → Memory → ℕ → List (List ℕ) → Split → Machine → Type 0
Restarted h0 m0 left ws st s =
    Holds h0 m0 left ws [] (record st { buffer = 0; current_count = 0 }) s

-- The buffer `q`, one byte longer, has the value `v` behind the characters.
pub record Extended (h0 : Heap) (m0 : Memory) (left : ℕ) (ws : List (List ℕ)) (cur : List ℕ)
    (dest count v q : ℕ) (h : Heap) (m : Memory) : Type 0 where
  pub valid : IsValid h
  pub bytes : IsBytes m
  pub outside : Outside m0 m
  pub room : h.heap_top + left < 2 ^ 16
  pub array : Array h m dest q ws
  pub extent : ℕ
  pub live : Live h q extent
  pub large : length cur < extent
  pub text : bytes_at m q (length cur) ≡ cur
  pub last : m (q + length cur) ≡ u8 v
  pub owned : Owned h0 h m dest count q
