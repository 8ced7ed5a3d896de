-- ===== src/Stdin/Fifo.antt =====
-- The buffer as a queue: the characters inserted and not yet read, oldest first.
use my_operating_system.Base.{
  ℕ, zero, suc, ◌+◌, ◌-◌, ◌≤◌, ◌<◌, ◌≡◌, ◌≢◌, arith, none, some, List, [], ◌∷◌, ◌++◌, ltb, leb,
  if◌then◌else◌, ap, false, u32, ◌==◌, ◌&&◌, refl, ◌⊎◌, inl, inr, Bool-cases,
}
use my_operating_system.Memory.{Memory, write}
use my_operating_system.Stdin.{
  Stdin, stdin_size, stdin_base, char_at, stdin_insert, read_char, advance,
}

pub record IsValid (s : Stdin) : Type 0 where
  pub ordered : s.out_count ≤ s.in_count
  pub fits : s.in_count ≤ stdin_size

-- The `n` characters from index `i` on.
abbrev pub chars : Memory → ℕ → ℕ → List ℕ
chars m i zero = []
chars m i (suc n) = m (stdin_base + i) ∷ chars m (i + 1) n

-- The characters that have been typed and not been read.
abbrev pub pending : Stdin → List ℕ
pending s = chars s.memory s.out_count (s.in_count - s.out_count)

chars-write :
    (m : Memory) (i n a c : ℕ)
    → a ≡ stdin_base + (i + n)
    → c < 256
    → chars (write m a c) i (suc n) ≡ chars m i n ++ (c ∷ [])
unfolding write
chars-write m i zero a c e h = ground arith
chars-write m i (suc n) a c e h = ground (arith, chars-write m (i + 1) n a c (omega arith) h)

chars_grow : (m : Memory) (o k : ℕ) → o ≤ k → chars m o (k + 1 - o) ≡ chars m o (suc (k - o))
chars_grow m o k h = let e : k + 1 - o ≡ suc (k - o) = omega arith in ap (λ (t : ℕ). chars m o t) e

chars_take :
    (m : Memory) (o k : ℕ)
    → o < k
    → chars m o (k - o) ≡ m (stdin_base + o) ∷ chars m (o + 1) (k - (o + 1))
chars_take m o k h =
    let e : k - o ≡ suc (k - (o + 1)) = omega arith in ap (λ (t : ℕ). chars m o t) e

-- A character other than zero that finds room is appended to what is pending, and counted if it is a
-- newline; the state stays valid, and the readers' counts are kept. With no room nothing changes.
pub stdin_insert_lem :
    (c : ℕ) (s : Stdin)
    → IsValid s
    → c < 256
    → c ≢ 0
    → let s' = stdin_insert c s in
      IsValid s'
      × (pending s' ≡ (if ltb s.in_count stdin_size then pending s ++ (c ∷ []) else pending s))
      × (s'.new_line_count ≡ (
          if ltb s.in_count stdin_size && (c == 10)
          then u32 (s.new_line_count + 1)
          else s.new_line_count))
      × (s'.out_count ≡ s.out_count)
      × (s'.peek_count ≡ s.peek_count)
      × (stdin_size ≤ s.in_count → s' ≡ s)
unfolding stdin_insert
stdin_insert_lem c s v hc nz = (
  ground arith,
  ground (
    arith,
    chars-write s.memory s.out_count (s.in_count - s.out_count) (stdin_base + s.in_count) c,
    chars_grow (write s.memory (stdin_base + s.in_count) c) s.out_count s.in_count,
  ),
  ground arith,
  ground arith,
  ground arith,
  λ full.
      let no_room : ltb s.in_count stdin_size ≡ false = ground arith in
      rw (stdin_insert, no_room) refl,
)

-- `read_char` waits exactly when nothing is pending, and otherwise takes the first character of
-- what is pending.
pub read_char_lem :
    (s : Stdin)
    → IsValid s
    → ((read_char s ≡ none) × (pending s ≡ []))
      ⊎ ((c : ℕ) × (s' : Stdin) × (read_char s ≡ some (c, s'))
          × (pending s ≡ c ∷ pending s')
          × IsValid s')
unfolding read_char
read_char_lem s v = elim (Bool-cases (leb s.in_count s.out_count)) [
  | inl e ↦
      let none_left : s.in_count - s.out_count ≡ 0 = ground arith in
      inl (simp e, ap (λ (t : ℕ). chars s.memory s.out_count t) none_left)
  | inr e ↦ inr (
    char_at s s.out_count,
    advance s,
    simp e,
    chars_take s.memory s.out_count s.in_count (ground arith),
    ground arith,
  )
]
