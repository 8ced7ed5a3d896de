-- ===== src/System/Insert.antt =====
-- The two statements of `stdin_insert`, one after the other, are `stdin_insert`.
use mathlib.Core.Path.{subst}
use my_operating_system.Base.{
  ℕ, ◌+◌, ◌≤◌, ◌<◌, ◌≡◌, refl, sym, ap, ◌∙◌, arith, Bool-cases, inl, inr, true, false, [], ◌∷◌,
  ◌++◌, append-nil, ltb, ◌==◌,
}
use my_operating_system.Memory.{write}
use my_operating_system.Memory.Blocks.{IsBytes}
use my_operating_system.Stdin.{Stdin, stdin_size, stdin_base, stdin_insert}
use my_operating_system.Stdin.Fifo
use my_operating_system.Stdin.Fifo.{pending, stdin_insert_lem}
use my_operating_system.System.{is_kept, store_char, count_line}
use my_operating_system.System.Bytes.{stdin_insert-IsBytes}
use my_operating_system.System.Running.{visible, visible-one}

-- The buffer with the character in it, and its line's end not counted.
stored_state : ℕ → Stdin → Stdin
stored_state c s = record s {
  memory = write s.memory (stdin_base + s.in_count) c;
  in_count = s.in_count + 1;
}

store_char-kept : (c : ℕ) (s : Stdin) → is_kept c s ≡ true → store_char c s ≡ stored_state c s
unfolding stored_state
store_char-kept c s e = rw e refl

stdin_insert-stored :
    (c : ℕ) (s : Stdin) → is_kept c s ≡ true → stdin_insert c s ≡ count_line c (stored_state c s)
unfolding stdin_insert stored_state
stdin_insert-stored c s e =
    let room : ltb s.in_count stdin_size ≡ true = ground (arith, e) in
    let char : (c == 0) ≡ false = ground (arith, e) in rw (room, char) refl

-- The second statement completes the first.
pub stdin_insert-kept :
    (c : ℕ) (s : Stdin) → is_kept c s ≡ true → count_line c (store_char c s) ≡ stdin_insert c s
stdin_insert-kept c s e =
    ap (count_line c) (store_char-kept c s e) ∙ sym (stdin_insert-stored c s e)

pub stdin_insert-dropped : (c : ℕ) (s : Stdin) → is_kept c s ≡ false → stdin_insert c s ≡ s
unfolding stdin_insert
stdin_insert-dropped c s e = ground (arith, e)

pub store_char-dropped : (c : ℕ) (s : Stdin) → is_kept c s ≡ false → store_char c s ≡ s
store_char-dropped c s e = rw e refl

-- The first statement leaves the count of the lines, and else what the whole leaves.
store_char-stdin_insert :
    (c : ℕ) (s : Stdin)
    → record (stdin_insert c s) { new_line_count = s.new_line_count } ≡ store_char c s
unfolding stored_state
store_char-stdin_insert c s = elim (Bool-cases (is_kept c s)) [
  | inl e ↦
      ap (λ (t : Stdin). record t { new_line_count = s.new_line_count }) (stdin_insert-stored c s e)
      ∙ sym (store_char-kept c s e)
  | inr e ↦
      ap (λ (t : Stdin). record t { new_line_count = s.new_line_count })
        (stdin_insert-dropped c s e)
      ∙ sym (store_char-dropped c s e)
]

stdin_insert_zero : (c : ℕ) (s : Stdin) → (c == 0) ≡ true → stdin_insert c s ≡ s
unfolding stdin_insert
stdin_insert_zero c s e = ground arith

in_count-stdin_insert : (c : ℕ) (s : Stdin) → (stdin_insert c s).in_count ≤ s.in_count + 1
unfolding stdin_insert
in_count-stdin_insert c s = ground arith

-- What `stdin_insert` does with a character that finds room.
stdin_insert-visible :
    (c : ℕ) (s : Stdin)
    → Fifo.IsValid s
    → c < 256
    → s.in_count < stdin_size
    → Fifo.IsValid (stdin_insert c s) × (pending (stdin_insert c s) ≡ pending s ++ visible (c ∷ []))
stdin_insert-visible c s v small room = elim (Bool-cases (c == 0)) [
  | inl e ↦ rw (stdin_insert_zero c s e, visible-one c, e) (v, sym (append-nil (pending s)))
  | inr e ↦
      let (valid, put, _, _, _, _) = stdin_insert_lem c s v small (ground arith) in
      (valid, put ∙ rw (visible-one c, e) (ground arith))
]

-- What storing a character that finds room leaves.
pub record Inserted (c : ℕ) (s t : Stdin) : Type 0 where
  pub valid : Fifo.IsValid t
  pub put : pending t ≡ pending s ++ visible (c ∷ [])
  pub count : t.in_count ≤ s.in_count + 1
  pub bytes : IsBytes t.memory

pub store_char-Inserted :
    (c : ℕ) (s : Stdin)
    → Fifo.IsValid s
    → IsBytes s.memory
    → c < 256
    → s.in_count < stdin_size
    → Inserted c s (store_char c s)
store_char-Inserted c s v bytes small room =
    let (valid, put) = stdin_insert-visible c s v small room in
    subst (Inserted c s) (store_char-stdin_insert c s) (record {
      valid = record { ordered = valid.ordered; fits = valid.fits };
      put = put;
      count = in_count-stdin_insert c s;
      bytes = stdin_insert-IsBytes c s bytes;
    })
