-- ===== src/Fat/Names/Short.antt =====
-- The short names that `normalize_SFN` writes.
use mathlib.Core.Path.{subst}
use my_operating_system.Base.{
  ℕ, zero, suc, ◌+◌, ◌≤◌, ◌<◌, ◌≡◌, ◌≢◌, ◌⊎◌, inl, inr, refl, sym, ap, ◌∙◌, true, false, arith,
  some, List, [], ◌∷◌, ◌++◌, ◌==◌, if◌then◌else◌, Bool-cases, length, length-append, append-nil,
}
use my_operating_system.Memory.{Memory, write}
use my_operating_system.Memory.Blocks.{IsBytes, write-IsBytes}
use my_operating_system.Heap.{zalloc}
use my_operating_system.Machine.{Machine, call_zalloc}
use my_operating_system.Fat.Names.{copy_word, copy_extension, write_sfn, normalize_sfn}
use my_operating_system.Fat.Names.Long.{
  Holds, Appends, Appends-nil, Appends-append, Appends-one, terminate-Holds, fill_name_lem,
}

-- The characters at `p` up to a space, `n` at most.
pub word : Memory → ℕ → ℕ → List ℕ
word m p zero = []
word m p (suc n) = if m p == b' ' then [] else m p ∷ word m (p + 1) n

-- The base name, and the extension behind a dot if there is one.
pub short_name : Memory → ℕ → List ℕ
short_name m sfn = word m sfn 8 ++ (if m (sfn + 8) == b' ' then [] else b'.' ∷ word m (sfn + 8) 3)

length-word : (m : Memory) (p n : ℕ) → length (word m p n) ≤ n
unfolding word
length-word m p zero = omega arith
length-word m p (suc n) = ground (arith, length-word m (p + 1) n)

word-kept :
    (m m' : Memory) (p n : ℕ)
    → ((x : ℕ) → p ≤ x → x < p + n → m' x ≡ m x)
    → word m' p n ≡ word m p n
unfolding word
word-kept m m' p zero same = refl
word-kept m m' p (suc n) same = ground (
  arith,
  same p (omega arith) (omega arith),
  word-kept m m' (p + 1) n (λ x lo hi. same x (omega arith) (omega arith)),
)

copy_word-Appends :
    (sfn n out : ℕ) (m : Memory)
    → IsBytes m
    → (sfn + n ≤ out) ⊎ (out + n ≤ sfn)
    → Appends m out (word m sfn n) (copy_word sfn n out m)
unfolding copy_word word
copy_word-Appends sfn zero out m b apart = Appends-nil m out
copy_word-Appends sfn (suc n) out m b apart = elim (Bool-cases (m sfn == b' ')) [
  | inl e ↦ rw e (Appends-nil m out)
  | inr e ↦
      let m' = write m out (m sfn) in
      let one = Appends-one m out (m sfn) (b sfn) in
      let rest =
        copy_word-Appends (sfn + 1) n (out + 1) m' (write-IsBytes m out (m sfn) b) (omega arith) in
      let same = word-kept m m' (sfn + 1) n (λ x lo hi. one.kept x (omega arith)) in
      rw e (
        Appends-append m out (m sfn ∷ []) (word m (sfn + 1) n) (out + 1, m') _ one
          (subst (λ l. Appends m' (out + 1) l (copy_word (sfn + 1) n (out + 1) m')) same rest))
]

copy_word-IsBytes : (sfn n out : ℕ) (m : Memory) → IsBytes m → IsBytes (copy_word sfn n out m).1
unfolding copy_word
copy_word-IsBytes sfn zero out m b = b
copy_word-IsBytes sfn (suc n) out m b = elim (Bool-cases (m sfn == b' ')) [
  | inl e ↦ rw e b
  | inr e ↦ rw e (
      copy_word-IsBytes (sfn + 1) n (out + 1) (write m out (m sfn)) (write-IsBytes m out (m sfn) b))
]

short_name-base :
    (m : Memory) (sfn : ℕ) → (m (sfn + 8) == b' ') ≡ true → short_name m sfn ≡ word m sfn 8
unfolding short_name
short_name-base m sfn e = rw (e, append-nil) refl

short_name-dot :
    (m : Memory) (sfn : ℕ)
    → (m (sfn + 8) == b' ') ≡ false
    → short_name m sfn ≡ word m sfn 8 ++ (b'.' ∷ word m (sfn + 8) 3)
unfolding short_name
short_name-dot m sfn e = rw e refl

copy_extension-base :
    (sfn p : ℕ) (m : Memory) → (m (sfn + 8) == b' ') ≡ true → copy_extension sfn (p, m) ≡ (p, m)
unfolding copy_extension
copy_extension-base sfn p m e = rw e refl

copy_extension-dot :
    (sfn p : ℕ) (m : Memory)
    → (m (sfn + 8) == b' ') ≡ false
    → copy_extension sfn (p, m) ≡ copy_word (sfn + 8) 3 (p + 1) (write m p b'.')
unfolding copy_extension
copy_extension-dot sfn p m e = rw e refl

copy_extension-Appends :
    (sfn out : ℕ) (m : Memory) (r : ℕ × Memory)
    → IsBytes r.1
    → (sfn + 11 ≤ out) ⊎ (out + 13 ≤ sfn)
    → Appends m out (word m sfn 8) r
    → Appends m out (short_name m sfn) (copy_extension sfn r)
copy_extension-Appends sfn out m (p, m') b apart a =
    let few = length-word m sfn 8 in
    let same : m' (sfn + 8) ≡ m (sfn + 8) = a.kept (sfn + 8) (omega (arith, few)) in
    elim (Bool-cases (m (sfn + 8) == b' ')) [
      | inl e ↦
          rw (short_name-base m sfn e, copy_extension-base sfn p m' (ap (λ c. c == b' ') same ∙ e))
            a
      | inr e ↦
          let dot = Appends-one m' p b'.' (omega arith) in
          let m'' = write m' p b'.' in
          let unread =
            word-kept m m'' (sfn + 8) 3
              (λ x lo hi. dot.kept x (omega (arith, few, a.end)) ∙ a.kept x (omega (arith, few))) in
          let tail =
            copy_word-Appends (sfn + 8) 3 (p + 1) m'' (write-IsBytes m' p b'.' b)
              (omega (arith, few, a.end)) in
          rw (short_name-dot m sfn e, copy_extension-dot sfn p m' (ap (λ c. c == b' ') same ∙ e))
            (Appends-append m out (word m sfn 8) (b'.' ∷ word m (sfn + 8) 3) (p, m') _ a
              (Appends-append m' p (b'.' ∷ []) (word m (sfn + 8) 3) (p + 1, m'') _ dot
                (subst (λ l. Appends m'' (p + 1) l (copy_word (sfn + 8) 3 (p + 1) m'')) unread
                  tail)))
    ]

length-short_name : (m : Memory) (sfn : ℕ) → length (short_name m sfn) ≤ 12
unfolding short_name
length-short_name m sfn = ground (
  arith,
  length-word m sfn 8,
  length-word m (sfn + 8) 3,
  length-append (word m sfn 8) (if m (sfn + 8) == b' ' then [] else b'.' ∷ word m (sfn + 8) 3),
)

-- Where the allocation succeeds and the block lies apart from the entry, `normalize_SFN` returns the
-- block, with the base name in it up to a space, then a dot and the extension up to a space if its
-- first character is no space, and a zero. The name fits the 13 bytes, and no byte outside of them is
-- written.
pub normalize_sfn_lem :
    (sfn : ℕ) (s : Machine)
    → let (out, h, m) = zalloc 13 s.heap s.ata.memory in
      out ≢ 0
      → IsBytes m
      → (sfn + 11 ≤ out) ⊎ (out + 13 ≤ sfn)
      → (s' : Machine) × (normalize_sfn sfn s ≡ some (out, s'))
        × Holds s'.ata.memory out (short_name m sfn)
        × (s'.ata.memory (out + length (short_name m sfn)) ≡ 0)
        × (length (short_name m sfn) ≤ 12)
        × ((x : ℕ) → (x < out) ⊎ (out + 13 ≤ x) → s'.ata.memory x ≡ m x)
unfolding normalize_sfn call_zalloc write_sfn
normalize_sfn_lem sfn s ne b apart =
    let (out, h, m) = zalloc 13 s.heap s.ata.memory in
    let l = short_name m sfn in
    let (held, ended, kept) = terminate-Holds m out l _ (
      copy_extension-Appends sfn out m (copy_word sfn 8 out m) (copy_word-IsBytes sfn 8 out m b)
        apart (copy_word-Appends sfn 8 out m b (omega arith))) in
    let fits : length l ≤ 12 = length-short_name m sfn in
    let (s', e, mem) =
      fill_name_lem (write_sfn sfn) out (record s { heap = h; ata = record s.ata { memory = m } })
        ne in
    (
      s',
      e,
      subst (λ t. Holds t out l) (sym mem) held,
      ap (λ (t : Memory). t (out + length l)) mem ∙ ended,
      fits,
      λ x o. ap (λ (t : Memory). t x) mem ∙ kept x (omega (arith, fits)),
    )
