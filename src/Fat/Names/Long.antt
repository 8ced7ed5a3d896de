-- ===== src/Fat/Names/Long.antt =====
-- Writing a name byte by byte, and the long names that `parse_LFN_buffer` writes.
use my_operating_system.Base.{
  ℕ, zero, suc, ◌+◌, ◌*◌, ◌≤◌, ◌<◌, ◌≡◌, ◌⊎◌, inl, inr, refl, sym, ap, ◌∙◌, arith, ◌≢◌, some, false,
  List, [], ◌∷◌, ◌++◌, ◌==◌, if◌then◌else◌, Bool-cases, length, length-append,
}
use mathlib.Core.Path.{subst}
use my_operating_system.Memory.{Memory, write}
use my_operating_system.Heap.{zalloc}
use my_operating_system.Machine.{Machine, call_zalloc, fat16_ok, with_memory}
use my_operating_system.Fat.{ok}
use my_operating_system.Fat.Names.{
  ParsedLfnEntry, LfnBuffer, fill_name, write_fragments, parse_lfn_buffer, copy_fragment,
  copy_fragments, terminate,
}

-- The bytes from `p` on are those of the list.
abbrev pub Holds : Memory → ℕ → List ℕ → Type 0
Holds m p [] = Unit {0}
Holds m p (c ∷ l) = (m p ≡ c) × Holds m (p + 1) l

pub Holds-kept :
    (m m' : Memory) (p : ℕ) (l : List ℕ)
    → ((x : ℕ) → p ≤ x → x < p + length l → m' x ≡ m x)
    → Holds m p l
    → Holds m' p l
Holds-kept m m' p [] same h = tt
Holds-kept m m' p (c ∷ l) same h = (
  same p (omega arith) (omega arith) ∙ h.0,
  Holds-kept m m' (p + 1) l (λ x lo hi. same x (omega arith) (omega arith)) h.1,
)

Holds-append :
    (m : Memory) (p q : ℕ) (l l' : List ℕ)
    → q ≡ p + length l
    → Holds m p l
    → Holds m q l'
    → Holds m p (l ++ l')
Holds-append m p q [] l' e h h' = let same : q ≡ p = omega arith in rw (← same) h'
Holds-append m p q (c ∷ l) l' e h h' = (h.0, Holds-append m (p + 1) q l l' (omega arith) h.1 h')

-- A step has written the list from `out` on, and nothing else; it returns the pointer behind it.
pub record Appends (m : Memory) (out : ℕ) (l : List ℕ) (r : ℕ × Memory) : Type 0 where
  pub end : r.0 ≡ out + length l
  pub holds : Holds r.1 out l
  pub kept : (x : ℕ) → (x < out) ⊎ (out + length l ≤ x) → r.1 x ≡ m x

pub Appends-nil : (m : Memory) (out : ℕ) → Appends m out [] (out, m)
Appends-nil m out = record { end = omega arith; holds = tt; kept = λ x h. refl }

pub Appends-append :
    (m : Memory) (out : ℕ) (l l' : List ℕ) (r r' : ℕ × Memory)
    → Appends m out l r
    → Appends r.1 r.0 l' r'
    → Appends m out (l ++ l') r'
Appends-append m out l l' r r' a b = record {
  end = omega (arith, a.end, b.end, length-append l l');
  holds =
      Holds-append r'.1 out r.0 l l' a.end
        (Holds-kept r.1 r'.1 out l (λ x lo hi. b.kept x (omega (arith, a.end))) a.holds) b.holds;
  kept = λ x h.
      b.kept x (omega (arith, a.end, length-append l l'))
      ∙ a.kept x (omega (arith, length-append l l'));
}

pub Appends-one :
    (m : Memory) (out c : ℕ) → c < 256 → Appends m out (c ∷ []) (out + 1, write m out c)
unfolding write
Appends-one m out c h = record {
  end = omega arith;
  holds = (ground arith, tt);
  kept = λ x o. ground arith;
}

-- The characters of a fragment from index `j` on, up to a zero, `n` at most.
pub fragment : (ℕ → ℕ) → ℕ → ℕ → List ℕ
fragment name j zero = []
fragment name j (suc n) = if name j == 0 then [] else name j ∷ fragment name (j + 1) n

-- The fragments joined, the last first.
pub long_name : (ℕ → ParsedLfnEntry) → ℕ → List ℕ
unfolding fragment
long_name entries zero = []
long_name entries (suc n) = fragment (entries n).name 0 13 ++ long_name entries n

copy_fragment-Appends :
    (name : ℕ → ℕ) (j n out : ℕ) (m : Memory)
    → ((i : ℕ) → name i < 256)
    → Appends m out (fragment name j n) (copy_fragment name j n out m)
unfolding copy_fragment fragment
copy_fragment-Appends name j zero out m b = Appends-nil m out
copy_fragment-Appends name j (suc n) out m b = elim (Bool-cases (name j == 0)) [
  | inl e ↦ rw e (Appends-nil m out)
  | inr e ↦ rw e (
      Appends-append m out (name j ∷ []) (fragment name (j + 1) n) (out + 1, write m out (name j)) _
        (Appends-one m out (name j) (b j))
        (copy_fragment-Appends name (j + 1) n (out + 1) (write m out (name j)) b))
]

copy_fragments-Appends :
    (entries : ℕ → ParsedLfnEntry) (n out : ℕ) (m : Memory)
    → ((k i : ℕ) → (entries k).name i < 256)
    → Appends m out (long_name entries n) (copy_fragments entries n out m)
unfolding copy_fragments long_name
copy_fragments-Appends entries zero out m b = Appends-nil m out
copy_fragments-Appends entries (suc n) out m b =
    let r = copy_fragment (entries n).name 0 13 out m in
    Appends-append m out (fragment (entries n).name 0 13) (long_name entries n) r _
      (copy_fragment-Appends (entries n).name 0 13 out m (b n))
      (copy_fragments-Appends entries n r.0 r.1 b)

length-fragment : (name : ℕ → ℕ) (j n : ℕ) → length (fragment name j n) ≤ n
unfolding fragment
length-fragment name j zero = omega arith
length-fragment name j (suc n) = ground (arith, length-fragment name (j + 1) n)

length-long_name : (entries : ℕ → ParsedLfnEntry) (n : ℕ) → length (long_name entries n) ≤ n * 13
unfolding long_name
length-long_name entries zero = omega arith
length-long_name entries (suc n) = omega (
  arith,
  length-append (fragment (entries n).name 0 13) (long_name entries n),
  length-fragment (entries n).name 0 13,
  length-long_name entries n,
)

pub terminate-Holds :
    (m : Memory) (out : ℕ) (l : List ℕ) (r : ℕ × Memory)
    → Appends m out l r
    → Holds (terminate r).1 out l
      × ((terminate r).1 (out + length l) ≡ 0)
      × ((x : ℕ) → (x < out) ⊎ (out + length l < x) → (terminate r).1 x ≡ m x)
terminate-Holds m out l r a = (
  Holds-kept r.1 (terminate r).1 out l (λ x lo hi. unfold write in ground (arith, a.end)) a.holds,
  unfold write in ground (arith, a.end),
  λ x h. unfold write in ground (arith, a.end, a.kept x),
)

-- With a block, the name is written to it and its address is returned.
pub fill_name_lem :
    (f : ℕ → Memory → ℕ × Memory) (name : ℕ) (s : Machine)
    → name ≢ 0
    → (s' : Machine) × (fill_name f name s ≡ some (name, s'))
      × (s'.ata.memory ≡ (f name s.ata.memory).1)
unfolding fill_name fat16_ok
fill_name_lem f name s ne =
    let e : (name == 0) ≡ false = ground arith in
    (record (with_memory s (f name s.ata.memory).1) { fat_error = ok }, rw (e, fill_name), refl)

-- Where the buffer holds fragments and the allocation succeeds, `parse_LFN_buffer` returns the
-- new block, with the fragments joined in it, the last first and each up to its zero, and a zero
-- behind them. The name fits the block, and no byte outside of the block is written.
pub parse_lfn_buffer_lem :
    (buf : LfnBuffer) (s : Machine)
    → buf.count ≢ 0
    → ((k i : ℕ) → (buf.entries k).name i < 256)
    → let size = buf.count * 13 + 1 in
      let (name, h, m) = zalloc size s.heap s.ata.memory in
      let l = long_name buf.entries buf.count in
      name ≢ 0
      → (s' : Machine) × (parse_lfn_buffer buf s ≡ some (name, s'))
        × Holds s'.ata.memory name l
        × (s'.ata.memory (name + length l) ≡ 0)
        × (length l < size)
        × ((x : ℕ) → (x < name) ⊎ (name + size ≤ x) → s'.ata.memory x ≡ m x)
unfolding parse_lfn_buffer call_zalloc write_fragments
parse_lfn_buffer_lem buf s some_fragments b ne =
    let (name, h, m) = zalloc (buf.count * 13 + 1) s.heap s.ata.memory in
    let l = long_name buf.entries buf.count in
    let (held, ended, kept) =
      terminate-Holds m name l _ (copy_fragments-Appends buf.entries buf.count name m b) in
    let fits : length l ≤ buf.count * 13 = length-long_name buf.entries buf.count in
    let empty : (buf.count == 0) ≡ false = ground arith in
    let (s', e, mem) =
      fill_name_lem (write_fragments buf) name
        (record s { heap = h; ata = record s.ata { memory = m } }) ne in
    (
      s',
      rw empty e,
      subst (λ t. Holds t name l) (sym mem) held,
      ap (λ (t : Memory). t (name + length l)) mem ∙ ended,
      omega (arith, fits),
      λ x o. ap (λ (t : Memory). t x) mem ∙ kept x (omega (arith, fits)),
    )
