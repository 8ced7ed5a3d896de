-- ===== src/Stdin/Line.antt =====
-- What `read_line` hands to its caller.
use mathlib.Core.Path.{subst}
use native.Mathlib.Nat.{zero-add}
use my_operating_system.Base.{
  ℕ, zero, suc, ◌+◌, ◌-◌, ◌^◌, ◌<◌, ◌≡◌, ◌≢◌, ◌⊎◌, inl, inr, refl, sym, ap, ◌∙◌, arith, Option,
  none, some, false, List, [], ◌∷◌, ◌++◌, ltb, ◌==◌, if◌then◌else◌, Bool-cases, ==_iff,
}
use my_operating_system.Memory.{Memory, write, memcpy}
use my_operating_system.Memory.Spans.{bytes_at, bytes_at-kept, bytes_at-copied, bytes_at-split}
use my_operating_system.Memory.Blocks.{IsBytes, write-IsBytes, memcpy_lem, memcpy-IsBytes, same_at}
use my_operating_system.Heap.{
  Heap, heap_base, malloc, malloc_ready, ensure_init, mem_init, place, set_error,
}
use my_operating_system.Stdin.{Stdin, stdin_base, line_length, read_line}
use my_operating_system.Stdin.Fifo.{IsValid, chars, pending}

abbrev newline : ℕ
newline = 10

-- Characters other than the line's end.
abbrev pub InLine : List ℕ → Type 0
InLine [] = Unit {0}
InLine (c ∷ cs) = (c ≢ newline) × InLine cs

-- The heap's top is in 16 bits, so every block begins below 0x1F000.
pub malloc_range :
    (size : ℕ) (h : Heap)
    → h.heap_top < 2 ^ 16
    → ((malloc size h).1.heap_top < 2 ^ 16) × ((malloc size h).0 < heap_base + 2 ^ 16)
unfolding malloc malloc_ready ensure_init mem_init place set_error
malloc_range size h t = ground arith

-- What the search returns: 0 and no line end among the `n` characters from `p` on, or one more than
-- the characters before the first line end.
abbrev Searched : Memory → ℕ → ℕ → ℕ → ℕ → Type 0
Searched m p i n r =
    ((r ≡ 0) × InLine (bytes_at m p n))
    ⊎ ((k : ℕ) × (r ≡ i + suc k) × (k < n) × InLine (bytes_at m p k) × (m (p + k) ≡ newline))

Searched-on :
    (m : Memory) (p i n r : ℕ)
    → m p ≢ newline
    → Searched m (p + 1) (i + 1) n r
    → Searched m p i (suc n) r
Searched-on m p i n r ne (inl (z, l)) = inl (z, (ne, l))
Searched-on m p i n r ne (inr (k, e, lt, l, nl)) = inr (
  suc k,
  omega (arith, e),
  omega arith,
  (ne, l),
  same_at m (p + suc k) (p + 1 + k) (omega arith) ∙ nl,
)

line_length_lem : (m : Memory) (at i n p : ℕ) → at + i ≡ p → Searched m p i n (line_length m at i n)
unfolding line_length
line_length_lem m at i zero p e = inl (refl, tt)
line_length_lem m at i (suc n) p e =
    let same : m (at + i) ≡ m p = ap m e in
    elim (Bool-cases (m p == newline)) [
      | inl nl ↦
          rw (same, nl)
            (inr (
              0,
              refl,
              omega arith,
              tt,
              same_at m (p + 0) p (omega arith) ∙ (==_iff (m p) newline).0 nl,
            ))
      | inr ne ↦
          let rest = line_length_lem m at (i + 1) n (p + 1) (omega arith) in
          rw (same, ne) (Searched-on m p i n _ (ground (arith, ne)) rest)
    ]

-- The text that a call leaves at `p`, with `k` characters before the line's end.
pub record TextRead (before after : Stdin) (p k : ℕ) : Type 0 where
  pub block : p < heap_base + 2 ^ 16
  pub in_line : InLine (bytes_at after.memory p k)
  pub line_end : after.memory (p + k) ≡ newline
  pub ended : after.memory (p + suc k) ≡ 0
  pub taken : pending before ≡ bytes_at after.memory p (suc k) ++ pending after
  pub valid : IsValid after
  pub bytes : IsBytes after.memory
  pub input : after.in_count ≡ before.in_count
  pub output : after.out_count ≡ before.out_count + suc k

-- The three outcomes of a call: it waits for a line, it returns NULL and has taken nothing, or it
-- returns the first line.
pub data Reads (s : Stdin) (r : Option (ℕ × Heap × Stdin)) : Type 0 where
  waits : r ≡ none → s.new_line_count ≡ 0 → Reads s r
  fails : {h : Heap} → r ≡ some (0, h, s) → 0 < s.new_line_count → h.heap_top < 2 ^ 16 → Reads s r
  reads :
      {p : ℕ} {h : Heap} {after : Stdin} (k : ℕ)
      → r ≡ some (p, h, after)
      → 0 < s.new_line_count
      → h.heap_top < 2 ^ 16
      → p ≢ 0
      → TextRead s after p k
      → Reads s r

chars-bytes_at : (m : Memory) (i n p : ℕ) → p ≡ stdin_base + i → chars m i n ≡ bytes_at m p n
chars-bytes_at m i zero p e = refl
chars-bytes_at m i (suc n) p e =
    ground (arith, same_at m p (stdin_base + i), chars-bytes_at m (i + 1) n (p + 1) (omega arith))

-- The memory after the copy of a line and its terminating zero.
copied : Memory → ℕ → ℕ → ℕ → Memory
copied m dst src len = write (memcpy dst src len m) (dst + len) 0

module _ (m : Memory) (dst src len : ℕ) (bytes : IsBytes m) (below : dst + len < src) where
  copied-line : (i : ℕ) → i < len → copied m dst src len (dst + i) ≡ m (src + i)
  unfolding copied write
  copied-line i h =
      let (same, kept) = memcpy_lem dst src len m bytes (inl (omega arith)) in
      ground (arith, same i h)

  copied-kept : (x : ℕ) → dst + len < x → copied m dst src len x ≡ m x
  unfolding copied write
  copied-kept x h =
      let (same, kept) = memcpy_lem dst src len m bytes (inl (omega arith)) in
      ground (arith, kept x (inr (omega arith)))

copied-end : (m : Memory) (dst src len : ℕ) → copied m dst src len (dst + len) ≡ 0
unfolding copied write
copied-end m dst src len = ground arith

copied-IsBytes : (m : Memory) (dst src len : ℕ) → IsBytes m → IsBytes (copied m dst src len)
unfolding copied
copied-IsBytes m dst src len bytes =
    write-IsBytes _ (dst + len) 0 (memcpy-IsBytes dst src len m bytes)

-- The state after a line with `k` characters before its end is copied to `p`.
after_line : Stdin → ℕ → ℕ → Stdin
after_line s p k = record s {
  memory = copied s.memory p (stdin_base + s.out_count) (suc k);
  out_count = s.out_count + suc k;
  new_line_count = if ltb 0 s.new_line_count then s.new_line_count - 1 else s.new_line_count;
}

after_line-TextRead :
    (s : Stdin) (p k : ℕ)
    → IsValid s
    → IsBytes s.memory
    → p < heap_base + 2 ^ 16
    → s.out_count + k < s.in_count
    → InLine (bytes_at s.memory (stdin_base + s.out_count) k)
    → s.memory (stdin_base + s.out_count + k) ≡ newline
    → TextRead s (after_line s p k) p k
unfolding after_line
after_line-TextRead s p k v bytes low lt l nl =
    let fits = v.fits in
    let m = s.memory in
    let src = stdin_base + s.out_count in
    let m' = copied m p src (suc k) in
    let below : p + suc k < src = omega (arith, fits) in
    let line = copied-line m p src (suc k) bytes below in
    let kept = copied-kept m p src (suc k) bytes below in
    let left = s.in_count - (s.out_count + suc k) in
    let same = bytes_at-copied m m' p src (suc k) line in
    let tail =
      chars-bytes_at m' (s.out_count + suc k) left (src + suc k) (omega arith)
      ∙ bytes_at-kept m m' (src + suc k) left (λ x lo hi. kept x (omega arith)) in
    record {
      block = low;
      in_line = subst InLine (sym (bytes_at-copied m m' p src k (λ i h. line i (omega arith)))) l;
      line_end = line k (omega arith) ∙ nl;
      ended = copied-end m p src (suc k);
      taken =
          chars-bytes_at m s.out_count (s.in_count - s.out_count) src refl
          ∙ bytes_at-split m src (src + suc k) (suc k) left (s.in_count - s.out_count) refl
              (omega arith)
          ∙ ap (λ l. l ++ bytes_at m (src + suc k) left) (sym same)
          ∙ ap (λ l. bytes_at m' p (suc k) ++ l) (sym tail);
      valid = record { ordered = omega arith; fits = fits };
      bytes = copied-IsBytes m p src (suc k) bytes;
      input = refl;
      output = refl;
    }

-- `read_line`, on a valid buffer over a memory of bytes and with the heap's top in 16 bits, waits
-- exactly while no newline is counted. Otherwise it returns: NULL, and then the buffer is as it was;
-- or a pointer to the first line of what is pending, up to its newline and ended by a zero, which is
-- taken from what is pending, with the buffer valid again.
pub read_line_lem :
    (h : Heap) (s : Stdin)
    → IsValid s
    → IsBytes s.memory
    → h.heap_top < 2 ^ 16
    → Reads s (read_line h s)
unfolding read_line after_line copied
read_line_lem h s v bytes top =
    let src = stdin_base + s.out_count in
    elim (Bool-cases (ltb s.new_line_count 1)) [
      | inl e ↦ waits (rw e refl) (ground arith)
      | inr e ↦ elim (line_length_lem s.memory src 0 (s.in_count - s.out_count) src (omega arith)) [
        | inl (z, none_there) ↦ fails {h = h} (rw (e, z) refl) (ground arith) top
        | inr (k, z, lt, l, nl) ↦
            let len = z ∙ zero-add (suc k) in
            let some_line : (suc k == 0) ≡ false = ground arith in
            let (small, range) = malloc_range (suc k + 1) h top in
            elim (Bool-cases ((malloc (suc k + 1) h).0 == 0)) [
              | inl d ↦
                  fails {h = (malloc (suc k + 1) h).1} (rw (e, len, some_line, d) refl)
                    (ground arith) small
              | inr d ↦
                  reads {p = (malloc (suc k + 1) h).0} {h = (malloc (suc k + 1) h).1}
                    {after = after_line s (malloc (suc k + 1) h).0 k} k
                    (rw (e, len, some_line, d) refl) (ground arith) small (ground arith)
                    (after_line-TextRead s (malloc (suc k + 1) h).0 k v bytes range (omega arith) l
                      nl)
            ]
      ]
    ]
