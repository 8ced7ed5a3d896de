-- ===== src/Format/Bounds.antt =====
-- Where `snprintf` writes, and that it ends.
use my_operating_system.Base.{
  ℕ, zero, suc, ◌+◌, ◌-◌, ◌^◌, ◌≤◌, ◌<◌, ◌≡◌, ◌≢◌, ◌⊎◌, inl, inr, refl, ◌∙◌, arith, Bool, true,
  false, Option, some, ltb, leb, ◌==◌, ◌!=◌, ◌||◌, if◌then◌else◌, Bool-cases, sub_u32,
}
use my_operating_system.Memory.{Memory, write}
use my_operating_system.Text.Length.{IsText}
use my_operating_system.Format.{
  copy_digits, copy_string, put_number, put_signed, directive, format_from, snprintf,
}

-- From `pos`, a step has written to `buf` between `pos` and the new position, at most `lim`.
abbrev pub Within : ℕ → ℕ → ℕ → Memory → ℕ × Memory → Type 0
Within buf lim pos m (pos', m') =
    (pos ≤ pos') × (pos' ≤ lim) × ((x : ℕ) → (x < buf) ⊎ (buf + lim ≤ x) → m' x ≡ m x)

write-outside : (m : Memory) (a v x : ℕ) → x ≢ a → write m a v x ≡ m x
unfolding write
write-outside m a v x h = ground arith

copy_digits-Within :
    (tmp : Memory) (j n buf lim pos : ℕ) (m : Memory)
    → pos ≤ lim
    → Within buf lim pos m (copy_digits tmp j n buf lim pos m)
unfolding copy_digits
copy_digits-Within tmp j zero buf lim pos m h = (omega arith, h, λ x o. refl)
copy_digits-Within tmp j (suc n) buf lim pos m h = elim (Bool-cases (ltb pos lim)) [
  | inl e ↦
      let (a, b, c) =
        copy_digits-Within tmp (j + 1) n buf lim (pos + 1) (write m (buf + pos) (tmp j))
          (ground arith) in
      rw (e) (omega arith, b, λ x o. c x o ∙ write-outside m (buf + pos) (tmp j) x (ground arith))
  | inr e ↦ rw (e) (omega arith, h, λ x o. refl)
]

copy_string-Within :
    (s n buf lim pos : ℕ) (m : Memory)
    → pos + n ≤ lim
    → Within buf lim pos m (copy_string s n buf pos m)
unfolding copy_string
copy_string-Within s zero buf lim pos m h = (omega arith, omega arith, λ x o. refl)
copy_string-Within s (suc n) buf lim pos m h = elim (Bool-cases (m s == 0)) [
  | inl e ↦ rw (e) (omega arith, omega arith, λ x o. refl)
  | inr e ↦
      let (a, b, c) =
        copy_string-Within (s + 1) n buf lim (pos + 1) (write m (buf + pos) (m s)) (omega arith) in
      rw (e) (omega arith, b, λ x o. c x o ∙ write-outside m (buf + pos) (m s) x (omega arith))
]

put_number-Within :
    (val base : ℕ) (up : Bool) (buf lim pos : ℕ) (m : Memory)
    → pos ≤ lim
    → Within buf lim pos m (put_number val base up buf lim pos m)
unfolding put_number
put_number-Within val base up buf lim pos m h = copy_digits-Within _ 0 _ buf lim pos m h

-- A branch stays within where both its sides do.
if-Within :
    (b : Bool) {buf lim pos : ℕ} {m : Memory} {r r' : ℕ × Memory}
    → Within buf lim pos m r
    → Within buf lim pos m r'
    → Within buf lim pos m (if b then r else r')
if-Within true h h' = h
if-Within false h h' = h'

one_byte-Within :
    (c buf lim pos : ℕ) (m : Memory)
    → pos < lim
    → Within buf lim pos m (pos + 1, write m (buf + pos) c)
one_byte-Within c buf lim pos m h =
    (omega arith, omega arith, λ x o. write-outside m (buf + pos) c x (omega arith))

then-Within :
    (c buf lim pos : ℕ) (m : Memory) (r : ℕ × Memory)
    → pos < lim
    → Within buf lim (pos + 1) (write m (buf + pos) c) r
    → Within buf lim pos m r
then-Within c buf lim pos m r h (a, b, o) =
    (omega arith, b, λ x out. o x out ∙ write-outside m (buf + pos) c x (omega arith))

directive-Within :
    (letter arg buf lim pos : ℕ) (m : Memory)
    → pos < lim
    → Within buf lim pos m (directive letter arg buf lim pos m)
unfolding directive put_signed
directive-Within letter arg buf lim pos m h =
    let number =
      λ (base : ℕ) (up : Bool). put_number-Within arg base up buf lim pos m (omega arith) in
    if-Within (letter == b'%') (one_byte-Within b'%' buf lim pos m h) (
      if-Within (letter == b'd')
        (if-Within (leb (2 ^ 31) arg)
          (then-Within b'-' buf lim pos m _ h
            (put_number-Within _ 10 false buf lim (pos + 1) _ (omega arith)))
          (number 10 false))
        (if-Within (letter == b'u') (number 10 false) (
          if-Within (letter == b'x') (number 16 false) (
            if-Within (letter == b'X') (number 16 true) (
              if-Within (letter == b's')
                (copy_string-Within arg (lim - pos) buf lim pos m (omega arith))
                (omega arith, omega arith, λ x o. refl))))))

-- A text that the writes do not reach is still there.
IsText-kept :
    (m m' : Memory) (p n : ℕ)
    → ((x : ℕ) → p ≤ x → x ≤ p + n → m' x ≡ m x)
    → IsText m p n
    → IsText m' p n
IsText-kept m m' p zero same t = same p (omega arith) (omega arith) ∙ t
IsText-kept m m' p (suc n) same t = (
  λ z. t.0 (ground (arith, same p (omega arith) (omega arith), z)),
  IsText-kept m m' (p + 1) n (λ x lo hi. same x (omega arith) (omega arith)) t.1,
)

-- The format lies apart from the buffer's first `lim` bytes.
abbrev pub Clear : ℕ → ℕ → ℕ → ℕ → Type 0
Clear fmt n buf lim = (fmt + n < buf) ⊎ (buf + lim ≤ fmt)

abbrev Ends : ℕ → ℕ → ℕ → Memory → Option (ℕ × Memory) → Type 0
Ends buf lim pos m o = (r : ℕ × Memory) × (o ≡ some r) × Within buf lim pos m r

IsText-suc :
    (m : Memory) (p n : ℕ) → IsText m p n → m p ≢ 0 → (k : ℕ) × (n ≡ suc k) × IsText m (p + 1) k
IsText-suc m p zero t ne = absurd (ne t)
IsText-suc m p (suc k) t ne = (k, refl, t.1)

two : (p : ℕ) → p + 1 + 1 ≡ p + 2
two p = omega arith

module _ (args : ℕ → ℕ) (buf lim : ℕ) where
  here-Ends : (pos : ℕ) (m : Memory) → pos ≤ lim → Ends buf lim pos m (some (pos, m))
  here-Ends pos m h = ((pos, m), refl, (omega arith, h, λ x o. refl))

  if-Ends :
      (b : Bool) {pos : ℕ} {m : Memory} {o o' : Option (ℕ × Memory)}
      → (b ≡ true → Ends buf lim pos m o)
      → (b ≡ false → Ends buf lim pos m o')
      → Ends buf lim pos m (if b then o else o')
  if-Ends true h h' = h refl
  if-Ends false h h' = h' refl

  after-Ends :
      (pos : ℕ) (m : Memory) (r : ℕ × Memory) (o : Option (ℕ × Memory))
      → Within buf lim pos m r
      → Ends buf lim r.0 r.1 o
      → Ends buf lim pos m o
  after-Ends pos m r o (a, b, same) (r', e, (a', b', same')) =
      (r', e, (omega arith, b', λ x out. same' x out ∙ same x out))

  -- What a step within the buffer leaves of the format.
  rest-IsText :
      (pos k n fmt : ℕ) (m : Memory) (r : ℕ × Memory)
      → Within buf lim pos m r
      → Clear fmt (k + n) buf lim
      → IsText m (fmt + k) n
      → IsText r.1 (fmt + k) n
  rest-IsText pos k n fmt m r (a, b, same) c =
      IsText-kept m r.1 (fmt + k) n (λ x lo hi. same x (omega arith))

  format_from-Ends :
      (f n fmt idx pos : ℕ) (m : Memory)
      → pos ≤ lim
      → IsText m fmt n
      → n < f
      → Clear fmt n buf lim
      → Ends buf lim pos m (format_from f fmt args idx buf lim pos m)
  unfolding format_from
  format_from-Ends zero n fmt idx pos m le t h c = absurd (omega arith)
  format_from-Ends (suc f) zero fmt idx pos m le t h c =
      if-Ends ((m fmt == 0) || leb lim pos) (λ e. here-Ends pos m le) (λ e. absurd (ground arith))
  format_from-Ends (suc f) (suc n) fmt idx pos m le t h c =
      if-Ends ((m fmt == 0) || leb lim pos) (λ e. here-Ends pos m le)
        λ more.
          let room : pos < lim = ground arith in
          if-Ends (m fmt != b'%')
            (λ e.
              let one = one_byte-Within (m fmt) buf lim pos m room in
              after-Ends pos m _ _ one (
                format_from-Ends f n (fmt + 1) idx (pos + 1) (write m (buf + pos) (m fmt))
                  (omega arith) (rest-IsText pos 1 n fmt m _ one (omega arith) t.1) (omega arith)
                  (omega arith)))
            λ e.
              if-Ends (m (fmt + 1) == 0) (λ e. here-Ends pos m le)
                λ ne.
                  let (k, n_eq, t') = IsText-suc m (fmt + 1) n t.1 (ground arith) in
                  let move = directive-Within (m (fmt + 1)) (args idx) buf lim pos m room in
                  after-Ends pos m _ _ move (
                    format_from-Ends f k (fmt + 2) _ _ _ move.1
                      (rest-IsText pos 2 k fmt m _ move (omega arith) (rw (← two fmt) t'))
                      (omega arith) (omega arith))

snprintf-some :
    (fuel buf size fmt : ℕ) (args : ℕ → ℕ) (m : Memory) (r : ℕ × Memory)
    → format_from fuel fmt args 0 buf (sub_u32 size 1) 0 m ≡ some r
    → snprintf fuel buf size fmt args m ≡ some (r.0, write r.1 (buf + r.0) 0)
unfolding snprintf
snprintf-some fuel buf size fmt args m r e = rw (e, snprintf)

-- `snprintf` with a size other than 0 and a format that is a text apart from the buffer ends, for
-- every argument array: it returns a length below the size, writes a zero behind that many
-- characters, and changes no byte outside of the `size` bytes of the buffer.
pub snprintf_lem :
    (fuel buf size fmt n : ℕ) (args : ℕ → ℕ) (m : Memory)
    → 0 < size
    → size < 2 ^ 32
    → IsText m fmt n
    → n < fuel
    → Clear fmt n buf size
    → (pos : ℕ) × (m' : Memory) × (snprintf fuel buf size fmt args m ≡ some (pos, m'))
      × (pos < size)
      × (m' (buf + pos) ≡ 0)
      × ((x : ℕ) → (x < buf) ⊎ (buf + size ≤ x) → m' x ≡ m x)
snprintf_lem fuel buf size fmt n args m pos_size small t h c =
    let lim : sub_u32 size 1 ≡ size - 1 = omega arith in
    let (r, e, (lo, hi, same)) =
      format_from-Ends args buf (sub_u32 size 1) fuel n fmt 0 0 m (omega arith) t h (omega arith) in
    (
      r.0,
      write r.1 (buf + r.0) 0,
      snprintf-some fuel buf size fmt args m r e,
      omega arith,
      unfold write in ground arith,
      λ x out. write-outside r.1 (buf + r.0) 0 x (omega arith) ∙ same x (omega arith),
    )
