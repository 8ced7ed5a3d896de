-- ===== src/Ata/Words.antt =====
-- The loop of `ata_identify` over the words that the drive sends.
use my_operating_system.Base.{
  ℕ, zero, suc, ◌+◌, ◌*◌, ◌^◌, ◌≤◌, ◌<◌, ◌≡◌, ◌⊎◌, inl, refl, ap, ◌∙◌, arith, some, bit_and, ◌>>>◌,
}
use my_operating_system.Base.Bits.{bit_and_low}
use my_operating_system.Memory.{Memory, write}
use my_operating_system.Io
use my_operating_system.Io.{Device, Trace, input}
use my_operating_system.Ata.{Ata, Drive, reg_data}
use my_operating_system.Ata.Init.{read_identify}
use my_operating_system.Ata.Stores.{two_bytes}

-- The word in the two bytes from `a` on, the low byte first.
abbrev pub word_at : Memory → ℕ → ℕ
word_at m a = m a + 256 * m (a + 1)

-- What the device gives on the `i`-th of the reads of `port` that follow one another after `t`.
abbrev pub answer : Device → ℕ → Trace → ℕ → ℕ
answer dev port t zero = (Io.inw dev port t).0
answer dev port t (suc i) = answer dev port (Io.inw dev port t).1 i

-- The `n` words from `raw` on are the device's, and no other byte has changed.
pub record WordsRead (dev : Device) (port n raw : ℕ) (s t : Ata) : Type 0 where
  pub words : (i : ℕ) → i < n → word_at t.memory (raw + i * 2) ≡ answer dev port s.trace i
  pub others : (x : ℕ) → (x < raw) ⊎ (raw + n * 2 ≤ x) → t.memory x ≡ s.memory x
  pub error : t.last_error ≡ s.last_error

stored_word :
    (m : Memory) (raw w : ℕ)
    → w < 2 ^ 16
    → word_at (write (write m raw (bit_and w 0xFF)) (raw + 1) (w >>> 8)) raw ≡ w
unfolding write
stored_word m raw w h = ground (arith, bit_and_low 8 w)

inw_small : (dev : Device) (port : ℕ) (t : Trace) → (Io.inw dev port t).0 < 2 ^ 16
unfolding Io.inw
inw_small dev port t = omega arith

words_cons :
    (dev : Device) (port : ℕ) (t : Trace) (n raw : ℕ) (m m' : Memory)
    → word_at m raw ≡ (Io.inw dev port t).0
    → ((x : ℕ) → x < raw + 2 → m' x ≡ m x)
    → ((i : ℕ) → i < n → word_at m' (raw + 2 + i * 2) ≡ answer dev port (Io.inw dev port t).1 i)
    → (i : ℕ) → i < suc n
    → word_at m' (raw + i * 2) ≡ answer dev port t i
words_cons dev port t n raw m m' first kept rest zero h =
    let at : raw + 0 * 2 ≡ raw = omega arith in
    ap (λ (a : ℕ). word_at m' a) at
    ∙ omega (arith, kept raw (omega arith), kept (raw + 1) (omega arith), first)
words_cons dev port t n raw m m' first kept rest (suc i) h =
    let at : raw + suc i * 2 ≡ raw + 2 + i * 2 = omega arith in
    ap (λ (a : ℕ). word_at m' a) at ∙ rest i (omega (arith, h))

pub read_identify-WordsRead :
    (dev : Device) (drv : Drive) (n raw : ℕ) (s : Ata)
    → ((read_identify dev drv n raw s).0 ≡ some tt)
      × WordsRead dev (drv.base + reg_data) n raw s (read_identify dev drv n raw s).1
unfolding read_identify
read_identify-WordsRead dev drv zero raw s =
    (refl, record { words = λ i h. absurd (omega (arith, h)); others = λ x o. refl; error = refl })
read_identify-WordsRead dev drv (suc n) raw s =
    let port = drv.base + reg_data in
    let w = (Io.inw dev port s.trace).0 in
    let m' = write (write s.memory raw (bit_and w 0xFF)) (raw + 1) (w >>> 8) in
    let s' : Ata = record s { trace = (Io.inw dev port s.trace).1; memory = m' } in
    let (done, rest) = read_identify-WordsRead dev drv n (raw + 2) s' in
    let kept = rest.others in
    (
      done,
      record {
        words =
            words_cons dev port s.trace n raw m' _
              (stored_word s.memory raw w (inw_small dev port s.trace)) (λ x h. kept x (inl h))
              rest.words;
        others = λ x o.
            kept x (omega arith)
            ∙ two_bytes s.memory raw (bit_and w 0xFF) (w >>> 8) x (omega arith);
        error = rest.error;
      },
    )
