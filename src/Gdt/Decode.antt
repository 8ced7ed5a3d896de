-- ===== src/Gdt/Decode.antt =====
-- Reading the base and the limit of a descriptor back, as the processor does.
use my_operating_system.Base.{
  ℕ, ◌+◌, ◌*◌, ◌/◌, ◌%◌, ◌^◌, ◌<◌, ◌≡◌, refl, arith, Bool, true, ◌==◌, ==_iff, bit_and, bit_or,
}
use my_operating_system.Base.Bits.{bit_and_low, all_below, all_below_at}
use my_operating_system.Gdt.{GdtEntry, gdt_make_entry}

-- What the processor reads from a descriptor.
abbrev pub base_of : GdtEntry → ℕ
base_of e = e.base_low + e.base_mid * 2 ^ 16 + e.base_high * 2 ^ 24

abbrev pub limit_of : GdtEntry → ℕ
limit_of e = e.limit_low + e.gran % 16 * 2 ^ 16

nibbles_check : ℕ → ℕ → Bool
nibbles_check lo flags = bit_or lo (bit_and flags 0xF0) == lo + flags / 16 * 16

nibbles_table : all_below 16 (λ lo. all_below 256 (nibbles_check lo)) ≡ true
unfolding nibbles_check
nibbles_table = refl

nibbles :
    (lo flags : ℕ) → lo < 16 → flags < 256 → bit_or lo (bit_and flags 0xF0) ≡ lo + flags / 16 * 16
unfolding nibbles_check
nibbles lo flags hl hf = (==_iff _ _).0 (
    all_below_at 256 (nibbles_check lo) flags
      (all_below_at 16 (λ x. all_below 256 (nibbles_check x)) lo nibbles_table hl) hf)

-- A descriptor made from a 32-bit base, a limit below 2^20, an access byte and flags gives back
-- the base, the limit, the access byte and the upper half of the flags.
pub gdt_make_entry_lem :
    (base limit access flags : ℕ)
    → base < 2 ^ 32
    → limit < 2 ^ 20
    → flags < 256
    → let e = gdt_make_entry base limit access flags in
      (base_of e ≡ base) × (limit_of e ≡ limit) × (e.access ≡ access) × (e.gran / 16 ≡ flags / 16)
unfolding gdt_make_entry
gdt_make_entry_lem base limit access flags hb hl hf =
    rw
      (
        bit_and_low 16 limit,
        bit_and_low 16 base,
        bit_and_low 8 (base / 2 ^ 16),
        bit_and_low 4 (limit / 2 ^ 16),
        bit_and_low 8 (base / 2 ^ 24),
        nibbles (limit / 2 ^ 16 % 2 ^ 4) flags (omega arith) hf,
      )
      (omega arith, omega arith, refl, omega arith)
