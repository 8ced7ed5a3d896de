-- ===== src/Ata/Address.antt =====
-- The command block that a read prepares for the drive.
use my_operating_system.Base.{
  ℕ, ◌+◌, ◌*◌, ◌/◌, ◌%◌, ◌^◌, ◌≤◌, ◌<◌, ◌≡◌, refl, ap, arith, Bool, true, false, ◌||◌, Option, none,
  some, ltb, ◌==◌, ◌!=◌, ==_iff, if◌then◌else◌, u8, bit_and, bit_or, ◌⊎◌, ◌∙◌, inl, inr, Bool-cases,
}
use my_operating_system.Base.Bits.{bit_and_low, bit_and_high, all_below, all_below_at}
use my_operating_system.Ata.{
  Action, ◌>>=◌, Ata, no_error, invalid_argument, Command28, prepare_read, with_lba, blank_command,
  set_sec_count, set_lba, set_dev_sel, set_command, set_ata_mode_lba,
}

-- The block address that the drive reads from its registers.
abbrev pub address_of : Command28 → ℕ
address_of d = d.lba_low + d.lba_mid * 2 ^ 8 + d.lba_high * 2 ^ 16 + d.dev_sel % 16 * 2 ^ 24

-- What the command asks for, where a sector count of 0 stands for 256.
pub record Asks (sectors lba : ℕ) (d : Command28) : Type 0 where
  pub address : address_of d ≡ lba
  pub lba_mode : d.dev_sel / 16 ≡ 0xE
  pub count : (if d.sector_count == 0 then 256 else d.sector_count) ≡ sectors
  pub read : d.command ≡ 0x20

select_check : ℕ → Bool
select_check n =
    u8 (bit_or (bit_and (u8 (bit_or (bit_and (u8 (bit_or 0 0x40)) 0xF0) n)) 0x4F) 0xE0) == 0xE0 + n

select_table : all_below 16 select_check ≡ true
unfolding select_check
select_table = refl

select_lem :
    (n : ℕ)
    → n < 16
    → u8 (bit_or (bit_and (u8 (bit_or (bit_and (u8 (bit_or 0 0x40)) 0xF0) n)) 0x4F) 0xE0) ≡ 0xE0 + n
unfolding select_check
select_lem n h = (==_iff _ _).0 (all_below_at 16 select_check n select_table h)

high_bits : (lba : ℕ) → lba < 2 ^ 32 → bit_and lba 0xF0000000 ≡ lba / 2 ^ 28 * 2 ^ 28
high_bits lba h =
    ground (arith, bit_and_high 28 (lba / 2 ^ 28) (lba % 2 ^ 28) 15, bit_and_low 4 (lba / 2 ^ 28))

abbrev pub read_command : ℕ → ℕ → Command28
read_command sectors lba =
    set_command
      (set_dev_sel
        (with_lba
          (record (set_ata_mode_lba blank_command) {
            sector_count = if sectors == 256 then 0 else u8 sectors;
          })
          lba)
        false)
      0x20

pub read_command-Asks :
    (sectors lba : ℕ)
    → lba < 2 ^ 28
    → 0 < sectors
    → sectors ≤ 256
    → Asks sectors lba (read_command sectors lba)
unfolding set_ata_mode_lba set_dev_sel set_command
read_command-Asks sectors lba h lo hi = record {
  address = ground (
    arith,
    bit_and_low 8 lba,
    bit_and_low 8 (lba / 2 ^ 8),
    bit_and_low 8 (lba / 2 ^ 16),
    bit_and_low 4 (lba / 2 ^ 24),
    select_lem (bit_and (lba / 2 ^ 24) 0x0F),
  );
  lba_mode = ground (arith, bit_and_low 4 (lba / 2 ^ 24), select_lem (bit_and (lba / 2 ^ 24) 0x0F));
  count = ground arith;
  read = refl;
}

module _ (d : Command28) (n : ℕ) (s : Ata) where
  abbrev stopped : Option Command28 × Ata
  stopped = (none, record s { last_error = invalid_argument })

  set_sec_count_ok :
      0 < n
      → n ≤ 256
      → set_sec_count d n s ≡ (
        some (record d { sector_count = if n == 256 then 0 else u8 n }),
        record s { last_error = no_error },
      )
  unfolding set_sec_count
  set_sec_count_ok lo hi = ground arith

  set_sec_count_bad : (n ≡ 0) ⊎ (256 < n) → set_sec_count d n s ≡ stopped
  unfolding set_sec_count
  set_sec_count_bad h = ground arith

  set_lba_ok :
      n < 2 ^ 28 → set_lba d n s ≡ (some (with_lba d n), record s { last_error = no_error })
  unfolding set_lba
  set_lba_ok h =
      let none_set : (bit_and n 0xF0000000 != 0) ≡ false = ground (arith, high_bits n) in
      rw none_set

  set_lba_bad : 2 ^ 28 ≤ n → n < 2 ^ 32 → set_lba d n s ≡ stopped
  unfolding set_lba
  set_lba_bad h small =
      let some_set : (bit_and n 0xF0000000 != 0) ≡ true = ground (arith, high_bits n) in rw some_set

module _ {A B : Type 0} (m : Action A) (k : A → Action B) (s : Ata) where
  bind_of : Option A × Ata → Option B × Ata
  bind_of r = elim r.0 [ none ↦ (none, r.1) | some a ↦ k a r.1 ]

  pub bind_some : {a : A} {s' : Ata} → m s ≡ (some a, s') → (m >>= k) s ≡ k a s'
  unfolding bind_of
  bind_some e = ap bind_of e

  pub bind_none : {s' : Ata} → m s ≡ (none, s') → (m >>= k) s ≡ (none, s')
  unfolding bind_of
  bind_none e = ap bind_of e

abbrev counted : ℕ → Command28
counted sectors = record (set_ata_mode_lba blank_command) {
  sector_count = if sectors == 256 then 0 else u8 sectors;
}

-- What follows the sector count, and what follows the address.
abbrev finish : Command28 → Action Command28
finish e s = (some (set_command (set_dev_sel e false) 0x20), record s { last_error = no_error })

abbrev address_step : ℕ → Command28 → Action Command28
address_step lba d = set_lba d lba >>= finish

abbrev marked : Ata → Ata
marked s = record s { last_error = no_error }

abbrev count_step : ℕ → Action Command28
count_step sectors = set_sec_count (set_ata_mode_lba blank_command) sectors

pub prepare_ok :
    (sectors lba : ℕ) (s : Ata)
    → lba < 2 ^ 28
    → 0 < sectors
    → sectors ≤ 256
    → prepare_read sectors lba s
      ≡ (some (read_command sectors lba), record s { last_error = no_error })
unfolding prepare_read
prepare_ok sectors lba s h lo hi =
    bind_some (count_step sectors) (address_step lba) s
      (set_sec_count_ok (set_ata_mode_lba blank_command) sectors s lo hi)
    ∙ bind_some (λ t. set_lba (counted sectors) lba t) finish (marked s)
        (set_lba_ok (counted sectors) lba (marked s) h)

pub prepare_bad :
    (sectors lba : ℕ) (s : Ata)
    → lba < 2 ^ 32
    → (2 ^ 28 ≤ lba) ⊎ (sectors ≡ 0) ⊎ (256 < sectors)
    → prepare_read sectors lba s ≡ (none, record s { last_error = invalid_argument })
unfolding prepare_read
prepare_bad sectors lba s h bad = elim (Bool-cases ((sectors == 0) || ltb 256 sectors)) [
  | inl e ↦
      bind_none (count_step sectors) (address_step lba) s
        (set_sec_count_bad (set_ata_mode_lba blank_command) sectors s (ground arith))
  | inr e ↦
      bind_some (count_step sectors) (address_step lba) s
        (set_sec_count_ok (set_ata_mode_lba blank_command) sectors s (ground arith) (ground arith))
      ∙ bind_none (λ t. set_lba (counted sectors) lba t) finish (marked s)
          (set_lba_bad (counted sectors) lba (marked s) (ground arith) h)
]
