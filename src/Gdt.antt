-- ===== src/Gdt.antt =====
-- The segment descriptors: kernel/GDT/GDT.c and GDT.h. `lgdt` is assembly; the model keeps the
-- table and the register's value.
pub mod Decode
use my_operating_system.Base.{ℕ, ◌+◌, ◌-◌, ◌*◌, ◌^◌, List, [], ◌∷◌, u8, u16, ◌>>>◌, bit_and, bit_or}

-- `gdt_entry_t`
pub record GdtEntry : Type 0 where
  pub limit_low : ℕ
  pub base_low : ℕ
  pub base_mid : ℕ
  pub access : ℕ
  pub gran : ℕ
  pub base_high : ℕ

-- `gdt_ptr_t`
pub record GdtPtr : Type 0 where
  pub limit : ℕ
  pub base : ℕ

unfoldable pub gdt_make_entry : ℕ → ℕ → ℕ → ℕ → GdtEntry
gdt_make_entry base limit access flags = record {
  limit_low = u16 (bit_and limit 0xFFFF);
  base_low = u16 (bit_and base 0xFFFF);
  base_mid = u8 (bit_and (base >>> 16) 0xFF);
  access = access;
  gran = u8 (bit_or (bit_and (limit >>> 16) 0x0F) (bit_and flags 0xF0));
  base_high = u8 (bit_and (base >>> 24) 0xFF);
}

-- `gdt_init`, where `gdt` is the address of the table: the table, and what `lgdt` is given. An
-- entry takes 8 bytes.
unfoldable pub gdt_init : ℕ → List GdtEntry × GdtPtr
unfolding gdt_make_entry
gdt_init gdt = (
  gdt_make_entry 0 0 0 0
      ∷ gdt_make_entry 0 0xFFFFF 0x9A 0xCF
      ∷ gdt_make_entry 0 0xFFFFF 0x92 0xCF
      ∷ [],
  record { limit = 3 * 8 - 1; base = gdt },
)
