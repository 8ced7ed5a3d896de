-- ===== src/Fat/Described.antt =====
-- The volume that a boot sector describes: the reserved sectors, the tables, the root directory and
-- the data follow each other.
use native.Mathlib.Nat.{div-add-mod', div-le_of_le-mul, mod-lt, mul-le-mul}
use my_operating_system.Base.{
  ℕ, ◌+◌, ◌*◌, ◌/◌, ◌%◌, ◌^◌, ◌≤◌, ◌<◌, ◌≡◌, refl, arith, ◌!=◌, u16, Bool-cases, inl, inr,
}
use my_operating_system.Fat.{BootSector, Fat16, layout, root_dir_sectors_of}

-- The fields have the widths of their C types, and a sector holds more than one directory entry.
pub record IsSized (b : BootSector) : Type 0 where
  pub sector : b.bytes_per_sector < 2 ^ 16
  pub more : 32 < b.bytes_per_sector
  pub reserved : b.reserved_sectors < 2 ^ 16
  pub tables : b.fat_count < 2 ^ 8
  pub entries : b.root_dir_entries < 2 ^ 16
  pub table : b.sectors_per_fat < 2 ^ 16

-- The numbers of `l` are those of the volume: no more sectors for the root directory than its
-- entries of 32 bytes each take.
pub record IsLayout (b : BootSector) (l : Fat16) : Type 0 where
  pub tables_start : l.fat_start_lba ≡ b.reserved_sectors
  pub table_sectors : l.fat_sectors ≡ b.sectors_per_fat
  pub table_bytes : l.fat_bytes ≡ b.sectors_per_fat * b.bytes_per_sector
  pub root_start : l.root_dir_start_lba ≡ b.reserved_sectors + b.fat_count * b.sectors_per_fat
  pub root_bytes : l.root_dir_bytes ≡ b.root_dir_entries * 32
  pub root_enough : b.root_dir_entries * 32 ≤ l.root_dir_sectors * b.bytes_per_sector
  pub root_tight :
      l.root_dir_sectors * b.bytes_per_sector < b.root_dir_entries * 32 + b.bytes_per_sector
  pub data_start :
      l.data_start_lba ≡ b.reserved_sectors + b.fat_count * b.sectors_per_fat + l.root_dir_sectors
  pub cluster : l.sectors_per_cluster ≡ b.sectors_per_cluster
  pub sector : l.bytes_per_sector ≡ b.bytes_per_sector

-- The sectors that `bytes` take, rounded up.
root_dir_sectors_of_lem :
    (bytes sector : ℕ)
    → 32 < sector
    → bytes < 2 ^ 21
    → let n = root_dir_sectors_of bytes sector in
      (bytes ≤ n * sector) × (n * sector < bytes + sector) × (n < 2 ^ 16)
unfolding root_dir_sectors_of
root_dir_sectors_of_lem bytes sector h small =
    let q = bytes / sector in
    let r = bytes % sector in
    let whole : q * sector + r ≡ bytes = div-add-mod' bytes sector in
    let low : r < sector = mod-lt bytes (omega arith) in
    let few : q ≤ 63551 = div-le_of_le-mul sector (omega arith) in
    let same : u16 q ≡ q = omega arith in
    elim (Bool-cases (r != 0)) [
      | inl e ↦
          let next : u16 (q + 1) ≡ q + 1 = omega arith in
          let more : (q + 1) * sector ≡ q * sector + sector = grind arith in
          let some_left : 0 < r = ground (arith, e) in
          rw (e, same, next, more) (omega arith, omega arith, omega arith)
      | inr e ↦
          let none_left : r ≡ 0 = ground (arith, e) in
          rw (e, same) (omega arith, omega arith, omega arith)
    ]

-- The numbers that `fat_init` takes over from the boot sector.
pub layout-IsLayout : (b : BootSector) → IsSized b → IsLayout b (layout b)
unfolding layout
layout-IsLayout b v =
    let sector = v.sector in
    let reserved = v.reserved in
    let tables = v.tables in
    let table = v.table in
    let entries = v.entries in
    let all : b.fat_count * b.sectors_per_fat ≤ 2 ^ 8 * 2 ^ 16 =
      mul-le-mul {n₂ = 2 ^ 8} {m₂ = 2 ^ 16} (omega arith) (omega arith) in
    let bytes : b.sectors_per_fat * b.bytes_per_sector ≤ 65535 * 65535 =
      mul-le-mul {n₂ = 65535} {m₂ = 65535} (omega arith) (omega arith) in
    let (enough, tight, few) =
      root_dir_sectors_of_lem (b.root_dir_entries * 32) b.bytes_per_sector v.more (omega arith) in
    record {
      tables_start = refl;
      table_sectors = refl;
      table_bytes = omega arith;
      root_start = omega arith;
      root_bytes = refl;
      root_enough = enough;
      root_tight = tight;
      data_start = omega arith;
      cluster = refl;
      sector = refl;
    }
