-- ===== src/Fat.antt =====
-- The FAT16 driver of the second boot stage: stage2/FAT16/*.c. This file has the volume's layout
-- and the arithmetic on clusters.
pub mod Layout
pub mod Described
pub mod Chain
pub mod Names
pub mod Dir
pub mod Open
use my_operating_system.Base.{
  ℕ, zero, suc, ◌+◌, ◌-◌, ◌*◌, ◌/◌, ◌%◌, ◌^◌, Bool, true, false, ◌&&◌, ◌||◌, ltb, ◌==◌, ◌!=◌,
  if◌then◌else◌, u8, u16, u32,
}

-- `fat16_error_type`
pub data FatError : Type 0 where
  ok boot_sector_read_fail invalid_boot_signature invalid_ebr_signature : FatError
  critical_bpb_value_is_zero fat_load_fail root_directory_load_fail invalid_argument : FatError
  memory_allocation_fail chain_traversal_fail directory_parsing_fail entry_load_fail : FatError
  invalid_attribute entry_not_found lfn_buffer_full lfn_buffer_empty lfn_sfn_parsing_fail : FatError

-- The fields of `boot_sector` that the driver reads.
pub record BootSector : Type 0 where
  pub bytes_per_sector : ℕ
  pub sectors_per_cluster : ℕ
  pub reserved_sectors : ℕ
  pub fat_count : ℕ
  pub root_dir_entries : ℕ
  pub sectors_per_fat : ℕ
  pub ebr_signature : ℕ
  pub boot_signature : ℕ

-- The numbers of `Fat16`.
pub record Fat16 : Type 0 where
  pub fat_start_lba : ℕ
  pub fat_sectors : ℕ
  pub fat_bytes : ℕ
  pub root_dir_start_lba : ℕ
  pub root_dir_sectors : ℕ
  pub root_dir_bytes : ℕ
  pub data_start_lba : ℕ
  pub sectors_per_cluster : ℕ
  pub bytes_per_sector : ℕ

-- Lines 12 to 24 of `fat_init`.
unfoldable pub check_boot_sector : BootSector → FatError
check_boot_sector bs =
    if bs.boot_signature != 0xAA55
    then invalid_boot_signature
    else if bs.ebr_signature != 0x28 && (bs.ebr_signature != 0x29)
    then invalid_ebr_signature
    else if (bs.bytes_per_sector == 0) || (bs.sectors_per_cluster == 0) || (bs.sectors_per_fat == 0)
    then critical_bpb_value_is_zero
    else ok

-- Lines 35 to 37: the root directory's sectors, in a `uint16_t`. A directory entry has 32 bytes.
unfoldable pub root_dir_sectors_of : ℕ → ℕ → ℕ
root_dir_sectors_of bytes sector =
    let whole = u16 (bytes / sector) in if bytes % sector != 0 then u16 (whole + 1) else whole

-- Lines 26 to 40 of `fat_init`.
unfoldable pub layout : BootSector → Fat16
layout bs =
    let root_start = u32 (bs.reserved_sectors + bs.fat_count * bs.sectors_per_fat) in
    let root_bytes = bs.root_dir_entries * 32 in
    let root_sectors = root_dir_sectors_of root_bytes bs.bytes_per_sector in
    record {
      fat_start_lba = bs.reserved_sectors;
      fat_sectors = bs.sectors_per_fat;
      fat_bytes = u32 (bs.sectors_per_fat * bs.bytes_per_sector);
      root_dir_start_lba = root_start;
      root_dir_sectors = root_sectors;
      root_dir_bytes = root_bytes;
      data_start_lba = u32 (root_start + root_sectors);
      sectors_per_cluster = bs.sectors_per_cluster;
      bytes_per_sector = bs.bytes_per_sector;
    }

abbrev pub invalid_lba : ℕ
invalid_lba = 2 ^ 32 - 1

unfoldable pub cluster_to_lba : Fat16 → ℕ → ℕ
cluster_to_lba fat cluster =
    if ltb cluster 2
    then invalid_lba
    else u32 (fat.data_start_lba + (cluster - 2) * fat.sectors_per_cluster)

unfoldable pub bytes_to_sectors : Fat16 → ℕ → ℕ
bytes_to_sectors fat bytes =
    let sectors = bytes / fat.bytes_per_sector in
    if bytes % fat.bytes_per_sector != 0 then sectors + 1 else sectors

unfoldable pub sectors_to_clusters : Fat16 → ℕ → ℕ
sectors_to_clusters fat sectors =
    let clusters = u16 (sectors / fat.sectors_per_cluster) in
    if sectors % fat.sectors_per_cluster != 0 then u16 (clusters + 1) else clusters

unfoldable pub round_bytes_to_clusters : Fat16 → ℕ → ℕ
round_bytes_to_clusters fat bytes = u32 (
    sectors_to_clusters fat (bytes_to_sectors fat bytes)
    * fat.bytes_per_sector
    * fat.sectors_per_cluster)
