-- ===== src/Fat/Open.antt =====
-- Files by their paths: stage2/FAT16/open.c and get_file_size.c, and the start of a volume, fat16.c.
pub mod Init
use my_operating_system.Base.{
  ℕ, zero, suc, ◌+◌, ◌*◌, ◌/◌, ◌^◌, ◌-◌, Bool, true, false, Option, none, some, List, [], ◌∷◌, ◌==◌,
}
use my_operating_system.Memory.{Memory}
use my_operating_system.Io.{Device}
use my_operating_system.Text.Split.{strsplit, Split, free_tokens, place_of}
use my_operating_system.Fat.{
  BootSector, Fat16, FatError, ok, layout, check_boot_sector, round_bytes_to_clusters,
  entry_load_fail, invalid_argument,
}
use my_operating_system.Fat.Chain.{Volume, load_clustered_entry}
use my_operating_system.Fat.Names.{LfnBuffer}
use my_operating_system.Fat.Dir.{
  ParsedDir, ParsedDirEntry, is_directory, parse_dir, find_parsed_dir_entry, free_parsed_dir,
}
use my_operating_system.Machine.{
  M, pure, ◌>>=◌, ◌>>◌, call_zalloc, call_free, fat16_ok, fat16_fail, call_pio28_read, word_at,
  load_long,
}

-- The boot sector at the address `bs`, as `boot_sector` lays it out.
unfoldable pub boot_sector_at : Memory → ℕ → BootSector
boot_sector_at m bs = record {
  bytes_per_sector = word_at m (bs + 11);
  sectors_per_cluster = m (bs + 13);
  reserved_sectors = word_at m (bs + 14);
  fat_count = m (bs + 16);
  root_dir_entries = word_at m (bs + 17);
  sectors_per_fat = word_at m (bs + 22);
  ebr_signature = m (bs + 38);
  boot_signature = word_at m (bs + 510);
}

module _ (dev : Device) where
  -- The result is true on an error, and there is none: what the drive reports is not looked at.
  unfoldable pub read_boot_sector : ℕ → M Bool
  read_boot_sector bs = do call_pio28_read dev bs 1 0; pure false

  -- The address of the table, and the table.
  unfoldable pub load_fat : Fat16 → M (ℕ × (ℕ → ℕ))
  load_fat fat = do
    p ← call_zalloc (fat.fat_sectors * fat.bytes_per_sector)
    call_pio28_read dev p fat.fat_sectors fat.fat_start_lba
    λ s. let m = s.ata.memory in some ((p, λ cluster. word_at m (p + cluster * 2)), s)

  unfoldable pub load_root_directory : Fat16 → M ℕ
  load_root_directory fat = do
    p ← call_zalloc (fat.root_dir_sectors * fat.bytes_per_sector)
    call_pio28_read dev p fat.root_dir_sectors fat.root_dir_start_lba
    pure p

  -- Lines 43 to 55. The tests of `load_fat` and `load_root_directory` never hold.
  unfoldable pub load_tables : BootSector → M (Option Volume)
  load_tables bs = do
    t ← load_fat (layout bs)
    root ← load_root_directory (layout bs)
    fat16_ok
    let v : Volume = record {
      layout = layout bs;
      table = t.1;
      root_dir = root;
      root_dir_entries = bs.root_dir_entries;
    }
    pure (some v)

  -- Lines 12 to 24, and what follows.
  unfoldable pub checked : FatError → BootSector → M (Option Volume)
  checked ok bs = load_tables bs
  checked e bs = do fat16_fail e; pure none

  -- `bs` is the address of the boot sector in `Fat16`. The test of `read_boot_sector` never holds.
  unfoldable pub fat_init : ℕ → M (Option Volume)
  fat_init bs = do
    failed ← read_boot_sector bs
    λ s. let b = boot_sector_at s.ata.memory bs in checked (check_boot_sector b) b s

  -- The variables of `open`.
  pub record Opened : Type 0 where
    pub current_dir : ℕ
    pub dir_owned : Bool
    pub parsed : Option ParsedDir

  module _ (fuel : ℕ) (fat : Volume) (buf : LfnBuffer) where
    abbrev pub dir_entries : ParsedDirEntry → ℕ
    dir_entries e = round_bytes_to_clusters fat.layout e.file_size / 32

    abbrev pub address_of : Option ParsedDir → ℕ
    address_of none = 0
    address_of (some pd) = pd.address

    -- `__reload_open`: the result is true on an error.
    unfoldable pub reload_open : Opened → ParsedDirEntry → M (Bool × Opened)
    reload_open o e = do
      elim o.dir_owned [ true ↦ call_free o.current_dir | false ↦ pure tt ]
      dir ← load_clustered_entry dev fuel fat e.raw_entry
      elim (dir == 0) [
        | true ↦ pure (true, record o { current_dir = dir; dir_owned = true })
        | false ↦ do
          call_free (address_of o.parsed)
          pd ← parse_dir fuel fat buf dir (dir_entries e)
          pure (address_of pd == 0, record { current_dir = dir; dir_owned = true; parsed = pd })
      ]

    -- Lines 26 to 32.
    unfoldable pub load_file : ParsedDirEntry → M ℕ
    load_file e = do
      file ← load_clustered_entry dev fuel fat e.raw_entry
      elim (file == 0) [ true ↦ do fat16_fail entry_load_fail; pure file | false ↦ pure file ]

    abbrev parsed_or_null : Option ParsedDir → M ParsedDir
    parsed_or_null none = λ s. none
    parsed_or_null (some pd) = pure pd

    -- The loop over the segments of the path, with `n` of them left at `i`; the `fat16_fail` behind a
    -- `break` is never reached.
    unfoldable pub walk : ℕ → ℕ → ℕ → Opened → M (ℕ × Opened)
    walk name_segments i zero o = pure (0, o)
    walk name_segments i (suc n) o = do
      segment ← load_long (place_of name_segments i)
      pd ← parsed_or_null o.parsed
      found ← find_parsed_dir_entry fuel pd segment
      elim found [
        | none ↦ pure (0, o)
        | some e ↦ elim (is_directory e.attributes) [
          | false ↦ elim (n == 0) [
            | true ↦ do file ← load_file e; pure (file, o)
            | false ↦ pure (0, o)
          ]
          | true ↦ do
            r ← reload_open o e
            elim r.0 [ true ↦ pure (0, r.1) | false ↦ walk name_segments (i + 1) n r.1 ]
        ]
      ]

    -- Lines 42 to 52.
    unfoldable pub close : Split → ℕ × Opened → M ℕ
    close segments (file, o) = do
      elim o.dir_owned [ true ↦ call_free o.current_dir | false ↦ pure tt ]
      call_free (address_of o.parsed)
      free_tokens segments.dest 0 segments.count
      call_free segments.dest
      elim (file == 0) [ true ↦ pure file | false ↦ do fat16_ok; pure file ]

    unfoldable pub open_path : ℕ → M ℕ
    open_path name = do
      segments ← strsplit fuel name b'/'
      pd ← parse_dir fuel fat buf fat.root_dir fat.root_dir_entries
      let o : Opened = record { current_dir = fat.root_dir; dir_owned = false; parsed = pd }
      elim pd [
        | none ↦ close segments (0, o)
        | some p ↦ do r ← walk segments.dest 0 segments.count o; close segments r
      ]

    abbrev pub uint32_max : ℕ
    uint32_max = 2 ^ 32 - 1

    -- The loop of `get_file_size`: the last entry found and the last directory, or `none` for the
    -- return of UINT32_MAX.
    unfoldable pub descend : ℕ → ℕ → ℕ → ParsedDir → M (Option (ParsedDirEntry × ParsedDir))
    descend segments i zero pd = pure none
    descend segments i (suc n) pd = do
      segment ← load_long (place_of segments i)
      found ← find_parsed_dir_entry fuel pd segment
      elim found [
        | none ↦ do free_parsed_dir (some pd); pure none
        | some e ↦ elim (n == 0) [
          | true ↦ pure (some (e, pd))
          | false ↦ do
            dir ← load_clustered_entry dev fuel fat e.raw_entry
            next ← parse_dir fuel fat buf dir (dir_entries e)
            free_parsed_dir (some pd)
            elim next [ none ↦ pure none | some pd' ↦ descend segments (i + 1) n pd' ]
        ]
      ]

    -- Lines 58 to 67.
    unfoldable pub size_found : ℕ → Split → Option (ParsedDirEntry × ParsedDir) → M ℕ
    size_found file segments none = pure uint32_max
    size_found file segments (some (e, pd)) = do
      free_parsed_dir (some pd)
      free_tokens segments.dest 0 segments.count
      call_free segments.dest
      call_free file
      fat16_ok
      pure e.file_size

    -- Lines 26 to 67, with the file at hand. A path with no segment has no file.
    unfoldable pub size_of : ℕ → ℕ → M ℕ
    size_of name file = do
      segments ← strsplit fuel name b'/'
      elim (segments.count == 0) [
        | true ↦ pure uint32_max
        | false ↦ do
          pd ← parse_dir fuel fat buf fat.root_dir fat.root_dir_entries
          elim pd [
            | none ↦ pure uint32_max
            | some p ↦ do r ← descend segments.dest 0 segments.count p; size_found file segments r
          ]
      ]

    -- `fat` is not NULL.
    unfoldable pub get_file_size : ℕ → M ℕ
    get_file_size name = elim (name == 0) [
      | true ↦ do fat16_fail invalid_argument; pure uint32_max
      | false ↦ do
        file ← open_path name
        elim (file == 0) [ true ↦ pure uint32_max | false ↦ size_of name file ]
    ]
