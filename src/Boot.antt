-- ===== src/Boot.antt =====
-- The second stage's entry: stage2/bootloader_stage2.c. What the program prints goes to its screen
-- driver, Console.
pub mod Console
use my_operating_system.Base.{
  ℕ, ◌+◌, ◌*◌, ◌^◌, Bool, true, false, Option, none, some, List, [], ◌∷◌, ◌==◌, if◌then◌else◌,
}
use my_operating_system.Memory.{memcpy}
use my_operating_system.Io.{Device}
use my_operating_system.Ata.{Action, Drive, ata_primary}
use my_operating_system.Ata.Init.{ata_init, ata_identify, detect_devtype}
use my_operating_system.Fat.Chain.{Volume}
use my_operating_system.Fat.Names.{LfnBuffer}
use my_operating_system.Fat.Open.{boot_sector_at, fat_init, open_path, get_file_size}
use my_operating_system.Machine.{M, pure, ◌>>=◌, ◌>>◌, call_zalloc, with_memory, word_at}
use my_operating_system.Boot.Console.{clear_screen, print_string}

abbrev name_unknown : List ℕ
name_unknown = b'U' ∷ b'N' ∷ b'K' ∷ b'N' ∷ b'O' ∷ b'W' ∷ b'N' ∷ []

-- `devtype_to_string`, where -1 is `none`.
unfoldable pub devtype_to_string : Option ℕ → List ℕ
devtype_to_string none = name_unknown
devtype_to_string (some type) =
    if type == 3
    then b'P' ∷ b'A' ∷ b'T' ∷ b'A' ∷ []
    else if type == 2
    then b'S' ∷ b'A' ∷ b'T' ∷ b'A' ∷ []
    else if type == 5
    then b'P' ∷ b'A' ∷ b'T' ∷ b'A' ∷ b'P' ∷ b'I' ∷ []
    else if type == 4
    then b'S' ∷ b'A' ∷ b'T' ∷ b'A' ∷ b'P' ∷ b'I' ∷ []
    else name_unknown

-- An operation of the driver; `none` is its result -1.
abbrev on_drive : {A : Type 0} → Action A → M (Option A)
on_drive act s = let (o, ata) = act s.ata in some (o, record s { ata = ata })

abbrev loading : List ℕ
loading =
    b'L' ∷ b'o' ∷ b'a' ∷ b'd' ∷ b'i' ∷ b'n' ∷ b'g' ∷ b' ' ∷ b'R' ∷ b'a' ∷ b'w' ∷ b' ' ∷ b'B' ∷ b'i'
    ∷ b'n' ∷ b'a' ∷ b'r' ∷ b'y' ∷ b'.' ∷ b'.' ∷ b'.' ∷ 10 ∷ []

abbrev jumping : List ℕ
jumping =
    b'J' ∷ b'u' ∷ b'm' ∷ b'p' ∷ b'i' ∷ b'n' ∷ b'g' ∷ b' ' ∷ b't' ∷ b'o' ∷ b' ' ∷ b'R' ∷ b'a' ∷ b'w'
    ∷ b' ' ∷ b'B' ∷ b'i' ∷ b'n' ∷ b'a' ∷ b'r' ∷ b'y' ∷ b'.' ∷ b'.' ∷ b'.' ∷ 10 ∷ []

unfoldable pub copy_file : ℕ → ℕ → ℕ → M (Unit {0})
copy_file load_addr file_data file_size s =
    some (tt, with_memory s (memcpy load_addr file_data file_size s.ata.memory))

-- The volume that `fat_init` refused: the zeroes of its block but for the boot sector.
abbrev refused : ℕ → M Volume
refused bs s =
    let m = s.ata.memory in
    some (
      record {
        layout = record {
          fat_start_lba = 0;
          fat_sectors = 0;
          fat_bytes = 0;
          root_dir_start_lba = 0;
          root_dir_sectors = 0;
          root_dir_bytes = 0;
          data_start_lba = 0;
          sectors_per_cluster = 0;
          bytes_per_sector = 0;
        };
        table = λ cluster. word_at m (cluster * 2);
        root_dir = 0;
        root_dir_entries = (boot_sector_at m bs).root_dir_entries;
      },
      s,
    )

module _ (dev : Device) (fuel : ℕ) (buf : LfnBuffer) where
  -- True is the jump to `load_addr`, which does not come back.
  unfoldable pub load_raw_kernel : Volume → ℕ → ℕ → M Bool
  load_raw_kernel fat path load_addr = do
    print_string loading
    file_data ← open_path dev fuel fat buf path
    elim (file_data == 0) [
      | true ↦ pure false
      | false ↦ do
        file_size ← get_file_size dev fuel fat buf path
        copy_file load_addr file_data file_size
        print_string jumping
        pure true
    ]

  -- `fat_init`, whose result is not looked at: a volume that it refused has the zeroes of its block.
  unfoldable pub mount : ℕ → M Volume
  mount bs = do v ← fat_init dev bs; elim v [ none ↦ refused bs | some fat ↦ pure fat ]

  abbrev device_is : List ℕ
  device_is =
      b'm' ∷ b'a' ∷ b's' ∷ b't' ∷ b'e' ∷ b'r' ∷ b' ' ∷ b'd' ∷ b'e' ∷ b'v' ∷ b'i' ∷ b'c' ∷ b'e'
      ∷ b' ' ∷ b'i' ∷ b's' ∷ b' ' ∷ b'o' ∷ b'f' ∷ b' ' ∷ b't' ∷ b'y' ∷ b'p' ∷ b'e' ∷ b':' ∷ b' '
      ∷ []

  abbrev test_print : List ℕ
  test_print = b't' ∷ b'e' ∷ b's' ∷ b't' ∷ b' ' ∷ b'p' ∷ b'r' ∷ b'i' ∷ b'n' ∷ b't' ∷ 10 ∷ 13 ∷ []

  abbrev initialized : List ℕ
  initialized =
      b'f' ∷ b'a' ∷ b't' ∷ b' ' ∷ b'i' ∷ b'n' ∷ b'i' ∷ b't' ∷ b'i' ∷ b'a' ∷ b'l' ∷ b'i' ∷ b'z'
      ∷ b'e' ∷ b'd' ∷ b'!' ∷ 10 ∷ []

  -- `identify_result` and `path` are the addresses of the union and of "/OS/KERNEL". `sizeof(Fat16)` is
  -- 552. False is the endless loop.
  unfoldable pub c_main : ℕ → ℕ → M Bool
  c_main identify_result path = do
    clear_screen
    type0 ← on_drive (detect_devtype dev 0 ata_primary)
    print_string device_is
    print_string (devtype_to_string type0)
    print_string (10 ∷ 13 ∷ [])
    ready ← on_drive (ata_init dev)
    identified ← on_drive (ata_identify dev ata_primary identify_result)
    clear_screen
    print_string test_print
    bs ← call_zalloc 552
    fat ← mount bs
    print_string initialized
    jumped ← load_raw_kernel fat path 0x100000
    elim jumped [ true ↦ pure true | false ↦ do print_string (10 ∷ 10 ∷ []); pure false ]
