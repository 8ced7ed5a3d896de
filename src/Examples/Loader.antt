-- ===== src/Examples/Loader.antt =====
-- The theorems on text and on the second boot stage at concrete inputs.
use my_operating_system.Base.{
  ◌∷◌, Bool-cases, ℕ, ◌+◌, ◌≤◌, ◌<◌, ◌≡◌, ◌≢◌, ◌⊎◌, inl, inr, refl, arith, true, false, Option,
  none, some, [], length, ◌==◌, if◌then◌else◌,
}
use my_operating_system.Memory.{Memory}
use my_operating_system.Memory.Blocks.{IsBytes, memset_lem}
use my_operating_system.Heap.{
  Heap, mem_ok, malloc, zalloc, ensure_init, mem_init, malloc_ready, align, find_offset, place,
}
use my_operating_system.Io.{Device, inb, outb}
use my_operating_system.Ata.{
  Ata, no_error, ata_primary, pio28_read, flush_command, ata_wait_not_bsy, poll, reject,
  ata_wait_400ns, ata_ok, set_dev_sel, set_ata_mode_lba, set_command,
}
use my_operating_system.Ata.Address.{read_command}
use my_operating_system.Ata.Sends.{command_at, register}
use my_operating_system.Ata.Stores.{pio28_read_stores}
use my_operating_system.Text.{str_none}
use my_operating_system.Digits.{itoa}
use my_operating_system.Digits.Convert.{IsNumber, char_value, itoa_lem}
use my_operating_system.Format.{snprintf}
use my_operating_system.Format.Bounds.{snprintf_lem}
use my_operating_system.Machine.{Machine}
use my_operating_system.Fat.{BootSector, ok, layout, check_boot_sector, root_dir_sectors_of}
use my_operating_system.Fat.Described.{IsSized, IsLayout, layout-IsLayout}
use my_operating_system.Fat.Dir.{ParsedDir, ParsedDirEntry, find_parsed_dir_entry}
use my_operating_system.Fat.Dir.Find.{nil, cons, Finds, find_parsed_dir_entry_lem}
use my_operating_system.Fat.Open.{boot_sector_at, fat_init}
use my_operating_system.Fat.Open.Init.{IsBootable, IsRefusal, fat_init_lem}
use my_operating_system.Fat.Chain.{Volume, ClusterChain, traverse_chain}
use my_operating_system.Fat.Chain.Follow.{IsChain, traverse_chain_lem}
use my_operating_system.Fat.Names.{LfnBuffer, parse_lfn_buffer, normalize_sfn}
use my_operating_system.Fat.Names.Long.{Holds, long_name, parse_lfn_buffer_lem}
use my_operating_system.Fat.Names.Short.{short_name, normalize_sfn_lem}

abbrev zeroes : Memory
zeroes _ = 0

zeroes-IsBytes : IsBytes zeroes
zeroes-IsBytes a = omega arith

abbrev hex_text : ℕ × Memory
hex_text = itoa 0xBEEF 100 16 true zeroes

itoa_lem_example :
    (0 < hex_text.0)
    × (hex_text.0 ≤ 4)
    × IsNumber char_value 16 0xBEEF 100 hex_text.0 zeroes hex_text.1
itoa_lem_example =
    itoa_lem 0xBEEF 100 16 4 true zeroes (omega arith) (omega arith) (omega arith) (omega arith)
      (omega arith) zeroes-IsBytes

-- "%u" at 10.
abbrev format : Memory
format a = if a == 10 then b'%' else if a == 11 then b'u' else 0

abbrev one_argument : ℕ → ℕ
one_argument i = 40960

snprintf_lem_example :
    (pos : ℕ) × (m' : Memory) × (snprintf 3 100 4 10 one_argument format ≡ some (pos, m'))
    × (pos < 4)
    × (m' (100 + pos) ≡ 0)
    × ((x : ℕ) → (x < 100) ⊎ (100 + 4 ≤ x) → m' x ≡ format x)
snprintf_lem_example =
    snprintf_lem 3 100 4 10 2 one_argument format (omega arith) (omega arith)
      (omega arith, (omega arith, refl)) (omega arith) (omega arith)

abbrev idle : Ata
idle = record { trace = []; last_error = no_error; memory = zeroes }

abbrev ready_drive : Device
ready_drive t port = 0x58

pio28_read_stores_example :
    (pio28_read ready_drive 0x100 ata_primary 2 2048 idle).1.memory 0x500 ≡ 0
pio28_read_stores_example =
    pio28_read_stores ready_drive 0x100 ata_primary 2 2048 idle 0x500 (inr (omega arith))

abbrev machine_with : Memory → Machine
machine_with m = record {
  ata = record { trace = []; last_error = no_error; memory = m };
  heap = record { table = []; heap_top = 0; initialized = false; last_error = mem_ok };
  fat_error = ok;
  str_error = str_none;
  cursor_x = 0;
  cursor_y = 0;
}

zalloc_pointer :
    (size : ℕ) (m : Memory)
    → (malloc size (machine_with m).heap).0 ≡ 0xF000
    → (zalloc size (machine_with m).heap m).0 ≡ 0xF000
unfolding zalloc
zalloc_pointer size m e = rw e refl

-- A table of four entries in which cluster 2 leads to 3, the last.
abbrev volume : Volume
volume = record {
  layout = record {
    fat_start_lba = 1;
    fat_sectors = 1;
    fat_bytes = 8;
    root_dir_start_lba = 2;
    root_dir_sectors = 1;
    root_dir_bytes = 512;
    data_start_lba = 3;
    sectors_per_cluster = 1;
    bytes_per_sector = 512;
  };
  table = λ c. if c == 2 then 3 else 0xFFFF;
  root_dir = 0x9000;
  root_dir_entries = 16;
}

chain_room : (zalloc 8 (machine_with zeroes).heap zeroes).0 ≢ 0
chain_room = omega (
  arith,
  zalloc_pointer 8 zeroes
      (unfold malloc malloc_ready align ensure_init mem_init find_offset place in refl),
)

traverse_chain_lem_example :
    (r : Option ClusterChain) × (s' : Machine) × (traverse_chain 40000 volume 2
        (machine_with zeroes)
      ≡ some (r, s'))
    × ((c : ClusterChain) → r ≡ some c → IsChain volume 2 c)
traverse_chain_lem_example =
    traverse_chain_lem 40000 volume 2 (machine_with zeroes) (omega arith) chain_room

-- One fragment with the name "a".
abbrev fragments : LfnBuffer
fragments = record {
  entries = λ k. record { order = 1; checksum = 0; name = λ i. if i == 0 then b'a' else 0 };
  count = 1;
}

abbrev long_block : ℕ × Heap × Memory
long_block = zalloc 14 (machine_with zeroes).heap zeroes

long_room : long_block.0 ≢ 0
long_room = omega (
  arith,
  zalloc_pointer 14 zeroes
      (unfold malloc malloc_ready align ensure_init mem_init find_offset place in refl),
)

parse_lfn_buffer_lem_example :
    (s' : Machine) × (parse_lfn_buffer fragments (machine_with zeroes) ≡ some (long_block.0, s'))
    × Holds s'.ata.memory long_block.0 (long_name fragments.entries 1)
    × (s'.ata.memory (long_block.0 + length (long_name fragments.entries 1)) ≡ 0)
    × (length (long_name fragments.entries 1) < 14)
    × ((x : ℕ) → (x < long_block.0) ⊎ (long_block.0 + 14 ≤ x) → s'.ata.memory x ≡ long_block.2 x)
parse_lfn_buffer_lem_example =
    parse_lfn_buffer_lem fragments (machine_with zeroes) (omega arith) (λ k i. ground arith)
      long_room

-- "A       B  " at 0x100.
abbrev entry : Memory
entry a = if a == 0x100 then b'A' else if a == 0x108 then b'B' else b' '

abbrev short_block : ℕ × Heap × Memory
short_block = zalloc 13 (machine_with entry).heap entry

short_pointer : short_block.0 ≡ 0xF000
short_pointer =
    zalloc_pointer 13 entry
      (unfold malloc malloc_ready align ensure_init mem_init find_offset place in refl)

entry-IsBytes : IsBytes entry
entry-IsBytes a = ground arith

short_block-IsBytes : IsBytes short_block.2
unfolding zalloc
short_block-IsBytes x = elim (Bool-cases ((malloc 13 (machine_with entry).heap).0 == 0)) [
  | inl e ↦ rw e (entry-IsBytes x)
  | inr e ↦ rw e (
      ground
        (arith, memset_lem (malloc 13 (machine_with entry).heap).0 0 13 entry x, entry-IsBytes x))
]

normalize_sfn_lem_example :
    (s' : Machine) × (normalize_sfn 0x100 (machine_with entry) ≡ some (short_block.0, s'))
    × Holds s'.ata.memory short_block.0 (short_name short_block.2 0x100)
    × (s'.ata.memory (short_block.0 + length (short_name short_block.2 0x100)) ≡ 0)
    × (length (short_name short_block.2 0x100) ≤ 12)
    × ((x : ℕ) → (x < short_block.0) ⊎ (short_block.0 + 13 ≤ x) → s'.ata.memory x ≡ short_block.2 x)
normalize_sfn_lem_example =
    normalize_sfn_lem 0x100 (machine_with entry) (omega (arith, short_pointer)) short_block-IsBytes
      (inl (omega (arith, short_pointer)))

fat_init_lem_example :
    let b = boot_sector_at (pio28_read ready_drive 0x7000 ata_primary 1 0 idle).1.memory 0x7000 in
    (IsBootable b
      × ((v : Volume) × (s' : Machine) × (fat_init ready_drive 0x7000 (machine_with zeroes)
            ≡ some (some v, s'))
          × (IsSized b → IsLayout b v.layout)
          × (v.root_dir_entries ≡ b.root_dir_entries)
          × (s'.fat_error ≡ ok)))
    ⊎ ((¬ IsBootable b)
        × ((s' : Machine) × (fat_init ready_drive 0x7000 (machine_with zeroes) ≡ some (none, s'))
            × IsRefusal s'.fat_error
            × (s'.heap ≡ (machine_with zeroes).heap)
            × ((x : ℕ) → (x < 0x7000) ⊎ (0x7000 + 512 ≤ x) → s'.ata.memory x ≡ 0)))
fat_init_lem_example = fat_init_lem ready_drive 0x7000 (machine_with zeroes)

-- A disk of 16 MB: one reserved sector, two tables of 64 sectors, 512 entries in the root.
abbrev disk : BootSector
disk = record {
  bytes_per_sector = 512;
  sectors_per_cluster = 4;
  reserved_sectors = 1;
  fat_count = 2;
  root_dir_entries = 512;
  sectors_per_fat = 64;
  ebr_signature = 0x29;
  boot_signature = 0xAA55;
}

disk_accepted : check_boot_sector disk ≡ ok
unfolding check_boot_sector
disk_accepted = refl

disk-IsLayout : IsLayout disk (layout disk)
disk-IsLayout = layout-IsLayout disk (record {
  sector = omega arith;
  more = omega arith;
  reserved = omega arith;
  tables = omega arith;
  entries = omega arith;
  table = omega arith;
})

disk_data : (layout disk).data_start_lba ≡ 161
unfolding layout root_dir_sectors_of
disk_data = refl

-- The drive is ready, and gets the command.
command_sent :
    command_at ata_primary
      (flush_command ready_drive ata_primary (read_command 2 2048) idle).1.trace
    ≡ some (record {
      sector_count = 2;
      lba_low = 0;
      lba_mid = 8;
      lba_high = 0;
      dev_sel = 0xE0;
      command = 0x20;
    })
unfolding flush_command ata_wait_not_bsy poll reject ata_wait_400ns ata_ok inb outb command_at
    register set_dev_sel set_ata_mode_lba set_command
command_sent = refl

-- "a" at 0x100 and 0x300, "b" at 0x200.
abbrev names : Memory
names a = if a == 0x100 then b'a' else if a == 0x200 then b'b' else if a == 0x300 then b'a' else 0

abbrev named : ℕ → ParsedDirEntry
named p = record {
  name = p;
  attributes = 0x20;
  first_cluster = 2;
  file_size = 5;
  raw_entry = 0x9000;
}

abbrev directory : ParsedDir
directory = record {
  address = 0xF000;
  entries = 0xF010;
  list = named 0x200 ∷ named 0x300 ∷ [];
  count = 2;
}

find_parsed_dir_entry_lem_example :
    Finds 0x100 directory.list
      (machine_with names)
      (find_parsed_dir_entry 3 directory 0x100 (machine_with names))
find_parsed_dir_entry_lem_example =
    find_parsed_dir_entry_lem 3 directory 0x100 (machine_with names) (omega arith) (
      cons {k = 1} (omega arith) (omega arith, refl) (omega arith)
        (cons {k = 1} (omega arith) (omega arith, refl) (omega arith) nil))
