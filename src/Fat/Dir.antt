-- ===== src/Fat/Dir.antt =====
-- Directories: stage2/FAT16/parse_dir.c. A directory on the disk is its address; its entries have 32
-- bytes. The array of a parsed directory is kept as a list beside the memory. `fuel` bounds the
-- rounds of the cluster chains and the steps of `strcmp`.
pub mod Find
use my_operating_system.Base.{
  ℕ, zero, suc, ◌+◌, ◌*◌, Bool, true, false, Option, none, some, List, [], ◌∷◌, ◌++◌, ltb, ◌==◌,
  ◌!=◌, u32, bit_and,
}
use my_operating_system.Base.Signed.{ℤ, pos, negsuc}
use my_operating_system.Text.{strcmp}
use my_operating_system.Fat.{memory_allocation_fail, entry_not_found}
use my_operating_system.Fat.Chain.{Volume, ClusterChain, traverse_chain}
use my_operating_system.Fat.Names.{
  LfnBuffer, lfn_buffer_clear, parse_lfn_entry, parse_lfn_buffer, normalize_sfn,
}
use my_operating_system.Machine.{
  M, pure, ◌>>=◌, ◌>>◌, call_zalloc, call_realloc, call_free, load, load_word, load_long, fat16_ok,
  fat16_fail,
}

-- `parsed_dir_entry`, 16 bytes.
pub record ParsedDirEntry : Type 0 where
  pub name : ℕ
  pub attributes : ℕ
  pub first_cluster : ℕ
  pub file_size : ℕ
  pub raw_entry : ℕ

-- `parsed_dir` at its address; `list` is what stands at the pointer `entries`.
pub record ParsedDir : Type 0 where
  pub address : ℕ
  pub entries : ℕ
  pub list : List ParsedDirEntry
  pub count : ℕ

abbrev pub is_directory : ℕ → Bool
is_directory attributes = bit_and attributes 0x10 != 0

-- Lines 50 to 53. A NULL chain is followed.
unfoldable pub chain_size : Volume → Option ClusterChain → M ℕ
chain_size fat none = λ s. none
chain_size fat (some chain) = do
  call_free chain.chain
  call_free chain.address
  pure (u32 (chain.cluster_count * fat.layout.bytes_per_sector * fat.layout.sectors_per_cluster))

module _ (fuel : ℕ) (fat : Volume) where
  -- Lines 48 to 59.
  unfoldable pub entry_size : ℕ → ℕ → M ℕ
  entry_size dir attributes = elim (is_directory attributes) [
    | true ↦ do
      start ← load_word (dir + 26)
      chain ← traverse_chain fuel fat start
      chain_size fat chain
    | false ↦ load_long (dir + 28)
  ]

  -- Lines 62 to 70.
  unfoldable pub entry_name : ℕ → LfnBuffer → M ℕ
  entry_name dir lfn_buf = elim (ltb 0 lfn_buf.count) [
    | true ↦ parse_lfn_buffer lfn_buf
    | false ↦ normalize_sfn dir
  ]

  -- Lines 43 to 85: the entry at `dir` appended, or NULL.
  unfoldable pub append_entry : ℕ → ℕ → LfnBuffer → ParsedDir → M (Option (LfnBuffer × ParsedDir))
  append_entry dir attributes lfn_buf pd = do
    start ← load_word (dir + 26)
    size ← entry_size dir attributes
    name ← entry_name dir lfn_buf
    cleared ← lfn_buffer_clear lfn_buf
    p ← call_realloc pd.entries ((pd.count + 1) * 16)
    let e : ParsedDirEntry = record {
      name = name;
      attributes = attributes;
      first_cluster = start;
      file_size = size;
      raw_entry = dir;
    }
    elim (p == 0) [
      | true ↦ do call_free name; fat16_fail memory_allocation_fail; pure none
      | false ↦ pure (
          some
            (cleared, record pd { entries = p; list = pd.list ++ (e ∷ []); count = pd.count + 1 }))
    ]

  -- The loop, at the entry `dir` with `n` left.
  unfoldable pub parse_entries : ℕ → ℕ → LfnBuffer → ParsedDir → M (Option ParsedDir)
  parse_entries zero dir lfn_buf pd = do fat16_ok; pure (some pd)
  parse_entries (suc n) dir lfn_buf pd = do
    first ← load dir
    elim (first == 0x00) [
      | true ↦ do fat16_ok; pure (some pd)
      | false ↦ elim (first == 0xE5) [
        | true ↦ do cleared ← lfn_buffer_clear lfn_buf; parse_entries n (dir + 32) cleared pd
        | false ↦ do
          attributes ← load (dir + 11)
          elim (attributes == 0x0F) [
            | true ↦ do r ← parse_lfn_entry dir lfn_buf; parse_entries n (dir + 32) r.1 pd
            | false ↦ do
              r ← append_entry dir attributes lfn_buf pd
              elim r [
                | none ↦ pure none
                | some (cleared, pd') ↦ parse_entries n (dir + 32) cleared pd'
              ]
          ]
      ]
    ]

  -- The buffer `lfn_buf` is not initialised by the source: `buf` is what it holds. `sizeof(parsed_dir)`
  -- is 8.
  unfoldable pub parse_dir : LfnBuffer → ℕ → ℕ → M (Option ParsedDir)
  parse_dir buf dir max_entries = do
    p ← call_zalloc 8
    elim (p == 0) [
      | true ↦ do fat16_fail memory_allocation_fail; pure none
      | false ↦ do
        cleared ← lfn_buffer_clear buf
        parse_entries max_entries dir cleared
            (record { address = p; entries = 0; list = []; count = 0 })
    ]

-- The names of a list of parsed entries.
unfoldable pub free_names : List ParsedDirEntry → M (Unit {0})
free_names [] = pure tt
free_names (e ∷ es) = do call_free e.name; free_names es

unfoldable pub free_parsed_dir : Option ParsedDir → M (Unit {0})
free_parsed_dir none = pure tt
free_parsed_dir (some pd) = do
  free_names pd.list
  call_free pd.entries
  call_free pd.address
  fat16_ok

abbrev call_strcmp : ℕ → ℕ → ℕ → M ℤ
call_strcmp fuel a b s =
    let (e, o) = strcmp fuel s.ata.memory a b in
    elim o [ none ↦ none | some d ↦ some (d, record s { str_error = e }) ]

abbrev is_zero : ℤ → Bool
is_zero (pos n) = n == 0
is_zero (negsuc n) = false

-- The loop of `find_parsed_dir_entry`.
unfoldable pub find_in : ℕ → List ParsedDirEntry → ℕ → M (Option ParsedDirEntry)
find_in fuel [] name = do fat16_fail entry_not_found; pure none
find_in fuel (e ∷ es) name = do
  d ← call_strcmp fuel e.name name
  elim (is_zero d) [ true ↦ do fat16_ok; pure (some e) | false ↦ find_in fuel es name ]

unfoldable pub find_parsed_dir_entry : ℕ → ParsedDir → ℕ → M (Option ParsedDirEntry)
find_parsed_dir_entry fuel dir name = find_in fuel dir.list name
