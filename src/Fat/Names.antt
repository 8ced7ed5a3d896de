-- ===== src/Fat/Names.antt =====
-- The names of directory entries: stage2/FAT16/lfn.c. An entry on the disk is its address; the
-- buffer of long-name fragments, a local variable of the caller, is a value.
pub mod Long
pub mod Short
use my_operating_system.Base.{
  ℕ, zero, suc, ◌+◌, ◌-◌, ◌*◌, ◌^◌, Bool, true, false, leb, ltb, ◌==◌, if◌then◌else◌, u8, bit_and,
}
use my_operating_system.Memory.{Memory, write}
use my_operating_system.Text.{utf16_to_ascii}
use my_operating_system.Fat.{lfn_buffer_full, lfn_buffer_empty, memory_allocation_fail}
use my_operating_system.Machine.{
  M, Machine, pure, ◌>>=◌, ◌>>◌, call_zalloc, word_at, with_memory, change_memory, load, store,
  fat16_ok, fat16_fail,
}

-- `parsed_LFN_entry`; its attributes are never set. The name is an array of 14 bytes.
pub record ParsedLfnEntry : Type 0 where
  pub name : ℕ → ℕ
  pub checksum : ℕ
  pub order : ℕ

-- `LFN_buffer`
pub record LfnBuffer : Type 0 where
  pub entries : ℕ → ParsedLfnEntry
  pub count : ℕ

-- Clearing leaves the old entries in place.
unfoldable pub lfn_buffer_clear : LfnBuffer → M LfnBuffer
unfolding fat16_ok
lfn_buffer_clear buf = do fat16_ok; pure (record buf { count = 0 })

-- The 13 code units of the entry at `lfn`: five at offset 1, six at 14 and two at 28.
unfoldable pub units_of : Memory → ℕ → ℕ → ℕ
units_of m lfn i =
    if ltb i 5
    then word_at m (lfn + 1 + i * 2)
    else if ltb i 11
    then word_at m (lfn + 14 + (i - 5) * 2)
    else word_at m (lfn + 28 + (i - 11) * 2)

unfoldable pub fragment_at : Memory → ℕ → ParsedLfnEntry
unfolding units_of utf16_to_ascii
fragment_at m lfn = record {
  name = (utf16_to_ascii (units_of m lfn) 13 0 (λ a. 0)).1;
  checksum = m (lfn + 13);
  order = bit_and (m lfn) 0x1F;
}

unfoldable pub parse_lfn_entry : ℕ → LfnBuffer → M (Bool × LfnBuffer)
unfolding fat16_ok fat16_fail
parse_lfn_entry lfn buf s =
    if leb 20 buf.count
    then (do fat16_fail lfn_buffer_full; pure (false, buf)) s
    else (do
      fat16_ok
      pure (
        true,
        record buf {
          entries = λ i. if i == buf.count then fragment_at s.ata.memory lfn else buf.entries i;
          count = u8 (buf.count + 1);
        },
      ))
        s

-- `for (j…; j < 13 && name[j]; …) out[pos++] = name[j]`, with `n` characters left; the pointer
-- behind the last character is returned.
unfoldable pub copy_fragment : (ℕ → ℕ) → ℕ → ℕ → ℕ → Memory → ℕ × Memory
copy_fragment name j zero out m = (out, m)
copy_fragment name j (suc n) out m =
    let rest = copy_fragment name (j + 1) n (out + 1) (write m out (name j)) in
    if name j == 0 then (out, m) else rest

-- The loop over the fragments, the last first, with `n` left.
unfoldable pub copy_fragments : (ℕ → ParsedLfnEntry) → ℕ → ℕ → Memory → ℕ × Memory
copy_fragments entries zero out m = (out, m)
copy_fragments entries (suc n) out m =
    let (p, m') = copy_fragment (entries n).name 0 13 out m in copy_fragments entries n p m'

-- The terminating zero.
abbrev pub terminate : ℕ × Memory → ℕ × Memory
terminate (p, m) = (p, write m p 0)

-- What both functions do with the block for the name: lines 50 to 66 and 73 to 103.
unfoldable pub fill_name : (ℕ → Memory → ℕ × Memory) → ℕ → M ℕ
fill_name f name = elim (name == 0) [
  | true ↦ do fat16_fail memory_allocation_fail; pure 0
  | false ↦ do p ← change_memory (f name); fat16_ok; pure name
]

unfoldable pub write_fragments : LfnBuffer → ℕ → Memory → ℕ × Memory
write_fragments buf name m = terminate (copy_fragments buf.entries buf.count name m)

unfoldable pub parse_lfn_buffer : LfnBuffer → M ℕ
unfolding fat16_fail
parse_lfn_buffer buf s =
    if buf.count == 0
    then (do fat16_fail lfn_buffer_empty; pure 0) s
    else (do name ← call_zalloc (buf.count * 13 + 1); fill_name (write_fragments buf) name) s

-- `for (…) { if (sfn[i] == ' ') break; out[pos++] = sfn[i]; }`, with `n` characters left.
unfoldable pub copy_word : ℕ → ℕ → ℕ → Memory → ℕ × Memory
copy_word sfn zero out m = (out, m)
copy_word sfn (suc n) out m =
    let rest = copy_word (sfn + 1) n (out + 1) (write m out (m sfn)) in
    if m sfn == b' ' then (out, m) else rest

-- Lines 89 to 99.
unfoldable pub copy_extension : ℕ → ℕ × Memory → ℕ × Memory
copy_extension sfn (p, m) =
    if m (sfn + 8) == b' ' then (p, m) else copy_word (sfn + 8) 3 (p + 1) (write m p b'.')

-- What `normalize_SFN` writes to the 13 bytes at `out`.
unfoldable pub write_sfn : ℕ → ℕ → Memory → ℕ × Memory
write_sfn sfn out m = terminate (copy_extension sfn (copy_word sfn 8 out m))

unfoldable pub normalize_sfn : ℕ → M ℕ
normalize_sfn sfn = do out ← call_zalloc 13; fill_name (write_sfn sfn) out
