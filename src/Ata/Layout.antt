-- ===== src/Ata/Layout.antt =====
-- The names that `ata_identify_t` of stage2/ATA_DRIVER/ATA.h gives to the words of the drive's
-- identification. A field is an array of 16-bit words, and the type is packed.
use mathlib.Core.Option.{none-ne-some}
use my_operating_system.Base.{
  ℕ, zero, suc, ◌+◌, ◌*◌, ◌≤◌, ◌<◌, ◌≡◌, refl, sym, ap, ◌∙◌, arith, Bool, true, List, [], ◌∷◌, some,
  leb, ltb, ◌==◌, ◌&&◌, ◌||◌, get_or, inl, inr,
}
use native.Mathlib.Decide.{ℕ_discrete}
use my_operating_system.Io.{Device}
use my_operating_system.Ata.{Ata, Drive, reg_data}
use my_operating_system.Ata.Init.{ata_identify}
use my_operating_system.Ata.Words.{word_at, answer}
use my_operating_system.Ata.Identify.{ReadyToSend, ata_identify_lem}

pub data IdentifyField : Type 0 where
  general_config obsolete1 specific_config obsolete2 retired1 obsolete3 : IdentifyField
  reserved_cfa1 serial_number retired2 obsolete4 firmware_revision : IdentifyField
  model_number max_sectors_per_interrupt reserved1 capabilities1 : IdentifyField
  capabilities2 obsolete5 field_validity obsolete6 multi_sector_settings : IdentifyField
  lba28_sector_count obsolete7 dma_modes pio_modes : IdentifyField
  min_multiword_dma_cycle rec_multiword_dma_cycle min_pio_cycle_no_flow : IdentifyField
  min_pio_cycle_with_flow reserved2 reserved3 queue_depth : IdentifyField
  sata_capabilities sata_additional_capabilities sata_features_supported : IdentifyField
  sata_features_enabled major_version minor_version command_set_support : IdentifyField
  command_set_enabled ultra_dma_modes security_erase_time : IdentifyField
  enhanced_security_erase_time current_apm_value : IdentifyField
  master_password_revision hardware_reset_result acoustic_management : IdentifyField
  reserved4 lba48_sector_count reserved5 security_status : IdentifyField
  vendor_specific1 cfa_power_mode reserved6 device_nominal_form_factor : IdentifyField
  reserved7 current_media_serial sct_command_transport reserved8 : IdentifyField
  alignment_of_logical_blocks write_read_verify_sector_count : IdentifyField
  write_read_verify_sector_count_ext nv_cache_capabilities nv_cache_size : IdentifyField
  nominal_media_rotation_rate reserved9 nv_cache_options : IdentifyField
  write_read_verify_modes reserved10 transport_major_version : IdentifyField
  transport_minor_version reserved11 : IdentifyField
  extended_num_user_addressable_sectors : IdentifyField
  min_blocks_per_download_microcode max_blocks_per_download_microcode : IdentifyField
  reserved12 integrity_word : IdentifyField

-- The length of the array of a field.
unfoldable pub field_words : IdentifyField → ℕ
field_words retired1 = 2
field_words reserved_cfa1 = 2
field_words serial_number = 10
field_words retired2 = 2
field_words firmware_revision = 4
field_words model_number = 20
field_words obsolete5 = 2
field_words obsolete6 = 5
field_words lba28_sector_count = 2
field_words reserved2 = 2
field_words reserved3 = 4
field_words command_set_support = 3
field_words command_set_enabled = 3
field_words reserved4 = 5
field_words lba48_sector_count = 4
field_words reserved5 = 24
field_words vendor_specific1 = 31
field_words reserved6 = 7
field_words reserved7 = 7
field_words current_media_serial = 30
field_words reserved8 = 2
field_words write_read_verify_sector_count = 2
field_words write_read_verify_sector_count_ext = 2
field_words nv_cache_size = 2
field_words reserved11 = 6
field_words extended_num_user_addressable_sectors = 4
field_words reserved12 = 19
field_words _ = 1

-- The fields in the order of the type.
unfoldable pub identify_fields : List IdentifyField
identify_fields =
    general_config ∷ obsolete1 ∷ specific_config ∷ obsolete2 ∷ retired1 ∷ obsolete3 ∷ reserved_cfa1
    ∷ serial_number ∷ retired2 ∷ obsolete4 ∷ firmware_revision ∷ model_number
    ∷ max_sectors_per_interrupt ∷ reserved1 ∷ capabilities1 ∷ capabilities2 ∷ obsolete5
    ∷ field_validity ∷ obsolete6 ∷ multi_sector_settings ∷ lba28_sector_count ∷ obsolete7
    ∷ dma_modes ∷ pio_modes ∷ min_multiword_dma_cycle ∷ rec_multiword_dma_cycle
    ∷ min_pio_cycle_no_flow ∷ min_pio_cycle_with_flow ∷ reserved2 ∷ reserved3 ∷ queue_depth
    ∷ sata_capabilities ∷ sata_additional_capabilities ∷ sata_features_supported
    ∷ sata_features_enabled ∷ major_version ∷ minor_version ∷ command_set_support
    ∷ command_set_enabled ∷ ultra_dma_modes ∷ security_erase_time ∷ enhanced_security_erase_time
    ∷ current_apm_value ∷ master_password_revision ∷ hardware_reset_result ∷ acoustic_management
    ∷ reserved4 ∷ lba48_sector_count ∷ reserved5 ∷ security_status ∷ vendor_specific1
    ∷ cfa_power_mode ∷ reserved6 ∷ device_nominal_form_factor ∷ reserved7 ∷ current_media_serial
    ∷ sct_command_transport ∷ reserved8 ∷ alignment_of_logical_blocks
    ∷ write_read_verify_sector_count ∷ write_read_verify_sector_count_ext ∷ nv_cache_capabilities
    ∷ nv_cache_size ∷ nominal_media_rotation_rate ∷ reserved9 ∷ nv_cache_options
    ∷ write_read_verify_modes ∷ reserved10 ∷ transport_major_version ∷ transport_minor_version
    ∷ reserved11 ∷ extended_num_user_addressable_sectors ∷ min_blocks_per_download_microcode
    ∷ max_blocks_per_download_microcode ∷ reserved12 ∷ integrity_word ∷ []

-- The first word of each field by the comments of the type, each of which counts the words of the
-- fields below it.
abbrev pub documented_starts : List ℕ
documented_starts =
    0 ∷ 1 ∷ 2 ∷ 3 ∷ 4 ∷ 6 ∷ 7 ∷ 10 ∷ 20 ∷ 22 ∷ 23 ∷ 27 ∷ 47 ∷ 48 ∷ 49 ∷ 50 ∷ 51 ∷ 53 ∷ 54 ∷ 59 ∷ 60
    ∷ 62 ∷ 63 ∷ 64 ∷ 65 ∷ 66 ∷ 67 ∷ 68 ∷ 69 ∷ 71 ∷ 75 ∷ 76 ∷ 77 ∷ 78 ∷ 79 ∷ 80 ∷ 81 ∷ 82 ∷ 85 ∷ 88
    ∷ 89 ∷ 90 ∷ 91 ∷ 92 ∷ 93 ∷ 94 ∷ 95 ∷ 100 ∷ 104 ∷ 128 ∷ 129 ∷ 160 ∷ 161 ∷ 168 ∷ 169 ∷ 176 ∷ 206
    ∷ 207 ∷ 209 ∷ 210 ∷ 212 ∷ 214 ∷ 215 ∷ 217 ∷ 218 ∷ 219 ∷ 220 ∷ 221 ∷ 222 ∷ 223 ∷ 224 ∷ 230 ∷ 234
    ∷ 235 ∷ 236 ∷ 255 ∷ []

-- The word at which the compiler places the `i`-th field.
unfoldable pub field_start : List IdentifyField → ℕ → ℕ
field_start [] i = 0
field_start (f ∷ fs) zero = 0
field_start (f ∷ fs) (suc i) = field_words f + field_start fs i

-- A test that holds for each of the first `n` numbers.
abbrev all_below : ℕ → (ℕ → Bool) → Bool
all_below zero p = true
all_below (suc n) p = p n && all_below n p

all_below-at : (n : ℕ) (p : ℕ → Bool) → all_below n p ≡ true → (i : ℕ) → i < n → p i ≡ true
all_below-at zero p e i lt = absurd (omega arith)
all_below-at (suc n) p e i lt = elim (ℕ_discrete i n) [
  | yes same ↦ ap p same ∙ ground (arith, e)
  | no ne ↦ all_below-at n p (ground (arith, e)) i (omega arith)
]

-- Behind the seventh field every place is one word before the documented one.
abbrev one_early : ℕ → Bool
one_early i =
    ltb i 7
    || (field_start identify_fields i + 1 == get_or documented_starts i 0)
      && leb (field_start identify_fields i + field_words (get_or identify_fields i general_config))
          255

checked : all_below 76 one_early ≡ true
unfolding identify_fields field_words field_start
checked = refl

-- Where `ata_identify` succeeds, the `j`-th word of a field behind the first seven is an answer of
-- the drive, which was ready to send, but the answer before the one that the comment of the type
-- names for it: the drive's word `documented_starts + j - 1`, counted from 0.
pub identify_field_lem :
    (dev : Device) (drv : Drive) (raw : ℕ) (s : Ata) (i j : ℕ)
    → (ata_identify dev drv raw s).0 ≡ some tt
    → 7 ≤ i
    → i < 76
    → j < field_words (get_or identify_fields i general_config)
    → (u : Ata) × (k : ℕ) × ReadyToSend dev drv.base s.memory u
      × (k + 1 ≡ get_or documented_starts i 0 + j)
      × (word_at
            (ata_identify dev drv raw s).1.memory
            (raw + (field_start identify_fields i + j) * 2)
          ≡ answer dev (drv.base + reg_data) u.trace k)
identify_field_lem dev drv raw s i j done lo hi short =
    let early = all_below-at 76 one_early checked i hi in
    elim (ata_identify_lem dev drv raw s) [
      | inl (_, _, (u, ready, read)) ↦ (
        u,
        field_start identify_fields i + j,
        ready,
        ground (arith, early),
        read.words (field_start identify_fields i + j) (ground (arith, early)),
      )
      | inr (e, _, _) ↦ absurd (none-ne-some tt (sym e ∙ done))
    ]
