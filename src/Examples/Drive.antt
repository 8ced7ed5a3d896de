-- ===== src/Examples/Drive.antt =====
-- The theorems on the drive's identification and reset at concrete inputs.
use my_operating_system.Base.{
  ℕ, ◌≤◌, ◌+◌, ◌≡◌, ◌≢◌, ◌⊎◌, none, some, [], length, bit_and, refl, arith, if◌then◌else◌, ◌==◌,
  ◌||◌, ◌*◌,
}
use my_operating_system.Memory.{Memory}
use my_operating_system.Io.{Device, inb}
use my_operating_system.Ata.{
  Ata, ata_primary, reject, ata_wait_400ns, ata_wait_not_bsy, poll, ata_ok, ata_wait_drq, no_error,
  invalid_argument, bus_float, bsy_timeout,
}
use my_operating_system.Ata.Init.{
  ata_identify, ata_soft_reset, detect_devtype, or_error, read_identify, set_ata_last_error,
}
use my_operating_system.Ata.Wait.{LastRead}
use my_operating_system.Ata.Runs.{Kept, IsIdentifyError}
use my_operating_system.Ata.Identify.{Identified, ReadyToSend, ata_identify_lem}
use my_operating_system.Ata.Words.{word_at, answer}
use my_operating_system.Ata.Layout.{identify_fields, field_start, field_words, identify_field_lem}
use my_operating_system.Ata.Detect.{IsResetError, IsReset, Signed, detect_devtype_lem}
use my_operating_system.Ata.Reset.{ata_soft_reset_lem}

abbrev zeroes : Memory
zeroes _ = 0

abbrev idle : Ata
idle = record { trace = []; last_error = no_error; memory = zeroes }

abbrev ready_drive : Device
ready_drive t port = 0x58

ata_identify_lem_example :
    let (o, t) = ata_identify ready_drive ata_primary 0x100 idle in
    ((o ≡ some tt) × (t.last_error ≡ no_error) × Identified ready_drive ata_primary 0x100 zeroes t)
    ⊎ ((o ≡ none) × Kept zeroes t × IsIdentifyError t.last_error)
ata_identify_lem_example = ata_identify_lem ready_drive ata_primary 0x100 idle

ata_soft_reset_lem_example :
    let (o, s') = ata_soft_reset ready_drive 0x3F6 idle in
    ((◌≡◌ {A = ℕ} 0x3F6 0) × (o ≡ none) × (s'.last_error ≡ invalid_argument) × (s'.trace ≡ []))
    ⊎ ((◌≢◌ {A = ℕ} 0x3F6 0)
        × (o ≡ some tt)
        × (s'.last_error ≡ no_error)
        × LastRead ready_drive 0x3F6 (λ v. (v ≢ 0xFF) × (bit_and v 0xC0 ≡ 0x40)) s')
    ⊎ ((◌≢◌ {A = ℕ} 0x3F6 0)
        × (o ≡ none)
        × (s'.last_error ≡ bus_float)
        × LastRead ready_drive 0x3F6 (λ v. v ≡ 0xFF) s')
    ⊎ ((◌≢◌ {A = ℕ} 0x3F6 0)
        × (o ≡ none)
        × (s'.last_error ≡ bsy_timeout)
        × (length s'.trace ≡ 0 + 6 + 100000))
ata_soft_reset_lem_example = ata_soft_reset_lem ready_drive 0x3F6 idle

-- A drive whose signature is that of ATA.
abbrev ata_drive : Device
ata_drive t port = if (port == 0x1F4) || (port == 0x1F5) then 0 else 0x58

identified : (ata_identify ata_drive ata_primary 0x100 idle).0 ≡ some tt
unfolding ata_identify set_ata_last_error reject ata_wait_400ns inb or_error ata_wait_not_bsy poll
    ata_ok ata_wait_drq read_identify
identified = refl

-- The 21st field is the number of sectors, for which the comment names the words 60 and 61.
identify_field_lem_example :
    (u : Ata) × (k : ℕ) × ReadyToSend ata_drive 0x1F0 zeroes u
    × (k + 1 ≡ 61)
    × (word_at (ata_identify ata_drive ata_primary 0x100 idle).1.memory (0x100 + 60 * 2)
        ≡ answer ata_drive 0x1F0 u.trace k)
unfolding identify_fields field_start field_words
identify_field_lem_example =
    identify_field_lem ata_drive ata_primary 0x100 idle 20 1 identified (omega arith) (omega arith)
      (omega arith)

detect_devtype_lem_example :
    let (o, s') = detect_devtype ata_drive 1 ata_primary idle in
    ((2 ≤ 1) × (o ≡ none) × (s'.last_error ≡ invalid_argument) × (s'.trace ≡ []))
    ⊎ ((1 ≤ 1) × (o ≡ none) × IsResetError s'.last_error)
    ⊎ ((1 ≤ 1)
        × ((u : Ata) × (u.last_error ≡ no_error)
            × IsReset ata_drive ata_primary u
            × Signed ata_drive 1 ata_primary u (o, s')))
detect_devtype_lem_example = detect_devtype_lem ata_drive 1 ata_primary idle
