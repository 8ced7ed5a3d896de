-- ===== src/Ata/Init.antt =====
-- The start of a drive: stage2/ATA_DRIVER/ata_driver.c, software_reset.c, detect_device_type.c and
-- ata_identify.c.
use my_operating_system.Base.{
  ℕ, zero, suc, ◌+◌, ◌*◌, Bool, ◌&&◌, ◌||◌, none, some, ◌==◌, ◌!=◌, if◌then◌else◌, ◌>>>◌, bit_and,
  bit_or,
}
use my_operating_system.Memory.{write}
use my_operating_system.Io.{Device}
use my_operating_system.Ata.{
  Action, ◌>>=◌, ◌>>◌, AtaError, err_none, err_invalid_arg, err_no_device, err_device_fault,
  err_not_ata, invalid_argument, bus_float, bsy_timeout, device_does_not_exist, ata_ok, ata_fail,
  reject, out_byte, in_byte, in_word, Drive, reg_data, reg_status, Verdict, ready, again, bad,
  ata_wait_not_bsy, ata_wait_drq, ata_wait_400ns,
}

unfoldable pub set_ata_last_error : AtaError → Action (Unit {0})
set_ata_last_error e s = (some tt, record s { last_error = e })

-- `if (rc == -1) { set_ata_last_error(e); return -1; }` after the call `rc = m`
unfoldable pub or_error : {A : Type 0} → Action A → AtaError → Action A
or_error m e s = let (o, s') = m s in elim o [ none ↦ ata_fail e s' | some a ↦ (some a, s') ]

abbrev pub judge_reset : ℕ → Verdict
judge_reset status =
    if status == 0xFF then bad bus_float else if bit_and status 0xC0 == 0x40 then ready else again

abbrev pub ata_reset_timeout : ℕ
ata_reset_timeout = 100000

-- What `detect_devtype` returns for the two signature bytes.
unfoldable pub device_type : ℕ → ℕ → ℕ
device_type cl ch =
    if (cl == 0x14) && (ch == 0xEB)
    then 5
    else if (cl == 0x69) && (ch == 0x96)
    then 4
    else if (cl == 0x00) && (ch == 0x00)
    then 3
    else if (cl == 0x3C) && (ch == 0xC3)
    then 2
    else 1

module _ (dev : Device) where
  unfoldable pub clear_hob_bits : Action (Unit {0})
  clear_hob_bits = do val ← in_byte dev 0x3F6; out_byte 0x3F6 (bit_and val 0x7F)

  unfoldable pub test_floating : Action Bool
  test_floating = do status ← in_byte dev (0x1F0 + reg_status); λ s. (some (status == 0xFF), s)

  -- The early returns of `test_if_drive_exists` are the rejections; the caller has no other code for
  -- them than this failure.
  unfoldable pub test_if_drive_exists : Action (Unit {0})
  test_if_drive_exists = do
    out_byte 0x172 0x8B
    out_byte 0x173 0x73
    out_byte 0x174 0x74
    a ← in_byte dev 0x172
    reject (a != 0x8B) device_does_not_exist
    b ← in_byte dev 0x173
    reject (b != 0x73) device_does_not_exist
    c ← in_byte dev 0x174
    reject (c != 0x74) device_does_not_exist

  unfoldable pub ata_init : Action (Unit {0})
  ata_init = do
    clear_hob_bits
    floating ← test_floating
    reject floating bus_float
    test_if_drive_exists
    ata_ok

  -- The loop of `ata_soft_reset`, with `n` rounds left.
  unfoldable pub poll_reset : ℕ → ℕ → Action (Unit {0})
  poll_reset dcr_port zero = ata_fail bsy_timeout
  poll_reset dcr_port (suc n) = do
    status ← in_byte dev dcr_port
    elim (judge_reset status) [
      | ready ↦ ata_ok
      | bad e ↦ ata_fail e
      | again ↦ poll_reset dcr_port n
    ]

  unfoldable pub ata_soft_reset : ℕ → Action (Unit {0})
  ata_soft_reset dcr_port = do
    reject (dcr_port == 0) invalid_argument
    out_byte dcr_port 4
    out_byte dcr_port 0
    a ← in_byte dev dcr_port
    b ← in_byte dev dcr_port
    c ← in_byte dev dcr_port
    d ← in_byte dev dcr_port
    poll_reset dcr_port ata_reset_timeout

  -- `ctrl` is not NULL, and `slavebit` is not negative.
  unfoldable pub detect_devtype : ℕ → Drive → Action ℕ
  detect_devtype slavebit ctrl = do
    reject ((slavebit != 0) && (slavebit != 1)) invalid_argument
    ata_soft_reset ctrl.dev_ctl
    out_byte (ctrl.base + 6) (bit_or 0xA0 (slavebit * 16))
    a ← in_byte dev ctrl.dev_ctl
    b ← in_byte dev ctrl.dev_ctl
    c ← in_byte dev ctrl.dev_ctl
    d ← in_byte dev ctrl.dev_ctl
    cl ← in_byte dev (ctrl.base + 4)
    ch ← in_byte dev (ctrl.base + 5)
    reject ((cl == 0xFF) && (ch == 0xFF)) device_does_not_exist
    λ s. (some (device_type cl ch), s)

  -- The loop over the words of `raw`, with `n` left.
  unfoldable pub read_identify : Drive → ℕ → ℕ → Action (Unit {0})
  read_identify drv zero raw = λ s. (some tt, s)
  read_identify drv (suc n) raw = do
    w ← in_word dev (drv.base + reg_data)
    λ s.
        read_identify drv n (raw + 2)
          (record s { memory = write (write s.memory raw (bit_and w 0xFF)) (raw + 1) (w >>> 8) })

  -- `ata_wait_not_bsy` and `ata_wait_drq` never return -2, so that test is left out.
  unfoldable pub ata_identify : Drive → ℕ → Action (Unit {0})
  ata_identify drv identify_result = do
    set_ata_last_error err_none
    reject (identify_result == 0) err_invalid_arg
    out_byte (drv.base + 6) 0xA0
    w ← ata_wait_400ns dev drv.base
    out_byte (drv.base + 2) 0
    out_byte (drv.base + 3) 0
    out_byte (drv.base + 4) 0
    out_byte (drv.base + 5) 0
    out_byte (drv.base + 7) 0xEC
    status ← in_byte dev (drv.base + reg_status)
    reject (status == 0) err_no_device
    or_error (ata_wait_not_bsy dev drv.base) err_device_fault
    cl ← in_byte dev (drv.base + 4)
    ch ← in_byte dev (drv.base + 5)
    reject ((cl != 0) || (ch != 0)) err_not_ata
    or_error (ata_wait_drq dev drv.base) err_device_fault
    read_identify drv 256 identify_result
