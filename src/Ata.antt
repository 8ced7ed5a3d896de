-- ===== src/Ata.antt =====
-- The ATA driver of the second boot stage: stage2/ATA_DRIVER/*.c and ATA.h, over the port
-- accesses of `Io`. A function that returns 0 or -1 is an action that yields a value or stops;
-- both keep the state that the calls so far have made.
pub mod Address
pub mod Init
pub mod Wait
pub mod Stores
pub mod Identify
pub mod Runs
pub mod Words
pub mod Reset
pub mod Layout
pub mod Detect
pub mod Sends
pub mod Commands
use my_operating_system.Base.{
  ℕ, zero, suc, ◌+◌, ◌-◌, ◌*◌, ◌/◌, ◌%◌, ◌^◌, Bool, true, false, ◌||◌, Option, none, some, ltb,
  ◌==◌, ◌!=◌, if◌then◌else◌, u8, ◌>>>◌, bit_and, bit_or, [],
}
use my_operating_system.Memory.{Memory, write}
use my_operating_system.Io
use my_operating_system.Io.{Trace, Device}

-- The values of `ata_error_type` that the driver sets.
pub data AtaError : Type 0 where
  no_error error invalid_argument drq_timeout bsy_timeout device_fault : AtaError
  bus_float device_does_not_exist error_while_drq_poll : AtaError
  err_not_ata err_device_fault err_no_device err_invalid_arg err_none : AtaError

pub record Ata : Type 0 where
  pub trace : Trace
  pub last_error : AtaError
  pub memory : Memory

abbrev pub Action : Type 0 → Type 0
Action A = Ata → Option A × Ata

infixl 5 ◌>>=◌
abbrev pub ◌>>=◌ : {A B : Type 0} → Action A → (A → Action B) → Action B
◌>>=◌ m k s = let (o, s') = m s in elim o [ none ↦ (none, s') | some a ↦ k a s' ]

infixl 5 ◌>>◌
abbrev pub ◌>>◌ : {B : Type 0} → Action (Unit {0}) → Action B → Action B
m >> k = m >>= λ _. k

unfoldable pub ata_ok : Action (Unit {0})
ata_ok s = (some tt, record s { last_error = no_error })

unfoldable pub ata_fail : {A : Type 0} → AtaError → Action A
ata_fail e s = (none, record s { last_error = e })

-- `if (b) return ata_fail(e);`
unfoldable pub reject : Bool → AtaError → Action (Unit {0})
unfolding ata_fail
reject b e s = if b then ata_fail e s else (some tt, s)

abbrev pub out_byte : ℕ → ℕ → Action (Unit {0})
out_byte port v s = (some tt, record s { trace = Io.outb port v s.trace })

abbrev pub reg_data : ℕ
reg_data = 0

abbrev pub reg_status : ℕ
reg_status = 7

-- `DEVICE`
pub record Drive : Type 0 where
  pub base : ℕ
  pub dev_ctl : ℕ

abbrev pub ata_primary : Drive
ata_primary = record { base = 0x1F0; dev_ctl = 0x3F6 }

-- `DEVICE_EXTENDED_28`
pub record Command28 : Type 0 where
  pub sector_count : ℕ
  pub lba_low : ℕ
  pub lba_mid : ℕ
  pub lba_high : ℕ
  pub dev_sel : ℕ
  pub command : ℕ

abbrev pub blank_command : Command28
blank_command = record {
  sector_count = 0;
  lba_low = 0;
  lba_mid = 0;
  lba_high = 0;
  dev_sel = 0;
  command = 0;
}

unfoldable pub ata_u32 : ℕ → ℕ → ℕ
ata_u32 lo hi = bit_or (hi * 2 ^ 16) lo

-- `__set_ata_mode` with the mode `lba`
unfoldable pub set_ata_mode_lba : Command28 → Command28
set_ata_mode_lba d = record d { dev_sel = u8 (bit_or d.dev_sel 0x40) }

unfoldable pub set_sec_count : Command28 → ℕ → Action Command28
unfolding ata_fail
set_sec_count d sec_count s =
    if (sec_count == 0) || ltb 256 sec_count then ata_fail invalid_argument s else (
      some (record d { sector_count = if sec_count == 256 then 0 else u8 sec_count }),
      record s { last_error = no_error },
    )

abbrev pub with_lba : Command28 → ℕ → Command28
with_lba d lba = record d {
  lba_low = bit_and lba 0xFF;
  lba_mid = bit_and (lba >>> 8) 0xFF;
  lba_high = bit_and (lba >>> 16) 0xFF;
  dev_sel = u8 (bit_or (bit_and d.dev_sel 0xF0) (bit_and (lba >>> 24) 0x0F));
}

unfoldable pub set_lba : Command28 → ℕ → Action Command28
unfolding ata_fail
set_lba d lba s =
    if bit_and lba 0xF0000000 != 0
    then ata_fail invalid_argument s
    else (some (with_lba d lba), record s { last_error = no_error })

-- `__ata_pio28_set_dev_sel`
unfoldable pub set_dev_sel : Command28 → Bool → Command28
set_dev_sel d slave =
    let sel = u8 (bit_or (bit_and d.dev_sel 0x4F) 0xE0) in
    record d { dev_sel = if slave then u8 (bit_or sel 0x10) else sel }

unfoldable pub set_command : Command28 → ℕ → Command28
set_command d c = record d { command = c }

-- Lines 133 to 139 of `pio28_read`: the command for the master drive; READ_SECTOR_S is 0x20.
unfoldable pub prepare_read : ℕ → ℕ → Action Command28
prepare_read sectors abs_lba = do
  d ← set_sec_count (set_ata_mode_lba blank_command) sectors
  e ← set_lba d abs_lba
  λ s. (some (set_command (set_dev_sel e false) 0x20), record s { last_error = no_error })

-- What a polling loop makes of one status byte.
pub data Verdict : Type 0 where
  ready again : Verdict
  bad : AtaError → Verdict

abbrev pub judge_not_bsy : ℕ → Verdict
judge_not_bsy status =
    if status == 0xFF
    then bad bus_float
    else if bit_and status 0x01 != 0
    then bad error
    else if bit_and status 0x80 == 0
    then ready
    else again

abbrev pub judge_drq : ℕ → Verdict
judge_drq status =
    if status == 0xFF
    then bad bus_float
    else if bit_and status 0x01 != 0
    then bad error
    else if bit_and status 0x08 != 0
    then ready
    else again

abbrev pub ata_timeout : ℕ
ata_timeout = 100000

module _ (dev : Device) where
  abbrev pub in_byte : ℕ → Action ℕ
  in_byte port s = let (v, t) = Io.inb dev port s.trace in (some v, record s { trace = t })

  abbrev pub in_word : ℕ → Action ℕ
  in_word port s = let (v, t) = Io.inw dev port s.trace in (some v, record s { trace = t })

  -- The loops `while (timeout--)`, with `n` rounds left.
  unfoldable pub poll : (ℕ → Verdict) → AtaError → ℕ → ℕ → Action (Unit {0})
  poll judge late io_base zero = ata_fail late
  poll judge late io_base (suc n) = do
    status ← in_byte (io_base + reg_status)
    elim (judge status) [ ready ↦ ata_ok | bad e ↦ ata_fail e | again ↦ poll judge late io_base n ]

  unfoldable pub ata_wait_not_bsy : ℕ → Action (Unit {0})
  ata_wait_not_bsy io_base = poll judge_not_bsy bsy_timeout io_base ata_timeout

  unfoldable pub ata_wait_drq : ℕ → Action (Unit {0})
  ata_wait_drq io_base = poll judge_drq drq_timeout io_base ata_timeout

  unfoldable pub ata_wait_400ns : ℕ → Action ℕ
  ata_wait_400ns io_base = do
    a ← in_byte (io_base + reg_status)
    b ← in_byte (io_base + reg_status)
    c ← in_byte (io_base + reg_status)
    in_byte (io_base + reg_status)

  -- The registers are written in the order of the source, at the offsets 6, 2, 3, 4, 5 and 7.
  unfoldable pub flush_command : Drive → Command28 → Action (Unit {0})
  flush_command drv d = do
    ata_wait_not_bsy drv.base
    status ← in_byte (drv.base + reg_status)
    reject (bit_and status 0x01 != 0) error
    reject (bit_and status 0x20 != 0) device_fault
    out_byte (drv.base + 6) d.dev_sel
    w ← ata_wait_400ns drv.base
    out_byte (drv.base + 2) d.sector_count
    out_byte (drv.base + 3) d.lba_low
    out_byte (drv.base + 4) d.lba_mid
    out_byte (drv.base + 5) d.lba_high
    out_byte (drv.base + 7) d.command
    ata_ok

  -- Lines 107 to 118: `n` words to the address `buf`, low byte first.
  unfoldable pub store_words : Drive → ℕ → ℕ → Action (Unit {0})
  store_words drv zero buf = ata_ok
  store_words drv (suc n) buf = do
    w ← in_word (drv.base + reg_data)
    λ s.
        store_words drv n (buf + 2)
          (record s { memory = write (write s.memory buf (bit_and w 0xFF)) (buf + 1) (w >>> 8) })

  unfoldable pub store_incoming_bytes : Drive → ℕ → ℕ → Action (Unit {0})
  store_incoming_bytes drv words buf = do
    reject (buf == 0) invalid_argument
    status ← in_byte (drv.base + reg_status)
    reject (bit_and status 0x01 != 0) error
    reject (bit_and status 0x20 != 0) device_fault
    reject (bit_and status 0x08 == 0) error_while_drq_poll
    reject (status == 0xFF) bus_float
    store_words drv words buf

  -- The loop over the sectors, with `n` left.
  unfoldable pub read_sectors : Drive → ℕ → ℕ → Action (Unit {0})
  read_sectors drv zero buf = ata_ok
  read_sectors drv (suc n) buf = do
    w ← ata_wait_400ns drv.base
    ata_wait_drq drv.base
    store_incoming_bytes drv 256 buf
    read_sectors drv n (buf + 512)

  unfoldable pub pio28_read : ℕ → Drive → ℕ → ℕ → Action (Unit {0})
  pio28_read dest drv sectors abs_lba = do
    reject (sectors == 0) invalid_argument
    reject (dest == 0) invalid_argument
    d ← prepare_read sectors abs_lba
    flush_command drv d
    read_sectors drv sectors dest
