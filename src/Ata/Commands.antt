-- ===== src/Ata/Commands.antt =====
-- The command that `pio28_read` sends.
use my_operating_system.Base.{ℕ, ◌+◌, ◌≡◌, ◌⊎◌, Option, some, u8}
use my_operating_system.Io.{Device}
use my_operating_system.Ata.{
  Ata, Action, ◌>>=◌, ◌>>◌, out_byte, Drive, Command28, AtaError, error, device_fault, bus_float,
  bsy_timeout, ata_ok, ata_wait_400ns, flush_command, read_sectors,
}
use my_operating_system.Ata.Runs.{Ends}
use my_operating_system.Ata.Sends.{command_at}

-- The registers have 8 bits each.
abbrev pub in_registers : Command28 → Command28
in_registers d = record {
  sector_count = u8 d.sector_count;
  lba_low = u8 d.lba_low;
  lba_mid = u8 d.lba_mid;
  lba_high = u8 d.lba_high;
  dev_sel = u8 d.dev_sel;
  command = u8 d.command;
}

-- The errors of a drive that does not take a command.
abbrev pub IsNotReady : AtaError → Type 0
IsNotReady e = (e ≡ bus_float) ⊎ (e ≡ error) ⊎ (e ≡ bsy_timeout) ⊎ (e ≡ device_fault)

module _ (dev : Device) (drv : Drive) (d : Command28) (s : Ata) where
  -- Nothing sent yet.
  abbrev Silent : Ata → Type 0
  Silent t = command_at drv t.trace ≡ command_at drv s.trace

  abbrev Failed : Ata → Type 0
  Failed t = Silent t × IsNotReady t.last_error

  abbrev Took : Ata → Type 0
  Took t = command_at drv t.trace ≡ some (in_registers d)

  -- An action that sends nothing and goes on, or reaches `Q`; if it stops, nothing has been sent, and
  -- the drive was not ready.
  record Leads {B : Type 0} (Q : B → Ata → Type 0) (m : Action B) : Type 0 where
    run : (t : Ata) → Silent t → Ends Q Failed (m t)

  abbrev Goes : {B : Type 0} → Action B → Type 0
  Goes {B = B} m = Leads (λ (_ : B) (t : Ata). Silent t) m

  -- The writes, with the wait after the drive is selected.
  abbrev writes : Action (Unit {0})
  writes = do
    out_byte (drv.base + 6) d.dev_sel
    w ← ata_wait_400ns dev drv.base
    out_byte (drv.base + 2) d.sector_count
    out_byte (drv.base + 3) d.lba_low
    out_byte (drv.base + 4) d.lba_mid
    out_byte (drv.base + 5) d.lba_high
    out_byte (drv.base + 7) d.command
    ata_ok

  -- The sectors are read behind it, with no command between.
  abbrev flush_and_read : ℕ → ℕ → Action (Unit {0})
  flush_and_read sectors dest = flush_command dev drv d >>= λ _. read_sectors dev drv sectors dest
