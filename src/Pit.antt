-- ===== src/Pit.antt =====
-- The interval timer: `pit_init` of kernel/PIT/PIT.c.
pub mod Rate
use my_operating_system.Base.{
  ℕ, ◌+◌, ◌*◌, ◌/◌, ◌%◌, ◌^◌, ltb, leb, if◌then◌else◌, u8, u16, u32, ◌>>>◌, ◌∷◌, List,
}
use my_operating_system.Io.{Trace, Event, interrupts_disable, interrupts_enable, outb}

-- The static variables of the file.
pub record Pit : Type 0 where
  pub reload_value : ℕ
  pub irq0_frequency : ℕ
  pub irq0_ms : ℕ
  pub irq0_fractions : ℕ

-- Line 25 and lines 36 to 38: the quotient by `d`, with the rounding of the source.
unfoldable pub divide_clock : ℕ → ℕ
divide_clock d = if leb (3579545 / 2) (3579545 % d) then 3579545 / d + 1 else 3579545 / d

-- Lines 28 and 29, and 40 and 41.
unfoldable pub third : ℕ → ℕ
third q = if leb 2 (q % 3) then q / 3 + 1 else q / 3

-- Lines 14 to 30.
unfoldable pub reload_of : ℕ → ℕ
reload_of frequency_hz =
    if leb frequency_hz 18
    then 0x10000
    else if leb 1193181 frequency_hz
    then 1
    else third (divide_clock frequency_hz)

abbrev pub time_fixed : ℕ → ℕ
time_fixed reload = (0xDBB3A062 * reload % 2 ^ 64) >>> 10

unfoldable pub pit_init : ℕ → Trace → Pit × Trace
unfolding reload_of divide_clock third outb
pit_init frequency_hz t =
    let reload = reload_of frequency_hz in
    let value = u16 reload in
    (
      record {
        reload_value = value;
        irq0_frequency = third (divide_clock reload);
        irq0_ms = u32 (time_fixed reload >>> 32);
        irq0_fractions = u32 (time_fixed reload);
      },
      interrupts_enable (
          outb 0x40 (u8 (value >>> 8))
            (outb 0x40 (u8 value) (outb 0x43 0x34 (interrupts_disable t)))),
    )
