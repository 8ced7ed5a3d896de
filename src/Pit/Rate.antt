-- ===== src/Pit/Rate.antt =====
-- The reload value, its range, and how the hardware is programmed with it.
use my_operating_system.Base.{
  ℕ, ◌+◌, ◌*◌, ◌/◌, ◌≤◌, ◌<◌, ◌≡◌, arith, u8, u16, ◌>>>◌, ◌∷◌, if◌then◌else◌, ◌==◌,
}
use my_operating_system.Io.{Trace, outb, out, cli, sti}
use my_operating_system.Pit.{divide_clock, third, reload_of, pit_init}

-- The remainder is below the divisor, which is below half of the dividend.
pub divide_clock_truncates : (d : ℕ) → 0 < d → d < 1193181 → divide_clock d ≡ 3579545 / d
unfolding divide_clock
divide_clock_truncates d pos h = grind arith

third_lem : (q : ℕ) → third q ≡ (q + 1) / 3
unfolding third
third_lem q = ground arith

quotient_range : (d : ℕ) → 18 < d → d < 1193181 → (3 ≤ 3579545 / d) × (3579545 / d ≤ 188397)
quotient_range d lo hi = (grind arith, grind arith)

-- For every frequency the reload value lies between 1 and 65536, and between the two fixed ends it
-- is a third of the truncated quotient of the clock, rounded to the nearest: the rounding of the
-- first quotient never happens.
pub reload_of_lem :
    (f : ℕ)
    → (1 ≤ reload_of f)
      × (reload_of f ≤ 0x10000)
      × (18 < f → f < 1193181 → reload_of f ≡ (3579545 / f + 1) / 3)
unfolding reload_of
reload_of_lem f =
    ground (arith, divide_clock_truncates f, third_lem (divide_clock f), quotient_range f)

-- The two bytes written to channel 0, low byte first, make up the reload value as the hardware
-- reads it, where 0 stands for 65536; interrupts are off during the three writes.
pub pit_init_programs :
    (f : ℕ) (t : Trace)
    → (lo : ℕ) × (hi : ℕ) × ((pit_init f t).1
        ≡ sti ∷ out 0x40 hi ∷ out 0x40 lo ∷ out 0x43 0x34 ∷ cli ∷ t)
      × ((if (lo + hi * 256) == 0 then 0x10000 else lo + hi * 256) ≡ reload_of f)
unfolding pit_init outb
pit_init_programs f t = (
  u8 (u16 (reload_of f)),
  u8 (u16 (reload_of f) >>> 8),
  ground arith,
  ground (arith, reload_of_lem f),
)
