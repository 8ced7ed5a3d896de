-- ===== src/Setup/Gates.antt =====
-- The interrupt table after the set-up.
use my_operating_system.Base.{ℕ, ◌+◌, ◌*◌, ◌^◌, ◌<◌, ◌≡◌}
use my_operating_system.Io.{Device}
use my_operating_system.Idt.{
  Idt, IdtEntry, make_entry, stub_at, idt_size, cleared, idt_set_entry, idt_ignore_all,
}
use my_operating_system.Idt.Gates.{handler_of, PushesAndJumps, sign_extended}
use my_operating_system.Idt.Exceptions.{Exception, setup_exceptions}
use my_operating_system.Setup.{Kernel, Image}

-- What `idt_ignore_interrupt` makes of the gate and the stub of a vector `k`.
abbrev ignored_entry : ℕ → ℕ → IdtEntry
ignored_entry isr_stubs k = make_entry (stub_at isr_stubs k) 0x08 0x8E 0

-- The addresses fit 32 bits, and the stubs do not start at NULL.
pub record IsLinked (image : Image) : Type 0 where
  pub exceptions : (e : Exception) → image.exception e < 2 ^ 32
  pub keyboard : image.keyboard_isr < 2 ^ 32
  pub timer : image.timer_isr < 2 ^ 32
  pub common : image.idt_common_isr < 2 ^ 32
  pub stubs_start : 0 < image.isr_stubs
  pub stubs_end : image.isr_stubs + idt_size * 16 < 2 ^ 32

-- The gate of `k` leads to the stub of `k`, which pushes `k` with its sign extended and jumps to
-- the handler.
abbrev pub Stubbed : Image → Idt → ℕ → ℕ → Type 0
Stubbed image idt k handler =
    (handler_of (idt.entry k) ≡ stub_at image.isr_stubs k)
    × PushesAndJumps (stub_at image.isr_stubs k) (idt.stub k) (sign_extended k) handler

module _ (image : Image) (dev : Device) (s : Kernel) (linked : IsLinked image) where
  ignored : Idt
  ignored = idt_ignore_all image.isr_stubs image.idt_common_isr cleared

  last : Idt
  unfolding ignored
  last =
      idt_set_entry 0x21 image.keyboard_isr 0x08 0x8E 0 (setup_exceptions image.exception ignored)
