-- ===== src/Io.antt =====
-- Port input and output: the inline assembly of kernel/UTILS/asm_utils.c and, of kernel/IDT/IDT.c,
-- the interrupt flag.
-- What the program has done so far is the list of its port accesses, the latest first. What a
-- device answers is a parameter: it may depend on all of these accesses.
use my_operating_system.Base.{ℕ, zero, suc, List, ◌∷◌, u8, u16}

pub data Event : Type 0 where
  out : ℕ → ℕ → Event
  input : ℕ → Event
  cli sti hlt : Event

abbrev pub Trace : Type 0
Trace = List Event

abbrev pub Device : Type 0
Device = Trace → ℕ → ℕ

unfoldable pub outb : ℕ → ℕ → Trace → Trace
outb port val t = out port (u8 val) ∷ t

unfoldable pub inb : Device → ℕ → Trace → ℕ × Trace
inb dev port t = (u8 (dev t port), input port ∷ t)

unfoldable pub inw : Device → ℕ → Trace → ℕ × Trace
inw dev port t = (u16 (dev t port), input port ∷ t)

-- Its body is empty.
abbrev pub io_wait : Trace → Trace
io_wait t = t

-- The first `n` rounds of the endless loop of `halt`.
unfoldable pub halt : ℕ → Trace → Trace
halt zero t = t
halt (suc n) t = halt n (hlt ∷ cli ∷ t)

abbrev pub interrupts_disable : Trace → Trace
interrupts_disable t = cli ∷ t

abbrev pub interrupts_enable : Trace → Trace
interrupts_enable t = sti ∷ t
