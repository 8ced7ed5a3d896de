-- ===== src/Pic.antt =====
-- The interrupt controllers: kernel/PIC/PIC.c.
pub mod Masks
use my_operating_system.Base.{
  ℕ, ◌+◌, ◌-◌, ◌*◌, ◌^◌, ltb, leb, if◌then◌else◌, u8, u16, ◌<<<◌, bit_and, bit_or,
}
use my_operating_system.Io.{Trace, Device, outb, inb, io_wait}

abbrev pub pic1_command : ℕ
pic1_command = 0x20

abbrev pub pic1_data : ℕ
pic1_data = 0x21

abbrev pub pic2_command : ℕ
pic2_command = 0xA0

abbrev pub pic2_data : ℕ
pic2_data = 0xA1

abbrev pub pic_eoi : ℕ
pic_eoi = 0x20

unfoldable pub pic_send_eoi : ℕ → Trace → Trace
unfolding outb
pic_send_eoi irq t =
    outb pic1_command pic_eoi (if leb 8 irq then outb pic2_command pic_eoi t else t)

unfoldable pub pic_disable : Trace → Trace
unfolding outb
pic_disable t = outb pic2_data 0xff (outb pic1_data 0xff t)

-- ICW1_INIT | ICW1_ICW4 is 0x11, 1 <<< CASCADE_IRQ is 4, ICW4_8086 is 1.
unfoldable pub pic_remap : ℕ → ℕ → Trace → Trace
unfolding outb
pic_remap offset1 offset2 t =
    let t = io_wait (outb pic1_command (bit_or 0x10 0x01) t) in
    let t = io_wait (outb pic2_command (bit_or 0x10 0x01) t) in
    let t = io_wait (outb pic1_data offset1 t) in
    let t = io_wait (outb pic2_data offset2 t) in
    let t = io_wait (outb pic1_data (1 <<< 2) t) in
    let t = io_wait (outb pic2_data 2 t) in
    let t = io_wait (outb pic1_data 0x01 t) in
    let t = io_wait (outb pic2_data 0x01 t) in let t = outb pic1_data 0 t in outb pic2_data 0 t

unfoldable pub irq_mask_all : Trace → Trace
unfolding outb
irq_mask_all t = outb 0xA1 0xFF (outb 0x21 0xFF t)

unfoldable pub irq_clear_all : Trace → Trace
unfolding outb
irq_clear_all t = outb 0xA1 0x00 (outb 0x21 0x00 t)

-- The port and the line within its controller.
abbrev pub line_port : ℕ → ℕ × ℕ
line_port irq_line = if ltb irq_line 8 then (pic1_data, irq_line) else (pic2_data, irq_line - 8)

-- `inb(port) | (1 <<< irq_line)`
unfoldable pub with_line : ℕ → ℕ → ℕ
with_line value line = u8 (bit_or value (1 <<< line))

-- `inb(port) & ~(1 <<< irq_line)`
unfoldable pub without_line : ℕ → ℕ → ℕ
without_line value line = u8 (bit_and value (2 ^ 32 - 1 - 1 <<< line))

unfoldable pub irq_set_mask : Device → ℕ → Trace → Trace
unfolding outb inb
irq_set_mask dev irq_line t =
    let (port, line) = line_port irq_line in
    let (old, t') = inb dev port t in outb port (with_line old line) t'

unfoldable pub irq_clear_mask : Device → ℕ → Trace → Trace
unfolding outb inb
irq_clear_mask dev irq_line t =
    let (port, line) = line_port irq_line in
    let (old, t') = inb dev port t in outb port (without_line old line) t'

-- `__pic_get_irq_reg`: the operand order of `|` does not fix which port is read first; the slave's
-- is taken to be.
unfoldable pub pic_get_irq_reg : Device → ℕ → Trace → ℕ × Trace
unfolding outb inb
pic_get_irq_reg dev ocw3 t =
    let t = outb pic2_command ocw3 (outb pic1_command ocw3 t) in
    let (hi, t) = inb dev pic2_command t in
    let (lo, t) = inb dev pic1_command t in (u16 (bit_or (hi <<< 8) lo), t)

abbrev pic_read_irr : ℕ
pic_read_irr = 0x0A

abbrev pic_read_isr : ℕ
pic_read_isr = 0x0B

unfoldable pub pic_get_irr : Device → Trace → ℕ × Trace
unfolding pic_get_irq_reg
pic_get_irr dev t = pic_get_irq_reg dev pic_read_irr t

unfoldable pub pic_get_isr : Device → Trace → ℕ × Trace
unfolding pic_get_irq_reg
pic_get_isr dev t = pic_get_irq_reg dev pic_read_isr t
