-- ===== src/Setup.antt =====
-- The set-up of the kernel: kernel/main.c, with `init_keyboard_irq` of
-- kernel/IDT/ISRs/keyboard/keyboard.c and `init_timer_irq` of kernel/IDT/ISRs/timer/timer.c. `cli`
-- and `sti` stand in the trace.
pub mod Gates
use my_operating_system.Base.{ℕ, List, [], ◌∷◌}
use my_operating_system.Io.{Trace, Device, interrupts_disable, interrupts_enable}
use my_operating_system.Gdt.{GdtEntry, GdtPtr, gdt_init}
use my_operating_system.Idt.{
  Idt, IdtPtr, idt_init, idt_ignore_all, idt_set_entry, idt_set_interrupt_32,
}
use my_operating_system.Idt.Exceptions.{Exception, setup_exceptions}
use my_operating_system.Pic.{pic_remap, irq_mask_all, irq_clear_mask}
use my_operating_system.Pit.{Pit, pit_init}
use my_operating_system.Heap.{Heap}
use my_operating_system.Screen.{Screen, clear_screen, print_string}
use my_operating_system.Tasks.{Tasks, k_create_task}

-- The state of the kernel's parts.
pub record Kernel : Type 0 where
  pub gdt : List GdtEntry
  pub gdt_ptr : GdtPtr
  pub idt : Idt
  pub idtr : IdtPtr
  pub pit : Pit
  pub trace : Trace
  pub screen : Screen
  pub heap : Heap
  pub tasks : Tasks

-- Where the linker puts the tables and the handlers.
pub record Image : Type 0 where
  pub gdt : ℕ
  pub idt : ℕ
  pub isr_stubs : ℕ
  pub idt_common_isr : ℕ
  pub exception : Exception → ℕ
  pub keyboard_isr : ℕ
  pub timer_isr : ℕ

abbrev pub with_trace : (Trace → Trace) → Kernel → Kernel
with_trace f s = record s { trace = f s.trace }

abbrev pub with_idt : (Idt → Idt) → Kernel → Kernel
with_idt f s = record s { idt = f s.idt }

module _ (image : Image) (dev : Device) where
  unfoldable pub init_keyboard_irq : Kernel → Kernel
  init_keyboard_irq s =
      with_trace (irq_clear_mask dev 1)
        (with_idt (idt_set_entry 0x21 image.keyboard_isr 0x08 0x8E 0) s)

  unfoldable pub init_timer_irq : Kernel → Kernel
  init_timer_irq s =
      with_trace (irq_clear_mask dev 0)
        (with_idt (idt_set_interrupt_32 image.isr_stubs 0x20 image.timer_isr) s)

  unfoldable pub kernel_setup_interrupts : Kernel → Kernel
  kernel_setup_interrupts s =
      let s = with_trace interrupts_disable s in
      let s = with_trace (pic_remap 0x20 0x28) s in
      let (idt, idtr) = idt_init image.idt in
      let s = record s { idt = idt; idtr = idtr } in
      let s = with_idt (idt_ignore_all image.isr_stubs image.idt_common_isr) s in
      let s = with_idt (setup_exceptions image.exception) s in
      let s = with_trace irq_mask_all s in
      let s = init_keyboard_irq s in
      let s = init_timer_irq s in
      let (pit, t) = pit_init 1000 s.trace in record s { pit = pit; trace = interrupts_enable t }

  unfoldable pub k_init : Kernel → Kernel
  k_init s =
      let (gdt, gdt_ptr) = gdt_init image.gdt in
      kernel_setup_interrupts (record s { gdt = gdt; gdt_ptr = gdt_ptr })

abbrev pub create : Kernel → Kernel
create s = let (h, t) = k_create_task s.heap s.tasks in record s { heap = h; tasks = t }

-- The five tasks; which function a task runs is in the words on its stack.
unfoldable pub k_setup_tasks : Kernel → Kernel
k_setup_tasks s = create (create (create (create (create s))))

-- "hello from kernel!" and a line feed.
abbrev pub hello : List ℕ
hello =
    b'h' ∷ b'e' ∷ b'l' ∷ b'l' ∷ b'o' ∷ b' ' ∷ b'f' ∷ b'r' ∷ b'o' ∷ b'm' ∷ b' ' ∷ b'k' ∷ b'e' ∷ b'r'
    ∷ b'n' ∷ b'e' ∷ b'l' ∷ b'!' ∷ 10 ∷ []

-- `k_main` up to its idle loop.
unfoldable pub k_main : Kernel → Kernel
k_main s = k_setup_tasks (record s { screen = print_string hello (clear_screen s.screen) })

-- `_start`
unfoldable pub kernel_start : Image → Device → Kernel → Kernel
unfolding k_init k_main
kernel_start image dev s = k_main (k_init image dev s)

-- `k_die` up to its endless loop
unfoldable pub k_die : Kernel → Kernel
k_die s = with_trace interrupts_disable s
