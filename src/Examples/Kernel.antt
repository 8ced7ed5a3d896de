-- ===== src/Examples/Kernel.antt =====
-- The theorems on the kernel's set-up and on the way of a typed character at concrete inputs.
use my_operating_system.Base.{◌≡◌, arith, refl, false, []}
use my_operating_system.Memory.{Memory}
use my_operating_system.Heap.{mem_ok}
use my_operating_system.Io.{Device}
use my_operating_system.Gdt.{gdt_init}
use my_operating_system.Idt.{idt_init, cleared}
use my_operating_system.Pit.{pit_init}
use my_operating_system.Screen.{Screen}
use my_operating_system.Tasks.{boot}
use my_operating_system.Setup.{Kernel, Image, kernel_start}
use my_operating_system.System.History.{IsStart}
use my_operating_system.System.Start.{running, kernel_start_lem}

abbrev zeroes : Memory
zeroes _ = 0

abbrev silent : Device
silent t port = 0

abbrev home : Screen
home = record { cursor_x = 0; cursor_y = 0; memory = zeroes }

abbrev image : Image
image = record {
  gdt = 0x104000;
  idt = 0x106000;
  isr_stubs = 0x105000;
  idt_common_isr = 0x101000;
  exception = λ e. 0x100500;
  keyboard_isr = 0x102000;
  timer_isr = 0x103000;
}

abbrev unset : Kernel
unset = record {
  gdt = [];
  gdt_ptr = (gdt_init 0).1;
  idt = cleared;
  idtr = (idt_init 0).1;
  pit = (pit_init 1000 []).0;
  trace = [];
  screen = home;
  heap = record { table = []; heap_top = 0; initialized = false; last_error = mem_ok };
  tasks = boot;
}

kernel_start_lem_example :
    IsStart (running (kernel_start image silent unset))
    × ((kernel_start image silent unset).tasks.task_count ≡ 6)
    × ((kernel_start image silent unset).tasks.running_task ≡ 0)
kernel_start_lem_example = kernel_start_lem image silent unset refl (omega arith) (λ a. omega arith)
