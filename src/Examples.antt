-- ===== src/Examples.antt =====
-- The theorems at concrete inputs, and runs of the code.
mod Loader
mod Kernel
mod Running
mod Numbers
mod Drive
mod Blocks
mod Split
use my_operating_system.Base.{
  ℕ, ◌+◌, ◌-◌, ◌*◌, ◌/◌, ◌%◌, ◌^◌, ◌≤◌, ◌<◌, ◌≡◌, ◌≢◌, ◌⊎◌, ◌↔◌, refl, arith, true, none, some, [],
  ◌∷◌, ◌++◌, length, get_or, ltb, ◌==◌, if◌then◌else◌, bit_and,
}
use my_operating_system.Memory.{Memory}
use my_operating_system.Heap.{malloc}
use my_operating_system.Heap.Valid.{IsValid}
use my_operating_system.Tasks.{Tasks, enter_critical, exit_critical, k_create_task}
use my_operating_system.Tasks.RoundRobin
use my_operating_system.Tasks.RoundRobin.{ticks, ticks_lem, critical_section}
use my_operating_system.Tasks.Create.{k_create_task_lem}
use my_operating_system.Stdin.{Stdin, stdin_insert, read_char, stdin_size}
use my_operating_system.Stdin.Fifo
use my_operating_system.Stdin.Fifo.{pending, stdin_insert_lem, read_char_lem}
use my_operating_system.Screen.{columns, Screen, put_char}
use my_operating_system.Screen.Cursor.{OnScreen, IsVideo, put_char-OnScreen, put_char-stays_iff}
use my_operating_system.Keyboard.{fault, scancode_to_char, shifted_scancode_map_indexes}
use my_operating_system.Keyboard.Decode.{Missing, scancode_to_char-fault_iff}
use my_operating_system.Idt.{Idt, cleared, idt_set_interrupt_32, stub_at}
use my_operating_system.Idt.Gates.{PushesAndJumps, handler_of, lands_at, idt_set_interrupt_32_lem}
use my_operating_system.Io.{Device}
use my_operating_system.Pit.{reload_of}
use my_operating_system.Pit.Rate.{reload_of_lem}
use my_operating_system.Gdt.{gdt_make_entry}
use my_operating_system.Gdt.Decode.{base_of, limit_of, gdt_make_entry_lem}
use my_operating_system.Ata.{Ata, Command28, prepare_read, no_error, invalid_argument}
use my_operating_system.Ata.{ata_wait_not_bsy, bus_float, error, bsy_timeout}
use my_operating_system.Ata.Wait.{LastRead, ata_wait_not_bsy_lem}
use my_operating_system.Examples.Blocks.{start, zeroes}

-- Three tasks, the second of which runs.
abbrev three : Tasks
three = record {
  task_list = 100 ∷ 200 ∷ 300 ∷ 0 ∷ 0 ∷ 0 ∷ [];
  current_index = 1;
  task_count = 3;
  critical = 0;
  running_task = 1;
  k_ticks = 7;
}

three-IsValid : RoundRobin.IsValid three
three-IsValid = omega arith

ticks_lem_example :
    ((ticks (210 ∷ 310 ∷ []) three).current_index ≡ (1 + 2) % 3)
    × ((ticks (210 ∷ 310 ∷ []) three).running_task ≡ (ticks (210 ∷ 310 ∷ []) three).current_index)
    × RoundRobin.IsValid (ticks (210 ∷ 310 ∷ []) three)
ticks_lem_example = ticks_lem (210 ∷ 310 ∷ []) three three-IsValid refl

abbrev after_section : Tasks
after_section = exit_critical (ticks (210 ∷ 310 ∷ []) (enter_critical three))

critical_section_example :
    (after_section.current_index ≡ 1)
    × (after_section.running_task ≡ 1)
    × (after_section.task_list ≡ three.task_list)
    × (after_section.critical ≡ 0)
critical_section_example = critical_section (210 ∷ 310 ∷ []) three (omega arith)

abbrev created : Tasks
created = (k_create_task start three).1

k_create_task_lem_example :
    RoundRobin.IsValid created
    × (created.task_count ≡ 3 + 1)
    × ((malloc (4096 + 32) start).0 ≤ get_or created.task_list 3 0)
    × (get_or created.task_list 3 0 + 11 * 4 ≤ (malloc (4096 + 32) start).0 + 4128)
    × ((i : ℕ) → i < 3 → get_or created.task_list i 0 ≡ get_or three.task_list i 0)
k_create_task_lem_example = k_create_task_lem start three three-IsValid (omega arith)

abbrev typed : Stdin
typed = record {
  memory = λ a. if a == 0xD00000 then b'h' else if a == 0xD00001 then 10 else 0;
  in_count = 2;
  out_count = 0;
  peek_count = 0;
  new_line_count = 1;
}

typed-IsValid : Fifo.IsValid typed
typed-IsValid = omega arith

stdin_insert_lem_example :
    Fifo.IsValid (stdin_insert b'x' typed)
    × (pending (stdin_insert b'x' typed)
        ≡ (if ltb 2 stdin_size then pending typed ++ (b'x' ∷ []) else pending typed))
    × ((stdin_insert b'x' typed).new_line_count ≡ typed.new_line_count)
    × ((stdin_insert b'x' typed).out_count ≡ typed.out_count)
    × ((stdin_insert b'x' typed).peek_count ≡ typed.peek_count)
    × (stdin_size ≤ 2 → stdin_insert b'x' typed ≡ typed)
stdin_insert_lem_example = stdin_insert_lem b'x' typed typed-IsValid (omega arith) (omega arith)

read_char_lem_example :
    ((read_char typed ≡ none) × (pending typed ≡ []))
    ⊎ ((c : ℕ) × (s' : Stdin) × (read_char typed ≡ some (c, s'))
        × (pending typed ≡ c ∷ pending s')
        × Fifo.IsValid s')
read_char_lem_example = read_char_lem typed typed-IsValid

-- The cursor in the last column of the last row.
abbrev corner : Screen
corner = record { cursor_x = 79; cursor_y = 24; memory = zeroes }

corner-OnScreen : OnScreen corner
corner-OnScreen = omega arith

put_char-OnScreen_example : OnScreen (put_char b'a' 0x0F corner)
put_char-OnScreen_example = put_char-OnScreen b'a' 0x0F corner corner-OnScreen

abbrev home : Screen
home = record { cursor_x = 0; cursor_y = 0; memory = zeroes }

put_char-stays_iff_example :
    ((m : Memory) (a : ℕ)
      → (put_char 8 0x0F (record home { memory = m })).memory a ≢ m a
      → IsVideo a)
    ↔ ((◌≢◌ {A = ℕ} 8 8) ⊎ (0 < 0 * columns + 0))
put_char-stays_iff_example =
    put_char-stays_iff 8 0x0F home (record { x = omega arith; y = omega arith })

-- 0x37 is the star of the number block.
scancode_to_char-fault_iff_example : ((scancode_to_char true 0x37).0 ≡ fault) ↔ (
    (true ≡ true)
    × (0x37 ≤ 0x80)
    × (◌≢◌ {A = ℕ} 0x37 0x2A)
    × Missing 0x37 shifted_scancode_map_indexes)
scancode_to_char-fault_iff_example = scancode_to_char-fault_iff true 0x37

star_reads_behind : (scancode_to_char true 0x37).0 ≡ fault
star_reads_behind =
    scancode_to_char-fault_iff_example.1
      (refl, omega arith, omega arith, unfold shifted_scancode_map_indexes in omega arith)

abbrev timer_gate : Idt
timer_gate = idt_set_interrupt_32 0x200000 32 0x101000 cleared

idt_set_interrupt_32_lem_example :
    (handler_of (timer_gate.entry 32) ≡ stub_at 0x200000 32)
    × PushesAndJumps (stub_at 0x200000 32) (timer_gate.stub 32) 32 0x101000
idt_set_interrupt_32_lem_example =
    idt_set_interrupt_32_lem 0x200000 32 0x101000 cleared (omega arith) (omega arith) (omega arith)

-- A device that answers every read with 0xB8.
abbrev steady : Device
steady t port = 0xB8

reload_of_lem_example :
    (1 ≤ reload_of 1000)
    × (reload_of 1000 ≤ 0x10000)
    × (18 < 1000 → 1000 < 1193181 → reload_of 1000 ≡ (3579545 / 1000 + 1) / 3)
reload_of_lem_example = reload_of_lem 1000

abbrev idle : Ata
idle = record { trace = []; last_error = no_error; memory = zeroes }

-- A drive that is not busy and has data.
abbrev ready_drive : Device
ready_drive t port = 0x58

ata_wait_not_bsy_lem_example :
    let (o, s') = ata_wait_not_bsy ready_drive 0x1F0 idle in
    ((o ≡ some tt)
      × (s'.last_error ≡ no_error)
      × LastRead ready_drive 0x1F7
          (λ v. (v ≢ 0xFF) × (bit_and v 0x01 ≡ 0) × (bit_and v 0x80 ≡ 0))
          s')
    ⊎ ((o ≡ none) × (s'.last_error ≡ bus_float) × LastRead ready_drive 0x1F7 (λ v. v ≡ 0xFF) s')
    ⊎ ((o ≡ none)
        × (s'.last_error ≡ error)
        × LastRead ready_drive 0x1F7 (λ v. (v ≢ 0xFF) × (bit_and v 0x01 ≢ 0)) s')
    ⊎ ((o ≡ none) × (s'.last_error ≡ bsy_timeout) × (length s'.trace ≡ length idle.trace + 100000))
ata_wait_not_bsy_lem_example = ata_wait_not_bsy_lem ready_drive 0x1F0 idle
