-- ===== src/Examples/Running.antt =====
-- The theorems on the running kernel at a concrete history: the key of `a` is pressed, the timer
-- switches to task 1, and the character goes its way.
use my_operating_system.Base.{
  ℕ, ◌≡◌, refl, arith, false, [], ◌∷◌, ◌++◌, set, ◌==◌, if◌then◌else◌, replicate, get_or-replicate,
  length-replicate,
}
use my_operating_system.Memory.{Memory}
use my_operating_system.Io.{Device, inb}
use my_operating_system.Heap.{mem_ok}
use my_operating_system.Tasks.{Tasks, timer_isr, timer_handler, schedule_next_task, context_switch}
use my_operating_system.Tasks.RoundRobin
use my_operating_system.Tasks.RoundRobin.{ticks}
use my_operating_system.Terminal.Lines.{Echoes, echo_round_lem}
use my_operating_system.Keyboard.{
  Keyboard, ok, keyboard_isr, keyboard_handler_c, handle_scancode, append_char, scancode_to_char,
  plain_char, look_up, scancode_map_indexes, scancode_map_values,
}
use my_operating_system.Stdin.{Stdin, read_line}
use my_operating_system.Stdin.Line.{Reads, read_line_lem}
use my_operating_system.Stdin.Fifo
use my_operating_system.Terminal.{Terminal}
use my_operating_system.System.{pressed_key, System, Reach, here, next, key, tick, empty}
use my_operating_system.System.Keys.{decode}
use my_operating_system.System.Running.{visible, under_way}
use my_operating_system.System.History.{IsStart, history_lem}

abbrev two_tasks : Tasks
two_tasks = record {
  task_list = replicate 6 0;
  current_index = 0;
  task_count = 2;
  critical = 0;
  running_task = 0;
  k_ticks = 0;
}

abbrev no_keys : Keyboard
no_keys = record {
  scancode_buffer = [];
  char_buffer = replicate 500 0;
  current_scancode_in = 999;
  current_char_in = 0;
  is_l_shifted = false;
}

abbrev start : System
start = record {
  tasks = two_tasks;
  trace = [];
  heap = record { table = []; heap_top = 0; initialized = false; last_error = mem_ok };
  terminal = record {
    keyboard = no_keys;
    current_char_out = 0;
    screen = record { cursor_x = 0; cursor_y = 0; memory = λ _. 0 };
    stdin = record {
      memory = λ _. 0;
      in_count = 0;
      out_count = 0;
      peek_count = 0;
      new_line_count = 0;
    };
  };
  hand = empty;
  pressed = [];
  delivered = [];
}

start-IsStart : IsStart start
start-IsStart = record {
  tasks = record {
    places = refl;
    some_task = omega arith;
    at_most = omega arith;
    in_range = omega arith;
    running = refl;
  };
  free = refl;
  task_1 = omega arith;
  screen = record { x = omega arith; y = omega arith };
  bytes = λ x. omega arith;
  top = omega arith;
  places = length-replicate {A = ℕ} 500 0;
  small = λ i. rw (get_or-replicate {A = ℕ} 500 0 i) (omega arith);
  no_key = refl;
  no_shift = refl;
  not_taken = refl;
  no_input = refl;
  no_output = refl;
  no_hand = refl;
  not_pressed = refl;
  not_delivered = refl;
}

-- The controller that sends the scancode of `a`.
abbrev sends_a : Device
sends_a t port = 0x1E

abbrev a_typed : Keyboard
a_typed = record no_keys { char_buffer = set (replicate 500 0) 0 b'a'; current_char_in = 1 }

a_key : keyboard_isr sends_a [] no_keys ≡ (ok a_typed, (keyboard_isr sends_a [] no_keys).1)
unfolding keyboard_isr keyboard_handler_c handle_scancode append_char scancode_to_char plain_char
    look_up scancode_map_indexes scancode_map_values inb
a_key = refl

-- The states after the key, and after the tick.
abbrev key_pressed : System
key_pressed = record start {
  terminal = record start.terminal { keyboard = a_typed };
  trace = (keyboard_isr sends_a [] no_keys).1;
  pressed = pressed_key sends_a [] ∷ [];
}

abbrev task_1 : System
task_1 = record key_pressed {
  tasks = (timer_isr 0x5000 key_pressed.trace two_tasks).0;
  trace = (timer_isr 0x5000 key_pressed.trace two_tasks).1;
}

to_task_1 : Reach start task_1
to_task_1 = next (next here (key sends_a a_key)) (tick 0x5000)

task_1_runs : task_1.tasks.running_task ≡ 1
unfolding timer_isr timer_handler schedule_next_task context_switch
task_1_runs = refl

history_lem_example :
    (visible (decode task_1.pressed).1 ≡ task_1.delivered ++ under_way task_1)
    × RoundRobin.IsValid task_1.tasks
    × Fifo.IsValid task_1.terminal.stdin
history_lem_example = history_lem start task_1 start-IsStart to_task_1

-- A line with one character is in the buffer.
abbrev line_typed : Memory
line_typed a = if a == 0xD00000 then b'a' else if a == 0xD00001 then 10 else 0

abbrev one_line : Stdin
one_line = record {
  memory = line_typed;
  in_count = 2;
  out_count = 0;
  peek_count = 0;
  new_line_count = 1;
}

read_line_lem_example : Reads one_line (read_line start.heap one_line)
read_line_lem_example =
    read_line_lem start.heap one_line (record { ordered = omega arith; fits = omega arith })
      (λ a. ground arith) (omega arith)

abbrev line_terminal : Terminal
line_terminal = record start.terminal { stdin = one_line }

echo_round_lem_example : Echoes 70000 start.heap line_terminal
echo_round_lem_example =
    echo_round_lem 70000 start.heap line_terminal
      (record { ordered = omega arith; fits = omega arith }) (λ a. ground arith) (omega arith)
      (record { x = omega arith; y = omega arith }) (omega arith, (omega arith, tt)) (omega arith)
      (omega arith)
