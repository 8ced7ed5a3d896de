-- ===== src/System/Start.antt =====
-- The kernel's start leads to a state in which the histories of the running kernel begin.
use mathlib.Core.Path.{subst}
use my_operating_system.Base.{
  ℕ, zero, suc, ◌+◌, ◌^◌, ◌<◌, ◌≡◌, refl, sym, ap, ◌∙◌, arith, false, List, [], ◌∷◌, replicate,
  length-replicate, get_or-replicate,
}
use my_operating_system.Memory.{Memory}
use my_operating_system.Memory.Blocks.{IsBytes, write-IsBytes}
use my_operating_system.Io.{Device}
use my_operating_system.Heap.{Heap, malloc}
use my_operating_system.Tasks.{Tasks, boot, max_tasks, k_create_task}
use my_operating_system.Tasks.RoundRobin
use my_operating_system.Tasks.Create.{k_create_task_lem}
use my_operating_system.Screen.{Screen, blank, clear_screen, print_string, put_char}
use my_operating_system.Screen.Cursor.{OnScreen, put_char-OnScreen}
use my_operating_system.Setup.{
  Kernel, Image, k_init, k_main, k_setup_tasks, kernel_setup_interrupts, init_keyboard_irq,
  init_timer_irq, kernel_start, create, hello,
}
use my_operating_system.Stdin.Line.{malloc_range}
use my_operating_system.System.{System, empty}
use my_operating_system.System.Bytes.{put_char-IsBytes}
use my_operating_system.System.History.{IsStart}

blank-IsBytes : (a n : ℕ) (m : Memory) → IsBytes m → IsBytes (blank a n m)
unfolding blank
blank-IsBytes a zero m b = b
blank-IsBytes a (suc n) m b =
    blank-IsBytes (a + 2) n _ (write-IsBytes _ (a + 1) 0x00 (write-IsBytes m a b' ' b))

-- A screen in a memory of bytes, with the cursor on it.
abbrev IsShown : Screen → Type 0
IsShown s = OnScreen s × IsBytes s.memory

clear_screen-IsShown : (s : Screen) → IsBytes s.memory → IsShown (clear_screen s)
unfolding clear_screen
clear_screen-IsShown s b =
    (record { x = omega arith; y = omega arith }, blank-IsBytes _ _ s.memory b)

print_string-IsShown : (cs : List ℕ) (s : Screen) → IsShown s → IsShown (print_string cs s)
unfolding print_string
print_string-IsShown [] s h = h
print_string-IsShown (c ∷ cs) s (on, b) =
    print_string-IsShown cs (put_char c 0x04 s)
      (put_char-OnScreen c 0x04 s on, put_char-IsBytes c 0x04 s b)

-- The scheduler has `n` tasks and runs the first, and the heap's top is in 16 bits.
abbrev HasTasks : ℕ → Kernel → Type 0
HasTasks n s =
    RoundRobin.IsValid s.tasks
    × (s.tasks.task_count ≡ n)
    × (s.tasks.critical ≡ 0)
    × (s.heap.heap_top < 2 ^ 16)
    × (s.tasks.running_task ≡ 0)

heap-k_create_task : (h : Heap) (t : Tasks) → (k_create_task h t).0 ≡ (malloc (4096 + 32) h).1
unfolding k_create_task
heap-k_create_task h t = refl

critical-k_create_task : (h : Heap) (t : Tasks) → (k_create_task h t).1.critical ≡ t.critical
unfolding k_create_task
critical-k_create_task h t = refl

running-k_create_task : (h : Heap) (t : Tasks) → (k_create_task h t).1.running_task ≡ t.running_task
unfolding k_create_task
running-k_create_task h t = refl

create-HasTasks : (n : ℕ) (s : Kernel) → n < max_tasks → HasTasks n s → HasTasks (n + 1) (create s)
create-HasTasks n s lt (v, e, free, top, run) =
    let (valid, count, _, _, _) = k_create_task_lem s.heap s.tasks v (omega (arith, lt, e)) in
    let (top', _) = malloc_range (4096 + 32) s.heap top in
    (
      valid,
      omega (arith, count, e),
      critical-k_create_task s.heap s.tasks ∙ free,
      omega (arith, ap (λ (h : Heap). h.heap_top) (heap-k_create_task s.heap s.tasks), top'),
      running-k_create_task s.heap s.tasks ∙ run,
    )

k_setup_tasks-HasTasks : (s : Kernel) → HasTasks 1 s → HasTasks 6 (k_setup_tasks s)
unfolding k_setup_tasks
k_setup_tasks-HasTasks s h =
    let s2 = create s in
    let s3 = create s2 in
    let s4 = create s3 in
    let s5 = create s4 in
    create-HasTasks 5 s5 (omega arith) (
      create-HasTasks 4 s4 (omega arith) (
        create-HasTasks 3 s3 (omega arith)
          (create-HasTasks 2 s2 (omega arith) (create-HasTasks 1 s (omega arith) h))))

screen-k_setup_tasks : (s : Kernel) → (k_setup_tasks s).screen ≡ s.screen
unfolding k_setup_tasks
screen-k_setup_tasks s = refl

k_init-kept :
    (image : Image) (dev : Device) (s : Kernel)
    → let s' = k_init image dev s in
      (s'.tasks ≡ s.tasks) × (s'.heap ≡ s.heap) × (s'.screen ≡ s.screen)
unfolding k_init kernel_setup_interrupts init_keyboard_irq init_timer_irq
k_init-kept image dev s = (refl, refl, refl)

-- The running kernel in the state that the start leaves: no key has been pressed, and the buffers of
-- the keyboard and of the input have the values of load time.
abbrev pub running : Kernel → System
running s = record {
  tasks = s.tasks;
  trace = s.trace;
  heap = s.heap;
  terminal = record {
    keyboard = record {
      scancode_buffer = replicate 1000 0;
      char_buffer = replicate 500 0;
      current_scancode_in = 0;
      current_char_in = 0;
      is_l_shifted = false;
    };
    current_char_out = 0;
    screen = s.screen;
    stdin = record {
      memory = s.screen.memory;
      in_count = 0;
      out_count = 0;
      peek_count = 0;
      new_line_count = 0;
    };
  };
  hand = empty;
  pressed = [];
  delivered = [];
}

boot-IsValid : RoundRobin.IsValid boot
boot-IsValid = record {
  places = length-replicate {A = ℕ} max_tasks 0;
  some_task = omega arith;
  at_most = omega arith;
  in_range = omega arith;
  running = refl;
}

k_init-HasTasks :
    (image : Image) (dev : Device) (s : Kernel)
    → s.tasks ≡ boot
    → s.heap.heap_top < 2 ^ 16
    → HasTasks 1 (k_init image dev s)
k_init-HasTasks image dev s e top =
    let (tasks, heap, _) = k_init-kept image dev s in
    let same : (k_init image dev s).tasks ≡ boot = tasks ∙ e in
    (
      subst RoundRobin.IsValid (sym same) boot-IsValid,
      ap (λ (t : Tasks). t.task_count) same,
      ap (λ (t : Tasks). t.critical) same,
      subst (λ (h : Heap). h.heap_top < 2 ^ 16) (sym heap) top,
      ap (λ (t : Tasks). t.running_task) same,
    )

k_main-HasTasks : (s : Kernel) → HasTasks 1 s → HasTasks 6 (k_main s)
unfolding k_main
k_main-HasTasks s h =
    k_setup_tasks-HasTasks (record s { screen = print_string hello (clear_screen s.screen) }) h

k_main-IsShown : (s : Kernel) → IsBytes s.screen.memory → IsShown (k_main s).screen
unfolding k_main
k_main-IsShown s b =
    subst IsShown
      (sym
        (screen-k_setup_tasks (record s { screen = print_string hello (clear_screen s.screen) })))
      (print_string-IsShown hello (clear_screen s.screen) (clear_screen-IsShown s.screen b))

-- From the values of load time, over a memory of bytes, the kernel's start, if no interrupt comes
-- before its end, leads to a state with six tasks, of which task 0, the main loop, is running, from
-- which the histories of the running kernel begin.
pub kernel_start_lem :
    (image : Image) (dev : Device) (s : Kernel)
    → s.tasks ≡ boot
    → s.heap.heap_top < 2 ^ 16
    → IsBytes s.screen.memory
    → let s' = kernel_start image dev s in
      IsStart (running s') × (s'.tasks.task_count ≡ 6) × (s'.tasks.running_task ≡ 0)
unfolding kernel_start
kernel_start_lem image dev s e top b =
    let k = k_init image dev s in
    let (_, _, screen) = k_init-kept image dev s in
    let (valid, count, free, top', run) = k_main-HasTasks k (k_init-HasTasks image dev s e top) in
    let (on, bytes) = k_main-IsShown k (subst (λ (v : Screen). IsBytes v.memory) (sym screen) b) in
    (
      record {
        tasks = valid;
        free = free;
        task_1 = omega (arith, count);
        screen = on;
        bytes = bytes;
        top = top';
        places = length-replicate {A = ℕ} 500 0;
        small = λ i. rw (get_or-replicate {A = ℕ} 500 0 i) (omega arith);
        no_key = refl;
        no_shift = refl;
        not_taken = refl;
        no_input = refl;
        no_output = refl;
        no_hand = refl;
        not_pressed = refl;
        not_delivered = refl;
      },
      count,
      run,
    )
