-- ===== src/Tasks.antt =====
-- The scheduler (kernel/tasks/tasks.c) and the timer interrupt that drives it
-- (kernel/IDT/ISRs/timer/timer.c). A switch of stacks is assembly; the model keeps which task
-- each saved stack pointer belongs to and which task runs.
pub mod Sleep
pub mod RoundRobin
pub mod Create
use my_operating_system.Base.{
  ℕ, zero, suc, ◌+◌, ◌-◌, ◌*◌, ◌/◌, ◌%◌, Bool, List, [], ◌∷◌, ltb, ◌==◌, if◌then◌else◌, u32, set,
  replicate,
}
use my_operating_system.Heap.{Heap, malloc}
use my_operating_system.Io.{Trace, outb}

-- `task_list` has six places.
abbrev pub max_tasks : ℕ
max_tasks = 6

pub record Tasks : Type 0 where
  pub task_list : List ℕ
  pub current_index : ℕ
  pub task_count : ℕ
  pub critical : ℕ
  pub running_task : ℕ
  pub k_ticks : ℕ

-- The values that the variables have at load time.
abbrev pub boot : Tasks
boot = record {
  task_list = replicate max_tasks 0;
  current_index = 0;
  task_count = 1;
  critical = 0;
  running_task = 0;
  k_ticks = 0;
}

-- The argument of the source is the place of the new stack pointer in `task_list`. `esp`, the stack
-- pointer behind the pushed registers, is stored at the place of the running task.
unfoldable pub context_switch : ℕ → ℕ → Tasks → Tasks
context_switch esp next t = record t {
  task_list = set t.task_list t.running_task esp;
  running_task = next;
}

unfoldable pub schedule_next_task : ℕ → Tasks → Tasks
unfolding context_switch
schedule_next_task esp t =
    let next_index = (t.current_index + 1) % t.task_count in
    if ltb 0 t.critical
    then t
    else if next_index == t.current_index
    then t
    else context_switch esp next_index (record t { current_index = next_index })

unfoldable pub timer_handler : ℕ → Tasks → Tasks
timer_handler esp t =
    let t' = record t { k_ticks = u32 (t.k_ticks + 1) } in
    if t'.k_ticks % 1 == 0 then schedule_next_task esp t' else t'

-- The handler's entry point: it ends the interrupt at both controllers before it calls the handler.
unfoldable pub timer_isr : ℕ → Trace → Tasks → Tasks × Trace
unfolding outb timer_handler
timer_isr esp trace t = (timer_handler esp t, outb 0xA0 0x20 (outb 0x20 0x20 trace))

unfoldable pub enter_critical : Tasks → Tasks
enter_critical t = record t { critical = u32 (t.critical + 1) }

unfoldable pub exit_critical : Tasks → Tasks
exit_critical t = if ltb 0 t.critical then record t { critical = t.critical - 1 } else t

-- `(raw + 4096) & ~0xF`
abbrev pub stack_top : ℕ → ℕ
stack_top raw = (raw + 4096) / 16 * 16

-- Eleven words are pushed below the aligned top. The model has their place, not their values: they
-- are read by the assembly of the switch only.
unfoldable pub k_create_task : Heap → Tasks → Heap × Tasks
k_create_task h t =
    let (raw, h') = malloc (4096 + 32) h in
    (
      h',
      record t {
        task_list = set t.task_list t.task_count (stack_top raw - 11 * 4);
        task_count = t.task_count + 1;
      },
    )

-- The condition of the loop of `k_sleep` (kernel/main.c), started at `start_ms`.
unfoldable pub k_sleep_waits : ℕ → ℕ → ℕ → Bool
k_sleep_waits start_ms ms now = ltb now (u32 (start_ms + ms))
