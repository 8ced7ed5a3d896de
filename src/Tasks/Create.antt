-- ===== src/Tasks/Create.antt =====
-- The tasks that `k_setup_tasks` makes, and the stacks that they get.
use my_operating_system.Base.{
  ℕ, ◌+◌, ◌-◌, ◌*◌, ◌≤◌, ◌<◌, ◌≡◌, refl, ◌∙◌, arith, set, get_or, length-set, get_or-set_ne,
  get_or-set_self,
}
use my_operating_system.Heap.{Heap, malloc}
use my_operating_system.Tasks.{Tasks, max_tasks, k_create_task, stack_top}
use my_operating_system.Tasks.RoundRobin.{IsValid}

-- With a place left, `k_create_task` keeps the scheduler valid, and the new task's saved stack
-- pointer and the eleven words above it lie in the 4128 bytes from the block's address on, with
-- the tasks before it unchanged.
pub k_create_task_lem :
    (h : Heap) (t : Tasks)
    → IsValid t
    → t.task_count < max_tasks
    → let raw = (malloc (4096 + 32) h).0 in
      let t' = (k_create_task h t).1 in
      let esp = get_or t'.task_list t.task_count 0 in
      IsValid t'
      × (t'.task_count ≡ t.task_count + 1)
      × (raw ≤ esp)
      × (esp + 11 * 4 ≤ raw + 4128)
      × ((i : ℕ) → i < t.task_count → get_or t'.task_list i 0 ≡ get_or t.task_list i 0)
unfolding k_create_task
k_create_task_lem h t v room = (
  record {
    places = length-set t.task_list t.task_count sp ∙ v.places;
    some_task = omega arith;
    at_most = omega arith;
    in_range = omega (arith, v.in_range);
    running = v.running;
  },
  refl,
  omega (arith, saved),
  omega (arith, saved),
  λ i lt. get_or-set_ne t.task_list t.task_count i sp 0 (λ e. absurd (omega arith)),
)
  where
    sp : ℕ
    sp = stack_top (malloc (4096 + 32) h).0 - 11 * 4

    saved : get_or (set t.task_list t.task_count sp) t.task_count 0 ≡ sp
    saved = get_or-set_self t.task_list t.task_count sp 0 (omega (arith, v.places))
