-- ===== src/Tasks/RoundRobin.antt =====
-- The order in which the scheduler runs the tasks, under every sequence of timer ticks and of
-- entries to and exits from critical sections.
use my_operating_system.Base.{
  ℕ, zero, suc, ◌+◌, ◌-◌, ◌∙◌, ◌%◌, ◌^◌, ◌≤◌, ◌<◌, ◌≡◌, refl, ap, arith, List, [], ◌∷◌, length,
  length-set,
}
use native.Mathlib.Decide.{dec_lt}
use native.Mathlib.Nat.{add-mod_right, mod-add-mod, mod-eq_of_lt, add-zero}
use my_operating_system.Tasks.{
  Tasks, max_tasks, context_switch, schedule_next_task, timer_handler, enter_critical,
  exit_critical,
}

pub record IsValid (t : Tasks) : Type 0 where
  pub places : length t.task_list ≡ max_tasks
  pub some_task : 0 < t.task_count
  pub at_most : t.task_count ≤ max_tasks
  pub in_range : t.current_index < t.task_count
  pub running : t.running_task ≡ t.current_index

pub timer_handler-IsValid : (esp : ℕ) (t : Tasks) → IsValid t → IsValid (timer_handler esp t)
unfolding timer_handler schedule_next_task context_switch
timer_handler-IsValid esp t v = ground (arith, length-set t.task_list t.running_task esp)

-- Outside of critical sections each tick makes the next task current, going round.
pub timer_handler-current :
    (esp : ℕ) (t : Tasks)
    → IsValid t
    → t.critical ≡ 0
    → let t' = timer_handler esp t in
      (t'.current_index ≡ (t.current_index + 1) % t.task_count)
      × (t'.task_count ≡ t.task_count)
      × (t'.critical ≡ 0)
unfolding timer_handler schedule_next_task context_switch
timer_handler-current esp t v c = ground arith

-- The ticks of the timer, with the stack pointer that each finds.
unfoldable pub ticks : List ℕ → Tasks → Tasks
ticks [] t = t
ticks (esp ∷ es) t = ticks es (timer_handler esp t)

add_mod_step : (c n k : ℕ) → ((c + 1) % k + n) % k ≡ (c + suc n) % k
add_mod_step c n k = rw mod-add-mod (ap (λ (t : ℕ). t % k) (omega arith))

-- After `n` ticks outside of critical sections the current and running task is the one `n` places
-- on, modulo the number of tasks: none is left out, and none runs twice in one round.
pub ticks_lem :
    (es : List ℕ) (t : Tasks)
    → IsValid t
    → t.critical ≡ 0
    → let t' = ticks es t in
      (t'.current_index ≡ (t.current_index + length es) % t.task_count)
      × (t'.running_task ≡ t'.current_index)
      × IsValid t'
unfolding ticks
ticks_lem [] t v c = (rw (add-zero, mod-eq_of_lt v.in_range), v.running, v)
ticks_lem (esp ∷ es) t v c =
    let (cur, count, crit) = timer_handler-current esp t v c in
    let (end, runs, valid) =
      ticks_lem es (timer_handler esp t) (timer_handler-IsValid esp t v) crit in
    (
      ground (arith, end, cur, count, add_mod_step t.current_index (length es) t.task_count),
      runs,
      valid,
    )

-- In a critical section a tick counts and switches nothing.
critical_tick :
    (esp : ℕ) (t : Tasks)
    → 0 < t.critical
    → let t' = timer_handler esp t in
      (t'.current_index ≡ t.current_index)
      × (t'.running_task ≡ t.running_task)
      × (t'.task_list ≡ t.task_list)
      × (t'.critical ≡ t.critical)
unfolding timer_handler schedule_next_task context_switch
critical_tick esp t c = ground arith

critical_ticks :
    (es : List ℕ) (t : Tasks)
    → 0 < t.critical
    → let t' = ticks es t in
      (t'.current_index ≡ t.current_index)
      × (t'.running_task ≡ t.running_task)
      × (t'.task_list ≡ t.task_list)
      × (t'.critical ≡ t.critical)
unfolding ticks
critical_ticks [] t c = (refl, refl, refl, refl)
critical_ticks (esp ∷ es) t c =
    ground (arith, critical_tick esp t c, critical_ticks es (timer_handler esp t))

-- Whatever ticks fall between `enter_critical` and the matching `exit_critical`, the same task is
-- running after it with the same saved stacks, and the nesting depth is what it was.
pub critical_section :
    (es : List ℕ) (t : Tasks)
    → t.critical + 1 < 2 ^ 32
    → let t' = exit_critical (ticks es (enter_critical t)) in
      (t'.current_index ≡ t.current_index)
      × (t'.running_task ≡ t.running_task)
      × (t'.task_list ≡ t.task_list)
      × (t'.critical ≡ t.critical)
unfolding enter_critical exit_critical
critical_section es t h = ground (arith, critical_ticks es (enter_critical t))

-- The first `n` stack pointers of a stream.
pub first : ℕ → (ℕ → ℕ) → List ℕ
first zero sp = []
first (suc n) sp = sp 0 ∷ first n (λ i. sp (i + 1))

length-first : (n : ℕ) (sp : ℕ → ℕ) → length (first n sp) ≡ n
unfolding first
length-first zero sp = refl
length-first (suc n) sp = ground (arith, length-first n (λ i. sp (i + 1)))

-- Ticks from one place to another, going round.
distance : (c i n : ℕ) → c < n → i < n → (k : ℕ) × (0 < k) × (k ≤ n) × ((c + k) % n ≡ i)
distance c i n hc hi =
    let within : i % n ≡ i = mod-eq_of_lt hi in
    elim (dec_lt c i) [
      | yes lt ↦ (i - c, omega arith, omega arith, ap (λ (t : ℕ). t % n) (omega arith) ∙ within)
      | no ge ↦ (
        i + n - c,
        omega arith,
        omega arith,
        ap (λ (t : ℕ). t % n) (omega arith) ∙ add-mod_right i n ∙ within,
      )
    ]

-- No task starves: outside of critical sections, whatever stack pointers the ticks find, each task
-- of the round runs again after at least one tick and at most as many ticks as there are tasks.
pub runs_again :
    (i : ℕ) (sp : ℕ → ℕ) (t : Tasks)
    → IsValid t
    → t.critical ≡ 0
    → i < t.task_count
    → (k : ℕ) × (0 < k) × (k ≤ t.task_count) × ((ticks (first k sp) t).running_task ≡ i)
runs_again i sp t v c h =
    let (k, pos, few, e) = distance t.current_index i t.task_count v.in_range h in
    let (cur, runs, valid) = ticks_lem (first k sp) t v c in
    (
      k,
      pos,
      few,
      runs ∙ cur ∙ ap (λ n. (t.current_index + n) % t.task_count) (length-first k sp) ∙ e,
    )
