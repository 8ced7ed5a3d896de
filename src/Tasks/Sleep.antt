-- ===== src/Tasks/Sleep.antt =====
-- `k_sleep` of kernel/main.c, whose loop reads the counter of the timer interrupt.
use my_operating_system.Base.{
  ℕ, ◌+◌, ◌^◌, ◌≤◌, ◌<◌, ◌≡◌, ◌∙◌, arith, List, [], ◌∷◌, length, ltb, false,
}
use my_operating_system.Tasks.{
  Tasks, timer_handler, schedule_next_task, context_switch, k_sleep_waits,
}
use my_operating_system.Tasks.RoundRobin.{ticks}

k_ticks-timer_handler :
    (esp : ℕ) (t : Tasks) → t.k_ticks + 1 < 2 ^ 32 → (timer_handler esp t).k_ticks ≡ t.k_ticks + 1
unfolding timer_handler schedule_next_task context_switch
k_ticks-timer_handler esp t h = ground arith

k_ticks-ticks :
    (es : List ℕ) (t : Tasks)
    → t.k_ticks + length es < 2 ^ 32
    → (ticks es t).k_ticks ≡ t.k_ticks + length es
unfolding ticks
k_ticks-ticks [] t h = omega arith
k_ticks-ticks (esp ∷ es) t h =
    let one = k_ticks-timer_handler esp t (omega (arith, h)) in
    k_ticks-ticks es (timer_handler esp t) (omega (arith, h, one)) ∙ omega (arith, one)

-- A call of `k_sleep` for `ms` waits exactly as long as fewer than `ms` ticks have come since it
-- started, in critical sections or not, while neither the counter nor its target reaches 2^32.
pub sleep_lem :
    (es : List ℕ) (t : Tasks) (ms : ℕ)
    → t.k_ticks + ms < 2 ^ 32
    → t.k_ticks + length es < 2 ^ 32
    → k_sleep_waits t.k_ticks ms (ticks es t).k_ticks ≡ ltb (length es) ms
unfolding k_sleep_waits
sleep_lem es t ms target counter = let now = k_ticks-ticks es t counter in rw now (ground arith)

-- If the target does not fit into 32 bits, the call does not wait at all.
pub sleep_wraps :
    (start ms : ℕ)
    → start < 2 ^ 32
    → ms < 2 ^ 16
    → 2 ^ 32 ≤ start + ms
    → k_sleep_waits start ms start ≡ false
unfolding k_sleep_waits
sleep_wraps start ms h h' wraps = ground arith
