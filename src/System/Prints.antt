-- ===== src/System/Prints.antt =====
-- What a task prints with `print_string` is a sequence of steps.
use my_operating_system.Base.{ℕ, ◌≡◌, refl, List, [], ◌∷◌}
use my_operating_system.Screen.{Screen, print_string}
use my_operating_system.Terminal.{Terminal, task_a, task_b, task_c, echo_greeting}
use my_operating_system.System.{System, print, print_char, Reach, here, next}
use my_operating_system.System.Round.{Reach-trans}

-- The screen as a task finds it, in the memory that it shares with the line buffer.
abbrev pub shared : Terminal → Screen
shared t = record t.screen { memory = t.stdin.memory }

-- A state that `s` reaches by printing alone, with the cursor and the memory of `drawn`.
pub record Printed (s : System) (drawn : Screen) (u : System) : Type 0 where
  pub reach : Reach s u
  pub x : u.terminal.screen.cursor_x ≡ drawn.cursor_x
  pub y : u.terminal.screen.cursor_y ≡ drawn.cursor_y
  pub memory : u.terminal.stdin.memory ≡ drawn.memory
  pub pressed : u.pressed ≡ s.pressed
  pub delivered : u.delivered ≡ s.delivered

-- A call of `print_string` by any task is a sequence of steps of the running kernel, between which
-- interrupts and other tasks may come; with none between them they leave the cursor and the memory
-- that the call leaves.
pub print_string-Reach :
    (cs : List ℕ) (s : System) → (u : System) × Printed s (print_string cs (shared s.terminal)) u
unfolding print_string
print_string-Reach [] s = (
  s,
  record { reach = here; x = refl; y = refl; memory = refl; pressed = refl; delivered = refl },
)
print_string-Reach (c ∷ cs) s =
    let t : System = record s { terminal = print c 0x04 s.terminal } in
    let (u, p) = print_string-Reach cs t in
    (
      u,
      record {
        reach = Reach-trans s t u (next here (print_char c 0x04)) p.reach;
        x = p.x;
        y = p.y;
        memory = p.memory;
        pressed = p.pressed;
        delivered = p.delivered;
      },
    )

-- So are the rounds of the tasks that print a letter, and the first words of `echo_task`.
pub letters-Reach :
    (s : System)
    → ((u : System) × Printed s (task_a (shared s.terminal)) u)
      × ((u : System) × Printed s (task_b (shared s.terminal)) u)
      × ((u : System) × Printed s (task_c (shared s.terminal)) u)
      × ((u : System) × Printed s (echo_greeting (shared s.terminal)) u)
unfolding task_a task_b task_c echo_greeting
letters-Reach s =
    (print_string-Reach _ s, print_string-Reach _ s, print_string-Reach _ s, print_string-Reach _ s)
