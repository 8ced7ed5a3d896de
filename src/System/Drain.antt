-- ===== src/System/Drain.antt =====
-- The tasks can always go on until the line buffer has everything.
use my_operating_system.Base.{◌≡◌}
use my_operating_system.Tasks.{Tasks}
use my_operating_system.Tasks.RoundRobin
use my_operating_system.System.{empty, System, Reach}

-- A state that the tasks reach from `s` alone, with no key in between.
record Later (s t : System) : Type 0 where
  reach : Reach s t
  pressed : t.pressed ≡ s.pressed
  keyboard : t.terminal.keyboard ≡ s.terminal.keyboard
  hand : t.hand ≡ empty
