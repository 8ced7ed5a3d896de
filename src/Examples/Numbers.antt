-- ===== src/Examples/Numbers.antt =====
-- The divisions at concrete numbers, with a processor that divides as its manual says.
use my_operating_system.Base.{
  ◌+◌, ◌*◌, ◌/◌, ◌%◌, ◌^◌, ◌≤◌, ◌<◌, ◌≡◌, ◌⊎◌, arith, none, some, ltb, if◌then◌else◌,
}
use native.Mathlib.Nat.{mod-lt, mod-add-div'}
use my_operating_system.Division.{Divide, IsDivl, udivdi3, umoddi3}
use my_operating_system.Division.Words.{udivdi3-fits}

abbrev processor : Divide
processor high low divisor =
    if ltb high divisor
    then some ((high * 2 ^ 32 + low) / divisor, (high * 2 ^ 32 + low) % divisor)
    else none

processor-IsDivl : IsDivl processor
processor-IsDivl = record {
  divides = λ high low divisor lt _ _. (
    (high * 2 ^ 32 + low) / divisor,
    (high * 2 ^ 32 + low) % divisor,
    ground (arith, lt),
    mod-add-div' (high * 2 ^ 32 + low) divisor,
    mod-lt (high * 2 ^ 32 + low) (omega (arith, lt)),
  );
  error = λ high low divisor ge. ground (arith, ge);
}

udivdi3-fits_example :
    ((10000000000 / 10 < 2 ^ 32)
      × (udivdi3 processor 10000000000 10 ≡ some (10000000000 / 10))
      × (umoddi3 processor 10000000000 10 ≡ some (10000000000 % 10)))
    ⊎ ((2 ^ 32 ≤ 10000000000 / 10)
        × (udivdi3 processor 10000000000 10 ≡ none)
        × (umoddi3 processor 10000000000 10 ≡ none))
udivdi3-fits_example =
    udivdi3-fits processor 10000000000 10 processor-IsDivl (omega arith) (omega arith) (omega arith)
