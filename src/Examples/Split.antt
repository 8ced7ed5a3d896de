-- ===== src/Examples/Split.antt =====
-- The theorem on `strsplit` at a concrete path.
use my_operating_system.Base.{◌+◌, ◌^◌, ◌==◌, ◌<◌, [], ◌∷◌, inl, refl, arith, if◌then◌else◌}
use my_operating_system.Memory.{Memory}
use my_operating_system.Memory.Blocks.{IsBytes}
use my_operating_system.Heap.{mem_init}
use my_operating_system.Heap.Valid.{mem_init-IsValid}
use my_operating_system.Ata.{no_error}
use my_operating_system.Fat.{ok}
use my_operating_system.Text.{str_none}
use my_operating_system.Text.Split.{strsplit}
use my_operating_system.Text.Split.Rounds.{SplitInto}
use my_operating_system.Text.Split.Loop.{strsplit_lem}
use my_operating_system.Machine.{Machine}
use my_operating_system.Examples.Blocks.{start}

-- "a//bc" at 0x500
abbrev path : Memory
path x =
    if x == 0x500
    then b'a'
    else if x == 0x501
    then b'/'
    else if x == 0x502
    then b'/'
    else if x == 0x503
    then b'b'
    else if x == 0x504
    then b'c'
    else 0

abbrev with_path : Machine
with_path = record {
  ata = record { trace = []; last_error = no_error; memory = path };
  heap = mem_init start;
  fat_error = ok;
  str_error = str_none;
  cursor_x = 0;
  cursor_y = 0;
}

path-IsBytes : IsBytes path
path-IsBytes a = ground arith

empty_heap : (mem_init start).heap_top + 162 < 2 ^ 16
unfolding mem_init
empty_heap = omega arith

strsplit_lem_example :
    SplitInto
      (mem_init start)
      path
      ((b'a' ∷ []) ∷ (b'b' ∷ b'c' ∷ []) ∷ [])
      (strsplit 6 0x500 b'/' with_path)
strsplit_lem_example =
    strsplit_lem 6 0x500 b'/' 5 with_path (mem_init-IsValid start) path-IsBytes (omega arith)
      (omega arith, (omega arith, (omega arith, (omega arith, (omega arith, refl))))) (omega arith)
      (inl (omega arith)) empty_heap
