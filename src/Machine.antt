-- ===== src/Machine.antt =====
-- What the functions of the second boot stage share: the heap, the memory, the drive, the error
-- variables and the cursor. A function is an action on this state. `none` means that a NULL pointer was followed,
-- or that the rounds given to a loop ran out.
use my_operating_system.Base.{
  ℕ, ◌≡◌, ap, ◌+◌, ◌*◌, ◌^◌, Option, none, some, ◌==◌, if◌then◌else◌, ◌>>>◌,
}
use my_operating_system.Memory.{Memory, write}
use my_operating_system.Heap.{Heap, zalloc, realloc, free}
use my_operating_system.Io.{Device}
use my_operating_system.Ata.{Ata, ata_primary, pio28_read}
use my_operating_system.Text.{StrError}
use my_operating_system.Fat.{FatError, ok}

pub record Machine : Type 0 where
  pub ata : Ata
  pub heap : Heap
  pub fat_error : FatError
  pub str_error : StrError
  pub cursor_x : ℕ
  pub cursor_y : ℕ

abbrev pub M : Type 0 → Type 0
M A = Machine → Option (A × Machine)

abbrev pub pure : {A : Type 0} → A → M A
pure a s = some (a, s)

infixl 5 ◌>>=◌ ◌>>◌
abbrev pub ◌>>=◌ : {A B : Type 0} → M A → (A → M B) → M B
◌>>=◌ m k s = elim (m s) [ none ↦ none | some (a, s') ↦ k a s' ]

abbrev pub ◌>>◌ : {B : Type 0} → M (Unit {0}) → M B → M B
m >> k = m >>= λ _. k

-- A sequence goes on with what its first action yields.
pub bind-ran :
    {A B : Type 0}
    → (m : M A) (k : A → M B) (s s' : Machine) (a : A) → m s ≡ some (a, s')
    → (m >>= k) s ≡ k a s'
bind-ran m k s s' a e = ap (λ r. elim r [ none ↦ none | some (a', t) ↦ k a' t ]) e

abbrev pub with_memory : Machine → Memory → Machine
with_memory s m = record s { ata = record s.ata { memory = m } }

abbrev pub on_heap : ℕ × Heap × Memory → M ℕ
on_heap (p, h, m) s = some (p, record s { heap = h; ata = record s.ata { memory = m } })

unfoldable pub call_zalloc : ℕ → M ℕ
call_zalloc size s = on_heap (zalloc size s.heap s.ata.memory) s

unfoldable pub call_realloc : ℕ → ℕ → M ℕ
call_realloc p size s = on_heap (realloc p size s.heap s.ata.memory) s

unfoldable pub call_free : ℕ → M (Unit {0})
call_free p s = some (tt, record s { heap = free p s.heap })

-- A pointer that is followed.
abbrev pub follow : ℕ → M (Unit {0})
follow p s = if p == 0 then none else some (tt, s)

abbrev pub load : ℕ → M ℕ
load p s = some (s.ata.memory p, s)

-- `uint16_t` and `uint32_t`, low byte first.
abbrev pub word_at : Memory → ℕ → ℕ
word_at m p = m p + m (p + 1) * 2 ^ 8

abbrev pub long_at : Memory → ℕ → ℕ
long_at m p = word_at m p + word_at m (p + 2) * 2 ^ 16

abbrev pub load_word : ℕ → M ℕ
load_word p s = some (word_at s.ata.memory p, s)

abbrev pub load_long : ℕ → M ℕ
load_long p s = some (long_at s.ata.memory p, s)

abbrev pub change_memory : (Memory → ℕ × Memory) → M ℕ
change_memory f s = let (a, m) = f s.ata.memory in some (a, with_memory s m)

unfoldable pub store : ℕ → ℕ → M (Unit {0})
store p v s = some (tt, with_memory s (write s.ata.memory p v))

-- The store of a pointer, low byte first.
unfoldable pub write_long : Memory → ℕ → ℕ → Memory
write_long m p v =
    write (write (write (write m p v) (p + 1) (v >>> 8)) (p + 2) (v >>> 16)) (p + 3) (v >>> 24)

unfoldable pub store_long : ℕ → ℕ → M (Unit {0})
store_long p v s = some (tt, with_memory s (write_long s.ata.memory p v))

unfoldable pub fat16_ok : M (Unit {0})
fat16_ok s = some (tt, record s { fat_error = ok })

unfoldable pub fat16_fail : FatError → M (Unit {0})
fat16_fail e s = some (tt, record s { fat_error = e })

unfoldable pub str_set_error : StrError → M (Unit {0})
str_set_error e s = some (tt, record s { str_error = e })

-- A read of the primary drive whose result the caller does not look at.
unfoldable pub call_pio28_read : Device → ℕ → ℕ → ℕ → M (Unit {0})
call_pio28_read dev dest sectors lba s =
    some (tt, record s { ata = (pio28_read dev dest ata_primary sectors lba s.ata).1 })
