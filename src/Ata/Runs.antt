-- ===== src/Ata/Runs.antt =====
-- What the statements of `ata_identify` keep: the memory, and the errors that they report.
use my_operating_system.Base.{ℕ, ◌≡◌, ◌⊎◌, refl, Bool, true, false, Option, none, some}
use my_operating_system.Memory.{Memory}
use my_operating_system.Io.{Device}
use my_operating_system.Ata.{
  Ata, Action, ◌>>=◌, AtaError, err_invalid_arg, err_no_device, err_device_fault, err_not_ata,
  ata_fail, reject, out_byte, in_byte, ata_wait_400ns,
}
use my_operating_system.Ata.Init.{set_ata_last_error, or_error}

-- What holds when an action yields a value, and when it stops.
abbrev pub Ends : {A : Type 0} → (A → Ata → Type 0) → (Ata → Type 0) → Option A × Ata → Type 0
Ends P E (none, s) = E s
Ends P E (some a, s) = P a s

-- The memory is that of `m`.
abbrev pub Kept : Memory → Ata → Type 0
Kept m s = (x : ℕ) → s.memory x ≡ m x

-- The errors that `ata_identify` reports itself.
abbrev pub IsIdentifyError : AtaError → Type 0
IsIdentifyError e =
    (e ≡ err_invalid_arg) ⊎ (e ≡ err_no_device) ⊎ (e ≡ err_device_fault) ⊎ (e ≡ err_not_ata)

abbrev pub Refused : Memory → Ata → Type 0
Refused m s = Kept m s × IsIdentifyError s.last_error

pub bind-Ends :
    {A B : Type 0} (P : A → Ata → Type 0) (Q : B → Ata → Type 0) (E : Ata → Type 0) (a : Action A)
    (k : A → Action B) (s : Ata)
    → Ends P E (a s)
    → ((v : A) (t : Ata) → P v t → Ends Q E (k v t))
    → Ends Q E ((a >>= k) s)
bind-Ends {A = A} {B = B} P Q E a k s p h = go (a s) p
  where
    go :
        (r : Option A × Ata)
        → Ends P E r
        → Ends Q E (elim r.0 as (λ _. Option B × Ata) [ none ↦ (none, r.1) | some v ↦ k v r.1 ])
    go (none, t) e = e
    go (some v, t) e = h v t e

-- From a state with the memory of `m`, an action keeps it or reaches `Q`; if it stops, it has kept
-- the memory and reported one of the errors.
pub record Runs (m : Memory) {B : Type 0} (Q : B → Ata → Type 0) (a : Action B) : Type 0 where
  pub run : (s : Ata) → Kept m s → Ends Q (Refused m) (a s)

module _ {m : Memory} where
  pub bind :
      {A B : Type 0} {Q : B → Ata → Type 0} {a : Action A} {k : A → Action B}
      → Runs m (λ (_ : A) (s : Ata). Kept m s) a
      → ((v : A) → Runs m Q (k v))
      → Runs m Q (a >>= k)
  bind {A = A} {Q = Q} {a = a} {k = k} ra rk = record {
    run = λ s kept.
        bind-Ends (λ (_ : A) (t : Ata). Kept m t) Q (Refused m) a k s (ra.run s kept)
          (λ v t kt. (rk v).run t kt);
  }

  pub in_byte-Runs :
      (dev : Device) (port : ℕ) → Runs m (λ (_ : ℕ) (s : Ata). Kept m s) (in_byte dev port)
  in_byte-Runs dev port = record { run = λ s kept. kept }

  pub out_byte-Runs : (port v : ℕ) → Runs m (λ (_ : Unit {0}) (s : Ata). Kept m s) (out_byte port v)
  out_byte-Runs port v = record { run = λ s kept. kept }

  pub set_error-Runs :
      (e : AtaError) → Runs m (λ (_ : Unit {0}) (s : Ata). Kept m s) (set_ata_last_error e)
  unfolding set_ata_last_error
  set_error-Runs e = record { run = λ s kept. kept }

  pub ata_wait_400ns-Runs :
      (dev : Device) (io : ℕ) → Runs m (λ (_ : ℕ) (s : Ata). Kept m s) (ata_wait_400ns dev io)
  unfolding ata_wait_400ns
  ata_wait_400ns-Runs dev io = record { run = λ s kept. kept }

  pub rejected :
      (b : Bool) (e : AtaError) (s : Ata)
      → IsIdentifyError e
      → Kept m s
      → Ends (λ (_ : Unit {0}) (s : Ata). Kept m s) (Refused m) (reject b e s)
  unfolding reject ata_fail
  rejected true e s is kept = (kept, is)
  rejected false e s is kept = kept

  pub reject-Runs :
      (b : Bool) (e : AtaError)
      → IsIdentifyError e
      → Runs m (λ (_ : Unit {0}) (s : Ata). Kept m s) (reject b e)
  reject-Runs b e is = record { run = λ s kept. rejected b e s is kept }

  -- A call whose failure is reported by an error of its own.
  pub or_error-Ends :
      {A : Type 0} (P : A → Ata → Type 0) (a : Action A) (e : AtaError) (s : Ata)
      → IsIdentifyError e
      → Kept m (a s).1
      → ((v : A) → (a s).0 ≡ some v → P v (a s).1)
      → Ends P (Refused m) (or_error a e s)
  unfolding or_error ata_fail
  or_error-Ends {A = A} P a e s is kept h = go (a s) kept h
    where
      go :
          (r : Option A × Ata)
          → Kept m r.1
          → ((v : A) → r.0 ≡ some v → P v r.1)
          → Ends P
              (Refused m)
              (elim r.0 as (λ _. Option A × Ata) [ none ↦ ata_fail e r.1 | some v ↦ (some v, r.1) ])
      go (none, t) kept h = (kept, is)
      go (some v, t) kept h = h v refl
