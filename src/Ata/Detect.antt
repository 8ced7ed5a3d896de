-- ===== src/Ata/Detect.antt =====
-- What `detect_devtype` of stage2/ATA_DRIVER/detect_device_type.c returns.
use my_operating_system.Base.{
  ℕ, leb, ◌+◌, ◌*◌, ◌≡◌, ◌≢◌, ◌≤◌, ◌⊎◌, ap, inl, inr, refl, arith, Option, none, some, true,
  Bool-cases, ◌==◌, ◌!=◌, ◌&&◌, ◌∷◌, bit_and, bit_or, u8, zero, suc,
}
use my_operating_system.Io
use my_operating_system.Io.{Device, Trace, input, out}
use my_operating_system.Ata.{
  Ata, AtaError, Drive, invalid_argument, bsy_timeout, no_error, bus_float, device_does_not_exist,
  reject, ata_fail, Action, ◌>>=◌, ◌>>◌, out_byte, in_byte,
}
use my_operating_system.Ata.Init.{ata_soft_reset, detect_devtype, device_type}
use my_operating_system.Ata.Wait.{LastRead}
use my_operating_system.Ata.Reset.{ata_soft_reset_lem}

-- The types that ATA.h names, by the two bytes of the signature.
abbrev pub IsType : ℕ → ℕ → ℕ → Type 0
IsType cl ch type =
    ((cl ≡ 0x14) × (ch ≡ 0xEB) × (type ≡ 5))
    ⊎ ((cl ≡ 0x69) × (ch ≡ 0x96) × (type ≡ 4))
    ⊎ ((cl ≡ 0) × (ch ≡ 0) × (type ≡ 3))
    ⊎ ((cl ≡ 0x3C) × (ch ≡ 0xC3) × (type ≡ 2))
    ⊎ (((cl ≢ 0x14) ⊎ (ch ≢ 0xEB))
        × ((cl ≢ 0x69) ⊎ (ch ≢ 0x96))
        × ((cl ≢ 0) ⊎ (ch ≢ 0))
        × ((cl ≢ 0x3C) ⊎ (ch ≢ 0xC3))
        × (type ≡ 1))

device_type-IsType : (cl ch : ℕ) → IsType cl ch (device_type cl ch)
unfolding device_type
device_type-IsType cl ch = ground arith

-- The accesses after the reset, the latest first: the drive is selected, four reads give it time,
-- and two read its signature.
abbrev pub selected : ℕ → Drive → Trace → Trace
selected slavebit ctrl t =
    input ctrl.dev_ctl
    ∷ input ctrl.dev_ctl
    ∷ input ctrl.dev_ctl
    ∷ input ctrl.dev_ctl
    ∷ out (ctrl.base + 6) (0xA0 + slavebit * 16)
    ∷ t

-- The two bytes that the drive answers after that.
abbrev pub cylinder_low : Device → ℕ → Drive → Trace → ℕ
cylinder_low dev slavebit ctrl t = (Io.inb dev (ctrl.base + 4) (selected slavebit ctrl t)).0

abbrev pub cylinder_high : Device → ℕ → Drive → Trace → ℕ
cylinder_high dev slavebit ctrl t =
    (Io.inb dev (ctrl.base + 5) (input (ctrl.base + 4) ∷ selected slavebit ctrl t)).0

-- The last read was of a status that is ready.
abbrev pub IsReset : Device → Drive → Ata → Type 0
IsReset dev ctrl s = LastRead dev ctrl.dev_ctl (λ v. (v ≢ 0xFF) × (bit_and v 0xC0 ≡ 0x40)) s

select_byte : (b : ℕ) → b ≤ 1 → u8 (bit_or 0xA0 (b * 16)) ≡ 0xA0 + b * 16
select_byte zero h = refl
select_byte (suc zero) h = refl
select_byte (suc (suc b)) h = absurd (omega arith)

-- What the signature after the reset comes to.
abbrev pub Signed : Device → ℕ → Drive → Ata → Option ℕ × Ata → Type 0
Signed dev slavebit ctrl u (o, s') =
    let cl = cylinder_low dev slavebit ctrl u.trace in
    let ch = cylinder_high dev slavebit ctrl u.trace in
    (s'.trace ≡ input (ctrl.base + 5) ∷ input (ctrl.base + 4) ∷ selected slavebit ctrl u.trace)
    × (((cl ≡ 0xFF) × (ch ≡ 0xFF) × (o ≡ none) × (s'.last_error ≡ device_does_not_exist))
        ⊎ (((cl ≢ 0xFF) ⊎ (ch ≢ 0xFF))
            × (s'.last_error ≡ u.last_error)
            × ((type : ℕ) × (o ≡ some type) × IsType cl ch type)))

-- The statements after the call of `ata_soft_reset`.
identify_signature : Device → ℕ → Drive → Action ℕ
identify_signature dev slavebit ctrl = do
  out_byte (ctrl.base + 6) (bit_or 0xA0 (slavebit * 16))
  a ← in_byte dev ctrl.dev_ctl
  b ← in_byte dev ctrl.dev_ctl
  c ← in_byte dev ctrl.dev_ctl
  d ← in_byte dev ctrl.dev_ctl
  cl ← in_byte dev (ctrl.base + 4)
  ch ← in_byte dev (ctrl.base + 5)
  reject ((cl == 0xFF) && (ch == 0xFF)) device_does_not_exist
  λ s. (some (device_type cl ch), s)

identify_signature-Signed :
    (dev : Device) (slavebit : ℕ) (ctrl : Drive) (u : Ata)
    → slavebit ≤ 1
    → Signed dev slavebit ctrl u (identify_signature dev slavebit ctrl u)
unfolding identify_signature reject ata_fail Io.inb Io.outb
identify_signature-Signed dev slavebit ctrl u le =
    let cl = cylinder_low dev slavebit ctrl u.trace in
    let ch = cylinder_high dev slavebit ctrl u.trace in
    rw (select_byte slavebit le) (elim (Bool-cases ((cl == 0xFF) && (ch == 0xFF))) [
      | inl e ↦ rw e (refl, inl (ground (arith, e), ground (arith, e), refl, refl))
      | inr e ↦
          rw e (
            refl,
            inr (ground (arith, e), refl, (device_type cl ch, refl, device_type-IsType cl ch)),
          )
    ])

-- The errors of the software reset.
abbrev pub IsResetError : AtaError → Type 0
IsResetError e = (e ≡ invalid_argument) ⊎ (e ≡ bus_float) ⊎ (e ≡ bsy_timeout)

-- A sequence goes on where its first action yields, and stops where that stops.
goes_on :
    (m : Action (Unit {0})) (k : Action ℕ) (s : Ata) → (m s).0 ≡ some tt → (m >> k) s ≡ k (m s).1
goes_on m k s e = ap (λ o. elim o [ none ↦ (none, (m s).1) | some a ↦ k (m s).1 ]) e

stops :
    (m : Action (Unit {0})) (k : Action ℕ) (s : Ata) → (m s).0 ≡ none → (m >> k) s ≡ (none, (m s).1)
stops m k s e = ap (λ o. elim o [ none ↦ (none, (m s).1) | some a ↦ k (m s).1 ]) e

after_reset :
    (dev : Device) (slavebit : ℕ) (ctrl : Drive) (s : Ata)
    → slavebit ≤ 1
    → detect_devtype dev slavebit ctrl s
      ≡ (ata_soft_reset dev ctrl.dev_ctl >> identify_signature dev slavebit ctrl) s
unfolding detect_devtype reject identify_signature
after_reset dev zero ctrl s h = refl
after_reset dev (suc zero) ctrl s h = refl
after_reset dev (suc (suc b)) ctrl s h = absurd (omega arith)

refused_bit :
    (dev : Device) (slavebit : ℕ) (ctrl : Drive) (s : Ata)
    → 2 ≤ slavebit
    → detect_devtype dev slavebit ctrl s ≡ (none, record s { last_error = invalid_argument })
unfolding detect_devtype reject ata_fail
refused_bit dev slavebit ctrl s h =
    let bad : ((slavebit != 0) && (slavebit != 1)) ≡ true = ground arith in rw bad refl

-- `detect_devtype` refuses a bit other than 0 and 1 and touches no port then. Otherwise it fails with
-- an error of the software reset; or the reset has succeeded on a status that is ready, and the two
-- signature bytes are read right after the drive of the bit has been selected and given four reads'
-- time. It fails for a missing device exactly if both bytes are 0xFF, and returns else the type that
-- ATA.h gives to them, or 1 for an unknown one, with no error.
pub detect_devtype_lem :
    (dev : Device) (slavebit : ℕ) (ctrl : Drive) (s : Ata)
    → let (o, s') = detect_devtype dev slavebit ctrl s in
      ((2 ≤ slavebit) × (o ≡ none) × (s'.last_error ≡ invalid_argument) × (s'.trace ≡ s.trace))
      ⊎ ((slavebit ≤ 1) × (o ≡ none) × IsResetError s'.last_error)
      ⊎ ((slavebit ≤ 1)
          × ((u : Ata) × (u.last_error ≡ no_error)
              × IsReset dev ctrl u
              × Signed dev slavebit ctrl u (o, s')))
detect_devtype_lem dev slavebit ctrl s = elim (Bool-cases (leb slavebit 1)) [
  | inr e ↦
      let ge : 2 ≤ slavebit = ground (arith, e) in
      rw (refused_bit dev slavebit ctrl s ge) (inl (ge, refl, refl, refl))
  | inl e ↦
      let le : slavebit ≤ 1 = ground (arith, e) in
      let reset = ata_soft_reset dev ctrl.dev_ctl in
      let rest = identify_signature dev slavebit ctrl in
      rw (after_reset dev slavebit ctrl s le) (elim (ata_soft_reset_lem dev ctrl.dev_ctl s) [
        | inl (_, o, x, _) ↦ rw (stops reset rest s o) (inr (inl (le, refl, inl x)))
        | inr (inl (_, o, x, status)) ↦ rw (goes_on reset rest s o) (
            inr (
              inr (le, ((reset s).1, x, status, identify_signature-Signed dev slavebit ctrl _ le))))
        | inr (inr (inl (_, o, x, _))) ↦
            rw (stops reset rest s o) (inr (inl (le, refl, inr (inl x))))
        | inr (inr (inr (_, o, x, _))) ↦
            rw (stops reset rest s o) (inr (inl (le, refl, inr (inr x))))
      ])
]
