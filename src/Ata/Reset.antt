-- ===== src/Ata/Reset.antt =====
-- The software reset of stage2/ATA_DRIVER/software_reset.c.
use my_operating_system.Base.{
  ℕ, zero, suc, ◌+◌, ◌≡◌, ◌≢◌, ◌⊎◌, inl, inr, refl, ◌∙◌, arith, none, some, ◌∷◌, length, Bool-cases,
  true, false, ◌==◌, bit_and,
}
use my_operating_system.Io
use my_operating_system.Io.{Device, Trace, input}
use my_operating_system.Ata.{
  Ata, Action, AtaError, invalid_argument, bsy_timeout, no_error, bus_float, ata_ok, ata_fail,
  reject, Verdict, ready, again, bad,
}
use my_operating_system.Ata.Init.{judge_reset, poll_reset, ata_soft_reset, ata_reset_timeout}
use my_operating_system.Ata.Wait.{LastRead, Ended}

-- How a round ends, by what it makes of its status `v`.
verdict-Ended :
    (dev : Device) (port r : ℕ) (t : Trace) (s : Ata) (rest : Action (Unit {0})) (v : Verdict)
    → s.trace ≡ input port ∷ t
    → judge_reset (Io.inb dev port t).0 ≡ v
    → Ended dev judge_reset bsy_timeout r port (rest s)
    → Ended dev judge_reset bsy_timeout r port (
        (elim v as (λ _. Action (Unit {0})) [ ready ↦ ata_ok | bad e ↦ ata_fail e | again ↦ rest ])
          s)
unfolding ata_ok ata_fail
verdict-Ended dev port r t s rest ready e j h = inl (refl, refl, (t, e, j))
verdict-Ended dev port r t s rest (bad x) e j h = inr (inl (x, refl, refl, (t, e, j)))
verdict-Ended dev port r t s rest again e j h = h

poll_reset-Ended :
    (dev : Device) (port n r : ℕ) (s : Ata)
    → length s.trace + n ≡ r
    → Ended dev judge_reset bsy_timeout r port (poll_reset dev port n s)
unfolding poll_reset ata_fail
poll_reset-Ended dev port zero r s h = inr (inr (refl, refl, omega arith))
poll_reset-Ended dev port (suc n) r s h =
    let s' : Ata = record s { trace = (Io.inb dev port s.trace).1 } in
    verdict-Ended dev port r s.trace s' (poll_reset dev port n)
      (judge_reset (Io.inb dev port s.trace).0) (unfold Io.inb in refl) refl
      (poll_reset-Ended dev port n r s' (unfold Io.inb in omega arith))

judge_reset-ready : (v : ℕ) → judge_reset v ≡ ready → (v ≢ 0xFF) × (bit_and v 0xC0 ≡ 0x40)
judge_reset-ready v h = ground arith

judge_reset-bad : (v : ℕ) (e : AtaError) → judge_reset v ≡ bad e → (e ≡ bus_float) × (v ≡ 0xFF)
judge_reset-bad v e h = ground arith

-- The six accesses before the loop.
started : Device → ℕ → Ata → Ata
started dev port s =
    let t = Io.outb port 0 (Io.outb port 4 s.trace) in
    let t = (Io.inb dev port t).1 in
    let t = (Io.inb dev port t).1 in
    let t = (Io.inb dev port t).1 in record s { trace = (Io.inb dev port t).1 }

length-started :
    (dev : Device) (port : ℕ) (s : Ata) → length (started dev port s).trace ≡ length s.trace + 6
unfolding started Io.outb Io.inb
length-started dev port s = omega arith

ata_soft_reset-started :
    (dev : Device) (port : ℕ) (s : Ata)
    → (port == 0) ≡ false
    → ata_soft_reset dev port s ≡ poll_reset dev port ata_reset_timeout (started dev port s)
unfolding ata_soft_reset reject started
ata_soft_reset-started dev port s e = rw e refl

ata_soft_reset-no_port :
    (dev : Device) (port : ℕ) (s : Ata)
    → (port == 0) ≡ true
    → ata_soft_reset dev port s ≡ (none, record s { last_error = invalid_argument })
unfolding ata_soft_reset reject ata_fail
ata_soft_reset-no_port dev port s e = rw e refl

-- `ata_soft_reset` refuses the port 0 and does not touch it. For any other port it succeeds only on
-- a status that it has just read, not busy and ready; it fails for a floating bus on 0xFF, read
-- last, and for the timeout only after the six accesses of the reset and 100000 reads.
pub ata_soft_reset_lem :
    (dev : Device) (port : ℕ) (s : Ata)
    → let (o, s') = ata_soft_reset dev port s in
      ((port ≡ 0) × (o ≡ none) × (s'.last_error ≡ invalid_argument) × (s'.trace ≡ s.trace))
      ⊎ ((port ≢ 0)
          × (o ≡ some tt)
          × (s'.last_error ≡ no_error)
          × LastRead dev port (λ v. (v ≢ 0xFF) × (bit_and v 0xC0 ≡ 0x40)) s')
      ⊎ ((port ≢ 0)
          × (o ≡ none)
          × (s'.last_error ≡ bus_float)
          × LastRead dev port (λ v. v ≡ 0xFF) s')
      ⊎ ((port ≢ 0)
          × (o ≡ none)
          × (s'.last_error ≡ bsy_timeout)
          × (length s'.trace ≡ length s.trace + 6 + 100000))
ata_soft_reset_lem dev port s = elim (Bool-cases (port == 0)) [
  | inl z ↦ rw (ata_soft_reset-no_port dev port s z) (inl (ground (arith, z), refl, refl, refl))
  | inr nz ↦
      let ne : port ≢ 0 = ground (arith, nz) in
      rw (ata_soft_reset-started dev port s nz)
        (elim (poll_reset-Ended dev port ata_reset_timeout _ (started dev port s) refl) [
          | inl (o, e, (t, q, r)) ↦ inr (inl (ne, o, e, (t, q, judge_reset-ready _ r)))
          | inr (inl (x, o, e, (t, q, r))) ↦
              let (f, g) = judge_reset-bad (Io.inb dev port t).0 x r in
              inr (inr (inl (ne, o, e ∙ f, (t, q, g))))
          | inr (inr (o, e, k)) ↦
              inr (inr (inr (ne, o, e, omega (arith, k, length-started dev port s))))
        ])
]
