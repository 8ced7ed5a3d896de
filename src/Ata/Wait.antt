-- ===== src/Ata/Wait.antt =====
-- The polling loops of stage2/ATA_DRIVER/ata_helpers.c: `ata_wait_not_bsy` and `ata_wait_drq`.
use my_operating_system.Base.{
  ℕ, zero, suc, ◌+◌, ◌≡◌, ◌≢◌, ◌⊎◌, inl, inr, refl, ◌∙◌, arith, Option, none, some, ◌∷◌, length,
  bit_and,
}
use my_operating_system.Io
use my_operating_system.Io.{Device, Trace, input}
use my_operating_system.Ata.{
  Ata, AtaError, bsy_timeout, drq_timeout, no_error, bus_float, error, ata_ok, ata_fail, Verdict,
  ready, again, bad, judge_not_bsy, judge_drq, ata_timeout, reg_status, poll, ata_wait_not_bsy,
  ata_wait_drq,
}

-- The last port access of `s` was a read of `port`, and the byte `v` that it gave satisfies `P`.
abbrev pub LastRead : Device → ℕ → (ℕ → Type 0) → Ata → Type 0
LastRead dev port P s = (t : Trace) × (s.trace ≡ input port ∷ t) × P (Io.inb dev port t).0

-- The ways a loop can end; on the timeout the trace has `reads` accesses.
abbrev pub Ended : Device → (ℕ → Verdict) → AtaError → ℕ → ℕ → Option (Unit {0}) × Ata → Type 0
Ended dev judge late reads port (o, s) =
    ((o ≡ some tt) × (s.last_error ≡ no_error) × LastRead dev port (λ v. judge v ≡ ready) s)
    ⊎ ((e : AtaError) × (o ≡ none)
        × (s.last_error ≡ e)
        × LastRead dev port (λ v. judge v ≡ bad e) s)
    ⊎ ((o ≡ none) × (s.last_error ≡ late) × (length s.trace ≡ reads))

Verdict-cases : (v : Verdict) → (v ≡ ready) ⊎ (v ≡ again) ⊎ ((e : AtaError) × (v ≡ bad e))
Verdict-cases ready = inl refl
Verdict-cases again = inr (inl refl)
Verdict-cases (bad e) = inr (inr (e, refl))

poll-Ended :
    (dev : Device) (judge : ℕ → Verdict) (late : AtaError) (io n r : ℕ) (s : Ata)
    → length s.trace + n ≡ r
    → Ended dev judge late r (io + reg_status) (poll dev judge late io n s)
unfolding poll ata_ok ata_fail
poll-Ended dev judge late io zero r s h = inr (inr (refl, refl, omega arith))
poll-Ended dev judge late io (suc n) r s h =
    elim (Verdict-cases (judge (Io.inb dev (io + reg_status) s.trace).0)) [
      | inl e ↦ rw (e) (inl (refl, refl, (s.trace, unfold Io.inb in refl, e)))
      | inr (inl e) ↦ rw (e) (
          poll-Ended dev judge late io n r
            (record s { trace = (Io.inb dev (io + reg_status) s.trace).1 })
            (unfold Io.inb in omega arith))
      | inr (inr (x, e)) ↦ rw (e) (inr (inl (x, refl, refl, (s.trace, unfold Io.inb in refl, e))))
    ]

judge_not_bsy-ready :
    (v : ℕ) → judge_not_bsy v ≡ ready → (v ≢ 0xFF) × (bit_and v 0x01 ≡ 0) × (bit_and v 0x80 ≡ 0)
judge_not_bsy-ready v h = ground arith

judge_not_bsy-bad :
    (v : ℕ) (e : AtaError)
    → judge_not_bsy v ≡ bad e
    → ((e ≡ bus_float) × (v ≡ 0xFF)) ⊎ ((e ≡ error) × (v ≢ 0xFF) × (bit_and v 0x01 ≢ 0))
judge_not_bsy-bad v e h = ground arith

-- `ata_wait_not_bsy` succeeds only on a status that it has just read, with the drive there, no error
-- and not busy. It fails for a floating bus on 0xFF, for an error on a status with the error bit,
-- both read last, and for the timeout only after 100000 port accesses.
pub ata_wait_not_bsy_lem :
    (dev : Device) (io : ℕ) (s : Ata)
    → let (o, s') = ata_wait_not_bsy dev io s in
      let port = io + reg_status in
      ((o ≡ some tt)
        × (s'.last_error ≡ no_error)
        × LastRead dev port (λ v. (v ≢ 0xFF) × (bit_and v 0x01 ≡ 0) × (bit_and v 0x80 ≡ 0)) s')
      ⊎ ((o ≡ none) × (s'.last_error ≡ bus_float) × LastRead dev port (λ v. v ≡ 0xFF) s')
      ⊎ ((o ≡ none)
          × (s'.last_error ≡ error)
          × LastRead dev port (λ v. (v ≢ 0xFF) × (bit_and v 0x01 ≢ 0)) s')
      ⊎ ((o ≡ none) × (s'.last_error ≡ bsy_timeout) × (length s'.trace ≡ length s.trace + 100000))
unfolding ata_wait_not_bsy
ata_wait_not_bsy_lem dev io s =
    elim (poll-Ended dev judge_not_bsy bsy_timeout io ata_timeout _ s refl) [
      | inl (o, e, (t, q, r)) ↦ inl (o, e, (t, q, judge_not_bsy-ready _ r))
      | inr (inl (x, o, e, (t, q, r))) ↦
          elim (judge_not_bsy-bad (Io.inb dev (io + reg_status) t).0 x r) [
            | inl (f, g) ↦ inr (inl (o, e ∙ f, (t, q, g)))
            | inr (f, g, k) ↦ inr (inr (inl (o, e ∙ f, (t, q, (g, k)))))
          ]
      | inr (inr (o, e, k)) ↦ inr (inr (inr (o, e, k)))
    ]

judge_drq-ready :
    (v : ℕ) → judge_drq v ≡ ready → (v ≢ 0xFF) × (bit_and v 0x01 ≡ 0) × (bit_and v 0x08 ≢ 0)
judge_drq-ready v h = ground arith

judge_drq-bad :
    (v : ℕ) (e : AtaError)
    → judge_drq v ≡ bad e
    → ((e ≡ bus_float) × (v ≡ 0xFF)) ⊎ ((e ≡ error) × (v ≢ 0xFF) × (bit_and v 0x01 ≢ 0))
judge_drq-bad v e h = ground arith

-- `ata_wait_drq` succeeds only on a status that it has just read, with the drive there, no error
-- and data ready. It fails for a floating bus on 0xFF, for an error on a status with the error bit,
-- both read last, and for the timeout only after 100000 port accesses.
pub ata_wait_drq_lem :
    (dev : Device) (io : ℕ) (s : Ata)
    → let (o, s') = ata_wait_drq dev io s in
      let port = io + reg_status in
      ((o ≡ some tt)
        × (s'.last_error ≡ no_error)
        × LastRead dev port (λ v. (v ≢ 0xFF) × (bit_and v 0x01 ≡ 0) × (bit_and v 0x08 ≢ 0)) s')
      ⊎ ((o ≡ none) × (s'.last_error ≡ bus_float) × LastRead dev port (λ v. v ≡ 0xFF) s')
      ⊎ ((o ≡ none)
          × (s'.last_error ≡ error)
          × LastRead dev port (λ v. (v ≢ 0xFF) × (bit_and v 0x01 ≢ 0)) s')
      ⊎ ((o ≡ none) × (s'.last_error ≡ drq_timeout) × (length s'.trace ≡ length s.trace + 100000))
unfolding ata_wait_drq
ata_wait_drq_lem dev io s = elim (poll-Ended dev judge_drq drq_timeout io ata_timeout _ s refl) [
  | inl (o, e, (t, q, r)) ↦ inl (o, e, (t, q, judge_drq-ready _ r))
  | inr (inl (x, o, e, (t, q, r))) ↦ elim (judge_drq-bad (Io.inb dev (io + reg_status) t).0 x r) [
    | inl (f, g) ↦ inr (inl (o, e ∙ f, (t, q, g)))
    | inr (f, g, k) ↦ inr (inr (inl (o, e ∙ f, (t, q, (g, k)))))
  ]
  | inr (inr (o, e, k)) ↦ inr (inr (inr (o, e, k)))
]
