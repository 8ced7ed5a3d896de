-- ===== src/Ata/Identify.antt =====
-- What `ata_identify` of stage2/ATA_DRIVER/ata_identify.c leaves in the result and in the error
-- variable.
use mathlib.Core.Option.{none-ne-some}
use my_operating_system.Base.{
  ℕ, ◌+◌, ◌≡◌, ◌≢◌, ◌⊎◌, inl, inr, refl, sym, ◌∙◌, arith, Option, none, some, bit_and, ◌==◌, ◌!=◌,
  ◌||◌,
}
use my_operating_system.Memory.{Memory}
use my_operating_system.Io.{Device}
use my_operating_system.Ata.{
  Ata, AtaError, no_error, err_none, err_invalid_arg, err_no_device, err_device_fault, err_not_ata,
  Drive, reg_status, reg_data, poll, ata_wait_not_bsy, ata_wait_drq, judge_not_bsy, judge_drq,
  Verdict, bsy_timeout, drq_timeout, ata_timeout,
}
use my_operating_system.Ata.Init.{or_error, read_identify, ata_identify}
use my_operating_system.Ata.Wait.{LastRead, ata_wait_drq_lem}
use my_operating_system.Ata.Stores.{poll-Confined}
use my_operating_system.Ata.Runs.{
  Ends, Kept, IsIdentifyError, Refused, bind-Ends, Runs, bind, in_byte-Runs, out_byte-Runs,
  set_error-Runs, ata_wait_400ns-Runs, reject-Runs, or_error-Ends,
}
use my_operating_system.Ata.Words.{WordsRead, read_identify-WordsRead}

-- The state when the drive is ready to send: no error, and a status with the bit for data, read last.
abbrev pub ReadyToSend : Device → ℕ → Memory → Ata → Type 0
ReadyToSend dev io m s =
    Kept m s
    × (s.last_error ≡ no_error)
    × LastRead dev (io + reg_status) (λ v. (v ≢ 0xFF) × (bit_and v 0x01 ≡ 0) × (bit_and v 0x08 ≢ 0))
        s

-- A loop keeps the memory.
poll-Kept :
    (dev : Device) (judge : ℕ → Verdict) (late : AtaError) (m : Memory) (io n : ℕ) (s : Ata)
    → Kept m s
    → Kept m (poll dev judge late io n s).1
poll-Kept dev judge late m io n s kept x =
    (poll-Confined {lo = 0} {hi = 0} dev judge late io n).kept s x (inr (omega arith)) ∙ kept x

drq-ready :
    (dev : Device) (m : Memory) (io : ℕ) (s : Ata)
    → Kept m (ata_wait_drq dev io s).1
    → (ata_wait_drq dev io s).0 ≡ some tt
    → ReadyToSend dev io m (ata_wait_drq dev io s).1
drq-ready dev m io s kept done = elim (ata_wait_drq_lem dev io s) [
  | inl (_, e, last) ↦ (kept, e, last)
  | inr (inl (o, _, _)) ↦ absurd (none-ne-some tt (sym o ∙ done))
  | inr (inr (inl (o, _, _))) ↦ absurd (none-ne-some tt (sym o ∙ done))
  | inr (inr (inr (o, _, _))) ↦ absurd (none-ne-some tt (sym o ∙ done))
]

drq-ReadyToSend :
    (dev : Device) (m : Memory) (io : ℕ) (s : Ata)
    → Kept m s
    → Ends
        (λ (_ : Unit {0}) (t : Ata). ReadyToSend dev io m t)
        (Refused m)
        (or_error (ata_wait_drq dev io) err_device_fault s)
drq-ReadyToSend dev m io s kept =
    let kept' : Kept m (ata_wait_drq dev io s).1 =
      unfold ata_wait_drq in poll-Kept dev judge_drq drq_timeout m io ata_timeout s kept in
    or_error-Ends (λ (_ : Unit {0}) (t : Ata). ReadyToSend dev io m t) (ata_wait_drq dev io)
      err_device_fault s (inr (inr (inl refl))) kept' (λ _ done. drq-ready dev m io s kept' done)

not_bsy-Runs :
    (dev : Device) (m : Memory) (io : ℕ)
    → Runs m
        (λ (_ : Unit {0}) (s : Ata). Kept m s)
        (or_error (ata_wait_not_bsy dev io) err_device_fault)
not_bsy-Runs dev m io = record {
  run = λ s kept.
      let kept' : Kept m (ata_wait_not_bsy dev io s).1 =
        unfold ata_wait_not_bsy in
        poll-Kept dev judge_not_bsy bsy_timeout m io ata_timeout s kept in
      or_error-Ends (λ (_ : Unit {0}) (t : Ata). Kept m t) (ata_wait_not_bsy dev io)
        err_device_fault s (inr (inr (inl refl))) kept' (λ _ _. kept');
}

-- The result has been read from a drive that was ready.
abbrev pub Identified : Device → Drive → ℕ → Memory → Ata → Type 0
Identified dev drv raw m t =
    (u : Ata) × ReadyToSend dev drv.base m u × WordsRead dev (drv.base + reg_data) 256 raw u t

read-Ends :
    (dev : Device) (drv : Drive) (raw : ℕ) (m : Memory) (u : Ata)
    → ReadyToSend dev drv.base m u
    → Ends
        (λ (_ : Unit {0}) (t : Ata). Identified dev drv raw m t)
        (Refused m)
        (read_identify dev drv 256 raw u)
read-Ends dev drv raw m u ready =
    let (done, words) = read_identify-WordsRead dev drv 256 raw u in
    go (read_identify dev drv 256 raw u) done words
  where
    go :
        (r : Option (Unit {0}) × Ata)
        → r.0 ≡ some tt
        → WordsRead dev (drv.base + reg_data) 256 raw u r.1
        → Ends (λ (_ : Unit {0}) (t : Ata). Identified dev drv raw m t) (Refused m) r
    go (none, t) e w = absurd (none-ne-some tt e)
    go (some v, t) e w = (u, ready, w)

ata_identify-Runs :
    (dev : Device) (drv : Drive) (raw : ℕ) (m : Memory)
    → Runs m (λ (_ : Unit {0}) (t : Ata). Identified dev drv raw m t) (ata_identify dev drv raw)
unfolding ata_identify
ata_identify-Runs dev drv raw m =
    let io = drv.base in
    bind (set_error-Runs err_none) λ _.
      bind (reject-Runs (raw == 0) err_invalid_arg (inl refl)) λ _.
        bind (out_byte-Runs (io + 6) 0xA0) λ _. bind (ata_wait_400ns-Runs dev io) λ w.
          bind (out_byte-Runs (io + 2) 0) λ _. bind (out_byte-Runs (io + 3) 0) λ _.
            bind (out_byte-Runs (io + 4) 0) λ _. bind (out_byte-Runs (io + 5) 0) λ _.
              bind (out_byte-Runs (io + 7) 0xEC) λ _.
                bind (in_byte-Runs dev (io + reg_status)) λ status.
                  bind (reject-Runs (status == 0) err_no_device (inr (inl refl))) λ _.
                    bind (not_bsy-Runs dev m io) λ _. bind (in_byte-Runs dev (io + 4)) λ cl.
                      bind (in_byte-Runs dev (io + 5)) λ ch.
                        bind
                          (reject-Runs ((cl != 0) || (ch != 0)) err_not_ata (inr (inr (inr refl))))
                          λ _. record {
                            run = λ s kept.
                                bind-Ends (λ (_ : Unit {0}) (t : Ata). ReadyToSend dev io m t)
                                  (λ (_ : Unit {0}) (t : Ata). Identified dev drv raw m t)
                                  (Refused m) (or_error (ata_wait_drq dev io) err_device_fault)
                                  (λ _. read_identify dev drv 256 raw) s
                                  (drq-ReadyToSend dev m io s kept)
                                  (λ _ u ready. read-Ends dev drv raw m u ready);
                          }

Ends-cases :
    {A : Type 0} (P : A → Ata → Type 0) (E : Ata → Type 0) (r : Option A × Ata)
    → Ends P E r
    → ((v : A) × (r.0 ≡ some v) × P v r.1) ⊎ ((r.0 ≡ none) × E r.1)
Ends-cases P E (none, t) h = inr (refl, h)
Ends-cases P E (some v, t) h = inl (v, refl, h)

-- `ata_identify` succeeds only after it has seen the drive ready to send and without an error; the
-- 256 words of the result are then what the drive gave on 256 reads of the data port one after
-- another, with the low byte first, and no other byte of the memory has changed. Otherwise it
-- changes no byte, and reports a missing result, a missing drive, a device fault or a device that is
-- not ATA, whatever the two waiting loops have reported.
pub ata_identify_lem :
    (dev : Device) (drv : Drive) (raw : ℕ) (s : Ata)
    → let (o, t) = ata_identify dev drv raw s in
      ((o ≡ some tt) × (t.last_error ≡ no_error) × Identified dev drv raw s.memory t)
      ⊎ ((o ≡ none) × Kept s.memory t × IsIdentifyError t.last_error)
ata_identify_lem dev drv raw s =
    elim (Ends-cases (λ (_ : Unit {0}) (t : Ata). Identified dev drv raw s.memory t)
      (Refused s.memory) (ata_identify dev drv raw s)
      ((ata_identify-Runs dev drv raw s.memory).run s (λ x. refl))) [
        | inl (v, e, (u, ready, words)) ↦ inl (e, words.error ∙ ready.1, (u, ready, words))
        | inr (e, refused) ↦ inr (e, refused.0, refused.1)
      ]
