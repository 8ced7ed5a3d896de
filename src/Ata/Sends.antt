-- ===== src/Ata/Sends.antt =====
-- The command that a drive finds in its registers, and the actions that send none.
use my_operating_system.Base.{
  ℕ, zero, suc, ◌+◌, ◌≡◌, refl, ◌∙◌, arith, Option, none, some, ◌==◌, ◌!=◌, if◌then◌else◌, [], ◌∷◌,
  Bool, bit_and, ◌>>>◌,
}
use my_operating_system.Memory.{write}
use my_operating_system.Io
use my_operating_system.Io.{Trace, Device, Event, out, input, cli, sti, hlt, outb, inb}
use my_operating_system.Ata.{
  Ata, Action, ◌>>=◌, Drive, Command28, AtaError, Verdict, ready, again, bad, reject, in_byte, poll,
  reg_status, reg_data, error, device_fault, invalid_argument, error_while_drq_poll, bus_float,
  drq_timeout, ata_timeout, judge_drq, ata_ok, ata_fail, ata_wait_drq, ata_wait_400ns, store_words,
  store_incoming_bytes, read_sectors,
}

-- What was last written to a port, and 0 before that.
unfoldable pub register : ℕ → Trace → ℕ
register port [] = 0
register port (out p v ∷ t) = let earlier = register port t in if p == port then v else earlier
register port (input p ∷ t) = register port t
register port (cli ∷ t) = register port t
register port (sti ∷ t) = register port t
register port (hlt ∷ t) = register port t

-- The command that a drive has got last: it takes its registers as they are when the command register,
-- the one at the offset 7, is written.
unfoldable pub command_at : Drive → Trace → Option Command28
command_at drv [] = none
command_at drv (out p v ∷ t) =
    let earlier = command_at drv t in
    if p == drv.base + 7
    then some (record {
      sector_count = register (drv.base + 2) t;
      lba_low = register (drv.base + 3) t;
      lba_mid = register (drv.base + 4) t;
      lba_high = register (drv.base + 5) t;
      dev_sel = register (drv.base + 6) t;
      command = v;
    })
    else earlier
command_at drv (input p ∷ t) = command_at drv t
command_at drv (cli ∷ t) = command_at drv t
command_at drv (sti ∷ t) = command_at drv t
command_at drv (hlt ∷ t) = command_at drv t

-- An action that leaves the last command as it was.
pub record Quiet (drv : Drive) {A : Type 0} (m : Action A) : Type 0 where
  pub same : (s : Ata) → command_at drv (m s).1.trace ≡ command_at drv s.trace

module _ {drv : Drive} where
  pub bind :
      {A B : Type 0} {m : Action A} {k : A → Action B}
      → Quiet drv m
      → ((a : A) → Quiet drv (k a))
      → Quiet drv (m >>= k)
  bind {A = A} {B = B} {m = m} {k = k} qm qk = record { same = λ s. go (m s) s (qm.same s) }
    where
      go :
          (r : Option A × Ata) (s : Ata)
          → command_at drv r.1.trace ≡ command_at drv s.trace
          → command_at drv
              (elim r.0 as (λ _. Option B × Ata) [ none ↦ (none, r.1) | some a ↦ k a r.1 ]).1.trace
            ≡ command_at drv s.trace
      go (none, s') s e = e
      go (some a, s') s e = (qk a).same s' ∙ e

  pub reject-Quiet : (b : Bool) (e : AtaError) → Quiet drv (reject b e)
  unfolding reject
  reject-Quiet b e = record { same = λ s. ground arith }

  pub ata_ok-Quiet : Quiet drv ata_ok
  unfolding ata_ok
  ata_ok-Quiet = record { same = λ s. refl }

  pub ata_fail-Quiet : {A : Type 0} (e : AtaError) → Quiet drv (ata_fail {A = A} e)
  unfolding ata_fail
  ata_fail-Quiet e = record { same = λ s. refl }

  module _ (dev : Device) where
    pub in_byte-Quiet : (port : ℕ) → Quiet drv (in_byte dev port)
    unfolding command_at inb
    in_byte-Quiet port = record { same = λ s. refl }

    ata_wait_400ns-Quiet : (io : ℕ) → Quiet drv (ata_wait_400ns dev io)
    unfolding ata_wait_400ns
    ata_wait_400ns-Quiet io =
        let status = in_byte-Quiet (io + reg_status) in
        bind status λ a. bind status λ b. bind status λ c. status

    verdict-Quiet :
        (v : Verdict) {rest : Action (Unit {0})}
        → Quiet drv rest
        → Quiet drv (elim v as (λ _. Action (Unit {0})) [
          | ready ↦ ata_ok
          | bad e ↦ ata_fail e
          | again ↦ rest
        ])
    verdict-Quiet ready q = ata_ok-Quiet
    verdict-Quiet (bad e) q = ata_fail-Quiet e
    verdict-Quiet again q = q

    pub poll-Quiet :
        (judge : ℕ → Verdict) (late : AtaError) (io n : ℕ) → Quiet drv (poll dev judge late io n)
    unfolding poll
    poll-Quiet judge late io zero = ata_fail-Quiet late
    poll-Quiet judge late io (suc n) =
        bind (in_byte-Quiet (io + reg_status))
          λ status. verdict-Quiet (judge status) (poll-Quiet judge late io n)

    store_words-Quiet : (n buf : ℕ) → Quiet drv (store_words dev drv n buf)
    unfolding store_words command_at Io.inw
    store_words-Quiet zero buf = ata_ok-Quiet
    store_words-Quiet (suc n) buf = record {
      same = λ s.
          let (w, t) = Io.inw dev (drv.base + reg_data) s.trace in
          (store_words-Quiet n (buf + 2)).same (record s {
            trace = t;
            memory = write (write s.memory buf (bit_and w 0xFF)) (buf + 1) (w >>> 8);
          });
    }

    store_incoming_bytes-Quiet :
        (words buf : ℕ) → Quiet drv (store_incoming_bytes dev drv words buf)
    unfolding store_incoming_bytes
    store_incoming_bytes-Quiet words buf = bind (reject-Quiet (buf == 0) invalid_argument) λ _.
        bind (in_byte-Quiet (drv.base + reg_status)) λ status.
          bind (reject-Quiet (bit_and status 0x01 != 0) error) λ _.
            bind (reject-Quiet (bit_and status 0x20 != 0) device_fault) λ _.
              bind (reject-Quiet (bit_and status 0x08 == 0) error_while_drq_poll)
                λ _. bind (reject-Quiet (status == 0xFF) bus_float) λ _. store_words-Quiet words buf

    pub read_sectors-Quiet : (n buf : ℕ) → Quiet drv (read_sectors dev drv n buf)
    unfolding read_sectors ata_wait_drq
    read_sectors-Quiet zero buf = ata_ok-Quiet
    read_sectors-Quiet (suc n) buf = bind (ata_wait_400ns-Quiet drv.base) λ w.
        bind (poll-Quiet judge_drq drq_timeout drv.base ata_timeout)
          λ _. bind (store_incoming_bytes-Quiet 256 buf) λ _. read_sectors-Quiet n (buf + 512)
