-- ===== src/Ata/Stores.antt =====
-- The bytes of memory that `pio28_read` may change.
use my_operating_system.Base.{
  ℕ, zero, suc, ◌+◌, ◌*◌, ◌≤◌, ◌<◌, ◌≡◌, ◌⊎◌, refl, arith, ◌∙◌, Option, none, some, ◌==◌, ◌!=◌,
  Bool, bit_and, ◌>>>◌, false,
}
use my_operating_system.Memory.{Memory, write}
use my_operating_system.Io
use my_operating_system.Io.{Device}
use my_operating_system.Ata.{
  Ata, Action, ◌>>=◌, Drive, Command28, AtaError, reject, in_byte, out_byte, poll, reg_status,
  reg_data, set_command, set_dev_sel, no_error, error, device_fault, invalid_argument,
  error_while_drq_poll, bus_float, bsy_timeout, drq_timeout, ata_timeout, judge_not_bsy, judge_drq,
  set_ata_mode_lba, blank_command, Verdict, ready, again, bad, prepare_read, set_sec_count, set_lba,
  ata_ok, ata_fail, ata_wait_not_bsy, ata_wait_drq, ata_wait_400ns, flush_command, store_words,
  store_incoming_bytes, read_sectors, pio28_read,
}

-- Whether it succeeds or fails, the action changes no byte outside of those from `lo` up to `hi`.
pub record Confined (lo hi : ℕ) {A : Type 0} (m : Action A) : Type 0 where
  pub kept : (s : Ata) (x : ℕ) → (x < lo) ⊎ (hi ≤ x) → (m s).1.memory x ≡ s.memory x

pub two_bytes :
    (m : Memory) (buf v w x : ℕ)
    → (x < buf) ⊎ (buf + 2 ≤ x)
    → write (write m buf v) (buf + 1) w x ≡ m x
unfolding write
two_bytes m buf v w x h = ground arith

module _ {lo hi : ℕ} where
  bind :
      {A B : Type 0} {m : Action A} {k : A → Action B}
      → Confined lo hi m
      → ((a : A) → Confined lo hi (k a))
      → Confined lo hi (m >>= k)
  bind {A = A} {B = B} {m = m} {k = k} cm ck = record {
    kept = λ s x o. go (m s) s x o (cm.kept s x o);
  }
    where
      go :
          (r : Option A × Ata) (s : Ata) (x : ℕ)
          → (x < lo) ⊎ (hi ≤ x)
          → r.1.memory x ≡ s.memory x
          → (elim r.0 as (λ _. Option B × Ata) [ none ↦ (none, r.1) | some a ↦ k a r.1 ]).1.memory x
            ≡ s.memory x
      go (none, s') s x o e = e
      go (some a, s') s x o e = (ck a).kept s' x o ∙ e

  reject-Confined : (b : Bool) (e : AtaError) → Confined lo hi (reject b e)
  unfolding reject
  reject-Confined b e = record { kept = λ s x o. ground arith }

  ata_ok-Confined : Confined lo hi ata_ok
  unfolding ata_ok
  ata_ok-Confined = record { kept = λ s x o. refl }

  ata_fail-Confined : {A : Type 0} (e : AtaError) → Confined lo hi (ata_fail {A = A} e)
  unfolding ata_fail
  ata_fail-Confined e = record { kept = λ s x o. refl }

  out_byte-Confined : (port v : ℕ) → Confined lo hi (out_byte port v)
  out_byte-Confined port v = record { kept = λ s x o. refl }

  set_sec_count-Confined : (d : Command28) (n : ℕ) → Confined lo hi (set_sec_count d n)
  unfolding set_sec_count
  set_sec_count-Confined d n = record { kept = λ s x o. ground arith }

  set_lba-Confined : (d : Command28) (lba : ℕ) → Confined lo hi (set_lba d lba)
  unfolding set_lba
  set_lba-Confined d lba = record { kept = λ s x o. ground arith }

  prepare_read-Confined : (sectors lba : ℕ) → Confined lo hi (prepare_read sectors lba)
  unfolding prepare_read
  prepare_read-Confined sectors lba =
      bind (set_sec_count-Confined (set_ata_mode_lba blank_command) sectors) λ d.
        bind
          {k = λ e s.
            (some (set_command (set_dev_sel e false) 0x20), record s { last_error = no_error })}
          (set_lba-Confined d lba) λ e. record { kept = λ s x o. refl }

  module _ (dev : Device) where
    in_byte-Confined : (port : ℕ) → Confined lo hi (in_byte dev port)
    in_byte-Confined port = record { kept = λ s x o. refl }

    ata_wait_400ns-Confined : (io : ℕ) → Confined lo hi (ata_wait_400ns dev io)
    unfolding ata_wait_400ns
    ata_wait_400ns-Confined io =
        let status = in_byte-Confined (io + reg_status) in
        bind status λ a. bind status λ b. bind status λ c. status

    verdict-Confined :
        (v : Verdict) {rest : Action (Unit {0})}
        → Confined lo hi rest
        → Confined lo hi (elim v as (λ _. Action (Unit {0})) [
          | ready ↦ ata_ok
          | bad e ↦ ata_fail e
          | again ↦ rest
        ])
    verdict-Confined ready c = ata_ok-Confined
    verdict-Confined (bad e) c = ata_fail-Confined e
    verdict-Confined again c = c

    pub poll-Confined :
        (judge : ℕ → Verdict) (late : AtaError) (io n : ℕ)
        → Confined lo hi (poll dev judge late io n)
    unfolding poll
    poll-Confined judge late io zero = ata_fail-Confined late
    poll-Confined judge late io (suc n) =
        bind (in_byte-Confined (io + reg_status))
          λ status. verdict-Confined (judge status) (poll-Confined judge late io n)

    flush_command-Confined :
        (drv : Drive) (d : Command28) → Confined lo hi (flush_command dev drv d)
    unfolding flush_command ata_wait_not_bsy
    flush_command-Confined drv d =
        bind (poll-Confined judge_not_bsy bsy_timeout drv.base ata_timeout) λ _.
          bind (in_byte-Confined (drv.base + reg_status)) λ status.
            bind (reject-Confined (bit_and status 0x01 != 0) error) λ _.
              bind (reject-Confined (bit_and status 0x20 != 0) device_fault) λ _.
                bind (out_byte-Confined (drv.base + 6) d.dev_sel) λ _.
                  bind (ata_wait_400ns-Confined drv.base) λ w.
                    bind (out_byte-Confined (drv.base + 2) d.sector_count) λ _.
                      bind (out_byte-Confined (drv.base + 3) d.lba_low) λ _.
                        bind (out_byte-Confined (drv.base + 4) d.lba_mid) λ _.
                          bind (out_byte-Confined (drv.base + 5) d.lba_high) λ _.
                            bind (out_byte-Confined (drv.base + 7) d.command) λ _. ata_ok-Confined

    store_words-Confined :
        (drv : Drive) (n buf : ℕ)
        → lo ≤ buf
        → buf + n * 2 ≤ hi
        → Confined lo hi (store_words dev drv n buf)
    unfolding store_words
    store_words-Confined drv zero buf a b = ata_ok-Confined
    store_words-Confined drv (suc n) buf a b = record {
      kept = λ s x o.
          let (w, t) = Io.inw dev (drv.base + reg_data) s.trace in
          (store_words-Confined drv n (buf + 2) (omega arith) (omega arith)).kept
            (record s {
              trace = t;
              memory = write (write s.memory buf (bit_and w 0xFF)) (buf + 1) (w >>> 8);
            })
            x o
          ∙ two_bytes s.memory buf (bit_and w 0xFF) (w >>> 8) x (omega arith);
    }

    store_incoming_bytes-Confined :
        (drv : Drive) (words buf : ℕ)
        → lo ≤ buf
        → buf + words * 2 ≤ hi
        → Confined lo hi (store_incoming_bytes dev drv words buf)
    unfolding store_incoming_bytes
    store_incoming_bytes-Confined drv words buf a b =
        bind (reject-Confined (buf == 0) invalid_argument) λ _.
          bind (in_byte-Confined (drv.base + reg_status)) λ status.
            bind (reject-Confined (bit_and status 0x01 != 0) error) λ _.
              bind (reject-Confined (bit_and status 0x20 != 0) device_fault) λ _.
                bind (reject-Confined (bit_and status 0x08 == 0) error_while_drq_poll) λ _.
                  bind (reject-Confined (status == 0xFF) bus_float)
                    λ _. store_words-Confined drv words buf a b

    read_sectors-Confined :
        (drv : Drive) (n buf : ℕ)
        → lo ≤ buf
        → buf + n * 512 ≤ hi
        → Confined lo hi (read_sectors dev drv n buf)
    unfolding read_sectors ata_wait_drq
    read_sectors-Confined drv zero buf a b = ata_ok-Confined
    read_sectors-Confined drv (suc n) buf a b = bind (ata_wait_400ns-Confined drv.base) λ w.
        bind (poll-Confined judge_drq drq_timeout drv.base ata_timeout) λ _.
          bind (store_incoming_bytes-Confined drv 256 buf a (omega arith))
            λ _. read_sectors-Confined drv n (buf + 512) (omega arith) (omega arith)

-- Whatever the device answers, and whether it succeeds or fails, `pio28_read` changes no byte
-- outside of the `sectors * 512` bytes from `dest` on.
pub pio28_read_stores :
    (dev : Device) (dest : ℕ) (drv : Drive) (sectors lba : ℕ) (s : Ata) (x : ℕ)
    → (x < dest) ⊎ (dest + sectors * 512 ≤ x)
    → (pio28_read dev dest drv sectors lba s).1.memory x ≡ s.memory x
unfolding pio28_read
pio28_read_stores dev dest drv sectors lba s x o = confined.kept s x o
  where
    confined : Confined dest (dest + sectors * 512) (pio28_read dev dest drv sectors lba)
    confined = bind (reject-Confined (sectors == 0) invalid_argument) λ _.
        bind (reject-Confined (dest == 0) invalid_argument) λ _.
          bind (prepare_read-Confined sectors lba) λ d.
            bind (flush_command-Confined dev drv d)
              λ _. read_sectors-Confined dev drv sectors dest (omega arith) (omega arith)
