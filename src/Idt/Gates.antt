-- ===== src/Idt/Gates.antt =====
-- What the processor finds in a gate and in a stub.
use my_operating_system.Base.{
  ℕ, ◌+◌, ◌-◌, ◌*◌, ap, ◌/◌, ◌%◌, ◌^◌, ◌<◌, ◌≡◌, ◌≢◌, refl, arith, List, Bool, true, ◌==◌, ==_iff,
  if◌then◌else◌, u8, u32, ltb, get_or, bit_or, ◌<<<◌,
}
use my_operating_system.Base.Bits.{bit_and_low, all_below, all_below_at}
use my_operating_system.Idt.{
  Idt, IdtEntry, make_entry, stub_code, idt_set_entry, idt_set_interrupt_32, stub_at, idt_size,
}

abbrev pub handler_of : IdtEntry → ℕ
handler_of e = e.offset_low + e.offset_high * 2 ^ 16

attr_check : ℕ → ℕ → Bool
attr_check dpl gate = bit_or (bit_or 0x80 (dpl <<< 5)) gate == 128 + dpl * 32 + gate

attr_table : all_below 4 (λ dpl. all_below 16 (attr_check dpl)) ≡ true
unfolding attr_check
attr_table = refl

attr_lem :
    (dpl gate : ℕ)
    → dpl < 4
    → gate < 16
    → bit_or (bit_or 0x80 (dpl <<< 5)) gate ≡ 128 + dpl * 32 + gate
unfolding attr_check
attr_lem dpl gate hd hg = (==_iff _ _).0 (
    all_below_at 16 (attr_check dpl) gate
      (all_below_at 4 (λ d. all_below 16 (attr_check d)) dpl attr_table hd) hg)

pub entry-idt_set_entry :
    (n handler selector type_attr dpl : ℕ) (idt : Idt) (k : ℕ)
    → (idt_set_entry n handler selector type_attr dpl idt).entry k
      ≡ (if k == n then make_entry handler selector type_attr dpl else idt.entry k)
unfolding idt_set_entry
entry-idt_set_entry n handler selector type_attr dpl idt k = refl

pub handler_of-make_entry :
    (handler selector type_attr dpl : ℕ)
    → handler < 2 ^ 32
    → handler_of (make_entry handler selector type_attr dpl) ≡ handler
handler_of-make_entry handler selector type_attr dpl h =
    rw (bit_and_low 16 handler, bit_and_low 16 (handler / 2 ^ 16)) (omega arith)

attr-make_entry :
    (handler selector type_attr dpl : ℕ)
    → (make_entry handler selector type_attr dpl).type_attr ≡ 128 + dpl % 4 * 32 + type_attr % 16
attr-make_entry handler selector type_attr dpl =
    rw
      (
        bit_and_low 2 dpl,
        bit_and_low 4 type_attr,
        attr_lem (dpl % 2 ^ 2) (type_attr % 2 ^ 4) (omega arith) (omega arith),
      )
      (omega arith)

written :
    (n handler selector type_attr dpl : ℕ) (idt : Idt)
    → (idt_set_entry n handler selector type_attr dpl idt).entry n
      ≡ make_entry handler selector type_attr dpl
unfolding idt_set_entry
written n handler selector type_attr dpl idt = ground arith

-- The gate that `idt_set_entry` writes holds the handler's address, the selector, the present bit,
-- the privilege level and the gate type of its arguments; the other gates are kept.
pub idt_set_entry_lem :
    (n handler selector type_attr dpl : ℕ) (idt : Idt)
    → handler < 2 ^ 32
    → let e = (idt_set_entry n handler selector type_attr dpl idt).entry n in
      (handler_of e ≡ handler)
      × (e.selector ≡ selector)
      × (e.type_attr / 128 ≡ 1)
      × (e.type_attr / 32 % 4 ≡ dpl % 4)
      × (e.type_attr % 16 ≡ type_attr % 16)
      × ((k : ℕ)
          → k ≢ n
          → (idt_set_entry n handler selector type_attr dpl idt).entry k ≡ idt.entry k)
idt_set_entry_lem n handler selector type_attr dpl idt h =
    rw (written n handler selector type_attr dpl idt) (
      handler_of-make_entry handler selector type_attr dpl h,
      refl,
      omega (arith, attr-make_entry handler selector type_attr dpl),
      omega (arith, attr-make_entry handler selector type_attr dpl),
      omega (arith, attr-make_entry handler selector type_attr dpl),
      λ k ne. unfold idt_set_entry in ground arith,
    )

-- The address at which a stub's jump lands: the end of the instruction and the stored distance.
abbrev pub lands_at : ℕ → List ℕ → ℕ
lands_at stub code = u32 (
    stub
    + 2
    + 5
    + (get_or code 3 0
        + get_or code 4 0 * 2 ^ 8
        + get_or code 5 0 * 2 ^ 16
        + get_or code 6 0 * 2 ^ 24))

-- The word that `push imm8` puts on the stack for a byte: it extends the byte's sign.
abbrev pub sign_extended : ℕ → ℕ
sign_extended b = if ltb b 128 then b else b + (2 ^ 32 - 2 ^ 8)

-- The code at `stub` is `push imm8` and `jmp rel32`: it pushes `word` and jumps to `handler`.
pub record PushesAndJumps (stub : ℕ) (code : List ℕ) (word handler : ℕ) : Type 0 where
  pub push : get_or code 0 0 ≡ 0x6A
  pub pushed : sign_extended (get_or code 1 0) ≡ word
  pub jump : get_or code 2 0 ≡ 0xE9
  pub target : lands_at stub code ≡ handler

pub stub-written :
    (isr_stubs n handler : ℕ) (idt : Idt)
    → n < idt_size
    → (idt_set_interrupt_32 isr_stubs n handler idt).stub n
      ≡ stub_code handler (stub_at isr_stubs n) n
unfolding idt_set_interrupt_32
stub-written isr_stubs n handler idt h = let same : u8 n ≡ n = omega arith in rw same (ground arith)

pub lands_at-stub_code :
    (stub handler n : ℕ)
    → handler < 2 ^ 32
    → stub + 7 < 2 ^ 32
    → lands_at stub (stub_code handler stub n) ≡ handler
lands_at-stub_code stub handler n hh hs = omega arith

pub entry-written :
    (isr_stubs n handler : ℕ) (idt : Idt)
    → n < idt_size
    → (idt_set_interrupt_32 isr_stubs n handler idt).entry n
      ≡ make_entry (stub_at isr_stubs n) 0x08 0x8E 0
unfolding idt_set_interrupt_32
entry-written isr_stubs n handler idt h =
    let same : u8 n ≡ n = omega arith in rw same (ground arith)

pub stub_code-PushesAndJumps :
    (stub handler n : ℕ)
    → n < 256
    → handler < 2 ^ 32
    → stub + 7 < 2 ^ 32
    → PushesAndJumps stub (stub_code handler stub n) (sign_extended n) handler
stub_code-PushesAndJumps stub handler n h hh hs =
    let same : u8 n ≡ n = omega arith in
    record {
      push = refl;
      pushed = ap sign_extended same;
      jump = refl;
      target = lands_at-stub_code stub handler n hh hs;
    }

-- `idt_set_interrupt_32` leaves a gate that leads to the vector's stub, whose code is a `push imm8`
-- of the vector, whose sign is extended from 128 on, and a `jmp rel32` to the handler, wherever the
-- stubs and the handler lie.
pub idt_set_interrupt_32_lem :
    (isr_stubs n handler : ℕ) (idt : Idt)
    → n < idt_size
    → handler < 2 ^ 32
    → isr_stubs + idt_size * 16 < 2 ^ 32
    → let idt' = idt_set_interrupt_32 isr_stubs n handler idt in
      (handler_of (idt'.entry n) ≡ stub_at isr_stubs n)
      × PushesAndJumps (stub_at isr_stubs n) (idt'.stub n) (sign_extended n) handler
idt_set_interrupt_32_lem isr_stubs n handler idt hn hh hs =
    rw (entry-written isr_stubs n handler idt hn, stub-written isr_stubs n handler idt hn)
      (
        handler_of-make_entry (stub_at isr_stubs n) 0x08 0x8E 0 (omega arith),
        stub_code-PushesAndJumps (stub_at isr_stubs n) handler n hn hh (omega arith),
      )
