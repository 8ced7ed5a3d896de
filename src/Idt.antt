-- ===== src/Idt.antt =====
-- The interrupt table: kernel/IDT/IDT.c and IDT.h. The model keeps the table, the
-- machine code of the stubs and, as a value, what `lidt` is given. Tables are functions of the
-- vector, as an index is not checked by the code; the 256 vectors are those below `idt_size`.
pub mod Gates
pub mod Exceptions
use my_operating_system.Base.{
  ℕ, zero, suc, ◌+◌, ◌-◌, ◌*◌, ◌/◌, ◌%◌, ◌^◌, List, [], ◌∷◌, ◌==◌, if◌then◌else◌, u8, u16, u32,
  ◌<<<◌, ◌>>>◌, sub_u32, bit_and, bit_or,
}

abbrev pub idt_size : ℕ
idt_size = 256

-- `struct idt_entry`
pub record IdtEntry : Type 0 where
  pub offset_low : ℕ
  pub selector : ℕ
  pub zeroes : ℕ
  pub type_attr : ℕ
  pub offset_high : ℕ

abbrev pub empty_entry : IdtEntry
empty_entry = record { offset_low = 0; selector = 0; zeroes = 0; type_attr = 0; offset_high = 0 }

-- `idt` and `isr_stubs`, where a stub is the list of its first seven bytes.
pub record Idt : Type 0 where
  pub entry : ℕ → IdtEntry
  pub stub : ℕ → List ℕ

-- `struct idt_ptr`
pub record IdtPtr : Type 0 where
  pub limit : ℕ
  pub base : ℕ

-- The two calls of `memset` in `idt_init`.
unfoldable pub cleared : Idt
cleared = record { entry = λ _. empty_entry; stub = λ _. 0 ∷ 0 ∷ 0 ∷ 0 ∷ 0 ∷ 0 ∷ 0 ∷ [] }

-- What `lidt` makes of the register.
abbrev pub idt_load : IdtPtr → IdtPtr
idt_load ip = ip

-- `idt_init`, where `idt` is the address of the table. An entry takes 8 bytes.
unfoldable pub idt_init : ℕ → Idt × IdtPtr
unfolding cleared
idt_init idt = (cleared, idt_load (record { limit = idt_size * 8 - 1; base = idt }))

abbrev pub make_entry : ℕ → ℕ → ℕ → ℕ → IdtEntry
make_entry handler selector type_attr dpl = record {
  offset_low = u16 (bit_and handler 0xFFFF);
  selector = selector;
  zeroes = 0;
  type_attr = u8 (bit_or (bit_or 0x80 (bit_and dpl 3 <<< 5)) (bit_and type_attr 0x0F));
  offset_high = u16 (bit_and (handler >>> 16) 0xFFFF);
}

unfoldable pub idt_set_entry : ℕ → ℕ → ℕ → ℕ → ℕ → Idt → Idt
idt_set_entry n handler selector type_attr dpl idt = record idt {
  entry = λ k. if k == n then make_entry handler selector type_attr dpl else idt.entry k;
}

-- The address of a stub: 16 bytes are kept for each, from `isr_stubs` on.
abbrev pub stub_at : ℕ → ℕ → ℕ
stub_at isr_stubs interrupt_id = isr_stubs + interrupt_id * 16

-- `jump_target`: the distance from the end of the jump instruction to `isr`.
abbrev pub jump_target : ℕ → ℕ → ℕ
jump_target isr stub = sub_u32 isr (stub + 2 + 5)

-- The stub's code: `push imm8`, `jmp rel32`, the distance stored low byte first.
abbrev pub stub_code : ℕ → ℕ → ℕ → List ℕ
stub_code isr stub interrupt_id =
    let rel = jump_target isr stub in
    0x6A ∷ u8 interrupt_id ∷ 0xE9 ∷ u8 rel ∷ u8 (rel >>> 8) ∷ u8 (rel >>> 16) ∷ u8 (rel >>> 24) ∷ []

module _ (isr_stubs : ℕ) where
  unfoldable pub idt_create_stub : ℕ → ℕ → Idt → ℕ × Idt
  idt_create_stub isr interrupt_id idt =
      let n = u8 interrupt_id in
      let stub = stub_at isr_stubs n in
      (stub, record idt { stub = λ k. if k == n then stub_code isr stub n else idt.stub k })

  unfoldable pub idt_set_interrupt_32 : ℕ → ℕ → Idt → Idt
  unfolding idt_create_stub idt_set_entry
  idt_set_interrupt_32 interrupt_id handler idt =
      let (stub, idt') = idt_create_stub handler interrupt_id idt in
      idt_set_entry interrupt_id stub 0x08 0x8E 0 idt'

  -- `if (!stub) return`: the address of a place in an array is not NULL.
  unfoldable pub idt_ignore_interrupt : ℕ → ℕ → Idt → Idt
  unfolding idt_create_stub idt_set_entry
  idt_ignore_interrupt idt_common_isr interrupt_id idt =
      let (stub, idt') = idt_create_stub idt_common_isr interrupt_id idt in
      if stub == 0 then idt' else idt_set_entry (u8 interrupt_id) stub 0x08 0x8E 0 idt'

  -- The loop of `idt_ignore_all`, with `n` vectors left at `i`.
  unfoldable pub ignore_from : ℕ → ℕ → ℕ → Idt → Idt
  ignore_from idt_common_isr i zero idt = idt
  ignore_from idt_common_isr i (suc n) idt =
      ignore_from idt_common_isr (i + 1) n (idt_ignore_interrupt idt_common_isr i idt)

  unfoldable pub idt_ignore_all : ℕ → Idt → Idt
  idt_ignore_all idt_common_isr idt = ignore_from idt_common_isr 0 idt_size idt
