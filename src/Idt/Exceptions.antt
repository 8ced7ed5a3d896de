-- ===== src/Idt/Exceptions.antt =====
-- The handlers of the processor's exceptions, and the gates that lead to them:
-- kernel/IDT/ISRs/exceptions/exceptions.c.
use Prim.Native.Char.{code}
use Prim.Native.String.{String}
use my_operating_system.Base.{
  ℕ, ◌+◌, ◌-◌, ◌≤◌, ◌<◌, ◌^◌, ◌≡◌, refl, arith, List, [], ◌∷◌, length, get_or, get_or-cons, ap,
  lt→ltb, ltb, leb, ◌&&◌, if◌then◌else◌,
}
use my_operating_system.Io.{Trace, halt}
use my_operating_system.Screen.{Screen, print_string}
use my_operating_system.Idt.{Idt, make_entry, idt_set_entry}
use my_operating_system.Idt.Gates.{entry-idt_set_entry, handler_of, handler_of-make_entry}

-- One constructor for each handler function.
pub data Exception : Type 0 where
  division_error debug non_maskable_interrupt breakpoint : Exception
  overflow bound_range_exceeded invalid_opcode device_not_available : Exception
  double_fault coprocessor_segment_overrun invalid_tss segment_not_present : Exception
  stack_segment_fault general_protection_fault page_fault reserved : Exception
  x87_floating_point alignment_check machine_check simd_floating_point : Exception
  virtualization control_protection hypervisor_injection vmm_communication : Exception
  security : Exception

-- What a handler prints.
unfoldable pub message : Exception → String
message division_error = "Error: Division_Error (0x00) exception occured! halting..."
message debug = "Error: Debug (0x01) exception occured! halting..."
message non_maskable_interrupt =
    "Error: Non_maskable_Interrupt (0x02) exception occured! halting..."
message breakpoint = "Error: Breakpoint (0x03) exception occured! halting..."
message overflow = "Error: Overflow (0x04) exception occured! halting..."
message bound_range_exceeded = "Error: Bound_Range_Exceeded (0x05) exception occured! halting..."
message invalid_opcode = "Error: Invalid_Opcode (0x06) exception occured! halting..."
message device_not_available = "Error: Device_Not_Available (0x07) exception occured! halting..."
message double_fault = "Error: Double_Fault (0x08) exception occured! halting..."
message coprocessor_segment_overrun =
    "Error: Coprocessor_Segment_Overrun (0x09) exception occured! halting..."
message invalid_tss = "Error: Invalid_TSS (0x0A) exception occured! halting..."
message segment_not_present = "Error: Segment_Not_Present (0x0B) exception occured! halting..."
message stack_segment_fault = "Error: Stack_Segment_Fault (0x0C) exception occured! halting..."
message general_protection_fault =
    "Error: General_Protection_Fault (0x0D) exception occured! halting..."
message page_fault = "Error: Page_Fault (0x0E) exception occured! halting..."
message reserved =
    "Error: Reserved (0x0F, 0x16, 0x17, 0x18, 0x19, 0x1A, 0x1B, 0x1F) exception occured! halting..."
message x87_floating_point =
    "Error: x87_Floating_Point_Exception (0x10) exception occured! halting..."
message alignment_check = "Error: Alignment_Check (0x11) exception occured! halting..."
message machine_check = "Error: Machine_Check (0x12) exception occured! halting..."
message simd_floating_point =
    "Error: SIMD_Floating_Point_Exception (0x13) exception occured! halting..."
message virtualization = "Error: Virtualization_Exception (0x14) exception occured! halting..."
message control_protection =
    "Error: Control_Protection_Exception (0x15) exception occured! halting..."
message hypervisor_injection =
    "Error: Hypervisor_Injection_Exception (0x1C) exception occured! halting..."
message vmm_communication =
    "Error: VMM_Communication_Exception (0x1D) exception occured! halting..."
message security = "Error: Security_Exception (0x1E) exception occured! halting..."

abbrev codes : String → List ℕ
codes String.[] = []
codes (String.◌∷◌ c s) = code c ∷ codes s

-- A handler with the first `n` rounds of `halt`.
unfoldable pub handle : Exception → ℕ → Screen → Trace → Screen × Trace
unfolding message
handle e n s t = (print_string (codes (message e)) s, halt n t)

-- The handlers in the order of their vectors, 0x00 to 0x1F.
unfoldable pub handlers : List Exception
handlers =
    division_error ∷ debug ∷ non_maskable_interrupt ∷ breakpoint ∷ overflow ∷ bound_range_exceeded
    ∷ invalid_opcode ∷ device_not_available ∷ double_fault ∷ coprocessor_segment_overrun
    ∷ invalid_tss ∷ segment_not_present ∷ stack_segment_fault ∷ general_protection_fault
    ∷ page_fault ∷ reserved ∷ x87_floating_point ∷ alignment_check ∷ machine_check
    ∷ simd_floating_point ∷ virtualization ∷ control_protection ∷ reserved ∷ reserved ∷ reserved
    ∷ reserved ∷ reserved ∷ reserved ∷ hypervisor_injection ∷ vmm_communication ∷ security
    ∷ reserved ∷ []

-- The calls of `SET_IDT_ENTRY` from vector `i` on, where `address` gives each handler's address.
unfoldable pub install_from : (Exception → ℕ) → ℕ → List Exception → Idt → Idt
install_from address i [] idt = idt
install_from address i (e ∷ es) idt =
    install_from address (i + 1) es (idt_set_entry i (address e) 0x08 0x8E 0 idt)

unfoldable pub setup_exceptions : (Exception → ℕ) → Idt → Idt
setup_exceptions address idt = install_from address 0 handlers idt

sub_suc : (k i : ℕ) → k - i - 1 ≡ k - (i + 1)
sub_suc k i = omega arith

sub_zero : (k : ℕ) → k - 0 ≡ k
sub_zero k = omega arith

length-handlers : length handlers ≡ 32
unfolding handlers
length-handlers = refl

entry-install_from :
    (address : Exception → ℕ) (i : ℕ) (es : List Exception) (idt : Idt) (k : ℕ)
    → (install_from address i es idt).entry k ≡ (
        if leb i k && ltb k (i + length es)
        then make_entry (address (get_or es (k - i) reserved)) 0x08 0x8E 0
        else idt.entry k)
unfolding install_from
entry-install_from address i [] idt k = ground arith
entry-install_from address i (e ∷ es) idt k = ground (
  arith,
  entry-install_from address (i + 1) es (idt_set_entry i (address e) 0x08 0x8E 0 idt) k,
  entry-idt_set_entry i (address e) 0x08 0x8E 0 idt k,
  get_or-cons e es (k - i) reserved,
  ap (λ (t : ℕ). get_or es t reserved) (sub_suc k i),
)

module _ (address : Exception → ℕ) (idt : Idt) (k : ℕ) where
  pub entry-setup : (setup_exceptions address idt).entry k ≡ (
      if ltb k 32
      then make_entry (address (get_or handlers k reserved)) 0x08 0x8E 0
      else idt.entry k)
  unfolding setup_exceptions
  entry-setup = ground (
    arith,
    length-handlers,
    entry-install_from address 0 handlers idt k,
    ap (λ (t : ℕ). get_or handlers t reserved) (sub_zero k),
  )

-- After `setup_exceptions` the gate of each of the 32 exception vectors leads to the handler that
-- the table gives it, in the kernel's code segment, and every other gate is as before.
pub setup_exceptions_lem :
    (address : Exception → ℕ) (idt : Idt) (k : ℕ)
    → ((e : Exception) → address e < 2 ^ 32)
    → let idt' = setup_exceptions address idt in
      (k < 32
        → (handler_of (idt'.entry k) ≡ address (get_or handlers k reserved))
          × ((idt'.entry k).selector ≡ 0x08))
      × (32 ≤ k → idt'.entry k ≡ idt.entry k)
setup_exceptions_lem address idt k small = (
  λ h.
      rw (entry-setup address idt k, lt→ltb k 32 h)
        (handler_of-make_entry (address (get_or handlers k reserved)) 0x08 0x8E 0 (small _), refl),
  λ h. ground (arith, entry-setup address idt k),
)
