-- ===== src/Pic/Masks.antt =====
-- Masking and unmasking of one interrupt line.
use my_operating_system.Base.{
  ℕ, ◌/◌, ◌%◌, ◌^◌, ◌<◌, ◌≡◌, refl, arith, Bool, true, ◌∷◌, ◌==◌, if◌then◌else◌, u8, ==_iff, ap,
}
use my_operating_system.Base.Bits.{all_below, all_below_at}
use my_operating_system.Io.{out, input, Trace, Device}
use my_operating_system.Pic.{line_port, with_line, without_line, irq_set_mask, irq_clear_mask}

-- The bit of the mask for a line: 1 is masked.
abbrev pub bit_at : ℕ → ℕ → ℕ
bit_at v line = v / 2 ^ line % 2

agrees : (ℕ → ℕ → ℕ) → ℕ → ℕ → ℕ → ℕ → Bool
agrees change new line v i = bit_at (change v line) i == (if i == line then new else bit_at v i)

agrees_all : (ℕ → ℕ → ℕ) → ℕ → Bool
agrees_all change new =
    all_below 8 (λ line. all_below 256 (λ v. all_below 8 (λ i. agrees change new line v i)))

with_table : agrees_all with_line 1 ≡ true
unfolding agrees_all agrees with_line
with_table = refl

without_table : agrees_all without_line 0 ≡ true
unfolding agrees_all agrees without_line
without_table = refl

agrees_at :
    (change : ℕ → ℕ → ℕ) (new line v i : ℕ)
    → agrees_all change new ≡ true
    → line < 8
    → v < 256
    → i < 8
    → bit_at (change v line) i ≡ (if i == line then new else bit_at v i)
unfolding agrees_all agrees
agrees_at change new line v i table hl hv hi =
    let at_line : all_below 256 (λ u. all_below 8 (agrees_bit line u)) ≡ true =
      all_below_at 8 (λ l. all_below 256 (λ u. all_below 8 (agrees_bit l u))) line table hl in
    let at_value : all_below 8 (agrees_bit line v) ≡ true =
      all_below_at 256 (λ u. all_below 8 (agrees_bit line u)) v at_line hv in
    (==_iff _ _).0 (all_below_at 8 (agrees_bit line v) i at_value hi)
  where
    agrees_bit : ℕ → ℕ → ℕ → Bool
    agrees_bit l u k = agrees change new l u k

-- `t'` is `t` with a read of the mask port of the line's controller and a write of the value read,
-- changed at the line's bit alone.
abbrev pub Rewrites : Device → ℕ → ℕ → Trace → Trace → Type 0
Rewrites dev irq_line new t t' =
    let (port, line) = line_port irq_line in
    (v : ℕ) × (t' ≡ out port v ∷ input port ∷ t)
    × ((i : ℕ) → i < 8 → bit_at v i ≡ (if i == line then new else bit_at (u8 (dev t port)) i))

-- `irq_set_mask` sets the bit of its line in the mask that the controller reports, and
-- `irq_clear_mask` clears it; every other bit is written back as it was read.
pub irq_mask_lem :
    (dev : Device) (irq_line : ℕ) (t : Trace)
    → irq_line < 16
    → Rewrites dev irq_line 1 t (irq_set_mask dev irq_line t)
      × Rewrites dev irq_line 0 t (irq_clear_mask dev irq_line t)
unfolding irq_set_mask irq_clear_mask
irq_mask_lem dev irq_line t h = (
  (
    with_line old line,
    ap (λ (w : ℕ). out port w ∷ input port ∷ t) (unfold with_line in omega arith),
    λ i hi. agrees_at with_line 1 line old i with_table line_small (omega arith) hi,
  ),
  (
    without_line old line,
    ap (λ (w : ℕ). out port w ∷ input port ∷ t) (unfold without_line in omega arith),
    λ i hi. agrees_at without_line 0 line old i without_table line_small (omega arith) hi,
  ),
)
  where
    port : ℕ
    port = (line_port irq_line).0

    line : ℕ
    line = (line_port irq_line).1

    old : ℕ
    old = u8 (dev t port)

    line_small : line < 8
    line_small = ground arith
