-- ===== src/Fat/Open/Init.antt =====
-- What `fat_init` accepts, and what it reports.
use mathlib.Core.Path.{subst}
use my_operating_system.Base.{
  ℕ, ◌+◌, ◌≤◌, ◌<◌, ◌≡◌, ◌≢◌, ◌⊎◌, inl, inr, refl, sym, ◌∙◌, arith, none, some, ◌==◌, ◌!=◌, ◌&&◌,
  ◌||◌, Bool-cases,
}
use my_operating_system.Io.{Device}
use my_operating_system.Ata.{ata_primary, pio28_read}
use my_operating_system.Ata.Stores.{pio28_read_stores}
use my_operating_system.Machine.{Machine, call_pio28_read, call_zalloc, fat16_ok, fat16_fail}
use my_operating_system.Fat.{
  BootSector, FatError, ok, invalid_boot_signature, invalid_ebr_signature,
  critical_bpb_value_is_zero, check_boot_sector, layout,
}
use my_operating_system.Fat.Chain.{Volume}
use my_operating_system.Fat.Described.{IsSized, IsLayout, layout-IsLayout}
use my_operating_system.Fat.Open.{
  boot_sector_at, read_boot_sector, load_fat, load_root_directory, load_tables, checked, fat_init,
}

-- The boot sectors that describe a volume.
pub record IsBootable (b : BootSector) : Type 0 where
  pub signed : b.boot_signature ≡ 0xAA55
  pub extended : (b.ebr_signature ≡ 0x28) ⊎ (b.ebr_signature ≡ 0x29)
  pub sector : b.bytes_per_sector ≢ 0
  pub cluster : b.sectors_per_cluster ≢ 0
  pub table : b.sectors_per_fat ≢ 0

-- An error that the checks of the boot sector report.
abbrev pub IsRefusal : FatError → Type 0
IsRefusal e =
    (e ≡ invalid_boot_signature) ⊎ (e ≡ invalid_ebr_signature) ⊎ (e ≡ critical_bpb_value_is_zero)

check-cases :
    (b : BootSector)
    → ((check_boot_sector b ≡ ok) × IsBootable b)
      ⊎ (IsRefusal (check_boot_sector b) × ¬ IsBootable b)
unfolding check_boot_sector
check-cases b = elim (Bool-cases (b.boot_signature != 0xAA55)) [
  | inl e ↦ rw e (inr (inl refl, λ v. let h = v.signed in absurd (ground (arith, h, e))))
  | inr e ↦ elim (Bool-cases (b.ebr_signature != 0x28 && (b.ebr_signature != 0x29))) [
    | inl e' ↦
        rw (e, e') (inr (inr (inl refl), λ v. let h = v.extended in absurd (ground (arith, h, e'))))
    | inr e' ↦
        let zero =
          (b.bytes_per_sector == 0) || (b.sectors_per_cluster == 0) || (b.sectors_per_fat == 0) in
        elim (Bool-cases zero) [
          | inl e'' ↦
              rw (e, e', e'')
                (inr (
                  inr (inr refl),
                  λ v.
                      let a = v.sector in
                      let c = v.cluster in let d = v.table in absurd (ground (arith, a, c, d, e'')),
                ))
          | inr e'' ↦
              rw (e, e', e'')
                (inl (
                  refl,
                  record {
                    signed = ground (arith, e);
                    extended = ground (arith, e');
                    sector = ground (arith, e'');
                    cluster = ground (arith, e'');
                    table = ground (arith, e'');
                  },
                ))
        ]
  ]
]

-- The first reads leave no error behind.
load_tables-lem :
    (dev : Device) (b : BootSector) (s : Machine)
    → (v : Volume) × (s' : Machine) × (load_tables dev b s ≡ some (some v, s'))
      × (v.layout ≡ layout b)
      × (v.root_dir_entries ≡ b.root_dir_entries)
      × (s'.fat_error ≡ ok)
unfolding load_tables load_fat load_root_directory call_zalloc call_pio28_read fat16_ok
load_tables-lem dev b s = (_, _, refl, refl, refl, refl)

checked-ok :
    (dev : Device) (e : FatError) (b : BootSector) (s : Machine)
    → e ≡ ok
    → checked dev e b s ≡ load_tables dev b s
unfolding checked
checked-ok dev e b s r = rw r refl

checked-refusal :
    (dev : Device) (e : FatError) (b : BootSector) (s : Machine)
    → IsRefusal e
    → checked dev e b s ≡ some (none, record s { fat_error = e })
unfolding checked fat16_fail
checked-refusal dev e b s (inl r) = rw r refl
checked-refusal dev e b s (inr (inl r)) = rw r refl
checked-refusal dev e b s (inr (inr r)) = rw r refl

-- `fat_init` always returns. From a boot sector with both signatures and no zero among the sizes
-- it makes a volume, and reports success; where the fields have the widths of their types and a
-- sector has more than 32 bytes, the tables, the root directory and the data lie where the sector
-- says, one behind the other. Any other boot sector is refused with one of the three errors for it;
-- then nothing has been allocated, and no byte but those of the sector has changed.
pub fat_init_lem :
    (dev : Device) (bs : ℕ) (s : Machine)
    → let b = boot_sector_at (pio28_read dev bs ata_primary 1 0 s.ata).1.memory bs in
      (IsBootable b
        × ((v : Volume) × (s' : Machine) × (fat_init dev bs s ≡ some (some v, s'))
            × (IsSized b → IsLayout b v.layout)
            × (v.root_dir_entries ≡ b.root_dir_entries)
            × (s'.fat_error ≡ ok)))
      ⊎ ((¬ IsBootable b)
          × ((s' : Machine) × (fat_init dev bs s ≡ some (none, s'))
              × IsRefusal s'.fat_error
              × (s'.heap ≡ s.heap)
              × ((x : ℕ) → (x < bs) ⊎ (bs + 512 ≤ x) → s'.ata.memory x ≡ s.ata.memory x)))
unfolding fat_init read_boot_sector call_pio28_read
fat_init_lem dev bs s =
    let ata = (pio28_read dev bs ata_primary 1 0 s.ata).1 in
    let b = boot_sector_at ata.memory bs in
    elim (check-cases b) [
      | inl (good, bootable) ↦
          let (v, s', e, l, n, r) = load_tables-lem dev b (record s { ata = ata }) in
          inl (
            bootable,
            (
              v,
              s',
              checked-ok dev (check_boot_sector b) b _ good ∙ e,
              λ sized. subst (IsLayout b) (sym l) (layout-IsLayout b sized),
              n,
              r,
            ),
          )
      | inr (bad, not_bootable) ↦ inr (
        not_bootable,
        (
          _,
          checked-refusal dev (check_boot_sector b) b (record s { ata = ata }) bad,
          bad,
          refl,
          λ x h. pio28_read_stores dev bs ata_primary 1 0 s.ata x (omega arith),
        ),
      )
    ]
