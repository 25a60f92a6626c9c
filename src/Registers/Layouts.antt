-- ===== src/Registers/Layouts.antt =====
-- The bit-field layouts of the register structs, in the order of declaration, and the accesses
-- that the program makes. A comment behind a field in the source gives the bits it should take.
use acheron_arm.Base.{ℕ, ◌<◌, ◌^◌, ◌≡◌, refl, List, [], ◌∷◌, All}
use acheron_arm.Registers.Bitfields.{
  bit_field, all_fields, from_fields, total_width, first_bits, from_fields-all_fields,
}

-- M A C SA SA0 _ ITD _ I DZE _ UCT nTWE _ nTWI _ UCI _ EE _ E0E SPAN _ ENIA ENIB _ BT0 BT1 _
abbrev pub sctlr_layout : List ℕ
sctlr_layout =
    1 ∷ 1 ∷ 1 ∷ 1 ∷ 1 ∷ 3 ∷ 1 ∷ 3 ∷ 1 ∷ 1 ∷ 2 ∷ 1 ∷ 1 ∷ 1 ∷ 1 ∷ 4 ∷ 1 ∷ 3 ∷ 1 ∷ 1 ∷ 1 ∷ 1 ∷ 4 ∷ 1
    ∷ 1 ∷ 2 ∷ 1 ∷ 1 ∷ 22 ∷ []

-- T0SZ _ IRGN0 ORGN0 SH0 TG0 T1SZ A1 _ IRGN1 ORGN1 SH1 TG1 _ IPS _ AS TBI0 TBI1 _
abbrev pub tcr_layout : List ℕ
tcr_layout = 6 ∷ 2 ∷ 2 ∷ 2 ∷ 2 ∷ 2 ∷ 6 ∷ 1 ∷ 1 ∷ 2 ∷ 2 ∷ 2 ∷ 2 ∷ 2 ∷ 3 ∷ 1 ∷ 1 ∷ 1 ∷ 1 ∷ 23 ∷ []

-- BADDR ASID, of TTBR0_EL1 and of TTBR1_EL1
abbrev pub ttbr_layout : List ℕ
ttbr_layout = 48 ∷ 16 ∷ []

abbrev pub ttbr1_layout : List ℕ
ttbr1_layout = 48 ∷ 16 ∷ []

-- ISS _ EC IL _
abbrev pub esr_layout : List ℕ
esr_layout = 25 ∷ 1 ∷ 6 ∷ 1 ∷ 31 ∷ []

-- Aff0 Aff1 Aff2 Aff3 _ U _
abbrev pub mpidr_layout : List ℕ
mpidr_layout = 8 ∷ 8 ∷ 8 ∷ 8 ∷ 7 ∷ 1 ∷ 24 ∷ []

-- `SCTLR_EL1::M`
abbrev pub sctlr_m : ℕ → ℕ
sctlr_m = bit_field sctlr_layout 0

-- `TTBR0_EL1::BADDR` and `TTBR0_EL1::ASID`
abbrev pub baddr : ℕ → ℕ
baddr = bit_field ttbr_layout 0

abbrev pub ttbr_asid : ℕ → ℕ
ttbr_asid = bit_field ttbr_layout 1

-- `ESR_EL1::EC` and `ESR_EL1::IL`
abbrev pub esr_ec : ℕ → ℕ
esr_ec = bit_field esr_layout 2

abbrev pub esr_il : ℕ → ℕ
esr_il = bit_field esr_layout 3

abbrev pub register_layouts : List (List ℕ)
register_layouts =
    sctlr_layout ∷ tcr_layout ∷ ttbr_layout ∷ ttbr1_layout ∷ esr_layout ∷ mpidr_layout ∷ []

-- Each register layout takes exactly 64 bits.
layout_widths : All (λ ws. total_width ws ≡ 64) register_layouts
layout_widths = (refl, (refl, (refl, (refl, (refl, (refl, tt))))))

-- In SCTLR_EL1 the fields start at the bits that the comments give.
sctlr_first_bits :
    first_bits 0 sctlr_layout
    ≡ 0 ∷ 1 ∷ 2 ∷ 3 ∷ 4 ∷ 5 ∷ 8 ∷ 9 ∷ 12 ∷ 13 ∷ 14 ∷ 16 ∷ 17 ∷ 18 ∷ 19 ∷ 20 ∷ 24 ∷ 25 ∷ 28 ∷ 29 ∷ 30
      ∷ 31 ∷ 32 ∷ 36 ∷ 37 ∷ 38 ∷ 40 ∷ 41 ∷ 42 ∷ []
sctlr_first_bits = refl

tcr_first_bits :
    first_bits 0 tcr_layout
    ≡ 0 ∷ 6 ∷ 8 ∷ 10 ∷ 12 ∷ 14 ∷ 16 ∷ 22 ∷ 23 ∷ 24 ∷ 26 ∷ 28 ∷ 30 ∷ 32 ∷ 34 ∷ 37 ∷ 38 ∷ 39 ∷ 40 ∷ 41
      ∷ []
tcr_first_bits = refl

-- The fields of each of the six register structs determine its 64-bit value: for every value
-- below 2 ^ 64, putting the fields back together gives the value.
pub register_layouts_roundtrip :
    (v : ℕ) → v < 2 ^ 64 → All (λ ws. from_fields ws (all_fields ws v) ≡ v) register_layouts
register_layouts_roundtrip v h = assumption (
  from_fields-all_fields sctlr_layout v h,
  from_fields-all_fields tcr_layout v h,
  from_fields-all_fields ttbr_layout v h,
  from_fields-all_fields ttbr1_layout v h,
  from_fields-all_fields esr_layout v h,
  from_fields-all_fields mpidr_layout v h,
  tt,
)
