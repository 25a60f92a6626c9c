-- ===== src/Mmu/State.antt =====
-- The state of `MMUEmulator` and its register operations: MMUEmulator.hpp, lines 231 to 272, and
-- MMUEmulator.cpp, lines 10 to 62.
use acheron_arm.Base.{
  ℕ, ◌-◌, Bool, not, ◌==◌, ltb, [], Defined, defined, ◌>>=◌, shift_one, bit_and, ◌>>>◌, u8, sub64,
}
use acheron_arm.Registers.Layouts.{sctlr_m}
use acheron_arm.Mmu.Types.{Stats}
use acheron_arm.Mmu.Tlb.{Tlb}

pub record Mmu : Type 0 where
  pub tlb : Tlb
  pub ttbr0 : ℕ
  pub ttbr1 : ℕ
  pub tcr : ℕ
  pub stats : Stats

-- `Stats{}`
abbrev pub zero_stats : Stats
zero_stats = record { tlb_hits = 0; tlb_misses = 0; page_walks = 0; translation_faults = 0 }

unfoldable pub reset_stats : Mmu → Mmu
reset_stats m = record m { stats = zero_stats }

-- The constructor.
unfoldable pub new_mmu : Mmu
new_mmu = record { tlb = []; ttbr0 = 0; ttbr1 = 0; tcr = 0; stats = zero_stats }

unfoldable pub is_mmu_enabled : ℕ → Bool
is_mmu_enabled sctlr = sctlr_m sctlr == 1

unfoldable pub tlb_invalidate_all : Mmu → Mmu
tlb_invalidate_all m = record m { tlb = [] }

unfoldable pub set_ttbr0 : Mmu → ℕ → Mmu
unfolding tlb_invalidate_all
set_ttbr0 m value = tlb_invalidate_all (record m { ttbr0 = value })

unfoldable pub set_ttbr1 : Mmu → ℕ → Mmu
unfolding tlb_invalidate_all
set_ttbr1 m value = tlb_invalidate_all (record m { ttbr1 = value })

unfoldable pub set_tcr : Mmu → ℕ → Mmu
unfolding tlb_invalidate_all
set_tcr m value = tlb_invalidate_all (record m { tcr = value })

unfoldable pub get_t0sz : Mmu → ℕ
get_t0sz m = u8 (bit_and m.tcr 0x3F)

unfoldable pub get_t1sz : Mmu → ℕ
get_t1sz m = u8 (bit_and (m.tcr >>> 16) 0x3F)

-- `48 - t0sz` is an `int` that is converted to `uint64_t`, where a negative one wraps.
unfoldable pub get_ttbr0_mask : Mmu → Defined ℕ
unfolding get_t0sz
get_ttbr0_mask m = do
  let ipa_bits = sub64 48 (get_t0sz m)
  one ← shift_one ipa_bits
  defined (sub64 one 1)

unfoldable pub get_ttbr1_mask : Mmu → Defined ℕ
unfolding get_t1sz
get_ttbr1_mask m = do
  let ipa_bits = sub64 48 (get_t1sz m)
  one ← shift_one ipa_bits
  defined (sub64 one 1)

-- A field of six bits, so that `64 - t0sz` is from 1 to 64.
unfoldable pub va_in_ttbr0 : Mmu → ℕ → Defined Bool
unfolding get_t0sz
va_in_ttbr0 m va = do ttbr0_size ← shift_one (64 - get_t0sz m); defined (ltb va ttbr0_size)

-- `va >= ttbr1_start`
unfoldable pub va_in_ttbr1 : Mmu → ℕ → Defined Bool
unfolding get_t1sz
va_in_ttbr1 m va = do ttbr1_start ← shift_one (64 - get_t1sz m); defined (not (ltb va ttbr1_start))
