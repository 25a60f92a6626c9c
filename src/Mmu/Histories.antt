-- ===== src/Mmu/Histories.antt =====
-- The MMU over any calls on a new object.
use acheron_arm.Base.{ℕ, ◌≡◌, refl, defined, arith, List, All}
use acheron_arm.Mmu.Types.{MemoryRegion}
use acheron_arm.Mmu.State.{Mmu, new_mmu}
use acheron_arm.Mmu.Translate.{Begin, Call, translate_with_attributes, run}
use acheron_arm.Mmu.Cases.{run-keeps}
use acheron_arm.Mmu.Walks.{result_of}
use acheron_arm.Mmu.Uncached.{uncached}
use acheron_arm.Mmu.Cached.{IsLow, IsCoherentMmu, translate-uncached}
use acheron_arm.Mmu.Transparent.{IsLowCall, step-IsCoherentMmu, emptied}

module _ (read_descriptor : ℕ → ℕ → ℕ) (begin : Begin) where
  run-IsCoherentMmu :
      (cs : List Call) (m n : Mmu)
      → IsCoherentMmu read_descriptor m
      → All IsLowCall cs
      → run read_descriptor begin m cs ≡ defined n
      → IsCoherentMmu read_descriptor n
  run-IsCoherentMmu =
      run-keeps read_descriptor begin (IsCoherentMmu read_descriptor) IsLowCall
        (step-IsCoherentMmu read_descriptor begin)

  -- The TLB is transparent. Take any descriptors in memory, and any calls on a new object whose
  -- translations are of addresses below 2 ^ 48 with 16-bit ASIDs and whose TCR values have T0SZ and
  -- T1SZ up to 52. Then a further such translation, from the TLB or by a walk, gives the address
  -- or the fault that the page tables give with no TLB, and is undefined exactly if that walk is.
  pub translate-transparent :
      (cs : List Call) (n : Mmu) (va : ℕ) (region : MemoryRegion) (asid : ℕ)
      → All IsLowCall cs
      → run read_descriptor begin new_mmu cs ≡ defined n
      → IsLow va asid
      → result_of (translate_with_attributes read_descriptor begin n va region asid)
        ≡ uncached read_descriptor n va
  unfolding new_mmu
  translate-transparent cs n va region asid lows ran low =
      let start = emptied read_descriptor begin new_mmu refl (omega arith) in
      let v = run-IsCoherentMmu cs new_mmu n start lows ran in
      translate-uncached read_descriptor begin n va region asid v.coherent low
