-- ===== src/Mmu/Stub.antt =====
-- The MMU as it is built: the walk reads 0 for every descriptor.
use acheron_arm.Base.{
  ℕ, ◌≡◌, refl, inl, inr, Option, none, some, defined, undefined, Defined-cases, List, [], arith,
}
use acheron_arm.Mmu.Types.{MemoryRegion, blank_region}
use acheron_arm.Mmu.Descriptor.{is_valid}
use acheron_arm.Mmu.Tlb.{find, erase, drop_asid}
use acheron_arm.Mmu.State.{
  Mmu, new_mmu, set_ttbr0, set_ttbr1, set_tcr, tlb_invalidate_all, reset_stats,
}
use acheron_arm.Mmu.Walk.{
  Walked, count_fault, count_walk, stub_descriptor, select_table, walk_level, walk_from,
  walk_page_tables,
}
use acheron_arm.Mmu.Translate.{
  Begin, Call, translates, translates_with, count_miss, valid_entry, finish, translate,
  translate_with_attributes, step, run, tlb_invalidate_va, tlb_invalidate_asid,
}
use acheron_arm.Mmu.Cases.{
  run-keeps, AnyCall, any_calls, step_translates, step_translates_with, translate_cases,
  translate-miss,
}
use acheron_arm.Mmu.Ranges.{t0sz, select_table_lem}

walk_from_stub :
    (va : ℕ) (m : Mmu) (region : MemoryRegion) (t : Option ℕ)
    → walk_from stub_descriptor va m region t ≡ defined (count_fault m, region, none)
unfolding walk_from walk_level stub_descriptor is_valid
walk_from_stub va m region none = refl
walk_from_stub va m region (some base) = refl

walk_stub :
    (m : Mmu) (va : ℕ) (region : MemoryRegion) (w : Walked)
    → walk_page_tables stub_descriptor m va region ≡ defined w
    → w ≡ (count_fault (count_walk m), region, none)
unfolding walk_page_tables
walk_stub m va region w e = elim (Defined-cases (select_table (count_walk m) va)) [
  | inl u ↦ cc
  | inr (t, d) ↦ ground (arith, walk_from_stub va (count_walk m) region t)
]

-- The outcome of every translation that returns, on an empty TLB.
pub record Faults (m : Mmu) (region : MemoryRegion) (w : Walked) : Type 0 where
  pub no_address : w.2 ≡ none
  pub same_region : w.1 ≡ region
  pub counted : w.0 ≡ count_fault (count_walk (count_miss m))

module _ (begin : Begin) where
  translate_stub :
      (m : Mmu) (va : ℕ) (region : MemoryRegion) (asid : ℕ) (w : Walked)
      → m.tlb ≡ []
      → translate_with_attributes stub_descriptor begin m va region asid ≡ defined w
      → Faults m region w
  unfolding valid_entry find finish
  translate_stub m va region asid w empty e =
      elim (translate_cases stub_descriptor begin m va region asid w e) [
        | inl hit ↦ absurd (ground (arith, hit.found))
        | inr miss ↦
            let faulted = walk_stub (count_miss m) va region miss.walked miss.walks in
            rw (miss.returned, faulted)
              (record { no_address = refl; same_region = refl; counted = refl })
      ]

  step_stub :
      (m n : Mmu) (c : Call) → m.tlb ≡ [] → step stub_descriptor begin m c ≡ defined n → n.tlb ≡ []
  unfolding step translate tlb_invalidate_all tlb_invalidate_va tlb_invalidate_asid set_ttbr0
      set_ttbr1 set_tcr reset_stats erase drop_asid count_fault count_walk count_miss
  step_stub m n (translates va asid) h e =
      let (w, d, same) = step_translates stub_descriptor begin m n va asid e in
      ground (arith, translate_stub m va blank_region asid w h d)
  step_stub m n (translates_with va region asid) h e =
      let (w, d, same) = step_translates_with stub_descriptor begin m n va region asid e in
      ground (arith, translate_stub m va region asid w h d)
  step_stub m n _ h e = ground arith

  -- As the code stands, after any calls on a new object the TLB is empty, and a translation that
  -- returns is a translation fault: no address, the region as it was passed, and one more miss,
  -- page walk and fault in the statistics.
  pub stub_never_translates :
      (cs : List Call) (n : Mmu) (va : ℕ) (region : MemoryRegion) (asid : ℕ) (w : Walked)
      → run stub_descriptor begin new_mmu cs ≡ defined n
      → translate_with_attributes stub_descriptor begin n va region asid ≡ defined w
      → (n.tlb ≡ []) × Faults n region w
  unfolding new_mmu
  stub_never_translates cs n va region asid w ran e =
      let empty =
        run-keeps stub_descriptor begin (λ m. m.tlb ≡ []) AnyCall (λ k l c h any. step_stub k l c h)
          cs new_mmu n refl (any_calls cs) ran in
      (empty, translate_stub n va region asid w empty e)

-- Whatever the descriptors hold, a translation on an empty TLB with T0SZ = 0 is undefined: it
-- shifts 1 by 64.
pub translate-undefined :
    (read_descriptor : ℕ → ℕ → ℕ) (begin : Begin) (m : Mmu) (va : ℕ) (region : MemoryRegion)
    (asid : ℕ)
    → m.tlb ≡ []
    → t0sz m ≡ 0
    → translate_with_attributes read_descriptor begin m va region asid ≡ undefined
unfolding valid_entry find walk_page_tables count_miss count_walk
translate-undefined read begin m va region asid empty t = ground (
  arith,
  translate-miss read begin m va region asid,
  select_table_lem (count_walk (count_miss m)) va,
)
