-- ===== src/Mmu/Total.antt =====
-- When the calls on the MMU return, and the size of the addresses that they give.
use acheron_arm.Base.{
  ℕ, ◌/◌, ◌%◌, ◌^◌, ◌<◌, ◌≡◌, ◌≢◌, refl, sym, ◌∙◌, ap, inl, inr, false, none, some, defined,
  undefined, Option-cases, Defined-cases, arith, List, [], ◌∷◌, All,
}
use acheron_arm.Mmu.Types.{MemoryRegion, blank_region}
use acheron_arm.Mmu.Tlb.{tlb_key}
use acheron_arm.Mmu.State.{
  Mmu, new_mmu, set_ttbr0, set_ttbr1, set_tcr, tlb_invalidate_all, reset_stats,
}
use acheron_arm.Mmu.Walk.{Walked, walk_page_tables, select_table}
use acheron_arm.Mmu.Translate.{
  Begin, Call, translates, translates_with, invalidates_va, invalidates_asid, invalidates_all,
  resets_stats, sets_ttbr0, sets_ttbr1, sets_tcr, translate, translate_with_attributes, step, run,
  valid_entry, count_miss, tlb_invalidate_va, tlb_invalidate_asid,
}
use acheron_arm.Mmu.Cases.{translate-hit, translate-miss}
use acheron_arm.Mmu.Walks.{result_of}
use acheron_arm.Mmu.Uncached.{uncached}
use acheron_arm.Mmu.Cached.{IsLow}
use acheron_arm.Mmu.Transparent.{IsLowCall}
use acheron_arm.Mmu.Histories.{translate-transparent}
use acheron_arm.Mmu.Contract.{translate-tables_of}
use acheron_arm.Mmu.Spec.{Tables}
use acheron_arm.Mmu.Depth.{descends, walk-bound}
use acheron_arm.Mmu.Returns.{HasRanges, walk_page_tables_lem, walk_page_tables-undefined_iff}

abbrev pub SetsRanges : Call → Type 0
SetsRanges (sets_tcr value) = (0 < value % 2 ^ 6) × (0 < value / 2 ^ 16 % 2 ^ 6)
SetsRanges _ = Unit {0}

module _ (read_descriptor : ℕ → ℕ → ℕ) where
  uncached-bound :
      (m : Mmu) (va pa : ℕ)
      → uncached read_descriptor m va ≡ defined (some pa)
      → (pa < 2 ^ 48) × (pa % 2 ^ 12 ≡ va % 2 ^ 12)
  unfolding uncached
  uncached-bound m va pa e =
      let known = walk_page_tables_lem read_descriptor m va blank_region in
      elim (Defined-cases (select_table m va)) [
        | inl u ↦ absurd (ground arith)
        | inr (none, d) ↦ absurd (ground arith)
        | inr (some base, d) ↦ walk-bound read_descriptor 5 va base pa (ground arith)
      ]

  -- No five descriptors in a row have both low bits set: the tables hold no cycle and no sixth level.
  abbrev pub IsShallow : Type 0
  IsShallow = (va base : ℕ) → descends read_descriptor 5 5 va base ≡ false

  module _ (begin : Begin) (shallow : IsShallow) where
    walk-returns :
        (m : Mmu) (va : ℕ) (region : MemoryRegion)
        → HasRanges m
        → walk_page_tables read_descriptor m va region ≢ undefined
    walk-returns m va region h e =
        let (base, starts, chain) =
          (walk_page_tables-undefined_iff read_descriptor m va region h).0 e in
        absurd (ground (arith, shallow va base))

    translate-defined :
        (m : Mmu) (va : ℕ) (region : MemoryRegion) (asid : ℕ)
        → HasRanges m
        → translate_with_attributes read_descriptor begin m va region asid ≢ undefined
    unfolding count_miss
    translate-defined m va region asid h u =
        elim (Option-cases (valid_entry (tlb_key va asid) m.tlb)) [
          | inr (e, hit) ↦
              absurd (ground (arith, translate-hit read_descriptor begin m va region asid e hit))
          | inl missing ↦
              let missed = translate-miss read_descriptor begin m va region asid missing in
              elim (Defined-cases (walk_page_tables read_descriptor (count_miss m) va region)) [
                | inl stuck ↦ walk-returns (count_miss m) va region h stuck
                | inr (w, walks) ↦ absurd (ground arith)
              ]
        ]

    translate-returns :
        (m : Mmu) (va : ℕ) (region : MemoryRegion) (asid : ℕ)
        → HasRanges m
        → (w : Walked) × (translate_with_attributes read_descriptor begin m va region asid
            ≡ defined w)
          × HasRanges w.0
    translate-returns m va region asid h =
        elim (Defined-cases (translate_with_attributes read_descriptor begin m va region asid)) [
          | inl u ↦ absurd (translate-defined m va region asid h u)
          | inr (w, d) ↦
              let same =
                ap (λ (t : Tables). t.tcr)
                  (translate-tables_of read_descriptor begin m va region asid w d) in
              (w, d, ground arith)
        ]

    step-returns :
        (m : Mmu) (c : Call)
        → HasRanges m
        → SetsRanges c
        → (n : Mmu) × (step read_descriptor begin m c ≡ defined n) × HasRanges n
    unfolding step translate tlb_invalidate_va tlb_invalidate_asid set_ttbr0 set_ttbr1 set_tcr
        tlb_invalidate_all reset_stats
    step-returns m (translates va asid) h s =
        let (w, d, kept) = translate-returns m va blank_region asid h in (w.0, rw d refl, kept)
    step-returns m (translates_with va region asid) h s =
        let (w, d, kept) = translate-returns m va region asid h in (w.0, rw d refl, kept)
    step-returns m (invalidates_va va asid) h s = (_, refl, h)
    step-returns m (invalidates_asid asid) h s = (_, refl, h)
    step-returns m invalidates_all h s = (_, refl, h)
    step-returns m resets_stats h s = (_, refl, h)
    step-returns m (sets_ttbr0 value) h s = (_, refl, h)
    step-returns m (sets_ttbr1 value) h s = (_, refl, h)
    step-returns m (sets_tcr value) h s = (_, refl, s)

    run-returns :
        (cs : List Call) (m : Mmu)
        → HasRanges m
        → All SetsRanges cs
        → (n : Mmu) × (run read_descriptor begin m cs ≡ defined n) × HasRanges n
    unfolding run
    run-returns [] m h s = (m, refl, h)
    run-returns (c ∷ cs) m h s =
        let (n, d, kept) = step-returns m c h s.0 in
        let (last, ran, still) = run-returns cs n kept s.1 in (last, rw d ran, still)

    -- If no five descriptors in a row, one of each level from 0 to 4, all have both low bits set,
    -- then the calls on a new object return, none undefined, whatever they are, provided that the
    -- first sets TCR and every TCR value has both T0SZ and T1SZ.
    pub new_mmu-returns :
        (tcr : ℕ) (cs : List Call)
        → All SetsRanges (sets_tcr tcr ∷ cs)
        → (n : Mmu) × (run read_descriptor begin new_mmu (sets_tcr tcr ∷ cs) ≡ defined n)
    unfolding run step set_tcr new_mmu
    new_mmu-returns tcr cs s =
        let (n, ran, kept) = run-returns cs (set_tcr new_mmu tcr) s.0 s.1 in (n, ran)

  module _ (begin : Begin) where
    -- Take any descriptors in memory, and any calls on a new object whose translations are of
    -- addresses below 2 ^ 48 with 16-bit ASIDs and whose TCR values have T0SZ and T1SZ up to 52. If
    -- a further such translation, from the TLB or by a walk, gives an address, it is below 2 ^ 48
    -- and has the offset of the virtual address in its 4 KB page.
    pub translate-bound :
        (cs : List Call) (n : Mmu) (va : ℕ) (region : MemoryRegion) (asid pa : ℕ)
        → All IsLowCall cs
        → run read_descriptor begin new_mmu cs ≡ defined n
        → IsLow va asid
        → result_of (translate_with_attributes read_descriptor begin n va region asid)
          ≡ defined (some pa)
        → (pa < 2 ^ 48) × (pa % 2 ^ 12 ≡ va % 2 ^ 12)
    translate-bound cs n va region asid pa lows ran low e =
        uncached-bound n va pa
          (sym (translate-transparent read_descriptor begin cs n va region asid lows ran low) ∙ e)
