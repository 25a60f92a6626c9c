-- ===== src/Mmu/Contract.antt =====
-- The registers of the object against those of the specification, and one translation.
use acheron_arm.Base.{
  ℕ, ◌^◌, ◌<◌, ◌≡◌, refl, ap, inl, inr, Option, none, some, Defined, defined, Defined-cases, arith,
}
use acheron_arm.Registers.Ttbr.{mask_low_16}
use acheron_arm.Mmu.Types.{MemoryRegion, blank_region}
use acheron_arm.Mmu.State.{Mmu}
use acheron_arm.Mmu.Walk.{Walked, walk_from, walk_page_tables, select_table, count_walk}
use acheron_arm.Mmu.Translate.{
  Begin, Call, sets_ttbr0, sets_ttbr1, translate_with_attributes, finish, count_miss, count_hit,
}
use acheron_arm.Mmu.Cases.{translate_cases}
use acheron_arm.Mmu.Frame.{walk_page_tables-SameTables}
use acheron_arm.Mmu.Ranges.{select_table_lem}
use acheron_arm.Mmu.Walks.{result_of}
use acheron_arm.Mmu.Uncached.{uncached}
use acheron_arm.Mmu.Refines.{walk_level-walk}
use acheron_arm.Mmu.Spec
use acheron_arm.Mmu.Spec.{Tables, no_tables, start_of}

-- The registers of the object, and that they are 64-bit words.
abbrev pub tables_of : Mmu → Tables
tables_of m = record { ttbr0 = m.ttbr0; ttbr1 = m.ttbr1; tcr = m.tcr }

abbrev pub AreWords : Mmu → Type 0
AreWords m = (m.ttbr0 < 2 ^ 64) × (m.ttbr1 < 2 ^ 64)

-- The arguments of the two register calls are 64-bit words.
abbrev pub IsWordCall : Call → Type 0
IsWordCall (sets_ttbr0 value) = value < 2 ^ 64
IsWordCall (sets_ttbr1 value) = value < 2 ^ 64
IsWordCall _ = Unit {0}

select_table-start_of :
    (m : Mmu) (va : ℕ) → AreWords m → select_table m va ≡ start_of (tables_of m) va
unfolding start_of
select_table-start_of m va h =
    ground (arith, select_table_lem m va, mask_low_16 m.ttbr0 h.0, mask_low_16 m.ttbr1 h.1)

module _ (read_descriptor : ℕ → ℕ → ℕ) where
  walk_from-walk :
      (va : ℕ) (m : Mmu) (region : MemoryRegion) (t : Option ℕ)
      → result_of (walk_from read_descriptor va m region t) ≡ elim t as (λ _. Defined (Option ℕ)) [
        | none ↦ defined none
        | some base ↦ Spec.walk read_descriptor 5 va base
      ]
  unfolding walk_from
  walk_from-walk va m region none = refl
  walk_from-walk va m region (some base) = walk_level-walk read_descriptor 5 va base m region

  pub uncached-lookup :
      (m : Mmu) (va : ℕ)
      → AreWords m
      → uncached read_descriptor m va ≡ Spec.lookup read_descriptor (tables_of m) va
  unfolding uncached walk_page_tables Spec.lookup count_walk
  uncached-lookup m va h =
      let same : select_table (count_walk m) va ≡ start_of (tables_of m) va =
        select_table-start_of (count_walk m) va h in
      rw (← same) (elim (Defined-cases (select_table (count_walk m) va)) [
        | inl u ↦ rw u refl
        | inr (t, d) ↦ rw d (walk_from-walk va (count_walk m) blank_region t)
      ])

finish-tables_of :
    (begin : Begin) (va asid : ℕ) (w : Walked)
    → tables_of (finish begin va asid w).0 ≡ tables_of w.0
unfolding finish
finish-tables_of begin va asid (m, region, none) = refl
finish-tables_of begin va asid (m, region, some pa) = refl

module _ (read_descriptor : ℕ → ℕ → ℕ) (begin : Begin) where
  -- A translation leaves the registers.
  pub translate-tables_of :
      (m : Mmu) (va : ℕ) (region : MemoryRegion) (asid : ℕ) (w : Walked)
      → translate_with_attributes read_descriptor begin m va region asid ≡ defined w
      → tables_of w.0 ≡ tables_of m
  unfolding count_hit count_miss
  translate-tables_of m va region asid w e =
      elim (translate_cases read_descriptor begin m va region asid w e) [
        | inl hit ↦ rw hit.returned refl
        | inr miss ↦
            let frame =
              walk_page_tables-SameTables read_descriptor (count_miss m) va region miss.walked
                miss.walks in
            ground (arith, miss.returned, finish-tables_of begin va asid miss.walked, frame)
      ]

  pub keeps_words :
      (m : Mmu) (va : ℕ) (region : MemoryRegion) (asid : ℕ) (w : Walked)
      → AreWords m
      → translate_with_attributes read_descriptor begin m va region asid ≡ defined w
      → AreWords w.0
  keeps_words m va region asid w words e =
      let same = translate-tables_of m va region asid w e in
      (rw (ap (λ t. t.ttbr0) same) words.0, rw (ap (λ t. t.ttbr1) same) words.1)
