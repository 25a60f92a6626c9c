-- ===== src/Mmu/Uncached.antt =====
-- A translation without the TLB, as the specification of one with it.
use acheron_arm.Base.{
  ℕ, zero, suc, ◌+◌, ◌-◌, ◌/◌, ◌^◌, ◌<◌, ◌≤◌, ◌≡◌, refl, sym, ◌∙◌, inl, inr, Option, none, some,
  Defined, defined, Defined-cases, Bool-cases, Option-cases, arith, ltb,
}
use acheron_arm.Base.Bits.{two-pow-add}
use acheron_arm.Mmu.Types.{MemoryRegion, blank_region}
use acheron_arm.Mmu.Descriptor.{is_valid, is_table, get_output_address}
use acheron_arm.Mmu.State.{Mmu}
use acheron_arm.Mmu.Walk.{
  Walked, count_walk, offset_in, index_at, select_table, walk_level, walk_from, walk_page_tables,
}
use acheron_arm.Mmu.Leaves.{IsMapped}
use acheron_arm.Mmu.Ranges.{t0sz, t1sz, select_table_lem}
use acheron_arm.Mmu.Walks.{
  result_of, level_invalid, level_table, level_leaf, Finds, walk_level-Finds, walk_leaf_result,
}

-- The same registers, whatever the TLB and the statistics.
abbrev pub SameRegisters : Mmu → Mmu → Type 0
SameRegisters m n = (m.ttbr0 ≡ n.ttbr0) × (m.ttbr1 ≡ n.ttbr1) × (m.tcr ≡ n.tcr)

select_table-SameRegisters :
    (m n : Mmu) (va : ℕ) → SameRegisters m n → select_table m va ≡ select_table n va
select_table-SameRegisters m n va h = ground (arith, select_table_lem m va, select_table_lem n va)

-- A range that starts at a multiple of the page size holds a page whole or not at all.
range_page :
    (t va va' : ℕ)
    → 0 < t
    → t ≤ 52
    → va / 2 ^ 12 ≡ va' / 2 ^ 12
    → ltb va (2 ^ (64 - t)) ≡ ltb va' (2 ^ (64 - t))
range_page t va va' p h e =
    let cut : 64 - t ≡ 52 - t + 12 = omega arith in rw (cut, two-pow-add (52 - t) 12) (ground arith)

-- The ranges are made of whole pages.
abbrev pub HasWholePages : Mmu → Type 0
HasWholePages m = (t0sz m ≤ 52) × (t1sz m ≤ 52)

select_table_page :
    (m : Mmu) (va va' : ℕ)
    → HasWholePages m
    → va / 2 ^ 12 ≡ va' / 2 ^ 12
    → select_table m va ≡ select_table m va'
select_table_page m va va' h e = ground (
  arith,
  select_table_lem m va,
  select_table_lem m va',
  range_page (t0sz m) va va',
  range_page (t1sz m) va va',
)

module _ (read_descriptor : ℕ → ℕ → ℕ) where
  walk_level-result :
      (left va base : ℕ) (m n : Mmu) (region region' : MemoryRegion)
      → result_of (walk_level read_descriptor left va base m region)
        ≡ result_of (walk_level read_descriptor left va base n region')
  walk_level-result zero va base m n region region' = unfold walk_level in refl
  walk_level-result (suc left) va base m n region region' =
      let desc = read_descriptor base (index_at (4 - left) va) in
      elim (Bool-cases (is_valid desc)) [
        | inr invalid ↦ ground (
          arith,
          level_invalid read_descriptor left va base m region,
          level_invalid read_descriptor left va base n region',
        )
        | inl valid ↦ elim (Bool-cases (is_table desc)) [
          | inl table ↦ ground (
            arith,
            level_table read_descriptor left va base m region,
            level_table read_descriptor left va base n region',
            walk_level-result left va (get_output_address desc) m n region region',
          )
          | inr leaf ↦ ground (
            arith,
            level_leaf read_descriptor left va base m region,
            level_leaf read_descriptor left va base n region',
            walk_leaf_result va (4 - left) desc m n region region',
          )
        ]
      ]

  -- The address that the page tables give, with no TLB.
  unfoldable pub uncached : Mmu → ℕ → Defined (Option ℕ)
  uncached m va = result_of (walk_page_tables read_descriptor m va blank_region)

  walk_from-result :
      (va : ℕ) (m n : Mmu) (region region' : MemoryRegion) (t : Option ℕ)
      → result_of (walk_from read_descriptor va m region t)
        ≡ result_of (walk_from read_descriptor va n region' t)
  unfolding walk_from
  walk_from-result va m n region region' none = refl
  walk_from-result va m n region region' (some base) =
      walk_level-result 5 va base m n region region'

  -- A walk gives the uncached address whatever the region, the TLB and the statistics are.
  pub walk-uncached :
      (m n : Mmu) (va : ℕ) (region : MemoryRegion)
      → SameRegisters m n
      → result_of (walk_page_tables read_descriptor m va region) ≡ uncached n va
  unfolding walk_page_tables uncached count_walk
  walk-uncached m n va region h =
      rw (select_table-SameRegisters (count_walk m) (count_walk n) va h)
        (elim (Defined-cases (select_table (count_walk n) va)) [
          | inl u ↦ rw u
          | inr (t, d) ↦
              rw d (walk_from-result va (count_walk m) (count_walk n) region blank_region t)
        ])

  pub uncached-SameRegisters :
      (m n : Mmu) (va : ℕ) → SameRegisters m n → uncached m va ≡ uncached n va
  uncached-SameRegisters m n va h =
      sym (walk-uncached m m va blank_region (refl, refl, refl))
      ∙ walk-uncached m n va blank_region h

  -- An address that a walk finds lies in a mapped region, which gives the address of every virtual
  -- address of the same page.
  pub record PageFound (m : Mmu) (va : ℕ) (w : Walked) (pa : ℕ) : Type 0 where
    pub mapped : IsMapped w.1
    pub address : pa ≡ offset_in w.1 va
    pub page :
        (va' : ℕ) → va / 2 ^ 12 ≡ va' / 2 ^ 12 → uncached m va' ≡ defined (some (offset_in w.1 va'))

  from_found :
      (m : Mmu) (va base : ℕ) (region r : MemoryRegion) (w : Walked) (pa : ℕ)
      → HasWholePages m
      → select_table (count_walk m) va ≡ defined (some base)
      → Finds read_descriptor 5 va base r
      → walk_level read_descriptor 5 va base (count_walk m) region ≡ defined w
      → w.2 ≡ some pa
      → PageFound m va w pa
  unfolding uncached walk_page_tables walk_from count_walk
  from_found m va base region r w pa h d found e f =
      let here = found.same va (count_walk m) region refl in
      let r_eq : w.1 ≡ r = ground arith in
      rw r_eq (record {
        mapped = found.mapped;
        address = ground arith;
        page = λ va' p.
            let start = select_table_page (count_walk m) va va' h p in
            ground (arith, found.same va' (count_walk m) blank_region p);
      })

  pub walk-PageFound :
      (m : Mmu) (va : ℕ) (region : MemoryRegion) (w : Walked) (pa : ℕ)
      → HasWholePages m
      → walk_page_tables read_descriptor m va region ≡ defined w
      → w.2 ≡ some pa
      → PageFound m va w pa
  unfolding walk_page_tables walk_from
  walk-PageFound m va region w pa h e f = elim (Defined-cases (select_table (count_walk m) va)) [
    | inl u ↦ absurd (ground arith)
    | inr (t, d) ↦ elim (Option-cases t) [
      | inl outside ↦ absurd (ground arith)
      | inr (base, starts) ↦
          let walks : walk_level read_descriptor 5 va base (count_walk m) region ≡ defined w =
            ground arith in
          let found =
            walk_level-Finds read_descriptor 5 va base (count_walk m) region w pa (omega arith)
              walks f in
          from_found m va base region found.1.0 w pa h (ground arith) found.1.1 walks f
    ]
  ]

  -- Let the table ranges be made of whole pages. An address that a walk finds is that of the region
  -- it returns, at the offset of `va`, the region is mapped, and for every virtual address of the
  -- same 4 KB page a walk gives the address at its offset in that region.
  pub walk-page :
      (m : Mmu) (va va' : ℕ) (region : MemoryRegion) (w : Walked) (pa : ℕ)
      → HasWholePages m
      → va / 2 ^ 12 ≡ va' / 2 ^ 12
      → walk_page_tables read_descriptor m va region ≡ defined w
      → w.2 ≡ some pa
      → IsMapped w.1
        × (pa ≡ offset_in w.1 va)
        × (uncached m va' ≡ defined (some (offset_in w.1 va')))
  walk-page m va va' region w pa h p e f =
      let found = walk-PageFound m va region w pa h e f in
      (found.mapped, found.address, found.page va' p)
