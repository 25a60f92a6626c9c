-- ===== src/Mmu/Walks.antt =====
-- What a page table walk finds, for any descriptors.
use acheron_arm.Base.{
  ℕ, zero, suc, ◌-◌, ◌/◌, ◌^◌, ◌<◌, ◌≡◌, ap, inl, inr, true, false, Option, none, some, Defined,
  defined, Bool-cases, Option-cases, ◌>>=◌, arith, bit_and,
}
use acheron_arm.Mmu.Types.{MemoryRegion}
use acheron_arm.Mmu.Descriptor.{is_valid, is_table, get_output_address}
use acheron_arm.Mmu.State.{Mmu}
use acheron_arm.Mmu.Walk.{
  Walked, count_fault, leaf_size, leaf_region, offset_in, walk_leaf, index_at, walk_level,
}
use acheron_arm.Mmu.Leaves.{IsMapped, leaf_size-IsPower, leaf_region-IsMapped}

-- The address of a walk, without the state and the region.
abbrev pub result_of : Defined Walked → Defined (Option ℕ)
result_of d = d >>= λ w. defined w.2

-- The same page gives the same index at each level that has pages.
index_at-page :
    (level va va' : ℕ)
    → level < 4
    → va / 2 ^ 12 ≡ va' / 2 ^ 12
    → index_at level va ≡ index_at level va'
unfolding index_at
index_at-page zero va va' h e = ap (λ (t : ℕ). bit_and t 0x1FF) (omega arith)
index_at-page (suc zero) va va' h e = ap (λ (t : ℕ). bit_and t 0x1FF) (omega arith)
index_at-page (suc (suc zero)) va va' h e = ap (λ (t : ℕ). bit_and t 0x1FF) (omega arith)
index_at-page (suc (suc (suc zero))) va va' h e = ap (λ (t : ℕ). bit_and t 0x1FF) (omega arith)
index_at-page (suc (suc (suc (suc l)))) va va' h e = absurd (omega arith)

-- A leaf whose region is `r`, also from another state and region and at any other address.
record IsLeaf (level desc : ℕ) (r : MemoryRegion) : Type 0 where
  mapped : IsMapped r
  same :
      (va : ℕ) (m : Mmu) (region : MemoryRegion)
      → walk_leaf va level desc m region ≡ (m, r, some (offset_in r va))

walk_leaf-IsLeaf :
    (va level desc : ℕ) (m : Mmu) (region : MemoryRegion) (pa : ℕ)
    → (walk_leaf va level desc m region).2 ≡ some pa
    → (level < 4) × ((r : MemoryRegion) × IsLeaf level desc r)
unfolding walk_leaf
walk_leaf-IsLeaf va level desc m region pa e = elim (Option-cases (leaf_size level)) [
  | inl absent ↦ absurd (ground arith)
  | inr (size, present) ↦
      let fits = leaf_size-IsPower level size present in
      (
        fits.0,
        (
          leaf_region desc size,
          record { mapped = leaf_region-IsMapped desc size fits.1; same = λ v n q. ground arith },
        ),
      )
]

module _ (read_descriptor : ℕ → ℕ → ℕ) where
  -- The three ways of a level, by its descriptor.
  pub level_invalid :
      (left va base : ℕ) (m : Mmu) (region : MemoryRegion)
      → is_valid (read_descriptor base (index_at (4 - left) va)) ≡ false
      → walk_level read_descriptor (suc left) va base m region
        ≡ defined (count_fault m, region, none)
  unfolding walk_level
  level_invalid left va base m region h = ground arith

  pub level_table :
      (left va base : ℕ) (m : Mmu) (region : MemoryRegion)
      → let desc = read_descriptor base (index_at (4 - left) va) in
        is_valid desc ≡ true
        → is_table desc ≡ true
        → walk_level read_descriptor (suc left) va base m region
          ≡ walk_level read_descriptor left va (get_output_address desc) m region
  unfolding walk_level
  level_table left va base m region h t = ground arith

  pub level_leaf :
      (left va base : ℕ) (m : Mmu) (region : MemoryRegion)
      → let desc = read_descriptor base (index_at (4 - left) va) in
        is_valid desc ≡ true
        → is_table desc ≡ false
        → walk_level read_descriptor (suc left) va base m region
          ≡ defined (walk_leaf va (4 - left) desc m region)
  unfolding walk_level
  level_leaf left va base m region h t = ground arith

  -- A walk that finds an address in region `r`, also from another state and region and at each
  -- address of the page.
  pub record Finds (left va base : ℕ) (r : MemoryRegion) : Type 0 where
    pub mapped : IsMapped r
    pub same :
        (va' : ℕ) (m : Mmu) (region : MemoryRegion)
        → va / 2 ^ 12 ≡ va' / 2 ^ 12
        → walk_level read_descriptor left va' base m region ≡ defined (m, r, some (offset_in r va'))

  leaf-Finds :
      (left va base : ℕ) (r : MemoryRegion)
      → 4 - left < 4
      → let desc = read_descriptor base (index_at (4 - left) va) in
        is_valid desc ≡ true
        → is_table desc ≡ false
        → IsLeaf (4 - left) desc r
        → Finds (suc left) va base r
  leaf-Finds left va base r below valid leaf l = record {
    mapped = l.mapped;
    same = λ va' m region page.
        let index = index_at-page (4 - left) va va' below page in
        ground (arith, l.same va' m region, level_leaf left va' base m region);
  }

  table-Finds :
      (left va base : ℕ) (r : MemoryRegion)
      → 4 - left < 4
      → let desc = read_descriptor base (index_at (4 - left) va) in
        is_valid desc ≡ true
        → is_table desc ≡ true
        → Finds left va (get_output_address desc) r
        → Finds (suc left) va base r
  table-Finds left va base r below valid table f = record {
    mapped = f.mapped;
    same = λ va' m region page.
        let index = index_at-page (4 - left) va va' below page in
        ground (arith, f.same va' m region, level_table left va' base m region);
  }

  pub walk_level-Finds :
      (left va base : ℕ) (m : Mmu) (region : MemoryRegion) (w : Walked) (pa : ℕ)
      → left < 6
      → walk_level read_descriptor left va base m region ≡ defined w
      → w.2 ≡ some pa
      → (0 < left) × ((r : MemoryRegion) × Finds left va base r)
  walk_level-Finds zero va base m region w pa b e f = absurd (unfold walk_level in ground arith)
  walk_level-Finds (suc left) va base m region w pa b e f =
      let desc = read_descriptor base (index_at (4 - left) va) in
      elim (Bool-cases (is_valid desc)) [
        | inr invalid ↦ absurd (ground (arith, level_invalid left va base m region))
        | inl valid ↦ elim (Bool-cases (is_table desc)) [
          | inl table ↦
              let (pos, found) =
                walk_level-Finds left va (get_output_address desc) m region w pa (omega arith)
                  (ground (arith, level_table left va base m region)) f in
              (
                omega arith,
                (found.0, table-Finds left va base found.0 (omega arith) valid table found.1),
              )
          | inr leaf ↦
              let (below, found) =
                walk_leaf-IsLeaf va (4 - left) desc m region pa
                  (ground (arith, level_leaf left va base m region)) in
              (omega arith, (found.0, leaf-Finds left va base found.0 below valid leaf found.1))
        ]
      ]

pub walk_leaf_result :
    (va level desc : ℕ) (m n : Mmu) (region region' : MemoryRegion)
    → (walk_leaf va level desc m region).2 ≡ (walk_leaf va level desc n region').2
unfolding walk_leaf
walk_leaf_result va level desc m n region region' = ground arith
