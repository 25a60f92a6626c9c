-- ===== src/Mmu/Refines.antt =====
-- The MMU refines its specification.
use acheron_arm.Base.{
  ℕ, zero, suc, ◌+◌, ◌-◌, ◌*◌, ◌/◌, ◌%◌, ◌^◌, ◌≡◌, refl, inl, inr, true, false, Option, none, some,
  Bool-cases, Option-cases, arith, ◌==◌, if◌then◌else◌,
}
use acheron_arm.Base.Bits.{bit_and-low}
use acheron_arm.Mmu.Types.{MemoryRegion}
use acheron_arm.Mmu.Descriptor.{is_valid, is_table, get_output_address}
use acheron_arm.Mmu.State.{Mmu}
use acheron_arm.Mmu.Walk.{walk_leaf, walk_level, index_at, leaf_size, leaf_region}
use acheron_arm.Mmu.Leaves.{
  leaf_size-IsPower, leaf_region-IsMapped, leaf_region-base_address, offset_in_lem,
}
use acheron_arm.Mmu.Walks.{result_of, level_invalid, level_table, level_leaf}
use acheron_arm.Mmu.Spec
use acheron_arm.Mmu.Spec.{Tables, block_size, start_of}

index_at_lem : (level va : ℕ) → index_at level va ≡ va / 2 ^ (39 - level * 9) % 512
unfolding index_at
index_at_lem level va = omega (arith, bit_and-low 9 (va / 2 ^ (39 - level * 9)))

leaf_size-block_size : (level : ℕ) → leaf_size level ≡ block_size level
unfolding leaf_size block_size
leaf_size-block_size zero = refl
leaf_size-block_size (suc zero) = refl
leaf_size-block_size (suc (suc zero)) = refl
leaf_size-block_size (suc (suc (suc zero))) = refl
leaf_size-block_size (suc (suc (suc (suc l)))) = ground arith

walk_leaf-block :
    (va level desc : ℕ) (m : Mmu) (region : MemoryRegion)
    → let address = get_output_address desc in
      (walk_leaf va level desc m region).2 ≡ elim (block_size level) as (λ _. Option ℕ) [
        | none ↦ none
        | some size ↦ some (address / size * size + va % size)
      ]
unfolding walk_leaf leaf_region
walk_leaf-block va level desc m region = elim (Option-cases (leaf_size level)) [
  | inl absent ↦ ground (arith, leaf_size-block_size level)
  | inr (size, present) ↦
      let p = (leaf_size-IsPower level size present).1 in
      ground (
        arith,
        leaf_size-block_size level,
        offset_in_lem (leaf_region desc size) va (leaf_region-IsMapped desc size p),
        leaf_region-base_address desc size p,
      )
]

module _ (read_descriptor : ℕ → ℕ → ℕ) where
  pub walk_level-walk :
      (left va base : ℕ) (m : Mmu) (region : MemoryRegion)
      → result_of (walk_level read_descriptor left va base m region)
        ≡ Spec.walk read_descriptor left va base
  unfolding Spec.walk
  walk_level-walk zero va base m region = unfold walk_level in refl
  walk_level-walk (suc left) va base m region =
      let index = index_at_lem (4 - left) va in
      let desc = read_descriptor base (index_at (4 - left) va) in
      let address : get_output_address desc ≡ desc / 2 ^ 13 % 2 ^ 36 * 2 ^ 12 =
        unfold get_output_address in omega arith in
      let valid : is_valid desc ≡ (if desc % 2 == 0 then false else true) =
        unfold is_valid in ground arith in
      let table : is_table desc ≡ (desc / 2 % 2 == 1) = unfold is_table in ground arith in
      elim (Bool-cases (is_valid desc)) [
        | inr invalid ↦ ground (arith, level_invalid read_descriptor left va base m region)
        | inl is_valid_desc ↦ elim (Bool-cases (is_table desc)) [
          | inl is_table_desc ↦
              let next = walk_level-walk left va (get_output_address desc) m region in
              ground (arith, next, level_table read_descriptor left va base m region)
          | inr leaf ↦ ground (
            arith,
            level_leaf read_descriptor left va base m region,
            walk_leaf-block va (4 - left) desc m region,
          )
        ]
      ]
