-- ===== src/Mmu/Returns.antt =====
-- When a walk returns, and where it ends.
use acheron_arm.Base.{
  ℕ, ◌<◌, ◌≡◌, ◌≢◌, ◌↔◌, refl, inl, inr, true, none, some, Defined, defined, undefined, ◌>>=◌,
  Defined-cases, arith,
}
use acheron_arm.Mmu.Types.{MemoryRegion}
use acheron_arm.Mmu.State.{Mmu}
use acheron_arm.Mmu.Walk.{Walked, walk_from, walk_page_tables, select_table, count_walk}
use acheron_arm.Mmu.Ranges.{t0sz, t1sz, select_table_lem}
use acheron_arm.Mmu.Walks.{result_of}
use acheron_arm.Mmu.Refines.{walk_level-walk}
use acheron_arm.Mmu.Spec
use acheron_arm.Mmu.Spec.{Tables}
use acheron_arm.Mmu.Depth.{descends, walk-undefined, walk-deep}

-- Both fields T0SZ and T1SZ are set.
abbrev pub HasRanges : Mmu → Type 0
HasRanges m = (0 < t0sz m) × (0 < t1sz m)

select_table-count_walk : (m : Mmu) (va : ℕ) → select_table (count_walk m) va ≡ select_table m va
unfolding count_walk
select_table-count_walk m va =
    ground (arith, select_table_lem (count_walk m) va, select_table_lem m va)

module _ (read_descriptor : ℕ → ℕ → ℕ) where
  -- The result of a walk, by the table that it starts from.
  pub walk_page_tables_lem :
      (m : Mmu) (va : ℕ) (region : MemoryRegion)
      → result_of (walk_page_tables read_descriptor m va region) ≡ (
          select_table m va >>= λ t. elim t [
            | none ↦ defined none
            | some base ↦ Spec.walk read_descriptor 5 va base
          ])
  unfolding walk_page_tables walk_from count_walk
  walk_page_tables_lem m va region =
      rw (← select_table-count_walk m va) (elim (Defined-cases (select_table (count_walk m) va)) [
        | inl u ↦ rw u refl
        | inr (none, d) ↦ rw d refl
        | inr (some base, d) ↦
            rw d (walk_level-walk read_descriptor 5 va base (count_walk m) region)
      ])

  result_of-undefined : (d : Defined Walked) → (d ≡ undefined) ↔ (result_of d ≡ undefined)
  result_of-undefined undefined = (λ e. refl, λ e. refl)
  result_of-undefined (defined w) = ground arith

  -- Let T0SZ and T1SZ be set. The recursive walk returns unless the address is in a range whose
  -- table begins a chain of five descriptors, one for each level from 0 to 4, that all have both
  -- low bits set; then it is undefined, since it shifts by -6 at level 5.
  pub walk_page_tables-undefined_iff :
      (m : Mmu) (va : ℕ) (region : MemoryRegion)
      → HasRanges m
      → (walk_page_tables read_descriptor m va region ≡ undefined) ↔ (
          (base : ℕ) × (select_table m va ≡ defined (some base))
          × (descends read_descriptor 5 5 va base ≡ true))
  walk_page_tables-undefined_iff m va region h =
      let known = walk_page_tables_lem m va region in
      let kept = result_of-undefined (walk_page_tables read_descriptor m va region) in
      elim (Defined-cases (select_table m va)) [
        | inl u ↦ absurd (ground (arith, select_table_lem m va))
        | inr (none, d) ↦
            (λ e. absurd (ground arith), λ (base, starts, deep). absurd (ground arith))
        | inr (some base, d) ↦
            let deep = walk-undefined read_descriptor 5 va base in
            (λ e. (base, d, ground arith), λ (other, starts, chain). ground arith)
      ]

  -- Four descriptors in a row with both low bits set, from level 0 on, give no address. Such are
  -- the entries of a translation that the architecture ends by a page descriptor of level 3, whose
  -- low bits are 11: the code takes it for a table, and no page is ever reached through it.
  pub walk_page_tables-pages :
      (m : Mmu) (va : ℕ) (region : MemoryRegion) (base pa : ℕ)
      → select_table m va ≡ defined (some base)
      → descends read_descriptor 4 5 va base ≡ true
      → result_of (walk_page_tables read_descriptor m va region) ≢ defined (some pa)
  walk_page_tables-pages m va region base pa d deep = ground (
    arith,
    walk_page_tables_lem m va region,
    walk-deep read_descriptor 4 5 va base pa refl (omega arith) deep,
  )
