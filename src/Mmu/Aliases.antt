-- ===== src/Mmu/Aliases.antt =====
-- Blocks of levels 0 and 1: an entry of level 0 covers 2 ^ 39 bytes of addresses and one of level 1
-- 2 ^ 30, while their blocks have 2 ^ 30 and 2 ^ 21.
use acheron_arm.Base.{ℕ, ◌*◌, ◌/◌, ◌%◌, ◌^◌, ◌≡◌, ◌⊎◌, inl, inr, some, defined, arith}
use acheron_arm.Mmu.Types.{MemoryRegion}
use acheron_arm.Mmu.State.{Mmu}
use acheron_arm.Mmu.Walk.{walk_page_tables, select_table}
use acheron_arm.Mmu.Walks.{result_of}
use acheron_arm.Mmu.Returns.{walk_page_tables_lem}
use acheron_arm.Mmu.Spec
use acheron_arm.Mmu.Spec.{block_size}

module _ (read_descriptor : ℕ → ℕ → ℕ) where
  -- Both addresses run into one block of level 0, at offsets that agree modulo its size.
  pub record ShareBlock0 (base va va' : ℕ) : Type 0 where
    pub entry : va / 2 ^ 39 % 512 ≡ va' / 2 ^ 39 % 512
    pub block : read_descriptor base (va / 2 ^ 39 % 512) % 4 ≡ 1
    pub offset : va % 2 ^ 30 ≡ va' % 2 ^ 30

  -- Both run into one block of level 1.
  pub record ShareBlock1 (base va va' : ℕ) : Type 0 where
    pub entry0 : va / 2 ^ 39 % 512 ≡ va' / 2 ^ 39 % 512
    pub table : read_descriptor base (va / 2 ^ 39 % 512) % 4 ≡ 3
    pub entry1 : va / 2 ^ 30 % 512 ≡ va' / 2 ^ 30 % 512
    pub block :
        let next = read_descriptor base (va / 2 ^ 39 % 512) / 2 ^ 13 % 2 ^ 36 * 2 ^ 12 in
        read_descriptor next (va / 2 ^ 30 % 512) % 4 ≡ 1
    pub offset : va % 2 ^ 21 ≡ va' % 2 ^ 21

  walk-ShareBlock0 :
      (base va va' : ℕ)
      → ShareBlock0 base va va'
      → Spec.walk read_descriptor 5 va base ≡ Spec.walk read_descriptor 5 va' base
  unfolding Spec.walk block_size
  walk-ShareBlock0 base va va' h = ground (arith, h.entry, h.block, h.offset)

  walk-ShareBlock1 :
      (base va va' : ℕ)
      → ShareBlock1 base va va'
      → Spec.walk read_descriptor 5 va base ≡ Spec.walk read_descriptor 5 va' base
  unfolding Spec.walk block_size
  walk-ShareBlock1 base va va' h = ground (arith, h.entry0, h.table, h.entry1, h.block, h.offset)

  -- Two virtual addresses that start from one table and run into one block share their physical
  -- address if they differ by a multiple of 2 ^ 30 within the 2 ^ 39 bytes of an entry of level 0,
  -- or by a multiple of 2 ^ 21 within the 2 ^ 30 bytes of an entry of level 1.
  pub walk_page_tables-aliases :
      (m : Mmu) (va va' : ℕ) (region region' : MemoryRegion) (base : ℕ)
      → select_table m va ≡ defined (some base)
      → select_table m va' ≡ defined (some base)
      → ShareBlock0 base va va' ⊎ ShareBlock1 base va va'
      → result_of (walk_page_tables read_descriptor m va region)
        ≡ result_of (walk_page_tables read_descriptor m va' region')
  walk_page_tables-aliases m va va' region region' base d d' shared =
      let one = walk_page_tables_lem read_descriptor m va region in
      let two = walk_page_tables_lem read_descriptor m va' region' in
      elim shared [
        | inl h ↦ ground (arith, walk-ShareBlock0 base va va' h)
        | inr h ↦ ground (arith, walk-ShareBlock1 base va va' h)
      ]
