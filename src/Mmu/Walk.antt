-- ===== src/Mmu/Walk.antt =====
-- The page table walk: MMUEmulator.cpp, lines 119 to 228. The code reads no memory: its
-- `desc.value = 0` stands for the read. Here the walk is a function of the value that is put
-- there, `read_descriptor table_base index`, and `stub_descriptor` is the code's own.
use acheron_arm.Base.{
  ℕ, zero, suc, ◌-◌, ◌*◌, false, not, ◌==◌, if◌then◌else◌, Option, none, some, Defined, defined,
  undefined, ◌>>=◌, bit_and, ◌>>>◌, add64, sub64, not64,
}
use acheron_arm.Mmu.Types.{
  MemoryType, device_ngnrne, device_ngnre, normal, normal_nc, normal_wb, MemoryRegion, el0_ro,
  el0_rw, el1_none, el1_ro, el1_rw,
}
use acheron_arm.Mmu.Descriptor.{is_valid, is_table, sh, ap_bits, attr_index, get_output_address}
use acheron_arm.Mmu.State.{Mmu, va_in_ttbr0, va_in_ttbr1}

unfoldable pub decode_memory_type : ℕ → MemoryType
decode_memory_type index =
    if index == 0x00
    then device_ngnrne
    else if index == 0x01
    then device_ngnre
    else if index == 0x04
    then normal_nc
    else if index == 0x44
    then normal_wb
    else normal

unfoldable pub decode_permissions : ℕ → ℕ
decode_permissions bits =
    if bits == 0
    then el1_rw
    else if bits == 1
    then el0_ro
    else if bits == 2
    then el0_rw
    else if bits == 4
    then el1_none
    else if bits == 5
    then el1_ro
    else if bits == 6
    then el1_rw
    else el1_rw

-- `stats_.translation_faults++`
unfoldable pub count_fault : Mmu → Mmu
count_fault m = record m {
  stats = record (m.stats) { translation_faults = add64 m.stats.translation_faults 1 };
}

-- `stats_.page_walks++`
unfoldable pub count_walk : Mmu → Mmu
count_walk m = record m { stats = record (m.stats) { page_walks = add64 m.stats.page_walks 1 } }

-- The switch on the level: the size of a block or page; `none` is its default.
unfoldable pub leaf_size : ℕ → Option ℕ
leaf_size level =
    if level == 0
    then some (1024 * 1024 * 1024)
    else if level == 1
    then some (2 * 1024 * 1024)
    else if level == 2
    then some (2 * 1024 * 1024)
    else if level == 3
    then some 4096
    else none

-- The region of a block or page descriptor.
unfoldable pub leaf_region : ℕ → ℕ → MemoryRegion
leaf_region desc size = record {
  base_address = bit_and (get_output_address desc) (not64 (sub64 size 1));
  size = size;
  type = decode_memory_type (attr_index desc);
  ap = decode_permissions (ap_bits desc);
  uxn = false;
  pxn = false;
  contiguous = false;
  shareable = not (sh desc == 0);
}

-- State, region and result of a walk.
abbrev pub Walked : Type 0
Walked = Mmu × MemoryRegion × Option ℕ

-- `output_addr + (va & (region.size - 1))`
unfoldable pub offset_in : MemoryRegion → ℕ → ℕ
offset_in region va = add64 region.base_address (bit_and va (sub64 region.size 1))

unfoldable pub walk_leaf : ℕ → ℕ → ℕ → Mmu → MemoryRegion → Walked
walk_leaf va level desc m region = elim (leaf_size level) [
  | none ↦ (count_fault m, region, none)
  | some size ↦ let r = leaf_region desc size in (m, r, some (offset_in r va))
]

-- The shift of a level, `39 - (level * 9)`, for the levels up to 4; at level 5 it is negative.
unfoldable pub index_at : ℕ → ℕ → ℕ
index_at level va = bit_and (va >>> (39 - level * 9)) 0x1FF

-- `stub_descriptor` is the `desc.value = 0` of the code.
unfoldable pub stub_descriptor : ℕ → ℕ → ℕ
stub_descriptor table_base index = 0

-- The table that a virtual address starts from; `none` where it is in neither range.
unfoldable pub select_table : Mmu → ℕ → Defined (Option ℕ)
select_table m va = do
  low ← va_in_ttbr0 m va
  if low then defined (some (bit_and m.ttbr0 0xFFFFFFFFFFFF0000)) else do
    high ← va_in_ttbr1 m va
    defined (if high then some (bit_and m.ttbr1 0xFFFFFFFFFFFF0000) else none)

module _ (read_descriptor : ℕ → ℕ → ℕ) where
  -- The first argument is 5 - level. At level 5 the shift by a negative count is undefined.
  unfoldable pub walk_level : ℕ → ℕ → ℕ → Mmu → MemoryRegion → Defined Walked
  walk_level zero va table_base m region = undefined
  walk_level (suc left) va table_base m region =
      let level = 4 - left in
      let desc = read_descriptor table_base (index_at level va) in
      let next_level = walk_level left va (get_output_address desc) m region in
      if not (is_valid desc)
      then defined (count_fault m, region, none)
      else if is_table desc
      then next_level
      else defined (walk_leaf va level desc m region)

  unfoldable pub walk_from : ℕ → Mmu → MemoryRegion → Option ℕ → Defined Walked
  walk_from va m region none = defined (count_fault m, region, none)
  walk_from va m region (some table_base) = walk_level 5 va table_base m region

  unfoldable pub walk_page_tables : Mmu → ℕ → MemoryRegion → Defined Walked
  unfolding walk_from
  walk_page_tables m va region =
      let counted = count_walk m in
      do table ← select_table counted va; walk_from va counted region table
