-- ===== src/Mmu/Translate.antt =====
-- Translation through the TLB: MMUEmulator.cpp, lines 64 to 117 and 230 to 247.
use acheron_arm.Base.{
  ℕ, leb, length, if◌then◌else◌, Option, none, some, Defined, defined, ◌>>=◌, bit_and, true, add64,
  sub64, not64, ◌<◌, List, [], ◌∷◌,
}
use acheron_arm.Mmu.Types.{MemoryRegion, blank_region, TlbEntry}
use acheron_arm.Mmu.Tlb.{Tlb, find, erase, erase_at, insert, drop_asid, tlb_size, tlb_key}
use acheron_arm.Mmu.State.{Mmu, set_ttbr0, set_ttbr1, set_tcr, tlb_invalidate_all, reset_stats}
use acheron_arm.Mmu.Walk.{Walked, walk_page_tables}

-- `stats_.tlb_hits++`
unfoldable pub count_hit : Mmu → Mmu
count_hit m = record m { stats = record (m.stats) { tlb_hits = add64 m.stats.tlb_hits 1 } }

-- `stats_.tlb_misses++`
unfoldable pub count_miss : Mmu → Mmu
count_miss m = record m { stats = record (m.stats) { tlb_misses = add64 m.stats.tlb_misses 1 } }

-- The region of a hit: `contiguous` and `shareable` keep what they were.
unfoldable pub hit_region : TlbEntry → MemoryRegion → MemoryRegion
hit_region e region = record region {
  base_address = e.physical_address;
  size = e.size;
  type = e.type;
  ap = e.ap;
  uxn = e.uxn;
  pxn = e.pxn;
}

-- `entry.physical_address + (va & (entry.size - 1))`
unfoldable pub hit_address : TlbEntry → ℕ → ℕ
hit_address e va = add64 e.physical_address (bit_and va (sub64 e.size 1))

unfoldable pub entry_of : MemoryRegion → ℕ → ℕ → TlbEntry
entry_of region va asid =
    let mask = not64 (sub64 region.size 1) in
    record {
      virtual_address = bit_and va mask;
      physical_address = bit_and region.base_address mask;
      size = region.size;
      type = region.type;
      ap = region.ap;
      uxn = region.uxn;
      pxn = region.pxn;
      asid = asid;
      valid = true;
    }

-- The valid entry under a key.
unfoldable pub valid_entry : ℕ → Tlb → Option TlbEntry
valid_entry key t = elim (find key t) [ none ↦ none | some e ↦ if e.valid then some e else none ]

unfoldable pub tlb_invalidate_va : Mmu → ℕ → ℕ → Mmu
tlb_invalidate_va m va asid = record m { tlb = erase (tlb_key va asid) m.tlb }

unfoldable pub tlb_invalidate_asid : Mmu → ℕ → Mmu
tlb_invalidate_asid m asid = record m { tlb = drop_asid asid m.tlb }

-- The position that `tlb_.begin()` points at in a map that is not empty.
pub record Begin : Type 0 where
  pub position : Tlb → ℕ
  pub in_range : (t : Tlb) → 0 < length t → position t < length t

-- A call of a public method that can change the object.
pub data Call : Type 0 where
  translates : ℕ → ℕ → Call
  translates_with : ℕ → MemoryRegion → ℕ → Call
  invalidates_va : ℕ → ℕ → Call
  invalidates_asid : ℕ → Call
  invalidates_all resets_stats : Call
  sets_ttbr0 sets_ttbr1 sets_tcr : ℕ → Call

module _ (begin : Begin) where
  -- The eviction, if the TLB is full.
  unfoldable pub make_room : Tlb → Tlb
  make_room t = if leb tlb_size (length t) then erase_at (begin.position t) t else t

  -- After the walk: its result, which is entered if there is one.
  unfoldable pub finish : ℕ → ℕ → Walked → Walked
  unfolding entry_of
  finish va asid (m, region, none) = (m, region, none)
  finish va asid (m, region, some pa) =
      let t = insert (tlb_key va asid) (entry_of region va asid) (make_room m.tlb) in
      (record m { tlb = t }, region, some pa)

module _ (read_descriptor : ℕ → ℕ → ℕ) (begin : Begin) where
  unfoldable pub translate_with_attributes : Mmu → ℕ → MemoryRegion → ℕ → Defined Walked
  unfolding valid_entry hit_region hit_address count_hit count_miss finish
  translate_with_attributes m va region asid = elim (valid_entry (tlb_key va asid) m.tlb) [
    | some e ↦ defined (count_hit m, hit_region e region, some (hit_address e va))
    | none ↦ do
      walked ← walk_page_tables read_descriptor (count_miss m) va region
      defined (finish begin va asid walked)
  ]

  unfoldable pub translate : Mmu → ℕ → ℕ → Defined (Mmu × Option ℕ)
  unfolding translate_with_attributes
  translate m va asid = do
    walked ← translate_with_attributes m va blank_region asid
    defined (walked.0, walked.2)

  unfoldable pub step : Mmu → Call → Defined Mmu
  unfolding tlb_invalidate_va tlb_invalidate_asid
  step m (translates va asid) = do r ← translate m va asid; defined r.0
  step m (translates_with va region asid) = do
    r ← translate_with_attributes m va region asid
    defined r.0
  step m (invalidates_va va asid) = defined (tlb_invalidate_va m va asid)
  step m (invalidates_asid asid) = defined (tlb_invalidate_asid m asid)
  step m invalidates_all = defined (tlb_invalidate_all m)
  step m resets_stats = defined (reset_stats m)
  step m (sets_ttbr0 value) = defined (set_ttbr0 m value)
  step m (sets_ttbr1 value) = defined (set_ttbr1 m value)
  step m (sets_tcr value) = defined (set_tcr m value)

  unfoldable pub run : Mmu → List Call → Defined Mmu
  run m [] = defined m
  run m (c ∷ cs) = do m' ← step m c; run m' cs
