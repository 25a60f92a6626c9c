-- ===== src/Mmu/Invalidation.antt =====
-- Translations after an invalidation, with page tables that have changed since the TLB was filled.
use acheron_arm.Base.{ℕ, ◌≡◌, refl, inl, inr, none, ◌∙◌, defined, List, All, arith, Option-cases}
use acheron_arm.Mmu.Types.{MemoryRegion}
use acheron_arm.Mmu.Tlb.{find, tlb_key, find-erase, find-drop_asid}
use acheron_arm.Mmu.State.{Mmu, new_mmu}
use acheron_arm.Mmu.Walk.{walk_page_tables}
use acheron_arm.Mmu.Translate.{
  Begin, Call, translate_with_attributes, run, valid_entry, count_miss, tlb_invalidate_va,
  tlb_invalidate_asid,
}
use acheron_arm.Mmu.Cases.{translate-miss}
use acheron_arm.Mmu.Frame.{run-new-IsSound}
use acheron_arm.Mmu.Keys.{tlb_key_iff}
use acheron_arm.Mmu.Walks.{result_of}
use acheron_arm.Mmu.Uncached.{uncached, walk-uncached}
use acheron_arm.Mmu.Cached.{IsLow, result_of-finish}
use acheron_arm.Mmu.Transparent.{IsLowCall}
use acheron_arm.Mmu.Tagged.{IsTagged, All-find, run-AreTagged}

-- A miss gives what the page tables give.
miss-uncached :
    (read_descriptor : ℕ → ℕ → ℕ) (begin : Begin) (m : Mmu) (va : ℕ) (region : MemoryRegion)
    (asid : ℕ)
    → find (tlb_key va asid) m.tlb ≡ none
    → result_of (translate_with_attributes read_descriptor begin m va region asid)
      ≡ uncached read_descriptor m va
unfolding valid_entry count_miss
miss-uncached read begin m va region asid h =
    rw (translate-miss read begin m va region asid (ground arith)) (
      result_of-finish begin va asid (walk_page_tables read (count_miss m) va region)
      ∙ walk-uncached read (count_miss m) m va region (refl, refl, refl))

module _ (before after : ℕ → ℕ → ℕ) (begin : Begin) where
  -- Take any calls on a new object with the descriptors `before`, and let the descriptors then
  -- change to `after`. Once the TLB entry of `va` and `asid` is invalidated, a translation of it
  -- gives what the changed page tables give.
  pub translate-invalidate_va :
      (cs : List Call) (n : Mmu) (va : ℕ) (region : MemoryRegion) (asid : ℕ)
      → run before begin new_mmu cs ≡ defined n
      → result_of
          (translate_with_attributes after begin (tlb_invalidate_va n va asid) va region asid)
        ≡ uncached after (tlb_invalidate_va n va asid) va
  unfolding tlb_invalidate_va
  translate-invalidate_va cs n va region asid ran =
      let sound = run-new-IsSound begin before cs n ran in
      miss-uncached after begin (tlb_invalidate_va n va asid) va region asid (
        ground (
          arith,
          find-erase (tlb_key va asid) (tlb_key va asid) n.tlb (sound.distinct (tlb_key va asid)),
        ))

  -- Take any calls on a new object with the descriptors `before`, whose translations are of
  -- addresses below 2 ^ 48 with 16-bit ASIDs and whose TCR values have T0SZ and T1SZ up to 52, and
  -- let the descriptors then change to `after`. Once the TLB entries of an ASID are invalidated, a
  -- translation with it, of any address below 2 ^ 48, gives what the changed page tables give.
  pub translate-invalidate_asid :
      (cs : List Call) (n : Mmu) (va : ℕ) (region : MemoryRegion) (asid : ℕ)
      → All IsLowCall cs
      → run before begin new_mmu cs ≡ defined n
      → IsLow va asid
      → result_of
          (translate_with_attributes after begin (tlb_invalidate_asid n asid) va region asid)
        ≡ uncached after (tlb_invalidate_asid n asid) va
  unfolding tlb_invalidate_asid new_mmu
  translate-invalidate_asid cs n va region asid lows ran low =
      let key = tlb_key va asid in
      let sound = run-new-IsSound begin before cs n ran in
      let tagged = run-AreTagged begin before cs new_mmu n tt lows ran in
      miss-uncached after begin (tlb_invalidate_asid n asid) va region asid
        (elim (Option-cases (find key (tlb_invalidate_asid n asid).tlb)) [
          | inl missing ↦ missing
          | inr (e, found) ↦
              let kept = (find-drop_asid asid key n.tlb e (sound.distinct key)).0 found in
              let tag = All-find IsTagged key n.tlb e tagged kept.0 in
              let pages = tlb_key_iff va tag.page asid e.asid low.0 tag.low.0 low.1 tag.low.1 in
              let space : asid ≡ e.asid = (pages.0 tag.key).0 in
              absurd (ground (arith, kept.1, tag.valid, space))
        ])
