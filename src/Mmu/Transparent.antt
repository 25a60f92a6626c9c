-- ===== src/Mmu/Transparent.antt =====
-- Coherence of the TLB with the page tables over one call.
use acheron_arm.Base.{
  ℕ, ◌/◌, ◌%◌, ◌^◌, ◌≤◌, ◌≡◌, refl, sym, ◌∙◌, inl, inr, none, some, defined, defined_inj, arith, [],
}
use acheron_arm.Mmu.Types.{MemoryRegion, blank_region}
use acheron_arm.Mmu.Tlb.{find, tlb_key, find-erase, find-drop_asid}
use acheron_arm.Mmu.State.{Mmu, set_ttbr0, set_ttbr1, set_tcr, tlb_invalidate_all, reset_stats}
use acheron_arm.Mmu.Walk.{Walked, walk_page_tables}
use acheron_arm.Mmu.Translate.{
  Begin, Call, translates, translates_with, invalidates_va, invalidates_asid, invalidates_all,
  resets_stats, sets_ttbr0, sets_ttbr1, sets_tcr, translate, translate_with_attributes, step,
  finish, make_room, count_miss, count_hit, tlb_invalidate_va, tlb_invalidate_asid,
}
use acheron_arm.Mmu.Cases.{step_translates, step_translates_with, translate_cases}
use acheron_arm.Mmu.Frame.{
  IsSound, translate_with_attributes-IsSound, walk_page_tables-SameTables, empty-IsSound,
  erase-IsSound, drop_asid-IsSound,
}
use acheron_arm.Mmu.Uncached.{uncached-SameRegisters, SameRegisters, HasWholePages, walk-PageFound}
use acheron_arm.Mmu.Cached.{
  IsLow, IsCoherent, IsCoherentMmu, IsCoherent-mono, insert-IsCoherent, find-make_room,
}

-- The calls of the theorem: translations of low addresses, and TCR values whose address ranges are
-- made of whole pages.
abbrev pub IsLowCall : Call → Type 0
IsLowCall (translates va asid) = IsLow va asid
IsLowCall (translates_with va region asid) = IsLow va asid
IsLowCall (sets_tcr value) = (value % 2 ^ 6 ≤ 52) × (value / 2 ^ 16 % 2 ^ 6 ≤ 52)
IsLowCall _ = Unit {0}

module _ (read_descriptor : ℕ → ℕ → ℕ) (begin : Begin) where
  finish-IsCoherent :
      (m : Mmu) (va : ℕ) (region : MemoryRegion) (asid : ℕ) (w : Walked)
      → IsCoherentMmu read_descriptor m
      → IsLow va asid
      → walk_page_tables read_descriptor (count_miss m) va region ≡ defined w
      → IsCoherent read_descriptor (finish begin va asid w).0
  unfolding finish count_miss
  finish-IsCoherent m va region asid (m', r, none) v low e =
      let frame =
        walk_page_tables-SameTables read_descriptor (count_miss m) va region (m', r, none) e in
      IsCoherent-mono read_descriptor m m' (ground arith) (λ key x f. ground arith) v.coherent
  finish-IsCoherent m va region asid (m', r, some pa) v low e =
      let frame =
        walk_page_tables-SameTables read_descriptor (count_miss m) va region (m', r, some pa) e in
      let found =
        walk-PageFound read_descriptor (count_miss m) va region (m', r, some pa) pa v.whole e
          refl in
      let regs : SameRegisters (count_miss m) m' = ground arith in
      insert-IsCoherent read_descriptor m' va r asid (make_room begin m'.tlb) low
        (IsCoherent-mono read_descriptor m (record m' { tlb = make_room begin m'.tlb })
          (ground arith)
          (λ key x f. find-make_room begin key m.tlb x v.sound.distinct (ground arith)) v.coherent)
        (λ va' p.
          sym (uncached-SameRegisters read_descriptor (count_miss m) m' va' regs)
          ∙ found.page va' p)
        found.mapped

  finish-tcr : (va asid : ℕ) (w : Walked) → (finish begin va asid w).0.tcr ≡ w.0.tcr
  unfolding finish
  finish-tcr va asid (m, r, none) = refl
  finish-tcr va asid (m, r, some pa) = refl

  pub translate-IsCoherentMmu :
      (m : Mmu) (va : ℕ) (region : MemoryRegion) (asid : ℕ) (w : Walked)
      → IsCoherentMmu read_descriptor m
      → IsLow va asid
      → translate_with_attributes read_descriptor begin m va region asid ≡ defined w
      → IsCoherentMmu read_descriptor w.0
  unfolding count_hit count_miss
  translate-IsCoherentMmu m va region asid w v low e =
      elim (translate_cases read_descriptor begin m va region asid w e) [
        | inl hit ↦ record {
          sound = sound;
          whole = ground (arith, hit.returned);
          coherent = rw hit.returned (
              IsCoherent-mono read_descriptor m (count_hit m) (refl, refl, refl) (λ key x f. f)
                v.coherent);
        }
        | inr miss ↦ record {
          sound = sound;
          whole =
              let frame =
                walk_page_tables-SameTables read_descriptor (count_miss m) va region miss.walked
                  miss.walks in
              ground (arith, miss.returned, finish-tcr va asid miss.walked, frame);
          coherent =
              rw miss.returned (finish-IsCoherent m va region asid miss.walked v low miss.walks);
        }
      ]
    where
      sound : IsSound w.0.tlb
      sound = translate_with_attributes-IsSound begin read_descriptor m va region asid w v.sound e

  -- An empty TLB is coherent.
  empty-IsCoherent : (m : Mmu) → m.tlb ≡ [] → IsCoherent read_descriptor m
  unfolding IsCoherent find
  empty-IsCoherent m h va asid e low f = absurd (ground arith)

  pub emptied : (m : Mmu) → m.tlb ≡ [] → HasWholePages m → IsCoherentMmu read_descriptor m
  emptied m h whole = record {
    sound = rw h empty-IsSound;
    whole = whole;
    coherent = empty-IsCoherent m h;
  }

  invalidate_va-IsCoherent :
      (m : Mmu) (va asid : ℕ)
      → IsCoherentMmu read_descriptor m
      → IsCoherent read_descriptor (tlb_invalidate_va m va asid)
  unfolding tlb_invalidate_va
  invalidate_va-IsCoherent m va asid v =
      IsCoherent-mono read_descriptor m (tlb_invalidate_va m va asid) (refl, refl, refl)
        (λ key x f. ground (arith, find-erase (tlb_key va asid) key m.tlb (v.sound.distinct key)))
        v.coherent

  invalidate_asid-IsCoherent :
      (m : Mmu) (asid : ℕ)
      → IsCoherentMmu read_descriptor m
      → IsCoherent read_descriptor (tlb_invalidate_asid m asid)
  unfolding tlb_invalidate_asid
  invalidate_asid-IsCoherent m asid v =
      IsCoherent-mono read_descriptor m (tlb_invalidate_asid m asid) (refl, refl, refl)
        (λ key x f. ((find-drop_asid asid key m.tlb x (v.sound.distinct key)).0 f).0) v.coherent

  pub step-IsCoherentMmu :
      (m n : Mmu) (c : Call)
      → IsCoherentMmu read_descriptor m
      → IsLowCall c
      → step read_descriptor begin m c ≡ defined n
      → IsCoherentMmu read_descriptor n
  unfolding step translate tlb_invalidate_va tlb_invalidate_asid set_ttbr0 set_ttbr1 set_tcr
      reset_stats
  step-IsCoherentMmu m n (translates va asid) v low e =
      let (w, d, same) = step_translates read_descriptor begin m n va asid e in
      rw (← same) (translate-IsCoherentMmu m va blank_region asid w v low d)
  step-IsCoherentMmu m n (translates_with va region asid) v low e =
      let (w, d, same) = step_translates_with read_descriptor begin m n va region asid e in
      rw (← same) (translate-IsCoherentMmu m va region asid w v low d)
  step-IsCoherentMmu m n (invalidates_va va asid) v low e = rw (← defined_inj _ n e) (record {
    sound = erase-IsSound (tlb_key va asid) m.tlb v.sound;
    whole = v.whole;
    coherent = invalidate_va-IsCoherent m va asid v;
  })
  step-IsCoherentMmu m n (invalidates_asid asid) v low e = rw (← defined_inj _ n e) (record {
    sound = drop_asid-IsSound asid m.tlb v.sound;
    whole = v.whole;
    coherent = invalidate_asid-IsCoherent m asid v;
  })
  step-IsCoherentMmu m n invalidates_all v low e =
      rw (← defined_inj _ n e) (emptied (tlb_invalidate_all m) refl v.whole)
  step-IsCoherentMmu m n resets_stats v low e = rw (← defined_inj _ n e) (record {
    sound = v.sound;
    whole = v.whole;
    coherent =
        IsCoherent-mono read_descriptor m (reset_stats m) (refl, refl, refl) (λ key x f. f)
          v.coherent;
  })
  step-IsCoherentMmu m n (sets_ttbr0 value) v low e =
      rw (← defined_inj _ n e) (emptied (set_ttbr0 m value) refl v.whole)
  step-IsCoherentMmu m n (sets_ttbr1 value) v low e =
      rw (← defined_inj _ n e) (emptied (set_ttbr1 m value) refl v.whole)
  step-IsCoherentMmu m n (sets_tcr value) v low e =
      rw (← defined_inj _ n e) (emptied (set_tcr m value) refl low)
