-- ===== src/Mmu/Frame.antt =====
-- What a page table walk leaves alone, and the invariant of the TLB's size and keys.
use acheron_arm.Base.{
  ℕ, zero, suc, ◌+◌, ◌-◌, ◌≤◌, ◌≡◌, inl, inr, Option, none, some, defined, Defined-cases,
  defined_inj, length, arith, List, [],
}
use acheron_arm.Mmu.Types.{MemoryRegion, blank_region, TlbEntry}
use acheron_arm.Mmu.Descriptor.{get_output_address}
use acheron_arm.Mmu.Tlb.{
  Tlb, HasDistinctKeys, key_count, insert, erase, drop_asid, key_count-insert, length-insert,
  tlb_key, key_count-erase-le, length-erase-le, key_count-erase_at-le, length-erase_at,
  length-drop_asid-le, key_count-drop_asid-le,
}
use acheron_arm.Mmu.State.{
  Mmu, set_ttbr0, set_ttbr1, set_tcr, tlb_invalidate_all, reset_stats, new_mmu,
}
use acheron_arm.Mmu.Walk.{
  Walked, walk_leaf, walk_level, walk_from, walk_page_tables, count_fault, count_walk, select_table,
  index_at,
}
use acheron_arm.Mmu.Cases.{
  run-keeps, AnyCall, any_calls, step_translates, step_translates_with, translate_cases,
}
use acheron_arm.Mmu.Translate.{
  Begin, Call, translates, translates_with, invalidates_va, invalidates_asid, invalidates_all,
  resets_stats, sets_ttbr0, sets_ttbr1, sets_tcr, translate, translate_with_attributes, step, run,
  finish, make_room, count_miss, count_hit, tlb_invalidate_va, tlb_invalidate_asid,
}

-- The two states differ in their statistics only.
pub record SameTables (m n : Mmu) : Type 0 where
  pub same_tlb : n.tlb ≡ m.tlb
  pub same_ttbr0 : n.ttbr0 ≡ m.ttbr0
  pub same_ttbr1 : n.ttbr1 ≡ m.ttbr1
  pub same_tcr : n.tcr ≡ m.tcr

walk_leaf-SameTables :
    (va level desc : ℕ) (m : Mmu) (region : MemoryRegion)
    → SameTables m (walk_leaf va level desc m region).0
unfolding walk_leaf count_fault
walk_leaf-SameTables va level desc m region = ground arith

module _ (read_descriptor : ℕ → ℕ → ℕ) where
  walk_level-SameTables :
      (left va base : ℕ) (m : Mmu) (region : MemoryRegion) (w : Walked)
      → walk_level read_descriptor left va base m region ≡ defined w
      → SameTables m w.0
  unfolding walk_level count_fault
  walk_level-SameTables zero va base m region w e = cc
  walk_level-SameTables (suc left) va base m region w e =
      let desc = read_descriptor base (index_at (4 - left) va) in
      ground (
        arith,
        walk_leaf-SameTables va (4 - left) desc m region,
        walk_level-SameTables left va (get_output_address desc) m region w,
      )

  walk_from-SameTables :
      (va : ℕ) (m : Mmu) (region : MemoryRegion) (t : Option ℕ) (w : Walked)
      → walk_from read_descriptor va m region t ≡ defined w
      → SameTables m w.0
  unfolding walk_from count_fault
  walk_from-SameTables va m region none w e = ground arith
  walk_from-SameTables va m region (some base) w e = walk_level-SameTables 5 va base m region w e

  pub walk_page_tables-SameTables :
      (m : Mmu) (va : ℕ) (region : MemoryRegion) (w : Walked)
      → walk_page_tables read_descriptor m va region ≡ defined w
      → SameTables m w.0
  unfolding walk_page_tables count_walk
  walk_page_tables-SameTables m va region w e =
      elim (Defined-cases (select_table (count_walk m) va)) [
        | inl u ↦ cc
        | inr (t, d) ↦ ground (arith, walk_from-SameTables va (count_walk m) region t w)
      ]

-- The invariant of the TLB.
pub record IsSound (t : Tlb) : Type 0 where
  pub bounded : length t ≤ 1024
  pub distinct : HasDistinctKeys t

pub empty-IsSound : IsSound []
unfolding key_count
empty-IsSound = record { bounded = omega arith; distinct = λ j. omega arith }

pub erase-IsSound : (key : ℕ) (t : Tlb) → IsSound t → IsSound (erase key t)
erase-IsSound key t v = record {
  bounded = omega (arith, v.bounded, length-erase-le key t);
  distinct = λ j. omega (arith, v.distinct j, key_count-erase-le key j t);
}

pub drop_asid-IsSound : (asid : ℕ) (t : Tlb) → IsSound t → IsSound (drop_asid asid t)
drop_asid-IsSound asid t v = record {
  bounded = omega (arith, v.bounded, length-drop_asid-le asid t);
  distinct = λ j. omega (arith, v.distinct j, key_count-drop_asid-le asid j t);
}

module _ (begin : Begin) where
  make_room-IsSound :
      (t : Tlb)
      → IsSound t
      → (length (make_room begin t) + 1 ≤ 1024) × HasDistinctKeys (make_room begin t)
  unfolding make_room
  make_room-IsSound t v = (
    ground (arith, begin.in_range t, length-erase_at (begin.position t) t),
    λ key. ground (arith, v.distinct key, key_count-erase_at-le (begin.position t) key t),
  )

  insert-IsSound :
      (key : ℕ) (entry : TlbEntry) (t : Tlb)
      → length t + 1 ≤ 1024
      → HasDistinctKeys t
      → IsSound (insert key entry t)
  insert-IsSound key entry t room distinct = record {
    bounded = omega (arith, length-insert key entry t);
    distinct = λ j. ground (arith, distinct j, key_count-insert key j entry t);
  }

  finish-IsSound :
      (va asid : ℕ) (w : Walked) → IsSound w.0.tlb → IsSound (finish begin va asid w).0.tlb
  unfolding finish
  finish-IsSound va asid (m, region, none) v = v
  finish-IsSound va asid (m, region, some pa) v =
      let room = make_room-IsSound m.tlb v in
      insert-IsSound _ _ (make_room begin m.tlb) room.0 room.1

  module _ (read_descriptor : ℕ → ℕ → ℕ) where
    pub translate_with_attributes-IsSound :
        (m : Mmu) (va : ℕ) (region : MemoryRegion) (asid : ℕ) (w : Walked)
        → IsSound m.tlb
        → translate_with_attributes read_descriptor begin m va region asid ≡ defined w
        → IsSound w.0.tlb
    unfolding count_hit count_miss
    translate_with_attributes-IsSound m va region asid w v e =
        elim (translate_cases read_descriptor begin m va region asid w e) [
          | inl hit ↦ rw hit.returned v
          | inr miss ↦ rw miss.returned (
              finish-IsSound va asid miss.walked (
                rw
                  (walk_page_tables-SameTables read_descriptor _ va region miss.walked
                    miss.walks).same_tlb
                  v))
        ]

    -- Every call that returns keeps the TLB within 1024 entries under distinct keys.
    pub step-IsSound :
        (m n : Mmu) (c : Call)
        → IsSound m.tlb
        → step read_descriptor begin m c ≡ defined n
        → IsSound n.tlb
    unfolding step translate tlb_invalidate_all tlb_invalidate_va tlb_invalidate_asid set_ttbr0
        set_ttbr1 set_tcr reset_stats
    step-IsSound m n (translates va asid) v e =
        let (w, d, same) = step_translates read_descriptor begin m n va asid e in
        rw (← same) (translate_with_attributes-IsSound m va blank_region asid w v d)
    step-IsSound m n (translates_with va region asid) v e =
        let (w, d, same) = step_translates_with read_descriptor begin m n va region asid e in
        rw (← same) (translate_with_attributes-IsSound m va region asid w v d)
    step-IsSound m n (invalidates_va va asid) v e =
        rw (← defined_inj _ n e) (erase-IsSound (tlb_key va asid) m.tlb v)
    step-IsSound m n (invalidates_asid asid) v e =
        rw (← defined_inj _ n e) (drop_asid-IsSound asid m.tlb v)
    step-IsSound m n invalidates_all v e = rw (← defined_inj _ n e) empty-IsSound
    step-IsSound m n resets_stats v e = rw (← defined_inj _ n e) v
    step-IsSound m n (sets_ttbr0 value) v e = rw (← defined_inj _ n e) empty-IsSound
    step-IsSound m n (sets_ttbr1 value) v e = rw (← defined_inj _ n e) empty-IsSound
    step-IsSound m n (sets_tcr value) v e = rw (← defined_inj _ n e) empty-IsSound

    -- After any calls on a new object, if none of them shifts by an undefined count, the TLB has at
    -- most 1024 entries and no key stands twice.
    pub run-new-IsSound :
        (cs : List Call) (n : Mmu)
        → run read_descriptor begin new_mmu cs ≡ defined n
        → IsSound n.tlb
    unfolding new_mmu
    run-new-IsSound cs n e =
        run-keeps read_descriptor begin (λ m. IsSound m.tlb) AnyCall
          (λ k l c v any. step-IsSound k l c v) cs new_mmu n empty-IsSound (any_calls cs) e
