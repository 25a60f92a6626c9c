-- ===== src/Mmu/Counts.antt =====
-- The statistics.
use acheron_arm.Base.{
  ℕ, zero, suc, ◌+◌, ◌-◌, ◌%◌, ◌^◌, ◌≡◌, refl, inl, inr, Option, none, some, defined, defined_inj,
  Defined-cases, List, [], ◌∷◌, arith,
}
use acheron_arm.Mmu.Types.{MemoryRegion, blank_region}
use acheron_arm.Mmu.Descriptor.{get_output_address}
use acheron_arm.Mmu.State.{
  Mmu, set_ttbr0, set_ttbr1, set_tcr, tlb_invalidate_all, reset_stats, new_mmu,
}
use acheron_arm.Mmu.Walk.{
  Walked, walk_leaf, walk_level, walk_from, walk_page_tables, count_fault, count_walk, select_table,
  index_at,
}
use acheron_arm.Mmu.Translate.{
  Begin, Call, translates, translates_with, invalidates_va, invalidates_asid, invalidates_all,
  resets_stats, sets_ttbr0, sets_ttbr1, sets_tcr, translate, translate_with_attributes, step, run,
  finish, count_miss, count_hit, tlb_invalidate_va, tlb_invalidate_asid,
}
use acheron_arm.Mmu.Cases.{translate_cases}

-- The three counters that a walk below its start leaves alone.
record SameCounts (m n : Mmu) : Type 0 where
  same_hits : n.stats.tlb_hits ≡ m.stats.tlb_hits
  same_misses : n.stats.tlb_misses ≡ m.stats.tlb_misses
  same_walks : n.stats.page_walks ≡ m.stats.page_walks

walk_leaf-SameCounts :
    (va level desc : ℕ) (m : Mmu) (region : MemoryRegion)
    → SameCounts m (walk_leaf va level desc m region).0
unfolding walk_leaf count_fault
walk_leaf-SameCounts va level desc m region = ground arith

module _ (read_descriptor : ℕ → ℕ → ℕ) where
  walk_level-SameCounts :
      (left va base : ℕ) (m : Mmu) (region : MemoryRegion) (w : Walked)
      → walk_level read_descriptor left va base m region ≡ defined w
      → SameCounts m w.0
  unfolding walk_level count_fault
  walk_level-SameCounts zero va base m region w e = cc
  walk_level-SameCounts (suc left) va base m region w e =
      let desc = read_descriptor base (index_at (4 - left) va) in
      ground (
        arith,
        walk_leaf-SameCounts va (4 - left) desc m region,
        walk_level-SameCounts left va (get_output_address desc) m region w,
      )

  walk_from-SameCounts :
      (va : ℕ) (m : Mmu) (region : MemoryRegion) (t : Option ℕ) (w : Walked)
      → walk_from read_descriptor va m region t ≡ defined w
      → SameCounts m w.0
  unfolding walk_from count_fault
  walk_from-SameCounts va m region none w e = ground arith
  walk_from-SameCounts va m region (some base) w e = walk_level-SameCounts 5 va base m region w e

  walk_page_tables-SameCounts :
      (m : Mmu) (va : ℕ) (region : MemoryRegion) (w : Walked)
      → walk_page_tables read_descriptor m va region ≡ defined w
      → SameCounts (count_walk m) w.0
  unfolding walk_page_tables
  walk_page_tables-SameCounts m va region w e =
      elim (Defined-cases (select_table (count_walk m) va)) [
        | inl u ↦ cc
        | inr (t, d) ↦ ground (arith, walk_from-SameCounts va (count_walk m) region t w)
      ]

finish-stats :
    (begin : Begin) (va asid : ℕ) (w : Walked) → (finish begin va asid w).0.stats ≡ w.0.stats
unfolding finish
finish-stats begin va asid (m, region, none) = refl
finish-stats begin va asid (m, region, some pa) = refl

-- The translations of a list of calls since the last reset of the statistics, with `k` before it.
pub counted : ℕ → List Call → ℕ
counted k [] = k
counted k (translates va asid ∷ cs) = counted (k + 1) cs
counted k (translates_with va region asid ∷ cs) = counted (k + 1) cs
counted k (resets_stats ∷ cs) = counted 0 cs
counted k (_ ∷ cs) = counted k cs

-- After `k` translations: each was a hit or a miss, and each miss was one walk.
pub record Counts (k : ℕ) (m : Mmu) : Type 0 where
  pub one_walk : m.stats.page_walks ≡ m.stats.tlb_misses
  pub hit_or_miss : (m.stats.tlb_hits + m.stats.tlb_misses) % 2 ^ 64 ≡ k % 2 ^ 64

-- A call that keeps the statistics.
Counts-stats : (k : ℕ) (m n : Mmu) → n.stats ≡ m.stats → Counts k m → Counts k n
Counts-stats k m n e h = record {
  one_walk = ground (arith, e, h.one_walk);
  hit_or_miss = ground (arith, e, h.hit_or_miss);
}

module _ (begin : Begin) (read_descriptor : ℕ → ℕ → ℕ) where
  translate-Counts :
      (k : ℕ) (m : Mmu) (va : ℕ) (region : MemoryRegion) (asid : ℕ) (w : Walked)
      → Counts k m
      → translate_with_attributes read_descriptor begin m va region asid ≡ defined w
      → Counts (k + 1) w.0
  unfolding count_hit count_miss count_walk
  translate-Counts k m va region asid w h e =
      elim (translate_cases read_descriptor begin m va region asid w e) [
        | inl hit ↦
            rw hit.returned
              (record { one_walk = h.one_walk; hit_or_miss = omega (arith, h.hit_or_miss) })
        | inr miss ↦
            let walk =
              walk_page_tables-SameCounts read_descriptor (count_miss m) va region miss.walked
                miss.walks in
            let stats = finish-stats begin va asid miss.walked in
            rw miss.returned (record {
              one_walk = ground (arith, stats, walk.same_walks, walk.same_misses, h.one_walk);
              hit_or_miss = ground (arith, stats, walk.same_hits, walk.same_misses, h.hit_or_miss);
            })
      ]

  run-Counts :
      (cs : List Call) (k : ℕ) (m n : Mmu)
      → Counts k m
      → run read_descriptor begin m cs ≡ defined n
      → Counts (counted k cs) n
  unfolding run step translate tlb_invalidate_all tlb_invalidate_va tlb_invalidate_asid set_ttbr0
      set_ttbr1 set_tcr reset_stats counted
  run-Counts [] k m n h e = rw (← defined_inj m n e) h
  run-Counts (translates va asid ∷ cs) k m n h e =
      elim (Defined-cases
        (translate_with_attributes read_descriptor begin m va blank_region asid)) [
          | inl u ↦ absurd (ground arith)
          | inr (w, d) ↦
              run-Counts cs (k + 1) w.0 n (translate-Counts k m va blank_region asid w h d)
                (ground arith)
        ]
  run-Counts (translates_with va region asid ∷ cs) k m n h e =
      elim (Defined-cases (translate_with_attributes read_descriptor begin m va region asid)) [
        | inl u ↦ absurd (ground arith)
        | inr (w, d) ↦
            run-Counts cs (k + 1) w.0 n (translate-Counts k m va region asid w h d) (ground arith)
      ]
  run-Counts (resets_stats ∷ cs) k m n h e =
      run-Counts cs 0 (reset_stats m) n (record { one_walk = refl; hit_or_miss = refl }) e
  run-Counts (invalidates_va va asid ∷ cs) k m n h e =
      run-Counts cs k (tlb_invalidate_va m va asid) n (Counts-stats k m _ refl h) e
  run-Counts (invalidates_asid asid ∷ cs) k m n h e =
      run-Counts cs k (tlb_invalidate_asid m asid) n (Counts-stats k m _ refl h) e
  run-Counts (invalidates_all ∷ cs) k m n h e =
      run-Counts cs k (tlb_invalidate_all m) n (Counts-stats k m _ refl h) e
  run-Counts (sets_ttbr0 value ∷ cs) k m n h e =
      run-Counts cs k (set_ttbr0 m value) n (Counts-stats k m _ refl h) e
  run-Counts (sets_ttbr1 value ∷ cs) k m n h e =
      run-Counts cs k (set_ttbr1 m value) n (Counts-stats k m _ refl h) e
  run-Counts (sets_tcr value ∷ cs) k m n h e =
      run-Counts cs k (set_tcr m value) n (Counts-stats k m _ refl h) e

  -- After any calls on a new object, if none of them shifts by an undefined count, the page walks
  -- are as many as the misses, and the hits and misses together are, modulo 2 ^ 64, as many as the
  -- translations since the last reset of the statistics.
  pub run-new-Counts :
      (cs : List Call) (n : Mmu)
      → run read_descriptor begin new_mmu cs ≡ defined n
      → Counts (counted 0 cs) n
  unfolding new_mmu
  run-new-Counts cs n e =
      run-Counts cs 0 new_mmu n (record { one_walk = refl; hit_or_miss = refl }) e
