-- ===== src/Mmu/Answers.antt =====
-- The calls on the MMU against the calls on its specification.
use acheron_arm.Base.{
  ℕ, ◌≡◌, refl, ap, ◌∙◌, inl, inr, Option, Defined, defined, ◌>>=◌, Defined-cases, List, [], ◌∷◌,
  All, arith,
}
use acheron_arm.Mmu.Types.{MemoryRegion, blank_region}
use acheron_arm.Mmu.State.{
  Mmu, new_mmu, set_ttbr0, set_ttbr1, set_tcr, tlb_invalidate_all, reset_stats,
}
use acheron_arm.Mmu.Walk.{Walked}
use acheron_arm.Mmu.Translate.{
  Begin, Call, translates, translates_with, invalidates_va, invalidates_asid, invalidates_all,
  resets_stats, sets_ttbr0, sets_ttbr1, sets_tcr, translate, translate_with_attributes, step,
  tlb_invalidate_va, tlb_invalidate_asid,
}
use acheron_arm.Mmu.Cached.{IsLow, IsCoherentMmu, translate-uncached}
use acheron_arm.Mmu.Transparent.{IsLowCall, translate-IsCoherentMmu, step-IsCoherentMmu, emptied}
use acheron_arm.Mmu.Spec
use acheron_arm.Mmu.Spec.{Tables, no_tables, start_of}
use acheron_arm.Mmu.Contract.{
  tables_of, AreWords, IsWordCall, uncached-lookup, translate-tables_of, keeps_words,
}

module _ (read_descriptor : ℕ → ℕ → ℕ) (begin : Begin) where
  -- The results of the translations among some calls.
  unfoldable pub results : Mmu → List Call → Defined (List (Option ℕ))
  results m [] = defined []
  results m (translates va asid ∷ cs) = do
    r ← translate read_descriptor begin m va asid
    rest ← results r.0 cs
    defined (r.1 ∷ rest)
  results m (translates_with va region asid ∷ cs) = do
    w ← translate_with_attributes read_descriptor begin m va region asid
    rest ← results w.0 cs
    defined (w.2 ∷ rest)
  results m (c ∷ cs) = do n ← step read_descriptor begin m c; results n cs

  -- One translation and what follows it.
  after_translation :
      (m : Mmu) (va : ℕ) (region : MemoryRegion) (asid : ℕ) (rest : Mmu → Defined (List (Option ℕ)))
      (spec : Defined (List (Option ℕ)))
      → IsCoherentMmu read_descriptor m
      → AreWords m
      → IsLow va asid
      → ((w : Walked)
          → translate_with_attributes read_descriptor begin m va region asid ≡ defined w
          → rest w.0 ≡ spec)
      → (translate_with_attributes read_descriptor begin m va region asid >>= λ w.
          rest w.0 >>= λ pas. defined (w.2 ∷ pas))
        ≡ (Spec.lookup read_descriptor (tables_of m) va >>= λ pa.
            spec >>= λ pas. defined (pa ∷ pas))
  after_translation m va region asid rest spec v words low follow =
      let same = translate-uncached read_descriptor begin m va region asid v.coherent low in
      let known = uncached-lookup read_descriptor m va words in
      elim (Defined-cases (translate_with_attributes read_descriptor begin m va region asid)) [
        | inl u ↦ ground (arith, same, known)
        | inr (w, d) ↦ ground (arith, same, known, follow w d)
      ]

  results-translates :
      (m : Mmu) (va asid : ℕ) (cs : List Call)
      → results m (translates va asid ∷ cs) ≡ results m (translates_with va blank_region asid ∷ cs)
  unfolding results translate
  results-translates m va asid cs =
      elim (Defined-cases
        (translate_with_attributes read_descriptor begin m va blank_region asid)) [
          | inl u ↦ rw u refl
          | inr (w, d) ↦ rw d refl
        ]

  -- Calls from a coherent TLB answer as the specification does.
  pub results-answers :
      (m : Mmu) (cs : List Call)
      → IsCoherentMmu read_descriptor m
      → AreWords m
      → All IsLowCall cs
      → All IsWordCall cs
      → results m cs ≡ Spec.answers read_descriptor (tables_of m) cs
  unfolding results Spec.answers step translate set_ttbr0 set_ttbr1 set_tcr tlb_invalidate_va
      tlb_invalidate_asid tlb_invalidate_all reset_stats
  results-answers m [] v words low fits = refl
  results-answers m (translates va asid ∷ cs) v words low fits =
      results-translates m va asid cs
      ∙ after_translation m va blank_region asid (λ n. results n cs)
          (Spec.answers read_descriptor (tables_of m) cs) v words low.0
          (λ w e.
            results-answers w.0 cs
              (translate-IsCoherentMmu read_descriptor begin m va blank_region asid w v low.0 e)
              (keeps_words read_descriptor begin m va blank_region asid w words e) low.1 fits.1
            ∙ ap (λ t. Spec.answers read_descriptor t cs)
                (translate-tables_of read_descriptor begin m va blank_region asid w e))
  results-answers m (translates_with va region asid ∷ cs) v words low fits =
      after_translation m va region asid (λ n. results n cs)
        (Spec.answers read_descriptor (tables_of m) cs) v words low.0
        (λ w e.
          results-answers w.0 cs
            (translate-IsCoherentMmu read_descriptor begin m va region asid w v low.0 e)
            (keeps_words read_descriptor begin m va region asid w words e) low.1 fits.1
          ∙ ap (λ t. Spec.answers read_descriptor t cs)
              (translate-tables_of read_descriptor begin m va region asid w e))
  results-answers m (invalidates_va va asid ∷ cs) v words low fits =
      let next =
        step-IsCoherentMmu read_descriptor begin m (tlb_invalidate_va m va asid)
          (invalidates_va va asid) v low.0 refl in
      results-answers (tlb_invalidate_va m va asid) cs next words low.1 fits.1
  results-answers m (invalidates_asid asid ∷ cs) v words low fits =
      let next =
        step-IsCoherentMmu read_descriptor begin m (tlb_invalidate_asid m asid)
          (invalidates_asid asid) v low.0 refl in
      results-answers (tlb_invalidate_asid m asid) cs next words low.1 fits.1
  results-answers m (invalidates_all ∷ cs) v words low fits =
      let next =
        step-IsCoherentMmu read_descriptor begin m (tlb_invalidate_all m) invalidates_all v low.0
          refl in
      results-answers (tlb_invalidate_all m) cs next words low.1 fits.1
  results-answers m (resets_stats ∷ cs) v words low fits =
      let next =
        step-IsCoherentMmu read_descriptor begin m (reset_stats m) resets_stats v low.0 refl in
      results-answers (reset_stats m) cs next words low.1 fits.1
  results-answers m (sets_ttbr0 value ∷ cs) v words low fits =
      let next =
        step-IsCoherentMmu read_descriptor begin m (set_ttbr0 m value) (sets_ttbr0 value) v low.0
          refl in
      results-answers (set_ttbr0 m value) cs next (fits.0, words.1) low.1 fits.1
  results-answers m (sets_ttbr1 value ∷ cs) v words low fits =
      let next =
        step-IsCoherentMmu read_descriptor begin m (set_ttbr1 m value) (sets_ttbr1 value) v low.0
          refl in
      results-answers (set_ttbr1 m value) cs next (words.0, fits.0) low.1 fits.1
  results-answers m (sets_tcr value ∷ cs) v words low fits =
      let next =
        step-IsCoherentMmu read_descriptor begin m (set_tcr m value) (sets_tcr value) v low.0
          refl in
      results-answers (set_tcr m value) cs next words low.1 fits.1

  -- The MMU refines its specification. Take any descriptors in memory, any eviction order and any
  -- calls on a new object whose translations are of addresses below 2 ^ 48 with 16-bit ASIDs, whose
  -- TTBR values are 64-bit words, and whose TCR values have T0SZ and T1SZ up to 52. Then the
  -- translations among the calls give, in order, the addresses and faults that the specification
  -- gives, which has no TLB, ignores every invalidation and every ASID, and computes by division and
  -- remainder, and they are undefined together.
  pub new_mmu-refines :
      (cs : List Call)
      → All IsLowCall cs
      → All IsWordCall cs
      → results new_mmu cs ≡ Spec.answers read_descriptor no_tables cs
  unfolding new_mmu
  new_mmu-refines cs lows fits =
      results-answers new_mmu cs (emptied read_descriptor begin new_mmu refl (omega arith))
        (omega arith) lows fits
