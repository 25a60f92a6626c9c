-- ===== src/Mmu/Updates/Runs.antt =====
-- Runs of the code against the histories of the specification.
use acheron_arm.Base.{
  ℕ, ◌↔◌, ◌≡◌, refl, sym, ap, ◌∙◌, inl, inr, Bool, true, false, Option, defined, defined_inj,
  Defined-cases, List, [], ◌∷◌, ◌++◌, All, arith,
}
use acheron_arm.Mmu.State.{Mmu, new_mmu}
use acheron_arm.Mmu.Translate.{
  Begin, Call, translates, translates_with, invalidates_va, invalidates_asid, invalidates_all,
  resets_stats, sets_ttbr0, sets_ttbr1, sets_tcr, translate, translate_with_attributes, step,
}
use acheron_arm.Mmu.Transparent.{emptied}
use acheron_arm.Mmu.Contract.{tables_of, AreWords}
use acheron_arm.Mmu.Answers.{results}
use acheron_arm.Mmu.Spec
use acheron_arm.Mmu.Spec.{Tables, no_tables}
use acheron_arm.Mmu.Updates.{
  Memory, Event, calls, stores, stored, called, Steps, ended, next, tables_after, history,
  stale_after, IsDisciplined, IsLowEvent,
}
use acheron_arm.Mmu.Updates.Calls.{
  Agrees, Agrees-older, step-tables_of, step-Agrees, call-answers, step-AreWords,
}

history-call :
    (memory : Memory) (t after : Tables) (c : Call) (es : List Event) (out rest : List (Option ℕ))
    → Spec.answers memory t (c ∷ []) ≡ defined out
    → after ≡ tables_after t c
    → history memory after es ≡ defined rest
    → history memory t (calls c ∷ es) ≡ defined (out ++ rest)
unfolding history
history-call memory t after c es out rest h same k = rw (← same, h, k) refl

history-ended : (memory : Memory) (t : Tables) → history memory t [] ≡ defined []
unfolding history
history-ended memory t = refl

history-stored :
    (memory memory' : Memory) (t : Tables) (es : List Event)
    → history memory t (stores memory' ∷ es) ≡ history memory' t es
unfolding history
history-stored memory memory' t es = refl

-- Each run of a disciplined history gives what the specification gives.
Steps-history :
    {memory : Memory} {m : Mmu} {es : List Event} {out : List (Option ℕ)} (stale : Bool)
    → Steps memory m es out
    → Agrees stale memory m
    → AreWords m
    → IsDisciplined stale es
    → All IsLowEvent es
    → history memory (tables_of m) es ≡ defined out
unfolding stale_after
Steps-history stale ended v words d low = history-ended _ _
Steps-history stale (next stored rest) v words d low =
    history-stored _ _ _ _ ∙ Steps-history true rest (Agrees-older stale _ _ _ v) words d.1 low.1
Steps-history stale (next (called begin moved answered) rest) v words d low =
    history-call _ _ _ _ _ _ _
      (sym (call-answers stale _ begin _ _ v words low.0.0 low.0.1 d.0) ∙ answered)
      (step-tables_of _ begin _ _ _ moved)
      (Steps-history _ rest (step-Agrees stale _ begin _ _ _ v low.0.0 moved)
        (step-AreWords _ begin _ _ _ words low.0.1 moved) d.1 low.1)

-- An order in which `begin()` is the first entry of the list.
abbrev front : Begin
front = record { position = λ t. 0; in_range = λ t room. room }

-- A call with results has a state after it.
results-step :
    (memory : Memory) (m : Mmu) (c : Call) (out : List (Option ℕ))
    → results memory front m (c ∷ []) ≡ defined out
    → (n : Mmu) × (step memory front m c ≡ defined n)
unfolding results step
results-step memory m (translates va asid) out e =
    elim (Defined-cases (translate memory front m va asid)) [
      | inl u ↦ absurd (ground arith)
      | inr (r, d) ↦ (r.0, rw d refl)
    ]
results-step memory m (translates_with va region asid) out e =
    elim (Defined-cases (translate_with_attributes memory front m va region asid)) [
      | inl u ↦ absurd (ground arith)
      | inr (w, d) ↦ (w.0, rw d refl)
    ]
results-step memory m (invalidates_va va asid) out e = (_, refl)
results-step memory m (invalidates_asid asid) out e = (_, refl)
results-step memory m invalidates_all out e = (_, refl)
results-step memory m resets_stats out e = (_, refl)
results-step memory m (sets_ttbr0 value) out e = (_, refl)
results-step memory m (sets_ttbr1 value) out e = (_, refl)
results-step memory m (sets_tcr value) out e = (_, refl)

history-calls :
    (memory : Memory) (t : Tables) (c : Call) (es : List Event) (out : List (Option ℕ))
    → history memory t (calls c ∷ es) ≡ defined out
    → (first rest : List (Option ℕ)) × (Spec.answers memory t (c ∷ []) ≡ defined first)
      × (history memory (tables_after t c) es ≡ defined rest)
      × (first ++ rest ≡ out)
unfolding history
history-calls memory t c es out e = elim (Defined-cases (Spec.answers memory t (c ∷ []))) [
  | inl u ↦ absurd (ground arith)
  | inr (first, d) ↦ elim (Defined-cases (history memory (tables_after t c) es)) [
    | inl u ↦ absurd (ground arith)
    | inr (rest, k) ↦ (
      first,
      rest,
      d,
      k,
      defined_inj _ out
          (sym (history-call memory t (tables_after t c) c es first rest d refl k) ∙ e),
    )
  ]
]

-- The specification's answers are those of a run.
history-Steps :
    (es : List Event) (memory : Memory) (m : Mmu) (out : List (Option ℕ)) (stale : Bool)
    → Agrees stale memory m
    → AreWords m
    → IsDisciplined stale es
    → All IsLowEvent es
    → history memory (tables_of m) es ≡ defined out
    → Steps memory m es out
unfolding stale_after
history-Steps [] memory m out stale v words d low e =
    rw (← defined_inj [] out (sym (history-ended memory (tables_of m)) ∙ e)) ended
history-Steps (stores memory' ∷ es) memory m out stale v words d low e = next stored (
    history-Steps es memory' m out true (Agrees-older stale memory memory' m v) words d.1 low.1
      (sym (history-stored memory memory' (tables_of m) es) ∙ e))
history-Steps (calls c ∷ es) memory m out stale v words d low e =
    let (first, rest, answered, follows, whole) = history-calls memory (tables_of m) c es out e in
    let same = call-answers stale memory front m c v words low.0.0 low.0.1 d.0 in
    let (n, moved) = results-step memory m c first (same ∙ answered) in
    let after = step-tables_of memory front m n c moved in
    rw (← whole) (
      next (called front moved (same ∙ answered)) (
        history-Steps es memory n rest (stale_after stale (calls c))
          (step-Agrees stale memory front m n c v low.0.0 moved)
          (step-AreWords memory front m n c words low.0.1 moved) d.1 low.1
          (ap (λ t. history memory t es) after ∙ follows)))

-- The TLB is transparent also where the page tables change, if it is emptied after each change and
-- before the next translation, by `tlb_invalidate_all` or by setting a register. Take any such
-- history of a new object, with the conditions on addresses and registers of `new_mmu-refines`,
-- and any order of the map at each call. Then some results are those of a run of the code exactly
-- if they are those of the specification, which reads the memory of the time of each translation
-- and has no TLB; so they do not depend on the order, and there is a run where the specification
-- is defined.
pub Steps-history_iff :
    (memory : Memory) (es : List Event) (out : List (Option ℕ))
    → IsDisciplined false es
    → All IsLowEvent es
    → Steps memory new_mmu es out ↔ (history memory no_tables es ≡ defined out)
unfolding Agrees new_mmu
Steps-history_iff memory es out d low =
    let start = emptied memory front new_mmu refl (omega arith) in
    (
      λ ran. Steps-history false ran start (omega arith) d low,
      λ e. history-Steps es memory new_mmu out false start (omega arith) d low e,
    )
