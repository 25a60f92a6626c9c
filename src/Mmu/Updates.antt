-- ===== src/Mmu/Updates.antt =====
-- Histories in which the page tables change. The order of the TLB's map is open at every call: a
-- rehash may change what `begin()` points at.
pub mod Calls
pub mod Runs
use acheron_arm.Base.{
  ℕ, ◌/◌, ◌%◌, ◌^◌, ◌<◌, ◌≤◌, ◌↔◌, ◌≡◌, refl, sym, ap, ◌∙◌, inl, inr, Bool, true, false, Option,
  none, some, Defined, defined, defined_inj, undefined, ◌>>=◌, Defined-cases, List, [], ◌∷◌, ◌++◌,
  All, arith,
}
use acheron_arm.Mmu.Types.{blank_region}
use acheron_arm.Mmu.State.{
  Mmu, new_mmu, set_ttbr0, set_ttbr1, set_tcr, tlb_invalidate_all, reset_stats,
}
use acheron_arm.Mmu.Translate.{
  Begin, Call, translates, translates_with, invalidates_va, invalidates_asid, invalidates_all,
  resets_stats, sets_ttbr0, sets_ttbr1, sets_tcr, translate, translate_with_attributes, step,
  tlb_invalidate_va, tlb_invalidate_asid,
}
use acheron_arm.Mmu.Frame.{IsSound, step-IsSound}
use acheron_arm.Mmu.Uncached.{HasWholePages}
use acheron_arm.Mmu.Cached.{IsCoherentMmu}
use acheron_arm.Mmu.Transparent.{IsLowCall, step-IsCoherentMmu, emptied}
use acheron_arm.Mmu.Contract.{tables_of, AreWords, IsWordCall, translate-tables_of}
use acheron_arm.Mmu.Answers.{results, results-answers}
use acheron_arm.Mmu.Spec
use acheron_arm.Mmu.Spec.{Tables, no_tables}

abbrev pub Memory : Type 0
Memory = ℕ → ℕ → ℕ

-- A call, or a change of the descriptors in memory.
pub data Event : Type 0 where
  calls : Call → Event
  stores : Memory → Event

-- One event: the results of the translation, if it is one, and what follows.
pub data Step : Memory → Mmu → Event → List (Option ℕ) → Memory → Mmu → Type 0 where
  stored : {memory memory' : Memory} {m : Mmu} → Step memory m (stores memory') [] memory' m
  called :
      {memory : Memory} {m n : Mmu} {c : Call} {out : List (Option ℕ)}
      → (begin : Begin) → step memory begin m c ≡ defined n
      → results memory begin m (c ∷ []) ≡ defined out
      → Step memory m (calls c) out memory n

pub data Steps : Memory → Mmu → List Event → List (Option ℕ) → Type 0 where
  ended : {memory : Memory} {m : Mmu} → Steps memory m [] []
  next :
      {memory memory' : Memory} {m n : Mmu} {e : Event} {es : List Event}
      {out rest : List (Option ℕ)}
      → Step memory m e out memory' n
      → Steps memory' n es rest
      → Steps memory m (e ∷ es) (out ++ rest)

-- The registers after a call.
unfoldable pub tables_after : Tables → Call → Tables
tables_after t (sets_ttbr0 value) = record t { ttbr0 = value }
tables_after t (sets_ttbr1 value) = record t { ttbr1 = value }
tables_after t (sets_tcr value) = record t { tcr = value }
tables_after t _ = t

-- The specification, with the descriptors that are in memory at the time of each translation.
unfoldable pub history : Memory → Tables → List Event → Defined (List (Option ℕ))
history memory t [] = defined []
history memory t (stores memory' ∷ es) = history memory' t es
history memory t (calls c ∷ es) = do
  out ← Spec.answers memory t (c ∷ [])
  rest ← history memory (tables_after t c) es
  defined (out ++ rest)

-- Whether the TLB may be older than the memory.
unfoldable pub stale_after : Bool → Event → Bool
stale_after stale (stores memory) = true
stale_after stale (calls invalidates_all) = false
stale_after stale (calls (sets_ttbr0 value)) = false
stale_after stale (calls (sets_ttbr1 value)) = false
stale_after stale (calls (sets_tcr value)) = false
stale_after stale (calls _) = stale

unfoldable pub translates_in : Event → Bool
translates_in (calls (translates va asid)) = true
translates_in (calls (translates_with va region asid)) = true
translates_in _ = false

-- After a change of the memory, the TLB is emptied before the next translation: by
-- `tlb_invalidate_all`, or by setting a register.
abbrev pub IsDisciplined : Bool → List Event → Type 0
IsDisciplined stale [] = Unit {0}
IsDisciplined stale (e ∷ es) =
    (stale ≡ true → translates_in e ≡ false) × IsDisciplined (stale_after stale e) es

abbrev pub IsLowEvent : Event → Type 0
IsLowEvent (calls c) = IsLowCall c × IsWordCall c
IsLowEvent (stores memory) = Unit {0}
