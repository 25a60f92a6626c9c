-- ===== src/Mmu/Updates/Calls.antt =====
-- One call of a history.
use acheron_arm.Base.{◌≡◌, refl, ap, Bool, true, false, defined, defined_inj, [], ◌∷◌, arith}
use acheron_arm.Mmu.Types.{blank_region}
use acheron_arm.Mmu.State.{Mmu, set_ttbr0, set_ttbr1, set_tcr, tlb_invalidate_all, reset_stats}
use acheron_arm.Mmu.Translate.{
  Begin, Call, translates, translates_with, invalidates_all, sets_ttbr0, sets_ttbr1, sets_tcr,
  translate, step, tlb_invalidate_va, tlb_invalidate_asid,
}
use acheron_arm.Mmu.Frame.{IsSound, step-IsSound}
use acheron_arm.Mmu.Uncached.{HasWholePages}
use acheron_arm.Mmu.Cached.{IsCoherentMmu}
use acheron_arm.Mmu.Transparent.{IsLowCall, step-IsCoherentMmu, emptied}
use acheron_arm.Mmu.Contract.{tables_of, AreWords, IsWordCall, translate-tables_of}
use acheron_arm.Mmu.Answers.{results, results-answers}
use acheron_arm.Mmu.Cases.{step_translates, step_translates_with}
use acheron_arm.Mmu.Spec
use acheron_arm.Mmu.Spec.{Tables, no_tables}
use acheron_arm.Mmu.Updates.{Memory, calls, tables_after, stale_after, translates_in}

pub step-tables_of :
    (memory : Memory) (begin : Begin) (m n : Mmu) (c : Call)
    → step memory begin m c ≡ defined n
    → tables_of n ≡ tables_after (tables_of m) c
unfolding step translate tables_after tlb_invalidate_va tlb_invalidate_asid set_ttbr0 set_ttbr1
    set_tcr tlb_invalidate_all reset_stats
step-tables_of memory begin m n (translates va asid) e =
    let (w, d, same) = step_translates memory begin m n va asid e in
    ground (arith, translate-tables_of memory begin m va blank_region asid w d)
step-tables_of memory begin m n (translates_with va region asid) e =
    let (w, d, same) = step_translates_with memory begin m n va region asid e in
    ground (arith, translate-tables_of memory begin m va region asid w d)
step-tables_of memory begin m n _ e = ground arith

-- What is known of the TLB, if it may be older than the memory and if not.
unfoldable pub Agrees : Bool → Memory → Mmu → Type 0
Agrees true memory m = IsSound m.tlb × HasWholePages m
Agrees false memory m = IsCoherentMmu memory m

pub Agrees-older :
    (stale : Bool) (memory memory' : Memory) (m : Mmu)
    → Agrees stale memory m
    → Agrees true memory' m
unfolding Agrees
Agrees-older true memory memory' m v = v
Agrees-older false memory memory' m v = (v.sound, v.whole)

step-HasWholePages :
    (memory : Memory) (begin : Begin) (m n : Mmu) (c : Call)
    → HasWholePages m
    → IsLowCall c
    → step memory begin m c ≡ defined n
    → HasWholePages n
unfolding tables_after
step-HasWholePages memory begin m n (sets_tcr value) v low e =
    let same = ap (λ (t : Tables). t.tcr) (step-tables_of memory begin m n (sets_tcr value) e) in
    ground (arith, low)
step-HasWholePages memory begin m n c v low e =
    let same = ap (λ (t : Tables). t.tcr) (step-tables_of memory begin m n c e) in ground arith

stale_after-false : (c : Call) → stale_after false (calls c) ≡ false
unfolding stale_after
stale_after-false c = ground arith

-- A call keeps what is known, or makes the TLB coherent by emptying it.
pub step-Agrees :
    (stale : Bool) (memory : Memory) (begin : Begin) (m n : Mmu) (c : Call)
    → Agrees stale memory m
    → IsLowCall c
    → step memory begin m c ≡ defined n
    → Agrees (stale_after stale (calls c)) memory n
unfolding Agrees stale_after step tlb_invalidate_all set_ttbr0 set_ttbr1 set_tcr
step-Agrees true memory begin m n invalidates_all v low e =
    rw (← defined_inj _ n e) (emptied memory begin (tlb_invalidate_all m) refl v.1)
step-Agrees true memory begin m n (sets_ttbr0 value) v low e =
    rw (← defined_inj _ n e) (emptied memory begin (set_ttbr0 m value) refl v.1)
step-Agrees true memory begin m n (sets_ttbr1 value) v low e =
    rw (← defined_inj _ n e) (emptied memory begin (set_ttbr1 m value) refl v.1)
step-Agrees true memory begin m n (sets_tcr value) v low e =
    rw (← defined_inj _ n e) (emptied memory begin (set_tcr m value) refl low)
step-Agrees true memory begin m n c v low e =
    (step-IsSound begin memory m n c v.0 e, step-HasWholePages memory begin m n c v.1 low e)
step-Agrees false memory begin m n c v low e =
    rw (stale_after-false c) (step-IsCoherentMmu memory begin m n c v low e)

-- A call that the discipline permits answers as the specification does.
pub call-answers :
    (stale : Bool) (memory : Memory) (begin : Begin) (m : Mmu) (c : Call)
    → Agrees stale memory m
    → AreWords m
    → IsLowCall c
    → IsWordCall c
    → (stale ≡ true → translates_in (calls c) ≡ false)
    → results memory begin m (c ∷ []) ≡ Spec.answers memory (tables_of m) (c ∷ [])
unfolding Agrees translates_in results step Spec.answers tlb_invalidate_va tlb_invalidate_asid
    tlb_invalidate_all set_ttbr0 set_ttbr1 set_tcr reset_stats
call-answers false memory begin m c v words low fits permitted =
    results-answers memory begin m (c ∷ []) v words (low, tt) (fits, tt)
call-answers true memory begin m (translates va asid) v words low fits permitted =
    absurd (let never = permitted refl in ground arith)
call-answers true memory begin m (translates_with va region asid) v words low fits permitted =
    absurd (let never = permitted refl in ground arith)
call-answers true memory begin m c v words low fits permitted = ground arith

pub step-AreWords :
    (memory : Memory) (begin : Begin) (m n : Mmu) (c : Call)
    → AreWords m
    → IsWordCall c
    → step memory begin m c ≡ defined n
    → AreWords n
unfolding tables_after
step-AreWords memory begin m n c words fits e =
    let same = step-tables_of memory begin m n c e in
    let same0 = ap (λ (t : Tables). t.ttbr0) same in
    let same1 = ap (λ (t : Tables). t.ttbr1) same in ground arith
