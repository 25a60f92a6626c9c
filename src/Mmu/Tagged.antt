-- ===== src/Mmu/Tagged.antt =====
-- Under which keys the entries of the TLB stand.
use acheron_arm.Base.{
  ℕ, zero, suc, ◌≡◌, refl, inl, inr, true, some, none, defined, defined_inj, Bool-cases, List, [],
  ◌∷◌, All, arith, ◌==◌, ◌||◌, ◌&&◌, leb, length,
}
use acheron_arm.Mmu.Types.{MemoryRegion, blank_region, TlbEntry}
use acheron_arm.Mmu.Tlb.{Tlb, find, insert, erase, erase_at, drop_asid, tlb_key, tlb_size}
use acheron_arm.Mmu.State.{Mmu, set_ttbr0, set_ttbr1, set_tcr, tlb_invalidate_all, reset_stats}
use acheron_arm.Mmu.Walk.{Walked}
use acheron_arm.Mmu.Translate.{
  Begin, Call, translates, translates_with, invalidates_va, invalidates_asid, invalidates_all,
  resets_stats, sets_ttbr0, sets_ttbr1, sets_tcr, translate, translate_with_attributes, step, run,
  finish, make_room, count_miss, count_hit, entry_of, tlb_invalidate_va, tlb_invalidate_asid,
}
use acheron_arm.Mmu.Cases.{run-keeps, step_translates, step_translates_with, translate_cases}
use acheron_arm.Mmu.Frame.{walk_page_tables-SameTables}
use acheron_arm.Mmu.Cached.{IsLow}
use acheron_arm.Mmu.Transparent.{IsLowCall}

-- A valid entry, under the key of a low address in its address space.
pub record IsTagged (p : ℕ × TlbEntry) : Type 0 where
  pub page : ℕ
  pub low : IsLow page p.1.asid
  pub key : p.0 ≡ tlb_key page p.1.asid
  pub valid : p.1.valid ≡ true

module _ (P : ℕ × TlbEntry → Type 0) where
  All-insert :
      (key : ℕ) (entry : TlbEntry) (t : Tlb) → P (key, entry) → All P t → All P (insert key entry t)
  unfolding insert
  All-insert key entry [] p h = (p, tt)
  All-insert key entry ((k, e) ∷ t) p h = elim (Bool-cases (k == key)) [
    | inl same ↦ rw same (p, h.1)
    | inr other ↦ rw other (h.0, All-insert key entry t p h.1)
  ]

  All-erase : (key : ℕ) (t : Tlb) → All P t → All P (erase key t)
  unfolding erase
  All-erase key [] h = tt
  All-erase key ((k, e) ∷ t) h = elim (Bool-cases (k == key)) [
    | inl same ↦ rw same (h.1)
    | inr other ↦ rw other (h.0, All-erase key t h.1)
  ]

  All-erase_at : (i : ℕ) (t : Tlb) → All P t → All P (erase_at i t)
  unfolding erase_at
  All-erase_at i [] h = tt
  All-erase_at zero (p ∷ t) h = h.1
  All-erase_at (suc i) (p ∷ t) h = (h.0, All-erase_at i t h.1)

  All-drop_asid : (asid : ℕ) (t : Tlb) → All P t → All P (drop_asid asid t)
  unfolding drop_asid
  All-drop_asid asid [] h = tt
  All-drop_asid asid ((k, e) ∷ t) h =
      elim (Bool-cases ((e.asid == asid || asid == 0xFFFF) && e.valid)) [
        | inl dropped ↦ rw dropped (All-drop_asid asid t h.1)
        | inr kept ↦ rw kept (h.0, All-drop_asid asid t h.1)
      ]

  pub All-find : (key : ℕ) (t : Tlb) (e : TlbEntry) → All P t → find key t ≡ some e → P (key, e)
  unfolding find
  All-find key [] e h f = absurd (ground arith)
  All-find key ((k, x) ∷ t) e h f = elim (Bool-cases (k == key)) [
    | inl same ↦
        let here : x ≡ e = ground arith in
        let at : k ≡ key = ground arith in rw (← here, ← at) (h.0)
    | inr other ↦ All-find key t e h.1 (ground arith)
  ]

abbrev pub AreTagged : Tlb → Type 0
AreTagged t = All IsTagged t

module _ (begin : Begin) where
  finish-AreTagged :
      (va asid : ℕ) (w : Walked)
      → IsLow va asid
      → AreTagged w.0.tlb
      → AreTagged (finish begin va asid w).0.tlb
  unfolding finish make_room entry_of
  finish-AreTagged va asid (m, region, none) low h = h
  finish-AreTagged va asid (m, region, some pa) low h =
      All-insert IsTagged (tlb_key va asid) (entry_of region va asid) (make_room begin m.tlb)
        (record { page = va; low = low; key = refl; valid = refl })
        (elim (Bool-cases (leb tlb_size (length m.tlb))) [
          | inl full ↦ rw full (All-erase_at IsTagged (begin.position m.tlb) m.tlb h)
          | inr room ↦ rw room h
        ])

  module _ (read_descriptor : ℕ → ℕ → ℕ) where
    translate-AreTagged :
        (m : Mmu) (va : ℕ) (region : MemoryRegion) (asid : ℕ) (w : Walked)
        → AreTagged m.tlb
        → IsLow va asid
        → translate_with_attributes read_descriptor begin m va region asid ≡ defined w
        → AreTagged w.0.tlb
    unfolding count_hit count_miss
    translate-AreTagged m va region asid w h low e =
        elim (translate_cases read_descriptor begin m va region asid w e) [
          | inl hit ↦ rw hit.returned h
          | inr miss ↦
              let frame =
                walk_page_tables-SameTables read_descriptor (count_miss m) va region miss.walked
                  miss.walks in
              rw miss.returned (finish-AreTagged va asid miss.walked low (rw frame.same_tlb h))
        ]

    step-AreTagged :
        (m n : Mmu) (c : Call)
        → AreTagged m.tlb
        → IsLowCall c
        → step read_descriptor begin m c ≡ defined n
        → AreTagged n.tlb
    unfolding step translate tlb_invalidate_all tlb_invalidate_va tlb_invalidate_asid set_ttbr0
        set_ttbr1 set_tcr reset_stats
    step-AreTagged m n (translates va asid) h low e =
        let (w, d, same) = step_translates read_descriptor begin m n va asid e in
        rw (← same) (translate-AreTagged m va blank_region asid w h low d)
    step-AreTagged m n (translates_with va region asid) h low e =
        let (w, d, same) = step_translates_with read_descriptor begin m n va region asid e in
        rw (← same) (translate-AreTagged m va region asid w h low d)
    step-AreTagged m n (invalidates_va va asid) h low e =
        rw (← defined_inj _ n e) (All-erase IsTagged (tlb_key va asid) m.tlb h)
    step-AreTagged m n (invalidates_asid asid) h low e =
        rw (← defined_inj _ n e) (All-drop_asid IsTagged asid m.tlb h)
    step-AreTagged m n resets_stats h low e = rw (← defined_inj _ n e) h
    step-AreTagged m n invalidates_all h low e = rw (← defined_inj _ n e) tt
    step-AreTagged m n (sets_ttbr0 value) h low e = rw (← defined_inj _ n e) tt
    step-AreTagged m n (sets_ttbr1 value) h low e = rw (← defined_inj _ n e) tt
    step-AreTagged m n (sets_tcr value) h low e = rw (← defined_inj _ n e) tt

    pub run-AreTagged :
        (cs : List Call) (m n : Mmu)
        → AreTagged m.tlb
        → All IsLowCall cs
        → run read_descriptor begin m cs ≡ defined n
        → AreTagged n.tlb
    run-AreTagged = run-keeps read_descriptor begin (λ m. AreTagged m.tlb) IsLowCall step-AreTagged
