-- ===== src/Mmu/Cached.antt =====
-- Coherence of the TLB with the page tables, for addresses below 2 ^ 48, and one translation.
use acheron_arm.Base.{
  ℕ, ◌/◌, ◌^◌, ◌<◌, ◌≡◌, refl, sym, ap, ◌∙◌, inl, inr, none, some, Defined, defined, undefined,
  Bool-cases, Option-cases, ◌>>=◌, arith, ◌==◌, ==_iff,
}
use acheron_arm.Mmu.Types.{MemoryRegion, TlbEntry}
use acheron_arm.Mmu.Tlb.{Tlb, find, insert, tlb_key, find-insert, find-erase_at, HasDistinctKeys}
use acheron_arm.Mmu.State.{Mmu}
use acheron_arm.Mmu.Walk.{Walked, walk_page_tables, offset_in}
use acheron_arm.Mmu.Translate.{
  Begin, translate_with_attributes, valid_entry, finish, make_room, count_miss, entry_of,
  hit_address,
}
use acheron_arm.Mmu.Cases.{translate-hit, translate-miss}
use acheron_arm.Mmu.Keys.{tlb_key_iff}
use acheron_arm.Mmu.Leaves.{IsMapped, hit-entry_of}
use acheron_arm.Mmu.Walks.{result_of}
use acheron_arm.Mmu.Frame.{IsSound}
use acheron_arm.Mmu.Uncached.{
  uncached, walk-uncached, uncached-SameRegisters, SameRegisters, HasWholePages,
}

-- The arguments for which the key tells address spaces and pages apart.
abbrev pub IsLow : ℕ → ℕ → Type 0
IsLow va asid = (va < 2 ^ 48) × (asid < 2 ^ 16)

valid_entry-find :
    (key : ℕ) (t : Tlb) (e : TlbEntry) → valid_entry key t ≡ some e → find key t ≡ some e
unfolding valid_entry
valid_entry-find key t e h = ground arith

pub find-make_room :
    (begin : Begin) (key : ℕ) (t : Tlb) (e : TlbEntry)
    → HasDistinctKeys t
    → find key (make_room begin t) ≡ some e
    → find key t ≡ some e
unfolding make_room
find-make_room begin key t e d h = ground (arith, d key, find-erase_at (begin.position t) key t e)

finish-result : (begin : Begin) (va asid : ℕ) (w : Walked) → (finish begin va asid w).2 ≡ w.2
unfolding finish
finish-result begin va asid (m, region, none) = refl
finish-result begin va asid (m, region, some pa) = refl

pub result_of-finish :
    (begin : Begin) (va asid : ℕ) (d : Defined Walked)
    → result_of (d >>= λ w. defined (finish begin va asid w)) ≡ result_of d
result_of-finish begin va asid undefined = refl
result_of-finish begin va asid (defined w) = ap defined (finish-result begin va asid w)

module _ (read_descriptor : ℕ → ℕ → ℕ) where
  -- Each entry that a low address can hit gives the address of the page tables.
  unfoldable pub IsCoherent : Mmu → Type 0
  IsCoherent m =
      (va asid : ℕ) (e : TlbEntry)
      → IsLow va asid
      → find (tlb_key va asid) m.tlb ≡ some e
      → uncached read_descriptor m va ≡ defined (some (hit_address e va))

  -- The TLB, registers and ranges that the invariant is about.
  pub record IsCoherentMmu (m : Mmu) : Type 0 where
    pub sound : IsSound m.tlb
    pub whole : HasWholePages m
    pub coherent : IsCoherent m

  -- One translation with a low address gives the uncached address, or is undefined with it.
  pub translate-uncached :
      (begin : Begin) (m : Mmu) (va : ℕ) (region : MemoryRegion) (asid : ℕ)
      → IsCoherent m
      → IsLow va asid
      → result_of (translate_with_attributes read_descriptor begin m va region asid)
        ≡ uncached read_descriptor m va
  unfolding IsCoherent count_miss
  translate-uncached begin m va region asid c low =
      elim (Option-cases (valid_entry (tlb_key va asid) m.tlb)) [
        | inr (e, found) ↦ ground (
          arith,
          translate-hit read_descriptor begin m va region asid e found,
          c va asid e low (valid_entry-find (tlb_key va asid) m.tlb e found),
        )
        | inl missing ↦ rw (translate-miss read_descriptor begin m va region asid missing) (
            result_of-finish begin va asid
              (walk_page_tables read_descriptor (count_miss m) va region)
            ∙ walk-uncached read_descriptor (count_miss m) m va region (refl, refl, refl))
      ]

  -- Fewer entries and the same registers keep the TLB coherent.
  pub IsCoherent-mono :
      (m n : Mmu)
      → SameRegisters m n
      → ((key : ℕ) (e : TlbEntry) → find key n.tlb ≡ some e → find key m.tlb ≡ some e)
      → IsCoherent m
      → IsCoherent n
  unfolding IsCoherent
  IsCoherent-mono m n regs fewer c va asid e low f =
      sym (uncached-SameRegisters read_descriptor m n va regs)
      ∙ c va asid e low (fewer (tlb_key va asid) e f)

  -- An entry that a walk has found.
  pub insert-IsCoherent :
      (m : Mmu) (va : ℕ) (region : MemoryRegion) (asid : ℕ) (t : Tlb)
      → IsLow va asid
      → IsCoherent (record m { tlb = t })
      → ((va' : ℕ)
          → va / 2 ^ 12 ≡ va' / 2 ^ 12
          → uncached read_descriptor m va' ≡ defined (some (offset_in region va')))
      → IsMapped region
      → IsCoherent (record m { tlb = insert (tlb_key va asid) (entry_of region va asid) t })
  unfolding IsCoherent
  insert-IsCoherent m va region asid t low c page mapped va' asid' e low' f =
      let key = tlb_key va asid in
      let key' = tlb_key va' asid' in
      let found = find-insert key key' (entry_of region va asid) t in
      let changed =
        uncached-SameRegisters read_descriptor m
          (record m { tlb = insert key (entry_of region va asid) t }) va' (refl, refl, refl) in
      let before =
        uncached-SameRegisters read_descriptor m (record m { tlb = t }) va' (refl, refl, refl) in
      elim (Bool-cases (key == key')) [
        | inl same ↦
            let pages =
              (tlb_key_iff va va' asid asid' low.0 low'.0 low.1 low'.1).0
                ((==_iff key key').0 same) in
            ground (arith, found, page va' pages.1, changed, hit-entry_of region va va' asid mapped)
        | inr other ↦ ground (arith, found, c va' asid' e low', before, changed)
      ]
