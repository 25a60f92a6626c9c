-- ===== src/Mmu/Cases.antt =====
-- The two ways in which a translation returns: from the TLB, or from a walk.
use acheron_arm.Base.{
  ℕ, ◌≡◌, ◌⊎◌, inl, inr, none, some, defined, defined_inj, Defined-cases, ◌>>=◌, arith,
  Option-cases, List, [], ◌∷◌, All,
}
use acheron_arm.Mmu.Types.{MemoryRegion, blank_region, TlbEntry}
use acheron_arm.Mmu.Tlb.{tlb_key}
use acheron_arm.Mmu.State.{Mmu}
use acheron_arm.Mmu.Walk.{Walked, walk_page_tables}
use acheron_arm.Mmu.Translate.{
  Begin, Call, run, translates, translates_with, translate, step, translate_with_attributes,
  valid_entry, finish, count_miss, count_hit, hit_region, hit_address,
}

module _ (read_descriptor : ℕ → ℕ → ℕ) (begin : Begin) (m : Mmu) (va : ℕ) (region : MemoryRegion)
    (asid : ℕ) where
  pub translate-hit :
      (e : TlbEntry)
      → valid_entry (tlb_key va asid) m.tlb ≡ some e
      → translate_with_attributes read_descriptor begin m va region asid
        ≡ defined (count_hit m, hit_region e region, some (hit_address e va))
  unfolding translate_with_attributes
  translate-hit e h = ground arith

  pub translate-miss :
      valid_entry (tlb_key va asid) m.tlb ≡ none
      → translate_with_attributes read_descriptor begin m va region asid ≡ (
          walk_page_tables read_descriptor (count_miss m) va region >>= λ walked.
          defined (finish begin va asid walked))
  unfolding translate_with_attributes
  translate-miss h = ground arith

  pub record IsHit (w : Walked) : Type 0 where
    pub entry : TlbEntry
    pub found : valid_entry (tlb_key va asid) m.tlb ≡ some entry
    pub returned : w ≡ (count_hit m, hit_region entry region, some (hit_address entry va))

  pub record IsMiss (w : Walked) : Type 0 where
    pub walked : Walked
    pub missing : valid_entry (tlb_key va asid) m.tlb ≡ none
    pub walks : walk_page_tables read_descriptor (count_miss m) va region ≡ defined walked
    pub returned : w ≡ finish begin va asid walked

  pub translate_cases :
      (w : Walked)
      → translate_with_attributes read_descriptor begin m va region asid ≡ defined w
      → IsHit w ⊎ IsMiss w
  translate_cases w e = elim (Option-cases (valid_entry (tlb_key va asid) m.tlb)) [
    | inr (entry, found) ↦
        inl (record { entry = entry; found = found; returned = cc (translate-hit entry found) })
    | inl missing ↦
        elim (Defined-cases (walk_page_tables read_descriptor (count_miss m) va region)) [
          | inl undefined_walk ↦ absurd (ground (arith, translate-miss missing))
          | inr (walked, walks) ↦ inr (record {
            walked = walked;
            missing = missing;
            walks = walks;
            returned = ground (arith, translate-miss missing);
          })
        ]
  ]

-- A call that translates, by its translation.
pub step_translates_with :
    (read_descriptor : ℕ → ℕ → ℕ) (begin : Begin) (m n : Mmu) (va : ℕ) (region : MemoryRegion)
    (asid : ℕ)
    → step read_descriptor begin m (translates_with va region asid) ≡ defined n
    → (w : Walked) × (translate_with_attributes read_descriptor begin m va region asid ≡ defined w)
      × (w.0 ≡ n)
unfolding step
step_translates_with read begin m n va region asid e =
    elim (Defined-cases (translate_with_attributes read begin m va region asid)) [
      | inl u ↦ absurd (ground arith)
      | inr (w, d) ↦ (w, d, defined_inj w.0 n (ground arith))
    ]

pub step_translates :
    (read_descriptor : ℕ → ℕ → ℕ) (begin : Begin) (m n : Mmu) (va asid : ℕ)
    → step read_descriptor begin m (translates va asid) ≡ defined n
    → (w : Walked) × (translate_with_attributes read_descriptor begin m va blank_region asid
        ≡ defined w)
      × (w.0 ≡ n)
unfolding step translate
step_translates read begin m n va asid e =
    elim (Defined-cases (translate_with_attributes read begin m va blank_region asid)) [
      | inl u ↦ absurd (ground arith)
      | inr (w, d) ↦ (w, d, defined_inj w.0 n (ground arith))
    ]

-- What each permitted call keeps, any number of them keep.
module _ {ℓ κ} (read_descriptor : ℕ → ℕ → ℕ) (begin : Begin) (P : Mmu → Type ℓ) (Q : Call → Type κ)
    (kept : (m n : Mmu) (c : Call)
      → P m
      → Q c
      → step read_descriptor begin m c ≡ defined n
      → P n) where
  pub run-keeps :
      (cs : List Call) (m n : Mmu)
      → P m
      → All Q cs
      → run read_descriptor begin m cs ≡ defined n
      → P n
  unfolding run
  run-keeps [] m n p q e = rw (← defined_inj m n e) p
  run-keeps (c ∷ cs) m n p q e = elim (Defined-cases (step read_descriptor begin m c)) [
    | inl u ↦ absurd (ground arith)
    | inr (k, d) ↦ run-keeps cs k n (kept m k c p q.0 d) q.1 (ground arith)
  ]

abbrev pub AnyCall : Call → Type 0
AnyCall c = Unit {0}

pub any_calls : (cs : List Call) → All AnyCall cs
any_calls [] = tt
any_calls (c ∷ cs) = (tt, any_calls cs)
