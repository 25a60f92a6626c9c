-- ===== src/Tests/Specification.antt =====
-- The calls of Tests.Translation against the specification of the MMU.
use acheron_arm.Base.{
  Option, ℕ, ◌==◌, true, Bool-cases, inl, inr, shift_one, ◌≢◌, ◌↔◌, undefined, ◌%◌, ◌<◌, ◌+◌, ◌*◌,
  ◌^◌, ◌≡◌, refl, some, defined, List, [], ◌∷◌, arith,
}
use acheron_arm.Mmu.State.{new_mmu, set_ttbr0, set_tcr, tlb_invalidate_all, va_in_ttbr0, get_t0sz}
use acheron_arm.Mmu.Spec
use acheron_arm.Mmu.Spec.{no_tables, block_size, start_of}
use acheron_arm.Mmu.Answers.{results, new_mmu-refines}
use acheron_arm.Mmu.Translate.{
  invalidates_all, sets_tcr, sets_ttbr0, translates, translate_with_attributes, run, step,
  translate, finish, make_room, count_miss, count_hit, valid_entry, entry_of, hit_region,
  hit_address,
}
use acheron_arm.Mmu.Types.{blank_region}
use acheron_arm.Mmu.State.{Mmu}
use acheron_arm.Mmu.Walk.{
  walk_page_tables, walk_from, walk_level, walk_leaf, select_table, count_walk, index_at, leaf_size,
  leaf_region, offset_in, decode_memory_type, decode_permissions,
}
use acheron_arm.Mmu.Descriptor.{is_valid, is_table, get_output_address}
use acheron_arm.Mmu.Tlb.{find, insert, tlb_key}
use acheron_arm.Mmu.Walks.{result_of}
use acheron_arm.Mmu.Depth.{descends}
use acheron_arm.Mmu.Returns.{walk_page_tables-undefined_iff, walk_page_tables-pages}
use acheron_arm.Mmu.Total.{IsShallow, new_mmu-returns, translate-bound}
use acheron_arm.Mmu.Updates.{
  Event, stores, Steps, history, tables_after, stale_after, translates_in,
}
use acheron_arm.Mmu.Aliases.{walk_page_tables-aliases}
use acheron_arm.Mmu.Updates.Runs.{Steps-history_iff}
use acheron_arm.Tests.Translation.{
  changed, memory, first, calls, translated, translated_runs, set_up,
}

calls_answered :
    Spec.answers memory no_tables calls
    ≡ defined (some (2 ^ 30 + 0x1234) ∷ some (2 ^ 30 + 0x1FF8) ∷ [])
unfolding Spec.answers Spec.lookup Spec.walk block_size start_of
calls_answered = refl

new_mmu-refines_example : results memory first new_mmu calls ≡ Spec.answers memory no_tables calls
new_mmu-refines_example =
    new_mmu-refines memory first calls
      (
        (omega arith, omega arith),
        (tt, ((omega arith, omega arith), ((omega arith, omega arith), tt))),
      )
      (tt, (omega arith, (tt, (tt, tt))))

memory-IsShallow : IsShallow memory
unfolding descends
memory-IsShallow va base = elim (Bool-cases (base == 0x10000)) [
  | inl top ↦ ground arith
  | inr other ↦ ground arith
]

new_mmu-returns_example :
    (n : Mmu) × (run memory first new_mmu
        (sets_tcr (16 + 16 * 2 ^ 16) ∷ sets_ttbr0 0x10000 ∷ translates 0x1234 7 ∷ [])
      ≡ defined n)
new_mmu-returns_example =
    new_mmu-returns memory first memory-IsShallow (16 + 16 * 2 ^ 16)
      (sets_ttbr0 0x10000 ∷ translates 0x1234 7 ∷ []) ((omega arith, omega arith), (tt, (tt, tt)))

hit_returns :
    result_of (translate_with_attributes memory first translated 0x1008 blank_region 7)
    ≡ defined (some (2 ^ 30 + 0x1008))
unfolding run step translate translate_with_attributes new_mmu set_tcr set_ttbr0 tlb_invalidate_all
    find valid_entry tlb_key walk_page_tables select_table va_in_ttbr0 get_t0sz shift_one walk_from
    walk_level index_at is_valid is_table get_output_address walk_leaf leaf_size leaf_region
    offset_in decode_memory_type decode_permissions count_walk count_miss count_hit finish make_room
    insert entry_of hit_region hit_address
hit_returns = refl

translate-bound_example :
    (2 ^ 30 + 0x1008 < 2 ^ 48) × ((2 ^ 30 + 0x1008) % 2 ^ 12 ≡ 0x1008 % 2 ^ 12)
translate-bound_example =
    translate-bound memory first calls translated 0x1008 blank_region 7 (2 ^ 30 + 0x1008)
      (
        (omega arith, omega arith),
        (tt, ((omega arith, omega arith), ((omega arith, omega arith), tt))),
      )
      translated_runs (omega arith, omega arith) hit_returns

-- Every descriptor has both low bits set and names the table at 0x10000.
abbrev cycle : ℕ → ℕ → ℕ
cycle table_base index = 3 + 0x10 * 2 ^ 13

starts_at : select_table set_up 0x1234 ≡ defined (some 0x10000)
unfolding select_table va_in_ttbr0 get_t0sz shift_one new_mmu
starts_at = refl

cycle-descends : descends cycle 4 5 0x1234 0x10000 ≡ true
unfolding descends
cycle-descends = refl

walk_page_tables-undefined_iff_example :
    (walk_page_tables cycle set_up 0x1234 blank_region ≡ undefined) ↔ (
      (base : ℕ) × (select_table set_up 0x1234 ≡ defined (some base))
      × (descends cycle 5 5 0x1234 base ≡ true))
unfolding new_mmu
walk_page_tables-undefined_iff_example =
    walk_page_tables-undefined_iff cycle set_up 0x1234 blank_region (omega arith, omega arith)

walk_page_tables-pages_example :
    result_of (walk_page_tables cycle set_up 0x1234 blank_region) ≢ defined (some 0x10234)
walk_page_tables-pages_example =
    walk_page_tables-pages cycle set_up 0x1234 blank_region 0x10000 0x10234 starts_at cycle-descends

-- The tables change between two translations of one address.
abbrev updates : List Event
updates =
    Event.calls (sets_tcr (16 + 16 * 2 ^ 16))
    ∷ Event.calls (sets_ttbr0 0x10000)
    ∷ Event.calls (translates 0x1234 7)
    ∷ stores changed
    ∷ Event.calls invalidates_all
    ∷ Event.calls (translates 0x1234 7)
    ∷ []

abbrev updated : List (Option ℕ)
updated = some (2 ^ 30 + 0x1234) ∷ some (2 ^ 31 + 0x1234) ∷ []

updates_answered : history memory no_tables updates ≡ defined updated
unfolding history tables_after Spec.answers Spec.lookup Spec.walk block_size start_of
updates_answered = refl

Steps-history_iff_example :
    Steps memory new_mmu updates updated ↔ (history memory no_tables updates ≡ defined updated)
unfolding stale_after translates_in
Steps-history_iff_example =
    Steps-history_iff memory updates updated
      (
        λ never. refl,
        (
          λ never. refl,
          (λ never. ground arith, (λ now. refl, (λ now. refl, (λ never. ground arith, tt)))),
        ),
      )
      (
        ((omega arith, omega arith), tt),
        (
          (tt, omega arith),
          (
            ((omega arith, omega arith), tt),
            (tt, ((tt, tt), (((omega arith, omega arith), tt), tt))),
          ),
        ),
      )

-- The entries at 0x10000 are 1 GB blocks.
abbrev blocks : ℕ → ℕ → ℕ
blocks table_base index = 1 + 2 ^ 18 * 2 ^ 13

starts_above : select_table set_up (2 ^ 30 + 0x1234) ≡ defined (some 0x10000)
unfolding select_table va_in_ttbr0 get_t0sz shift_one new_mmu
starts_above = refl

walk_page_tables-aliases_example :
    result_of (walk_page_tables blocks set_up 0x1234 blank_region)
    ≡ result_of (walk_page_tables blocks set_up (2 ^ 30 + 0x1234) blank_region)
walk_page_tables-aliases_example =
    walk_page_tables-aliases blocks set_up 0x1234 (2 ^ 30 + 0x1234) blank_region blank_region
      0x10000 starts_at starts_above
      (inl (record { entry = omega arith; block = omega arith; offset = omega arith }))
