-- ===== src/Tests/Translation.antt =====
-- Translations of a small program: TTBR0_EL1 is the table at 0x10000, each entry of which is the
-- table at 0x20000, each entry of which is a 2 MB block at 1 GB.
use acheron_arm.Base.{
  ℕ, ◌+◌, ◌*◌, ◌^◌, shift_one, ◌≡◌, refl, ◌==◌, if◌then◌else◌, none, Defined, defined, undefined,
  List, [], ◌∷◌, arith,
}
use acheron_arm.Mmu.Types.{blank_region}
use acheron_arm.Mmu.Tlb.{find, insert, tlb_key}
use acheron_arm.Mmu.State.{
  Mmu, new_mmu, set_ttbr0, set_tcr, tlb_invalidate_all, va_in_ttbr0, get_t0sz,
}
use acheron_arm.Mmu.Walk.{
  Walked, stub_descriptor, walk_page_tables, walk_from, walk_level, walk_leaf, select_table,
  count_walk, count_fault, index_at, leaf_size, leaf_region, offset_in, decode_memory_type,
  decode_permissions,
}
use acheron_arm.Mmu.Translate.{
  Begin, Call, translates, translates_with, sets_ttbr0, sets_tcr, translate,
  translate_with_attributes, step, run, tlb_invalidate_va, tlb_invalidate_asid, finish, make_room,
  count_miss, count_hit, valid_entry, entry_of, hit_region, hit_address,
}
use acheron_arm.Mmu.Descriptor.{is_valid, is_table, get_output_address}
use acheron_arm.Mmu.Walks.{result_of}
use acheron_arm.Mmu.Uncached.{uncached}
use acheron_arm.Mmu.Frame.{IsSound, run-new-IsSound}
use acheron_arm.Mmu.Invalidation.{translate-invalidate_va, translate-invalidate_asid}
use acheron_arm.Mmu.Counts.{Counts, counted, run-new-Counts}
use acheron_arm.Mmu.Stub.{Faults, stub_never_translates}
use acheron_arm.Mmu.Histories.{translate-transparent}

abbrev pub memory : ℕ → ℕ → ℕ
memory table_base index = if table_base == 0x10000 then 3 + 0x20 * 2 ^ 13 else 1 + 2 ^ 18 * 2 ^ 13

abbrev pub first : Begin
first = record { position = λ t. 0; in_range = λ t h. h }

-- T0SZ and T1SZ are 16. The second translation is a hit.
abbrev pub calls : List Call
calls =
    sets_tcr (16 + 16 * 2 ^ 16)
    ∷ sets_ttbr0 0x10000
    ∷ translates 0x1234 7
    ∷ translates_with 0x1FF8 blank_region 7
    ∷ []

abbrev pub state_of : Defined Mmu → Mmu
state_of (defined m) = m
state_of undefined = new_mmu

abbrev pub translated : Mmu
translated = state_of (run memory first new_mmu calls)

pub translated_runs : run memory first new_mmu calls ≡ defined translated
unfolding run step translate translate_with_attributes new_mmu set_tcr set_ttbr0 tlb_invalidate_all
    find valid_entry tlb_key walk_page_tables select_table va_in_ttbr0 get_t0sz shift_one walk_from
    walk_level index_at is_valid is_table get_output_address walk_leaf leaf_size leaf_region
    offset_in decode_memory_type decode_permissions count_walk count_miss count_hit finish make_room
    insert entry_of hit_region hit_address
translated_runs = refl

run-new-IsSound_example : IsSound translated.tlb
run-new-IsSound_example = run-new-IsSound first memory calls translated translated_runs

run-new-Counts_example : Counts (counted 0 calls) translated
run-new-Counts_example = run-new-Counts first memory calls translated translated_runs

translate-transparent_example :
    result_of (translate_with_attributes memory first translated 0x1008 blank_region 7)
    ≡ uncached memory translated 0x1008
translate-transparent_example =
    translate-transparent memory first calls translated 0x1008 blank_region 7
      (
        (omega arith, omega arith),
        (tt, ((omega arith, omega arith), ((omega arith, omega arith), tt))),
      )
      translated_runs (omega arith, omega arith)

-- The same calls on the code as it stands.
abbrev stubbed : Mmu
stubbed = state_of (run stub_descriptor first new_mmu calls)

stubbed_runs : run stub_descriptor first new_mmu calls ≡ defined stubbed
unfolding run step translate translate_with_attributes new_mmu set_tcr set_ttbr0 tlb_invalidate_all
    find valid_entry tlb_key walk_page_tables select_table va_in_ttbr0 get_t0sz shift_one walk_from
    walk_level index_at is_valid stub_descriptor count_walk count_miss count_fault finish
stubbed_runs = refl

abbrev walked_of : Defined Walked → Walked
walked_of (defined w) = w
walked_of undefined = (new_mmu, blank_region, none)

abbrev stub_walked : Walked
stub_walked =
    walked_of (translate_with_attributes stub_descriptor first stubbed 0x1234 blank_region 7)

stub_walked_returns :
    translate_with_attributes stub_descriptor first stubbed 0x1234 blank_region 7
    ≡ defined stub_walked
unfolding run step translate translate_with_attributes new_mmu set_tcr set_ttbr0 tlb_invalidate_all
    find valid_entry tlb_key walk_page_tables select_table va_in_ttbr0 get_t0sz shift_one walk_from
    walk_level index_at is_valid stub_descriptor count_walk count_miss count_fault finish
stub_walked_returns = refl

stub_never_translates_example : (stubbed.tlb ≡ []) × Faults stubbed blank_region stub_walked
stub_never_translates_example =
    stub_never_translates first calls stubbed 0x1234 blank_region 7 stub_walked stubbed_runs
      stub_walked_returns

-- T0SZ = T1SZ = 16, and the table at 0x10000.
abbrev pub set_up : Mmu
set_up = record new_mmu { ttbr0 = 0x10000; tcr = 16 + 16 * 2 ^ 16 }

-- The tables change to another block once the translations above are cached.
abbrev pub changed : ℕ → ℕ → ℕ
changed table_base index = if table_base == 0x10000 then 3 + 0x20 * 2 ^ 13 else 1 + 2 ^ 19 * 2 ^ 13

translate-invalidate_va_example :
    result_of (
      translate_with_attributes changed first
        (tlb_invalidate_va translated 0x1234 7)
        0x1234
        blank_region
        7)
    ≡ uncached changed (tlb_invalidate_va translated 0x1234 7) 0x1234
translate-invalidate_va_example =
    translate-invalidate_va memory changed first calls translated 0x1234 blank_region 7
      translated_runs

translate-invalidate_asid_example :
    result_of (
      translate_with_attributes changed first
        (tlb_invalidate_asid translated 7)
        0x1234
        blank_region
        7)
    ≡ uncached changed (tlb_invalidate_asid translated 7) 0x1234
translate-invalidate_asid_example =
    translate-invalidate_asid memory changed first calls translated 0x1234 blank_region 7
      (
        (omega arith, omega arith),
        (tt, ((omega arith, omega arith), ((omega arith, omega arith), tt))),
      )
      translated_runs (omega arith, omega arith)
