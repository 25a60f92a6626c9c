-- ===== src/Tests/Pages.antt =====
-- The TLB keys, the table ranges and the descriptors at concrete inputs.
use acheron_arm.Base.{
  ℕ, ◌+◌, ◌-◌, ◌*◌, ◌/◌, ◌^◌, ◌≡◌, ◌↔◌, ltb, if◌then◌else◌, some, defined, arith,
}
use acheron_arm.Mmu.State.{Mmu, new_mmu}
use acheron_arm.Mmu.Tlb.{tlb_key}
use acheron_arm.Mmu.Keys.{tlb_key_shared}
use acheron_arm.Mmu.Walk.{select_table}
use acheron_arm.Mmu.Ranges.{t0sz, table_base, select_table_all}
use acheron_arm.Mmu.Descriptor.{
  get_output_address, commented_word, get_output_address-commented_word,
}

abbrev page : ℕ
page = 0x40

tlb_key_shared_example : tlb_key 0xFFFF800000001000 7 ≡ tlb_key 0xFFFF800000001000 8
tlb_key_shared_example =
    tlb_key_shared 0xFFFF800000001000 7 8 (omega arith) (omega arith) (omega arith) (omega arith)

-- Both ranges meet at 2 ^ 48.
abbrev without_gap : Mmu
without_gap = record new_mmu { tcr = 16 + 16 * 2 ^ 16; ttbr1 = 0x50007 }

select_table_all_example :
    select_table without_gap (2 ^ 48)
    ≡ defined (
        some (
          table_base (
            if ltb (2 ^ 48) (2 ^ (64 - t0sz without_gap))
            then without_gap.ttbr0
            else without_gap.ttbr1)))
select_table_all_example = select_table_all without_gap (2 ^ 48) (omega arith) (omega arith)

get_output_address-commented_word_example :
    (get_output_address (commented_word page 3) ≡ page / 2 * 2 ^ 12)
    × ((get_output_address (commented_word page 3) ≡ page * 2 ^ 12) ↔ (page ≡ 0))
get_output_address-commented_word_example =
    get_output_address-commented_word page 3 (omega arith) (omega arith)
