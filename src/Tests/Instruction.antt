-- ===== src/Tests/Instruction.antt =====
-- The decoder at concrete words.
use acheron_arm.Base.{ℕ, ◌≡◌, ◌≢◌, arith}
use acheron_arm.Instruction.{
  msr_reg, mrs_reg, dsb, dmb, brk, InstructionType, decode_system_instruction,
}
use acheron_arm.Instruction.Reach.{described, decode-described, decode-never}

-- `DSB SY`, as the decoder knows it.
abbrev barrier : ℕ
barrier = 0xD5033000

decode-described_example : decode_system_instruction barrier ≡ described barrier
decode-described_example = decode-described barrier (omega arith)

abbrev decoded_barrier : InstructionType
decoded_barrier = (decode_system_instruction barrier).type

decode-never_example :
    (decoded_barrier ≢ msr_reg)
    × (decoded_barrier ≢ mrs_reg)
    × (decoded_barrier ≢ dsb)
    × (decoded_barrier ≢ dmb)
    × (decoded_barrier ≢ brk)
decode-never_example = decode-never barrier (omega arith)
