-- ===== src/Instruction.antt =====
-- The system instruction decoder: `SystemInstruction` (ARM64SystemRegisters.hpp, lines 303 to 329)
-- and `decodeSystemInstruction` (ARM64SystemRegisters.cpp, lines 15 to 116).
pub mod Masks
pub mod Reach
use acheron_arm.Base.{ℕ, ◌≡◌, bit_and, ◌==◌, ◌>>>◌, if◌then◌else◌, u8}

-- `SystemInstruction::Type`
pub data InstructionType : Type 0 where
  unknown msr_imm msr_reg mrs_reg isb dsb dmb wfi wfe hlt brk : InstructionType

pub record SystemInstruction : Type 0 where
  pub type : InstructionType
  pub sys_reg_op0 : ℕ
  pub sys_reg_op1 : ℕ
  pub sys_reg_crn : ℕ
  pub sys_reg_crm : ℕ
  pub sys_reg_op2 : ℕ
  pub rt : ℕ
  pub immediate : ℕ

-- The constructor of the source.
abbrev pub blank_instruction : SystemInstruction
blank_instruction = record {
  type = unknown;
  sys_reg_op0 = 0;
  sys_reg_op1 = 0;
  sys_reg_crn = 0;
  sys_reg_crm = 0;
  sys_reg_op2 = 0;
  rt = 0;
  immediate = 0;
}

-- The five assignments `result.sysReg… = …` that the first three branches share.
abbrev pub with_sys_reg : ℕ → SystemInstruction → SystemInstruction
with_sys_reg instruction result = record result {
  sys_reg_op0 = bit_and (instruction >>> 19) 0x7;
  sys_reg_op1 = bit_and (instruction >>> 16) 0x7;
  sys_reg_crn = bit_and (instruction >>> 12) 0xF;
  sys_reg_crm = bit_and (instruction >>> 8) 0xF;
  sys_reg_op2 = bit_and (instruction >>> 5) 0x7;
}

unfoldable pub decode_system_instruction : ℕ → SystemInstruction
decode_system_instruction instruction =
    let result = blank_instruction in
    if bit_and instruction 0xFFE0001F == 0xD5000000
    then with_sys_reg instruction
        (record result { type = msr_imm; immediate = bit_and (instruction >>> 0) 0x1F })
    else if bit_and instruction 0xFFE00000 == 0xD5100000
    then with_sys_reg instruction
        (record result { type = msr_reg; rt = u8 (bit_and (instruction >>> 5) 0x1F) })
    else if bit_and instruction 0xFFE00000 == 0xD5300000
    then with_sys_reg instruction
        (record result { type = mrs_reg; rt = u8 (bit_and (instruction >>> 5) 0x1F) })
    else if instruction == 0xD500401F
    then record result { type = isb }
    else if bit_and instruction 0xFFFFF01F == 0xD5033000
    then record result { type = dsb }
    else if bit_and instruction 0xFFFFF01F == 0xD5033000
    then record result { type = dmb }
    else if instruction == 0xD503205F
    then record result { type = wfi }
    else if instruction == 0xD503207F
    then record result { type = wfe }
    else if bit_and instruction 0xFFE0001F == 0xD4200000
    then record result { type = hlt; immediate = bit_and (instruction >>> 0) 0xFFFF }
    else if bit_and instruction 0xFFE0001F == 0xD4200000
    then record result { type = brk; immediate = bit_and (instruction >>> 0) 0xFFFF }
    else record result { type = unknown }
