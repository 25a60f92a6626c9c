-- ===== src/Emulator.antt =====
-- `SystemRegisterEmulator`: include/acheronarm64/ARM64SystemRegisters.hpp, lines 354 to 416, and
-- src/ARM64SystemRegisters.cpp, lines 181 to 372. The object's only field is the register state; a
-- method takes it and returns it. What the methods print is not modelled.
pub mod RegisterFile
pub mod Moves
pub mod Decoded
pub mod Exceptions
pub mod Names
pub mod Unique
pub mod Widths
pub mod Machine
use acheron_arm.Base.{
  ℕ, Bool, true, false, ◌&&◌, ◌==◌, Option, none, some, bit_and, ◌>>>◌, u8, if◌then◌else◌,
}
use acheron_arm.Registers.{SystemRegisterState, reset}
use acheron_arm.Instruction.{InstructionType, msr_imm, msr_reg, mrs_reg, SystemInstruction}

-- The five `uint8_t` arguments by which a register is named.
pub record Encoding : Type 0 where
  pub op0 : ℕ
  pub op1 : ℕ
  pub crn : ℕ
  pub crm : ℕ
  pub op2 : ℕ

-- The condition `op0 == a && op1 == b && crn == c && crm == d && op2 == e` of the source.
unfoldable pub names : Encoding → ℕ → ℕ → ℕ → ℕ → ℕ → Bool
names x a b c d e = x.op0 == a && x.op1 == b && x.crn == c && x.crm == d && x.op2 == e

unfoldable pub read_system_register : SystemRegisterState → Encoding → Option ℕ
read_system_register state x =
    if names x 3 0 1 0 0
    then some state.sctlr_el1
    else if names x 3 0 2 0 2
    then some state.tcr_el1
    else if names x 3 0 2 0 0
    then some state.ttbr0_el1
    else if names x 3 0 2 0 1
    then some state.ttbr1_el1
    else if names x 3 0 5 2 0
    then some state.esr_el1
    else if names x 3 0 6 0 0
    then some state.far_el1
    else if names x 3 0 4 0 1
    then some state.elr_el1
    else if names x 3 0 12 0 0
    then some state.vbar_el1
    else if names x 3 0 0 0 5
    then some state.mpidr_el1
    else if names x 3 0 0 0 0
    then some state.midr_el1
    else none

-- An unknown register is acknowledged: the state stays, and the result is true.
unfoldable pub write_system_register :
    SystemRegisterState → Encoding → ℕ → SystemRegisterState × Bool
write_system_register state x value =
    if names x 3 0 1 0 0
    then (record state { sctlr_el1 = value }, true)
    else if names x 3 0 2 0 2
    then (record state { tcr_el1 = value }, true)
    else if names x 3 0 2 0 0
    then (record state { ttbr0_el1 = value }, true)
    else if names x 3 0 2 0 1
    then (record state { ttbr1_el1 = value }, true)
    else if names x 3 0 5 2 0
    then (record state { esr_el1 = value }, true)
    else if names x 3 0 6 0 0
    then (record state { far_el1 = value }, true)
    else if names x 3 0 4 0 1
    then (record state { elr_el1 = value }, true)
    else if names x 3 0 12 0 0
    then (record state { vbar_el1 = value }, true)
    else (state, true)

-- The five fields are `uint64_t` and the parameters `uint8_t`, so each is cut to eight bits.
unfoldable pub encoding_of : SystemInstruction → Encoding
encoding_of i = record {
  op0 = u8 i.sys_reg_op0;
  op1 = u8 i.sys_reg_op1;
  crn = u8 i.sys_reg_crn;
  crm = u8 i.sys_reg_crm;
  op2 = u8 i.sys_reg_op2;
}

-- The value that `emulateMSR` writes; `none` is its `return false`.
msr_value : (ℕ → ℕ) → InstructionType → SystemInstruction → Option ℕ
msr_value get_reg_value msr_reg i = some (get_reg_value i.rt)
msr_value get_reg_value msr_imm i = some i.immediate
msr_value get_reg_value _ i = none

-- `setRegValue` is not called.
unfoldable pub emulate_msr :
    (ℕ → ℕ) → SystemRegisterState → SystemInstruction → SystemRegisterState × Bool
unfolding msr_value
emulate_msr get_reg_value state i = elim (msr_value get_reg_value i.type i) [
  | none ↦ (state, false)
  | some value ↦ write_system_register state (encoding_of i) value
]

-- `type != MRS_REG` of `emulateMRS`.
abbrev pub is_mrs_reg : InstructionType → Bool
is_mrs_reg mrs_reg = true
is_mrs_reg _ = false

-- `G` is what `setRegValue` changes. The register state is not written, and `getRegValue` is not
-- called.
unfoldable pub emulate_mrs :
    {G : Type 0} → (ℕ → ℕ → G → G) → SystemRegisterState → SystemInstruction → G → G × Bool
emulate_mrs set_reg_value state i g =
    if is_mrs_reg i.type
    then elim (read_system_register state (encoding_of i)) [
      | some value ↦ (set_reg_value i.rt value g, true)
      | none ↦ (set_reg_value i.rt 0 g, true)
    ]
    else (g, false)

pub handle_exception_entry : SystemRegisterState → ℕ → ℕ → ℕ → SystemRegisterState
handle_exception_entry state current_pc esr far = record state {
  elr_el1 = current_pc;
  esr_el1 = esr;
  far_el1 = far;
}

pub handle_exception_return : SystemRegisterState → ℕ
handle_exception_return state = state.elr_el1

-- The constructor resets the state, whatever it held.
unfoldable pub new_emulator : SystemRegisterState → SystemRegisterState
unfolding reset
new_emulator state = reset state

pub record SysRegFields : Type 0 where
  pub encoding : Encoding
  pub rt : ℕ

-- `extractSysRegFields`, its reference arguments as a record.
unfoldable pub extract_sys_reg_fields : ℕ → SysRegFields
extract_sys_reg_fields instruction = record {
  encoding = record {
    op0 = u8 (bit_and (instruction >>> 19) 0x7);
    op1 = u8 (bit_and (instruction >>> 16) 0x7);
    crn = u8 (bit_and (instruction >>> 12) 0xF);
    crm = u8 (bit_and (instruction >>> 8) 0xF);
    op2 = u8 (bit_and (instruction >>> 5) 0x7);
  };
  rt = u8 (bit_and (instruction >>> 5) 0x1F);
}
