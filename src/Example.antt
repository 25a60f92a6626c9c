-- ===== src/Example.antt =====
-- The usage example: examples/basic_usage.cpp. What it prints is a list of the values printed, each
-- with what it stands for; the value of X0, fixed in the source, is an argument.
use acheron_arm.Base.{ℕ, ◌/◌, ◌%◌, ◌^◌, ◌≡◌, ◌==◌, not, List, [], ◌∷◌, ◌++◌, if◌then◌else◌, arith}
use acheron_arm.Registers.{
  SystemRegisterState, reset, sctlr_reset_value, tcr_reset_value, mpidr_reset_value, midr_apple_m1,
}
use acheron_arm.Registers.Bitfields.{bit_field}
use acheron_arm.Registers.Layouts.{sctlr_layout}
use acheron_arm.Registers.Ttbr.{get_base_address}
use acheron_arm.Instruction.{SystemInstruction, blank_instruction, msr_reg, mrs_reg}
use acheron_arm.Emulator.{
  new_emulator, emulate_msr, emulate_mrs, read_system_register, write_system_register, encoding_of,
  names,
}

-- The values printed.
pub data Printed : Type 0 where
  sctlr tcr midr sctlr_m_field sctlr_c_field sctlr_i_field x0 ttbr0 base_addr : ℕ → Printed

-- `main` ends at an assertion, or with 0.
pub data Ending : Type 0 where
  assertion_failed returned : List Printed → SystemRegisterState → Ending

-- `instr`, as it is set for each of the two emulations.
abbrev msr_instr : SystemInstruction
msr_instr = record blank_instruction {
  type = msr_reg;
  sys_reg_op0 = 3;
  sys_reg_op1 = 0;
  sys_reg_crn = 1;
  sys_reg_crm = 0;
  sys_reg_op2 = 0;
  rt = 0;
}

abbrev mrs_instr : SystemInstruction
mrs_instr = record msr_instr {
  type = mrs_reg;
  sys_reg_op0 = 3;
  sys_reg_op1 = 0;
  sys_reg_crn = 0;
  sys_reg_crm = 0;
  sys_reg_op2 = 5;
  rt = 0;
}

-- The two callbacks that do something.
abbrev get_reg : ℕ → ℕ → ℕ
get_reg x0_value r = if r == 0 then x0_value else 0

abbrev set_reg2 : ℕ → ℕ → ℕ → ℕ
set_reg2 r v x0_result = if r == 0 then v else x0_result

pub usage_main : ℕ → SystemRegisterState → Ending
usage_main x0_value uninitialised =
    let emulator = new_emulator uninitialised in
    let initial = sctlr emulator.sctlr_el1 ∷ tcr emulator.tcr_el1 ∷ midr emulator.midr_el1 ∷ [] in
    let moved_to = emulate_msr (get_reg x0_value) emulator msr_instr in
    let state = moved_to.0 in
    let fields =
      sctlr state.sctlr_el1
      ∷ sctlr_m_field (bit_field sctlr_layout 0 state.sctlr_el1)
      ∷ sctlr_c_field (bit_field sctlr_layout 2 state.sctlr_el1)
      ∷ sctlr_i_field (bit_field sctlr_layout 8 state.sctlr_el1)
      ∷ [] in
    let moved_from = emulate_mrs set_reg2 state mrs_instr 0 in
    let written = record state { ttbr0_el1 = 0x40000000 } in
    let base = ttbr0 written.ttbr0_el1 ∷ base_addr (get_base_address written.ttbr0_el1) ∷ [] in
    if not moved_to.1
    then assertion_failed initial state
    else if not moved_from.1
    then assertion_failed (initial ++ fields) state
    else returned (initial ++ (fields ++ (x0 moved_from.0 ∷ base))) written

-- The example returns, with both assertions holding, whatever X0 and the memory of the object hold.
-- It prints the three reset values; then X0 as SCTLR_EL1, with bits 0, 2 and 12 as M, C and I; then
-- MPIDR_EL1's reset value, which the second emulation moves to X0; then TTBR0_EL1 and the base
-- address, which is TTBR0_EL1 itself. The object is left as reset but for SCTLR_EL1 and TTBR0_EL1.
pub usage_main_lem :
    (x0_value : ℕ) (uninitialised : SystemRegisterState)
    → usage_main x0_value uninitialised
      ≡ returned
          (sctlr sctlr_reset_value
            ∷ tcr tcr_reset_value
            ∷ midr midr_apple_m1
            ∷ sctlr x0_value
            ∷ sctlr_m_field (x0_value % 2)
            ∷ sctlr_c_field (x0_value / 2 ^ 2 % 2)
            ∷ sctlr_i_field (x0_value / 2 ^ 12 % 2)
            ∷ x0 mpidr_reset_value
            ∷ ttbr0 0x40000000
            ∷ base_addr 0x40000000
            ∷ [])
          (record (reset uninitialised) { sctlr_el1 = x0_value; ttbr0_el1 = 0x40000000 })
unfolding usage_main new_emulator emulate_msr emulate_mrs read_system_register write_system_register
    encoding_of names get_base_address
usage_main_lem x0_value uninitialised = ground arith
