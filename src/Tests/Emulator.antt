-- ===== src/Tests/Emulator.antt =====
-- The emulator at concrete states.
use acheron_arm.Base.{ℕ, ◌+◌, ◌≡◌, ◌↔◌, true, ◌&&◌, some, if◌then◌else◌, ◌==◌, arith}
use acheron_arm.Registers.{SystemRegisterState}
use acheron_arm.Instruction.{
  msr_reg, SystemInstruction, blank_instruction, decode_system_instruction,
}
use acheron_arm.Emulator.{
  Encoding, encoding_of, read_system_register, write_system_register, emulate_msr,
}
use acheron_arm.Emulator.RegisterFile.{
  Reg, vbar, sctlr, encode, view, is_writable, same, writable_encoding, read-write,
}
use acheron_arm.Emulator.Unique.{IsByteEncoding, get_system_register_name_iff}
use acheron_arm.Emulator.Names.{get_system_register_name}
use acheron_arm.Emulator.Moves.{operand, is_msr, emulate_msr-view}
use acheron_arm.Emulator.Decoded.{move_word, move_word_stores_zero}

abbrev state : SystemRegisterState
state = record {
  sctlr_el1 = 0x30901998;
  tcr_el1 = 0x1500000;
  ttbr0_el1 = 0;
  ttbr1_el1 = 0;
  esr_el1 = 0;
  far_el1 = 0;
  elr_el1 = 0x1000;
  vbar_el1 = 0;
  mpidr_el1 = 0x80000000;
  midr_el1 = 0x611F0220;
}

read-write_example :
    read_system_register (write_system_register state (encode vbar) 0x8000).0 (encode vbar) ≡ (
      if same (encode vbar) (encode vbar) && writable_encoding (encode vbar)
      then some 0x8000
      else read_system_register state (encode vbar))
read-write_example = read-write state (encode vbar) (encode vbar) 0x8000

-- General-purpose registers as a function of their numbers.
abbrev get_reg_value : (ℕ → ℕ) → ℕ → ℕ
get_reg_value g t = g t

abbrev set_reg_value : ℕ → ℕ → (ℕ → ℕ) → (ℕ → ℕ)
set_reg_value t v g n = if n == t then v else g n

get-set : (t v : ℕ) (g : ℕ → ℕ) → get_reg_value (set_reg_value t v g) t ≡ v
get-set t v g = ground arith

abbrev numbers : ℕ → ℕ
numbers n = n + 100

-- `MSR VBAR_EL1, X1` and `MRS X2, VBAR_EL1`, not as decoded.
abbrev to_vbar : SystemInstruction
to_vbar = record blank_instruction { type = msr_reg; sys_reg_op0 = 3; sys_reg_crn = 12; rt = 1 }

emulate_msr-view_example :
    ((emulate_msr numbers state to_vbar).1 ≡ is_msr to_vbar.type)
    × ((r : Reg)
        → view (emulate_msr numbers state to_vbar).0 r ≡ (
            if is_msr to_vbar.type && is_writable r && same (encoding_of to_vbar) (encode r)
            then operand numbers to_vbar
            else view state r))
emulate_msr-view_example = emulate_msr-view numbers state to_vbar

move_word_stores_zero_example :
    let result = emulate_msr numbers state (decode_system_instruction (move_word sctlr)) in
    (result.1 ≡ true)
    × ((q : Reg)
        → view result.0 q
          ≡ (if is_writable q && same (encode sctlr) (encode q) then 0 else view state q))
move_word_stores_zero_example = move_word_stores_zero sctlr numbers state

-- A register with no name of its own, and one that has one.
abbrev unnamed : Encoding
unnamed = record { op0 = 3; op1 = 3; crn = 14; crm = 0; op2 = 2 }

unnamed-IsByteEncoding : IsByteEncoding unnamed
unnamed-IsByteEncoding = record {
  op0_byte = omega arith;
  op1_byte = omega arith;
  crn_byte = omega arith;
  crm_byte = omega arith;
  op2_byte = omega arith;
}

vbar-IsByteEncoding : IsByteEncoding (encode vbar)
vbar-IsByteEncoding = record {
  op0_byte = omega arith;
  op1_byte = omega arith;
  crn_byte = omega arith;
  crm_byte = omega arith;
  op2_byte = omega arith;
}

get_system_register_name_iff_example :
    (get_system_register_name unnamed ≡ get_system_register_name (encode vbar))
    ↔ (unnamed ≡ encode vbar)
get_system_register_name_iff_example =
    get_system_register_name_iff unnamed (encode vbar) unnamed-IsByteEncoding vbar-IsByteEncoding
