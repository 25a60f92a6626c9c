-- ===== src/Emulator/Widths.antt =====
-- The sizes of what the decoder and the naming of registers give.
use acheron_arm.Base.{ℕ, ◌+◌, ◌^◌, ◌<◌, ◌≤◌, ◌≡◌, List, ◌∷◌, ◌++◌, arith, length}
use acheron_arm.Instruction.{SystemInstruction, decode_system_instruction}
use acheron_arm.Instruction.Reach.{described, decode-described}
use acheron_arm.Emulator.{Encoding, encoding_of}
use acheron_arm.Emulator.Names.{decimal, generic_name, get_system_register_name}
use acheron_arm.Emulator.Unique.{IsByteEncoding}

length-decimal : (n : ℕ) (s : List ℕ) → length (decimal n ++ s) ≤ 3 + length s
unfolding decimal
length-decimal n s = ground arith

length-generic_name : (x : Encoding) → length (generic_name x) ≤ 22
unfolding generic_name
length-generic_name x =
    let last = 95 ∷ decimal x.op2 in
    let fourth = 95 ∷ 67 ∷ (decimal x.crm ++ last) in
    let third = 95 ∷ 67 ∷ (decimal x.crn ++ fourth) in
    let second = 95 ∷ (decimal x.op1 ++ third) in
    let final : length (decimal x.op2) ≤ 3 = unfold decimal in ground arith in
    omega (
      arith,
      final,
      length-decimal x.op0 second,
      length-decimal x.op1 third,
      length-decimal x.crn fourth,
      length-decimal x.crm last,
    )

-- The name of a register has at most 22 characters, so that with its end it fits the buffer of 64.
pub length-get_system_register_name :
    (x : Encoding) → IsByteEncoding x → length (get_system_register_name x) ≤ 22
unfolding get_system_register_name
length-get_system_register_name x h = ground (arith, length-generic_name x)

-- The widths of a decoded instruction.
pub record IsNarrow (i : SystemInstruction) : Type 0 where
  pub op0_fits : i.sys_reg_op0 < 4
  pub op1_fits : i.sys_reg_op1 < 8
  pub crn_fits : i.sys_reg_crn < 16
  pub crm_fits : i.sys_reg_crm < 16
  pub op2_fits : i.sys_reg_op2 < 8
  pub rt_fits : i.rt < 32
  pub immediate_fits : i.immediate < 2 ^ 16
  pub uncut : encoding_of i ≡ record {
    op0 = i.sys_reg_op0;
    op1 = i.sys_reg_op1;
    crn = i.sys_reg_crn;
    crm = i.sys_reg_crm;
    op2 = i.sys_reg_op2;
  }

described-IsNarrow : (w : ℕ) → IsNarrow (described w)
unfolding described encoding_of
described-IsNarrow w = record {
  op0_fits = ground arith;
  op1_fits = ground arith;
  crn_fits = ground arith;
  crm_fits = ground arith;
  op2_fits = ground arith;
  rt_fits = ground arith;
  immediate_fits = ground arith;
  uncut = ground arith;
}

-- On every 32-bit word the fields of the decoded instruction have at most 2, 3, 4, 4 and 3 bits,
-- `rt` has 5 and the immediate 16, so that passing the five fields through `uint8_t` parameters, as
-- the emulator does, cuts none of them.
pub decode-IsNarrow : (w : ℕ) → w < 2 ^ 32 → IsNarrow (decode_system_instruction w)
decode-IsNarrow w h = rw (decode-described w h) (described-IsNarrow w)
