-- ===== src/Instruction/Reach.antt =====
-- What `decodeSystemInstruction` returns on each 32-bit word, by arithmetic on the word, which of
-- the types it can return, and the words that it decodes in full.
use acheron_arm.Base.{
  ℕ, ◌+◌, ◌*◌, ◌/◌, ◌%◌, ◌^◌, ◌<◌, ◌≡◌, ◌≢◌, ◌⊎◌, inl, inr, ap, arith, ◌==◌, ◌&&◌, if◌then◌else◌,
  ◌>>>◌,
}
use acheron_arm.Base.Bits.{bit_and-low}
use acheron_arm.Instruction.{
  unknown, msr_imm, msr_reg, mrs_reg, isb, dsb, dmb, wfi, wfe, hlt, brk, SystemInstruction,
  blank_instruction, decode_system_instruction,
}
use acheron_arm.Instruction.Masks.{mask_move, mask_immediate, mask_barrier}

-- Top bits 0x6A8 above five zero bits.
unfoldable pub described : ℕ → SystemInstruction
described w =
    if w / 2 ^ 21 == 0x6A8 && w % 32 == 0
    then record {
      type = msr_imm;
      sys_reg_op0 = w / 2 ^ 19 % 4;
      sys_reg_op1 = w / 2 ^ 16 % 8;
      sys_reg_crn = w / 2 ^ 12 % 16;
      sys_reg_crm = w / 2 ^ 8 % 16;
      sys_reg_op2 = w / 2 ^ 5 % 8;
      rt = 0;
      immediate = 0;
    }
    else if w == 0xD500401F
    then record blank_instruction { type = isb }
    else if w == 0xD503205F
    then record blank_instruction { type = wfi }
    else if w == 0xD503207F
    then record blank_instruction { type = wfe }
    else if w / 2 ^ 21 == 0x6A1 && w % 32 == 0
    then record blank_instruction { type = hlt; immediate = w % 2 ^ 16 }
    else blank_instruction

-- On every 32-bit word the decoder is the five-way test on its top eleven bits, its low five bits
-- or the whole word: MSR_IMM with the five register fields and the immediate 0, ISB, WFI, WFE, HLT
-- with the low 16 bits as immediate, and else UNKNOWN; every field not named is 0.
pub decode-described : (w : ℕ) → w < 2 ^ 32 → decode_system_instruction w ≡ described w
unfolding decode_system_instruction described
decode-described w h = ground (
  arith,
  mask_move w h,
  mask_immediate w h,
  mask_barrier w h,
  bit_and-low 3 (w >>> 19),
  bit_and-low 3 (w >>> 16),
  bit_and-low 4 (w >>> 12),
  bit_and-low 4 (w >>> 8),
  bit_and-low 3 (w >>> 5),
  bit_and-low 5 (w >>> 0),
  bit_and-low 16 (w >>> 0),
)

-- The decoder never returns MSR_REG, MRS_REG, DSB, DMB or BRK: on no 32-bit word are those
-- branches reached.
pub decode-never :
    (w : ℕ)
    → w < 2 ^ 32
    → let type = (decode_system_instruction w).type in
      (type ≢ msr_reg) × (type ≢ mrs_reg) × (type ≢ dsb) × (type ≢ dmb) × (type ≢ brk)
unfolding described
decode-never w h =
    let e = ap (λ i. i.type) (decode-described w h) in
    (ground arith, ground arith, ground arith, ground arith, ground arith)

-- The mask of MSR_IMM asks for five zero bits just where the immediate is read.
pub decode-immediate_zero :
    (w : ℕ)
    → w < 2 ^ 32
    → (decode_system_instruction w).type ≡ msr_imm
    → (decode_system_instruction w).immediate ≡ 0
unfolding described
decode-immediate_zero w h m = ground (arith, decode-described w h)

-- A word whose top twelve bits are 0xD51 or 0xD53, the moves to and from a system register by the
-- comments of the source, decodes as MSR_IMM if it is a move to one and its low five bits, the
-- register moved, are 0. Every other such word decodes as UNKNOWN.
pub decode-register_moves :
    (w : ℕ)
    → w < 2 ^ 32
    → (w / 2 ^ 20 ≡ 0xD51) ⊎ (w / 2 ^ 20 ≡ 0xD53)
    → (decode_system_instruction w).type
      ≡ (if w / 2 ^ 20 == 0xD51 && w % 32 == 0 then msr_imm else unknown)
unfolding described
decode-register_moves w h moves =
    let e = ap (λ i. i.type) (decode-described w h) in
    elim moves [ inl to ↦ ground arith | inr from ↦ ground arith ]

-- The word of `MSR <op0, op1, CRn, CRm, op2>, #0`, by the positions that the decoder reads.
abbrev pub assemble : ℕ → ℕ → ℕ → ℕ → ℕ → ℕ
assemble op0 op1 crn crm op2 =
    0xD5000000 + op0 * 2 ^ 19 + op1 * 2 ^ 16 + crn * 2 ^ 12 + crm * 2 ^ 8 + op2 * 2 ^ 5

-- Decoding an assembled word gives MSR_IMM with the five fields back and the immediate 0, for
-- fields within their widths (two bits for op0).
pub decode-assemble :
    (op0 op1 crn crm op2 : ℕ)
    → op0 < 4
    → op1 < 8
    → crn < 16
    → crm < 16
    → op2 < 8
    → decode_system_instruction (assemble op0 op1 crn crm op2) ≡ record {
      type = msr_imm;
      sys_reg_op0 = op0;
      sys_reg_op1 = op1;
      sys_reg_crn = crn;
      sys_reg_crm = crm;
      sys_reg_op2 = op2;
      rt = 0;
      immediate = 0;
    }
unfolding described
decode-assemble op0 op1 crn crm op2 h0 h1 hn hm h2 =
    ground (arith, decode-described (assemble op0 op1 crn crm op2) (omega arith))
