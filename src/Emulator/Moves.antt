-- ===== src/Emulator/Moves.antt =====
-- `emulateMSR` and `emulateMRS` over the register file.
use acheron_arm.Base.{
  ℕ, ◌≡◌, inl, inr, refl, Bool-cases, Bool, true, false, ◌&&◌, none, some, arith, Option-cases,
  if◌then◌else◌,
}
use acheron_arm.Registers.{SystemRegisterState}
use acheron_arm.Instruction.{InstructionType, msr_imm, msr_reg, mrs_reg, SystemInstruction}
use acheron_arm.Emulator.{is_mrs_reg, encoding_of, write_system_register, emulate_msr, emulate_mrs}
use acheron_arm.Emulator.RegisterFile.{
  Reg, encode, view, is_writable, same, same_iff, reg_of, reg_of_iff, read-view, write-view,
}

-- What an MSR of each kind moves.
abbrev pub operand : (ℕ → ℕ) → SystemInstruction → ℕ
operand get_reg_value i = elim i.type [ msr_imm ↦ i.immediate | _ ↦ get_reg_value i.rt ]

abbrev pub is_msr : InstructionType → Bool
is_msr msr_imm = true
is_msr msr_reg = true
is_msr _ = false

pub emulate_msr_on :
    (t : InstructionType) (get_reg_value : ℕ → ℕ) (s : SystemRegisterState) (i : SystemInstruction)
    → i.type ≡ t
    → emulate_msr get_reg_value s i ≡ (
        if is_msr t
        then write_system_register s (encoding_of i) (operand get_reg_value i)
        else (s, false))
unfolding emulate_msr
emulate_msr_on msr_imm get s i e = ground arith
emulate_msr_on msr_reg get s i e = ground arith
emulate_msr_on _ get s i e = ground arith

-- `emulateMSR` succeeds exactly on MSR_REG and MSR_IMM. Then a register holds the moved value (of
-- the general-purpose register, or the immediate) if it is writable and named by the instruction's
-- fields, and else what it held; on any other type no register changes.
pub emulate_msr-view :
    (get_reg_value : ℕ → ℕ) (s : SystemRegisterState) (i : SystemInstruction)
    → ((emulate_msr get_reg_value s i).1 ≡ is_msr i.type)
      × ((r : Reg)
          → view (emulate_msr get_reg_value s i).0 r ≡ (
              if is_msr i.type && is_writable r && same (encoding_of i) (encode r)
              then operand get_reg_value i
              else view s r))
emulate_msr-view get s i = elim (Bool-cases (is_msr i.type)) [
  | inl moves ↦
      let after = emulate_msr_on i.type get s i refl in
      let written = write-view s (encoding_of i) (operand get i) in
      (ground (arith, after, written.0), λ r. ground (arith, after, written.1 r))
  | inr other ↦
      let after = emulate_msr_on i.type get s i refl in
      (ground (arith, after), λ r. ground (arith, after))
]

-- The value that an MRS moves: 0 where its fields name no register.
abbrev pub source_value : SystemRegisterState → SystemInstruction → ℕ
source_value s i = elim (reg_of (encoding_of i)) [ some r ↦ view s r | none ↦ 0 ]

-- `emulateMRS` succeeds exactly on MRS_REG. Then it sets general-purpose register `rt`, once, to
-- the register that the instruction's fields name, or to 0 if they name none; on any other type it
-- sets nothing.
pub emulate_mrs-source_value :
    {G : Type 0} (set_reg_value : ℕ → ℕ → G → G) (s : SystemRegisterState) (i : SystemInstruction)
    (g : G)
    → emulate_mrs set_reg_value s i g
      ≡ (if is_mrs_reg i.type then (set_reg_value i.rt (source_value s i) g, true) else (g, false))
unfolding emulate_mrs
emulate_mrs-source_value set s i g = elim (Option-cases (reg_of (encoding_of i))) [
  | inl unnamed ↦ ground (arith, read-view s (encoding_of i))
  | inr (r, named) ↦ ground (arith, read-view s (encoding_of i))
]

module _ {G : Type 0} (get_reg_value : G → ℕ → ℕ) (set_reg_value : ℕ → ℕ → G → G)
    (get-set : (t v : ℕ) (g : G) → get_reg_value (set_reg_value t v g) t ≡ v) where
  -- Let a general-purpose register read back what it was set to. Then an MSR of register `rt` to a
  -- writable system register, followed by an MRS of the same system register, moves the value of
  -- the first instruction's `rt` to the second's.
  pub mrs-msr :
      (s : SystemRegisterState) (g : G) (r : Reg) (i j : SystemInstruction)
      → i.type ≡ msr_reg
      → encoding_of i ≡ encode r
      → is_writable r ≡ true
      → j.type ≡ mrs_reg
      → encoding_of j ≡ encode r
      → get_reg_value (emulate_mrs set_reg_value (emulate_msr (get_reg_value g) s i).0 j g).0 j.rt
        ≡ get_reg_value g i.rt
  mrs-msr s g r i j msr named writable mrs named' =
      let after = (emulate_msr-view (get_reg_value g) s i).1 r in
      let s' = (emulate_msr (get_reg_value g) s i).0 in
      ground (
        arith,
        after,
        (same_iff (encoding_of i) (encode r)).1 named,
        emulate_mrs-source_value set_reg_value s' j g,
        (reg_of_iff (encoding_of j) r).1 named',
        get-set j.rt (source_value s' j) g,
      )
