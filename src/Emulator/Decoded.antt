-- ===== src/Emulator/Decoded.antt =====
-- The path of a trapped word: `decodeSystemInstruction`, then `emulateMSR` or `emulateMRS`, as the
-- trap handlers and README.md compose them.
use acheron_arm.Base.{ℕ, ◌^◌, ◌<◌, ◌≡◌, ◌≢◌, refl, ◌⊎◌, true, false, ◌&&◌, arith, if◌then◌else◌}
use acheron_arm.Registers.{SystemRegisterState}
use acheron_arm.Instruction.{
  InstructionType, mrs_reg, SystemInstruction, msr_imm, decode_system_instruction,
}
use acheron_arm.Instruction.Reach.{decode-never, decode-immediate_zero, decode-assemble, assemble}
use acheron_arm.Emulator.{encoding_of, emulate_msr, emulate_mrs}
use acheron_arm.Emulator.RegisterFile.{Reg, sctlr, encode, view, is_writable, same}
use acheron_arm.Emulator.Moves.{operand, is_msr, emulate_msr-view, emulate_mrs-source_value}

-- Every decoded MSR moves 0.
decoded_operand :
    (w : ℕ) (get_reg_value : ℕ → ℕ)
    → w < 2 ^ 32
    → is_msr (decode_system_instruction w).type ≡ true
    → operand get_reg_value (decode_system_instruction w) ≡ 0
decoded_operand w get h m = ground (arith, (decode-never w h).0, decode-immediate_zero w h)

decoded_mrs :
    {G : Type 0} (t : InstructionType) (set_reg_value : ℕ → ℕ → G → G) (s : SystemRegisterState)
    (i : SystemInstruction) (g : G)
    → i.type ≡ t
    → t ≢ mrs_reg
    → emulate_mrs set_reg_value s i g ≡ (g, false)
decoded_mrs mrs_reg set s i g e h = absurd (h refl)
decoded_mrs _ set s i g e h = ground (arith, emulate_mrs-source_value set s i g)

-- A 32-bit word that is decoded and then emulated never reaches the general-purpose registers:
-- `emulateMSR` leaves in each system register 0 or what it held, whatever `getRegValue` gives, and
-- `emulateMRS` refuses and sets nothing.
pub decoded_moves :
    {G : Type 0} (w : ℕ) (get_reg_value : ℕ → ℕ) (set_reg_value : ℕ → ℕ → G → G)
    (s : SystemRegisterState) (g : G)
    → w < 2 ^ 32
    → ((r : Reg)
        → let after = (emulate_msr get_reg_value s (decode_system_instruction w)).0 in
          (view after r ≡ 0) ⊎ (view after r ≡ view s r))
      × (emulate_mrs set_reg_value s (decode_system_instruction w) g ≡ (g, false))
decoded_moves w get set s g h = (
  λ r.
      ground (
        arith,
        (emulate_msr-view get s (decode_system_instruction w)).1 r,
        decoded_operand w get h,
      ),
  decoded_mrs (decode_system_instruction w).type set s (decode_system_instruction w) g refl
      (decode-never w h).1,
)

-- The architectural word of `MSR <register>, X0`.
abbrev pub move_word : Reg → ℕ
move_word r = let x = encode r in assemble x.op0 x.op1 x.crn x.crm x.op2

encode_fits :
    (r : Reg)
    → let x = encode r in (x.op0 < 4) × (x.op1 < 8) × (x.crn < 16) × (x.crm < 16) × (x.op2 < 8)
encode_fits sctlr = omega arith
encode_fits _ = omega arith

decode-move_word :
    (r : Reg)
    → let i = decode_system_instruction (move_word r) in
      (i.type ≡ msr_imm) × (i.immediate ≡ 0) × (encoding_of i ≡ encode r)
unfolding encoding_of
decode-move_word r =
    let x = encode r in
    let fits = encode_fits r in
    let e = decode-assemble x.op0 x.op1 x.crn x.crm x.op2 fits.0 fits.1 fits.2 fits.3 fits.4 in
    ground (arith, e)

-- The word of `MSR <r>, X0` for one of the ten registers is decoded and emulated with success, but
-- stores 0 in `r`, if it is writable, whatever X0 holds; the other registers stay.
pub move_word_stores_zero :
    (r : Reg) (get_reg_value : ℕ → ℕ) (s : SystemRegisterState)
    → let result = emulate_msr get_reg_value s (decode_system_instruction (move_word r)) in
      (result.1 ≡ true)
      × ((q : Reg)
          → view result.0 q ≡ (if is_writable q && same (encode r) (encode q) then 0 else view s q))
move_word_stores_zero r get s =
    let i = decode_system_instruction (move_word r) in
    let word = decode-move_word r in
    let after = emulate_msr-view get s i in
    (ground (arith, word, after.0), λ q. ground (arith, word, after.1 q))
