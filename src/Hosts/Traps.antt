-- ===== src/Hosts/Traps.antt =====
-- What one trap does, for each of the three integrations.
use acheron_arm.Base.{
  ℕ, ◌^◌, ◌<◌, ◌≡◌, ◌≢◌, refl, Bool, true, false, ◌||◌, if◌then◌else◌, arith, add64,
}
use acheron_arm.Registers.{SystemRegisterState}
use acheron_arm.Instruction.{
  InstructionType, unknown, hlt, brk, SystemInstruction, mrs_reg, msr_imm, msr_reg,
  decode_system_instruction,
}
use acheron_arm.Instruction.Reach.{decode-never}
use acheron_arm.Emulator.{emulate_msr}
use acheron_arm.Emulator.Moves.{emulate_msr_on, is_msr, emulate_msr-view}
use acheron_arm.Hosts.{is_move_to, is_move_from, is_barrier, is_wait}
use acheron_arm.Hosts.Hvf
use acheron_arm.Hosts.Kvm
use acheron_arm.Hosts.Whp

is_move_to_lem : (t : InstructionType) → is_move_to t ≡ is_msr t
unfolding is_move_to
is_move_to_lem msr_reg = refl
is_move_to_lem msr_imm = refl
is_move_to_lem _ = refl

not_move_from : (t : InstructionType) → t ≢ mrs_reg → is_move_from t ≡ false
unfolding is_move_from
not_move_from mrs_reg h = absurd (h refl)
not_move_from _ h = refl

-- An emulated MSR succeeds, and what is not one changes nothing.
moves_to :
    (get_reg_value : ℕ → ℕ) (s : SystemRegisterState) (i : SystemInstruction)
    → emulate_msr get_reg_value s i
      ≡ (if is_move_to i.type then ((emulate_msr get_reg_value s i).0, true) else (s, false))
moves_to get s i =
    ground
      (arith, emulate_msr_on i.type get s i refl, emulate_msr-view get s i, is_move_to_lem i.type)

module _ {G : Type 0} (hv : Hvf.Framework G) (instr_bytes : G → ℕ → ℕ) where
  -- Under HVF a trap at any 32-bit word sets the guest's PC, once, to the next word, `pc + 4` modulo
  -- 2 ^ 64, and sets no other register of the guest. The system registers are as `emulateMSR` leaves
  -- them.
  pub hvf_trap :
      (pc : ℕ) (s : SystemRegisterState) (g : G)
      → instr_bytes g pc < 2 ^ 32
      → Hvf.handle_system_register_trap hv instr_bytes pc s g ≡ (
        (emulate_msr (Hvf.get_reg hv g) s (decode_system_instruction (instr_bytes g pc))).0,
        Hvf.set_pc hv (add64 pc 4) g,
      )
  unfolding Hvf.handle_system_register_trap
  hvf_trap pc s g h = ground (
    arith,
    not_move_from (decode_system_instruction (instr_bytes g pc)).type,
    decode-never (instr_bytes g pc) h,
    moves_to (Hvf.get_reg hv g) s (decode_system_instruction (instr_bytes g pc)),
  )

-- The types that KVM's handler advances over.
pub is_known : InstructionType → Bool
is_known unknown = false
is_known hlt = false
is_known brk = false
is_known _ = true

known :
    (t : InstructionType) → t ≢ mrs_reg → is_known t ≡ (is_move_to t || is_barrier t || is_wait t)
unfolding is_known is_move_to is_barrier is_wait
known mrs_reg h = absurd (h refl)
known _ h = refl

module _ (instr_bytes : Kvm.KvmRun → ℕ → ℕ) where
  -- Under KVM a trap at a 32-bit word moves the PC to the next word, `pc + 4` modulo 2 ^ 64, unless
  -- the word decodes as UNKNOWN, HLT or BRK: then the guest stays at the trapped word. No other
  -- register of the guest is written. The system registers are as `emulateMSR` leaves them.
  pub kvm_trap :
      (pc : ℕ) (s : SystemRegisterState) (run : Kvm.KvmRun)
      → instr_bytes run pc < 2 ^ 32
      → let i = decode_system_instruction (instr_bytes run pc) in
        Kvm.handle_system_register_trap instr_bytes pc s run ≡ (
          (emulate_msr (Kvm.get_reg run) s i).0,
          if is_known i.type then record run { pc = add64 run.pc 4 } else run,
        )
  unfolding Kvm.handle_system_register_trap Kvm.advance
  kvm_trap pc s run h = ground (
    arith,
    not_move_from (decode_system_instruction (instr_bytes run pc)).type,
    known (decode_system_instruction (instr_bytes run pc)).type,
    decode-never (instr_bytes run pc) h,
    moves_to (Kvm.get_reg run) s (decode_system_instruction (instr_bytes run pc)),
  )

module _ {G : Type 0} (whv : Whp.Platform G) (instr_bytes : G → ℕ → ℕ) where
  -- Under WHP a trap at a 32-bit word sets the guest's PC, once, to the next word, `pc + 4` modulo
  -- 2 ^ 64, if the word decodes as an MSR, and else sets nothing of the guest, which stays at the
  -- trapped word. The system registers are as `emulateMSR` leaves them.
  pub whp_trap :
      (pc : ℕ) (s : SystemRegisterState) (g : G)
      → instr_bytes g pc < 2 ^ 32
      → let i = decode_system_instruction (instr_bytes g pc) in
        Whp.handle_system_register_trap whv instr_bytes pc s g ≡ (
          (emulate_msr (Whp.get_reg whv g) s i).0,
          if is_msr i.type then Whp.set_pc whv (add64 pc 4) g else g,
        )
  unfolding Whp.handle_system_register_trap
  whp_trap pc s g h = ground (
    arith,
    not_move_from (decode_system_instruction (instr_bytes g pc)).type,
    is_move_to_lem (decode_system_instruction (instr_bytes g pc)).type,
    decode-never (instr_bytes g pc) h,
    moves_to (Whp.get_reg whv g) s (decode_system_instruction (instr_bytes g pc)),
  )
