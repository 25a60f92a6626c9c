-- ===== src/Hosts/Whp.antt =====
-- `WHPIntegration`: examples/whp_integration.cpp. The guest that the platform keeps is of a type
-- `G`; the platform's calls are parameters. `runLoop` runs the processor once.
use acheron_arm.Base.{ℕ, ◌+◌, if◌then◌else◌, add64}
use acheron_arm.Registers.{SystemRegisterState}
use acheron_arm.Instruction.{decode_system_instruction}
use acheron_arm.Emulator.{emulate_msr, emulate_mrs}
use acheron_arm.Hosts.{is_move_to, is_move_from}

-- The calls on a processor. What `WHvGetProcessorRegisters` leaves in an uninitialised `value` is
-- part of it.
pub record Platform (G : Type 0) : Type 0 where
  pub whv_get_processor_register : ℕ → G → ℕ
  pub whv_set_processor_register : ℕ → ℕ → G → G
  pub whv_register_arm64_x0 : ℕ
  pub whv_register_arm64_pc : ℕ

-- The outcome of `WHvRunVirtualProcessor`: a failure, an exception at a PC, or another exit.
pub data WhpExit : Type 0 where
  run_failed other_exit : WhpExit
  vp_exception : ℕ → WhpExit

module _ {G : Type 0} (whv : Platform G) where
  -- The callbacks.
  unfoldable pub get_reg : G → ℕ → ℕ
  get_reg g r = whv.whv_get_processor_register (whv.whv_register_arm64_x0 + r) g

  unfoldable pub set_reg : ℕ → ℕ → G → G
  set_reg r v g = whv.whv_set_processor_register (whv.whv_register_arm64_x0 + r) v g

  unfoldable pub set_pc : ℕ → G → G
  set_pc v g = whv.whv_set_processor_register whv.whv_register_arm64_pc v g

  module _ (instr_bytes : G → ℕ → ℕ) where
    -- After an MRS the PC stays.
    unfoldable pub handle_system_register_trap :
        ℕ → SystemRegisterState → G → SystemRegisterState × G
    handle_system_register_trap pc state g =
        let instr = decode_system_instruction (instr_bytes g pc) in
        let moved_to = emulate_msr (get_reg g) state instr in
        let moved_from = emulate_mrs set_reg state instr g in
        if is_move_to instr.type
        then (moved_to.0, if moved_to.1 then set_pc (add64 pc 4) g else g)
        else if is_move_from instr.type
        then (state, moved_from.0)
        else (state, g)

    -- With the guest that the run leaves.
    unfoldable pub run_loop : G × WhpExit → SystemRegisterState → SystemRegisterState × G
    run_loop (g, run_failed) state = (state, g)
    run_loop (g, vp_exception pc) state = handle_system_register_trap pc state g
    run_loop (g, other_exit) state = (state, g)
