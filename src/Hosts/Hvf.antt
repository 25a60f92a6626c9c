-- ===== src/Hosts/Hvf.antt =====
-- `HVFIntegration`: examples/hvf_integration.cpp. The guest that the framework keeps is of a type
-- `G`; the framework's calls are parameters.
use acheron_arm.Base.{
  ℕ, ◌+◌, ◌==◌, Bool, true, false, Option, none, some, List, [], ◌∷◌, if◌then◌else◌, bit_and, ◌>>>◌,
  add64,
}
use acheron_arm.Registers.{SystemRegisterState}
use acheron_arm.Registers.ExceptionClass.{system_register_trap}
use acheron_arm.Instruction.{decode_system_instruction}
use acheron_arm.Emulator.{emulate_msr, emulate_mrs}
use acheron_arm.Hosts.{is_move_to, is_move_from, is_barrier, is_wait}

-- The calls on a vCPU; `hv_vcpu_get_reg` gives no value where it fails.
pub record Framework (G : Type 0) : Type 0 where
  pub hv_vcpu_get_reg : ℕ → G → Option ℕ
  pub hv_vcpu_set_reg : ℕ → ℕ → G → G
  pub hv_vcpu_set_vtimer_mask : Bool → G → G
  pub hv_reg_x0 : ℕ
  pub hv_reg_pc : ℕ

-- What one `hv_vcpu_run` reports: an error, or the reason of the exit, with the syndrome of an
-- exception.
pub data HvfExit : Type 0 where
  run_error vtimer_activated : HvfExit
  exception other_reason : ℕ → HvfExit

module _ {G : Type 0} (hv : Framework G) where
  -- The callbacks. A read that fails leaves 0.
  unfoldable pub get_reg : G → ℕ → ℕ
  get_reg g r = elim (hv.hv_vcpu_get_reg (hv.hv_reg_x0 + r) g) [ some v ↦ v | none ↦ 0 ]

  unfoldable pub set_reg : ℕ → ℕ → G → G
  set_reg r v g = hv.hv_vcpu_set_reg (hv.hv_reg_x0 + r) v g

  pub set_pc : ℕ → G → G
  set_pc v g = hv.hv_vcpu_set_reg hv.hv_reg_pc v g

  -- `pc` is not initialised; a read that fails leaves it open, and `stale` is what it held.
  unfoldable pub read_pc : ℕ → G → ℕ
  read_pc stale g = elim (hv.hv_vcpu_get_reg hv.hv_reg_pc g) [ some pc ↦ pc | none ↦ stale ]

  module _ (instr_bytes : G → ℕ → ℕ) where
    unfoldable pub handle_system_register_trap :
        ℕ → SystemRegisterState → G → SystemRegisterState × G
    unfolding set_pc
    handle_system_register_trap pc state g =
        let instr = decode_system_instruction (instr_bytes g pc) in
        let moved_to = emulate_msr (get_reg g) state instr in
        let moved_from = emulate_mrs set_reg state instr g in
        if is_move_to instr.type
        then (moved_to.0, if moved_to.1 then set_pc (add64 pc 4) g else g)
        else if is_move_from instr.type
        then (state, if moved_from.1 then set_pc (add64 pc 4) moved_from.0 else moved_from.0)
        else if is_barrier instr.type
        then (state, set_pc (add64 pc 4) g)
        else if is_wait instr.type
        then (state, set_pc (add64 pc 4) g)
        else (state, set_pc (add64 pc 4) g)

    unfoldable pub handle_exception : ℕ → ℕ → SystemRegisterState → G → SystemRegisterState × G
    handle_exception stale esr state g =
        if bit_and (esr >>> 26) 0x3F == system_register_trap
        then handle_system_register_trap (read_pc stale g) state g
        else (state, g)

    -- The loop over the results of the successive `hv_vcpu_run`, each with the guest that it
    -- leaves. The last component tells if the loop has ended.
    unfoldable pub run_loop :
        ℕ → List (G × HvfExit) → SystemRegisterState → G → SystemRegisterState × G × Bool
    run_loop stale [] state g = (state, g, false)
    run_loop stale ((g', run_error) ∷ es) state g = (state, g', true)
    run_loop stale ((g', exception esr) ∷ es) state g =
        let r = handle_exception stale esr state g' in run_loop stale es r.0 r.1
    run_loop stale ((g', vtimer_activated) ∷ es) state g =
        run_loop stale es state (hv.hv_vcpu_set_vtimer_mask false g')
    run_loop stale ((g', other_reason reason) ∷ es) state g = run_loop stale es state g'
