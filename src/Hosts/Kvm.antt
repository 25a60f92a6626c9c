-- ===== src/Hosts/Kvm.antt =====
-- `KVMIntegration`: examples/kvm_integration.cpp. Of the shared `struct kvm_run` the registers are
-- kept; `regs` gives them by index, for any index.
use acheron_arm.Base.{ℕ, ◌==◌, Bool, true, false, List, [], ◌∷◌, if◌then◌else◌, add64}
use acheron_arm.Registers.{SystemRegisterState}
use acheron_arm.Instruction.{decode_system_instruction}
use acheron_arm.Emulator.{emulate_msr, emulate_mrs}
use acheron_arm.Hosts.{is_move_to, is_move_from, is_barrier, is_wait}

pub record KvmRun : Type 0 where
  pub regs : ℕ → ℕ
  pub pc : ℕ

-- What one `ioctl(vcpu_fd, KVM_RUN, 0)` reports: -1 with EINTR, -1 with another error, or the exit
-- reason.
pub data KvmExit : Type 0 where
  interrupted run_failed exit_exception exit_mmio exit_intr exit_shutdown : KvmExit
  exit_unknown : ℕ → KvmExit

-- The callbacks.
unfoldable pub get_reg : KvmRun → ℕ → ℕ
get_reg run r = run.regs r

unfoldable pub set_reg : ℕ → ℕ → KvmRun → KvmRun
set_reg r v run = record run { regs = λ i. if i == r then v else run.regs i }

-- `run->s.regs.pc += 4`
unfoldable pub advance : KvmRun → KvmRun
advance run = record run { pc = add64 run.pc 4 }

module _ (instr_bytes : KvmRun → ℕ → ℕ) where
  unfoldable pub handle_system_register_trap :
      ℕ → SystemRegisterState → KvmRun → SystemRegisterState × KvmRun
  unfolding get_reg
  handle_system_register_trap pc state run =
      let instr = decode_system_instruction (instr_bytes run pc) in
      let moved_to = emulate_msr (get_reg run) state instr in
      let moved_from = emulate_mrs set_reg state instr run in
      if is_move_to instr.type
      then (moved_to.0, if moved_to.1 then advance run else run)
      else if is_move_from instr.type
      then (state, advance moved_from.0)
      else if is_barrier instr.type
      then (state, advance run)
      else if is_wait instr.type
      then (state, advance run)
      else (state, run)

  -- The loop over the results of the successive `KVM_RUN`, each with the `kvm_run` that it leaves.
  -- The last component tells if the loop has ended.
  unfoldable pub run_loop :
      List (KvmRun × KvmExit) → SystemRegisterState → KvmRun → SystemRegisterState × KvmRun × Bool
  run_loop [] state run = (state, run, false)
  run_loop ((run', interrupted) ∷ es) state run = run_loop es state run'
  run_loop ((run', run_failed) ∷ es) state run = (state, run', true)
  run_loop ((run', exit_exception) ∷ es) state run =
      let r = handle_system_register_trap run'.pc state run' in run_loop es r.0 r.1
  run_loop ((run', exit_mmio) ∷ es) state run = run_loop es state run'
  run_loop ((run', exit_intr) ∷ es) state run = run_loop es state run'
  run_loop ((run', exit_shutdown) ∷ es) state run = (state, run', true)
  run_loop ((run', exit_unknown reason) ∷ es) state run = (state, run', true)
