-- ===== src/Tests/Hosts.antt =====
-- The integrations on a guest that is a function from register numbers to values; register 32 is
-- the PC.
use acheron_arm.Base.{
  ℕ, true, false, refl, ◌+◌, ◌*◌, ◌^◌, ◌<◌, ◌≡◌, ◌==◌, if◌then◌else◌, some, List, [], ◌∷◌, arith,
  add64,
}
use acheron_arm.Registers.{SystemRegisterState}
use acheron_arm.Emulator.Machine.{
  Operation, msr, mrs, enters, leaves, succeeded, nothing, address, perform_all, ideal, ideal_run,
  files_of, perform_all-ideal_run,
}
use acheron_arm.Hosts.Ignored.{last_guest, hvf_loop-other}
use acheron_arm.Registers.Syndrome.{get_exception_class}
use acheron_arm.Hosts.Guest.{kvm_callbacks, ideal_loop, kvm_loop-ideal_loop}
use acheron_arm.Instruction.{
  SystemInstruction, blank_instruction, msr_reg, mrs_reg, decode_system_instruction,
}
use acheron_arm.Emulator.{emulate_msr}
use acheron_arm.Hosts.{stub_instr_bytes}
use acheron_arm.Hosts.Hvf
use acheron_arm.Hosts.Hvf.{HvfExit, exception, vtimer_activated, run_error}
use acheron_arm.Hosts.Kvm
use acheron_arm.Hosts.Kvm.{KvmRun, KvmExit, exit_exception, interrupted, exit_shutdown}
use acheron_arm.Hosts.Traps.{is_known, hvf_trap, kvm_trap}
use acheron_arm.Hosts.Loops.{
  KeptOrZero, stops_in, last_run, errs_in, kvm_loop, kvm_loop_stub, hvf_loop,
}

abbrev Guest : Type 0
Guest = ℕ → ℕ

abbrev store : ℕ → ℕ → Guest → Guest
store i v g n = if n == i then v else g n

abbrev hv : Hvf.Framework Guest
hv = record {
  hv_vcpu_get_reg = λ i g. some (g i);
  hv_vcpu_set_reg = store;
  hv_vcpu_set_vtimer_mask = λ masked g. g;
  hv_reg_x0 = 0;
  hv_reg_pc = 32;
}

abbrev guest : Guest
guest n = n + 0x4000

abbrev kvm_guest : KvmRun
kvm_guest = record { regs = guest; pc = 0x4000 }

abbrev registers : SystemRegisterState
registers = record {
  sctlr_el1 = 1;
  tcr_el1 = 2;
  ttbr0_el1 = 3;
  ttbr1_el1 = 4;
  esr_el1 = 5;
  far_el1 = 6;
  elr_el1 = 7;
  vbar_el1 = 8;
  mpidr_el1 = 9;
  midr_el1 = 10;
}

-- `MSR VBAR_EL1, X0` at every PC.
abbrev moves_vbar : {G : Type 0} → G → ℕ → ℕ
moves_vbar g pc = 0xD518C000

moves_vbar_fits : {G : Type 0} (g : G) (pc : ℕ) → moves_vbar g pc < 2 ^ 32
moves_vbar_fits g pc = omega arith

hvf_trap_example : Hvf.handle_system_register_trap hv moves_vbar 0x4020 registers guest ≡ (
  (emulate_msr
      (Hvf.get_reg hv guest)
      registers
      (decode_system_instruction (moves_vbar guest 0x4020))).0,
  Hvf.set_pc hv (add64 0x4020 4) guest,
)
hvf_trap_example = hvf_trap hv moves_vbar 0x4020 registers guest (omega arith)

kvm_trap_example :
    let i = decode_system_instruction (moves_vbar kvm_guest 0x4000) in
    Kvm.handle_system_register_trap moves_vbar 0x4000 registers kvm_guest ≡ (
      (emulate_msr (Kvm.get_reg kvm_guest) registers i).0,
      if is_known i.type then record kvm_guest { pc = add64 kvm_guest.pc 4 } else kvm_guest,
    )
kvm_trap_example = kvm_trap moves_vbar 0x4000 registers kvm_guest (omega arith)

abbrev kvm_exits : List (KvmRun × KvmExit)
kvm_exits = (kvm_guest, exit_exception) ∷ (kvm_guest, interrupted) ∷ (kvm_guest, exit_shutdown) ∷ []

kvm_loop_example :
    KeptOrZero registers (Kvm.run_loop moves_vbar kvm_exits registers kvm_guest).0
    × ((Kvm.run_loop moves_vbar kvm_exits registers kvm_guest).2 ≡ stops_in kvm_exits)
kvm_loop_example = kvm_loop moves_vbar moves_vbar_fits kvm_exits registers kvm_guest

kvm_loop_stub_example :
    Kvm.run_loop stub_instr_bytes kvm_exits registers kvm_guest
    ≡ (registers, last_run kvm_exits kvm_guest, stops_in kvm_exits)
kvm_loop_stub_example = kvm_loop_stub kvm_exits registers kvm_guest

-- A system register trap, a timer, and an error.
abbrev hvf_exits : List (Guest × HvfExit)
hvf_exits = (guest, exception (0x05 * 2 ^ 26)) ∷ (guest, vtimer_activated) ∷ (guest, run_error) ∷ []

hvf_loop_example :
    KeptOrZero registers (Hvf.run_loop hv moves_vbar 0 hvf_exits registers guest).0
    × ((Hvf.run_loop hv moves_vbar 0 hvf_exits registers guest).2 ≡ errs_in hvf_exits)
hvf_loop_example = hvf_loop hv moves_vbar moves_vbar_fits 0 hvf_exits registers guest

-- MSR VBAR_EL1, X3, then MRS X5, VBAR_EL1, then an exception and its return.
abbrev to_vbar : SystemInstruction
to_vbar = record blank_instruction { type = msr_reg; sys_reg_op0 = 3; sys_reg_crn = 12; rt = 3 }

abbrev operations : List Operation
operations =
    msr to_vbar
    ∷ mrs (record to_vbar { type = mrs_reg; rt = 5 })
    ∷ enters 0x4008 0x56000000 0
    ∷ leaves
    ∷ []

perform_all-ideal_run_example :
    let r = perform_all kvm_callbacks (registers, kvm_guest) operations in
    (files_of kvm_callbacks r.0, r.1)
    ≡ ideal_run (files_of kvm_callbacks (registers, kvm_guest)) operations
perform_all-ideal_run_example =
    perform_all-ideal_run kvm_callbacks (registers, kvm_guest) operations

operations_answered :
    (ideal_run (files_of kvm_callbacks (registers, kvm_guest)) operations).1
    ≡ succeeded true ∷ succeeded true ∷ nothing ∷ address 0x4008 ∷ []
unfolding ideal_run ideal
operations_answered = refl

kvm_loop-ideal_loop_example :
    let r = Kvm.run_loop moves_vbar kvm_exits registers kvm_guest in
    files_of kvm_callbacks (r.0, r.1)
    ≡ ideal_loop moves_vbar kvm_exits (files_of kvm_callbacks (registers, kvm_guest))
kvm_loop-ideal_loop_example = kvm_loop-ideal_loop moves_vbar kvm_exits registers kvm_guest

-- Two data aborts, class 0x24.
abbrev aborts : List (Guest × HvfExit)
aborts = (guest, exception (0x24 * 2 ^ 26)) ∷ (guest, exception (0x24 * 2 ^ 26)) ∷ []

hvf_loop-other_example :
    Hvf.run_loop hv moves_vbar 0 aborts registers guest
    ≡ (registers, last_guest aborts guest, false)
unfolding get_exception_class
hvf_loop-other_example =
    hvf_loop-other hv moves_vbar 0 aborts registers guest (ground arith, (ground arith, tt))
