-- ===== src/Hosts/Guest.antt =====
-- The registers of a KVM guest as the register file that the emulator works on.
use acheron_arm.Base.{
  ℕ, ◌∙◌, List, [], ◌∷◌, Bool, true, false, ◌==◌, ◌≡◌, refl, ap, inl, inr, if◌then◌else◌, arith,
  Bool-cases,
}
use acheron_arm.Registers.{SystemRegisterState}
use acheron_arm.Instruction.{SystemInstruction, decode_system_instruction}
use acheron_arm.Emulator.{emulate_msr}
use acheron_arm.Emulator.Machine.{
  Callbacks, Files, msr, mrs, ideal, perform, files_of, perform-ideal,
}
use acheron_arm.Hosts.{is_move_to, is_move_from}
use acheron_arm.Hosts.Kvm
use acheron_arm.Hosts.Loops.{stops}
use acheron_arm.Hosts.Kvm.{
  KvmRun, KvmExit, interrupted, run_failed, exit_exception, exit_mmio, exit_intr, exit_shutdown,
  exit_unknown,
}

pub get_reg-set_reg :
    (r v : ℕ) (run : KvmRun) (i : ℕ)
    → Kvm.get_reg (Kvm.set_reg r v run) i ≡ (if i == r then v else Kvm.get_reg run i)
unfolding Kvm.get_reg Kvm.set_reg
get_reg-set_reg r v run i = refl

-- The two lambdas of the trap handler.
abbrev pub kvm_callbacks : Callbacks KvmRun
kvm_callbacks = record {
  get_reg_value = Kvm.get_reg;
  set_reg_value = Kvm.set_reg;
  get-set = get_reg-set_reg;
}

-- What a decoded instruction means for the registers: an MSR assigns, an MRS moves, and anything else
-- changes no register.
ideal_trap : Files → SystemInstruction → Files
ideal_trap f i =
    if is_move_to i.type
    then (ideal f (msr i)).0
    else if is_move_from i.type
    then (ideal f (mrs i)).0
    else f

-- Under KVM a trap leaves the system registers and the guest's general-purpose registers as the
-- decoded instruction has it on two register files.
kvm_trap-ideal_trap :
    (instr_bytes : KvmRun → ℕ → ℕ) (pc : ℕ) (s : SystemRegisterState) (run : KvmRun)
    → files_of kvm_callbacks (Kvm.handle_system_register_trap instr_bytes pc s run)
      ≡ ideal_trap
          (files_of kvm_callbacks (s, run))
          (decode_system_instruction (instr_bytes run pc))
unfolding Kvm.handle_system_register_trap Kvm.advance Kvm.get_reg ideal_trap perform
kvm_trap-ideal_trap instr_bytes pc s run =
    let i = decode_system_instruction (instr_bytes run pc) in
    let to = ap (λ r. r.0) (perform-ideal kvm_callbacks (s, run) (msr i)) in
    let from = ap (λ r. r.0) (perform-ideal kvm_callbacks (s, run) (mrs i)) in
    elim (Bool-cases (is_move_to i.type)) [
      | inl moves ↦ rw moves (elim (Bool-cases (emulate_msr (Kvm.get_reg run) s i).1) [
        | inl ok ↦ rw ok to
        | inr failed ↦ rw failed to
      ])
      | inr other ↦ elim (Bool-cases (is_move_from i.type)) [
        | inl moves ↦ rw (other, moves) from
        | inr neither ↦ rw (other, neither) (ground arith)
      ]
    ]

pub is_exception : KvmExit → Bool
is_exception exit_exception = true
is_exception _ = false

-- The exits of a run for the registers: each leaves the guest's registers as the run left them, and
-- a trapped instruction is carried out on them.
pub ideal_loop : (KvmRun → ℕ → ℕ) → List (KvmRun × KvmExit) → Files → Files
ideal_loop instr_bytes [] f = f
ideal_loop instr_bytes ((run, e) ∷ es) f =
    let left = record f { general = run.regs } in
    let trapped = ideal_trap left (decode_system_instruction (instr_bytes run run.pc)) in
    let after = if is_exception e then trapped else left in
    let rest = ideal_loop instr_bytes es after in if stops e then after else rest

-- KVM's loop is the loop on two register files: through any exits, of any kind and in any order, the
-- system registers and the guest's general-purpose registers end as the decoded instructions have it
-- at each exception, on the registers that the run before it left, and at nothing else.
pub kvm_loop-ideal_loop :
    (instr_bytes : KvmRun → ℕ → ℕ) (es : List (KvmRun × KvmExit)) (s : SystemRegisterState)
    (run : KvmRun)
    → let r = Kvm.run_loop instr_bytes es s run in
      files_of kvm_callbacks (r.0, r.1)
      ≡ ideal_loop instr_bytes es (files_of kvm_callbacks (s, run))
unfolding Kvm.run_loop Kvm.get_reg ideal_loop stops is_exception
kvm_loop-ideal_loop ib [] s run = refl
kvm_loop-ideal_loop ib ((run', interrupted) ∷ es) s run = kvm_loop-ideal_loop ib es s run'
kvm_loop-ideal_loop ib ((run', run_failed) ∷ es) s run = refl
kvm_loop-ideal_loop ib ((run', exit_exception) ∷ es) s run =
    let r = Kvm.handle_system_register_trap ib run'.pc s run' in
    kvm_loop-ideal_loop ib es r.0 r.1
    ∙ ap (ideal_loop ib es) (kvm_trap-ideal_trap ib run'.pc s run')
kvm_loop-ideal_loop ib ((run', exit_mmio) ∷ es) s run = kvm_loop-ideal_loop ib es s run'
kvm_loop-ideal_loop ib ((run', exit_intr) ∷ es) s run = kvm_loop-ideal_loop ib es s run'
kvm_loop-ideal_loop ib ((run', exit_shutdown) ∷ es) s run = refl
kvm_loop-ideal_loop ib ((run', exit_unknown reason) ∷ es) s run = refl
