-- ===== src/Hosts/Loops.antt =====
-- The run loops, over the results of any number of runs of the virtual processor.
use acheron_arm.Base.{
  ℕ, ◌^◌, ◌<◌, ◌≡◌, ◌⊎◌, inr, refl, Bool, true, false, ◌||◌, List, [], ◌∷◌, arith,
}
use acheron_arm.Registers.{SystemRegisterState}
use acheron_arm.Instruction.{decode_system_instruction}
use acheron_arm.Emulator.RegisterFile.{Reg, view}
use acheron_arm.Emulator.Decoded.{decoded_moves}
use acheron_arm.Hosts.{stub_instr_bytes, is_move_to, is_move_from, is_barrier, is_wait}
use acheron_arm.Hosts.Hvf
use acheron_arm.Hosts.Hvf.{HvfExit, run_error, vtimer_activated, exception, other_reason}
use acheron_arm.Hosts.Kvm
use acheron_arm.Hosts.Kvm.{
  KvmRun, KvmExit, interrupted, run_failed, exit_exception, exit_mmio, exit_intr, exit_shutdown,
  exit_unknown,
}
use acheron_arm.Hosts.Traps.{hvf_trap, kvm_trap}

-- Every register of `t` holds 0 or what it holds in `s`.
abbrev pub KeptOrZero : SystemRegisterState → SystemRegisterState → Type 0
KeptOrZero s t = (r : Reg) → (view t r ≡ 0) ⊎ (view t r ≡ view s r)

KeptOrZero-refl : (s : SystemRegisterState) → KeptOrZero s s
KeptOrZero-refl s r = inr refl

KeptOrZero-trans : (s t u : SystemRegisterState) → KeptOrZero s t → KeptOrZero t u → KeptOrZero s u
KeptOrZero-trans s t u h k r = ground (arith, h r, k r)

-- The exits at which KVM's loop ends.
unfoldable pub stops : KvmExit → Bool
stops run_failed = true
stops exit_shutdown = true
stops (exit_unknown reason) = true
stops _ = false

pub stops_in : List (KvmRun × KvmExit) → Bool
stops_in [] = false
stops_in ((run, e) ∷ es) = stops e || stops_in es

module _ (instr_bytes : KvmRun → ℕ → ℕ)
    (words : (run : KvmRun) (pc : ℕ) → instr_bytes run pc < 2 ^ 32) where
  kvm_trap-KeptOrZero :
      (pc : ℕ) (s : SystemRegisterState) (run : KvmRun)
      → KeptOrZero s (Kvm.handle_system_register_trap instr_bytes pc s run).0
  kvm_trap-KeptOrZero pc s run r = ground (
    arith,
    kvm_trap instr_bytes pc s run (words run pc),
    (decoded_moves (instr_bytes run pc) (Kvm.get_reg run) Kvm.set_reg s run (words run pc)).0 r,
  )

  -- Whatever 32-bit words are trapped: through any exits of KVM's loop, every system register holds
  -- 0 or what it held at the start, and the loop has ended exactly if one of the exits is an error
  -- other than EINTR, a shutdown or of an unknown reason.
  pub kvm_loop :
      (es : List (KvmRun × KvmExit)) (s : SystemRegisterState) (run : KvmRun)
      → KeptOrZero s (Kvm.run_loop instr_bytes es s run).0
        × ((Kvm.run_loop instr_bytes es s run).2 ≡ stops_in es)
  unfolding Kvm.run_loop stops stops_in
  kvm_loop [] s run = (KeptOrZero-refl s, refl)
  kvm_loop ((run', interrupted) ∷ es) s run = kvm_loop es s run'
  kvm_loop ((run', run_failed) ∷ es) s run = (KeptOrZero-refl s, refl)
  kvm_loop ((run', exit_exception) ∷ es) s run =
      let t = Kvm.handle_system_register_trap instr_bytes run'.pc s run' in
      let rest = kvm_loop es t.0 t.1 in
      (KeptOrZero-trans s t.0 _ (kvm_trap-KeptOrZero run'.pc s run') rest.0, rest.1)
  kvm_loop ((run', exit_mmio) ∷ es) s run = kvm_loop es s run'
  kvm_loop ((run', exit_intr) ∷ es) s run = kvm_loop es s run'
  kvm_loop ((run', exit_shutdown) ∷ es) s run = (KeptOrZero-refl s, refl)
  kvm_loop ((run', exit_unknown reason) ∷ es) s run = (KeptOrZero-refl s, refl)

-- The last `kvm_run` that a run of KVM has left, up to the exit that ends the loop.
pub last_run : List (KvmRun × KvmExit) → KvmRun → KvmRun
last_run [] run = run
last_run ((run', e) ∷ es) run = elim (stops e) [ true ↦ run' | false ↦ last_run es run' ]

stub_kvm_trap :
    (pc : ℕ) (s : SystemRegisterState) (run : KvmRun)
    → Kvm.handle_system_register_trap stub_instr_bytes pc s run ≡ (s, run)
unfolding Kvm.handle_system_register_trap stub_instr_bytes is_move_to is_move_from is_barrier
    is_wait decode_system_instruction
stub_kvm_trap pc s run = refl

-- As the code stands, KVM's loop never changes a system register, nor anything of the guest, its PC
-- included: the guest is what the last run has left.
pub kvm_loop_stub :
    (es : List (KvmRun × KvmExit)) (s : SystemRegisterState) (run : KvmRun)
    → Kvm.run_loop stub_instr_bytes es s run ≡ (s, last_run es run, stops_in es)
unfolding Kvm.run_loop stops stops_in last_run
kvm_loop_stub [] s run = refl
kvm_loop_stub ((run', exit_exception) ∷ es) s run =
    rw (stub_kvm_trap run'.pc s run') (kvm_loop_stub es s run')
kvm_loop_stub ((run', interrupted) ∷ es) s run = kvm_loop_stub es s run'
kvm_loop_stub ((run', exit_mmio) ∷ es) s run = kvm_loop_stub es s run'
kvm_loop_stub ((run', exit_intr) ∷ es) s run = kvm_loop_stub es s run'
kvm_loop_stub ((run', _) ∷ es) s run = refl

-- Only an error of the framework ends HVF's loop.
pub errs_in : {G : Type 0} → List (G × HvfExit) → Bool
errs_in [] = false
errs_in ((g, run_error) ∷ es) = true
errs_in ((g, _) ∷ es) = errs_in es

module _ {G : Type 0} (hv : Hvf.Framework G) (instr_bytes : G → ℕ → ℕ)
    (words : (g : G) (pc : ℕ) → instr_bytes g pc < 2 ^ 32) where
  handle_exception-KeptOrZero :
      (stale esr : ℕ) (s : SystemRegisterState) (g : G)
      → KeptOrZero s (Hvf.handle_exception hv instr_bytes stale esr s g).0
  unfolding Hvf.handle_exception
  handle_exception-KeptOrZero stale esr s g r =
      let pc = Hvf.read_pc hv stale g in
      ground (
        arith,
        hvf_trap hv instr_bytes pc s g (words g pc),
        (decoded_moves (instr_bytes g pc) (Hvf.get_reg hv g) (Hvf.set_reg hv) s g (words g pc)).0 r,
      )

  -- Whatever 32-bit words are trapped: through any exits of HVF's loop, every system register holds
  -- 0 or what it held at the start, and the loop has ended exactly if a run has failed.
  pub hvf_loop :
      (stale : ℕ) (es : List (G × HvfExit)) (s : SystemRegisterState) (g : G)
      → KeptOrZero s (Hvf.run_loop hv instr_bytes stale es s g).0
        × ((Hvf.run_loop hv instr_bytes stale es s g).2 ≡ errs_in es)
  unfolding Hvf.run_loop errs_in
  hvf_loop stale [] s g = (KeptOrZero-refl s, refl)
  hvf_loop stale ((g', run_error) ∷ es) s g = (KeptOrZero-refl s, refl)
  hvf_loop stale ((g', exception esr) ∷ es) s g =
      let t = Hvf.handle_exception hv instr_bytes stale esr s g' in
      let rest = hvf_loop stale es t.0 t.1 in
      (KeptOrZero-trans s t.0 _ (handle_exception-KeptOrZero stale esr s g') rest.0, rest.1)
  hvf_loop stale ((g', vtimer_activated) ∷ es) s g =
      hvf_loop stale es s (hv.hv_vcpu_set_vtimer_mask false g')
  hvf_loop stale ((g', other_reason reason) ∷ es) s g = hvf_loop stale es s g'
