-- ===== src/Hosts/Ignored.antt =====
-- The exceptions that HVF's loop does not handle.
use acheron_arm.Base.{ℕ, ◌≡◌, ◌≢◌, refl, ◌>>>◌, true, false, List, [], ◌∷◌, All, arith}
use acheron_arm.Base.Bits.{bit_and-low}
use acheron_arm.Registers.{SystemRegisterState}
use acheron_arm.Registers.ExceptionClass.{system_register_trap}
use acheron_arm.Registers.Syndrome.{get_exception_class}
use acheron_arm.Hosts.Hvf
use acheron_arm.Hosts.Hvf.{HvfExit, run_error, vtimer_activated, exception, other_reason}

-- The exit is an exception of another class than a system register trap.
abbrev pub IsOtherException : HvfExit → Type 0
IsOtherException (exception esr) = get_exception_class esr ≢ system_register_trap
IsOtherException _ = true ≡ false

-- The guest that the last run has left.
pub last_guest : {G : Type 0} → List (G × HvfExit) → G → G
last_guest [] g = g
last_guest ((g', e) ∷ es) g = last_guest es g'

module _ {G : Type 0} (hv : Hvf.Framework G) (instr_bytes : G → ℕ → ℕ) where
  handle_exception-other :
      (stale esr : ℕ) (s : SystemRegisterState) (g : G)
      → get_exception_class esr ≢ system_register_trap
      → Hvf.handle_exception hv instr_bytes stale esr s g ≡ (s, g)
  unfolding Hvf.handle_exception get_exception_class
  handle_exception-other stale esr s g h = ground (arith, bit_and-low 6 (esr >>> 26))

  -- Under HVF, exceptions of any class but a system register trap change nothing and end nothing:
  -- after any number of them the system registers are as before, the guest is what the last run has
  -- left, its PC at the instruction that trapped, and the loop goes on.
  pub hvf_loop-other :
      (stale : ℕ) (es : List (G × HvfExit)) (s : SystemRegisterState) (g : G)
      → All (λ x. IsOtherException x.1) es
      → Hvf.run_loop hv instr_bytes stale es s g ≡ (s, last_guest es g, false)
  unfolding Hvf.run_loop last_guest
  hvf_loop-other stale [] s g h = refl
  hvf_loop-other stale ((g', exception esr) ∷ es) s g h =
      rw (handle_exception-other stale esr s g' h.0) (hvf_loop-other stale es s g' h.1)
  hvf_loop-other stale ((g', _) ∷ es) s g h = absurd (ground (arith, h.0))
