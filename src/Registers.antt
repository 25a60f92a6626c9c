-- ===== src/Registers.antt =====
-- The EL1 system registers: include/acheronarm64/ARM64SystemRegisters.hpp, lines 32 to 294.
-- A register struct is a union of a 64-bit `value` with bit-fields; the state holds the values,
-- and the children read the fields.
pub mod Bitfields
pub mod Layouts
pub mod Ttbr
pub mod ExceptionClass
pub mod Syndrome
use acheron_arm.Base.{ℕ}

-- `ARM64SystemRegisterState`, each register as the `value` of its union.
pub record SystemRegisterState : Type 0 where
  pub sctlr_el1 : ℕ
  pub tcr_el1 : ℕ
  pub ttbr0_el1 : ℕ
  pub ttbr1_el1 : ℕ
  pub esr_el1 : ℕ
  pub far_el1 : ℕ
  pub elr_el1 : ℕ
  pub vbar_el1 : ℕ
  pub mpidr_el1 : ℕ
  pub midr_el1 : ℕ

-- `SCTLR_EL1::RESET_VALUE`
abbrev pub sctlr_reset_value : ℕ
sctlr_reset_value = 0x00C50838

-- `TCR_EL1::RESET_VALUE`
abbrev pub tcr_reset_value : ℕ
tcr_reset_value = 0x00000000

-- `MPIDR_EL1::RESET_VALUE`
abbrev pub mpidr_reset_value : ℕ
mpidr_reset_value = 0x80000000

-- `MIDR_EL1::APPLE_M1`
abbrev pub midr_apple_m1 : ℕ
midr_apple_m1 = 0x610F0220

-- `reset` assigns every register, so it does not depend on the state before.
unfoldable pub reset : SystemRegisterState → SystemRegisterState
reset s = record {
  sctlr_el1 = sctlr_reset_value;
  tcr_el1 = tcr_reset_value;
  ttbr0_el1 = 0;
  ttbr1_el1 = 0;
  esr_el1 = 0;
  far_el1 = 0;
  elr_el1 = 0;
  vbar_el1 = 0x0;
  mpidr_el1 = mpidr_reset_value;
  midr_el1 = midr_apple_m1;
}
