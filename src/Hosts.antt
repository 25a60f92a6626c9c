-- ===== src/Hosts.antt =====
-- The hypervisor integrations: examples/hvf_integration.cpp, examples/kvm_integration.cpp and
-- examples/whp_integration.cpp. A trap handler takes the trapped word as a function of the guest
-- and the PC, where the source has `instr_bytes = 0` for the read of guest memory;
-- `stub_instr_bytes` is the source's own.
pub mod Hvf
pub mod Kvm
pub mod Whp
pub mod Guest
pub mod Traps
pub mod Loops
pub mod Ignored
pub mod Lifecycle
pub mod Mains
use acheron_arm.Base.{ℕ, Bool, true, false}
use acheron_arm.Instruction.{InstructionType, msr_imm, msr_reg, mrs_reg, isb, dsb, dmb, wfi, wfe}

-- `type == MSR_REG || type == MSR_IMM`
pub is_move_to : InstructionType → Bool
is_move_to msr_reg = true
is_move_to msr_imm = true
is_move_to _ = false

-- `type == MRS_REG`
pub is_move_from : InstructionType → Bool
is_move_from mrs_reg = true
is_move_from _ = false

-- `type == ISB || type == DSB || type == DMB`
pub is_barrier : InstructionType → Bool
is_barrier isb = true
is_barrier dsb = true
is_barrier dmb = true
is_barrier _ = false

-- `type == WFI || type == WFE`
pub is_wait : InstructionType → Bool
is_wait wfi = true
is_wait wfe = true
is_wait _ = false

pub stub_instr_bytes : {G : Type 0} → G → ℕ → ℕ
stub_instr_bytes g pc = 0
