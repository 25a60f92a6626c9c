-- ===== src/Tests.antt =====
-- The theorems at concrete inputs.
mod Instruction
mod Emulator
mod Hosts
mod Runner
mod Translation
mod Pages
mod Specification
mod Programs
