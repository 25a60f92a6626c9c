-- ===== src/Mmu.antt =====
-- The MMU emulator: include/acheronarm64/MMUEmulator.hpp and src/MMUEmulator.cpp.
-- `Types`, `Descriptor`, `Tlb`, `State`, `Walk` and `Translate` hold the definitions, the other
-- modules what is proved of them.
pub mod Types
pub mod Descriptor
pub mod Tlb
pub mod State
pub mod Walk
pub mod Translate
pub mod Cases
pub mod Frame
pub mod Ranges
pub mod Stub
pub mod Keys
pub mod Leaves
pub mod Walks
pub mod Uncached
pub mod Cached
pub mod Transparent
pub mod Histories
pub mod Tagged
pub mod Invalidation
pub mod Spec
pub mod Refines
pub mod Contract
pub mod Answers
pub mod Aliases
pub mod Updates
pub mod Depth
pub mod Returns
pub mod Total
pub mod Counts
