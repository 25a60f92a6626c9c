-- ===== src/Tool.antt =====
-- The command line runner: tools/acheron.cpp.
pub mod Text
pub mod Sizes
pub mod Args
pub mod Spellings
pub mod Reads
pub mod Stops
pub mod Split
pub mod Render
pub mod Elf
pub mod Files
pub mod Usage
pub mod Limits
pub mod Stream
pub mod Program
pub mod Dump
pub mod Endings
