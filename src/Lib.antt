-- ===== src/Lib.antt =====
-- AcheronARM64: emulation of ARM64 system registers and of the ARM64 MMU.
--
-- The program. `decodeSystemInstruction` decodes a trapped 32-bit word; a hypervisor's trap handler
-- passes the result to a `SystemRegisterEmulator`, which keeps ten system registers and moves
-- values between them and the general-purpose registers through two callbacks. An `MMUEmulator`
-- translates virtual addresses by a walk of page tables and caches the results in a TLB. The two
-- objects share no state. Three integrations show the handlers for HVF, KVM and WHP. The command
-- line runner parses its arguments and checks an ELF file; it does not execute it.
--
-- The files.
--   Base: shared names, 64-bit words, lemmas on masks and shifts.
--   Registers: include/acheronarm64/ARM64SystemRegisters.hpp, the register state. Bitfields gives
--     the meaning of a bit-field struct; Layouts has the structs' layouts; ExceptionClass the
--     exception classes; Ttbr and Syndrome the accessors.
--   Instruction: src/ARM64SystemRegisters.cpp, the decoder. Reach describes it by arithmetic.
--   Emulator: src/ARM64SystemRegisters.cpp, the emulator. RegisterFile has its abstract view, a
--     file of ten named registers; Machine joins it to a host's registers, an interface that
--     Hosts/Guest fills; Moves and Decoded are about MSR and MRS, Exceptions about
--     exception entry and return, Names and Unique about `getSystemRegisterName`.
--   Mmu: include/acheronarm64/MMUEmulator.hpp and src/MMUEmulator.cpp. Types, Descriptor, Tlb,
--     State, Walk and Translate hold the definitions. Spec is the specification, three registers
--     and a walk by arithmetic, without a TLB; Refines, Contract, Answers and Updates relate the
--     code to it, Updates with page tables that change, as a step relation. The other files hold
--     further proofs.
--   Hosts: examples/hvf_integration.cpp, examples/kvm_integration.cpp and
--     examples/whp_integration.cpp: trap handlers, run loops, initialisation, cleanup and, in
--     Mains, the programs around them.
--   Example: examples/basic_usage.cpp, with the value of X0 as an argument.
--   Tool: tools/acheron.cpp. Text has strings and number conversions, Args the parser, Elf the
--     loader, Stream the output stream, Usage the help text, Program the program itself, its exit
--     code and its output. Spellings has the words of the options, Reads the options of a command
--     line as a relation, Stops the place where the parser's loop stops, Split the command lines
--     that are accepted, Endings the ends of a run.
--   Tests: the theorems at concrete inputs.
--
-- The model.
--   A method takes the object's state and returns it. Integers are natural numbers; `u8`, `add64`,
--   `sub64` and `<<<` cut or wrap them as the source's types do. A value of a 64-bit parameter is
--   any number, with a bound in the theorems that need one.
--   A shift by 64 or more, or by a negative count, is `undefined`, a value of its own that ends the
--   call. `run` makes a list of calls on the object and is undefined if one of them is.
--   The order of the TLB's `std::unordered_map` is open: what `begin()` points at is the parameter
--   `Begin`, any position within the map.
--   The walk reads no memory: the source has `desc.value = 0` for it. The theorems of the walk take
--   the descriptors as a function of table and index; `stub_descriptor` is the source's own.
--   `walk_level` recurses on 5 minus the level: at level 5 the source shifts by -6, so there is no
--   deeper call to model, and five levels are all that a walk can reach.
--   The trap handlers read no guest memory either: the word is a function of guest and PC. A run
--   loop goes through a list of results of runs of the virtual processor, each with the guest that
--   it leaves. What the hypervisors' calls return, and the files, are arguments.
--   A string is a list of bytes. `Outcome` tells a call that returns from one that throws or is
--   undefined.
--   A bit-field takes the lowest free bits, as the ABIs of the supported compilers have it.
--
-- Not modelled: what is printed, but for the output of the runner and the values of the example;
-- memory allocation; the tests and the build files, which hold no logic of their own.
pub mod Base
pub mod Registers
pub mod Instruction
pub mod Emulator
pub mod Mmu
pub mod Example
pub mod Hosts
pub mod Tool
pub mod Tests
