-- ===== src/Tool/Program.antt =====
-- `main`: tools/acheron.cpp, lines 190 to 269, with what it writes to `std::cout`. What goes to
-- `std::cerr` is left out, and the MMU emulator that it constructs and does not use.
use acheron_arm.Base.{ℕ, codes, ◌*◌, ◌/◌, Bool, not, Option, List, [], ◌∷◌, ◌++◌, if◌then◌else◌}
use acheron_arm.Registers.{SystemRegisterState, reset}
use acheron_arm.Emulator.{new_emulator}
use acheron_arm.Tool.Text.{Text, Outcome, returns, ◌>>=◌, is_empty}
use acheron_arm.Tool.Args.{Config, Message, help, version, no_binary, accepted, refused, parse_args}
use acheron_arm.Tool.Elf.{ElfInfo, load_elf}
use acheron_arm.Tool.Stream.{Item, text, number, int, hex, dec, endl, print}
use acheron_arm.Tool.Usage.{print_usage, print_version}

-- What `parse_args` writes where it refuses.
unfoldable pub message_text : Text → Message → Text
message_text program help = print_usage program
message_text program version = print_version
message_text program no_binary = print_usage program

unfoldable pub debug_config : Config → List Item
debug_config config =
    text (codes "=== AcheronARM64 Debug Mode ===")
    ∷ endl
    ∷ text (codes "Binary: ")
    ∷ text config.binary_path
    ∷ endl
    ∷ text (codes "Memory: ")
    ∷ number (config.memory_size / (1024 * 1024))
    ∷ text (codes " MB")
    ∷ endl
    ∷ text (codes "CPUs: ")
    ∷ int config.cpu_count
    ∷ endl
    ∷ ((if not (is_empty config.rootfs)
          then text (codes "RootFS: ") ∷ text config.rootfs ∷ endl ∷ []
          else [])
        ++ (endl ∷ []))

abbrev yes_no : Bool → Text
yes_no b = if b then codes "yes" else codes "no"

unfoldable pub debug_elf : ElfInfo → List Item
debug_elf elf =
    text (codes "ELF Info:")
    ∷ endl
    ∷ text (codes "  ARM64: ")
    ∷ text (yes_no elf.is_arm64)
    ∷ endl
    ∷ text (codes "  Entry: 0x")
    ∷ hex
    ∷ number elf.entry_point
    ∷ dec
    ∷ endl
    ∷ text (codes "  Size: ")
    ∷ number elf.file_size
    ∷ text (codes " bytes")
    ∷ endl
    ∷ endl
    ∷ []

-- The bytes of the three signs that are not ASCII: a warning sign, a check mark and an hourglass.
abbrev warning : Text
warning = 0xE2 ∷ 0x9A ∷ 0xA0 ∷ 0xEF ∷ 0xB8 ∷ 0x8F ∷ []

abbrev check : Text
check = 0xE2 ∷ 0x9C ∷ 0x93 ∷ []

abbrev hourglass : Text
hourglass = 0xE2 ∷ 0x8F ∷ 0xB3 ∷ []

abbrev listed : Text → Text → Item
listed sign t = text (codes "  " ++ (sign ++ (codes " " ++ (t ++ codes "\n"))))

unfoldable pub banner : Config → ElfInfo → List Item
banner config elf =
    text (codes "=== Running ARM64 Binary ===")
    ∷ endl
    ∷ text (codes "Binary: ")
    ∷ text config.binary_path
    ∷ endl
    ∷ text (codes "Entry: 0x")
    ∷ hex
    ∷ number elf.entry_point
    ∷ dec
    ∷ endl
    ∷ endl
    ∷ text (warning ++ codes "  Full execution engine under development")
    ∷ endl
    ∷ endl
    ∷ text (codes "Current capabilities:")
    ∷ endl
    ∷ listed check (codes "ELF binary validation")
    ∷ listed check (codes "ARM64 system register emulation")
    ∷ listed check (codes "MMU emulation with TLB")
    ∷ listed check (codes "Cross-platform hypervisor backends")
    ∷ endl
    ∷ text (codes "Coming soon:")
    ∷ endl
    ∷ listed hourglass (codes "System call emulation")
    ∷ listed hourglass (codes "Linux binary execution")
    ∷ listed hourglass (codes "Thread support")
    ∷ listed hourglass (codes "File system access")
    ∷ endl
    ∷ []

-- The source sets `std::hex` for the first register only.
unfoldable pub register_dump : SystemRegisterState → List Item
register_dump s =
    text (codes "Initial Register State:")
    ∷ endl
    ∷ text (codes "  SCTLR_EL1: 0x")
    ∷ hex
    ∷ number s.sctlr_el1
    ∷ dec
    ∷ endl
    ∷ text (codes "  TCR_EL1:   0x")
    ∷ number s.tcr_el1
    ∷ dec
    ∷ endl
    ∷ text (codes "  TTBR0_EL1: 0x")
    ∷ number s.ttbr0_el1
    ∷ dec
    ∷ endl
    ∷ text (codes "  TTBR1_EL1: 0x")
    ∷ number s.ttbr1_el1
    ∷ dec
    ∷ endl
    ∷ text (codes "  MPIDR_EL1: 0x")
    ∷ number s.mpidr_el1
    ∷ dec
    ∷ endl
    ∷ text (codes "  MIDR_EL1:  0x")
    ∷ number s.midr_el1
    ∷ dec
    ∷ endl
    ∷ []

-- The register emulator that `main` constructs, and resets once more.
abbrev pub sysreg : SystemRegisterState → SystemRegisterState
sysreg uninitialised = reset (new_emulator uninitialised)

abbrev pub when : Bool → List Item → List Item
when b items = if b then items else []

-- The exit code and the output. `argv` is `program` and the words after it; the files are given by
-- their paths.
unfoldable pub main :
    ℕ
    → (Text → Option (List ℕ))
    → (ℕ → ℕ)
    → SystemRegisterState
    → Text
    → List Text
    → Outcome (ℕ × Text)
main default_memory files stale uninitialised program argv = do
  parsed ← parse_args default_memory argv
  returns (elim parsed [
    | refused message config ↦ (1, message_text program message)
    | accepted config ↦
        let elf = load_elf stale (files config.binary_path) in
        let early = when config.debug (debug_config config) in
        let late =
          when config.debug (debug_elf elf)
          ++ (banner config elf
              ++ when config.show_registers (register_dump (sysreg uninitialised))) in
        if not elf.valid then (1, print 10 early) else (0, print 10 (early ++ late))
  ])
