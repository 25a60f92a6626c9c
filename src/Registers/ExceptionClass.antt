-- ===== src/Registers/ExceptionClass.antt =====
-- The namespace `ExceptionClass`: ARM64SystemRegisters.hpp, lines 173 to 187.
use acheron_arm.Base.{
  ℕ, ◌<◌, ◌≡◌, ◌==◌, refl, Bool, true, false, not, ◌&&◌, ◌||◌, List, [], ◌∷◌, All, arith,
}

abbrev pub unknown : ℕ
unknown = 0x00

abbrev pub wfi_wfe : ℕ
wfi_wfe = 0x01

abbrev pub undefined : ℕ
undefined = 0x03

abbrev pub system_register_trap : ℕ
system_register_trap = 0x05

abbrev pub wfx_trap : ℕ
wfx_trap = 0x08

abbrev pub svc : ℕ
svc = 0x18

abbrev pub hvc : ℕ
hvc = 0x19

abbrev pub smc : ℕ
smc = 0x1A

abbrev pub instr_abort_lower : ℕ
instr_abort_lower = 0x20

abbrev pub instr_abort_same : ℕ
instr_abort_same = 0x21

abbrev pub data_abort_lower : ℕ
data_abort_lower = 0x24

abbrev pub data_abort_same : ℕ
data_abort_same = 0x25

abbrev pub software_breakpoint : ℕ
software_breakpoint = 0x3C

abbrev pub all_classes : List ℕ
all_classes =
    unknown ∷ wfi_wfe ∷ undefined ∷ system_register_trap ∷ wfx_trap ∷ svc ∷ hvc ∷ smc
    ∷ instr_abort_lower ∷ instr_abort_same ∷ data_abort_lower ∷ data_abort_same
    ∷ software_breakpoint ∷ []

unfoldable is_class_in : ℕ → List ℕ → Bool
is_class_in c [] = false
is_class_in c (d ∷ ds) = c == d || is_class_in c ds

unfoldable are_distinct : List ℕ → Bool
are_distinct [] = true
are_distinct (c ∷ cs) = not (is_class_in c cs) && are_distinct cs

-- The classes differ, and each fits the six bits of the EC field.
all_classes-distinct : (are_distinct all_classes ≡ true) × All (λ c. c < 64) all_classes
unfolding are_distinct is_class_in
all_classes-distinct = (refl, ground arith)
