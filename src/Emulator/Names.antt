-- ===== src/Emulator/Names.antt =====
-- `getSystemRegisterName`: src/ARM64SystemRegisters.cpp, lines 118 to 176. A string is a list of
-- ASCII codes.
use acheron_arm.Base.{ℕ, codes, ◌+◌, ◌/◌, ◌%◌, ltb, List, [], ◌∷◌, ◌++◌, if◌then◌else◌}
use acheron_arm.Emulator.{Encoding, names}

abbrev pub sctlr_el1_name : List ℕ
sctlr_el1_name = codes "SCTLR_EL1"

abbrev pub tcr_el1_name : List ℕ
tcr_el1_name = codes "TCR_EL1"

abbrev pub ttbr0_el1_name : List ℕ
ttbr0_el1_name = codes "TTBR0_EL1"

abbrev pub ttbr1_el1_name : List ℕ
ttbr1_el1_name = codes "TTBR1_EL1"

abbrev pub esr_el1_name : List ℕ
esr_el1_name = codes "ESR_EL1"

abbrev pub far_el1_name : List ℕ
far_el1_name = codes "FAR_EL1"

abbrev pub elr_el1_name : List ℕ
elr_el1_name = codes "ELR_EL1"

abbrev pub vbar_el1_name : List ℕ
vbar_el1_name = codes "VBAR_EL1"

abbrev pub mpidr_el1_name : List ℕ
mpidr_el1_name = codes "MPIDR_EL1"

abbrev pub midr_el1_name : List ℕ
midr_el1_name = codes "MIDR_EL1"

abbrev pub sctlr_el2_name : List ℕ
sctlr_el2_name = codes "SCTLR_EL2"

abbrev pub hcr_el2_name : List ℕ
hcr_el2_name = codes "HCR_EL2"

-- `%d` of a `uint8_t`
unfoldable pub decimal : ℕ → List ℕ
decimal n =
    if ltb n 10
    then (n + 48) ∷ []
    else if ltb n 100
    then (n / 10 + 48) ∷ (n % 10 + 48) ∷ []
    else (n / 100 + 48) ∷ (n / 10 % 10 + 48) ∷ (n % 10 + 48) ∷ []

-- `S%d_%d_C%d_C%d_%d`; its at most 22 characters fit the buffer.
unfoldable pub generic_name : Encoding → List ℕ
generic_name x =
    83
    ∷ (decimal x.op0
        ++ (95
            ∷ (decimal x.op1
                ++ (95
                    ∷ 67
                    ∷ (decimal x.crn ++ (95 ∷ 67 ∷ (decimal x.crm ++ (95 ∷ decimal x.op2))))))))

unfoldable pub get_system_register_name : Encoding → List ℕ
get_system_register_name x =
    if names x 3 0 1 0 0
    then sctlr_el1_name
    else if names x 3 0 2 0 2
    then tcr_el1_name
    else if names x 3 0 2 0 0
    then ttbr0_el1_name
    else if names x 3 0 2 0 1
    then ttbr1_el1_name
    else if names x 3 0 5 2 0
    then esr_el1_name
    else if names x 3 0 6 0 0
    then far_el1_name
    else if names x 3 0 4 0 1
    then elr_el1_name
    else if names x 3 0 12 0 0
    then vbar_el1_name
    else if names x 3 0 0 0 5
    then mpidr_el1_name
    else if names x 3 0 0 0 0
    then midr_el1_name
    else if names x 3 4 1 0 0
    then sctlr_el2_name
    else if names x 3 4 1 1 0
    then hcr_el2_name
    else generic_name x
