-- ===== src/Tests/Programs.antt =====
-- The programs: the mains of the integrations, the usage example and the help of the runner.
use acheron_arm.Base.{
  ℕ, codes, ◌≡◌, ◌↔◌, ◌^◌, ◌-◌, refl, some, none, Option, List, [], ◌∷◌, if◌then◌else◌, arith,
}
use acheron_arm.Hosts.Lifecycle.{kvm_initialize, kvm_cleanup, KvmAnswers, obtained, is_whole}
use acheron_arm.Hosts.Mains.{kvm_main, kvm_main_lem}
use acheron_arm.Tool.Text.{
  Text, returns, throws, undefined_behaviour, back, same_text, stoi, skip_spaces, is_space, signed,
  unsigned, is_digit, scan,
}
use acheron_arm.Tool.Args.{
  branch_of, takes, env, parse_args, memory_of, help, refused, default_config, parse_from,
  starts_with_dash, set_value, set_switch, accept,
}
use acheron_arm.Registers.{SystemRegisterState}
use acheron_arm.Tool.Program.{main}
use acheron_arm.Tool.Endings.{Ends, main-Ends}
use acheron_arm.Tool.Usage.{documented, is_known, documented_iff}
use acheron_arm.Tool.Spellings.{is_listed, Spelled, branch_of-Spelled_iff}
use acheron_arm.Instruction.{decode_system_instruction}
use acheron_arm.Emulator.Widths.{IsNarrow, decode-IsNarrow}

-- The virtual CPU cannot be created.
abbrev no_vcpu : KvmAnswers
no_vcpu = record {
  device = some 3;
  api_version = 12;
  kvm_api_version = 12;
  vm = some 4;
  vcpu = none;
}

kvm_main_lem_example :
    kvm_main no_vcpu ≡ (if is_whole (obtained no_vcpu) then 0 else 1, obtained no_vcpu)
kvm_main_lem_example = kvm_main_lem no_vcpu

kvm_main_closes : kvm_main no_vcpu ≡ (1, 4 ∷ 3 ∷ [])
unfolding kvm_main kvm_initialize kvm_cleanup
kvm_main_closes = refl

documented_iff_example :
    is_listed (codes "--cpus") documented ≡ is_known (branch_of (codes "--cpus"))
documented_iff_example = documented_iff (codes "--cpus")

branch_of-Spelled_iff_example :
    (branch_of (codes "--env") ≡ takes env) ↔ Spelled (codes "--env") (takes env)
branch_of-Spelled_iff_example = branch_of-Spelled_iff (codes "--env") (takes env)

-- The word of MSR SCTLR_EL1, X0.
decode-IsNarrow_example : IsNarrow (decode_system_instruction 0xD5181000)
decode-IsNarrow_example = decode-IsNarrow 0xD5181000 (omega arith)

abbrev cpus_words : List Text
cpus_words = codes "-c" ∷ codes "-2" ∷ codes "--help" ∷ []

cpus_parse :
    parse_args 0 cpus_words
    ≡ returns (refused help (record (default_config 0) { cpu_count = 2 ^ 32 - 2 }))
unfolding parse_args parse_from branch_of same_text set_value set_switch accept starts_with_dash
    stoi skip_spaces is_space signed unsigned is_digit scan
cpus_parse = refl

-- The register state, all of it one number.
abbrev blank : ℕ → SystemRegisterState
blank n = record {
  sctlr_el1 = n;
  tcr_el1 = n;
  ttbr0_el1 = n;
  ttbr1_el1 = n;
  esr_el1 = n;
  far_el1 = n;
  elr_el1 = n;
  vbar_el1 = n;
  mpidr_el1 = n;
  midr_el1 = n;
}

-- A number of processors that is no number.
abbrev two_words : List Text
two_words = codes "--debug" ∷ codes "-c" ∷ codes "two" ∷ codes "a.out" ∷ []

-- No file can be opened.
abbrev no_files : Text → Option (List ℕ)
no_files name = none

abbrev zeros : ℕ → ℕ
zeros i = 0

main-Ends_example :
    Ends 0 two_words no_files zeros
      (codes "acheron")
      (main 0 no_files zeros (blank 0) (codes "acheron") two_words)
main-Ends_example = main-Ends 0 no_files zeros (blank 0) (codes "acheron") two_words

two_words_throw : main 0 no_files zeros (blank 0) (codes "acheron") two_words ≡ throws
unfolding main parse_args parse_from branch_of same_text set_value set_switch accept
    starts_with_dash stoi skip_spaces is_space signed unsigned is_digit scan
two_words_throw = refl

empty_size_undefined :
    main 0 no_files zeros (blank 0) (codes "acheron") (codes "-m" ∷ [] ∷ []) ≡ undefined_behaviour
unfolding main parse_args parse_from branch_of same_text set_value memory_of back starts_with_dash
empty_size_undefined = refl
