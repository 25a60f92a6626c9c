-- ===== src/Tests/Runner.antt =====
-- The runner at concrete command lines and files.
use acheron_arm.Base.{
  ℕ, codes, ◌+◌, ◌*◌, ◌%◌, ◌^◌, ◌≡◌, ◌↔◌, refl, true, Option, some, List, [], ◌∷◌, ◌++◌, length,
  arith,
}
use acheron_arm.Tool.Text.{Outcome, Text, returns, same_text}
use acheron_arm.Tool.Args.{
  Config, default_config, branch_of, starts_with_dash, memory_of, set_value, set_switch, accept,
  accepted, parse_from, parse_args, short_env, short_debug,
}
use acheron_arm.Tool.Sizes.{value_of, text_of, memory_of-text_of}
use acheron_arm.Tool.Split.{Splits, parse_args-Splits_iff}
use acheron_arm.Tool.Render.{render, parse_args-render}
use acheron_arm.Tool.Elf.{read_le, load_elf}
use acheron_arm.Tool.Program.{main}
use acheron_arm.Tool.Dump.{dump_text, main-dump}
use acheron_arm.Registers.{SystemRegisterState}
use acheron_arm.Tool.Files.{bytes_of, executable, load_elf-executable}

-- 512, with each unit.
memory_of-text_of_example :
    let number = text_of (5 ∷ 1 ∷ 2 ∷ []) in
    let v = value_of (5 ∷ 1 ∷ 2 ∷ []) in
    (memory_of number ≡ returns v)
    × (memory_of (number ++ (77 ∷ [])) ≡ returns (v * 2 ^ 20 % 2 ^ 64))
    × (memory_of (number ++ (109 ∷ [])) ≡ returns (v * 2 ^ 20 % 2 ^ 64))
    × (memory_of (number ++ (71 ∷ [])) ≡ returns (v * 2 ^ 30 % 2 ^ 64))
    × (memory_of (number ++ (103 ∷ [])) ≡ returns (v * 2 ^ 30 % 2 ^ 64))
unfolding value_of
memory_of-text_of_example =
    memory_of-text_of 5 (1 ∷ 2 ∷ []) (omega arith, (omega arith, (omega arith, tt))) (omega arith)

-- "./a", "-x" and "FOO=1"
abbrev path : Text
path = codes "./a"

abbrev flag : Text
flag = codes "-x"

abbrev assignment : Text
assignment = codes "FOO=1"

-- The options "-e FOO=1 -d", then the path and "-d" for the program.
abbrev words : List Text
words = short_env ∷ assignment ∷ short_debug ∷ path ∷ short_debug ∷ []

abbrev configured : Config
configured = record (default_config 0) {
  binary_path = path;
  args = short_debug ∷ [];
  env_vars = assignment ∷ [];
  debug = true;
}

words_parse : parse_args 0 words ≡ returns (accepted configured)
unfolding parse_args parse_from branch_of same_text set_value set_switch accept starts_with_dash
words_parse = refl

parse_args-Splits_iff_example :
    (parse_args 0 words ≡ returns (accepted configured)) ↔ Splits 0 words configured
parse_args-Splits_iff_example = parse_args-Splits_iff 0 words configured

words_split : Splits 0 words configured
words_split = (parse_args-Splits_iff 0 words configured).0 words_parse

-- A path and its program's argument, with every switch but one.
abbrev described : Config
described = record configured { rootfs = path; args = flag ∷ []; trace_memory = true }

parse_args-render_example : parse_args 0 (render described) ≡ returns (accepted described)
unfolding starts_with_dash
parse_args-render_example = parse_args-render described refl refl refl

abbrev zeros : ℕ → ℕ
zeros i = 0

-- 32 bytes after the entry point.
abbrev rest : List ℕ
rest =
    1 ∷ 2 ∷ 3 ∷ 4 ∷ 5 ∷ 6 ∷ 7 ∷ 8 ∷ 9 ∷ 10 ∷ 11 ∷ 12 ∷ 13 ∷ 14 ∷ 15 ∷ 16 ∷ 17 ∷ 18 ∷ 19 ∷ 20 ∷ 21
    ∷ 22 ∷ 23 ∷ 24 ∷ 25 ∷ 26 ∷ 27 ∷ 28 ∷ 29 ∷ 30 ∷ 31 ∷ 32 ∷ []

load_elf-executable_example : load_elf zeros (some (executable 0x400080 rest)) ≡ record {
  valid = true;
  is_arm64 = true;
  entry_point = 0x400080;
  base_address = 0;
  file_size = 32 + length rest;
}
load_elf-executable_example = load_elf-executable zeros 0x400080 rest (omega arith) (omega arith)

-- Every path is that of the executable.
abbrev files : Text → Option (List ℕ)
files name = some (executable 0x400080 rest)

abbrev memory_of_emulator : SystemRegisterState
memory_of_emulator = record {
  sctlr_el1 = 0;
  tcr_el1 = 0;
  ttbr0_el1 = 0;
  ttbr1_el1 = 0;
  esr_el1 = 0;
  far_el1 = 0;
  elr_el1 = 0;
  vbar_el1 = 0;
  mpidr_el1 = 0;
  midr_el1 = 0;
}

abbrev output_of : Outcome (ℕ × Text) → Text
output_of (returns r) = r.1
output_of _ = []

abbrev output : Text
output = output_of (main 0 files zeros memory_of_emulator (codes "acheron") words)

main_runs : main 0 files zeros memory_of_emulator (codes "acheron") words ≡ returns (0, output)
unfolding main parse_args parse_from branch_of same_text set_value set_switch accept
    starts_with_dash load_elf read_le executable bytes_of
main_runs = refl

-- "--show-registers" and the path.
abbrev dump_words : List Text
dump_words = codes "--show-registers" ∷ path ∷ []

abbrev dump_config : Config
dump_config = record (default_config 0) { binary_path = path; show_registers = true }

abbrev dump_output : Text
dump_output = output_of (main 0 files zeros memory_of_emulator (codes "acheron") dump_words)

dump_runs :
    main 0 files zeros memory_of_emulator (codes "acheron") dump_words ≡ returns (0, dump_output)
unfolding main parse_args parse_from branch_of same_text set_value set_switch accept
    starts_with_dash load_elf read_le executable bytes_of
dump_runs = refl

dump_parse : parse_args 0 dump_words ≡ returns (accepted dump_config)
unfolding parse_args parse_from branch_of same_text set_value set_switch accept starts_with_dash
dump_parse = refl

main-dump_example : (before : Text) × (dump_output ≡ before ++ dump_text)
main-dump_example =
    main-dump 0 files zeros memory_of_emulator (codes "acheron") dump_words dump_config dump_output
      dump_parse refl dump_runs
