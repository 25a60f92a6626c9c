-- ===== src/Tool/Usage.antt =====
-- The texts that the runner prints about itself: tools/acheron.cpp, lines 31 to 56.
use acheron_arm.Base.{
  ℕ, codes, ◌==◌, ◌≡◌, refl, Bool, true, false, ◌||◌, List, [], ◌∷◌, ◌++◌, if◌then◌else◌, arith,
}
use acheron_arm.Tool.Text.{Text, is_empty}
use acheron_arm.Tool.Spellings.{is_listed}
use acheron_arm.Tool.Args.{
  Branch, informs, binary, takes, switches, unknown_option, branch_of, starts_with_dash, short_help,
  long_help, short_version, long_version, short_env, long_env, short_rootfs, long_rootfs,
  short_memory, long_memory, short_cpus, long_cpus, short_debug, long_debug, long_trace_syscalls,
  long_trace_memory, long_show_registers,
}

-- The lines under "Options:".
abbrev option_lines : List Text
option_lines =
    codes "  -e, --env <VAR=value>    Set environment variable\n"
    ∷ codes "  -r, --rootfs <path>      Set root filesystem path\n"
    ∷ codes "  -m, --memory <size>      Set memory size (e.g., 512M, 2G)\n"
    ∷ codes "  -c, --cpus <count>       Set CPU count\n"
    ∷ codes "  -d, --debug              Enable debug output\n"
    ∷ codes "  --trace-syscalls         Trace system calls\n"
    ∷ codes "  --trace-memory           Trace memory accesses\n"
    ∷ codes "  --show-registers         Show register state on exit\n"
    ∷ codes "  -h, --help               Show this help message\n"
    ∷ codes "  -v, --version            Show version information\n"
    ∷ []

abbrev join : List Text → Text
join [] = []
join (t ∷ ts) = t ++ join ts

abbrev introduction : Text → List Text
introduction program =
    codes "AcheronARM64 - Instant ARM64 Binary Runner\n\n"
    ∷ (codes "Usage: " ++ (program ++ codes " [OPTIONS] <binary> [ARGS...]\n\n"))
    ∷ codes "Options:\n"
    ∷ []

abbrev examples : Text → List Text
examples program =
    codes "\nExamples:\n"
    ∷ (codes "  " ++ (program ++ codes " ./hello\n"))
    ∷ (codes "  " ++ (program ++ codes " -e FOO=bar ./myapp\n"))
    ∷ (codes "  " ++ (program ++ codes " --rootfs /path/to/rootfs /bin/bash\n"))
    ∷ (codes "  " ++ (program ++ codes " --debug ./myapp\n"))
    ∷ []

-- What `print_usage` and `print_version` print.
unfoldable pub print_usage : Text → Text
print_usage program = join (introduction program ++ (option_lines ++ examples program))

unfoldable pub print_version : Text
print_version = join (
    codes "AcheronARM64 v1.0.0\n"
    ∷ codes "ARM64 system register and MMU emulation library\n"
    ∷ codes "License: MIT\n"
    ∷ [])

-- The words of a text, between spaces, commas and line ends.
abbrev is_separator : ℕ → Bool
is_separator c = c == 32 || c == 44 || c == 10

pub words_of : Text → Text → List Text
words_of word [] = if is_empty word then [] else word ∷ []
words_of word (c ∷ s) =
    let next = words_of [] s in
    let longer = words_of (word ++ (c ∷ [])) s in
    if is_separator c then (if is_empty word then next else word ∷ next) else longer

pub dashed : List Text → List Text
dashed [] = []
dashed (w ∷ ws) = let rest = dashed ws in if starts_with_dash w then w ∷ rest else rest

-- The loop body knows the word as an option.
unfoldable pub is_known : Branch → Bool
is_known (informs message) = true
is_known binary = false
is_known (takes option) = true
is_known (switches unknown_option) = false
is_known (switches option) = true

-- The options in the help.
abbrev pub documented : List Text
documented = dashed (words_of [] (join option_lines))

documented_words :
    documented
    ≡ short_env ∷ long_env ∷ short_rootfs ∷ long_rootfs ∷ short_memory ∷ long_memory ∷ short_cpus
      ∷ long_cpus ∷ short_debug ∷ long_debug ∷ long_trace_syscalls ∷ long_trace_memory
      ∷ long_show_registers ∷ short_help ∷ long_help ∷ short_version ∷ long_version ∷ []
unfolding words_of dashed starts_with_dash
documented_words = refl

-- The help and the parser agree: a word is one of the words that begin with a dash in the option
-- lines of the help exactly if the parser takes it for an option that it knows.
pub documented_iff : (arg : Text) → is_listed arg documented ≡ is_known (branch_of arg)
unfolding is_listed is_known branch_of
documented_iff arg = rw documented_words (ground arith)
