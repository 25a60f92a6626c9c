-- ===== src/Tool/Args.antt =====
-- `Config` and `parse_args`: tools/acheron.cpp, lines 18 to 119. `argv[0]` is not part of the list.
use acheron_arm.Base.{
  ℕ, codes, ◌*◌, ◌%◌, ◌^◌, Bool, true, false, ◌||◌, not, ◌==◌, List, [], ◌∷◌, ◌++◌, if◌then◌else◌,
}
use acheron_arm.Tool.Text.{
  Text, Outcome, returns, ◌>>=◌, same_text, is_empty, back, pop_back, stoull, stoi,
}

pub record Config : Type 0 where
  pub binary_path : Text
  pub args : List Text
  pub env_vars : List Text
  pub rootfs : Text
  pub memory_size : ℕ
  pub cpu_count : ℕ
  pub debug : Bool
  pub trace_syscalls : Bool
  pub trace_memory : Bool
  pub show_registers : Bool

-- The default of `memory_size` is `4 * 1024 * 1024 * 1024`, which overflows `int`; what the
-- compiler makes of it is the argument.
abbrev pub default_config : ℕ → Config
default_config memory = record {
  binary_path = [];
  args = [];
  env_vars = [];
  rootfs = [];
  memory_size = memory;
  cpu_count = 1;
  debug = false;
  trace_syscalls = false;
  trace_memory = false;
  show_registers = false;
}

-- The words that the loop body compares with.
abbrev pub short_help : Text
short_help = codes "-h"

abbrev pub long_help : Text
long_help = codes "--help"

abbrev pub short_version : Text
short_version = codes "-v"

abbrev pub long_version : Text
long_version = codes "--version"

abbrev pub short_env : Text
short_env = codes "-e"

abbrev pub long_env : Text
long_env = codes "--env"

abbrev pub short_rootfs : Text
short_rootfs = codes "-r"

abbrev pub long_rootfs : Text
long_rootfs = codes "--rootfs"

abbrev pub short_memory : Text
short_memory = codes "-m"

abbrev pub long_memory : Text
long_memory = codes "--memory"

abbrev pub short_cpus : Text
short_cpus = codes "-c"

abbrev pub long_cpus : Text
long_cpus = codes "--cpus"

abbrev pub short_debug : Text
short_debug = codes "-d"

abbrev pub long_debug : Text
long_debug = codes "--debug"

abbrev pub long_trace_syscalls : Text
long_trace_syscalls = codes "--trace-syscalls"

abbrev pub long_trace_memory : Text
long_trace_memory = codes "--trace-memory"

abbrev pub long_show_registers : Text
long_show_registers = codes "--show-registers"

-- The branches of the loop body: those that print and return, those that take a value, those that
-- set a switch or, for an unknown option, nothing, and the binary.
pub data Valued : Type 0 where
  env rootfs memory cpus : Valued

pub data Switch : Type 0 where
  debug trace_syscalls trace_memory show_registers unknown_option : Switch

-- What a call that refuses prints: the help, the version, or the help after an error message.
pub data Message : Type 0 where
  help version no_binary : Message

pub data Branch : Type 0 where
  informs : Message → Branch
  binary : Branch
  takes : Valued → Branch
  switches : Switch → Branch

-- `arg[0] == '-'`; an empty string has a NUL there.
unfoldable pub starts_with_dash : Text → Bool
starts_with_dash [] = false
starts_with_dash (c ∷ s) = c == 45

unfoldable pub branch_of : Text → Branch
branch_of arg =
    if same_text arg short_help || same_text arg long_help
    then informs help
    else if same_text arg short_version || same_text arg long_version
    then informs version
    else if same_text arg short_env || same_text arg long_env
    then takes env
    else if same_text arg short_rootfs || same_text arg long_rootfs
    then takes rootfs
    else if same_text arg short_memory || same_text arg long_memory
    then takes memory
    else if same_text arg short_cpus || same_text arg long_cpus
    then takes cpus
    else if same_text arg short_debug || same_text arg long_debug
    then switches debug
    else if same_text arg long_trace_syscalls
    then switches trace_syscalls
    else if same_text arg long_trace_memory
    then switches trace_memory
    else if same_text arg long_show_registers
    then switches show_registers
    else if not (starts_with_dash arg)
    then binary
    else switches unknown_option

-- `std::stoull(size_str) * multiplier`, with M or G at the end of the string.
unfoldable pub memory_of : Text → Outcome ℕ
memory_of size_str = do
  last ← back size_str
  if last == 77 || last == 109
      then (do n ← stoull (pop_back size_str); returns (n * 2 ^ 20 % 2 ^ 64))
      else if last == 71 || last == 103
      then (do n ← stoull (pop_back size_str); returns (n * 2 ^ 30 % 2 ^ 64))
      else stoull size_str

unfoldable pub set_value : Valued → Text → Config → Outcome Config
set_value env value config = returns (record config { env_vars = config.env_vars ++ (value ∷ []) })
set_value rootfs value config = returns (record config { rootfs = value })
set_value memory value config = do n ← memory_of value; returns (record config { memory_size = n })
set_value cpus value config = do n ← stoi value; returns (record config { cpu_count = n })

unfoldable pub set_switch : Switch → Config → Config
set_switch debug config = record config { debug = true }
set_switch trace_syscalls config = record config { trace_syscalls = true }
set_switch trace_memory config = record config { trace_memory = true }
set_switch show_registers config = record config { show_registers = true }
set_switch unknown_option config = config

-- The result of `parse_args`, with the configuration that it leaves.
pub data Parsed : Type 0 where
  accepted : Config → Parsed
  refused : Message → Config → Parsed

-- The test after the loop.
unfoldable pub accept : Config → Parsed
accept config = if is_empty config.binary_path then refused no_binary config else accepted config

-- The loop, and what follows it. An option that takes a value does nothing at the end.
unfoldable pub parse_from : Config → List Text → Outcome Parsed
parse_from config [] = returns (accept config)
parse_from config (arg ∷ []) = elim (branch_of arg) [
  | informs message ↦ returns (refused message config)
  | binary ↦ returns (accept (record config { binary_path = arg }))
  | takes option ↦ returns (accept config)
  | switches option ↦ returns (accept (set_switch option config))
]
parse_from config (arg ∷ value ∷ rest) = elim (branch_of arg) [
  | informs message ↦ returns (refused message config)
  | binary ↦
      returns (accept (record config { binary_path = arg; args = config.args ++ (value ∷ rest) }))
  | takes option ↦ do set ← set_value option value config; parse_from set rest
  | switches option ↦ parse_from (set_switch option config) (value ∷ rest)
]

unfoldable pub parse_args : ℕ → List Text → Outcome Parsed
parse_args default_memory argv = parse_from (default_config default_memory) argv
