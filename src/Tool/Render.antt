-- ===== src/Tool/Render.antt =====
-- A configuration as a command line, and back.
use acheron_arm.Base.{
  ◌≡◌, refl, ap, ◌∙◌, Bool, true, false, List, [], ◌∷◌, ◌++◌, arith, if◌then◌else◌,
}
use mathlib.Core.List.{append_assoc, append-nil}
use acheron_arm.Tool.Text.{Text, returns, is_empty, same_text}
use acheron_arm.Tool.Spellings.{Spelled, Spelled-branch_of}
use acheron_arm.Tool.Args.{
  Config, default_config, binary, switches, Switch, debug, trace_syscalls, trace_memory,
  show_registers, branch_of, starts_with_dash, set_value, set_switch, accept, accepted, parse_from,
  parse_args, short_env, short_rootfs, short_debug, long_trace_syscalls, long_trace_memory,
  long_show_registers,
}

pub with_env : List Text → List Text → List Text
with_env [] rest = rest
with_env (v ∷ vs) rest = short_env ∷ v ∷ with_env vs rest

pub with_switch : Bool → Text → List Text → List Text
with_switch true word rest = word ∷ rest
with_switch false word rest = rest

-- The options of a configuration, its path and its arguments. Memory and CPUs keep the defaults.
pub render : Config → List Text
render c = with_env c.env_vars (
    short_rootfs
    ∷ c.rootfs
    ∷ with_switch c.debug short_debug (
        with_switch c.trace_syscalls long_trace_syscalls (
          with_switch c.trace_memory long_trace_memory
            (with_switch c.show_registers long_show_registers (c.binary_path ∷ c.args)))))

parse_env :
    (vs rest : List Text) (c : Config)
    → parse_from c (with_env vs rest) ≡ parse_from (record c { env_vars = c.env_vars ++ vs }) rest
unfolding parse_from with_env branch_of same_text set_value
parse_env [] rest c = rw (append-nil c.env_vars) refl
parse_env (v ∷ vs) rest c =
    rw (← append_assoc c.env_vars (v ∷ []) vs)
      (parse_env vs rest (record c { env_vars = c.env_vars ++ (v ∷ []) }))

parse_switch :
    (b : Bool) (word : Text) (o : Switch) (rest : List Text) (c : Config)
    → branch_of word ≡ switches o
    → parse_from c (with_switch b word rest) ≡ parse_from (if b then set_switch o c else c) rest
unfolding parse_from with_switch
parse_switch true word o [] c h = ground arith
parse_switch true word o (next ∷ rest) c h = ground arith
parse_switch false word o rest c h = refl

branch_of-binary : (arg : Text) → starts_with_dash arg ≡ false → branch_of arg ≡ binary
unfolding Spelled
branch_of-binary arg h = Spelled-branch_of arg binary h

parse_path :
    (path : Text) (rest : List Text) (c : Config)
    → starts_with_dash path ≡ false
    → is_empty path ≡ false
    → c.args ≡ []
    → parse_from c (path ∷ rest) ≡ returns (accepted (record c { binary_path = path; args = rest }))
unfolding parse_from accept
parse_path path [] c h n e = ground (arith, branch_of-binary path h)
parse_path path (v ∷ rest) c h n e = ground (arith, branch_of-binary path h)

-- The switches of `k`, set in `c`.
abbrev switched : Config → Config → Config
switched c k =
    let s1 = if k.debug then set_switch debug c else c in
    let s2 = if k.trace_syscalls then set_switch trace_syscalls s1 else s1 in
    let s3 = if k.trace_memory then set_switch trace_memory s2 else s2 in
    if k.show_registers then set_switch show_registers s3 else s3

parse_switches :
    (c k : Config)
    → starts_with_dash k.binary_path ≡ false
    → is_empty k.binary_path ≡ false
    → c.args ≡ []
    → parse_from c (
        with_switch k.debug short_debug (
          with_switch k.trace_syscalls long_trace_syscalls (
            with_switch k.trace_memory long_trace_memory
              (with_switch k.show_registers long_show_registers (k.binary_path ∷ k.args)))))
      ≡ returns (accepted (record (switched c k) { binary_path = k.binary_path; args = k.args }))
unfolding branch_of same_text set_switch
parse_switches c k h n e =
    parse_switch k.debug short_debug debug _ c refl
    ∙ (parse_switch k.trace_syscalls long_trace_syscalls trace_syscalls _ _ refl
        ∙ (parse_switch k.trace_memory long_trace_memory trace_memory _ _ refl
            ∙ (parse_switch k.show_registers long_show_registers show_registers _ _ refl
                ∙ parse_path k.binary_path k.args (switched c k) h n (ground (arith, e)))))

-- Parsing the command line of a configuration gives the configuration: its environment variables
-- in their order, its root, its switches, its path and its arguments. The memory and the number of
-- CPUs are the defaults, and the path is not empty and does not begin with a dash.
pub parse_args-render :
    (k : Config)
    → k.cpu_count ≡ 1
    → starts_with_dash k.binary_path ≡ false
    → is_empty k.binary_path ≡ false
    → parse_args k.memory_size (render k) ≡ returns (accepted k)
unfolding parse_args render parse_from set_value branch_of same_text set_switch
parse_args-render k one h n =
    let start = default_config k.memory_size in
    let rooted = record start { env_vars = k.env_vars; rootfs = k.rootfs } in
    let whole : record (switched rooted k) { binary_path = k.binary_path; args = k.args } ≡ k =
      ground (arith, one) in
    parse_env k.env_vars _ start
    ∙ (parse_switches rooted k h n refl ∙ ap (λ c. returns (accepted c)) whole)
