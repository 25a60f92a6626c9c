-- ===== src/Tool/Limits.antt =====
-- The integers of a parsed configuration fit their types.
use acheron_arm.Base.{ℕ, ◌^◌, ◌<◌, ◌≡◌, inl, inr, List, [], ◌∷◌, ◌++◌, ◌≡◌, arith, Option-cases}
use acheron_arm.Tool.Text.{Text, returns, back, pop_back, skip_spaces, signed, stoull, stoi}
use acheron_arm.Tool.Args.{
  Config, default_config, Valued, env, rootfs, memory, cpus, Switch, debug, memory_of, branch_of,
  set_value, set_switch, accept, Message, Parsed, accepted, refused, parse_from, parse_args,
}
use acheron_arm.Tool.Reads.{outcome_cases, branch_cases, returns_inj}

stoull-bound : (s : Text) (n : ℕ) → stoull s ≡ returns n → n < 2 ^ 64
unfolding stoull
stoull-bound s n e = elim (Option-cases (signed (skip_spaces s)).1) [
  | inl missing ↦ absurd (ground arith)
  | inr (v, found) ↦ ground arith
]

stoi-bound : (s : Text) (n : ℕ) → stoi s ≡ returns n → n < 2 ^ 32
unfolding stoi
stoi-bound s n e = elim (Option-cases (signed (skip_spaces s)).1) [
  | inl missing ↦ absurd (ground arith)
  | inr (v, found) ↦ ground arith
]

memory_of-bound : (s : Text) (n : ℕ) → memory_of s ≡ returns n → n < 2 ^ 64
unfolding memory_of
memory_of-bound s n e =
    let whole = stoull-bound s n in
    elim (outcome_cases (back s)) [
      | inr (inl d) ↦ absurd (ground arith)
      | inr (inr d) ↦ absurd (ground arith)
      | inl (last, d) ↦ elim (outcome_cases (stoull (pop_back s))) [
        | inl (k, number) ↦ ground (arith, whole)
        | inr (inl failed) ↦ ground (arith, whole)
        | inr (inr failed) ↦ ground (arith, whole)
      ]
    ]

-- `memory_size` is a `size_t`, and `cpu_count` an `int` by its bits.
abbrev pub IsTyped : Config → Type 0
IsTyped c = (c.memory_size < 2 ^ 64) × (c.cpu_count < 2 ^ 32)

set_switch-IsTyped : (o : Switch) (c : Config) → IsTyped c → IsTyped (set_switch o c)
unfolding set_switch
set_switch-IsTyped debug c h = h
set_switch-IsTyped _ c h = h

set_value-IsTyped :
    (o : Valued) (v : Text) (c k : Config) → set_value o v c ≡ returns k → IsTyped c → IsTyped k
unfolding set_value
set_value-IsTyped env v c k e h = ground arith
set_value-IsTyped rootfs v c k e h = ground arith
set_value-IsTyped memory v c k e h = elim (outcome_cases (memory_of v)) [
  | inl (n, d) ↦ ground (arith, memory_of-bound v n d)
  | inr (inl d) ↦ absurd (ground arith)
  | inr (inr d) ↦ absurd (ground arith)
]
set_value-IsTyped cpus v c k e h = elim (outcome_cases (stoi v)) [
  | inl (n, d) ↦ ground (arith, stoi-bound v n d)
  | inr (inl d) ↦ absurd (ground arith)
  | inr (inr d) ↦ absurd (ground arith)
]

-- The configuration that a parse leaves, accepted or not.
abbrev pub config_of : Parsed → Config
config_of (accepted c) = c
config_of (refused message c) = c

left :
    (message : Message) (c : Config) (p : Parsed)
    → IsTyped c
    → returns (refused message c) ≡ returns p
    → IsTyped (config_of p)
left message c p h e = rw (← returns_inj (refused message c) p e) h

accept-IsTyped :
    (c : Config) (p : Parsed) → IsTyped c → returns (accept c) ≡ returns p → IsTyped (config_of p)
unfolding accept
accept-IsTyped c p h e = rw (← returns_inj (accept c) p e) (ground arith)

parse_from-IsTyped :
    (argv : List Text) (c : Config) (p : Parsed)
    → IsTyped c
    → parse_from c argv ≡ returns p
    → IsTyped (config_of p)
unfolding parse_from
parse_from-IsTyped [] c p h e = accept-IsTyped c p h e
parse_from-IsTyped (arg ∷ []) c p h e = elim (branch_cases (branch_of arg)) [
  | inl (inl (message, shows)) ↦ left message c p h (ground arith)
  | inl (inr is_binary) ↦ accept-IsTyped (record c { binary_path = arg }) p h (ground arith)
  | inr (inl (option, valued)) ↦ accept-IsTyped c p h (ground arith)
  | inr (inr (option, switch)) ↦
      accept-IsTyped (set_switch option c) p (set_switch-IsTyped option c h) (ground arith)
]
parse_from-IsTyped (arg ∷ value ∷ rest) c p h e = elim (branch_cases (branch_of arg)) [
  | inl (inl (message, shows)) ↦ left message c p h (ground arith)
  | inl (inr is_binary) ↦
      accept-IsTyped (record c { binary_path = arg; args = c.args ++ (value ∷ rest) }) p h
        (ground arith)
  | inr (inl (option, valued)) ↦ elim (outcome_cases (set_value option value c)) [
    | inl (set, d) ↦
        parse_from-IsTyped rest set p (set_value-IsTyped option value c set d h) (ground arith)
    | inr (inl d) ↦ absurd (ground arith)
    | inr (inr d) ↦ absurd (ground arith)
  ]
  | inr (inr (option, switch)) ↦
      parse_from-IsTyped (value ∷ rest) (set_switch option c) p (set_switch-IsTyped option c h)
        (ground arith)
]

-- On every command line, the configuration that `parse_args` leaves, whether it accepts it or not,
-- has a memory size below 2 ^ 64 and a number of CPUs of 32 bits, if the default size is one.
pub parse_args-IsTyped :
    (default_memory : ℕ) (argv : List Text) (p : Parsed)
    → default_memory < 2 ^ 64
    → parse_args default_memory argv ≡ returns p
    → IsTyped (config_of p)
unfolding parse_args
parse_args-IsTyped default_memory argv p h e =
    parse_from-IsTyped argv (default_config default_memory) p (h, omega arith) e
