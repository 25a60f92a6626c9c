-- ===== src/Tool/Reads.antt =====
-- The options at the start of a command line, as a relation, and the loop of `parse_args` on them.
use acheron_arm.Base.{ℕ, ◌≡◌, refl, sym, ap, ◌∙◌, inl, inr, true, List, [], ◌∷◌, ◌++◌, arith, ◌⊎◌}
use mathlib.Core.List.{append-nil}
use acheron_arm.Tool.Text.{Text, Outcome, returns, throws, undefined_behaviour, stoi}
use acheron_arm.Tool.Spellings.{Spelled, branch_of-Spelled, Spelled-branch_of}
use acheron_arm.Tool.Args.{
  Config, Branch, Message, informs, binary, takes, switches, Valued, env, rootfs, memory, cpus,
  Switch, debug, trace_syscalls, trace_memory, show_registers, unknown_option, memory_of, branch_of,
  set_value, set_switch, accept, refused, parse_from,
}

pub branch_cases :
    (b : Branch)
    → (((m : Message) × (b ≡ informs m)) ⊎ (b ≡ binary))
      ⊎ (((o : Valued) × (b ≡ takes o)) ⊎ ((o : Switch) × (b ≡ switches o)))
branch_cases (informs m) = inl (inl (m, refl))
branch_cases binary = inl (inr refl)
branch_cases (takes o) = inr (inl (o, refl))
branch_cases (switches o) = inr (inr (o, refl))

pub outcome_cases :
    {A : Type 0} (o : Outcome A)
    → ((a : A) × (o ≡ returns a)) ⊎ ((o ≡ throws) ⊎ (o ≡ undefined_behaviour))
outcome_cases (returns a) = inl (a, refl)
outcome_cases throws = inr (inl refl)
outcome_cases undefined_behaviour = inr (inr refl)

pub returns_inj : {A : Type 0} (a b : A) → returns a ≡ returns b → a ≡ b
returns_inj a b e = cc

-- What an option does with a configuration: a switch, and an option with its value, if that can be
-- read.
abbrev pub Sets : Switch → Config → Config → Type 0
Sets debug c d = d ≡ record c { debug = true }
Sets trace_syscalls c d = d ≡ record c { trace_syscalls = true }
Sets trace_memory c d = d ≡ record c { trace_memory = true }
Sets show_registers c d = d ≡ record c { show_registers = true }
Sets unknown_option c d = d ≡ c

abbrev pub Gives : Valued → Text → Config → Config → Type 0
Gives env value c d = d ≡ record c { env_vars = c.env_vars ++ (value ∷ []) }
Gives rootfs value c d = d ≡ record c { rootfs = value }
Gives memory value c d =
    (n : ℕ) × (memory_of value ≡ returns n) × (d ≡ record c { memory_size = n })
Gives cpus value c d = (n : ℕ) × (stoi value ≡ returns n) × (d ≡ record c { cpu_count = n })

set_switch-Sets : (o : Switch) (c : Config) → Sets o c (set_switch o c)
unfolding set_switch
set_switch-Sets debug c = refl
set_switch-Sets trace_syscalls c = refl
set_switch-Sets trace_memory c = refl
set_switch-Sets show_registers c = refl
set_switch-Sets unknown_option c = refl

Sets-set_switch : (o : Switch) (c d : Config) → Sets o c d → set_switch o c ≡ d
unfolding set_switch
Sets-set_switch debug c d e = sym e
Sets-set_switch trace_syscalls c d e = sym e
Sets-set_switch trace_memory c d e = sym e
Sets-set_switch show_registers c d e = sym e
Sets-set_switch unknown_option c d e = sym e

set_value-Gives :
    (o : Valued) (v : Text) (c d : Config) → set_value o v c ≡ returns d → Gives o v c d
unfolding set_value
set_value-Gives env v c d e = sym (returns_inj _ _ e)
set_value-Gives rootfs v c d e = sym (returns_inj _ _ e)
set_value-Gives memory v c d e = elim (outcome_cases (memory_of v)) [
  | inl (n, f) ↦ (n, f, ground arith)
  | inr (inl f) ↦ absurd (ground arith)
  | inr (inr f) ↦ absurd (ground arith)
]
set_value-Gives cpus v c d e = elim (outcome_cases (stoi v)) [
  | inl (n, f) ↦ (n, f, ground arith)
  | inr (inl f) ↦ absurd (ground arith)
  | inr (inr f) ↦ absurd (ground arith)
]

Gives-set_value :
    (o : Valued) (v : Text) (c d : Config) → Gives o v c d → set_value o v c ≡ returns d
unfolding set_value
Gives-set_value env v c d e = ap returns (sym e)
Gives-set_value rootfs v c d e = ap returns (sym e)
Gives-set_value memory v c d (n, f, e) = rw f (ap returns (sym e))
Gives-set_value cpus v c d (n, f, e) = rw f (ap returns (sym e))

-- Words that are options, each with its value if it takes one; they turn the first configuration
-- into the second.
pub data Reads : Config → List Text → Config → Type 0 where
  done : {c : Config} → Reads c [] c
  switched :
      {c d k : Config} {word : Text} {words : List Text} (o : Switch)
      → Spelled word (switches o)
      → Sets o c d
      → Reads d words k
      → Reads c (word ∷ words) k
  valued :
      {c d k : Config} {word value : Text} {words : List Text} (o : Valued)
      → Spelled word (takes o)
      → Gives o value c d
      → Reads d words k
      → Reads c (word ∷ value ∷ words) k

-- Options, then `rest`.
pub record Reaches (c : Config) (argv : List Text) (k : Config) (rest : List Text) : Type 0 where
  pub options : List Text
  pub read : Reads c options k
  pub parts : argv ≡ options ++ rest

pub Reaches-switched :
    (c k : Config) (word : Text) (argv rest : List Text) (o : Switch)
    → branch_of word ≡ switches o
    → Reaches (set_switch o c) argv k rest
    → Reaches c (word ∷ argv) k rest
Reaches-switched c k word argv rest o e r = record {
  options = word ∷ r.options;
  read = switched o (branch_of-Spelled word (switches o) e) (set_switch-Sets o c) r.read;
  parts = ap (λ t. word ∷ t) r.parts;
}

pub Reaches-valued :
    (c d k : Config) (word value : Text) (argv rest : List Text) (o : Valued)
    → branch_of word ≡ takes o
    → set_value o value c ≡ returns d
    → Reaches d argv k rest
    → Reaches c (word ∷ value ∷ argv) k rest
Reaches-valued c d k word value argv rest o e f r = record {
  options = word ∷ value ∷ r.options;
  read = valued o (branch_of-Spelled word (takes o) e) (set_value-Gives o value c d f) r.read;
  parts = ap (λ t. word ∷ value ∷ t) r.parts;
}

-- One round of the loop, whatever follows the word.
pub parse_from-informs :
    (word : Text) (rest : List Text) (c : Config) (m : Message)
    → branch_of word ≡ informs m
    → parse_from c (word ∷ rest) ≡ returns (refused m c)
unfolding parse_from
parse_from-informs word [] c m e = ground arith
parse_from-informs word (value ∷ rest) c m e = ground arith

pub parse_from-binary :
    (word : Text) (rest : List Text) (c : Config)
    → branch_of word ≡ binary
    → parse_from c (word ∷ rest)
      ≡ returns (accept (record c { binary_path = word; args = c.args ++ rest }))
unfolding parse_from
parse_from-binary word [] c e = ground (arith, append-nil c.args)
parse_from-binary word (value ∷ rest) c e = ground arith

pub parse_from-switches :
    (word : Text) (rest : List Text) (c : Config) (o : Switch)
    → branch_of word ≡ switches o
    → parse_from c (word ∷ rest) ≡ parse_from (set_switch o c) rest
unfolding parse_from
parse_from-switches word [] c o e = ground arith
parse_from-switches word (value ∷ rest) c o e = ground arith

pub parse_from-takes :
    (word value : Text) (rest : List Text) (c d : Config) (o : Valued)
    → branch_of word ≡ takes o
    → set_value o value c ≡ returns d
    → parse_from c (word ∷ value ∷ rest) ≡ parse_from d rest
unfolding parse_from
parse_from-takes word value rest c d o e f = ground arith

-- The loop carries the options out and goes on with what follows them.
pub parse_from-Reads :
    {c k : Config} {words : List Text} (rest : List Text)
    → Reads c words k
    → parse_from c (words ++ rest) ≡ parse_from k rest
parse_from-Reads rest done = refl
parse_from-Reads rest (switched {c} {d} {k} {word} {words} o e f r) =
    parse_from-switches word (words ++ rest) c o (Spelled-branch_of word (switches o) e)
    ∙ ap (λ x. parse_from x (words ++ rest)) (Sets-set_switch o c d f)
    ∙ parse_from-Reads rest r
parse_from-Reads rest (valued {c} {d} {k} {word} {value} {words} o e f r) =
    parse_from-takes word value (words ++ rest) c d o (Spelled-branch_of word (takes o) e)
      (Gives-set_value o value c d f)
    ∙ parse_from-Reads rest r

-- No path and no arguments yet.
abbrev pub IsFresh : Config → Type 0
IsFresh config = (config.binary_path ≡ []) × (config.args ≡ [])

Sets-IsFresh : (o : Switch) (c d : Config) → Sets o c d → IsFresh c → IsFresh d
Sets-IsFresh debug c d e h = rw e h
Sets-IsFresh trace_syscalls c d e h = rw e h
Sets-IsFresh trace_memory c d e h = rw e h
Sets-IsFresh show_registers c d e h = rw e h
Sets-IsFresh unknown_option c d e h = rw e h

Gives-IsFresh : (o : Valued) (v : Text) (c d : Config) → Gives o v c d → IsFresh c → IsFresh d
Gives-IsFresh env v c d e h = rw e h
Gives-IsFresh rootfs v c d e h = rw e h
Gives-IsFresh memory v c d (n, f, e) h = rw e h
Gives-IsFresh cpus v c d (n, f, e) h = rw e h

pub Reads-IsFresh : {c k : Config} {words : List Text} → Reads c words k → IsFresh c → IsFresh k
Reads-IsFresh done h = h
Reads-IsFresh (switched o e f r) h = Reads-IsFresh r (Sets-IsFresh o _ _ f h)
Reads-IsFresh (valued o e f r) h = Reads-IsFresh r (Gives-IsFresh o _ _ _ f h)
