-- ===== src/Tool/Split.antt =====
-- Which command lines `parse_args` accepts, and the configuration that they give.
use acheron_arm.Base.{
  ℕ, ◌≡◌, ◌≢◌, ◌↔◌, refl, sym, ap, ◌∙◌, inl, inr, false, List, ◌∷◌, ◌++◌, arith, Bool-cases,
}
use acheron_arm.Tool.Text.{Text, Outcome, returns, is_empty}
use acheron_arm.Tool.Args.{
  Config, default_config, binary, branch_of, starts_with_dash, accept, Parsed, accepted, parse_from,
  parse_args,
}
use acheron_arm.Tool.Reads.{
  Reads, Reaches, IsFresh, Reads-IsFresh, returns_inj, parse_from-Reads, parse_from-binary,
}
use acheron_arm.Tool.Stops.{
  returns-fails, Stops, informed, at_path, at_end, at_option, at_value, parse_from-Stops,
}
use acheron_arm.Tool.Spellings.{Spelled, branch_of-Spelled, Spelled-branch_of}

-- The words of a command line are options, the path, and the arguments; the configuration is what
-- the options make of the default, with the path and the arguments.
pub record Splits (default_memory : ℕ) (argv : List Text) (config : Config) : Type 0 where
  pub options : List Text
  pub before : Config
  pub read : Reads (default_config default_memory) options before
  pub parts : argv ≡ options ++ (config.binary_path ∷ config.args)
  pub named : is_empty config.binary_path ≡ false
  pub no_option : starts_with_dash config.binary_path ≡ false
  pub configured : config ≡ record before { binary_path = config.binary_path; args = config.args }

accept-accepted :
    (c k : Config) → accept c ≡ accepted k → (c ≡ k) × (is_empty c.binary_path ≡ false)
unfolding accept
accept-accepted c k e = elim (Bool-cases (is_empty c.binary_path)) [
  | inl empty ↦ absurd (ground arith)
  | inr path ↦ (ground arith, path)
]

accepts_path : (c : Config) → is_empty c.binary_path ≡ false → accept c ≡ accepted c
unfolding accept
accepts_path c e = ground arith

no_path : (c k : Config) → IsFresh c → accept c ≢ accepted k
unfolding accept
no_path c k fresh e = ground arith

-- The path is a word of its own, with nothing after it but the arguments.
path-Splits :
    (default_memory : ℕ) (argv : List Text) (word : Text) (words : List Text)
    (before config : Config)
    → IsFresh before
    → Reaches (default_config default_memory) argv before (word ∷ words)
    → branch_of word ≡ binary
    → accept (record before { binary_path = word; args = before.args ++ words }) ≡ accepted config
    → Splits default_memory argv config
path-Splits default_memory argv word words before config fresh r b e =
    let ends =
      accept-accepted (record before { binary_path = word; args = before.args ++ words }) config
        e in
    rw (← ends.0) (record {
      options = r.options;
      before = before;
      read = r.read;
      parts = ground (arith, r.parts, fresh.1);
      named = ends.1;
      no_option = unfold Spelled in branch_of-Spelled word binary b;
      configured = refl;
    })

pub stop-Splits :
    (default_memory : ℕ) (argv : List Text) (before config : Config) (rest : List Text)
    (result : Outcome Parsed)
    → Reaches (default_config default_memory) argv before rest
    → Stops before rest result
    → result ≡ returns (accepted config)
    → Splits default_memory argv config
stop-Splits m argv before config rest result r (informed word words message p b q) e =
    absurd (ground arith)
stop-Splits m argv before config rest result r (at_path word words p b q) e =
    path-Splits m argv word words before config (Reads-IsFresh r.read (refl, refl)) (rw (← p) r) b
      (returns_inj _ _ (sym q ∙ e))
stop-Splits m argv before config rest result r (at_end p q) e =
    absurd (no_path before config (Reads-IsFresh r.read (refl, refl)) (returns_inj _ _ (sym q ∙ e)))
stop-Splits m argv before config rest result r (at_option word o p b q) e =
    absurd (no_path before config (Reads-IsFresh r.read (refl, refl)) (returns_inj _ _ (sym q ∙ e)))
stop-Splits m argv before config rest result r (at_value word value words o b p t f q) e =
    absurd (returns-fails b _ (sym e ∙ q))

pub parse_args-Splits :
    (default_memory : ℕ) (argv : List Text) (config : Config)
    → parse_args default_memory argv ≡ returns (accepted config)
    → Splits default_memory argv config
unfolding parse_args
parse_args-Splits default_memory argv config e =
    let (before, rest, r, s) = parse_from-Stops argv (default_config default_memory) in
    stop-Splits default_memory argv before config rest _ r s e

Splits-parse_args :
    (default_memory : ℕ) (argv : List Text) (config : Config)
    → Splits default_memory argv config
    → parse_args default_memory argv ≡ returns (accepted config)
unfolding parse_args
Splits-parse_args default_memory argv config s =
    let path = config.binary_path in
    let words = path ∷ config.args in
    let fresh = Reads-IsFresh s.read (refl, refl) in
    let accepts : accept
          (record s.before { binary_path = path; args = s.before.args ++ config.args })
        ≡ accepted config =
      rw (fresh.1) (
        accepts_path (record s.before { binary_path = path; args = config.args }) s.named
        ∙ ap accepted (sym s.configured)) in
    ap (parse_from (default_config default_memory)) s.parts
    ∙ parse_from-Reads words s.read
    ∙ parse_from-binary path config.args s.before
        (unfold Spelled in Spelled-branch_of path binary s.no_option)
    ∙ ap returns accepts

-- A command line is accepted with a configuration exactly if it is options, a path that is not empty
-- and does not begin with a dash, and arguments, and the configuration is the default as the options
-- change it, one after the other, with that path and those arguments. `-e`, `-r`, `-m` and `-c` or
-- their long forms are followed by a value, of `-m` and `-c` one that can be read: `-e` adds it to
-- the environment variables, the others replace the root, the memory size or the number of
-- processors. `-d`, `--debug` and the three switches set their flags, and any other word with a dash
-- in front, but for the help and the version, changes nothing.
pub parse_args-Splits_iff :
    (default_memory : ℕ) (argv : List Text) (config : Config)
    → (parse_args default_memory argv ≡ returns (accepted config))
      ↔ Splits default_memory argv config
parse_args-Splits_iff default_memory argv config =
    (parse_args-Splits default_memory argv config, Splits-parse_args default_memory argv config)
