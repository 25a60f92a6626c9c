-- ===== src/Tool/Endings.antt =====
-- How a run of `main` ends, on every command line.
use acheron_arm.Base.{
  ℕ, ◌≡◌, ◌++◌, ◌⊎◌, inl, inr, refl, sym, ap, ◌∙◌, true, false, Bool, Option, List, [], ◌∷◌, arith,
  Bool-cases, if◌then◌else◌,
}
use acheron_arm.Tool.Text.{Text, Outcome, returns, throws, undefined_behaviour, is_empty}
use acheron_arm.Tool.Spellings.{Spelled, spellings, branch_of-Spelled}
use acheron_arm.Tool.Args.{
  Config, default_config, Valued, informs, takes, branch_of, parse_args, accept, Parsed, accepted,
  refused, Message, help, version, no_binary,
}
use acheron_arm.Tool.Reads.{Reaches, outcome_cases, returns_inj}
use acheron_arm.Tool.Stops.{
  Stops, informed, at_path, at_end, at_option, at_value, fails, returns-fails, number_of,
  parse_from-Stops,
}
use acheron_arm.Tool.Split.{Splits, stop-Splits}
use acheron_arm.Registers.{SystemRegisterState}
use acheron_arm.Tool.Elf.{load_elf}
use acheron_arm.Tool.Usage.{print_usage, print_version}
use acheron_arm.Tool.Program.{main, message_text}

accept-refused :
    (c k : Config) (m : Message)
    → accept c ≡ refused m k
    → (m ≡ no_binary) × (is_empty c.binary_path ≡ true)
unfolding accept
accept-refused c k m e = (ground arith, ground arith)

fails_inj : {A : Type 0} (b c : Bool) → fails {A = A} b ≡ fails c → b ≡ c
fails_inj true true e = refl
fails_inj false false e = refl
fails_inj true false e = absurd (ground arith)
fails_inj false true e = absurd (ground arith)

module _ (default_memory : ℕ) (argv : List Text) where
  -- Options, then `rest`.
  abbrev Begins : List Text → Type 0
  Begins rest = (c : Config) × Reaches (default_config default_memory) argv c rest

  -- After options, the word for a message.
  abbrev pub Asks : Message → Type 0
  Asks m = (word : Text) × (words : List Text) × Begins (word ∷ words) × Spelled word (informs m)

  -- Options only, or with one at the end that lacks its value, or with an empty word after them.
  abbrev pub Pathless : Type 0
  Pathless =
      (Begins [] ⊎ ((word : Text) × (o : Valued) × Begins (word ∷ []) × Spelled word (takes o)))
      ⊎ ((words : List Text) × Begins ([] ∷ words))

  -- After options, an option with a value whose conversion throws, or is undefined.
  abbrev pub Unreadable : Bool → Type 0
  Unreadable throwing =
      (word : Text) × (value : Text) × (words : List Text) × (o : Valued) × Begins
        (word ∷ value ∷ words)
      × Spelled word (takes o)
      × (number_of o value ≡ fails throwing)

  begins :
      (c : Config) (rest words : List Text)
      → Reaches (default_config default_memory) argv c rest
      → rest ≡ words
      → Begins words
  begins c rest words r p = (
    c,
    record { options = r.options; read = r.read; parts = r.parts ∙ ap (λ t. r.options ++ t) p },
  )

  abbrev Refuses : Message → Type 0
  Refuses help = Asks help
  Refuses version = Asks version
  Refuses no_binary = Pathless

  asked :
      (m : Message) (word : Text) (words : List Text)
      → Begins (word ∷ words)
      → branch_of word ≡ informs m
      → Refuses m
  unfolding Spelled spellings
  asked help word words s e = (word, words, s, branch_of-Spelled word (informs help) e)
  asked version word words s e = (word, words, s, branch_of-Spelled word (informs version) e)
  asked no_binary word words s e = absurd (branch_of-Spelled word (informs no_binary) e)

  unnamed :
      (word : Text) (words : List Text) → is_empty word ≡ true → Begins (word ∷ words) → Pathless
  unnamed [] words e s = inr (words, s)
  unnamed (c ∷ word) words e s = absurd (ground arith)

  stop-Refuses :
      (c config : Config) (rest : List Text) (result : Outcome Parsed) (m : Message)
      → Reaches (default_config default_memory) argv c rest
      → Stops c rest result
      → result ≡ returns (refused m config)
      → Refuses m
  stop-Refuses c config rest result m r (informed word words m' p b q) e =
      asked m word words (begins c rest _ r p) (ground (arith, b))
  stop-Refuses c config rest result m r (at_path word words p b q) e =
      let k = record c { binary_path = word; args = c.args ++ words } in
      let (pathless, empty) = accept-refused k config m (returns_inj _ _ (sym q ∙ e)) in
      rw pathless (unnamed word words empty (begins c rest _ r p))
  stop-Refuses c config rest result m r (at_end p q) e =
      rw ((accept-refused c config m (returns_inj _ _ (sym q ∙ e))).0)
        (inl (inl (begins c rest _ r p)))
  stop-Refuses c config rest result m r (at_option word o p b q) e =
      rw ((accept-refused c config m (returns_inj _ _ (sym q ∙ e))).0)
        (inl (inr (word, o, (begins c rest _ r p), branch_of-Spelled word (takes o) b)))
  stop-Refuses c config rest result m r (at_value word value words o b p t f q) e =
      absurd (returns-fails b _ (sym e ∙ q))

  stop-Unreadable :
      (c : Config) (rest : List Text) (result : Outcome Parsed) (b : Bool)
      → Reaches (default_config default_memory) argv c rest
      → Stops c rest result
      → result ≡ fails b
      → Unreadable b
  stop-Unreadable c rest result b r (informed word words m p t q) e =
      absurd (returns-fails b _ (sym q ∙ e))
  stop-Unreadable c rest result b r (at_path word words p t q) e =
      absurd (returns-fails b _ (sym q ∙ e))
  stop-Unreadable c rest result b r (at_end p q) e = absurd (returns-fails b _ (sym q ∙ e))
  stop-Unreadable c rest result b r (at_option word o p t q) e =
      absurd (returns-fails b _ (sym q ∙ e))
  stop-Unreadable c rest result b r (at_value word value words o b' p t f q) e =
      rw (← fails_inj b' b (sym q ∙ e))
        (word, value, words, o, (begins c rest _ r p), branch_of-Spelled word (takes o) t, f)

  module _ (files : Text → Option (List ℕ)) (stale : ℕ → ℕ) (program : Text) where
    -- How a run ends: with an exit code and an output, with an exception, or undefined.
    pub Ends : Outcome (ℕ × Text) → Type 0
    Ends (returns (code, out)) =
        (((code ≡ 1)
          × (((Asks help ⊎ Pathless) × (out ≡ print_usage program))
              ⊎ (Asks version × (out ≡ print_version)))))
        ⊎ ((config : Config) × Splits default_memory argv config
            × (code ≡ (if (load_elf stale (files config.binary_path)).valid then 0 else 1)))
    Ends throws = Unreadable true
    Ends undefined_behaviour = Unreadable false

-- Every run of the runner, on any words, ends in one of these ways. After options comes `-h` or
-- `--help`, and it prints the usage and exits with 1; or `-v` or `--version`, and it prints the
-- version and exits with 1. Or there are only options, or options and one that lacks its value, or
-- options and then an empty word, and it prints the usage and exits with 1. Or the words are options,
-- a path and arguments, with the configuration that these give, and it exits with 0 if `load_elf`
-- takes the file of that path, and else with 1. Or after options comes one with a value whose
-- conversion throws, which ends the program, or is undefined, and so is the run. An option is `-e`,
-- `-r`, `-m`, `-c` or its long form with a value that can be read, `-d`, `--debug` or one of the three
-- switches, or any word with a dash in front that the parser does not know.
pub main-Ends :
    (default_memory : ℕ) (files : Text → Option (List ℕ)) (stale : ℕ → ℕ)
    (uninitialised : SystemRegisterState) (program : Text) (argv : List Text)
    → Ends default_memory argv files stale program
        (main default_memory files stale uninitialised program argv)
unfolding main Ends message_text parse_args
main-Ends m files stale uninitialised program argv =
    let (c, rest, r, s) = parse_from-Stops argv (default_config m) in
    elim (outcome_cases (parse_args m argv)) [
      | inl (refused help config, d) ↦
          rw d (inl (refl, inl (inl (stop-Refuses m argv c config rest _ help r s d), refl)))
      | inl (refused version config, d) ↦
          rw d (inl (refl, inr (stop-Refuses m argv c config rest _ version r s d, refl)))
      | inl (refused no_binary config, d) ↦
          rw d (inl (refl, inl (inr (stop-Refuses m argv c config rest _ no_binary r s d), refl)))
      | inl (accepted config, d) ↦
          let divided = stop-Splits m argv c config rest _ r s d in
          elim (Bool-cases (load_elf stale (files config.binary_path)).valid) [
            | inl valid ↦ rw (d, valid) (inr (config, divided, rw valid refl))
            | inr invalid ↦ rw (d, invalid) (inr (config, divided, rw invalid refl))
          ]
      | inr (inl d) ↦ rw d (stop-Unreadable m argv c rest _ true r s d)
      | inr (inr d) ↦ rw d (stop-Unreadable m argv c rest _ false r s d)
    ]
