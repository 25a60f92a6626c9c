-- ===== src/Tool/Stops.antt =====
-- Where the loop of `parse_args` stops, and what `parse_args` then gives.
use acheron_arm.Base.{ℕ, ◌≡◌, ◌≢◌, refl, inl, inr, true, false, Bool, List, [], ◌∷◌, ◌++◌, arith}
use acheron_arm.Tool.Text.{Text, Outcome, returns, throws, undefined_behaviour, ◌>>=◌, stoi}
use acheron_arm.Tool.Args.{
  Config, Message, informs, binary, takes, switches, Valued, env, rootfs, memory, cpus, Switch,
  memory_of, branch_of, set_value, set_switch, accept, Parsed, refused, parse_from,
}
use acheron_arm.Tool.Reads.{
  done, outcome_cases, Reaches, Reaches-switched, Reaches-valued, branch_cases, parse_from-informs,
  parse_from-binary, parse_from-switches, parse_from-takes,
}

-- The two ways not to return.
abbrev pub fails : {A : Type 0} → Bool → Outcome A
fails true = throws
fails false = undefined_behaviour

-- The number that the value of an option stands for.
pub number_of : Valued → Text → Outcome ℕ
number_of env value = returns 0
number_of rootfs value = returns 0
number_of memory value = memory_of value
number_of cpus value = stoi value

pub returns-fails : {A : Type 0} (b : Bool) (a : A) → returns a ≢ fails b
returns-fails true a e = ground arith
returns-fails false a e = ground arith

map-fails :
    {A B : Type 0} (b : Bool) (o : Outcome A) (f : A → B)
    → (do a ← o; returns (f a)) ≡ fails b
    → o ≡ fails b
map-fails b (returns a) f e = absurd (returns-fails b (f a) e)
map-fails true throws f e = refl
map-fails false throws f e = absurd (ground arith)
map-fails true undefined_behaviour f e = absurd (ground arith)
map-fails false undefined_behaviour f e = refl

set_value-number_of :
    (b : Bool) (o : Valued) (v : Text) (c : Config)
    → set_value o v c ≡ fails b
    → number_of o v ≡ fails b
unfolding set_value number_of
set_value-number_of b env v c e = absurd (returns-fails b _ e)
set_value-number_of b rootfs v c e = absurd (returns-fails b _ e)
set_value-number_of b memory v c e = map-fails b (memory_of v) _ e
set_value-number_of b cpus v c e = map-fails b (stoi v) _ e

-- At `rest`, with configuration `c`, the loop stops: at the help or the version, at the path, at
-- the end, at an option without its value, or at a value that cannot be read.
pub data Stops (c : Config) (rest : List Text) (result : Outcome Parsed) : Type 0 where
  informed :
      (word : Text) (words : List Text) (m : Message)
      → rest ≡ word ∷ words
      → branch_of word ≡ informs m
      → result ≡ returns (refused m c)
      → Stops c rest result
  at_path :
      (word : Text) (words : List Text)
      → rest ≡ word ∷ words
      → branch_of word ≡ binary
      → result ≡ returns (accept (record c { binary_path = word; args = c.args ++ words }))
      → Stops c rest result
  at_end : rest ≡ [] → result ≡ returns (accept c) → Stops c rest result
  at_option :
      (word : Text) (o : Valued)
      → rest ≡ word ∷ []
      → branch_of word ≡ takes o
      → result ≡ returns (accept c)
      → Stops c rest result
  at_value :
      (word value : Text) (words : List Text) (o : Valued) (throwing : Bool)
      → rest ≡ word ∷ value ∷ words
      → branch_of word ≡ takes o
      → number_of o value ≡ fails throwing
      → result ≡ fails throwing
      → Stops c rest result

abbrev pub Parses : Config → List Text → Outcome Parsed → Type 0
Parses c argv result =
    (k : Config) × (rest : List Text) × Reaches c argv k rest × Stops k rest result

here :
    (c : Config) (argv : List Text) (result : Outcome Parsed)
    → Stops c argv result
    → Parses c argv result
here c argv result s = (c, argv, record { options = []; read = done; parts = refl }, s)

after_switch :
    (c : Config) (word : Text) (argv : List Text) (o : Switch)
    → branch_of word ≡ switches o
    → Parses (set_switch o c) argv (parse_from (set_switch o c) argv)
    → Parses c (word ∷ argv) (parse_from c (word ∷ argv))
after_switch c word argv o e (k, rest, r, s) =
    rw (parse_from-switches word argv c o e) (k, rest, Reaches-switched c k word argv rest o e r, s)

lone :
    (word : Text) (c : Config) (o : Valued)
    → branch_of word ≡ takes o
    → parse_from c (word ∷ []) ≡ returns (accept c)
unfolding parse_from
lone word c o e = ground arith

unread :
    (b : Bool) (word value : Text) (rest : List Text) (c : Config) (o : Valued)
    → branch_of word ≡ takes o
    → set_value o value c ≡ fails b
    → parse_from c (word ∷ value ∷ rest) ≡ fails b
unfolding parse_from
unread true word value rest c o e f = ground arith
unread false word value rest c o e f = ground arith

after_value :
    (c : Config) (word value : Text) (argv : List Text) (o : Valued)
    → branch_of word ≡ takes o
    → ((d : Config) → Parses d argv (parse_from d argv))
    → Parses c (word ∷ value ∷ argv) (parse_from c (word ∷ value ∷ argv))
after_value c word value argv o e next =
    let stop : (b : Bool) → set_value o value c ≡ fails b → Parses c (word ∷ value ∷ argv) _ =
      λ b f. here c (word ∷ value ∷ argv) _ (
        at_value word value argv o b refl e (set_value-number_of b o value c f)
          (unread b word value argv c o e f)) in
    elim (outcome_cases (set_value o value c)) [
      | inl (d, f) ↦
          let (k, rest, r, s) = next d in
          rw (parse_from-takes word value argv c d o e f)
            (k, rest, Reaches-valued c d k word value argv rest o e f r, s)
      | inr (inl f) ↦ stop true f
      | inr (inr f) ↦ stop false f
    ]

-- A word, whatever follows it, given what happens where it takes a value.
after_word :
    (c : Config) (word : Text) (argv : List Text)
    → ((d : Config) → Parses d argv (parse_from d argv))
    → ((o : Valued)
        → branch_of word ≡ takes o
        → Parses c (word ∷ argv) (parse_from c (word ∷ argv)))
    → Parses c (word ∷ argv) (parse_from c (word ∷ argv))
after_word c word argv next value = elim (branch_cases (branch_of word)) [
  | inl (inl (m, e)) ↦
      here c (word ∷ argv) _ (informed word argv m refl e (parse_from-informs word argv c m e))
  | inl (inr e) ↦
      here c (word ∷ argv) _ (at_path word argv refl e (parse_from-binary word argv c e))
  | inr (inl (o, e)) ↦ value o e
  | inr (inr (o, e)) ↦ after_switch c word argv o e (next (set_switch o c))
]

-- Every command line is options and a place where the loop stops.
pub parse_from-Stops : (argv : List Text) (c : Config) → Parses c argv (parse_from c argv)
parse_from-Stops [] c = here c [] _ (at_end refl (unfold parse_from in refl))
parse_from-Stops (word ∷ []) c =
    after_word c word [] (λ d. parse_from-Stops [] d)
      (λ o e. here c (word ∷ []) _ (at_option word o refl e (lone word c o e)))
parse_from-Stops (word ∷ value ∷ rest) c =
    after_word c word (value ∷ rest) (λ d. parse_from-Stops (value ∷ rest) d)
      (λ o e. after_value c word value rest o e (λ d. parse_from-Stops rest d))
