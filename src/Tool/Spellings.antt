-- ===== src/Tool/Spellings.antt =====
-- The words by which the parser takes each branch of its loop body.
use acheron_arm.Base.{
  codes, ◌≡◌, ◌↔◌, refl, ap, inl, inr, true, false, Bool, ◌||◌, List, [], ◌∷◌, arith, Bool-cases,
  ◌⊎◌,
}
use acheron_arm.Tool.Text.{Text, same_text}
use acheron_arm.Tool.Args.{
  Branch, informs, binary, takes, switches, help, version, no_binary, env, rootfs, memory, cpus,
  debug, trace_syscalls, trace_memory, show_registers, unknown_option, branch_of, starts_with_dash,
}

abbrev pub IsOneOf : Text → List Text → Type 0
IsOneOf word [] = ⊥
IsOneOf word (t ∷ ts) = (word ≡ t) ⊎ IsOneOf word ts

unfoldable pub is_listed : Text → List Text → Bool
is_listed t [] = false
is_listed t (w ∷ ws) = same_text t w || is_listed t ws

same_text_refl : (s : Text) → same_text s s ≡ true
unfolding same_text
same_text_refl [] = refl
same_text_refl (c ∷ s) = ground (arith, same_text_refl s)

same_text-true : (s t : Text) → same_text s t ≡ true → s ≡ t
unfolding same_text
same_text-true [] [] e = refl
same_text-true [] (d ∷ t) e = absurd (ground arith)
same_text-true (c ∷ s) [] e = absurd (ground arith)
same_text-true (c ∷ s) (d ∷ t) e = elim (Bool-cases (same_text s t)) [
  | inl same ↦ let tail = same_text-true s t same in ground arith
  | inr other ↦ absurd (ground arith)
]

is_listed-IsOneOf : (s : Text) (ts : List Text) → is_listed s ts ≡ true → IsOneOf s ts
unfolding is_listed
is_listed-IsOneOf s [] e = absurd (ground arith)
is_listed-IsOneOf s (t ∷ ts) e = elim (Bool-cases (same_text s t)) [
  | inl same ↦ inl (same_text-true s t same)
  | inr other ↦ inr (is_listed-IsOneOf s ts (ground arith))
]

IsOneOf-is_listed : (s : Text) (ts : List Text) → IsOneOf s ts → is_listed s ts ≡ true
unfolding is_listed
IsOneOf-is_listed s [] h = absurd h
IsOneOf-is_listed s (t ∷ ts) (inl e) = rw e (ground (arith, same_text_refl t))
IsOneOf-is_listed s (t ∷ ts) (inr h) = ground (arith, IsOneOf-is_listed s ts h)

-- The words of a branch.
unfoldable pub spellings : Branch → List Text
spellings (informs help) = codes "-h" ∷ codes "--help" ∷ []
spellings (informs version) = codes "-v" ∷ codes "--version" ∷ []
spellings (takes env) = codes "-e" ∷ codes "--env" ∷ []
spellings (takes rootfs) = codes "-r" ∷ codes "--rootfs" ∷ []
spellings (takes memory) = codes "-m" ∷ codes "--memory" ∷ []
spellings (takes cpus) = codes "-c" ∷ codes "--cpus" ∷ []
spellings (switches debug) = codes "-d" ∷ codes "--debug" ∷ []
spellings (switches trace_syscalls) = codes "--trace-syscalls" ∷ []
spellings (switches trace_memory) = codes "--trace-memory" ∷ []
spellings (switches show_registers) = codes "--show-registers" ∷ []
spellings _ = []

-- All of them.
abbrev pub known_words : List Text
known_words =
    codes "-h"
    ∷ codes "--help"
    ∷ codes "-v"
    ∷ codes "--version"
    ∷ codes "-e"
    ∷ codes "--env"
    ∷ codes "-r"
    ∷ codes "--rootfs"
    ∷ codes "-m"
    ∷ codes "--memory"
    ∷ codes "-c"
    ∷ codes "--cpus"
    ∷ codes "-d"
    ∷ codes "--debug"
    ∷ codes "--trace-syscalls"
    ∷ codes "--trace-memory"
    ∷ codes "--show-registers"
    ∷ []

-- Which words are for a branch: the path has no dash in front, and an unknown option has one and is
-- none of the known words.
unfoldable pub Spelled : Text → Branch → Type 0
Spelled word binary = starts_with_dash word ≡ false
Spelled word (switches unknown_option) =
    (starts_with_dash word ≡ true) × (IsOneOf word known_words → ⊥)
Spelled word b = IsOneOf word (spellings b)

pub branch_of-Spelled : (word : Text) (b : Branch) → branch_of word ≡ b → Spelled word b
unfolding branch_of is_listed spellings Spelled
branch_of-Spelled word (informs help) e =
    is_listed-IsOneOf word (spellings (informs help)) (ground arith)
branch_of-Spelled word (informs version) e =
    is_listed-IsOneOf word (spellings (informs version)) (ground arith)
branch_of-Spelled word (informs no_binary) e = absurd (ground arith)
branch_of-Spelled word binary e = ground arith
branch_of-Spelled word (takes env) e = is_listed-IsOneOf word (spellings (takes env)) (ground arith)
branch_of-Spelled word (takes rootfs) e =
    is_listed-IsOneOf word (spellings (takes rootfs)) (ground arith)
branch_of-Spelled word (takes memory) e =
    is_listed-IsOneOf word (spellings (takes memory)) (ground arith)
branch_of-Spelled word (takes cpus) e =
    is_listed-IsOneOf word (spellings (takes cpus)) (ground arith)
branch_of-Spelled word (switches debug) e =
    is_listed-IsOneOf word (spellings (switches debug)) (ground arith)
branch_of-Spelled word (switches trace_syscalls) e =
    is_listed-IsOneOf word (spellings (switches trace_syscalls)) (ground arith)
branch_of-Spelled word (switches trace_memory) e =
    is_listed-IsOneOf word (spellings (switches trace_memory)) (ground arith)
branch_of-Spelled word (switches show_registers) e =
    is_listed-IsOneOf word (spellings (switches show_registers)) (ground arith)
branch_of-Spelled word (switches unknown_option) e =
    let unlisted : is_listed word known_words ≡ false = ground arith in
    (ground arith, λ h. let listed = IsOneOf-is_listed word known_words h in absurd (ground arith))

no_known :
    (word : Text)
    → starts_with_dash word ≡ true
    → is_listed word known_words ≡ false
    → branch_of word ≡ switches unknown_option
unfolding branch_of is_listed
no_known word e f = ground arith

pub Spelled-branch_of : (word : Text) (b : Branch) → Spelled word b → branch_of word ≡ b
unfolding branch_of is_listed spellings Spelled same_text starts_with_dash
Spelled-branch_of word (informs help) (inl e) = ap branch_of e
Spelled-branch_of word (informs help) (inr (inl e)) = ap branch_of e
Spelled-branch_of word (informs help) (inr (inr h)) = absurd h
Spelled-branch_of word (informs version) (inl e) = ap branch_of e
Spelled-branch_of word (informs version) (inr (inl e)) = ap branch_of e
Spelled-branch_of word (informs version) (inr (inr h)) = absurd h
Spelled-branch_of word (informs no_binary) h = absurd h
Spelled-branch_of [] binary h = refl
Spelled-branch_of (c ∷ s) binary h = ground arith
Spelled-branch_of word (takes env) (inl e) = ap branch_of e
Spelled-branch_of word (takes env) (inr (inl e)) = ap branch_of e
Spelled-branch_of word (takes env) (inr (inr h)) = absurd h
Spelled-branch_of word (takes rootfs) (inl e) = ap branch_of e
Spelled-branch_of word (takes rootfs) (inr (inl e)) = ap branch_of e
Spelled-branch_of word (takes rootfs) (inr (inr h)) = absurd h
Spelled-branch_of word (takes memory) (inl e) = ap branch_of e
Spelled-branch_of word (takes memory) (inr (inl e)) = ap branch_of e
Spelled-branch_of word (takes memory) (inr (inr h)) = absurd h
Spelled-branch_of word (takes cpus) (inl e) = ap branch_of e
Spelled-branch_of word (takes cpus) (inr (inl e)) = ap branch_of e
Spelled-branch_of word (takes cpus) (inr (inr h)) = absurd h
Spelled-branch_of word (switches debug) (inl e) = ap branch_of e
Spelled-branch_of word (switches debug) (inr (inl e)) = ap branch_of e
Spelled-branch_of word (switches debug) (inr (inr h)) = absurd h
Spelled-branch_of word (switches trace_syscalls) (inl e) = ap branch_of e
Spelled-branch_of word (switches trace_syscalls) (inr h) = absurd h
Spelled-branch_of word (switches trace_memory) (inl e) = ap branch_of e
Spelled-branch_of word (switches trace_memory) (inr h) = absurd h
Spelled-branch_of word (switches show_registers) (inl e) = ap branch_of e
Spelled-branch_of word (switches show_registers) (inr h) = absurd h
Spelled-branch_of word (switches unknown_option) h =
    elim (Bool-cases (is_listed word known_words)) [
      | inl listed ↦ absurd (h.1 (is_listed-IsOneOf word known_words listed))
      | inr other ↦ no_known word h.0 other
    ]

-- The parser takes a word for the help, the version, an option with a value or a switch exactly if
-- it is one of the words of that, for the path exactly if it does not begin with a dash, and for an
-- unknown option exactly if it begins with a dash and is none of those words.
pub branch_of-Spelled_iff : (word : Text) (b : Branch) → (branch_of word ≡ b) ↔ Spelled word b
branch_of-Spelled_iff word b = (branch_of-Spelled word b, Spelled-branch_of word b)
