-- ===== src/Tool/Dump.antt =====
-- What the runner prints with `--show-registers`.
use acheron_arm.Base.{ℕ, codes, ◌≡◌, refl, sym, ap, ◌∙◌, true, Option, List, [], ◌∷◌, ◌++◌, arith}
use mathlib.Core.List.{append_assoc}
use acheron_arm.Registers.{SystemRegisterState, reset}
use acheron_arm.Tool.Text.{Text, returns}
use acheron_arm.Tool.Args.{Config, accepted, parse_args}
use acheron_arm.Tool.Elf.{load_elf}
use acheron_arm.Tool.Stream.{
  Item, text, number, int, hex, dec, print, number_text, int_text, to_text, digits, digit_char,
}
use acheron_arm.Tool.Program.{main, register_dump, sysreg, debug_config, debug_elf, banner, when}

-- The radix that some items leave.
unfoldable radix_after : ℕ → List Item → ℕ
radix_after radix [] = radix
radix_after radix (hex ∷ items) = radix_after 16 items
radix_after radix (dec ∷ items) = radix_after 10 items
radix_after radix (_ ∷ items) = radix_after radix items

print-append :
    (radix : ℕ) (a b : List Item)
    → print radix (a ++ b) ≡ print radix a ++ print (radix_after radix a) b
unfolding print radix_after
print-append radix [] b = refl
print-append radix (text t ∷ a) b =
    ap (λ u. t ++ u) (print-append radix a b) ∙ sym (append_assoc t (print radix a) _)
print-append radix (number n ∷ a) b =
    ap (λ u. number_text radix n ++ u) (print-append radix a b)
    ∙ sym (append_assoc (number_text radix n) (print radix a) _)
print-append radix (int n ∷ a) b =
    ap (λ u. int_text radix n ++ u) (print-append radix a b)
    ∙ sym (append_assoc (int_text radix n) (print radix a) _)
print-append radix (hex ∷ a) b = print-append 16 a b
print-append radix (dec ∷ a) b = print-append 10 a b

-- The register dump of the runner.
abbrev pub dump_text : Text
dump_text =
    codes "Initial Register State:\n"
    ++ (codes "  SCTLR_EL1: 0xc50838\n"
        ++ (codes "  TCR_EL1:   0x0\n"
            ++ (codes "  TTBR0_EL1: 0x0\n"
                ++ (codes "  TTBR1_EL1: 0x0\n"
                    ++ (codes "  MPIDR_EL1: 0x2147483648\n"
                        ++ codes "  MIDR_EL1:  0x1628373536\n")))))

register_dump_lem :
    (radix : ℕ) (uninitialised : SystemRegisterState)
    → print radix (register_dump (sysreg uninitialised)) ≡ dump_text
unfolding print register_dump number_text to_text digits digit_char reset
register_dump_lem radix uninitialised = refl

-- Items before the dump, in three parts.
print-dump :
    (a b c : List Item) (uninitialised : SystemRegisterState)
    → (before : Text) × (print 10 (a ++ (b ++ (c ++ register_dump (sysreg uninitialised))))
        ≡ before ++ dump_text)
print-dump a b c uninitialised =
    let whole = a ++ (b ++ c) in
    let dump = register_dump (sysreg uninitialised) in
    let parts : a ++ (b ++ (c ++ dump)) ≡ whole ++ dump =
      ap (λ t. a ++ t) (sym (append_assoc b c dump)) ∙ sym (append_assoc a (b ++ c) dump) in
    (
      print 10 whole,
      ap (print 10) parts
          ∙ (print-append 10 whole dump
              ∙ ap (λ t. print 10 whole ++ t)
                  (register_dump_lem (radix_after 10 whole) uninitialised)),
    )

-- A command line that is accepted with `--show-registers`, for a file that is taken, prints the
-- reset values of six registers at the end, whatever the memory of the emulator held. All are shown
-- behind 0x, but only SCTLR_EL1 in hexadecimal: MPIDR_EL1, 0x80000000, is shown as 0x2147483648, and
-- MIDR_EL1, 0x610F0220, as 0x1628373536.
pub main-dump :
    (default_memory : ℕ) (files : Text → Option (List ℕ)) (stale : ℕ → ℕ)
    (uninitialised : SystemRegisterState) (program : Text) (argv : List Text) (config : Config)
    (out : Text)
    → parse_args default_memory argv ≡ returns (accepted config)
    → config.show_registers ≡ true
    → main default_memory files stale uninitialised program argv ≡ returns (0, out)
    → (before : Text) × (out ≡ before ++ dump_text)
unfolding main
main-dump default_memory files stale uninitialised program argv config out p s e =
    let elf = load_elf stale (files config.binary_path) in
    let early = when config.debug (debug_config config) in
    let (before, known) =
      print-dump early (when config.debug (debug_elf elf)) (banner config elf) uninitialised in
    (before, ground (arith, known))
