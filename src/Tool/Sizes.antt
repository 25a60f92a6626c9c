-- ===== src/Tool/Sizes.antt =====
-- What `-m` makes of a decimal number with a unit.
use acheron_arm.Base.{
  ℕ, suc, ◌+◌, ◌-◌, ◌*◌, ◌%◌, ◌^◌, ◌<◌, ◌≡◌, refl, ap, true, false, List, [], ◌∷◌, ◌++◌, All, arith,
  length,
}
use acheron_arm.Tool.Text.{
  Text, returns, back, pop_back, is_digit, is_space, skip_spaces, scan, unsigned, signed, stoull,
}
use acheron_arm.Tool.Args.{memory_of}

-- A decimal number by its digits, and its text.
abbrev pub AreDigits : List ℕ → Type 0
AreDigits ds = All (λ d. d < 10) ds

unfoldable pub value_of : List ℕ → ℕ
value_of [] = 0
value_of (d ∷ ds) = d * 10 ^ length ds + value_of ds

unfoldable pub text_of : List ℕ → Text
text_of [] = []
text_of (d ∷ ds) = (d + 48) ∷ text_of ds

pub scan_digit : (n d : ℕ) (s : Text) → d < 10 → scan n ((d + 48) ∷ s) ≡ scan (n * 10 + d) s
unfolding scan
scan_digit n d s h =
    let digit : is_digit (d + 48) ≡ true = unfold is_digit in ground (arith, h) in
    let back : d + 48 - 48 ≡ d = omega arith in rw (digit, back) refl

pub place : (n d l : ℕ) → (n * 10 + d) * 10 ^ l ≡ n * 10 ^ suc l + d * 10 ^ l
place n d l = let p : 10 ^ suc l ≡ 10 * 10 ^ l = omega arith in rw p (omega arith)

-- The conversion reads the digits and stops at a unit.
pub scan-text_of :
    (n unit : ℕ) (ds : List ℕ)
    → AreDigits ds
    → is_digit unit ≡ false
    → (scan n (text_of ds) ≡ n * 10 ^ length ds + value_of ds)
      × (scan n (text_of ds ++ (unit ∷ [])) ≡ n * 10 ^ length ds + value_of ds)
unfolding text_of value_of
scan-text_of n unit [] h u = (unfold scan in omega arith, unfold scan in ground arith)
scan-text_of n unit (d ∷ ds) h u =
    let rest = scan-text_of (n * 10 + d) unit ds h.1 u in
    let sum = place n d (length ds) in
    (
      omega (arith, rest.0, scan_digit n d (text_of ds) h.0, sum),
      omega (arith, rest.1, scan_digit n d (text_of ds ++ (unit ∷ [])) h.0, sum),
    )

back-append : (s : Text) (c : ℕ) → back (s ++ (c ∷ [])) ≡ returns c
unfolding back
back-append [] c = refl
back-append (b ∷ []) c = refl
back-append (b ∷ a ∷ s) c = back-append (a ∷ s) c

pop_back-append : (s : Text) (c : ℕ) → pop_back (s ++ (c ∷ [])) ≡ s
unfolding pop_back
pop_back-append [] c = refl
pop_back-append (b ∷ []) c = refl
pop_back-append (b ∷ a ∷ s) c = ap (λ t. b ∷ t) (pop_back-append (a ∷ s) c)

-- A decimal number ends in a digit.
back-text_of :
    (d : ℕ) (ds : List ℕ)
    → AreDigits (d ∷ ds)
    → (c : ℕ) × (back (text_of (d ∷ ds)) ≡ returns c) × (is_digit c ≡ true)
unfolding back text_of is_digit
back-text_of d [] h = (d + 48, refl, ground (arith, h))
back-text_of d (e ∷ ds) h = back-text_of e ds h.1

pub stoull-text_of :
    (d : ℕ) (ds : List ℕ)
    → AreDigits (d ∷ ds)
    → value_of (d ∷ ds) < 2 ^ 64
    → stoull (text_of (d ∷ ds)) ≡ returns (value_of (d ∷ ds))
unfolding stoull signed unsigned skip_spaces is_space text_of is_digit
stoull-text_of d ds h v = ground (arith, h, (scan-text_of 0 0 (d ∷ ds) h refl).0)

-- `-m` on a decimal number below 2 ^ 64 (without a sign, with any leading zeros): the number, or
-- with M or m at its end 2 ^ 20 times the number, or with G or g 2 ^ 30 times, modulo 2 ^ 64.
pub memory_of-text_of :
    (d : ℕ) (ds : List ℕ)
    → AreDigits (d ∷ ds)
    → value_of (d ∷ ds) < 2 ^ 64
    → let number = text_of (d ∷ ds) in
      let v = value_of (d ∷ ds) in
      (memory_of number ≡ returns v)
      × (memory_of (number ++ (77 ∷ [])) ≡ returns (v * 2 ^ 20 % 2 ^ 64))
      × (memory_of (number ++ (109 ∷ [])) ≡ returns (v * 2 ^ 20 % 2 ^ 64))
      × (memory_of (number ++ (71 ∷ [])) ≡ returns (v * 2 ^ 30 % 2 ^ 64))
      × (memory_of (number ++ (103 ∷ [])) ≡ returns (v * 2 ^ 30 % 2 ^ 64))
unfolding memory_of is_digit
memory_of-text_of d ds h v =
    let number = text_of (d ∷ ds) in
    let n = stoull-text_of d ds h v in
    let last = back-text_of d ds h in
    (
      rw (last.1) (ground (arith, n, last.2)),
      rw (back-append number 77, pop_back-append number 77, n) refl,
      rw (back-append number 109, pop_back-append number 109, n) refl,
      rw (back-append number 71, pop_back-append number 71, n) refl,
      rw (back-append number 103, pop_back-append number 103, n) refl,
    )
