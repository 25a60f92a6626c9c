-- ===== src/Tool/Text.antt =====
-- Strings as lists of bytes, and what the runner uses of the standard library: `std::string` and
-- the conversions `std::stoull` and `std::stoi`, for 64-bit `unsigned long long` and 32-bit `int`.
use acheron_arm.Base.{
  ℕ, ◌+◌, ◌-◌, ◌*◌, ◌%◌, ◌^◌, Bool, true, false, ◌&&◌, ◌||◌, ◌==◌, leb, ltb, Option, none, some,
  List, [], ◌∷◌, if◌then◌else◌, sub64,
}

abbrev pub Text : Type 0
Text = List ℕ

-- A call that returns, throws, or is undefined.
pub data Outcome (A : Type 0) : Type 0 where
  returns : A → Outcome A
  throws undefined_behaviour : Outcome A

infixl 5 ◌>>=◌
abbrev pub ◌>>=◌ : {A B : Type 0} → Outcome A → (A → Outcome B) → Outcome B
returns a >>= f = f a
throws >>= f = throws
undefined_behaviour >>= f = undefined_behaviour

-- `==` of strings
unfoldable pub same_text : Text → Text → Bool
same_text [] [] = true
same_text [] (d ∷ t) = false
same_text (c ∷ s) [] = false
same_text (c ∷ s) (d ∷ t) = c == d && same_text s t

abbrev pub is_empty : Text → Bool
is_empty [] = true
is_empty (c ∷ s) = false

-- `back()` is undefined on an empty string.
unfoldable pub back : Text → Outcome ℕ
back [] = undefined_behaviour
back (c ∷ []) = returns c
back (c ∷ d ∷ s) = back (d ∷ s)

unfoldable pub pop_back : Text → Text
pop_back [] = []
pop_back (c ∷ []) = []
pop_back (c ∷ d ∷ s) = c ∷ pop_back (d ∷ s)

unfoldable pub is_digit : ℕ → Bool
is_digit c = leb 48 c && leb c 57

-- `isspace` of the "C" locale
unfoldable pub is_space : ℕ → Bool
is_space c = c == 32 || leb 9 c && leb c 13

unfoldable pub skip_spaces : Text → Text
skip_spaces [] = []
skip_spaces (c ∷ s) = let rest = skip_spaces s in if is_space c then rest else c ∷ s

-- The digits at the front, as a decimal number; what follows them is ignored.
unfoldable pub scan : ℕ → Text → ℕ
scan n [] = n
scan n (c ∷ s) = let rest = scan (n * 10 + (c - 48)) s in if is_digit c then rest else n

-- No conversion without a digit.
unfoldable pub unsigned : Text → Option ℕ
unsigned [] = none
unsigned (c ∷ s) = if is_digit c then some (scan 0 (c ∷ s)) else none

-- Whether there is a minus sign, and the number.
unfoldable pub signed : Text → Bool × Option ℕ
signed [] = (false, none)
signed (c ∷ s) =
    if c == 45
    then (true, unsigned s)
    else if c == 43
    then (false, unsigned s)
    else (false, unsigned (c ∷ s))

-- A minus sign negates modulo 2 ^ 64.
unfoldable pub stoull : Text → Outcome ℕ
unfolding signed
stoull s =
    let n = signed (skip_spaces s) in
    elim n.1 [
      | none ↦ throws
      | some v ↦ if ltb v (2 ^ 64) then returns (if n.0 then sub64 0 v else v) else throws
    ]

-- An `int` by its 32-bit two's complement.
unfoldable pub stoi : Text → Outcome ℕ
unfolding signed
stoi s =
    let n = signed (skip_spaces s) in
    elim n.1 [
      | none ↦ throws
      | some v ↦
          if n.0
          then (if leb v (2 ^ 31) then returns ((2 ^ 32 - v) % 2 ^ 32) else throws)
          else (if ltb v (2 ^ 31) then returns v else throws)
    ]
