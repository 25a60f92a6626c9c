-- ===== src/Tool/Stream.antt =====
-- `std::cout` as far as tools/acheron.cpp uses it: texts, unsigned and signed numbers, and the
-- manipulators `std::hex` and `std::dec`, which last until the next one.
use acheron_arm.Base.{
  ℕ, zero, suc, ◌+◌, ◌-◌, ◌/◌, ◌%◌, ◌^◌, ltb, List, [], ◌∷◌, ◌++◌, if◌then◌else◌, codes,
}
use acheron_arm.Tool.Text.{Text}

-- What is put into the stream. An `int` is given by its 32 bits.
pub data Item : Type 0 where
  text : Text → Item
  number int : ℕ → Item
  hex dec : Item

-- The digits of a number, the first one first, in at most `fuel` places.
unfoldable pub digits : ℕ → ℕ → ℕ → List ℕ
digits zero radix n = []
digits (suc fuel) radix n =
    let rest = digits fuel radix (n / radix) in
    if ltb n radix then n ∷ [] else rest ++ (n % radix ∷ [])

unfoldable pub digit_char : ℕ → ℕ
digit_char d = if ltb d 10 then d + 48 else d + 87

unfoldable pub to_text : List ℕ → Text
unfolding digit_char
to_text [] = []
to_text (d ∷ ds) = digit_char d ∷ to_text ds

-- A number below 2 ^ 64 has at most 20 decimal digits, and 16 hexadecimal ones.
unfoldable pub number_text : ℕ → ℕ → Text
number_text radix n = to_text (digits 20 radix n)

-- A negative `int` is shown with its sign in decimal, and by its bits in hexadecimal.
unfoldable pub int_text : ℕ → ℕ → Text
int_text radix n =
    if ltb radix 16
    then (if ltb n (2 ^ 31) then number_text radix n else 45 ∷ number_text radix (2 ^ 32 - n))
    else number_text radix n

-- The text that some items give, for the radix that is set.
unfoldable pub print : ℕ → List Item → Text
print radix [] = []
print radix (text t ∷ items) = t ++ print radix items
print radix (number n ∷ items) = number_text radix n ++ print radix items
print radix (int n ∷ items) = int_text radix n ++ print radix items
print radix (hex ∷ items) = print 16 items
print radix (dec ∷ items) = print 10 items

-- `std::endl`
abbrev pub endl : Item
endl = text (codes "\n")
