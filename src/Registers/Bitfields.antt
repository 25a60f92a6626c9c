-- ===== src/Registers/Bitfields.antt =====
-- Consecutive bit-fields of a 64-bit unit, allocated from bit 0 upwards, as the common C++ ABIs
-- do on little-endian hosts. A layout is the list of widths in the order of declaration.
use acheron_arm.Base.{
  ℕ, zero, suc, ◌+◌, ◌*◌, ◌/◌, ◌%◌, ◌^◌, ◌<◌, ◌≡◌, ◌≢◌, refl, ◌∙◌, List, [], ◌∷◌, arith,
}
use native.Mathlib.Nat.{
  one-le-pow, mul-add-div_right, div-eq_of_lt, mul-add-mod_self_right, mod-eq_of_lt,
}

-- Field `i` of a word; a field beyond the layout reads 0.
abbrev pub bit_field : List ℕ → ℕ → ℕ → ℕ
bit_field [] i v = 0
bit_field (w ∷ ws) zero v = v % 2 ^ w
bit_field (w ∷ ws) (suc i) v = bit_field ws i (v / 2 ^ w)

-- The word after `field i = x`: `x` is cut to the field's width, the other bits stay.
abbrev pub set_bit_field : List ℕ → ℕ → ℕ → ℕ → ℕ
set_bit_field [] i x v = v
set_bit_field (w ∷ ws) zero x v = v / 2 ^ w * 2 ^ w + x % 2 ^ w
set_bit_field (w ∷ ws) (suc i) x v = set_bit_field ws i x (v / 2 ^ w) * 2 ^ w + v % 2 ^ w

-- All fields of a word, lowest first.
abbrev pub all_fields : List ℕ → ℕ → List ℕ
all_fields [] v = []
all_fields (w ∷ ws) v = v % 2 ^ w ∷ all_fields ws (v / 2 ^ w)

-- The word with given fields.
abbrev pub from_fields : List ℕ → List ℕ → ℕ
from_fields [] fs = 0
from_fields (w ∷ ws) [] = 0
from_fields (w ∷ ws) (f ∷ fs) = from_fields ws fs * 2 ^ w + f

-- The number of bits that a layout takes.
abbrev pub total_width : List ℕ → ℕ
total_width [] = 0
total_width (w ∷ ws) = w + total_width ws

-- The first bit of each field.
abbrev pub first_bits : ℕ → List ℕ → List ℕ
first_bits n [] = []
first_bits n (w ∷ ws) = n ∷ first_bits (n + w) ws

-- One past the largest value of a layout.
abbrev pub capacity : List ℕ → ℕ
capacity [] = 1
capacity (w ∷ ws) = capacity ws * 2 ^ w

div_below : (n m v : ℕ) → v < n * m → 0 < m → v / m < n
div_below n m v h p = grind arith

cut_above : (a c m : ℕ) → c < m → (a * m + c) / m ≡ a
cut_above a c m h = omega (arith, mul-add-div_right {m = m} (omega arith) a c, div-eq_of_lt h)

cut_below : (a c m : ℕ) → c < m → (a * m + c) % m ≡ c
cut_below a c m h = mul-add-mod_self_right a m c ∙ mod-eq_of_lt h

pub from_fields-all_fields :
    (ws : List ℕ) (v : ℕ) → v < capacity ws → from_fields ws (all_fields ws v) ≡ v
from_fields-all_fields [] v h = omega arith
from_fields-all_fields (w ∷ ws) v h = ground (
  arith,
  one-le-pow w 2,
  div_below (capacity ws) (2 ^ w) v,
  from_fields-all_fields ws (v / 2 ^ w),
)

abbrev pub width_of : List ℕ → ℕ → ℕ
width_of [] i = 0
width_of (w ∷ ws) zero = w
width_of (w ∷ ws) (suc i) = width_of ws i

-- The value read back is cut to the field's width.
pub bit_field-set_self :
    (ws : List ℕ) (i x v : ℕ) → bit_field ws i (set_bit_field ws i x v) ≡ x % 2 ^ width_of ws i
bit_field-set_self [] i x v = omega arith
bit_field-set_self (w ∷ ws) zero x v =
    ground (arith, one-le-pow w 2, cut_below (v / 2 ^ w) (x % 2 ^ w) (2 ^ w))
bit_field-set_self (w ∷ ws) (suc i) x v = ground (
  arith,
  one-le-pow w 2,
  cut_above (set_bit_field ws i x (v / 2 ^ w)) (v % 2 ^ w) (2 ^ w),
  bit_field-set_self ws i x (v / 2 ^ w),
)

-- The other fields stay.
pub bit_field-set_ne :
    (ws : List ℕ) (i j x v : ℕ) → i ≢ j → bit_field ws j (set_bit_field ws i x v) ≡ bit_field ws j v
bit_field-set_ne [] i j x v h = refl
bit_field-set_ne (w ∷ ws) zero zero x v h = absurd (h refl)
bit_field-set_ne (w ∷ ws) zero (suc j) x v h =
    ground (arith, one-le-pow w 2, cut_above (v / 2 ^ w) (x % 2 ^ w) (2 ^ w))
bit_field-set_ne (w ∷ ws) (suc i) zero x v h =
    ground (arith, one-le-pow w 2, cut_below (set_bit_field ws i x (v / 2 ^ w)) (v % 2 ^ w) (2 ^ w))
bit_field-set_ne (w ∷ ws) (suc i) (suc j) x v h = ground (
  arith,
  one-le-pow w 2,
  cut_above (set_bit_field ws i x (v / 2 ^ w)) (v % 2 ^ w) (2 ^ w),
  bit_field-set_ne ws i j x (v / 2 ^ w),
)
