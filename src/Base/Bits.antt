-- ===== src/Base/Bits.antt =====
-- `&` and `|` of words that are cut at a bit position, at every width, and what follows for the
-- masks of the source: low masks, high masks and a tag above an address.
mod Step
use Step.{bit_and_step, bit_or_step}
use mathlib.Core.Path.{◌≡◌, refl, ap, ◌∙◌}
use native.Mathlib.Nat.{pow-suc, one-le-pow, add-zero, add-suc, mul_assoc}
use native.Mathlib.Omega.{arith}
use Prim.Native.Nat.{
  ℕ, zero, suc, ◌+◌, ◌-◌, ◌*◌, ◌/◌, ◌%◌, ◌^◌, ◌≤◌, ◌<◌, bit_and, bit_or, min, max, bit_or-bitwise,
}

double : (q k : ℕ) → q * 2 ^ suc k ≡ 2 * (q * 2 ^ k)
double q k = omega (arith, ap (λ (t : ℕ). q * t) (pow-suc 2 k))

pub two-pow-add : (j k : ℕ) → 2 ^ (j + k) ≡ 2 ^ j * 2 ^ k
two-pow-add j zero = rw add-zero (omega arith)
two-pow-add j (suc k) =
    rw (add-suc j k, pow-suc 2 (j + k), pow-suc 2 k, two-pow-add j k) (mul_assoc (2 ^ j) (2 ^ k) 2)

-- By recursion on a bound of the operand, which is halved.
bit_and-zero_below : (n a : ℕ) → a ≤ n → bit_and a 0 ≡ 0
bit_and-zero_below n zero h = refl
bit_and-zero_below zero (suc a) h = absurd (omega arith)
bit_and-zero_below (suc n) (suc a) h =
    omega (arith, bit_and_step (suc a) 0, bit_and-zero_below n (suc a / 2) (omega arith))

pub bit_and-zero : (a : ℕ) → bit_and a 0 ≡ 0
bit_and-zero a = bit_and-zero_below a a (omega arith)

pub bit_or-zero : (k a : ℕ) → a < 2 ^ k → bit_or a 0 ≡ a
bit_or-zero zero a h = ground arith
bit_or-zero (suc k) a h =
    omega (arith, bit_or_step a 0, pow-suc 2 k, bit_or-zero k (a / 2) (omega (arith, pow-suc 2 k)))

pub zero-bit_or : (b : ℕ) → bit_or 0 b ≡ b
zero-bit_or b = bit_or-bitwise 0 b

pub bit_or-lt : (k a b : ℕ) → a < 2 ^ k → b < 2 ^ k → bit_or a b < 2 ^ k
bit_or-lt zero a b p q = ground arith
bit_or-lt (suc k) a b p q = omega (
  arith,
  bit_or_step a b,
  pow-suc 2 k,
  bit_or-lt k (a / 2) (b / 2) (omega (arith, pow-suc 2 k)) (omega (arith, pow-suc 2 k)),
)

-- A word halved: one bit less below the cut.
halve : (a k c : ℕ) → (a * 2 ^ suc k + c) / 2 ≡ a * 2 ^ k + c / 2
halve a k c = omega (arith, double a k)

halve_digit : (a k c : ℕ) → (a * 2 ^ suc k + c) % 2 ≡ c % 2
halve_digit a k c = omega (arith, double a k)

module _ (a b : ℕ) where
  -- Both operands are cut at bit `k`: the parts are met separately.
  pub bit_and_split :
      (k c d : ℕ)
      → c < 2 ^ k
      → d < 2 ^ k
      → bit_and (a * 2 ^ k + c) (b * 2 ^ k + d) ≡ bit_and a b * 2 ^ k + bit_and c d
  bit_and_split zero c d p q = ground arith
  bit_and_split (suc k) c d p q = ground (
    arith,
    bit_and_step (a * 2 ^ suc k + c) (b * 2 ^ suc k + d),
    bit_and_step c d,
    halve a k c,
    halve b k d,
    halve_digit a k c,
    halve_digit b k d,
    double (bit_and a b) k,
    pow-suc 2 k,
    bit_and_split k (c / 2) (d / 2),
  )

  pub bit_or_split :
      (k c d : ℕ)
      → c < 2 ^ k
      → d < 2 ^ k
      → bit_or (a * 2 ^ k + c) (b * 2 ^ k + d) ≡ bit_or a b * 2 ^ k + bit_or c d
  bit_or_split zero c d p q = ground arith
  bit_or_split (suc k) c d p q = ground (
    arith,
    bit_or_step (a * 2 ^ suc k + c) (b * 2 ^ suc k + d),
    bit_or_step c d,
    halve a k c,
    halve b k d,
    halve_digit a k c,
    halve_digit b k d,
    double (bit_or a b) k,
    pow-suc 2 k,
    bit_or_split k (c / 2) (d / 2),
  )

bit_and-ones : (k c : ℕ) → c < 2 ^ k → bit_and c (2 ^ k - 1) ≡ c
bit_and-ones zero c h = ground arith
bit_and-ones (suc k) c h =
    ground
      (arith, bit_and_step c (2 ^ suc k - 1), pow-suc 2 k, one-le-pow k 2, bit_and-ones k (c / 2))

-- `a & (2^k - 1)` is a remainder.
pub bit_and-low : (k a : ℕ) → bit_and a (2 ^ k - 1) ≡ a % 2 ^ k
bit_and-low k a = ground (
  arith,
  one-le-pow k 2,
  bit_and_split (a / 2 ^ k) 0 k (a % 2 ^ k) (2 ^ k - 1),
  bit_and-ones k (a % 2 ^ k),
  bit_and-zero (a / 2 ^ k),
)

-- A mask whose `k` low bits are clear drops the `k` low bits.
bit_and-high : (k m a : ℕ) → bit_and a (m * 2 ^ k) ≡ bit_and (a / 2 ^ k) m * 2 ^ k
bit_and-high k m a =
    ground
      (arith, one-le-pow k 2, bit_and_split (a / 2 ^ k) m k (a % 2 ^ k) 0, bit_and-zero (a % 2 ^ k))

-- A mask of `l` ones above `k` zeros only clears the `k` low bits of a word of `k + l` bits.
pub bit_and-window :
    (k l a : ℕ) → a / 2 ^ k < 2 ^ l → bit_and a ((2 ^ l - 1) * 2 ^ k) ≡ a / 2 ^ k * 2 ^ k
bit_and-window k l a h =
    bit_and-high k (2 ^ l - 1) a ∙ ap (λ x. x * 2 ^ k) (bit_and-ones l (a / 2 ^ k) h)

-- `x | (t << k)` on disjoint parts is a sum.
pub bit_or_tag : (k x t : ℕ) → x < 2 ^ k → bit_or x (t * 2 ^ k) ≡ t * 2 ^ k + x
bit_or_tag k x t h =
    ground (arith, one-le-pow k 2, bit_or_split 0 t k x 0, bit_or-zero k x, zero-bit_or t)

-- All ones absorb under `|`.
pub ones-bit_or : (k a : ℕ) → a < 2 ^ k → bit_or (2 ^ k - 1) a ≡ 2 ^ k - 1
ones-bit_or zero a h = ground arith
ones-bit_or (suc k) a h =
    ground
      (arith, bit_or_step (2 ^ suc k - 1) a, pow-suc 2 k, one-le-pow k 2, ones-bit_or k (a / 2))
