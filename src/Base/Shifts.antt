-- ===== src/Base/Shifts.antt =====
-- Results of code that C++ may leave undefined: a shift by 64 or more, or by a negative count.
use Prim.Native.Nat.{ℕ, ◌^◌, ◌<◌, ◌≤◌}
use mathlib.Core.Bool.{true, false}
use mathlib.Core.Path.{◌≡◌, refl}
use mathlib.Core.Logic.{◌⊎◌, inl, inr}
use native.Mathlib.Omega.{arith}
use acheron_arm.Base.Tests.{ltb}

pub data Defined {ℓ} (A : Type ℓ) : Type ℓ where
  defined : A → Defined A
  undefined : Defined A

infixl 5 ◌>>=◌
abbrev pub ◌>>=◌ {ℓ κ} : {A : Type ℓ} {B : Type κ} → Defined A → (A → Defined B) → Defined B
defined a >>= f = f a
undefined >>= f = undefined

pub Defined-cases {ℓ} : {A : Type ℓ} (d : Defined A) → (d ≡ undefined) ⊎ ((a : A) × (d ≡ defined a))
Defined-cases undefined = inl refl
Defined-cases (defined a) = inr (a, refl)

pub defined_inj {ℓ} : {A : Type ℓ} (a b : A) → defined a ≡ defined b → a ≡ b
defined_inj a b e = cc

-- `1ULL << count`
unfoldable pub shift_one : ℕ → Defined ℕ
shift_one count = elim (ltb count 64) [ true ↦ defined (2 ^ count) | false ↦ undefined ]

pub shift_one-defined : (count : ℕ) → count < 64 → shift_one count ≡ defined (2 ^ count)
unfolding shift_one
shift_one-defined count h = ground arith

pub shift_one-undefined : (count : ℕ) → 64 ≤ count → shift_one count ≡ undefined
unfolding shift_one
shift_one-undefined count h = ground arith
