-- ===== src/Base/Word.antt =====
-- The fixed widths of the source: casts, shifts and the 64-bit complement.
use Prim.Native.Nat.{ℕ, ◌+◌, ◌-◌, ◌*◌, ◌/◌, ◌%◌, ◌^◌}

abbrev pub u8 : ℕ → ℕ
u8 n = n % 2 ^ 8

abbrev pub u16 : ℕ → ℕ
u16 n = n % 2 ^ 16

abbrev pub u64 : ℕ → ℕ
u64 n = n % 2 ^ 64

-- `x >> k` on an unsigned operand.
infixl 75 ◌>>>◌
abbrev pub ◌>>>◌ : ℕ → ℕ → ℕ
x >>> k = x / 2 ^ k

-- `x << k` on a `uint64_t`, for a count below 64.
infixl 75 ◌<<<◌
abbrev pub ◌<<<◌ : ℕ → ℕ → ℕ
x <<< k = u64 (x * 2 ^ k)

-- `x + y` and `x - y` on `uint64_t`; `-` on ℕ stops at 0, so the modulus is added first.
abbrev pub add64 : ℕ → ℕ → ℕ
add64 x y = u64 (x + y)

abbrev pub sub64 : ℕ → ℕ → ℕ
sub64 x y = u64 (x + 2 ^ 64 - y)

-- `~x` on a `uint64_t`.
abbrev pub not64 : ℕ → ℕ
not64 x = 2 ^ 64 - 1 - x
