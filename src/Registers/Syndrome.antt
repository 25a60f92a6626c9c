-- ===== src/Registers/Syndrome.antt =====
-- The accessors of `ESR_EL1`, lines 150 to 170 of the header.
use acheron_arm.Base.{ℕ, ◌<◌, ◌≡◌, Bool, true, ◌↔◌, arith, bit_and, ◌==◌, ◌>>>◌, u8, not}
use acheron_arm.Base.Bits.{bit_and-low}
use acheron_arm.Registers.Layouts.{esr_ec, esr_il}

unfoldable pub get_exception_class : ℕ → ℕ
get_exception_class value = u8 (bit_and (value >>> 26) 0x3F)

-- A number converts to `bool` as "is not 0".
pub is_instruction_32bit : ℕ → Bool
is_instruction_32bit value = not (bit_and (value >>> 32) 0x1 == 0)

-- The shifts of the accessors agree with the bit-fields: the exception class is the EC field,
-- below 64, and the instruction is a 32-bit one exactly when the IL field is 1.
pub syndrome_fields :
    (value : ℕ)
    → (get_exception_class value ≡ esr_ec value)
      × (get_exception_class value < 64)
      × ((is_instruction_32bit value ≡ true) ↔ (esr_il value ≡ 1))
unfolding get_exception_class is_instruction_32bit
syndrome_fields value =
    let class = bit_and-low 6 (value >>> 26) in
    (omega (arith, class), omega (arith, class), ground (arith, bit_and-low 1 (value >>> 32)))
