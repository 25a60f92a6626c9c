-- ===== src/Instruction/Masks.antt =====
-- The three masks of the decoder as arithmetic on a 32-bit word.
use acheron_arm.Base.{ℕ, ◌+◌, ◌-◌, ◌*◌, ◌/◌, ◌%◌, ◌^◌, ◌<◌, ◌≡◌, arith, bit_and}
use acheron_arm.Base.Bits.{bit_and-low, bit_and-window, bit_and_split}

module _ (word : ℕ) (fits : word < 2 ^ 32) where
  pub mask_move : bit_and word 0xFFE00000 ≡ word / 2 ^ 21 * 2 ^ 21
  mask_move = bit_and-window 21 11 word (omega arith)

  pub mask_immediate : bit_and word 0xFFE0001F ≡ word / 2 ^ 21 * 2 ^ 21 + word % 32
  mask_immediate = ground (
    arith,
    bit_and_split (word / 2 ^ 21) (2 ^ 11 - 1) 21 (word % 2 ^ 21) 31,
    bit_and-low 11 (word / 2 ^ 21),
    bit_and-low 5 (word % 2 ^ 21),
  )

  pub mask_barrier : bit_and word 0xFFFFF01F ≡ word / 2 ^ 12 * 2 ^ 12 + word % 32
  mask_barrier = ground (
    arith,
    bit_and_split (word / 2 ^ 12) (2 ^ 20 - 1) 12 (word % 2 ^ 12) 31,
    bit_and-low 20 (word / 2 ^ 12),
    bit_and-low 5 (word % 2 ^ 12),
  )
