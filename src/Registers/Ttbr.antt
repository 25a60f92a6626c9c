-- ===== src/Registers/Ttbr.antt =====
-- `TTBR0_EL1::getBaseAddress` and `setBaseAddress`, lines 130 and 131 of the header.
use acheron_arm.Base.{ℕ, ◌+◌, ◌*◌, ◌/◌, ◌%◌, ◌^◌, ◌<◌, ◌≡◌, arith, bit_and, bit_or}
use acheron_arm.Base.Bits.{bit_and-window, bit_or_split, bit_or-lt, zero-bit_or}
use acheron_arm.Registers.Layouts.{baddr, ttbr_asid}

unfoldable pub get_base_address : ℕ → ℕ
get_base_address value = bit_and value 0xFFFFFFFFFFFF0000

pub set_base_address : ℕ → ℕ → ℕ
set_base_address value addr =
    bit_or (bit_and value 0xFFFF000000000000) (bit_and addr 0xFFFFFFFFFFFF0000)

-- The mask 0xFFFFFFFFFFFF0000 clears the low 16 bits and nothing else.
pub mask_low_16 : (v : ℕ) → v < 2 ^ 64 → bit_and v 0xFFFFFFFFFFFF0000 ≡ v / 2 ^ 16 * 2 ^ 16
mask_low_16 v h = bit_and-window 16 48 v (omega arith)

mask_asid : (v : ℕ) → v < 2 ^ 64 → bit_and v 0xFFFF000000000000 ≡ v / 2 ^ 48 * 2 ^ 48
mask_asid v h = bit_and-window 48 16 v (omega arith)

-- For 64-bit words: `getBaseAddress` rounds the value down to a multiple of 2 ^ 16. It keeps the
-- ASID in the bits from 48 upwards.
pub get_base_address_lem :
    (value : ℕ)
    → value < 2 ^ 64
    → get_base_address value ≡ ttbr_asid value * 2 ^ 48 + baddr value / 2 ^ 16 * 2 ^ 16
unfolding get_base_address
get_base_address_lem value h = omega (arith, mask_low_16 value h)

set_base_address_sum :
    (value addr : ℕ)
    → value < 2 ^ 64
    → addr < 2 ^ 64
    → set_base_address value addr
      ≡ bit_or (value / 2 ^ 48) (addr / 2 ^ 48) * 2 ^ 48 + addr % 2 ^ 48 / 2 ^ 16 * 2 ^ 16
unfolding set_base_address
set_base_address_sum value addr hv ha = ground (
  arith,
  mask_asid value hv,
  mask_low_16 addr ha,
  bit_or_split (value / 2 ^ 48) (addr / 2 ^ 48) 48 0 (addr % 2 ^ 48 / 2 ^ 16 * 2 ^ 16),
  zero-bit_or (addr % 2 ^ 48 / 2 ^ 16 * 2 ^ 16),
)

-- For 64-bit words: after `setBaseAddress(addr)` the BADDR field is the low 48 bits of `addr`
-- rounded down to a multiple of 2 ^ 16, and the ASID field is the old ASID merged by `|` with the
-- bits of `addr` from 48 upwards.
pub set_base_address_fields :
    (value addr : ℕ)
    → value < 2 ^ 64
    → addr < 2 ^ 64
    → (baddr (set_base_address value addr) ≡ addr % 2 ^ 48 / 2 ^ 16 * 2 ^ 16)
      × (ttbr_asid (set_base_address value addr) ≡ bit_or (ttbr_asid value) (addr / 2 ^ 48))
set_base_address_fields value addr hv ha =
    let sum = set_base_address_sum value addr hv ha in
    let top = bit_or-lt 16 (value / 2 ^ 48) (addr / 2 ^ 48) (omega arith) (omega arith) in
    let cut : value / 2 ^ 48 % 2 ^ 16 ≡ value / 2 ^ 48 = omega arith in
    (omega (arith, sum), ground (arith, sum, top, cut))
