-- ===== src/Mmu/Keys.antt =====
-- The key under which a translation is cached, and which translations share one.
use acheron_arm.Base.{ℕ, ◌+◌, ◌-◌, ◌*◌, ◌/◌, ◌%◌, ◌^◌, ◌<◌, ◌≤◌, ◌≡◌, ◌↔◌, arith, bit_and, bit_or}
use acheron_arm.Base.Bits.{bit_and-window, bit_or_split, bit_or_tag, bit_or-zero, ones-bit_or}
use acheron_arm.Mmu.Tlb.{tlb_key}

mask_page : (va : ℕ) → va < 2 ^ 64 → bit_and va (2 ^ 64 - 1 - 0xFFF) ≡ va / 2 ^ 12 * 2 ^ 12
mask_page va h = bit_and-window 12 52 va (omega arith)

-- The ASID is merged by `|` into the address bits from 48 upwards.
pub tlb_key_lem :
    (va asid : ℕ)
    → va < 2 ^ 64
    → asid < 2 ^ 16
    → tlb_key va asid ≡ bit_or (va / 2 ^ 48) asid * 2 ^ 48 + va % 2 ^ 48 / 2 ^ 12 * 2 ^ 12
unfolding tlb_key
tlb_key_lem va asid hv ha = ground (
  arith,
  mask_page va hv,
  bit_or_split (va / 2 ^ 48) asid 48 (va % 2 ^ 48 / 2 ^ 12 * 2 ^ 12) 0,
  bit_or-zero 48 (va % 2 ^ 48 / 2 ^ 12 * 2 ^ 12),
)

-- Below 2 ^ 48 the ASID stands alone above the page.
pub tlb_key_low :
    (va asid : ℕ)
    → va < 2 ^ 48
    → asid < 2 ^ 16
    → tlb_key va asid ≡ asid * 2 ^ 48 + va / 2 ^ 12 * 2 ^ 12
unfolding tlb_key
tlb_key_low va asid hv ha = ground (arith, mask_page va, bit_or_tag 48 (va / 2 ^ 12 * 2 ^ 12) asid)

-- For addresses below 2 ^ 48, two translations share a key exactly if they have the same ASID and
-- the same 4 KB page.
pub tlb_key_iff :
    (va va' asid asid' : ℕ)
    → va < 2 ^ 48
    → va' < 2 ^ 48
    → asid < 2 ^ 16
    → asid' < 2 ^ 16
    → (tlb_key va asid ≡ tlb_key va' asid') ↔ ((asid ≡ asid') × (va / 2 ^ 12 ≡ va' / 2 ^ 12))
tlb_key_iff va va' asid asid' h h' a a' =
    ground (arith, tlb_key_low va asid h a, tlb_key_low va' asid' h' a')

-- For addresses whose upper 16 bits are all ones, the upper half of the address space, the key
-- does not depend on the ASID: all address spaces share one TLB entry for such a page.
pub tlb_key_shared :
    (va asid asid' : ℕ)
    → 2 ^ 64 - 2 ^ 48 ≤ va
    → va < 2 ^ 64
    → asid < 2 ^ 16
    → asid' < 2 ^ 16
    → tlb_key va asid ≡ tlb_key va asid'
tlb_key_shared va asid asid' high h a a' = ground (
  arith,
  tlb_key_lem va asid h a,
  tlb_key_lem va asid' h a',
  ones-bit_or 16 asid a,
  ones-bit_or 16 asid' a',
  all_ones,
)
  where
    all_ones : va / 2 ^ 48 ≡ 2 ^ 16 - 1
    all_ones = omega arith
