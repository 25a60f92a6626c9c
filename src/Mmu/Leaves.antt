-- ===== src/Mmu/Leaves.antt =====
-- The region of a block or page descriptor, by arithmetic.
use acheron_arm.Base.{
  ℕ, ◌+◌, ◌*◌, ◌/◌, ◌%◌, ◌^◌, ◌<◌, ◌≤◌, ◌≡◌, ◌⊎◌, inl, inr, some, arith, bit_and, not64, sub64,
  add64,
}
use acheron_arm.Base.Bits.{bit_and-low, bit_and-window}
use acheron_arm.Mmu.Types.{MemoryRegion}
use acheron_arm.Mmu.Descriptor.{get_output_address}
use acheron_arm.Mmu.Walk.{leaf_size, leaf_region, offset_in}
use acheron_arm.Mmu.Translate.{entry_of, hit_address}

-- The three sizes of a block or page: 1 GB, 2 MB and 4 KB.
abbrev pub IsPower : ℕ → Type 0
IsPower size = (size ≡ 2 ^ 30) ⊎ ((size ≡ 2 ^ 21) ⊎ (size ≡ 2 ^ 12))

pub leaf_size-IsPower : (level size : ℕ) → leaf_size level ≡ some size → (level < 4) × IsPower size
unfolding leaf_size
leaf_size-IsPower level size e = ground arith

get_output_address-lt : (desc : ℕ) → get_output_address desc < 2 ^ 48
unfolding get_output_address
get_output_address-lt desc = omega arith

-- Rounding down to a block or page.
round_down :
    (size v : ℕ) → IsPower size → v < 2 ^ 64 → bit_and v (not64 (sub64 size 1)) ≡ v / size * size
round_down size v (inl e) h = rw e (bit_and-window 30 34 v (omega arith))
round_down size v (inr (inl e)) h = rw e (bit_and-window 21 43 v (omega arith))
round_down size v (inr (inr e)) h = rw e (bit_and-window 12 52 v (omega arith))

low_part : (size v : ℕ) → IsPower size → bit_and v (sub64 size 1) ≡ v % size
low_part size v (inl e) = rw e (omega (arith, bit_and-low 30 v))
low_part size v (inr (inl e)) = rw e (omega (arith, bit_and-low 21 v))
low_part size v (inr (inr e)) = rw e (omega (arith, bit_and-low 12 v))

-- What a mapped region satisfies.
pub record IsMapped (r : MemoryRegion) : Type 0 where
  pub power : IsPower r.size
  pub aligned : r.base_address % r.size ≡ 0
  pub below : r.base_address + r.size ≤ 2 ^ 48

rounded_fits :
    (size v : ℕ)
    → IsPower size
    → v < 2 ^ 48
    → (v / size * size % size ≡ 0) × (v / size * size + size ≤ 2 ^ 48)
rounded_fits size v (inl e) h = rw e (omega arith)
rounded_fits size v (inr (inl e)) h = rw e (omega arith)
rounded_fits size v (inr (inr e)) h = rw e (omega arith)

-- The region of a block or page lies on a multiple of its size, below 2 ^ 48.
pub leaf_region-IsMapped : (desc size : ℕ) → IsPower size → IsMapped (leaf_region desc size)
unfolding leaf_region
leaf_region-IsMapped desc size p =
    let address = get_output_address-lt desc in
    let rounded = round_down size (get_output_address desc) p (omega (arith, address)) in
    let fits = rounded_fits size (get_output_address desc) p address in
    record { power = p; aligned = ground (arith, fits); below = ground (arith, fits) }

offset_fits :
    (base size v : ℕ)
    → IsPower size
    → base + size ≤ 2 ^ 48
    → add64 base (v % size) ≡ base + v % size
offset_fits base size v (inl e) h = ground arith
offset_fits base size v (inr (inl e)) h = ground arith
offset_fits base size v (inr (inr e)) h = ground arith

-- The offset within the region is added without a wrap.
pub offset_in_lem :
    (r : MemoryRegion) (va : ℕ) → IsMapped r → offset_in r va ≡ r.base_address + va % r.size
unfolding offset_in
offset_in_lem r va v =
    ground (arith, low_part r.size va v.power, offset_fits r.base_address r.size va v.power v.below)

aligned_fits : (size b : ℕ) → IsPower size → b % size ≡ 0 → b / size * size ≡ b
aligned_fits size b (inl e) h = ground arith
aligned_fits size b (inr (inl e)) h = ground arith
aligned_fits size b (inr (inr e)) h = ground arith

-- A hit on the entry of a region gives the address that the region gives.
pub hit-entry_of :
    (r : MemoryRegion) (va va' asid : ℕ)
    → IsMapped r
    → hit_address (entry_of r va asid) va' ≡ offset_in r va'
unfolding hit_address entry_of offset_in
hit-entry_of r va va' asid v = ground (
  arith,
  round_down r.size r.base_address v.power (omega arith),
  aligned_fits r.size r.base_address v.power v.aligned,
)

-- The base address of a block or page.
pub leaf_region-base_address :
    (desc size : ℕ)
    → IsPower size
    → (leaf_region desc size).base_address ≡ get_output_address desc / size * size
unfolding leaf_region
leaf_region-base_address desc size p =
    round_down size (get_output_address desc) p (omega (arith, get_output_address-lt desc))
