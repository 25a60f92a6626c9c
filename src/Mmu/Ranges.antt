-- ===== src/Mmu/Ranges.antt =====
-- The address ranges of the two translation tables, for the values of T0SZ and T1SZ.
use native.Mathlib.Nat.{pow-le-pow_right, one-le-pow}
use acheron_arm.Base.{
  ℕ, ◌-◌, ◌/◌, ◌%◌, ◌^◌, ◌≤◌, ◌<◌, ◌≡◌, ◌≢◌, ◌↔◌, inl, inr, not, ltb, none, some, defined,
  undefined, ◌>>=◌, shift_one, shift_one-defined, shift_one-undefined, arith, bit_and, ◌>>>◌,
  if◌then◌else◌, Bool-cases, ◌==◌, leb, sub64,
}
use acheron_arm.Base.Bits.{bit_and-low}
use acheron_arm.Mmu.State.{
  Mmu, get_t0sz, get_t1sz, va_in_ttbr0, va_in_ttbr1, get_ttbr0_mask, get_ttbr1_mask,
}
use acheron_arm.Mmu.Walk.{select_table}

-- The fields T0SZ and T1SZ of TCR_EL1.
abbrev pub t0sz : Mmu → ℕ
t0sz m = m.tcr % 2 ^ 6

abbrev pub t1sz : Mmu → ℕ
t1sz m = m.tcr / 2 ^ 16 % 2 ^ 6

pub get_t0sz_lem : (m : Mmu) → get_t0sz m ≡ t0sz m
unfolding get_t0sz
get_t0sz_lem m = omega (arith, bit_and-low 6 m.tcr)

pub get_t1sz_lem : (m : Mmu) → get_t1sz m ≡ t1sz m
unfolding get_t1sz
get_t1sz_lem m = omega (arith, bit_and-low 6 (m.tcr >>> 16))

-- With T0SZ = 0 the range test shifts by 64, which is undefined; otherwise the lower range is what
-- lies below 2 ^ (64 - T0SZ).
pub va_in_ttbr0_lem :
    (m : Mmu) (va : ℕ)
    → va_in_ttbr0 m va ≡ (if t0sz m == 0 then undefined else defined (ltb va (2 ^ (64 - t0sz m))))
unfolding va_in_ttbr0
va_in_ttbr0_lem m va =
    ground
      (arith, get_t0sz_lem m, shift_one-defined (64 - t0sz m), shift_one-undefined (64 - t0sz m))

pub va_in_ttbr1_lem :
    (m : Mmu) (va : ℕ)
    → va_in_ttbr1 m va
      ≡ (if t1sz m == 0 then undefined else defined (not (ltb va (2 ^ (64 - t1sz m)))))
unfolding va_in_ttbr1
va_in_ttbr1_lem m va =
    ground
      (arith, get_t1sz_lem m, shift_one-defined (64 - t1sz m), shift_one-undefined (64 - t1sz m))

mask_of :
    (t : ℕ)
    → t < 64
    → (shift_one (sub64 48 t) >>= λ one. defined (sub64 one 1))
      ≡ (if leb t 48 then defined (2 ^ (48 - t) - 1) else undefined)
mask_of t h = elim (Bool-cases (leb t 48)) [
  | inl small ↦
      let count : sub64 48 t ≡ 48 - t = ground arith in
      rw (count, small)
        (ground (
          arith,
          shift_one-defined (48 - t),
          one-le-pow (48 - t) 2,
          pow-le-pow_right {n = 2} (omega arith) {i = 48 - t} {j = 48} (omega arith),
        ))
  | inr large ↦
      let count : 64 ≤ sub64 48 t = ground arith in
      rw large (ground (arith, shift_one-undefined (sub64 48 t)))
]

-- Both masks are all ones below bit 48 - TxSZ; for TxSZ above 48 the count wraps around 2 ^ 64
-- and the shift is undefined.
pub masks_lem :
    (m : Mmu)
    → (get_ttbr0_mask m ≡ (if leb (t0sz m) 48 then defined (2 ^ (48 - t0sz m) - 1) else undefined))
      × (get_ttbr1_mask m
          ≡ (if leb (t1sz m) 48 then defined (2 ^ (48 - t1sz m) - 1) else undefined))
unfolding get_ttbr0_mask get_ttbr1_mask
masks_lem m = (
  rw (get_t0sz_lem m) (mask_of (t0sz m) (omega arith)),
  rw (get_t1sz_lem m) (mask_of (t1sz m) (omega arith)),
)

-- The mask that the walk puts on a table base register.
abbrev pub table_base : ℕ → ℕ
table_base ttbr = bit_and ttbr 0xFFFFFFFFFFFF0000

-- Which table a walk starts from.
pub select_table_lem :
    (m : Mmu) (va : ℕ)
    → select_table m va ≡ (
        if t0sz m == 0
        then undefined
        else if ltb va (2 ^ (64 - t0sz m))
        then defined (some (table_base m.ttbr0))
        else if t1sz m == 0
        then undefined
        else if ltb va (2 ^ (64 - t1sz m))
        then defined none
        else defined (some (table_base m.ttbr1)))
unfolding select_table
select_table_lem m va = ground (arith, va_in_ttbr0_lem m va, va_in_ttbr1_lem m va)

-- For T0SZ and T1SZ other than 0, an address is in neither range exactly if it is at least
-- 2 ^ (64 - T0SZ) and below 2 ^ (64 - T1SZ).
pub select_table_gap :
    (m : Mmu) (va : ℕ)
    → t0sz m ≢ 0
    → t1sz m ≢ 0
    → (select_table m va ≡ defined none) ↔ ((2 ^ (64 - t0sz m) ≤ va) × (va < 2 ^ (64 - t1sz m)))
select_table_gap m va h0 h1 = ground (arith, select_table_lem m va)

-- With 0 < T0SZ ≤ T1SZ, every address from 2 ^ (64 - T0SZ) upwards is translated by TTBR1, not only
-- the topmost ones, and every address below it by TTBR0: there is no gap.
pub select_table_all :
    (m : Mmu) (va : ℕ)
    → 0 < t0sz m
    → t0sz m ≤ t1sz m
    → select_table m va
      ≡ defined (some (table_base (if ltb va (2 ^ (64 - t0sz m)) then m.ttbr0 else m.ttbr1)))
select_table_all m va h le = ground (
  arith,
  select_table_lem m va,
  pow-le-pow_right {n = 2} (omega arith) {i = 64 - t1sz m} {j = 64 - t0sz m} (omega arith),
)
