-- ===== src/Mmu/Spec.antt =====
-- What the MMU promises: three registers and the page tables, with no TLB and no statistics, by
-- arithmetic on addresses and descriptors.
use acheron_arm.Base.{
  ℕ, zero, suc, ◌+◌, ◌-◌, ◌*◌, ◌/◌, ◌%◌, ◌^◌, ◌==◌, ltb, if◌then◌else◌, Option, none, some, Defined,
  defined, undefined, ◌>>=◌, List, [], ◌∷◌,
}
use acheron_arm.Mmu.Translate.{Call, translates, translates_with, sets_ttbr0, sets_ttbr1, sets_tcr}

pub record Tables : Type 0 where
  pub ttbr0 : ℕ
  pub ttbr1 : ℕ
  pub tcr : ℕ

abbrev pub no_tables : Tables
no_tables = record { ttbr0 = 0; ttbr1 = 0; tcr = 0 }

-- The size of the block or page at each level that has one.
unfoldable pub block_size : ℕ → Option ℕ
block_size zero = some (2 ^ 30)
block_size (suc zero) = some (2 ^ 21)
block_size (suc (suc zero)) = some (2 ^ 21)
block_size (suc (suc (suc zero))) = some (2 ^ 12)
block_size (suc (suc (suc (suc l)))) = none

-- The table where the walk starts: below the first limit that of TTBR0, from the second limit on
-- that of TTBR1, between them none. Tables lie at multiples of 2 ^ 16.
unfoldable pub start_of : Tables → ℕ → Defined (Option ℕ)
start_of t va =
    let t0sz = t.tcr % 2 ^ 6 in
    let t1sz = t.tcr / 2 ^ 16 % 2 ^ 6 in
    if t0sz == 0
    then undefined
    else if ltb va (2 ^ (64 - t0sz))
    then defined (some (t.ttbr0 / 2 ^ 16 * 2 ^ 16))
    else if t1sz == 0
    then undefined
    else if ltb va (2 ^ (64 - t1sz))
    then defined none
    else defined (some (t.ttbr1 / 2 ^ 16 * 2 ^ 16))

module _ (read_descriptor : ℕ → ℕ → ℕ) where
  -- With `suc left` levels left, the last of which is level 4: a descriptor is invalid, names the
  -- next table, or names a block.
  unfoldable pub walk : ℕ → ℕ → ℕ → Defined (Option ℕ)
  walk zero va base = undefined
  walk (suc left) va base =
      let level = 4 - left in
      let desc = read_descriptor base (va / 2 ^ (39 - level * 9) % 512) in
      let address = desc / 2 ^ 13 % 2 ^ 36 * 2 ^ 12 in
      let next = walk left va address in
      if desc % 2 == 0
      then defined none
      else if desc / 2 % 2 == 1
      then next
      else defined (elim (block_size level) [
        | none ↦ none
        | some size ↦ some (address / size * size + va % size)
      ])

  unfoldable pub lookup : Tables → ℕ → Defined (Option ℕ)
  lookup t va = do
    start ← start_of t va
    elim start [ none ↦ defined none | some base ↦ walk 5 va base ]

  -- The results of the translations among some calls.
  unfoldable pub answers : Tables → List Call → Defined (List (Option ℕ))
  answers t [] = defined []
  answers t (translates va asid ∷ cs) = do
    pa ← lookup t va
    rest ← answers t cs
    defined (pa ∷ rest)
  answers t (translates_with va region asid ∷ cs) = do
    pa ← lookup t va
    rest ← answers t cs
    defined (pa ∷ rest)
  answers t (sets_ttbr0 value ∷ cs) = answers (record t { ttbr0 = value }) cs
  answers t (sets_ttbr1 value ∷ cs) = answers (record t { ttbr1 = value }) cs
  answers t (sets_tcr value ∷ cs) = answers (record t { tcr = value }) cs
  answers t (_ ∷ cs) = answers t cs
