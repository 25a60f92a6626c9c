-- ===== src/Mmu/Depth.antt =====
-- How far a walk goes.
use acheron_arm.Base.{
  ℕ, zero, suc, ◌+◌, ◌-◌, ◌*◌, ◌/◌, ◌%◌, ◌^◌, ◌<◌, ◌≤◌, ◌≡◌, ◌≢◌, ◌↔◌, refl, inl, inr, Bool, true,
  false, ◌&&◌, some, defined, undefined, Option-cases, arith, ◌==◌,
}
use acheron_arm.Mmu.Spec
use acheron_arm.Mmu.Spec.{block_size}

module _ (read_descriptor : ℕ → ℕ → ℕ) where
  -- With `left` levels left, the next `n` descriptors have both low bits set: each is valid and has
  -- the table bit.
  unfoldable pub descends : ℕ → ℕ → ℕ → ℕ → Bool
  descends zero left va base = true
  descends (suc n) zero va base = false
  descends (suc n) (suc left) va base =
      let desc = read_descriptor base (va / 2 ^ (39 - (4 - left) * 9) % 512) in
      (desc % 4 == 3) && descends n left va (desc / 2 ^ 13 % 2 ^ 36 * 2 ^ 12)

  pub walk-undefined :
      (left va base : ℕ)
      → (Spec.walk read_descriptor left va base ≡ undefined) ↔ (descends left left va base ≡ true)
  unfolding Spec.walk descends
  walk-undefined zero va base = (λ e. refl, λ e. refl)
  walk-undefined (suc left) va base =
      let desc = read_descriptor base (va / 2 ^ (39 - (4 - left) * 9) % 512) in
      ground (arith, walk-undefined left va (desc / 2 ^ 13 % 2 ^ 36 * 2 ^ 12))

  -- Blocks end at level 3.
  pub walk-deep :
      (n left va base pa : ℕ)
      → n + 1 ≡ left
      → left ≤ 5
      → descends n left va base ≡ true
      → Spec.walk read_descriptor left va base ≢ defined (some pa)
  unfolding Spec.walk descends block_size
  walk-deep n zero va base pa h b d e = absurd (omega arith)
  walk-deep zero (suc zero) va base pa h b d e = ground arith
  walk-deep zero (suc (suc left)) va base pa h b d e = absurd (omega arith)
  walk-deep (suc n) (suc left) va base pa h b d e =
      let desc = read_descriptor base (va / 2 ^ (39 - (4 - left) * 9) % 512) in
      ground (arith, walk-deep n left va (desc / 2 ^ 13 % 2 ^ 36 * 2 ^ 12) pa)

  block_size-bound :
      (level size va address : ℕ)
      → block_size level ≡ some size
      → let pa = address % 2 ^ 36 * 2 ^ 12 / size * size + va % size in
        (pa < 2 ^ 48) × (pa % 2 ^ 12 ≡ va % 2 ^ 12)
  unfolding block_size
  block_size-bound zero size va address e = ground arith
  block_size-bound (suc zero) size va address e = ground arith
  block_size-bound (suc (suc zero)) size va address e = ground arith
  block_size-bound (suc (suc (suc zero))) size va address e = ground arith
  block_size-bound (suc (suc (suc (suc l)))) size va address e = absurd (ground arith)

  pub walk-bound :
      (left va base pa : ℕ)
      → Spec.walk read_descriptor left va base ≡ defined (some pa)
      → (pa < 2 ^ 48) × (pa % 2 ^ 12 ≡ va % 2 ^ 12)
  unfolding Spec.walk
  walk-bound zero va base pa e = absurd (ground arith)
  walk-bound (suc left) va base pa e =
      let desc = read_descriptor base (va / 2 ^ (39 - (4 - left) * 9) % 512) in
      let rest = walk-bound left va (desc / 2 ^ 13 % 2 ^ 36 * 2 ^ 12) pa in
      elim (Option-cases (block_size (4 - left))) [
        | inl absent ↦ ground (arith, rest)
        | inr (size, present) ↦
            ground (arith, rest, block_size-bound (4 - left) size va (desc / 2 ^ 13) present)
      ]
