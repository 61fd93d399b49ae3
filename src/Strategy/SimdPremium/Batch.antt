-- ===== src/Strategy/SimdPremium/Batch.antt =====
-- The vector loops of kimp_arb_cpp/include/kimp/core/simd_premium.hpp against a loop over the rows.
use mathlib.Core.Option
use spot_spot_relay_arbitrag.Prelude.{
  ℕ, zero, suc, ◌+◌, ◌*◌, ◌/◌, ◌≤◌, ◌<◌, ◌≡◌, refl, ap, ◌∙◌, List, [], ◌∷◌, map, some, length,
  arith,
}
use spot_spot_relay_arbitrag.Double.{Double}
use spot_spot_relay_arbitrag.Strategy.SimdPremium.{
  PriceRow, Target, avx2, neon, scalar, calculate_scalar, row_premium, calculate_batch_scalar,
  avx2_premium, avx2_fma_premium, neon_premium, groups_of_4, groups_of_2, calculate_batch_avx2,
  calculate_batch_avx2_fma, calculate_batch_neon, calculate_batch,
}

module _ {ℓ} {F : Type ℓ} ⦃d : Double F⦄ where
  -- The premium of a row in a lane of `calculate_batch_neon`.
  abbrev pub fused_premium : (F → F → F → F) → PriceRow F → F
  fused_premium fma p =
      fma (d.div p.korean_price (d.mul p.foreign_price p.usdt_rate)) (d.dec 100 0)
        (d.neg (d.dec 100 0))

  -- Pairs of rows are fused, a last odd row is not.
  abbrev pub paired_premiums : (F → F → F → F) → List (PriceRow F) → List F
  paired_premiums fma [] = []
  paired_premiums fma (p ∷ []) = row_premium p ∷ []
  paired_premiums fma (p ∷ q ∷ rows) =
      fused_premium fma p ∷ fused_premium fma q ∷ paired_premiums fma rows

  -- What every build computes, without its groups.
  abbrev pub premiums_of : Target → (F → F → F → F) → List (PriceRow F) → List F
  premiums_of avx2 fma rows = map row_premium rows
  premiums_of neon fma rows = paired_premiums fma rows
  premiums_of scalar fma rows = map row_premium rows

  groups_of_4-avx2 :
      (n : ℕ) (rows : List (PriceRow F))
      → n * 4 ≤ length rows
      → groups_of_4 avx2_premium n rows ≡ some (map row_premium rows)
  unfolding groups_of_4 avx2_premium row_premium calculate_scalar calculate_batch_scalar
  groups_of_4-avx2 zero rows h = refl
  groups_of_4-avx2 (suc n) (p ∷ q ∷ r ∷ s ∷ rows) h =
      ap
        (λ o.
          Option.map (λ rest. row_premium p ∷ row_premium q ∷ row_premium r ∷ row_premium s ∷ rest)
            o)
        (groups_of_4-avx2 n rows (omega (arith, h)))
  groups_of_4-avx2 (suc n) [] h = ground (arith, h)
  groups_of_4-avx2 (suc n) (p ∷ []) h = ground (arith, h)
  groups_of_4-avx2 (suc n) (p ∷ q ∷ []) h = ground (arith, h)
  groups_of_4-avx2 (suc n) (p ∷ q ∷ r ∷ []) h = ground (arith, h)

  groups_of_2-neon :
      (fma : F → F → F → F) (n : ℕ) (rows : List (PriceRow F))
      → n * 2 ≤ length rows
      → length rows < 2 + n * 2
      → groups_of_2 (neon_premium fma) n rows ≡ some (paired_premiums fma rows)
  unfolding groups_of_2 neon_premium calculate_batch_scalar
  groups_of_2-neon fma zero [] h k = refl
  groups_of_2-neon fma zero (p ∷ []) h k = refl
  groups_of_2-neon fma zero (p ∷ q ∷ rows) h k = ground (arith, k)
  groups_of_2-neon fma (suc n) (p ∷ q ∷ rows) h k =
      ap (λ o. Option.map (λ rest. fused_premium fma p ∷ fused_premium fma q ∷ rest) o)
        (groups_of_2-neon fma n rows (omega (arith, h)) (omega (arith, k)))
  groups_of_2-neon fma (suc n) [] h k = ground (arith, h)
  groups_of_2-neon fma (suc n) (p ∷ []) h k = ground (arith, h)

  groups_of_4-fma :
      (fma : F → F → F → F)
      → ((a b : F) → fma (d.neg (d.dec 1 0)) a b ≡ d.sub b a)
      → (n : ℕ) (rows : List (PriceRow F))
      → groups_of_4 (avx2_fma_premium fma) n rows ≡ groups_of_4 avx2_premium n rows
  unfolding groups_of_4 avx2_premium avx2_fma_premium
  groups_of_4-fma fma law zero rows = refl
  groups_of_4-fma fma law (suc n) [] = refl
  groups_of_4-fma fma law (suc n) (p ∷ []) = refl
  groups_of_4-fma fma law (suc n) (p ∷ q ∷ []) = refl
  groups_of_4-fma fma law (suc n) (p ∷ q ∷ r ∷ []) = refl
  groups_of_4-fma fma law (suc n) (p ∷ q ∷ r ∷ s ∷ rows) =
      simp (law, groups_of_4-fma fma law n rows)

  -- On a machine whose `fma` of -1, a and b is b - a, as in IEEE arithmetic, the build for AVX2 with fused operations
  -- gives one premium for each row, in order, by the formula of `calculate_scalar`, and reads no row past the end.
  pub calculate_batch_avx2_fma_lem :
      (fma : F → F → F → F)
      → ((a b : F) → fma (d.neg (d.dec 1 0)) a b ≡ d.sub b a)
      → (rows : List (PriceRow F))
      → calculate_batch_avx2_fma fma rows ≡ some (calculate_batch_scalar rows)
  unfolding calculate_batch_avx2_fma calculate_batch_scalar
  calculate_batch_avx2_fma_lem fma law rows =
      groups_of_4-fma fma law (length rows / 4) rows
      ∙ groups_of_4-avx2 (length rows / 4) rows (omega arith)

  -- Every build gives one premium for each row, in order, and reads no row past the end, however many
  -- there are: the formula of `calculate_scalar`, except that the NEON build computes the pairs before
  -- a last odd row as `fma(ratio, 100, -100)`.
  pub calculate_batch_lem :
      (target : Target) (fma : F → F → F → F) (rows : List (PriceRow F))
      → calculate_batch target fma rows ≡ some (premiums_of target fma rows)
  unfolding calculate_batch calculate_batch_avx2 calculate_batch_neon calculate_batch_scalar
  calculate_batch_lem avx2 fma rows = groups_of_4-avx2 (length rows / 4) rows (omega arith)
  calculate_batch_lem neon fma rows =
      groups_of_2-neon fma (length rows / 2) rows (omega arith) (omega arith)
  calculate_batch_lem scalar fma rows = refl
