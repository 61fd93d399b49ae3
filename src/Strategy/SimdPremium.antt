-- ===== src/Strategy/SimdPremium.antt =====
-- `SIMDPremiumCalculator` of kimp_arb_cpp/include/kimp/core/simd_premium.hpp. The three input arrays are one list
-- of rows, as in its `PriceData`. A vector operation works on each lane by itself. A load past the end of the arrays
-- gives no result. `fma a b c` is the machine's `a * b + c`, rounded once.
pub mod Batch
mod Tests
use mathlib.Core.Option
use spot_spot_relay_arbitrag.Prelude.{
  ℕ, zero, suc, ◌/◌, List, [], ◌∷◌, map, Option, none, some, length,
}
use spot_spot_relay_arbitrag.Double.{Double}

pub record PriceRow {ℓ} (F : Type ℓ) : Type ℓ where
  pub korean_price : F
  pub foreign_price : F
  pub usdt_rate : F

-- `__m256d` and `float64x2_t`.
pub record Vec4 {ℓ} (F : Type ℓ) : Type ℓ where
  pub lane0 : F
  pub lane1 : F
  pub lane2 : F
  pub lane3 : F

pub record Vec2 {ℓ} (F : Type ℓ) : Type ℓ where
  pub low : F
  pub high : F

-- The builds that the preprocessor tells apart.
pub data Target : Type 0 where
  avx2 : Target
  neon : Target
  scalar : Target

module _ {ℓ} {F : Type ℓ} where
  abbrev pub set1_4 : F → Vec4 F
  set1_4 a = record { lane0 = a; lane1 = a; lane2 = a; lane3 = a }

  abbrev pub set1_2 : F → Vec2 F
  set1_2 a = record { low = a; high = a }

  abbrev pub lanes4 : (F → F → F) → Vec4 F → Vec4 F → Vec4 F
  lanes4 f a b = record {
    lane0 = f a.lane0 b.lane0;
    lane1 = f a.lane1 b.lane1;
    lane2 = f a.lane2 b.lane2;
    lane3 = f a.lane3 b.lane3;
  }

  abbrev pub fma4 : (F → F → F → F) → Vec4 F → Vec4 F → Vec4 F → Vec4 F
  fma4 fma a b c = record {
    lane0 = fma a.lane0 b.lane0 c.lane0;
    lane1 = fma a.lane1 b.lane1 c.lane1;
    lane2 = fma a.lane2 b.lane2 c.lane2;
    lane3 = fma a.lane3 b.lane3 c.lane3;
  }

  abbrev pub lanes2 : (F → F → F) → Vec2 F → Vec2 F → Vec2 F
  lanes2 f a b = record { low = f a.low b.low; high = f a.high b.high }

  abbrev pub fma2 : (F → F → F → F) → Vec2 F → Vec2 F → Vec2 F → Vec2 F
  fma2 fma a b c = record { low = fma a.low b.low c.low; high = fma a.high b.high c.high }

  abbrev pub load4 : (PriceRow F → F) → PriceRow F → PriceRow F → PriceRow F → PriceRow F → Vec4 F
  load4 field p q r s = record {
    lane0 = field p;
    lane1 = field q;
    lane2 = field r;
    lane3 = field s;
  }

  abbrev pub load2 : (PriceRow F → F) → PriceRow F → PriceRow F → Vec2 F
  load2 field p q = record { low = field p; high = field q }

  abbrev pub store4 : Vec4 F → List F → List F
  store4 v rest = v.lane0 ∷ v.lane1 ∷ v.lane2 ∷ v.lane3 ∷ rest

  abbrev pub store2 : Vec2 F → List F → List F
  store2 v rest = v.low ∷ v.high ∷ rest

module _ {ℓ} {F : Type ℓ} ⦃d : Double F⦄ where
  unfoldable pub calculate_scalar : F → F → F → F
  calculate_scalar korean foreign usdt =
      let foreign_krw = d.mul foreign usdt in
      d.mul (d.div (d.sub korean foreign_krw) foreign_krw) (d.dec 100 0)

  unfoldable pub row_premium : PriceRow F → F
  unfolding calculate_scalar
  row_premium p = calculate_scalar p.korean_price p.foreign_price p.usdt_rate

  unfoldable pub calculate_batch_scalar : List (PriceRow F) → List F
  calculate_batch_scalar rows = map row_premium rows

  -- The bodies of the vector loops.
  unfoldable pub avx2_premium : Vec4 F → Vec4 F → Vec4 F → Vec4 F
  avx2_premium korean_v foreign_v usdt_v =
      let foreign_krw = lanes4 d.mul foreign_v usdt_v in
      let diff = lanes4 d.sub korean_v foreign_krw in
      lanes4 d.mul (lanes4 d.div diff foreign_krw) (set1_4 (d.dec 100 0))

  unfoldable pub avx2_fma_premium : (F → F → F → F) → Vec4 F → Vec4 F → Vec4 F → Vec4 F
  avx2_fma_premium fma korean_v foreign_v usdt_v =
      let foreign_krw = lanes4 d.mul foreign_v usdt_v in
      let diff = fma4 fma (set1_4 (d.neg (d.dec 1 0))) foreign_krw korean_v in
      lanes4 d.mul (lanes4 d.div diff foreign_krw) (set1_4 (d.dec 100 0))

  unfoldable pub neon_premium : (F → F → F → F) → Vec2 F → Vec2 F → Vec2 F → Vec2 F
  neon_premium fma korean_v foreign_v usdt_v =
      let foreign_krw = lanes2 d.mul foreign_v usdt_v in
      let ratio = lanes2 d.div korean_v foreign_krw in
      fma2 fma ratio (set1_2 (d.dec 100 0)) (set1_2 (d.neg (d.dec 100 0)))

  -- `simd_count` rounds of four rows, then the scalar loop.
  unfoldable pub groups_of_4 :
      (Vec4 F → Vec4 F → Vec4 F → Vec4 F) → ℕ → List (PriceRow F) → Option (List F)
  groups_of_4 premium zero rows = some (calculate_batch_scalar rows)
  groups_of_4 premium (suc n) (p ∷ q ∷ r ∷ s ∷ rows) =
      Option.map
        (store4 (
          premium (load4 (λ x. x.korean_price) p q r s) (load4 (λ x. x.foreign_price) p q r s)
            (load4 (λ x. x.usdt_rate) p q r s)))
        (groups_of_4 premium n rows)
  groups_of_4 premium (suc n) rows = none

  unfoldable pub groups_of_2 :
      (Vec2 F → Vec2 F → Vec2 F → Vec2 F) → ℕ → List (PriceRow F) → Option (List F)
  groups_of_2 premium zero rows = some (calculate_batch_scalar rows)
  groups_of_2 premium (suc n) (p ∷ q ∷ rows) =
      Option.map
        (store2 (
          premium (load2 (λ x. x.korean_price) p q) (load2 (λ x. x.foreign_price) p q)
            (load2 (λ x. x.usdt_rate) p q)))
        (groups_of_2 premium n rows)
  groups_of_2 premium (suc n) rows = none

  unfoldable pub calculate_batch_avx2 : List (PriceRow F) → Option (List F)
  calculate_batch_avx2 rows = groups_of_4 avx2_premium (length rows / 4) rows

  unfoldable pub calculate_batch_avx2_fma : (F → F → F → F) → List (PriceRow F) → Option (List F)
  calculate_batch_avx2_fma fma rows = groups_of_4 (avx2_fma_premium fma) (length rows / 4) rows

  unfoldable pub calculate_batch_neon : (F → F → F → F) → List (PriceRow F) → Option (List F)
  calculate_batch_neon fma rows = groups_of_2 (neon_premium fma) (length rows / 2) rows

  unfoldable pub calculate_batch : Target → (F → F → F → F) → List (PriceRow F) → Option (List F)
  calculate_batch avx2 fma rows = calculate_batch_avx2 rows
  calculate_batch neon fma rows = calculate_batch_neon fma rows
  calculate_batch scalar fma rows = some (calculate_batch_scalar rows)
