-- ===== src/Strategy/SimdPremium/Tests.antt =====
-- Batches of concrete rows.
use spot_spot_relay_arbitrag.Prelude.{◌≡◌, refl, if◌then◌else◌, List, [], ◌∷◌, some, none}
use spot_spot_relay_arbitrag.Double.Fixed.{Fixed, of_decimal, fixed_double}
use spot_spot_relay_arbitrag.Strategy.SimdPremium.{
  PriceRow, neon, avx2, calculate_scalar, row_premium, calculate_batch_scalar, avx2_premium,
  neon_premium, groups_of_4, groups_of_2, calculate_batch_avx2, calculate_batch_avx2_fma,
  calculate_batch,
}
use spot_spot_relay_arbitrag.Strategy.SimdPremium.Batch.{
  calculate_batch_lem, calculate_batch_avx2_fma_lem,
}

-- 1 USDT at 1400 KRW.
abbrev row : Fixed → PriceRow Fixed
row korean = record {
  korean_price = korean;
  foreign_price = of_decimal 1 0;
  usdt_rate = of_decimal 1400 0;
}

abbrev rows : List (PriceRow Fixed)
rows = row (of_decimal 1000 0) ∷ row (of_decimal 1540 0) ∷ row (of_decimal 1000 0) ∷ []

abbrev fused : Fixed → Fixed → Fixed → Fixed
fused a b c = fixed_double.add (fixed_double.mul a b) c

-- The first and the third row are equal, and their premiums differ in the last digits.
calculate_batch_lem_example :
    calculate_batch neon fused rows
    ≡ some (
        fixed_double.neg (of_decimal 285_714_286 7)
        ∷ of_decimal 10 0
        ∷ fixed_double.neg (of_decimal 28_571_428_500 9)
        ∷ [])
unfolding row_premium calculate_scalar
calculate_batch_lem_example = calculate_batch_lem neon fused rows

four_and_one :
    calculate_batch avx2 fused (row (of_decimal 1540 0) ∷ row (of_decimal 1400 0) ∷ rows)
    ≡ some (
        of_decimal 10 0
        ∷ of_decimal 0 0
        ∷ fixed_double.neg (of_decimal 28_571_428_500 9)
        ∷ of_decimal 10 0
        ∷ fixed_double.neg (of_decimal 28_571_428_500 9)
        ∷ [])
unfolding calculate_batch calculate_batch_avx2 groups_of_4 avx2_premium calculate_batch_scalar
    row_premium calculate_scalar
four_and_one = refl

-- A round more than there are rows for reads past the end.
past_the_end : groups_of_2 (neon_premium fused) 2 rows ≡ none
unfolding groups_of_2
past_the_end = refl

-- A machine that subtracts where -1 is multiplied, and else rounds twice.
abbrev exact_fma : Fixed → Fixed → Fixed → Fixed
exact_fma a b c =
    if fixed_double.eqb a (fixed_double.neg (of_decimal 1 0))
    then fixed_double.sub c b
    else fixed_double.add (fixed_double.mul a b) c

calculate_batch_avx2_fma_lem_example :
    calculate_batch_avx2_fma exact_fma rows ≡ some (calculate_batch_scalar rows)
calculate_batch_avx2_fma_lem_example = calculate_batch_avx2_fma_lem exact_fma (λ a b. refl) rows
