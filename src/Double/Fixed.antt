-- ===== src/Double/Fixed.antt =====
-- Numbers with nine decimal places and one NaN: a `Double` that runs and that meets the laws, for tests
-- and for witnesses. No theorem is about it.
use native.Mathlib.Nat.{
  le-div_iff_mul-le, le_of_mul-le-mul_right, lt_of_mul-lt-mul_right, mul-le-mul_right,
  div-mul-le_self, div-le_self, one-le-pow,
}
use spot_spot_relay_arbitrag.Prelude.{
  ℕ, zero, suc, ◌*◌, ◌/◌, ◌^◌, ◌≤◌, ◌<◌, ◌≡◌, refl, ap, ◌⊎◌, Bool, true, false, not, ◌&&◌, arith,
  if◌then◌else◌, ◌==◌,
}
use spot_spot_relay_arbitrag.Prelude.Int.{
  ℤ, pos, negsuc, ◌+ℤ◌, ◌-ℤ◌, ltb_ℤ, leb_ℤ, eqb_ℤ, abs, signed,
}
use spot_spot_relay_arbitrag.Double.{Double}
use spot_spot_relay_arbitrag.Double.Laws.{IsIeee}

pub data Fixed : Type 0 where
  nan : Fixed
  val : ℤ → Fixed

abbrev pub unit : ℕ
unit = 1_000_000_000

abbrev pub compared : (ℤ → ℤ → Bool) → Fixed → Fixed → Bool
compared f (val a) (val b) = f a b
compared f (val a) nan = false
compared f nan b = false

abbrev pub combined : (ℤ → ℤ → Fixed) → Fixed → Fixed → Fixed
combined f (val a) (val b) = f a b
combined f (val a) nan = nan
combined f nan b = nan

abbrev pub mapped : (ℤ → ℤ) → Fixed → Fixed
mapped f (val a) = val (f a)
mapped f nan = nan

abbrev pub mul_fixed : ℤ → ℤ → Fixed
mul_fixed a b = val (signed a b (abs a * abs b / unit))

abbrev pub div_fixed : ℤ → ℤ → Fixed
div_fixed a b = if abs b == 0 then nan else val (signed a b (abs a * unit / abs b))

abbrev pub of_decimal : ℕ → ℕ → Fixed
of_decimal digits places = val (pos (digits * unit / 10 ^ places))

instance abbrev pub fixed_double : Double Fixed
fixed_double = record {
  dec = of_decimal;
  infinity = val (pos (10 ^ 30));
  max_value = val (pos (10 ^ 29));
  neg = mapped (λ a. pos 0 -ℤ a);
  fabs = mapped (λ a. pos (abs a));
  add = combined (λ a b. val (a +ℤ b));
  sub = combined (λ a b. val (a -ℤ b));
  mul = combined mul_fixed;
  div = combined div_fixed;
  lt = compared ltb_ℤ;
  le = compared leb_ℤ;
  eqb = compared eqb_ℤ;
}

-- Literals: `digits * unit / 10 ^ places` keeps the order of decimals, strictly so at nine places.
ten_pos : (q : ℕ) → 0 < 10 ^ q
ten_pos q = one-le-pow q 10 (omega arith)

scale_le : (a p b q : ℕ) → a * 10 ^ q ≤ b * 10 ^ p → a * unit / 10 ^ p ≤ b * unit / 10 ^ q
scale_le a p b q h = (le-div_iff_mul-le (ten_pos q)).1 (le_of_mul-le-mul_right wide (ten_pos p))
  where
    left : a * unit / 10 ^ p * 10 ^ p ≤ a * unit
    left = div-mul-le_self (a * unit) (10 ^ p)

    wide : a * unit / 10 ^ p * 10 ^ q * 10 ^ p ≤ b * unit * 10 ^ p
    wide = omega (arith, mul-le-mul_right (10 ^ q) left, h)

scale_exact : (a p : ℕ) → p ≤ 9 → a * unit / 10 ^ p * 10 ^ p ≡ a * unit
scale_exact a zero h = omega arith
scale_exact a (suc zero) h = omega arith
scale_exact a (suc (suc zero)) h = omega arith
scale_exact a (suc (suc (suc zero))) h = omega arith
scale_exact a (suc (suc (suc (suc zero)))) h = omega arith
scale_exact a (suc (suc (suc (suc (suc zero))))) h = omega arith
scale_exact a (suc (suc (suc (suc (suc (suc zero)))))) h = omega arith
scale_exact a (suc (suc (suc (suc (suc (suc (suc zero))))))) h = omega arith
scale_exact a (suc (suc (suc (suc (suc (suc (suc (suc zero)))))))) h = omega arith
scale_exact a (suc (suc (suc (suc (suc (suc (suc (suc (suc zero))))))))) h = omega arith
scale_exact a (suc (suc (suc (suc (suc (suc (suc (suc (suc (suc p)))))))))) h = absurd (omega arith)

scale_lt :
    (a p b q : ℕ) → p ≤ 9 → q ≤ 9 → a * 10 ^ q < b * 10 ^ p → a * unit / 10 ^ p < b * unit / 10 ^ q
scale_lt a p b q hp hq h = lt_of_mul-lt-mul_right (10 ^ q * 10 ^ p) wide
  where
    wide : a * unit / 10 ^ p * (10 ^ q * 10 ^ p) < b * unit / 10 ^ q * (10 ^ q * 10 ^ p)
    wide = omega (
      arith,
      ap (λ (t : ℕ). t * 10 ^ q) (scale_exact a p hp),
      ap (λ (t : ℕ). t * 10 ^ p) (scale_exact b q hq),
    )

scale_small : (a p : ℕ) → a ≤ 10 ^ 15 → a * unit / 10 ^ p < 10 ^ 30
scale_small a p h = omega (arith, div-le_self (a * unit) (10 ^ p))

number_of_combined :
    (f : ℤ → ℤ → Fixed) (x y : Fixed)
    → compared leb_ℤ (combined f x y) (combined f x y) ≡ true
    → (compared leb_ℤ x x ≡ true) × (compared leb_ℤ y y ≡ true)
number_of_combined f nan y h = cc
number_of_combined f (val a) nan h = cc
number_of_combined f (val a) (val b) h = (ground arith, ground arith)

abbrev FixedLe : Fixed → Fixed → Type 0
FixedLe x y = compared leb_ℤ x y ≡ true

abbrev FixedLt : Fixed → Fixed → Type 0
FixedLt x y = compared ltb_ℤ x y ≡ true

FixedLe-trans : (x y z : Fixed) → FixedLe x y → FixedLe y z → FixedLe x z
FixedLe-trans nan y z h k = cc
FixedLe-trans (val a) nan z h k = cc
FixedLe-trans (val a) (val b) nan h k = cc
FixedLe-trans (val a) (val b) (val c) h k = ground arith

fixed_mul_nonneg :
    (x y : Fixed)
    → FixedLe (val (pos 0)) x
    → FixedLe (val (pos 0)) y
    → FixedLe (val (pos 0)) (combined mul_fixed x y)
fixed_mul_nonneg nan y h k = cc
fixed_mul_nonneg (val a) nan h k = cc
fixed_mul_nonneg (val (pos a)) (val (pos b)) h k = ground arith
fixed_mul_nonneg (val (pos a)) (val (negsuc b)) h k = absurd (ground arith)
fixed_mul_nonneg (val (negsuc a)) (val b) h k = absurd (ground arith)

fixed_div_nonneg :
    (x y : Fixed)
    → FixedLe (val (pos 0)) x
    → FixedLt (val (pos 0)) y
    → FixedLe (combined div_fixed x y) (combined div_fixed x y)
    → FixedLe (val (pos 0)) (combined div_fixed x y)
fixed_div_nonneg nan y h k n = cc
fixed_div_nonneg (val a) nan h k n = cc
fixed_div_nonneg (val (pos a)) (val (pos b)) h k n = ground arith
fixed_div_nonneg (val (pos a)) (val (negsuc b)) h k n = absurd (ground arith)
fixed_div_nonneg (val (negsuc a)) (val b) h k n = absurd (ground arith)

fixed_add_nonneg :
    (x y : Fixed)
    → FixedLe (val (pos 0)) x
    → FixedLe (val (pos 0)) y
    → FixedLe (val (pos 0)) (combined (λ a b. val (a +ℤ b)) x y)
fixed_add_nonneg nan y h k = cc
fixed_add_nonneg (val a) nan h k = cc
fixed_add_nonneg (val a) (val b) h k = ground arith

fixed_sub-le :
    (x y : Fixed)
    → FixedLe (val (pos 0)) y
    → FixedLe (combined (λ a b. val (a -ℤ b)) x y) (combined (λ a b. val (a -ℤ b)) x y)
    → FixedLe (combined (λ a b. val (a -ℤ b)) x y) x
fixed_sub-le nan y h k = cc
fixed_sub-le (val a) nan h k = cc
fixed_sub-le (val a) (val b) h k = ground arith

FixedLt-of_sub_pos :
    (x y : Fixed) → FixedLt (val (pos 0)) (combined (λ a b. val (a -ℤ b)) x y) → FixedLt y x
FixedLt-of_sub_pos nan y h = cc
FixedLt-of_sub_pos (val a) nan h = cc
FixedLt-of_sub_pos (val a) (val b) h = ground arith

fixed_zero : of_decimal 0 0 ≡ val (pos 0)
fixed_zero = refl

-- The laws can be met.
pub Fixed-IsIeee : IsIeee Fixed
Fixed-IsIeee = record {
  number_of_le = λ x y h. (number_left x y leb_ℤ h, number_right x y leb_ℤ h);
  number_of_lt = λ x y h. (number_left x y ltb_ℤ h, number_right x y ltb_ℤ h);
  le_trans = FixedLe-trans;
  lt-eq-not-le = lt_not_le;
  le_total = total;
  eqb-le = eq_le;
  dec_le = λ a p b q h. ground (arith, scale_le a p b q h);
  dec_lt = λ a p b q hp hq _ h. ground (arith, scale_lt a p b q hp hq h);
  dec-lt-infinity = λ a p h. ground (arith, scale_small a p h);
  number_of_mul = number_of_combined mul_fixed;
  number_of_div = number_of_combined div_fixed;
  number_of_sub = number_of_combined (λ a b. val (a -ℤ b));
  number_of_add = number_of_combined (λ a b. val (a +ℤ b));
  mul_nonneg = λ x y h k _. fixed_mul_nonneg x y h k;
  div_nonneg = fixed_div_nonneg;
  add_nonneg = fixed_add_nonneg;
  sub-le = fixed_sub-le;
  lt_of_sub_pos = FixedLt-of_sub_pos;
}
  where
    number_left : (x y : Fixed) (f : ℤ → ℤ → Bool) → compared f x y ≡ true → FixedLe x x
    number_left nan y f h = cc
    number_left (val a) y f h = ground arith

    number_right : (x y : Fixed) (f : ℤ → ℤ → Bool) → compared f x y ≡ true → FixedLe y y
    number_right nan y f h = cc
    number_right (val a) nan f h = cc
    number_right (val a) (val b) f h = ground arith

    lt_not_le :
        (x y : Fixed) → FixedLe x x → FixedLe y y → compared ltb_ℤ x y ≡ not (compared leb_ℤ y x)
    lt_not_le nan y h k = cc
    lt_not_le (val a) nan h k = cc
    lt_not_le (val a) (val b) h k = ground arith

    total : (x y : Fixed) → FixedLe x x → FixedLe y y → FixedLe x y ⊎ FixedLe y x
    total nan y h k = absurd (ground arith)
    total (val a) nan h k = absurd (ground arith)
    total (val a) (val b) h k = ground arith

    eq_le : (x y : Fixed) → compared eqb_ℤ x y ≡ (compared leb_ℤ x y && compared leb_ℤ y x)
    eq_le nan nan = refl
    eq_le nan (val b) = refl
    eq_le (val a) nan = refl
    eq_le (val a) (val b) = ground arith
