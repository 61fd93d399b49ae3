-- ===== src/Double.antt =====
-- `double`: a type of numbers with the operations, the comparisons and the literals that the code uses.
-- No law is built in; the laws of IEEE arithmetic that a theorem needs are its hypothesis `IsIeee`.
pub mod Laws
pub mod Fixed
use spot_spot_relay_arbitrag.Prelude.{ℕ, Bool, if◌then◌else◌}

pub record Double {ℓ} (F : Type ℓ) : Type ℓ where
  -- The literal `digits * 10 ^ -places`: `dec 4 4` is 0.0004.
  pub dec : ℕ → ℕ → F
  -- `std::numeric_limits<double>::infinity()` and `max()`.
  pub infinity : F
  pub max_value : F
  pub neg : F → F
  pub fabs : F → F
  pub add : F → F → F
  pub sub : F → F → F
  pub mul : F → F → F
  pub div : F → F → F
  -- `<`, `<=` and `==`; `a > b` is `lt b a`, and `a >= b` is `le b a`.
  pub lt : F → F → Bool
  pub le : F → F → Bool
  pub eqb : F → F → Bool

module _ {ℓ} {F : Type ℓ} ⦃d : Double F⦄ where
  abbrev pub zero_f : F
  zero_f = d.dec 0 0

  -- `std::min` and `std::max` return the first argument unless the other is strictly better.
  abbrev pub min_f : F → F → F
  min_f a b = if d.lt b a then b else a

  abbrev pub max_f : F → F → F
  max_f a b = if d.lt a b then b else a
