-- ===== src/Double/Laws.antt =====
-- The laws of IEEE 754 comparison and arithmetic that the theorems rest on. NaN is the value that is not
-- `<=` itself, and every operation on a NaN gives a NaN.
use spot_spot_relay_arbitrag.Prelude.{
  Bool-cases, inl, inr, ℕ, ◌*◌, ◌^◌, ◌≤◌, ◌<◌, ◌≡◌, ◌⊎◌, true, false, not, ◌&&◌, arith,
}
use spot_spot_relay_arbitrag.Double.{Double, zero_f, min_f, max_f}

module _ {ℓ} {F : Type ℓ} ⦃d : Double F⦄ where
  infix 4 ◌≼◌ ◌≺◌
  abbrev pub ◌≼◌ : F → F → Type 0
  x ≼ y = d.le x y ≡ true

  abbrev pub ◌≺◌ : F → F → Type 0
  x ≺ y = d.lt x y ≡ true

  abbrev pub IsNumber : F → Type 0
  IsNumber x = x ≼ x

pub record IsIeee {ℓ} (F : Type ℓ) ⦃d : Double F⦄ : Type ℓ where
  pub number_of_le : (x y : F) → x ≼ y → IsNumber x × IsNumber y
  pub number_of_lt : (x y : F) → x ≺ y → IsNumber x × IsNumber y
  pub le_trans : (x y z : F) → x ≼ y → y ≼ z → x ≼ z
  pub lt-eq-not-le : (x y : F) → IsNumber x → IsNumber y → d.lt x y ≡ not (d.le y x)
  pub le_total : (x y : F) → IsNumber x → IsNumber y → (x ≼ y) ⊎ (y ≼ x)
  pub eqb-le : (x y : F) → d.eqb x y ≡ (d.le x y && d.le y x)
  -- Literals keep their order, and lie below infinity.
  pub dec_le : (a p b q : ℕ) → a * 10 ^ q ≤ b * 10 ^ p → d.dec a p ≼ d.dec b q
  pub dec_lt :
      (a p b q : ℕ)
      → p ≤ 9
      → q ≤ 9
      → b * 10 ^ p ≤ 10 ^ 15
      → a * 10 ^ q < b * 10 ^ p
      → d.dec a p ≺ d.dec b q
  pub dec-lt-infinity : (a p : ℕ) → a ≤ 10 ^ 15 → d.dec a p ≺ d.infinity
  -- A NaN propagates.
  pub number_of_mul : (x y : F) → IsNumber (d.mul x y) → IsNumber x × IsNumber y
  pub number_of_div : (x y : F) → IsNumber (d.div x y) → IsNumber x × IsNumber y
  pub number_of_sub : (x y : F) → IsNumber (d.sub x y) → IsNumber x × IsNumber y
  pub number_of_add : (x y : F) → IsNumber (d.add x y) → IsNumber x × IsNumber y
  -- Rounding keeps signs, and does not undo an order.
  pub mul_nonneg : (x y : F) → zero_f ≼ x → zero_f ≼ y → IsNumber (d.mul x y) → zero_f ≼ d.mul x y
  pub div_nonneg : (x y : F) → zero_f ≼ x → zero_f ≺ y → IsNumber (d.div x y) → zero_f ≼ d.div x y
  pub add_nonneg : (x y : F) → zero_f ≼ x → zero_f ≼ y → zero_f ≼ d.add x y
  pub sub-le : (x y : F) → zero_f ≼ y → IsNumber (d.sub x y) → d.sub x y ≼ x
  pub lt_of_sub_pos : (x y : F) → zero_f ≺ d.sub x y → y ≺ x

module _ {ℓ} {F : Type ℓ} ⦃d : Double F⦄ (laws : IsIeee F) where
  open laws use {number_of_le, number_of_lt, le_trans, lt-eq-not-le, le_total}

  pub not-lt_of_le : (x y : F) → x ≼ y → d.lt y x ≡ false
  not-lt_of_le x y h = let (nx, ny) = number_of_le x y h in ground (arith, lt-eq-not-le y x ny nx)

  pub le_of_not_lt : (x y : F) → IsNumber x → IsNumber y → d.lt y x ≡ false → x ≼ y
  le_of_not_lt x y nx ny h = ground (arith, lt-eq-not-le y x ny nx)

  pub le_of_lt : (x y : F) → x ≺ y → x ≼ y
  le_of_lt x y h =
      let (nx, ny) = number_of_lt x y h in
      ground (arith, lt-eq-not-le x y nx ny, le_total x y nx ny)

  pub lt_of_lt_of_le : (x y z : F) → x ≺ y → y ≼ z → x ≺ z
  lt_of_lt_of_le x y z h k =
      let (nx, ny) = number_of_lt x y h in
      let nz = (number_of_le y z k).1 in
      ground (arith, lt-eq-not-le x y nx ny, lt-eq-not-le x z nx nz, le_trans y z x k)

  pub lt_of_le_of_lt : (x y z : F) → x ≼ y → y ≺ z → x ≺ z
  lt_of_le_of_lt x y z h k =
      let nx = (number_of_le x y h).0 in
      let (ny, nz) = number_of_lt y z k in
      ground
        (arith, lt-eq-not-le y z ny nz, lt-eq-not-le x z nx nz, λ (e : z ≼ x). le_trans z x y e h)

  pub min_f-number : (x y : F) → IsNumber x → IsNumber y → IsNumber (min_f x y)
  min_f-number x y nx ny = ground arith

  pub min_f-le_left : (x y : F) → IsNumber x → IsNumber y → min_f x y ≼ x
  min_f-le_left x y nx ny = ground (arith, le_of_lt y x)

  pub min_f-le_right : (x y : F) → IsNumber x → IsNumber y → min_f x y ≼ y
  min_f-le_right x y nx ny = ground (arith, le_of_not_lt x y nx ny)

  pub le-max_f_left : (x y : F) → IsNumber x → IsNumber y → x ≼ max_f x y
  le-max_f_left x y nx ny = ground (arith, le_of_lt x y)

  pub le-max_f_right : (x y : F) → IsNumber x → IsNumber y → y ≼ max_f x y
  le-max_f_right x y nx ny = ground (arith, le_of_not_lt y x ny nx)

  pub lt_irrefl : (x : F) → d.lt x x ≡ false
  lt_irrefl x = elim (Bool-cases (d.lt x x)) [
    | inl below ↦ not-lt_of_le x x (le_of_lt x x below)
    | inr e ↦ e
  ]
