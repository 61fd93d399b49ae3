-- ===== src/Prelude/Bits.antt =====
-- Words as sequences of bits: `bit w i` is bit `i` of `w`, and `&`, `|`, `~` act bit by bit.
use Prim.Native.Nat.{
  ℕ, zero, suc, ◌+◌, ◌-◌, ◌*◌, ◌/◌, ◌%◌, ◌^◌, ◌≤◌, ◌<◌, min, max, digits, bitwise, bit_and, bit_or,
  bit_and-bitwise, bit_or-bitwise,
}
use mathlib.Core.Path.{◌≡◌, refl, ◌∙◌}
use mathlib.Core.Bool.{Bool, false, not, ◌&&◌, ◌||◌}
use native.Mathlib.Nat.{pow-suc, one-le-pow}
use native.Mathlib.Omega.{arith}
use spot_spot_relay_arbitrag.Prelude.Tests.{◌==◌, ltb}

-- One unit of fuel past the value of the first operand changes nothing, and so no amount does.
module _ (rest : ℕ → ℕ) (op : ℕ → ℕ → ℕ) where
  one_more : (fuel x y : ℕ) → x ≤ fuel → digits rest op (suc fuel) x y ≡ digits rest op fuel x y
  one_more zero x y h = let e : x ≡ 0 = omega arith in rw e refl
  one_more (suc fuel) zero y h = refl
  one_more (suc fuel) (suc x) y h =
      let half : suc x / 2 ≤ fuel = omega arith in rw (one_more fuel (suc x / 2) (y / 2) half)

  any_more :
      (extra fuel x y : ℕ) → x ≤ fuel → digits rest op (fuel + extra) x y ≡ digits rest op fuel x y
  any_more zero fuel x y h = let e : fuel + 0 ≡ fuel = omega arith in rw e refl
  any_more (suc extra) fuel x y h =
      let e : fuel + suc extra ≡ suc (fuel + extra) = omega arith in
      rw (e, one_more (fuel + extra) x y (omega arith)) (any_more extra fuel x y h)

  halve_operands :
      (x y : ℕ)
      → bitwise rest op (suc x) y ≡ bitwise rest op (suc x / 2) (y / 2) * 2 + op (suc x % 2) (y % 2)
  halve_operands x y =
      let e : suc x / 2 + (x - suc x / 2) ≡ x = omega arith in
      let enough : digits rest op x (suc x / 2) (y / 2) ≡ bitwise rest op (suc x / 2) (y / 2) =
        rw e at (any_more (x - suc x / 2) (suc x / 2) (suc x / 2) (y / 2) (omega arith)) in
      omega (arith, enough)

bit_or-halves : (x y : ℕ) → bit_or x y ≡ bit_or (x / 2) (y / 2) * 2 + max (x % 2) (y % 2)
bit_or-halves zero y = simp bit_or-bitwise (omega arith)
bit_or-halves (suc w) y = simp bit_or-bitwise (halve_operands (λ r. r) max w y)

bit_and-halves : (x y : ℕ) → bit_and x y ≡ bit_and (x / 2) (y / 2) * 2 + min (x % 2) (y % 2)
bit_and-halves zero y = simp bit_and-bitwise (omega arith)
bit_and-halves (suc w) y = simp bit_and-bitwise (halve_operands (λ r. 0) min w y)

unfoldable pub bit : ℕ → ℕ → Bool
bit w zero = w % 2 == 1
bit w (suc i) = bit (w / 2) i

pub bit-zero : (i : ℕ) → bit 0 i ≡ false
unfolding bit
bit-zero zero = refl
bit-zero (suc i) = bit-zero i

pub bit-bit_and : (a b i : ℕ) → bit (bit_and a b) i ≡ (bit a i && bit b i)
unfolding bit
bit-bit_and a b zero = ground (arith, bit_and-halves a b)
bit-bit_and a b (suc i) =
    let e : bit_and a b / 2 ≡ bit_and (a / 2) (b / 2) = omega (arith, bit_and-halves a b) in
    rw e (bit-bit_and (a / 2) (b / 2) i)

pub bit-bit_or : (a b i : ℕ) → bit (bit_or a b) i ≡ (bit a i || bit b i)
unfolding bit
bit-bit_or a b zero = ground (arith, bit_or-halves a b)
bit-bit_or a b (suc i) =
    let e : bit_or a b / 2 ≡ bit_or (a / 2) (b / 2) = omega (arith, bit_or-halves a b) in
    rw e (bit-bit_or (a / 2) (b / 2) i)

-- `uint64_t{1} << i` has the one bit `i`.
pub bit-pow : (i j : ℕ) → bit (2 ^ i) j ≡ (i == j)
unfolding bit
bit-pow zero zero = refl
bit-pow zero (suc j) = bit-zero j ∙ ground arith
bit-pow (suc i) zero = ground (arith, pow-suc 2 i)
bit-pow (suc i) (suc j) =
    let e : 2 ^ suc i / 2 ≡ 2 ^ i = omega (arith, pow-suc 2 i) in rw e (bit-pow i j ∙ ground arith)

-- `(uint64_t{1} << k) - 1` has the bits below `k`.
pub bit-low_mask : (k i : ℕ) → bit (2 ^ k - 1) i ≡ ltb i k
unfolding bit
bit-low_mask zero i = bit-zero i ∙ ground arith
bit-low_mask (suc k) zero = ground (arith, pow-suc 2 k, one-le-pow k 2)
bit-low_mask (suc k) (suc i) =
    let e : (2 ^ suc k - 1) / 2 ≡ 2 ^ k - 1 = omega (arith, pow-suc 2 k) in
    rw e (bit-low_mask k i ∙ ground arith)

-- `~a` on a word of `n` bits.
pub bit-complement : (n a i : ℕ) → a < 2 ^ n → i < n → bit (2 ^ n - 1 - a) i ≡ not (bit a i)
unfolding bit
bit-complement zero a i h hi = absurd (omega arith)
bit-complement (suc n) a zero h hi = ground (arith, pow-suc 2 n)
bit-complement (suc n) a (suc i) h hi =
    let e : (2 ^ suc n - 1 - a) / 2 ≡ 2 ^ n - 1 - a / 2 = omega (arith, pow-suc 2 n) in
    rw e (bit-complement n (a / 2) i (omega (arith, pow-suc 2 n)) (omega arith))

-- A word with no bit is zero, and a word of `n` bits has none from `n` on.
pub bit_above : (n a i : ℕ) → a < 2 ^ n → n ≤ i → bit a i ≡ false
unfolding bit
bit_above zero a i h hi = let e : a ≡ 0 = omega arith in rw e (bit-zero i)
bit_above (suc n) a zero h hi = absurd (omega arith)
bit_above (suc n) a (suc i) h hi = bit_above n (a / 2) i (omega (arith, pow-suc 2 n)) (omega arith)

pub eq_zero_of_bits : (n a : ℕ) → a < 2 ^ n → ((i : ℕ) → bit a i ≡ false) → a ≡ 0
unfolding bit
eq_zero_of_bits zero a h none_set = omega arith
eq_zero_of_bits (suc n) a h none_set = ground (
  arith,
  none_set 0,
  eq_zero_of_bits n (a / 2) (omega (arith, pow-suc 2 n)) (λ i. none_set (suc i)),
)

pub bit_and-lt : (n a b : ℕ) → a < 2 ^ n → bit_and a b < 2 ^ n
bit_and-lt zero a b h = let e : a ≡ 0 = omega arith in rw e (simp bit_and-bitwise (omega arith))
bit_and-lt (suc n) a b h = omega (
  arith,
  pow-suc 2 n,
  bit_and-halves a b,
  bit_and-lt n (a / 2) (b / 2) (omega (arith, pow-suc 2 n)),
)

pub bit_or-lt : (n a b : ℕ) → a < 2 ^ n → b < 2 ^ n → bit_or a b < 2 ^ n
bit_or-lt zero a b h k =
    let e : a ≡ 0 = omega arith in let e' : b ≡ 0 = omega arith in rw (e, e') (omega arith)
bit_or-lt (suc n) a b h k = omega (
  arith,
  pow-suc 2 n,
  bit_or-halves a b,
  bit_or-lt n (a / 2) (b / 2) (omega (arith, pow-suc 2 n)) (omega (arith, pow-suc 2 n)),
)

bit_and-zero : (n a : ℕ) → a ≤ n → bit_and a 0 ≡ 0
bit_and-zero n zero h = simp bit_and-bitwise (omega arith)
bit_and-zero zero (suc a) h = absurd (omega arith)
bit_and-zero (suc n) (suc a) h =
    omega (arith, bit_and-halves (suc a) 0, bit_and-zero n (suc a / 2) (omega arith))

-- The same bound from the second operand, as for `h & (size - 1)`.
pub bit_and-lt_right : (n a b : ℕ) → b < 2 ^ n → bit_and a b < 2 ^ n
bit_and-lt_right zero a b h =
    let e : b ≡ 0 = omega arith in rw (e, bit_and-zero a a (omega arith)) (omega arith)
bit_and-lt_right (suc n) a b h = omega (
  arith,
  pow-suc 2 n,
  bit_and-halves a b,
  bit_and-lt_right n (a / 2) (b / 2) (omega (arith, pow-suc 2 n)),
)

-- `x & (2 ^ k - 1)` on a number below `2 ^ k`, and on `2 ^ k`.
pub bit_and-mask : (k x : ℕ) → x < 2 ^ k → bit_and x (2 ^ k - 1) ≡ x
bit_and-mask zero x h = let e : x ≡ 0 = omega arith in rw e (bit_and-zero 0 0 (omega arith))
bit_and-mask (suc k) x h =
    let half : (2 ^ suc k - 1) / 2 ≡ 2 ^ k - 1 = omega (arith, pow-suc 2 k) in
    let odd : (2 ^ suc k - 1) % 2 ≡ 1 = omega (arith, pow-suc 2 k, one-le-pow k 2) in
    bit_and-halves x (2 ^ suc k - 1)
    ∙ rw (half, odd, bit_and-mask k (x / 2) (omega (arith, pow-suc 2 k))) (omega arith)

pub bit_and-pow-mask : (k : ℕ) → bit_and (2 ^ k) (2 ^ k - 1) ≡ 0
bit_and-pow-mask zero = bit_and-zero 1 1 (omega arith)
bit_and-pow-mask (suc k) =
    let half : (2 ^ suc k - 1) / 2 ≡ 2 ^ k - 1 = omega (arith, pow-suc 2 k) in
    let half' : 2 ^ suc k / 2 ≡ 2 ^ k = omega (arith, pow-suc 2 k) in
    let even : 2 ^ suc k % 2 ≡ 0 = omega (arith, pow-suc 2 k) in
    bit_and-halves (2 ^ suc k) (2 ^ suc k - 1)
    ∙ rw (half, half', even, bit_and-pow-mask k) (omega arith)
