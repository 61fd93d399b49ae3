-- ===== src/Prelude/Scan.antt =====
-- The indices of a range that pass a test, in ascending order: what a guarded `for` loop visits.
use Prim.Native.Nat.{ℕ, zero, suc, ◌+◌, ◌≤◌, ◌<◌}
use mathlib.Core.Path.{◌≡◌, refl}
use mathlib.Core.Bool.{Bool, true, false}
use mathlib.Core.Logic.{inl, inr}
use mathlib.Core.List.{List, [], ◌∷◌, ◌++◌}
use native.Mathlib.Omega.{arith}
use spot_spot_relay_arbitrag.Prelude.Tests.{if◌then◌else◌, Bool-cases}
use spot_spot_relay_arbitrag.Prelude.Lists.{length, All}

-- `for (i = start; i < start + n; ++i) if (p(i)) visit(i)`.
abbrev pub indices_from : (ℕ → Bool) → ℕ → ℕ → List ℕ
indices_from p zero start = []
indices_from p (suc n) start =
    if p start then start ∷ indices_from p n (start + 1) else indices_from p n (start + 1)

-- The calls `fn(i)` of a loop, on the state that they change.
abbrev pub each {ℓ} : {S : Type ℓ} → (ℕ → S → S) → S → List ℕ → S
each fn s [] = s
each fn s (i ∷ is) = each fn (fn i s) is

pub each-append {ℓ} :
    {S : Type ℓ} (fn : ℕ → S → S) (s : S) (is js : List ℕ)
    → each fn s (is ++ js) ≡ each fn (each fn s is) js
each-append fn s [] js = refl
each-append fn s (i ∷ is) js = each-append fn (fn i s) is js

pub indices_congr :
    (p q : ℕ → Bool) (n start : ℕ)
    → ((i : ℕ) → start ≤ i → i < start + n → p i ≡ q i)
    → indices_from p n start ≡ indices_from q n start
indices_congr p q zero start h = refl
indices_congr p q (suc n) start h = rw (
  h start (omega arith) (omega arith),
  indices_congr p q n (start + 1) (λ i lo hi. h i (omega arith) (omega arith)),
)

pub indices_none :
    (p : ℕ → Bool) (n start : ℕ)
    → ((i : ℕ) → start ≤ i → i < start + n → p i ≡ false)
    → indices_from p n start ≡ []
indices_none p zero start h = refl
indices_none p (suc n) start h =
    rw (h start (omega arith) (omega arith))
      (indices_none p n (start + 1) (λ i lo hi. h i (omega arith) (omega arith)))

pub indices-append :
    (p : ℕ → Bool) (n m start next : ℕ)
    → next ≡ start + n
    → indices_from p (n + m) start ≡ indices_from p n start ++ indices_from p m next
indices-append p zero m start next e =
    let e' : next ≡ start = omega arith in let z : 0 + m ≡ m = omega arith in rw (e', z)
indices-append p (suc n) m start next e =
    let z : suc n + m ≡ suc (n + m) = omega arith in
    rw z (ground (arith, indices-append p n m (start + 1) next (omega arith)))

-- What a visited index satisfies.
pub record IsVisited (p : ℕ → Bool) (lo hi i : ℕ) : Type 0 where
  pub passes : p i ≡ true
  pub above : lo ≤ i
  pub below : i < hi

pub All-weaken {ℓ κ ι} :
    {A : Type ℓ} (P : A → Type κ) (Q : A → Type ι) (xs : List A)
    → ((x : A) → P x → Q x)
    → All P xs
    → All Q xs
All-weaken P Q [] f h = tt
All-weaken P Q (x ∷ xs) f h = (f x h.0, All-weaken P Q xs f h.1)

pub indices-IsVisited :
    (p : ℕ → Bool) (n start hi : ℕ)
    → start + n ≤ hi
    → All (IsVisited p start hi) (indices_from p n start)
indices-IsVisited p zero start hi h = tt
indices-IsVisited p (suc n) start hi h =
    let rest : All (IsVisited p start hi) (indices_from p n (start + 1)) =
      All-weaken (IsVisited p (start + 1) hi) (IsVisited p start hi) _
        (λ i v. record { passes = v.passes; above = omega arith; below = v.below })
        (indices-IsVisited p n (start + 1) hi (omega arith)) in
    elim (Bool-cases (p start)) [
      | inl t ↦ rw t (record { passes = t; above = omega arith; below = omega arith }, rest)
      | inr f ↦ rw f rest
    ]

pub length-indices-le : (p : ℕ → Bool) (n start : ℕ) → length (indices_from p n start) ≤ n
length-indices-le p zero start = omega arith
length-indices-le p (suc n) start = ground (arith, length-indices-le p n (start + 1))
