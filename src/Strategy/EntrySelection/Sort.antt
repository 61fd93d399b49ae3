-- ===== src/Strategy/EntrySelection/Sort.antt =====
-- What `std::sort` promises, and an insertion sort that keeps the promise.
use spot_spot_relay_arbitrag.Prelude.{
  ℕ, ◌≡◌, refl, Bool, true, false, List, [], ◌∷◌, arith, if◌then◌else◌, Bool-cases, inl, inr, All,
  count_if, count_if_all, length,
}
use spot_spot_relay_arbitrag.Double.{Double}
use spot_spot_relay_arbitrag.Double.Laws.{IsNumber, IsIeee, le_of_not_lt, not-lt_of_le, le_of_lt}
use spot_spot_relay_arbitrag.Strategy.EntrySelection.{by_premium}

-- Two lists have the same items, each as often: every test passes as often in both.
abbrev pub IsSameBag : List ℕ → List ℕ → Type 0
IsSameBag xs ys = (p : ℕ → Bool) → count_if p xs ≡ count_if p ys

-- No later item is less than an earlier one.
abbrev pub IsSortedBy : (ℕ → ℕ → Bool) → List ℕ → Type 0
IsSortedBy less [] = Unit
IsSortedBy less (x ∷ xs) = All (λ y. less y x ≡ false) xs × IsSortedBy less xs

-- `less` is a strict weak order on the items that satisfy `P`.
pub record IsWeakOrder (P : ℕ → Type 0) (less : ℕ → ℕ → Bool) : Type 0 where
  pub asymm : (i j : ℕ) → P i → P j → less i j ≡ true → less j i ≡ false
  pub negative_trans :
      (i j k : ℕ) → P i → P j → P k → less i j ≡ false → less j k ≡ false → less i k ≡ false

-- The contract of `std::sort`: on items that the comparison orders weakly, it permutes and it sorts.
pub record IsSort (sort : (ℕ → ℕ → Bool) → List ℕ → List ℕ) : Type 1 where
  pub same_bag :
      (P : ℕ → Type 0) (less : ℕ → ℕ → Bool) (xs : List ℕ)
      → IsWeakOrder P less
      → All P xs
      → IsSameBag (sort less xs) xs
  pub sorted :
      (P : ℕ → Type 0) (less : ℕ → ℕ → Bool) (xs : List ℕ)
      → IsWeakOrder P less
      → All P xs
      → IsSortedBy less (sort less xs)

-- Premiums that are numbers are ordered weakly.
pub by_premium-IsWeakOrder {ℓ} :
    {F : Type ℓ} ⦃d : Double F⦄
    → IsIeee F
    → (premium_at : ℕ → F) → IsWeakOrder (λ i. IsNumber (premium_at i)) (by_premium premium_at)
by_premium-IsWeakOrder {F} ⦃d⦄ laws premium_at = record {
  asymm = λ i j ni nj h. not-lt_of_le laws _ _ (le_of_lt laws _ _ h);
  negative_trans = λ i j k ni nj nk h g.
      not-lt_of_le laws _ _
        (laws.le_trans _ _ _ (le_of_not_lt laws _ _ nk nj g) (le_of_not_lt laws _ _ nj ni h));
}

unfoldable pub insert_by : (ℕ → ℕ → Bool) → ℕ → List ℕ → List ℕ
insert_by less x [] = x ∷ []
insert_by less x (y ∷ ys) = if less y x then y ∷ insert_by less x ys else x ∷ y ∷ ys

unfoldable pub insertion_sort : (ℕ → ℕ → Bool) → List ℕ → List ℕ
unfolding insert_by
insertion_sort less [] = []
insertion_sort less (x ∷ xs) = insert_by less x (insertion_sort less xs)

count_if-insert_by :
    (less : ℕ → ℕ → Bool) (x : ℕ) (ys : List ℕ) (p : ℕ → Bool)
    → count_if p (insert_by less x ys) ≡ count_if p (x ∷ ys)
unfolding insert_by
count_if-insert_by less x [] p = refl
count_if-insert_by less x (y ∷ ys) p = ground (arith, count_if-insert_by less x ys p)

insertion_sort-IsSameBag :
    (less : ℕ → ℕ → Bool) (xs : List ℕ) → IsSameBag (insertion_sort less xs) xs
unfolding insertion_sort
insertion_sort-IsSameBag less [] p = refl
insertion_sort-IsSameBag less (x ∷ xs) p = ground (
  arith,
  count_if-insert_by less x (insertion_sort less xs) p,
  insertion_sort-IsSameBag less xs p,
)

pub length-insertion_sort :
    (less : ℕ → ℕ → Bool) (xs : List ℕ) → length (insertion_sort less xs) ≡ length xs
length-insertion_sort less xs = omega (
  arith,
  count_if_all xs,
  count_if_all (insertion_sort less xs),
  insertion_sort-IsSameBag less xs (λ _. true),
)

module _ (P : ℕ → Type 0) (less : ℕ → ℕ → Bool) (w : IsWeakOrder P less) where
  insert_by-All :
      (Q : ℕ → Type 0) (x : ℕ) (ys : List ℕ) → Q x → All Q ys → All Q (insert_by less x ys)
  unfolding insert_by
  insert_by-All Q x [] hx h = (hx, tt)
  insert_by-All Q x (y ∷ ys) hx h = elim (Bool-cases (less y x)) [
    | inl t ↦ rw t (h.0, insert_by-All Q x ys hx h.1)
    | inr f ↦ rw f (hx, h)
  ]

  insertion_sort-All : (xs : List ℕ) → All P xs → All P (insertion_sort less xs)
  unfolding insertion_sort
  insertion_sort-All [] h = tt
  insertion_sort-All (x ∷ xs) h =
      insert_by-All P x (insertion_sort less xs) h.0 (insertion_sort-All xs h.1)

  above-All :
      (x y : ℕ) (ys : List ℕ)
      → P x
      → P y
      → All P ys
      → less y x ≡ false
      → All (λ z. less z y ≡ false) ys
      → All (λ z. less z x ≡ false) ys
  above-All x y [] hx hy h e a = tt
  above-All x y (z ∷ ys) hx hy h e a =
      (w.negative_trans z y x h.0 hy hx a.0 e, above-All x y ys hx hy h.1 e a.1)

  insert_by-IsSortedBy :
      (x : ℕ) (ys : List ℕ)
      → P x
      → All P ys
      → IsSortedBy less ys
      → IsSortedBy less (insert_by less x ys)
  unfolding insert_by
  insert_by-IsSortedBy x [] hx h s = (tt, tt)
  insert_by-IsSortedBy x (y ∷ ys) hx h s = elim (Bool-cases (less y x)) [
    | inl t ↦ rw t (
      insert_by-All (λ z. less z y ≡ false) x ys (w.asymm y x h.0 hx t) s.0,
      insert_by-IsSortedBy x ys hx h.1 s.1,
    )
    | inr f ↦ rw f ((f, above-All x y ys hx h.0 h.1 f s.0), s)
  ]

  insertion_sort-IsSortedBy : (xs : List ℕ) → All P xs → IsSortedBy less (insertion_sort less xs)
  unfolding insertion_sort
  insertion_sort-IsSortedBy [] h = tt
  insertion_sort-IsSortedBy (x ∷ xs) h =
      insert_by-IsSortedBy x (insertion_sort less xs) h.0 (insertion_sort-All xs h.1)
        (insertion_sort-IsSortedBy xs h.1)

pub insertion_sort-IsSort : IsSort insertion_sort
insertion_sort-IsSort = record {
  same_bag = λ P less xs w h. insertion_sort-IsSameBag less xs;
  sorted = λ P less xs w. insertion_sort-IsSortedBy P less w xs;
}
