-- ===== src/Strategy/EntrySelection/Slots.antt =====
-- What follows of `select_entry_candidates` from its description: the slots, the eligibility of what is
-- selected, and that the best candidates go first.
use spot_spot_relay_arbitrag.Prelude.{
  ℕ, zero, suc, ◌+◌, ◌-◌, ◌≤◌, ◌<◌, ◌≡◌, refl, ap, ◌∙◌, Bool, true, false, not, ◌&&◌, ◌||◌, List,
  [], ◌∷◌, ◌++◌, arith, ltb, ◌==◌, if◌then◌else◌, Bool-cases, inl, inr, length, length-append, take,
  length-take, All, count_if, count_if_all, count_if-append, count_if-take-le,
}
use spot_spot_relay_arbitrag.Prelude.Scan.{indices_from, All-weaken, IsVisited, indices-IsVisited}
use spot_spot_relay_arbitrag.Double.{Double}
use spot_spot_relay_arbitrag.Double.Laws.{IsNumber, IsIeee}
use spot_spot_relay_arbitrag.Memory.Bitset.{AtomicBitset, test}
use spot_spot_relay_arbitrag.Memory.Bitset.Laws.{IsValid}
use spot_spot_relay_arbitrag.Strategy.EntrySelection.{
  Selection, by_premium, select_entry_candidates,
}
use spot_spot_relay_arbitrag.Strategy.EntrySelection.Sort.{
  IsSameBag, IsSortedBy, IsSort, by_premium-IsWeakOrder,
}
use spot_spot_relay_arbitrag.Strategy.EntrySelection.Loops.{is_partial, is_free}
use spot_spot_relay_arbitrag.Strategy.EntrySelection.Reference.{reference, free_count, select_lem}

-- Whether a number stands in a list.
abbrev pub contains : ℕ → List ℕ → Bool
contains i xs = not (count_if (λ k. k == i) xs == 0)

same_length : (xs ys : List ℕ) → IsSameBag xs ys → length xs ≡ length ys
same_length xs ys h = omega (arith, count_if_all xs, count_if_all ys, h (λ _. true))

contains_here :
    (i x : ℕ) (xs : List ℕ) → contains i (x ∷ xs) ≡ (if x == i then true else contains i xs)
contains_here i x xs = ground arith

contains_below :
    (p : ℕ → Bool) (n start i : ℕ) → i < start → contains i (indices_from p n start) ≡ false
contains_below p zero start i h = refl
contains_below p (suc n) start i h = ground (arith, contains_below p n (start + 1) i (omega arith))

contains-indices :
    (p : ℕ → Bool) (n start i : ℕ)
    → start ≤ i
    → i < start + n
    → contains i (indices_from p n start) ≡ p i
contains-indices p zero start i lo hi = absurd (omega arith)
contains-indices p (suc n) start i lo hi = elim (Bool-cases (start == i)) [
  | inl here ↦
      let e : start ≡ i = ground arith in
      rw e (ground (arith, contains_below p n (i + 1) i (omega arith)))
  | inr later ↦ ground (arith, contains-indices p n (start + 1) i (ground arith) (omega arith))
]

All-contains : (P : ℕ → Type 0) (i : ℕ) (xs : List ℕ) → All P xs → contains i xs ≡ true → P i
All-contains P i [] h c = absurd (ground (arith, c))
All-contains P i (x ∷ xs) h c = elim (Bool-cases (x == i)) [
  | inl here ↦ let e : x ≡ i = ground arith in rw e at (h.0)
  | inr later ↦ All-contains P i xs h.1 (ground arith)
]

-- In a sorted list, an item that a prefix misses is not less than one that the prefix has.
prefix_first :
    (less : ℕ → ℕ → Bool) (n : ℕ) (xs : List ℕ) (i j : ℕ)
    → IsSortedBy less xs
    → contains i (take n xs) ≡ true
    → contains j (take n xs) ≡ false
    → contains j xs ≡ true
    → less j i ≡ false
prefix_first less zero xs i j s hi hj h = absurd (ground (arith, hi))
prefix_first less (suc n) [] i j s hi hj h = absurd (ground (arith, hi))
prefix_first less (suc n) (x ∷ xs) i j s hi hj h =
    let later : contains j xs ≡ true = ground arith in
    elim (Bool-cases (x == i)) [
      | inl here ↦
          let e : x ≡ i = ground arith in
          rw e at (All-contains (λ y. less y x ≡ false) j xs s.0 later)
      | inr there ↦ prefix_first less n xs i j s.1 (ground arith) (ground arith) later
    ]

contains-append :
    (i : ℕ) (xs ys : List ℕ) → contains i (xs ++ ys) ≡ (contains i xs || contains i ys)
contains-append i xs ys = ground (arith, count_if-append (λ k. k == i) xs ys)

contains-take : (i n : ℕ) (xs : List ℕ) → contains i (take n xs) ≡ true → contains i xs ≡ true
contains-take i n xs h = ground (arith, count_if-take-le (λ k. k == i) n xs)

module _ {ℓ} {F : Type ℓ} ⦃d : Double F⦄ (laws : IsIeee F) {max_symbols : ℕ}
    {sort : (ℕ → ℕ → Bool) → List ℕ → List ℕ} (is_sort : IsSort sort) {symbol_count : ℕ}
    (max_positions : ℕ) {candidate_bits signaled_bits : AtomicBitset} (position_state : List ℕ)
    {premium_at : ℕ → F} (qualified_at : ℕ → Bool) (h : symbol_count ≤ max_symbols)
    (vc : IsValid max_symbols candidate_bits) (vs : IsValid max_symbols signaled_bits)
    (numbers : (i : ℕ) → i < symbol_count → IsNumber (premium_at i)) where
  -- Whether an index is a candidate without a position.
  abbrev pub is_fresh : ℕ → Bool
  is_fresh i = test max_symbols i candidate_bits && is_free position_state i

  abbrev partial : List ℕ
  partial = indices_from (is_partial position_state qualified_at) symbol_count 0

  abbrev fresh : List ℕ
  fresh = indices_from is_fresh symbol_count 0

  fresh-All : All (λ i. IsNumber (premium_at i)) fresh
  fresh-All =
      All-weaken _ _ fresh (λ i v. numbers i v.below)
        (indices-IsVisited is_fresh symbol_count 0 symbol_count (omega arith))

  sorted : IsSortedBy (by_premium premium_at) (sort (by_premium premium_at) fresh)
  sorted = is_sort.sorted _ _ fresh (by_premium-IsWeakOrder laws premium_at) fresh-All

  same_bag : IsSameBag (sort (by_premium premium_at) fresh) fresh
  same_bag = is_sort.same_bag _ _ fresh (by_premium-IsWeakOrder laws premium_at) fresh-All

  abbrev pub selected : Selection
  selected =
      select_entry_candidates max_symbols sort symbol_count max_positions candidate_bits
        signaled_bits position_state premium_at qualified_at

  abbrev free : ℕ
  free =
      free_count max_symbols sort symbol_count max_positions candidate_bits signaled_bits
        position_state premium_at qualified_at

  abbrev described : Selection
  described =
      reference max_symbols sort symbol_count max_positions candidate_bits signaled_bits
        position_state premium_at qualified_at

  selected_lem : selected ≡ described
  selected_lem =
      select_lem max_symbols sort symbol_count max_positions candidate_bits signaled_bits
        position_state premium_at qualified_at h vc vs (same_length _ _ same_bag)

  -- Where the bitsets are well-formed, the symbols fit `MaxSymbols`, `std::sort` keeps its contract and the
  -- premiums are numbers, the selected indices and the slots left free are together the qualified
  -- partial positions and the slots that positions and pending signals left.
  pub select_slots :
      length selected.indices + selected.free_slots
      ≡ length (indices_from (is_partial position_state qualified_at) symbol_count 0)
        + (max_positions - (selected.active_positions + selected.pending_new_signals))
  select_slots = rw selected_lem (
      omega (
        arith,
        length-append (indices_from (is_partial position_state qualified_at) symbol_count 0)
            (take free (sort (by_premium premium_at) fresh)),
        length-take free (sort (by_premium premium_at) fresh),
        same_length _ _ same_bag,
      ))

  visited :
      (p : ℕ → Bool) (i : ℕ)
      → contains i (indices_from p symbol_count 0) ≡ true
      → IsVisited p 0 symbol_count i
  visited p i c =
      All-contains (IsVisited p 0 symbol_count) i (indices_from p symbol_count 0)
        (indices-IsVisited p symbol_count 0 symbol_count (omega arith)) c

  abbrev picked : List ℕ
  picked = take free (sort (by_premium premium_at) fresh)

  contains-selected :
      (i : ℕ) → contains i selected.indices ≡ (contains i partial || contains i picked)
  contains-selected i =
      ap (λ s. contains i s.indices) selected_lem ∙ contains-append i partial picked

  picked-fresh : (i : ℕ) → contains i picked ≡ true → contains i fresh ≡ true
  picked-fresh i c =
      ground
        (arith, contains-take i free (sort (by_premium premium_at) fresh) c, same_bag (λ k. k == i))

  -- Where the bitsets are well-formed, the symbols fit `MaxSymbols`, `std::sort` keeps its contract and the
  -- premiums are numbers, a selected index is below the symbol count, and is a qualified partial
  -- position or a candidate without a position.
  select_eligible :
      (i : ℕ)
      → contains i selected.indices ≡ true
      → (ltb i symbol_count && (is_partial position_state qualified_at i || is_fresh i)) ≡ true
  select_eligible i c = elim (Bool-cases (contains i partial)) [
    | inl p ↦
        let v : IsVisited (is_partial position_state qualified_at) 0 symbol_count i =
          visited _ i p in
        ground (arith, v.passes, v.below)
    | inr n ↦
        let v : IsVisited is_fresh 0 symbol_count i =
          visited is_fresh i (picked-fresh i (ground (arith, c, contains-selected i))) in
        ground (arith, v.passes, v.below)
  ]

  fresh-not_partial : (i : ℕ) → is_fresh i ≡ true → contains i partial ≡ false
  fresh-not_partial i f = elim (Bool-cases (contains i partial)) [
    | inl p ↦
        let v : IsVisited (is_partial position_state qualified_at) 0 symbol_count i =
          visited _ i p in
        absurd (ground (arith, v.passes, f))
    | inr n ↦ n
  ]

  -- Where the bitsets are well-formed, the symbols fit `MaxSymbols`, `std::sort` keeps its contract and the
  -- premiums are numbers, no candidate without a position that is left out has a lower premium than
  -- one that is selected.
  pub select_best_first :
      (i j : ℕ)
      → j < symbol_count
      → is_fresh i ≡ true
      → is_fresh j ≡ true
      → contains i selected.indices ≡ true
      → contains j selected.indices ≡ false
      → d.lt (premium_at j) (premium_at i) ≡ false
  select_best_first i j hj fi fj ci cj =
      prefix_first (by_premium premium_at) free (sort (by_premium premium_at) fresh) i j sorted
        (ground (arith, ci, contains-selected i, fresh-not_partial i fi))
        (ground (arith, cj, contains-selected j))
        (ground (
          arith,
          same_bag (λ k. k == j),
          contains-indices is_fresh symbol_count 0 j (omega arith) (omega arith),
        ))
