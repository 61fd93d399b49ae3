-- ===== src/Strategy/EntrySelection/Loops.antt =====
-- The loops of `select_entry_candidates` against filtered lists of indices.
use mathlib.Core.List.{append-nil, append_assoc}
use spot_spot_relay_arbitrag.Prelude.{
  ℕ, zero, suc, ◌+◌, ◌-◌, ◌≤◌, ◌<◌, ◌≡◌, ◌≢◌, refl, ap, ◌∙◌, Bool, true, false, not, ◌&&◌, List, [],
  ◌∷◌, ◌++◌, arith, ltb, ◌==◌, if◌then◌else◌, Bool-cases, inl, inr, length, length-append, take,
}
use spot_spot_relay_arbitrag.Prelude.Scan.{indices_from, each}
use spot_spot_relay_arbitrag.Strategy.EntrySelection.{
  state_at, count_active, count_pending, push_partial, collect_fresh, take_fresh,
}

module _ (position_state : List ℕ) where
  abbrev pub is_held : ℕ → Bool
  is_held i = not (state_at position_state i == 0)

  abbrev pub is_partial : (ℕ → Bool) → ℕ → Bool
  is_partial qualified_at i = (state_at position_state i == 2) && qualified_at i

  abbrev pub is_free : ℕ → Bool
  is_free i = state_at position_state i == 0

  pub count_active_lem :
      (n i a : ℕ) → count_active position_state n i a ≡ a + length (indices_from is_held n i)
  unfolding count_active
  count_active_lem zero i a = omega arith
  count_active_lem (suc n) i a =
      ground (arith, count_active_lem n (i + 1) a, count_active_lem n (i + 1) (a + 1))

  pub count_pending_lem :
      (p : ℕ → Bool) (n i a : ℕ)
      → each (count_pending position_state) a (indices_from p n i)
        ≡ a + length (indices_from (λ j. p j && is_free j) n i)
  count_pending_lem p zero i a = omega arith
  count_pending_lem p (suc n) i a =
      ground (arith, count_pending_lem p n (i + 1) a, count_pending_lem p n (i + 1) (a + 1))

  pub push_partial_lem :
      (max_symbols : ℕ) (q : ℕ → Bool) (n i : ℕ) (xs : List ℕ)
      → length xs + n ≤ max_symbols
      → push_partial position_state max_symbols q n i xs ≡ xs ++ indices_from (is_partial q) n i
  unfolding push_partial
  push_partial_lem m q zero i xs h = rw append-nil
  push_partial_lem m q (suc n) i xs h = elim (Bool-cases (is_partial q i)) [
    | inl t ↦
        let room : ltb (length xs) m ≡ true = ground arith in
        rw (t, room)
          (push_partial_lem m q n (i + 1) (xs ++ (i ∷ []))
              (omega (arith, length-append xs (i ∷ [])))
            ∙ append_assoc xs (i ∷ []) _)
    | inr f ↦ rw f (push_partial_lem m q n (i + 1) xs (omega arith))
  ]

  collect_step :
      (max_symbols free i : ℕ) (xs : List ℕ)
      → length xs < max_symbols
      → collect_fresh position_state max_symbols free i xs
        ≡ (if is_free i && not (free == 0) then xs ++ (i ∷ []) else xs)
  unfolding collect_fresh
  collect_step m free i xs h = ground arith

  -- With a free slot the callback keeps just the candidates without a position; with none it keeps nothing.
  pub collect_fresh_lem :
      (max_symbols free : ℕ) (p : ℕ → Bool) (n i : ℕ) (xs : List ℕ)
      → length xs + n ≤ max_symbols
      → free ≢ 0
      → each (collect_fresh position_state max_symbols free) xs (indices_from p n i)
        ≡ xs ++ indices_from (λ j. p j && is_free j) n i
  collect_fresh_lem m free p zero i xs h nz = rw append-nil
  collect_fresh_lem m free p (suc n) i xs h nz = elim (Bool-cases (p i)) [
    | inl t ↦
        let rest : List ℕ = indices_from p n (i + 1) in
        rw t (elim (Bool-cases (is_free i)) [
          | inl vacant ↦
              let kept : collect_fresh position_state m free i xs ≡ xs ++ (i ∷ []) =
                ground (arith, collect_step m free i xs (omega arith)) in
              rw vacant (
                ap (λ s. each (collect_fresh position_state m free) s rest) kept
                ∙ collect_fresh_lem m free p n (i + 1) (xs ++ (i ∷ []))
                    (omega (arith, length-append xs (i ∷ []))) nz
                ∙ append_assoc xs (i ∷ []) _)
          | inr held ↦
              let passed : collect_fresh position_state m free i xs ≡ xs =
                ground (arith, collect_step m free i xs (omega arith)) in
              rw held (
                ap (λ s. each (collect_fresh position_state m free) s rest) passed
                ∙ collect_fresh_lem m free p n (i + 1) xs (omega arith) nz)
        ])
    | inr f ↦ rw f (collect_fresh_lem m free p n (i + 1) xs (omega arith) nz)
  ]

  collect_none :
      (max_symbols : ℕ) (xs is : List ℕ)
      → each (collect_fresh position_state max_symbols 0) xs is ≡ xs
  unfolding collect_fresh
  collect_none m xs [] = refl
  collect_none m xs (i ∷ is) =
      let passed : collect_fresh position_state m 0 i xs ≡ xs = ground arith in
      rw passed (collect_none m xs is)

  -- No index is both a partial position and without one.
  pub disjoint_lengths :
      (p q : ℕ → Bool) (n i : ℕ)
      → length (indices_from (is_partial q) n i) + length (indices_from (λ j. p j && is_free j) n i)
        ≤ n
  disjoint_lengths p q zero i = omega arith
  disjoint_lengths p q (suc n) i = ground (arith, disjoint_lengths p q n (i + 1))

pub take_fresh_lem :
    (max_symbols : ℕ) (xs : List ℕ) (free : ℕ) (acc : List ℕ)
    → length acc + length xs ≤ max_symbols
    → take_fresh max_symbols xs free acc ≡ (acc ++ take free xs, free - length xs)
unfolding take_fresh
take_fresh_lem m [] zero acc h = rw append-nil refl
take_fresh_lem m [] (suc f) acc h = rw append-nil (ap (λ (k : ℕ). (acc, k)) (omega arith))
take_fresh_lem m (x ∷ xs) zero acc h = rw append-nil (ap (λ (k : ℕ). (acc, k)) (omega arith))
take_fresh_lem m (x ∷ xs) (suc f) acc h =
    let room : ltb (length acc) m ≡ true = ground arith in
    let more : (suc f == 0) ≡ false = ground arith in
    let less : suc f - 1 ≡ f = omega arith in
    let left : f - length xs ≡ suc f - suc (length xs) = omega arith in
    rw (
      more,
      room,
      less,
      take_fresh_lem m xs f (acc ++ (x ∷ [])) (omega (arith, length-append acc (x ∷ []))),
      append_assoc acc (x ∷ []) (take f xs),
      left,
    )

pub take_fresh_none :
    (max_symbols : ℕ) (xs acc : List ℕ) → take_fresh max_symbols xs 0 acc ≡ (acc, 0)
unfolding take_fresh
take_fresh_none m [] acc = refl
take_fresh_none m (x ∷ xs) acc = refl
