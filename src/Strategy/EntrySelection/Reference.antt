-- ===== src/Strategy/EntrySelection/Reference.antt =====
-- `select_entry_candidates` against a description without bitsets, arrays or loops: the qualified partial
-- positions, then the best fresh candidates, as many as there are free slots.
use mathlib.Core.List.{append-nil}
use native.Mathlib.Nat.{zero-add}
use spot_spot_relay_arbitrag.Prelude.{
  ℕ, zero, suc, ◌+◌, ◌-◌, ◌≤◌, ◌≡◌, refl, ap, ◌∙◌, Bool, ◌&&◌, List, [], ◌++◌, arith, length, take,
  min,
}
use spot_spot_relay_arbitrag.Prelude.Scan.{indices_from}
use spot_spot_relay_arbitrag.Double.{Double}
use spot_spot_relay_arbitrag.Memory.Bitset.{AtomicBitset, for_each_set, test}
use spot_spot_relay_arbitrag.Memory.Bitset.Laws.{IsValid}
use spot_spot_relay_arbitrag.Memory.Bitset.Visit.{for_each_set_lem}
use spot_spot_relay_arbitrag.Strategy.EntrySelection.{
  Selection, count_active, count_pending, collect_fresh, take_fresh, by_premium,
  select_entry_candidates,
}
use spot_spot_relay_arbitrag.Strategy.EntrySelection.Loops.{
  is_held, is_partial, is_free, count_active_lem, count_pending_lem, push_partial_lem,
  collect_fresh_lem, disjoint_lengths, take_fresh_lem, take_fresh_none,
}

module _ {ℓ} {F : Type ℓ} ⦃d : Double F⦄ (max_symbols : ℕ) (sort : (ℕ → ℕ → Bool) → List ℕ → List ℕ)
    (symbol_count max_positions : ℕ) (candidate_bits signaled_bits : AtomicBitset)
    (position_state : List ℕ) (premium_at : ℕ → F) (qualified_at : ℕ → Bool) where
  abbrev pub partial_indices : List ℕ
  partial_indices = indices_from (is_partial position_state qualified_at) symbol_count 0

  -- The indices that are candidates and have no position.
  abbrev pub fresh_indices : List ℕ
  fresh_indices =
      indices_from (λ i. test max_symbols i candidate_bits && is_free position_state i) symbol_count
        0

  abbrev pub active_count : ℕ
  active_count = length (indices_from (is_held position_state) symbol_count 0)

  abbrev pub pending_count : ℕ
  pending_count = length (
      indices_from (λ i. test max_symbols i signaled_bits && is_free position_state i) symbol_count
        0)

  abbrev pub free_count : ℕ
  free_count = max_positions - (active_count + pending_count)

  abbrev pub reference : Selection
  reference = record {
    indices = partial_indices ++ take free_count (sort (by_premium premium_at) fresh_indices);
    active_positions = active_count;
    pending_new_signals = pending_count;
    free_slots = free_count - length fresh_indices;
  }

  module _ (h : symbol_count ≤ max_symbols) (vc : IsValid max_symbols candidate_bits)
      (vs : IsValid max_symbols signaled_bits)
      (keep : length (sort (by_premium premium_at) fresh_indices) ≡ length fresh_indices) where
    pending_lem :
        for_each_set (count_pending position_state) max_symbols symbol_count signaled_bits 0
        ≡ pending_count
    pending_lem =
        let m : min max_symbols symbol_count ≡ symbol_count = ground arith in
        for_each_set_lem (count_pending position_state) max_symbols symbol_count 0 vs
        ∙ rw m (
            count_pending_lem position_state (λ i. test max_symbols i signaled_bits) symbol_count 0
              0
            ∙ zero-add _)

    taken_lem :
        (free : ℕ)
        → take_fresh max_symbols
            (sort (by_premium premium_at) (
              for_each_set
                (collect_fresh position_state max_symbols free)
                max_symbols
                symbol_count
                candidate_bits
                []))
            free
            partial_indices
          ≡ (
            partial_indices ++ take free (sort (by_premium premium_at) fresh_indices),
            free - length fresh_indices,
          )
    taken_lem zero =
        let none : 0 - length fresh_indices ≡ 0 = omega arith in
        rw (append-nil, none) (take_fresh_none max_symbols _ _)
    taken_lem (suc f) =
        let m : min max_symbols symbol_count ≡ symbol_count = ground arith in
        let some : for_each_set (collect_fresh position_state max_symbols (suc f)) max_symbols
              symbol_count candidate_bits []
            ≡ fresh_indices =
          for_each_set_lem (collect_fresh position_state max_symbols (suc f)) max_symbols
            symbol_count [] vc
          ∙ rw m (
              collect_fresh_lem position_state max_symbols (suc f)
                (λ i. test max_symbols i candidate_bits) symbol_count 0 [] (omega arith)
                (omega arith)) in
        let room : length partial_indices + length (sort (by_premium premium_at) fresh_indices)
            ≤ max_symbols =
          omega (
            arith,
            keep,
            disjoint_lengths position_state (λ i. test max_symbols i candidate_bits) qualified_at
                symbol_count 0,
          ) in
        rw some (
          take_fresh_lem max_symbols (sort (by_premium premium_at) fresh_indices) (suc f)
            partial_indices room
          ∙ ap
              (λ (k : ℕ). (
                partial_indices ++ take (suc f) (sort (by_premium premium_at) fresh_indices),
                suc f - k,
              ))
              (keep))

    -- Where the bitsets are well-formed, the symbols fit `MaxSymbols` and the sort keeps the length of the
    -- fresh candidates, the result is: first the qualified partial positions by index, then the sorted
    -- fresh candidates, as many as the slots that positions and pending signals leave free.
    pub select_lem :
        select_entry_candidates max_symbols sort symbol_count max_positions candidate_bits
          signaled_bits position_state premium_at qualified_at
        ≡ reference
    unfolding select_entry_candidates
    select_lem =
        let held : count_active position_state symbol_count 0 0 ≡ active_count =
          count_active_lem position_state symbol_count 0 0 ∙ zero-add _ in
        rw
          (
            held,
            pending_lem,
            push_partial_lem position_state max_symbols qualified_at symbol_count 0 []
                (omega arith),
            taken_lem free_count,
          )
          refl
