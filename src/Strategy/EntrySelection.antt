-- ===== src/Strategy/EntrySelection.antt =====
-- kimp_arb_cpp/include/kimp/strategy/entry_selection_bitmap.hpp: `select_entry_candidates`. The `int`s of
-- the source are not negative here: `MAX_POSITIONS` is 1 to 4, and the rest are counts. `position_state` has
-- 0 for no position, 1 for a full one and 2 for a partial one.
pub mod Sort
pub mod Loops
pub mod Reference
pub mod Slots
mod Tests
use spot_spot_relay_arbitrag.Prelude.{
  ℕ, zero, suc, ◌+◌, ◌-◌, Bool, ◌&&◌, List, [], ◌∷◌, ◌++◌, ltb, ◌==◌, if◌then◌else◌, get_or, length,
}
use spot_spot_relay_arbitrag.Double.{Double}
use spot_spot_relay_arbitrag.Memory.Bitset.{AtomicBitset, for_each_set}

-- `EntrySelectionResult`: `indices` are its first `count` entries.
pub record Selection : Type 0 where
  pub indices : List ℕ
  pub active_positions : ℕ
  pub pending_new_signals : ℕ
  pub free_slots : ℕ

-- `push`: an index is dropped once `MaxSymbols` are there.
abbrev pub push_index : ℕ → ℕ → List ℕ → List ℕ
push_index max_symbols idx xs = if ltb (length xs) max_symbols then xs ++ (idx ∷ []) else xs

abbrev pub state_at : List ℕ → ℕ → ℕ
state_at position_state idx = get_or position_state idx 0

module _ (position_state : List ℕ) where
  -- `for (i = 0; i < symbol_count; ++i) if (position_state[i] != 0) ++active;`
  pub count_active : ℕ → ℕ → ℕ → ℕ
  count_active zero i active = active
  count_active (suc rounds) i active =
      count_active rounds (i + 1) (if state_at position_state i == 0 then active else active + 1)

  -- The callback on the signaled bits.
  abbrev pub count_pending : ℕ → ℕ → ℕ
  count_pending idx pending = if state_at position_state idx == 0 then pending + 1 else pending

  -- The loop over the partial positions.
  pub push_partial : ℕ → (ℕ → Bool) → ℕ → ℕ → List ℕ → List ℕ
  push_partial max_symbols qualified_at zero idx xs = xs
  push_partial max_symbols qualified_at (suc rounds) idx xs =
      push_partial max_symbols qualified_at rounds (idx + 1) (
        if (state_at position_state idx == 2) && qualified_at idx
        then push_index max_symbols idx xs
        else xs)

  -- The callback on the candidate bits: neither a partial position, nor a full one, and a slot is free.
  pub collect_fresh : ℕ → ℕ → ℕ → List ℕ → List ℕ
  collect_fresh max_symbols free_slots idx fresh =
      if state_at position_state idx == 2
      then fresh
      else if state_at position_state idx == 0
      then (if free_slots == 0 then fresh else push_index max_symbols idx fresh)
      else fresh

-- The loop over the sorted candidates: it stops when no slot is free.
pub take_fresh : ℕ → List ℕ → ℕ → List ℕ → List ℕ × ℕ
take_fresh max_symbols [] free_slots xs = (xs, free_slots)
take_fresh max_symbols (idx ∷ rest) free_slots xs =
    let next = take_fresh max_symbols rest (free_slots - 1) (push_index max_symbols idx xs) in
    if free_slots == 0 then (xs, free_slots) else next

module _ {ℓ} {F : Type ℓ} ⦃d : Double F⦄ where
  -- The comparison that the source gives to `std::sort`.
  abbrev pub by_premium : (ℕ → F) → ℕ → ℕ → Bool
  by_premium premium_at lhs rhs = d.lt (premium_at lhs) (premium_at rhs)

  -- `sort` is `std::sort`, of which the standard leaves open how it orders equal items.
  pub select_entry_candidates :
      ℕ
      → ((ℕ → ℕ → Bool) → List ℕ → List ℕ)
      → ℕ
      → ℕ
      → AtomicBitset
      → AtomicBitset
      → List ℕ
      → (ℕ → F)
      → (ℕ → Bool)
      → Selection
  select_entry_candidates max_symbols sort symbol_count max_positions candidate_bits signaled_bits
        position_state premium_at qualified_at =
      let active = count_active position_state symbol_count 0 0 in
      let pending =
        for_each_set (count_pending position_state) max_symbols symbol_count signaled_bits 0 in
      let free_slots = max_positions - (active + pending) in
      let partial = push_partial position_state max_symbols qualified_at symbol_count 0 [] in
      let fresh =
        for_each_set (collect_fresh position_state max_symbols free_slots) max_symbols symbol_count
          candidate_bits [] in
      let (indices, left) =
        take_fresh max_symbols (sort (by_premium premium_at) fresh) free_slots partial in
      record {
        indices = indices;
        active_positions = active;
        pending_new_signals = pending;
        free_slots = left;
      }
