-- ===== src/Strategy/EntrySelection/Tests.antt =====
-- A selection among five symbols, and the theorems there.
use spot_spot_relay_arbitrag.Prelude.{
  ℕ, ◌+◌, ◌-◌, ◌≡◌, ◌<◌, refl, Bool, true, false, ◌&&◌, ◌||◌, List, [], ◌∷◌, arith, ltb, ◌==◌,
  get_or, length,
}
use spot_spot_relay_arbitrag.Prelude.Scan.{indices_from}
use spot_spot_relay_arbitrag.Double.Laws.{IsNumber}
use spot_spot_relay_arbitrag.Double.Fixed.{Fixed, of_decimal, fixed_double, Fixed-IsIeee}
use spot_spot_relay_arbitrag.Memory.Bitset.{
  AtomicBitset, new, set, test, for_each_set, visit_rounds, visit_word, read_word, countr_zero,
}
use spot_spot_relay_arbitrag.Memory.Bitset.Laws.{IsValid, new-IsValid, set-IsValid}
use spot_spot_relay_arbitrag.Strategy.EntrySelection.{
  Selection, select_entry_candidates, count_active, push_partial, collect_fresh, take_fresh,
}
use spot_spot_relay_arbitrag.Strategy.EntrySelection.Sort.{
  insertion_sort, insert_by, length-insertion_sort, insertion_sort-IsSort,
}
use spot_spot_relay_arbitrag.Strategy.EntrySelection.Loops.{is_partial}
use spot_spot_relay_arbitrag.Strategy.EntrySelection.Reference.{reference, select_lem}
use spot_spot_relay_arbitrag.Strategy.EntrySelection.Slots.{
  contains, select_slots, select_best_first,
}

-- Symbol 0 has a partial position; 1, 3 and 4 are candidates without one, and 2 has signaled.
abbrev states : List ℕ
states = 2 ∷ 0 ∷ 0 ∷ 0 ∷ 0 ∷ []

abbrev candidates : AtomicBitset
candidates = set 8 4 true (set 8 3 true (set 8 1 true (new 8)))

abbrev signaled : AtomicBitset
signaled = set 8 2 true (new 8)

candidates-IsValid : IsValid 8 candidates
candidates-IsValid =
    set-IsValid 8 4 true (set-IsValid 8 3 true (set-IsValid 8 1 true (new-IsValid 8)))

signaled-IsValid : IsValid 8 signaled
signaled-IsValid = set-IsValid 8 2 true (new-IsValid 8)

abbrev premium_at : ℕ → Fixed
premium_at i = of_decimal (get_or (5 ∷ 7 ∷ 1 ∷ 2 ∷ 4 ∷ []) i 9) 0

premium_at-IsNumber : (i : ℕ) → IsNumber (premium_at i)
premium_at-IsNumber i =
    let a : ℕ = get_or (5 ∷ 7 ∷ 1 ∷ 2 ∷ 4 ∷ []) i 9 in Fixed-IsIeee.dec_le a 0 a 0 (omega arith)

abbrev all_qualified : ℕ → Bool
all_qualified i = true

abbrev selection : Selection
selection =
    select_entry_candidates 8 insertion_sort 5 4 candidates signaled states premium_at all_qualified

-- One position, one signal and four slots leave two for the candidates 3 and 4, which have the lowest premiums.
selection_lem : selection ≡ record {
  indices = 0 ∷ 3 ∷ 4 ∷ [];
  active_positions = 1;
  pending_new_signals = 1;
  free_slots = 0;
}
unfolding select_entry_candidates count_active push_partial collect_fresh take_fresh insertion_sort
    insert_by for_each_set visit_rounds visit_word read_word set new countr_zero
selection_lem = refl

fresh_3 : (test 8 3 candidates && (get_or states 3 0 == 0)) ≡ true
unfolding test set new
fresh_3 = refl

fresh_1 : (test 8 1 candidates && (get_or states 1 0 == 0)) ≡ true
unfolding test set new
fresh_1 = refl

select_lem_example :
    selection ≡ reference 8 insertion_sort 5 4 candidates signaled states premium_at all_qualified
select_lem_example =
    select_lem 8 insertion_sort 5 4 candidates signaled states premium_at all_qualified
      (omega arith) candidates-IsValid signaled-IsValid (length-insertion_sort _ _)

abbrev premiums : (i : ℕ) → i < 5 → IsNumber (premium_at i)
premiums i h = premium_at-IsNumber i

select_slots_example :
    length selection.indices + selection.free_slots
    ≡ length (indices_from (is_partial states all_qualified) 5 0)
      + (4 - (selection.active_positions + selection.pending_new_signals))
select_slots_example =
    select_slots Fixed-IsIeee insertion_sort-IsSort 4 states all_qualified (omega arith)
      candidates-IsValid signaled-IsValid premiums

has_3 : contains 3 selection.indices ≡ true
has_3 = rw selection_lem refl

misses_1 : contains 1 selection.indices ≡ false
misses_1 = rw selection_lem refl

abbrev is_eligible : ℕ → Bool
is_eligible i =
    ltb i 5
    && (is_partial states all_qualified i || (test 8 i candidates && (get_or states i 0 == 0)))

select_best_first_example : fixed_double.lt (premium_at 1) (premium_at 3) ≡ false
select_best_first_example =
    select_best_first Fixed-IsIeee insertion_sort-IsSort 4 states all_qualified (omega arith)
      candidates-IsValid signaled-IsValid premiums 3 1 (omega arith) fresh_3 fresh_1 has_3 misses_1
