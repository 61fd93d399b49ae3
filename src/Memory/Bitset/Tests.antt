-- ===== src/Memory/Bitset/Tests.antt =====
-- Runs of the bitset, and its theorems at concrete bitsets.
use spot_spot_relay_arbitrag.Prelude.{◌≡◌, refl, true, [], ◌∷◌}
use spot_spot_relay_arbitrag.Prelude.Scan.{indices_from, each}
use spot_spot_relay_arbitrag.Prelude.{length}
use spot_spot_relay_arbitrag.Memory.Bitset.{
  AtomicBitset, new, set, test, count, for_each_set, visit_rounds, visit_word, read_word,
  countr_zero, count_rounds, popcount,
}
use spot_spot_relay_arbitrag.Memory.Bitset.Laws.{IsValid, new-IsValid, set-IsValid}
use spot_spot_relay_arbitrag.Memory.Bitset.Visit.{for_each_set_lem}
use spot_spot_relay_arbitrag.Memory.Bitset.Count.{count_lem}

-- Bits 3, 64 and 69 of 70.
abbrev three : AtomicBitset
three = set 70 69 true (set 70 3 true (set 70 64 true (new 70)))

three-IsValid : IsValid 70 three
three-IsValid =
    set-IsValid 70 69 true (set-IsValid 70 3 true (set-IsValid 70 64 true (new-IsValid 70)))

visits_in_order : for_each_set ◌∷◌ 70 70 three [] ≡ 69 ∷ 64 ∷ 3 ∷ []
unfolding for_each_set visit_rounds visit_word read_word set new countr_zero
visits_in_order = refl

counts_below_the_limit : count 70 69 three ≡ 2
unfolding count count_rounds popcount read_word set new
counts_below_the_limit = refl

for_each_set_lem_example :
    for_each_set ◌∷◌ 70 100 three [] ≡ each ◌∷◌ [] (indices_from (λ i. test 70 i three) 70 0)
for_each_set_lem_example = for_each_set_lem ◌∷◌ 70 100 [] three-IsValid

count_lem_example : count 70 65 three ≡ length (indices_from (λ i. test 70 i three) 65 0)
count_lem_example = count_lem 70 65 three-IsValid
