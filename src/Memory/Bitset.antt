-- ===== src/Memory/Bitset.antt =====
-- kimp_arb_cpp/include/kimp/memory/atomic_bitset.hpp: `AtomicBitset<BitCount>`. A word is a number below
-- 2 ^ 64. Each method runs to its end; its one `fetch_or` or `fetch_and` is the only write.
pub mod Laws
pub mod Visit
pub mod Count
mod Tests
use spot_spot_relay_arbitrag.Prelude.{
  ℕ, zero, suc, ◌+◌, ◌-◌, ◌*◌, ◌/◌, ◌%◌, ◌^◌, Bool, true, false, not, ◌&&◌, List, [], ◌∷◌, map,
  bit_and, bit_or, ltb, leb, ◌==◌, if◌then◌else◌, get_or, set as write, replicate,
}

abbrev pub word_bits : ℕ
word_bits = 64

abbrev pub word_count : ℕ → ℕ
word_count bit_count = (bit_count + word_bits - 1) / word_bits

-- `words_`.
pub record AtomicBitset : Type 0 where
  pub words : List ℕ

unfoldable pub new : ℕ → AtomicBitset
new bit_count = record { words = replicate (word_count bit_count) 0 }

-- `~mask` on `uint64_t`.
abbrev pub complement : ℕ → ℕ
complement mask = 2 ^ 64 - 1 - mask

unfoldable pub set : ℕ → ℕ → Bool → AtomicBitset → AtomicBitset
set bit_count index enabled b =
    let word_idx = index / word_bits in
    let mask = 2 ^ (index % word_bits) in
    let current = get_or b.words word_idx 0 in
    let already = not (bit_and current mask == 0) in
    if leb bit_count index
    then b
    else if enabled
    then (if already then b else record { words = write b.words word_idx (bit_or current mask) })
    else if not already
    then b
    else record { words = write b.words word_idx (bit_and current (complement mask)) }

unfoldable pub test : ℕ → ℕ → AtomicBitset → Bool
test bit_count index b =
    let word_idx = index / word_bits in
    let mask = 2 ^ (index % word_bits) in
    if leb bit_count index then false else not (bit_and (get_or b.words word_idx 0) mask == 0)

pub clear_all : AtomicBitset → AtomicBitset
clear_all b = record { words = map (λ _. 0) b.words }

-- The word that `count` and `for_each_set` read in a round, its bits from `limit` on masked off.
unfoldable pub read_word : ℕ → ℕ → ℕ → AtomicBitset → ℕ
read_word limit word_limit word_idx b =
    let word = get_or b.words word_idx 0 in
    if (word_idx + 1 == word_limit) && not (limit % word_bits == 0)
    then bit_and word (2 ^ (limit % word_bits) - 1)
    else word

-- `std::popcount` of a word of `n` bits.
pub popcount : ℕ → ℕ → ℕ
popcount zero word = 0
popcount (suc n) word = word % 2 + popcount n (word / 2)

-- `if (limit > BitCount) limit = BitCount;`
abbrev pub clamp_limit : ℕ → ℕ → ℕ
clamp_limit bit_count limit = if ltb bit_count limit then bit_count else limit

count_rounds : ℕ → ℕ → ℕ → ℕ → AtomicBitset → ℕ → ℕ
count_rounds limit word_limit zero word_idx b total = total
count_rounds limit word_limit (suc rounds) word_idx b total =
    count_rounds limit word_limit rounds (word_idx + 1) b
      (total + popcount 64 (read_word limit word_limit word_idx b))

pub count : ℕ → ℕ → AtomicBitset → ℕ
count bit_count limit b =
    let limit' = clamp_limit bit_count limit in
    let word_limit = (limit' + word_bits - 1) / word_bits in
    count_rounds limit' word_limit word_limit 0 b 0

-- `std::countr_zero` of a word of `n` bits.
unfoldable pub countr_zero : ℕ → ℕ → ℕ
countr_zero zero word = 0
countr_zero (suc n) word = if word % 2 == 1 then 0 else suc (countr_zero n (word / 2))

module _ {ℓ} {S : Type ℓ} (fn : ℕ → S → S) where
  -- `while (word != 0)`, on fuel: every round clears a bit, so 64 rounds are enough.
  unfoldable pub visit_word : ℕ → ℕ → ℕ → S → S
  visit_word zero base word s = s
  visit_word (suc fuel) base word s =
      let rest =
        visit_word fuel base (bit_and word (word - 1)) (fn (base + countr_zero 64 word) s) in
      if word == 0 then s else rest

  unfoldable pub visit_rounds : ℕ → ℕ → ℕ → ℕ → AtomicBitset → S → S
  visit_rounds limit word_limit zero word_idx b s = s
  visit_rounds limit word_limit (suc rounds) word_idx b s =
      visit_rounds limit word_limit rounds (word_idx + 1) b
        (visit_word 64 (word_idx * word_bits) (read_word limit word_limit word_idx b) s)

  -- `fn` changes the state that the callback of the source captures.
  unfoldable pub for_each_set : ℕ → ℕ → AtomicBitset → S → S
  for_each_set bit_count limit b s =
      let limit' = clamp_limit bit_count limit in
      let word_limit = (limit' + word_bits - 1) / word_bits in
      visit_rounds limit' word_limit word_limit 0 b s
