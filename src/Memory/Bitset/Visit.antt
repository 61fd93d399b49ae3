-- ===== src/Memory/Bitset/Visit.antt =====
-- `for_each_set` of `AtomicBitset` visits the set indices below the limit, in ascending order.
use mathlib.Core.List.{append-nil}
use spot_spot_relay_arbitrag.Prelude.{
  ℕ, zero, suc, ◌+◌, ◌-◌, ◌*◌, ◌/◌, ◌%◌, ◌^◌, ◌≤◌, ◌<◌, ◌≡◌, ◌≢◌, refl, ap, ◌∙◌, inl, inr, Bool,
  true, false, not, ◌&&◌, bit_and, arith, ltb, ◌==◌, Bool-cases, get_or, min,
}
use spot_spot_relay_arbitrag.Prelude.Bits.{
  bit, bit-zero, bit-bit_and, bit-low_mask, eq_zero_of_bits, bit_and-lt, bit_above,
}
use spot_spot_relay_arbitrag.Prelude.Scan.{
  indices_from, each, each-append, indices_congr, indices_none, indices-append,
}
use spot_spot_relay_arbitrag.Memory.Bitset.{
  AtomicBitset, word_bits, clamp_limit, read_word, countr_zero, visit_word, visit_rounds,
  for_each_set, test,
}
use spot_spot_relay_arbitrag.Memory.Bitset.Laws.{
  IsValid, IsWord, get_or-IsWord, bit_at, test-bit_at,
}

-- The bits of `w` below `lo` are clear and bit `lo` is set.
pub record IsLowest (w lo : ℕ) : Type 0 where
  pub clear : (i : ℕ) → i < lo → bit w i ≡ false
  pub found : bit w lo ≡ true

halve : (w lo : ℕ) → IsLowest w (suc lo) → IsLowest (w / 2) lo
unfolding bit
halve w lo l = record { clear = λ i h. l.clear (suc i) (omega arith); found = l.found }

countr_zero_lem : (n w lo : ℕ) → lo < n → IsLowest w lo → countr_zero n w ≡ lo
unfolding countr_zero bit
countr_zero_lem zero w lo h l = absurd (omega arith)
countr_zero_lem (suc n) w zero h l = rw l.found
countr_zero_lem (suc n) w (suc lo) h l =
    rw (l.clear 0 (omega arith))
      (ap suc (countr_zero_lem n (w / 2) lo (omega arith) (halve w lo l)))

pos_of_bit : (w i : ℕ) → bit w i ≡ true → w ≢ 0
pos_of_bit w i h e = let z : bit w i ≡ false = rw e (bit-zero i) in ground arith

-- Only the lowest bit is lost between `w` and `w - 1`, as far as `&` shows.
shared_bits : (w lo j : ℕ) → IsLowest w lo → (bit w j && bit (w - 1) j) ≡ (bit w j && not (lo == j))
unfolding bit
shared_bits w zero zero l = let h : w % 2 ≡ 1 = ground (arith, l.found) in ground arith
shared_bits w zero (suc j) l =
    let h : w % 2 ≡ 1 = ground (arith, l.found) in
    let e : (w - 1) / 2 ≡ w / 2 = omega arith in rw e (ground arith)
shared_bits w (suc lo) zero l =
    let c : (w % 2 == 1) ≡ false = l.clear 0 (omega arith) in ground arith
shared_bits w (suc lo) (suc j) l =
    let c : (w % 2 == 1) ≡ false = l.clear 0 (omega arith) in
    let p : w / 2 ≢ 0 = pos_of_bit (w / 2) lo l.found in
    let e : (w - 1) / 2 ≡ w / 2 - 1 = ground arith in
    rw e (shared_bits (w / 2) lo j (halve w lo l) ∙ ground arith)

-- `word & (word - 1)` clears just the lowest bit.
clear_lowest : (w lo j : ℕ) → IsLowest w lo → bit (bit_and w (w - 1)) j ≡ (bit w j && not (lo == j))
clear_lowest w lo j l = bit-bit_and w (w - 1) j ∙ shared_bits w lo j l

-- A predicate on indices that, from `base` on, reads the bits of `w` in the range `[lo, 64)`.
abbrev Agrees : (ℕ → Bool) → ℕ → ℕ → ℕ → Type 0
Agrees p base w lo = (j : ℕ) → lo ≤ j → j < 64 → p (base + j) ≡ bit w j

module _ {ℓ} {S : Type ℓ} (fn : ℕ → S → S) (p : ℕ → Bool) where
  visit_word_lem :
      (n lo fuel base w start : ℕ) (s : S)
      → lo + n ≡ 64
      → start ≡ base + lo
      → n ≤ fuel
      → IsWord w
      → ((i : ℕ) → i < lo → bit w i ≡ false)
      → Agrees p base w lo
      → visit_word fn fuel base w s ≡ each fn s (indices_from p n start)
  unfolding visit_word
  visit_word_lem zero lo zero base w start s el es hf hw below agrees = refl
  visit_word_lem zero lo (suc fuel) base w start s el es hf hw below agrees =
      let z : w ≡ 0 = eq_zero_of_bits 64 w hw (λ i. elim (Bool-cases (ltb i 64)) [
        | inl h ↦ below i (ground arith)
        | inr h ↦ bit_above 64 w i hw (ground arith)
      ]) in
      rw z
  visit_word_lem (suc n) lo zero base w start s el es hf hw below agrees = absurd (omega arith)
  visit_word_lem (suc n) lo (suc fuel) base w start s el es hf hw below agrees =
      elim (Bool-cases (bit w lo)) [
        | inl found ↦
            let l : IsLowest w lo = record { clear = below; found = found } in
            let here : p start ≡ true = rw es (agrees lo (omega arith) (omega arith) ∙ found) in
            let more : (w == 0) ≡ false = ground (arith, pos_of_bit w lo found) in
            rw (here, more, countr_zero_lem 64 w lo (omega arith) l, ← es)
              (visit_word_lem n (lo + 1) fuel base (bit_and w (w - 1)) (start + 1) (fn start s)
                (omega arith) (omega arith) (omega arith) (bit_and-lt 64 w (w - 1) hw)
                (λ i h. clear_lowest w lo i l ∙ ground (arith, below i))
                (λ j h k. agrees j (omega arith) k ∙ ground (arith, clear_lowest w lo j l)))
        | inr clear ↦
            let skip : p start ≡ false = rw es (agrees lo (omega arith) (omega arith) ∙ clear) in
            rw skip (
              visit_word_lem n (lo + 1) (suc fuel) base w (start + 1) s (omega arith) (omega arith)
                (omega arith) hw
                (λ i h. elim (Bool-cases (ltb i lo)) [
                  | inl k ↦ below i (ground arith)
                  | inr k ↦ let e : i ≡ lo = ground arith in rw e clear
                ])
                (λ j h k. agrees j (omega arith) k))
      ]

-- The bits that a round reads: those of the word, but for the ones from the limit on.
pub bit-read_word :
    (limit k j : ℕ) (b : AtomicBitset)
    → k < (limit + word_bits - 1) / word_bits
    → j < 64
    → bit (read_word limit ((limit + word_bits - 1) / word_bits) k b) j
      ≡ (bit_at b k j && ltb (64 * k + j) limit)
unfolding read_word
bit-read_word limit k j b h hj =
    ground (
      arith,
      bit-bit_and (get_or b.words k 0) (2 ^ (limit % 64) - 1) j,
      bit-low_mask (limit % 64) j,
    )

pub read_word-IsWord :
    {n : ℕ} (limit word_limit k : ℕ) {b : AtomicBitset}
    → IsValid n b
    → IsWord (read_word limit word_limit k b)
unfolding read_word
read_word-IsWord limit word_limit k {b} v =
    elim (Bool-cases ((k + 1 == word_limit) && not (limit % 64 == 0))) [
      | inl masked ↦ rw masked (bit_and-lt 64 (get_or b.words k 0) _ (get_or-IsWord v k))
      | inr whole ↦ rw whole (get_or-IsWord v k)
    ]

-- What the rounds take for set: a bit of its word, below the limit.
abbrev pub is_read : ℕ → AtomicBitset → ℕ → Bool
is_read limit b i = bit_at b (i / 64) (i % 64) && ltb i limit

pub is_read-bit :
    (limit k j : ℕ) (b : AtomicBitset)
    → k < (limit + word_bits - 1) / word_bits
    → j < 64
    → is_read limit b (k * 64 + j)
      ≡ bit (read_word limit ((limit + word_bits - 1) / word_bits) k b) j
is_read-bit limit k j b h hj =
    let d : (k * 64 + j) / 64 ≡ k = omega arith in
    let m : (k * 64 + j) % 64 ≡ j = omega arith in
    rw (bit-read_word limit k j b h hj, d, m) (ground arith)

module _ {ℓ} {S : Type ℓ} (fn : ℕ → S → S) {n : ℕ} (limit : ℕ) {b : AtomicBitset}
    (v : IsValid n b) where
  visit_rounds_lem :
      (rounds k start : ℕ) (s : S)
      → k + rounds ≡ (limit + word_bits - 1) / word_bits
      → start ≡ k * 64
      → visit_rounds fn limit ((limit + word_bits - 1) / word_bits) rounds k b s
        ≡ each fn s (indices_from (is_read limit b) (rounds * 64) start)
  unfolding visit_rounds
  visit_rounds_lem zero k start s e es = refl
  visit_rounds_lem (suc r) k start s e es =
      let e' : suc r * 64 ≡ 64 + r * 64 = omega arith in
      let word : ℕ = read_word limit ((limit + word_bits - 1) / word_bits) k b in
      rw
        (
          e',
          indices-append (is_read limit b) 64 (r * 64) start (start + 64) refl,
          each-append fn s (indices_from (is_read limit b) 64 start),
          ← visit_word_lem fn (is_read limit b) 64 0 64 (k * 64) word start s refl (omega arith)
              (omega arith) (read_word-IsWord limit _ k v) (λ i h. absurd (omega arith))
              (λ j lo hi. is_read-bit limit k j b (omega arith) hi),
        )
        (visit_rounds_lem r (k + 1) (start + 64) _ (omega arith) (omega arith))

-- Past the limit nothing is read, and below it what `test` answers.
pub is_read-test :
    {n : ℕ} (limit : ℕ) {b : AtomicBitset}
    → IsValid n b
    → limit ≤ n
    → indices_from (is_read limit b) ((limit + word_bits - 1) / word_bits * 64) 0
      ≡ indices_from (λ i. test n i b) limit 0
is_read-test {n} limit {b} v h =
    let extra : ℕ = (limit + word_bits - 1) / word_bits * 64 - limit in
    let e : (limit + word_bits - 1) / word_bits * 64 ≡ limit + extra = omega arith in
    rw
      (
        e,
        indices-append (is_read limit b) limit extra 0 limit (omega arith),
        indices_none (is_read limit b) extra limit (λ i lo hi. ground arith),
        append-nil,
      )
      (indices_congr (is_read limit b) (λ i. test n i b) limit 0
        (λ i lo hi. ground (arith, test-bit_at n i b v)))

-- On a well-formed bitset, `for_each_set` calls `fn` on just those indices below the limit and below
-- `BitCount` for which `test` holds, each once and in ascending order.
pub for_each_set_lem {ℓ} :
    {S : Type ℓ} (fn : ℕ → S → S) (n limit : ℕ) {b : AtomicBitset} (s : S)
    → IsValid n b
    → for_each_set fn n limit b s ≡ each fn s (indices_from (λ i. test n i b) (min n limit) 0)
unfolding for_each_set
for_each_set_lem fn n limit {b} s v =
    let m : clamp_limit n limit ≡ min n limit = ground arith in
    rw m (
      visit_rounds_lem fn (min n limit) v ((min n limit + word_bits - 1) / word_bits) 0 0 s
        (omega arith) (omega arith)
      ∙ ap (each fn s) (is_read-test (min n limit) v (omega arith)))
