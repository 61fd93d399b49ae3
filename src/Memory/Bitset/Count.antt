-- ===== src/Memory/Bitset/Count.antt =====
-- `count` of `AtomicBitset` is the number of set indices below the limit.
use native.Mathlib.Nat.{zero-add}
use spot_spot_relay_arbitrag.Prelude.{
  ℕ, zero, suc, ◌+◌, ◌-◌, ◌*◌, ◌/◌, ◌<◌, ◌≡◌, refl, ap, ◌∙◌, Bool, min, arith, length,
  length-append,
}
use spot_spot_relay_arbitrag.Prelude.Bits.{bit}
use spot_spot_relay_arbitrag.Prelude.Scan.{indices_from, indices-append}
use spot_spot_relay_arbitrag.Memory.Bitset.{
  AtomicBitset, word_bits, clamp_limit, read_word, popcount, count_rounds, count, test,
}
use spot_spot_relay_arbitrag.Memory.Bitset.Laws.{IsValid}
use spot_spot_relay_arbitrag.Memory.Bitset.Visit.{is_read, is_read-bit, is_read-test}

popcount_lem :
    (p : ℕ → Bool) (n w start : ℕ)
    → ((j : ℕ) → j < n → p (start + j) ≡ bit w j)
    → popcount n w ≡ length (indices_from p n start)
unfolding popcount bit
popcount_lem p zero w start h = refl
popcount_lem p (suc n) w start h =
    let z : start + 0 ≡ start = omega arith in
    let rest : popcount n (w / 2) ≡ length (indices_from p n (start + 1)) =
      popcount_lem p n (w / 2) (start + 1) (λ j k.
        let e : start + 1 + j ≡ start + suc j = omega arith in rw e (h (suc j) (omega arith))) in
    let here : p start ≡ bit w 0 = rw z at (h 0 (omega arith)) in ground arith

module _ (limit : ℕ) (b : AtomicBitset) where
  count_rounds_lem :
      (rounds k start total : ℕ)
      → k + rounds ≡ (limit + word_bits - 1) / word_bits
      → start ≡ k * 64
      → count_rounds limit ((limit + word_bits - 1) / word_bits) rounds k b total
        ≡ total + length (indices_from (is_read limit b) (rounds * 64) start)
  unfolding count_rounds
  count_rounds_lem zero k start total e es = omega arith
  count_rounds_lem (suc r) k start total e es =
      let e' : suc r * 64 ≡ 64 + r * 64 = omega arith in
      let word : ℕ = read_word limit ((limit + word_bits - 1) / word_bits) k b in
      rw
        (
          e',
          indices-append (is_read limit b) 64 (r * 64) start (start + 64) refl,
          length-append (indices_from (is_read limit b) 64 start),
          ← popcount_lem (is_read limit b) 64 word start
              (λ j h. rw es (is_read-bit limit k j b (omega arith) h)),
        )
        (omega (
          arith,
          count_rounds_lem r (k + 1) (start + 64) (total + popcount 64 word) (omega arith)
              (omega arith),
        ))

-- On a well-formed bitset, `count` is the number of indices below the limit and below `BitCount` for
-- which `test` holds.
pub count_lem :
    (n limit : ℕ) {b : AtomicBitset}
    → IsValid n b
    → count n limit b ≡ length (indices_from (λ i. test n i b) (min n limit) 0)
unfolding count
count_lem n limit {b} v =
    let m : clamp_limit n limit ≡ min n limit = ground arith in
    rw m (
      count_rounds_lem (min n limit) b ((min n limit + word_bits - 1) / word_bits) 0 0 0
        (omega arith) (omega arith)
      ∙ zero-add _
      ∙ ap length (is_read-test (min n limit) v (omega arith)))
