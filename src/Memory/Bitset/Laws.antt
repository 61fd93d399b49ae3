-- ===== src/Memory/Bitset/Laws.antt =====
-- What `set`, `test` and `clear_all` of `AtomicBitset` do to each other.
use spot_spot_relay_arbitrag.Prelude.{
  ℕ, ◌/◌, ◌%◌, ◌^◌, ◌≤◌, ◌<◌, ◌≡◌, ◌≢◌, ◌⊎◌, refl, ap, ◌∙◌, inl, inr, Bool, true, false, not, ◌&&◌,
  List, [], ◌∷◌, map, bit_and, bit_or, arith, ltb, leb, ◌==◌, if◌then◌else◌, Bool-cases, get_or,
  set as write, length, length-set, length-replicate, get_or-set_self, get_or-set_ne, All, All-set,
  All-get_or, All-replicate, get_or-replicate, replicate,
}
use spot_spot_relay_arbitrag.Prelude.Bits.{
  bit, bit-zero, bit-bit_and, bit-bit_or, bit-pow, bit-complement, eq_zero_of_bits, bit_and-lt,
  bit_or-lt,
}
use spot_spot_relay_arbitrag.Memory.Bitset.{
  AtomicBitset, word_count, complement, new, set, test, clear_all,
}
use native.Mathlib.Nat.{pow-le-pow_right}

abbrev pub IsWord : ℕ → Type 0
IsWord w = w < 2 ^ 64

-- One word for each 64 bits, each in the range of `uint64_t`.
pub record IsValid (bit_count : ℕ) (b : AtomicBitset) : Type 0 where
  pub sized : length b.words ≡ word_count bit_count
  pub in_range : All IsWord b.words

pub get_or-IsWord :
    {bit_count : ℕ} {b : AtomicBitset} → IsValid bit_count b → (i : ℕ) → IsWord (get_or b.words i 0)
get_or-IsWord {b} v i = All-get_or IsWord b.words i (omega arith) v.in_range

-- Bit `j` of word `k`.
abbrev pub bit_at : AtomicBitset → ℕ → ℕ → Bool
bit_at b k j = bit (get_or b.words k 0) j

pow_in_range : (i : ℕ) → i < 64 → 2 ^ i < 2 ^ 64
pow_in_range i h =
    omega (arith, pow-le-pow_right {n = 2} (omega arith) {i = i} {j = 63} (omega arith))

-- `(word & (1 << i)) != 0` reads bit `i`.
pub mask_test : (w i : ℕ) → IsWord w → i < 64 → not (bit_and w (2 ^ i) == 0) ≡ bit w i
mask_test w i h hi = elim (Bool-cases (bit w i)) [
  | inl set_bit ↦ ground (arith, set_bit, bit-bit_and w (2 ^ i) i, bit-pow i i, differs set_bit)
  | inr clear ↦ ground (
    arith,
    clear,
    eq_zero_of_bits 64 (bit_and w (2 ^ i)) (bit_and-lt 64 w (2 ^ i) h) (vanishes clear),
  )
]
  where
    differs : bit w i ≡ true → bit_and w (2 ^ i) ≢ 0
    differs e z =
        let p : bit (bit_and w (2 ^ i)) i ≡ false = rw z (bit-zero i) in
        ground (arith, bit-bit_and w (2 ^ i) i, bit-pow i i)

    vanishes : bit w i ≡ false → (j : ℕ) → bit (bit_and w (2 ^ i)) j ≡ false
    vanishes e j = ground (arith, bit-bit_and w (2 ^ i) j, bit-pow i j)

pub test-bit_at :
    (n j : ℕ) (b : AtomicBitset)
    → IsValid n b
    → test n j b ≡ (ltb j n && bit_at b (j / 64) (j % 64))
unfolding test
test-bit_at n j b v =
    ground (
      arith,
      mask_test (get_or b.words (j / 64) 0) (j % 64) (get_or-IsWord v (j / 64)) (omega arith),
    )

-- What `set` writes into the word that it selects.
new_word : ℕ → ℕ → Bool → ℕ
new_word w i true = bit_or w (2 ^ i)
new_word w i false = bit_and w (complement (2 ^ i))

new_word-IsWord : (w i : ℕ) (e : Bool) → IsWord w → i < 64 → IsWord (new_word w i e)
unfolding new_word
new_word-IsWord w i true h hi = bit_or-lt 64 w (2 ^ i) h (pow_in_range i hi)
new_word-IsWord w i false h hi = bit_and-lt 64 w _ h

bit-new_word :
    (w i : ℕ) (e : Bool) (j : ℕ)
    → i < 64
    → j < 64
    → bit (new_word w i e) j ≡ (if i == j then e else bit w j)
unfolding new_word
bit-new_word w i true j hi hj = ground (arith, bit-bit_or w (2 ^ i) j, bit-pow i j)
bit-new_word w i false j hi hj = ground (
  arith,
  bit-bit_and w (complement (2 ^ i)) j,
  bit-pow i j,
  bit-complement 64 (2 ^ i) j (pow_in_range i hi) hj,
)

-- `set` writes only if the bit differs from what is wanted.
set-words :
    (n i : ℕ) (e : Bool) (b : AtomicBitset)
    → IsValid n b
    → i < n
    → ((bit_at b (i / 64) (i % 64) ≡ e) × (set n i e b ≡ b))
      ⊎ (set n i e b ≡ record {
        words = write b.words (i / 64) (new_word (get_or b.words (i / 64) 0) (i % 64) e);
      })
unfolding set new_word
set-words n i true b v h =
    ground (
      arith,
      mask_test (get_or b.words (i / 64) 0) (i % 64) (get_or-IsWord v (i / 64)) (omega arith),
    )
set-words n i false b v h =
    ground (
      arith,
      mask_test (get_or b.words (i / 64) 0) (i % 64) (get_or-IsWord v (i / 64)) (omega arith),
    )

set-outside : (n i : ℕ) (e : Bool) (b : AtomicBitset) → n ≤ i → set n i e b ≡ b
unfolding set
set-outside n i e b h = ground arith

pub bit_at-set :
    (n i : ℕ) (e : Bool) (b : AtomicBitset) (k j : ℕ)
    → IsValid n b
    → i < n
    → j < 64
    → bit_at (set n i e b) k j ≡ (if i / 64 == k && i % 64 == j then e else bit_at b k j)
bit_at-set n i e b k j v h hj = elim (set-words n i e b v h) [
  | inl (same, kept) ↦ rw kept (ground arith)
  | inr written ↦ rw written (elim (Bool-cases (i / 64 == k)) [
    | inl here ↦
        let at : i / 64 ≡ k = ground arith in
        rw
          (
            ← at,
            get_or-set_self b.words (i / 64) (new_word (get_or b.words (i / 64) 0) (i % 64) e) 0
                (omega (arith, v.sized)),
          )
          (ground (arith, bit-new_word (get_or b.words (i / 64) 0) (i % 64) e j (omega arith) hj))
    | inr there ↦
        let apart : i / 64 ≢ k = ground arith in
        rw
          (get_or-set_ne b.words (i / 64) k (new_word (get_or b.words (i / 64) 0) (i % 64) e) 0
            apart)
          (ground arith)
  ])
]

-- `set` keeps the bitset well formed.
pub set-IsValid : (n i : ℕ) (e : Bool) {b : AtomicBitset} → IsValid n b → IsValid n (set n i e b)
set-IsValid n i e {b} v = elim (Bool-cases (leb n i)) [
  | inl out ↦ rw (set-outside n i e b (ground arith)) v
  | inr within ↦ elim (set-words n i e b v (ground arith)) [
    | inl (_, kept) ↦ rw kept v
    | inr written ↦
        let w : ℕ = new_word (get_or b.words (i / 64) 0) (i % 64) e in
        rw written (record {
          sized = length-set b.words (i / 64) w ∙ v.sized;
          in_range =
              All-set IsWord b.words (i / 64)
                (new_word-IsWord (get_or b.words (i / 64) 0) (i % 64) e (get_or-IsWord v (i / 64))
                  (omega arith))
                v.in_range;
        })
  ]
]

-- On a well-formed bitset, `test(j)` after `set(i, e)` is `e` if `j` is `i` and an index in range, and
-- otherwise what it was before.
pub test-set :
    (n i j : ℕ) (e : Bool) {b : AtomicBitset}
    → IsValid n b
    → test n j (set n i e b) ≡ (if i == j && ltb i n then e else test n j b)
test-set n i j e {b} v = elim (Bool-cases (leb n i)) [
  | inl out ↦ rw (set-outside n i e b (ground arith)) (ground arith)
  | inr within ↦ ground (
    arith,
    test-bit_at n j (set n i e b) (set-IsValid n i e v),
    test-bit_at n j b v,
    bit_at-set n i e b (j / 64) (j % 64) v (ground arith) (omega arith),
  )
]

zeros-IsValid : (n k : ℕ) → k ≡ word_count n → IsValid n (record { words = replicate k 0 })
zeros-IsValid n k e = record {
  sized = length-replicate k 0 ∙ e;
  in_range = All-replicate IsWord k (omega arith);
}

pub new-IsValid : (n : ℕ) → IsValid n (new n)
unfolding new
new-IsValid n = zeros-IsValid n (word_count n) refl

-- A new bitset has no index set.
pub test-new : (n j : ℕ) → test n j (new n) ≡ false
unfolding new
test-new n j = ground (
  arith,
  test-bit_at n j (new n) (new-IsValid n),
  get_or-replicate {A = ℕ} (word_count n) 0 (j / 64),
  bit-zero (j % 64),
)

map_zero : (ws : List ℕ) → map {B = ℕ} (λ _. 0) ws ≡ replicate (length ws) 0
map_zero [] = refl
map_zero (w ∷ ws) = ap (◌∷◌ 0) (map_zero ws)

-- `clear_all` leaves the bitset as it was built.
clear_all-eq-new : (n : ℕ) {b : AtomicBitset} → IsValid n b → clear_all b ≡ new n
unfolding clear_all new
clear_all-eq-new n {b} v = rw (map_zero b.words, v.sized)
