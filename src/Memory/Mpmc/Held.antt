-- ===== src/Memory/Mpmc/Held.antt =====
-- What each thread of `MPMCRingBuffer` may rely on while the others run.
use spot_spot_relay_arbitrag.Prelude.{
  ℕ, zero, suc, ◌+◌, ◌-◌, ◌^◌, ◌%◌, ◌≤◌, ◌<◌, ◌≡◌, Bool, true, false, not, ◌&&◌, ◌||◌, List, [],
  ◌∷◌, Option, none, some, arith, ◌==◌, length, All,
}
use native.Mathlib.Nat.{pow-suc}
use spot_spot_relay_arbitrag.Prelude.Bits.{bit, bit-bit_and, bit-low_mask}
use spot_spot_relay_arbitrag.Prelude.Map.{lookup, member, keys, eq_ℕ}
use spot_spot_relay_arbitrag.Memory.Mpmc.{
  Mpmc, Thread, push_claim, push_write, push_publish, pop_check, pop_claim, pop_read, pop_release,
  index, cell_at,
}

-- An index has the lowest bit of its position.
pub index-lowest : (k p : ℕ) → 1 ≤ k → index k p % 2 ≡ p % 2
unfolding index bit
index-lowest k p h = ground (arith, bit-bit_and p (2 ^ k - 1) 0, bit-low_mask k 0)

-- Positions of one cell agree in their lowest bit.
pub index-parity : (k p r : ℕ) → 1 ≤ k → index k p ≡ index k r → p % 2 ≡ r % 2
index-parity k p r h e = ground (arith, e, index-lowest k p h, index-lowest k r h)

pub pow-even : (k : ℕ) → 1 ≤ k → 2 ^ k % 2 ≡ 0
pow-even zero h = absurd (omega arith)
pow-even (suc k) h = omega (arith, pow-suc 2 k)

-- The position that a push has claimed and not yet published; that a pop has claimed and not yet released.
abbrev pub held_push {ℓ} : {A : Type ℓ} → Thread A → Option ℕ
held_push (push_write x p) = some p
held_push (push_publish x p) = some p
held_push _ = none

abbrev pub held_pop {ℓ} : {A : Type ℓ} → Thread A → Option ℕ
held_pop (pop_read p) = some p
held_pop (pop_release p x) = some p
held_pop _ = none

abbrev pub same_position : Option ℕ → Option ℕ → Bool
same_position (some p) (some r) = p == r
same_position (some p) none = false
same_position none r = false

-- Two threads hold one position.
abbrev pub clash {ℓ} : {A : Type ℓ} → Thread A → Thread A → Bool
clash t u = same_position (held_push t) (held_push u) || same_position (held_pop t) (held_pop u)

abbrev pub is_distinct {ℓ} : {A : Type ℓ} → List (ℕ × A) → Bool
is_distinct [] = true
is_distinct ((p, x) ∷ ts) = not (member p (keys ts)) && is_distinct ts

-- The claims are numbered 0, 1, 2, … in their order.
abbrev pub is_numbered {ℓ} : {A : Type ℓ} → List (ℕ × A) → Bool
is_numbered [] = true
is_numbered ((p, x) ∷ claims) = (p == length claims) && is_numbered claims

module _ {ℓ} {A : Type ℓ} (k : ℕ) where
  -- What the thread relies on.
  abbrev pub IsHeld : Mpmc A → Thread A → Type ℓ
  IsHeld q (push_claim x p) = (q.enqueue_pos ≤ p → (cell_at k q p).sequence ≡ p) × Unit {ℓ}
  IsHeld q (push_write x p) =
      (p < q.enqueue_pos) × ((cell_at k q p).sequence ≡ p) × (lookup p q.claims ≡ some x)
  IsHeld q (push_publish x p) =
      (p < q.enqueue_pos)
      × ((cell_at k q p).sequence ≡ p)
      × (lookup p q.claims ≡ some x)
      × ((cell_at k q p).item ≡ x)
  IsHeld q (pop_check p) = (p ≤ q.dequeue_pos) × Unit {ℓ}
  IsHeld q (pop_claim p) =
      (p ≤ q.dequeue_pos) × (q.dequeue_pos ≤ p → (cell_at k q p).sequence ≡ p + 1) × Unit {ℓ}
  IsHeld q (pop_read p) =
      (p < q.dequeue_pos)
      × ((cell_at k q p).sequence ≡ p + 1)
      × (member p (keys q.takes) ≡ false)
      × Unit {ℓ}
  IsHeld q (pop_release p x) = (p < q.dequeue_pos) × ((cell_at k q p).sequence ≡ p + 1) × Unit {ℓ}
  IsHeld q _ = Unit {ℓ}

  pub record IsSound (q : Mpmc A) : Type ℓ where
    pub counted : q.enqueue_pos ≡ length q.claims
    pub numbered : is_numbered q.claims ≡ true
    pub within : q.dequeue_pos ≤ q.enqueue_pos
    pub published :
        (p : ℕ)
        → (cell_at k q p).sequence ≡ p + 1
        → (p < q.enqueue_pos) × (lookup p q.claims ≡ some (cell_at k q p).item)
    pub takes_right : All (λ t. lookup t.0 q.claims ≡ some t.1) q.takes
    pub takes_below : (p : ℕ) → q.dequeue_pos ≤ p → member p (keys q.takes) ≡ false
    pub takes_once : is_distinct q.takes ≡ true
