-- ===== src/Memory/Mpmc/Turns.antt =====
-- Every turn of a thread of `MPMCRingBuffer` is safe.
use spot_spot_relay_arbitrag.Prelude.{
  ℕ, ◌+◌, ◌-◌, ◌^◌, ◌≤◌, ◌<◌, ◌≡◌, refl, ap, ◌∙◌, Bool, false, not, ◌&&◌, List, ◌∷◌, none, some,
  arith, ◌==◌, ==_refl, length, Bool-cases, inl, inr,
}
use native.Mathlib.Nat.{one-le-pow}
use spot_spot_relay_arbitrag.Prelude.Map.{lookup, eq_ℕ}
use spot_spot_relay_arbitrag.Memory.Mpmc.{
  Mpmc, Thread, idle, push_check, push_claim, push_write, push_publish, pushed, pop_check,
  pop_claim, pop_read, pop_release, popped, index, cell_at, advance, add_u64, is_behind,
}
use spot_spot_relay_arbitrag.Memory.Mpmc.Held.{
  held_push, held_pop, same_position, clash, IsHeld, IsSound,
}
use spot_spot_relay_arbitrag.Memory.Mpmc.Others.{
  item_write-sequence, claim-IsHeld, pop_claim-IsHeld, read-IsHeld, write-IsHeld, publish-IsHeld,
  release-IsHeld,
}
use spot_spot_relay_arbitrag.Memory.Mpmc.Sound.{
  claim-IsSound, pop_claim-IsSound, read-IsSound, write-IsSound, publish-IsSound, release-IsSound,
}

next_position : (k n p : ℕ) → p ≤ n → n + 2 ^ k < 2 ^ 64 → add_u64 p 1 ≡ p + 1
next_position k n p h b = omega (arith, h, b, one-le-pow k 2)

freed_position : (k n p : ℕ) → p < n → n + 2 ^ k < 2 ^ 64 → add_u64 (p + (2 ^ k - 1)) 1 ≡ p + 2 ^ k
freed_position k n p h b = omega (arith, h, b, one-le-pow k 2)

module _ {ℓ} {A : Type ℓ} (k : ℕ) where
  -- After a step of `t`: the state is sound, the thread may rely on what it has to, and so may the others.
  abbrev pub IsKept : Mpmc A → Thread A → Thread A × Mpmc A → Type ℓ
  IsKept q t (t', q') =
      IsSound k q'
      × IsHeld k q' t'
      × ((u : Thread A) → clash t u ≡ false → IsHeld k q u → IsHeld k q' u × (clash t' u ≡ false))

  -- A thread that changes nothing and holds nothing.
  pub stay-IsKept :
      (t t' : Thread A) (q : Mpmc A)
      → held_push t' ≡ none
      → held_pop t' ≡ none
      → IsSound k q
      → IsHeld k q t'
      → IsKept q t (t', q)
  stay-IsKept t t' q nopush nopop s h = (s, h, λ u c hu. (hu, rw (nopush, nopop) refl))

  -- The threads that hold a position hold one that is claimed.
  fresh_push :
      (q : Mpmc A) (u : Thread A)
      → IsHeld k q u
      → same_position (some q.enqueue_pos) (held_push u) ≡ false
  fresh_push q (push_write x p) h = ground (arith, h.0)
  fresh_push q (push_publish x p) h = ground (arith, h.0)
  fresh_push q _ h = refl

  fresh_pop :
      (q : Mpmc A) (u : Thread A)
      → IsHeld k q u
      → same_position (some q.dequeue_pos) (held_pop u) ≡ false
  fresh_pop q (pop_read p) h = ground (arith, h.0)
  fresh_pop q (pop_release p x) h = ground (arith, h.0)
  fresh_pop q _ h = refl

  lookup-head : (p : ℕ) (x : A) (claims : List (ℕ × A)) → lookup p ((p, x) ∷ claims) ≡ some x
  unfolding lookup
  lookup-head p x claims = rw (==_refl p) refl

  pub advance-IsKept :
      (spurious : Bool) (t : Thread A) (q : Mpmc A)
      → 1 ≤ k
      → length q.claims + 2 ^ k < 2 ^ 64
      → IsSound k q
      → IsHeld k q t
      → IsKept q t (advance k spurious t q)
  unfolding advance
  advance-IsKept sp (push_check x p) q pos b s h =
      elim (Bool-cases ((cell_at k q p).sequence == p)) [
        | inl t ↦ rw t (
            stay-IsKept (push_check x p) (push_claim x p) q refl refl s
              ((λ le. ground (arith, t)), tt))
        | inr n ↦ rw n (elim (Bool-cases (is_behind (cell_at k q p).sequence p)) [
          | inl t ↦ rw t (stay-IsKept (push_check x p) (pushed false) q refl refl s tt)
          | inr n ↦
              rw n (stay-IsKept (push_check x p) (push_check x q.enqueue_pos) q refl refl s tt)
        ])
      ]
  advance-IsKept sp (push_claim x p) q pos b s h =
      elim (Bool-cases ((q.enqueue_pos == p) && not sp)) [
        | inr n ↦ rw n (stay-IsKept (push_claim x p) (push_check x q.enqueue_pos) q refl refl s tt)
        | inl t ↦
            let e : q.enqueue_pos ≡ p = ground (arith, t) in
            rw (t, next_position k (length q.claims) p (omega (arith, e, s.counted)) b)
              (
                claim-IsSound k x p q e s,
                (omega arith, h.0 (omega (arith, e)), lookup-head p x q.claims),
                λ u c hu. (
                  claim-IsHeld k x p q u e hu,
                  ground
                      (arith, ap (λ n. same_position (some n) (held_push u)) e, fresh_push q u hu),
                ),
              )
      ]
  advance-IsKept sp (push_write x p) q pos b s h = (
    write-IsSound k x p q pos h.1 s,
    (
      h.0,
      item_write-sequence (index k p) (index k p) x q.buffer ∙ h.1,
      h.2,
      rw (==_refl (index k p)) refl,
    ),
    λ u c hu. (write-IsHeld k x p q u h.1 (ground (arith, c)) hu, c),
  )
  advance-IsKept sp (push_publish x p) q pos b s h =
      rw (next_position k (length q.claims) p (omega (arith, h.0, s.counted)) b) (
        publish-IsSound k x p q pos h.0 h.1 h.2 h.3 s,
        tt,
        λ u c hu. (publish-IsHeld k p q u pos h.1 h.0 (ground (arith, c)) hu, refl),
      )
  advance-IsKept sp (pop_check p) q pos b s h =
      rw (next_position k (length q.claims) p (omega (arith, h.0, s.within, s.counted)) b)
        (elim (Bool-cases ((cell_at k q p).sequence == (p + 1))) [
          | inl t ↦ rw t (
              stay-IsKept (pop_check p) (pop_claim p) q refl refl s
                (h.0, (λ le. ground (arith, t)), tt))
          | inr n ↦ rw n (elim (Bool-cases (is_behind (cell_at k q p).sequence (p + 1))) [
            | inl t ↦ rw t (stay-IsKept (pop_check p) (popped none) q refl refl s tt)
            | inr n ↦ rw n (
                stay-IsKept (pop_check p) (pop_check q.dequeue_pos) q refl refl s (omega arith, tt))
          ])
        ])
  advance-IsKept sp (pop_claim p) q pos b s h = elim (Bool-cases ((q.dequeue_pos == p) && not sp)) [
    | inr n ↦
        rw n (stay-IsKept (pop_claim p) (pop_check q.dequeue_pos) q refl refl s (omega arith, tt))
    | inl t ↦
        let e : q.dequeue_pos ≡ p = ground (arith, t) in
        let seq = h.1 (omega (arith, e)) in
        rw (t, next_position k (length q.claims) p (omega (arith, h.0, s.within, s.counted)) b)
          (
            pop_claim-IsSound k p q e seq s,
            (omega arith, seq, s.takes_below p (omega (arith, e)), tt),
            λ u c hu. (
              pop_claim-IsHeld k p q u e hu,
              ground (arith, ap (λ n. same_position (some n) (held_pop u)) e, fresh_pop q u hu),
            ),
          )
  ]
  advance-IsKept sp (pop_read p) q pos b s h = (
    read-IsSound k p q h.0 h.1 h.2 s,
    (h.0, h.1, tt),
    λ u c hu. (read-IsHeld k p (cell_at k q p).item q u c hu, c),
  )
  advance-IsKept sp (pop_release p x) q pos b s h =
      rw (freed_position k (length q.claims) p (omega (arith, h.0, s.within, s.counted)) b) (
        release-IsSound k p q pos s,
        tt,
        λ u c hu. (release-IsHeld k p (p + 2 ^ k) q u pos h.1 h.0 s.within c hu, refl),
      )
  advance-IsKept sp idle q pos b s h = stay-IsKept idle idle q refl refl s tt
  advance-IsKept sp (pushed r) q pos b s h = stay-IsKept (pushed r) (pushed r) q refl refl s tt
  advance-IsKept sp (popped r) q pos b s h = stay-IsKept (popped r) (popped r) q refl refl s tt
