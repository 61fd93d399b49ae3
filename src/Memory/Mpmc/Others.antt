-- ===== src/Memory/Mpmc/Others.antt =====
-- A step of a thread of `MPMCRingBuffer` keeps what the other threads rely on.
use spot_spot_relay_arbitrag.Prelude.{
  ℕ, ◌+◌, ◌≤◌, ◌<◌, ◌≡◌, refl, ◌∙◌, false, ◌∷◌, some, arith, ◌==◌, Bool-cases, inl, inr,
}
use spot_spot_relay_arbitrag.Prelude.Map.{lookup, eq_ℕ}
use spot_spot_relay_arbitrag.Memory.Mpmc.{
  Cell, Mpmc, Thread, push_claim, push_write, push_publish, pop_check, pop_claim, pop_read,
  pop_release, index, cell_at, write_cell,
}
use spot_spot_relay_arbitrag.Memory.Mpmc.Held.{
  index-parity, held_push, held_pop, same_position, IsHeld,
}

module _ {ℓ} {A : Type ℓ} where
  -- Writing the item keeps the sequences, and writing the sequence keeps the items.
  pub item_write-sequence :
      (i j : ℕ) (x : A) (buffer : ℕ → Cell A)
      → (write_cell i (record (buffer i) { item = x }) buffer j).sequence ≡ (buffer j).sequence
  item_write-sequence i j x buffer = ground arith

  pub sequence_write-item :
      (i j n : ℕ) (buffer : ℕ → Cell A)
      → (write_cell i (record (buffer i) { sequence = n }) buffer j).item ≡ (buffer j).item
  sequence_write-item i j n buffer = elim (Bool-cases (i == j)) [
    | inr apart ↦ rw apart refl
    | inl same ↦ let e : i ≡ j = ground (arith, same) in rw (same, e) refl
  ]

module _ {ℓ} {A : Type ℓ} (k : ℕ) where
  pub claim-IsHeld :
      (x : A) (p : ℕ) (q : Mpmc A) (u : Thread A)
      → q.enqueue_pos ≡ p
      → IsHeld k q u
      → IsHeld k (record q { enqueue_pos = p + 1; claims = (p, x) ∷ q.claims }) u
  unfolding lookup
  claim-IsHeld x p q (push_claim y r) e h = (λ le. h.0 (omega (arith, e, le)), tt)
  claim-IsHeld x p q (push_write y r) e h = ground (arith, e, h)
  claim-IsHeld x p q (push_publish y r) e h = ground (arith, e, h)
  claim-IsHeld x p q (pop_claim r) e h = h
  claim-IsHeld x p q (pop_check r) e h = h
  claim-IsHeld x p q (pop_read r) e h = h
  claim-IsHeld x p q (pop_release r y) e h = h
  claim-IsHeld x p q _ e h = tt

  pub pop_claim-IsHeld :
      (p : ℕ) (q : Mpmc A) (u : Thread A)
      → q.dequeue_pos ≡ p
      → IsHeld k q u
      → IsHeld k (record q { dequeue_pos = p + 1 }) u
  pop_claim-IsHeld p q (push_claim y r) e h = h
  pop_claim-IsHeld p q (push_write y r) e h = h
  pop_claim-IsHeld p q (push_publish y r) e h = h
  pop_claim-IsHeld p q (pop_claim r) e h =
      (omega (arith, h.0, e), λ le. absurd (omega (arith, h.0, e, le)), tt)
  pop_claim-IsHeld p q (pop_check r) e h = (omega (arith, h.0, e), tt)
  pop_claim-IsHeld p q (pop_read r) e h = (omega (arith, h.0, e), h.1, h.2, tt)
  pop_claim-IsHeld p q (pop_release r y) e h = (omega (arith, h.0, e), h.1, tt)
  pop_claim-IsHeld p q _ e h = tt

  pub read-IsHeld :
      (p : ℕ) (x : A) (q : Mpmc A) (u : Thread A)
      → same_position (some p) (held_pop u) ≡ false
      → IsHeld k q u
      → IsHeld k (record q { takes = (p, x) ∷ q.takes }) u
  read-IsHeld p x q (push_claim y r) c h = h
  read-IsHeld p x q (push_write y r) c h = h
  read-IsHeld p x q (push_publish y r) c h = h
  read-IsHeld p x q (pop_claim r) c h = h
  read-IsHeld p x q (pop_check r) c h = h
  read-IsHeld p x q (pop_read r) c h = ground (arith, c, h)
  read-IsHeld p x q (pop_release r y) c h = h
  read-IsHeld p x q _ c h = tt

  -- The write of a push.
  pub write-IsHeld :
      (x : A) (p : ℕ) (q : Mpmc A) (u : Thread A)
      → (cell_at k q p).sequence ≡ p
      → same_position (some p) (held_push u) ≡ false
      → IsHeld k q u
      → IsHeld k
          (record q {
            buffer = write_cell (index k p) (record (cell_at k q p) { item = x }) q.buffer;
          })
          u
  write-IsHeld x p q (push_claim y r) e c h =
      (λ le. item_write-sequence (index k p) (index k r) x q.buffer ∙ h.0 le, tt)
  write-IsHeld x p q (push_write y r) e c h = ground (arith, e, c, h)
  write-IsHeld x p q (push_publish y r) e c h = ground (arith, e, c, h)
  write-IsHeld x p q (pop_claim r) e c h =
      (h.0, λ le. item_write-sequence (index k p) (index k r) x q.buffer ∙ h.1 le, tt)
  write-IsHeld x p q (pop_check r) e c h = h
  write-IsHeld x p q (pop_read r) e c h = ground (arith, e, c, h)
  write-IsHeld x p q (pop_release r y) e c h = ground (arith, e, c, h)
  write-IsHeld x p q _ e c h = tt

  -- The last store of a push.
  pub publish-IsHeld :
      (p : ℕ) (q : Mpmc A) (u : Thread A)
      → 1 ≤ k
      → (cell_at k q p).sequence ≡ p
      → p < q.enqueue_pos
      → same_position (some p) (held_push u) ≡ false
      → IsHeld k q u
      → IsHeld k
          (record q {
            buffer = write_cell (index k p) (record (cell_at k q p) { sequence = p + 1 }) q.buffer;
          })
          u
  publish-IsHeld p q (push_claim y r) pos e lt c h =
      (λ le. ground (arith, e, lt, le, h.0 le, index-parity k p r pos), tt)
  publish-IsHeld p q (push_write y r) pos e lt c h = ground (arith, e, lt, c, h)
  publish-IsHeld p q (push_publish y r) pos e lt c h = (
    h.0,
    ground (arith, e, c, h.1),
    h.2,
    sequence_write-item (index k p) (index k r) (p + 1) q.buffer ∙ h.3,
  )
  publish-IsHeld p q (pop_claim r) pos e lt c h =
      (h.0, λ le. ground (arith, e, lt, le, h.1 le, index-parity k p r pos), tt)
  publish-IsHeld p q (pop_check r) pos e lt c h = h
  publish-IsHeld p q (pop_read r) pos e lt c h = ground (arith, e, lt, c, h, index-parity k p r pos)
  publish-IsHeld p q (pop_release r y) pos e lt c h =
      ground (arith, e, lt, c, h, index-parity k p r pos)
  publish-IsHeld p q _ pos e lt c h = tt

  -- The last store of a pop.
  pub release-IsHeld :
      (p n : ℕ) (q : Mpmc A) (u : Thread A)
      → 1 ≤ k
      → (cell_at k q p).sequence ≡ p + 1
      → p < q.dequeue_pos
      → q.dequeue_pos ≤ q.enqueue_pos
      → same_position (some p) (held_pop u) ≡ false
      → IsHeld k q u
      → IsHeld k
          (record q {
            buffer = write_cell (index k p) (record (cell_at k q p) { sequence = n }) q.buffer;
          })
          u
  release-IsHeld p n q (push_claim y r) pos e lt below c h =
      (λ le. ground (arith, e, lt, below, le, h.0 le, index-parity k p r pos), tt)
  release-IsHeld p n q (push_write y r) pos e lt below c h =
      ground (arith, e, lt, c, h, index-parity k p r pos)
  release-IsHeld p n q (push_publish y r) pos e lt below c h =
      ground (arith, e, lt, c, h, index-parity k p r pos)
  release-IsHeld p n q (pop_claim r) pos e lt below c h =
      (h.0, λ le. ground (arith, e, lt, le, h.1 le, index-parity k p r pos), tt)
  release-IsHeld p n q (pop_check r) pos e lt below c h = h
  release-IsHeld p n q (pop_read r) pos e lt below c h = ground (arith, e, lt, c, h)
  release-IsHeld p n q (pop_release r y) pos e lt below c h = ground (arith, e, lt, c, h)
  release-IsHeld p n q _ pos e lt below c h = tt
