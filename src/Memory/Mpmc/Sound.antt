-- ===== src/Memory/Mpmc/Sound.antt =====
-- The steps of `MPMCRingBuffer` keep its shared state sound.
use spot_spot_relay_arbitrag.Prelude.{
  ℕ, ◌+◌, ◌^◌, ◌≤◌, ◌<◌, ◌≡◌, sym, ap, if_elim, ◌∙◌, true, false, List, [], ◌∷◌, some, arith, ◌==◌,
  All,
}
use native.Mathlib.Nat.{one-le-pow}
use spot_spot_relay_arbitrag.Prelude.Map.{lookup, member, keys, eq_ℕ}
use spot_spot_relay_arbitrag.Memory.Mpmc.{Cell, Mpmc, index, cell_at, write_cell}
use spot_spot_relay_arbitrag.Memory.Mpmc.Held.{index-parity, pow-even, IsSound}

module _ {ℓ} {A : Type ℓ} (k : ℕ) where
  -- What was taken stays right when a position is claimed that none of it has.
  takes_right-claim :
      (p : ℕ) (x : A) (claims takes : List (ℕ × A))
      → member p (keys takes) ≡ false
      → All (λ t. lookup t.0 claims ≡ some t.1) takes
      → All (λ t. lookup t.0 ((p, x) ∷ claims) ≡ some t.1) takes
  unfolding lookup
  takes_right-claim p x claims [] fresh h = h
  takes_right-claim p x claims ((r, y) ∷ takes) fresh h =
      (ground (arith, fresh, h.0), takes_right-claim p x claims takes (ground (arith, fresh)) h.1)

  pub claim-IsSound :
      (x : A) (p : ℕ) (q : Mpmc A)
      → q.enqueue_pos ≡ p
      → IsSound k q
      → IsSound k (record q { enqueue_pos = p + 1; claims = (p, x) ∷ q.claims })
  unfolding lookup
  claim-IsSound x p q e s = record {
    counted = omega (arith, e, s.counted);
    numbered = ground (arith, e, s.counted, s.numbered);
    within = omega (arith, e, s.within);
    published = λ r h. ground (arith, e, s.published r h);
    takes_right =
        takes_right-claim p x q.claims q.takes (s.takes_below p (omega (arith, e, s.within)))
          s.takes_right;
    takes_below = s.takes_below;
    takes_once = s.takes_once;
  }

  pub pop_claim-IsSound :
      (p : ℕ) (q : Mpmc A)
      → q.dequeue_pos ≡ p
      → (cell_at k q p).sequence ≡ p + 1
      → IsSound k q
      → IsSound k (record q { dequeue_pos = p + 1 })
  pop_claim-IsSound p q e seq s = record {
    counted = s.counted;
    numbered = s.numbered;
    within = ground (arith, s.published p seq);
    published = s.published;
    takes_right = s.takes_right;
    takes_below = λ r le. s.takes_below r (omega (arith, e, le));
    takes_once = s.takes_once;
  }

  pub read-IsSound :
      (p : ℕ) (q : Mpmc A)
      → p < q.dequeue_pos
      → (cell_at k q p).sequence ≡ p + 1
      → member p (keys q.takes) ≡ false
      → IsSound k q
      → IsSound k (record q { takes = (p, (cell_at k q p).item) ∷ q.takes })
  read-IsSound p q lt seq fresh s = record {
    counted = s.counted;
    numbered = s.numbered;
    within = s.within;
    published = s.published;
    takes_right = ((s.published p seq).1, s.takes_right);
    takes_below = λ r le. ground (arith, lt, le, s.takes_below r le);
    takes_once = ground (arith, fresh, s.takes_once);
  }

  -- What a cell that is written says, by its sequence.
  published_write :
      (c : Cell A) (p r : ℕ) (q : Mpmc A)
      → IsSound k q
      → ((index k p == index k r) ≡ true
          → c.sequence ≡ r + 1
          → (r < q.enqueue_pos) × (lookup r q.claims ≡ some c.item))
      → (write_cell (index k p) c q.buffer (index k r)).sequence ≡ r + 1
      → (r < q.enqueue_pos)
        × (lookup r q.claims ≡ some (write_cell (index k p) c q.buffer (index k r)).item)
  published_write c p r q s here =
      if_elim
        (λ (cell : Cell A).
          cell.sequence ≡ r + 1 → (r < q.enqueue_pos) × (lookup r q.claims ≡ some cell.item))
        (index k p == index k r) c (q.buffer (index k r)) here (λ apart. s.published r)

  pub write-IsSound :
      (x : A) (p : ℕ) (q : Mpmc A)
      → 1 ≤ k
      → (cell_at k q p).sequence ≡ p
      → IsSound k q
      → IsSound k (record q {
        buffer = write_cell (index k p) (record (cell_at k q p) { item = x }) q.buffer;
      })
  write-IsSound x p q pos seq s = record {
    counted = s.counted;
    numbered = s.numbered;
    within = s.within;
    published = λ r.
        published_write (record (cell_at k q p) { item = x }) p r q s
          (λ same h. absurd (ground (arith, seq, h, same, index-parity k p r pos)));
    takes_right = s.takes_right;
    takes_below = s.takes_below;
    takes_once = s.takes_once;
  }

  pub publish-IsSound :
      (x : A) (p : ℕ) (q : Mpmc A)
      → 1 ≤ k
      → p < q.enqueue_pos
      → (cell_at k q p).sequence ≡ p
      → lookup p q.claims ≡ some x
      → (cell_at k q p).item ≡ x
      → IsSound k q
      → IsSound k (record q {
        buffer = write_cell (index k p) (record (cell_at k q p) { sequence = p + 1 }) q.buffer;
      })
  publish-IsSound x p q pos lt seq claim item s = record {
    counted = s.counted;
    numbered = s.numbered;
    within = s.within;
    published = λ r.
        published_write (record (cell_at k q p) { sequence = p + 1 }) p r q s
          (λ same h. let e : r ≡ p = omega (arith, h) in rw e (lt, claim ∙ ap some (sym item)));
    takes_right = s.takes_right;
    takes_below = s.takes_below;
    takes_once = s.takes_once;
  }

  pub release-IsSound :
      (p : ℕ) (q : Mpmc A)
      → 1 ≤ k
      → IsSound k q
      → IsSound k (record q {
        buffer = write_cell (index k p) (record (cell_at k q p) { sequence = p + 2 ^ k }) q.buffer;
      })
  release-IsSound p q pos s = record {
    counted = s.counted;
    numbered = s.numbered;
    within = s.within;
    published = λ r.
        published_write (record (cell_at k q p) { sequence = p + 2 ^ k }) p r q s
          (λ same h.
            absurd
              (ground (arith, h, same, index-parity k p r pos, pow-even k pos, one-le-pow k 2)));
    takes_right = s.takes_right;
    takes_below = s.takes_below;
    takes_once = s.takes_once;
  }
