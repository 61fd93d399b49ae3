-- ===== src/Memory/Mpmc/Run.antt =====
-- Any run of the threads of `MPMCRingBuffer`.
use spot_spot_relay_arbitrag.Prelude.{
  ℕ, ◌+◌, ◌^◌, ◌≤◌, ◌<◌, ◌≡◌, refl, Bool, true, false, not, ◌&&◌, List, [], ◌∷◌, Option, none, some,
  arith, if_elim, ◌==◌, length, All, Bool-cases, inl, inr,
}
use spot_spot_relay_arbitrag.Prelude.Map.{lookup, eq_ℕ}
use spot_spot_relay_arbitrag.Memory.Mpmc.{
  Mpmc, Thread, idle, push_check, push_claim, push_write, push_publish, pushed, pop_check,
  pop_claim, pop_read, pop_release, popped, advance, new, System, Turn, calls_push, calls_pop, runs,
  turn, run, put, is_free, start_push, start_pop,
}
use spot_spot_relay_arbitrag.Memory.Mpmc.Held.{
  held_push, held_pop, same_position, clash, is_distinct, is_numbered, IsHeld, IsSound,
  index-lowest,
}
use spot_spot_relay_arbitrag.Memory.Mpmc.Turns.{IsKept, stay-IsKept, advance-IsKept}

-- `new` with every thread idle.
abbrev pub start {ℓ} : {A : Type ℓ} → A → System A
start a = record { queue = new a; threads = λ t. idle }

same_position-sym : (o r : Option ℕ) → same_position o r ≡ false → same_position r o ≡ false
same_position-sym none none h = refl
same_position-sym none (some p) h = refl
same_position-sym (some p) none h = refl
same_position-sym (some p) (some r) h = ground (arith, h)

module _ {ℓ} {A : Type ℓ} where
  clash-sym : (t u : Thread A) → clash t u ≡ false → clash u t ≡ false
  clash-sym t u h = ground (
    arith,
    h,
    same_position-sym (held_push t) (held_push u),
    same_position-sym (held_pop t) (held_pop u),
  )

  -- A turn claims at most one position.
  advance-claims :
      (k : ℕ) (sp : Bool) (t : Thread A) (q : Mpmc A)
      → length q.claims ≤ length (advance k sp t q).1.claims
  unfolding advance
  advance-claims k sp (push_claim x p) q = elim (Bool-cases ((q.enqueue_pos == p) && not sp)) [
    | inl t ↦ rw t (omega arith)
    | inr n ↦ rw n (omega arith)
  ]
  advance-claims k sp (pop_claim p) q = elim (Bool-cases ((q.dequeue_pos == p) && not sp)) [
    | inl t ↦ rw t (omega arith)
    | inr n ↦ rw n (omega arith)
  ]
  advance-claims k sp idle q = omega arith
  advance-claims k sp (push_check x p) q = omega arith
  advance-claims k sp (push_write x p) q = omega arith
  advance-claims k sp (push_publish x p) q = omega arith
  advance-claims k sp (pushed b) q = omega arith
  advance-claims k sp (pop_check p) q = omega arith
  advance-claims k sp (pop_read p) q = omega arith
  advance-claims k sp (pop_release p x) q = omega arith
  advance-claims k sp (popped o) q = omega arith

  turn-claims :
      (k : ℕ) (x : Turn A) (s : System A) → length s.queue.claims ≤ length (turn k x s).queue.claims
  unfolding turn
  turn-claims k (calls_push t item) s =
      if_elim (λ (s' : System A). length s.queue.claims ≤ length s'.queue.claims)
        (is_free (s.threads t)) _ _ (λ f. omega arith) (λ n. omega arith)
  turn-claims k (calls_pop t) s =
      if_elim (λ (s' : System A). length s.queue.claims ≤ length s'.queue.claims)
        (is_free (s.threads t)) _ _ (λ f. omega arith) (λ n. omega arith)
  turn-claims k (runs t sp) s = advance-claims k sp (s.threads t) s.queue

  run-claims :
      (k : ℕ) (turns : List (Turn A)) (s : System A)
      → length s.queue.claims ≤ length (run k turns s).queue.claims
  unfolding run
  run-claims k [] s = omega arith
  run-claims k (x ∷ turns) s = omega (arith, turn-claims k x s, run-claims k turns (turn k x s))

module _ {ℓ} {A : Type ℓ} where
  -- The items that were read: each is the item of the push that claimed its position, no position is read twice, and
  -- those that were claimed are numbered in the order of the claims.
  abbrev pub IsFifo : Mpmc A → Type ℓ
  IsFifo q =
      All (λ t. lookup t.0 q.claims ≡ some t.1) q.takes
      × (is_distinct q.takes ≡ true)
      × (is_numbered q.claims ≡ true)
      × (q.dequeue_pos ≤ q.enqueue_pos)

module _ {ℓ} {A : Type ℓ} (k : ℕ) where
  pub record IsSafe (s : System A) : Type ℓ where
    pub sound : IsSound k s.queue
    pub held : (t : ℕ) → IsHeld k s.queue (s.threads t)
    pub apart : (t u : ℕ) → (t == u) ≡ false → clash (s.threads t) (s.threads u) ≡ false

  put-IsSafe :
      (t : ℕ) (s : System A) (out : Thread A × Mpmc A)
      → IsSafe s
      → IsKept k s.queue (s.threads t) out
      → IsSafe (record { queue = out.1; threads = put t out.0 s.threads })
  put-IsSafe t s (t', q') safe (sound, held, others) = record {
    sound = sound;
    held = λ u.
        if_elim (IsHeld k q') (t == u) t' (s.threads u) (λ same. held)
          (λ away. (others (s.threads u) (safe.apart t u away) (safe.held u)).0);
    apart = λ u v away.
        if_elim (λ x. clash x (put t t' s.threads v) ≡ false) (t == u) t' (s.threads u)
          (λ su.
            if_elim (λ y. clash t' y ≡ false) (t == v) t' (s.threads v)
              (λ sv. absurd (ground (arith, su, sv, away)))
              (λ av. (others (s.threads v) (safe.apart t v av) (safe.held v)).1))
          (λ au.
            if_elim (λ y. clash (s.threads u) y ≡ false) (t == v) t' (s.threads v)
              (λ sv.
                clash-sym t' (s.threads u)
                  (others (s.threads u) (safe.apart t u au) (safe.held u)).1)
              (λ av. safe.apart u v away));
  }

  turn-IsSafe :
      (x : Turn A) (s : System A)
      → 1 ≤ k
      → length s.queue.claims + 2 ^ k < 2 ^ 64
      → IsSafe s
      → IsSafe (turn k x s)
  unfolding turn start_push start_pop
  turn-IsSafe (calls_push t item) s pos b safe =
      if_elim IsSafe (is_free (s.threads t)) _ _
        (λ f.
          put-IsSafe t s (push_check item s.queue.enqueue_pos, s.queue) safe
            (stay-IsKept k (s.threads t) (push_check item s.queue.enqueue_pos) s.queue refl refl
              safe.sound tt))
        (λ n. safe)
  turn-IsSafe (calls_pop t) s pos b safe =
      if_elim IsSafe (is_free (s.threads t)) _ _
        (λ f.
          put-IsSafe t s (pop_check s.queue.dequeue_pos, s.queue) safe
            (stay-IsKept k (s.threads t) (pop_check s.queue.dequeue_pos) s.queue refl refl
              safe.sound (omega arith, tt)))
        (λ n. safe)
  turn-IsSafe (runs t sp) s pos b safe =
      put-IsSafe t s (advance k sp (s.threads t) s.queue) safe
        (advance-IsKept k sp (s.threads t) s.queue pos b safe.sound (safe.held t))

  run-IsSafe :
      (turns : List (Turn A)) (s : System A)
      → 1 ≤ k
      → length (run k turns s).queue.claims + 2 ^ k < 2 ^ 64
      → IsSafe s
      → IsSafe (run k turns s)
  unfolding run
  run-IsSafe [] s pos b safe = safe
  run-IsSafe (x ∷ turns) s pos b safe = run-IsSafe turns (turn k x s) pos b (
      turn-IsSafe x s pos (omega (arith, b, turn-claims k x s, run-claims k turns (turn k x s)))
        safe)

  start-IsSafe : (a : A) → 1 ≤ k → IsSafe (start a)
  unfolding new
  start-IsSafe a pos = record {
    sound = record {
      counted = refl;
      numbered = refl;
      within = omega arith;
      published = λ p h. absurd (omega (arith, h, index-lowest k p pos));
      takes_right = tt;
      takes_below = λ p le. refl;
      takes_once = refl;
    };
    held = λ t. tt;
    apart = λ t u away. refl;
  }

  -- On a queue of at least two cells, however the steps of any number of pushing and popping threads interleave,
  -- and while the claimed positions and the capacity stay below `2 ^ 64`: pushes claim the positions 0, 1, 2, … in
  -- turn, every item that a pop reads is the item of the push that claimed its position, no position is read twice,
  -- and pops do not overtake pushes.
  pub run-IsFifo :
      (a : A) (turns : List (Turn A))
      → 1 ≤ k
      → length (run k turns (start a)).queue.claims + 2 ^ k < 2 ^ 64
      → IsFifo (run k turns (start a)).queue
  run-IsFifo a turns pos b =
      let safe = run-IsSafe turns (start a) pos b (start-IsSafe a pos) in
      let sound = safe.sound in (sound.takes_right, sound.takes_once, sound.numbered, sound.within)
