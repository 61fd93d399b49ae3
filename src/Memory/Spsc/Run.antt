-- ===== src/Memory/Spsc/Run.antt =====
-- Any sequence of calls of the producer and the consumer, in any order, against the bounded queue.
use spot_spot_relay_arbitrag.Prelude.{
  ℕ, ◌-◌, ◌^◌, ◌≡◌, refl, Bool, List, [], ◌∷◌, ◌++◌, Option, arith, ltb, if◌then◌else◌, length,
  length-replicate,
}
use native.Mathlib.Nat.{one-le-pow}
use spot_spot_relay_arbitrag.Memory.Spsc.{Spsc, new, try_push, try_pop}
use spot_spot_relay_arbitrag.Memory.Spsc.Refine.{contents, IsValid, try_push_lem}
use spot_spot_relay_arbitrag.Memory.Spsc.Pop.{front, rest, try_pop_lem}

pub data Call {ℓ} (A : Type ℓ) : Type ℓ where
  push : A → Call A
  pop : Call A

pub data Reply {ℓ} (A : Type ℓ) : Type ℓ where
  pushed : Bool → Reply A
  popped : Option A → Reply A

-- The replies of the ring buffer to a sequence of calls.
pub run {ℓ} : {A : Type ℓ} → ℕ → A → List (Call A) → Spsc A → List (Reply A)
run k a [] r = []
run k a (push item ∷ calls) r =
    pushed (try_push k a item r).1 ∷ run k a calls (try_push k a item r).0
run k a (pop ∷ calls) r = popped (try_pop k a r).1 ∷ run k a calls (try_pop k a r).0

-- The replies of a queue of at most `capacity` items.
abbrev pub run_queue {ℓ} : {A : Type ℓ} → ℕ → List (Call A) → List A → List (Reply A)
run_queue capacity [] q = []
run_queue capacity (push item ∷ calls) q =
    pushed (ltb (length q) capacity)
    ∷ run_queue capacity calls (if ltb (length q) capacity then q ++ (item ∷ []) else q)
run_queue capacity (pop ∷ calls) q = popped (front q) ∷ run_queue capacity calls (rest q)

module _ {ℓ} {A : Type ℓ} (a : A) (k : ℕ) where
  run_lem :
      (calls : List (Call A)) (r : Spsc A)
      → IsValid a (2 ^ k) r
      → run k a calls r ≡ run_queue (2 ^ k - 1) calls (contents a (2 ^ k) r)
  unfolding run
  run_lem [] r v = refl
  run_lem (push item ∷ calls) r v =
      let (valid, reply, holds) = try_push_lem a k r v item in
      rw (reply, run_lem calls (try_push k a item r).0 valid, holds) refl
  run_lem (pop ∷ calls) r v =
      let (valid, reply, holds) = try_pop_lem a k r v in
      rw (reply, run_lem calls (try_pop k a r).0 valid, holds) refl

  pub new-IsValid : IsValid a (2 ^ k) (new k a)
  unfolding new
  new-IsValid = record {
    sized = length-replicate (2 ^ k) a;
    head_in = omega (arith, one-le-pow k 2);
    tail_in = omega (arith, one-le-pow k 2);
    cached_tail_in = omega (arith, one-le-pow k 2);
    cached_head_in = omega (arith, one-le-pow k 2);
    tail_behind = omega arith;
    head_behind = omega arith;
  }

  -- To any sequence of pushes and pops, a new ring buffer of capacity `2 ^ k` replies as an empty queue does
  -- that holds at most `2 ^ k - 1` items.
  pub run-new : (calls : List (Call A)) → run k a calls (new k a) ≡ run_queue (2 ^ k - 1) calls []
  unfolding new
  run-new calls = run_lem calls (new k a) new-IsValid
