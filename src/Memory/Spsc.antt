-- ===== src/Memory/Spsc.antt =====
-- kimp_arb_cpp/include/kimp/memory/ring_buffer.hpp: `SPSCRingBuffer` of capacity `2 ^ k`. A call of the producer
-- or of the consumer is one step. The three ways to push write the same cell, as do the two ways to pop; a cell
-- that was popped keeps its item here.
pub mod Refine
pub mod Pop
pub mod Run
mod Tests
use spot_spot_relay_arbitrag.Prelude.{
  ℕ, ◌+◌, ◌-◌, ◌^◌, ◌%◌, Bool, true, false, List, Option, none, some, bit_and, if◌then◌else◌, ◌==◌,
  get_or, set, replicate,
}

pub record Spsc {ℓ} (A : Type ℓ) : Type ℓ where
  pub buffer : List A
  pub head : ℕ
  pub tail : ℕ
  -- The producer's copy of the tail and the consumer's copy of the head.
  pub cached_tail : ℕ
  pub cached_head : ℕ

-- `(i + 1) & MASK`.
pub next_index : ℕ → ℕ → ℕ
next_index k i = bit_and (i + 1) (2 ^ k - 1)

module _ {ℓ} {A : Type ℓ} (k : ℕ) (a : A) where
  -- `a` is `T{}`, which the buffer holds first.
  pub new : Spsc A
  new = record {
    buffer = replicate (2 ^ k) a;
    head = 0;
    tail = 0;
    cached_tail = 0;
    cached_head = 0;
  }

  -- The two tests of the producer: the copy of the tail is read again if the buffer seems full.
  abbrev pub reload_tail : Spsc A → ℕ
  reload_tail r = if next_index k r.head == r.cached_tail then r.tail else r.cached_tail

  abbrev pub reload_head : Spsc A → ℕ
  reload_head r = if r.tail == r.cached_head then r.head else r.cached_head

  pub try_push : A → Spsc A → Spsc A × Bool
  try_push item r =
      if next_index k r.head == reload_tail r
      then (record r { cached_tail = reload_tail r }, false)
      else (
        record r {
          cached_tail = reload_tail r;
          buffer = set r.buffer r.head item;
          head = next_index k r.head;
        },
        true,
      )

  pub try_pop : Spsc A → Spsc A × Option A
  try_pop r =
      if r.tail == reload_head r then (record r { cached_head = reload_head r }, none) else (
        record r { cached_head = reload_head r; tail = next_index k r.tail },
        some (get_or r.buffer r.tail a),
      )

  pub peek : Spsc A → Option A
  peek r = if r.tail == r.head then none else some (get_or r.buffer r.tail a)

  pub empty : Spsc A → Bool
  empty r = r.head == r.tail

  -- `(head - tail) & MASK` on `size_t`.
  pub size : Spsc A → ℕ
  size r = bit_and ((r.head + 2 ^ 64 - r.tail) % 2 ^ 64) (2 ^ k - 1)

  pub full : Spsc A → Bool
  full r = next_index k r.head == r.tail

  pub reset : Spsc A → Spsc A
  reset r = record r { head = 0; tail = 0; cached_tail = 0; cached_head = 0 }
