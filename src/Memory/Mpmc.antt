-- ===== src/Memory/Mpmc.antt =====
-- kimp_arb_cpp/include/kimp/memory/ring_buffer.hpp: `MPMCRingBuffer` of capacity `2 ^ k`. The threads take turns: a
-- turn is one load, one compare-exchange or one store of a thread, and the turns come in any order; after a load of a
-- sequence that is ahead, the position is loaded again in the same turn. Positions are `size_t`. The buffer is given by its cells, and an index is always masked.
pub mod Held
pub mod Others
pub mod Sound
pub mod Turns
pub mod Run
mod Tests
use spot_spot_relay_arbitrag.Prelude.{
  ℕ, ◌+◌, ◌-◌, ◌^◌, ◌%◌, Bool, true, false, not, ◌&&◌, List, [], ◌∷◌, Option, none, some, bit_and,
  if◌then◌else◌, ◌==◌, leb,
}

pub record Cell {ℓ} (A : Type ℓ) : Type ℓ where
  pub sequence : ℕ
  pub item : A

pub record Mpmc {ℓ} (A : Type ℓ) : Type ℓ where
  pub buffer : ℕ → Cell A
  pub enqueue_pos : ℕ
  pub dequeue_pos : ℕ
  -- The histories: the positions that pushes have claimed, with their items, and those that pops have read. The
  -- newest is first.
  pub claims : List (ℕ × A)
  pub takes : List (ℕ × A)

-- Where a thread stands: the local variables of `try_push` or `try_pop` before its next access to shared memory.
pub data Thread {ℓ} (A : Type ℓ) : Type ℓ where
  idle : Thread A
  -- Before the load of the sequence, before the compare-exchange, before the write, before the last store.
  push_check push_claim push_write push_publish : A → ℕ → Thread A
  pushed : Bool → Thread A
  pop_check pop_claim pop_read : ℕ → Thread A
  pop_release : ℕ → A → Thread A
  popped : Option A → Thread A

-- `pos & MASK`.
unfoldable pub index : ℕ → ℕ → ℕ
index k pos = bit_and pos (2 ^ k - 1)

-- `size_t` addition.
abbrev pub add_u64 : ℕ → ℕ → ℕ
add_u64 a b = (a + b) % 2 ^ 64

-- `static_cast<intptr_t>(a) - static_cast<intptr_t>(b) < 0`.
unfoldable pub is_behind : ℕ → ℕ → Bool
is_behind a b = leb (2 ^ 63) ((a + 2 ^ 64 - b) % 2 ^ 64)

module _ {ℓ} {A : Type ℓ} where
  -- `a` is `T{}`.
  unfoldable pub new : A → Mpmc A
  new a = record {
    buffer = λ i. record { sequence = i; item = a };
    enqueue_pos = 0;
    dequeue_pos = 0;
    claims = [];
    takes = [];
  }

  abbrev pub cell_at : ℕ → Mpmc A → ℕ → Cell A
  cell_at k q pos = q.buffer (index k pos)

  abbrev pub write_cell : ℕ → Cell A → (ℕ → Cell A) → ℕ → Cell A
  write_cell i c buffer j = if i == j then c else buffer j

  -- The first load of a call.
  unfoldable pub start_push : A → Mpmc A → Thread A
  start_push item q = push_check item q.enqueue_pos

  unfoldable pub start_pop : Mpmc A → Thread A
  start_pop q = pop_check q.dequeue_pos

  -- The next access; a weak compare-exchange may fail although the values agree, if `spurious`.
  unfoldable pub advance : ℕ → Bool → Thread A → Mpmc A → Thread A × Mpmc A
  advance k spurious (push_check item pos) q =
      let seq = (cell_at k q pos).sequence in
      (
        if seq == pos
            then push_claim item pos
            else if is_behind seq pos
            then pushed false
            else push_check item q.enqueue_pos,
        q,
      )
  advance k spurious (push_claim item pos) q =
      if (q.enqueue_pos == pos) && not spurious
      then (
        push_write item pos,
        record q { enqueue_pos = add_u64 pos 1; claims = (pos, item) ∷ q.claims },
      )
      else (push_check item q.enqueue_pos, q)
  advance k spurious (push_write item pos) q = (
    push_publish item pos,
    record q {
      buffer = write_cell (index k pos) (record (cell_at k q pos) { item = item }) q.buffer;
    },
  )
  advance k spurious (push_publish item pos) q = (
    pushed true,
    record q {
      buffer =
          write_cell (index k pos) (record (cell_at k q pos) { sequence = add_u64 pos 1 }) q.buffer;
    },
  )
  advance k spurious (pop_check pos) q =
      let seq = (cell_at k q pos).sequence in
      (
        if seq == add_u64 pos 1
            then pop_claim pos
            else if is_behind seq (add_u64 pos 1)
            then popped none
            else pop_check q.dequeue_pos,
        q,
      )
  advance k spurious (pop_claim pos) q =
      if (q.dequeue_pos == pos) && not spurious
      then (pop_read pos, record q { dequeue_pos = add_u64 pos 1 })
      else (pop_check q.dequeue_pos, q)
  advance k spurious (pop_read pos) q =
      let item = (cell_at k q pos).item in
      (pop_release pos item, record q { takes = (pos, item) ∷ q.takes })
  advance k spurious (pop_release pos item) q = (
    popped (some item),
    record q {
      buffer =
          write_cell (index k pos)
            (record (cell_at k q pos) { sequence = add_u64 (pos + (2 ^ k - 1)) 1 }) q.buffer;
    },
  )
  advance k spurious t q = (t, q)

  unfoldable pub empty : ℕ → Mpmc A → Bool
  empty k q = is_behind (cell_at k q q.dequeue_pos).sequence (add_u64 q.dequeue_pos 1)

-- A turn of thread `t`.
pub data Turn {ℓ} (A : Type ℓ) : Type ℓ where
  calls_push : ℕ → A → Turn A
  calls_pop : ℕ → Turn A
  runs : ℕ → Bool → Turn A

pub record System {ℓ} (A : Type ℓ) : Type ℓ where
  pub queue : Mpmc A
  pub threads : ℕ → Thread A

module _ {ℓ} {A : Type ℓ} where
  -- A thread that is in no call.
  abbrev pub is_free : Thread A → Bool
  is_free idle = true
  is_free (pushed b) = true
  is_free (popped o) = true
  is_free _ = false

  abbrev pub put : ℕ → Thread A → (ℕ → Thread A) → ℕ → Thread A
  put t thread threads u = if t == u then thread else threads u

  unfoldable pub turn : ℕ → Turn A → System A → System A
  unfolding advance start_push start_pop
  turn k (calls_push t item) s =
      if is_free (s.threads t)
      then record s { threads = put t (start_push item s.queue) s.threads }
      else s
  turn k (calls_pop t) s =
      if is_free (s.threads t)
      then record s { threads = put t (start_pop s.queue) s.threads }
      else s
  turn k (runs t spurious) s =
      let (thread, queue) = advance k spurious (s.threads t) s.queue in
      record { queue = queue; threads = put t thread s.threads }

  unfoldable pub run : ℕ → List (Turn A) → System A → System A
  run k [] s = s
  run k (x ∷ turns) s = run k turns (turn k x s)
