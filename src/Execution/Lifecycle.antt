-- ===== src/Execution/Lifecycle.antt =====
-- kimp_arb_cpp/include/kimp/execution/lifecycle_executor.hpp: `LifecycleExecutor`. Its queue is a bounded list here, and a
-- push or a pop is one step, as is every access to a shared variable. The callers of `enqueue` and the workers take
-- turns in any order. Waiting for a notification may end at any time.
pub mod Tally
pub mod Open
pub mod Drained
pub mod Stop
mod Tests
use spot_spot_relay_arbitrag.Prelude.{
  ℕ, zero, suc, ◌+◌, ◌-◌, ◌^◌, ◌%◌, Bool, true, false, List, [], ◌∷◌, ◌++◌, if◌then◌else◌, ◌==◌,
  ltb, length, get_or, set, replicate, is_empty,
}

pub record LifecycleExecutorOptions : Type 0 where
  pub worker_count : ℕ
  pub push_spin_count : ℕ
  pub empty_spin_count : ℕ

-- A caller of `enqueue_impl`: it has rounds of the loop left, or has pushed and not yet counted the task.
pub data Caller {ℓ} (A : Type ℓ) : Type ℓ where
  outside : Caller A
  spins : A → ℕ → Caller A
  counts : Caller A
  returned : Bool → Caller A

-- Where `worker_loop` tests whether to end: at the top, with rounds of the inner loop left, and before it waits.
pub data Stage : Type 0 where
  at_top : Stage
  in_loop : ℕ → Stage
  at_end : Stage

-- A worker before its next access; `drains` and `handles` have a task from `drain_one`, and say where they go on.
pub data Worker {ℓ} (A : Type ℓ) : Type ℓ where
  pops : Worker A
  pops_in_loop : ℕ → Worker A
  drains handles : A → Bool → Worker A
  tests_running tests_empty : Stage → Worker A
  looks waits ended : Worker A

pub record Executor {ℓ} (A : Type ℓ) : Type ℓ where
  pub options : LifecycleExecutorOptions
  pub queue : List A
  pub running : Bool
  pub pending : ℕ
  pub workers : List (Worker A)
  pub callers : ℕ → Caller A
  -- The histories: the tasks that were pushed, and those that the handler was given.
  pub accepted : List A
  pub handed : List A

module _ {ℓ} {A : Type ℓ} where
  unfoldable pub new_executor : Executor A
  new_executor = record {
    options = record { worker_count = 1; push_spin_count = 256; empty_spin_count = 2048 };
    queue = [];
    running = false;
    pending = 0;
    workers = [];
    callers = λ t. outside;
    accepted = [];
    handed = [];
  }

  unfoldable pub start_workers : LifecycleExecutorOptions → Executor A → Executor A
  start_workers options x =
      let count = if options.worker_count == 0 then 1 else options.worker_count in
      if x.running then x else record x {
        running = true;
        options = record options { worker_count = count };
        workers = x.workers ++ replicate count pops;
      }

  -- `stop` up to the joining of the workers.
  unfoldable pub request_stop : Executor A → Executor A
  request_stop x = record x { running = false }

  abbrev pub set_caller : ℕ → Caller A → (ℕ → Caller A) → ℕ → Caller A
  set_caller t caller callers u = if t == u then caller else callers u

  -- The rest of `stop`, once the workers have ended and are joined.
  unfoldable pub finish_stop : Executor A → Executor A
  finish_stop x = record x { workers = []; pending = 0 }

  unfoldable pub enqueue : ℕ → A → Executor A → Executor A
  enqueue t task x = record x {
    callers =
        set_caller t (if x.running then spins task x.options.push_spin_count else returned false)
          x.callers;
  }

  -- A push that succeeds; `capacity` is the queue's.
  abbrev pub push_task : ℕ → A → Executor A → Executor A
  push_task t task x = record x {
    queue = x.queue ++ (task ∷ []);
    accepted = x.accepted ++ (task ∷ []);
    callers = set_caller t counts x.callers;
  }

  unfoldable pub caller_step : ℕ → ℕ → Caller A → Executor A → Executor A
  caller_step capacity t (spins task (suc n)) x =
      if ltb (length x.queue) capacity
      then push_task t task x
      else record x { callers = set_caller t (spins task n) x.callers }
  caller_step capacity t (spins task zero) x =
      if ltb (length x.queue) capacity
      then push_task t task x
      else record x { callers = set_caller t (returned false) x.callers }
  caller_step capacity t counts x = record x {
    pending = (x.pending + 1) % 2 ^ 64;
    callers = set_caller t (returned true) x.callers;
  }
  caller_step capacity t _ x = x

  -- Where a worker goes on that does not end.
  unfoldable pub go_on_from : ℕ → Stage → Worker A
  go_on_from empty_spin_count at_top =
      if empty_spin_count == 0 then looks else pops_in_loop empty_spin_count
  go_on_from empty_spin_count (in_loop n) = if n == 0 then looks else pops_in_loop n
  go_on_from empty_spin_count at_end = waits

  abbrev pub set_worker : ℕ → Worker A → Executor A → Executor A
  set_worker w worker x = record x { workers = set x.workers w worker }

  -- `try_pop`: the first task, or what the worker does without one.
  unfoldable pub pop_task : ℕ → Bool → Worker A → List A → Executor A → Executor A
  pop_task w to_top otherwise [] x = set_worker w otherwise x
  pop_task w to_top otherwise (task ∷ tasks) x = record (set_worker w (drains task to_top) x) {
    queue = tasks;
  }

  unfoldable pub worker_step : ℕ → Worker A → Executor A → Executor A
  unfolding pop_task go_on_from
  worker_step w pops x = pop_task w true (tests_running at_top) x.queue x
  worker_step w (pops_in_loop n) x = pop_task w false (tests_running (in_loop (n - 1))) x.queue x
  worker_step w (drains task to_top) x = record (set_worker w (handles task to_top) x) {
    pending = (x.pending + (2 ^ 64 - 1)) % 2 ^ 64;
  }
  worker_step w (handles task to_top) x = record (set_worker w (if to_top then pops else looks) x) {
    handed = x.handed ++ (task ∷ []);
  }
  worker_step w (tests_running stage) x =
      set_worker w
        (if x.running then go_on_from x.options.empty_spin_count stage else tests_empty stage) x
  worker_step w (tests_empty stage) x =
      set_worker w (if is_empty x.queue then ended else go_on_from x.options.empty_spin_count stage)
        x
  worker_step w looks x = set_worker w (if is_empty x.queue then tests_running at_end else pops) x
  worker_step w waits x = set_worker w pops x
  worker_step w ended x = x

-- A turn: a call of `enqueue` by a caller that is in no call, or a step of a caller or of a worker.
pub data Turn {ℓ} (A : Type ℓ) : Type ℓ where
  calls_enqueue : ℕ → A → Turn A
  caller_runs worker_runs : ℕ → Turn A

module _ {ℓ} {A : Type ℓ} where
  abbrev pub is_outside : Caller A → Bool
  is_outside outside = true
  is_outside (returned b) = true
  is_outside _ = false

  unfoldable pub turn : ℕ → Turn A → Executor A → Executor A
  unfolding enqueue caller_step worker_step
  turn capacity (calls_enqueue t task) x = if is_outside (x.callers t) then enqueue t task x else x
  turn capacity (caller_runs t) x = caller_step capacity t (x.callers t) x
  turn capacity (worker_runs w) x = worker_step w (get_or x.workers w ended) x

  unfoldable pub run : ℕ → List (Turn A) → Executor A → Executor A
  run capacity [] x = x
  run capacity (y ∷ turns) x = run capacity turns (turn capacity y x)
