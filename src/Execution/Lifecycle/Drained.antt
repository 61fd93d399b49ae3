-- ===== src/Execution/Lifecycle/Drained.antt =====
-- What `stop` of `LifecycleExecutor` leaves.
use spot_spot_relay_arbitrag.Prelude.{
  is_empty, ℕ, zero, suc, ◌-◌, ◌≡◌, ◌⊎◌, refl, ap, Bool, true, false, ◌&&◌, List, [], ◌∷◌,
  if◌then◌else◌, if_elim, ◌==◌, ltb, length, length-set, get_or, set, arith, inl, inr,
}
use spot_spot_relay_arbitrag.Execution.Lifecycle.{
  Caller, outside, spins, counts, returned, at_top, in_loop, at_end, Worker, pops, pops_in_loop,
  drains, handles, tests_running, tests_empty, looks, waits, ended, Executor, enqueue, caller_step,
  worker_step, pop_task, set_worker, is_outside, Turn, calls_enqueue, caller_runs, worker_runs,
  turn,
}
use spot_spot_relay_arbitrag.Execution.Lifecycle.Open.{
  some_worker, some_worker-set, go_on_from-IsStaying,
}
use spot_spot_relay_arbitrag.Execution.Lifecycle.Tally.{is_ended}

module _ {ℓ} {A : Type ℓ} where
  abbrev pub all_ended : List (Worker A) → Bool
  all_ended [] = true
  all_ended (w ∷ ws) = is_ended w && all_ended ws

  -- After `stop`: a worker ends only with an empty queue, and no caller is in `enqueue`.
  pub record IsClosing (x : Executor A) : Type ℓ where
    pub is_stopped : x.running ≡ false
    pub is_quiet : (t : ℕ) → is_outside (x.callers t) ≡ true
    pub is_dry : some_worker is_ended x.workers ≡ true → is_empty x.queue ≡ true

  dry_set :
      (w : ℕ) (v : Worker A) (workers : List (Worker A)) (dry : Bool)
      → (is_ended v ≡ false) ⊎ (dry ≡ true)
      → (some_worker is_ended workers ≡ true → dry ≡ true)
      → some_worker is_ended (set workers w v) ≡ true
      → dry ≡ true
  dry_set w v workers dry (inr e) h k = e
  dry_set w v workers dry (inl e) h k = ground (arith, h, k, some_worker-set is_ended workers w v e)

  -- A worker that moves on, or ends with an empty queue.
  moved-IsClosing :
      (w : ℕ) (v : Worker A) (x : Executor A)
      → (is_ended v ≡ false) ⊎ (is_empty x.queue ≡ true)
      → IsClosing x
      → IsClosing (set_worker w v x)
  moved-IsClosing w v x h c = record {
    is_stopped = c.is_stopped;
    is_quiet = c.is_quiet;
    is_dry = dry_set w v x.workers (is_empty x.queue) h c.is_dry;
  }

  pop_task-IsClosing :
      (w : ℕ) (to_top : Bool) (otherwise : Worker A) (queue : List A) (x : Executor A)
      → x.queue ≡ queue
      → is_ended otherwise ≡ false
      → IsClosing x
      → IsClosing (pop_task w to_top otherwise queue x)
  unfolding pop_task
  pop_task-IsClosing w to_top otherwise [] x e h c = moved-IsClosing w otherwise x (inl h) c
  pop_task-IsClosing w to_top otherwise (task ∷ tasks) x e h c = record {
    is_stopped = c.is_stopped;
    is_quiet = c.is_quiet;
    is_dry =
        dry_set w (drains task to_top) x.workers (is_empty tasks) (inl refl)
          (λ k. absurd (ground (arith, c.is_dry k, ap is_empty e)));
  }

  worker_step-IsClosing :
      (w : ℕ) (v : Worker A) (x : Executor A) → IsClosing x → IsClosing (worker_step w v x)
  unfolding worker_step
  worker_step-IsClosing w pops x c =
      pop_task-IsClosing w true (tests_running at_top) x.queue x refl refl c
  worker_step-IsClosing w (pops_in_loop n) x c =
      pop_task-IsClosing w false (tests_running (in_loop (n - 1))) x.queue x refl refl c
  worker_step-IsClosing w (drains task to_top) x c =
      let c' = moved-IsClosing w (handles task to_top) x (inl refl) c in
      record { is_stopped = c'.is_stopped; is_quiet = c'.is_quiet; is_dry = c'.is_dry }
  worker_step-IsClosing w (handles task to_top) x c =
      let next : Worker A = if to_top then pops else looks in
      let c' = moved-IsClosing w next x (inl (ground arith)) c in
      record { is_stopped = c'.is_stopped; is_quiet = c'.is_quiet; is_dry = c'.is_dry }
  worker_step-IsClosing w (tests_running stage) x c =
      moved-IsClosing w _ x
        (inl (
          if_elim (λ v. is_ended v ≡ false) x.running _ (tests_empty stage)
            (λ t. (go_on_from-IsStaying x.options.empty_spin_count stage refl).1) (λ n. refl)))
        c
  worker_step-IsClosing w (tests_empty stage) x c =
      moved-IsClosing w _ x
        (if_elim (λ v. (is_ended v ≡ false) ⊎ (is_empty x.queue ≡ true)) (is_empty x.queue) ended _
          (λ t. inr t) (λ n. inl (go_on_from-IsStaying x.options.empty_spin_count stage refl).1))
        c
  worker_step-IsClosing w looks x c =
      moved-IsClosing w _ x
        (inl (
          if_elim (λ v. is_ended v ≡ false) (is_empty x.queue) (tests_running at_end) pops
            (λ t. refl) (λ n. refl)))
        c
  worker_step-IsClosing w waits x c = moved-IsClosing w pops x (inl refl) c
  worker_step-IsClosing w ended x c = c

  -- A caller outside takes no step.
  outside_step :
      (capacity t : ℕ) (c : Caller A) (x : Executor A)
      → is_outside c ≡ true
      → caller_step capacity t c x ≡ x
  unfolding caller_step
  outside_step capacity t outside x h = refl
  outside_step capacity t (returned b) x h = refl
  outside_step capacity t (spins task zero) x h = absurd (ground (arith, h))
  outside_step capacity t (spins task (suc n)) x h = absurd (ground (arith, h))
  outside_step capacity t counts x h = absurd (ground (arith, h))

  pub turn-IsClosing :
      (capacity : ℕ) (z : Turn A) (x : Executor A) → IsClosing x → IsClosing (turn capacity z x)
  unfolding turn enqueue
  turn-IsClosing capacity (calls_enqueue t task) x c =
      if_elim IsClosing (is_outside (x.callers t)) _ _
        (λ f. record {
          is_stopped = c.is_stopped;
          is_quiet = λ u.
              if_elim (λ (y : Caller A). is_outside y ≡ true) (t == u) _ (x.callers u)
                (λ same.
                  if_elim (λ (y : Caller A). is_outside y ≡ true) x.running _ (returned false)
                    (λ r. absurd (ground (arith, r, c.is_stopped))) (λ n. refl))
                (λ away. c.is_quiet u);
          is_dry = c.is_dry;
        })
        (λ n. c)
  turn-IsClosing capacity (caller_runs t) x c =
      rw (outside_step capacity t (x.callers t) x (c.is_quiet t)) c
  turn-IsClosing capacity (worker_runs w) x c =
      worker_step-IsClosing w (get_or x.workers w ended) x c

  pop_task-workers :
      (w : ℕ) (to_top : Bool) (otherwise : Worker A) (queue : List A) (x : Executor A)
      → length (pop_task w to_top otherwise queue x).workers ≡ length x.workers
  unfolding pop_task
  pop_task-workers w to_top otherwise [] x = length-set x.workers w otherwise
  pop_task-workers w to_top otherwise (task ∷ tasks) x = length-set x.workers w (drains task to_top)

  worker_step-workers :
      (w : ℕ) (v : Worker A) (x : Executor A)
      → length (worker_step w v x).workers ≡ length x.workers
  unfolding worker_step
  worker_step-workers w pops x = pop_task-workers w true (tests_running at_top) x.queue x
  worker_step-workers w (pops_in_loop n) x =
      pop_task-workers w false (tests_running (in_loop (n - 1))) x.queue x
  worker_step-workers w (drains task to_top) x = length-set x.workers w _
  worker_step-workers w (handles task to_top) x = length-set x.workers w _
  worker_step-workers w (tests_running stage) x = length-set x.workers w _
  worker_step-workers w (tests_empty stage) x = length-set x.workers w _
  worker_step-workers w looks x = length-set x.workers w _
  worker_step-workers w waits x = length-set x.workers w _
  worker_step-workers w ended x = refl

  caller_step-workers :
      (capacity t : ℕ) (c : Caller A) (x : Executor A)
      → (caller_step capacity t c x).workers ≡ x.workers
  unfolding caller_step
  caller_step-workers capacity t outside x = refl
  caller_step-workers capacity t (spins task zero) x =
      if_elim (λ (y : Executor A). y.workers ≡ x.workers) (ltb (length x.queue) capacity) _ _
        (λ room. refl) (λ full. refl)
  caller_step-workers capacity t (spins task (suc n)) x =
      if_elim (λ (y : Executor A). y.workers ≡ x.workers) (ltb (length x.queue) capacity) _ _
        (λ room. refl) (λ full. refl)
  caller_step-workers capacity t counts x = refl
  caller_step-workers capacity t (returned b) x = refl

  pub turn-workers :
      (capacity : ℕ) (z : Turn A) (x : Executor A)
      → length (turn capacity z x).workers ≡ length x.workers
  unfolding turn enqueue
  turn-workers capacity (calls_enqueue t task) x =
      if_elim (λ (y : Executor A). length y.workers ≡ length x.workers) (is_outside (x.callers t)) _
        _ (λ f. refl) (λ n. refl)
  turn-workers capacity (caller_runs t) x =
      ap length (caller_step-workers capacity t (x.callers t) x)
  turn-workers capacity (worker_runs w) x = worker_step-workers w (get_or x.workers w ended) x
