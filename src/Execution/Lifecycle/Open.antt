-- ===== src/Execution/Lifecycle/Open.antt =====
-- While `LifecycleExecutor` runs, its workers do not end.
use spot_spot_relay_arbitrag.Prelude.{
  is_empty, ℕ, zero, suc, ◌-◌, ◌≡◌, refl, ap, Bool, true, false, ◌||◌, List, [], ◌∷◌, if_elim, ◌==◌,
  ltb, length, get_or, set, arith,
}
use spot_spot_relay_arbitrag.Execution.Lifecycle.{
  Caller, outside, spins, counts, returned, Stage, at_top, in_loop, at_end, Worker, pops,
  pops_in_loop, drains, handles, tests_running, tests_empty, looks, waits, ended, Executor, enqueue,
  caller_step, worker_step, pop_task, go_on_from, is_outside, Turn, calls_enqueue, caller_runs,
  worker_runs, turn,
}
use spot_spot_relay_arbitrag.Execution.Lifecycle.Tally.{is_ended}

module _ {ℓ} {A : Type ℓ} where
  abbrev pub is_testing : Worker A → Bool
  is_testing (tests_empty stage) = true
  is_testing _ = false

  abbrev pub some_worker : (Worker A → Bool) → List (Worker A) → Bool
  some_worker p [] = false
  some_worker p (w ∷ ws) = p w || some_worker p ws

  pub some_worker-set :
      (p : Worker A → Bool) (ws : List (Worker A)) (i : ℕ) (v : Worker A)
      → p v ≡ false
      → some_worker p ws ≡ false
      → some_worker p (set ws i v) ≡ false
  some_worker-set p [] i v hv h = refl
  some_worker-set p (w ∷ ws) zero v hv h = ground (arith, hv, h)
  some_worker-set p (w ∷ ws) (suc i) v hv h = ground (arith, h, some_worker-set p ws i v hv)

  pub not_testing :
      (ws : List (Worker A)) (i : ℕ)
      → some_worker is_testing ws ≡ false
      → is_testing (get_or ws i ended) ≡ false
  not_testing [] i h = refl
  not_testing (w ∷ ws) zero h = ground (arith, h)
  not_testing (w ∷ ws) (suc i) h = not_testing ws i (ground (arith, h))

  -- While the executor runs, no worker is about to end or has ended.
  pub record IsOpen (running : Bool) (workers : List (Worker A)) : Type 0 where
    pub is_running : running ≡ true
    pub none_testing : some_worker is_testing workers ≡ false
    pub none_ended : some_worker is_ended workers ≡ false

  -- A worker goes on.
  abbrev pub IsStaying : Worker A → Type 0
  IsStaying v = (is_testing v ≡ false) × (is_ended v ≡ false)

  pub go_on_from-IsStaying :
      {w : Worker A} (n : ℕ) (stage : Stage) → w ≡ go_on_from n stage → IsStaying w
  unfolding go_on_from
  go_on_from-IsStaying n at_top e =
      rw e
        (if_elim IsStaying (n == 0) looks (pops_in_loop n) (λ t. (refl, refl)) (λ n. (refl, refl)))
  go_on_from-IsStaying n (in_loop m) e =
      rw e
        (if_elim IsStaying (m == 0) looks (pops_in_loop m) (λ t. (refl, refl)) (λ n. (refl, refl)))
  go_on_from-IsStaying n at_end e = rw e (refl, refl)

  moved-IsOpen :
      (w : ℕ) (v : Worker A) {running : Bool} (workers : List (Worker A))
      → IsStaying v
      → IsOpen running workers
      → IsOpen running (set workers w v)
  moved-IsOpen w v workers h o = record {
    is_running = o.is_running;
    none_testing = some_worker-set is_testing workers w v h.0 o.none_testing;
    none_ended = some_worker-set is_ended workers w v h.1 o.none_ended;
  }

  pop_task-IsOpen :
      (w : ℕ) (to_top : Bool) (otherwise : Worker A) (queue : List A) (x : Executor A)
      → IsStaying otherwise
      → IsOpen x.running x.workers
      → let y = pop_task w to_top otherwise queue x in IsOpen y.running y.workers
  unfolding pop_task
  pop_task-IsOpen w to_top otherwise [] x h o = moved-IsOpen w otherwise x.workers h o
  pop_task-IsOpen w to_top otherwise (task ∷ tasks) x h o =
      moved-IsOpen w (drains task to_top) x.workers (refl, refl) o

  worker_step-IsOpen :
      (w : ℕ) (v : Worker A) (x : Executor A)
      → get_or x.workers w ended ≡ v
      → IsOpen x.running x.workers
      → let y = worker_step w v x in IsOpen y.running y.workers
  unfolding worker_step
  worker_step-IsOpen w pops x e o =
      pop_task-IsOpen w true (tests_running at_top) x.queue x (refl, refl) o
  worker_step-IsOpen w (pops_in_loop n) x e o =
      pop_task-IsOpen w false (tests_running (in_loop (n - 1))) x.queue x (refl, refl) o
  worker_step-IsOpen w (drains task to_top) x e o =
      moved-IsOpen w (handles task to_top) x.workers (refl, refl) o
  worker_step-IsOpen w (handles task to_top) x e o =
      moved-IsOpen w _ x.workers
        (if_elim IsStaying to_top pops looks (λ t. (refl, refl)) (λ n. (refl, refl))) o
  worker_step-IsOpen w (tests_running stage) x e o =
      moved-IsOpen w _ x.workers
        (if_elim IsStaying x.running _ (tests_empty stage)
          (λ t. go_on_from-IsStaying x.options.empty_spin_count stage refl)
          (λ n. absurd (ground (arith, n, o.is_running))))
        o
  worker_step-IsOpen w (tests_empty stage) x e o =
      absurd (ground (arith, ap is_testing e, not_testing x.workers w o.none_testing))
  worker_step-IsOpen w looks x e o =
      moved-IsOpen w _ x.workers
        (if_elim IsStaying (is_empty x.queue) (tests_running at_end) pops (λ t. (refl, refl))
          (λ n. (refl, refl)))
        o
  worker_step-IsOpen w waits x e o = moved-IsOpen w pops x.workers (refl, refl) o
  worker_step-IsOpen w ended x e o = o

  caller_step-IsOpen :
      (capacity t : ℕ) (c : Caller A) (x : Executor A)
      → IsOpen x.running x.workers
      → let y = caller_step capacity t c x in IsOpen y.running y.workers
  unfolding caller_step
  caller_step-IsOpen capacity t outside x o = o
  caller_step-IsOpen capacity t (spins task zero) x o =
      if_elim (λ (y : Executor A). IsOpen y.running y.workers) (ltb (length x.queue) capacity) _ _
        (λ room. o) (λ full. o)
  caller_step-IsOpen capacity t (spins task (suc n)) x o =
      if_elim (λ (y : Executor A). IsOpen y.running y.workers) (ltb (length x.queue) capacity) _ _
        (λ room. o) (λ full. o)
  caller_step-IsOpen capacity t counts x o = o
  caller_step-IsOpen capacity t (returned b) x o = o

  pub turn-IsOpen :
      (capacity : ℕ) (z : Turn A) (x : Executor A)
      → IsOpen x.running x.workers
      → let y = turn capacity z x in IsOpen y.running y.workers
  unfolding turn enqueue
  turn-IsOpen capacity (calls_enqueue t task) x o =
      if_elim (λ (y : Executor A). IsOpen y.running y.workers) (is_outside (x.callers t)) _ _
        (λ f. o) (λ n. o)
  turn-IsOpen capacity (caller_runs t) x o = caller_step-IsOpen capacity t (x.callers t) x o
  turn-IsOpen capacity (worker_runs w) x o =
      worker_step-IsOpen w (get_or x.workers w ended) x refl o
