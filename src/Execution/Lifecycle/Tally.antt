-- ===== src/Execution/Lifecycle/Tally.antt =====
-- Where each task is.
use spot_spot_relay_arbitrag.Prelude.{
  is_empty, ℕ, zero, suc, ◌+◌, ◌-◌, ◌≡◌, refl, sym, ap, ◌∙◌, Bool, true, false, List, [], ◌∷◌,
  if◌then◌else◌, if_elim, ltb, length, get_or, set, count_if, count_if-append, arith,
}
use spot_spot_relay_arbitrag.Execution.Lifecycle.{
  Caller, outside, spins, counts, returned, Stage, at_top, in_loop, at_end, Worker, pops,
  pops_in_loop, drains, handles, tests_running, tests_empty, looks, waits, ended, Executor, enqueue,
  caller_step, worker_step, pop_task, go_on_from, push_task, set_worker, is_outside, Turn,
  calls_enqueue, caller_runs, worker_runs, turn,
}

module _ {ℓ} {A : Type ℓ} where
  abbrev pub is_ended : Worker A → Bool
  is_ended ended = true
  is_ended _ = false

  -- Whether a worker holds a task that passes the test.
  abbrev pub hold : (A → Bool) → Worker A → ℕ
  hold f (drains task to_top) = if f task then 1 else 0
  hold f (handles task to_top) = if f task then 1 else 0
  hold f _ = 0

  abbrev pub held : (A → Bool) → List (Worker A) → ℕ
  held f [] = 0
  held f (w ∷ ws) = hold f w + held f ws

  -- Every accepted task was handed to the handler, is in the queue, or is held by a worker, and only once.
  abbrev pub IsTallied : Executor A → Type ℓ
  IsTallied x =
      (f : A → Bool)
      → count_if f x.accepted ≡ count_if f x.handed + (count_if f x.queue + held f x.workers)

  held-set :
      (f : A → Bool) (ws : List (Worker A)) (i : ℕ) (v : Worker A)
      → is_ended (get_or ws i ended) ≡ false
      → held f (set ws i v) + hold f (get_or ws i ended) ≡ held f ws + hold f v
  held-set f [] i v h = absurd (ground (arith, h))
  held-set f (w ∷ ws) zero v h = omega arith
  held-set f (w ∷ ws) (suc i) v h = omega (arith, held-set f ws i v h)

  go_on_from-hold :
      (f : A → Bool) (n : ℕ) (stage : Stage)
      → (hold f (go_on_from {A = A} n stage) ≡ 0) × (is_ended (go_on_from {A = A} n stage) ≡ false)
  unfolding go_on_from
  go_on_from-hold f n at_top = ground arith
  go_on_from-hold f n (in_loop m) = ground arith
  go_on_from-hold f n at_end = ground arith

  -- A worker that holds nothing moves on and holds nothing.
  moved-IsTallied :
      (w : ℕ) (v : Worker A) (x : Executor A)
      → is_ended (get_or x.workers w ended) ≡ false
      → ((f : A → Bool) → hold f (get_or x.workers w ended) ≡ hold f v)
      → IsTallied x
      → IsTallied (set_worker w v x)
  moved-IsTallied w v x there same h f = omega (arith, h f, same f, held-set f x.workers w v there)

  pop_task-IsTallied :
      (w : ℕ) (to_top : Bool) (otherwise : Worker A) (queue : List A) (x : Executor A)
      → x.queue ≡ queue
      → is_ended (get_or x.workers w ended) ≡ false
      → ((f : A → Bool) → hold f (get_or x.workers w ended) ≡ 0)
      → ((f : A → Bool) → hold f otherwise ≡ 0)
      → IsTallied x
      → IsTallied (pop_task w to_top otherwise queue x)
  unfolding pop_task
  pop_task-IsTallied w to_top otherwise [] x e there free none h =
      moved-IsTallied w otherwise x there (λ f. free f ∙ sym (none f)) h
  pop_task-IsTallied w to_top otherwise (task ∷ tasks) x e there free none h = λ f.
      ground
        (arith, h f, ap (count_if f) e, free f, held-set f x.workers w (drains task to_top) there)

  worker_step-IsTallied :
      (w : ℕ) (v : Worker A) (x : Executor A)
      → get_or x.workers w ended ≡ v
      → IsTallied x
      → IsTallied (worker_step w v x)
  unfolding worker_step
  worker_step-IsTallied w pops x e h =
      pop_task-IsTallied w true (tests_running at_top) x.queue x refl (ap is_ended e)
        (λ f. ap (hold f) e) (λ f. refl) h
  worker_step-IsTallied w (pops_in_loop n) x e h =
      pop_task-IsTallied w false (tests_running (in_loop (n - 1))) x.queue x refl (ap is_ended e)
        (λ f. ap (hold f) e) (λ f. refl) h
  worker_step-IsTallied w (drains task to_top) x e h =
      moved-IsTallied w (handles task to_top) x (ap is_ended e) (λ f. ap (hold f) e) h
  worker_step-IsTallied w (handles task to_top) x e h = λ f. ground (
    arith,
    h f,
    ap (hold f) e,
    count_if-append f x.handed (task ∷ []),
    held-set f x.workers w (if to_top then pops else looks) (ap is_ended e),
  )
  worker_step-IsTallied w (tests_running stage) x e h =
      moved-IsTallied w _ x (ap is_ended e)
        (λ f.
          ap (hold f) e
          ∙ if_elim (λ v. 0 ≡ hold f v) x.running _ (tests_empty stage)
              (λ t. sym (go_on_from-hold f x.options.empty_spin_count stage).0) (λ n. refl))
        h
  worker_step-IsTallied w (tests_empty stage) x e h =
      moved-IsTallied w _ x (ap is_ended e)
        (λ f.
          ap (hold f) e
          ∙ if_elim (λ v. 0 ≡ hold f v) (is_empty x.queue) ended _ (λ t. refl)
              (λ n. sym (go_on_from-hold f x.options.empty_spin_count stage).0))
        h
  worker_step-IsTallied w looks x e h =
      moved-IsTallied w _ x (ap is_ended e)
        (λ f.
          ap (hold f) e
          ∙ if_elim (λ v. 0 ≡ hold f v) (is_empty x.queue) (tests_running at_end) pops (λ t. refl)
              (λ n. refl))
        h
  worker_step-IsTallied w waits x e h =
      moved-IsTallied w pops x (ap is_ended e) (λ f. ap (hold f) e) h
  worker_step-IsTallied w ended x e h = h

  push_task-IsTallied :
      (t : ℕ) (task : A) (x : Executor A) → IsTallied x → IsTallied (push_task t task x)
  push_task-IsTallied t task x h f =
      omega (
        arith,
        h f,
        count_if-append f x.accepted (task ∷ []),
        count_if-append f x.queue (task ∷ []),
      )

  caller_step-IsTallied :
      (capacity t : ℕ) (c : Caller A) (x : Executor A)
      → IsTallied x
      → IsTallied (caller_step capacity t c x)
  unfolding caller_step
  caller_step-IsTallied capacity t outside x h = h
  caller_step-IsTallied capacity t (spins task zero) x h =
      if_elim IsTallied (ltb (length x.queue) capacity) _ _ (λ room. push_task-IsTallied t task x h)
        (λ full. h)
  caller_step-IsTallied capacity t (spins task (suc n)) x h =
      if_elim IsTallied (ltb (length x.queue) capacity) _ _ (λ room. push_task-IsTallied t task x h)
        (λ full. h)
  caller_step-IsTallied capacity t counts x h = h
  caller_step-IsTallied capacity t (returned b) x h = h

  pub turn-IsTallied :
      (capacity : ℕ) (y : Turn A) (x : Executor A) → IsTallied x → IsTallied (turn capacity y x)
  unfolding turn enqueue
  turn-IsTallied capacity (calls_enqueue t task) x h =
      if_elim IsTallied (is_outside (x.callers t)) _ _ (λ f. h) (λ n. h)
  turn-IsTallied capacity (caller_runs t) x h = caller_step-IsTallied capacity t (x.callers t) x h
  turn-IsTallied capacity (worker_runs w) x h =
      worker_step-IsTallied w (get_or x.workers w ended) x refl h
