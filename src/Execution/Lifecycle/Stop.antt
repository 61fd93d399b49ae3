-- ===== src/Execution/Lifecycle/Stop.antt =====
-- A whole life of `LifecycleExecutor`: it starts, runs, is told to stop, and its workers end.
use spot_spot_relay_arbitrag.Prelude.{
  is_empty, ℕ, zero, suc, ◌≤◌, ◌≡◌, refl, ◌∙◌, Bool, true, List, [], ◌∷◌, ◌==◌, if◌then◌else◌,
  length, length-replicate, replicate, count_if, arith,
}
use spot_spot_relay_arbitrag.Execution.Lifecycle.{
  Worker, pops, drains, handles, Executor, is_outside, Turn, turn, run, LifecycleExecutorOptions,
  new_executor, start_workers, request_stop,
}
use spot_spot_relay_arbitrag.Execution.Lifecycle.Tally.{
  is_ended, hold, held, IsTallied, turn-IsTallied,
}
use spot_spot_relay_arbitrag.Execution.Lifecycle.Open.{some_worker, IsOpen, turn-IsOpen}
use spot_spot_relay_arbitrag.Execution.Lifecycle.Drained.{
  all_ended, IsClosing, turn-IsClosing, turn-workers,
}

-- At least one worker starts.
abbrev worker_number : LifecycleExecutorOptions → ℕ
worker_number options = if options.worker_count == 0 then 1 else options.worker_count

start-workers {ℓ} :
    (A : Type ℓ) (options : LifecycleExecutorOptions)
    → 1 ≤ length (start_workers {A = A} options new_executor).workers
unfolding start_workers new_executor
start-workers A options =
    ground (arith, length-replicate {A = Worker A} (worker_number options) pops)

module _ {ℓ} {A : Type ℓ} where
  run-IsTallied :
      (capacity : ℕ) (turns : List (Turn A)) (x : Executor A)
      → IsTallied x
      → IsTallied (run capacity turns x)
  unfolding run
  run-IsTallied capacity [] x h = h
  run-IsTallied capacity (z ∷ turns) x h =
      run-IsTallied capacity turns (turn capacity z x) (turn-IsTallied capacity z x h)

  run-IsOpen :
      (capacity : ℕ) (turns : List (Turn A)) (x : Executor A)
      → IsOpen x.running x.workers
      → let y = run capacity turns x in IsOpen y.running y.workers
  unfolding run
  run-IsOpen capacity [] x h = h
  run-IsOpen capacity (z ∷ turns) x h =
      run-IsOpen capacity turns (turn capacity z x) (turn-IsOpen capacity z x h)

  run-IsClosing :
      (capacity : ℕ) (turns : List (Turn A)) (x : Executor A)
      → IsClosing x
      → IsClosing (run capacity turns x)
  unfolding run
  run-IsClosing capacity [] x h = h
  run-IsClosing capacity (z ∷ turns) x h =
      run-IsClosing capacity turns (turn capacity z x) (turn-IsClosing capacity z x h)

  run-workers :
      (capacity : ℕ) (turns : List (Turn A)) (x : Executor A)
      → length (run capacity turns x).workers ≡ length x.workers
  unfolding run
  run-workers capacity [] x = refl
  run-workers capacity (z ∷ turns) x =
      run-workers capacity turns (turn capacity z x) ∙ turn-workers capacity z x

  -- The executor that has started and has taken some turns, and the one that was then told to stop and has taken
  -- some more.
  abbrev pub started : ℕ → LifecycleExecutorOptions → List (Turn A) → Executor A
  started capacity options turns = run capacity turns (start_workers options new_executor)

  abbrev pub stopped : ℕ → LifecycleExecutorOptions → List (Turn A) → List (Turn A) → Executor A
  stopped capacity options before after =
      run capacity after (request_stop (started capacity options before))

  fresh-IsOpen : (n : ℕ) → IsOpen true (replicate {A = Worker A} n pops)
  fresh-IsOpen zero = record { is_running = refl; none_testing = refl; none_ended = refl }
  fresh-IsOpen (suc n) =
      let o = fresh-IsOpen n in
      record { is_running = refl; none_testing = o.none_testing; none_ended = o.none_ended }

  fresh-held : (f : A → Bool) (n : ℕ) → held f (replicate n pops) ≡ 0
  fresh-held f zero = refl
  fresh-held f (suc n) = omega (arith, fresh-held f n)

  start-IsTallied :
      (options : LifecycleExecutorOptions) → IsTallied (start_workers {A = A} options new_executor)
  unfolding start_workers new_executor
  start-IsTallied options f = omega (arith, fresh-held f (worker_number options))

  start-IsOpen :
      (options : LifecycleExecutorOptions) (x : Executor A)
      → x ≡ start_workers options new_executor
      → IsOpen x.running x.workers
  unfolding start_workers new_executor
  start-IsOpen options x e = rw e (fresh-IsOpen (worker_number options))

  started-IsTallied :
      (capacity : ℕ) (options : LifecycleExecutorOptions) (turns : List (Turn A))
      → IsTallied (started capacity options turns)
  started-IsTallied capacity options turns =
      run-IsTallied capacity turns (start_workers options new_executor)
        (λ f. start-IsTallied options f)

  -- A task that was accepted is in one place: at any time after the start, and after a stop too, the tasks that pass
  -- a test and were accepted are as many as those that the handler was given, that wait in the queue, and that a
  -- worker holds, together.
  pub stopped-IsTallied :
      (capacity : ℕ) (options : LifecycleExecutorOptions) (before after : List (Turn A))
      → IsTallied (started capacity options before)
        × IsTallied (stopped capacity options before after)
  unfolding request_stop
  stopped-IsTallied capacity options before after = (
    started-IsTallied capacity options before,
    run-IsTallied capacity after _ (started-IsTallied capacity options before),
  )

  ended-hold : (f : A → Bool) (w : Worker A) → is_ended w ≡ true → hold f w ≡ 0
  ended-hold f (drains a b) h = absurd (ground (arith, h))
  ended-hold f (handles a b) h = absurd (ground (arith, h))
  ended-hold f _ h = refl

  ended-held : (f : A → Bool) (ws : List (Worker A)) → all_ended ws ≡ true → held f ws ≡ 0
  ended-held f [] h = refl
  ended-held f (w ∷ ws) h = ground (arith, ended-hold f w, ended-held f ws, h)

  ended-some :
      (ws : List (Worker A)) → 1 ≤ length ws → all_ended ws ≡ true → some_worker is_ended ws ≡ true
  ended-some [] n h = absurd (omega (arith, n))
  ended-some (w ∷ ws) n h = ground (arith, h)

  dry-count : (f : A → Bool) (queue : List A) → is_empty queue ≡ true → count_if f queue ≡ 0
  dry-count f [] h = refl
  dry-count f (a ∷ queue) h = absurd (ground (arith, h))

  -- If no caller is in `enqueue` when the executor is told to stop, then once all its workers have ended the handler
  -- was given every accepted task exactly once: as many of them pass any test as of the accepted ones.
  pub stopped-handed :
      (capacity : ℕ) (options : LifecycleExecutorOptions) (before after : List (Turn A))
      → ((t : ℕ) → is_outside ((started capacity options before).callers t) ≡ true)
      → all_ended (stopped capacity options before after).workers ≡ true
      → (f : A → Bool)
      → count_if f (stopped capacity options before after).accepted
        ≡ count_if f (stopped capacity options before after).handed
  unfolding request_stop
  stopped-handed capacity options before after quiet all_done f =
      let y = stopped capacity options before after in
      let open_before : IsOpen (started capacity options before).running
          (started capacity options before).workers =
        run-IsOpen capacity before _ (start-IsOpen options _ refl) in
      let closing : IsClosing y = run-IsClosing capacity after _ (record {
        is_stopped = refl;
        is_quiet = quiet;
        is_dry = λ e. absurd (ground (arith, e, open_before.none_ended));
      }) in
      let some =
        ended-some y.workers
          (omega (
            arith,
            run-workers capacity after (request_stop (started capacity options before)),
            run-workers capacity before (start_workers options new_executor),
            start-workers A options,
          ))
          all_done in
      omega (
        arith,
        (stopped-IsTallied capacity options before after).1 f,
        dry-count f y.queue (closing.is_dry some),
        ended-held f y.workers all_done,
      )
