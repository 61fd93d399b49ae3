-- ===== src/Execution/Lifecycle/Tests.antt =====
-- Two tasks and one worker: the executor is told to stop while the second task waits.
use spot_spot_relay_arbitrag.Prelude.{
  ℕ, ◌≡◌, refl, true, Bool, List, [], ◌∷◌, count_if, ◌==◌, arith,
}
use spot_spot_relay_arbitrag.Execution.Lifecycle.{
  Turn, calls_enqueue, caller_runs, worker_runs, LifecycleExecutorOptions, is_outside, new_executor,
  start_workers, request_stop, enqueue, caller_step, worker_step, pop_task, go_on_from, turn, run,
}
use spot_spot_relay_arbitrag.Execution.Lifecycle.Tally.{IsTallied}
use spot_spot_relay_arbitrag.Execution.Lifecycle.Drained.{all_ended}
use spot_spot_relay_arbitrag.Execution.Lifecycle.Stop.{
  started, stopped, stopped-IsTallied, stopped-handed,
}

abbrev options : LifecycleExecutorOptions
options = record { worker_count = 0; push_spin_count = 1; empty_spin_count = 1 }

abbrev before : List (Turn ℕ)
before =
    calls_enqueue 0 7
    ∷ calls_enqueue 1 8
    ∷ caller_runs 0
    ∷ caller_runs 1
    ∷ worker_runs 0
    ∷ caller_runs 1
    ∷ caller_runs 0
    ∷ []

abbrev after : List (Turn ℕ)
after =
    worker_runs 0
    ∷ worker_runs 0
    ∷ worker_runs 0
    ∷ worker_runs 0
    ∷ worker_runs 0
    ∷ worker_runs 0
    ∷ worker_runs 0
    ∷ worker_runs 0
    ∷ []

handed_both : (stopped 4 options before after).handed ≡ 7 ∷ 8 ∷ []
unfolding run turn enqueue caller_step worker_step pop_task go_on_from new_executor start_workers
    request_stop
handed_both = refl

callers_outside : (t : ℕ) → is_outside ((started 4 options before).callers t) ≡ true
unfolding run turn enqueue caller_step worker_step pop_task go_on_from new_executor start_workers
callers_outside t = ground arith

workers_ended : all_ended (stopped 4 options before after).workers ≡ true
unfolding run turn enqueue caller_step worker_step pop_task go_on_from new_executor start_workers
    request_stop
workers_ended = refl

abbrev is_seven : ℕ → Bool
is_seven n = n == 7

stopped-IsTallied_example :
    IsTallied (started 4 options before) × IsTallied (stopped 4 options before after)
stopped-IsTallied_example = stopped-IsTallied 4 options before after

stopped-handed_example :
    count_if is_seven (stopped 4 options before after).accepted
    ≡ count_if is_seven (stopped 4 options before after).handed
stopped-handed_example =
    stopped-handed 4 options before after callers_outside workers_ended is_seven
