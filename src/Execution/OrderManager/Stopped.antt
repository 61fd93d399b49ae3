-- ===== src/Execution/OrderManager/Stopped.antt =====
-- The bot after a critical stop: whatever it is called for later, it sends nothing and reports nothing.
use spot_spot_relay_arbitrag.Prelude.{
  ℕ, ◌≡◌, refl, false, ◌&&◌, List, [], ◌∷◌, Option, none, some, arith, if_elim,
}
use spot_spot_relay_arbitrag.Double.{Double, zero_f}
use spot_spot_relay_arbitrag.Types.Trade.{Position}
use spot_spot_relay_arbitrag.Strategy.Engine.{ArbitrageSignal, ExitSignal}
use spot_spot_relay_arbitrag.Execution.OrderManager.{Manager, Venues}
use spot_spot_relay_arbitrag.Execution.OrderManager.Action.{Action}
use spot_spot_relay_arbitrag.Execution.OrderManager.Snapshot.{
  ExecutionResult, Message, persist_snapshot, trigger_critical_stop,
}
use spot_spot_relay_arbitrag.Execution.OrderManager.Market.{Round, begin_round}
use spot_spot_relay_arbitrag.Execution.OrderManager.Entry.{EntryContext, EntryState, refuse_or}
use spot_spot_relay_arbitrag.Execution.OrderManager.Entry.Loop.{
  entry_loop, entry_refusal, execute_spot_relay_entry,
}
use spot_spot_relay_arbitrag.Execution.OrderManager.Exit.{ExitContext, ExitState}
use spot_spot_relay_arbitrag.Execution.OrderManager.Exit.Loop.{
  exit_loop, exit_refusal, execute_spot_relay_exit,
}

-- A later use of the manager.
pub data Call {ℓ} (F : Type ℓ) : Type ℓ where
  enters : ℕ → ℕ → List (Round F) → ArbitrageSignal F → Option (Position F) → Call F
  leaves : List (Round F) → ExitSignal F → Position F → Call F

module _ {ℓ} {F : Type ℓ} ⦃d : Double F⦄ ⦃v : Venues F⦄ where
  unfoldable pub call : Call F → Manager F → Manager F
  call (enters max_positions now rounds signal initial) m =
      (execute_spot_relay_entry max_positions now rounds signal initial m).1
  call (leaves rounds signal p) m = (execute_spot_relay_exit rounds signal p m).1

  unfoldable pub run_calls : List (Call F) → Manager F → Manager F
  run_calls [] m = m
  run_calls (c ∷ calls) m = run_calls calls (call c m)

  -- `after` is halted, with the requests, the updates and the trades of `before`.
  pub record IsHalted (before after : Manager F) : Type ℓ where
    pub halted : after.running ≡ false
    pub no_request : after.requests ≡ before.requests
    pub no_update : after.position_updates ≡ before.position_updates
    pub no_trade : after.completed_trades ≡ before.completed_trades

  begin_round-IsHalted :
      (r : Round F) (m0 m : Manager F) → IsHalted m0 m → IsHalted m0 (begin_round r m)
  unfolding begin_round
  begin_round-IsHalted r m0 m h = record {
    halted = rw h.halted refl;
    no_request = h.no_request;
    no_update = h.no_update;
    no_trade = h.no_trade;
  }

  entry_loop-IsHalted :
      (c : EntryContext F) (rounds : List (Round F)) (s : EntryState F) (m0 m : Manager F)
      → IsHalted m0 m
      → IsHalted m0 (entry_loop c rounds s m).1
  unfolding entry_loop
  entry_loop-IsHalted c [] s m0 m h = h
  entry_loop-IsHalted c (r ∷ rounds) s m0 m h =
      let next = begin_round-IsHalted r m0 m h in
      if_elim (λ (out : Option (ExecutionResult F) × Manager F). IsHalted m0 out.1)
        (begin_round r m).running _ _ (λ t. absurd (ground (arith, t, next.halted))) (λ n. next)

  exit_loop-IsHalted :
      (c : ExitContext F) (rounds : List (Round F)) (s : ExitState F) (m0 m : Manager F)
      → IsHalted m0 m
      → IsHalted m0 (exit_loop c rounds s m).1
  unfolding exit_loop
  exit_loop-IsHalted c [] s m0 m h = h
  exit_loop-IsHalted c (r ∷ rounds) s m0 m h =
      let next = begin_round-IsHalted r m0 m h in
      if_elim (λ (out : Option (ExecutionResult F) × Manager F). IsHalted m0 out.1)
        (d.lt zero_f s.holding.amount && (begin_round r m).running) _ _
        (λ t. absurd (ground (arith, t, next.halted))) (λ n. next)

  refuse_or-IsHalted :
      (refusal : Option Message) (result : ExecutionResult F)
      (run : Action F (Option (ExecutionResult F))) (m0 m : Manager F)
      → IsHalted m0 m
      → IsHalted m0 (run m).1
      → IsHalted m0 (refuse_or refusal result run m).1
  refuse_or-IsHalted none result run m0 m h ran = ran
  refuse_or-IsHalted (some why) result run m0 m h ran = h

  call-IsHalted : (c : Call F) (m0 m : Manager F) → IsHalted m0 m → IsHalted m0 (call c m)
  unfolding call execute_spot_relay_entry execute_spot_relay_exit
  call-IsHalted (enters max_positions now rounds signal initial) m0 m h =
      refuse_or-IsHalted (entry_refusal signal initial m) _ _ m0 m h
        (entry_loop-IsHalted _ rounds _ m0 m h)
  call-IsHalted (leaves rounds signal p) m0 m h =
      refuse_or-IsHalted (exit_refusal signal p m) _ _ m0 m h (exit_loop-IsHalted _ rounds _ m0 m h)

  run_calls-IsHalted :
      (calls : List (Call F)) (m0 m : Manager F) → IsHalted m0 m → IsHalted m0 (run_calls calls m)
  unfolding run_calls
  run_calls-IsHalted [] m0 m h = h
  run_calls-IsHalted (c ∷ calls) m0 m h =
      run_calls-IsHalted calls m0 (call c m) (call-IsHalted c m0 m h)

  -- After a critical stop, however often `execute_spot_relay_entry` and `execute_spot_relay_exit` are called again,
  -- on any signals and with any rounds, no request is sent to a venue, the update and the trade callbacks are
  -- not called, and the manager stays halted.
  pub stopped-IsHalted :
      (reason : Message) (snap : Position F) (result : ExecutionResult F) (m : Manager F)
      (calls : List (Call F))
      → let stopped = (trigger_critical_stop reason snap result m).1 in
        IsHalted stopped (run_calls calls stopped)
  unfolding trigger_critical_stop persist_snapshot
  stopped-IsHalted reason snap result m calls =
      let stopped = (trigger_critical_stop reason snap result m).1 in
      run_calls-IsHalted calls stopped stopped
        (record { halted = refl; no_request = refl; no_update = refl; no_trade = refl })
