-- ===== src/Execution/OrderManager/Ends.antt =====
-- `execute_spot_relay_entry` and `execute_spot_relay_exit` as wholes: what they leave, and that a shutdown ends them.

use spot_spot_relay_arbitrag.Prelude.{
  ℕ, ◌≡◌, refl, Bool, true, false, ◌&&◌, ◌||◌, List, [], ◌∷◌, Option, none, some, arith, if_elim,
}
use spot_spot_relay_arbitrag.Double.{Double, zero_f}
use spot_spot_relay_arbitrag.Types.Trade.{Position}
use spot_spot_relay_arbitrag.Strategy.Engine.{ArbitrageSignal, ExitSignal}
use spot_spot_relay_arbitrag.Execution.OrderManager.{Manager, Venues}
use spot_spot_relay_arbitrag.Execution.OrderManager.Action.{Action}
use spot_spot_relay_arbitrag.Execution.OrderManager.Snapshot.{ExecutionResult, Message}
use spot_spot_relay_arbitrag.Execution.OrderManager.Market.{Round, begin_round}
use spot_spot_relay_arbitrag.Execution.OrderManager.Entry.{
  EntryContext, EntryState, Step, go_on, return_with, after_round, refuse_or,
}
use spot_spot_relay_arbitrag.Execution.OrderManager.Entry.Loop.{
  entry_shutdown, entry_loop, entry_refusal, execute_spot_relay_entry,
}
use spot_spot_relay_arbitrag.Execution.OrderManager.Exit.{ExitContext, ExitState}
use spot_spot_relay_arbitrag.Execution.OrderManager.Exit.Loop.{
  exit_end, exit_loop, exit_refusal, execute_spot_relay_exit,
}
use spot_spot_relay_arbitrag.Execution.OrderManager.Safety.{IsLive}
use spot_spot_relay_arbitrag.Execution.OrderManager.Safety.Entry.{IsEntryEnd, entry_loop-IsEntryEnd}
use spot_spot_relay_arbitrag.Execution.OrderManager.Safety.Exit.{IsExitEnd, exit_loop-IsExitEnd}

-- A result is there.
abbrev pub Returns {ℓ κ} : {R : Type ℓ} {M : Type κ} → Option R × M → Type ℓ
Returns {R = R} out = (result : R) × (out.0 ≡ some result)

-- A shutdown is requested in one of the rounds.
abbrev pub shuts_down {ℓ} : {F : Type ℓ} → List (Round F) → Bool
shuts_down [] = false
shuts_down (r ∷ rounds) = r.shutdown || shuts_down rounds

after_round-Returns {ℓ κ μ} :
    {F : Type ℓ} {S : Type κ} {R : Type μ} (rest : S → Action F (Option R))
    (out : Step S R × Manager F)
    → ((s : S) (m : Manager F) → Returns (rest s m))
    → Returns (after_round rest out)
after_round-Returns rest (go_on s, m) h = h s m
after_round-Returns rest (return_with r, m) h = (r, refl)

module _ {ℓ} {F : Type ℓ} ⦃d : Double F⦄ ⦃v : Venues F⦄ where
  begin_round-shutdown :
      (r : Round F) (m : Manager F) → r.shutdown ≡ true → (begin_round r m).running ≡ false
  unfolding begin_round
  begin_round-shutdown r m h = ground (arith, h)

  refuse_or-Returns :
      (refusal : Option Message) (result : ExecutionResult F)
      (run : Action F (Option (ExecutionResult F))) (m : Manager F)
      → Returns (run m)
      → Returns (refuse_or refusal result run m)
  refuse_or-Returns none result run m h = h
  refuse_or-Returns (some message) result run m h =
      (record result { error_message = message }, refl)

  entry_loop-Returns :
      (c : EntryContext F) (rounds : List (Round F)) (s : EntryState F) (m : Manager F)
      → shuts_down rounds ≡ true
      → Returns (entry_loop c rounds s m)
  unfolding entry_loop
  entry_loop-Returns c [] s m h = absurd (ground (arith, h))
  entry_loop-Returns c (r ∷ rounds) s m h =
      if_elim Returns (begin_round r m).running _ _
        (λ t. after_round-Returns (entry_loop c rounds) _ (λ s' m'.
          entry_loop-Returns c rounds s' m' (ground (arith, h, t, begin_round-shutdown r m))))
        (λ n. (entry_shutdown c s, refl))

  exit_loop-Returns :
      (c : ExitContext F) (rounds : List (Round F)) (s : ExitState F) (m : Manager F)
      → shuts_down rounds ≡ true
      → Returns (exit_loop c rounds s m)
  unfolding exit_loop
  exit_loop-Returns c [] s m h = absurd (ground (arith, h))
  exit_loop-Returns c (r ∷ rounds) s m h =
      if_elim Returns (d.lt zero_f s.holding.amount && (begin_round r m).running) _ _
        (λ t. after_round-Returns (exit_loop c rounds) _ (λ s' m'.
          exit_loop-Returns c rounds s' m' (ground (arith, h, t, begin_round-shutdown r m))))
        (λ n. (exit_end c r.system_now s, refl))

  -- The entry returns a result if a shutdown is requested in one of its rounds, whatever the venues answer.
  pub execute_spot_relay_entry-Returns :
      (max_positions now : ℕ) (rounds : List (Round F)) (signal : ArbitrageSignal F)
      (initial : Option (Position F)) (m : Manager F)
      → shuts_down rounds ≡ true
      → Returns (execute_spot_relay_entry max_positions now rounds signal initial m)
  unfolding execute_spot_relay_entry
  execute_spot_relay_entry-Returns max_positions now rounds signal initial m h =
      refuse_or-Returns (entry_refusal signal initial m) _ _ m (entry_loop-Returns _ rounds _ m h)

  -- The exit returns a result if a shutdown is requested in one of its rounds, whatever the venues answer.
  pub execute_spot_relay_exit-Returns :
      (rounds : List (Round F)) (signal : ExitSignal F) (p : Position F) (m : Manager F)
      → shuts_down rounds ≡ true
      → Returns (execute_spot_relay_exit rounds signal p m)
  unfolding execute_spot_relay_exit
  execute_spot_relay_exit-Returns rounds signal p m h =
      refuse_or-Returns (exit_refusal signal p m) _ _ m (exit_loop-Returns _ rounds _ m h)

  -- Let the manager run, all its updates of the position file so far have the same amount on both legs, and every
  -- Korean purchase so far be for at least the minimum in KRW, after a short that was filled. An entry that is not
  -- refused makes no other purchase, and ends in a critical stop, or after a shutdown with the same amount on both
  -- legs of every update and of its position; if its rounds run out, all this still holds of the manager.
  pub execute_spot_relay_entry-IsEntryEnd :
      (max_positions now : ℕ) (rounds : List (Round F)) (signal : ArbitrageSignal F)
      (initial : Option (Position F)) (m : Manager F)
      → IsLive m
      → entry_refusal signal initial m ≡ none
      → IsEntryEnd (execute_spot_relay_entry max_positions now rounds signal initial m)
  unfolding execute_spot_relay_entry
  execute_spot_relay_entry-IsEntryEnd max_positions now rounds signal initial m live accepted =
      rw accepted (entry_loop-IsEntryEnd _ rounds _ m live)

  -- Let the manager run, all its updates of the position file so far have the same amount on both legs, and every
  -- Korean purchase so far be for at least the minimum in KRW, after a short that was filled. An exit that is not
  -- refused makes no other purchase, and ends in a critical stop, or with the same amount on both legs of every
  -- update and either a success or, after a shutdown, the same amount on both legs of its position; if its rounds
  -- run out, all this still holds of the manager.
  pub execute_spot_relay_exit-IsExitEnd :
      (rounds : List (Round F)) (signal : ExitSignal F) (p : Position F) (m : Manager F)
      → IsLive m
      → exit_refusal signal p m ≡ none
      → IsExitEnd (execute_spot_relay_exit rounds signal p m)
  unfolding execute_spot_relay_exit
  execute_spot_relay_exit-IsExitEnd rounds signal p m live accepted =
      rw accepted (exit_loop-IsExitEnd _ rounds _ m live)
