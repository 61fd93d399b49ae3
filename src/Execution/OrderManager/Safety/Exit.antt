-- ===== src/Execution/OrderManager/Safety/Exit.antt =====
-- The rounds of `execute_spot_relay_exit`.
use spot_spot_relay_arbitrag.Prelude.{
  ℕ, ◌≡◌, refl, Bool, true, false, not, ◌&&◌, List, [], ◌∷◌, Option, none, some, ◌⊎◌, All, arith,
  Bool-cases, inl, inr, if◌then◌else◌, if_elim,
}
use spot_spot_relay_arbitrag.Double.{Double, zero_f}
use spot_spot_relay_arbitrag.Types.Trade.{Order, is_filled}
use spot_spot_relay_arbitrag.Execution.OrderManager.{Manager, Venues}
use spot_spot_relay_arbitrag.Execution.OrderManager.Action.{Action}
use spot_spot_relay_arbitrag.Execution.OrderManager.Fill.{resolved_fill_quantity}
use spot_spot_relay_arbitrag.Execution.OrderManager.Snapshot.{
  ExecutionResult, Holding, stopped, reentry,
}
use spot_spot_relay_arbitrag.Execution.OrderManager.Market.{Market, Round, begin_round, exit_market}
use spot_spot_relay_arbitrag.Execution.OrderManager.Orders.{
  execute_korean_sell, execute_foreign_cover, query_foreign_fill, query_korean_fill,
}
use spot_spot_relay_arbitrag.Execution.OrderManager.Hedge.{
  Opened, unopened, opened, open_failed, retry_sell,
}
use spot_spot_relay_arbitrag.Execution.OrderManager.Entry.{Step, go_on, return_with, after_round}
use spot_spot_relay_arbitrag.Execution.OrderManager.Entry.Split.{exit_coin_amount}
use spot_spot_relay_arbitrag.Execution.OrderManager.Exit.{
  ExitContext, ExitState, exit_base, exit_snapshot, exit_result,
}
use spot_spot_relay_arbitrag.Execution.OrderManager.Exit.Split.{
  exit_filled, exit_sell_again, exit_close, after_reopen, reentry_coin_amount, reentry_split,
}
use spot_spot_relay_arbitrag.Execution.OrderManager.Exit.Loop.{
  exit_round, exit_end, exit_loop, may_close, may_reenter,
}
use spot_spot_relay_arbitrag.Execution.OrderManager.Frame.{
  is_disciplined, open_legs-Asks, retry_sell-Asks, execute_foreign_cover-Asks,
  execute_korean_sell-Asks, query_foreign_fill-Asks, query_korean_fill-Asks,
}
use spot_spot_relay_arbitrag.Execution.OrderManager.Safety.{
  IsBalanced, IsLive, IsStopped, IsSafe, stop-IsSafe, Asks-IsLive, notify-IsLive, if_IsSafe,
  begin_round-kept,
}

module _ {ℓ} {F : Type ℓ} ⦃d : Double F⦄ ⦃v : Venues F⦄ where
  -- What the exit leaves: a stop, or balanced updates only and a success, or a balanced position after a shutdown.
  abbrev pub IsExitEnd : Option (ExecutionResult F) × Manager F → Type ℓ
  IsExitEnd (none, m) = IsLive m
  IsExitEnd (some result, m) =
      (is_disciplined m.requests ≡ true)
      × (IsStopped result m
          ⊎ (All IsBalanced m.position_updates
              × ((result.success ≡ true)
                  ⊎ (m.running ≡ false) × IsBalanced (some result.position))))

module _ {ℓ} {F : Type ℓ} ⦃d : Double F⦄ ⦃v : Venues F⦄ (c : ExitContext F) where
  snapshot-IsBalanced :
      (h : Holding F) (rate : F) (keep : Bool)
      → IsBalanced (if keep then some (exit_snapshot c h rate) else none)
  unfolding exit_snapshot
  snapshot-IsBalanced h rate true = refl
  snapshot-IsBalanced h rate false = tt

  module _ (k : Market F) where
    exit_filled-IsSafe :
        (s : ExitState F) (q : F) (f o : Order F) (m : Manager F)
        → IsLive m
        → IsSafe (exit_filled c s k q f o m)
    unfolding exit_filled
    exit_filled-IsSafe s q f o m live = notify-IsLive _ m (snapshot-IsBalanced _ _ _) live

    exit_sell_again-IsSafe :
        (s : ExitState F) (f o : Order F) (m : Manager F)
        → IsLive m
        → IsSafe (exit_sell_again c s k f o m)
    unfolding exit_sell_again
    exit_sell_again-IsSafe s f o m live =
        let covered = resolved_fill_quantity f in
        let retried = retry_sell 5 c.legs covered o m in
        let still : IsLive retried.1 = Asks-IsLive (retry_sell-Asks 5 c.legs covered o m) live in
        if_IsSafe (is_filled retried.0.1.status) _ _ retried.1 still (stop-IsSafe _ _ _ _ still)

    exit_close-IsSafe : (s : ExitState F) (m : Manager F) → IsLive m → IsSafe (exit_close c s k m)
    unfolding exit_close
    exit_close-IsSafe s m live =
        let fx = c.legs.foreign_exchange in
        let kx = c.legs.korean_exchange in
        let amount = exit_coin_amount s.holding.amount k.foreign_ask in
        let (o, m1) = execute_foreign_cover fx c.legs.foreign_symbol amount m in
        let (f, m2) = query_foreign_fill fx o m1 in
        let (b, m3) = execute_korean_sell kx c.legs.symbol o.quantity m2 in
        let (g, m4) = query_korean_fill kx c.legs.symbol b m3 in
        let live1 : IsLive m1 =
          Asks-IsLive (execute_foreign_cover-Asks fx c.legs.foreign_symbol amount m) live in
        let live4 : IsLive m4 = Asks-IsLive (query_korean_fill-Asks kx c.legs.symbol b m3) (
          Asks-IsLive (execute_korean_sell-Asks kx c.legs.symbol o.quantity m2)
            (Asks-IsLive (query_foreign_fill-Asks fx o m1) live1)) in
        if_IsSafe (not (is_filled o.status)) _ _ m1 live1 (
          if_IsSafe (is_filled g.status) _ _ m4 (exit_filled-IsSafe s o.quantity f g m4 live4)
            (exit_sell_again-IsSafe s f g m4 live4))

    after_reopen-IsSafe :
        (s : ExitState F) (o : Opened F) (m : Manager F)
        → IsLive m
        → IsSafe (after_reopen c s k o m)
    unfolding after_reopen
    after_reopen-IsSafe s unopened m live = live
    after_reopen-IsSafe s (opened fq kq bp sp adj) m live =
        notify-IsLive _ m (snapshot-IsBalanced _ _ true) live
    after_reopen-IsSafe s (open_failed reason p) m live =
        stop-IsSafe (stopped reentry reason) p (exit_result c) m live

    reentry_split-IsSafe :
        (s : ExitState F) (m : Manager F) → IsLive m → IsSafe (reentry_split c s k m)
    unfolding reentry_split
    reentry_split-IsSafe s m live = after_reopen-IsSafe s _ _ (
        Asks-IsLive
          (open_legs-Asks c.legs (exit_base c s.holding k.usdt_rate) s.holding k
            (reentry_coin_amount c s.holding k) m)
          live)

    exit_round-IsSafe : (s : ExitState F) (m : Manager F) → IsLive m → IsSafe (exit_round c s k m)
    unfolding exit_round
    exit_round-IsSafe s m live =
        let s' : ExitState F = record s { last_usdt_rate = k.usdt_rate } in
        if_IsSafe (not k.quote_pair_ok) _ _ m live (
          if_IsSafe (may_close c s.holding k) _ _ m (exit_close-IsSafe s' m live)
            (if_IsSafe (may_reenter c s.holding k) _ _ m (reentry_split-IsSafe s' m live) live))

  exit_end-cases :
      (now : ℕ) (s : ExitState F) (running : Bool)
      → (d.lt zero_f s.holding.amount && running) ≡ false
      → ((exit_end c now s).success ≡ true)
        ⊎ (running ≡ false) × IsBalanced (some (exit_end c now s).position)
  unfolding exit_end exit_snapshot
  exit_end-cases now s running h = elim (Bool-cases (d.lt zero_f s.holding.amount)) [
    | inl t ↦ inr (ground (arith, h, t), rw t refl)
    | inr n ↦ inl (rw n refl)
  ]

  after_round-IsExitEnd :
      (rest : ExitState F → Action F (Option (ExecutionResult F)))
      (out : Step (ExitState F) (ExecutionResult F) × Manager F)
      → ((s : ExitState F) (m : Manager F) → IsLive m → IsExitEnd (rest s m))
      → IsSafe out
      → IsExitEnd (after_round rest out)
  after_round-IsExitEnd rest (go_on s, m) next safe = next s m safe
  after_round-IsExitEnd rest (return_with result, m) next safe = (safe.1, inl safe.0)

  pub exit_loop-IsExitEnd :
      (rounds : List (Round F)) (s : ExitState F) (m : Manager F)
      → IsLive m
      → IsExitEnd (exit_loop c rounds s m)
  unfolding exit_loop
  exit_loop-IsExitEnd [] s m live = live
  exit_loop-IsExitEnd (r ∷ rounds) s m live =
      let m1 : Manager F = begin_round r m in
      let k : Market F = exit_market c.signal c.legs r.now_ms m1.engine in
      let (balanced, disciplined) = begin_round-kept r m live in
      if_elim IsExitEnd (d.lt zero_f s.holding.amount && m1.running) _ _
        (λ t.
          after_round-IsExitEnd (exit_loop c rounds) (exit_round c s k m1)
            (exit_loop-IsExitEnd rounds)
            (exit_round-IsSafe k s m1 (record {
              running = ground (arith, t);
              balanced = balanced;
              disciplined = disciplined;
            })))
        (λ n. (disciplined, inr (balanced, exit_end-cases r.system_now s m1.running n)))
