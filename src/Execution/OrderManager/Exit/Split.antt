-- ===== src/Execution/OrderManager/Exit/Split.antt =====
-- kimp_arb_cpp/src/execution/order_manager.cpp: the exit split and the re-entry split of `execute_spot_relay_exit`.
use spot_spot_relay_arbitrag.Prelude.{Bool, true, false, not, none, some, if◌then◌else◌}
use spot_spot_relay_arbitrag.Double.{Double, zero_f, min_f}
use spot_spot_relay_arbitrag.Types.TradingConfig.{order_size_usd}
use spot_spot_relay_arbitrag.Types.Trade.{Order, is_filled}
use spot_spot_relay_arbitrag.Execution.OrderManager.{Venues}
use spot_spot_relay_arbitrag.Execution.OrderManager.Action.{Action, pure, modify, ◌>>=◌, ◌>>◌}
use spot_spot_relay_arbitrag.Execution.OrderManager.Fill.{
  resolved_fill_quantity, resolved_fill_price, price_or,
}
use spot_spot_relay_arbitrag.Execution.OrderManager.Orders.{
  execute_korean_sell, execute_foreign_cover, query_foreign_fill, query_korean_fill,
}
use spot_spot_relay_arbitrag.Execution.OrderManager.Snapshot.{
  ExecutionResult, Holding, exit, reentry, sell_failed, stopped, unsold, notify,
  trigger_critical_stop,
}
use spot_spot_relay_arbitrag.Execution.OrderManager.Market.{Market}
use spot_spot_relay_arbitrag.Execution.OrderManager.Hedge.{
  Opened, unopened, opened, open_failed, open_legs, retry_sell,
}
use spot_spot_relay_arbitrag.Execution.OrderManager.Entry.{Step, go_on, return_with, extend}
use spot_spot_relay_arbitrag.Execution.OrderManager.Entry.Split.{exit_coin_amount}
use spot_spot_relay_arbitrag.Execution.OrderManager.Exit.{
  ExitContext, ExitState, exit_base, exit_snapshot, exited, exit_result,
}

module _ {ℓ} {F : Type ℓ} ⦃d : Double F⦄ ⦃v : Venues F⦄ where
  abbrev pub retried_state : ExitState F → Market F → F → F → Bool × Order F → ExitState F
  retried_state s k covered cover_price (false, order) = s
  retried_state s k covered cover_price (true, order) =
      exited s covered (price_or order.average_price k.korean_bid) cover_price k.usdt_rate

  unfoldable pub exit_sell_again :
      ExitContext F
      → ExitState F
      → Market F
      → Order F
      → Order F
      → Action F (Step (ExitState F) (ExecutionResult F))
  exit_sell_again c s k foreign_order korean_order =
      let covered = resolved_fill_quantity foreign_order in
      let cover_price = resolved_fill_price foreign_order k.foreign_ask in
      do
        retried ← retry_sell 5 c.legs covered korean_order
        let s' = retried_state s k covered cover_price retried
        if is_filled retried.1.status then pure (go_on s') else (do
          result ←
              trigger_critical_stop (stopped exit sell_failed)
                (unsold (exit_base c s'.holding k.usdt_rate) s'.holding covered) (exit_result c)
          pure (return_with result))

  -- Both orders are filled: what the foreign fill says is closed.
  unfoldable pub exit_filled :
      ExitContext F
      → ExitState F
      → Market F
      → F
      → Order F
      → Order F
      → Action F (Step (ExitState F) (ExecutionResult F))
  exit_filled c s k ordered foreign_order korean_order =
      let covered =
        if d.lt zero_f foreign_order.filled_quantity
        then foreign_order.filled_quantity
        else ordered in
      let s' =
        exited s covered (price_or korean_order.average_price k.korean_bid)
          (price_or foreign_order.average_price k.foreign_ask) k.usdt_rate in
      let snap = exit_snapshot c s'.holding k.usdt_rate in
      modify (notify (if d.lt zero_f s'.holding.amount then some snap else none)) >> pure (go_on s')

  unfoldable pub exit_close :
      ExitContext F → ExitState F → Market F → Action F (Step (ExitState F) (ExecutionResult F))
  exit_close c s k = do
    cover_order ←
        execute_foreign_cover c.legs.foreign_exchange c.legs.foreign_symbol
          (exit_coin_amount s.holding.amount k.foreign_ask)
    if not (is_filled cover_order.status) then pure (go_on s) else (do
      foreign_order ← query_foreign_fill c.legs.foreign_exchange cover_order
      sold ← execute_korean_sell c.legs.korean_exchange c.legs.symbol cover_order.quantity
      korean_order ← query_korean_fill c.legs.korean_exchange c.legs.symbol sold
      if is_filled korean_order.status
          then exit_filled c s k cover_order.quantity foreign_order korean_order
          else exit_sell_again c s k foreign_order korean_order)

  unfoldable pub after_reopen :
      ExitContext F
      → ExitState F
      → Market F
      → Opened F
      → Action F (Step (ExitState F) (ExecutionResult F))
  after_reopen c s k unopened = pure (go_on s)
  after_reopen c s k (opened foreign_qty korean_qty buy_price short_price adjustment) =
      let h = extend s.holding (min_f foreign_qty korean_qty) buy_price short_price adjustment in
      modify (notify (some (exit_snapshot c h k.usdt_rate)))
      >> pure (go_on (record s { holding = h }))
  after_reopen c s k (open_failed reason mismatch) = do
    result ← trigger_critical_stop (stopped reentry reason) mismatch (exit_result c)
    pure (return_with result)

  unfoldable pub reentry_coin_amount : ExitContext F → Holding F → Market F → F
  reentry_coin_amount c h k =
      let max_reentry_coins = d.sub c.position.foreign_amount h.amount in
      d.div (min_f order_size_usd (d.mul max_reentry_coins k.foreign_bid)) k.foreign_bid

  unfoldable pub reentry_split :
      ExitContext F → ExitState F → Market F → Action F (Step (ExitState F) (ExecutionResult F))
  reentry_split c s k = do
    outcome ←
        open_legs c.legs (exit_base c s.holding k.usdt_rate) s.holding k
          (reentry_coin_amount c s.holding k)
    after_reopen c s k outcome
