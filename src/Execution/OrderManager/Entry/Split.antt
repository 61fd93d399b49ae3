-- ===== src/Execution/OrderManager/Entry/Split.antt =====
-- kimp_arb_cpp/src/execution/order_manager.cpp: the exit of `execute_spot_relay_entry`, which closes a split of the
-- position that the same call has opened.
use spot_spot_relay_arbitrag.Prelude.{ℕ, Bool, true, false, ◌∷◌, none, some, if◌then◌else◌}
use spot_spot_relay_arbitrag.Double.{Double, zero_f, min_f}
use spot_spot_relay_arbitrag.Types.TradingConfig.{order_size_usd}
use spot_spot_relay_arbitrag.Types.Trade.{Position, Order, is_filled}
use spot_spot_relay_arbitrag.Strategy.PositionTracker.{close_position}
use spot_spot_relay_arbitrag.Strategy.Engine.{Engine}
use spot_spot_relay_arbitrag.Execution.OrderManager.{Manager, Venues}
use spot_spot_relay_arbitrag.Execution.OrderManager.Action.{Action, pure, modify, ◌>>=◌, ◌>>◌}
use spot_spot_relay_arbitrag.Execution.OrderManager.Fill.{
  resolved_fill_quantity, resolved_fill_price, price_or,
}
use spot_spot_relay_arbitrag.Execution.OrderManager.Orders.{
  execute_korean_sell, execute_foreign_cover, query_foreign_fill, query_korean_fill,
}
use spot_spot_relay_arbitrag.Execution.OrderManager.Snapshot.{
  ExecutionResult, Holding, exit, sell_failed, stopped, average, hedged, unsold, notify, on_engine,
  trigger_critical_stop,
}
use spot_spot_relay_arbitrag.Execution.OrderManager.Market.{
  Market, Round, effective_entry_premium, round_exit_premium,
}
use spot_spot_relay_arbitrag.Execution.OrderManager.Hedge.{
  Closed, closed, close_failed, level_close, retry_sell,
}
use spot_spot_relay_arbitrag.Execution.OrderManager.Entry.{
  EntryContext, EntryState, Step, go_on, return_with, base_position, entry_result,
}

module _ {ℓ} {F : Type ℓ} ⦃d : Double F⦄ where
  -- The coins of an exit split: all if they are worth less than 50 USD.
  unfoldable pub exit_coin_amount : F → F → F
  exit_coin_amount amount foreign_ask =
      if d.lt (d.mul amount foreign_ask) (d.dec 50 0)
      then amount
      else min_f (d.div order_size_usd foreign_ask) amount

  -- What is held once `covered` coins are closed: the costs shrink in proportion.
  unfoldable pub reduce : Holding F → F → F → F → Holding F
  reduce h covered ratio split_pnl =
      let kept = d.sub (d.dec 1 0) ratio in
      record {
        amount = d.sub h.amount covered;
        korean_cost = d.mul h.korean_cost kept;
        foreign_value = d.mul h.foreign_value kept;
        realized_pnl_krw = d.add h.realized_pnl_krw split_pnl;
      }

  -- `held_amount > 0 ? actual_covered / held_amount : 1.0`.
  abbrev pub exit_ratio : Holding F → F → F
  exit_ratio h covered = if d.lt zero_f h.amount then d.div covered h.amount else d.dec 1 0

  -- The profit of closing `korean_qty` and `foreign_qty` coins.
  unfoldable pub split_pnl_krw : F → F → F → F → F → F → F → F
  split_pnl_krw avg_korean avg_foreign sell_price cover_price korean_qty foreign_qty usdt_rate =
      d.add (d.mul (d.sub sell_price avg_korean) korean_qty)
        (d.mul (d.mul (d.sub avg_foreign cover_price) foreign_qty) usdt_rate)

  -- The state after the last coin is sold: the cycle starts again.
  abbrev pub next_cycle : Holding F → ℕ → EntryState F → EntryState F
  next_cycle h system_now s = record s {
    entry_time = system_now;
    entry_premium = zero_f;
    holding = record {
      amount = h.amount;
      korean_cost = zero_f;
      foreign_value = zero_f;
      realized_pnl_krw = zero_f;
    };
  }

  -- What the trade callback is given.
  unfoldable pub completed_position : EntryContext F → EntryState F → ℕ → F → F → Position F
  completed_position c s system_now exit_premium realized = record (base_position c s) {
    exit_time = system_now;
    exit_premium = exit_premium;
    realized_pnl_krw = realized;
    is_active = false;
  }

  abbrev pub complete_trade : Position F → F → F → Manager F → Manager F
  complete_trade pos realized usdt_rate m = record m {
    completed_trades =
        if m.has_trade_callback
        then (pos, realized, usdt_rate) ∷ m.completed_trades
        else m.completed_trades;
  }

  abbrev pub close_on_engine : EntryContext F → Engine F → Engine F
  close_on_engine c e = record e { tracker = (close_position c.legs.symbol e.tracker).0 }

  -- The split is closed: the position file is told, and after the last coin the cycle ends.
  unfoldable pub after_close :
      EntryContext F
      → EntryState F
      → Market F
      → Round F
      → Holding F
      → Action F (Step (EntryState F) (ExecutionResult F))
  after_close c s k r h =
      let snap =
        hedged (base_position c s) h (effective_entry_premium c.signal.premium h k.usdt_rate) in
      let trade = completed_position c s r.system_now (round_exit_premium k) h.realized_pnl_krw in
      do
        modify (notify (if d.lt zero_f h.amount then some snap else none))
        if d.le h.amount zero_f
            then modify (on_engine (close_on_engine c))
              >> modify (complete_trade trade h.realized_pnl_krw k.usdt_rate)
              >> pure (go_on (next_cycle h r.next_now s))
            else pure (go_on (record s { holding = h }))

  unfoldable pub after_level :
      EntryContext F
      → EntryState F
      → Market F
      → Round F
      → Closed F
      → Action F (Step (EntryState F) (ExecutionResult F))
  after_level c s k r (closed foreign_qty korean_qty split_pnl) =
      let covered = min_f foreign_qty korean_qty in
      after_close c s k r (reduce s.holding covered (exit_ratio s.holding covered) split_pnl)
  after_level c s k r (close_failed reason mismatch) = do
    result ← trigger_critical_stop (stopped exit reason) mismatch (entry_result c s)
    pure (return_with result)

module _ {ℓ} {F : Type ℓ} ⦃d : Double F⦄ ⦃v : Venues F⦄ where
  -- What is held after a retried sale.
  abbrev pub after_retry : Holding F → Market F → F → F → Bool × Order F → Holding F
  after_retry h k covered cover_price (false, order) = h
  after_retry h k covered cover_price (true, order) =
      let sell_price = price_or order.average_price k.korean_bid in
      let pnl =
        split_pnl_krw (average h.korean_cost h.amount) (average h.foreign_value h.amount) sell_price
          cover_price covered covered k.usdt_rate in
      reduce h covered (exit_ratio h covered) pnl

  -- The sale failed after the cover.
  unfoldable pub sell_again :
      EntryContext F
      → EntryState F
      → Market F
      → Order F
      → Order F
      → Action F (Step (EntryState F) (ExecutionResult F))
  sell_again c s k foreign_order korean_order =
      let covered = resolved_fill_quantity foreign_order in
      let cover_price = resolved_fill_price foreign_order k.foreign_ask in
      do
        retried ← retry_sell 5 c.legs covered korean_order
        let h = after_retry s.holding k covered cover_price retried
        if is_filled retried.1.status then pure (go_on (record s { holding = h })) else (do
          result ←
              trigger_critical_stop (stopped exit sell_failed)
                (unsold (base_position c s) h covered) (entry_result c s)
          pure (return_with result))

  unfoldable pub close_legs :
      EntryContext F
      → EntryState F
      → Market F
      → Round F
      → Order F
      → Action F (Step (EntryState F) (ExecutionResult F))
  close_legs c s k r cover_order = do
    foreign_order ← query_foreign_fill c.legs.foreign_exchange cover_order
    sold ← execute_korean_sell c.legs.korean_exchange c.legs.symbol cover_order.quantity
    korean_order ← query_korean_fill c.legs.korean_exchange c.legs.symbol sold
    let avg_korean = average s.holding.korean_cost s.holding.amount
    let avg_foreign = average s.holding.foreign_value s.holding.amount
    let foreign_qty = resolved_fill_quantity foreign_order
    let korean_qty = resolved_fill_quantity korean_order
    let pnl =
        split_pnl_krw avg_korean avg_foreign (resolved_fill_price korean_order k.korean_bid)
          (resolved_fill_price foreign_order k.foreign_ask) korean_qty foreign_qty k.usdt_rate
    if is_filled korean_order.status
        then (do
          outcome ←
              level_close c.legs (base_position c s) s.holding k foreign_qty korean_qty avg_korean
                avg_foreign pnl
          after_level c s k r outcome)
        else sell_again c s k foreign_order korean_order

  -- The cover comes first; if it is not filled, nothing has changed.
  unfoldable pub exit_split :
      EntryContext F
      → EntryState F
      → Market F
      → Round F
      → Action F (Step (EntryState F) (ExecutionResult F))
  exit_split c s k r = do
    cover_order ←
        execute_foreign_cover c.legs.foreign_exchange c.legs.foreign_symbol
          (exit_coin_amount s.holding.amount k.foreign_ask)
    if is_filled cover_order.status then close_legs c s k r cover_order else pure (go_on s)
