-- ===== src/Execution/OrderManager/Exit.antt =====
-- kimp_arb_cpp/src/execution/order_manager.cpp: `execute_spot_relay_exit`. As in the entry, the loop runs over a list of
-- rounds, and gives no result if the list ends first.
pub mod Split
pub mod Loop
use spot_spot_relay_arbitrag.Prelude.{
  ℕ, Bool, true, false, not, ◌&&◌, List, [], ◌∷◌, Option, none, some, if◌then◌else◌,
}
use spot_spot_relay_arbitrag.Double.{Double, zero_f, min_f}
use spot_spot_relay_arbitrag.Types.TradingConfig.{order_size_usd, entry_premium_threshold}
use spot_spot_relay_arbitrag.Types.Trade.{Position, Order, is_filled}
use spot_spot_relay_arbitrag.Strategy.Engine.{ExitSignal, foreign_of}
use spot_spot_relay_arbitrag.Execution.OrderManager.{
  Manager, Venues, has_korean_exchange, has_foreign_exchange,
}
use spot_spot_relay_arbitrag.Execution.OrderManager.Action.{Action, pure, modify, ◌>>=◌, ◌>>◌}
use spot_spot_relay_arbitrag.Execution.OrderManager.Fill.{
  resolved_fill_quantity, resolved_fill_price, price_or, quantities_match,
}
use spot_spot_relay_arbitrag.Execution.OrderManager.Orders.{
  execute_korean_sell, execute_foreign_cover, query_foreign_fill, query_korean_fill,
}
use spot_spot_relay_arbitrag.Execution.OrderManager.Snapshot.{
  ExecutionResult, Holding, Message, exit, reentry, sell_failed, stopped, unsold, notify, no_result,
  exchange_not_available, position_mismatched, trigger_critical_stop,
}
use spot_spot_relay_arbitrag.Execution.OrderManager.Market.{
  Market, Legs, Round, begin_round, exit_market, effective_entry_premium, round_exit_premium,
  round_entry_premium, dynamic_exit_threshold,
}
use spot_spot_relay_arbitrag.Execution.OrderManager.Hedge.{
  Opened, unopened, opened, open_failed, open_legs, retry_sell,
}
use spot_spot_relay_arbitrag.Execution.OrderManager.Entry.{
  Step, go_on, return_with, after_round, refuse_or, extend,
}
use spot_spot_relay_arbitrag.Execution.OrderManager.Entry.Split.{
  exit_coin_amount, reduce, split_pnl_krw,
}

pub record ExitContext {ℓ} (F : Type ℓ) : Type ℓ where
  pub signal : ExitSignal F
  pub position : Position F
  pub legs : Legs

-- The variables of the loop; `holding.amount` is `remaining_amount`.
pub record ExitState {ℓ} (F : Type ℓ) : Type ℓ where
  pub holding : Holding F
  pub total_korean_proceeds : F
  pub total_foreign_cost : F
  pub total_exited_amount : F
  pub last_usdt_rate : F

module _ {ℓ} {F : Type ℓ} ⦃d : Double F⦄ where
  -- `Position mismatch = position`, with the entry premium of what is held.
  unfoldable pub exit_base : ExitContext F → Holding F → F → Position F
  exit_base c h usdt_rate = record c.position {
    entry_premium = effective_entry_premium c.position.entry_premium h usdt_rate;
  }

  -- `Position snap = position`, with what is held now.
  unfoldable pub exit_snapshot : ExitContext F → Holding F → F → Position F
  exit_snapshot c h usdt_rate = record c.position {
    korean_amount = h.amount;
    foreign_amount = h.amount;
    korean_entry_price = d.div h.korean_cost h.amount;
    foreign_entry_price = d.div h.foreign_value h.amount;
    entry_premium = effective_entry_premium c.position.entry_premium h usdt_rate;
    realized_pnl_krw = h.realized_pnl_krw;
  }

  -- The sums after `covered` coins are closed at these prices.
  unfoldable pub exited : ExitState F → F → F → F → F → ExitState F
  exited s covered sell_price cover_price usdt_rate =
      let h = s.holding in
      let pnl =
        split_pnl_krw (d.div h.korean_cost h.amount) (d.div h.foreign_value h.amount) sell_price
          cover_price covered covered usdt_rate in
      record s {
        holding = reduce h covered (d.div covered h.amount) pnl;
        total_korean_proceeds = d.add s.total_korean_proceeds (d.mul covered sell_price);
        total_foreign_cost = d.add s.total_foreign_cost (d.mul covered cover_price);
        total_exited_amount = d.add s.total_exited_amount covered;
      }

  -- The result of a critical stop is written over this one.
  abbrev pub exit_result : ExitContext F → ExecutionResult F
  exit_result c = record no_result { position = c.position }
