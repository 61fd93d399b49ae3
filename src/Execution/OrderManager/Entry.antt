-- ===== src/Execution/OrderManager/Entry.antt =====
-- kimp_arb_cpp/src/execution/order_manager.cpp: `execute_spot_relay_entry`. The loop runs over a list of rounds, one for
-- each pass of the `while`; it gives no result if the list ends before the loop does.
pub mod Split
pub mod Loop
pub mod OrderSize
use spot_spot_relay_arbitrag.Prelude.{ℕ, Bool, true, false, ◌&&◌, if◌then◌else◌, Option, none, some}
use spot_spot_relay_arbitrag.Double.{Double, zero_f, min_f, max_f}
use spot_spot_relay_arbitrag.Types.TradingConfig.{
  order_size_usd, min_net_edge_pct, min_entry_net_profit_krw, bithumb_fee_rate, bybit_fee_rate,
}
use spot_spot_relay_arbitrag.Types.Trade.{Position, no_position}
use spot_spot_relay_arbitrag.Strategy.Premium.{RelayMetrics, calculate_relay_metrics}
use spot_spot_relay_arbitrag.Strategy.Engine.{ArbitrageSignal}
use spot_spot_relay_arbitrag.Execution.OrderManager.{Manager, Venues}
use spot_spot_relay_arbitrag.Execution.OrderManager.Action.{Action, pure, modify, ◌>>=◌, ◌>>◌}
use spot_spot_relay_arbitrag.Execution.OrderManager.Snapshot.{
  ExecutionResult, Holding, Message, no_result, entry, stopped, hedged, persist_snapshot,
  trigger_critical_stop,
}
use spot_spot_relay_arbitrag.Execution.OrderManager.Market.{
  Market, Legs, effective_entry_premium, min_executable_usd,
}
use spot_spot_relay_arbitrag.Execution.OrderManager.Hedge.{
  Opened, unopened, opened, open_failed, open_legs,
}

-- What stays the same in the loop.
pub record EntryContext {ℓ} (F : Type ℓ) : Type ℓ where
  pub signal : ArbitrageSignal F
  pub legs : Legs
  pub position_size_usd : F

-- The variables of the loop; the first four are fields of `result`.
pub record EntryState {ℓ} (F : Type ℓ) : Type ℓ where
  pub entry_time : ℕ
  pub entry_premium : F
  pub korean_filled_amount : F
  pub foreign_filled_amount : F
  pub holding : Holding F
  pub last_usdt_rate : F

-- A round goes on to the next one, or returns.
pub data Step {ℓ κ} (S : Type ℓ) (R : Type κ) : Type (ℓ ⊔ κ) where
  go_on : S → Step S R
  return_with : R → Step S R

-- What follows a round: the rest of the loop, unless the round has returned.
abbrev pub after_round {ℓ κ μ} :
    {F : Type ℓ} {S : Type κ} {R : Type μ}
    → (S → Action F (Option R))
    → Step S R × Manager F
    → Option R × Manager F
after_round rest (go_on s, m) = rest s m
after_round rest (return_with result, m) = (some result, m)

-- A call that is refused returns its error and does nothing.
abbrev pub refuse_or {ℓ} :
    {F : Type ℓ}
    → Option Message
    → ExecutionResult F
    → Action F (Option (ExecutionResult F))
    → Action F (Option (ExecutionResult F))
refuse_or (some message) result run m = (some (record result { error_message = message }), m)
refuse_or none result run m = run m

module _ {ℓ} {F : Type ℓ} ⦃d : Double F⦄ where
  -- `result.position`.
  unfoldable pub base_position : EntryContext F → EntryState F → Position F
  base_position c s = record no_position {
    symbol = c.legs.symbol;
    korean_exchange = c.legs.korean_exchange;
    foreign_exchange = c.legs.foreign_exchange;
    entry_time = s.entry_time;
    entry_premium = s.entry_premium;
    position_size_usd = c.position_size_usd;
  }

  unfoldable pub entry_result : EntryContext F → EntryState F → ExecutionResult F
  entry_result c s = record no_result {
    position = base_position c s;
    korean_filled_amount = s.korean_filled_amount;
    foreign_filled_amount = s.foreign_filled_amount;
  }

  unfoldable pub next_order_usd : EntryContext F → Holding F → F
  next_order_usd c h =
      min_f order_size_usd (max_f zero_f (d.sub c.position_size_usd h.foreign_value))

  unfoldable pub next_order_coin_amount : EntryContext F → Holding F → Market F → F
  next_order_coin_amount c h k =
      if d.lt zero_f k.foreign_bid then d.div (next_order_usd c h) k.foreign_bid else zero_f

  -- `calculate_relay_metrics` with the default fees.
  abbrev pub round_metrics : Market F → RelayMetrics F
  round_metrics k = calculate_relay_metrics (record {
    korean_ask = k.korean_ask;
    korean_ask_qty = k.korean_ask_qty;
    foreign_bid = k.foreign_bid;
    foreign_bid_qty = k.foreign_bid_qty;
    usdt_krw_rate = k.usdt_rate;
    korean_fee_rate = bithumb_fee_rate;
    foreign_fee_rate = bybit_fee_rate;
    withdraw_fee_coins = zero_f;
  })

  -- The condition of the entry.
  unfoldable pub may_enter : EntryContext F → Holding F → Market F → Bool
  may_enter c h k =
      let metrics = round_metrics k in
      let order_usd = next_order_usd c h in
      let korean_top_usdt =
        if d.lt zero_f k.usdt_rate
        then d.div (d.mul k.korean_ask k.korean_ask_qty) k.usdt_rate
        else zero_f in
      let foreign_top_usdt = d.mul k.foreign_bid k.foreign_bid_qty in
      d.lt min_net_edge_pct metrics.net_edge_pct
      && (d.le min_entry_net_profit_krw metrics.net_profit_krw
          && ((d.lt zero_f order_usd && d.le order_usd korean_top_usdt)
              && ((d.lt zero_f order_usd && d.le order_usd foreign_top_usdt)
                  && d.le (min_executable_usd k.foreign_bid k.korean_ask) order_usd)))

  -- What is held after both legs have opened.
  unfoldable pub extend : Holding F → F → F → F → F → Holding F
  extend h filled buy_price short_price adjustment = record {
    amount = d.add h.amount filled;
    korean_cost = d.add h.korean_cost (d.mul filled buy_price);
    foreign_value = d.add h.foreign_value (d.mul filled short_price);
    realized_pnl_krw = d.add h.realized_pnl_krw adjustment;
  }

module _ {ℓ} {F : Type ℓ} ⦃d : Double F⦄ ⦃v : Venues F⦄ where
  -- What follows the attempt to open both legs.
  unfoldable pub after_open :
      EntryContext F
      → EntryState F
      → Market F
      → Opened F
      → Action F (Step (EntryState F) (ExecutionResult F))
  after_open c s k unopened = pure (go_on s)
  after_open c s k (opened foreign_qty korean_qty buy_price short_price adjustment) =
      let filled = min_f foreign_qty korean_qty in
      let h = extend s.holding filled buy_price short_price adjustment in
      let snap =
        hedged (base_position c s) h (effective_entry_premium c.signal.premium h k.usdt_rate) in
      modify (persist_snapshot snap)
      >> pure (
          go_on (record s {
            korean_filled_amount = filled;
            foreign_filled_amount = filled;
            holding = h;
          }))
  after_open c s k (open_failed reason mismatch) = do
    result ← trigger_critical_stop (stopped entry reason) mismatch (entry_result c s)
    pure (return_with result)

  unfoldable pub entry_split :
      EntryContext F → EntryState F → Market F → Action F (Step (EntryState F) (ExecutionResult F))
  entry_split c s k = do
    outcome ←
        open_legs c.legs (base_position c s) s.holding k (next_order_coin_amount c s.holding k)
    after_open c s k outcome
