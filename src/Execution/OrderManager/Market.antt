-- ===== src/Execution/OrderManager/Market.antt =====
-- kimp_arb_cpp/src/execution/order_manager.cpp: what a round of the entry loop and of the exit loop reads, and the
-- premiums and thresholds that it computes from that. `Round` is what the other threads do before a round: their
-- changes of the engine, a request to shut down, and the clocks.
use spot_spot_relay_arbitrag.Prelude.{
  ℕ, Bool, true, false, not, ◌&&◌, ◌||◌, Option, none, some, if◌then◌else◌,
}
use spot_spot_relay_arbitrag.Double.{Double, zero_f, max_f}
use spot_spot_relay_arbitrag.Types.{Exchange, bithumb}
use spot_spot_relay_arbitrag.Types.Symbol.{SymbolId}
use spot_spot_relay_arbitrag.Types.TradingConfig.{
  dynamic_exit_spread, exit_premium_threshold, min_order_krw,
}
use spot_spot_relay_arbitrag.Strategy.Quote.{order_quote_pair_is_usable}
use spot_spot_relay_arbitrag.Strategy.PriceCache.{get_price, get_usdt_krw}
use spot_spot_relay_arbitrag.Strategy.Engine.{Engine, ArbitrageSignal, ExitSignal}
use spot_spot_relay_arbitrag.Execution.OrderManager.{Manager}
use spot_spot_relay_arbitrag.Execution.OrderManager.Snapshot.{Holding, on_engine}

pub record Round {ℓ} (F : Type ℓ) : Type ℓ where
  pub on_round : Engine F → Engine F
  pub shutdown : Bool
  pub now_ms : ℕ
  pub system_now : ℕ
  -- The second reading of a round that ends a trade.
  pub next_now : ℕ

-- The venues and symbols of the two legs.
pub record Legs : Type 0 where
  pub korean_exchange : Exchange
  pub foreign_exchange : Exchange
  pub symbol : SymbolId
  pub foreign_symbol : SymbolId

-- The variables `current_…`; the exit loop has no quantities.
pub record Market {ℓ} (F : Type ℓ) : Type ℓ where
  pub foreign_bid : F
  pub foreign_ask : F
  pub foreign_bid_qty : F
  pub korean_ask : F
  pub korean_bid : F
  pub korean_ask_qty : F
  pub usdt_rate : F
  pub quote_pair_ok : Bool

module _ {ℓ} {F : Type ℓ} where
  -- The manager as the round finds it.
  unfoldable pub begin_round : Round F → Manager F → Manager F
  begin_round r m = on_engine r.on_round (record m { running = m.running && not r.shutdown })

module _ {ℓ} {F : Type ℓ} ⦃d : Double F⦄ where
  abbrev pub rate_or : F → Engine F → F
  rate_or rate e =
      let bithumb_usdt = get_usdt_krw bithumb e.prices in
      if d.lt zero_f bithumb_usdt then bithumb_usdt else rate

  -- While coins are held any price serves; with none the quotes have to be usable.
  unfoldable pub entry_quotes : Legs → Market F → F → ℕ → Engine F → Market F
  entry_quotes legs start held_amount now_ms e =
      let foreign = get_price legs.foreign_exchange legs.foreign_symbol e.prices in
      let korean = get_price legs.korean_exchange legs.symbol e.prices in
      let has_prices = d.lt zero_f foreign.bid && d.lt zero_f korean.ask in
      let ok =
        if d.lt zero_f held_amount
        then has_prices
        else has_prices && order_quote_pair_is_usable now_ms korean foreign false in
      let rate = rate_or start.usdt_rate e in
      if ok
      then record {
        foreign_bid = foreign.bid;
        foreign_ask = foreign.ask;
        foreign_bid_qty = foreign.bid_qty;
        korean_ask = korean.ask;
        korean_bid = korean.bid;
        korean_ask_qty = korean.ask_qty;
        usdt_rate = rate;
        quote_pair_ok = true;
      }
      else record start { usdt_rate = rate; quote_pair_ok = false }

  -- The prices of the signal serve where there is no engine.
  unfoldable pub entry_market : ArbitrageSignal F → Legs → F → ℕ → Option (Engine F) → Market F
  entry_market signal legs held_amount now_ms engine =
      let start : Market F = record {
        foreign_bid = signal.foreign_bid;
        foreign_ask = zero_f;
        foreign_bid_qty = signal.foreign_bid_qty;
        korean_ask = signal.korean_ask;
        korean_bid = zero_f;
        korean_ask_qty = signal.korean_ask_qty;
        usdt_rate = signal.usdt_krw_rate;
        quote_pair_ok = true;
      } in
      elim engine [ none ↦ start | some e ↦ entry_quotes legs start held_amount now_ms e ]

  unfoldable pub exit_quotes : Legs → Market F → ℕ → Engine F → Market F
  exit_quotes legs start now_ms e =
      let foreign = get_price legs.foreign_exchange legs.foreign_symbol e.prices in
      let korean = get_price legs.korean_exchange legs.symbol e.prices in
      let rate = rate_or start.usdt_rate e in
      if order_quote_pair_is_usable now_ms korean foreign true
      then record {
        foreign_bid = foreign.bid;
        foreign_ask = foreign.ask;
        foreign_bid_qty = zero_f;
        korean_ask = korean.ask;
        korean_bid = korean.bid;
        korean_ask_qty = zero_f;
        usdt_rate = rate;
        quote_pair_ok = true;
      }
      else record start { usdt_rate = rate; quote_pair_ok = false }

  unfoldable pub exit_market : ExitSignal F → Legs → ℕ → Option (Engine F) → Market F
  exit_market signal legs now_ms engine =
      let start : Market F = record {
        foreign_bid = zero_f;
        foreign_ask = signal.foreign_ask;
        foreign_bid_qty = zero_f;
        korean_ask = zero_f;
        korean_bid = signal.korean_bid;
        korean_ask_qty = zero_f;
        usdt_rate = signal.usdt_krw_rate;
        quote_pair_ok = true;
      } in
      elim engine [ none ↦ start | some e ↦ exit_quotes legs start now_ms e ]

  -- `((korean - foreign_krw) / foreign_krw) * 100.0`.
  abbrev pub premium_over : F → F → F
  premium_over korean foreign_krw =
      d.mul (d.div (d.sub korean foreign_krw) foreign_krw) (d.dec 100 0)

  -- The exit premium: sell in Korea at the bid, cover abroad at the ask.
  unfoldable pub round_exit_premium : Market F → F
  round_exit_premium k =
      if d.lt zero_f k.foreign_ask && (d.lt zero_f k.usdt_rate && d.lt zero_f k.korean_bid)
      then premium_over k.korean_bid (d.mul k.foreign_ask k.usdt_rate)
      else zero_f

  -- The entry premium, as the exit loop computes it.
  unfoldable pub round_entry_premium : Market F → F
  round_entry_premium k =
      if d.lt zero_f k.foreign_bid && (d.lt zero_f k.usdt_rate && d.lt zero_f k.korean_ask)
      then premium_over k.korean_ask (d.mul k.foreign_bid k.usdt_rate)
      else zero_f

  -- `calculate_effective_entry_pm`; `fallback` is the premium of the signal or of the position.
  unfoldable pub effective_entry_premium : F → Holding F → F → F
  effective_entry_premium fallback h usdt_rate =
      let foreign_krw = d.mul (d.div h.foreign_value h.amount) usdt_rate in
      if d.le h.amount zero_f || (d.le h.foreign_value zero_f || d.le usdt_rate zero_f)
      then fallback
      else if d.le foreign_krw zero_f
      then fallback
      else premium_over (d.div h.korean_cost h.amount) foreign_krw

  unfoldable pub dynamic_exit_threshold : F → Holding F → F → F
  dynamic_exit_threshold fallback h usdt_rate =
      if d.lt zero_f h.amount && (d.lt zero_f h.foreign_value && d.lt zero_f usdt_rate)
      then max_f (d.add (effective_entry_premium fallback h usdt_rate) dynamic_exit_spread)
          exit_premium_threshold
      else exit_premium_threshold

  unfoldable pub min_executable_usd : F → F → F
  min_executable_usd foreign_bid korean_ask =
      let min_bybit_notional_usd = d.dec 1 0 in
      if d.le foreign_bid zero_f || d.le korean_ask zero_f
      then max_f (d.div min_order_krw (d.dec 1_500 0)) min_bybit_notional_usd
      else max_f (d.mul min_order_krw (d.div foreign_bid korean_ask)) min_bybit_notional_usd
