-- ===== src/Strategy/Premium.antt =====
-- `PremiumCalculator` of kimp_arb_cpp/include/kimp/strategy/arbitrage_engine.hpp. The event counts that the
-- source multiplies by are the doubles that the integers 1 and 3 convert to.
pub mod Gate
mod Tests
use spot_spot_relay_arbitrag.Prelude.{Bool, false, ◌&&◌, ◌||◌, if◌then◌else◌}
use spot_spot_relay_arbitrag.Double.{Double, zero_f, min_f}
use spot_spot_relay_arbitrag.Types.TradingConfig.{
  target_entry_usdt, korean_fee_events, foreign_fee_events, entry_premium_threshold,
  exit_premium_threshold,
}

pub record RelayMetrics {ℓ} (F : Type ℓ) : Type ℓ where
  pub match_qty : F
  pub bithumb_top_krw : F
  pub bithumb_top_usdt : F
  pub bybit_top_usdt : F
  pub bybit_top_krw : F
  pub match_buy_krw : F
  pub match_sell_usdt : F
  pub match_sell_krw : F
  pub max_tradable_usdt_at_best : F
  pub target_coin_qty : F
  pub bithumb_can_fill_target : Bool
  pub bybit_can_fill_target : Bool
  pub both_can_fill_target : Bool
  pub bithumb_total_fee_krw : F
  pub bybit_total_fee_usdt : F
  pub bybit_total_fee_krw : F
  pub withdraw_fee_coins : F
  pub withdraw_fee_krw : F
  pub total_fee_krw : F
  pub gross_spread_krw : F
  pub gross_edge_pct : F
  pub net_profit_krw : F
  pub net_basis_krw : F
  pub net_edge_pct : F

-- The arguments of `calculate_relay_metrics`.
pub record RelayInput {ℓ} (F : Type ℓ) : Type ℓ where
  pub korean_ask : F
  pub korean_ask_qty : F
  pub foreign_bid : F
  pub foreign_bid_qty : F
  pub usdt_krw_rate : F
  pub korean_fee_rate : F
  pub foreign_fee_rate : F
  pub withdraw_fee_coins : F

module _ {ℓ} {F : Type ℓ} ⦃d : Double F⦄ where
  -- Both formulas of the source: the ask and the bid of an entry, the bid and the ask of an exit.
  unfoldable pub premium_of : F → F → F → F
  premium_of korean_price foreign_price usdt_krw_rate =
      let foreign_krw = d.mul foreign_price usdt_krw_rate in
      if d.le foreign_price zero_f || d.le usdt_krw_rate zero_f
      then zero_f
      else d.mul (d.div (d.sub korean_price foreign_krw) foreign_krw) (d.dec 100 0)

  unfoldable pub calculate_entry_premium : F → F → F → F
  unfolding premium_of
  calculate_entry_premium korean_ask foreign_bid usdt_krw_rate =
      premium_of korean_ask foreign_bid usdt_krw_rate

  unfoldable pub calculate_exit_premium : F → F → F → F
  unfolding premium_of
  calculate_exit_premium korean_bid foreign_ask usdt_krw_rate =
      premium_of korean_bid foreign_ask usdt_krw_rate

  unfoldable pub should_enter : F → Bool
  should_enter premium = d.le premium entry_premium_threshold

  unfoldable pub should_exit : F → Bool
  should_exit premium = d.le exit_premium_threshold premium

  -- `RelayMetrics{}`.
  abbrev pub no_metrics : RelayMetrics F
  no_metrics = record {
    match_qty = zero_f;
    bithumb_top_krw = zero_f;
    bithumb_top_usdt = zero_f;
    bybit_top_usdt = zero_f;
    bybit_top_krw = zero_f;
    match_buy_krw = zero_f;
    match_sell_usdt = zero_f;
    match_sell_krw = zero_f;
    max_tradable_usdt_at_best = zero_f;
    target_coin_qty = zero_f;
    bithumb_can_fill_target = false;
    bybit_can_fill_target = false;
    both_can_fill_target = false;
    bithumb_total_fee_krw = zero_f;
    bybit_total_fee_usdt = zero_f;
    bybit_total_fee_krw = zero_f;
    withdraw_fee_coins = zero_f;
    withdraw_fee_krw = zero_f;
    total_fee_krw = zero_f;
    gross_spread_krw = zero_f;
    gross_edge_pct = zero_f;
    net_profit_krw = zero_f;
    net_basis_krw = zero_f;
    net_edge_pct = zero_f;
  }

  -- What is computed once the guard has passed.
  unfoldable pub relay_metrics_of : RelayInput F → RelayMetrics F
  relay_metrics_of i =
      let match_qty = min_f i.korean_ask_qty i.foreign_bid_qty in
      let bithumb_top_krw = d.mul i.korean_ask i.korean_ask_qty in
      let bithumb_top_usdt = d.div bithumb_top_krw i.usdt_krw_rate in
      let bybit_top_usdt = d.mul i.foreign_bid i.foreign_bid_qty in
      let target_coin_qty = d.div target_entry_usdt i.foreign_bid in
      let bithumb_can_fill = d.le target_entry_usdt bithumb_top_usdt in
      let bybit_can_fill = d.le target_entry_usdt bybit_top_usdt in
      let effective_entry_qty = min_f match_qty target_coin_qty in
      let match_buy_krw = d.mul i.korean_ask effective_entry_qty in
      let match_sell_usdt = d.mul i.foreign_bid effective_entry_qty in
      let match_sell_krw = d.mul match_sell_usdt i.usdt_krw_rate in
      let korean_fee_per_trade_krw = d.mul match_buy_krw i.korean_fee_rate in
      let foreign_fee_per_trade_usdt = d.mul match_sell_usdt i.foreign_fee_rate in
      let foreign_fee_per_trade_krw = d.mul match_sell_krw i.foreign_fee_rate in
      let bithumb_total_fee_krw = d.mul korean_fee_per_trade_krw korean_fee_events in
      let bybit_total_fee_krw = d.mul foreign_fee_per_trade_krw foreign_fee_events in
      let withdraw_fee_krw = d.mul i.withdraw_fee_coins i.korean_ask in
      let total_fee_krw =
        d.add (d.add bithumb_total_fee_krw bybit_total_fee_krw) withdraw_fee_krw in
      let gross_spread_krw = d.sub match_sell_krw match_buy_krw in
      let net_profit_krw = d.sub gross_spread_krw total_fee_krw in
      let net_basis_krw = d.add match_buy_krw total_fee_krw in
      record {
        match_qty = match_qty;
        bithumb_top_krw = bithumb_top_krw;
        bithumb_top_usdt = bithumb_top_usdt;
        bybit_top_usdt = bybit_top_usdt;
        bybit_top_krw = d.mul bybit_top_usdt i.usdt_krw_rate;
        match_buy_krw = match_buy_krw;
        match_sell_usdt = match_sell_usdt;
        match_sell_krw = match_sell_krw;
        max_tradable_usdt_at_best = min_f bithumb_top_usdt bybit_top_usdt;
        target_coin_qty = target_coin_qty;
        bithumb_can_fill_target = bithumb_can_fill;
        bybit_can_fill_target = bybit_can_fill;
        both_can_fill_target = bithumb_can_fill && bybit_can_fill;
        bithumb_total_fee_krw = bithumb_total_fee_krw;
        bybit_total_fee_usdt = d.mul foreign_fee_per_trade_usdt foreign_fee_events;
        bybit_total_fee_krw = bybit_total_fee_krw;
        withdraw_fee_coins = i.withdraw_fee_coins;
        withdraw_fee_krw = withdraw_fee_krw;
        total_fee_krw = total_fee_krw;
        gross_spread_krw = gross_spread_krw;
        gross_edge_pct =
            if d.lt zero_f match_buy_krw
            then d.mul (d.div gross_spread_krw match_buy_krw) (d.dec 100 0)
            else zero_f;
        net_profit_krw = net_profit_krw;
        net_basis_krw = net_basis_krw;
        net_edge_pct =
            if d.lt zero_f net_basis_krw
            then d.mul (d.div net_profit_krw net_basis_krw) (d.dec 100 0)
            else zero_f;
      }

  unfoldable pub calculate_relay_metrics : RelayInput F → RelayMetrics F
  calculate_relay_metrics i =
      if d.le i.korean_ask zero_f
        || d.le i.korean_ask_qty zero_f
        || d.le i.foreign_bid zero_f
        || d.le i.foreign_bid_qty zero_f
        || d.le i.usdt_krw_rate zero_f
      then no_metrics
      else relay_metrics_of i
