-- ===== src/Strategy/Premium/Tests.antt =====
-- The metrics of a concrete market, and the gate's theorems there.
use spot_spot_relay_arbitrag.Prelude.{◌≡◌, refl, true, false}
use spot_spot_relay_arbitrag.Double.Laws.{◌≼◌, ◌≺◌}
use spot_spot_relay_arbitrag.Double.Fixed.{Fixed, nan, of_decimal, fixed_double, Fixed-IsIeee}
use spot_spot_relay_arbitrag.Types.TradingConfig.{
  min_entry_net_profit_krw, entry_gate_passes, bithumb_fee_rate, bybit_fee_rate,
}
use spot_spot_relay_arbitrag.Strategy.Premium.{
  RelayInput, calculate_relay_metrics, relay_metrics_of, calculate_entry_premium,
}
use spot_spot_relay_arbitrag.Strategy.Premium.Gate.{qualifies, gate_passes-profitable}

-- 100 coins at 1000 KRW against 100 coins at 1 USDT, at 1400 KRW for a USDT.
abbrev market : RelayInput Fixed
market = record {
  korean_ask = of_decimal 1000 0;
  korean_ask_qty = of_decimal 100 0;
  foreign_bid = of_decimal 1 0;
  foreign_bid_qty = of_decimal 100 0;
  usdt_krw_rate = of_decimal 1400 0;
  korean_fee_rate = bithumb_fee_rate;
  foreign_fee_rate = bybit_fee_rate;
  withdraw_fee_coins = of_decimal 5 1;
}

market-qualifies : qualifies (calculate_relay_metrics market) ≡ true
unfolding calculate_relay_metrics relay_metrics_of entry_gate_passes
market-qualifies = refl

nan_does_not : qualifies (calculate_relay_metrics (record market { foreign_bid = nan })) ≡ false
unfolding calculate_relay_metrics relay_metrics_of entry_gate_passes
nan_does_not = refl

-- (1000 - 1400) / 1400 in percent.
market_premium :
    calculate_entry_premium (of_decimal 1000 0) (of_decimal 1 0) (of_decimal 1400 0)
    ≡ fixed_double.neg (of_decimal 28_571_428_500 9)
unfolding calculate_entry_premium
market_premium = refl

gate_passes-profitable_example :
    let m = calculate_relay_metrics market in
    (m.match_buy_krw ≺ m.match_sell_krw)
    × (min_entry_net_profit_krw ≼ fixed_double.sub m.match_sell_krw m.match_buy_krw)
    × (m.net_profit_krw ≼ fixed_double.sub m.match_sell_krw m.match_buy_krw)
gate_passes-profitable_example =
    gate_passes-profitable Fixed-IsIeee market refl refl refl market-qualifies
