-- ===== src/Strategy/Engine/ReportTests.antt =====
-- The premium of a small engine, and its report of all premiums.
use spot_spot_relay_arbitrag.Prelude.{
  ℕ, ◌≡◌, ◌≢◌, refl, ap, true, false, List, [], ◌∷◌, map, some, arith,
}
use spot_spot_relay_arbitrag.Prelude.Map.{lookup, insert}
use spot_spot_relay_arbitrag.Double.{zero_f}
use spot_spot_relay_arbitrag.Double.Fixed.{Fixed, of_decimal, fixed_double, Fixed-IsIeee}
use spot_spot_relay_arbitrag.Types.{bithumb, bybit}
use spot_spot_relay_arbitrag.Types.Symbol.{
  SymbolId, symbol_id, fill_chars, hash, load, get_base, text,
}
use spot_spot_relay_arbitrag.Types.TradingConfig.{get_korean_fee_rate, get_foreign_fee_rate}
use spot_spot_relay_arbitrag.Strategy.Quote.{
  quote_pair_is_usable, quote_is_fresh_with_limit, spread_pct,
}
use spot_spot_relay_arbitrag.Strategy.Premium.{
  calculate_entry_premium, premium_of, calculate_relay_metrics, relay_metrics_of,
}
use spot_spot_relay_arbitrag.Strategy.PriceCache.{
  Prices, no_prices, update, get_price, shard_index, update_usdt_krw, get_usdt_krw,
}
use spot_spot_relay_arbitrag.Strategy.PriceCache.Routes.{Transfers, make_fee_key}
use spot_spot_relay_arbitrag.Strategy.PriceCache.Routes.Finalize.{
  is_transfer_route_available, get_withdraw_fee,
}
use spot_spot_relay_arbitrag.Strategy.Engine.{Engine, new_engine}
use spot_spot_relay_arbitrag.Strategy.Engine.Exit.{foreign_symbol_for}
use spot_spot_relay_arbitrag.Strategy.Engine.Report.{
  consider_bid, find_best_bid, requested_premium, calculate_premium,
}
use spot_spot_relay_arbitrag.Strategy.SimdPremium.{avx2, scalar}
use spot_spot_relay_arbitrag.Strategy.Engine.Premiums.{
  Collected, consider_quotes, best_quotes, collect_quotes, get_all_premiums,
}
use spot_spot_relay_arbitrag.Strategy.Engine.Premiums.Rows.{reports, get_all_premiums_lem}
use spot_spot_relay_arbitrag.Strategy.Engine.ReportRule.{IsReport, calculate_premium-IsReport}

abbrev won : ℕ → Fixed
won n = of_decimal n 0

abbrev btc : List ℕ
btc = b'B' ∷ b'T' ∷ b'C' ∷ []

abbrev btc_krw : SymbolId
btc_krw = symbol_id btc (b'K' ∷ b'R' ∷ b'W' ∷ [])

abbrev btc_usdt : SymbolId
btc_usdt = symbol_id btc (b'U' ∷ b'S' ∷ b'D' ∷ b'T' ∷ [])

-- 1501 KRW in Korea against 1 USDT abroad, at 1400 KRW for a USDT.
abbrev prices : Prices Fixed
prices = update_usdt_krw bithumb (won 1400) (
    update 0 bybit btc_usdt (won 1) (won 1) (won 1) 45 (won 2) (won 2)
      (update 0 bithumb btc_krw (won 1500) (won 1501) (won 1500) 45 (won 2) (won 2) no_prices))

abbrev transfers : Transfers Fixed
transfers = record {
  withdraw_network_fees = [];
  foreign_deposit_nets = [];
  korean_withdraw_enabled = [];
  transfer_snapshot = record {
    fees = [];
    routes =
        (
          make_fee_key bithumb bybit btc,
          record {
            available = true;
            withdraw_open = true;
            deposit_open = true;
            fee_coins = won 0;
            network = btc;
            refreshed_at_ms = 7;
          },
        )
        ∷ [];
    refreshed_at_ms = 7;
  };
}

abbrev priced : Engine Fixed
priced = record new_engine {
  prices = prices;
  transfers = transfers;
  exchange_pairs = record { korean = bithumb; foreign = bybit; entry_enabled = true } ∷ [];
}

abbrev reported : Fixed
reported = calculate_premium (λ place. 70) 70 btc_krw bithumb bybit priced

reported_le : fixed_double.le reported zero_f ≡ false
unfolding calculate_premium find_best_bid consider_bid requested_premium get_price update
    get_usdt_krw update_usdt_krw no_prices shard_index hash load symbol_id fill_chars lookup insert
    quote_pair_is_usable quote_is_fresh_with_limit spread_pct is_transfer_route_available
    get_withdraw_fee calculate_relay_metrics relay_metrics_of calculate_entry_premium premium_of
    new_engine get_base text get_korean_fee_rate get_foreign_fee_rate
reported_le = refl

reported-nonzero : reported ≢ zero_f
reported-nonzero z = ground (arith, reported_le, ap (λ x. fixed_double.le x zero_f) z)

calculate_premium-IsReport_example :
    IsReport btc_krw
      (foreign_symbol_for btc_krw priced)
      bithumb
      bybit
      (λ place. 70)
      70
      priced
      reported
calculate_premium-IsReport_example =
    calculate_premium-IsReport Fixed-IsIeee (λ place. 70) 70 btc_krw bithumb bybit priced
      reported-nonzero

abbrev watched : Engine Fixed
watched = record priced { monitored_symbols = btc_krw ∷ []; foreign_symbols = btc_usdt ∷ [] }

abbrev collected : List (Collected Fixed)
collected = collect_quotes watched watched.monitored_symbols watched.foreign_symbols

abbrev fused : Fixed → Fixed → Fixed → Fixed
fused a b c = fixed_double.add (fixed_double.mul a b) c

-- The Korean ask of every report.
abbrev asks : List (Collected Fixed) → List Fixed
asks cs = map (λ c. c.quotes.best_kr.ask) cs

watched_asks : asks collected ≡ won 1501 ∷ []
unfolding collect_quotes best_quotes consider_quotes get_price update get_usdt_krw update_usdt_krw
    no_prices shard_index hash load symbol_id fill_chars lookup insert is_transfer_route_available
    get_withdraw_fee calculate_relay_metrics relay_metrics_of new_engine get_base text
    get_korean_fee_rate get_foreign_fee_rate
watched_asks = refl

get_all_premiums_lem_example :
    (get_all_premiums avx2 fused (λ place. 70) 70 watched
      ≡ some (reports fused (λ place. 70) 70 watched 0 collected))
    × (get_all_premiums scalar fused (λ place. 70) 70 watched
        ≡ some (reports fused (λ place. 70) 70 watched 0 collected))
get_all_premiums_lem_example = get_all_premiums_lem fused (λ place. 70) 70 watched
