-- ===== src/Strategy/Engine/Report.antt =====
-- kimp_arb_cpp/src/strategy/arbitrage_engine.cpp: `calculate_premium`, the entry premium of a symbol on a Korean
-- venue. The reading of the clock for the pair at a place is `clock place`, and for the last attempt `last_now`.
use spot_spot_relay_arbitrag.Prelude.{ℕ, ◌+◌, false, not, ◌&&◌, ◌||◌, List, [], ◌∷◌, if◌then◌else◌}
use spot_spot_relay_arbitrag.Double.{Double, zero_f}
use spot_spot_relay_arbitrag.Types.{Exchange, exchange_beq}
use spot_spot_relay_arbitrag.Types.Symbol.{SymbolId, get_base}
use spot_spot_relay_arbitrag.Strategy.Quote.{quote_pair_is_usable}
use spot_spot_relay_arbitrag.Strategy.Premium.{calculate_relay_metrics, calculate_entry_premium}
use spot_spot_relay_arbitrag.Strategy.PriceCache.{get_price, get_usdt_krw}
use spot_spot_relay_arbitrag.Strategy.PriceCache.Routes.Finalize.{
  is_transfer_route_available, get_withdraw_fee,
}
use spot_spot_relay_arbitrag.Strategy.Engine.{ExchangePair, Engine}
use spot_spot_relay_arbitrag.Strategy.Engine.Entry.{relay_input}
use spot_spot_relay_arbitrag.Strategy.Engine.Exit.{foreign_symbol_for}

-- The variables of the search.
pub record BestBid {ℓ} (F : Type ℓ) : Type ℓ where
  pub foreign_bid : F
  pub rate : F
  pub net_profit : F
  pub net_edge : F

module _ {ℓ} {F : Type ℓ} ⦃d : Double F⦄ where
  unfoldable pub consider_bid :
      ℕ → SymbolId → SymbolId → Exchange → Engine F → ExchangePair → BestBid F → BestBid F
  consider_bid now_ms symbol foreign_symbol korean_ex e pair best =
      let base = get_base symbol in
      let korean_price = get_price korean_ex symbol e.prices in
      let fp = get_price pair.foreign foreign_symbol e.prices in
      let rate = get_usdt_krw pair.korean e.prices in
      let withdraw_fee = get_withdraw_fee pair.korean pair.foreign base e.transfers in
      let metrics =
        calculate_relay_metrics
          (relay_input pair.korean pair.foreign korean_price fp rate withdraw_fee) in
      if not (exchange_beq pair.korean korean_ex)
      then best
      else if not (is_transfer_route_available pair.korean pair.foreign base e.transfers)
      then best
      else if not fp.valid || d.le fp.bid zero_f
      then best
      else if not (quote_pair_is_usable now_ms korean_price fp false)
      then best
      else if d.le rate zero_f
      then best
      else if d.lt best.net_profit metrics.net_profit_krw
          || (d.eqb metrics.net_profit_krw best.net_profit
              && d.lt best.net_edge metrics.net_edge_pct)
      then record {
        foreign_bid = fp.bid;
        rate = rate;
        net_profit = metrics.net_profit_krw;
        net_edge = metrics.net_edge_pct;
      }
      else best

  unfoldable pub find_best_bid :
      (ℕ → ℕ)
      → ℕ
      → SymbolId
      → SymbolId
      → Exchange
      → Engine F
      → List ExchangePair
      → BestBid F
      → BestBid F
  find_best_bid clock place symbol foreign_symbol korean_ex e [] best = best
  find_best_bid clock place symbol foreign_symbol korean_ex e (pair ∷ pairs) best =
      find_best_bid clock (place + 1) symbol foreign_symbol korean_ex e pairs
        (consider_bid (clock place) symbol foreign_symbol korean_ex e pair best)

  abbrev pub no_bid : BestBid F
  no_bid = record {
    foreign_bid = zero_f;
    rate = zero_f;
    net_profit = d.neg (d.dec (1_000_000_000_000_000_000) 0);
    net_edge = d.neg (d.dec (1_000_000_000_000_000_000) 0);
  }

  abbrev pub premium_if_rate : F → F → F → F
  premium_if_rate ask bid rate =
      if d.le rate zero_f then zero_f else calculate_entry_premium ask bid rate

  -- The last attempt, on the venue that the caller names.
  unfoldable pub requested_premium : ℕ → SymbolId → SymbolId → Exchange → Exchange → Engine F → F
  requested_premium now_ms symbol foreign_symbol korean_ex foreign_ex e =
      let korean_price = get_price korean_ex symbol e.prices in
      let foreign_price = get_price foreign_ex foreign_symbol e.prices in
      if not (is_transfer_route_available korean_ex foreign_ex (get_base symbol) e.transfers)
      then zero_f
      else if not foreign_price.valid || d.le foreign_price.bid zero_f
      then zero_f
      else if not (quote_pair_is_usable now_ms korean_price foreign_price false)
      then zero_f
      else premium_if_rate korean_price.ask foreign_price.bid (get_usdt_krw korean_ex e.prices)

  unfoldable pub calculate_premium : (ℕ → ℕ) → ℕ → SymbolId → Exchange → Exchange → Engine F → F
  calculate_premium clock last_now symbol korean_ex foreign_ex e =
      let korean_price = get_price korean_ex symbol e.prices in
      let foreign_symbol = foreign_symbol_for symbol e in
      let best = find_best_bid clock 0 symbol foreign_symbol korean_ex e e.exchange_pairs no_bid in
      if not korean_price.valid || d.le korean_price.ask zero_f
      then zero_f
      else if d.le best.foreign_bid zero_f
      then requested_premium last_now symbol foreign_symbol korean_ex foreign_ex e
      else premium_if_rate korean_price.ask best.foreign_bid best.rate
