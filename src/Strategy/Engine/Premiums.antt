-- ===== src/Strategy/Engine/Premiums.antt =====
-- kimp_arb_cpp/src/strategy/arbitrage_engine.cpp: `get_all_premiums`. The arrays of its first phase are one list. Its
-- reading of the clock is `now_ms`, and that for the quotes of the symbol at a place is `clock place`.
pub mod Rows
use mathlib.Core.Option
use spot_spot_relay_arbitrag.Prelude.{
  ℕ, ◌+◌, ◌-◌, Bool, true, false, not, ◌&&◌, ◌||◌, List, [], ◌∷◌, map, Option, none, some,
  if◌then◌else◌, ltb, leb,
}
use spot_spot_relay_arbitrag.Double.{Double, zero_f}
use spot_spot_relay_arbitrag.Types.{Exchange, bithumb, bybit}
use spot_spot_relay_arbitrag.Types.Symbol.{SymbolId, get_base}
use spot_spot_relay_arbitrag.Types.TradingConfig.{entry_gate_passes, exit_premium_threshold}
use spot_spot_relay_arbitrag.Strategy.Quote.{PriceData, no_price, quote_pair_is_usable}
use spot_spot_relay_arbitrag.Strategy.Premium.{RelayMetrics, calculate_relay_metrics}
use spot_spot_relay_arbitrag.Strategy.SimdPremium.{PriceRow, Target, calculate_batch}
use spot_spot_relay_arbitrag.Strategy.PriceCache.{get_price, get_usdt_krw}
use spot_spot_relay_arbitrag.Strategy.PriceCache.Routes.Finalize.{
  is_transfer_route_available, get_withdraw_fee,
}
use spot_spot_relay_arbitrag.Strategy.Engine.{ExchangePair, Engine}
use spot_spot_relay_arbitrag.Strategy.Engine.Entry.{relay_input}

-- A symbol with the variables of the search over the pairs.
pub record BestQuotes {ℓ} (F : Type ℓ) : Type ℓ where
  pub best_kr : PriceData F
  pub best_fr : PriceData F
  pub best_rate : F
  pub best_net_profit : F
  pub best_net_edge : F
  pub best_k_ex : Exchange
  pub best_f_ex : Exchange

pub record Collected {ℓ} (F : Type ℓ) : Type ℓ where
  pub symbol : SymbolId
  pub quotes : BestQuotes F

-- The prices and quantities of the quotes and all the metrics stand for the fields that are copied from them.
pub record PremiumInfo {ℓ} (F : Type ℓ) : Type ℓ where
  pub symbol : SymbolId
  pub korean_quote : PriceData F
  pub foreign_quote : PriceData F
  pub usdt_rate : F
  pub entry_premium : F
  pub exit_premium : F
  pub premium_spread : F
  pub metrics : RelayMetrics F
  pub age_ms : ℕ
  pub quote_usable : Bool
  pub entry_signal : Bool
  pub exit_signal : Bool
  pub best_korean_exchange : Exchange
  pub best_foreign_exchange : Exchange

module _ {ℓ} {F : Type ℓ} ⦃d : Double F⦄ where
  abbrev pub no_quotes : BestQuotes F
  no_quotes = record {
    best_kr = no_price;
    best_fr = no_price;
    best_rate = zero_f;
    best_net_profit = d.neg (d.dec (1_000_000_000_000_000_000) 0);
    best_net_edge = d.neg (d.dec (1_000_000_000_000_000_000) 0);
    best_k_ex = bithumb;
    best_f_ex = bybit;
  }

  unfoldable pub consider_quotes :
      SymbolId → SymbolId → Engine F → ExchangePair → BestQuotes F → BestQuotes F
  consider_quotes symbol foreign_symbol e pair best =
      let base = get_base symbol in
      let kp = get_price pair.korean symbol e.prices in
      let fp = get_price pair.foreign foreign_symbol e.prices in
      let rate = get_usdt_krw pair.korean e.prices in
      let metrics = calculate_relay_metrics (
        relay_input pair.korean pair.foreign kp fp rate
          (get_withdraw_fee pair.korean pair.foreign base e.transfers)) in
      if not (is_transfer_route_available pair.korean pair.foreign base e.transfers)
      then best
      else if not kp.valid || d.le kp.ask zero_f
      then best
      else if not fp.valid || d.le fp.bid zero_f
      then best
      else if d.le rate zero_f
      then best
      else if d.lt best.best_net_profit metrics.net_profit_krw
          || (d.eqb metrics.net_profit_krw best.best_net_profit
              && d.lt best.best_net_edge metrics.net_edge_pct)
      then record {
        best_kr = kp;
        best_fr = fp;
        best_rate = rate;
        best_net_profit = metrics.net_profit_krw;
        best_net_edge = metrics.net_edge_pct;
        best_k_ex = pair.korean;
        best_f_ex = pair.foreign;
      }
      else best

  unfoldable pub best_quotes :
      SymbolId → SymbolId → Engine F → List ExchangePair → BestQuotes F → BestQuotes F
  best_quotes symbol foreign_symbol e [] best = best
  best_quotes symbol foreign_symbol e (pair ∷ pairs) best =
      best_quotes symbol foreign_symbol e pairs (consider_quotes symbol foreign_symbol e pair best)

  unfoldable pub collect_quotes : Engine F → List SymbolId → List SymbolId → List (Collected F)
  collect_quotes e (symbol ∷ symbols) (foreign_symbol ∷ foreign_symbols) =
      let best = best_quotes symbol foreign_symbol e e.exchange_pairs no_quotes in
      let rest = collect_quotes e symbols foreign_symbols in
      if d.lt zero_f best.best_rate then record { symbol = symbol; quotes = best } ∷ rest else rest
  collect_quotes e (symbol ∷ symbols) [] = []
  collect_quotes e [] foreign_symbols = []

  abbrev pub entry_row : Collected F → PriceRow F
  entry_row c = record {
    korean_price = c.quotes.best_kr.ask;
    foreign_price = c.quotes.best_fr.bid;
    usdt_rate = c.quotes.best_rate;
  }

  abbrev pub exit_row : Collected F → PriceRow F
  exit_row c = record {
    korean_price = c.quotes.best_kr.bid;
    foreign_price = c.quotes.best_fr.ask;
    usdt_rate = c.quotes.best_rate;
  }

  abbrev pub age_of : ℕ → PriceData F → PriceData F → ℕ
  age_of now_ms kp fp =
      let newest = if ltb kp.timestamp fp.timestamp then fp.timestamp else kp.timestamp in
      if ltb 0 newest && ltb newest now_ms then now_ms - newest else 0

  -- `best_korean_price` and `best_foreign_price`.
  abbrev pub rebuilt_quote : PriceData F → PriceData F
  rebuilt_quote q = record {
    bid = q.bid;
    ask = q.ask;
    bid_qty = q.bid_qty;
    ask_qty = q.ask_qty;
    last = zero_f;
    timestamp = q.timestamp;
    valid = true;
  }

  unfoldable pub premium_info : ℕ → ℕ → Engine F → Collected F → F → F → PremiumInfo F
  premium_info now_ms usable_now e c entry exit =
      let q = c.quotes in
      let metrics = calculate_relay_metrics (
        relay_input q.best_k_ex q.best_f_ex q.best_kr q.best_fr q.best_rate
          (get_withdraw_fee q.best_k_ex q.best_f_ex (get_base c.symbol) e.transfers)) in
      let usable =
        quote_pair_is_usable usable_now (rebuilt_quote q.best_kr) (rebuilt_quote q.best_fr) false in
      record {
        symbol = c.symbol;
        korean_quote = q.best_kr;
        foreign_quote = q.best_fr;
        usdt_rate = q.best_rate;
        entry_premium = entry;
        exit_premium = exit;
        premium_spread = d.sub entry exit;
        metrics = metrics;
        age_ms = age_of now_ms q.best_kr q.best_fr;
        quote_usable = usable;
        entry_signal =
            entry_gate_passes (usable && metrics.both_can_fill_target) metrics.match_qty
              metrics.net_edge_pct metrics.net_profit_krw;
        exit_signal = d.le exit_premium_threshold exit;
        best_korean_exchange = q.best_k_ex;
        best_foreign_exchange = q.best_f_ex;
      }

  unfoldable pub build_infos :
      (ℕ → ℕ)
      → ℕ
      → ℕ
      → Engine F
      → List (Collected F)
      → List F
      → List F
      → Option (List (PremiumInfo F))
  build_infos clock place now_ms e (c ∷ cs) (entry ∷ entries) (exit ∷ exits) =
      Option.map (λ rest. premium_info now_ms (clock place) e c entry exit ∷ rest)
        (build_infos clock (place + 1) now_ms e cs entries exits)
  build_infos clock place now_ms e (c ∷ cs) [] exits = none
  build_infos clock place now_ms e (c ∷ cs) (entry ∷ entries) [] = none
  build_infos clock place now_ms e [] entries exits = some []

  unfoldable pub get_all_premiums :
      Target → (F → F → F → F) → (ℕ → ℕ) → ℕ → Engine F → Option (List (PremiumInfo F))
  get_all_premiums target fma clock now_ms e =
      let cs = collect_quotes e e.monitored_symbols e.foreign_symbols in
      Option.bind (calculate_batch target fma (map entry_row cs)) (λ entries.
        Option.bind (calculate_batch target fma (map exit_row cs))
          (λ exits. build_infos clock 0 now_ms e cs entries exits))
