-- ===== src/Strategy/Engine/Entry.antt =====
-- kimp_arb_cpp/src/strategy/arbitrage_engine.cpp: `sync_entry_state_bits`, `update_symbol_entry` and
-- `update_all_entries`. The reading of the clock for the pair at a place is `clock place`.
use spot_spot_relay_arbitrag.Prelude.{
  ℕ, zero, suc, ◌+◌, Bool, false, not, ◌&&◌, ◌||◌, List, [], ◌∷◌, leb, if◌then◌else◌, get_or, set,
  length,
}
use spot_spot_relay_arbitrag.Double.{Double, zero_f}
use spot_spot_relay_arbitrag.Types.{Exchange}
use spot_spot_relay_arbitrag.Types.Symbol.{SymbolId, get_base, no_symbol}
use spot_spot_relay_arbitrag.Types.TradingConfig.{
  get_korean_fee_rate, get_foreign_fee_rate, entry_gate_passes,
}
use spot_spot_relay_arbitrag.Memory.Bitset as Bits
use spot_spot_relay_arbitrag.Strategy.Quote.{PriceData, no_price, quote_pair_is_usable}
use spot_spot_relay_arbitrag.Strategy.Premium.{
  RelayInput, RelayMetrics, calculate_relay_metrics, calculate_entry_premium,
}
use spot_spot_relay_arbitrag.Strategy.PriceCache.{get_price, get_usdt_krw}
use spot_spot_relay_arbitrag.Strategy.PriceCache.Routes.Finalize.{
  is_transfer_route_available, get_withdraw_fee,
}
use spot_spot_relay_arbitrag.Strategy.Engine.{
  CachedEntry, ExchangePair, Engine, max_cached_symbols, entry_at,
}

module _ {ℓ} {F : Type ℓ} where
  unfoldable pub sync_entry_state_bits : ℕ → Bool → Bool → Engine F → Engine F
  sync_entry_state_bits idx qualifies signal_fired e =
      if leb max_cached_symbols idx then e else record e {
        candidate_bits =
            Bits.set max_cached_symbols idx (qualifies && not signal_fired) e.candidate_bits;
        fired_bits = Bits.set max_cached_symbols idx signal_fired e.fired_bits;
      }

  abbrev pub write_entry_at : ℕ → CachedEntry F → Engine F → Engine F
  write_entry_at idx entry e = record e { entry_cache = set e.entry_cache idx entry }

-- The variables of the search for the best pair.
pub record BestPair {ℓ} (F : Type ℓ) : Type ℓ where
  pub korean_ex : Exchange
  pub foreign_ex : Exchange
  pub korean_price : PriceData F
  pub foreign_price : PriceData F
  pub net_profit : F
  pub net_edge : F
  pub usdt_rate : F

module _ {ℓ} {F : Type ℓ} ⦃d : Double F⦄ where
  abbrev pub relay_input : Exchange → Exchange → PriceData F → PriceData F → F → F → RelayInput F
  relay_input korean_ex foreign_ex korean_price foreign_price rate withdraw_fee = record {
    korean_ask = korean_price.ask;
    korean_ask_qty = korean_price.ask_qty;
    foreign_bid = foreign_price.bid;
    foreign_bid_qty = foreign_price.bid_qty;
    usdt_krw_rate = rate;
    korean_fee_rate = get_korean_fee_rate korean_ex;
    foreign_fee_rate = get_foreign_fee_rate foreign_ex;
    withdraw_fee_coins = withdraw_fee;
  }

  -- The body of the loop over the pairs: a `continue` leaves the best pair as it is.
  unfoldable pub consider_pair :
      ℕ → SymbolId → SymbolId → Engine F → ExchangePair → BestPair F → BestPair F
  consider_pair now_ms symbol foreign_symbol e pair best =
      let base = get_base symbol in
      let korean_price = get_price pair.korean symbol e.prices in
      let foreign_price = get_price pair.foreign foreign_symbol e.prices in
      let rate = get_usdt_krw pair.korean e.prices in
      let withdraw_fee = get_withdraw_fee pair.korean pair.foreign base e.transfers in
      let metrics =
        calculate_relay_metrics
          (relay_input pair.korean pair.foreign korean_price foreign_price rate withdraw_fee) in
      if not pair.entry_enabled
      then best
      else if not (is_transfer_route_available pair.korean pair.foreign base e.transfers)
      then best
      else if not korean_price.valid || d.le korean_price.ask zero_f
      then best
      else if not foreign_price.valid || d.le foreign_price.bid zero_f
      then best
      else if not (quote_pair_is_usable now_ms korean_price foreign_price false)
      then best
      else if d.le rate zero_f
      then best
      else if d.lt best.net_profit metrics.net_profit_krw
          || (d.eqb metrics.net_profit_krw best.net_profit
              && d.lt best.net_edge metrics.net_edge_pct)
      then record {
        korean_ex = pair.korean;
        foreign_ex = pair.foreign;
        korean_price = korean_price;
        foreign_price = foreign_price;
        net_profit = metrics.net_profit_krw;
        net_edge = metrics.net_edge_pct;
        usdt_rate = rate;
      }
      else best

  unfoldable pub find_best_pair :
      (ℕ → ℕ) → ℕ → SymbolId → SymbolId → Engine F → List ExchangePair → BestPair F → BestPair F
  find_best_pair clock place symbol foreign_symbol e [] best = best
  find_best_pair clock place symbol foreign_symbol e (pair ∷ pairs) best =
      find_best_pair clock (place + 1) symbol foreign_symbol e pairs
        (consider_pair (clock place) symbol foreign_symbol e pair best)

  -- -1e18 for the profit and the edge, and no rate.
  abbrev pub start_pair : ExchangePair → BestPair F
  start_pair first = record {
    korean_ex = first.korean;
    foreign_ex = first.foreign;
    korean_price = no_price;
    foreign_price = no_price;
    net_profit = d.neg (d.dec (1_000_000_000_000_000_000) 0);
    net_edge = d.neg (d.dec (1_000_000_000_000_000_000) 0);
    usdt_rate = zero_f;
  }

  -- The lambda `clear_state`.
  unfoldable pub clear_state : ℕ → Engine F → Engine F
  clear_state idx e =
      let cache = entry_at idx e in
      let cleared =
        if cache.qualified || cache.signal_fired
        then write_entry_at idx (record cache { qualified = false; signal_fired = false }) e
        else e in
      sync_entry_state_bits idx false false cleared

  -- The entry that the metrics of the best pair give.
  unfoldable pub entry_of : BestPair F → F → RelayMetrics F → CachedEntry F → CachedEntry F
  entry_of best premium metrics cache =
      let qualifies =
        entry_gate_passes metrics.both_can_fill_target metrics.match_qty metrics.net_edge_pct
          metrics.net_profit_krw in
      let keeps = (cache.qualified && qualifies) || (not cache.qualified && not qualifies) in
      record {
        entry_premium = premium;
        korean_ask = best.korean_price.ask;
        korean_ask_qty = best.korean_price.ask_qty;
        foreign_bid = best.foreign_price.bid;
        foreign_bid_qty = best.foreign_price.bid_qty;
        match_qty = metrics.match_qty;
        target_coin_qty = metrics.target_coin_qty;
        max_tradable_usdt_at_best = metrics.max_tradable_usdt_at_best;
        gross_edge_pct = metrics.gross_edge_pct;
        net_edge_pct = metrics.net_edge_pct;
        net_profit_krw = metrics.net_profit_krw;
        usdt_rate = best.usdt_rate;
        both_can_fill_target = metrics.both_can_fill_target;
        best_korean_exchange = best.korean_ex;
        best_foreign_exchange = best.foreign_ex;
        qualified = qualifies;
        signal_fired = if keeps then cache.signal_fired else false;
      }

  -- What follows the search.
  unfoldable pub store_entry : ℕ → SymbolId → BestPair F → Engine F → Engine F
  store_entry idx symbol best e =
      let premium =
        calculate_entry_premium best.korean_price.ask best.foreign_price.bid best.usdt_rate in
      let withdraw_fee =
        get_withdraw_fee best.korean_ex best.foreign_ex (get_base symbol) e.transfers in
      let metrics = calculate_relay_metrics (
        relay_input best.korean_ex best.foreign_ex best.korean_price best.foreign_price
          best.usdt_rate withdraw_fee) in
      let entry = entry_of best premium metrics (entry_at idx e) in
      sync_entry_state_bits idx entry.qualified entry.signal_fired (write_entry_at idx entry e)

  unfoldable pub update_with_pairs : (ℕ → ℕ) → ℕ → List ExchangePair → Engine F → Engine F
  update_with_pairs clock idx [] e = clear_state idx e
  update_with_pairs clock idx (first ∷ pairs) e =
      let symbol = get_or e.monitored_symbols idx no_symbol in
      let foreign_symbol = get_or e.foreign_symbols idx no_symbol in
      let best =
        find_best_pair clock 0 symbol foreign_symbol e (first ∷ pairs) (start_pair first) in
      if d.le best.usdt_rate zero_f then clear_state idx e else store_entry idx symbol best e

  unfoldable pub update_symbol_entry : (ℕ → ℕ) → ℕ → Engine F → Engine F
  update_symbol_entry clock idx e =
      if leb (length e.monitored_symbols) idx
      then e
      else update_with_pairs clock idx e.exchange_pairs e

  -- The loop over the symbols; `clocks i` are the readings for symbol `i`.
  unfoldable pub update_entries_from : (ℕ → ℕ → ℕ) → ℕ → ℕ → Engine F → Engine F
  update_entries_from clocks zero i e = e
  update_entries_from clocks (suc rounds) i e =
      update_entries_from clocks rounds (i + 1) (update_symbol_entry (clocks i) i e)

  unfoldable pub update_all_entries : (ℕ → ℕ → ℕ) → Engine F → Engine F
  update_all_entries clocks e = update_entries_from clocks (length e.monitored_symbols) 0 e
