-- ===== src/Strategy/Engine/Exit.antt =====
-- kimp_arb_cpp/src/strategy/arbitrage_engine.cpp: `check_symbol_exit` and `check_exit_conditions`.
use spot_spot_relay_arbitrag.Prelude.{
  ℕ, ◌+◌, true, not, ◌||◌, List, [], ◌∷◌, ◌++◌, Option, none, some, leb, if◌then◌else◌, get_or,
  length,
}
use spot_spot_relay_arbitrag.Prelude.Map.{lookup}
use spot_spot_relay_arbitrag.Double.{Double, zero_f, max_f}
use spot_spot_relay_arbitrag.Types.Symbol.{SymbolId, no_symbol, eq_symbol}
use spot_spot_relay_arbitrag.Types.Trade.{Position}
use spot_spot_relay_arbitrag.Types.TradingConfig.{dynamic_exit_spread, exit_premium_threshold}
use spot_spot_relay_arbitrag.Strategy.Quote.{quote_pair_is_usable}
use spot_spot_relay_arbitrag.Strategy.Premium.{calculate_exit_premium}
use spot_spot_relay_arbitrag.Strategy.PositionTracker.{
  get_position, has_any_position, get_active_positions,
}
use spot_spot_relay_arbitrag.Strategy.PriceCache.{get_price, get_usdt_krw}
use spot_spot_relay_arbitrag.Strategy.Engine.{ExitSignal, Engine, foreign_of}

module _ {ℓ} {F : Type ℓ} ⦃d : Double F⦄ where
  abbrev pub dynamic_exit : Position F → F
  dynamic_exit pos = max_f (d.add pos.entry_premium dynamic_exit_spread) exit_premium_threshold

  -- The part that the two checks share: the exit signal of a position, if it is due.
  unfoldable pub exit_signal_of :
      ℕ → SymbolId → SymbolId → Position F → Engine F → Option (ExitSignal F)
  exit_signal_of now_ms korean_symbol foreign_symbol pos e =
      let korean_price = get_price pos.korean_exchange korean_symbol e.prices in
      let foreign_price = get_price pos.foreign_exchange foreign_symbol e.prices in
      let usdt_rate = get_usdt_krw pos.korean_exchange e.prices in
      let premium = calculate_exit_premium korean_price.bid foreign_price.ask usdt_rate in
      if not korean_price.valid || d.le korean_price.bid zero_f
      then none
      else if not foreign_price.valid || d.le foreign_price.ask zero_f
      then none
      else if not (quote_pair_is_usable now_ms korean_price foreign_price true)
      then none
      else if d.le usdt_rate zero_f
      then none
      else if d.lt premium (dynamic_exit pos)
      then none
      else some (record {
        symbol = korean_symbol;
        korean_exchange = pos.korean_exchange;
        foreign_exchange = pos.foreign_exchange;
        premium = premium;
        korean_bid = korean_price.bid;
        foreign_ask = foreign_price.ask;
        usdt_krw_rate = usdt_rate;
      })

  abbrev pub push_exit : Option (ExitSignal F) → Engine F → Engine F
  push_exit none e = e
  push_exit (some signal) e = record e { exit_signals = e.exit_signals ++ (signal ∷ []) }

  unfoldable pub check_symbol_exit : ℕ → ℕ → Engine F → Engine F
  check_symbol_exit now_ms idx e =
      let korean_symbol = get_or e.monitored_symbols idx no_symbol in
      let foreign_symbol = get_or e.foreign_symbols idx no_symbol in
      if leb (length e.monitored_symbols) idx
      then e
      else elim (get_position korean_symbol e.tracker) [
        | none ↦ e
        | some pos ↦ push_exit (exit_signal_of now_ms korean_symbol foreign_symbol pos e) e
      ]

  abbrev pub foreign_symbol_for : SymbolId → Engine F → SymbolId
  foreign_symbol_for symbol e = elim (lookup symbol e.korean_symbol_index) [
    | some idx ↦ get_or e.foreign_symbols idx no_symbol
    | none ↦ foreign_of symbol
  ]

  -- The callback on the active positions; the clock reads `clock place` at the position at a place.
  unfoldable pub check_positions : (ℕ → ℕ) → ℕ → List (Position F) → Engine F → Engine F
  check_positions clock place [] e = e
  check_positions clock place (pos ∷ rest) e = check_positions clock (place + 1) rest (
      push_exit (exit_signal_of (clock place) pos.symbol (foreign_symbol_for pos.symbol e) pos e) e)

  unfoldable pub check_exit_conditions : (ℕ → ℕ) → Engine F → Engine F
  check_exit_conditions clock e =
      if not (has_any_position e.tracker)
      then e
      else check_positions clock 0 (get_active_positions e.tracker) e
