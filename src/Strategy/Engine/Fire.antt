-- ===== src/Strategy/Engine/Fire.antt =====
-- kimp_arb_cpp/src/strategy/arbitrage_engine.cpp: `fire_entry_from_cache`. The second count of the pending
-- signals in the source is not used there, and `TradingConfig::MAX_POSITIONS` is the argument `max_positions`.
use spot_spot_relay_arbitrag.Prelude.{
  ℕ, Bool, true, not, ◌&&◌, ◌||◌, List, [], ◌∷◌, ◌++◌, none, some, leb, ◌==◌, if◌then◌else◌, get_or,
  set, length, replicate,
}
use spot_spot_relay_arbitrag.Prelude.Map.{lookup}
use spot_spot_relay_arbitrag.Double.{Double}
use spot_spot_relay_arbitrag.Types.Symbol.{SymbolId, no_symbol, eq_symbol}
use spot_spot_relay_arbitrag.Types.Trade.{Position}
use spot_spot_relay_arbitrag.Strategy.EntrySelection.{Selection, state_at, select_entry_candidates}
use spot_spot_relay_arbitrag.Strategy.PositionTracker.{for_each_active_position}
use spot_spot_relay_arbitrag.Strategy.Engine.{
  CachedEntry, ArbitrageSignal, Engine, max_cached_symbols, entry_at,
}
use spot_spot_relay_arbitrag.Strategy.Engine.Entry.{sync_entry_state_bits, write_entry_at}

module _ {ℓ} {F : Type ℓ} ⦃d : Double F⦄ where
  -- The callback on the active positions: 2 for a partial position and 1 for a full one.
  pub mark_position : Engine F → Position F → List ℕ → List ℕ
  mark_position e pos states =
      let actual_usd = d.mul pos.foreign_amount pos.foreign_entry_price in
      let partial = d.lt actual_usd (d.mul pos.position_size_usd (d.dec 95 2)) in
      elim (lookup pos.symbol e.korean_symbol_index) [
        | none ↦ states
        | some idx ↦
            if leb (length e.monitored_symbols) idx || leb max_cached_symbols idx
            then states
            else set states idx (if partial then 2 else 1)
      ]

  abbrev pub position_states : Engine F → List ℕ
  position_states e =
      for_each_active_position (mark_position e) e.tracker (replicate max_cached_symbols 0)

  -- The lambda `emit_signal`.
  abbrev pub signal_of : SymbolId → CachedEntry F → ArbitrageSignal F
  signal_of symbol c = record {
    symbol = symbol;
    korean_exchange = c.best_korean_exchange;
    foreign_exchange = c.best_foreign_exchange;
    premium = c.entry_premium;
    korean_ask = c.korean_ask;
    korean_ask_qty = c.korean_ask_qty;
    foreign_bid = c.foreign_bid;
    foreign_bid_qty = c.foreign_bid_qty;
    match_qty = c.match_qty;
    target_coin_qty = c.target_coin_qty;
    max_tradable_usdt_at_best = c.max_tradable_usdt_at_best;
    gross_edge_pct = c.gross_edge_pct;
    net_edge_pct = c.net_edge_pct;
    net_profit_krw = c.net_profit_krw;
    both_can_fill_target = c.both_can_fill_target;
    usdt_krw_rate = c.usdt_rate;
  }

  unfoldable pub emit_signal : ℕ → Engine F → Engine F
  emit_signal idx e =
      let symbol = get_or e.monitored_symbols idx no_symbol in
      record e { entry_signals = e.entry_signals ++ (signal_of symbol (entry_at idx e) ∷ []) }

  -- `signal_fired.store(true)` and its bits.
  unfoldable pub mark_fired : ℕ → Engine F → Engine F
  mark_fired idx e =
      sync_entry_state_bits idx true true
        (write_entry_at idx (record (entry_at idx e) { signal_fired = true }) e)

  -- The body of the loop over the selection.
  unfoldable pub fire_one : List ℕ → ℕ → Engine F → Engine F
  fire_one states idx e =
      let partial = state_at states idx == 2 in
      if not (entry_at idx e).qualified
      then e
      else if not partial && (entry_at idx e).signal_fired
      then e
      else if not partial
      then emit_signal idx (mark_fired idx e)
      else emit_signal idx e

  unfoldable pub fire_all : List ℕ → List ℕ → Engine F → Engine F
  fire_all states [] e = e
  fire_all states (idx ∷ rest) e = fire_all states rest (fire_one states idx e)

  abbrev pub selection_of : ((ℕ → ℕ → Bool) → List ℕ → List ℕ) → ℕ → Engine F → Selection
  selection_of sort max_positions e =
      select_entry_candidates max_cached_symbols sort (length e.monitored_symbols) max_positions
        e.candidate_bits e.fired_bits (position_states e)
        (λ idx. d.neg (entry_at idx e).net_edge_pct) (λ idx. (entry_at idx e).qualified)

  unfoldable pub fire_entry_from_cache :
      ((ℕ → ℕ → Bool) → List ℕ → List ℕ) → ℕ → Engine F → Engine F
  fire_entry_from_cache sort max_positions e =
      if length e.exchange_pairs == 0
      then e
      else if e.entry_suppressed
      then e
      else if length e.monitored_symbols == 0
      then e
      else fire_all (position_states e) (selection_of sort max_positions e).indices e
