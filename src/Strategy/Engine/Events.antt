-- ===== src/Strategy/Engine/Events.antt =====
-- kimp_arb_cpp/src/strategy/arbitrage_engine.cpp: `on_usdt_update`, `on_ticker_update` and
-- `refresh_entry_filters`. The debug log of the rate and the condition variable are left out.
use spot_spot_relay_arbitrag.Prelude.{
  ℕ, ◌+◌, Bool, not, ◌&&◌, List, Option, none, some, leb, if◌then◌else◌, get_or,
}
use spot_spot_relay_arbitrag.Prelude.Map.{lookup}
use spot_spot_relay_arbitrag.Double.{Double, zero_f}
use spot_spot_relay_arbitrag.Types.{Exchange, is_korean_exchange}
use spot_spot_relay_arbitrag.Types.Symbol.{SymbolId, no_symbol, eq_symbol, is_usdt_krw}
use spot_spot_relay_arbitrag.Types.TradingConfig.{
  max_usdt_jump_pct, usdt_full_scan_debounce_ms, entry_fast_scan_cooldown_ms,
}
use spot_spot_relay_arbitrag.Strategy.PositionTracker.{has_position}
use spot_spot_relay_arbitrag.Strategy.PriceCache.{get_usdt_krw, update_usdt_krw, update}
use spot_spot_relay_arbitrag.Strategy.Engine.{Engine, entry_at}
use spot_spot_relay_arbitrag.Strategy.Engine.Entry.{update_symbol_entry, update_all_entries}
use spot_spot_relay_arbitrag.Strategy.Engine.Fire.{fire_entry_from_cache}
use spot_spot_relay_arbitrag.Strategy.Engine.Exit.{check_symbol_exit, check_exit_conditions}

-- `Ticker`; the timestamp is in milliseconds.
pub record Ticker {ℓ} (F : Type ℓ) : Type ℓ where
  pub exchange : Exchange
  pub symbol : SymbolId
  pub timestamp : ℕ
  pub last : F
  pub bid : F
  pub ask : F
  pub bid_qty : F
  pub ask_qty : F

-- The readings of the clock while an event is handled.
pub record Readings : Type 0 where
  -- In `PriceCache::update`, and before a scan.
  pub on_update : ℕ
  pub on_scan : ℕ
  -- For a symbol and the place of a pair, and for the place of a position.
  pub on_entry : ℕ → ℕ → ℕ
  pub on_exit : ℕ → ℕ

module _ {ℓ} {F : Type ℓ} ⦃d : Double F⦄ where
  unfoldable pub on_usdt_update : Exchange → F → Engine F → Engine F
  on_usdt_update ex price e =
      let prev = get_usdt_krw ex e.prices in
      let jump_pct = d.mul (d.div (d.fabs (d.sub price prev)) prev) (d.dec 100 0) in
      if d.le price zero_f
      then e
      else if d.lt zero_f prev && d.lt max_usdt_jump_pct jump_pct
      then e
      else record e { prices = update_usdt_krw ex price e.prices }

  abbrev pub bump : Engine F → Engine F
  bump e = record e { update_seq = e.update_seq + 1 }

  module _ (sort : (ℕ → ℕ → Bool) → List ℕ → List ℕ) (max_positions : ℕ) (clock : Readings) where
    -- The debounced scan after a change of the rate.
    unfoldable pub scan_after_rate : Engine F → Engine F
    scan_after_rate e =
        if leb e.next_usdt_scan_ms clock.on_scan
        then fire_entry_from_cache sort max_positions
            (record e { next_usdt_scan_ms = clock.on_scan + usdt_full_scan_debounce_ms })
        else e

    -- The scan after an update of symbol `idx`: at once if it may signal, else after the cooldown.
    unfoldable pub scan_after_entry : ℕ → Engine F → Engine F
    scan_after_entry idx e =
        if (entry_at idx e).qualified && not (entry_at idx e).signal_fired
        then fire_entry_from_cache sort max_positions e
        else if leb e.next_entry_scan_ms clock.on_scan
        then fire_entry_from_cache sort max_positions
            (record e { next_entry_scan_ms = clock.on_scan + entry_fast_scan_cooldown_ms })
        else e

    -- The part for a symbol that is monitored.
    unfoldable pub on_symbol : ℕ → Engine F → Engine F
    on_symbol idx e =
        let scanned = scan_after_entry idx (update_symbol_entry (clock.on_entry idx) idx e) in
        if has_position (get_or scanned.monitored_symbols idx no_symbol) scanned.tracker
        then check_symbol_exit (clock.on_exit 0) idx scanned
        else scanned

    abbrev pub usdt_price : Ticker F → F
    usdt_price ticker =
        if d.lt zero_f ticker.bid && (d.lt zero_f ticker.ask && d.le ticker.bid ticker.ask)
        then d.mul (d.add ticker.bid ticker.ask) (d.dec 5 1)
        else ticker.last

    -- `price_cache_.update(...)`.
    abbrev pub cache_prices : Ticker F → Engine F → Engine F
    cache_prices ticker e = record e {
      prices =
          update clock.on_update ticker.exchange ticker.symbol ticker.bid ticker.ask ticker.last
            ticker.timestamp ticker.bid_qty ticker.ask_qty e.prices;
    }

    -- The branch for USDT/KRW.
    abbrev pub on_rate : Ticker F → Engine F → Engine F
    on_rate ticker e = check_exit_conditions clock.on_exit (
        scan_after_rate (
          update_all_entries clock.on_entry (on_usdt_update ticker.exchange (usdt_price ticker) e)))

    abbrev pub on_found : Option ℕ → Engine F → Engine F
    on_found none e = e
    on_found (some idx) e = on_symbol idx e

    unfoldable pub on_ticker_update : Ticker F → Engine F → Engine F
    on_ticker_update ticker e =
        let cached = cache_prices ticker e in
        let index =
          if is_korean_exchange ticker.exchange
          then cached.korean_symbol_index
          else cached.foreign_symbol_index in
        bump (
          if is_usdt_krw ticker.symbol
          then on_rate ticker cached
          else on_found (lookup ticker.symbol index) cached)

  unfoldable pub refresh_entry_filters : (ℕ → ℕ → ℕ) → Engine F → Engine F
  refresh_entry_filters clocks e = bump (update_all_entries clocks e)
