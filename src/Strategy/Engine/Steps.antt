-- ===== src/Strategy/Engine/Steps.antt =====
-- The events of the engine keep the invariant of the entry cache.
use spot_spot_relay_arbitrag.Prelude.{
  ℕ, Bool, not, ◌&&◌, ◌+◌, List, [], ◌∷◌, Option, none, some, if◌then◌else◌, leb, get_or, length,
}
use spot_spot_relay_arbitrag.Prelude.Map.{lookup}
use spot_spot_relay_arbitrag.Double.{Double, zero_f}
use spot_spot_relay_arbitrag.Types.{Exchange, is_korean_exchange}
use spot_spot_relay_arbitrag.Types.Symbol.{SymbolId, no_symbol, eq_symbol, is_usdt_krw}
use spot_spot_relay_arbitrag.Types.Trade.{Position}
use spot_spot_relay_arbitrag.Types.TradingConfig.{max_usdt_jump_pct}
use spot_spot_relay_arbitrag.Strategy.PositionTracker.{
  has_position, get_position, has_any_position, get_active_positions,
}
use spot_spot_relay_arbitrag.Strategy.PriceCache.{get_usdt_krw, update_usdt_krw}
use spot_spot_relay_arbitrag.Strategy.Engine.{Engine, ExitSignal, entry_at}
use spot_spot_relay_arbitrag.Strategy.Engine.Entry.{update_symbol_entry}
use spot_spot_relay_arbitrag.Strategy.Engine.Fire.{fire_entry_from_cache}
use spot_spot_relay_arbitrag.Strategy.Engine.Exit.{
  exit_signal_of, push_exit, foreign_symbol_for, check_symbol_exit, check_positions,
  check_exit_conditions,
}
use spot_spot_relay_arbitrag.Strategy.Engine.Events.{
  Ticker, Readings, on_usdt_update, scan_after_rate, scan_after_entry, on_symbol, usdt_price,
  cache_prices, on_rate, on_found, on_ticker_update, refresh_entry_filters,
}
use spot_spot_relay_arbitrag.Strategy.Engine.Invariant.{IsWellFormed}
use spot_spot_relay_arbitrag.Strategy.Engine.Preserved.{
  if_both, update_symbol_entry-IsWellFormed, update_all_entries-IsWellFormed,
}
use spot_spot_relay_arbitrag.Strategy.Engine.FireKept.{fire_entry_from_cache-IsWellFormed}

module _ {ℓ} {F : Type ℓ} ⦃d : Double F⦄ where
  push_exit-IsWellFormed :
      (signal : Option (ExitSignal F)) (e : Engine F)
      → IsWellFormed e
      → IsWellFormed (push_exit signal e)
  push_exit-IsWellFormed none e w = w
  push_exit-IsWellFormed (some signal) e w = w

  if_held :
      (pos : Option (Position F)) (x : Engine F) (y : Position F → Engine F)
      → IsWellFormed x
      → ((p : Position F) → IsWellFormed (y p))
      → IsWellFormed (elim pos [ none ↦ x | some p ↦ y p ])
  if_held none x y hx hy = hx
  if_held (some p) x y hx hy = hy p

  check_symbol_exit-IsWellFormed :
      (now idx : ℕ) (e : Engine F) → IsWellFormed e → IsWellFormed (check_symbol_exit now idx e)
  unfolding check_symbol_exit
  check_symbol_exit-IsWellFormed now idx e w =
      let symbol : SymbolId = get_or e.monitored_symbols idx no_symbol in
      let foreign : SymbolId = get_or e.foreign_symbols idx no_symbol in
      let checked : Position F → Engine F =
        λ pos. push_exit (exit_signal_of now symbol foreign pos e) e in
      if_both (leb (length e.monitored_symbols) idx) e
        (elim (get_position symbol e.tracker) [ none ↦ e | some pos ↦ checked pos ]) w
        (if_held (get_position symbol e.tracker) e checked w (λ pos. push_exit-IsWellFormed _ e w))

  check_positions-IsWellFormed :
      (clock : ℕ → ℕ) (place : ℕ) (ps : List (Position F)) (e : Engine F)
      → IsWellFormed e
      → IsWellFormed (check_positions clock place ps e)
  unfolding check_positions
  check_positions-IsWellFormed clock place [] e w = w
  check_positions-IsWellFormed clock place (pos ∷ ps) e w =
      check_positions-IsWellFormed clock (place + 1) ps _ (
        push_exit-IsWellFormed
          (exit_signal_of (clock place) pos.symbol (foreign_symbol_for pos.symbol e) pos e) e w)

  pub check_exit_conditions-IsWellFormed :
      (clock : ℕ → ℕ) (e : Engine F) → IsWellFormed e → IsWellFormed (check_exit_conditions clock e)
  unfolding check_exit_conditions
  check_exit_conditions-IsWellFormed clock e w =
      if_both (not (has_any_position e.tracker)) e
        (check_positions clock 0 (get_active_positions e.tracker) e) w
        (check_positions-IsWellFormed clock 0 (get_active_positions e.tracker) e w)

  on_usdt_update-IsWellFormed :
      (ex : Exchange) (price : F) (e : Engine F)
      → IsWellFormed e
      → IsWellFormed (on_usdt_update ex price e)
  unfolding on_usdt_update
  on_usdt_update-IsWellFormed ex price e w =
      let prev : F = get_usdt_krw ex e.prices in
      let jumps : Bool =
        d.lt zero_f prev
        && d.lt max_usdt_jump_pct (d.mul (d.div (d.fabs (d.sub price prev)) prev) (d.dec 100 0)) in
      let updated : Engine F = record e { prices = update_usdt_krw ex price e.prices } in
      if_both (d.le price zero_f) e (if jumps then e else updated) w (if_both jumps e updated w w)

  pub refresh_entry_filters-IsWellFormed :
      (clocks : ℕ → ℕ → ℕ) (e : Engine F)
      → IsWellFormed e
      → IsWellFormed (refresh_entry_filters clocks e)
  unfolding refresh_entry_filters
  refresh_entry_filters-IsWellFormed clocks e w = update_all_entries-IsWellFormed clocks e w

  module _ (sort : (ℕ → ℕ → Bool) → List ℕ → List ℕ) (max_positions : ℕ) (clock : Readings) where
    scan_after_rate-IsWellFormed :
        (e : Engine F) → IsWellFormed e → IsWellFormed (scan_after_rate sort max_positions clock e)
    unfolding scan_after_rate
    scan_after_rate-IsWellFormed e w =
        if_both (leb e.next_usdt_scan_ms clock.on_scan) _ e
          (fire_entry_from_cache-IsWellFormed sort max_positions _ w) w

    scan_after_entry-IsWellFormed :
        (idx : ℕ) (e : Engine F)
        → IsWellFormed e
        → IsWellFormed (scan_after_entry sort max_positions clock idx e)
    unfolding scan_after_entry
    scan_after_entry-IsWellFormed idx e w =
        if_both ((entry_at idx e).qualified && not (entry_at idx e).signal_fired)
          (fire_entry_from_cache sort max_positions e) _
          (fire_entry_from_cache-IsWellFormed sort max_positions e w)
          (if_both (leb e.next_entry_scan_ms clock.on_scan) _ e
            (fire_entry_from_cache-IsWellFormed sort max_positions _ w) w)

    on_symbol-IsWellFormed :
        (idx : ℕ) (e : Engine F)
        → IsWellFormed e
        → IsWellFormed (on_symbol sort max_positions clock idx e)
    unfolding on_symbol
    on_symbol-IsWellFormed idx e w =
        let scanned : Engine F =
          scan_after_entry sort max_positions clock idx
            (update_symbol_entry (clock.on_entry idx) idx e) in
        let ws : IsWellFormed scanned =
          scan_after_entry-IsWellFormed idx _
            (update_symbol_entry-IsWellFormed (clock.on_entry idx) idx e w) in
        if_both (has_position (get_or scanned.monitored_symbols idx no_symbol) scanned.tracker)
          (check_symbol_exit (clock.on_exit 0) idx scanned) scanned
          (check_symbol_exit-IsWellFormed (clock.on_exit 0) idx scanned ws) ws

    on_found-IsWellFormed :
        (found : Option ℕ) (e : Engine F)
        → IsWellFormed e
        → IsWellFormed (on_found sort max_positions clock found e)
    on_found-IsWellFormed none e w = w
    on_found-IsWellFormed (some idx) e w = on_symbol-IsWellFormed idx e w

    -- A ticker, with all that it sets off, keeps the invariant.
    pub on_ticker_update-IsWellFormed :
        (ticker : Ticker F) (e : Engine F)
        → IsWellFormed e
        → IsWellFormed (on_ticker_update sort max_positions clock ticker e)
    unfolding on_ticker_update
    on_ticker_update-IsWellFormed ticker e w =
        let cached : Engine F = cache_prices sort max_positions clock ticker e in
        let index : List (SymbolId × ℕ) =
          if is_korean_exchange ticker.exchange
          then cached.korean_symbol_index
          else cached.foreign_symbol_index in
        let rated : Engine F =
          on_usdt_update ticker.exchange (usdt_price sort max_positions clock ticker) cached in
        let wr : IsWellFormed rated = on_usdt_update-IsWellFormed ticker.exchange _ cached w in
        if_both (is_usdt_krw ticker.symbol) (on_rate sort max_positions clock ticker cached)
          (on_found sort max_positions clock (lookup ticker.symbol index) cached)
          (check_exit_conditions-IsWellFormed clock.on_exit _ (
            scan_after_rate-IsWellFormed _
              (update_all_entries-IsWellFormed clock.on_entry rated wr)))
          (on_found-IsWellFormed (lookup ticker.symbol index) cached w)
