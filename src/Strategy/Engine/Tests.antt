-- ===== src/Strategy/Engine/Tests.antt =====
-- A small engine, and the theorems there.
use spot_spot_relay_arbitrag.Prelude.{ℕ, ◌≡◌, ◌⊎◌, refl, true, List, [], ◌∷◌, ◌++◌, some, All}
use spot_spot_relay_arbitrag.Prelude.Map.{lookup, insert}
use spot_spot_relay_arbitrag.Double.Fixed.{Fixed, of_decimal, fixed_double, Fixed-IsIeee}
use spot_spot_relay_arbitrag.Types.{Exchange, bithumb, bybit}
use spot_spot_relay_arbitrag.Types.Symbol.{SymbolId, symbol_id, fill_chars, hash, load}
use spot_spot_relay_arbitrag.Types.Trade.{Position, no_position}
use spot_spot_relay_arbitrag.Strategy.Quote.{
  quote_pair_is_usable, quote_is_fresh_with_limit, spread_pct,
}
use spot_spot_relay_arbitrag.Strategy.Premium.{calculate_exit_premium, premium_of}
use spot_spot_relay_arbitrag.Strategy.EntrySelection.Sort.{insertion_sort}
use spot_spot_relay_arbitrag.Strategy.PriceCache.{
  Prices, no_prices, update, get_price, shard_index, update_usdt_krw, get_usdt_krw,
}
use spot_spot_relay_arbitrag.Strategy.PriceCache.Routes.{
  Transfers, set_withdraw_network_fees, set_foreign_deposit_networks,
}
use spot_spot_relay_arbitrag.Strategy.PriceCache.Routes.Finalize.{finalize_withdraw_fees}
use spot_spot_relay_arbitrag.Strategy.Engine.{
  Engine, ExitSignal, ExchangePair, new_engine, add_symbol, add_exchange_pair,
}
use spot_spot_relay_arbitrag.Strategy.Engine.Entry.{find_best_pair, start_pair}
use spot_spot_relay_arbitrag.Strategy.PositionTracker.{
  PositionTracker, new_tracker, open_position, get_active_positions,
}
use spot_spot_relay_arbitrag.Strategy.PositionTracker.Invariant.{
  IsValid, open_position_lem, new_tracker-IsValid,
}
use spot_spot_relay_arbitrag.Strategy.Engine.Exit.{exit_signal_of, check_exit_conditions}
use spot_spot_relay_arbitrag.Strategy.Engine.Events.{Ticker, Readings, on_ticker_update}
use spot_spot_relay_arbitrag.Strategy.Engine.Invariant.{IsWellFormed}
use spot_spot_relay_arbitrag.Strategy.Engine.Reachable.{
  Reachable, start, next, adds_symbol, adds_pair, ticks, moves_transfers, Reachable-IsWellFormed,
}
use spot_spot_relay_arbitrag.Strategy.Engine.ExitRule.{
  HasLevel, signals_due, check_exit_conditions_lem,
}
use spot_spot_relay_arbitrag.Strategy.Engine.Fire.{fire_one}
use spot_spot_relay_arbitrag.Strategy.Engine.Once.{fire_one-again}
use spot_spot_relay_arbitrag.Strategy.Engine.BestPair.{IsBestOf, IsOneOf, find_best_pair-IsBestOf}

abbrev won : ℕ → Fixed
won n = of_decimal n 0

abbrev btc_krw : SymbolId
btc_krw = symbol_id (b'B' ∷ b'T' ∷ b'C' ∷ []) (b'K' ∷ b'R' ∷ b'W' ∷ [])

abbrev btc_usdt : SymbolId
btc_usdt = symbol_id (b'B' ∷ b'T' ∷ b'C' ∷ []) (b'U' ∷ b'S' ∷ b'D' ∷ b'T' ∷ [])

abbrev usdt_krw : SymbolId
usdt_krw = symbol_id (b'U' ∷ b'S' ∷ b'D' ∷ b'T' ∷ []) (b'K' ∷ b'R' ∷ b'W' ∷ [])

abbrev clock : Readings
clock = record { on_update = 50; on_scan = 60; on_entry = λ i place. 70; on_exit = λ place. 80 }

-- A quote with 100 coins on either side.
abbrev ticker : Exchange → SymbolId → Fixed → Fixed → Ticker Fixed
ticker exchange symbol bid ask = record {
  exchange = exchange;
  symbol = symbol;
  timestamp = 45;
  last = bid;
  bid = bid;
  ask = ask;
  bid_qty = won 100;
  ask_qty = won 100;
}

abbrev btc : List ℕ
btc = b'B' ∷ b'T' ∷ b'C' ∷ []

abbrev transfers : Transfers Fixed
transfers =
    finalize_withdraw_fees
      (set_foreign_deposit_networks bybit btc (btc ∷ []) (
        set_withdraw_network_fees bithumb btc
          (record { network = btc; fee_coins = of_decimal 5 4 } ∷ [])
          (record {
            withdraw_network_fees = [];
            foreign_deposit_nets = [];
            korean_withdraw_enabled = [];
            transfer_snapshot = record { fees = []; routes = []; refreshed_at_ms = 0 };
          })))
      7

abbrev set_up : Engine Fixed
set_up = add_exchange_pair bithumb bybit (add_symbol btc_krw new_engine)

abbrev routed : Engine Fixed
routed = record set_up { transfers = transfers }

abbrev tick : Ticker Fixed → Engine Fixed → Engine Fixed
tick t e = on_ticker_update insertion_sort 1 clock t e

-- 1400 KRW for a USDT, then 1 USDT for a coin abroad, then 1000 KRW for it in Korea.
abbrev rate_ticker : Ticker Fixed
rate_ticker = ticker bithumb usdt_krw (won 1400) (won 1400)

abbrev foreign_ticker : Ticker Fixed
foreign_ticker = ticker bybit btc_usdt (won 1) (of_decimal 1_001 3)

abbrev korean_ticker : Ticker Fixed
korean_ticker = ticker bithumb btc_krw (won 999) (won 1000)

abbrev quoted : Engine Fixed
quoted = tick foreign_ticker (tick rate_ticker routed)

abbrev ticked : Engine Fixed
ticked = tick korean_ticker quoted

quoted-Reachable : Reachable insertion_sort quoted
quoted-Reachable =
    next
      (next
        (next (next (next start (adds_symbol btc_krw)) (adds_pair bithumb bybit))
          (moves_transfers transfers))
        (ticks 1 clock rate_ticker))
      (ticks 1 clock foreign_ticker)

ticked-Reachable : Reachable insertion_sort ticked
ticked-Reachable = next quoted-Reachable (ticks 1 clock korean_ticker)

ticked-IsWellFormed : IsWellFormed ticked
ticked-IsWellFormed = Reachable-IsWellFormed ticked-Reachable

Reachable-IsWellFormed_example : IsWellFormed ticked
Reachable-IsWellFormed_example = Reachable-IsWellFormed ticked-Reachable

abbrev pairs : List ExchangePair
pairs = record { korean = bithumb; foreign = bybit; entry_enabled = true } ∷ []

find_best_pair-IsBestOf_example :
    let from =
      start_pair {F = Fixed} (record { korean = bithumb; foreign = bybit; entry_enabled = true }) in
    let found = find_best_pair (λ place. 70) 0 btc_krw btc_usdt ticked pairs from in
    ((found ≡ from) ⊎ IsOneOf btc_krw btc_usdt ticked (λ place. 70) 0 pairs found)
    × IsBestOf btc_krw btc_usdt ticked (λ place. 70) 0 pairs found
find_best_pair-IsBestOf_example =
    find_best_pair-IsBestOf btc_krw btc_usdt ticked Fixed-IsIeee (λ place. 70) 0 pairs
      (start_pair (record { korean = bithumb; foreign = bybit; entry_enabled = true }))

-- 1500 KRW in Korea against 1 USDT abroad, at 1400 KRW for a USDT.
abbrev prices : Prices Fixed
prices = update_usdt_krw bithumb (won 1400) (
    update 0 bybit btc_usdt (won 1) (won 1) (won 1) 45 (won 2) (won 2)
      (update 0 bithumb btc_krw (won 1500) (won 1501) (won 1500) 45 (won 2) (won 2) no_prices))

abbrev holding : Position Fixed
holding = record no_position {
  symbol = btc_krw;
  korean_exchange = bithumb;
  foreign_exchange = bybit;
}

abbrev priced : Engine Fixed
priced = record set_up { prices = prices }

abbrev exit : ExitSignal Fixed
exit = record {
  symbol = btc_krw;
  korean_exchange = bithumb;
  foreign_exchange = bybit;
  premium = calculate_exit_premium (won 1500) (won 1) (won 1400);
  korean_bid = won 1500;
  foreign_ask = won 1;
  usdt_krw_rate = won 1400;
}

exits : exit_signal_of 80 btc_krw btc_usdt holding priced ≡ some exit
unfolding exit_signal_of get_price update get_usdt_krw update_usdt_krw no_prices shard_index hash
    load symbol_id fill_chars lookup insert quote_pair_is_usable quote_is_fresh_with_limit
    spread_pct calculate_exit_premium premium_of
exits = refl

abbrev tracker : PositionTracker Fixed
tracker = (open_position holding new_tracker).0

abbrev held : Engine Fixed
held = record priced { tracker = tracker }

tracker-IsValid : IsValid tracker
tracker-IsValid = (open_position_lem holding new_tracker new_tracker-IsValid).0

held_levels : All HasLevel (get_active_positions held.tracker)
unfolding get_active_positions open_position new_tracker
held_levels = (refl, tt)

check_exit_conditions_lem_example : check_exit_conditions (λ place. 80) held ≡ record held {
  exit_signals =
      held.exit_signals ++ signals_due (λ place. 80) held 0 (get_active_positions held.tracker);
}
check_exit_conditions_lem_example =
    check_exit_conditions_lem (λ place. 80) held Fixed-IsIeee tracker-IsValid held_levels

-- No position for the symbol.
abbrev states : List ℕ
states = 0 ∷ []

fire_one-again_example : fire_one states 0 (fire_one states 0 ticked) ≡ fire_one states 0 ticked
fire_one-again_example = fire_one-again states 0 ticked ticked-IsWellFormed refl
