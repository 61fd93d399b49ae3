-- ===== src/Strategy/Engine.antt =====
-- The state of `ArbitrageEngine` of kimp_arb_cpp/include/kimp/strategy/arbitrage_engine.hpp, and the operations
-- that set it up. A call of the source is one step on the state here. The entry cache is an array of 1024
-- entries beside two bitsets. A signal that the source hands to a callback and to a queue is added to a list, so
-- the list is the history of what was signaled; the trace fields of a signal are left out.
pub mod Entry
pub mod Fire
pub mod Exit
pub mod Events
pub mod Invariant
pub mod Preserved
pub mod FireKept
pub mod Steps
pub mod Reachable
pub mod BestPair
pub mod ExitRule
pub mod Once
pub mod Report
pub mod Premiums
pub mod ReportRule
mod Tests
mod ReportTests
use spot_spot_relay_arbitrag.Prelude.{
  ℕ, Bool, true, false, ◌&&◌, List, [], ◌∷◌, ◌++◌, Option, none, some, leb, if◌then◌else◌,
  replicate, get_or, length, map,
}
use spot_spot_relay_arbitrag.Prelude.Map.{Eq, lookup, insert}
use spot_spot_relay_arbitrag.Double.{Double, zero_f}
use spot_spot_relay_arbitrag.Types.{Exchange, bithumb, exchange_beq}
use spot_spot_relay_arbitrag.Types.Symbol.{SymbolId, symbol_id, get_base, eq_symbol, no_symbol}
use spot_spot_relay_arbitrag.Memory.Bitset.{AtomicBitset, new}
use spot_spot_relay_arbitrag.Strategy.PositionTracker.{PositionTracker, new_tracker}
use spot_spot_relay_arbitrag.Strategy.PriceCache.{Prices, no_prices}
use spot_spot_relay_arbitrag.Strategy.PriceCache.Routes.{Transfers}

-- `CachedEntryPremium`.
pub record CachedEntry {ℓ} (F : Type ℓ) : Type ℓ where
  pub entry_premium : F
  pub korean_ask : F
  pub korean_ask_qty : F
  pub foreign_bid : F
  pub foreign_bid_qty : F
  pub match_qty : F
  pub target_coin_qty : F
  pub max_tradable_usdt_at_best : F
  pub gross_edge_pct : F
  pub net_edge_pct : F
  pub net_profit_krw : F
  pub usdt_rate : F
  pub both_can_fill_target : Bool
  pub best_korean_exchange : Exchange
  pub best_foreign_exchange : Exchange
  pub qualified : Bool
  pub signal_fired : Bool

pub record ExchangePair : Type 0 where
  pub korean : Exchange
  pub foreign : Exchange
  pub entry_enabled : Bool

pub record ArbitrageSignal {ℓ} (F : Type ℓ) : Type ℓ where
  pub symbol : SymbolId
  pub korean_exchange : Exchange
  pub foreign_exchange : Exchange
  pub premium : F
  pub korean_ask : F
  pub korean_ask_qty : F
  pub foreign_bid : F
  pub foreign_bid_qty : F
  pub match_qty : F
  pub target_coin_qty : F
  pub max_tradable_usdt_at_best : F
  pub gross_edge_pct : F
  pub net_edge_pct : F
  pub net_profit_krw : F
  pub both_can_fill_target : Bool
  pub usdt_krw_rate : F

pub record ExitSignal {ℓ} (F : Type ℓ) : Type ℓ where
  pub symbol : SymbolId
  pub korean_exchange : Exchange
  pub foreign_exchange : Exchange
  pub premium : F
  pub korean_bid : F
  pub foreign_ask : F
  pub usdt_krw_rate : F

pub record Engine {ℓ} (F : Type ℓ) : Type ℓ where
  pub monitored_symbols : List SymbolId
  pub foreign_symbols : List SymbolId
  pub korean_symbol_index : List (SymbolId × ℕ)
  pub foreign_symbol_index : List (SymbolId × ℕ)
  pub exchange_pairs : List ExchangePair
  pub prices : Prices F
  pub transfers : Transfers F
  pub tracker : PositionTracker F
  pub entry_cache : List (CachedEntry F)
  pub candidate_bits : AtomicBitset
  pub fired_bits : AtomicBitset
  pub entry_suppressed : Bool
  pub entry_signals : List (ArbitrageSignal F)
  pub exit_signals : List (ExitSignal F)
  pub next_entry_scan_ms : ℕ
  pub next_usdt_scan_ms : ℕ
  pub update_seq : ℕ

abbrev pub max_cached_symbols : ℕ
max_cached_symbols = 1024

-- "USDT".
abbrev pub usdt : List ℕ
usdt = b'U' ∷ b'S' ∷ b'D' ∷ b'T' ∷ []

abbrev pub foreign_of : SymbolId → SymbolId
foreign_of symbol = symbol_id (get_base symbol) usdt

module _ {ℓ} {F : Type ℓ} ⦃d : Double F⦄ where
  abbrev pub no_entry : CachedEntry F
  no_entry = record {
    entry_premium = d.dec 100 0;
    korean_ask = zero_f;
    korean_ask_qty = zero_f;
    foreign_bid = zero_f;
    foreign_bid_qty = zero_f;
    match_qty = zero_f;
    target_coin_qty = zero_f;
    max_tradable_usdt_at_best = zero_f;
    gross_edge_pct = zero_f;
    net_edge_pct = zero_f;
    net_profit_krw = zero_f;
    usdt_rate = zero_f;
    both_can_fill_target = false;
    best_korean_exchange = bithumb;
    best_foreign_exchange = bithumb;
    qualified = false;
    signal_fired = false;
  }

  unfoldable pub new_engine : Engine F
  new_engine = record {
    monitored_symbols = [];
    foreign_symbols = [];
    korean_symbol_index = [];
    foreign_symbol_index = [];
    exchange_pairs = [];
    prices = no_prices;
    transfers = record {
      withdraw_network_fees = [];
      foreign_deposit_nets = [];
      korean_withdraw_enabled = [];
      transfer_snapshot = record { fees = []; routes = []; refreshed_at_ms = 0 };
    };
    tracker = new_tracker;
    entry_cache = replicate max_cached_symbols no_entry;
    candidate_bits = new max_cached_symbols;
    fired_bits = new max_cached_symbols;
    entry_suppressed = false;
    entry_signals = [];
    exit_signals = [];
    next_entry_scan_ms = 0;
    next_usdt_scan_ms = 0;
    update_seq = 0;
  }

  abbrev pub entry_at : ℕ → Engine F → CachedEntry F
  entry_at idx e = get_or e.entry_cache idx no_entry

abbrev pub enable_pair : Exchange → Exchange → Bool → ExchangePair → ExchangePair
enable_pair korean foreign enabled pair =
    if exchange_beq pair.korean korean && exchange_beq pair.foreign foreign
    then record pair { entry_enabled = enabled }
    else pair

module _ {ℓ} {F : Type ℓ} where
  unfoldable pub add_symbol : SymbolId → Engine F → Engine F
  add_symbol symbol e =
      let idx = length e.monitored_symbols in
      let foreign_symbol = foreign_of symbol in
      elim (lookup symbol e.korean_symbol_index) [
        | some _ ↦ e
        | none ↦ if leb max_cached_symbols idx then e else record e {
          monitored_symbols = e.monitored_symbols ++ (symbol ∷ []);
          foreign_symbols = e.foreign_symbols ++ (foreign_symbol ∷ []);
          korean_symbol_index = insert symbol idx e.korean_symbol_index;
          foreign_symbol_index = insert foreign_symbol idx e.foreign_symbol_index;
        }
      ]

  unfoldable pub add_exchange_pair : Exchange → Exchange → Engine F → Engine F
  add_exchange_pair korean foreign e = record e {
    exchange_pairs =
        e.exchange_pairs
        ++ (record { korean = korean; foreign = foreign; entry_enabled = true } ∷ []);
  }

  unfoldable pub set_exchange_pair_entry_enabled : Exchange → Exchange → Bool → Engine F → Engine F
  set_exchange_pair_entry_enabled korean foreign enabled e = record e {
    exchange_pairs = map (enable_pair korean foreign enabled) e.exchange_pairs;
  }

  unfoldable pub set_entry_suppressed : Bool → Engine F → Engine F
  set_entry_suppressed suppressed e = record e { entry_suppressed = suppressed }
