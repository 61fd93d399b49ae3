-- ===== src/Execution/OrderManager.antt =====
-- `OrderManager` of kimp_arb_cpp/include/kimp/execution/order_manager.hpp and
-- kimp_arb_cpp/src/execution/order_manager.cpp: its state, and its calls of the venues. The clients of the venues
-- are the interface `Venues`: an answer may depend on all requests before it, and nothing is assumed of it.
-- A member function is a function of the manager; `requests`, `position_updates` and `completed_trades` are the
-- histories of what it sends to the venues and hands to its two callbacks, the newest first.
pub mod Action
pub mod Fill
pub mod Orders
pub mod Snapshot
pub mod Market
pub mod Hedge
pub mod Blacklist
pub mod Entry
pub mod Exit
pub mod Frame
pub mod Safety
pub mod Accounted
pub mod Ends
pub mod Quiet
pub mod Stopped
pub mod Example
mod Tests
use spot_spot_relay_arbitrag.Prelude.{ℕ, Bool, true, false, List, [], Option, none}
use spot_spot_relay_arbitrag.Types.{Exchange, bithumb, upbit, bybit, okx}
use spot_spot_relay_arbitrag.Types.Symbol.{SymbolId}
use spot_spot_relay_arbitrag.Types.Trade.{Position, Order}
use spot_spot_relay_arbitrag.Strategy.CapitalTracker.{CapitalTracker}
use spot_spot_relay_arbitrag.Strategy.Engine.{Engine}

-- The calls of a venue's client that carry an order.
pub data Request {ℓ} (F : Type ℓ) : Type ℓ where
  place_market_buy_cost : Exchange → SymbolId → F → Request F
  -- `place_market_order` on the side `Sell`.
  place_market_sell : Exchange → SymbolId → F → Request F
  open_short : Exchange → SymbolId → F → Request F
  close_short : Exchange → SymbolId → F → Request F
  -- `query_order_fill` and `query_order_detail`: the answer is the order as they leave it.
  query_order_fill : Exchange → Order F → Request F
  query_order_detail : Exchange → SymbolId → Order F → Request F

pub record Venues {ℓ} (F : Type ℓ) : Type ℓ where
  pub answer : List (Request F) → Request F → Order F
  pub get_balance : Exchange → List ℕ → F
  pub get_short_positions : Exchange → List (Position F)
  pub prepare_shorting : Exchange → SymbolId → Bool

pub record Manager {ℓ} (F : Type ℓ) : Type ℓ where
  -- Whether the pointer to the venue's client is set.
  pub has_bithumb : Bool
  pub has_upbit : Bool
  pub has_bybit : Bool
  pub has_okx : Bool
  pub engine : Option (Engine F)
  -- The engine's `capital_tracker_`.
  pub capital : CapitalTracker F
  pub running : Bool
  pub has_update_callback : Bool
  pub has_trade_callback : Bool
  pub external_position_blacklist : List SymbolId
  pub requests : List (Request F)
  pub position_updates : List (Option (Position F))
  pub completed_trades : List (Position F × F × F)

module _ {ℓ} {F : Type ℓ} where
  -- The pointer that `set_exchange` sets; `given` is whether the new pointer is one to a client of the venue.
  unfoldable pub set_exchange : Exchange → Bool → Manager F → Manager F
  set_exchange bithumb given m = record m { has_bithumb = given }
  set_exchange upbit given m = record m { has_upbit = given }
  set_exchange bybit given m = record m { has_bybit = given }
  set_exchange okx given m = record m { has_okx = given }

  -- `get_korean_exchange(ex) != nullptr`.
  unfoldable pub has_korean_exchange : Exchange → Manager F → Bool
  has_korean_exchange bithumb m = m.has_bithumb
  has_korean_exchange upbit m = m.has_upbit
  has_korean_exchange _ m = false

  -- `get_foreign_exchange(ex) != nullptr`: any venue but OKX stands for Bybit.
  unfoldable pub has_foreign_exchange : Exchange → Manager F → Bool
  has_foreign_exchange okx m = m.has_okx
  has_foreign_exchange _ m = m.has_bybit

  unfoldable pub set_engine : Option (Engine F) → Manager F → Manager F
  set_engine e m = record m { engine = e }

  unfoldable pub request_shutdown : Manager F → Manager F
  request_shutdown m = record m { running = false }

  unfoldable pub set_position_update_callback : Bool → Manager F → Manager F
  set_position_update_callback given m = record m { has_update_callback = given }

  unfoldable pub set_trade_complete_callback : Bool → Manager F → Manager F
  set_trade_complete_callback given m = record m { has_trade_callback = given }
