-- ===== src/Strategy/Engine/Reachable.antt =====
-- The engine as a state machine: a step is a call of one of its operations, and a state is reachable if calls
-- lead to it from a new engine.
use spot_spot_relay_arbitrag.Prelude.{ℕ, Bool, List}
use spot_spot_relay_arbitrag.Double.{Double}
use spot_spot_relay_arbitrag.Types.{Exchange}
use spot_spot_relay_arbitrag.Types.Symbol.{SymbolId, eq_symbol}
use spot_spot_relay_arbitrag.Strategy.PositionTracker.{PositionTracker}
use spot_spot_relay_arbitrag.Strategy.PriceCache.Routes.{Transfers}
use spot_spot_relay_arbitrag.Strategy.Engine.{
  Engine, new_engine, add_symbol, add_exchange_pair, set_exchange_pair_entry_enabled,
  set_entry_suppressed,
}
use spot_spot_relay_arbitrag.Strategy.Engine.Exit.{check_exit_conditions}
use spot_spot_relay_arbitrag.Strategy.Engine.Events.{
  Ticker, Readings, on_ticker_update, refresh_entry_filters,
}
use spot_spot_relay_arbitrag.Strategy.Engine.Invariant.{IsWellFormed, new_engine-IsWellFormed}
use spot_spot_relay_arbitrag.Strategy.Engine.Preserved.{add_symbol-IsWellFormed}
use spot_spot_relay_arbitrag.Strategy.Engine.Steps.{
  on_ticker_update-IsWellFormed, refresh_entry_filters-IsWellFormed,
  check_exit_conditions-IsWellFormed,
}

-- One call. The position tracker and the transfer data change by calls of their own operations, of which the
-- entry cache knows nothing, so any change of them is a step.
pub data Step {ℓ} {F : Type ℓ} ⦃d : Double F⦄ (sort : (ℕ → ℕ → Bool) → List ℕ → List ℕ)
    : Engine F → Engine F → Type ℓ where
  adds_symbol : {e : Engine F} → (symbol : SymbolId) → Step sort e (add_symbol symbol e)
  adds_pair : {e : Engine F} → (k f : Exchange) → Step sort e (add_exchange_pair k f e)
  enables_pair :
      {e : Engine F}
      → (k f : Exchange) (enabled : Bool)
      → Step sort e (set_exchange_pair_entry_enabled k f enabled e)
  suppresses :
      {e : Engine F} → (suppressed : Bool) → Step sort e (set_entry_suppressed suppressed e)
  ticks :
      {e : Engine F}
      → (max_positions : ℕ) (clock : Readings) (ticker : Ticker F)
      → Step sort e (on_ticker_update sort max_positions clock ticker e)
  refreshes : {e : Engine F} → (clocks : ℕ → ℕ → ℕ) → Step sort e (refresh_entry_filters clocks e)
  checks_exits : {e : Engine F} → (clock : ℕ → ℕ) → Step sort e (check_exit_conditions clock e)
  moves_positions :
      {e : Engine F} → (t : PositionTracker F) → Step sort e (record e { tracker = t })
  moves_transfers : {e : Engine F} → (t : Transfers F) → Step sort e (record e { transfers = t })

pub data Reachable {ℓ} {F : Type ℓ} ⦃d : Double F⦄ (sort : (ℕ → ℕ → Bool) → List ℕ → List ℕ)
    : Engine F → Type ℓ where
  start : Reachable sort new_engine
  next : {e e' : Engine F} → Reachable sort e → Step sort e e' → Reachable sort e'

module _ {ℓ} {F : Type ℓ} ⦃d : Double F⦄ {sort : (ℕ → ℕ → Bool) → List ℕ → List ℕ} where
  pub Step-IsWellFormed : {e e' : Engine F} → IsWellFormed e → Step sort e e' → IsWellFormed e'
  unfolding add_exchange_pair set_exchange_pair_entry_enabled set_entry_suppressed
  Step-IsWellFormed {e} w (adds_symbol symbol) = add_symbol-IsWellFormed symbol e w
  Step-IsWellFormed w (adds_pair k f) = w
  Step-IsWellFormed w (enables_pair k f enabled) = w
  Step-IsWellFormed w (suppresses suppressed) = w
  Step-IsWellFormed {e} w (ticks max_positions clock ticker) =
      on_ticker_update-IsWellFormed sort max_positions clock ticker e w
  Step-IsWellFormed {e} w (refreshes clocks) = refresh_entry_filters-IsWellFormed clocks e w
  Step-IsWellFormed {e} w (checks_exits clock) = check_exit_conditions-IsWellFormed clock e w
  Step-IsWellFormed w (moves_positions t) = w
  Step-IsWellFormed w (moves_transfers t) = w

  -- In every reachable state of the engine the cache is well-formed: its bitsets are well-formed and have the
  -- bits that the entries say, an entry that qualifies passes the entry gate, there are at most 1024
  -- symbols, and every entry signal that was ever emitted passes the entry gate.
  pub Reachable-IsWellFormed : {e : Engine F} → Reachable sort e → IsWellFormed e
  Reachable-IsWellFormed start = new_engine-IsWellFormed
  Reachable-IsWellFormed (next r step) = Step-IsWellFormed (Reachable-IsWellFormed r) step
