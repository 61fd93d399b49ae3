-- ===== src/Strategy/CapitalTracker.antt =====
-- `CapitalTracker` of kimp_arb_cpp/include/kimp/strategy/arbitrage_engine.hpp. A call is one step, and the
-- counts, `int`s that only grow from 0, are numbers.
pub mod History
mod Tests
use spot_spot_relay_arbitrag.Prelude.{ℕ, ◌+◌, List, [], ◌∷◌, ◌++◌, ◌==◌, if◌then◌else◌}
use spot_spot_relay_arbitrag.Double.{Double, zero_f, min_f}
use spot_spot_relay_arbitrag.Types.TradingConfig.{total_capital_usd, position_size_usd}

pub record CapitalTracker {ℓ} (F : Type ℓ) : Type ℓ where
  pub initial_capital : F
  pub realized_pnl_usd : F
  pub total_trades : ℕ
  pub winning_trades : ℕ
  pub pnl_history : List F

module _ {ℓ} {F : Type ℓ} ⦃d : Double F⦄ where
  pub new_capital : CapitalTracker F
  new_capital = record {
    initial_capital = total_capital_usd;
    realized_pnl_usd = zero_f;
    total_trades = 0;
    winning_trades = 0;
    pnl_history = [];
  }

  pub set_initial_capital : F → CapitalTracker F → CapitalTracker F
  set_initial_capital capital t = record t { initial_capital = capital }

  pub get_current_capital : CapitalTracker F → F
  get_current_capital t = d.add t.initial_capital t.realized_pnl_usd

  pub add_realized_pnl : F → CapitalTracker F → CapitalTracker F
  add_realized_pnl pnl_usd t = record t {
    realized_pnl_usd = d.add t.realized_pnl_usd pnl_usd;
    total_trades = t.total_trades + 1;
    winning_trades = if d.lt zero_f pnl_usd then t.winning_trades + 1 else t.winning_trades;
    pnl_history = t.pnl_history ++ (pnl_usd ∷ []);
  }

  -- `max_positions` is `TradingConfig::MAX_POSITIONS`, as a `double`.
  pub get_position_size_usd : ℕ → CapitalTracker F → F
  get_position_size_usd max_positions t =
      min_f (d.div (d.div (get_current_capital t) (d.dec max_positions 0)) (d.dec 2 0))
        position_size_usd

  pub get_total_position_value : ℕ → CapitalTracker F → F
  get_total_position_value max_positions t =
      d.mul (get_position_size_usd max_positions t) (d.dec 2 0)

  pub get_win_rate : CapitalTracker F → F
  get_win_rate t =
      if t.total_trades == 0
      then zero_f
      else d.mul (d.div (d.dec t.winning_trades 0) (d.dec t.total_trades 0)) (d.dec 100 0)

  pub get_return_percent : CapitalTracker F → F
  get_return_percent t =
      if d.le t.initial_capital zero_f
      then zero_f
      else d.mul (d.div t.realized_pnl_usd t.initial_capital) (d.dec 100 0)

  -- The initial capital stays.
  pub reset_session : CapitalTracker F → CapitalTracker F
  reset_session t = record t {
    realized_pnl_usd = zero_f;
    total_trades = 0;
    winning_trades = 0;
    pnl_history = [];
  }
