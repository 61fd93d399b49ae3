-- ===== src/Execution/OrderManager/Entry/Loop.antt =====
-- kimp_arb_cpp/src/execution/order_manager.cpp: the loop of `execute_spot_relay_entry`, and the whole function.
use spot_spot_relay_arbitrag.Prelude.{
  ℕ, Bool, true, not, ◌&&◌, List, [], ◌∷◌, Option, none, some, if◌then◌else◌,
}
use spot_spot_relay_arbitrag.Double.{Double, zero_f}
use spot_spot_relay_arbitrag.Types.TradingConfig.{position_size_usd}
use spot_spot_relay_arbitrag.Types.Trade.{Position}
use spot_spot_relay_arbitrag.Strategy.CapitalTracker.{get_position_size_usd}
use spot_spot_relay_arbitrag.Strategy.Engine.{ArbitrageSignal, foreign_of}
use spot_spot_relay_arbitrag.Execution.OrderManager.{
  Manager, Venues, has_korean_exchange, has_foreign_exchange,
}
use spot_spot_relay_arbitrag.Execution.OrderManager.Action.{Action, pure}
use spot_spot_relay_arbitrag.Execution.OrderManager.Fill.{quantities_match}
use spot_spot_relay_arbitrag.Execution.OrderManager.Blacklist.{is_safe_to_trade}
use spot_spot_relay_arbitrag.Execution.OrderManager.Snapshot.{
  ExecutionResult, Holding, Message, exchange_not_available, existing_position, initial_mismatched,
  hedged,
}
use spot_spot_relay_arbitrag.Execution.OrderManager.Market.{
  Market, Round, begin_round, entry_market, round_exit_premium, dynamic_exit_threshold,
  effective_entry_premium,
}
use spot_spot_relay_arbitrag.Execution.OrderManager.Entry.{
  EntryContext, EntryState, Step, go_on, after_round, refuse_or, base_position, entry_result,
  may_enter, entry_split,
}
use spot_spot_relay_arbitrag.Execution.OrderManager.Entry.Split.{exit_split}

module _ {ℓ} {F : Type ℓ} ⦃d : Double F⦄ ⦃v : Venues F⦄ where
  abbrev pub may_exit : EntryContext F → Holding F → Market F → Bool
  may_exit c h k =
      d.le (dynamic_exit_threshold c.signal.premium h k.usdt_rate) (round_exit_premium k)
      && d.lt zero_f h.amount

  -- A pass of the loop on what the market shows: it enters, exits or waits.
  unfoldable pub entry_round :
      EntryContext F
      → EntryState F
      → Market F
      → Round F
      → Action F (Step (EntryState F) (ExecutionResult F))
  entry_round c s k r =
      let s' = record s { last_usdt_rate = k.usdt_rate } in
      if not k.quote_pair_ok
      then pure (go_on s')
      else if may_enter c s.holding k
      then entry_split c s' k
      else if may_exit c s.holding k
      then exit_split c s' k r
      else pure (go_on s')

  -- The result after a shutdown.
  unfoldable pub entry_shutdown : EntryContext F → EntryState F → ExecutionResult F
  entry_shutdown c s =
      let result = record (entry_result c s) { position_managed = true } in
      if d.lt zero_f s.holding.amount
      then record result {
        success = true;
        position =
            hedged (base_position c s) s.holding
              (effective_entry_premium c.signal.premium s.holding s.last_usdt_rate);
      }
      else result

  -- `while (running_)`.
  unfoldable pub entry_loop :
      EntryContext F → List (Round F) → EntryState F → Action F (Option (ExecutionResult F))
  entry_loop c [] s m = (none, m)
  entry_loop c (r ∷ rounds) s m =
      let m1 = begin_round r m in
      let k = entry_market c.signal c.legs s.holding.amount r.now_ms m1.engine in
      let rest = after_round (entry_loop c rounds) (entry_round c s k r m1) in
      if m1.running then rest else (some (entry_shutdown c s), m1)

  -- The variables before the loop.
  unfoldable pub entry_start : ArbitrageSignal F → Option (Position F) → ℕ → EntryState F
  entry_start signal none system_now = record {
    entry_time = system_now;
    entry_premium = signal.premium;
    korean_filled_amount = zero_f;
    foreign_filled_amount = zero_f;
    holding = record {
      amount = zero_f;
      korean_cost = zero_f;
      foreign_value = zero_f;
      realized_pnl_krw = zero_f;
    };
    last_usdt_rate = signal.usdt_krw_rate;
  }
  entry_start signal (some p) system_now = record {
    entry_time = p.entry_time;
    entry_premium = p.entry_premium;
    korean_filled_amount = zero_f;
    foreign_filled_amount = zero_f;
    holding = record {
      amount = p.korean_amount;
      korean_cost = d.mul p.korean_entry_price p.korean_amount;
      foreign_value = d.mul p.foreign_entry_price p.foreign_amount;
      realized_pnl_krw = p.realized_pnl_krw;
    };
    last_usdt_rate = signal.usdt_krw_rate;
  }

  -- The size of a position: the engine's, or the constant where there is none.
  unfoldable pub entry_context : ArbitrageSignal F → ℕ → Manager F → EntryContext F
  entry_context signal max_positions m = record {
    signal = signal;
    legs = record {
      korean_exchange = signal.korean_exchange;
      foreign_exchange = signal.foreign_exchange;
      symbol = signal.symbol;
      foreign_symbol = foreign_of signal.symbol;
    };
    position_size_usd = elim m.engine [
      | none ↦ position_size_usd
      | some e ↦ get_position_size_usd max_positions m.capital
    ];
  }

  abbrev pub initial_matches : Option (Position F) → Bool
  initial_matches none = true
  initial_matches (some p) = quantities_match p.korean_amount p.foreign_amount

  -- Why the entry does not start.
  unfoldable pub entry_refusal :
      ArbitrageSignal F → Option (Position F) → Manager F → Option Message
  entry_refusal signal initial m =
      if not (
        has_korean_exchange signal.korean_exchange m
        && has_foreign_exchange signal.foreign_exchange m)
      then some exchange_not_available
      else if not (is_safe_to_trade signal.symbol signal.korean_exchange signal.foreign_exchange m)
      then some existing_position
      else if not (initial_matches initial)
      then some initial_mismatched
      else none

  -- `MAX_POSITIONS` and the reading of the clock are arguments.
  unfoldable pub execute_spot_relay_entry :
      ℕ
      → ℕ
      → List (Round F)
      → ArbitrageSignal F
      → Option (Position F)
      → Action F (Option (ExecutionResult F))
  execute_spot_relay_entry max_positions system_now rounds signal initial m =
      let c = entry_context signal max_positions m in
      let s = entry_start signal initial system_now in
      refuse_or (entry_refusal signal initial m) (entry_result c s) (entry_loop c rounds s) m
