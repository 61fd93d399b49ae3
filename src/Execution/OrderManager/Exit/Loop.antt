-- ===== src/Execution/OrderManager/Exit/Loop.antt =====
-- kimp_arb_cpp/src/execution/order_manager.cpp: the loop of `execute_spot_relay_exit`, and the whole function.
use spot_spot_relay_arbitrag.Prelude.{
  ℕ, Bool, true, false, not, ◌&&◌, List, [], ◌∷◌, Option, none, some, if◌then◌else◌,
}
use spot_spot_relay_arbitrag.Double.{Double, zero_f}
use spot_spot_relay_arbitrag.Types.TradingConfig.{entry_premium_threshold}
use spot_spot_relay_arbitrag.Types.Trade.{Position}
use spot_spot_relay_arbitrag.Strategy.Engine.{ExitSignal, foreign_of}
use spot_spot_relay_arbitrag.Execution.OrderManager.{
  Manager, Venues, has_korean_exchange, has_foreign_exchange,
}
use spot_spot_relay_arbitrag.Execution.OrderManager.Action.{Action, pure}
use spot_spot_relay_arbitrag.Execution.OrderManager.Fill.{quantities_match}
use spot_spot_relay_arbitrag.Execution.OrderManager.Snapshot.{
  ExecutionResult, Holding, Message, exchange_not_available, position_mismatched,
}
use spot_spot_relay_arbitrag.Execution.OrderManager.Market.{
  Market, Round, begin_round, exit_market, round_exit_premium, round_entry_premium,
  dynamic_exit_threshold,
}
use spot_spot_relay_arbitrag.Execution.OrderManager.Entry.{Step, go_on, after_round, refuse_or}
use spot_spot_relay_arbitrag.Execution.OrderManager.Exit.{
  ExitContext, ExitState, exit_snapshot, exit_result,
}
use spot_spot_relay_arbitrag.Execution.OrderManager.Exit.Split.{exit_close, reentry_split}

module _ {ℓ} {F : Type ℓ} ⦃d : Double F⦄ ⦃v : Venues F⦄ where
  abbrev pub may_close : ExitContext F → Holding F → Market F → Bool
  may_close c h k =
      d.le (dynamic_exit_threshold c.position.entry_premium h k.usdt_rate) (round_exit_premium k)

  abbrev pub may_reenter : ExitContext F → Holding F → Market F → Bool
  may_reenter c h k =
      d.le (round_entry_premium k) entry_premium_threshold
      && d.lt h.amount c.position.foreign_amount

  -- A pass of the loop on what the market shows: it exits, enters again or waits.
  unfoldable pub exit_round :
      ExitContext F → ExitState F → Market F → Action F (Step (ExitState F) (ExecutionResult F))
  exit_round c s k =
      let s' = record s { last_usdt_rate = k.usdt_rate } in
      if not k.quote_pair_ok
      then pure (go_on s')
      else if may_close c s.holding k
      then exit_close c s' k
      else if may_reenter c s.holding k
      then reentry_split c s' k
      else pure (go_on s')

  abbrev pub average_exit : F → ExitState F → F → F
  average_exit total s old =
      if d.lt zero_f s.total_exited_amount then d.div total s.total_exited_amount else old

  -- The result after the loop; `system_now` is the time of the exit.
  unfoldable pub exit_end : ExitContext F → ℕ → ExitState F → ExecutionResult F
  exit_end c system_now s =
      if d.lt zero_f s.holding.amount
      then record (exit_result c) {
        position = record (exit_snapshot c s.holding s.last_usdt_rate) { is_active = true };
      }
      else record (exit_result c) {
        success = true;
        position = record c.position {
          exit_time = system_now;
          exit_premium = c.signal.premium;
          is_active = false;
          realized_pnl_krw = s.holding.realized_pnl_krw;
          korean_exit_price = average_exit s.total_korean_proceeds s c.position.korean_exit_price;
          foreign_exit_price = average_exit s.total_foreign_cost s c.position.foreign_exit_price;
        };
      }

  -- `while (remaining_amount > 0 && running_)`.
  unfoldable pub exit_loop :
      ExitContext F → List (Round F) → ExitState F → Action F (Option (ExecutionResult F))
  exit_loop c [] s m = (none, m)
  exit_loop c (r ∷ rounds) s m =
      let m1 = begin_round r m in
      let k = exit_market c.signal c.legs r.now_ms m1.engine in
      let rest = after_round (exit_loop c rounds) (exit_round c s k m1) in
      if d.lt zero_f s.holding.amount && m1.running
      then rest
      else (some (exit_end c r.system_now s), m1)

  unfoldable pub exit_start : ExitSignal F → Position F → ExitState F
  exit_start signal p = record {
    holding = record {
      amount = p.foreign_amount;
      korean_cost = d.mul p.korean_entry_price p.korean_amount;
      foreign_value = d.mul p.foreign_entry_price p.foreign_amount;
      realized_pnl_krw = zero_f;
    };
    total_korean_proceeds = zero_f;
    total_foreign_cost = zero_f;
    total_exited_amount = zero_f;
    last_usdt_rate = signal.usdt_krw_rate;
  }

  unfoldable pub exit_context : ExitSignal F → Position F → ExitContext F
  exit_context signal p = record {
    signal = signal;
    position = p;
    legs = record {
      korean_exchange = signal.korean_exchange;
      foreign_exchange = signal.foreign_exchange;
      symbol = p.symbol;
      foreign_symbol = foreign_of p.symbol;
    };
  }

  -- Why the exit does not start.
  unfoldable pub exit_refusal : ExitSignal F → Position F → Manager F → Option Message
  exit_refusal signal p m =
      if not (
        has_korean_exchange signal.korean_exchange m
        && has_foreign_exchange signal.foreign_exchange m)
      then some exchange_not_available
      else if not (quantities_match p.korean_amount p.foreign_amount)
      then some position_mismatched
      else none

  unfoldable pub execute_spot_relay_exit :
      List (Round F) → ExitSignal F → Position F → Action F (Option (ExecutionResult F))
  execute_spot_relay_exit rounds signal p m =
      let c = exit_context signal p in
      refuse_or (exit_refusal signal p m) (exit_result c) (exit_loop c rounds (exit_start signal p))
        m
