-- ===== src/Execution/OrderManager/Tests.antt =====
-- The theorems at an entry and an exit of one coin.
use spot_spot_relay_arbitrag.Prelude.{
  ◌≡◌, refl, true, false, not, ◌&&◌, ◌||◌, List, [], ◌∷◌, none, some,
}
use spot_spot_relay_arbitrag.Prelude.Map.{member}
use spot_spot_relay_arbitrag.Double.Fixed.{Fixed, fixed_double, Fixed-IsIeee}
use spot_spot_relay_arbitrag.Types.{bithumb, upbit}
use spot_spot_relay_arbitrag.Types.Symbol.{eq_symbol}
use spot_spot_relay_arbitrag.Types.Trade.{no_order}
use spot_spot_relay_arbitrag.Strategy.Premium.{calculate_relay_metrics, relay_metrics_of}
use spot_spot_relay_arbitrag.Execution.OrderManager.{has_korean_exchange, has_foreign_exchange}
use spot_spot_relay_arbitrag.Execution.OrderManager.Fill.{quantities_match, resolved_fill_quantity}
use spot_spot_relay_arbitrag.Execution.OrderManager.Snapshot.{
  no_result, exit, stopped, sell_failed, trigger_critical_stop,
}
use spot_spot_relay_arbitrag.Execution.OrderManager.Market.{min_executable_usd}
use spot_spot_relay_arbitrag.Execution.OrderManager.Blacklist.{
  is_safe_to_trade, refresh_external_positions,
}
use spot_spot_relay_arbitrag.Execution.OrderManager.Blacklist.Exact.{
  holds, is_short, refresh_external_positions-exact,
}
use spot_spot_relay_arbitrag.Execution.OrderManager.Entry.{next_order_usd, may_enter}
use spot_spot_relay_arbitrag.Execution.OrderManager.Entry.Split.{sell_again}
use spot_spot_relay_arbitrag.Execution.OrderManager.Entry.Loop.{
  entry_start, entry_refusal, execute_spot_relay_entry,
}
use spot_spot_relay_arbitrag.Execution.OrderManager.Entry.OrderSize.{
  IsOrderSize, may_enter-IsOrderSize,
}
use spot_spot_relay_arbitrag.Execution.OrderManager.Exit.Loop.{
  exit_refusal, execute_spot_relay_exit,
}
use spot_spot_relay_arbitrag.Execution.OrderManager.Safety.{IsLive}
use spot_spot_relay_arbitrag.Execution.OrderManager.Stopped.{
  Call, enters, leaves, run_calls, IsHalted, stopped-IsHalted,
}
use spot_spot_relay_arbitrag.Execution.OrderManager.Safety.Entry.{IsEntryEnd}
use spot_spot_relay_arbitrag.Execution.OrderManager.Safety.Exit.{IsExitEnd}
use spot_spot_relay_arbitrag.Execution.OrderManager.Quiet.{IsQuiet, sell_again-IsQuiet}
use spot_spot_relay_arbitrag.Execution.OrderManager.Ends.{
  Returns, execute_spot_relay_entry-Returns, execute_spot_relay_exit-Returns,
  execute_spot_relay_entry-IsEntryEnd, execute_spot_relay_exit-IsExitEnd,
}
use spot_spot_relay_arbitrag.Execution.OrderManager.Example.{
  xrp, filled_order, filling, manager, rounds, signal, position, exit_signal, context, holding,
  market,
}

manager-IsLive : IsLive manager
manager-IsLive = record { running = refl; balanced = tt; disciplined = refl }

entry_accepted : entry_refusal signal none manager ≡ none
unfolding entry_refusal has_korean_exchange has_foreign_exchange is_safe_to_trade
entry_accepted = refl

exit_accepted : exit_refusal exit_signal position manager ≡ none
unfolding exit_refusal has_korean_exchange has_foreign_exchange quantities_match
exit_accepted = refl

execute_spot_relay_entry-IsEntryEnd_example :
    IsEntryEnd (execute_spot_relay_entry 1 0 rounds signal none manager)
execute_spot_relay_entry-IsEntryEnd_example =
    execute_spot_relay_entry-IsEntryEnd 1 0 rounds signal none manager manager-IsLive entry_accepted

execute_spot_relay_exit-IsExitEnd_example :
    IsExitEnd (execute_spot_relay_exit rounds exit_signal position manager)
execute_spot_relay_exit-IsExitEnd_example =
    execute_spot_relay_exit-IsExitEnd rounds exit_signal position manager manager-IsLive
      exit_accepted

execute_spot_relay_entry-Returns_example :
    Returns (execute_spot_relay_entry 1 0 rounds signal none manager)
execute_spot_relay_entry-Returns_example =
    execute_spot_relay_entry-Returns 1 0 rounds signal none manager refl

execute_spot_relay_exit-Returns_example :
    Returns (execute_spot_relay_exit rounds exit_signal position manager)
execute_spot_relay_exit-Returns_example =
    execute_spot_relay_exit-Returns rounds exit_signal position manager refl

-- Another exit of the position, and an entry.
abbrev later : List (Call Fixed)
later = leaves rounds exit_signal position ∷ enters 1 0 rounds signal none ∷ []

stopped-IsHalted_example :
    let halted = (trigger_critical_stop (stopped exit sell_failed) position no_result manager).1 in
    IsHalted halted (run_calls later halted)
stopped-IsHalted_example =
    stopped-IsHalted (stopped exit sell_failed) position no_result manager later

refresh_external_positions-exact_example :
    member xrp (refresh_external_positions (xrp ∷ []) [] manager).external_position_blacklist ≡ (
      not (member xrp [])
      && ((holds bithumb xrp (xrp ∷ []) manager || holds upbit xrp (xrp ∷ []) manager)
          || ((true && is_short {F = Fixed} xrp []) || (false && is_short {F = Fixed} xrp []))))
refresh_external_positions-exact_example =
    refresh_external_positions-exact xrp (xrp ∷ []) [] manager

entry_due : may_enter context holding market ≡ true
unfolding may_enter next_order_usd min_executable_usd calculate_relay_metrics relay_metrics_of
entry_due = refl

may_enter-IsOrderSize_example : IsOrderSize context holding market (next_order_usd context holding)
may_enter-IsOrderSize_example = may_enter-IsOrderSize Fixed-IsIeee context holding market entry_due

sell_again-IsQuiet_example :
    IsQuiet (resolved_fill_quantity filled_order) (entry_start signal (some position) 0) manager (
      sell_again context
        (entry_start signal (some position) 0)
        market
        filled_order
        no_order
        manager)
sell_again-IsQuiet_example =
    sell_again-IsQuiet context (entry_start signal (some position) 0) market filled_order no_order
      manager refl
