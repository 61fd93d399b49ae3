-- ===== src/Strategy/CapitalTracker/Tests.antt =====
-- Three trades.
use spot_spot_relay_arbitrag.Prelude.{◌≡◌, refl, List, [], ◌∷◌}
use spot_spot_relay_arbitrag.Double.Fixed.{Fixed, of_decimal, fixed_double}
use spot_spot_relay_arbitrag.Strategy.CapitalTracker.{new_capital, add_realized_pnl, reset_session}
use spot_spot_relay_arbitrag.Strategy.CapitalTracker.History.{
  CapitalCall, adds_pnl, resets, call, run_calls, IsConsistent, new_capital-IsConsistent,
}

abbrev trades : List (CapitalCall Fixed)
trades =
    adds_pnl (of_decimal 9 0)
    ∷ resets
    ∷ adds_pnl (of_decimal 5 0)
    ∷ adds_pnl (fixed_double.neg (of_decimal 2 0))
    ∷ []

wins_of_trades : (run_calls trades new_capital).winning_trades ≡ 1
unfolding run_calls call new_capital add_realized_pnl reset_session
wins_of_trades = refl

new_capital-IsConsistent_example : IsConsistent (run_calls trades new_capital)
new_capital-IsConsistent_example = new_capital-IsConsistent trades
