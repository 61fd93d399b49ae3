-- ===== src/Execution/OrderManager/Fill.antt =====
-- kimp_arb_cpp/src/execution/order_manager.cpp: the quantity and the price of a fill, and the test of the hedge.
use spot_spot_relay_arbitrag.Prelude.{Bool, true, if◌then◌else◌}
use spot_spot_relay_arbitrag.Double.{Double, zero_f, max_f}
use spot_spot_relay_arbitrag.Types.TradingConfig.{hedge_quantity_tolerance_ratio}
use spot_spot_relay_arbitrag.Types.Trade.{Order}

module _ {ℓ} {F : Type ℓ} ⦃d : Double F⦄ where
  unfoldable pub resolved_fill_quantity : Order F → F
  resolved_fill_quantity order =
      if d.lt zero_f order.filled_quantity
      then order.filled_quantity
      else if d.lt zero_f order.quantity
      then order.quantity
      else zero_f

  unfoldable pub resolved_fill_price : Order F → F → F
  resolved_fill_price order fallback =
      if d.lt zero_f order.average_price then order.average_price else fallback

  -- `if (price <= 0) price = fallback;`.
  abbrev pub price_or : F → F → F
  price_or price fallback = if d.le price zero_f then fallback else price

  unfoldable pub quantities_match : F → F → Bool
  quantities_match lhs rhs =
      let scale = max_f (d.fabs lhs) (d.fabs rhs) in
      if d.le scale zero_f
      then true
      else d.le (d.div (d.fabs (d.sub lhs rhs)) scale) hedge_quantity_tolerance_ratio
