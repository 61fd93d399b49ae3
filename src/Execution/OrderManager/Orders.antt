-- ===== src/Execution/OrderManager/Orders.antt =====
-- kimp_arb_cpp/src/execution/order_manager.cpp: single orders, the queries of their fills, and the orders that
-- flatten an excess. The source runs a fill query on a worker or, if the queue is full, in place, and waits for it;
-- here it runs where it is dispatched.
use spot_spot_relay_arbitrag.Prelude.{Bool, false, not, ◌||◌, if◌then◌else◌, is_empty}
use spot_spot_relay_arbitrag.Double.{Double, zero_f}
use spot_spot_relay_arbitrag.Types.{Exchange, bithumb, upbit, bybit, okx}
use spot_spot_relay_arbitrag.Types.Symbol.{SymbolId}
use spot_spot_relay_arbitrag.Types.Trade.{Order, no_order, rejected, is_filled}
use spot_spot_relay_arbitrag.Execution.OrderManager.{
  Manager, Venues, place_market_buy_cost, place_market_sell, open_short, close_short,
  query_order_fill, query_order_detail, has_korean_exchange, has_foreign_exchange,
}
use spot_spot_relay_arbitrag.Execution.OrderManager.Action.{Action, pure, send, ◌>>=◌}
use spot_spot_relay_arbitrag.Execution.OrderManager.Fill.{resolved_fill_quantity}

module _ {ℓ} {F : Type ℓ} ⦃d : Double F⦄ ⦃v : Venues F⦄ where
  abbrev pub rejected_order : Order F
  rejected_order = record no_order { status = rejected }

  unfoldable pub execute_korean_buy : Exchange → SymbolId → F → Action F (Order F)
  execute_korean_buy ex symbol krw_amount m =
      if has_korean_exchange ex m
      then send (place_market_buy_cost ex symbol krw_amount) m
      else (rejected_order, m)

  unfoldable pub execute_korean_sell : Exchange → SymbolId → F → Action F (Order F)
  execute_korean_sell ex symbol quantity m =
      if has_korean_exchange ex m
      then send (place_market_sell ex symbol quantity) m
      else (rejected_order, m)

  unfoldable pub execute_foreign_short : Exchange → SymbolId → F → Action F (Order F)
  execute_foreign_short ex symbol quantity m =
      if has_foreign_exchange ex m
      then send (open_short ex symbol quantity) m
      else (rejected_order, m)

  unfoldable pub execute_foreign_cover : Exchange → SymbolId → F → Action F (Order F)
  execute_foreign_cover ex symbol quantity m =
      if has_foreign_exchange ex m
      then send (close_short ex symbol quantity) m
      else (rejected_order, m)

  -- Whether there is a client to ask: the test that the venue's own pointer is set.
  abbrev pub can_query_foreign : Exchange → Manager F → Bool
  can_query_foreign bybit m = m.has_bybit
  can_query_foreign okx m = m.has_okx
  can_query_foreign _ m = false

  abbrev pub can_query_korean : Exchange → Manager F → Bool
  can_query_korean bithumb m = m.has_bithumb
  can_query_korean upbit m = m.has_upbit
  can_query_korean _ m = false

  unfoldable pub query_foreign_fill : Exchange → Order F → Action F (Order F)
  query_foreign_fill ex order m =
      if is_empty order.order_id_str || not (is_filled order.status)
      then (order, m)
      else if can_query_foreign ex m
      then send (query_order_fill ex order) m
      else (order, m)

  unfoldable pub query_korean_fill : Exchange → SymbolId → Order F → Action F (Order F)
  query_korean_fill ex symbol order m =
      if is_empty order.order_id_str || not (is_filled order.status)
      then (order, m)
      else if can_query_korean ex m
      then send (query_order_detail ex symbol order) m
      else (order, m)

  -- Whether the excess is gone, and `order_out`.
  unfoldable pub flatten_extra_korean_long : Exchange → SymbolId → F → Action F (Bool × Order F)
  flatten_extra_korean_long ex symbol quantity = do
    order ← execute_korean_sell ex symbol quantity
    if is_filled order.status
        then (do
          order_out ← query_korean_fill ex symbol order
          pure (d.lt zero_f (resolved_fill_quantity order_out), order_out))
        else pure (false, order)

  unfoldable pub flatten_extra_foreign_short : Exchange → SymbolId → F → Action F (Bool × Order F)
  flatten_extra_foreign_short ex symbol quantity = do
    order ← execute_foreign_cover ex symbol quantity
    if is_filled order.status
        then (do
          order_out ← query_foreign_fill ex order
          pure (d.lt zero_f (resolved_fill_quantity order_out), order_out))
        else pure (false, order)
