-- ===== src/Execution/OrderManager/Hedge.antt =====
-- kimp_arb_cpp/src/execution/order_manager.cpp: the two legs of a split. An entry of `execute_spot_relay_entry` and a
-- re-entry of `execute_spot_relay_exit` open them alike, and `base` is the position that they start a `mismatch` from.
use spot_spot_relay_arbitrag.Prelude.{ℕ, zero, suc, Bool, true, false, not, if◌then◌else◌}
use spot_spot_relay_arbitrag.Double.{Double, zero_f}
use spot_spot_relay_arbitrag.Types.TradingConfig.{min_order_krw}
use spot_spot_relay_arbitrag.Types.Trade.{Position, Order, is_filled}
use spot_spot_relay_arbitrag.Execution.OrderManager.{Venues}
use spot_spot_relay_arbitrag.Execution.OrderManager.Action.{Action, pure, ◌>>=◌}
use spot_spot_relay_arbitrag.Execution.OrderManager.Fill.{
  resolved_fill_quantity, resolved_fill_price, quantities_match,
}
use spot_spot_relay_arbitrag.Execution.OrderManager.Orders.{
  execute_korean_buy, execute_korean_sell, execute_foreign_short, execute_foreign_cover,
  query_foreign_fill, query_korean_fill, flatten_extra_korean_long, flatten_extra_foreign_short,
}
use spot_spot_relay_arbitrag.Execution.OrderManager.Snapshot.{
  Holding, Reason, rollback_failed_after_guard, rollback_failed_after_rejection, excess_short_left,
  excess_long_left, legs_mismatched, unhedged_short, mismatched_open, mismatched_close,
}
use spot_spot_relay_arbitrag.Execution.OrderManager.Market.{Market, Legs}

-- How an attempt to open both legs ends.
pub data Opened {ℓ} (F : Type ℓ) : Type ℓ where
  -- Nothing was opened, or the short was rolled back.
  unopened : Opened F
  -- The quantities abroad and in Korea, the prices of the buy and of the short, and the profit of a correction.
  opened : (foreign_qty korean_qty buy_price short_price adjustment : F) → Opened F
  open_failed : Reason → Position F → Opened F

-- How the two legs of an exit end, once both orders are filled.
pub data Closed {ℓ} (F : Type ℓ) : Type ℓ where
  closed : (foreign_qty korean_qty split_pnl : F) → Closed F
  close_failed : Reason → Position F → Closed F

module _ {ℓ} {F : Type ℓ} ⦃d : Double F⦄ where
  -- The test after the correction.
  abbrev pub check_open : Position F → Holding F → F → F → F → F → F → Opened F
  check_open base h foreign_qty korean_qty buy_price short_price adjustment =
      if quantities_match foreign_qty korean_qty
      then opened foreign_qty korean_qty buy_price short_price adjustment
      else open_failed legs_mismatched (
          mismatched_open base h korean_qty foreign_qty buy_price short_price
            (d.add h.realized_pnl_krw adjustment))

  abbrev pub check_close : Position F → Holding F → F → F → F → F → F → Closed F
  check_close base h foreign_qty korean_qty avg_korean avg_foreign split_pnl =
      if quantities_match foreign_qty korean_qty
      then closed foreign_qty korean_qty split_pnl
      else close_failed legs_mismatched (
          mismatched_close base h korean_qty foreign_qty avg_korean avg_foreign
            (d.add h.realized_pnl_krw split_pnl))

module _ {ℓ} {F : Type ℓ} ⦃d : Double F⦄ ⦃v : Venues F⦄ where
  -- Fills that differ: the excess is covered or sold, and the legs are compared again.
  unfoldable pub level_open :
      Legs → Position F → Holding F → Market F → F → F → F → F → Action F (Opened F)
  level_open legs base h k foreign_qty korean_qty buy_price short_price =
      let left =
        mismatched_open base h korean_qty foreign_qty buy_price short_price h.realized_pnl_krw in
      if quantities_match foreign_qty korean_qty
      then pure (opened foreign_qty korean_qty buy_price short_price zero_f)
      else if d.lt korean_qty foreign_qty
      then (do
        (done, correction) ←
            flatten_extra_foreign_short legs.foreign_exchange legs.foreign_symbol
              (d.sub foreign_qty korean_qty)
        let qty = resolved_fill_quantity correction
        let price = resolved_fill_price correction k.foreign_ask
        pure (
            if done
            then check_open base h (d.sub foreign_qty qty) korean_qty buy_price short_price
                (d.add zero_f (d.mul (d.mul (d.sub short_price price) qty) k.usdt_rate))
            else open_failed excess_short_left left))
      else (do
        (done, correction) ←
            flatten_extra_korean_long legs.korean_exchange legs.symbol
              (d.sub korean_qty foreign_qty)
        let qty = resolved_fill_quantity correction
        let price = resolved_fill_price correction k.korean_bid
        pure (
            if done
            then check_open base h foreign_qty (d.sub korean_qty qty) buy_price short_price
                (d.add zero_f (d.mul (d.sub price buy_price) qty))
            else open_failed excess_long_left left))

  -- The short that has no Korean leg is covered again.
  unfoldable pub roll_back :
      Legs → Position F → Holding F → Market F → Reason → Order F → F → Action F (Opened F)
  roll_back legs base h k reason foreign_order filled = do
    rollback ← execute_foreign_cover legs.foreign_exchange legs.foreign_symbol filled
    pure (
        if is_filled rollback.status
        then unopened
        else open_failed reason (unhedged_short base h foreign_order filled k.foreign_bid))

  -- The Korean leg, once the short is filled and large enough.
  unfoldable pub buy_leg :
      Legs → Position F → Holding F → Market F → Order F → F → Action F (Opened F)
  buy_leg legs base h k short_order krw_amount = do
    foreign_order ← query_foreign_fill legs.foreign_exchange short_order
    bought ← execute_korean_buy legs.korean_exchange legs.symbol krw_amount
    korean_order ← query_korean_fill legs.korean_exchange legs.symbol bought
    if is_filled korean_order.status
        then level_open legs base h k (resolved_fill_quantity foreign_order)
            (resolved_fill_quantity korean_order) (resolved_fill_price korean_order k.korean_ask)
            (resolved_fill_price foreign_order k.foreign_bid)
        else roll_back legs base h k rollback_failed_after_rejection foreign_order
            (resolved_fill_quantity foreign_order)

  -- The short of `coin_amount` coins, then the purchase of what was sold short.
  unfoldable pub open_legs : Legs → Position F → Holding F → Market F → F → Action F (Opened F)
  open_legs legs base h k coin_amount = do
    short_order ← execute_foreign_short legs.foreign_exchange legs.foreign_symbol coin_amount
    let krw_amount = d.mul short_order.quantity k.korean_ask
    if not (is_filled short_order.status)
        then pure unopened
        else if d.lt krw_amount min_order_krw
        then roll_back legs base h k rollback_failed_after_guard short_order short_order.quantity
        else buy_leg legs base h k short_order krw_amount

  -- An exit of the entry loop whose fills differ: what was closed too little is closed.
  unfoldable pub level_close :
      Legs → Position F → Holding F → Market F → F → F → F → F → F → Action F (Closed F)
  level_close legs base h k foreign_qty korean_qty avg_korean avg_foreign split_pnl =
      let left =
        mismatched_close base h korean_qty foreign_qty avg_korean avg_foreign h.realized_pnl_krw in
      if quantities_match foreign_qty korean_qty
      then pure (closed foreign_qty korean_qty split_pnl)
      else if d.lt korean_qty foreign_qty
      then (do
        (done, correction) ←
            flatten_extra_korean_long legs.korean_exchange legs.symbol
              (d.sub foreign_qty korean_qty)
        let qty = resolved_fill_quantity correction
        let price = resolved_fill_price correction k.korean_bid
        pure (
            if done
            then check_close base h foreign_qty (d.add korean_qty qty) avg_korean avg_foreign
                (d.add split_pnl (d.mul (d.sub price avg_korean) qty))
            else close_failed excess_long_left left))
      else (do
        (done, correction) ←
            flatten_extra_foreign_short legs.foreign_exchange legs.foreign_symbol
              (d.sub korean_qty foreign_qty)
        let qty = resolved_fill_quantity correction
        let price = resolved_fill_price correction k.foreign_ask
        pure (
            if done
            then check_close base h (d.add foreign_qty qty) korean_qty avg_korean avg_foreign
                (d.add split_pnl (d.mul (d.mul (d.sub avg_foreign price) qty) k.usdt_rate))
            else close_failed excess_short_left left))

  -- The loop of retries: whether a sale was filled, and the last order, with its fill if it was.
  unfoldable pub retry_sell : ℕ → Legs → F → Order F → Action F (Bool × Order F)
  retry_sell zero legs covered last = pure (false, last)
  retry_sell (suc retries) legs covered last = do
    order ← execute_korean_sell legs.korean_exchange legs.symbol covered
    let again = retry_sell retries legs covered order
    if is_filled order.status
        then (do
          filled_order ← query_korean_fill legs.korean_exchange legs.symbol order
          pure (true, filled_order))
        else again
