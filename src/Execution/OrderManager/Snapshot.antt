-- ===== src/Execution/OrderManager/Snapshot.antt =====
-- kimp_arb_cpp/src/execution/order_manager.cpp: the lambdas `persist_snapshot` and `trigger_critical_stop`, which
-- the entry and the exit declare alike, and the positions that they are called with. The text of an error is a value
-- of `Message`.
use spot_spot_relay_arbitrag.Prelude.{
  Bool, true, false, ◌||◌, ◌∷◌, Option, none, some, if◌then◌else◌,
}
use spot_spot_relay_arbitrag.Double.{Double, zero_f, max_f}
use spot_spot_relay_arbitrag.Types.Trade.{Position, Order, no_position}
use spot_spot_relay_arbitrag.Strategy.PositionTracker.{open_position, close_position}
use spot_spot_relay_arbitrag.Strategy.Engine.{Engine, set_entry_suppressed}
use spot_spot_relay_arbitrag.Execution.OrderManager.{Manager}
use spot_spot_relay_arbitrag.Execution.OrderManager.Action.{Action}

-- The part of the code that stops the bot: "[RELAY-ENTRY]", "[ADAPTIVE-REENTRY]" or an exit.
pub data Phase : Type 0 where
  entry reentry exit : Phase

-- Why it stops it.
pub data Reason : Type 0 where
  rollback_failed_after_guard rollback_failed_after_rejection : Reason
  excess_short_left excess_long_left legs_mismatched sell_failed : Reason

pub data Message : Type 0 where
  no_message exchange_not_available existing_position initial_mismatched : Message
  position_mismatched : Message
  stopped : Phase → Reason → Message

pub record ExecutionResult {ℓ} (F : Type ℓ) : Type ℓ where
  pub success : Bool
  pub position_managed : Bool
  pub position : Position F
  pub error_message : Message
  pub korean_filled_amount : F
  pub foreign_filled_amount : F

-- What a position holds: its coins, what they cost in KRW, what was sold short in USD, and the profit so far. The
-- loops have these as variables.
pub record Holding {ℓ} (F : Type ℓ) : Type ℓ where
  pub amount : F
  pub korean_cost : F
  pub foreign_value : F
  pub realized_pnl_krw : F

module _ {ℓ} {F : Type ℓ} where
  -- The part on the engine: the position closes, and opens again while it is active.
  abbrev pub replace_position : Position F → Engine F → Engine F
  replace_position snap e =
      let closed = (close_position snap.symbol e.tracker).0 in
      record e { tracker = if snap.is_active then (open_position snap closed).0 else closed }

  abbrev pub on_engine : (Engine F → Engine F) → Manager F → Manager F
  on_engine f m = record m { engine = elim m.engine [ none ↦ none | some e ↦ some (f e) ] }

  -- `on_position_update_`, if it is set; `none` is the null pointer.
  abbrev pub notify : Option (Position F) → Manager F → Manager F
  notify update m = record m {
    position_updates =
        if m.has_update_callback then update ∷ m.position_updates else m.position_updates;
  }

  unfoldable pub persist_snapshot : Position F → Manager F → Manager F
  persist_snapshot snap m =
      notify (if snap.is_active then some snap else none) (on_engine (replace_position snap) m)

  unfoldable pub trigger_critical_stop :
      Message → Position F → ExecutionResult F → Action F (ExecutionResult F)
  trigger_critical_stop reason snap result m = (
    record result {
      position = snap;
      success = false;
      position_managed = true;
      error_message = reason;
    },
    persist_snapshot snap (on_engine (set_entry_suppressed true) (record m { running = false })),
  )

module _ {ℓ} {F : Type ℓ} ⦃d : Double F⦄ where
  abbrev pub no_result : ExecutionResult F
  no_result = record {
    success = false;
    position_managed = false;
    position = no_position;
    error_message = no_message;
    korean_filled_amount = zero_f;
    foreign_filled_amount = zero_f;
  }

  -- `amount > 0 ? total / amount : 0.0`.
  abbrev pub average : F → F → F
  average total amount = if d.lt zero_f amount then d.div total amount else zero_f

  -- The amounts and prices of a position, which is active if either amount is positive.
  abbrev pub with_amounts : Position F → F → F → F → F → F → Position F
  with_amounts base korean_amount foreign_amount korean_price foreign_price realized = record base {
    korean_amount = korean_amount;
    foreign_amount = foreign_amount;
    korean_entry_price = korean_price;
    foreign_entry_price = foreign_price;
    realized_pnl_krw = realized;
    is_active = d.lt zero_f korean_amount || d.lt zero_f foreign_amount;
  }

  -- `mismatch` where a short of `filled` coins has no Korean leg and could not be rolled back.
  unfoldable pub unhedged_short : Position F → Holding F → Order F → F → F → Position F
  unhedged_short base h foreign_order filled foreign_bid =
      let short_price =
        if d.lt zero_f foreign_order.average_price
        then foreign_order.average_price
        else foreign_bid in
      let foreign_amount = d.add h.amount filled in
      let foreign_value = d.add h.foreign_value (d.mul filled short_price) in
      with_amounts base h.amount foreign_amount (average h.korean_cost h.amount)
        (average foreign_value foreign_amount) h.realized_pnl_krw

  -- `mismatch` where the legs that were opened differ.
  unfoldable pub mismatched_open : Position F → Holding F → F → F → F → F → F → Position F
  mismatched_open base h korean_qty foreign_qty buy_price short_price realized =
      let korean_amount = d.add h.amount korean_qty in
      let foreign_amount = d.add h.amount foreign_qty in
      with_amounts base korean_amount foreign_amount
        (average (d.add h.korean_cost (d.mul korean_qty buy_price)) korean_amount)
        (average (d.add h.foreign_value (d.mul foreign_qty short_price)) foreign_amount) realized

  -- `mismatch` where the legs that were closed differ.
  unfoldable pub mismatched_close : Position F → Holding F → F → F → F → F → F → Position F
  mismatched_close base h korean_qty foreign_qty avg_korean avg_foreign realized =
      with_amounts base (max_f zero_f (d.sub h.amount korean_qty))
        (max_f zero_f (d.sub h.amount foreign_qty)) avg_korean avg_foreign realized

  -- `mismatch` where the short is covered and the coins could not be sold.
  unfoldable pub unsold : Position F → Holding F → F → Position F
  unsold base h covered =
      with_amounts base h.amount (max_f zero_f (d.sub h.amount covered))
        (average h.korean_cost h.amount) (average h.foreign_value h.amount) h.realized_pnl_krw

  -- The snapshot of a hedged position.
  unfoldable pub hedged : Position F → Holding F → F → Position F
  hedged base h entry_premium = record base {
    entry_premium = entry_premium;
    korean_amount = h.amount;
    foreign_amount = h.amount;
    korean_entry_price = average h.korean_cost h.amount;
    foreign_entry_price = average h.foreign_value h.amount;
    realized_pnl_krw = h.realized_pnl_krw;
    is_active = true;
  }
