-- ===== src/Execution/OrderManager/Quiet.antt =====
-- What a retried sale of an exit leaves unsaid.
use spot_spot_relay_arbitrag.Prelude.{
  ℕ, zero, suc, ◌≡◌, refl, ◌⊎◌, Bool, true, false, Bool-cases, inl, inr, arith,
}
use spot_spot_relay_arbitrag.Double.{Double}
use spot_spot_relay_arbitrag.Types.Trade.{Order, is_filled}
use spot_spot_relay_arbitrag.Execution.OrderManager.{Manager, Venues}
use spot_spot_relay_arbitrag.Execution.OrderManager.Fill.{resolved_fill_quantity}
use spot_spot_relay_arbitrag.Execution.OrderManager.Orders.{execute_korean_sell}
use spot_spot_relay_arbitrag.Execution.OrderManager.Snapshot.{ExecutionResult, Holding}
use spot_spot_relay_arbitrag.Execution.OrderManager.Market.{Market, Legs}
use spot_spot_relay_arbitrag.Execution.OrderManager.Hedge.{retry_sell}
use spot_spot_relay_arbitrag.Execution.OrderManager.Entry.{
  EntryContext, EntryState, Step, go_on, return_with,
}
use spot_spot_relay_arbitrag.Execution.OrderManager.Entry.Split.{reduce, after_retry, sell_again}
use spot_spot_relay_arbitrag.Execution.OrderManager.Frame.{retry_sell-Asks}
use spot_spot_relay_arbitrag.Execution.OrderManager.Safety.{
  IsStopped, trigger_critical_stop-IsStopped,
}

module _ {ℓ} {F : Type ℓ} ⦃d : Double F⦄ ⦃v : Venues F⦄ where
  -- Retries that end with a filled order have sold: the first order was not filled.
  retry_sell-sold :
      (n : ℕ) (legs : Legs) (q : F) (last : Order F) (m : Manager F)
      → is_filled last.status ≡ false
      → ((retry_sell n legs q last m).0.0 ≡ true)
        ⊎ (is_filled (retry_sell n legs q last m).0.1.status ≡ false)
  unfolding retry_sell
  retry_sell-sold zero legs q last m h = inr h
  retry_sell-sold (suc n) legs q last m h =
      let (o, m1) = execute_korean_sell legs.korean_exchange legs.symbol q m in
      elim (Bool-cases (is_filled o.status)) [
        | inl t ↦ rw t (inl refl)
        | inr f ↦ rw f (retry_sell-sold n legs q o m1 f)
      ]

  after_retry-amount :
      (h : Holding F) (k : Market F) (covered price : F) (retried : Bool × Order F)
      → retried.0 ≡ true
      → (after_retry h k covered price retried).amount ≡ d.sub h.amount covered
  unfolding reduce
  after_retry-amount h k covered price (true, o) e = refl
  after_retry-amount h k covered price (false, o) e = absurd (ground (arith, e))

  -- If the loop goes on, the coins of the cover are no longer held, and the position file was told nothing.
  abbrev pub IsQuiet :
      F → EntryState F → Manager F → Step (EntryState F) (ExecutionResult F) × Manager F → Type ℓ
  IsQuiet covered s m (go_on s', m') =
      (s'.holding.amount ≡ d.sub s.holding.amount covered)
      × (m'.position_updates ≡ m.position_updates)
  IsQuiet covered s m (return_with result, m') = IsStopped result m'

  -- In the entry loop, let the sale after a cover not be filled. Either the loop goes on with the coins of the cover
  -- taken off what is held, although the position file gets no update, or the bot is stopped.
  pub sell_again-IsQuiet :
      (c : EntryContext F) (s : EntryState F) (k : Market F) (f o : Order F) (m : Manager F)
      → is_filled o.status ≡ false
      → IsQuiet (resolved_fill_quantity f) s m (sell_again c s k f o m)
  unfolding sell_again
  sell_again-IsQuiet c s k f o m unfilled =
      let covered : F = resolved_fill_quantity f in
      let asks = retry_sell-Asks 5 c.legs covered o m in
      elim (Bool-cases (is_filled (retry_sell 5 c.legs covered o m).0.1.status)) [
        | inl t ↦ rw t (
          (elim (retry_sell-sold 5 c.legs covered o m unfilled) [
            | inl sold ↦ after_retry-amount s.holding k covered _ _ sold
            | inr unsold ↦ absurd (ground (arith, t, unsold))
          ]),
          asks.same_updates,
        )
        | inr n ↦ rw n (trigger_critical_stop-IsStopped _ _ _ (retry_sell 5 c.legs covered o m).1)
      ]
