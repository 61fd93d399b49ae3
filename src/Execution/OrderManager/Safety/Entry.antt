-- ===== src/Execution/OrderManager/Safety/Entry.antt =====
-- The rounds of `execute_spot_relay_entry`.
use spot_spot_relay_arbitrag.Prelude.{
  ◌≡◌, refl, Bool, true, false, not, List, [], ◌∷◌, Option, none, some, ◌⊎◌, All, arith, Bool-cases,
  inl, inr, if◌then◌else◌, if_elim, if_elim,
}
use spot_spot_relay_arbitrag.Double.{Double, zero_f}
use spot_spot_relay_arbitrag.Types.Trade.{Position, Order, is_filled}
use spot_spot_relay_arbitrag.Execution.OrderManager.{Manager, Venues}
use spot_spot_relay_arbitrag.Execution.OrderManager.Action.{Action}
use spot_spot_relay_arbitrag.Execution.OrderManager.Snapshot.{
  ExecutionResult, Holding, hedged, persist_snapshot, stopped, entry, exit,
}
use spot_spot_relay_arbitrag.Execution.OrderManager.Market.{
  Market, Round, begin_round, entry_market,
}
use spot_spot_relay_arbitrag.Execution.OrderManager.Fill.{resolved_fill_quantity}
use spot_spot_relay_arbitrag.Execution.OrderManager.Orders.{
  execute_korean_sell, execute_foreign_cover, query_foreign_fill, query_korean_fill,
}
use spot_spot_relay_arbitrag.Execution.OrderManager.Hedge.{
  Opened, unopened, opened, open_failed, Closed, closed, close_failed, retry_sell,
}
use spot_spot_relay_arbitrag.Execution.OrderManager.Entry.{
  EntryContext, EntryState, Step, go_on, return_with, after_round, base_position, entry_result,
  after_open, entry_split, next_order_coin_amount, may_enter,
}
use spot_spot_relay_arbitrag.Execution.OrderManager.Entry.Split.{
  after_close, after_level, sell_again, close_legs, exit_split, exit_coin_amount,
}
use spot_spot_relay_arbitrag.Execution.OrderManager.Entry.Loop.{
  may_exit, entry_round, entry_shutdown, entry_loop,
}
use spot_spot_relay_arbitrag.Execution.OrderManager.Frame.{
  is_disciplined, open_legs-Asks, level_close-Asks, retry_sell-Asks, execute_foreign_cover-Asks,
  execute_korean_sell-Asks, query_foreign_fill-Asks, query_korean_fill-Asks,
}
use spot_spot_relay_arbitrag.Execution.OrderManager.Safety.{
  IsBalanced, IsLive, IsStopped, IsSafe, stop-IsSafe, Asks-IsLive, notify-IsLive, if_IsSafe,
  begin_round-kept,
}

module _ {ℓ} {F : Type ℓ} ⦃d : Double F⦄ where
  hedged-IsBalanced :
      (base : Position F) (h : Holding F) (premium : F) (keep : Bool)
      → IsBalanced (if keep then some (hedged base h premium) else none)
  unfolding hedged
  hedged-IsBalanced base h premium true = refl
  hedged-IsBalanced base h premium false = tt

module _ {ℓ} {F : Type ℓ} ⦃d : Double F⦄ ⦃v : Venues F⦄ (c : EntryContext F) (k : Market F) where
  after_open-IsSafe :
      (s : EntryState F) (o : Opened F) (m : Manager F) → IsLive m → IsSafe (after_open c s k o m)
  unfolding after_open persist_snapshot hedged
  after_open-IsSafe s unopened m live = live
  after_open-IsSafe s (opened fq kq bp sp adj) m live =
      notify-IsLive _ _ refl (record {
        running = live.running;
        balanced = live.balanced;
        disciplined = live.disciplined;
      })
  after_open-IsSafe s (open_failed reason p) m live =
      stop-IsSafe (stopped entry reason) p (entry_result c s) m live

  entry_split-IsSafe : (s : EntryState F) (m : Manager F) → IsLive m → IsSafe (entry_split c s k m)
  unfolding entry_split
  entry_split-IsSafe s m live = after_open-IsSafe s _ _ (
      Asks-IsLive
        (open_legs-Asks c.legs (base_position c s) s.holding k
          (next_order_coin_amount c s.holding k) m)
        live)

  after_close-IsSafe :
      (s : EntryState F) (r : Round F) (h : Holding F) (m : Manager F)
      → IsLive m
      → IsSafe (after_close c s k r h m)
  unfolding after_close
  after_close-IsSafe s r h m live =
      let told = notify-IsLive _ m (hedged-IsBalanced _ h _ (d.lt zero_f h.amount)) live in
      elim (Bool-cases (d.le h.amount zero_f)) [
        | inl t ↦ rw t (record {
          running = told.running;
          balanced = told.balanced;
          disciplined = told.disciplined;
        })
        | inr n ↦ rw n told
      ]

  after_level-IsSafe :
      (s : EntryState F) (r : Round F) (o : Closed F) (m : Manager F)
      → IsLive m
      → IsSafe (after_level c s k r o m)
  unfolding after_level
  after_level-IsSafe s r (closed fq kq pnl) m live = after_close-IsSafe s r _ m live
  after_level-IsSafe s r (close_failed reason p) m live =
      stop-IsSafe (stopped exit reason) p (entry_result c s) m live

  sell_again-IsSafe :
      (s : EntryState F) (f o : Order F) (m : Manager F)
      → IsLive m
      → IsSafe (sell_again c s k f o m)
  unfolding sell_again
  sell_again-IsSafe s f o m live =
      let covered = resolved_fill_quantity f in
      let retried = retry_sell 5 c.legs covered o m in
      let still : IsLive retried.1 = Asks-IsLive (retry_sell-Asks 5 c.legs covered o m) live in
      if_IsSafe (is_filled retried.0.1.status) _ _ retried.1 still (stop-IsSafe _ _ _ _ still)

  close_legs-IsSafe :
      (s : EntryState F) (r : Round F) (o : Order F) (m : Manager F)
      → IsLive m
      → IsSafe (close_legs c s k r o m)
  unfolding close_legs
  close_legs-IsSafe s r o m live =
      let (f, m1) = query_foreign_fill c.legs.foreign_exchange o m in
      let (b, m2) = execute_korean_sell c.legs.korean_exchange c.legs.symbol o.quantity m1 in
      let (g, m3) = query_korean_fill c.legs.korean_exchange c.legs.symbol b m2 in
      let live3 : IsLive m3 =
        Asks-IsLive (query_korean_fill-Asks c.legs.korean_exchange c.legs.symbol b m2) (
          Asks-IsLive (execute_korean_sell-Asks c.legs.korean_exchange c.legs.symbol o.quantity m1)
            (Asks-IsLive (query_foreign_fill-Asks c.legs.foreign_exchange o m) live)) in
      elim (Bool-cases (is_filled g.status)) [
        | inl t ↦ rw t (
            after_level-IsSafe s r _ _
              (Asks-IsLive (level_close-Asks c.legs _ s.holding k _ _ _ _ _ m3) live3))
        | inr n ↦ rw n (sell_again-IsSafe s f g m3 live3)
      ]

  exit_split-IsSafe :
      (s : EntryState F) (r : Round F) (m : Manager F) → IsLive m → IsSafe (exit_split c s k r m)
  unfolding exit_split
  exit_split-IsSafe s r m live =
      let amount = exit_coin_amount s.holding.amount k.foreign_ask in
      let (o, m1) = execute_foreign_cover c.legs.foreign_exchange c.legs.foreign_symbol amount m in
      let live1 : IsLive m1 =
        Asks-IsLive
          (execute_foreign_cover-Asks c.legs.foreign_exchange c.legs.foreign_symbol amount m)
          live in
      elim (Bool-cases (is_filled o.status)) [
        | inl t ↦ rw t (close_legs-IsSafe s r o m1 live1)
        | inr n ↦ rw n live1
      ]

  -- A round of the entry from a live manager leaves it live, or stops it.
  pub entry_round-IsSafe :
      (s : EntryState F) (r : Round F) (m : Manager F) → IsLive m → IsSafe (entry_round c s k r m)
  unfolding entry_round
  entry_round-IsSafe s r m live =
      let s' : EntryState F = record s { last_usdt_rate = k.usdt_rate } in
      if_IsSafe (not k.quote_pair_ok) _ _ m live (
        if_IsSafe (may_enter c s.holding k) _ _ m (entry_split-IsSafe s' m live)
          (if_IsSafe (may_exit c s.holding k) _ _ m (exit_split-IsSafe s' r m live) live))

module _ {ℓ} {F : Type ℓ} ⦃d : Double F⦄ ⦃v : Venues F⦄ where
  -- What the entry leaves: a stop, or a shutdown that has reported balanced positions only, and returns one.
  abbrev pub IsEntryEnd : Option (ExecutionResult F) × Manager F → Type ℓ
  IsEntryEnd (none, m) = IsLive m
  IsEntryEnd (some result, m) =
      (is_disciplined m.requests ≡ true)
      × (IsStopped result m
          ⊎ ((m.running ≡ false)
              × All IsBalanced m.position_updates
              × IsBalanced (some result.position)))

module _ {ℓ} {F : Type ℓ} ⦃d : Double F⦄ ⦃v : Venues F⦄ (c : EntryContext F) where
  entry_shutdown-IsBalanced : (s : EntryState F) → IsBalanced (some (entry_shutdown c s).position)
  unfolding entry_shutdown hedged entry_result base_position
  entry_shutdown-IsBalanced s = ground arith

  after_round-IsEntryEnd :
      (rest : EntryState F → Action F (Option (ExecutionResult F)))
      (out : Step (EntryState F) (ExecutionResult F) × Manager F)
      → ((s : EntryState F) (m : Manager F) → IsLive m → IsEntryEnd (rest s m))
      → IsSafe out
      → IsEntryEnd (after_round rest out)
  after_round-IsEntryEnd rest (go_on s, m) next safe = next s m safe
  after_round-IsEntryEnd rest (return_with result, m) next safe = (safe.1, inl safe.0)

  pub entry_loop-IsEntryEnd :
      (rounds : List (Round F)) (s : EntryState F) (m : Manager F)
      → IsLive m
      → IsEntryEnd (entry_loop c rounds s m)
  unfolding entry_loop
  entry_loop-IsEntryEnd [] s m live = live
  entry_loop-IsEntryEnd (r ∷ rounds) s m live =
      let m1 : Manager F = begin_round r m in
      let k : Market F = entry_market c.signal c.legs s.holding.amount r.now_ms m1.engine in
      let (balanced, disciplined) = begin_round-kept r m live in
      if_elim IsEntryEnd m1.running _ _
        (λ t.
          after_round-IsEntryEnd (entry_loop c rounds) (entry_round c s k r m1)
            (entry_loop-IsEntryEnd rounds)
            (entry_round-IsSafe c k s r m1
              (record { running = t; balanced = balanced; disciplined = disciplined })))
        (λ n. (disciplined, inr (n, balanced, entry_shutdown-IsBalanced s)))
