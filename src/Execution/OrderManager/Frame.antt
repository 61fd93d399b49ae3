-- ===== src/Execution/OrderManager/Frame.antt =====
-- Orders and queries change nothing but the history of requests.
use spot_spot_relay_arbitrag.Prelude.{
  ℕ, zero, suc, ◌≡◌, refl, ◌∙◌, Bool, true, false, not, ◌&&◌, List, [], ◌∷◌, arith, Bool-cases, inl,
  inr,
}
use spot_spot_relay_arbitrag.Double.{Double}
use spot_spot_relay_arbitrag.Types.{Exchange}
use spot_spot_relay_arbitrag.Types.Symbol.{SymbolId}
use spot_spot_relay_arbitrag.Types.TradingConfig.{min_order_krw}
use spot_spot_relay_arbitrag.Types.Trade.{Position, Order, is_filled}
use spot_spot_relay_arbitrag.Execution.OrderManager.{
  Manager, Venues, Request, place_market_buy_cost, open_short, query_order_fill,
}
use spot_spot_relay_arbitrag.Execution.OrderManager.Orders.{
  execute_korean_buy, execute_korean_sell, execute_foreign_short, execute_foreign_cover,
  query_foreign_fill, query_korean_fill, flatten_extra_korean_long, flatten_extra_foreign_short,
}
use spot_spot_relay_arbitrag.Execution.OrderManager.Snapshot.{Holding, Reason}
use spot_spot_relay_arbitrag.Execution.OrderManager.Market.{Market, Legs}
use spot_spot_relay_arbitrag.Execution.OrderManager.Hedge.{
  level_open, roll_back, buy_leg, open_legs, level_close, retry_sell,
}

module _ {ℓ} {F : Type ℓ} ⦃d : Double F⦄ ⦃v : Venues F⦄ where
  -- The last order is a short that was filled; queries of fills may follow it.
  pub follows_short : List (Request F) → Bool
  follows_short (open_short ex s q ∷ rs) = is_filled (v.answer rs (open_short ex s q)).status
  follows_short (query_order_fill ex o ∷ rs) = follows_short rs
  follows_short _ = false

  -- A Korean purchase is large enough and follows a filled short.
  abbrev pub is_allowed : Request F → List (Request F) → Bool
  is_allowed (place_market_buy_cost ex s krw) rs = not (d.lt krw min_order_krw) && follows_short rs
  is_allowed _ rs = true

  abbrev pub is_disciplined : List (Request F) → Bool
  is_disciplined [] = true
  is_disciplined (r ∷ rs) = is_allowed r rs && is_disciplined rs

-- What `m'` has in common with `m`.
pub record Asks {ℓ} {F : Type ℓ} ⦃d : Double F⦄ ⦃v : Venues F⦄ (m m' : Manager F) : Type ℓ where
  pub same_running : m'.running ≡ m.running
  pub same_updates : m'.position_updates ≡ m.position_updates
  pub same_discipline : is_disciplined m'.requests ≡ is_disciplined m.requests

module _ {ℓ} {F : Type ℓ} ⦃d : Double F⦄ ⦃v : Venues F⦄ where
  pub Asks-refl : (m : Manager F) → Asks m m
  Asks-refl m = record { same_running = refl; same_updates = refl; same_discipline = refl }

  pub Asks-trans : {a b c : Manager F} → Asks a b → Asks b c → Asks a c
  Asks-trans x y = record {
    same_running = y.same_running ∙ x.same_running;
    same_updates = y.same_updates ∙ x.same_updates;
    same_discipline = y.same_discipline ∙ x.same_discipline;
  }

module _ {ℓ} {F : Type ℓ} ⦃d : Double F⦄ ⦃v : Venues F⦄ where
  execute_korean_buy-Asks :
      (ex : Exchange) (s : SymbolId) (q : F) (m : Manager F)
      → d.lt q min_order_krw ≡ false
      → follows_short m.requests ≡ true
      → Asks m (execute_korean_buy ex s q m).1
  unfolding execute_korean_buy
  execute_korean_buy-Asks ex s q m large short = ground (arith, large, short)

  query_foreign_fill-short :
      (ex : Exchange) (o : Order F) (m : Manager F)
      → follows_short m.requests ≡ true
      → follows_short (query_foreign_fill ex o m).1.requests ≡ true
  unfolding query_foreign_fill follows_short
  query_foreign_fill-short ex o m h = ground (arith, h)

  execute_foreign_short-short :
      (ex : Exchange) (s : SymbolId) (q : F) (m : Manager F)
      → is_filled (execute_foreign_short ex s q m).0.status ≡ true
      → follows_short (execute_foreign_short ex s q m).1.requests ≡ true
  unfolding execute_foreign_short follows_short
  execute_foreign_short-short ex s q m h = ground (arith, h)

  pub execute_korean_sell-Asks :
      (ex : Exchange) (s : SymbolId) (q : F) (m : Manager F)
      → Asks m (execute_korean_sell ex s q m).1
  unfolding execute_korean_sell
  execute_korean_sell-Asks ex s q m = ground arith

  execute_foreign_short-Asks :
      (ex : Exchange) (s : SymbolId) (q : F) (m : Manager F)
      → Asks m (execute_foreign_short ex s q m).1
  unfolding execute_foreign_short
  execute_foreign_short-Asks ex s q m = ground arith

  pub execute_foreign_cover-Asks :
      (ex : Exchange) (s : SymbolId) (q : F) (m : Manager F)
      → Asks m (execute_foreign_cover ex s q m).1
  unfolding execute_foreign_cover
  execute_foreign_cover-Asks ex s q m = ground arith

  pub query_foreign_fill-Asks :
      (ex : Exchange) (o : Order F) (m : Manager F) → Asks m (query_foreign_fill ex o m).1
  unfolding query_foreign_fill
  query_foreign_fill-Asks ex o m = ground arith

  pub query_korean_fill-Asks :
      (ex : Exchange) (s : SymbolId) (o : Order F) (m : Manager F)
      → Asks m (query_korean_fill ex s o m).1
  unfolding query_korean_fill
  query_korean_fill-Asks ex s o m = ground arith

  flatten_extra_korean_long-Asks :
      (ex : Exchange) (s : SymbolId) (q : F) (m : Manager F)
      → Asks m (flatten_extra_korean_long ex s q m).1
  unfolding flatten_extra_korean_long
  flatten_extra_korean_long-Asks ex s q m =
      let (o, m1) = execute_korean_sell ex s q m in
      ground (arith, execute_korean_sell-Asks ex s q m, query_korean_fill-Asks ex s o m1)

  flatten_extra_foreign_short-Asks :
      (ex : Exchange) (s : SymbolId) (q : F) (m : Manager F)
      → Asks m (flatten_extra_foreign_short ex s q m).1
  unfolding flatten_extra_foreign_short
  flatten_extra_foreign_short-Asks ex s q m =
      let (o, m1) = execute_foreign_cover ex s q m in
      ground (arith, execute_foreign_cover-Asks ex s q m, query_foreign_fill-Asks ex o m1)

  level_open-Asks :
      (legs : Legs) (base : Position F) (h : Holding F) (k : Market F) (fq kq bp sp : F)
      (m : Manager F)
      → Asks m (level_open legs base h k fq kq bp sp m).1
  unfolding level_open
  level_open-Asks legs base h k fq kq bp sp m = ground (
    arith,
    flatten_extra_foreign_short-Asks legs.foreign_exchange legs.foreign_symbol (d.sub fq kq) m,
    flatten_extra_korean_long-Asks legs.korean_exchange legs.symbol (d.sub kq fq) m,
  )

  pub level_close-Asks :
      (legs : Legs) (base : Position F) (h : Holding F) (k : Market F) (fq kq ak af pnl : F)
      (m : Manager F)
      → Asks m (level_close legs base h k fq kq ak af pnl m).1
  unfolding level_close
  level_close-Asks legs base h k fq kq ak af pnl m = ground (
    arith,
    flatten_extra_korean_long-Asks legs.korean_exchange legs.symbol (d.sub fq kq) m,
    flatten_extra_foreign_short-Asks legs.foreign_exchange legs.foreign_symbol (d.sub kq fq) m,
  )

  roll_back-Asks :
      (legs : Legs) (base : Position F) (h : Holding F) (k : Market F) (reason : Reason)
      (o : Order F) (q : F) (m : Manager F)
      → Asks m (roll_back legs base h k reason o q m).1
  unfolding roll_back
  roll_back-Asks legs base h k reason o q m =
      execute_foreign_cover-Asks legs.foreign_exchange legs.foreign_symbol q m

  buy_leg-Asks :
      (legs : Legs) (base : Position F) (h : Holding F) (k : Market F) (o : Order F) (krw : F)
      (m : Manager F)
      → d.lt krw min_order_krw ≡ false
      → follows_short m.requests ≡ true
      → Asks m (buy_leg legs base h k o krw m).1
  unfolding buy_leg
  buy_leg-Asks legs base h k o krw m large short =
      let (f, m1) = query_foreign_fill legs.foreign_exchange o m in
      let (b, m2) = execute_korean_buy legs.korean_exchange legs.symbol krw m1 in
      let (c, m3) = query_korean_fill legs.korean_exchange legs.symbol b m2 in
      Asks-trans (query_foreign_fill-Asks legs.foreign_exchange o m) (
        Asks-trans
          (execute_korean_buy-Asks legs.korean_exchange legs.symbol krw m1 large
            (query_foreign_fill-short legs.foreign_exchange o m short))
          (Asks-trans (query_korean_fill-Asks legs.korean_exchange legs.symbol b m2)
            (elim (Bool-cases (is_filled c.status)) [
              | inl t ↦ rw t (level_open-Asks legs base h k _ _ _ _ m3)
              | inr n ↦ rw n (roll_back-Asks legs base h k _ f _ m3)
            ])))

  pub open_legs-Asks :
      (legs : Legs) (base : Position F) (h : Holding F) (k : Market F) (q : F) (m : Manager F)
      → Asks m (open_legs legs base h k q m).1
  unfolding open_legs
  open_legs-Asks legs base h k q m =
      let fx : Exchange = legs.foreign_exchange in
      let (o, m1) = execute_foreign_short fx legs.foreign_symbol q m in
      Asks-trans (execute_foreign_short-Asks fx legs.foreign_symbol q m)
        (elim (Bool-cases (is_filled o.status)) [
          | inr n ↦ rw n (Asks-refl m1)
          | inl t ↦ rw t (elim (Bool-cases (d.lt (d.mul o.quantity k.korean_ask) min_order_krw)) [
            | inl small ↦ rw small (roll_back-Asks legs base h k _ o _ m1)
            | inr large ↦ rw large (
                buy_leg-Asks legs base h k o _ m1 large
                  (execute_foreign_short-short fx legs.foreign_symbol q m t))
          ])
        ])

  pub retry_sell-Asks :
      (n : ℕ) (legs : Legs) (q : F) (last : Order F) (m : Manager F)
      → Asks m (retry_sell n legs q last m).1
  unfolding retry_sell
  retry_sell-Asks zero legs q last m = Asks-refl m
  retry_sell-Asks (suc n) legs q last m =
      let (o, m1) = execute_korean_sell legs.korean_exchange legs.symbol q m in
      ground (
        arith,
        execute_korean_sell-Asks legs.korean_exchange legs.symbol q m,
        query_korean_fill-Asks legs.korean_exchange legs.symbol o m1,
        retry_sell-Asks n legs q o m1,
      )
