-- ===== src/Execution/OrderManager/Accounted/Opening.antt =====
-- What an attempt to open both legs of a split comes to.
use spot_spot_relay_arbitrag.Prelude.{◌≡◌, ◌⊎◌, true, false, ◌∷◌}
use spot_spot_relay_arbitrag.Double.{Double}
use spot_spot_relay_arbitrag.Types.TradingConfig.{min_order_krw}
use spot_spot_relay_arbitrag.Types.Trade.{Position, Order, is_filled}
use spot_spot_relay_arbitrag.Execution.OrderManager.{Manager, Venues, open_short, close_short}
use spot_spot_relay_arbitrag.Execution.OrderManager.Action.{Action}
use spot_spot_relay_arbitrag.Execution.OrderManager.Fill.{resolved_fill_quantity}
use spot_spot_relay_arbitrag.Execution.OrderManager.Orders.{
  execute_korean_buy, query_foreign_fill, query_korean_fill,
}
use spot_spot_relay_arbitrag.Execution.OrderManager.Snapshot.{Holding}
use spot_spot_relay_arbitrag.Execution.OrderManager.Market.{Market, Legs}
use spot_spot_relay_arbitrag.Execution.OrderManager.Hedge.{Opened, unopened, opened, open_failed}
use spot_spot_relay_arbitrag.Execution.OrderManager.Accounted.{IsLevelOpen}

module _ {ℓ} {F : Type ℓ} ⦃d : Double F⦄ ⦃v : Venues F⦄ (legs : Legs) (h : Holding F)
    (k : Market F) where
  -- The newest request is a cover of `x` coins, and it was filled.
  abbrev pub Covered : F → Manager F → Manager F → Type ℓ
  Covered x before after =
      let cover = close_short legs.foreign_exchange legs.foreign_symbol x in
      (after.requests ≡ cover ∷ before.requests)
      × (is_filled (v.answer before.requests cover).status ≡ true)

  -- A position that reports a short of `x` coins without a Korean leg, beside what is held.
  abbrev pub Unhedged : F → Position F → Type ℓ
  Unhedged x p = (p.foreign_amount ≡ d.add h.amount x) × (p.korean_amount ≡ h.amount)

  -- A short of `x` coins is covered, or reported.
  abbrev pub IsRolledBack : F → Manager F → Opened F × Manager F → Type ℓ
  IsRolledBack x m (unopened, after) = Covered x m after
  IsRolledBack x m (opened fq kq bp sp adj, after) = F × ⊥
  IsRolledBack x m (open_failed reason p, after) = Unhedged x p

  -- What follows a short that was filled: `o` is its answer, and `m` the manager after it.
  abbrev pub IsHedge : Order F → Manager F → Opened F × Manager F → Type ℓ
  IsHedge o m out =
      let fx = legs.foreign_exchange in
      let (f, m1) = query_foreign_fill fx o m in
      let (b, m2) =
        execute_korean_buy legs.korean_exchange legs.symbol (d.mul o.quantity k.korean_ask) m1 in
      let (c, m3) = query_korean_fill legs.korean_exchange legs.symbol b m2 in
      let fq = resolved_fill_quantity f in
      (IsRolledBack o.quantity m out × (d.lt (d.mul o.quantity k.korean_ask) min_order_krw ≡ true))
      ⊎ ((d.lt (d.mul o.quantity k.korean_ask) min_order_krw ≡ false)
          × ((IsRolledBack fq m3 out × (is_filled c.status ≡ false))
              ⊎ (IsLevelOpen legs fq (resolved_fill_quantity c) m3 h out.0
                  × (is_filled c.status ≡ true))))

  -- The answer to a short of `q` coins.
  abbrev pub short_of : F → Manager F → Order F
  short_of q m = v.answer m.requests (open_short legs.foreign_exchange legs.foreign_symbol q)

  -- The manager after it.
  abbrev pub after_short : F → Manager F → Manager F
  after_short q m = record m {
    requests = open_short legs.foreign_exchange legs.foreign_symbol q ∷ m.requests;
  }

  abbrev pub IsAccounted : F → Manager F → Opened F × Manager F → Type ℓ
  IsAccounted q m out =
      ((is_filled (short_of q m).status ≡ false) × (out ≡ (unopened, after_short q m)))
      ⊎ ((is_filled (short_of q m).status ≡ true) × IsHedge (short_of q m) (after_short q m) out)
