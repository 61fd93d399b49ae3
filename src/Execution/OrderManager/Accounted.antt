-- ===== src/Execution/OrderManager/Accounted.antt =====
-- What the two legs of a split come to, as the orders and their fills say.
pub mod Opening
use spot_spot_relay_arbitrag.Prelude.{
  ◌≡◌, refl, ◌⊎◌, true, false, ◌∷◌, Bool-cases, inl, inr, if_elim,
}
use spot_spot_relay_arbitrag.Double.{Double, max_f, zero_f}
use spot_spot_relay_arbitrag.Types.TradingConfig.{min_order_krw}
use spot_spot_relay_arbitrag.Types.Trade.{Position, Order, is_filled}
use spot_spot_relay_arbitrag.Execution.OrderManager.{
  Manager, Venues, Request, open_short, close_short, has_foreign_exchange,
}
use spot_spot_relay_arbitrag.Execution.OrderManager.Action.{Action}
use spot_spot_relay_arbitrag.Execution.OrderManager.Fill.{quantities_match, resolved_fill_quantity}
use spot_spot_relay_arbitrag.Execution.OrderManager.Orders.{
  execute_foreign_short, execute_foreign_cover, execute_korean_buy, query_foreign_fill,
  query_korean_fill, flatten_extra_korean_long, flatten_extra_foreign_short,
}
use spot_spot_relay_arbitrag.Execution.OrderManager.Snapshot.{
  Holding, Reason, unhedged_short, mismatched_open,
}
use spot_spot_relay_arbitrag.Execution.OrderManager.Market.{Market, Legs}
use spot_spot_relay_arbitrag.Execution.OrderManager.Hedge.{
  Opened, unopened, opened, open_failed, Closed, closed, close_failed, level_open, roll_back,
  buy_leg, open_legs,
}

module _ {ℓ} {F : Type ℓ} ⦃d : Double F⦄ ⦃v : Venues F⦄ (legs : Legs) where
  -- The fill of the cover, or of the sale, that corrects an excess of `excess` coins.
  abbrev pub extra_cover : F → Manager F → F
  extra_cover excess m =
      resolved_fill_quantity
        (flatten_extra_foreign_short legs.foreign_exchange legs.foreign_symbol excess m).0.1

  abbrev pub extra_sale : F → Manager F → F
  extra_sale excess m =
      resolved_fill_quantity
        (flatten_extra_korean_long legs.korean_exchange legs.symbol excess m).0.1

module _ {ℓ} {F : Type ℓ} ⦃d : Double F⦄ ⦃v : Venues F⦄ (legs : Legs) (fq kq : F)
    (m : Manager F) where
  -- What of a short of `fq` and of a purchase of `kq` coins is open: all, or less the fill of one correction.
  pub data IsNetOpen : F → F → Type ℓ where
    all_open : IsNetOpen fq kq
    less_cover : IsNetOpen (d.sub fq (extra_cover legs (d.sub fq kq) m)) kq
    less_sale : IsNetOpen fq (d.sub kq (extra_sale legs (d.sub kq fq) m))

  -- What is closed by a cover of `fq` and a sale of `kq` coins: these, and the fill of one correction.
  pub data IsNetClosed : F → F → Type ℓ where
    no_more : IsNetClosed fq kq
    more_sold : IsNetClosed fq (d.add kq (extra_sale legs (d.sub fq kq) m))
    more_covered : IsNetClosed (d.add fq (extra_cover legs (d.sub kq fq) m)) kq

  -- Legs that count as opened match; a failure reports what is held with what is open of the legs.
  abbrev pub IsLevelOpen : Holding F → Opened F → Type ℓ
  IsLevelOpen h unopened = F × ⊥
  IsLevelOpen h (opened f k bp sp adj) = (quantities_match f k ≡ true) × IsNetOpen f k
  IsLevelOpen h (open_failed reason p) =
      (f k : F) × (IsNetOpen f k
        × ((p.foreign_amount ≡ d.add h.amount f) × (p.korean_amount ≡ d.add h.amount k)))

  -- Legs that count as closed match; a failure reports what is held without what is closed of the legs.
  abbrev pub IsLevelClose : Holding F → Closed F → Type ℓ
  IsLevelClose h (closed f k pnl) = (quantities_match f k ≡ true) × IsNetClosed f k
  IsLevelClose h (close_failed reason p) =
      (f k : F) × (IsNetClosed f k
        × ((p.foreign_amount ≡ max_f zero_f (d.sub h.amount f))
            × (p.korean_amount ≡ max_f zero_f (d.sub h.amount k))))

module _ {ℓ} {F : Type ℓ} ⦃d : Double F⦄ ⦃v : Venues F⦄ (legs : Legs) (base : Position F)
    (h : Holding F) (k : Market F) where
  pub level_open-IsLevelOpen :
      (fq kq bp sp : F) (m : Manager F)
      → IsLevelOpen legs fq kq m h (level_open legs base h k fq kq bp sp m).0
  unfolding level_open mismatched_open
  level_open-IsLevelOpen fq kq bp sp m = elim (Bool-cases (quantities_match fq kq)) [
    | inl t ↦ rw t (t, all_open)
    | inr n ↦ rw n (elim (Bool-cases (d.lt kq fq)) [
      | inl more ↦
          rw more
            (elim (Bool-cases
              (flatten_extra_foreign_short legs.foreign_exchange legs.foreign_symbol (d.sub fq kq)
                m).0.0) [
                  | inr failed ↦ rw failed (fq, kq, (all_open, (refl, refl)))
                  | inl done ↦
                      rw done
                        (elim (Bool-cases
                          (quantities_match (d.sub fq (extra_cover legs (d.sub fq kq) m)) kq)) [
                            | inl same ↦ rw same (same, less_cover)
                            | inr differ ↦ rw differ (_, _, (less_cover, (refl, refl)))
                          ])
                ])
      | inr less ↦
          rw less
            (elim (Bool-cases
              (flatten_extra_korean_long legs.korean_exchange legs.symbol (d.sub kq fq) m).0.0) [
                | inr failed ↦ rw failed (fq, kq, (all_open, (refl, refl)))
                | inl done ↦
                    rw done
                      (elim (Bool-cases
                        (quantities_match fq (d.sub kq (extra_sale legs (d.sub kq fq) m)))) [
                          | inl same ↦ rw same (same, less_sale)
                          | inr differ ↦ rw differ (_, _, (less_sale, (refl, refl)))
                        ])
              ])
    ])
  ]
