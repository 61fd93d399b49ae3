-- ===== src/Strategy/Premium/Gate.antt =====
-- What the entry gate says of the market data that passed it.
use spot_spot_relay_arbitrag.Prelude.{◌≡◌, Bool, true, false, arith, Bool-cases, inl, inr, &&_parts}
use spot_spot_relay_arbitrag.Double.{Double, zero_f, min_f}
use spot_spot_relay_arbitrag.Double.Laws.{◌≼◌, ◌≺◌, IsNumber, IsIeee, lt_of_lt_of_le, le_of_lt}
use spot_spot_relay_arbitrag.Types.TradingConfig.{
  entry_gate_passes, target_entry_usdt, min_entry_net_profit_krw, korean_fee_events,
  foreign_fee_events,
}
use spot_spot_relay_arbitrag.Strategy.Premium.{
  RelayMetrics, RelayInput, relay_metrics_of, calculate_relay_metrics,
}

module _ {ℓ} {F : Type ℓ} ⦃d : Double F⦄ where
  -- The gate as `update_symbol_entry` calls it.
  abbrev pub qualifies : RelayMetrics F → Bool
  qualifies m = entry_gate_passes m.both_can_fill_target m.match_qty m.net_edge_pct m.net_profit_krw

  -- Every price, quantity and rate is a number greater than zero.
  pub record IsPositiveInput (i : RelayInput F) : Type 0 where
    pub korean_ask : zero_f ≺ i.korean_ask
    pub korean_ask_qty : zero_f ≺ i.korean_ask_qty
    pub foreign_bid : zero_f ≺ i.foreign_bid
    pub foreign_bid_qty : zero_f ≺ i.foreign_bid_qty
    pub usdt_krw_rate : zero_f ≺ i.usdt_krw_rate

  pub guard_passed :
      (i : RelayInput F)
      → qualifies (calculate_relay_metrics i) ≡ true
      → (d.le i.korean_ask zero_f ≡ false)
        × (d.le i.korean_ask_qty zero_f ≡ false)
        × (d.le i.foreign_bid zero_f ≡ false)
        × (d.le i.foreign_bid_qty zero_f ≡ false)
        × (d.le i.usdt_krw_rate zero_f ≡ false)
        × (calculate_relay_metrics i ≡ relay_metrics_of i)
  unfolding calculate_relay_metrics entry_gate_passes
  guard_passed i h = ground arith

  gate_parts :
      (m : RelayMetrics F)
      → qualifies m ≡ true
      → (m.both_can_fill_target ≡ true) × (min_entry_net_profit_krw ≼ m.net_profit_krw)
  unfolding entry_gate_passes
  gate_parts m h = ground arith

module _ {ℓ} {F : Type ℓ} ⦃d : Double F⦄ (laws : IsIeee F) where
  open laws use {
    number_of_le, number_of_lt, le_trans, lt-eq-not-le, dec_le, dec_lt, number_of_mul,
    number_of_div, number_of_sub, number_of_add, mul_nonneg, div_nonneg, add_nonneg, sub-le,
    lt_of_sub_pos,
  }

  zero_number : IsNumber {F = F} zero_f
  zero_number = dec_le 0 0 0 0 (omega arith)

  positive : (x : F) → IsNumber x → d.le x zero_f ≡ false → zero_f ≺ x
  positive x n h = ground (arith, lt-eq-not-le zero_f x zero_number n)

  -- A notional that reaches the target has number factors.
  notional_numbers : (x y : F) → target_entry_usdt ≼ d.mul x y → IsNumber x × IsNumber y
  notional_numbers x y h = number_of_mul x y (number_of_le _ _ h).1

  -- If the gate passes on the metrics of the market data, then every price, quantity and rate in them is a
  -- number greater than zero: neither an empty book nor a NaN qualifies for an entry.
  gate_passes-IsPositiveInput :
      (i : RelayInput F) → qualifies (calculate_relay_metrics i) ≡ true → IsPositiveInput i
  unfolding relay_metrics_of
  gate_passes-IsPositiveInput i h =
      let (a, aq, b, bq, r, e) = guard_passed i h in
      let both : (relay_metrics_of i).both_can_fill_target ≡ true =
        (gate_parts (relay_metrics_of i) (rw e at h)).0 in
      let (kr, fr) = &&_parts _ _ both in
      let (top, rate) =
        number_of_div (d.mul i.korean_ask i.korean_ask_qty) i.usdt_krw_rate
          (number_of_le _ _ kr).1 in
      let (ask, ask_qty) = number_of_mul i.korean_ask i.korean_ask_qty top in
      let (bid, bid_qty) = notional_numbers i.foreign_bid i.foreign_bid_qty fr in
      record {
        korean_ask = positive i.korean_ask ask a;
        korean_ask_qty = positive i.korean_ask_qty ask_qty aq;
        foreign_bid = positive i.foreign_bid bid b;
        foreign_bid_qty = positive i.foreign_bid_qty bid_qty bq;
        usdt_krw_rate = positive i.usdt_krw_rate rate r;
      }

  -- A fee: an amount that is not negative, at a rate, for a number of events.
  fee_nonneg :
      (amount rate : F) (events : F)
      → zero_f ≼ amount
      → zero_f ≼ rate
      → zero_f ≼ events
      → IsNumber (d.mul (d.mul amount rate) events)
      → zero_f ≼ d.mul (d.mul amount rate) events
  fee_nonneg amount rate events ha hr he n =
      mul_nonneg (d.mul amount rate) events
        (mul_nonneg amount rate ha hr (number_of_mul (d.mul amount rate) events n).0) he n

  min_f-nonneg : (x y : F) → zero_f ≼ x → zero_f ≼ y → zero_f ≼ min_f x y
  min_f-nonneg x y hx hy = ground arith

  -- `std::min` keeps its first argument unless the other is less, so that a NaN there is not returned.
  min_f-nonneg_left : (x y : F) → zero_f ≼ x → (IsNumber y → zero_f ≼ y) → zero_f ≼ min_f x y
  min_f-nonneg_left x y hx hy = elim (Bool-cases (d.lt y x)) [
    | inl t ↦ rw t (hy (number_of_lt y x t).0)
    | inr f ↦ rw f hx
  ]

  -- The fees that the metrics charge are not negative.
  total_fee_nonneg :
      (i : RelayInput F)
      → IsPositiveInput i
      → zero_f ≼ i.korean_fee_rate
      → zero_f ≼ i.foreign_fee_rate
      → zero_f ≼ i.withdraw_fee_coins
      → IsNumber (relay_metrics_of i).total_fee_krw
      → zero_f ≼ (relay_metrics_of i).total_fee_krw
  unfolding relay_metrics_of
  total_fee_nonneg i p hk hf hw n =
      let m : RelayMetrics F = relay_metrics_of i in
      let (trades, withdraw) =
        number_of_add (d.add m.bithumb_total_fee_krw m.bybit_total_fee_krw) m.withdraw_fee_krw n in
      let (korean, foreign) = number_of_add m.bithumb_total_fee_krw m.bybit_total_fee_krw trades in
      let buy : IsNumber m.match_buy_krw =
        (number_of_mul _ _
          (number_of_mul (d.mul m.match_buy_krw i.korean_fee_rate) korean_fee_events korean).0).0 in
      let sell : IsNumber m.match_sell_krw =
        (number_of_mul _ _
          (number_of_mul (d.mul m.match_sell_krw i.foreign_fee_rate) foreign_fee_events
            foreign).0).0 in
      let sell_usdt : IsNumber m.match_sell_usdt =
        (number_of_mul m.match_sell_usdt i.usdt_krw_rate sell).0 in
      let ask : zero_f ≼ i.korean_ask = le_of_lt laws _ _ p.korean_ask in
      let bid : zero_f ≼ i.foreign_bid = le_of_lt laws _ _ p.foreign_bid in
      let qty : zero_f ≼ m.match_qty =
        min_f-nonneg _ _ (le_of_lt laws _ _ p.korean_ask_qty)
          (le_of_lt laws _ _ p.foreign_bid_qty) in
      let target : IsNumber m.target_coin_qty → zero_f ≼ m.target_coin_qty =
        div_nonneg target_entry_usdt i.foreign_bid (dec_le 0 0 35 0 (omega arith)) p.foreign_bid in
      let effective : zero_f ≼ min_f m.match_qty m.target_coin_qty =
        min_f-nonneg_left _ _ qty target in
      let buy_nonneg = mul_nonneg i.korean_ask _ ask effective buy in
      let usdt_nonneg = mul_nonneg i.foreign_bid _ bid effective sell_usdt in
      let rate : zero_f ≼ i.usdt_krw_rate = le_of_lt laws _ _ p.usdt_krw_rate in
      let sell_nonneg = mul_nonneg m.match_sell_usdt i.usdt_krw_rate usdt_nonneg rate sell in
      add_nonneg _ _
        (add_nonneg _ _
          (fee_nonneg m.match_buy_krw i.korean_fee_rate korean_fee_events buy_nonneg hk
            (dec_le 0 0 1 0 (omega arith)) korean)
          (fee_nonneg m.match_sell_krw i.foreign_fee_rate foreign_fee_events sell_nonneg hf
            (dec_le 0 0 3 0 (omega arith)) foreign))
        (mul_nonneg i.withdraw_fee_coins i.korean_ask hw ask withdraw)

  -- If the gate passes, with fee rates and a withdrawal fee that are not negative, then at the executable
  -- size the sale brings more KRW than the purchase costs, by at least the profit floor.
  pub gate_passes-profitable :
      (i : RelayInput F)
      → zero_f ≼ i.korean_fee_rate
      → zero_f ≼ i.foreign_fee_rate
      → zero_f ≼ i.withdraw_fee_coins
      → qualifies (calculate_relay_metrics i) ≡ true
      → let m = calculate_relay_metrics i in
        (m.match_buy_krw ≺ m.match_sell_krw)
        × (min_entry_net_profit_krw ≼ d.sub m.match_sell_krw m.match_buy_krw)
        × (m.net_profit_krw ≼ d.sub m.match_sell_krw m.match_buy_krw)
  unfolding relay_metrics_of
  gate_passes-profitable i hk hf hw h =
      let p : IsPositiveInput i = gate_passes-IsPositiveInput i h in
      let e = (guard_passed i h).5 in
      let m : RelayMetrics F = relay_metrics_of i in
      let floor : min_entry_net_profit_krw ≼ m.net_profit_krw = (gate_parts m (rw e at h)).1 in
      let net : IsNumber m.net_profit_krw = (number_of_le _ _ floor).1 in
      let fees : IsNumber m.total_fee_krw =
        (number_of_sub m.gross_spread_krw m.total_fee_krw net).1 in
      let below : m.net_profit_krw ≼ m.gross_spread_krw =
        sub-le m.gross_spread_krw m.total_fee_krw (total_fee_nonneg i p hk hf hw fees) net in
      let gross : min_entry_net_profit_krw ≼ m.gross_spread_krw = le_trans _ _ _ floor below in
      let positive_floor : ◌≺◌ {F = F} zero_f min_entry_net_profit_krw =
        dec_lt 0 0 600 0 (omega arith) (omega arith) (omega arith) (omega arith) in
      rw e (
        lt_of_sub_pos m.match_sell_krw m.match_buy_krw
            (lt_of_lt_of_le laws _ _ _ positive_floor gross),
        gross,
        below,
      )
