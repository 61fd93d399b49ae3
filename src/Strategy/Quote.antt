-- ===== src/Strategy/Quote.antt =====
-- `PriceCache::PriceData` and the guards on a pair of quotes: those of
-- kimp_arb_cpp/src/strategy/arbitrage_engine.cpp and the copy in kimp_arb_cpp/src/execution/order_manager.cpp.
-- The clock reading `steady_now_ms()` is the argument `now_ms`; timestamps are `uint64_t`.
pub mod Guards
pub mod Copy
mod Tests
use spot_spot_relay_arbitrag.Prelude.{
  ℕ, ◌+◌, ◌-◌, ◌%◌, ◌^◌, Bool, true, false, not, ◌&&◌, ◌||◌, ltb, leb, ◌==◌, if◌then◌else◌,
}
use spot_spot_relay_arbitrag.Double.{Double, zero_f}
use spot_spot_relay_arbitrag.Types.TradingConfig.{
  max_quote_age_ms, max_quote_desync_ms, max_quote_age_ms_exit, max_quote_desync_ms_exit,
  max_korean_spread_pct, max_foreign_spread_pct, max_korean_spread_pct_exit,
  max_foreign_spread_pct_exit,
}

pub record PriceData {ℓ} (F : Type ℓ) : Type ℓ where
  pub bid : F
  pub ask : F
  pub bid_qty : F
  pub ask_qty : F
  pub last : F
  pub timestamp : ℕ
  pub valid : Bool

-- `now_ms < price.timestamp` is tested first, so the subtraction does not wrap.
unfoldable pub quote_is_fresh_with_limit {ℓ} : {F : Type ℓ} → PriceData F → ℕ → ℕ → Bool
quote_is_fresh_with_limit price now_ms max_age_ms =
    if not price.valid || price.timestamp == 0
    then false
    else if ltb now_ms price.timestamp
    then false
    else leb (now_ms - price.timestamp) max_age_ms

abbrev pub ts_diff {ℓ} : {F : Type ℓ} → PriceData F → PriceData F → ℕ
ts_diff k f =
    if leb f.timestamp k.timestamp then k.timestamp - f.timestamp else f.timestamp - k.timestamp

-- `now_ms - timestamp` of `uint64_t`, which wraps.
abbrev pub sub_u64 : ℕ → ℕ → ℕ
sub_u64 a b = (a + 2 ^ 64 - b) % 2 ^ 64

module _ {ℓ} {F : Type ℓ} ⦃d : Double F⦄ where
  -- `PriceData{}`.
  abbrev pub no_price : PriceData F
  no_price = record {
    bid = zero_f;
    ask = zero_f;
    bid_qty = zero_f;
    ask_qty = zero_f;
    last = zero_f;
    timestamp = 0;
    valid = false;
  }

  unfoldable pub spread_pct : F → F → F
  spread_pct bid ask =
      let mid = d.mul (d.add bid ask) (d.dec 5 1) in
      if d.le bid zero_f || d.le ask zero_f || d.lt ask bid
      then d.infinity
      else if d.le mid zero_f
      then d.infinity
      else d.mul (d.div (d.sub ask bid) mid) (d.dec 100 0)

  unfoldable pub quote_pair_is_usable : ℕ → PriceData F → PriceData F → Bool → Bool
  quote_pair_is_usable now_ms korean foreign is_exit =
      let max_age = if is_exit then max_quote_age_ms_exit else max_quote_age_ms in
      let max_desync = if is_exit then max_quote_desync_ms_exit else max_quote_desync_ms in
      let max_kr_sp = if is_exit then max_korean_spread_pct_exit else max_korean_spread_pct in
      let max_fr_sp = if is_exit then max_foreign_spread_pct_exit else max_foreign_spread_pct in
      if not (quote_is_fresh_with_limit korean now_ms max_age)
        || not (quote_is_fresh_with_limit foreign now_ms max_age)
      then false
      else if ltb max_desync (ts_diff korean foreign)
      then false
      else if d.lt max_kr_sp (spread_pct korean.bid korean.ask)
      then false
      else if d.lt max_fr_sp (spread_pct foreign.bid foreign.ask)
      then false
      else true

  -- The copy in order_manager.cpp: no test that a timestamp is in the past.
  pub order_quote_pair_is_usable : ℕ → PriceData F → PriceData F → Bool → Bool
  order_quote_pair_is_usable now_ms korean foreign is_exit =
      let max_age = if is_exit then max_quote_age_ms_exit else max_quote_age_ms in
      let max_desync = if is_exit then max_quote_desync_ms_exit else max_quote_desync_ms in
      let max_kr_sp = if is_exit then max_korean_spread_pct_exit else max_korean_spread_pct in
      let max_fr_sp = if is_exit then max_foreign_spread_pct_exit else max_foreign_spread_pct in
      if not korean.valid || korean.timestamp == 0 || not foreign.valid || foreign.timestamp == 0
      then false
      else if ltb max_age (sub_u64 now_ms korean.timestamp)
          || ltb max_age (sub_u64 now_ms foreign.timestamp)
      then false
      else if ltb max_desync (ts_diff korean foreign)
      then false
      else if d.lt max_kr_sp (spread_pct korean.bid korean.ask)
      then false
      else if d.lt max_fr_sp (spread_pct foreign.bid foreign.ask)
      then false
      else true
