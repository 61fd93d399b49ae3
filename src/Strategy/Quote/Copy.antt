-- ===== src/Strategy/Quote/Copy.antt =====
-- The two versions of the guard agree.
use spot_spot_relay_arbitrag.Prelude.{
  ℕ, ◌^◌, ◌≤◌, ◌<◌, ◌≡◌, Bool, true, false, not, ◌||◌, arith, ltb, ◌==◌,
}
use spot_spot_relay_arbitrag.Double.{Double}
use spot_spot_relay_arbitrag.Types.TradingConfig.{max_quote_age_ms, max_quote_age_ms_exit}
use spot_spot_relay_arbitrag.Strategy.Quote.{
  PriceData, sub_u64, quote_is_fresh_with_limit, quote_pair_is_usable, order_quote_pair_is_usable,
}

-- A stamp ahead of the clock wraps to an age far beyond any limit.
fresh_copy {ℓ} :
    {F : Type ℓ} (price : PriceData F) (now_ms max_age : ℕ)
    → now_ms < 2 ^ 62
    → price.timestamp < 2 ^ 62
    → max_age ≤ 8000
    → quote_is_fresh_with_limit price now_ms max_age
      ≡ not
          (not price.valid || price.timestamp == 0 || ltb max_age (sub_u64 now_ms price.timestamp))
unfolding quote_is_fresh_with_limit
fresh_copy price now_ms max_age hn ht hm = ground arith

module _ {ℓ} {F : Type ℓ} ⦃d : Double F⦄ where
  -- For clock readings and stamps below 2 ^ 62 ms, the copy of the guard in the order manager, which
  -- subtracts without a test and wraps, answers as the guard of the engine.
  pub order_guard-eq-guard :
      (now_ms : ℕ) (korean foreign : PriceData F) (is_exit : Bool)
      → now_ms < 2 ^ 62
      → korean.timestamp < 2 ^ 62
      → foreign.timestamp < 2 ^ 62
      → order_quote_pair_is_usable now_ms korean foreign is_exit
        ≡ quote_pair_is_usable now_ms korean foreign is_exit
  unfolding order_quote_pair_is_usable quote_pair_is_usable
  order_guard-eq-guard now_ms k f true hn hk hf = ground (
    arith,
    fresh_copy k now_ms max_quote_age_ms_exit hn hk (omega arith),
    fresh_copy f now_ms max_quote_age_ms_exit hn hf (omega arith),
  )
  order_guard-eq-guard now_ms k f false hn hk hf = ground (
    arith,
    fresh_copy k now_ms max_quote_age_ms hn hk (omega arith),
    fresh_copy f now_ms max_quote_age_ms hn hf (omega arith),
  )
