-- ===== src/Strategy/Quote/Tests.antt =====
-- The guards on concrete quotes.
use spot_spot_relay_arbitrag.Prelude.{ℕ, ◌≡◌, ◌≤◌, refl, true, false, arith}
use spot_spot_relay_arbitrag.Double.Fixed.{Fixed, of_decimal, fixed_double, Fixed-IsIeee}
use spot_spot_relay_arbitrag.Strategy.Quote.{
  PriceData, ts_diff, quote_is_fresh_with_limit, spread_pct, quote_pair_is_usable,
  order_quote_pair_is_usable,
}
use spot_spot_relay_arbitrag.Strategy.Quote.Guards.{IsFresh, IsOpenBook, usable_quotes}
use spot_spot_relay_arbitrag.Strategy.Quote.Copy.{order_guard-eq-guard}

abbrev quote : ℕ → ℕ → ℕ → PriceData Fixed
quote bid ask timestamp = record {
  bid = of_decimal bid 0;
  ask = of_decimal ask 0;
  bid_qty = of_decimal 1 0;
  ask_qty = of_decimal 1 0;
  last = of_decimal bid 0;
  timestamp = timestamp;
  valid = true;
}

abbrev korean : PriceData Fixed
korean = quote 1000 1001 5000

abbrev foreign : PriceData Fixed
foreign = quote 2000 2001 5100

usable_at_5500 : quote_pair_is_usable 5500 korean foreign false ≡ true
unfolding quote_pair_is_usable quote_is_fresh_with_limit spread_pct
usable_at_5500 = refl

stale_at_5800 : quote_pair_is_usable 5800 korean foreign false ≡ false
unfolding quote_pair_is_usable quote_is_fresh_with_limit spread_pct
stale_at_5800 = refl

usable_quotes_example :
    IsFresh korean 5500 700
    × IsFresh foreign 5500 700
    × (ts_diff korean foreign ≤ 350)
    × IsOpenBook korean.bid korean.ask
    × IsOpenBook foreign.bid foreign.ask
usable_quotes_example = usable_quotes Fixed-IsIeee 5500 korean foreign false usable_at_5500

order_guard-eq-guard_example :
    order_quote_pair_is_usable 5050 korean foreign true
    ≡ quote_pair_is_usable 5050 korean foreign true
order_guard-eq-guard_example =
    order_guard-eq-guard 5050 korean foreign true (omega arith) (omega arith) (omega arith)
