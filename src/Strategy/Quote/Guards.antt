-- ===== src/Strategy/Quote/Guards.antt =====
-- What a usable pair of quotes is, and how the guards of entry and exit compare.
use spot_spot_relay_arbitrag.Prelude.{
  ℕ, ◌+◌, ◌≤◌, ◌<◌, ◌≡◌, Bool, true, false, arith, if◌then◌else◌, Bool-cases, inl, inr,
}
use spot_spot_relay_arbitrag.Double.{Double, zero_f}
use spot_spot_relay_arbitrag.Double.Laws.{◌≺◌, IsIeee, lt_of_le_of_lt, le_of_lt}
use spot_spot_relay_arbitrag.Types.TradingConfig.{
  max_quote_age_ms, max_quote_age_ms_exit, max_quote_desync_ms, max_quote_desync_ms_exit,
  max_korean_spread_pct, max_foreign_spread_pct, max_korean_spread_pct_exit,
  max_foreign_spread_pct_exit,
}
use spot_spot_relay_arbitrag.Strategy.Quote.{
  PriceData, ts_diff, quote_is_fresh_with_limit, spread_pct, quote_pair_is_usable,
}

-- A quote of this age at most, from a clock that has not gone back behind it.
pub record IsFresh {ℓ} {F : Type ℓ} (price : PriceData F) (now_ms max_age : ℕ) : Type 0 where
  pub is_valid : price.valid ≡ true
  pub stamped : 0 < price.timestamp
  pub past : price.timestamp ≤ now_ms
  pub recent : now_ms ≤ price.timestamp + max_age

fresh_lem {ℓ} :
    {F : Type ℓ} (price : PriceData F) (now_ms max_age : ℕ)
    → quote_is_fresh_with_limit price now_ms max_age ≡ true
    → IsFresh price now_ms max_age
unfolding quote_is_fresh_with_limit
fresh_lem price now_ms max_age h = record {
  is_valid = ground arith;
  stamped = ground arith;
  past = ground arith;
  recent = ground arith;
}

fresh_mono {ℓ} :
    {F : Type ℓ} (price : PriceData F) (now_ms a b : ℕ)
    → a ≤ b
    → quote_is_fresh_with_limit price now_ms a ≡ true
    → quote_is_fresh_with_limit price now_ms b ≡ true
unfolding quote_is_fresh_with_limit
fresh_mono price now_ms a b h = ground arith

module _ {ℓ} {F : Type ℓ} ⦃d : Double F⦄ where
  -- The prices of a book that is not empty and not crossed, as far as the tests of `spread_pct` see.
  pub record IsOpenBook (bid ask : F) : Type 0 where
    pub bid_pos : d.le bid zero_f ≡ false
    pub ask_pos : d.le ask zero_f ≡ false
    pub uncrossed : d.lt ask bid ≡ false

module _ {ℓ} {F : Type ℓ} ⦃d : Double F⦄ (laws : IsIeee F) where
  spread_open :
      (limit bid ask : F)
      → limit ≺ d.infinity
      → d.lt limit (spread_pct bid ask) ≡ false
      → IsOpenBook bid ask
  unfolding spread_pct
  spread_open limit bid ask big h = record {
    bid_pos = ground arith;
    ask_pos = ground arith;
    uncrossed = ground arith;
  }

  spread_mono : (small large x : F) → small ≺ large → d.lt small x ≡ false → d.lt large x ≡ false
  spread_mono small large x h e = elim (Bool-cases (d.lt large x)) [
    | inl t ↦
        let both : small ≺ x = lt_of_le_of_lt laws small large x (le_of_lt laws small large h) t in
        ground arith
    | inr f ↦ f
  ]

  -- If the pair is usable, then both quotes are valid, stamped, not ahead of the clock and no older than
  -- the limit for entry or for exit, their stamps differ by at most the desync limit, and neither book
  -- has a price at or below zero or is crossed.
  pub usable_quotes :
      (now_ms : ℕ) (korean foreign : PriceData F) (is_exit : Bool)
      → quote_pair_is_usable now_ms korean foreign is_exit ≡ true
      → IsFresh korean now_ms (if is_exit then max_quote_age_ms_exit else max_quote_age_ms)
        × IsFresh foreign now_ms (if is_exit then max_quote_age_ms_exit else max_quote_age_ms)
        × (ts_diff korean foreign
            ≤ (if is_exit then max_quote_desync_ms_exit else max_quote_desync_ms))
        × IsOpenBook korean.bid korean.ask
        × IsOpenBook foreign.bid foreign.ask
  unfolding quote_pair_is_usable
  usable_quotes now_ms k f true h = (
    fresh_lem k now_ms max_quote_age_ms_exit (ground arith),
    fresh_lem f now_ms max_quote_age_ms_exit (ground arith),
    ground arith,
    spread_open max_korean_spread_pct_exit k.bid k.ask (laws.dec-lt-infinity 350 2 (omega arith))
        (ground arith),
    spread_open max_foreign_spread_pct_exit f.bid f.ask (laws.dec-lt-infinity 150 2 (omega arith))
        (ground arith),
  )
  usable_quotes now_ms k f false h = (
    fresh_lem k now_ms max_quote_age_ms (ground arith),
    fresh_lem f now_ms max_quote_age_ms (ground arith),
    ground arith,
    spread_open max_korean_spread_pct k.bid k.ask (laws.dec-lt-infinity 120 2 (omega arith))
        (ground arith),
    spread_open max_foreign_spread_pct f.bid f.ask (laws.dec-lt-infinity 40 2 (omega arith))
        (ground arith),
  )

  -- A pair that is usable for an entry is usable for an exit at the same moment.
  entry_usable-exit_usable :
      (now_ms : ℕ) (korean foreign : PriceData F)
      → quote_pair_is_usable now_ms korean foreign false ≡ true
      → quote_pair_is_usable now_ms korean foreign true ≡ true
  unfolding quote_pair_is_usable
  entry_usable-exit_usable now_ms k f h = ground (
    arith,
    fresh_mono k now_ms max_quote_age_ms max_quote_age_ms_exit,
    fresh_mono f now_ms max_quote_age_ms max_quote_age_ms_exit,
    spread_mono max_korean_spread_pct max_korean_spread_pct_exit (spread_pct k.bid k.ask)
        (laws.dec_lt 120 2 350 2 (omega arith) (omega arith) (omega arith) (omega arith)),
    spread_mono max_foreign_spread_pct max_foreign_spread_pct_exit (spread_pct f.bid f.ask)
        (laws.dec_lt 40 2 150 2 (omega arith) (omega arith) (omega arith) (omega arith)),
  )
