-- ===== src/Strategy/Engine/ReportRule.antt =====
-- What a premium of `calculate_premium` stands on.
use spot_spot_relay_arbitrag.Prelude.{
  ℕ, ◌+◌, ◌≡◌, ◌≢◌, ◌⊎◌, refl, Bool, true, false, not, ◌&&◌, ◌||◌, List, [], ◌∷◌, arith, Bool-cases,
  inl, inr, ap, ◌∙◌,
}
use spot_spot_relay_arbitrag.Double.{Double, zero_f}
use spot_spot_relay_arbitrag.Double.Laws.{IsIeee}
use spot_spot_relay_arbitrag.Types.{Exchange, exchange_beq, exchange_beq_iff}
use spot_spot_relay_arbitrag.Types.Symbol.{SymbolId, get_base}
use spot_spot_relay_arbitrag.Strategy.Quote.{PriceData, quote_pair_is_usable}
use spot_spot_relay_arbitrag.Strategy.Premium.{
  RelayMetrics, calculate_relay_metrics, calculate_entry_premium,
}
use spot_spot_relay_arbitrag.Strategy.PriceCache.{get_price, get_usdt_krw}
use spot_spot_relay_arbitrag.Strategy.PriceCache.Routes.Finalize.{
  is_transfer_route_available, get_withdraw_fee,
}
use spot_spot_relay_arbitrag.Strategy.Engine.{ExchangePair, Engine}
use spot_spot_relay_arbitrag.Strategy.Engine.Entry.{relay_input}
use spot_spot_relay_arbitrag.Strategy.Engine.Exit.{foreign_symbol_for}
use spot_spot_relay_arbitrag.Strategy.Engine.Report.{
  BestBid, consider_bid, find_best_bid, no_bid, premium_if_rate, requested_premium,
  calculate_premium,
}

module _ {ℓ} {F : Type ℓ} ⦃d : Double F⦄ (symbol foreign_symbol : SymbolId) (korean_ex : Exchange)
    (foreign_ex : Exchange) (clock : ℕ → ℕ) (last_now : ℕ) (e : Engine F) where
  abbrev korean_price : PriceData F
  korean_price = get_price korean_ex symbol e.prices

  abbrev foreign_price : Exchange → PriceData F
  foreign_price ex = get_price ex foreign_symbol e.prices

  -- The clock's reading for the place of a pair of the Korean venue with `venue`.
  abbrev pub ReadsAt : ℕ → Exchange → ℕ → List ExchangePair → Type 0
  ReadsAt now venue place [] = ⊥
  ReadsAt now venue place (pair ∷ pairs) =
      ((now ≡ clock place) × ((pair.korean ≡ korean_ex) × (pair.foreign ≡ venue)))
      ⊎ ReadsAt now venue (place + 1) pairs

  -- The reading that `venue` is judged at: one for its pair, or the last one for the venue that is asked for.
  abbrev pub IsReading : ℕ → Exchange → Type 0
  IsReading now venue =
      ReadsAt now venue 0 e.exchange_pairs ⊎ ((now ≡ last_now) × (venue ≡ foreign_ex))

  -- A venue abroad with a transfer route and quotes that are usable at the clock's reading for it, its bid and rate.
  pub record IsSource (bid rate : F) : Type ℓ where
    pub venue : Exchange
    pub now_ms : ℕ
    pub reading : IsReading now_ms venue
    pub open_route :
        is_transfer_route_available korean_ex venue (get_base symbol) e.transfers ≡ true
    pub quoted : ((foreign_price venue).valid && not (d.le (foreign_price venue).bid zero_f)) ≡ true
    pub usable : quote_pair_is_usable now_ms korean_price (foreign_price venue) false ≡ true
    pub bid_of : bid ≡ (foreign_price venue).bid
    pub rate_of : rate ≡ get_usdt_krw korean_ex e.prices

  pub record IsReport (premium : F) : Type ℓ where
    pub bid : F
    pub rate : F
    pub source : IsSource bid rate
    pub korean_quoted : (korean_price.valid && not (d.le korean_price.ask zero_f)) ≡ true
    pub rate_pos : d.le rate zero_f ≡ false
    pub premium_of_prices : premium ≡ calculate_entry_premium korean_price.ask bid rate

  -- Where the search stands: no bid yet, or one of a venue.
  abbrev HasOrigin : BestBid F → Type ℓ
  HasOrigin best = (best.foreign_bid ≡ zero_f) ⊎ IsSource best.foreign_bid best.rate

  -- Whether a pair gets past the `continue`s of the loop and is better than the best.
  abbrev passes : ℕ → ExchangePair → BestBid F → Bool
  passes now pair best =
      let fp : PriceData F = foreign_price pair.foreign in
      let rate : F = get_usdt_krw pair.korean e.prices in
      let m : RelayMetrics F = calculate_relay_metrics (
        relay_input pair.korean pair.foreign korean_price fp rate
          (get_withdraw_fee pair.korean pair.foreign (get_base symbol) e.transfers)) in
      (exchange_beq pair.korean korean_ex
        && is_transfer_route_available pair.korean pair.foreign (get_base symbol) e.transfers)
      && (((fp.valid && not (d.le fp.bid zero_f)) && quote_pair_is_usable now korean_price fp false)
          && (not (d.le rate zero_f)
              && (d.lt best.net_profit m.net_profit_krw
                  || (d.eqb m.net_profit_krw best.net_profit
                      && d.lt best.net_edge m.net_edge_pct))))

  consider_bid-skips :
      (now : ℕ) (pair : ExchangePair) (best : BestBid F)
      → passes now pair best ≡ false
      → consider_bid now symbol foreign_symbol korean_ex e pair best ≡ best
  unfolding consider_bid
  consider_bid-skips now pair best h = ground (arith, h)

  consider_bid-takes :
      (now : ℕ) (pair : ExchangePair) (best : BestBid F)
      → passes now pair best ≡ true
      → ((consider_bid now symbol foreign_symbol korean_ex e pair best).foreign_bid
          ≡ (foreign_price pair.foreign).bid)
        × ((consider_bid now symbol foreign_symbol korean_ex e pair best).rate
            ≡ get_usdt_krw pair.korean e.prices)
  unfolding consider_bid
  consider_bid-takes now pair best h = (ground (arith, h), ground (arith, h))

  consider_bid-keeps :
      (now : ℕ) (pair : ExchangePair) (best : BestBid F)
      → (pair.korean ≡ korean_ex → IsReading now pair.foreign)
      → HasOrigin best
      → HasOrigin (consider_bid now symbol foreign_symbol korean_ex e pair best)
  consider_bid-keeps now pair best reads h = elim (Bool-cases (passes now pair best)) [
    | inl t ↦
        let same : pair.korean ≡ korean_ex =
          (exchange_beq_iff pair.korean korean_ex).0 (ground (arith, t)) in
        let (bid, rate) = consider_bid-takes now pair best t in
        inr (record {
          venue = pair.foreign;
          now_ms = now;
          reading = reads same;
          open_route = rw (← same) (ground (arith, t));
          quoted = ground (arith, t);
          usable = ground (arith, t);
          bid_of = bid;
          rate_of = rate ∙ ap (λ ex. get_usdt_krw ex e.prices) same;
        })
    | inr f ↦ rw (consider_bid-skips now pair best f) h
  ]

  find_best_bid-keeps :
      (place : ℕ) (pairs : List ExchangePair) (best : BestBid F)
      → ((now : ℕ) (venue : Exchange) → ReadsAt now venue place pairs → IsReading now venue)
      → HasOrigin best
      → HasOrigin (find_best_bid clock place symbol foreign_symbol korean_ex e pairs best)
  unfolding find_best_bid
  find_best_bid-keeps place [] best reads h = h
  find_best_bid-keeps place (pair ∷ pairs) best reads h =
      find_best_bid-keeps (place + 1) pairs _ (λ now venue later. reads now venue (inr later))
        (consider_bid-keeps (clock place) pair best
          (λ same. reads (clock place) pair.foreign (inl (refl, (same, refl)))) h)

  premium_if_rate-IsReport :
      (bid rate : F)
      → (korean_price.valid && not (d.le korean_price.ask zero_f)) ≡ true
      → IsSource bid rate
      → premium_if_rate korean_price.ask bid rate ≢ zero_f
      → IsReport (premium_if_rate korean_price.ask bid rate)
  premium_if_rate-IsReport bid rate k source h = elim (Bool-cases (d.le rate zero_f)) [
    | inl t ↦ absurd (h (rw t refl))
    | inr f ↦ record {
      bid = bid;
      rate = rate;
      source = source;
      korean_quoted = k;
      rate_pos = f;
      premium_of_prices = rw f refl;
    }
  ]

  requested_premium-IsReport :
      (korean_price.valid && not (d.le korean_price.ask zero_f)) ≡ true
      → requested_premium last_now symbol foreign_symbol korean_ex foreign_ex e ≢ zero_f
      → IsReport (requested_premium last_now symbol foreign_symbol korean_ex foreign_ex e)
  unfolding requested_premium
  requested_premium-IsReport k h =
      let fp : PriceData F = foreign_price foreign_ex in
      let ok : Bool =
        is_transfer_route_available korean_ex foreign_ex (get_base symbol) e.transfers
        && ((fp.valid && not (d.le fp.bid zero_f))
            && quote_pair_is_usable last_now korean_price fp false) in
      let given : F = premium_if_rate korean_price.ask fp.bid (get_usdt_krw korean_ex e.prices) in
      elim (Bool-cases ok) [
        | inl t ↦
            let same : requested_premium last_now symbol foreign_symbol korean_ex foreign_ex e
                ≡ given =
              ground (arith, t) in
            rw same (
              premium_if_rate-IsReport fp.bid _ k
                (record {
                  venue = foreign_ex;
                  now_ms = last_now;
                  reading = inr (refl, refl);
                  open_route = ground (arith, t);
                  quoted = ground (arith, t);
                  usable = ground (arith, t);
                  bid_of = refl;
                  rate_of = refl;
                })
                (λ z. h (same ∙ z)))
        | inr f ↦ absurd (h (ground (arith, f)))
      ]

module _ {ℓ} {F : Type ℓ} ⦃d : Double F⦄ (laws : IsIeee F) where
  -- A premium that `calculate_premium` gives, if it is not 0, is that of the Korean venue's valid ask and of the
  -- valid bid of a venue abroad that has a transfer route from it, at the rate of the Korean venue, and none of the
  -- three is 0 or less. The two quotes are usable at the clock's reading for a pair of the two venues, at its place
  -- in the list of pairs, or at the last reading if the venue abroad is the one that is asked for.
  pub calculate_premium-IsReport :
      (clock : ℕ → ℕ) (last_now : ℕ) (symbol : SymbolId) (korean_ex foreign_ex : Exchange)
      (e : Engine F)
      → calculate_premium clock last_now symbol korean_ex foreign_ex e ≢ zero_f
      → IsReport symbol
          (foreign_symbol_for symbol e)
          korean_ex
          foreign_ex
          clock
          last_now
          e
          (calculate_premium clock last_now symbol korean_ex foreign_ex e)
  unfolding calculate_premium
  calculate_premium-IsReport clock last_now symbol korean_ex foreign_ex e h =
      let foreign_symbol : SymbolId = foreign_symbol_for symbol e in
      let korean : PriceData F = get_price korean_ex symbol e.prices in
      let best : BestBid F =
        find_best_bid clock 0 symbol foreign_symbol korean_ex e e.exchange_pairs no_bid in
      let reported : F = calculate_premium clock last_now symbol korean_ex foreign_ex e in
      elim (Bool-cases (korean.valid && not (d.le korean.ask zero_f))) [
        | inr unquoted ↦ absurd (h (ground (arith, unquoted)))
        | inl quoted ↦ elim (Bool-cases (d.le best.foreign_bid zero_f)) [
          | inl missing ↦
              let same : reported
                  ≡ requested_premium last_now symbol foreign_symbol korean_ex foreign_ex e =
                ground (arith, quoted, missing) in
              rw same (
                requested_premium-IsReport symbol foreign_symbol korean_ex foreign_ex clock last_now
                  e quoted (λ z. h (same ∙ z)))
          | inr there ↦
              let same : reported ≡ premium_if_rate korean.ask best.foreign_bid best.rate =
                ground (arith, quoted, there) in
              elim (find_best_bid-keeps symbol foreign_symbol korean_ex foreign_ex clock last_now e
                0 e.exchange_pairs no_bid (λ now venue read. inl read) (inl refl)) [
                  | inl none ↦
                      absurd (ground (arith, there, none, laws.dec_le 0 0 0 0 (omega arith)))
                  | inr source ↦ rw same (
                      premium_if_rate-IsReport symbol foreign_symbol korean_ex foreign_ex clock
                        last_now e best.foreign_bid best.rate quoted source (λ z. h (same ∙ z)))
                ]
        ]
      ]
