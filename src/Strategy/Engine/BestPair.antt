-- ===== src/Strategy/Engine/BestPair.antt =====
-- The search of `update_symbol_entry` finds a pair of the greatest net profit.
use spot_spot_relay_arbitrag.Prelude.{
  ℕ, ◌+◌, ◌≡◌, refl, Bool, true, false, not, ◌&&◌, ◌||◌, List, [], ◌∷◌, arith, if◌then◌else◌, ◌⊎◌,
  ap, ◌∙◌, Bool-cases, inl, inr,
}
use spot_spot_relay_arbitrag.Double.{Double, zero_f}
use spot_spot_relay_arbitrag.Double.Laws.{IsIeee, lt_of_le_of_lt, le_of_lt, lt_irrefl}
use spot_spot_relay_arbitrag.Types.Symbol.{SymbolId, get_base}
use spot_spot_relay_arbitrag.Strategy.Quote.{quote_pair_is_usable}
use spot_spot_relay_arbitrag.Strategy.Premium.{RelayMetrics, calculate_relay_metrics}
use spot_spot_relay_arbitrag.Strategy.PriceCache.{get_price, get_usdt_krw}
use spot_spot_relay_arbitrag.Strategy.PriceCache.Routes.Finalize.{
  is_transfer_route_available, get_withdraw_fee,
}
use spot_spot_relay_arbitrag.Strategy.Engine.{ExchangePair, Engine}
use spot_spot_relay_arbitrag.Strategy.Engine.Entry.{
  BestPair, relay_input, consider_pair, find_best_pair,
}

module _ {ℓ} {F : Type ℓ} ⦃d : Double F⦄ (symbol foreign_symbol : SymbolId) (e : Engine F) where
  abbrev pub metrics_of : ExchangePair → RelayMetrics F
  metrics_of pair = calculate_relay_metrics (
      relay_input pair.korean pair.foreign (get_price pair.korean symbol e.prices)
        (get_price pair.foreign foreign_symbol e.prices) (get_usdt_krw pair.korean e.prices)
        (get_withdraw_fee pair.korean pair.foreign (get_base symbol) e.transfers))

  -- Whether a pair gets past the `continue`s of the loop.
  abbrev pub is_eligible : ℕ → ExchangePair → Bool
  is_eligible now pair =
      let korean_price = get_price pair.korean symbol e.prices in
      let foreign_price = get_price pair.foreign foreign_symbol e.prices in
      pair.entry_enabled
      && (is_transfer_route_available pair.korean pair.foreign (get_base symbol) e.transfers
          && ((korean_price.valid && not (d.le korean_price.ask zero_f))
              && ((foreign_price.valid && not (d.le foreign_price.bid zero_f))
                  && (quote_pair_is_usable now korean_price foreign_price false
                      && not (d.le (get_usdt_krw pair.korean e.prices) zero_f)))))

  -- A pair with its venues, its quotes, its rate and its metrics.
  abbrev pub candidate_of : ExchangePair → BestPair F
  candidate_of pair = record {
    korean_ex = pair.korean;
    foreign_ex = pair.foreign;
    korean_price = get_price pair.korean symbol e.prices;
    foreign_price = get_price pair.foreign foreign_symbol e.prices;
    net_profit = (metrics_of pair).net_profit_krw;
    net_edge = (metrics_of pair).net_edge_pct;
    usdt_rate = get_usdt_krw pair.korean e.prices;
  }

  -- `best` is one of the pairs, and that is eligible at the clock's reading for its place.
  abbrev pub IsOneOf : (ℕ → ℕ) → ℕ → List ExchangePair → BestPair F → Type ℓ
  IsOneOf clock place [] best = F × ⊥
  IsOneOf clock place (pair ∷ pairs) best =
      ((is_eligible (clock place) pair ≡ true) × (best ≡ candidate_of pair))
      ⊎ IsOneOf clock (place + 1) pairs best

  -- No eligible pair, at the clock's reading for its place, has a greater net profit than `best`.
  abbrev pub IsBestOf : (ℕ → ℕ) → ℕ → List ExchangePair → BestPair F → Type 0
  IsBestOf clock place [] best = Unit
  IsBestOf clock place (pair ∷ pairs) best =
      ((is_eligible (clock place) pair && d.lt best.net_profit (metrics_of pair).net_profit_krw)
        ≡ false)
      × IsBestOf clock (place + 1) pairs best

  abbrev wins : ExchangePair → BestPair F → Bool
  wins pair best =
      d.lt best.net_profit (metrics_of pair).net_profit_krw
      || (d.eqb (metrics_of pair).net_profit_krw best.net_profit
          && d.lt best.net_edge (metrics_of pair).net_edge_pct)

  consider_takes :
      (now : ℕ) (pair : ExchangePair) (best : BestPair F)
      → (is_eligible now pair && wins pair best) ≡ true
      → consider_pair now symbol foreign_symbol e pair best ≡ candidate_of pair
  unfolding consider_pair
  consider_takes now pair best h = ground (arith, h)

  consider_leaves :
      (now : ℕ) (pair : ExchangePair) (best : BestPair F)
      → (is_eligible now pair && wins pair best) ≡ false
      → consider_pair now symbol foreign_symbol e pair best ≡ best
  unfolding consider_pair
  consider_leaves now pair best h = ground (arith, h)

  -- The search ends where it starts or with one of the pairs.
  find_best_pair-cases :
      (clock : ℕ → ℕ) (place : ℕ) (pairs : List ExchangePair) (best : BestPair F)
      → let found = find_best_pair clock place symbol foreign_symbol e pairs best in
        (found ≡ best) ⊎ IsOneOf clock place pairs found
  unfolding find_best_pair
  find_best_pair-cases clock place [] best = inl refl
  find_best_pair-cases clock place (pair ∷ pairs) best =
      let next : BestPair F = consider_pair (clock place) symbol foreign_symbol e pair best in
      elim (find_best_pair-cases clock (place + 1) pairs next) [
        | inr later ↦ inr (inr later)
        | inl same ↦ elim (Bool-cases (is_eligible (clock place) pair && wins pair best)) [
          | inl taken ↦
              inr (inl (ground (arith, taken), same ∙ consider_takes (clock place) pair best taken))
          | inr left ↦ inl (same ∙ consider_leaves (clock place) pair best left)
        ]
      ]

  consider_cases :
      (now : ℕ) (pair : ExchangePair) (best : BestPair F)
      → (consider_pair now symbol foreign_symbol e pair best).net_profit ≡ (
          if is_eligible now pair && wins pair best
          then (metrics_of pair).net_profit_krw
          else best.net_profit)
  consider_cases now pair best = elim (Bool-cases (is_eligible now pair && wins pair best)) [
    | inl taken ↦ rw taken (ap (λ b. b.net_profit) (consider_takes now pair best taken))
    | inr left ↦ rw left (ap (λ b. b.net_profit) (consider_leaves now pair best left))
  ]

  module _ (laws : IsIeee F) where
    stays_above :
        (a b x : F) (other : Bool)
        → (d.lt a b || (d.eqb b a && other)) ≡ true
        → d.lt a x ≡ false
        → d.lt b x ≡ false
    stays_above a b x other taken h = elim (Bool-cases (d.lt b x)) [
      | inl below ↦
          let up : d.le a b ≡ true = ground (arith, taken, le_of_lt laws a b, laws.eqb-le b a) in
          absurd (ground (arith, h, lt_of_le_of_lt laws a b x up below))
      | inr above ↦ above
    ]

    consider-rises :
        (now : ℕ) (pair : ExchangePair) (best : BestPair F) (x : F)
        → d.lt best.net_profit x ≡ false
        → d.lt (consider_pair now symbol foreign_symbol e pair best).net_profit x ≡ false
    consider-rises now pair best x h =
        let m : RelayMetrics F = metrics_of pair in
        let edge : Bool = d.lt best.net_edge m.net_edge_pct in
        let wins : Bool =
          d.lt best.net_profit m.net_profit_krw
          || (d.eqb m.net_profit_krw best.net_profit && edge) in
        rw (consider_cases now pair best) (elim (Bool-cases (is_eligible now pair && wins)) [
          | inl taken ↦
              rw taken
                (stays_above best.net_profit m.net_profit_krw x edge (ground (arith, taken)) h)
          | inr left ↦ rw left h
        ])

    find-rises :
        (clock : ℕ → ℕ) (place : ℕ) (pairs : List ExchangePair) (best : BestPair F) (x : F)
        → d.lt best.net_profit x ≡ false
        → d.lt (find_best_pair clock place symbol foreign_symbol e pairs best).net_profit x ≡ false
    unfolding find_best_pair
    find-rises clock place [] best x h = h
    find-rises clock place (pair ∷ pairs) best x h =
        find-rises clock (place + 1) pairs _ x (consider-rises (clock place) pair best x h)

    consider-above :
        (now : ℕ) (pair : ExchangePair) (best : BestPair F)
        → is_eligible now pair ≡ true
        → d.lt
            (consider_pair now symbol foreign_symbol e pair best).net_profit
            (metrics_of pair).net_profit_krw
          ≡ false
    consider-above now pair best ok =
        let m : RelayMetrics F = metrics_of pair in
        let wins : Bool =
          d.lt best.net_profit m.net_profit_krw
          || (d.eqb m.net_profit_krw best.net_profit && d.lt best.net_edge m.net_edge_pct) in
        rw (consider_cases now pair best, ok)
          (elim (Bool-cases wins) [
            | inl taken ↦ rw taken (lt_irrefl laws m.net_profit_krw)
            | inr left ↦ rw left (ground (arith, left))
          ])

    find_best_pair-above :
        (clock : ℕ → ℕ) (place : ℕ) (pairs : List ExchangePair) (best : BestPair F)
        → IsBestOf clock place pairs (find_best_pair clock place symbol foreign_symbol e pairs best)
    unfolding find_best_pair
    find_best_pair-above clock place [] best = tt
    find_best_pair-above clock place (pair ∷ pairs) best = (
      elim (Bool-cases (is_eligible (clock place) pair)) [
        | inl ok ↦ rw ok (
            find-rises clock (place + 1) pairs _ (metrics_of pair).net_profit_krw
              (consider-above (clock place) pair best ok))
        | inr skipped ↦ rw skipped refl
      ],
      find_best_pair-above clock (place + 1) pairs _,
    )

    -- The search over the pairs ends with what it starts from or with one of the pairs: with its venues, its quotes,
    -- its rate and its metrics, and one that is eligible at the clock's reading for its place, that is, enabled, with
    -- a transfer route, usable quotes with an ask and a bid that are not 0 or less, and a rate that is not. No
    -- eligible pair has a greater net profit than what it ends with.
    pub find_best_pair-IsBestOf :
        (clock : ℕ → ℕ) (place : ℕ) (pairs : List ExchangePair) (best : BestPair F)
        → let found = find_best_pair clock place symbol foreign_symbol e pairs best in
          ((found ≡ best) ⊎ IsOneOf clock place pairs found) × IsBestOf clock place pairs found
    find_best_pair-IsBestOf clock place pairs best =
        (find_best_pair-cases clock place pairs best, find_best_pair-above clock place pairs best)
