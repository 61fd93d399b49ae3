-- ===== src/Strategy/Engine/ExitRule.antt =====
-- Which positions signal an exit.
use mathlib.Core.List.{append-nil, append_assoc}
use spot_spot_relay_arbitrag.Prelude.{
  ℕ, ◌+◌, ◌≡◌, sym, ap, ◌∙◌, Bool, true, not, ◌&&◌, ◌||◌, List, [], ◌∷◌, ◌++◌, none, some, arith,
  All, Bool-cases, inl, inr, if◌then◌else◌,
}
use spot_spot_relay_arbitrag.Double.{Double, zero_f, max_f}
use spot_spot_relay_arbitrag.Double.Laws.{
  IsIeee, IsNumber, lt_of_lt_of_le, le-max_f_left, le-max_f_right,
}
use spot_spot_relay_arbitrag.Types.Trade.{Position}
use spot_spot_relay_arbitrag.Types.TradingConfig.{dynamic_exit_spread, exit_premium_threshold}
use spot_spot_relay_arbitrag.Strategy.Quote.{quote_pair_is_usable}
use spot_spot_relay_arbitrag.Strategy.Premium.{calculate_exit_premium}
use spot_spot_relay_arbitrag.Strategy.PriceCache.{get_price, get_usdt_krw}
use spot_spot_relay_arbitrag.Strategy.PositionTracker.{get_active_positions, has_any_position}
use spot_spot_relay_arbitrag.Strategy.PositionTracker.Invariant.{IsValid, none_active}
use spot_spot_relay_arbitrag.Strategy.Engine.{ExitSignal, Engine}
use spot_spot_relay_arbitrag.Strategy.Engine.Exit.{
  exit_signal_of, check_positions, check_exit_conditions, foreign_symbol_for,
}

module _ {ℓ} {F : Type ℓ} ⦃d : Double F⦄ where
  -- The level that a position exits at is a number.
  abbrev pub HasLevel : Position F → Type 0
  HasLevel pos = IsNumber (d.add pos.entry_premium dynamic_exit_spread)

  -- A premium reaches the greater of two levels just if it reaches both.
  reaches-max :
      IsIeee F → (p a b : F) → IsNumber a → IsNumber b → d.lt p (max_f a b) ≡ (d.lt p a || d.lt p b)
  reaches-max laws p a b na nb = ground (
    arith,
    lt_of_lt_of_le laws p a (max_f a b),
    lt_of_lt_of_le laws p b (max_f a b),
    le-max_f_left laws a b na nb,
    le-max_f_right laws a b na nb,
  )

module _ {ℓ} {F : Type ℓ} ⦃d : Double F⦄ (clock : ℕ → ℕ) (e : Engine F) where
  abbrev exit_premium_of : Position F → F
  exit_premium_of pos =
      calculate_exit_premium (get_price pos.korean_exchange pos.symbol e.prices).bid
        (get_price pos.foreign_exchange (foreign_symbol_for pos.symbol e) e.prices).ask
        (get_usdt_krw pos.korean_exchange e.prices)

  -- The quotes of the position's venues are usable, its rate is not 0 or less, and its exit premium is not below
  -- its entry premium and the spread, nor below the fixed threshold.
  abbrev pub is_due : ℕ → Position F → Bool
  is_due now pos =
      let kp = get_price pos.korean_exchange pos.symbol e.prices in
      let fp = get_price pos.foreign_exchange (foreign_symbol_for pos.symbol e) e.prices in
      ((kp.valid && not (d.le kp.bid zero_f))
        && ((fp.valid && not (d.le fp.ask zero_f)) && quote_pair_is_usable now kp fp true))
      && (not (d.le (get_usdt_krw pos.korean_exchange e.prices) zero_f)
          && (not (d.lt (exit_premium_of pos) (d.add pos.entry_premium dynamic_exit_spread))
              && not (d.lt (exit_premium_of pos) exit_premium_threshold)))

  abbrev pub signal_for : Position F → ExitSignal F
  signal_for pos = record {
    symbol = pos.symbol;
    korean_exchange = pos.korean_exchange;
    foreign_exchange = pos.foreign_exchange;
    premium = exit_premium_of pos;
    korean_bid = (get_price pos.korean_exchange pos.symbol e.prices).bid;
    foreign_ask = (get_price pos.foreign_exchange (foreign_symbol_for pos.symbol e) e.prices).ask;
    usdt_krw_rate = get_usdt_krw pos.korean_exchange e.prices;
  }

  -- The signals of the positions that are due, each at the clock's reading for its place.
  abbrev pub signals_due : ℕ → List (Position F) → List (ExitSignal F)
  signals_due place [] = []
  signals_due place (pos ∷ rest) =
      let later = signals_due (place + 1) rest in
      if is_due (clock place) pos then signal_for pos ∷ later else later

  abbrev with_exits : List (ExitSignal F) → Engine F
  with_exits signals = record e { exit_signals = signals }

  module _ (laws : IsIeee F) where
    exit_signal_of-due :
        (now : ℕ) (pos : Position F) (signals : List (ExitSignal F))
        → HasLevel pos
        → exit_signal_of now pos.symbol (foreign_symbol_for pos.symbol e) pos (with_exits signals)
          ≡ (if is_due now pos then some (signal_for pos) else none)
    unfolding exit_signal_of
    exit_signal_of-due now pos signals level = ground (
      arith,
      reaches-max laws (exit_premium_of pos) (d.add pos.entry_premium dynamic_exit_spread)
          exit_premium_threshold level (laws.dec_le _ _ _ _ (omega arith)),
    )

    check_positions_lem :
        (place : ℕ) (positions : List (Position F)) (signals : List (ExitSignal F))
        → All HasLevel positions
        → check_positions clock place positions (with_exits signals)
          ≡ with_exits (signals ++ signals_due place positions)
    unfolding check_positions
    check_positions_lem place [] signals levels = ap with_exits (sym (append-nil signals))
    check_positions_lem place (pos ∷ rest) signals (level, levels) =
        rw (exit_signal_of-due (clock place) pos signals level)
          (elim (Bool-cases (is_due (clock place) pos)) [
            | inr no_exit ↦ rw no_exit (check_positions_lem (place + 1) rest signals levels)
            | inl due ↦ rw due (
                check_positions_lem (place + 1) rest (signals ++ (signal_for pos ∷ [])) levels
                ∙ ap with_exits (append_assoc signals (signal_for pos ∷ []) _))
          ])

  -- Let the tracker be valid, and each active position's entry premium with the spread be a number. The check of all
  -- positions appends, in the order of the tracker, the signals of exactly the active positions that are due, and
  -- changes nothing else: those with usable quotes, a bid, an ask and a rate that are not 0 or less, and an exit
  -- premium that is neither below the entry premium and the spread nor below the fixed threshold.
  pub check_exit_conditions_lem :
      IsIeee F
      → IsValid e.tracker
      → All HasLevel (get_active_positions e.tracker)
      → check_exit_conditions clock e ≡ record e {
        exit_signals = e.exit_signals ++ signals_due 0 (get_active_positions e.tracker);
      }
  unfolding check_exit_conditions
  check_exit_conditions_lem laws valid levels = elim (Bool-cases (has_any_position e.tracker)) [
    | inl t ↦
        rw t (check_positions_lem laws 0 (get_active_positions e.tracker) e.exit_signals levels)
    | inr f ↦
        rw (f, none_active e.tracker valid f) (ap with_exits (sym (append-nil e.exit_signals)))
  ]
