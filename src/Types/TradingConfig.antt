-- ===== src/Types/TradingConfig.antt =====
-- `TradingConfig`: the constants and the tests on them. `MAX_POSITIONS` is set at run time, and is an
-- argument of what reads it.
use spot_spot_relay_arbitrag.Prelude.{ℕ, Bool, ◌&&◌, if◌then◌else◌}
use spot_spot_relay_arbitrag.Double.{Double, zero_f}
use spot_spot_relay_arbitrag.Types.{Exchange, upbit, okx, exchange_beq}

abbrev pub max_quote_age_ms : ℕ
max_quote_age_ms = 700

abbrev pub max_quote_desync_ms : ℕ
max_quote_desync_ms = 350

abbrev pub max_quote_age_ms_exit : ℕ
max_quote_age_ms_exit = 8000

abbrev pub max_quote_desync_ms_exit : ℕ
max_quote_desync_ms_exit = 5000

abbrev pub usdt_full_scan_debounce_ms : ℕ
usdt_full_scan_debounce_ms = 40

abbrev pub entry_fast_scan_cooldown_ms : ℕ
entry_fast_scan_cooldown_ms = 20

module _ {ℓ} {F : Type ℓ} ⦃d : Double F⦄ where
  abbrev pub capital_per_exchange_usd : F
  capital_per_exchange_usd = d.dec 3000 0

  abbrev pub total_capital_usd : F
  total_capital_usd = d.mul capital_per_exchange_usd (d.dec 2 0)

  abbrev pub target_entry_usdt : F
  target_entry_usdt = d.dec 35 0

  abbrev pub order_size_usd : F
  order_size_usd = target_entry_usdt

  abbrev pub min_order_krw : F
  min_order_krw = d.dec 5_000 0

  abbrev pub position_size_usd : F
  position_size_usd = capital_per_exchange_usd

  abbrev pub entry_premium_threshold : F
  entry_premium_threshold = zero_f

  abbrev pub min_net_edge_pct : F
  min_net_edge_pct = zero_f

  abbrev pub min_entry_net_profit_krw : F
  min_entry_net_profit_krw = d.dec 600 0

  abbrev pub korean_fee_events : F
  korean_fee_events = d.dec 1 0

  abbrev pub foreign_fee_events : F
  foreign_fee_events = d.dec 3 0

  abbrev pub bithumb_fee_rate : F
  bithumb_fee_rate = d.dec 4 4

  abbrev pub upbit_fee_rate : F
  upbit_fee_rate = d.dec 5 4

  abbrev pub bybit_fee_rate : F
  bybit_fee_rate = d.dec 10 4

  abbrev pub okx_fee_rate : F
  okx_fee_rate = d.dec 10 4

  unfoldable pub get_korean_fee_rate : Exchange → F
  get_korean_fee_rate ex = if exchange_beq ex upbit then upbit_fee_rate else bithumb_fee_rate

  unfoldable pub get_foreign_fee_rate : Exchange → F
  get_foreign_fee_rate ex = if exchange_beq ex okx then okx_fee_rate else bybit_fee_rate

  abbrev pub bithumb_fee_pct : F
  bithumb_fee_pct = d.mul bithumb_fee_rate (d.dec 100 0)

  abbrev pub bybit_fee_pct : F
  bybit_fee_pct = d.mul bybit_fee_rate (d.dec 100 0)

  abbrev pub entry_total_fee_pct : F
  entry_total_fee_pct =
      d.add (d.mul bithumb_fee_pct korean_fee_events) (d.mul bybit_fee_pct foreign_fee_events)

  abbrev pub min_net_profit_pct : F
  min_net_profit_pct = zero_f

  abbrev pub dynamic_exit_spread : F
  dynamic_exit_spread = d.add entry_total_fee_pct min_net_profit_pct

  abbrev pub exit_premium_threshold : F
  exit_premium_threshold = d.dec 25 2

  abbrev pub hedge_quantity_tolerance_ratio : F
  hedge_quantity_tolerance_ratio = d.dec 5 5

  abbrev pub max_korean_spread_pct : F
  max_korean_spread_pct = d.dec 120 2

  abbrev pub max_foreign_spread_pct : F
  max_foreign_spread_pct = d.dec 40 2

  abbrev pub max_korean_spread_pct_exit : F
  max_korean_spread_pct_exit = d.dec 350 2

  abbrev pub max_foreign_spread_pct_exit : F
  max_foreign_spread_pct_exit = d.dec 150 2

  abbrev pub max_usdt_jump_pct : F
  max_usdt_jump_pct = d.dec 150 2

  unfoldable pub meets_entry_profit_floor : F → Bool
  meets_entry_profit_floor net_profit_krw = d.le min_entry_net_profit_krw net_profit_krw

  unfoldable pub entry_gate_passes : Bool → F → F → F → Bool
  unfolding meets_entry_profit_floor
  entry_gate_passes both_can_fill_target match_qty net_edge_pct net_profit_krw =
      both_can_fill_target
      && d.lt zero_f match_qty
      && d.lt min_net_edge_pct net_edge_pct
      && meets_entry_profit_floor net_profit_krw
