-- ===== src/Execution/OrderManager/Example.antt =====
-- An entry and an exit of one coin, on venues that fill every order with 40 coins: data for the tests.
use spot_spot_relay_arbitrag.Prelude.{ℕ, Bool, true, false, List, [], ◌∷◌, none}
use spot_spot_relay_arbitrag.Double.Fixed.{Fixed, of_decimal, fixed_double}
use spot_spot_relay_arbitrag.Types.{bithumb, bybit}
use spot_spot_relay_arbitrag.Types.Symbol.{SymbolId, symbol_id}
use spot_spot_relay_arbitrag.Types.Trade.{Position, no_position, Order, no_order, filled}
use spot_spot_relay_arbitrag.Strategy.CapitalTracker.{new_capital}
use spot_spot_relay_arbitrag.Strategy.Engine.{ArbitrageSignal, ExitSignal}
use spot_spot_relay_arbitrag.Execution.OrderManager.{Manager, Venues}
use spot_spot_relay_arbitrag.Execution.OrderManager.Snapshot.{Holding}
use spot_spot_relay_arbitrag.Execution.OrderManager.Market.{Round, Market}
use spot_spot_relay_arbitrag.Execution.OrderManager.Entry.{EntryContext}

abbrev pub amount_of : ℕ → Fixed
amount_of n = of_decimal n 0

abbrev pub xrp : SymbolId
xrp = symbol_id (b'X' ∷ b'R' ∷ b'P' ∷ []) (b'K' ∷ b'R' ∷ b'W' ∷ [])

abbrev pub xrp_usdt : SymbolId
xrp_usdt = symbol_id (b'X' ∷ b'R' ∷ b'P' ∷ []) (b'U' ∷ b'S' ∷ b'D' ∷ b'T' ∷ [])

abbrev pub filled_order : Order Fixed
filled_order = record no_order {
  status = filled;
  quantity = amount_of 40;
  filled_quantity = amount_of 40;
}

instance abbrev pub filling : Venues Fixed
filling = record {
  answer = λ rs r. filled_order;
  get_balance = λ ex base. amount_of 3;
  get_short_positions = λ ex. [];
  prepare_shorting = λ ex s. true;
}

abbrev pub manager : Manager Fixed
manager = record {
  has_bithumb = true;
  has_upbit = false;
  has_bybit = true;
  has_okx = false;
  engine = none;
  capital = new_capital;
  running = true;
  has_update_callback = true;
  has_trade_callback = true;
  external_position_blacklist = [];
  requests = [];
  position_updates = [];
  completed_trades = [];
}

abbrev pub round_until : Bool → Round Fixed
round_until stop = record {
  on_round = λ e. e;
  shutdown = stop;
  now_ms = 5;
  system_now = 9;
  next_now = 9;
}

abbrev pub rounds : List (Round Fixed)
rounds = round_until false ∷ round_until true ∷ []

-- 1000 KRW in Korea against 1 USDT abroad, at 1400 KRW for a USDT.
abbrev pub signal : ArbitrageSignal Fixed
signal = record {
  symbol = xrp;
  korean_exchange = bithumb;
  foreign_exchange = bybit;
  premium = amount_of 0;
  korean_ask = amount_of 1000;
  korean_ask_qty = amount_of 1000;
  foreign_bid = amount_of 1;
  foreign_bid_qty = amount_of 1000;
  match_qty = amount_of 1000;
  target_coin_qty = amount_of 100;
  max_tradable_usdt_at_best = amount_of 700;
  gross_edge_pct = amount_of 28;
  net_edge_pct = amount_of 28;
  net_profit_krw = amount_of 9000;
  both_can_fill_target = true;
  usdt_krw_rate = amount_of 1400;
}

abbrev pub position : Position Fixed
position = record no_position {
  symbol = xrp;
  korean_exchange = bithumb;
  foreign_exchange = bybit;
  korean_entry_price = amount_of 1000;
  foreign_entry_price = amount_of 1;
  korean_amount = amount_of 40;
  foreign_amount = amount_of 40;
  is_active = true;
}

abbrev pub exit_signal : ExitSignal Fixed
exit_signal = record {
  symbol = xrp;
  korean_exchange = bithumb;
  foreign_exchange = bybit;
  premium = amount_of 7;
  korean_bid = amount_of 1500;
  foreign_ask = amount_of 1;
  usdt_krw_rate = amount_of 1400;
}

abbrev pub context : EntryContext Fixed
context = record {
  signal = signal;
  legs = record {
    korean_exchange = bithumb;
    foreign_exchange = bybit;
    symbol = xrp;
    foreign_symbol = xrp_usdt;
  };
  position_size_usd = amount_of 300;
}

abbrev pub holding : Holding Fixed
holding = record {
  amount = amount_of 40;
  korean_cost = amount_of 40000;
  foreign_value = amount_of 40;
  realized_pnl_krw = amount_of 0;
}

abbrev pub market : Market Fixed
market = record {
  foreign_bid = amount_of 1;
  foreign_ask = amount_of 1;
  foreign_bid_qty = amount_of 1000;
  korean_ask = amount_of 1000;
  korean_bid = amount_of 999;
  korean_ask_qty = amount_of 1000;
  usdt_rate = amount_of 1400;
  quote_pair_ok = true;
}
