-- ===== src/Types/Trade.antt =====
-- `Position`, `Order` and `OrderStatus`. Times are milliseconds.
use spot_spot_relay_arbitrag.Prelude.{ℕ, Bool, true, false, List, []}
use spot_spot_relay_arbitrag.Double.{Double, zero_f}
use spot_spot_relay_arbitrag.Types.{Exchange, bithumb}
use spot_spot_relay_arbitrag.Types.Symbol.{SymbolId, no_symbol}

pub record Position {ℓ} (F : Type ℓ) : Type ℓ where
  pub symbol : SymbolId
  pub korean_exchange : Exchange
  pub foreign_exchange : Exchange
  pub entry_time : ℕ
  pub entry_premium : F
  pub korean_entry_price : F
  pub foreign_entry_price : F
  pub position_size_usd : F
  pub korean_amount : F
  pub foreign_amount : F
  pub is_active : Bool
  pub exit_time : ℕ
  pub exit_premium : F
  pub korean_exit_price : F
  pub foreign_exit_price : F
  pub realized_pnl_krw : F

-- `Position{}`.
abbrev pub no_position {ℓ} : {F : Type ℓ} ⦃d : Double F⦄ → Position F
no_position = record {
  symbol = no_symbol;
  korean_exchange = bithumb;
  foreign_exchange = bithumb;
  entry_time = 0;
  entry_premium = zero_f;
  korean_entry_price = zero_f;
  foreign_entry_price = zero_f;
  position_size_usd = zero_f;
  korean_amount = zero_f;
  foreign_amount = zero_f;
  is_active = false;
  exit_time = 0;
  exit_premium = zero_f;
  korean_exit_price = zero_f;
  foreign_exit_price = zero_f;
  realized_pnl_krw = zero_f;
}

pub data OrderStatus : Type 0 where
  new partially_filled filled cancelled rejected expired : OrderStatus

abbrev pub is_complete : OrderStatus → Bool
is_complete filled = true
is_complete cancelled = true
is_complete rejected = true
is_complete expired = true
is_complete _ = false

pub data Side : Type 0 where
  buy sell : Side

pub data OrderType : Type 0 where
  market limit : OrderType

pub record Order {ℓ} (F : Type ℓ) : Type ℓ where
  pub client_order_id : ℕ
  pub exchange_order_id : ℕ
  pub exchange : Exchange
  pub symbol : SymbolId
  pub side : Side
  pub order_type : OrderType
  pub status : OrderStatus
  pub price : F
  pub quantity : F
  pub filled_quantity : F
  pub average_price : F
  -- Its characters.
  pub order_id_str : List ℕ
  pub create_time : ℕ
  pub update_time : ℕ

-- `Order{}`.
abbrev pub no_order {ℓ} : {F : Type ℓ} ⦃d : Double F⦄ → Order F
no_order = record {
  client_order_id = 0;
  exchange_order_id = 0;
  exchange = bithumb;
  symbol = no_symbol;
  side = buy;
  order_type = market;
  status = new;
  price = zero_f;
  quantity = zero_f;
  filled_quantity = zero_f;
  average_price = zero_f;
  order_id_str = [];
  create_time = 0;
  update_time = 0;
}

-- `status == OrderStatus::Filled`.
abbrev pub is_filled : OrderStatus → Bool
is_filled filled = true
is_filled _ = false
