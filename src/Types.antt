-- ===== src/Types.antt =====
-- kimp_arb_cpp/include/kimp/core/types.hpp: venues, symbols, positions, orders and the trading constants.
pub mod Symbol
pub mod TradingConfig
pub mod Trade
mod Tests
use spot_spot_relay_arbitrag.Prelude.{ℕ, ◌≡◌, refl, Bool, true, false, ◌||◌, ◌↔◌, arith}
use spot_spot_relay_arbitrag.Prelude.Map.{Eq}

pub data Exchange : Type 0 where
  bithumb bybit okx upbit : Exchange

-- `static_cast<size_t>(ex)`.
abbrev pub exchange_index : Exchange → ℕ
exchange_index bithumb = 0
exchange_index bybit = 1
exchange_index okx = 2
exchange_index upbit = 3

abbrev pub exchange_beq : Exchange → Exchange → Bool
exchange_beq bithumb bithumb = true
exchange_beq bybit bybit = true
exchange_beq okx okx = true
exchange_beq upbit upbit = true
exchange_beq _ _ = false

pub exchange_beq_iff : (a b : Exchange) → (exchange_beq a b ≡ true) ↔ (a ≡ b)
exchange_beq_iff a b = ground arith

instance abbrev pub eq_exchange : Eq Exchange
eq_exchange = record { beq = exchange_beq; beq_iff = exchange_beq_iff }

unfoldable pub is_korean_exchange : Exchange → Bool
is_korean_exchange ex = exchange_beq ex bithumb || exchange_beq ex upbit

unfoldable pub is_foreign_exchange : Exchange → Bool
is_foreign_exchange ex = exchange_beq ex bybit || exchange_beq ex okx
