-- ===== src/Strategy/PriceCache.antt =====
-- kimp_arb_cpp/include/kimp/strategy/arbitrage_engine.hpp: the prices and the USDT rates of `PriceCache`.
-- The prices of a key stand in one of 64 shards, each a dictionary of its own behind a lock. An update and a
-- lookup of one shard are single steps. The child Routes has the withdrawal fees and the transfer routes.
pub mod Routes
pub mod Lookup
mod Tests
use spot_spot_relay_arbitrag.Prelude.{
  ℕ, ◌+◌, ◌-◌, ◌*◌, ◌≡◌, ◌↔◌, Bool, true, false, ◌&&◌, List, [], ◌∷◌, Option, none, some, arith,
  bit_and, bit_xor, if◌then◌else◌, ◌==◌, get_or, set, replicate, length, map,
}
use spot_spot_relay_arbitrag.Prelude.Map.{Eq, lookup, insert}
use spot_spot_relay_arbitrag.Double.{Double, zero_f}
use spot_spot_relay_arbitrag.Types.{
  Exchange, bithumb, upbit, exchange_index, exchange_beq, exchange_beq_iff,
}
use spot_spot_relay_arbitrag.Types.Symbol.{SymbolId, symbol_beq, symbol_beq_iff, hash}
use spot_spot_relay_arbitrag.Strategy.Quote.{PriceData, no_price}

pub record PriceEntry {ℓ} (F : Type ℓ) : Type ℓ where
  pub bid : F
  pub ask : F
  pub bid_qty : F
  pub ask_qty : F
  pub last : F
  pub timestamp : ℕ

pub record PriceKey : Type 0 where
  pub exchange : Exchange
  pub symbol : SymbolId

abbrev pub price_key_beq : PriceKey → PriceKey → Bool
price_key_beq a b = exchange_beq a.exchange b.exchange && symbol_beq a.symbol b.symbol

pub price_key_beq_iff : (a b : PriceKey) → (price_key_beq a b ≡ true) ↔ (a ≡ b)
price_key_beq_iff a b =
    ground (arith, exchange_beq_iff a.exchange b.exchange, symbol_beq_iff a.symbol b.symbol)

instance abbrev pub eq_price_key : Eq PriceKey
eq_price_key = record { beq = price_key_beq; beq_iff = price_key_beq_iff }

abbrev pub make_key : Exchange → SymbolId → PriceKey
make_key ex symbol = record { exchange = ex; symbol = symbol }

abbrev pub shard_count : ℕ
shard_count = 64

abbrev pub price_key_hash : PriceKey → ℕ
price_key_hash k = bit_xor (exchange_index k.exchange * 2_654_435_761) (hash k.symbol)

unfoldable pub shard_index : PriceKey → ℕ
shard_index key = bit_and (price_key_hash key) (shard_count - 1)

pub record Prices {ℓ} (F : Type ℓ) : Type ℓ where
  pub shards : List (List (PriceKey × PriceEntry F))
  pub usdt_krw_bithumb : F
  pub usdt_krw_upbit : F

module _ {ℓ} {F : Type ℓ} ⦃d : Double F⦄ where
  unfoldable pub no_prices : Prices F
  no_prices = record {
    shards = replicate shard_count [];
    usdt_krw_bithumb = zero_f;
    usdt_krw_upbit = zero_f;
  }

  -- The fast path keeps a quantity when the new one is not positive; the slow path makes the entry.
  abbrev pub next_entry : Option (PriceEntry F) → F → F → F → ℕ → F → F → PriceEntry F
  next_entry none bid ask last ts bid_qty ask_qty = record {
    bid = bid;
    ask = ask;
    bid_qty = bid_qty;
    ask_qty = ask_qty;
    last = last;
    timestamp = ts;
  }
  next_entry (some entry) bid ask last ts bid_qty ask_qty = record {
    bid = bid;
    ask = ask;
    bid_qty = if d.lt zero_f bid_qty then bid_qty else entry.bid_qty;
    ask_qty = if d.lt zero_f ask_qty then ask_qty else entry.ask_qty;
    last = last;
    timestamp = ts;
  }

  -- `now_ms` is the reading of the clock, which is taken when the timestamp is 0.
  unfoldable pub update : ℕ → Exchange → SymbolId → F → F → F → ℕ → F → F → Prices F → Prices F
  update now_ms ex symbol bid ask last timestamp_ms bid_qty ask_qty c =
      let key = make_key ex symbol in
      let idx = shard_index key in
      let ts = if timestamp_ms == 0 then now_ms else timestamp_ms in
      let shard = get_or c.shards idx [] in
      let entry = next_entry (lookup key shard) bid ask last ts bid_qty ask_qty in
      record c { shards = set c.shards idx (insert key entry shard) }

  -- What `get_price` returns for what `find` gives.
  abbrev pub price_of : Option (PriceEntry F) → PriceData F
  price_of none = no_price
  price_of (some entry) = record {
    bid = entry.bid;
    ask = entry.ask;
    bid_qty = entry.bid_qty;
    ask_qty = entry.ask_qty;
    last = entry.last;
    timestamp = entry.timestamp;
    valid = true;
  }

  unfoldable pub get_price : Exchange → SymbolId → Prices F → PriceData F
  get_price ex symbol c =
      let key = make_key ex symbol in price_of (lookup key (get_or c.shards (shard_index key) []))

  -- Only the Korean venues have a rate; the others' updates change nothing.
  unfoldable pub update_usdt_krw : Exchange → F → Prices F → Prices F
  update_usdt_krw ex price c =
      if exchange_beq ex bithumb
      then record c { usdt_krw_bithumb = price }
      else if exchange_beq ex upbit
      then record c { usdt_krw_upbit = price }
      else c

  unfoldable pub get_usdt_krw : Exchange → Prices F → F
  get_usdt_krw ex c =
      if exchange_beq ex bithumb
      then c.usdt_krw_bithumb
      else if exchange_beq ex upbit
      then c.usdt_krw_upbit
      else zero_f
