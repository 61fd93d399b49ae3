-- ===== src/Execution/OrderManager/Blacklist.antt =====
-- kimp_arb_cpp/src/execution/order_manager.cpp: the symbols that are held outside the bot, and the preparation of
-- the symbols that are sold short. The blacklist is a set, given by a list of its items.
pub mod Exact
use spot_spot_relay_arbitrag.Prelude.{
  ℕ, zero, suc, ◌+◌, Bool, true, false, not, ◌&&◌, List, [], ◌∷◌, Option, none, some, if◌then◌else◌,
  ◌==◌,
}
use spot_spot_relay_arbitrag.Prelude.Map.{member, eq_list, eq_ℕ}
use spot_spot_relay_arbitrag.Double.{Double}
use spot_spot_relay_arbitrag.Types.{Exchange, bithumb, upbit, bybit, okx}
use spot_spot_relay_arbitrag.Types.Symbol.{SymbolId, symbol_id, get_base, eq_symbol}
use spot_spot_relay_arbitrag.Types.Trade.{Position}
use spot_spot_relay_arbitrag.Strategy.PriceCache.Routes.Finalize.{is_transfer_route_available}
use spot_spot_relay_arbitrag.Strategy.Engine.{Engine, usdt}
use spot_spot_relay_arbitrag.Execution.OrderManager.{Manager, Venues, has_korean_exchange}

-- "KRW" and "BTC".
abbrev pub krw : List ℕ
krw = b'K' ∷ b'R' ∷ b'W' ∷ []

abbrev pub btc : List ℕ
btc = b'B' ∷ b'T' ∷ b'C' ∷ []

-- `insert` of a set.
abbrev pub add_item : SymbolId → List SymbolId → List SymbolId
add_item s set = if member s set then set else s ∷ set

-- The symbols "BASE/USDT", each base once, in the order in which they first stand.
unfoldable pub unique_symbols : List (List ℕ) → List SymbolId → List SymbolId
unique_symbols seen_bases [] = []
unique_symbols seen_bases (symbol ∷ symbols) =
    let base = get_base symbol in
    if member base seen_bases
    then unique_symbols seen_bases symbols
    else symbol_id base usdt ∷ unique_symbols (base ∷ seen_bases) symbols

abbrev pub or_btc : List SymbolId → List SymbolId
or_btc [] = symbol_id btc usdt ∷ []
or_btc (symbol ∷ symbols) = symbol ∷ symbols

unfoldable pub count_prepared : (SymbolId → Bool) → List SymbolId → ℕ
count_prepared prepare_shorting [] = 0
count_prepared prepare_shorting (symbol ∷ symbols) =
    count_prepared prepare_shorting symbols + (if prepare_shorting symbol then 1 else 0)

abbrev pub prepare_on : (SymbolId → Bool) → Bool → List SymbolId → Bool
prepare_on prepare_shorting has symbols =
    has && not (count_prepared prepare_shorting (or_btc (unique_symbols [] symbols)) == 0)

module _ {ℓ} {F : Type ℓ} ⦃d : Double F⦄ ⦃v : Venues F⦄ where
  abbrev pub dust : F
  dust = d.dec 1 4

  -- The loop over the symbols for a Korean venue.
  unfoldable pub block_balances :
      (List ℕ → F) → List SymbolId → List SymbolId → List SymbolId → List SymbolId
  block_balances get_balance bot_managed [] blacklist = blacklist
  block_balances get_balance bot_managed (sym ∷ symbols) blacklist =
      block_balances get_balance bot_managed symbols (
        if member sym bot_managed
        then blacklist
        else if d.lt dust (get_balance (get_base sym))
        then add_item sym blacklist
        else blacklist)

  abbrev pub krw_symbol : Position F → SymbolId
  krw_symbol pos = symbol_id (get_base pos.symbol) krw

  -- The loop over the short positions of a foreign venue.
  unfoldable pub block_shorts : List SymbolId → List (Position F) → List SymbolId → List SymbolId
  block_shorts bot_managed [] blacklist = blacklist
  block_shorts bot_managed (pos ∷ positions) blacklist = block_shorts bot_managed positions (
      if not (d.lt dust pos.foreign_amount)
      then blacklist
      else if member (krw_symbol pos) bot_managed
      then blacklist
      else add_item (krw_symbol pos) blacklist)

  unfoldable pub new_blacklist : List SymbolId → List SymbolId → Manager F → List SymbolId
  new_blacklist symbols bot_managed m =
      let of_venue = λ (ex : Exchange) (blacklist : List SymbolId).
        if has_korean_exchange ex m
        then block_balances (v.get_balance ex) bot_managed symbols blacklist
        else blacklist in
      let of_shorts = λ (ex : Exchange) (has : Bool) (blacklist : List SymbolId).
        if has then block_shorts bot_managed (v.get_short_positions ex) blacklist else blacklist in
      of_shorts okx m.has_okx (of_shorts bybit m.has_bybit (of_venue upbit (of_venue bithumb [])))

  unfoldable pub refresh_external_positions : List SymbolId → List SymbolId → Manager F → Manager F
  unfolding new_blacklist
  refresh_external_positions symbols bot_managed m = record m {
    external_position_blacklist = new_blacklist symbols bot_managed m;
  }

  unfoldable pub prepare_bybit_shorting : List SymbolId → Manager F → Bool
  prepare_bybit_shorting symbols m = prepare_on (v.prepare_shorting bybit) m.has_bybit symbols

  unfoldable pub prepare_okx_shorting : List SymbolId → Manager F → Bool
  prepare_okx_shorting symbols m = prepare_on (v.prepare_shorting okx) m.has_okx symbols

module _ {ℓ} {F : Type ℓ} ⦃d : Double F⦄ where
  abbrev pub route_open : Exchange → Exchange → SymbolId → Option (Engine F) → Bool
  route_open korean_ex foreign_ex symbol none = true
  route_open korean_ex foreign_ex symbol (some e) =
      is_transfer_route_available korean_ex foreign_ex (get_base symbol) e.transfers

  unfoldable pub is_safe_to_trade : SymbolId → Exchange → Exchange → Manager F → Bool
  is_safe_to_trade symbol korean_ex foreign_ex m =
      if member symbol m.external_position_blacklist
      then false
      else if not (route_open korean_ex foreign_ex symbol m.engine)
      then false
      else true
