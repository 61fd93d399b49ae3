-- ===== src/Strategy/PriceCache/Tests.antt =====
-- A price that is written and read, and the routes of one coin, with the theorems there.
use spot_spot_relay_arbitrag.Prelude.{
  ℕ, ◌≡◌, refl, false, true, List, [], ◌∷◌, some, none, length-replicate, if◌then◌else◌,
}
use spot_spot_relay_arbitrag.Prelude.Map.{lookup, insert}
use spot_spot_relay_arbitrag.Double.{zero_f}
use spot_spot_relay_arbitrag.Double.Fixed.{Fixed, of_decimal, fixed_double, Fixed-IsIeee}
use spot_spot_relay_arbitrag.Types.{bithumb, bybit}
use spot_spot_relay_arbitrag.Types.Symbol.{SymbolId, symbol_id, fill_chars}
use spot_spot_relay_arbitrag.Strategy.PriceCache.Routes.Clear.{
  clear_foreign_deposit_networks, clear_withdraw_network_fees, clear-closed,
}
use spot_spot_relay_arbitrag.Strategy.PriceCache.{
  Prices, PriceKey, PriceEntry, no_prices, update, get_price,
}
use spot_spot_relay_arbitrag.Strategy.PriceCache.Lookup.{
  IsSharded, next_price, get_price-update, update-IsSharded,
}
use spot_spot_relay_arbitrag.Strategy.PriceCache.Routes.{
  NetworkFee, Transfers, set_withdraw_network_fees, set_foreign_deposit_networks,
  get_withdraw_fee_locked, deposit_nets, withdraw_fees, is_enabled, cheapest,
}
use spot_spot_relay_arbitrag.Strategy.PriceCache.Routes.Chains.{normalize_chain}
use spot_spot_relay_arbitrag.Strategy.PriceCache.Routes.Cheapest.{
  IsTransferRoute, get_withdraw_fee_locked-available,
}
use spot_spot_relay_arbitrag.Strategy.PriceCache.Routes.Finalize.{
  finalize_withdraw_fees, get_transfer_route, get_withdraw_fee, is_transfer_route_available,
  all_coins, korean_exs, foreign_exs,
}
use spot_spot_relay_arbitrag.Strategy.PriceCache.Routes.Snapshot.{
  is_covered, get_transfer_route-finalize_withdraw_fees, get_withdraw_fee-finalize_withdraw_fees,
}

abbrev btc : SymbolId
btc = symbol_id (b'B' ∷ b'T' ∷ b'C' ∷ []) (b'K' ∷ b'R' ∷ b'W' ∷ [])

no_prices-IsSharded : IsSharded {F = Fixed} no_prices
unfolding no_prices
no_prices-IsSharded = length-replicate {A = List (PriceKey × PriceEntry Fixed)} 64 []

abbrev d : ℕ → Fixed
d n = of_decimal n 0

abbrev seeded : Prices Fixed
seeded = update 9 bithumb btc (d 100) (d 101) (d 100) 5 (d 2) (d 3) no_prices

seeded-IsSharded : IsSharded seeded
seeded-IsSharded =
    update-IsSharded 9 bithumb btc (d 100) (d 101) (d 100) 5 (d 2) (d 3) no_prices
      no_prices-IsSharded

get_price-update_example :
    get_price bithumb btc (update 9 bithumb btc (d 110) (d 111) (d 110) 0 (d 0) (d 4) seeded)
    ≡ next_price (get_price bithumb btc seeded) (d 110) (d 111) (d 110) 9 (d 0) (d 4)
unfolding symbol_id fill_chars
get_price-update_example =
    get_price-update 9 bithumb btc (d 110) (d 111) (d 110) 0 (d 0) (d 4) seeded seeded-IsSharded
      bithumb btc

abbrev coin : List ℕ
coin = b'B' ∷ b'T' ∷ b'C' ∷ []

abbrev fee : List ℕ → ℕ → NetworkFee Fixed
fee network n = record { network = network; fee_coins = of_decimal n 4 }

-- Bithumb sends bitcoin on two networks, and Bybit takes deposits on one, under another spelling.
abbrev transfers : Transfers Fixed
transfers =
    set_foreign_deposit_networks bybit coin
      ((b'b' ∷ b'i' ∷ b't' ∷ b'-' ∷ b'c' ∷ b'o' ∷ b'i' ∷ b'n' ∷ []) ∷ [])
      (set_withdraw_network_fees bithumb coin (fee coin 5 ∷ fee (b'L' ∷ b'N' ∷ []) 1 ∷ []) (record {
        withdraw_network_fees = [];
        foreign_deposit_nets = [];
        korean_withdraw_enabled = [];
        transfer_snapshot = record { fees = []; routes = []; refreshed_at_ms = 0 };
      }))

route_is_available : (get_withdraw_fee_locked bithumb bybit coin 7 transfers).available ≡ true
unfolding get_withdraw_fee_locked set_foreign_deposit_networks set_withdraw_network_fees cheapest
    normalize_chain lookup insert
route_is_available = refl

get_withdraw_fee_locked-available_example :
    IsTransferRoute
      (deposit_nets bybit coin transfers)
      (withdraw_fees bithumb coin transfers)
      (is_enabled bithumb coin transfers)
      (get_withdraw_fee_locked bithumb bybit coin 7 transfers)
get_withdraw_fee_locked-available_example =
    get_withdraw_fee_locked-available Fixed-IsIeee bithumb bybit coin 7 transfers route_is_available

covered : is_covered transfers 7 bithumb bybit coin ≡ true
unfolding all_coins korean_exs foreign_exs set_foreign_deposit_networks set_withdraw_network_fees
    insert lookup
covered = refl

get_transfer_route-finalize_withdraw_fees_example :
    get_transfer_route bithumb bybit coin (finalize_withdraw_fees transfers 7) ≡ (
      if is_covered transfers 7 bithumb bybit coin
      then some (get_withdraw_fee_locked bithumb bybit coin 7 transfers)
      else none)
get_transfer_route-finalize_withdraw_fees_example =
    get_transfer_route-finalize_withdraw_fees transfers 7 bithumb bybit coin

get_withdraw_fee-finalize_withdraw_fees_example :
    get_withdraw_fee bithumb bybit coin (finalize_withdraw_fees transfers 7) ≡ (
      if is_transfer_route_available bithumb bybit coin (finalize_withdraw_fees transfers 7)
      then (get_withdraw_fee_locked bithumb bybit coin 7 transfers).fee_coins
      else zero_f)
get_withdraw_fee-finalize_withdraw_fees_example =
    get_withdraw_fee-finalize_withdraw_fees transfers 7 bithumb bybit coin

clear-closed_example :
    (is_transfer_route_available bithumb bybit coin
        (finalize_withdraw_fees (clear_foreign_deposit_networks bybit transfers) 9)
      ≡ false)
    × (is_transfer_route_available bithumb bybit coin
          (finalize_withdraw_fees (clear_withdraw_network_fees bithumb transfers) 9)
        ≡ false)
clear-closed_example = clear-closed bithumb bybit coin 9 transfers
