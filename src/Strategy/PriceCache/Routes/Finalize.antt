-- ===== src/Strategy/PriceCache/Routes/Finalize.antt =====
-- `finalize_withdraw_fees` of `PriceCache`, which fills a snapshot of all routes, and the lookups in it.
use spot_spot_relay_arbitrag.Prelude.{
  ℕ, Bool, false, List, [], ◌∷◌, ◌++◌, Option, none, some, if◌then◌else◌,
}
use spot_spot_relay_arbitrag.Prelude.Map.{eq_ℕ, eq_list, lookup, insert, member, keys}
use spot_spot_relay_arbitrag.Double.{Double, zero_f}
use spot_spot_relay_arbitrag.Types.{Exchange, bybit, okx, eq_exchange}
use spot_spot_relay_arbitrag.Strategy.PriceCache.Routes.{
  TransferRoute, TransferSnapshot, Transfers, make_fee_key, get_withdraw_fee_locked,
}

-- `all_coins.insert(coin)` for the coins of one dictionary, and of all of them.
abbrev pub coins_of {ℓ} : {V : Type ℓ} → List (Exchange × List (List ℕ × V)) → List (List ℕ)
coins_of [] = []
coins_of ((ex, coins) ∷ m) = keys coins ++ coins_of m

-- `push_back` of the items that are not there.
abbrev pub push_new : List Exchange → List Exchange → List Exchange
push_new exs [] = exs
push_new exs (ex ∷ more) = push_new (if member ex exs then exs else exs ++ (ex ∷ [])) more

module _ {ℓ} {F : Type ℓ} where
  -- A coin that several dictionaries hold is walked again, which writes the same routes.
  unfoldable pub all_coins : Transfers F → List (List ℕ)
  all_coins t =
      coins_of t.withdraw_network_fees
      ++ (coins_of t.foreign_deposit_nets ++ coins_of t.korean_withdraw_enabled)

  unfoldable pub korean_exs : Transfers F → List Exchange
  korean_exs t = push_new (keys t.withdraw_network_fees) (keys t.korean_withdraw_enabled)

  unfoldable pub foreign_exs : Transfers F → List Exchange
  foreign_exs t = elim (keys t.foreign_deposit_nets) [ [] ↦ bybit ∷ okx ∷ [] | ex ∷ exs ↦ ex ∷ exs ]

module _ {ℓ} {F : Type ℓ} ⦃d : Double F⦄ (t : Transfers F) (now_ms : ℕ) where
  -- The body of the three loops.
  abbrev pub publish : List ℕ → Exchange → Exchange → TransferSnapshot F → TransferSnapshot F
  publish coin k_ex f_ex s =
      let route = get_withdraw_fee_locked k_ex f_ex coin now_ms t in
      let key = make_fee_key k_ex f_ex coin in
      record s {
        routes = insert key route s.routes;
        fees = if route.available then insert key route.fee_coins s.fees else s.fees;
      }

  unfoldable pub publish_foreign :
      List ℕ → Exchange → List Exchange → TransferSnapshot F → TransferSnapshot F
  publish_foreign coin k_ex [] s = s
  publish_foreign coin k_ex (f_ex ∷ fs) s = publish_foreign coin k_ex fs (publish coin k_ex f_ex s)

  unfoldable pub publish_korean :
      List ℕ → List Exchange → List Exchange → TransferSnapshot F → TransferSnapshot F
  publish_korean coin [] fs s = s
  publish_korean coin (k_ex ∷ ks) fs s = publish_korean coin ks fs (publish_foreign coin k_ex fs s)

  unfoldable pub publish_coins :
      List (List ℕ) → List Exchange → List Exchange → TransferSnapshot F → TransferSnapshot F
  publish_coins [] ks fs s = s
  publish_coins (coin ∷ coins) ks fs s = publish_coins coins ks fs (publish_korean coin ks fs s)

  unfoldable pub finalize_withdraw_fees : Transfers F
  finalize_withdraw_fees =
      let empty : TransferSnapshot F = record {
        fees = [];
        routes = [];
        refreshed_at_ms = now_ms;
      } in
      record t {
        transfer_snapshot = publish_coins (all_coins t) (korean_exs t) (foreign_exs t) empty;
      }

module _ {ℓ} {F : Type ℓ} ⦃d : Double F⦄ where
  unfoldable pub get_withdraw_fee : Exchange → Exchange → List ℕ → Transfers F → F
  get_withdraw_fee korean_ex foreign_ex base t =
      elim (lookup (make_fee_key korean_ex foreign_ex base) t.transfer_snapshot.fees) [
        | none ↦ zero_f
        | some fee ↦ fee
      ]

  unfoldable pub is_transfer_route_available : Exchange → Exchange → List ℕ → Transfers F → Bool
  is_transfer_route_available korean_ex foreign_ex base t =
      elim (lookup (make_fee_key korean_ex foreign_ex base) t.transfer_snapshot.routes) [
        | none ↦ false
        | some route ↦ route.available
      ]

  unfoldable pub get_transfer_route :
      Exchange → Exchange → List ℕ → Transfers F → Option (TransferRoute F)
  get_transfer_route korean_ex foreign_ex base t =
      lookup (make_fee_key korean_ex foreign_ex base) t.transfer_snapshot.routes
