-- ===== src/Strategy/PriceCache/Routes/Clear.antt =====
-- kimp_arb_cpp/include/kimp/strategy/arbitrage_engine.hpp: the three functions of `PriceCache` that clear the data of
-- a venue, and the counts of the routes and fees.
use spot_spot_relay_arbitrag.Prelude.{
  ℕ, ◌+◌, ◌≡◌, refl, ap, ◌∙◌, Bool, false, List, [], ◌∷◌, Option, none, some, if◌then◌else◌,
  if_elim, length, arith, Bool-cases, inl, inr,
}
use spot_spot_relay_arbitrag.Prelude.Map.{Eq, eq_list, eq_ℕ, lookup}
use spot_spot_relay_arbitrag.Double.{Double}
use spot_spot_relay_arbitrag.Types.{Exchange, eq_exchange}
use spot_spot_relay_arbitrag.Strategy.PriceCache.Routes.{
  NetworkFee, TransferRoute, Transfers, deposit_nets, withdraw_fees, is_enabled, non_empty,
  get_withdraw_fee_locked, route_of,
}
use spot_spot_relay_arbitrag.Strategy.PriceCache.Routes.Finalize.{
  finalize_withdraw_fees, is_transfer_route_available, get_transfer_route,
}
use spot_spot_relay_arbitrag.Strategy.PriceCache.Routes.Snapshot.{
  is_covered, get_transfer_route-finalize_withdraw_fees,
}

-- `m.erase(k)`.
abbrev pub erase {ℓ κ} : {K : Type ℓ} {V : Type κ} ⦃e : Eq K⦄ → K → List (K × V) → List (K × V)
erase k [] = []
erase ⦃e⦄ k ((j, v) ∷ m) = if e.beq j k then erase k m else (j, v) ∷ erase k m

lookup-erase {ℓ κ} :
    {K : Type ℓ} {V : Type κ} ⦃e : Eq K⦄ (k : K) (m : List (K × V)) → lookup k (erase k m) ≡ none
unfolding lookup
lookup-erase k [] = refl
lookup-erase ⦃e⦄ k ((j, v) ∷ m) = elim (Bool-cases (e.beq j k)) [
  | inl same ↦ rw same (lookup-erase k m)
  | inr apart ↦ rw (apart, apart) (lookup-erase k m)
]

module _ {ℓ} {F : Type ℓ} where
  unfoldable pub clear_withdraw_network_fees : Exchange → Transfers F → Transfers F
  clear_withdraw_network_fees ex t = record t {
    withdraw_network_fees = erase ex t.withdraw_network_fees;
  }

  unfoldable pub clear_foreign_deposit_networks : Exchange → Transfers F → Transfers F
  clear_foreign_deposit_networks ex t = record t {
    foreign_deposit_nets = erase ex t.foreign_deposit_nets;
  }

  unfoldable pub clear_korean_withdraw_status : Exchange → Transfers F → Transfers F
  clear_korean_withdraw_status ex t = record t {
    korean_withdraw_enabled = erase ex t.korean_withdraw_enabled;
  }

  pub precomputed_fee_count : Transfers F → ℕ
  precomputed_fee_count t = length t.transfer_snapshot.fees

  abbrev pub count_available : List (List ℕ × TransferRoute F) → ℕ
  count_available [] = 0
  count_available ((key, route) ∷ routes) =
      (if route.available then 1 else 0) + count_available routes

  pub available_transfer_route_count : Transfers F → ℕ
  available_transfer_route_count t = count_available t.transfer_snapshot.routes

  abbrev pub count_coins : List (Exchange × List (List ℕ × List (NetworkFee F))) → ℕ
  count_coins [] = 0
  count_coins ((ex, coins) ∷ m) = length coins + count_coins m

  pub withdraw_fee_count : Transfers F → ℕ
  withdraw_fee_count t = count_coins t.withdraw_network_fees

  pub venue_withdraw_fee_count : Exchange → Transfers F → ℕ
  venue_withdraw_fee_count ex t = elim (lookup ex t.withdraw_network_fees) [
    | none ↦ 0
    | some coins ↦ length coins
  ]

module _ {ℓ} {F : Type ℓ} ⦃d : Double F⦄ where
  no_nets-closed :
      (fees : Option (List (NetworkFee F))) (enabled : Bool) (now : ℕ)
      → (route_of none fees enabled now).available ≡ false
  no_nets-closed none enabled now = refl
  no_nets-closed (some fees) enabled now = refl

  no_fees-closed :
      (nets : Option (List (List ℕ))) (fees : Option (List (NetworkFee F))) (enabled : Bool)
      (now : ℕ)
      → fees ≡ none
      → (route_of nets fees enabled now).available ≡ false
  no_fees-closed none none enabled now e = refl
  no_fees-closed (some nets) none enabled now e = refl
  no_fees-closed nets (some fees) enabled now e = absurd (ground (arith, e))

  clear_foreign-closed :
      (k f : Exchange) (coin : List ℕ) (now : ℕ) (t : Transfers F)
      → (get_withdraw_fee_locked k f coin now (clear_foreign_deposit_networks f t)).available
        ≡ false
  unfolding get_withdraw_fee_locked clear_foreign_deposit_networks
  clear_foreign-closed k f coin now t =
      let found : Option (List (List ℕ)) → Bool =
        λ nets. (route_of nets (withdraw_fees k coin t) (is_enabled k coin t) now).available in
      ap
        (λ (o : Option (List (List ℕ × List (List ℕ)))).
          found (non_empty (elim o [ none ↦ none | some coins ↦ lookup coin coins ])))
        (lookup-erase f t.foreign_deposit_nets)
      ∙ no_nets-closed (withdraw_fees k coin t) (is_enabled k coin t) now

  clear_withdraw-closed :
      (k f : Exchange) (coin : List ℕ) (now : ℕ) (t : Transfers F)
      → (get_withdraw_fee_locked k f coin now (clear_withdraw_network_fees k t)).available ≡ false
  unfolding get_withdraw_fee_locked clear_withdraw_network_fees
  clear_withdraw-closed k f coin now t =
      no_fees-closed (deposit_nets f coin t)
        (withdraw_fees k coin (clear_withdraw_network_fees k t)) (is_enabled k coin t) now
        (ap
          (λ (o : Option (List (List ℕ × List (NetworkFee F)))).
            non_empty (elim o [ none ↦ none | some coins ↦ lookup coin coins ]))
          (lookup-erase k t.withdraw_network_fees))

  closed_after :
      (k f : Exchange) (coin : List ℕ) (now : ℕ) (t : Transfers F)
      → (get_withdraw_fee_locked k f coin now t).available ≡ false
      → is_transfer_route_available k f coin (finalize_withdraw_fees t now) ≡ false
  unfolding is_transfer_route_available get_transfer_route
  closed_after k f coin now t closed =
      ap (λ (o : Option (TransferRoute F)). elim o [ none ↦ false | some r ↦ r.available ])
        (get_transfer_route-finalize_withdraw_fees t now k f coin)
      ∙ if_elim
          (λ (o : Option (TransferRoute F)).
            (elim o [ none ↦ false | some r ↦ r.available ]) ≡ false)
          (is_covered t now k f coin) (some (get_withdraw_fee_locked k f coin now t)) none
          (λ c. closed) (λ n. refl)

  -- Once the deposit networks of a foreign venue or the withdrawal fees of a Korean one are cleared, the next
  -- snapshot opens no transfer route of that venue, for any coin and any other venue.
  pub clear-closed :
      (k f : Exchange) (coin : List ℕ) (now : ℕ) (t : Transfers F)
      → (is_transfer_route_available k f coin
            (finalize_withdraw_fees (clear_foreign_deposit_networks f t) now)
          ≡ false)
        × (is_transfer_route_available k f coin
              (finalize_withdraw_fees (clear_withdraw_network_fees k t) now)
            ≡ false)
  clear-closed k f coin now t = (
    closed_after k f coin now (clear_foreign_deposit_networks f t)
        (clear_foreign-closed k f coin now t),
    closed_after k f coin now (clear_withdraw_network_fees k t)
        (clear_withdraw-closed k f coin now t),
  )
