-- ===== src/Strategy/PriceCache/Routes/Cheapest.antt =====
-- What an available transfer route is: a fee of the Korean venue on a network that the foreign venue takes
-- deposits on, and the least of these.
use mathlib.Core.List.{Memᴰ}
use spot_spot_relay_arbitrag.Prelude.{
  ℕ, ◌≡◌, ◌⊎◌, refl, Bool, true, false, ◌&&◌, List, [], ◌∷◌, Option, none, some, arith, Bool-cases,
  inl, inr, All,
}
use spot_spot_relay_arbitrag.Prelude.Map.{eq_ℕ, eq_list, member}
use spot_spot_relay_arbitrag.Double.{Double}
use spot_spot_relay_arbitrag.Double.Laws.{IsIeee, lt_of_lt_of_le, le_of_lt, lt_irrefl}
use spot_spot_relay_arbitrag.Types.{Exchange}
use spot_spot_relay_arbitrag.Strategy.PriceCache.Routes.{
  NetworkFee, TransferRoute, Transfers, deposit_nets, withdraw_fees, is_enabled, cheapest,
  open_route, route_of, get_withdraw_fee_locked,
}

-- What makes a route available, for the networks and the fees that were found.
pub record IsTransferRoute {ℓ} {F : Type ℓ} ⦃d : Double F⦄ (found_nets : Option (List (List ℕ)))
    (found_fees : Option (List (NetworkFee F))) (enabled : Bool) (route : TransferRoute F)
    : Type ℓ where
  pub fees : List (NetworkFee F)
  pub nets : List (List ℕ)
  pub has_fees : found_fees ≡ some fees
  pub has_nets : found_nets ≡ some nets
  pub is_open : enabled ≡ true
  pub offered : Memᴰ (record { network = route.network; fee_coins = route.fee_coins }) fees
  pub shared : member route.network nets ≡ true
  pub least : All (λ nf. (member nf.network nets && d.lt nf.fee_coins route.fee_coins) ≡ false) fees

module _ {ℓ} {F : Type ℓ} ⦃d : Double F⦄ (nets : List (List ℕ)) where
  cheapest-taken :
      (nf : NetworkFee F) (fees : List (NetworkFee F)) (m : F) (n : List ℕ)
      → (member nf.network nets && d.lt nf.fee_coins m) ≡ true
      → cheapest nets (nf ∷ fees) m n ≡ cheapest nets fees nf.fee_coins nf.network
  unfolding cheapest
  cheapest-taken nf fees m n t = rw t refl

  cheapest-left :
      (nf : NetworkFee F) (fees : List (NetworkFee F)) (m : F) (n : List ℕ)
      → (member nf.network nets && d.lt nf.fee_coins m) ≡ false
      → cheapest nets (nf ∷ fees) m n ≡ cheapest nets fees m n
  unfolding cheapest
  cheapest-left nf fees m n f = rw f refl

  -- The result is the start or one of the fees.
  record IsOffer (fees : List (NetworkFee F)) (r : F × List ℕ) : Type ℓ where
    offered : Memᴰ (record { network = r.1; fee_coins = r.0 }) fees
    shared : member r.1 nets ≡ true

  cheapest_cases :
      (fees : List (NetworkFee F)) (min_fee : F) (network : List ℕ)
      → (cheapest nets fees min_fee network ≡ (min_fee, network))
        ⊎ IsOffer fees (cheapest nets fees min_fee network)
  unfolding cheapest
  cheapest_cases [] m n = inl refl
  cheapest_cases (nf ∷ fees) m n =
      elim (Bool-cases (member nf.network nets && d.lt nf.fee_coins m)) [
        | inl t ↦
            rw (cheapest-taken nf fees m n t) (elim (cheapest_cases fees nf.fee_coins nf.network) [
              | inl e ↦ rw e (inr (record { offered = Memᴰ.head refl; shared = ground (arith, t) }))
              | inr o ↦ inr (record { offered = Memᴰ.tail o.offered; shared = o.shared })
            ])
        | inr f ↦ rw (cheapest-left nf fees m n f) (elim (cheapest_cases fees m n) [
          | inl e ↦ inl e
          | inr o ↦ inr (record { offered = Memᴰ.tail o.offered; shared = o.shared })
        ])
      ]

  module _ (laws : IsIeee F) where
    -- The least fee only falls.
    cheapest-falls :
        (fees : List (NetworkFee F)) (x min_fee : F) (network : List ℕ)
        → d.lt x min_fee ≡ false
        → d.lt x (cheapest nets fees min_fee network).0 ≡ false
    unfolding cheapest
    cheapest-falls [] x m n h = h
    cheapest-falls (nf ∷ fees) x m n h =
        elim (Bool-cases (member nf.network nets && d.lt nf.fee_coins m)) [
          | inl t ↦ rw (cheapest-taken nf fees m n t) (
              cheapest-falls fees x nf.fee_coins nf.network
                (elim (Bool-cases (d.lt x nf.fee_coins)) [
                  | inl below ↦ absurd (
                      ground (
                        arith,
                        lt_of_lt_of_le laws x nf.fee_coins m below
                            (le_of_lt laws _ _ (ground (arith, t))),
                      ))
                  | inr above ↦ above
                ]))
          | inr f ↦ rw (cheapest-left nf fees m n f) (cheapest-falls fees x m n h)
        ]

    cheapest-least :
        (fees : List (NetworkFee F)) (min_fee : F) (network : List ℕ) (r : F)
        → (cheapest nets fees min_fee network).0 ≡ r
        → All (λ nf. (member nf.network nets && d.lt nf.fee_coins r) ≡ false) fees
    cheapest-least [] m n r e = tt
    cheapest-least (nf ∷ fees) m n r e =
        elim (Bool-cases (member nf.network nets && d.lt nf.fee_coins m)) [
          | inl t ↦
              let e' : (cheapest nets fees nf.fee_coins nf.network).0 ≡ r =
                rw (cheapest-taken nf fees m n t) at e in
              (
                ground (
                  arith,
                  rw e' at (
                      cheapest-falls fees nf.fee_coins nf.fee_coins nf.network
                        (lt_irrefl laws nf.fee_coins)),
                ),
                cheapest-least fees nf.fee_coins nf.network r e',
              )
          | inr f ↦
              let e' : (cheapest nets fees m n).0 ≡ r = rw (cheapest-left nf fees m n f) at e in
              (
                elim (Bool-cases (d.lt nf.fee_coins m)) [
                  | inl below ↦ ground (arith, f)
                  | inr above ↦
                      ground (arith, rw e' at (cheapest-falls fees nf.fee_coins m n above))
                ],
                cheapest-least fees m n r e',
              )
        ]

module _ {ℓ} {F : Type ℓ} ⦃d : Double F⦄ (laws : IsIeee F) where
  open_route-available :
      (nets : List (List ℕ)) (fees : List (NetworkFee F)) (now : ℕ)
      → (open_route nets fees now).available ≡ true
      → IsTransferRoute (some nets) (some fees) true (open_route nets fees now)
  open_route-available nets fees now h = elim (cheapest_cases nets fees d.max_value []) [
    | inl start ↦ absurd (ground (arith, rw start at h, lt_irrefl laws d.max_value))
    | inr offer ↦ record {
      fees = fees;
      nets = nets;
      has_fees = refl;
      has_nets = refl;
      is_open = refl;
      offered = rw h (offer.offered);
      shared = offer.shared;
      least = rw h (cheapest-least nets laws fees d.max_value [] _ refl);
    }
  ]

  route_of-available :
      (found_nets : Option (List (List ℕ))) (found_fees : Option (List (NetworkFee F)))
      (enabled : Bool) (now : ℕ)
      → (route_of found_nets found_fees enabled now).available ≡ true
      → IsTransferRoute found_nets found_fees enabled (route_of found_nets found_fees enabled now)
  route_of-available none none e now h = absurd (ground (arith, h))
  route_of-available none (some fees) e now h = absurd (ground (arith, h))
  route_of-available (some nets) none e now h = absurd (ground (arith, h))
  route_of-available (some nets) (some fees) false now h = absurd (ground (arith, h))
  route_of-available (some nets) (some fees) true now h = open_route-available nets fees now h

  -- A route that `get_withdraw_fee_locked` calls available has both sides open: its fee is one of the Korean
  -- venue's, on a network that the foreign venue takes deposits on, and no other such fee is less.
  pub get_withdraw_fee_locked-available :
      (korean_ex foreign_ex : Exchange) (base : List ℕ) (now_ms : ℕ) (t : Transfers F)
      → (get_withdraw_fee_locked korean_ex foreign_ex base now_ms t).available ≡ true
      → IsTransferRoute
          (deposit_nets foreign_ex base t)
          (withdraw_fees korean_ex base t)
          (is_enabled korean_ex base t)
          (get_withdraw_fee_locked korean_ex foreign_ex base now_ms t)
  unfolding get_withdraw_fee_locked
  get_withdraw_fee_locked-available k f base now t h =
      route_of-available (deposit_nets f base t) (withdraw_fees k base t) (is_enabled k base t) now
        h
