-- ===== src/Strategy/PriceCache/Routes/Snapshot.antt =====
-- What the lookups in the snapshot of `finalize_withdraw_fees` give.
use spot_spot_relay_arbitrag.Prelude.{
  ℕ, ◌+◌, ◌≡◌, refl, ap, ◌∙◌, Bool, true, false, ◌&&◌, ◌||◌, List, [], ◌∷◌, Option, none, some,
  arith, if◌then◌else◌, Bool-cases, ◌==◌, inl, inr,
}
use spot_spot_relay_arbitrag.Prelude.Map.{
  eq_ℕ, eq_list, list_beq, list_beq_iff, lookup, insert, lookup-insert, member,
}
use spot_spot_relay_arbitrag.Double.{Double, zero_f}
use spot_spot_relay_arbitrag.Types.{
  Exchange, exchange_index, exchange_beq, exchange_beq_iff, eq_exchange,
}
use spot_spot_relay_arbitrag.Strategy.PriceCache.Routes.{
  TransferRoute, TransferSnapshot, Transfers, make_fee_key, get_withdraw_fee_locked,
}
use spot_spot_relay_arbitrag.Strategy.PriceCache.Routes.Finalize.{
  all_coins, korean_exs, foreign_exs, publish, publish_foreign, publish_korean, publish_coins,
  finalize_withdraw_fees, get_withdraw_fee, is_transfer_route_available, get_transfer_route,
}

char_beq : (k k' : Exchange) → (48 + exchange_index k == 48 + exchange_index k') ≡ exchange_beq k k'
char_beq k k' = ground arith

-- The key tells the venues and the coin apart.
make_fee_key-beq :
    (k f k' f' : Exchange) (coin coin' : List ℕ)
    → list_beq (make_fee_key k f coin) (make_fee_key k' f' coin')
      ≡ (exchange_beq k k' && (exchange_beq f f' && list_beq coin coin'))
make_fee_key-beq k f k' f' coin coin' = ground (arith, char_beq k k', char_beq f f')

module _ {ℓ} {F : Type ℓ} ⦃d : Double F⦄ (t : Transfers F) (now_ms : ℕ) (k f : Exchange)
    (coin : List ℕ) where
  abbrev route : TransferRoute F
  route = get_withdraw_fee_locked k f coin now_ms t

  abbrev key : List ℕ
  key = make_fee_key k f coin

  -- What a snapshot that holds the route has under the key, and under the key of the fee.
  abbrev routes_with : Bool → TransferSnapshot F → Option (TransferRoute F)
  routes_with held s = if held then some route else lookup key s.routes

  abbrev fees_with : Bool → TransferSnapshot F → Option F
  fees_with held s = if held && route.available then some route.fee_coins else lookup key s.fees

  record Holds (held : Bool) (s s' : TransferSnapshot F) : Type ℓ where
    routes : lookup key s'.routes ≡ routes_with held s
    fees : lookup key s'.fees ≡ fees_with held s

  lookup-insert_if :
      (key' : List ℕ) (written : Bool) (fee : F) (m : List (List ℕ × F))
      → lookup key (if written then insert key' fee m else m)
        ≡ (if list_beq key' key && written then some fee else lookup key m)
  lookup-insert_if key' true fee m = ground (arith, lookup-insert key' key fee m)
  lookup-insert_if key' false fee m = ground arith

  publish-Holds :
      (coin' : List ℕ) (k' f' : Exchange) (s : TransferSnapshot F)
      → Holds
          (exchange_beq k' k && (exchange_beq f' f && list_beq coin' coin))
          s
          (publish t now_ms coin' k' f' s)
  publish-Holds coin' k' f' s =
      let key' : List ℕ = make_fee_key k' f' coin' in
      let route' : TransferRoute F = get_withdraw_fee_locked k' f' coin' now_ms t in
      let keys_agree = make_fee_key-beq k' f' k f coin' coin in
      elim (Bool-cases (exchange_beq k' k && (exchange_beq f' f && list_beq coin' coin))) [
        | inl c ↦
            let ek : k' ≡ k = (exchange_beq_iff k' k).0 (ground (arith, c)) in
            let ef : f' ≡ f = (exchange_beq_iff f' f).0 (ground (arith, c)) in
            let ec : coin' ≡ coin = (list_beq_iff coin' coin).0 (ground (arith, c)) in
            let er : route' ≡ route = rw (ek, ef, ec) refl in
            rw c (record {
              routes = lookup-insert key' key route' s.routes ∙ rw (keys_agree, c) (ap some er);
              fees =
                  lookup-insert_if key' route'.available route'.fee_coins s.fees
                  ∙ rw (keys_agree, c)
                      (ap
                        (λ (r : TransferRoute F).
                          if r.available then some r.fee_coins else lookup key s.fees)
                        er);
            })
        | inr c ↦ rw c (record {
          routes = lookup-insert key' key route' s.routes ∙ rw (keys_agree, c) refl;
          fees =
              lookup-insert_if key' route'.available route'.fee_coins s.fees
              ∙ rw (keys_agree, c) refl;
        })
      ]

  -- Two runs of the loops, one after the other.
  compose :
      (held first second : Bool) {s s' s'' : TransferSnapshot F}
      → held ≡ (first || second)
      → Holds first s s'
      → Holds second s' s''
      → Holds held s s''
  compose held first second e h g = record {
    routes = ground (arith, h.routes, g.routes);
    fees = ground (arith, h.fees, g.fees);
  }

  nothing : (held : Bool) (s : TransferSnapshot F) → held ≡ false → Holds held s s
  nothing held s e = record { routes = rw e refl; fees = rw e refl }

  publish_foreign-Holds :
      (coin' : List ℕ) (k' : Exchange) (fs : List Exchange) (s : TransferSnapshot F)
      → Holds
          (exchange_beq k' k && (member f fs && list_beq coin' coin))
          s
          (publish_foreign t now_ms coin' k' fs s)
  unfolding publish_foreign
  publish_foreign-Holds coin' k' [] s = nothing _ s (ground arith)
  publish_foreign-Holds coin' k' (f' ∷ fs) s =
      compose _ (exchange_beq k' k && (exchange_beq f' f && list_beq coin' coin))
        (exchange_beq k' k && (member f fs && list_beq coin' coin)) (ground arith)
        (publish-Holds coin' k' f' s)
        (publish_foreign-Holds coin' k' fs (publish t now_ms coin' k' f' s))

  publish_korean-Holds :
      (coin' : List ℕ) (ks fs : List Exchange) (s : TransferSnapshot F)
      → Holds
          (member k ks && (member f fs && list_beq coin' coin))
          s
          (publish_korean t now_ms coin' ks fs s)
  unfolding publish_korean
  publish_korean-Holds coin' [] fs s = nothing _ s (ground arith)
  publish_korean-Holds coin' (k' ∷ ks) fs s =
      compose _ (exchange_beq k' k && (member f fs && list_beq coin' coin))
        (member k ks && (member f fs && list_beq coin' coin)) (ground arith)
        (publish_foreign-Holds coin' k' fs s)
        (publish_korean-Holds coin' ks fs (publish_foreign t now_ms coin' k' fs s))

  publish_coins-Holds :
      (coins : List (List ℕ)) (ks fs : List Exchange) (s : TransferSnapshot F)
      → Holds
          (member k ks && (member f fs && member coin coins))
          s
          (publish_coins t now_ms coins ks fs s)
  unfolding publish_coins
  publish_coins-Holds [] ks fs s = nothing _ s (ground arith)
  publish_coins-Holds (coin' ∷ coins) ks fs s =
      compose _ (member k ks && (member f fs && list_beq coin' coin))
        (member k ks && (member f fs && member coin coins)) (ground arith)
        (publish_korean-Holds coin' ks fs s)
        (publish_coins-Holds coins ks fs (publish_korean t now_ms coin' ks fs s))

  -- Whether the loops of `finalize_withdraw_fees` come by the venues and the coin.
  abbrev pub is_covered : Bool
  is_covered = member k (korean_exs t) && (member f (foreign_exs t) && member coin (all_coins t))

  abbrev empty_snapshot : TransferSnapshot F
  empty_snapshot = record { fees = []; routes = []; refreshed_at_ms = now_ms }

  -- After `finalize_withdraw_fees`, the route of two venues and a coin is the one that `get_withdraw_fee_locked`
  -- computes, if the venues and the coin are among those that the loops walk, and none otherwise.
  pub get_transfer_route-finalize_withdraw_fees :
      get_transfer_route k f coin (finalize_withdraw_fees t now_ms)
      ≡ (if is_covered then some (get_withdraw_fee_locked k f coin now_ms t) else none)
  unfolding get_transfer_route finalize_withdraw_fees lookup
  get_transfer_route-finalize_withdraw_fees =
      (publish_coins-Holds (all_coins t) (korean_exs t) (foreign_exs t) empty_snapshot).routes

  -- After `finalize_withdraw_fees`, the fee of two venues and a coin is that of their route, if it is available,
  -- and 0 otherwise.
  pub get_withdraw_fee-finalize_withdraw_fees :
      get_withdraw_fee k f coin (finalize_withdraw_fees t now_ms) ≡ (
        if is_transfer_route_available k f coin (finalize_withdraw_fees t now_ms)
        then (get_withdraw_fee_locked k f coin now_ms t).fee_coins
        else zero_f)
  unfolding get_withdraw_fee is_transfer_route_available finalize_withdraw_fees lookup
  get_withdraw_fee-finalize_withdraw_fees =
      let held : Holds is_covered empty_snapshot _ =
        publish_coins-Holds (all_coins t) (korean_exs t) (foreign_exs t) empty_snapshot in
      elim (Bool-cases is_covered) [
        | inl c ↦ elim (Bool-cases route.available) [
          | inl a ↦ ground (arith, held.routes, held.fees, c, a)
          | inr a ↦ ground (arith, held.routes, held.fees, c, a)
        ]
        | inr c ↦ ground (arith, held.routes, held.fees, c)
      ]
