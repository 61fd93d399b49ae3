-- ===== src/Strategy/PriceCache/Routes.antt =====
-- kimp_arb_cpp/include/kimp/strategy/arbitrage_engine.hpp: the withdrawal fees and the transfer routes of
-- `PriceCache`. Dictionaries are association lists and sets are lists of their items; the order in which the
-- source walks an unordered container is open, and is here the order of the list. Names are lists of character codes.
pub mod Chains
pub mod Clear
pub mod Cheapest
pub mod Finalize
pub mod Snapshot
use spot_spot_relay_arbitrag.Prelude.{
  ℕ, ◌+◌, ◌-◌, Bool, true, false, not, ◌&&◌, ◌||◌, List, [], ◌∷◌, ◌++◌, Option, none, some, map,
  if◌then◌else◌,
}
use spot_spot_relay_arbitrag.Prelude.Map.{Eq, eq_ℕ, eq_list, lookup, insert, member, keys}
use spot_spot_relay_arbitrag.Strategy.PriceCache.Routes.Chains.{normalize_chain}
use spot_spot_relay_arbitrag.Double.{Double, zero_f}
use spot_spot_relay_arbitrag.Types.{Exchange, bybit, okx, exchange_index, eq_exchange}

pub record NetworkFee {ℓ} (F : Type ℓ) : Type ℓ where
  pub network : List ℕ
  pub fee_coins : F

pub record TransferRoute {ℓ} (F : Type ℓ) : Type ℓ where
  pub available : Bool
  pub withdraw_open : Bool
  pub deposit_open : Bool
  pub fee_coins : F
  pub network : List ℕ
  pub refreshed_at_ms : ℕ

pub record TransferSnapshot {ℓ} (F : Type ℓ) : Type ℓ where
  pub fees : List (List ℕ × F)
  pub routes : List (List ℕ × TransferRoute F)
  pub refreshed_at_ms : ℕ

pub record Transfers {ℓ} (F : Type ℓ) : Type ℓ where
  pub withdraw_network_fees : List (Exchange × List (List ℕ × List (NetworkFee F)))
  pub foreign_deposit_nets : List (Exchange × List (List ℕ × List (List ℕ)))
  pub korean_withdraw_enabled : List (Exchange × List (List ℕ × Bool))
  pub transfer_snapshot : TransferSnapshot F

-- "K:F:COIN".
abbrev pub make_fee_key : Exchange → Exchange → List ℕ → List ℕ
make_fee_key k f coin = (b'0' + exchange_index k) ∷ b':' ∷ (b'0' + exchange_index f) ∷ b':' ∷ coin

-- `set_withdraw_network_fees`: `m[ex][base] = v` makes the dictionary of `ex` if there is none.
abbrev pub write_entry {κ} :
    {V : Type κ}
    → Exchange
    → List ℕ
    → V
    → List (Exchange × List (List ℕ × V))
    → List (Exchange × List (List ℕ × V))
write_entry ex base v m =
    insert ex (insert base v (elim (lookup ex m) [ none ↦ [] | some coins ↦ coins ])) m

-- `m.find(ex)`, then `find(base)` of its dictionary.
abbrev pub read_entry {κ} :
    {V : Type κ} → Exchange → List ℕ → List (Exchange × List (List ℕ × V)) → Option V
read_entry ex base m = elim (lookup ex m) [ none ↦ none | some coins ↦ lookup base coins ]

-- `coin_it != end && !coin_it->second.empty()`, else a null pointer.
abbrev pub non_empty {κ} : {A : Type κ} → Option (List A) → Option (List A)
non_empty none = none
non_empty (some []) = none
non_empty (some (x ∷ xs)) = some (x ∷ xs)

module _ {ℓ} {F : Type ℓ} where
  unfoldable pub set_withdraw_network_fees :
      Exchange → List ℕ → List (NetworkFee F) → Transfers F → Transfers F
  set_withdraw_network_fees ex base fees t =
      let fees' =
        map (λ (nf : NetworkFee F). record nf { network = normalize_chain nf.network }) fees in
      record t { withdraw_network_fees = write_entry ex base fees' t.withdraw_network_fees }

  unfoldable pub set_foreign_deposit_networks :
      Exchange → List ℕ → List (List ℕ) → Transfers F → Transfers F
  set_foreign_deposit_networks ex base nets t = record t {
    foreign_deposit_nets = write_entry ex base (map normalize_chain nets) t.foreign_deposit_nets;
  }

  pub set_korean_withdraw_enabled : Exchange → List ℕ → Bool → Transfers F → Transfers F
  set_korean_withdraw_enabled ex base enabled t = record t {
    korean_withdraw_enabled = write_entry ex base enabled t.korean_withdraw_enabled;
  }

  abbrev pub deposit_nets : Exchange → List ℕ → Transfers F → Option (List (List ℕ))
  deposit_nets foreign_ex base t = non_empty (read_entry foreign_ex base t.foreign_deposit_nets)

  abbrev pub withdraw_fees : Exchange → List ℕ → Transfers F → Option (List (NetworkFee F))
  withdraw_fees korean_ex base t = non_empty (read_entry korean_ex base t.withdraw_network_fees)

  abbrev pub is_enabled : Exchange → List ℕ → Transfers F → Bool
  is_enabled korean_ex base t = elim (read_entry korean_ex base t.korean_withdraw_enabled) [
    | none ↦ true
    | some enabled ↦ enabled
  ]

module _ {ℓ} {F : Type ℓ} ⦃d : Double F⦄ where
  -- The loop over the fees, with the least fee so far and its network.
  unfoldable pub cheapest : List (List ℕ) → List (NetworkFee F) → F → List ℕ → F × List ℕ
  cheapest nets [] min_fee network = (min_fee, network)
  cheapest nets (nf ∷ fees) min_fee network =
      let better = member nf.network nets && d.lt nf.fee_coins min_fee in
      cheapest nets fees (if better then nf.fee_coins else min_fee)
        (if better then nf.network else network)

  abbrev pub closed_route : Bool → Bool → ℕ → TransferRoute F
  closed_route withdraw_open deposit_open refreshed_at_ms = record {
    available = false;
    withdraw_open = withdraw_open;
    deposit_open = deposit_open;
    fee_coins = zero_f;
    network = [];
    refreshed_at_ms = refreshed_at_ms;
  }

  -- The route once both sides are open.
  abbrev pub open_route : List (List ℕ) → List (NetworkFee F) → ℕ → TransferRoute F
  open_route nets fees refreshed_at_ms =
      let (min_fee, network) = cheapest nets fees d.max_value [] in
      let found = d.lt min_fee d.max_value in
      record {
        available = found;
        withdraw_open = true;
        deposit_open = true;
        fee_coins = if found then min_fee else zero_f;
        network = network;
        refreshed_at_ms = refreshed_at_ms;
      }

  -- The route for the two lookups, a null pointer being `none`, and for whether withdrawals are enabled.
  abbrev pub route_of :
      Option (List (List ℕ)) → Option (List (NetworkFee F)) → Bool → ℕ → TransferRoute F
  route_of none none enabled refreshed_at_ms = closed_route false false refreshed_at_ms
  route_of none (some fees) enabled refreshed_at_ms = closed_route enabled false refreshed_at_ms
  route_of (some nets) none enabled refreshed_at_ms = closed_route false true refreshed_at_ms
  route_of (some nets) (some fees) false refreshed_at_ms = closed_route false true refreshed_at_ms
  route_of (some nets) (some fees) true refreshed_at_ms = open_route nets fees refreshed_at_ms

  unfoldable pub get_withdraw_fee_locked :
      Exchange → Exchange → List ℕ → ℕ → Transfers F → TransferRoute F
  get_withdraw_fee_locked korean_ex foreign_ex base refreshed_at_ms t =
      route_of (deposit_nets foreign_ex base t) (withdraw_fees korean_ex base t)
        (is_enabled korean_ex base t) refreshed_at_ms
