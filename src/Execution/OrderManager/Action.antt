-- ===== src/Execution/OrderManager/Action.antt =====
-- What a member function of `OrderManager` does: it changes the manager and returns a value.
use spot_spot_relay_arbitrag.Prelude.{◌∷◌}
use spot_spot_relay_arbitrag.Types.Trade.{Order}
use spot_spot_relay_arbitrag.Execution.OrderManager.{Manager, Request, Venues}

abbrev pub Action {ℓ κ} : Type ℓ → Type κ → Type (ℓ ⊔ κ)
Action F A = Manager F → A × Manager F

module _ {ℓ} {F : Type ℓ} where
  abbrev pub pure {κ} : {A : Type κ} → A → Action F A
  pure a m = (a, m)

  abbrev pub modify : (Manager F → Manager F) → Action F (Unit {0})
  modify f m = (tt, f m)

  -- A call of a venue's client.
  abbrev pub send : ⦃v : Venues F⦄ → Request F → Action F (Order F)
  send ⦃v⦄ r m = (v.answer m.requests r, record m { requests = r ∷ m.requests })

infixl 5 ◌>>=◌ ◌>>◌
abbrev pub ◌>>=◌ {ℓ κ μ} :
    {F : Type ℓ} {A : Type κ} {B : Type μ} → Action F A → (A → Action F B) → Action F B
◌>>=◌ f k m = let (a, m') = f m in k a m'

abbrev pub ◌>>◌ {ℓ κ μ} :
    {F : Type ℓ} {A : Type κ} {B : Type μ} → Action F A → Action F B → Action F B
◌>>◌ f g m = g (f m).1
