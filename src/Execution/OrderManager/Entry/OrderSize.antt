-- ===== src/Execution/OrderManager/Entry/OrderSize.antt =====
-- How large an order of the entry is.
use spot_spot_relay_arbitrag.Prelude.{◌≡◌, true, arith, Bool-cases, inl, inr}
use spot_spot_relay_arbitrag.Double.{Double, zero_f, max_f}
use spot_spot_relay_arbitrag.Double.Laws.{
  ◌≼◌, ◌≺◌, IsNumber, IsIeee, min_f-le_left, min_f-le_right, lt_of_lt_of_le, lt_irrefl,
}
use spot_spot_relay_arbitrag.Types.TradingConfig.{order_size_usd}
use spot_spot_relay_arbitrag.Execution.OrderManager.Snapshot.{Holding}
use spot_spot_relay_arbitrag.Execution.OrderManager.Market.{Market, min_executable_usd}
use spot_spot_relay_arbitrag.Execution.OrderManager.Entry.{EntryContext, next_order_usd, may_enter}

module _ {ℓ} {F : Type ℓ} ⦃d : Double F⦄ where
  -- The size of an order that may be sent: it is positive, at most the size of a split, at most what the position
  -- lacks, and executable.
  pub record IsOrderSize (c : EntryContext F) (h : Holding F) (k : Market F) (usd : F)
      : Type 0 where
    pub positive : zero_f ≺ usd
    pub within_split : usd ≼ order_size_usd
    pub within_position : usd ≼ d.sub c.position_size_usd h.foreign_value
    pub executable : min_executable_usd k.foreign_bid k.korean_ask ≼ usd

  -- `max(0, x)` is a number, whatever `x` is.
  max_zero-number : IsIeee F → (x : F) → IsNumber (max_f zero_f x)
  max_zero-number laws x = elim (Bool-cases (d.lt zero_f x)) [
    | inl t ↦ rw t (laws.number_of_lt zero_f x t).1
    | inr n ↦ rw n (laws.dec_le 0 0 0 0 (omega arith))
  ]

  -- If it is positive, it is `x`.
  max_zero-le : IsIeee F → (x : F) → zero_f ≺ max_f zero_f x → max_f zero_f x ≼ x
  max_zero-le laws x h = elim (Bool-cases (d.lt zero_f x)) [
    | inl t ↦ rw t (laws.number_of_lt zero_f x t).1
    | inr n ↦ absurd (ground (arith, h, n, lt_irrefl laws zero_f))
  ]

  may_enter-positive :
      (c : EntryContext F) (h : Holding F) (k : Market F)
      → may_enter c h k ≡ true
      → (zero_f ≺ next_order_usd c h)
        × (min_executable_usd k.foreign_bid k.korean_ask ≼ next_order_usd c h)
  unfolding may_enter
  may_enter-positive c h k e = ground (arith, e)

  -- By the laws of IEEE arithmetic, an order that the entry may send is positive, at most the size of a split, at
  -- most what the position still lacks, and at least the least size that the venues execute.
  pub may_enter-IsOrderSize :
      IsIeee F
      → (c : EntryContext F) (h : Holding F) (k : Market F) → may_enter c h k ≡ true
      → IsOrderSize c h k (next_order_usd c h)
  unfolding next_order_usd
  may_enter-IsOrderSize laws c h k e =
      let lacking = d.sub c.position_size_usd h.foreign_value in
      let (pos, exec) = may_enter-positive c h k e in
      let nz = max_zero-number laws lacking in
      let no : IsNumber {F = F} order_size_usd = laws.dec_le _ _ _ _ (omega arith) in
      let right = min_f-le_right laws order_size_usd (max_f zero_f lacking) no nz in
      record {
        positive = pos;
        within_split = min_f-le_left laws order_size_usd (max_f zero_f lacking) no nz;
        within_position =
            laws.le_trans _ _ _ right
              (max_zero-le laws lacking (lt_of_lt_of_le laws _ _ _ pos right));
        executable = exec;
      }
