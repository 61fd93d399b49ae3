-- ===== src/Strategy/PriceCache/Lookup.antt =====
-- The prices as a map from a venue and a symbol: the shards do not show.
use spot_spot_relay_arbitrag.Prelude.{
  ℕ, ◌<◌, ◌≡◌, refl, true, false, not, ◌&&◌, [], Option, none, some, arith, if◌then◌else◌, ◌==◌,
  Bool-cases, inl, inr, get_or, set, length, length-set, get_or-set_self, get_or-set_ne, ◌∙◌, ap,
}
use spot_spot_relay_arbitrag.Prelude.Bits.{bit_and-lt_right}
use spot_spot_relay_arbitrag.Prelude.Map.{lookup, insert, lookup-insert}
use spot_spot_relay_arbitrag.Double.{Double, zero_f}
use spot_spot_relay_arbitrag.Types.{Exchange}
use spot_spot_relay_arbitrag.Types.Symbol.{SymbolId}
use spot_spot_relay_arbitrag.Strategy.Quote.{PriceData}
use spot_spot_relay_arbitrag.Strategy.PriceCache.{
  PriceKey, make_key, eq_price_key, PriceEntry, Prices, price_key_beq, price_key_beq_iff,
  shard_count, shard_index, next_entry, price_of, update, get_price,
}

-- Every shard is there.
abbrev pub IsSharded {ℓ} : {F : Type ℓ} → Prices F → Type 0
IsSharded c = length c.shards ≡ shard_count

shard_index-lt : (key : PriceKey) → shard_index key < shard_count
unfolding shard_index
shard_index-lt key = bit_and-lt_right 6 _ 63 (omega arith)

module _ {ℓ} {F : Type ℓ} ⦃d : Double F⦄ where
  abbrev find : PriceKey → Prices F → Option (PriceEntry F)
  find key c = lookup key (get_or c.shards (shard_index key) [])

  pub update-IsSharded :
      (now : ℕ) (ex : Exchange) (s : SymbolId) (bid ask last : F) (t : ℕ) (bq aq : F) (c : Prices F)
      → IsSharded c
      → IsSharded (update now ex s bid ask last t bq aq c)
  unfolding update
  update-IsSharded now ex s bid ask last t bq aq c h = length-set c.shards _ _ ∙ h

  -- A write of a key in its shard is a write of the key alone.
  find-insert :
      (key other : PriceKey) (entry : PriceEntry F) (c : Prices F)
      → IsSharded c
      → lookup other (
          get_or
            (set c.shards
              (shard_index key)
              (insert key entry (get_or c.shards (shard_index key) [])))
            (shard_index other)
            [])
        ≡ (if price_key_beq key other then some entry else find other c)
  find-insert key other entry c h = elim (Bool-cases (shard_index key == shard_index other)) [
    | inl same ↦
        let e : shard_index key ≡ shard_index other = ground arith in
        rw
          (
            ← e,
            get_or-set_self c.shards (shard_index key)
                (insert key entry (get_or c.shards (shard_index key) [])) []
                (omega (arith, shard_index-lt key)),
          )
          (lookup-insert key other entry _)
    | inr apart ↦
        let distinct : price_key_beq key other ≡ false =
          elim (Bool-cases (price_key_beq key other)) [
            | inl t ↦ absurd (ground (arith, ap shard_index ((price_key_beq_iff key other).0 t)))
            | inr f ↦ f
          ] in
        rw
          (
            distinct,
            get_or-set_ne c.shards (shard_index key) (shard_index other)
                (insert key entry (get_or c.shards (shard_index key) [])) [] (ground arith),
          )
          refl
  ]

  abbrev pub next_price : PriceData F → F → F → F → ℕ → F → F → PriceData F
  next_price old bid ask last ts bid_qty ask_qty = record {
    bid = bid;
    ask = ask;
    bid_qty = if old.valid && not (d.lt zero_f bid_qty) then old.bid_qty else bid_qty;
    ask_qty = if old.valid && not (d.lt zero_f ask_qty) then old.ask_qty else ask_qty;
    last = last;
    timestamp = ts;
    valid = true;
  }

  price_of-next_entry :
      (old : Option (PriceEntry F)) (bid ask last : F) (ts : ℕ) (bq aq : F)
      → price_of (some (next_entry old bid ask last ts bq aq))
        ≡ next_price (price_of old) bid ask last ts bq aq
  price_of-next_entry none bid ask last ts bq aq = refl
  price_of-next_entry (some e) bid ask last ts bq aq = ground arith

  -- After an update of a sharded cache, the updated venue and symbol have the new prices, with the timestamp of
  -- the update or of the clock, and a known price keeps a quantity that the update does not give; every other
  -- venue or symbol has the price that it had.
  pub get_price-update :
      (now : ℕ) (ex : Exchange) (s : SymbolId) (bid ask last : F) (t : ℕ) (bq aq : F) (c : Prices F)
      → IsSharded c
      → (ex' : Exchange) (s' : SymbolId)
      → get_price ex' s' (update now ex s bid ask last t bq aq c) ≡ (
          if price_key_beq (make_key ex s) (make_key ex' s')
          then next_price (get_price ex s c) bid ask last (if t == 0 then now else t) bq aq
          else get_price ex' s' c)
  unfolding get_price update
  get_price-update now ex s bid ask last t bq aq c h ex' s' =
      let key : PriceKey = make_key ex s in
      let entry : PriceEntry F =
        next_entry (find key c) bid ask last (if t == 0 then now else t) bq aq in
      ap price_of (find-insert key (make_key ex' s') entry c h)
      ∙ elim (Bool-cases (price_key_beq key (make_key ex' s'))) [
        | inl t' ↦ rw t' (price_of-next_entry (find key c) bid ask last _ bq aq)
        | inr f ↦ rw f refl
      ]
