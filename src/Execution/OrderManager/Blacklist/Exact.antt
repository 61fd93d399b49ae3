-- ===== src/Execution/OrderManager/Blacklist/Exact.antt =====
-- Which symbols the blacklist holds.
use spot_spot_relay_arbitrag.Prelude.{
  ℕ, ◌≡◌, refl, ◌∙◌, ap, Bool, true, false, not, ◌&&◌, ◌||◌, List, [], ◌∷◌, arith, Bool-cases, inl,
  inr, if◌then◌else◌,
}
use spot_spot_relay_arbitrag.Prelude.Map.{member}
use spot_spot_relay_arbitrag.Double.{Double}
use spot_spot_relay_arbitrag.Types.{Exchange, bithumb, upbit, bybit, okx}
use spot_spot_relay_arbitrag.Types.Symbol.{
  SymbolId, get_base, eq_symbol, symbol_beq, symbol_beq_iff,
}
use spot_spot_relay_arbitrag.Types.Trade.{Position}
use spot_spot_relay_arbitrag.Execution.OrderManager.{Manager, Venues, has_korean_exchange}
use spot_spot_relay_arbitrag.Execution.OrderManager.Blacklist.{
  add_item, dust, block_balances, block_shorts, krw_symbol, new_blacklist,
  refresh_external_positions,
}

member-add_item :
    (s t : SymbolId) (set : List SymbolId)
    → member s (add_item t set) ≡ (symbol_beq t s || member s set)
member-add_item s t set = elim (Bool-cases (member t set)) [
  | inr n ↦ rw n (ground arith)
  | inl held ↦ rw held (elim (Bool-cases (symbol_beq t s)) [
    | inr apart ↦ rw apart refl
    | inl same ↦ rw same (rw (← (symbol_beq_iff t s).0 same) held)
  ])
]

-- One step of a loop: the symbol `t` is added if a test passes.
member-step :
    (s t : SymbolId) (managed set : List SymbolId) (passes : SymbolId → Bool)
    → member s (if member t managed then set else if passes t then add_item t set else set)
      ≡ (member s set || (symbol_beq t s && (not (member s managed) && passes s)))
member-step s t managed set passes = elim (Bool-cases (symbol_beq t s)) [
  | inl same ↦
      rw (same, (symbol_beq_iff t s).0 same)
        (ground (arith, member-add_item s s set, (symbol_beq_iff s s).1 refl))
  | inr apart ↦ rw apart (ground (arith, apart, member-add_item s t set))
]

regroup :
    (n a b c e : Bool)
    → ((((false || (not n && a)) || (not n && b)) || (not n && c)) || (not n && e))
      ≡ (not n && ((a || b) || (c || e)))
regroup n a b c e = ground arith

module _ {ℓ} {F : Type ℓ} ⦃d : Double F⦄ ⦃v : Venues F⦄ where
  block_balances_lem :
      (get_balance : List ℕ → F) (managed : List SymbolId) (s : SymbolId)
      (symbols set : List SymbolId)
      → member s (block_balances get_balance managed symbols set) ≡ (
          member s set
          || (not (member s managed) && (member s symbols && d.lt dust (get_balance (get_base s)))))
  unfolding block_balances
  block_balances_lem get managed s [] set = ground arith
  block_balances_lem get managed s (t ∷ symbols) set =
      let passes = λ (x : SymbolId). d.lt dust (get (get_base x)) in
      block_balances_lem get managed s symbols
        (if member t managed then set else if passes t then add_item t set else set)
      ∙ (ap (λ b. b || (not (member s managed) && (member s symbols && passes s)))
            (member-step s t managed set passes)
          ∙ ground arith)

  -- A short of more than dust in a symbol's coin.
  abbrev pub is_short : SymbolId → List (Position F) → Bool
  is_short s [] = false
  is_short s (pos ∷ positions) =
      (symbol_beq (krw_symbol pos) s && d.lt dust pos.foreign_amount) || is_short s positions

  block_shorts_lem :
      (managed : List SymbolId) (s : SymbolId) (positions : List (Position F)) (set : List SymbolId)
      → member s (block_shorts managed positions set)
        ≡ (member s set || (not (member s managed) && is_short s positions))
  unfolding block_shorts
  block_shorts_lem managed s [] set = ground arith
  block_shorts_lem managed s (pos ∷ positions) set =
      elim (Bool-cases (d.lt dust pos.foreign_amount)) [
        | inr n ↦ rw n (block_shorts_lem managed s positions set ∙ ground arith)
        | inl t ↦
            let short = krw_symbol pos in
            rw t (
              block_shorts_lem managed s positions
                (if member short managed then set else add_item short set)
              ∙ (ap (λ b. b || (not (member s managed) && is_short s positions))
                    (member-step s short managed set (λ x. true))
                  ∙ ground arith))
      ]

  -- The balance of a Korean venue that is blocked, for a symbol of the list.
  abbrev pub holds : Exchange → SymbolId → List SymbolId → Manager F → Bool
  holds ex s symbols m =
      has_korean_exchange ex m && (member s symbols && d.lt dust (v.get_balance ex (get_base s)))

  venue_lem :
      (ex : Exchange) (s : SymbolId) (symbols managed set : List SymbolId) (m : Manager F)
      → member s (
          if has_korean_exchange ex m
          then block_balances (v.get_balance ex) managed symbols set
          else set)
        ≡ (member s set || (not (member s managed) && holds ex s symbols m))
  venue_lem ex s symbols managed set m = elim (Bool-cases (has_korean_exchange ex m)) [
    | inl t ↦ rw t (block_balances_lem (v.get_balance ex) managed s symbols set)
    | inr n ↦ rw n (ground arith)
  ]

  shorts_lem :
      (has : Bool) (positions : List (Position F)) (s : SymbolId) (managed set : List SymbolId)
      → member s (if has then block_shorts managed positions set else set)
        ≡ (member s set || (not (member s managed) && (has && is_short s positions)))
  shorts_lem true positions s managed set = block_shorts_lem managed s positions set
  shorts_lem false positions s managed set = ground arith

  -- After a refresh, whatever the blacklist held before, it holds a symbol just if the bot does not manage it and
  -- it is held outside the bot: it is in the list with a balance of its coin above the dust on a Korean venue that
  -- is set, or a short position above the dust on a foreign venue that is set has its coin.
  pub refresh_external_positions-exact :
      (s : SymbolId) (symbols managed : List SymbolId) (m : Manager F)
      → member s (refresh_external_positions symbols managed m).external_position_blacklist ≡ (
          not (member s managed)
          && ((holds bithumb s symbols m || holds upbit s symbols m)
              || ((m.has_bybit && is_short s (v.get_short_positions bybit))
                  || (m.has_okx && is_short s (v.get_short_positions okx)))))
  unfolding refresh_external_positions new_blacklist
  refresh_external_positions-exact s symbols managed m =
      let blocked = λ (b h : Bool). b || (not (member s managed) && h) in
      let on_bithumb =
        if has_korean_exchange bithumb m
        then block_balances (v.get_balance bithumb) managed symbols []
        else [] in
      let on_upbit =
        if has_korean_exchange upbit m
        then block_balances (v.get_balance upbit) managed symbols on_bithumb
        else on_bithumb in
      let on_bybit =
        if m.has_bybit
        then block_shorts managed (v.get_short_positions bybit) on_upbit
        else on_upbit in
      shorts_lem m.has_okx (v.get_short_positions okx) s managed on_bybit
      ∙ (ap (λ b. blocked b (m.has_okx && is_short s (v.get_short_positions okx)))
            (shorts_lem m.has_bybit (v.get_short_positions bybit) s managed on_upbit
              ∙ ap (λ b. blocked b (m.has_bybit && is_short s (v.get_short_positions bybit)))
                  (venue_lem upbit s symbols managed on_bithumb m
                    ∙ ap (λ b. blocked b (holds upbit s symbols m))
                        (venue_lem bithumb s symbols managed [] m)))
          ∙ regroup (member s managed) (holds bithumb s symbols m) (holds upbit s symbols m)
              (m.has_bybit && is_short s (v.get_short_positions bybit))
              (m.has_okx && is_short s (v.get_short_positions okx)))
