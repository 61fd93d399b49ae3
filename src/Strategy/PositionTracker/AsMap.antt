-- ===== src/Strategy/PositionTracker/AsMap.antt =====
-- With one position for a symbol at most, the tracker is a map from symbols to positions.
use spot_spot_relay_arbitrag.Prelude.{
  ◌≤◌, ◌<◌, ◌≡◌, refl, true, false, List, [], ◌∷◌, none, some, arith, if◌then◌else◌, Bool-cases,
  Option-cases, inl, inr, ◌⊎◌, All, count_if,
}
use spot_spot_relay_arbitrag.Types.Symbol.{SymbolId, symbol_beq, symbol_beq_iff}
use spot_spot_relay_arbitrag.Types.Trade.{Position}
use spot_spot_relay_arbitrag.Strategy.PositionTracker.{
  PositionSlot, PositionTracker, find_slot, get_position, open_slot, open_position, close_slot,
  close_position, update_position,
}
use spot_spot_relay_arbitrag.Strategy.PositionTracker.Invariant.{
  IsHashed, IsValid, open_position_lem, close_position_lem, count-le-max,
}
use spot_spot_relay_arbitrag.Strategy.PositionTracker.Find.{
  holds, is_match-holds, occurs, close_slot-occurs,
}

module _ {ℓ} {F : Type ℓ} where
  -- No symbol is held twice.
  abbrev pub IsUnique : PositionTracker F → Type 0
  IsUnique t = (symbol : SymbolId) → occurs symbol t ≤ 1

  find_slot-none :
      (symbol : SymbolId) (slots : List (PositionSlot F))
      → All IsHashed slots
      → count_if (holds symbol) slots ≡ 0
      → find_slot symbol slots ≡ none
  unfolding find_slot
  find_slot-none symbol [] h z = refl
  find_slot-none symbol (slot ∷ slots) h z = elim (Bool-cases (holds symbol slot)) [
    | inl t ↦ absurd (ground arith)
    | inr f ↦
        rw (is_match-holds symbol slot h.0, f) (find_slot-none symbol slots h.1 (ground arith))
  ]

  open_slot-find_slot :
      (pos : Position F) (symbol : SymbolId) (slots slots' : List (PositionSlot F))
      → find_slot pos.symbol slots ≡ none
      → open_slot pos slots ≡ some slots'
      → find_slot symbol slots'
        ≡ (if symbol_beq pos.symbol symbol then some pos else find_slot symbol slots)
  unfolding open_slot find_slot
  open_slot-find_slot pos symbol [] slots' free e = cc
  open_slot-find_slot pos symbol (slot ∷ slots) slots' free e =
      elim (Option-cases (open_slot pos slots)) [
        | inl full ↦
            ground
              (arith, symbol_beq_iff pos.symbol symbol, symbol_beq_iff slot.position.symbol symbol)
        | inr (rest, opened) ↦ ground (
          arith,
          symbol_beq_iff pos.symbol symbol,
          symbol_beq_iff slot.position.symbol symbol,
          open_slot-find_slot pos symbol slots rest,
        )
      ]

  close_slot-find_slot :
      (symbol other : SymbolId) (slots : List (PositionSlot F))
      → All IsHashed slots
      → count_if (holds symbol) slots ≤ 1
      → (p : Position F) (slots' : List (PositionSlot F))
      → close_slot symbol slots ≡ some (p, slots')
      → find_slot other slots' ≡ (if symbol_beq symbol other then none else find_slot other slots)
  unfolding close_slot find_slot
  close_slot-find_slot symbol other [] h u p slots' e = cc
  close_slot-find_slot symbol other (slot ∷ slots) h u p slots' e =
      elim (Bool-cases (holds symbol slot)) [
        | inl t ↦ ground (
          arith,
          is_match-holds symbol slot h.0,
          symbol_beq_iff symbol other,
          symbol_beq_iff slot.position.symbol symbol,
          symbol_beq_iff slot.position.symbol other,
          find_slot-none symbol slots h.1,
        )
        | inr f ↦ elim (Option-cases (close_slot symbol slots)) [
          | inl absent ↦ ground (arith, is_match-holds symbol slot h.0)
          | inr ((q, rest), closed) ↦ ground (
            arith,
            is_match-holds symbol slot h.0,
            symbol_beq_iff symbol other,
            symbol_beq_iff slot.position.symbol symbol,
            symbol_beq_iff slot.position.symbol other,
            close_slot-find_slot symbol other slots h.1 (ground arith) q rest closed,
          )
        ]
      ]

  -- On a valid tracker without the position's symbol, a successful `open_position` changes the lookup of
  -- that symbol, to the position, and no other.
  pub get_position-open_position :
      (pos : Position F) (symbol : SymbolId) (t : PositionTracker F)
      → IsValid t
      → get_position pos.symbol t ≡ none
      → (open_position pos t).1 ≡ true
      → get_position symbol (open_position pos t).0
        ≡ (if symbol_beq pos.symbol symbol then some pos else get_position symbol t)
  unfolding get_position open_position
  get_position-open_position pos symbol t v free opened =
      elim (Option-cases (open_slot pos t.positions)) [
        | inl full ↦ ground arith
        | inr (slots, e) ↦
            rw (e, open_position) (open_slot-find_slot pos symbol t.positions slots free e)
      ]

  -- On a valid tracker that holds the symbol once at most, `close_position` returns what `get_position`
  -- finds, and afterwards the lookup of that symbol fails and every other one is as before.
  pub get_position-close_position :
      (symbol other : SymbolId) (t : PositionTracker F)
      → IsValid t
      → occurs symbol t ≤ 1
      → ((close_position symbol t).1 ≡ get_position symbol t)
        × (get_position other (close_position symbol t).0
            ≡ (if symbol_beq symbol other then none else get_position other t))
  unfolding get_position close_position
  get_position-close_position symbol other t v u =
      elim (close_slot-occurs symbol t.positions v.hashed) [
        | inl (e, z) ↦
            rw (e, close_position)
              (ground
                (arith, symbol_beq_iff symbol other, find_slot-none symbol t.positions v.hashed z))
        | inr (p, slots, e, found, count) ↦
            rw (e, close_position, found)
              (refl, close_slot-find_slot symbol other t.positions v.hashed u p slots e)
      ]

  close_slot_frees :
      (symbol : SymbolId) (t : PositionTracker F)
      → IsValid t
      → occurs symbol t ≤ 1
      → get_position symbol (close_position symbol t).0 ≡ none
  close_slot_frees symbol t v u =
      rw
        ((get_position-close_position symbol symbol t v u).1, (symbol_beq_iff symbol symbol).1 refl)

  -- On a valid tracker that holds the position's symbol once at most, `update_position` succeeds exactly if
  -- the symbol is held. Then its lookup gives the new position, and every other lookup is as before; and if
  -- the symbol is not held, nothing changes.
  pub get_position-update_position :
      (pos : Position F) (symbol : SymbolId) (t : PositionTracker F)
      → IsValid t
      → occurs pos.symbol t ≤ 1
      → ((get_position pos.symbol t ≡ none) × (update_position pos t ≡ (t, false)))
        ⊎ (((update_position pos t).1 ≡ true)
            × (get_position symbol (update_position pos t).0
                ≡ (if symbol_beq pos.symbol symbol then some pos else get_position symbol t)))
  unfolding update_position
  get_position-update_position pos symbol t v u =
      let (keeps, gone) = get_position-close_position pos.symbol symbol t v u in
      let (v', closed) = close_position_lem pos.symbol t v in
      let t' : PositionTracker F = (close_position pos.symbol t).0 in
      elim closed [
        | inl (p, e, fewer) ↦
            let small : t'.position_count < 16 = omega (arith, count-le-max t v) in
            let opened : (open_position pos t').1 ≡ true =
              ground (arith, open_position_lem pos t' v') in
            inr (
              rw (e, update_position) opened,
              rw (e, update_position)
                  (ground (
                    arith,
                    get_position-open_position pos symbol t' v' (close_slot_frees pos.symbol t v u)
                        opened,
                  )),
            )
        | inr (e, same) ↦ inl (ground arith, rw (e, same, update_position))
      ]
