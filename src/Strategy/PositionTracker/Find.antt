-- ===== src/Strategy/PositionTracker/Find.antt =====
-- Looking a symbol up. The comparison of hashes, which saves the lock, hides no position.
use spot_spot_relay_arbitrag.Prelude.{
  ℕ, ◌+◌, ◌<◌, ◌≡◌, refl, Bool, true, false, ◌&&◌, List, [], ◌∷◌, Option, none, some, arith,
  if◌then◌else◌, Bool-cases, Option-cases, inl, inr, ◌⊎◌, All, count_if,
}
use spot_spot_relay_arbitrag.Types.Symbol.{SymbolId, symbol_beq, symbol_beq_iff}
use spot_spot_relay_arbitrag.Types.Trade.{Position}
use spot_spot_relay_arbitrag.Strategy.PositionTracker.{
  PositionSlot, PositionTracker, is_match, has_slot, has_position, find_slot, get_position,
  open_slot, close_slot, active_positions, get_active_positions,
}
use spot_spot_relay_arbitrag.Strategy.PositionTracker.Invariant.{IsHashed, IsValid}

module _ {ℓ} {F : Type ℓ} where
  -- The first position of a list with this symbol.
  pub first_of_symbol : SymbolId → List (Position F) → Option (Position F)
  first_of_symbol symbol [] = none
  first_of_symbol symbol (p ∷ ps) =
      if symbol_beq p.symbol symbol then some p else first_of_symbol symbol ps

  abbrev pub holds : SymbolId → PositionSlot F → Bool
  holds symbol slot = slot.active && symbol_beq slot.position.symbol symbol

  pub is_match-holds :
      (symbol : SymbolId) (slot : PositionSlot F)
      → IsHashed slot
      → is_match symbol slot ≡ holds symbol slot
  is_match-holds symbol slot h = ground (arith, symbol_beq_iff slot.position.symbol symbol)

  find_slot_lem :
      (symbol : SymbolId) (slots : List (PositionSlot F))
      → All IsHashed slots
      → find_slot symbol slots ≡ first_of_symbol symbol (active_positions slots)
  unfolding find_slot first_of_symbol active_positions
  find_slot_lem symbol [] h = refl
  find_slot_lem symbol (slot ∷ slots) h =
      rw (is_match-holds symbol slot h.0) (ground (arith, find_slot_lem symbol slots h.1))

  -- On a valid tracker `get_position` returns the first of the active positions that has the symbol, though
  -- it looks only at slots whose stored hash fits.
  get_position_lem :
      (symbol : SymbolId) (t : PositionTracker F)
      → IsValid t
      → get_position symbol t ≡ first_of_symbol symbol (get_active_positions t)
  unfolding get_position get_active_positions
  get_position_lem symbol t v = find_slot_lem symbol t.positions v.hashed

  -- The number of open positions with the symbol.
  abbrev pub occurs : SymbolId → PositionTracker F → ℕ
  occurs symbol t = count_if (holds symbol) t.positions

  find_slot-occurs :
      (symbol : SymbolId) (slots : List (PositionSlot F))
      → All IsHashed slots
      → (has_slot symbol slots ≡ (elim (find_slot symbol slots) [ none ↦ false | some _ ↦ true ]))
        × ((find_slot symbol slots ≡ none) × (count_if (holds symbol) slots ≡ 0)
            ⊎ ((p : Position F) × (find_slot symbol slots ≡ some p)
                × (p.symbol ≡ symbol)
                × (0 < count_if (holds symbol) slots)))
  unfolding find_slot has_slot
  find_slot-occurs symbol [] h = (refl, inl (refl, refl))
  find_slot-occurs symbol (slot ∷ slots) h = elim (Bool-cases (holds symbol slot)) [
    | inl t ↦
        rw (is_match-holds symbol slot h.0, t)
          (
            refl,
            inr (
              slot.position,
              refl,
              ground (arith, symbol_beq_iff slot.position.symbol symbol),
              omega arith,
            ),
          )
    | inr f ↦
        let z : 0 + count_if (holds symbol) slots ≡ count_if (holds symbol) slots = omega arith in
        rw (is_match-holds symbol slot h.0, f, z) (find_slot-occurs symbol slots h.1)
  ]

  -- A symbol is held exactly if it occurs, and then `get_position` finds a position of that symbol.
  get_position_cases :
      (symbol : SymbolId) (t : PositionTracker F)
      → IsValid t
      → ((get_position symbol t ≡ none) × (has_position symbol t ≡ false) × (occurs symbol t ≡ 0))
        ⊎ ((p : Position F) × (get_position symbol t ≡ some p)
            × (has_position symbol t ≡ true)
            × (p.symbol ≡ symbol)
            × (0 < occurs symbol t))
  unfolding get_position has_position
  get_position_cases symbol t v =
      let (has, found) = find_slot-occurs symbol t.positions v.hashed in
      elim found [
        | inl (e, z) ↦ inl (e, rw (has, e), z)
        | inr (p, e, s, z) ↦ inr (p, e, rw (has, e), s, z)
      ]

  pub open_slot-occurs :
      (symbol : SymbolId) (pos : Position F) (slots slots' : List (PositionSlot F))
      → open_slot pos slots ≡ some slots'
      → count_if (holds symbol) slots'
        ≡ count_if (holds symbol) slots + (if symbol_beq pos.symbol symbol then 1 else 0)
  unfolding open_slot
  open_slot-occurs symbol pos [] slots' e = cc
  open_slot-occurs symbol pos (slot ∷ slots) slots' e = elim (Option-cases (open_slot pos slots)) [
    | inl none_free ↦ ground arith
    | inr (rest, opened) ↦ ground (arith, open_slot-occurs symbol pos slots rest opened)
  ]

  pub close_slot-occurs :
      (symbol : SymbolId) (slots : List (PositionSlot F))
      → All IsHashed slots
      → (close_slot symbol slots ≡ none) × (count_if (holds symbol) slots ≡ 0)
        ⊎ ((p : Position F) × (slots' : List (PositionSlot F)) × (close_slot symbol slots
              ≡ some (p, slots'))
            × (find_slot symbol slots ≡ some p)
            × ((other : SymbolId)
                → count_if (holds other) slots
                  ≡ count_if (holds other) slots' + (if symbol_beq symbol other then 1 else 0)))
  unfolding close_slot find_slot
  close_slot-occurs symbol [] h = inl (refl, refl)
  close_slot-occurs symbol (slot ∷ slots) h = elim (Bool-cases (holds symbol slot)) [
    | inl t ↦
        rw (is_match-holds symbol slot h.0, t)
          (inr (
            slot.position,
            record slot { active = false } ∷ slots,
            refl,
            refl,
            λ other. ground (arith, symbol_beq_iff slot.position.symbol symbol),
          ))
    | inr f ↦
        rw (is_match-holds symbol slot h.0, f)
          (elim (close_slot-occurs symbol slots h.1) [
            | inl (e, z) ↦ inl (rw e, ground arith)
            | inr (p, rest, e, g, count) ↦
                inr (p, slot ∷ rest, rw e, g, λ other. ground (arith, count other))
          ])
  ]
