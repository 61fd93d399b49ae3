-- ===== src/Strategy/PositionTracker.antt =====
-- `PositionTracker` of kimp_arb_cpp/include/kimp/strategy/arbitrage_engine.hpp, and `update_position` of
-- `ArbitrageEngine`. A call runs to its end; `position_count_` is an `int` that stays between 0 and 16.
pub mod Invariant
pub mod Find
pub mod AsMap
mod Tests
use spot_spot_relay_arbitrag.Prelude.{
  ℕ, zero, suc, ◌+◌, ◌-◌, Bool, true, false, ◌&&◌, List, [], ◌∷◌, Option, none, some, ltb, ◌==◌,
  if◌then◌else◌, replicate,
}
use spot_spot_relay_arbitrag.Double.{Double}
use spot_spot_relay_arbitrag.Types.Symbol.{SymbolId, symbol_beq, hash}
use spot_spot_relay_arbitrag.Types.Trade.{Position, no_position}

-- The number of slots.
abbrev pub max_positions : ℕ
max_positions = 16

pub record PositionSlot {ℓ} (F : Type ℓ) : Type ℓ where
  pub active : Bool
  pub symbol_hash : ℕ
  pub position : Position F

pub record PositionTracker {ℓ} (F : Type ℓ) : Type ℓ where
  pub positions : List (PositionSlot F)
  pub position_count : ℕ

module _ {ℓ} {F : Type ℓ} where
  -- The test before the lock and the test under it.
  abbrev pub is_match : SymbolId → PositionSlot F → Bool
  is_match symbol slot =
      (slot.active && (slot.symbol_hash == hash symbol))
      && (slot.active && symbol_beq slot.position.symbol symbol)

  -- `TradingConfig::MAX_POSITIONS`, set at run time, is the argument `limit`.
  unfoldable pub can_open_position : ℕ → PositionTracker F → Bool
  can_open_position limit t = ltb t.position_count limit

  unfoldable pub has_any_position : PositionTracker F → Bool
  has_any_position t = ltb 0 t.position_count

  pub has_slot : SymbolId → List (PositionSlot F) → Bool
  has_slot symbol [] = false
  has_slot symbol (slot ∷ slots) = if is_match symbol slot then true else has_slot symbol slots

  unfoldable pub has_position : SymbolId → PositionTracker F → Bool
  unfolding has_slot
  has_position symbol t = has_slot symbol t.positions

  pub find_slot : SymbolId → List (PositionSlot F) → Option (Position F)
  find_slot symbol [] = none
  find_slot symbol (slot ∷ slots) =
      if is_match symbol slot then some slot.position else find_slot symbol slots

  unfoldable pub get_position : SymbolId → PositionTracker F → Option (Position F)
  unfolding find_slot
  get_position symbol t = find_slot symbol t.positions

  -- The first free slot takes the position; `none` if there is no free slot.
  pub open_slot : Position F → List (PositionSlot F) → Option (List (PositionSlot F))
  open_slot pos [] = none
  open_slot pos (slot ∷ slots) =
      if slot.active
      then (elim (open_slot pos slots) [ none ↦ none | some rest ↦ some (slot ∷ rest) ])
      else some (record { active = true; symbol_hash = hash pos.symbol; position = pos } ∷ slots)

  unfoldable pub open_position : Position F → PositionTracker F → PositionTracker F × Bool
  unfolding open_slot
  open_position pos t = elim (open_slot pos t.positions) [
    | none ↦ (t, false)
    | some slots ↦ (record { positions = slots; position_count = t.position_count + 1 }, true)
  ]

  -- The position that was closed, and the slots after it.
  pub close_slot : SymbolId → List (PositionSlot F) → Option (Position F × List (PositionSlot F))
  close_slot symbol [] = none
  close_slot symbol (slot ∷ slots) =
      if is_match symbol slot
      then some (slot.position, record slot { active = false } ∷ slots)
      else elim (close_slot symbol slots) [ none ↦ none | some (p, rest) ↦ some (p, slot ∷ rest) ]

  -- `closed` is written only on success; the Boolean is whether there is a result.
  unfoldable pub close_position :
      SymbolId → PositionTracker F → PositionTracker F × Option (Position F)
  unfolding close_slot
  close_position symbol t = elim (close_slot symbol t.positions) [
    | none ↦ (t, none)
    | some (p, slots) ↦
        (record { positions = slots; position_count = t.position_count - 1 }, some p)
  ]

  pub active_positions : List (PositionSlot F) → List (Position F)
  active_positions [] = []
  active_positions (slot ∷ slots) =
      if slot.active then slot.position ∷ active_positions slots else active_positions slots

  unfoldable pub get_active_positions : PositionTracker F → List (Position F)
  unfolding active_positions
  get_active_positions t = active_positions t.positions

  -- `fn` changes the state that the callback captures.
  pub visit_slots {κ} : {S : Type κ} → (Position F → S → S) → List (PositionSlot F) → S → S
  visit_slots fn [] s = s
  visit_slots fn (slot ∷ slots) s =
      visit_slots fn slots (if slot.active then fn slot.position s else s)

  unfoldable pub for_each_active_position {κ} :
      {S : Type κ} → (Position F → S → S) → PositionTracker F → S → S
  unfolding visit_slots
  for_each_active_position fn t s = visit_slots fn t.positions s

  -- `ArbitrageEngine::update_position`.
  unfoldable pub update_position : Position F → PositionTracker F → PositionTracker F × Bool
  update_position pos t =
      let (t', closed) = close_position pos.symbol t in
      elim closed [ none ↦ (t', false) | some old ↦ open_position pos t' ]

module _ {ℓ} {F : Type ℓ} ⦃d : Double F⦄ where
  unfoldable pub new_tracker : PositionTracker F
  new_tracker = record {
    positions =
        replicate max_positions
          (record { active = false; symbol_hash = 0; position = no_position });
    position_count = 0;
  }
