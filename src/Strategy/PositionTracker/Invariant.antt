-- ===== src/Strategy/PositionTracker/Invariant.antt =====
-- The counter of `PositionTracker` counts its active slots, and the stored hashes are those of the symbols.
use spot_spot_relay_arbitrag.Prelude.{
  ◌+◌, ◌≤◌, ◌<◌, ◌≡◌, refl, Bool, true, false, List, [], ◌∷◌, Option, none, some, arith,
  Option-cases, inl, inr, ◌⊎◌, length, All, count_if,
}
use spot_spot_relay_arbitrag.Double.{Double}
use spot_spot_relay_arbitrag.Types.Symbol.{SymbolId, hash}
use spot_spot_relay_arbitrag.Types.Trade.{Position}
use spot_spot_relay_arbitrag.Strategy.PositionTracker.{
  PositionSlot, PositionTracker, max_positions, open_slot, open_position, close_slot,
  close_position, update_position, new_tracker, active_positions, get_active_positions,
  has_any_position,
}

module _ {ℓ} {F : Type ℓ} where
  abbrev pub is_active : PositionSlot F → Bool
  is_active slot = slot.active

  abbrev pub IsHashed : PositionSlot F → Type 0
  IsHashed slot = slot.active ≡ true → slot.symbol_hash ≡ hash slot.position.symbol

  pub record IsValid (t : PositionTracker F) : Type 0 where
    pub sized : length t.positions ≡ max_positions
    pub counted : t.position_count ≡ count_if is_active t.positions
    pub hashed : All IsHashed t.positions

  count_if-le : (slots : List (PositionSlot F)) → count_if is_active slots ≤ length slots
  count_if-le [] = omega arith
  count_if-le (slot ∷ slots) = ground (arith, count_if-le slots)

  pub count-le-max : (t : PositionTracker F) → IsValid t → t.position_count ≤ max_positions
  count-le-max t v = omega (arith, count_if-le t.positions, v.counted, v.sized)

  no_active :
      (slots : List (PositionSlot F)) → count_if is_active slots ≡ 0 → active_positions slots ≡ []
  unfolding active_positions
  no_active [] h = refl
  no_active (slot ∷ slots) h = ground (arith, h, no_active slots)

  -- With a count of 0 there is no active position.
  pub none_active :
      (t : PositionTracker F) → IsValid t → has_any_position t ≡ false → get_active_positions t ≡ []
  unfolding has_any_position get_active_positions
  none_active t v h = no_active t.positions (ground (arith, h, v.counted))

  -- What `open_slot` answers: there is a free slot, or all are taken.
  OpenSlot : List (PositionSlot F) → Option (List (PositionSlot F)) → Type 0
  OpenSlot slots none = count_if is_active slots ≡ length slots
  OpenSlot slots (some slots') =
      (count_if is_active slots < length slots)
      × (length slots' ≡ length slots)
      × (count_if is_active slots' ≡ count_if is_active slots + 1)
      × All IsHashed slots'

  open_slot-OpenSlot :
      (pos : Position F) (slots : List (PositionSlot F))
      → All IsHashed slots
      → OpenSlot slots (open_slot pos slots)
  unfolding open_slot OpenSlot
  open_slot-OpenSlot pos [] h = refl
  open_slot-OpenSlot pos (slot ∷ slots) h =
      ground (arith, count_if-le slots, open_slot-OpenSlot pos slots h.1)

  CloseSlot : List (PositionSlot F) → Option (Position F × List (PositionSlot F)) → Type 0
  CloseSlot slots none = Unit
  CloseSlot slots (some (p, slots')) =
      (length slots' ≡ length slots)
      × (count_if is_active slots ≡ count_if is_active slots' + 1)
      × All IsHashed slots'

  close_slot-CloseSlot :
      (symbol : SymbolId) (slots : List (PositionSlot F))
      → All IsHashed slots
      → CloseSlot slots (close_slot symbol slots)
  unfolding close_slot CloseSlot
  close_slot-CloseSlot symbol [] h = tt
  close_slot-CloseSlot symbol (slot ∷ slots) h =
      ground (arith, close_slot-CloseSlot symbol slots h.1)

  -- `open_position` keeps the tracker valid. Either fewer than 16 positions were open, and it succeeds and
  -- the counter rises by one, or 16 were, and it fails and changes nothing.
  pub open_position_lem :
      (pos : Position F) (t : PositionTracker F)
      → IsValid t
      → let (t', opened) = open_position pos t in
        IsValid t'
        × (((opened ≡ true)
              × (t.position_count < max_positions)
              × (t'.position_count ≡ t.position_count + 1))
            ⊎ ((opened ≡ false) × (t.position_count ≡ max_positions) × (t' ≡ t)))
  unfolding open_position OpenSlot
  open_position_lem pos t v = ground (arith, open_slot-OpenSlot pos t.positions v.hashed)

  -- `close_position` keeps the tracker valid. Either it returns a position, and the counter, which was not
  -- zero, falls by one, or it returns none and changes nothing.
  pub close_position_lem :
      (symbol : SymbolId) (t : PositionTracker F)
      → IsValid t
      → let (t', closed) = close_position symbol t in
        IsValid t'
        × (((p : Position F) × (closed ≡ some p) × (t.position_count ≡ t'.position_count + 1))
            ⊎ ((closed ≡ none) × (t' ≡ t)))
  unfolding close_position CloseSlot
  close_position_lem symbol t v = elim (Option-cases (close_slot symbol t.positions)) [
    | inl e ↦ rw (e, close_position) (v, inr (refl, refl))
    | inr ((p, slots), e) ↦
        let c : CloseSlot t.positions (some (p, slots)) =
          rw e at (close_slot-CloseSlot symbol t.positions v.hashed) in
        rw (e, close_position)
          (
            record { sized = ground arith; counted = ground arith; hashed = c.2 },
            inl (p, refl, ground arith),
          )
  ]

  -- `update_position` keeps the tracker valid and the number of positions, whether or not it finds one.
  pub update_position_lem :
      (pos : Position F) (t : PositionTracker F)
      → IsValid t
      → let (t', updated) = update_position pos t in
        IsValid t' × (t'.position_count ≡ t.position_count)
  unfolding update_position
  update_position_lem pos t v =
      let (t', closed) = close_position pos.symbol t in
      ground (
        arith,
        close_position_lem pos.symbol t v,
        open_position_lem pos t',
        count_if-le t.positions,
      )

module _ {ℓ} {F : Type ℓ} ⦃d : Double F⦄ where
  pub new_tracker-IsValid : IsValid {F = F} new_tracker
  unfolding new_tracker
  new_tracker-IsValid = record { sized = refl; counted = refl; hashed = ground arith }
