-- ===== src/Strategy/PositionTracker/Tests.antt =====
-- Runs of the tracker, and its theorems at concrete trackers.
use spot_spot_relay_arbitrag.Prelude.{◌≤◌, ◌≡◌, ◌⊎◌, refl, true, false, [], ◌∷◌, none, some, arith}
use spot_spot_relay_arbitrag.Double.Fixed.{Fixed, fixed_double}
use spot_spot_relay_arbitrag.Types.Symbol.{SymbolId, hash}
use spot_spot_relay_arbitrag.Types.Trade.{Position, no_position}
use spot_spot_relay_arbitrag.Strategy.PositionTracker.{
  PositionTracker, new_tracker, open_position, get_position, update_position,
}
use spot_spot_relay_arbitrag.Strategy.PositionTracker.Invariant.{
  IsValid, new_tracker-IsValid, open_position_lem,
}
use spot_spot_relay_arbitrag.Strategy.PositionTracker.Find.{occurs}
use spot_spot_relay_arbitrag.Strategy.PositionTracker.AsMap.{
  get_position-open_position, get_position-update_position,
}

abbrev btc : SymbolId
btc = record { base = b'B' ∷ b'T' ∷ b'C' ∷ []; quote = b'K' ∷ [] }

abbrev eth : SymbolId
eth = record { base = b'E' ∷ b'T' ∷ b'H' ∷ []; quote = b'K' ∷ [] }

abbrev held : SymbolId → Position Fixed
held s = record no_position { symbol = s; is_active = true }

abbrev fresh : PositionTracker Fixed
fresh = new_tracker

-- Two positions.
abbrev both : PositionTracker Fixed
both = (open_position (held eth) (open_position (held btc) fresh).0).0

fresh-IsValid : IsValid fresh
fresh-IsValid = new_tracker-IsValid

both-IsValid : IsValid both
both-IsValid =
    (open_position_lem (held eth) (open_position (held btc) fresh).0
      (open_position_lem (held btc) fresh fresh-IsValid).0).0

finds_both : (get_position btc both ≡ some (held btc)) × (get_position eth both ≡ some (held eth))
unfolding get_position open_position new_tracker hash
finds_both = (refl, refl)

btc_once : occurs btc both ≤ 1
unfolding open_position new_tracker
btc_once = omega arith

get_position-open_position_example :
    get_position btc (open_position (held btc) fresh).0 ≡ some (held btc)
unfolding get_position open_position new_tracker
get_position-open_position_example =
    get_position-open_position (held btc) btc fresh fresh-IsValid refl refl

get_position-update_position_example :
    ((get_position btc both ≡ none) × (update_position (held btc) both ≡ (both, false)))
    ⊎ (((update_position (held btc) both).1 ≡ true)
        × (get_position eth (update_position (held btc) both).0 ≡ get_position eth both))
get_position-update_position_example =
    get_position-update_position (held btc) eth both both-IsValid btc_once
