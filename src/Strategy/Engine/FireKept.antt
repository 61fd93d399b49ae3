-- ===== src/Strategy/Engine/FireKept.antt =====
-- Emitting entry signals keeps the invariant of the entry cache.
use spot_spot_relay_arbitrag.Prelude.{
  ℕ, ◌≡◌, refl, Bool, true, List, [], ◌∷◌, arith, ◌==◌, if◌then◌else◌, Bool-cases, inl, inr, length,
  All-append,
}
use spot_spot_relay_arbitrag.Double.{Double}
use spot_spot_relay_arbitrag.Types.Symbol.{eq_symbol}
use spot_spot_relay_arbitrag.Strategy.Engine.{Engine, entry_at}
use spot_spot_relay_arbitrag.Strategy.Engine.Fire.{
  emit_signal, mark_fired, fire_one, fire_all, position_states, selection_of, fire_entry_from_cache,
}
use spot_spot_relay_arbitrag.Strategy.Engine.Invariant.{
  IsWellFormed, write_sync_as, qualified-lt, entry_at-sync,
}
use spot_spot_relay_arbitrag.Strategy.Engine.Preserved.{if_both}

module _ {ℓ} {F : Type ℓ} ⦃d : Double F⦄ where
  mark_fired-IsWellFormed :
      (idx : ℕ) (e : Engine F)
      → IsWellFormed e
      → (entry_at idx e).qualified ≡ true
      → IsWellFormed (mark_fired idx e)
  unfolding mark_fired
  mark_fired-IsWellFormed idx e w q =
      write_sync_as idx true true (record (entry_at idx e) { signal_fired = true }) e q refl
        (qualified-lt idx e w q) (w.gated idx) w

  mark_fired-qualified :
      (idx : ℕ) (e : Engine F)
      → IsWellFormed e
      → (entry_at idx e).qualified ≡ true
      → (entry_at idx (mark_fired idx e)).qualified ≡ true
  unfolding mark_fired
  mark_fired-qualified idx e w q =
      rw
        (entry_at-sync idx true true (record (entry_at idx e) { signal_fired = true }) e
          (qualified-lt idx e w q) w)
        q

  emit_signal-IsWellFormed :
      (idx : ℕ) (e : Engine F)
      → IsWellFormed e
      → (entry_at idx e).qualified ≡ true
      → IsWellFormed (emit_signal idx e)
  unfolding emit_signal
  emit_signal-IsWellFormed idx e w q = record {
    candidates_valid = w.candidates_valid;
    fired_valid = w.fired_valid;
    cached = w.cached;
    counted = w.counted;
    candidate = w.candidate;
    fired = w.fired;
    gated = w.gated;
    passed = All-append _ e.entry_signals _ w.passed (ground (arith, w.gated idx, q), tt);
  }

  fire_one-IsWellFormed :
      (states : List ℕ) (idx : ℕ) (e : Engine F)
      → IsWellFormed e
      → IsWellFormed (fire_one states idx e)
  unfolding fire_one
  fire_one-IsWellFormed states idx e w = elim (Bool-cases (entry_at idx e).qualified) [
    | inl q ↦ rw q (
        if_both _ _ _ w (
          if_both _ _ _
            (emit_signal-IsWellFormed idx (mark_fired idx e) (mark_fired-IsWellFormed idx e w q)
              (mark_fired-qualified idx e w q))
            (emit_signal-IsWellFormed idx e w q)))
    | inr n ↦ rw n w
  ]

  fire_all-IsWellFormed :
      (states picks : List ℕ) (e : Engine F)
      → IsWellFormed e
      → IsWellFormed (fire_all states picks e)
  unfolding fire_all
  fire_all-IsWellFormed states [] e w = w
  fire_all-IsWellFormed states (idx ∷ rest) e w =
      fire_all-IsWellFormed states rest (fire_one states idx e)
        (fire_one-IsWellFormed states idx e w)

  -- `fire_entry_from_cache` keeps the invariant, for any sort and any limit of positions.
  pub fire_entry_from_cache-IsWellFormed :
      (sort : (ℕ → ℕ → Bool) → List ℕ → List ℕ) (max_positions : ℕ) (e : Engine F)
      → IsWellFormed e
      → IsWellFormed (fire_entry_from_cache sort max_positions e)
  unfolding fire_entry_from_cache
  fire_entry_from_cache-IsWellFormed sort max_positions e w =
      let fired : Engine F =
        fire_all (position_states e) (selection_of sort max_positions e).indices e in
      let counted : Engine F = if length e.monitored_symbols == 0 then e else fired in
      if_both (length e.exchange_pairs == 0) e (if e.entry_suppressed then e else counted) w (
        if_both e.entry_suppressed e counted w
          (if_both (length e.monitored_symbols == 0) e fired w (fire_all-IsWellFormed _ _ e w)))
