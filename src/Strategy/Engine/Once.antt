-- ===== src/Strategy/Engine/Once.antt =====
-- A new signal is given once: the next scan leaves the symbol alone, until its entry is reset.
use spot_spot_relay_arbitrag.Prelude.{
  ℕ, ◌≡◌, refl, true, false, List, ◌==◌, Bool-cases, inl, inr, ap, sym, ◌∙◌,
}
use spot_spot_relay_arbitrag.Double.{Double}
use spot_spot_relay_arbitrag.Strategy.EntrySelection.{state_at}
use spot_spot_relay_arbitrag.Strategy.Engine.{CachedEntry, Engine, entry_at}
use spot_spot_relay_arbitrag.Strategy.Engine.Fire.{emit_signal, mark_fired, fire_one}
use spot_spot_relay_arbitrag.Strategy.Engine.Invariant.{IsWellFormed, qualified-lt, entry_at-sync}

module _ {ℓ} {F : Type ℓ} ⦃d : Double F⦄ (states : List ℕ) (idx : ℕ) where
  fired_before :
      (e : Engine F)
      → (state_at states idx == 2) ≡ false
      → (entry_at idx e).signal_fired ≡ true
      → fire_one states idx e ≡ e
  unfolding fire_one
  fired_before e p f = elim (Bool-cases (entry_at idx e).qualified) [
    | inl q ↦ rw (q, p, f) refl
    | inr n ↦ rw n refl
  ]

  unqualified : (e : Engine F) → (entry_at idx e).qualified ≡ false → fire_one states idx e ≡ e
  unfolding fire_one
  unqualified e n = rw n refl

  fires :
      (e : Engine F)
      → (state_at states idx == 2) ≡ false
      → (entry_at idx e).qualified ≡ true
      → (entry_at idx e).signal_fired ≡ false
      → fire_one states idx e ≡ emit_signal idx (mark_fired idx e)
  unfolding fire_one
  fires e p q fresh = rw (q, p, fresh) refl

  marked :
      (e : Engine F)
      → IsWellFormed e
      → (entry_at idx e).qualified ≡ true
      → (entry_at idx (emit_signal idx (mark_fired idx e))).signal_fired ≡ true
  unfolding mark_fired emit_signal
  marked e w q =
      ap (λ (c : CachedEntry F). c.signal_fired)
        (entry_at-sync idx true true (record (entry_at idx e) { signal_fired = true }) e
          (qualified-lt idx e w q) w)

  -- In a well-formed engine, a second visit of a symbol without a partial position changes nothing: its signal
  -- is emitted at most once.
  pub fire_one-again :
      (e : Engine F)
      → IsWellFormed e
      → (state_at states idx == 2) ≡ false
      → fire_one states idx (fire_one states idx e) ≡ fire_one states idx e
  fire_one-again e w p = elim (Bool-cases (entry_at idx e).qualified) [
    | inr n ↦ ap (fire_one states idx) (unqualified e n)
    | inl q ↦ elim (Bool-cases (entry_at idx e).signal_fired) [
      | inl f ↦ ap (fire_one states idx) (fired_before e p f)
      | inr fresh ↦
          let first : fire_one states idx e ≡ emit_signal idx (mark_fired idx e) =
            fires e p q fresh in
          ap (fire_one states idx) first ∙ fired_before _ p (marked e w q) ∙ sym first
    ]
  ]
