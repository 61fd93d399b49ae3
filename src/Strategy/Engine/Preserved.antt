-- ===== src/Strategy/Engine/Preserved.antt =====
-- Adding symbols and refreshing entries keep the invariant of the entry cache.
use spot_spot_relay_arbitrag.Prelude.{
  ℕ, zero, suc, ◌+◌, ◌≤◌, ◌<◌, ◌≡◌, refl, Bool, true, false, ◌||◌, List, [], ◌∷◌, ◌++◌, Option,
  none, some, arith, leb, if◌then◌else◌, Bool-cases, inl, inr, length, length-append,
}
use spot_spot_relay_arbitrag.Prelude.Map.{lookup, insert}
use spot_spot_relay_arbitrag.Double.{Double}
use spot_spot_relay_arbitrag.Types.Symbol.{SymbolId, eq_symbol}
use spot_spot_relay_arbitrag.Types.TradingConfig.{entry_gate_passes}
use spot_spot_relay_arbitrag.Memory.Bitset.{AtomicBitset}
use spot_spot_relay_arbitrag.Strategy.Premium.{RelayMetrics}
use spot_spot_relay_arbitrag.Strategy.Engine.{
  CachedEntry, ArbitrageSignal, ExchangePair, Engine, max_cached_symbols, entry_at, add_symbol,
  foreign_of,
}
use spot_spot_relay_arbitrag.Strategy.Engine.Entry.{
  BestPair, clear_state, entry_of, store_entry, update_with_pairs, update_symbol_entry,
  update_entries_from, update_all_entries,
}
use spot_spot_relay_arbitrag.Strategy.Engine.Invariant.{
  is_gated, IsSynced, IsWellFormed, write_sync, sync_again,
}

module _ {ℓ} {F : Type ℓ} ⦃d : Double F⦄ where
  pub if_both :
      (b : Bool) (x y : Engine F)
      → IsWellFormed x
      → IsWellFormed y
      → IsWellFormed (if b then x else y)
  if_both true x y hx hy = hx
  if_both false x y hx hy = hy

  clear_state-IsWellFormed :
      (idx : ℕ) (e : Engine F)
      → idx < max_cached_symbols
      → IsWellFormed e
      → IsWellFormed (clear_state idx e)
  unfolding clear_state
  clear_state-IsWellFormed idx e h w =
      let c : CachedEntry F = entry_at idx e in
      elim (Bool-cases (c.qualified || c.signal_fired)) [
        | inl t ↦
            rw t (write_sync idx (record c { qualified = false; signal_fired = false }) e h refl w)
        | inr f ↦
            let q : c.qualified ≡ false = ground (arith, f) in
            let s : c.signal_fired ≡ false = ground (arith, f) in
            rw f (rw (q, s) at (sync_again idx e h w))
      ]

  entry_of-gated :
      (best : BestPair F) (premium : F) (m : RelayMetrics F) (c : CachedEntry F)
      → is_gated (entry_of best premium m c) ≡ true
  unfolding entry_of
  entry_of-gated best premium m c =
      elim (Bool-cases
        (entry_gate_passes m.both_can_fill_target m.match_qty m.net_edge_pct m.net_profit_krw)) [
          | inl t ↦ rw t refl
          | inr f ↦ rw f refl
        ]

  store_entry-IsWellFormed :
      (idx : ℕ) (symbol : SymbolId) (best : BestPair F) (e : Engine F)
      → idx < max_cached_symbols
      → IsWellFormed e
      → IsWellFormed (store_entry idx symbol best e)
  unfolding store_entry
  store_entry-IsWellFormed idx symbol best e h w =
      write_sync idx _ e h (entry_of-gated best _ _ _) w

  update_with_pairs-IsWellFormed :
      (clock : ℕ → ℕ) (idx : ℕ) (pairs : List ExchangePair) (e : Engine F)
      → idx < max_cached_symbols
      → IsWellFormed e
      → IsWellFormed (update_with_pairs clock idx pairs e)
  unfolding update_with_pairs
  update_with_pairs-IsWellFormed clock idx [] e h w = clear_state-IsWellFormed idx e h w
  update_with_pairs-IsWellFormed clock idx (p ∷ ps) e h w =
      if_both _ _ _ (clear_state-IsWellFormed idx e h w) (store_entry-IsWellFormed idx _ _ e h w)

  -- `update_symbol_entry` keeps the cache and its bits in step.
  pub update_symbol_entry-IsWellFormed :
      (clock : ℕ → ℕ) (idx : ℕ) (e : Engine F)
      → IsWellFormed e
      → IsWellFormed (update_symbol_entry clock idx e)
  unfolding update_symbol_entry
  update_symbol_entry-IsWellFormed clock idx e w =
      elim (Bool-cases (leb (length e.monitored_symbols) idx)) [
        | inl out ↦ rw out w
        | inr within ↦ rw within (
            update_with_pairs-IsWellFormed clock idx e.exchange_pairs e (ground (arith, w.counted))
              w)
      ]

  update_entries_from-IsWellFormed :
      (clocks : ℕ → ℕ → ℕ) (rounds i : ℕ) (e : Engine F)
      → IsWellFormed e
      → IsWellFormed (update_entries_from clocks rounds i e)
  unfolding update_entries_from
  update_entries_from-IsWellFormed clocks zero i e w = w
  update_entries_from-IsWellFormed clocks (suc n) i e w =
      update_entries_from-IsWellFormed clocks n (i + 1) (update_symbol_entry (clocks i) i e)
        (update_symbol_entry-IsWellFormed (clocks i) i e w)

  pub update_all_entries-IsWellFormed :
      (clocks : ℕ → ℕ → ℕ) (e : Engine F)
      → IsWellFormed e
      → IsWellFormed (update_all_entries clocks e)
  unfolding update_all_entries
  update_all_entries-IsWellFormed clocks e w =
      update_entries_from-IsWellFormed clocks (length e.monitored_symbols) 0 e w

  if_known :
      (found : Option ℕ) (x y : Engine F)
      → IsWellFormed x
      → IsWellFormed y
      → IsWellFormed (elim found [ some _ ↦ x | none ↦ y ])
  if_known (some idx) x y hx hy = hx
  if_known none x y hx hy = hy

  recounted :
      (n m : ℕ) (cache : List (CachedEntry F)) (cs fs : AtomicBitset)
      (ss : List (ArbitrageSignal F))
      → IsSynced n cache cs fs ss
      → m ≤ max_cached_symbols
      → IsSynced m cache cs fs ss
  recounted n m cache cs fs ss w h = record {
    candidates_valid = w.candidates_valid;
    fired_valid = w.fired_valid;
    cached = w.cached;
    counted = h;
    candidate = w.candidate;
    fired = w.fired;
    gated = w.gated;
    passed = w.passed;
  }

  pub add_symbol-IsWellFormed :
      (symbol : SymbolId) (e : Engine F) → IsWellFormed e → IsWellFormed (add_symbol symbol e)
  unfolding add_symbol
  add_symbol-IsWellFormed symbol e w =
      let added : Engine F = record e {
        monitored_symbols = e.monitored_symbols ++ (symbol ∷ []);
        foreign_symbols = e.foreign_symbols ++ (foreign_of symbol ∷ []);
        korean_symbol_index = insert symbol (length e.monitored_symbols) e.korean_symbol_index;
        foreign_symbol_index =
            insert (foreign_of symbol) (length e.monitored_symbols) e.foreign_symbol_index;
      } in
      let full : Bool = leb max_cached_symbols (length e.monitored_symbols) in
      if_known (lookup symbol e.korean_symbol_index) e (if full then e else added) w
        (elim (Bool-cases full) [
          | inl t ↦ rw t w
          | inr room ↦ rw room (
              recounted _ _ _ _ _ _ w
                (ground (arith, room, length-append e.monitored_symbols (symbol ∷ []))))
        ])
