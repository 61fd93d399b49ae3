-- ===== src/Strategy/Engine/Invariant.antt =====
-- The invariant of the entry cache: the two bitsets say what the entries say, an entry that qualifies passes
-- the entry gate, and so does every signal that was emitted.
use spot_spot_relay_arbitrag.Prelude.{
  ℕ, ◌≤◌, ◌<◌, ◌≡◌, refl, ◌∙◌, ap, Bool, true, false, not, ◌&&◌, ◌||◌, List, arith, ltb, leb, ◌==◌,
  if◌then◌else◌, Bool-cases, inl, inr, get_or, set, length, length-set, get_or-set_self,
  get_or-set_ne, length-replicate, get_or-replicate, get_or_above, All,
}
use spot_spot_relay_arbitrag.Double.{Double}
use spot_spot_relay_arbitrag.Types.TradingConfig.{entry_gate_passes}
use spot_spot_relay_arbitrag.Memory.Bitset as Bits
use spot_spot_relay_arbitrag.Memory.Bitset.{AtomicBitset, test}
use spot_spot_relay_arbitrag.Memory.Bitset.Laws.{
  IsValid, set-IsValid, test-set, new-IsValid, test-new,
}
use spot_spot_relay_arbitrag.Strategy.Engine.{
  CachedEntry, ArbitrageSignal, Engine, max_cached_symbols, no_entry, entry_at, new_engine,
}
use spot_spot_relay_arbitrag.Strategy.Engine.Entry.{sync_entry_state_bits, write_entry_at}

module _ {ℓ} {F : Type ℓ} ⦃d : Double F⦄ where
  -- An entry that qualifies passes the gate.
  abbrev pub is_gated : CachedEntry F → Bool
  is_gated c =
      not c.qualified
      || entry_gate_passes c.both_can_fill_target c.match_qty c.net_edge_pct c.net_profit_krw

  abbrev pub signal_passes : ArbitrageSignal F → Bool
  signal_passes s =
      entry_gate_passes s.both_can_fill_target s.match_qty s.net_edge_pct s.net_profit_krw

  pub record IsSynced (symbol_count : ℕ) (cache : List (CachedEntry F))
      (candidate_bits fired_bits : AtomicBitset) (signals : List (ArbitrageSignal F)) : Type ℓ where
    pub candidates_valid : IsValid max_cached_symbols candidate_bits
    pub fired_valid : IsValid max_cached_symbols fired_bits
    pub cached : length cache ≡ max_cached_symbols
    pub counted : symbol_count ≤ max_cached_symbols
    pub candidate :
        (i : ℕ)
        → test max_cached_symbols i candidate_bits
          ≡ ((get_or cache i no_entry).qualified && not (get_or cache i no_entry).signal_fired)
    pub fired :
        (i : ℕ) → test max_cached_symbols i fired_bits ≡ (get_or cache i no_entry).signal_fired
    pub gated : (i : ℕ) → is_gated (get_or cache i no_entry) ≡ true
    pub passed : All (λ s. signal_passes s ≡ true) signals

  abbrev pub IsWellFormed : Engine F → Type ℓ
  IsWellFormed e =
      IsSynced (length e.monitored_symbols) e.entry_cache e.candidate_bits e.fired_bits
        e.entry_signals

  pub new_engine-IsWellFormed : IsWellFormed new_engine
  unfolding new_engine
  new_engine-IsWellFormed = record {
    candidates_valid = new-IsValid max_cached_symbols;
    fired_valid = new-IsValid max_cached_symbols;
    cached = length-replicate max_cached_symbols (no_entry {F = F});
    counted = omega arith;
    candidate = λ i.
        rw (test-new max_cached_symbols i, get_or-replicate max_cached_symbols (no_entry {F = F}) i)
          refl;
    fired = λ i.
        rw (test-new max_cached_symbols i, get_or-replicate max_cached_symbols (no_entry {F = F}) i)
          refl;
    gated = λ i. rw (get_or-replicate max_cached_symbols (no_entry {F = F}) i) refl;
    passed = tt;
  }

  get_or-set :
      (cache : List (CachedEntry F)) (idx i : ℕ) (entry : CachedEntry F)
      → idx < length cache
      → get_or (set cache idx entry) i no_entry
        ≡ (if idx == i then entry else get_or cache i no_entry)
  get_or-set cache idx i entry h = elim (Bool-cases (idx == i)) [
    | inl same ↦
        let e : idx ≡ i = ground arith in
        rw (same, ← e) (get_or-set_self cache idx entry no_entry h)
    | inr apart ↦ rw apart (get_or-set_ne cache idx i entry no_entry (ground arith))
  ]

  sync_within :
      (idx : ℕ) (q f : Bool) (e : Engine F)
      → idx < max_cached_symbols
      → sync_entry_state_bits idx q f e ≡ record e {
        candidate_bits = Bits.set max_cached_symbols idx (q && not f) e.candidate_bits;
        fired_bits = Bits.set max_cached_symbols idx f e.fired_bits;
      }
  unfolding sync_entry_state_bits
  sync_within idx q f e h =
      let within : leb max_cached_symbols idx ≡ false = ground arith in rw within refl

  -- The invariant after the bits of `idx` are written, where the cache has `entry` at `idx`.
  module _ (idx : ℕ) (entry : CachedEntry F) (h : idx < max_cached_symbols) where
    IsSynced-set :
        (n : ℕ) (cache cache' : List (CachedEntry F)) (cs fs : AtomicBitset)
        (ss : List (ArbitrageSignal F))
        → ((i : ℕ)
            → get_or cache' i no_entry ≡ (if idx == i then entry else get_or cache i no_entry))
        → length cache' ≡ length cache
        → is_gated entry ≡ true
        → IsSynced n cache cs fs ss
        → IsSynced n cache'
            (Bits.set max_cached_symbols idx (entry.qualified && not entry.signal_fired) cs)
            (Bits.set max_cached_symbols idx entry.signal_fired fs)
            ss
    IsSynced-set n cache cache' cs fs ss at_idx same g w = record {
      candidates_valid = set-IsValid max_cached_symbols idx _ w.candidates_valid;
      fired_valid = set-IsValid max_cached_symbols idx _ w.fired_valid;
      cached = same ∙ w.cached;
      counted = w.counted;
      candidate = λ i. ground (
        arith,
        test-set max_cached_symbols idx i (entry.qualified && not entry.signal_fired)
            w.candidates_valid,
        at_idx i,
        w.candidate i,
      );
      fired = λ i. ground (
        arith,
        test-set max_cached_symbols idx i entry.signal_fired w.fired_valid,
        at_idx i,
        w.fired i,
      );
      gated = λ i. rw (at_idx i) (ground (arith, g, w.gated i));
      passed = w.passed;
    }

  -- A write of an entry that passes its gate, with the bits that it says.
  pub write_sync :
      (idx : ℕ) (entry : CachedEntry F) (e : Engine F)
      → idx < max_cached_symbols
      → is_gated entry ≡ true
      → IsWellFormed e
      → IsWellFormed (
          sync_entry_state_bits idx entry.qualified entry.signal_fired (write_entry_at idx entry e))
  write_sync idx entry e h g w =
      rw (sync_within idx entry.qualified entry.signal_fired (write_entry_at idx entry e) h) (
        IsSynced-set idx entry h _ e.entry_cache _ _ _ _
          (λ i. get_or-set e.entry_cache idx i entry (omega (arith, w.cached)))
          (length-set e.entry_cache idx entry) g w)

  -- The same, where the bits are written as `q` and `f`.
  pub write_sync_as :
      (idx : ℕ) (q f : Bool) (entry : CachedEntry F) (e : Engine F)
      → entry.qualified ≡ q
      → entry.signal_fired ≡ f
      → idx < max_cached_symbols
      → is_gated entry ≡ true
      → IsWellFormed e
      → IsWellFormed (sync_entry_state_bits idx q f (write_entry_at idx entry e))
  write_sync_as idx q f entry e eq ef h g w = rw (← eq, ← ef) (write_sync idx entry e h g w)

  same_at :
      (idx i : ℕ) (e : Engine F)
      → entry_at i e ≡ (if idx == i then entry_at idx e else entry_at i e)
  same_at idx i e = elim (Bool-cases (idx == i)) [
    | inl same ↦ let p : i ≡ idx = ground arith in rw same (ap (λ (k : ℕ). entry_at k e) p)
    | inr apart ↦ rw apart refl
  ]

  -- The bits of an entry, written again.
  pub sync_again :
      (idx : ℕ) (e : Engine F)
      → idx < max_cached_symbols
      → IsWellFormed e
      → IsWellFormed
          (sync_entry_state_bits idx (entry_at idx e).qualified (entry_at idx e).signal_fired e)
  sync_again idx e h w =
      rw (sync_within idx (entry_at idx e).qualified (entry_at idx e).signal_fired e h) (
        IsSynced-set idx (entry_at idx e) h _ e.entry_cache _ _ _ _ (λ i. same_at idx i e) refl
          (w.gated idx) w)

  -- Only an entry of the cache qualifies.
  pub qualified-lt :
      (idx : ℕ) (e : Engine F)
      → IsWellFormed e
      → (entry_at idx e).qualified ≡ true
      → idx < max_cached_symbols
  qualified-lt idx e w q = elim (Bool-cases (ltb idx max_cached_symbols)) [
    | inl within ↦ ground arith
    | inr out ↦
        let outside : entry_at idx e ≡ no_entry =
          get_or_above e.entry_cache idx no_entry (ground (arith, w.cached)) in
        absurd (ground (arith, rw outside at q))
  ]

  pub entry_at-sync :
      (idx : ℕ) (q f : Bool) (entry : CachedEntry F) (e : Engine F)
      → idx < max_cached_symbols
      → IsWellFormed e
      → entry_at idx (sync_entry_state_bits idx q f (write_entry_at idx entry e)) ≡ entry
  entry_at-sync idx q f entry e h w =
      rw (sync_within idx q f (write_entry_at idx entry e) h)
        (get_or-set_self e.entry_cache idx entry no_entry (omega (arith, w.cached)))
