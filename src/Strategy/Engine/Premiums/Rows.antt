-- ===== src/Strategy/Engine/Premiums/Rows.antt =====
-- The arrays and batches of `get_all_premiums` against a report of each symbol by itself.
use mathlib.Core.Option
use spot_spot_relay_arbitrag.Prelude.{ℕ, ◌+◌, ◌≡◌, refl, ap, List, [], ◌∷◌, map, some}
use spot_spot_relay_arbitrag.Double.{Double}
use spot_spot_relay_arbitrag.Strategy.SimdPremium.{avx2, scalar, row_premium}
use spot_spot_relay_arbitrag.Strategy.SimdPremium.Batch.{calculate_batch_lem}
use spot_spot_relay_arbitrag.Strategy.Engine.{Engine}
use spot_spot_relay_arbitrag.Strategy.Engine.Premiums.{
  Collected, PremiumInfo, collect_quotes, entry_row, exit_row, premium_info, build_infos,
  get_all_premiums,
}

module _ {ℓ} {F : Type ℓ} ⦃d : Double F⦄ (fma : F → F → F → F) (clock : ℕ → ℕ) (now_ms : ℕ)
    (e : Engine F) where
  -- Each symbol with the premiums of its own quotes.
  abbrev pub reports : ℕ → List (Collected F) → List (PremiumInfo F)
  reports place [] = []
  reports place (c ∷ cs) =
      premium_info now_ms (clock place) e c (row_premium (entry_row c)) (row_premium (exit_row c))
      ∷ reports (place + 1) cs

  build_infos-map :
      (place : ℕ) (cs : List (Collected F))
      → build_infos clock place now_ms e cs
          (map row_premium (map entry_row cs))
          (map row_premium (map exit_row cs))
        ≡ some (reports place cs)
  unfolding build_infos
  build_infos-map place [] = refl
  build_infos-map place (c ∷ cs) =
      ap
        (λ o.
          Option.map
            (λ rest.
              premium_info now_ms (clock place) e c (row_premium (entry_row c))
                (row_premium (exit_row c))
              ∷ rest)
            o)
        (build_infos-map (place + 1) cs)

  -- The builds for AVX2 and without vectors report every collected symbol, in order, with the entry and
  -- exit premiums of its own quotes by the formula of `calculate_scalar`: no premium of the batches
  -- lands on another symbol, and none is missing.
  pub get_all_premiums_lem :
      let cs = collect_quotes e e.monitored_symbols e.foreign_symbols in
      (get_all_premiums avx2 fma clock now_ms e ≡ some (reports 0 cs))
      × (get_all_premiums scalar fma clock now_ms e ≡ some (reports 0 cs))
  unfolding get_all_premiums Option.bind build_infos
  get_all_premiums_lem =
      let cs = collect_quotes e e.monitored_symbols e.foreign_symbols in
      (
        simp
            (
              calculate_batch_lem avx2 fma (map entry_row cs),
              calculate_batch_lem avx2 fma (map exit_row cs),
            )
            (build_infos-map 0 cs),
        simp
            (
              calculate_batch_lem scalar fma (map entry_row cs),
              calculate_batch_lem scalar fma (map exit_row cs),
            )
            (build_infos-map 0 cs),
      )
