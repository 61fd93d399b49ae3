-- ===== src/Strategy/CapitalTracker/History.antt =====
-- The figures of the tracker are those of its history of trades, in every order of its calls.
use spot_spot_relay_arbitrag.Prelude.{
  ◌≡◌, refl, ap, List, [], ◌∷◌, ◌++◌, arith, length, length-append, count_if, count_if-append,
}
use spot_spot_relay_arbitrag.Double.{Double, zero_f}
use spot_spot_relay_arbitrag.Strategy.CapitalTracker.{
  CapitalTracker, new_capital, set_initial_capital, add_realized_pnl, reset_session,
}

-- The calls that change the tracker.
pub data CapitalCall {ℓ} (F : Type ℓ) : Type ℓ where
  sets_capital : F → CapitalCall F
  adds_pnl : F → CapitalCall F
  resets : CapitalCall F

module _ {ℓ} {F : Type ℓ} ⦃d : Double F⦄ where
  -- The sum of the trades, in their order.
  abbrev pub total_from : F → List F → F
  total_from sum [] = sum
  total_from sum (pnl ∷ history) = total_from (d.add sum pnl) history

  total_from-append :
      (sum : F) (xs : List F) (pnl : F)
      → total_from sum (xs ++ (pnl ∷ [])) ≡ d.add (total_from sum xs) pnl
  total_from-append sum [] pnl = refl
  total_from-append sum (x ∷ xs) pnl = total_from-append (d.add sum x) xs pnl

  pub record IsConsistent (t : CapitalTracker F) : Type ℓ where
    pub totals : t.total_trades ≡ length t.pnl_history
    pub wins : t.winning_trades ≡ count_if (λ pnl. d.lt zero_f pnl) t.pnl_history
    pub realized : t.realized_pnl_usd ≡ total_from zero_f t.pnl_history

  unfoldable pub call : CapitalCall F → CapitalTracker F → CapitalTracker F
  call (sets_capital capital) t = set_initial_capital capital t
  call (adds_pnl pnl) t = add_realized_pnl pnl t
  call resets t = reset_session t

  unfoldable pub run_calls : List (CapitalCall F) → CapitalTracker F → CapitalTracker F
  run_calls [] t = t
  run_calls (c ∷ calls) t = run_calls calls (call c t)

  call-IsConsistent :
      (c : CapitalCall F) (t : CapitalTracker F) → IsConsistent t → IsConsistent (call c t)
  unfolding call set_initial_capital add_realized_pnl reset_session
  call-IsConsistent (sets_capital capital) t h = record {
    totals = h.totals;
    wins = h.wins;
    realized = h.realized;
  }
  call-IsConsistent (adds_pnl pnl) t h = record {
    totals = omega (arith, h.totals, length-append t.pnl_history (pnl ∷ []));
    wins = ground (arith, h.wins, count_if-append (λ x. d.lt zero_f x) t.pnl_history (pnl ∷ []));
    realized = rw (total_from-append zero_f t.pnl_history pnl) (ap (λ s. d.add s pnl) h.realized);
  }
  call-IsConsistent resets t h = record { totals = refl; wins = refl; realized = refl }

  run_calls_lem :
      (calls : List (CapitalCall F)) (t : CapitalTracker F)
      → IsConsistent t
      → IsConsistent (run_calls calls t)
  unfolding run_calls
  run_calls_lem [] t h = h
  run_calls_lem (c ∷ calls) t h = run_calls_lem calls (call c t) (call-IsConsistent c t h)

  -- After any calls on a new tracker, the number of trades, the number of winning trades and the realised
  -- profit are those of the recorded history.
  pub new_capital-IsConsistent :
      (calls : List (CapitalCall F)) → IsConsistent (run_calls calls new_capital)
  unfolding new_capital
  new_capital-IsConsistent calls =
      run_calls_lem calls new_capital (record { totals = refl; wins = refl; realized = refl })
