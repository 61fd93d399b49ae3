-- ===== src/Execution/OrderManager/Safety.antt =====
-- What the entry and the exit report: a hedged position while they run, and an unhedged one only as they stop the bot.

pub mod Entry
pub mod Exit
use spot_spot_relay_arbitrag.Prelude.{
  ℕ, ◌≡◌, refl, ◌∙◌, Bool, true, false, List, [], ◌∷◌, Option, none, some, All, arith, Option-cases,
  inl, inr, Bool-cases, if◌then◌else◌,
}
use spot_spot_relay_arbitrag.Double.{Double, zero_f}
use spot_spot_relay_arbitrag.Types.Trade.{Position}
use spot_spot_relay_arbitrag.Strategy.Engine.{Engine, set_entry_suppressed}
use spot_spot_relay_arbitrag.Execution.OrderManager.{Manager, Venues}
use spot_spot_relay_arbitrag.Execution.OrderManager.Action.{Action}
use spot_spot_relay_arbitrag.Execution.OrderManager.Snapshot.{
  ExecutionResult, Message, notify, persist_snapshot, trigger_critical_stop, on_engine,
}
use spot_spot_relay_arbitrag.Execution.OrderManager.Market.{Round, begin_round}
use spot_spot_relay_arbitrag.Execution.OrderManager.Entry.{Step, go_on, return_with}
use spot_spot_relay_arbitrag.Execution.OrderManager.Frame.{Asks, is_disciplined}

module _ {ℓ} {F : Type ℓ} where
  -- An update of the position file: none, or the same amount on both legs.
  abbrev pub IsBalanced : Option (Position F) → Type ℓ
  IsBalanced none = Unit
  IsBalanced (some p) = p.korean_amount ≡ p.foreign_amount

  abbrev pub IsSuppressed : Option (Engine F) → Type 0
  IsSuppressed none = Unit
  IsSuppressed (some e) = e.entry_suppressed ≡ true

  abbrev pub newest : List (Option (Position F)) → Option (Option (Position F))
  newest [] = none
  newest (u ∷ updates) = some u

  -- The newest update is the position, or none if it is not active.
  abbrev pub Reports : Bool → Position F → List (Option (Position F)) → Type ℓ
  Reports false p updates = Unit
  Reports true p updates = newest updates ≡ some (if p.is_active then some p else none)

  -- The bot has stopped: no new entry, the position reported, and a failure that the caller leaves alone.
  pub record IsStopped (result : ExecutionResult F) (m : Manager F) : Type ℓ where
    pub halted : m.running ≡ false
    pub suppressed : IsSuppressed m.engine
    pub failed : result.success ≡ false
    pub managed : result.position_managed ≡ true
    pub reported : Reports m.has_update_callback result.position m.position_updates

  engine-IsSuppressed :
      (snap : Position F) (m : Manager F)
      → IsSuppressed (persist_snapshot snap (on_engine (set_entry_suppressed true) m)).engine
  unfolding persist_snapshot set_entry_suppressed
  engine-IsSuppressed snap m = elim (Option-cases m.engine) [
    | inl e ↦ rw e tt
    | inr (x, e) ↦ rw e refl
  ]

  -- After a critical stop the bot is not running, the engine takes no entries, the result is a failure that is
  -- managed already, and the update callback, if there is one, was given the position, or none if it is not active.
  pub trigger_critical_stop-IsStopped :
      (reason : Message) (snap : Position F) (result : ExecutionResult F) (m : Manager F)
      → IsStopped
          (trigger_critical_stop reason snap result m).0
          (trigger_critical_stop reason snap result m).1
  unfolding trigger_critical_stop persist_snapshot
  trigger_critical_stop-IsStopped reason snap result m = record {
    halted = refl;
    suppressed = engine-IsSuppressed snap (record m { running = false });
    failed = refl;
    managed = refl;
    reported = elim (Bool-cases m.has_update_callback) [ inl t ↦ rw t refl | inr n ↦ rw n tt ];
  }

module _ {ℓ} {F : Type ℓ} ⦃d : Double F⦄ ⦃v : Venues F⦄ where
  -- The bot runs, every update so far is balanced, and every purchase was due.
  pub record IsLive (m : Manager F) : Type ℓ where
    pub running : m.running ≡ true
    pub balanced : All IsBalanced m.position_updates
    pub disciplined : is_disciplined m.requests ≡ true

  abbrev pub IsSafe {κ} : {S : Type κ} → Step S (ExecutionResult F) × Manager F → Type ℓ
  IsSafe (go_on s, m) = IsLive m
  IsSafe (return_with result, m) = IsStopped result m × (is_disciplined m.requests ≡ true)

  pub Asks-IsLive : {m m' : Manager F} → Asks m m' → IsLive m → IsLive m'
  Asks-IsLive a live = record {
    running = ground (arith, a.same_running, live.running);
    balanced = rw a.same_updates live.balanced;
    disciplined = a.same_discipline ∙ live.disciplined;
  }

  -- A balanced update keeps the manager live.
  pub notify-IsLive :
      (update : Option (Position F)) (m : Manager F)
      → IsBalanced update
      → IsLive m
      → IsLive (notify update m)
  notify-IsLive update m b live = record {
    running = live.running;
    balanced = elim (Bool-cases m.has_update_callback) [
      | inl t ↦ rw t (b, live.balanced)
      | inr n ↦ rw n live.balanced
    ];
    disciplined = live.disciplined;
  }

  -- A critical stop of a live manager is a safe end.
  pub stop-IsSafe :
      (reason : Message) (snap : Position F) (result : ExecutionResult F) (m : Manager F)
      → IsLive m
      → IsStopped
          (trigger_critical_stop reason snap result m).0
          (trigger_critical_stop reason snap result m).1
        × (is_disciplined (trigger_critical_stop reason snap result m).1.requests ≡ true)
  unfolding trigger_critical_stop persist_snapshot
  stop-IsSafe reason snap result m live =
      (trigger_critical_stop-IsStopped reason snap result m, live.disciplined)

  -- A branch is safe if both sides are.
  pub if_IsSafe {κ} :
      {S : Type κ} (b : Bool) (f g : Action F (Step S (ExecutionResult F))) (m : Manager F)
      → IsSafe (f m)
      → IsSafe (g m)
      → IsSafe ((if b then f else g) m)
  if_IsSafe true f g m hf hg = hf
  if_IsSafe false f g m hf hg = hg

  -- A round begins with the updates and the requests that there are.
  pub begin_round-kept :
      (r : Round F) (m : Manager F)
      → IsLive m
      → All IsBalanced (begin_round r m).position_updates
        × (is_disciplined (begin_round r m).requests ≡ true)
  unfolding begin_round
  begin_round-kept r m live = (live.balanced, live.disciplined)
