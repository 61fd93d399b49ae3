-- ===== src/Memory/Mpmc/Tests.antt =====
-- A push and a pop that overlap, on a queue of two cells.
use spot_spot_relay_arbitrag.Prelude.{ℕ, ◌≡◌, refl, false, true, List, [], ◌∷◌, some, arith, length}
use spot_spot_relay_arbitrag.Memory.Mpmc.{
  Turn, calls_push, calls_pop, runs, popped, new, index, advance, start_push, start_pop, is_behind,
  turn, run,
}
use spot_spot_relay_arbitrag.Memory.Mpmc.Run.{start, IsFifo, run-IsFifo}

-- The pop fails its first compare-exchange.
abbrev turns : List (Turn ℕ)
turns =
    calls_push 0 7
    ∷ runs 0 false
    ∷ runs 0 false
    ∷ calls_pop 1
    ∷ runs 0 false
    ∷ runs 0 false
    ∷ runs 1 false
    ∷ runs 1 true
    ∷ runs 1 false
    ∷ runs 1 false
    ∷ runs 1 false
    ∷ runs 1 false
    ∷ []

pops_seven : (run 1 turns (start 0)).threads 1 ≡ popped (some 7)
unfolding run turn advance start_push start_pop is_behind new index
pops_seven = refl

claims_one : length (run 1 turns (start 0)).queue.claims ≡ 1
unfolding run turn advance start_push start_pop is_behind new index
claims_one = refl

run-IsFifo_example : IsFifo (run 1 turns (start 0)).queue
run-IsFifo_example = run-IsFifo 1 0 turns (omega arith) (omega (arith, claims_one))
