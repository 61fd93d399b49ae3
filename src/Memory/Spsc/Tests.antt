-- ===== src/Memory/Spsc/Tests.antt =====
-- A ring of four cells, and the theorems there.
use spot_spot_relay_arbitrag.Prelude.{ℕ, ◌≡◌, true, false, List, [], ◌∷◌, some, none}
use spot_spot_relay_arbitrag.Memory.Spsc.{Spsc, new, try_push}
use spot_spot_relay_arbitrag.Memory.Spsc.Refine.{IsValid, try_push_lem}
use spot_spot_relay_arbitrag.Memory.Spsc.Run.{
  Call, push, pop, pushed, popped, run, run_queue, new-IsValid, run-new,
}

abbrev zero_item : ℕ
zero_item = 0

abbrev ring : Spsc ℕ
ring = new 2 zero_item

abbrev calls : List (Call ℕ)
calls = push 5 ∷ push 6 ∷ push 7 ∷ push 8 ∷ pop ∷ push 9 ∷ pop ∷ pop ∷ pop ∷ pop ∷ []

replies :
    run 2 0 calls (new 2 0)
    ≡ pushed true
      ∷ pushed true
      ∷ pushed true
      ∷ pushed false
      ∷ popped (some 5)
      ∷ pushed true
      ∷ popped (some 6)
      ∷ popped (some 7)
      ∷ popped (some 9)
      ∷ popped none
      ∷ []
replies = run-new 0 2 calls

run-new_example : run 2 0 calls (new 2 0) ≡ run_queue 3 calls []
run-new_example = run-new 0 2 calls

abbrev one : Spsc ℕ
one = (try_push 2 zero_item 5 ring).0

one-IsValid : IsValid zero_item 4 one
one-IsValid = (try_push_lem zero_item 2 ring (new-IsValid zero_item 2) 5).0
