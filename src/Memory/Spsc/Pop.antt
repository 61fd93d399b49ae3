-- ===== src/Memory/Spsc/Pop.antt =====
-- `try_pop` against the queue; the other half of Refine.
use spot_spot_relay_arbitrag.Prelude.{
  ℕ, suc, ◌^◌, ◌≡◌, refl, sym, ap, ◌∙◌, true, false, List, [], ◌∷◌, Option, none, some, arith, ◌==◌,
  Bool-cases, inl, inr, length,
}
use spot_spot_relay_arbitrag.Memory.Spsc.{Spsc, next_index, reload_head, try_pop}
use spot_spot_relay_arbitrag.Memory.Spsc.Refine.{
  wrap, distance, contents, IsValid, length-cells, next_tail, empty_test,
}

module _ {ℓ} {A : Type ℓ} where
  -- The first item of a queue, and the others.
  abbrev pub front : List A → Option A
  front [] = none
  front (x ∷ xs) = some x

  abbrev pub rest : List A → List A
  rest [] = []
  rest (x ∷ xs) = xs

module _ {ℓ} {A : Type ℓ} (a : A) (k : ℕ) (r : Spsc A) (v : IsValid a (2 ^ k) r) where
  abbrev n : ℕ
  n = 2 ^ k

  abbrev held : List A
  held = contents a n r

  popped_none : (r.tail == reload_head k a r) ≡ true → held ≡ []
  popped_none e =
      let none_left : (length held == 0) ≡ true = ground (arith, empty_test a k r v, e) in
      let none_far : distance n r.tail r.head ≡ 0 =
        ground (arith, none_left, length-cells a n r.buffer (distance n r.tail r.head) r.tail) in
      rw none_far refl

  left-IsValid : IsValid a n (record r { cached_head = reload_head k a r })
  left-IsValid = record {
    sized = v.sized;
    head_in = v.head_in;
    tail_in = v.tail_in;
    cached_tail_in = v.cached_tail_in;
    cached_head_in = ground (arith, v.head_in, v.cached_head_in);
    tail_behind = v.tail_behind;
    head_behind = ground (arith, v.head_behind);
  }

  shorter :
      (r.tail == reload_head k a r) ≡ false
      → distance n r.tail r.head ≡ suc (distance n (wrap n r.tail) r.head)
  shorter e =
      let some_left : (length held == 0) ≡ false = ground (arith, empty_test a k r v, e) in
      let far : (distance n r.tail r.head == 0) ≡ false =
        rw (length-cells a n r.buffer (distance n r.tail r.head) r.tail) at some_left in
      ground (
        arith, far, v.head_in, v.tail_in, v.cached_tail_in, v.cached_head_in, v.tail_behind,
        v.head_behind,
      )

  popped-IsValid :
      (r.tail == reload_head k a r) ≡ false
      → IsValid a n (record r { cached_head = reload_head k a r; tail = next_index k r.tail })
  popped-IsValid e = record {
    sized = v.sized;
    head_in = v.head_in;
    tail_in = rw (next_tail a k r v) (ground (arith, v.tail_in));
    cached_tail_in = v.cached_tail_in;
    cached_head_in = ground (arith, v.head_in, v.cached_head_in);
    tail_behind = rw (next_tail a k r v) (omega (arith, shorter e, v.tail_behind));
    head_behind = rw (next_tail a k r v) (
        ground (
          arith,
          e,
          shorter e,
          v.head_in,
          v.tail_in,
          v.cached_tail_in,
          v.cached_head_in,
          v.tail_behind,
          v.head_behind,
        ));
  }

  -- `try_pop` on a valid ring keeps it valid, returns the first item that is held, and leaves the others; on an
  -- empty one it returns none.
  pub try_pop_lem :
      IsValid a n (try_pop k a r).0
      × ((try_pop k a r).1 ≡ front held)
      × (contents a n (try_pop k a r).0 ≡ rest held)
  unfolding try_pop
  try_pop_lem = elim (Bool-cases (r.tail == reload_head k a r)) [
    | inl is_empty ↦ rw is_empty (
      left-IsValid,
      ap front (sym (popped_none is_empty)),
      popped_none is_empty ∙ ap rest (sym (popped_none is_empty)),
    )
    | inr more ↦ rw (more, shorter more) (popped-IsValid more, refl, rw (next_tail a k r v) refl)
  ]
