-- ===== src/Memory/Spsc/Refine.antt =====
-- The ring buffer is a bounded queue: `try_push` adds at the end while there is room and `try_pop` takes from
-- the front, whatever the copies of the indices say.
use spot_spot_relay_arbitrag.Prelude.{
  ℕ, zero, suc, ◌+◌, ◌-◌, ◌^◌, ◌≤◌, ◌<◌, ◌≡◌, ◌≢◌, refl, ap, ◌∙◌, true, false, not, List, [], ◌∷◌,
  ◌++◌, arith, ltb, leb, ◌==◌, if◌then◌else◌, Bool-cases, inl, inr, get_or, set, length, length-set,
  get_or-set_self, get_or-set_ne,
}
use spot_spot_relay_arbitrag.Prelude.Bits.{bit_and-mask, bit_and-pow-mask}
use spot_spot_relay_arbitrag.Memory.Spsc.{Spsc, next_index, reload_tail, reload_head, try_push}

-- The index after `i`, on a ring of `n` cells.
abbrev pub wrap : ℕ → ℕ → ℕ
wrap n i = if i + 1 == n then 0 else i + 1

next_index_lem : (k i : ℕ) → i < 2 ^ k → next_index k i ≡ wrap (2 ^ k) i
unfolding next_index
next_index_lem k i h = elim (Bool-cases (i + 1 == 2 ^ k)) [
  | inl last ↦ let e : i + 1 ≡ 2 ^ k = ground arith in rw (e, bit_and-pow-mask k) (ground arith)
  | inr inner ↦ rw inner (bit_and-mask k (i + 1) (ground arith))
]

-- The number of cells from `i` up to `j`.
abbrev pub distance : ℕ → ℕ → ℕ → ℕ
distance n i j = if leb i j then j - i else j + n - i

module _ {ℓ} {A : Type ℓ} (a : A) (n : ℕ) where
  -- The items of `count` cells from `i` on.
  abbrev pub cells : List A → ℕ → ℕ → List A
  cells buffer zero i = []
  cells buffer (suc count) i = get_or buffer i a ∷ cells buffer count (wrap n i)

  -- What the buffer holds, from the tail to the head.
  abbrev pub contents : Spsc A → List A
  contents r = cells r.buffer (distance n r.tail r.head) r.tail

  -- The indices are in the buffer; the producer's copy of the tail is behind the tail and the consumer's
  -- copy of the head is behind the head.
  pub record IsValid (r : Spsc A) : Type ℓ where
    pub sized : length r.buffer ≡ n
    pub head_in : r.head < n
    pub tail_in : r.tail < n
    pub cached_tail_in : r.cached_tail < n
    pub cached_head_in : r.cached_head < n
    pub tail_behind : distance n r.tail r.head ≤ distance n r.cached_tail r.head
    pub head_behind : distance n r.tail r.cached_head ≤ distance n r.tail r.head

  pub length-cells : (buffer : List A) (count i : ℕ) → length (cells buffer count i) ≡ count
  length-cells buffer zero i = refl
  length-cells buffer (suc count) i = ap suc (length-cells buffer count (wrap n i))

  -- One more cell, and a write past the cells.
  cells-suc :
      (buffer : List A) (count i j : ℕ)
      → i < n
      → j < n
      → distance n i j ≡ count
      → cells buffer (suc count) i ≡ cells buffer count i ++ (get_or buffer j a ∷ [])
  cells-suc buffer zero i j hi hj e = let same : i ≡ j = ground arith in rw same refl
  cells-suc buffer (suc count) i j hi hj e =
      ap (λ xs. get_or buffer i a ∷ xs)
        (cells-suc buffer count (wrap n i) j (ground arith) hj (ground arith))

  cells-set :
      (buffer : List A) (count i j : ℕ) (item : A)
      → i < n
      → j < n
      → distance n i j ≡ count
      → cells (set buffer j item) count i ≡ cells buffer count i
  cells-set buffer zero i j item hi hj e = refl
  cells-set buffer (suc count) i j item hi hj e =
      let apart : j ≢ i = ground arith in
      rw (
        get_or-set_ne buffer j i item a apart,
        cells-set buffer count (wrap n i) j item (ground arith) hj (ground arith),
      )

module _ {ℓ} {A : Type ℓ} (a : A) (k : ℕ) (r : Spsc A) (v : IsValid a (2 ^ k) r) where
  abbrev n : ℕ
  n = 2 ^ k

  abbrev held : List A
  held = contents a n r

  next_head : next_index k r.head ≡ wrap n r.head
  next_head = next_index_lem k r.head v.head_in

  pub next_tail : next_index k r.tail ≡ wrap n r.tail
  next_tail = next_index_lem k r.tail v.tail_in

  -- The producer's test is right, although its copy of the tail may be old.
  pub full_test : (next_index k r.head == reload_tail k a r) ≡ not (ltb (length held) (n - 1))
  full_test =
      rw (next_head, length-cells a n r.buffer (distance n r.tail r.head) r.tail)
        (ground (
          arith, v.head_in, v.tail_in, v.cached_tail_in, v.cached_head_in, v.tail_behind,
          v.head_behind,
        ))

  pub empty_test : (r.tail == reload_head k a r) ≡ (length held == 0)
  empty_test = rw (length-cells a n r.buffer (distance n r.tail r.head) r.tail) (
      ground (
        arith, v.head_in, v.tail_in, v.cached_tail_in, v.cached_head_in, v.tail_behind,
        v.head_behind,
      ))

  pushed_none : IsValid a n (record r { cached_tail = reload_tail k a r })
  pushed_none = record {
    sized = v.sized;
    head_in = v.head_in;
    tail_in = v.tail_in;
    cached_tail_in = ground (arith, v.tail_in, v.cached_tail_in);
    cached_head_in = v.cached_head_in;
    tail_behind = ground (arith, v.tail_behind);
    head_behind = v.head_behind;
  }

  longer :
      ltb (length held) (n - 1) ≡ true
      → distance n r.tail (wrap n r.head) ≡ suc (distance n r.tail r.head)
  longer fits =
      let few : ltb (distance n r.tail r.head) (n - 1) ≡ true =
        rw (length-cells a n r.buffer (distance n r.tail r.head) r.tail) at fits in
      ground (
        arith, few, v.head_in, v.tail_in, v.cached_tail_in, v.cached_head_in, v.tail_behind,
        v.head_behind,
      )

  pushed_one :
      (item : A)
      → ltb (length held) (n - 1) ≡ true
      → (next_index k r.head == reload_tail k a r) ≡ false
      → IsValid a n (record r {
        cached_tail = reload_tail k a r;
        buffer = set r.buffer r.head item;
        head = next_index k r.head;
      })
  pushed_one item fits room = record {
    sized = length-set r.buffer r.head item ∙ v.sized;
    head_in = rw next_head (ground (arith, v.head_in));
    tail_in = v.tail_in;
    cached_tail_in = ground (arith, v.tail_in, v.cached_tail_in);
    cached_head_in = v.cached_head_in;
    tail_behind = rw next_head (
        ground (
          arith,
          rw next_head at room,
          longer fits,
          v.head_in,
          v.tail_in,
          v.cached_tail_in,
          v.cached_head_in,
          v.tail_behind,
          v.head_behind,
        ));
    head_behind = rw (next_head, longer fits) (omega (arith, v.head_behind));
  }

  pushed_contents :
      (item : A)
      → ltb (length held) (n - 1) ≡ true
      → cells a n (set r.buffer r.head item) (distance n r.tail (next_index k r.head)) r.tail
        ≡ held ++ (item ∷ [])
  pushed_contents item fits =
      rw
        (
          next_head,
          longer fits,
          cells-suc a n (set r.buffer r.head item) (distance n r.tail r.head) r.tail r.head
              v.tail_in v.head_in refl,
          cells-set a n r.buffer (distance n r.tail r.head) r.tail r.head item v.tail_in v.head_in
              refl,
          get_or-set_self r.buffer r.head item a (omega (arith, v.head_in, v.sized)),
        )
        refl

  -- `try_push` on a valid ring keeps it valid, succeeds just if fewer than `Capacity - 1` items are held, and then
  -- adds its item at the end; else the items stay.
  pub try_push_lem :
      (item : A)
      → IsValid a n (try_push k a item r).0
        × ((try_push k a item r).1 ≡ ltb (length held) (n - 1))
        × (contents a n (try_push k a item r).0
            ≡ (if ltb (length held) (n - 1) then held ++ (item ∷ []) else held))
  unfolding try_push
  try_push_lem item = elim (Bool-cases (next_index k r.head == reload_tail k a r)) [
    | inl is_full ↦
        let no_room : ltb (length held) (n - 1) ≡ false = ground (arith, full_test, is_full) in
        rw (is_full, no_room) (pushed_none, refl, refl)
    | inr room ↦
        let fits : ltb (length held) (n - 1) ≡ true = ground (arith, full_test, room) in
        rw (room, fits)
          (pushed_one item fits (ground (arith, room)), refl, pushed_contents item fits)
  ]
