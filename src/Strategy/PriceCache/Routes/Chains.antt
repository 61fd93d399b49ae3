-- ===== src/Strategy/PriceCache/Routes/Chains.antt =====
-- `normalize_chain` of `PriceCache`: one spelling for a network that the venues spell differently.
use spot_spot_relay_arbitrag.Prelude.{
  ℕ, ◌-◌, Bool, ◌&&◌, ◌||◌, List, [], ◌∷◌, none, some, leb, if◌then◌else◌,
}
use spot_spot_relay_arbitrag.Prelude.Map.{eq_ℕ, eq_list, lookup}

abbrev is_between : ℕ → ℕ → ℕ → Bool
is_between lo hi c = leb lo c && leb c hi

-- The characters that `isalnum` keeps, each as `toupper` gives it.
abbrev pub upper_alnum : List ℕ → List ℕ
upper_alnum [] = []
upper_alnum (c ∷ cs) =
    if is_between b'a' b'z' c
    then (c - 32) ∷ upper_alnum cs
    else if is_between b'A' b'Z' c || is_between b'0' b'9' c
    then c ∷ upper_alnum cs
    else upper_alnum cs

abbrev pub aliases : List (List ℕ × List ℕ)
aliases =
    (b'B' ∷ b'I' ∷ b'T' ∷ b'C' ∷ b'O' ∷ b'I' ∷ b'N' ∷ [], b'B' ∷ b'T' ∷ b'C' ∷ [])
    ∷ (b'E' ∷ b'T' ∷ b'H' ∷ b'E' ∷ b'R' ∷ b'E' ∷ b'U' ∷ b'M' ∷ [], b'E' ∷ b'T' ∷ b'H' ∷ [])
    ∷ (b'P' ∷ b'O' ∷ b'L' ∷ b'Y' ∷ b'G' ∷ b'O' ∷ b'N' ∷ [], b'M' ∷ b'A' ∷ b'T' ∷ b'I' ∷ b'C' ∷ [])
    ∷ (b'P' ∷ b'O' ∷ b'L' ∷ [], b'M' ∷ b'A' ∷ b'T' ∷ b'I' ∷ b'C' ∷ [])
    ∷ (b'S' ∷ b'O' ∷ b'L' ∷ b'A' ∷ b'N' ∷ b'A' ∷ [], b'S' ∷ b'O' ∷ b'L' ∷ [])
    ∷ (b'T' ∷ b'R' ∷ b'O' ∷ b'N' ∷ [], b'T' ∷ b'R' ∷ b'X' ∷ [])
    ∷ (b'R' ∷ b'I' ∷ b'P' ∷ b'P' ∷ b'L' ∷ b'E' ∷ [], b'X' ∷ b'R' ∷ b'P' ∷ [])
    ∷ (b'L' ∷ b'I' ∷ b'T' ∷ b'E' ∷ b'C' ∷ b'O' ∷ b'I' ∷ b'N' ∷ [], b'L' ∷ b'T' ∷ b'C' ∷ [])
    ∷ (b'D' ∷ b'O' ∷ b'G' ∷ b'E' ∷ b'C' ∷ b'O' ∷ b'I' ∷ b'N' ∷ [], b'D' ∷ b'O' ∷ b'G' ∷ b'E' ∷ [])
    ∷ (
      b'A' ∷ b'V' ∷ b'A' ∷ b'L' ∷ b'A' ∷ b'N' ∷ b'C' ∷ b'H' ∷ b'E' ∷ [],
      b'A' ∷ b'V' ∷ b'A' ∷ b'X' ∷ b'C' ∷ [],
    )
    ∷ (
      b'A' ∷ b'V' ∷ b'A' ∷ b'L' ∷ b'A' ∷ b'N' ∷ b'C' ∷ b'H' ∷ b'E' ∷ b'C' ∷ b'C' ∷ b'H' ∷ b'A'
          ∷ b'I' ∷ b'N' ∷ [],
      b'A' ∷ b'V' ∷ b'A' ∷ b'X' ∷ b'C' ∷ [],
    )
    ∷ (b'S' ∷ b'T' ∷ b'E' ∷ b'L' ∷ b'L' ∷ b'A' ∷ b'R' ∷ [], b'X' ∷ b'L' ∷ b'M' ∷ [])
    ∷ (b'C' ∷ b'O' ∷ b'S' ∷ b'M' ∷ b'O' ∷ b'S' ∷ [], b'A' ∷ b'T' ∷ b'O' ∷ b'M' ∷ [])
    ∷ (b'P' ∷ b'O' ∷ b'L' ∷ b'K' ∷ b'A' ∷ b'D' ∷ b'O' ∷ b'T' ∷ [], b'D' ∷ b'O' ∷ b'T' ∷ [])
    ∷ (b'C' ∷ b'A' ∷ b'R' ∷ b'D' ∷ b'A' ∷ b'N' ∷ b'O' ∷ [], b'A' ∷ b'D' ∷ b'A' ∷ [])
    ∷ (b'A' ∷ b'L' ∷ b'G' ∷ b'O' ∷ b'R' ∷ b'A' ∷ b'N' ∷ b'D' ∷ [], b'A' ∷ b'L' ∷ b'G' ∷ b'O' ∷ [])
    ∷ (b'N' ∷ b'E' ∷ b'A' ∷ b'R' ∷ [], b'N' ∷ b'E' ∷ b'A' ∷ b'R' ∷ [])
    ∷ (
      b'A' ∷ b'R' ∷ b'B' ∷ b'I' ∷ b'T' ∷ b'R' ∷ b'U' ∷ b'M' ∷ b'O' ∷ b'N' ∷ b'E' ∷ [],
      b'A' ∷ b'R' ∷ b'B' ∷ b'O' ∷ b'N' ∷ b'E' ∷ [],
    )
    ∷ (b'B' ∷ b'S' ∷ b'C' ∷ [], b'B' ∷ b'E' ∷ b'P' ∷ b'2' ∷ b'0' ∷ [])
    ∷ (
      b'B' ∷ b'N' ∷ b'B' ∷ b'S' ∷ b'M' ∷ b'A' ∷ b'R' ∷ b'T' ∷ b'C' ∷ b'H' ∷ b'A' ∷ b'I' ∷ b'N' ∷ [],
      b'B' ∷ b'E' ∷ b'P' ∷ b'2' ∷ b'0' ∷ [],
    )
    ∷ (b'O' ∷ b'P' ∷ b'T' ∷ b'I' ∷ b'M' ∷ b'I' ∷ b'S' ∷ b'M' ∷ [], b'O' ∷ b'P' ∷ [])
    ∷ []

unfoldable pub normalize_chain : List ℕ → List ℕ
normalize_chain raw =
    let out = upper_alnum raw in
    elim (lookup out aliases) [ none ↦ out | some canonical ↦ canonical ]
