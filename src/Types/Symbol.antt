-- ===== src/Types/Symbol.antt =====
-- `SymbolId`: two NUL-padded arrays of characters, its text formats and its hash.
use spot_spot_relay_arbitrag.Prelude.{
  ℕ, zero, suc, ◌+◌, ◌*◌, ◌/◌, ◌%◌, ◌^◌, ◌≤◌, ◌≡◌, ◌≢◌, refl, ◌↔◌, Bool, true, ◌&&◌, List, [], ◌∷◌,
  ◌++◌, Option, none, some, bit_xor, arith, ◌==◌, if◌then◌else◌, get_or, length, replicate, All,
}
use spot_spot_relay_arbitrag.Prelude.Map.{Eq, eq_ℕ, list_beq, list_beq_iff}

-- `base` is a `char[12]` and `quote` a `char[8]`.
pub record SymbolId : Type 0 where
  pub base : List ℕ
  pub quote : List ℕ

-- `fill(0)` and `copy_n` of at most `size() - 1` characters into an array of `size` characters.
unfoldable pub fill_chars : ℕ → List ℕ → List ℕ
fill_chars zero cs = []
fill_chars (suc zero) cs = 0 ∷ []
fill_chars (suc (suc n)) [] = 0 ∷ fill_chars (suc n) []
fill_chars (suc (suc n)) (c ∷ cs) = c ∷ fill_chars (suc n) cs

abbrev pub base_size : ℕ
base_size = 12

abbrev pub quote_size : ℕ
quote_size = 8

unfoldable pub symbol_id : List ℕ → List ℕ → SymbolId
symbol_id b q = record { base = fill_chars base_size b; quote = fill_chars quote_size q }

-- `std::string_view(array.data())`: the characters up to the first NUL.
unfoldable pub text : List ℕ → List ℕ
text [] = []
text (c ∷ cs) = if c == 0 then [] else c ∷ text cs

unfoldable pub get_base : SymbolId → List ℕ
get_base s = text s.base

unfoldable pub get_quote : SymbolId → List ℕ
get_quote s = text s.quote

abbrev pub underscore : ℕ
underscore = b'_'

abbrev pub dash : ℕ
dash = b'-'

pub to_bithumb_format : SymbolId → List ℕ
to_bithumb_format s = get_base s ++ (underscore ∷ get_quote s)

pub to_upbit_format : SymbolId → List ℕ
to_upbit_format s = get_quote s ++ (dash ∷ get_base s)

pub to_bybit_format : SymbolId → List ℕ
to_bybit_format s = get_base s ++ get_quote s

-- `sv.find(c)`, with the text before the first `c` and the text after it.
pub split_at : ℕ → List ℕ → Option (List ℕ × List ℕ)
split_at c [] = none
split_at c (x ∷ xs) =
    if x == c
    then some ([], xs)
    else elim (split_at c xs) [ none ↦ none | some (a, b) ↦ some (x ∷ a, b) ]

-- `SymbolId id;` has all characters NUL.
abbrev pub no_symbol : SymbolId
no_symbol = record { base = replicate base_size 0; quote = replicate quote_size 0 }

pub from_bithumb_format : List ℕ → SymbolId
from_bithumb_format sv = elim (split_at underscore sv) [
  | none ↦ no_symbol
  | some (b, q) ↦ symbol_id b q
]

pub from_upbit_format : List ℕ → SymbolId
from_upbit_format sv = elim (split_at dash sv) [ none ↦ no_symbol | some (q, b) ↦ symbol_id b q ]

abbrev pub symbol_beq : SymbolId → SymbolId → Bool
symbol_beq a b = list_beq a.base b.base && list_beq a.quote b.quote

pub symbol_beq_iff : (a b : SymbolId) → (symbol_beq a b ≡ true) ↔ (a ≡ b)
symbol_beq_iff a b = ground (arith, list_beq_iff a.base b.base, list_beq_iff a.quote b.quote)

instance abbrev pub eq_symbol : Eq SymbolId
eq_symbol = record { beq = symbol_beq; beq_iff = symbol_beq_iff }

-- `memcpy` of `n` characters from `at` on into a little-endian integer.
unfoldable pub load : List ℕ → ℕ → ℕ → ℕ
load cs at zero = 0
load cs at (suc n) = get_or cs at 0 + 256 * load cs (at + 1) n

-- `h ^= x`, and `*` of `uint64_t`, which wraps.
abbrev pub mul_u64 : ℕ → ℕ → ℕ
mul_u64 a b = a * b % 2 ^ 64

unfoldable pub hash : SymbolId → ℕ
unfolding load
hash s =
    let h1 = load s.base 0 8 in
    let h3 = load s.base 8 4 in
    let h2 = load s.quote 0 8 in
    let a = bit_xor h1 (mul_u64 h3 0x9E3779B97F4A7C15) in
    let b = bit_xor a (mul_u64 h2 0xBF58476D1CE4E5B9) in
    let c = bit_xor b (b / 2 ^ 31) in let e = mul_u64 c 0xBF58476D1CE4E5B9 in bit_xor e (e / 2 ^ 27)

unfoldable pub is_usdt_krw : SymbolId → Bool
is_usdt_krw s =
    (get_or s.base 0 0 == b'U')
    && (get_or s.base 1 0 == b'S')
    && (get_or s.base 2 0 == b'D')
    && (get_or s.base 3 0 == b'T')
    && (get_or s.quote 0 0 == b'K')
    && (get_or s.quote 1 0 == b'R')
    && (get_or s.quote 2 0 == b'W')

-- A name that an array of `size` characters holds whole: short enough, and with no NUL.
pub record Fits (size : ℕ) (cs : List ℕ) : Type 0 where
  pub short : suc (length cs) ≤ size
  pub no_nul : All (λ c. c ≢ 0) cs

text-fill_chars : (size : ℕ) (cs : List ℕ) → Fits size cs → text (fill_chars size cs) ≡ cs
unfolding text fill_chars
text-fill_chars zero cs f = absurd (omega (arith, f.short))
text-fill_chars (suc zero) [] f = refl
text-fill_chars (suc zero) (c ∷ cs) f = absurd (omega (arith, f.short))
text-fill_chars (suc (suc n)) [] f = refl
text-fill_chars (suc (suc n)) (c ∷ cs) f = ground (
  arith,
  f.no_nul,
  text-fill_chars (suc n) cs (record { short = omega (arith, f.short); no_nul = f.no_nul.1 }),
)

split_at-append :
    (c : ℕ) (a b : List ℕ) → All (λ x. x ≢ c) a → split_at c (a ++ (c ∷ b)) ≡ some (a, b)
unfolding split_at
split_at-append c [] b h = ground arith
split_at-append c (x ∷ a) b h = ground (arith, h, split_at-append c a b h.1)

module _ (b q : List ℕ) (fb : Fits base_size b) (fq : Fits quote_size q) where
  get_base-symbol_id : get_base (symbol_id b q) ≡ b
  unfolding get_base symbol_id
  get_base-symbol_id = text-fill_chars base_size b fb

  get_quote-symbol_id : get_quote (symbol_id b q) ≡ q
  unfolding get_quote symbol_id
  get_quote-symbol_id = text-fill_chars quote_size q fq

  -- A symbol whose names fit the arrays, with no underscore in its base, is read back from its Bithumb
  -- format.
  pub from_bithumb_format-to_bithumb_format :
      All (λ c. c ≢ underscore) b
      → from_bithumb_format (to_bithumb_format (symbol_id b q)) ≡ symbol_id b q
  unfolding from_bithumb_format to_bithumb_format
  from_bithumb_format-to_bithumb_format h = rw (
    get_base-symbol_id,
    get_quote-symbol_id,
    split_at-append underscore b q h,
    from_bithumb_format,
  )

  -- A symbol whose names fit the arrays, with no dash in its quote, is read back from its Upbit format.
  pub from_upbit_format-to_upbit_format :
      All (λ c. c ≢ dash) q → from_upbit_format (to_upbit_format (symbol_id b q)) ≡ symbol_id b q
  unfolding from_upbit_format to_upbit_format
  from_upbit_format-to_upbit_format h =
      rw (get_base-symbol_id, get_quote-symbol_id, split_at-append dash q b h, from_upbit_format)
