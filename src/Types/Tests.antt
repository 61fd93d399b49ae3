-- ===== src/Types/Tests.antt =====
-- Symbols read back from their text.
use spot_spot_relay_arbitrag.Prelude.{ℕ, ◌≡◌, refl, List, [], ◌∷◌, true, arith}
use spot_spot_relay_arbitrag.Types.Symbol.{
  symbol_id, Fits, base_size, quote_size, is_usdt_krw, fill_chars, to_bithumb_format,
  from_bithumb_format, to_upbit_format, from_upbit_format, from_upbit_format-to_upbit_format,
  from_bithumb_format-to_bithumb_format,
}

abbrev usdt : List ℕ
usdt = b'U' ∷ b'S' ∷ b'D' ∷ b'T' ∷ []

abbrev krw : List ℕ
krw = b'K' ∷ b'R' ∷ b'W' ∷ []

usdt-Fits : Fits base_size usdt
usdt-Fits = record {
  short = omega arith;
  no_nul = (omega arith, (omega arith, (omega arith, (omega arith, tt))));
}

krw-Fits : Fits quote_size krw
krw-Fits = record { short = omega arith; no_nul = (omega arith, (omega arith, (omega arith, tt))) }

is_usdt_krw-symbol_id : is_usdt_krw (symbol_id usdt krw) ≡ true
unfolding is_usdt_krw symbol_id fill_chars
is_usdt_krw-symbol_id = refl

from_bithumb_format-to_bithumb_format_example :
    from_bithumb_format (to_bithumb_format (symbol_id usdt krw)) ≡ symbol_id usdt krw
from_bithumb_format-to_bithumb_format_example =
    from_bithumb_format-to_bithumb_format usdt krw usdt-Fits krw-Fits
      (omega arith, (omega arith, (omega arith, (omega arith, tt))))

from_upbit_format-to_upbit_format_example :
    from_upbit_format (to_upbit_format (symbol_id usdt krw)) ≡ symbol_id usdt krw
from_upbit_format-to_upbit_format_example =
    from_upbit_format-to_upbit_format usdt krw usdt-Fits krw-Fits
      (omega arith, (omega arith, (omega arith, tt)))
