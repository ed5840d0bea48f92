-- ===== src/Encoding.antt =====
-- src/pretrade_risk/encoding.py: the wire encoding of persisted values. The regular expression
-- `_NUMBER_RE` is a matcher over code points; rendering and parsing of a float are the interface's.

pub mod RoundTrip
pub mod Printf
pub mod Grammar
use Prim.Native.Char.{code}
use pretrade_risk_controls.Common.{
  ℕ, String, str_eq, ◌≡◌, Bool, true, false, ◌&&◌, ◌||◌, Option, none, some, List, [], ◌∷◌, leb,
  ◌==◌, if◌then◌else◌,
}
use pretrade_risk_controls.Float.{Float, nought}

-- The code points of a text. `String` has its own `[]` and `∷`.
abbrev pub codes : String → List ℕ
codes String.[] = []
codes (String.◌∷◌ c s) = code c ∷ codes s

-- `[0-9]`, `[+-]` and `[eE]`
abbrev pub is_digit : ℕ → Bool
is_digit c = leb b'0' c && leb c b'9'

abbrev pub is_sign : ℕ → Bool
is_sign c = c == b'+' || c == b'-'

abbrev pub is_exponent_mark : ℕ → Bool
is_exponent_mark c = c == b'e' || c == b'E'

-- `[0-9]*`: what is left behind the digits
unfoldable pub skip_digits : List ℕ → List ℕ
skip_digits [] = []
skip_digits (c ∷ s) = if is_digit c then skip_digits s else c ∷ s

-- `[0-9]+`: what is left behind them, if there is one at least
unfoldable pub match_digits : List ℕ → Option (List ℕ)
unfolding skip_digits
match_digits [] = none
match_digits (c ∷ s) = if is_digit c then some (skip_digits s) else none

-- `[+-]?`
unfoldable pub skip_sign : List ℕ → List ℕ
skip_sign [] = []
skip_sign (c ∷ s) = if is_sign c then s else c ∷ s

-- `(?:\.[0-9]*)?`
unfoldable pub skip_fraction : List ℕ → List ℕ
unfolding skip_digits
skip_fraction [] = []
skip_fraction (c ∷ s) = if c == b'.' then skip_digits s else c ∷ s

-- `(?:[0-9]+(?:\.[0-9]*)?|\.[0-9]+)`
unfoldable pub match_mantissa : List ℕ → Option (List ℕ)
unfolding skip_digits match_digits skip_fraction
match_mantissa [] = none
match_mantissa (c ∷ s) =
    if is_digit c
    then some (skip_fraction (skip_digits s))
    else if c == b'.'
    then match_digits s
    else none

abbrev pub at_end : Option (List ℕ) → Bool
at_end (some []) = true
at_end _ = false

-- `(?:[eE][+-]?[0-9]+)?\Z`
unfoldable pub match_exponent : List ℕ → Bool
unfolding match_digits skip_sign
match_exponent [] = true
match_exponent (c ∷ s) = if is_exponent_mark c then at_end (match_digits (skip_sign s)) else false

-- `_NUMBER_RE.match(raw) is not None`
unfoldable pub is_number_text : List ℕ → Bool
unfolding skip_sign match_mantissa match_exponent
is_number_text s = elim (match_mantissa (skip_sign s)) [ none ↦ false | some r ↦ match_exponent r ]

unfoldable pub is_number : String → Bool
unfolding is_number_text
is_number raw = is_number_text (codes raw)

unfoldable pub encode_bool : Bool → String
encode_bool b = if b then "1" else "0"

unfoldable pub decode_bool : Option String → Bool
decode_bool none = false
decode_bool (some raw) = str_eq raw "1"

module _ {F : Type 0} ⦃fl : Float F⦄ where
  unfoldable pub encode_float : F → String
  encode_float x = if fl.is_finite x then fl.format_17g x else "0"

  unfoldable pub decode_float : Option String → Option F
  decode_float none = none
  decode_float (some raw) =
      if is_number raw
      then (let value = fl.parse raw in if fl.is_finite value then some value else none)
      else none

  unfoldable pub decode_positive_float : Option String → Option F
  unfolding decode_float
  decode_positive_float raw = elim (decode_float raw) [
    | none ↦ none
    | some value ↦ if fl.le value nought then none else some value
  ]
