-- ===== src/Encoding/Printf.antt =====
-- The text that `f"{value:.17g}"` writes, as C's `printf` documents it, and what encoding.py relies on
-- of it.
use pretrade_risk_controls.Common.{ℕ, ◌≡◌, refl, ap, inl, inr, true, List, [], ◌∷◌, ◌++◌}
use mathlib.Core.List.{append-nil}
use pretrade_risk_controls.Float.{Float, nought}
use pretrade_risk_controls.Encoding.{codes, is_number}
use pretrade_risk_controls.Encoding.Grammar.{
  IsDigits, AllDigits, IsPlusOrMinus, IsSign, IsMantissa, IsExponent, IsNumberText,
}
use pretrade_risk_controls.Encoding.Grammar.Matcher.{is_number_iff}

-- `[ '-' ]`
abbrev pub IsMinus : List ℕ → Type 0
IsMinus [] = Unit
IsMinus (c ∷ []) = c ≡ b'-'
IsMinus (c ∷ d ∷ s) = ⊥

-- `[ '.' digits ]`
abbrev pub IsPoint : List ℕ → Type 0
IsPoint [] = Unit
IsPoint (c ∷ s) = (c ≡ b'.') × IsDigits s

-- `[ 'e' ( '+' | '-' ) digits ]`
abbrev pub IsTenPower : List ℕ → Type 0
IsTenPower [] = Unit
IsTenPower (c ∷ []) = ⊥
IsTenPower (c ∷ d ∷ s) = (c ≡ b'e') × IsPlusOrMinus d × IsDigits s

-- The text of a finite float under `%g`: a minus sign or none, digits, a fraction or none, and an
-- exponent or none, which has a sign always.
abbrev pub IsPrintf : List ℕ → Type 0
IsPrintf s =
    (minus : List ℕ) × (whole : List ℕ) × (point : List ℕ) × (power : List ℕ) × (s
      ≡ minus ++ ((whole ++ point) ++ power))
    × IsMinus minus
    × IsDigits whole
    × IsPoint point
    × IsTenPower power

-- What the Python and C references say of `%.17g`: the text of a finite float has the form above,
-- and reads back as the same float; `float("0")` is 0.0.
pub record IsRoundTrip (F : Type 0) ⦃fl : Float F⦄ : Type 0 where
  pub format-IsPrintf : (x : F) → fl.is_finite x ≡ true → IsPrintf (codes (fl.format_17g x))
  pub parse-format : (x : F) → fl.is_finite x ≡ true → fl.parse (fl.format_17g x) ≡ x
  pub parse-zero : fl.parse "0" ≡ nought

IsMinus-IsSign : (s : List ℕ) → IsMinus s → IsSign s
IsMinus-IsSign [] h = tt
IsMinus-IsSign (c ∷ []) h = inr h
IsMinus-IsSign (c ∷ d ∷ s) h = elim h [ ]

IsDigits-AllDigits : (s : List ℕ) → IsDigits s → AllDigits s
IsDigits-AllDigits [] h = elim h [ ]
IsDigits-AllDigits (c ∷ s) h = h

IsPoint-IsMantissa :
    (whole point : List ℕ) → IsDigits whole → IsPoint point → IsMantissa (whole ++ point)
IsPoint-IsMantissa whole [] digits h = inl (rw (append-nil whole) digits)
IsPoint-IsMantissa whole (c ∷ s) digits (dot, fraction) =
    inr (inl (whole, s, ap (λ d. whole ++ d ∷ s) dot, digits, IsDigits-AllDigits s fraction))

IsTenPower-IsExponent : (s : List ℕ) → IsTenPower s → IsExponent s
IsTenPower-IsExponent [] h = tt
IsTenPower-IsExponent (c ∷ []) h = elim h [ ]
IsTenPower-IsExponent (c ∷ d ∷ s) (mark, sign, digits) = (inl mark, (d ∷ [], s, refl, sign, digits))

-- What `%g` writes is in the grammar of persisted numbers.
pub IsPrintf-IsNumberText : (s : List ℕ) → IsPrintf s → IsNumberText s
IsPrintf-IsNumberText s (minus, whole, point, power, split, sign, digits, fraction, exponent) = (
  minus,
  whole ++ point,
  power,
  split,
  IsMinus-IsSign minus sign,
  IsPoint-IsMantissa whole point digits fraction,
  IsTenPower-IsExponent power exponent,
)

module _ {F : Type 0} ⦃fl : Float F⦄ (codec : IsRoundTrip F) where
  -- So the matcher accepts what `encode_float` writes of a finite float.
  pub format-is_number : (x : F) → fl.is_finite x ≡ true → is_number (fl.format_17g x) ≡ true
  format-is_number x finite =
      let written = codec.format-IsPrintf x finite in
      (is_number_iff (fl.format_17g x)).1 (IsPrintf-IsNumberText _ written)
