-- ===== src/Encoding/Grammar.antt =====
-- The grammar of persisted numbers as the module comment of encoding.py writes it, over
-- characters of its own and not those of the matcher:
--
--   number := [ '+' | '-' ] ( digits [ '.' [ digits ] ] | '.' digits )
--             [ ( 'e' | 'E' ) [ '+' | '-' ] digits ]
--   digits := '0'..'9' { '0'..'9' }
pub mod Pieces
pub mod Matcher
use pretrade_risk_controls.Common.{ℕ, ◌≡◌, ◌⊎◌, ◌≤◌, List, [], ◌∷◌, ◌++◌, All}

-- The characters, as code points.
abbrev pub IsDigit : ℕ → Type 0
IsDigit c = (b'0' ≤ c) × (c ≤ b'9')

abbrev pub IsPlusOrMinus : ℕ → Type 0
IsPlusOrMinus c = (c ≡ b'+') ⊎ (c ≡ b'-')

abbrev pub IsExponentMark : ℕ → Type 0
IsExponentMark c = (c ≡ b'e') ⊎ (c ≡ b'E')

abbrev pub AllDigits : List ℕ → Type 0
AllDigits s = All IsDigit s

-- `digits`
abbrev pub IsDigits : List ℕ → Type 0
IsDigits [] = ⊥
IsDigits (c ∷ s) = IsDigit c × AllDigits s

-- `[ '+' | '-' ]`
abbrev pub IsSign : List ℕ → Type 0
IsSign [] = Unit
IsSign (c ∷ []) = IsPlusOrMinus c
IsSign (c ∷ d ∷ s) = ⊥

-- `digits`, then `[ '.' [ digits ] ]`; or `'.' digits`
abbrev pub IsMantissa : List ℕ → Type 0
IsMantissa s =
    IsDigits s
    ⊎ ((whole : List ℕ) × (fraction : List ℕ) × (s ≡ whole ++ b'.' ∷ fraction)
        × IsDigits whole
        × AllDigits fraction)
    ⊎ ((fraction : List ℕ) × (s ≡ b'.' ∷ fraction) × IsDigits fraction)

-- `[ ( 'e' | 'E' ) [ '+' | '-' ] digits ]`
abbrev pub IsExponent : List ℕ → Type 0
IsExponent [] = Unit
IsExponent (c ∷ s) =
    IsExponentMark c
    × ((sign : List ℕ) × (digits : List ℕ) × (s ≡ sign ++ digits) × IsSign sign × IsDigits digits)

-- `number`
abbrev pub IsNumberText : List ℕ → Type 0
IsNumberText s =
    (sign : List ℕ) × (mantissa : List ℕ) × (exponent : List ℕ) × (s
      ≡ sign ++ (mantissa ++ exponent))
    × IsSign sign
    × IsMantissa mantissa
    × IsExponent exponent
