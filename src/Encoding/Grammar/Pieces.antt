-- ===== src/Encoding/Grammar/Pieces.antt =====
-- The pieces of the matcher of encoding.py: digits, signs and exponents.
use pretrade_risk_controls.Common.{
  ℕ, ◌≡◌, refl, sym, ◌∙◌, ap, inl, inr, true, false, Option, none, some, List, [], ◌∷◌, ◌++◌, arith,
  ◌==◌, Bool-cases,
}
use mathlib.Core.List.{append-nil}
use pretrade_risk_controls.Encoding.{
  is_digit, is_sign, is_exponent_mark, skip_digits, match_digits, skip_sign, at_end, match_exponent,
}
use pretrade_risk_controls.Encoding.Grammar.{
  IsDigit, IsPlusOrMinus, IsExponentMark, AllDigits, IsDigits, IsSign, IsExponent,
}

-- The matcher's tests of one character against the grammar's characters.
pub is_digit-IsDigit : (c : ℕ) → is_digit c ≡ true → IsDigit c
is_digit-IsDigit c h = (ground arith, ground arith)

pub IsDigit-is_digit : (c : ℕ) → IsDigit c → is_digit c ≡ true
IsDigit-is_digit c h = ground arith

is_sign-IsPlusOrMinus : (c : ℕ) → is_sign c ≡ true → IsPlusOrMinus c
is_sign-IsPlusOrMinus c h = ground arith

IsPlusOrMinus-is_sign : (c : ℕ) → IsPlusOrMinus c → is_sign c ≡ true
IsPlusOrMinus-is_sign c h = ground arith

is_exponent_mark-IsExponentMark : (c : ℕ) → is_exponent_mark c ≡ true → IsExponentMark c
is_exponent_mark-IsExponentMark c h = ground arith

IsExponentMark-is_exponent_mark : (c : ℕ) → IsExponentMark c → is_exponent_mark c ≡ true
IsExponentMark-is_exponent_mark c h = ground arith

-- No digit follows.
abbrev pub Stops : List ℕ → Type 0
Stops [] = Unit
Stops (c ∷ s) = is_digit c ≡ false

-- Neither a digit nor a point follows.
abbrev pub Ends : List ℕ → Type 0
Ends [] = Unit
Ends (c ∷ s) = (is_digit c ≡ false) × ((c == b'.') ≡ false)

-- No sign follows.
abbrev pub Unsigned : List ℕ → Type 0
Unsigned [] = Unit
Unsigned (c ∷ s) = is_sign c ≡ false

pub skip_digits-split : (s : List ℕ) → (ds : List ℕ) × AllDigits ds × (s ≡ ds ++ skip_digits s)
unfolding skip_digits
skip_digits-split [] = ([], tt, refl)
skip_digits-split (c ∷ s) = elim (Bool-cases (is_digit c)) [
  | inl digit ↦
      let (ds, all, split) = skip_digits-split s in
      (c ∷ ds, (is_digit-IsDigit c digit, all), rw digit (ap (λ t. c ∷ t) split))
  | inr other ↦ ([], tt, rw other refl)
]

pub skip_digits-append : (ds r : List ℕ) → AllDigits ds → Stops r → skip_digits (ds ++ r) ≡ r
unfolding skip_digits
skip_digits-append [] [] h stop = refl
skip_digits-append [] (c ∷ r) h stop = rw stop refl
skip_digits-append (d ∷ ds) r h stop =
    rw (IsDigit-is_digit d h.0) (skip_digits-append ds r h.1 stop)

pub match_digits-split :
    (s r : List ℕ) → match_digits s ≡ some r → (ds : List ℕ) × IsDigits ds × (s ≡ ds ++ r)
unfolding match_digits
match_digits-split [] r h = cc
match_digits-split (c ∷ s) r h = elim (Bool-cases (is_digit c)) [
  | inl digit ↦
      let (ds, all, split) = skip_digits-split s in
      let rest : skip_digits s ≡ r = ground arith in
      (c ∷ ds, (is_digit-IsDigit c digit, all), ap (λ t. c ∷ t) (split ∙ ap (λ t. ds ++ t) rest))
  | inr other ↦ ground arith
]

pub match_digits-append : (ds r : List ℕ) → IsDigits ds → Stops r → match_digits (ds ++ r) ≡ some r
unfolding match_digits
match_digits-append (d ∷ ds) r h stop =
    rw (IsDigit-is_digit d h.0) (ap some (skip_digits-append ds r h.1 stop))
match_digits-append [] r h stop = elim h [ ]

pub skip_sign-split : (s : List ℕ) → (sg : List ℕ) × IsSign sg × (s ≡ sg ++ skip_sign s)
unfolding skip_sign
skip_sign-split [] = ([], tt, refl)
skip_sign-split (c ∷ s) = elim (Bool-cases (is_sign c)) [
  | inl sign ↦ (c ∷ [], is_sign-IsPlusOrMinus c sign, rw sign refl)
  | inr other ↦ ([], tt, rw other refl)
]

pub skip_sign-append : (sg r : List ℕ) → IsSign sg → Unsigned r → skip_sign (sg ++ r) ≡ r
unfolding skip_sign
skip_sign-append [] [] h u = refl
skip_sign-append [] (c ∷ r) h u = rw u refl
skip_sign-append (c ∷ []) r h u = rw (IsPlusOrMinus-is_sign c h) refl
skip_sign-append (c ∷ d ∷ s) r h u = elim h [ ]

-- Digits begin with no sign, and exponents with neither a digit nor a point.
pub digits-Unsigned : (ds r : List ℕ) → IsDigits ds → Unsigned (ds ++ r)
digits-Unsigned [] r h = elim h [ ]
digits-Unsigned (d ∷ ds) r h = ground arith

pub exponent-Ends : (r : List ℕ) → IsExponent r → Ends r
exponent-Ends [] h = tt
exponent-Ends (c ∷ r) (mark, _) = (ground arith, ground arith)

pub Ends-Stops : (r : List ℕ) → Ends r → Stops r
Ends-Stops [] h = tt
Ends-Stops (c ∷ r) h = h.0

pub at_end-none : (m : Option (List ℕ)) → at_end m ≡ true → m ≡ some []
at_end-none none h = cc
at_end-none (some []) h = refl
at_end-none (some (c ∷ s)) h = cc

pub match_exponent-IsExponent : (s : List ℕ) → match_exponent s ≡ true → IsExponent s
unfolding match_exponent
match_exponent-IsExponent [] h = tt
match_exponent-IsExponent (c ∷ s) h = elim (Bool-cases (is_exponent_mark c)) [
  | inl mark ↦
      let (sg, sign, split) = skip_sign-split s in
      let whole : match_digits (skip_sign s) ≡ some [] = at_end-none _ (rw mark at h) in
      let (ds, digits, rest) = match_digits-split (skip_sign s) [] whole in
      (
        is_exponent_mark-IsExponentMark c mark,
        (sg, ds, split ∙ ap (λ t. sg ++ t) (rest ∙ append-nil ds), sign, digits),
      )
  | inr other ↦ ground arith
]

pub IsExponent-match_exponent : (s : List ℕ) → IsExponent s → match_exponent s ≡ true
unfolding match_exponent
IsExponent-match_exponent [] h = refl
IsExponent-match_exponent (c ∷ s) (mark, (sg, ds, split, sign, digits)) =
    let unsigned = skip_sign-append sg ds sign (ap_unsigned ds digits) in
    let matched : match_digits ds ≡ some [] =
      ap match_digits (sym (append-nil ds)) ∙ match_digits-append ds [] digits tt in
    rw (IsExponentMark-is_exponent_mark c mark, split, unsigned, matched) refl
  where
    ap_unsigned : (ds : List ℕ) → IsDigits ds → Unsigned ds
    ap_unsigned [] h = tt
    ap_unsigned (d ∷ ds) h = ground arith
