-- ===== src/Encoding/Grammar/Matcher.antt =====
-- The matcher of encoding.py against the grammar.
use pretrade_risk_controls.Common.{
  ℕ, String, ◌≡◌, refl, sym, ◌∙◌, ap, ◌↔◌, ◌⊎◌, inl, inr, true, false, Option, none, some, List, [],
  ◌∷◌, ◌++◌, arith, ◌==◌, Bool-cases,
}
use mathlib.Core.List.{append_assoc}
use pretrade_risk_controls.Encoding.{
  codes, is_digit, skip_digits, match_digits, skip_sign, skip_fraction, match_mantissa,
  match_exponent, is_number_text, is_number,
}
use pretrade_risk_controls.Encoding.Grammar.{AllDigits, IsMantissa, IsNumberText}
use pretrade_risk_controls.Encoding.Grammar.Pieces.{
  is_digit-IsDigit, IsDigit-is_digit, Stops, Ends, Unsigned, skip_digits-split, skip_digits-append,
  match_digits-split, match_digits-append, skip_sign-split, skip_sign-append, digits-Unsigned,
  exponent-Ends, Ends-Stops, match_exponent-IsExponent, IsExponent-match_exponent,
}

-- `digits [ '.' [ digits ] ]`, once the digits are off.
skip_fraction-split :
    (s : List ℕ)
    → (skip_fraction s ≡ s) ⊎ ((fs : List ℕ) × AllDigits fs × (s ≡ b'.' ∷ fs ++ skip_fraction s))
unfolding skip_fraction
skip_fraction-split [] = inl refl
skip_fraction-split (c ∷ s) = elim (Bool-cases (c == b'.')) [
  | inl point ↦
      let (fs, all, split) = skip_digits-split s in
      let dot : c ≡ b'.' = ground arith in inr (fs, all, rw dot (ap (λ t. b'.' ∷ t) split))
  | inr other ↦ inl (rw other refl)
]

match_mantissa-split :
    (s r : List ℕ) → match_mantissa s ≡ some r → (m : List ℕ) × IsMantissa m × (s ≡ m ++ r)
unfolding match_mantissa
match_mantissa-split [] r h = cc
match_mantissa-split (c ∷ s) r h = elim (Bool-cases (is_digit c)) [
  | inl digit ↦
      let (ds, all, split) = skip_digits-split s in
      let rest : skip_fraction (skip_digits s) ≡ r = ground arith in
      elim (skip_fraction-split (skip_digits s)) [
        | inl none_left ↦ (
          c ∷ ds,
          inl (is_digit-IsDigit c digit, all),
          ap (λ t. c ∷ t) (split ∙ ap (λ t. ds ++ t) (sym none_left ∙ rest)),
        )
        | inr (fs, digits, point) ↦ (
          c ∷ ds ++ b'.' ∷ fs,
          inr (inl (c ∷ ds, fs, refl, (is_digit-IsDigit c digit, all), digits)),
          ap (λ t. c ∷ t)
              (split
                ∙ ap (λ t. ds ++ t) (point ∙ ap (λ t. b'.' ∷ fs ++ t) rest)
                ∙ sym (append_assoc ds (b'.' ∷ fs) r)),
        )
      ]
  | inr other ↦ elim (Bool-cases (c == b'.')) [
    | inl point ↦
        let dot : c ≡ b'.' = ground arith in
        let digits : match_digits s ≡ some r = ground arith in
        let (fs, all, split) = match_digits-split s r digits in
        (b'.' ∷ fs, inr (inr (fs, refl, all)), rw dot (ap (λ t. b'.' ∷ t) split))
    | inr neither ↦ ground arith
  ]
]

skip_fraction-stop : (r : List ℕ) → Ends r → skip_fraction r ≡ r
unfolding skip_fraction
skip_fraction-stop [] h = refl
skip_fraction-stop (c ∷ r) h = rw (h.1) refl

pointed :
    (ds fs r : List ℕ)
    → AllDigits ds
    → AllDigits fs
    → Stops r
    → skip_fraction (skip_digits ((ds ++ b'.' ∷ fs) ++ r)) ≡ r
unfolding skip_fraction
pointed ds fs r whole all stop =
    ap (λ t. skip_fraction (skip_digits t)) (append_assoc ds (b'.' ∷ fs) r)
    ∙ ap skip_fraction (skip_digits-append ds (b'.' ∷ fs ++ r) whole refl)
    ∙ skip_digits-append fs r all stop

match_mantissa-append : (m r : List ℕ) → IsMantissa m → Ends r → match_mantissa (m ++ r) ≡ some r
unfolding match_mantissa
match_mantissa-append [] r (inl digits) ends = elim digits [ ]
match_mantissa-append (d ∷ ds) r (inl (digit, all)) ends =
    rw (IsDigit-is_digit d digit, skip_digits-append ds r all (Ends-Stops r ends))
      (ap some (skip_fraction-stop r ends))
match_mantissa-append m r (inr (inl ([], fs, split, whole, all))) ends = elim whole [ ]
match_mantissa-append m r (inr (inl (d ∷ ds, fs, split, (digit, whole), all))) ends =
    rw (split, IsDigit-is_digit d digit) (ap some (pointed ds fs r whole all (Ends-Stops r ends)))
match_mantissa-append m r (inr (inr (fs, split, digits))) ends =
    rw (split, match_digits-append fs r digits (Ends-Stops r ends)) refl

mantissa-Unsigned : (m r : List ℕ) → IsMantissa m → Unsigned (m ++ r)
mantissa-Unsigned m r (inl digits) = digits-Unsigned m r digits
mantissa-Unsigned m r (inr (inl ([], fs, split, whole, all))) = elim whole [ ]
mantissa-Unsigned m r (inr (inl (d ∷ ds, fs, split, (digit, whole), all))) =
    rw split (digits-Unsigned (d ∷ []) ((ds ++ b'.' ∷ fs) ++ r) (digit, tt))
mantissa-Unsigned m r (inr (inr (fs, split, digits))) = rw split refl

is_number_text-IsNumberText : (s : List ℕ) → is_number_text s ≡ true → IsNumberText s
unfolding is_number_text
is_number_text-IsNumberText s h =
    let (sg, sign, split) = skip_sign-split s in
    let (r, found, end) = matched (match_mantissa (skip_sign s)) h in
    let (m, mantissa, rest) = match_mantissa-split (skip_sign s) r found in
    (sg, m, r, split ∙ ap (λ t. sg ++ t) rest, sign, mantissa, match_exponent-IsExponent r end)
  where
    matched :
        (o : Option (List ℕ))
        → (elim o [ none ↦ false | some r ↦ match_exponent r ]) ≡ true
        → (r : List ℕ) × (o ≡ some r) × (match_exponent r ≡ true)
    matched none h = cc
    matched (some r) h = (r, refl, h)

IsNumberText-is_number_text : (s : List ℕ) → IsNumberText s → is_number_text s ≡ true
unfolding is_number_text
IsNumberText-is_number_text s (sg, m, r, split, sign, mantissa, exponent) =
    let unsigned = skip_sign-append sg (m ++ r) sign (mantissa-Unsigned m r mantissa) in
    let found = match_mantissa-append m r mantissa (exponent-Ends r exponent) in
    let whole : match_mantissa (skip_sign s) ≡ some r =
      ap (λ t. match_mantissa (skip_sign t)) split ∙ ap match_mantissa unsigned ∙ found in
    rw (whole, is_number_text) (IsExponent-match_exponent r exponent)

-- `_NUMBER_RE`, run as the matcher runs it, accepts exactly the texts of the documented grammar, whose
-- digits are '0' to '9' and no others.
pub is_number_iff : (raw : String) → (is_number raw ≡ true) ↔ IsNumberText (codes raw)
unfolding is_number
is_number_iff raw =
    (is_number_text-IsNumberText (codes raw), IsNumberText-is_number_text (codes raw))
