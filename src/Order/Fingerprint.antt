-- ===== src/Order/Fingerprint.antt =====
-- When two orders are the same to the duplicate control.
use Prim.Native.Char.{Char, code}
use text.Mathlib.TextLemmas.{nil-append, cons-append, append_assoc}
use pretrade_risk_controls.Common.{
  ℕ, String, ◌<>◌, ◌==◌, str_eq, ◌≡◌, ◌≢◌, ◌↔◌, inl, inr, refl, sym, ap, ◌∙◌, true, false, Option,
  none, some, List, [], ◌∷◌, ◌++◌, All, All-append, arith, Bool-cases, if◌then◌else◌,
}
use pretrade_risk_controls.Common.Field.{IsField, last_field}
use pretrade_risk_controls.Float.{Float}
use pretrade_risk_controls.Encoding.{codes, is_number, encode_float, decode_float}
use pretrade_risk_controls.Encoding.Printf.{IsRoundTrip, format-is_number}
use pretrade_risk_controls.Encoding.RoundTrip.{decode_float-encode_float}
use pretrade_risk_controls.Encoding.Grammar.{AllDigits, IsDigits, IsSign, IsMantissa, IsExponent}
use pretrade_risk_controls.Encoding.Grammar.Matcher.{is_number_iff}
use pretrade_risk_controls.Order.{Side, buy, sell, sell_short, side_text, OrderRequest, fingerprint}

abbrev bar : Char
bar = "|"

abbrev NoBar : List ℕ → Type 0
NoBar s = All (λ c. (c == b'|') ≡ false) s

codes-IsField : (s : String) → NoBar (codes s) → IsField bar s
codes-IsField String.[] h = tt
codes-IsField (String.◌∷◌ c s) (other, rest) =
    (λ same. ground (arith, ap code same), codes-IsField s rest)

digits-NoBar : (s : List ℕ) → AllDigits s → NoBar s
digits-NoBar [] h = tt
digits-NoBar (c ∷ s) (digit, rest) = (ground arith, digits-NoBar s rest)

IsDigits-NoBar : (s : List ℕ) → IsDigits s → NoBar s
IsDigits-NoBar [] h = elim h [ ]
IsDigits-NoBar (c ∷ s) (digit, rest) = (ground arith, digits-NoBar s rest)

sign-NoBar : (s : List ℕ) → IsSign s → NoBar s
sign-NoBar [] h = tt
sign-NoBar (c ∷ []) h = (ground arith, tt)
sign-NoBar (c ∷ d ∷ s) h = elim h [ ]

mantissa-NoBar : (s : List ℕ) → IsMantissa s → NoBar s
mantissa-NoBar s (inl digits) = IsDigits-NoBar s digits
mantissa-NoBar s (inr (inl (ds, fs, split, whole, all))) =
    rw split (All-append _ ds (b'.' ∷ fs) (IsDigits-NoBar ds whole) (refl, digits-NoBar fs all))
mantissa-NoBar s (inr (inr (fs, split, digits))) = rw split (refl, IsDigits-NoBar fs digits)

exponent-NoBar : (s : List ℕ) → IsExponent s → NoBar s
exponent-NoBar [] h = tt
exponent-NoBar (c ∷ s) (mark, (sg, ds, split, sign, digits)) =
    (ground arith, rw split (All-append _ sg ds (sign-NoBar sg sign) (IsDigits-NoBar ds digits)))

-- A number of the grammar has no bar.
number-IsField : (raw : String) → is_number raw ≡ true → IsField bar raw
number-IsField raw h =
    let (sg, m, r, split, sign, mantissa, exponent) = (is_number_iff raw).0 h in
    codes-IsField raw (
      rw split (
        All-append _ sg (m ++ r) (sign-NoBar sg sign)
          (All-append _ m r (mantissa-NoBar m mantissa) (exponent-NoBar r exponent))))

side_text-IsField : (s : Side) → IsField bar (side_text s)
unfolding side_text
side_text-IsField buy = codes-IsField "BUY" (refl, (refl, (refl, tt)))
side_text-IsField sell = codes-IsField "SELL" (refl, (refl, (refl, (refl, tt))))
side_text-IsField sell_short =
    codes-IsField "SELL_SHORT"
      (refl, (refl, (refl, (refl, (refl, (refl, (refl, (refl, (refl, (refl, tt))))))))))

side_of : String → Side
side_of text = if str_eq text "BUY" then buy else if str_eq text "SELL" then sell else sell_short

side_of-side_text : (s : Side) → side_of (side_text s) ≡ s
unfolding side_of side_text
side_of-side_text buy = refl
side_of-side_text sell = refl
side_of-side_text sell_short = refl

bar-cons : (t : String) → "|" <> t ≡ String.◌∷◌ bar t
bar-cons t = cons-append bar String.[] t ∙ ap (String.◌∷◌ bar) (nil-append t)

-- Two texts with a bar between them, of which the last has none.
take_apart :
    (s s' p p' : String)
    → IsField bar p
    → IsField bar p'
    → s <> ("|" <> p) ≡ s' <> ("|" <> p')
    → (s ≡ s') × (p ≡ p')
take_apart s s' p p' field field' h =
    last_field bar s s' p p' field field'
      (sym (ap (λ t. s <> t) (bar-cons p)) ∙ h ∙ ap (λ t. s' <> t) (bar-cons p'))

regroup :
    (a b c d : String)
    → a <> "|" <> b <> "|" <> c <> "|" <> d ≡ ((a <> ("|" <> b)) <> ("|" <> c)) <> ("|" <> d)
regroup a b c d = simp append_assoc

module _ {F : Type 0} ⦃fl : Float F⦄ where
  abbrev price_text : Option F → String
  price_text none = "MKT"
  price_text (some p) = encode_float p

  -- Finite, if it is set.
  abbrev pub IsFinitePrice : Option F → Type 0
  IsFinitePrice none = Unit
  IsFinitePrice (some p) = fl.is_finite p ≡ true

  -- What the duplicate control compares.
  abbrev pub SameOrder : OrderRequest F → OrderRequest F → Type 0
  SameOrder a b =
      (a.symbol ≡ b.symbol)
      × (a.side ≡ b.side)
      × (a.quantity ≡ b.quantity)
      × (a.limit_price ≡ b.limit_price)

  fingerprint-fields :
      (r : OrderRequest F)
      → fingerprint r
        ≡ ((r.symbol <> ("|" <> side_text r.side)) <> ("|" <> encode_float r.quantity))
          <> ("|" <> price_text r.limit_price)
  unfolding fingerprint
  fingerprint-fields r =
      regroup r.symbol (side_text r.side) (encode_float r.quantity) (price_text r.limit_price)

module _ {F : Type 0} ⦃fl : Float F⦄ (codec : IsRoundTrip F) where
  encode-IsField : (x : F) → IsField bar (encode_float x)
  unfolding encode_float
  encode-IsField x = elim (Bool-cases (fl.is_finite x)) [
    | inl finite ↦ rw finite (number-IsField _ (format-is_number codec x finite))
    | inr other ↦ rw other (codes-IsField "0" (refl, tt))
  ]

  price-IsField : (p : Option F) → IsField bar (price_text p)
  price-IsField none = codes-IsField "MKT" (refl, (refl, (refl, tt)))
  price-IsField (some p) = encode-IsField p

  encode-injective :
      (x y : F)
      → fl.is_finite x ≡ true
      → fl.is_finite y ≡ true
      → encode_float x ≡ encode_float y
      → x ≡ y
  encode-injective x y hx hy h =
      let same : some x ≡ some y =
        sym (decode_float-encode_float codec x hx)
        ∙ ap (λ t. decode_float (some t)) h
        ∙ decode_float-encode_float codec y hy in
      cc same

  market-is_no_number : (p : F) → fl.is_finite p ≡ true → "MKT" ≢ encode_float p
  unfolding decode_float is_number
  market-is_no_number p hp h =
      let read : none ≡ some p =
        ap (λ t. decode_float {F = F} (some t)) h ∙ decode_float-encode_float codec p hp in
      cc read

  price-injective :
      (p q : Option F) → IsFinitePrice p → IsFinitePrice q → price_text p ≡ price_text q → p ≡ q
  price-injective none none hp hq h = refl
  price-injective none (some q) hp hq h = absurd (market-is_no_number q hq h)
  price-injective (some p) none hp hq h = absurd (market-is_no_number p hp (sym h))
  price-injective (some p) (some q) hp hq h = ap some (encode-injective p q hp hq h)

  -- Two orders have one fingerprint exactly if they agree on the symbol, the side, the quantity and
  -- the limit price (none, at market), whatever characters the symbols have. The quantities and the
  -- limit prices must be finite.
  pub fingerprint_iff :
      (a b : OrderRequest F)
      → fl.is_finite a.quantity ≡ true
      → fl.is_finite b.quantity ≡ true
      → IsFinitePrice a.limit_price
      → IsFinitePrice b.limit_price
      → (fingerprint a ≡ fingerprint b) ↔ SameOrder a b
  fingerprint_iff a b qa qb pa pb = (
    λ h.
        let (rest, price) =
          take_apart _ _ _ _ (price-IsField a.limit_price) (price-IsField b.limit_price)
            (sym (fingerprint-fields a) ∙ h ∙ fingerprint-fields b) in
        let (rest', quantity) =
          take_apart _ _ _ _ (encode-IsField a.quantity) (encode-IsField b.quantity) rest in
        let (symbol, side) =
          take_apart _ _ _ _ (side_text-IsField a.side) (side_text-IsField b.side) rest' in
        (
          symbol,
          sym (side_of-side_text a.side) ∙ ap side_of side ∙ side_of-side_text b.side,
          encode-injective a.quantity b.quantity qa qb quantity,
          price-injective a.limit_price b.limit_price pa pb price,
        ),
    λ (symbol, side, quantity, price).
        fingerprint-fields a ∙ rw (symbol, side, quantity, price) (sym (fingerprint-fields b)),
  )
