-- ===== src/Engine/Lifecycle/Torn/Either.antt =====
-- What reading a torn snapshot gives, counter by counter.
use pretrade_risk_controls.Common.{
  ℕ, suc, String, ◌≡◌, ◌∙◌, ap, true, Option, some, ◌⊎◌, inl, inr, ℤ,
}
use pretrade_risk_controls.Float.{Float, nought, max, IsBinary64}
use pretrade_risk_controls.Encoding.{encode_float}
use pretrade_risk_controls.Encoding.Printf.{IsRoundTrip}
use pretrade_risk_controls.Engine.Lifecycle.{as_count, float_or_zero}
use pretrade_risk_controls.Engine.Lifecycle.Restart.{
  IsRatchet, IsCount, as_count-encode, read-amount, peak-rebuilt,
}
use pretrade_risk_controls.Engine.Lifecycle.Torn.Prefix.{pick, pick-either, pick-stages}
use pretrade_risk_controls.Engine.Lifecycle.Torn.Leg.{IsStep, rebuilt-step}

module _ {F : Type 0} ⦃fl : Float F⦄ where
  abbrev pub SameLeg : F → F → F → F → Type 0
  SameLeg pnl peak pnl' peak' = (fl.eq pnl pnl' ≡ true) × (fl.eq peak peak' ≡ true)

module _ {F : Type 0} ⦃fl : Float F⦄ (laws : IsBinary64 F) (codec : IsRoundTrip F) where
  pub amount-either :
      (i n : ℕ) (raw : Option String) (old new : F)
      → fl.is_finite old ≡ true
      → fl.is_finite new ≡ true
      → raw ≡ some (encode_float (pick i n old new))
      → (fl.eq (float_or_zero raw) old ≡ true) ⊎ (fl.eq (float_or_zero raw) new ≡ true)
  amount-either i n raw old new finite finite' text = elim (pick-either i n old new) [
    | inl before ↦
        inl (read-amount laws codec raw old (text ∙ ap (λ x. some (encode_float x)) before) finite)
    | inr behind ↦
        inr (read-amount laws codec raw new (text ∙ ap (λ x. some (encode_float x)) behind) finite')
  ]

  pub count-either :
      (i n : ℕ) (raw : Option String) (old new : ℤ)
      → IsCount old
      → IsCount new
      → raw ≡ some (encode_float {F = F} (fl.of_int (pick i n old new)))
      → (as_count F raw ≡ old) ⊎ (as_count F raw ≡ new)
  count-either i n raw old new count count' text =
      let read : (m : ℤ)
          → IsCount m
          → raw ≡ some (encode_float {F = F} (fl.of_int m))
          → as_count F raw ≡ m =
        λ m h p. ap (as_count F) p ∙ as_count-encode laws codec m h in
      elim (pick-either i n old new) [
        | inl before ↦
            inl (read old count (text ∙ ap (λ m. some (encode_float {F = F} (fl.of_int m))) before))
        | inr behind ↦
            inr
              (read new count' (text ∙ ap (λ m. some (encode_float {F = F} (fl.of_int m))) behind))
      ]

  pub leg-either :
      (i n : ℕ) (raw_pnl raw_peak : Option String) (pnl pnl' peak peak' : F)
      → fl.is_finite pnl ≡ true
      → fl.is_finite pnl' ≡ true
      → fl.is_finite peak ≡ true
      → fl.is_finite peak' ≡ true
      → IsRatchet pnl peak
      → IsRatchet pnl' peak'
      → IsStep peak pnl' peak'
      → raw_pnl ≡ some (encode_float (pick i n pnl pnl'))
      → raw_peak ≡ some (encode_float (pick (suc (suc i)) n peak peak'))
      → let read_pnl : F = float_or_zero raw_pnl in
        let read_peak = max (max nought read_pnl) (float_or_zero raw_peak) in
        SameLeg read_pnl read_peak pnl peak ⊎ SameLeg read_pnl read_peak pnl' peak'
  leg-either i n raw_pnl raw_peak pnl pnl' peak peak' fin_pnl fin_pnl' fin_peak fin_peak' ratchet
        ratchet' step text text' =
      let as_text : (x y : F) → x ≡ y → some (encode_float x) ≡ some (encode_float y) =
        λ x y h. ap (λ z. some (encode_float z)) h in
      let read : (raw : Option String) (x : F)
          → raw ≡ some (encode_float x)
          → fl.is_finite x ≡ true
          → fl.eq (float_or_zero {F = F} raw) x ≡ true =
        λ raw x. read-amount laws codec raw x in
      elim (pick-stages i n pnl pnl' peak peak') [
        | inl (first, second) ↦
            let p = read raw_pnl pnl (text ∙ as_text _ _ first) fin_pnl in
            let q = read raw_peak peak (text' ∙ as_text _ _ second) fin_peak in
            inl (p, peak-rebuilt laws codec pnl peak _ _ ratchet p q)
        | inr (inl (first, second)) ↦
            let p = read raw_pnl pnl' (text ∙ as_text _ _ first) fin_pnl' in
            let q = read raw_peak peak (text' ∙ as_text _ _ second) fin_peak in
            inr (p, rebuilt-step laws peak pnl' peak' _ _ ratchet' step p q)
        | inr (inr (first, second)) ↦
            let p = read raw_pnl pnl' (text ∙ as_text _ _ first) fin_pnl' in
            let q = read raw_peak peak' (text' ∙ as_text _ _ second) fin_peak' in
            inr (p, peak-rebuilt laws codec pnl' peak' _ _ ratchet' p q)
      ]
