-- ===== src/Examples/Texts.antt =====
-- Texts of numbers, and fingerprints.
use pretrade_risk_controls.Common.{◌≡◌, ◌↔◌, refl, true, some, pos}
use pretrade_risk_controls.Float.Whole.{Whole, whole_float, Whole-IsRoundTrip}
use pretrade_risk_controls.Encoding.{is_number, codes}
use pretrade_risk_controls.Encoding.Grammar.{IsNumberText}
use pretrade_risk_controls.Encoding.Grammar.Matcher.{is_number_iff}
use pretrade_risk_controls.Order.{OrderRequest, fingerprint}
use pretrade_risk_controls.Order.Fingerprint.{SameOrder, fingerprint_iff}
use pretrade_risk_controls.Examples.Data.{order}

is_number_iff_example : (is_number "-12.5e+3" ≡ true) ↔ IsNumberText (codes "-12.5e+3")
is_number_iff_example = is_number_iff "-12.5e+3"

-- The same order one tick higher.
abbrev higher : OrderRequest Whole
higher = record order { limit_price = some (some (pos 26)) }

fingerprint_iff_example : (fingerprint order ≡ fingerprint higher) ↔ SameOrder order higher
fingerprint_iff_example = fingerprint_iff Whole-IsRoundTrip order higher refl refl refl refl
