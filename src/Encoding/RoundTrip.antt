-- ===== src/Encoding/RoundTrip.antt =====
-- Encoding a value, then decoding the text.
use pretrade_risk_controls.Common.{
  String, ◌≡◌, refl, ◌↔◌, Bool, true, false, Option, none, some, arith, str_eq_iff,
}
use pretrade_risk_controls.Float.{Float}
use pretrade_risk_controls.Encoding.{encode_bool, decode_bool, encode_float, decode_float}
use pretrade_risk_controls.Encoding.Printf.{IsRoundTrip, format-is_number}

-- A flag survives the store.
pub decode_bool-encode_bool : (b : Bool) → decode_bool (some (encode_bool b)) ≡ b
unfolding decode_bool encode_bool
decode_bool-encode_bool true = refl
decode_bool-encode_bool false = refl

-- A flag is on only if the stored text is exactly "1".
pub decode_bool_iff : (raw : Option String) → (decode_bool raw ≡ true) ↔ (raw ≡ some "1")
unfolding decode_bool
decode_bool_iff none = ground arith
decode_bool_iff (some raw) = ground (arith, str_eq_iff raw "1")

module _ {F : Type 0} ⦃fl : Float F⦄ (codec : IsRoundTrip F) where
  open codec use {parse-format}

  -- A finite float survives the store exactly, if `%.17g` writes what `printf` documents and `float()`
  -- reads it back.
  pub decode_float-encode_float :
      (x : F) → fl.is_finite x ≡ true → decode_float (some (encode_float x)) ≡ some x
  unfolding decode_float encode_float
  decode_float-encode_float x h = rw (h, format-is_number codec x h, parse-format x h, h)
