-- ===== src/Operator/Caps.antt =====
-- The runtime caps, from the operator's call to the engine that refreshes.
use text.Mathlib.TextPositions.{eq_refl as str_eq_refl}
use pretrade_risk_controls.Common.{
  pos, String, ◌≡◌, refl, ◌∙◌, ap, true, false, not, ◌&&◌, Option, none, some, arith, if◌then◌else◌,
}
use pretrade_risk_controls.Float.{Float, nought, IsBinary64}
use pretrade_risk_controls.Float.Order.{IsNumber-nought}
use pretrade_risk_controls.Encoding.{is_number, encode_float, decode_float, decode_positive_float}
use pretrade_risk_controls.Encoding.Printf.{IsRoundTrip}
use pretrade_risk_controls.Encoding.RoundTrip.{decode_float-encode_float}
use pretrade_risk_controls.Keys
use pretrade_risk_controls.Store.{raw_get-get_many, StateStore, IsStore}
use pretrade_risk_controls.Engine.State.{Engine}
use pretrade_risk_controls.Engine.Derived.{
  effective_max_order_notional, effective_max_order_quantity,
}
use pretrade_risk_controls.Engine.Lifecycle.{refresh_overrides}
use pretrade_risk_controls.Operator.{
  encode_override, set_runtime_max_order_notional, get_runtime_max_order_notional,
  set_runtime_max_order_quantity, get_runtime_max_order_quantity,
}

-- The cap that a written value sets: none unless it is finite and above zero.
abbrev pub cap_of : {F : Type 0} → ⦃fl : Float F⦄ → Option F → Option F
cap_of none = none
cap_of ⦃fl⦄ (some value) =
    if fl.is_finite value && not (fl.le value nought) then some value else none

abbrev pub or_else : {F : Type 0} → Option F → Option F → Option F
or_else (some x) y = some x
or_else none y = y

module _ {F : Type 0} ⦃fl : Float F⦄ (laws : IsBinary64 F) (codec : IsRoundTrip F) where
  zero-is_cleared : decode_positive_float {F = F} (some "0") ≡ none
  unfolding decode_positive_float decode_float is_number
  zero-is_cleared =
      ground
        (arith, codec.parse-zero, laws.of_int-is_finite (pos 0) (omega arith), IsNumber-nought laws)

  empty-is_cleared : decode_positive_float {F = F} (some "") ≡ none
  unfolding decode_positive_float is_number
  empty-is_cleared = refl

  positive-decodes :
      (value : F)
      → fl.is_finite value ≡ true
      → fl.le value nought ≡ false
      → decode_positive_float (some (encode_float value)) ≡ some value
  unfolding decode_positive_float
  positive-decodes value finite positive =
      ground (arith, decode_float-encode_float codec value finite)

  infinite-is_zero : (value : F) → fl.is_finite value ≡ false → encode_float value ≡ "0"
  unfolding encode_float
  infinite-is_zero value h = rw h

  decode-encode_override :
      (value : Option F) → decode_positive_float (some (encode_override value)) ≡ cap_of value
  unfolding encode_override
  decode-encode_override none = empty-is_cleared
  decode-encode_override (some value) =
      ground
        (arith, empty-is_cleared, zero-is_cleared, positive-decodes value, infinite-is_zero value)

module _ {F S : Type 0} ⦃fl : Float F⦄ ⦃st : StateStore S⦄ (laws : IsBinary64 F)
    (codec : IsRoundTrip F) (store : IsStore S) where
  written-cap :
      (s : S) (key : String) (value : Option F)
      → decode_positive_float (st.get (st.set s key (encode_override value)) key) ≡ cap_of value
  written-cap s key value =
      ap decode_positive_float
        (rw (store.get-set s key (encode_override value) key, str_eq_refl key))
      ∙ decode-encode_override laws codec value

  refreshed-limits : (e : Engine F) (s : S) → (refresh_overrides e s).limits ≡ e.limits
  unfolding refresh_overrides
  refreshed-limits e s = refl

  cached_notional :
      (e : Engine F) (s : S)
      → (refresh_overrides e s).runtime_max_order_notional
        ≡ decode_positive_float (st.get s Keys.runtime_max_order_notional)
  unfolding refresh_overrides
  cached_notional e s =
      ap decode_positive_float (raw_get-get_many store s _ Keys.runtime_max_order_notional refl)

  cached_quantity :
      (e : Engine F) (s : S)
      → (refresh_overrides e s).runtime_max_order_quantity
        ≡ decode_positive_float (st.get s Keys.runtime_max_order_quantity)
  unfolding refresh_overrides
  cached_quantity e s =
      ap decode_positive_float (raw_get-get_many store s _ Keys.runtime_max_order_quantity refl)

  -- The operator's notional cap, once written and refreshed, is the cap in force if it is finite and
  -- positive; any other value clears it, and the configured limit is in force. The operator reads
  -- back the same.
  pub set_runtime_max_order_notional-refresh :
      (e : Engine F) (s : S) (value : Option F)
      → let s' = set_runtime_max_order_notional s value in
        (effective_max_order_notional (refresh_overrides e s')
          ≡ or_else (cap_of value) e.limits.max_order_notional_usd)
        × (get_runtime_max_order_notional s' ≡ cap_of value)
  unfolding set_runtime_max_order_notional get_runtime_max_order_notional
      effective_max_order_notional
  set_runtime_max_order_notional-refresh e s value =
      let key = Keys.runtime_max_order_notional in
      let s' = st.set s key (encode_override value) in
      let read : decode_positive_float (st.get s' key) ≡ cap_of value = written-cap s key value in
      let cached : (refresh_overrides e s').runtime_max_order_notional ≡ cap_of value =
        cached_notional e s' ∙ read in
      (ground (arith, refreshed-limits e s'), read)

  -- The same for the quantity cap.
  pub set_runtime_max_order_quantity-refresh :
      (e : Engine F) (s : S) (value : Option F)
      → let s' = set_runtime_max_order_quantity s value in
        (effective_max_order_quantity (refresh_overrides e s')
          ≡ or_else (cap_of value) e.limits.max_order_quantity)
        × (get_runtime_max_order_quantity s' ≡ cap_of value)
  unfolding set_runtime_max_order_quantity get_runtime_max_order_quantity
      effective_max_order_quantity
  set_runtime_max_order_quantity-refresh e s value =
      let key = Keys.runtime_max_order_quantity in
      let s' = st.set s key (encode_override value) in
      let read : decode_positive_float (st.get s' key) ≡ cap_of value = written-cap s key value in
      let cached : (refresh_overrides e s').runtime_max_order_quantity ≡ cap_of value =
        cached_quantity e s' ∙ read in
      (ground (arith, refreshed-limits e s'), read)
