-- ===== src/Operator.antt =====
-- src/pretrade_risk/controls.py: the operator control plane, the write side of the store.
pub mod Bypass
pub mod Caps
use Prim.Native.String.{String}
use pretrade_risk_controls.Common.{
  str_eq, Bool, true, false, ◌&&◌, Option, none, some, List, [], ◌∷◌, ℤ, pos, ◌+ℤ◌, leb_ℤ, ltb_ℤ, ℕ,
  ◌*◌, if◌then◌else◌,
}
use pretrade_risk_controls.Common.Dict.{Dict}
use pretrade_risk_controls.Float.{Float, nought}
use pretrade_risk_controls.Python.{Python, Result, ok, ◌>>=◌, ◌>>◌, raise_if}
use pretrade_risk_controls.Encoding.{
  encode_float, encode_bool, decode_float, decode_positive_float, decode_bool,
}
use pretrade_risk_controls.Keys
use pretrade_risk_controls.Store.{StateStore, raw_get}

abbrev pub max_bypass_duration_millis : ℕ
max_bypass_duration_millis = 24 * 60 * 60 * 1_000

pub record BypassRecord (F : Type 0) : Type 0 where
  pub enabled : Bool
  pub expires_at_millis : Option F
  pub actor : String
  pub reason : String
  pub set_at_millis : Option F

-- `not text.strip()`
abbrev pub is_blank : ⦃py : Python⦄ → String → Bool
is_blank ⦃py⦄ text = str_eq (py.strip text) ""

-- `value or ""`
abbrev pub text_or_empty : Option String → String
text_or_empty none = ""
text_or_empty (some text) = text

module _ {F : Type 0} ⦃fl : Float F⦄ where
  unfoldable pub active_at : BypassRecord F → ℤ → Bool
  active_at b now = elim b.expires_at_millis [
    | none ↦ false
    | some expires_at ↦ b.enabled && fl.int_lt now expires_at
  ]

  -- `_encode_override`
  unfoldable pub encode_override : Option F → String
  unfolding encode_float
  encode_override none = ""
  encode_override (some value) = if fl.le value nought then "" else encode_float value

-- The entries of a bypass from `now` to `expires_at`, as texts of the floats `F`.
unfoldable pub bypass_entries :
    (F : Type 0) → ⦃fl : Float F⦄ → ℤ → ℤ → String → String → Dict String
bypass_entries F ⦃fl⦄ now expires_at actor reason =
    (Keys.loss_limit_bypass, encode_bool true)
    ∷ (Keys.loss_limit_bypass_expires_at, encode_float {F = F} (fl.of_int expires_at))
    ∷ (Keys.loss_limit_bypass_actor, actor)
    ∷ (Keys.loss_limit_bypass_reason, reason)
    ∷ (Keys.loss_limit_bypass_set_at, encode_float {F = F} (fl.of_int now))
    ∷ []

unfoldable pub clear_entries : (F : Type 0) → ⦃fl : Float F⦄ → ℤ → String → Dict String
clear_entries F ⦃fl⦄ now actor =
    (Keys.loss_limit_bypass, encode_bool false)
    ∷ (Keys.loss_limit_bypass_expires_at, "")
    ∷ (Keys.loss_limit_bypass_actor, actor)
    ∷ (Keys.loss_limit_bypass_reason, "bypass cleared")
    ∷ (Keys.loss_limit_bypass_set_at, encode_float {F = F} (fl.of_int now))
    ∷ []

unfoldable pub reset_entries : (F : Type 0) → ⦃fl : Float F⦄ → Dict String
reset_entries F =
    (Keys.live_realized_pnl, encode_float {F = F} nought)
    ∷ (Keys.simulated_realized_pnl, encode_float {F = F} nought)
    ∷ (Keys.live_peak_pnl, encode_float {F = F} nought)
    ∷ (Keys.simulated_peak_pnl, encode_float {F = F} nought)
    ∷ []

module _ (F : Type 0) {S : Type 0} ⦃fl : Float F⦄ ⦃py : Python⦄ ⦃st : StateStore S⦄ where
  -- The new store and the expiry.
  unfoldable pub bypass_loss_limit : S → ℤ → String → String → ℤ → Result (S × ℤ)
  bypass_loss_limit s duration actor reason now = do
    raise_if (leb_ℤ duration (pos 0))
    raise_if (ltb_ℤ (pos max_bypass_duration_millis) duration)
    raise_if (is_blank actor)
    raise_if (is_blank reason)
    let expires_at = now +ℤ duration
    ok (st.set_many s (bypass_entries F now expires_at actor reason), expires_at)

  unfoldable pub clear_loss_limit_bypass : S → String → ℤ → Result S
  clear_loss_limit_bypass s actor now = do
    raise_if (is_blank actor)
    ok (st.set_many s (clear_entries F now actor))

module _ {F S : Type 0} ⦃fl : Float F⦄ ⦃st : StateStore S⦄ where
  unfoldable pub read_loss_limit_bypass : S → BypassRecord F
  read_loss_limit_bypass s =
      let raw = st.get_many s (
        Keys.loss_limit_bypass ∷ Keys.loss_limit_bypass_expires_at ∷ Keys.loss_limit_bypass_actor
        ∷ Keys.loss_limit_bypass_reason ∷ Keys.loss_limit_bypass_set_at ∷ []) in
      record {
        enabled = decode_bool (raw_get raw Keys.loss_limit_bypass);
        expires_at_millis = decode_float (raw_get raw Keys.loss_limit_bypass_expires_at);
        actor = text_or_empty (raw_get raw Keys.loss_limit_bypass_actor);
        reason = text_or_empty (raw_get raw Keys.loss_limit_bypass_reason);
        set_at_millis = decode_float (raw_get raw Keys.loss_limit_bypass_set_at);
      }

  unfoldable pub set_runtime_max_order_notional : S → Option F → S
  set_runtime_max_order_notional s value =
      st.set s Keys.runtime_max_order_notional (encode_override value)

  unfoldable pub get_runtime_max_order_notional : S → Option F
  get_runtime_max_order_notional s =
      decode_positive_float (st.get s Keys.runtime_max_order_notional)

  unfoldable pub set_runtime_max_order_quantity : S → Option F → S
  set_runtime_max_order_quantity s value =
      st.set s Keys.runtime_max_order_quantity (encode_override value)

  unfoldable pub get_runtime_max_order_quantity : S → Option F
  get_runtime_max_order_quantity s =
      decode_positive_float (st.get s Keys.runtime_max_order_quantity)

module _ (F : Type 0) {S : Type 0} ⦃fl : Float F⦄ ⦃st : StateStore S⦄ where
  unfoldable pub reset_daily_loss_limit : S → S
  reset_daily_loss_limit s = st.set_many s (reset_entries F)
