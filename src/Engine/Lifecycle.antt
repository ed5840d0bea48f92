-- ===== src/Engine/Lifecycle.antt =====
-- The engine's traffic with the store: `persist`, `load`, `refresh_overrides`, and the recording
-- methods, which count and then persist.
pub mod Reset
pub mod Restart
pub mod Crash
pub mod NextDay
pub mod Torn
use pretrade_risk_controls.Common.{
  String, str_eq, Bool, false, Option, none, some, [], ◌∷◌, ℤ, pos, if◌then◌else◌,
}
use pretrade_risk_controls.Common.Dict.{Dict}
use pretrade_risk_controls.Float.{Float, nought, max}
use pretrade_risk_controls.Python.{Python}
use pretrade_risk_controls.Encoding.{encode_float, decode_float, decode_positive_float, decode_bool}
use pretrade_risk_controls.Keys
use pretrade_risk_controls.Store.{StateStore, raw_get}
use pretrade_risk_controls.Engine.State.{Engine, today}
use pretrade_risk_controls.Engine.Counters.{
  count_pnl, count_notional, count_rejected, count_accepted, count_execution, clear_throttles,
}

-- `_as_count`, by way of the floats `F`
unfoldable pub as_count : (F : Type 0) → ⦃fl : Float F⦄ → Option String → ℤ
as_count F ⦃fl⦄ raw = elim (decode_float {F = F} raw) [
  | none ↦ pos 0
  | some value ↦ if fl.lt value nought then pos 0 else fl.to_int value
]

module _ {F : Type 0} ⦃fl : Float F⦄ where
  -- `decode_float(raw) or 0.0`
  unfoldable pub float_or_zero : Option String → F
  float_or_zero raw = elim (decode_float raw) [
    | none ↦ nought
    | some value ↦ if fl.eq value nought then nought else value
  ]

  unfoldable pub snapshot : Engine F → Dict String
  snapshot e =
      (Keys.trading_day, e.trading_day)
      ∷ (Keys.live_realized_pnl, encode_float e.live_pnl)
      ∷ (Keys.simulated_realized_pnl, encode_float e.simulated_pnl)
      ∷ (Keys.live_peak_pnl, encode_float e.live_peak)
      ∷ (Keys.simulated_peak_pnl, encode_float e.simulated_peak)
      ∷ (Keys.daily_notional, encode_float e.daily_notional)
      ∷ (Keys.consecutive_rejects, encode_float (fl.of_int e.consecutive_rejects))
      ∷ (Keys.executions_since_rearm, encode_float (fl.of_int e.executions_since_rearm))
      ∷ []

  -- What `load` adopts of a snapshot of the current trading day.
  unfoldable pub adopt : Engine F → Dict (Option String) → Engine F
  unfolding float_or_zero max
  adopt e raw =
      let live = float_or_zero (raw_get raw Keys.live_realized_pnl) in
      let simulated = float_or_zero (raw_get raw Keys.simulated_realized_pnl) in
      let live_peak = float_or_zero (raw_get raw Keys.live_peak_pnl) in
      let simulated_peak = float_or_zero (raw_get raw Keys.simulated_peak_pnl) in
      record e {
        live_pnl = live;
        simulated_pnl = simulated;
        live_peak = max (max nought live) live_peak;
        simulated_peak = max (max nought simulated) simulated_peak;
        daily_notional = float_or_zero (raw_get raw Keys.daily_notional);
        consecutive_rejects = as_count F (raw_get raw Keys.consecutive_rejects);
      }

-- `raw.get(TRADING_DAY) == today`
abbrev pub same_day : Option String → String → Bool
same_day none day = false
same_day (some stored) day = str_eq stored day

module _ {F S : Type 0} ⦃fl : Float F⦄ ⦃st : StateStore S⦄ where
  unfoldable pub persist : Engine F → S → S
  persist e s = st.set_many s (snapshot e)

  -- `refresh_overrides`, which only reads the store
  unfoldable pub refresh_overrides : Engine F → S → Engine F
  refresh_overrides e s =
      let raw = st.get_many s (
        Keys.loss_limit_bypass ∷ Keys.loss_limit_bypass_expires_at ∷ Keys.runtime_max_order_notional
        ∷ Keys.runtime_max_order_quantity ∷ []) in
      record e {
        bypass_loss_limit = decode_bool (raw_get raw Keys.loss_limit_bypass);
        bypass_expires_at = decode_float (raw_get raw Keys.loss_limit_bypass_expires_at);
        runtime_max_order_notional =
            decode_positive_float (raw_get raw Keys.runtime_max_order_notional);
        runtime_max_order_quantity =
            decode_positive_float (raw_get raw Keys.runtime_max_order_quantity);
      }

module _ {F : Type 0} ⦃fl : Float F⦄ ⦃py : Python⦄ where
  -- The engine that `load` rebuilds, before it persists.
  unfoldable pub loaded : Engine F → Dict (Option String) → ℤ → Engine F
  unfolding adopt
  loaded e raw now =
      let day = today e.limits now in
      let counted = record e {
        executions_since_rearm = as_count F (raw_get raw Keys.executions_since_rearm);
      } in
      let adopted =
        if same_day (raw_get raw Keys.trading_day) day then adopt counted raw else counted in
      record adopted { trading_day = day }

module _ {F S : Type 0} ⦃fl : Float F⦄ ⦃py : Python⦄ ⦃st : StateStore S⦄ where
  unfoldable pub load : Engine F → S → ℤ → Engine F × S
  unfolding loaded
  load e s now = let e' = loaded e (st.get_many s Keys.counter_keys) now in (e', persist e' s)

  -- Every recording method ends by `await self.persist()`.
  abbrev pub persisted : Engine F → S → Engine F × S
  persisted e s = (e, persist e s)

  unfoldable pub record_realized_pnl : Engine F → S → F → Bool → ℤ → Engine F × S
  record_realized_pnl e s pnl is_live now = persisted (count_pnl e pnl is_live now) s

  unfoldable pub record_notional : Engine F → S → F → ℤ → Engine F × S
  record_notional e s notional now = persisted (count_notional e notional now) s

  unfoldable pub record_order_rejected : Engine F → S → ℤ → Engine F × S
  record_order_rejected e s now = persisted (count_rejected e now) s

  unfoldable pub record_order_accepted : Engine F → S → ℤ → Engine F × S
  record_order_accepted e s now = persisted (count_accepted e now) s

  unfoldable pub record_execution : Engine F → S → ℤ → Engine F × S
  record_execution e s now = persisted (count_execution e now) s

  unfoldable pub rearm : Engine F → S → ℤ → Engine F × S
  rearm e s now = persisted (clear_throttles e now) s
