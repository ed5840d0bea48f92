-- ===== src/Engine/Lifecycle/Reset.antt =====
-- The operator's reset of the loss limit, as an engine that starts afterwards sees it.
use pretrade_risk_controls.Common.{
  String, ◌≡◌, refl, ◌∙◌, ap, Bool, true, false, Option, some, ℤ, pos, arith, Bool-cases, inl, inr,
}
use pretrade_risk_controls.Common.Dict.{Dict, lookup, IsDict}
use pretrade_risk_controls.Float.{Float, nought, max, IsBinary64}
use pretrade_risk_controls.Float.Order.{IsNumber-nought}
use pretrade_risk_controls.Python.{Python, ok}
use pretrade_risk_controls.Encoding.{encode_float}
use pretrade_risk_controls.Encoding.Printf.{IsRoundTrip}
use pretrade_risk_controls.Encoding.RoundTrip.{decode_float-encode_float}
use pretrade_risk_controls.Keys
use pretrade_risk_controls.Limits.{RiskLimits}
use pretrade_risk_controls.Store.{raw_get-get_many, StateStore, IsStore, raw_get, has_text, written}
use pretrade_risk_controls.Engine.State.{Engine, today, init}
use pretrade_risk_controls.Engine.Derived.{breached, floor, leg_pnl, leg_peak}
use pretrade_risk_controls.Operator.{reset_daily_loss_limit, reset_entries}
use pretrade_risk_controls.Engine.Lifecycle.{as_count, float_or_zero, adopt, loaded, load, same_day}

module _ {F : Type 0} ⦃fl : Float F⦄ where
  -- Both legs stand at zero, profit and peak.
  abbrev AtZero : Engine F → Type 0
  AtZero e =
      (e.live_pnl ≡ nought)
      × (e.simulated_pnl ≡ nought)
      × (e.live_peak ≡ nought)
      × (e.simulated_peak ≡ nought)

  max_self : (a : F) → max a a ≡ a
  unfolding max
  max_self a = ground arith

module _ (F : Type 0) ⦃fl : Float F⦄ where
  -- A snapshot whose four amounts are zero.
  record HasZeros (raw : Dict (Option String)) : Type 0 where
    pub live_pnl-text : raw_get raw Keys.live_realized_pnl ≡ some (encode_float {F = F} nought)
    pub simulated_pnl-text :
        raw_get raw Keys.simulated_realized_pnl ≡ some (encode_float {F = F} nought)
    pub live_peak-text : raw_get raw Keys.live_peak_pnl ≡ some (encode_float {F = F} nought)
    pub simulated_peak-text :
        raw_get raw Keys.simulated_peak_pnl ≡ some (encode_float {F = F} nought)

  reset_entries-IsDict : IsDict (reset_entries F)
  unfolding reset_entries lookup
  reset_entries-IsDict = (refl, (refl, (refl, (refl, tt))))

module _ {F : Type 0} ⦃fl : Float F⦄ ⦃py : Python⦄ where
  init-AtZero :
      (limits : RiskLimits F) (is_live : Bool) (start : ℤ) (e : Engine F)
      → init limits is_live start ≡ ok e
      → AtZero e × (e.limits ≡ limits)
  unfolding init
  init-AtZero limits is_live start e h =
      ((ground arith, ground arith, ground arith, ground arith), ground arith)

  loaded-limits :
      (e : Engine F) (raw : Dict (Option String)) (now : ℤ) → (loaded e raw now).limits ≡ e.limits
  unfolding loaded adopt
  loaded-limits e raw now = ground arith

module _ {F : Type 0} ⦃fl : Float F⦄ ⦃py : Python⦄ (laws : IsBinary64 F)
    (codec : IsRoundTrip F) where
  nought-text : float_or_zero {F = F} (some (encode_float {F = F} nought)) ≡ nought
  unfolding float_or_zero
  nought-text =
      ground (
        arith,
        decode_float-encode_float codec nought (laws.of_int-is_finite (pos 0) (omega arith)),
      )

  peak-zero : (p q : F) → p ≡ nought → q ≡ nought → max (max nought p) q ≡ nought
  peak-zero p q hp hq = rw (hp, hq, max_self nought) (max_self nought)

  adopt-AtZero : (e : Engine F) (raw : Dict (Option String)) → HasZeros F raw → AtZero (adopt e raw)
  unfolding adopt
  adopt-AtZero e raw zeros =
      let read : (k : String)
          → raw_get raw k ≡ some (encode_float {F = F} nought)
          → float_or_zero {F = F} (raw_get raw k) ≡ nought =
        λ k stored. ap float_or_zero stored ∙ nought-text in
      let live = read _ zeros.live_pnl-text in
      let simulated = read _ zeros.simulated_pnl-text in
      (
        live,
        simulated,
        peak-zero _ _ live (read _ zeros.live_peak-text),
        peak-zero _ _ simulated (read _ zeros.simulated_peak-text),
      )

  loaded-AtZero :
      (e : Engine F) (raw : Dict (Option String)) (now : ℤ)
      → AtZero e
      → HasZeros F raw
      → AtZero (loaded e raw now)
  unfolding loaded
  loaded-AtZero e raw now start zeros =
      let counted = record e {
        executions_since_rearm = as_count F (raw_get raw Keys.executions_since_rearm);
      } in
      elim (Bool-cases (same_day (raw_get raw Keys.trading_day) (today e.limits now))) [
        | inl current ↦ rw current (adopt-AtZero counted raw zeros)
        | inr stale ↦ rw stale start
      ]

  -- Legs at zero are above the floor.
  AtZero-breached :
      (e : Engine F) (limit : F) (now : ℤ)
      → AtZero e
      → e.limits.daily_loss_limit_usd ≡ some limit
      → fl.lt nought limit ≡ true
      → breached e now ≡ false
  unfolding breached floor leg_pnl leg_peak
  AtZero-breached e limit now (live, simulated, live_peak, simulated_peak) set positive =
      let below = laws.sub_nought_lt limit positive in
      let (number, _) = laws.lt_numbers _ _ below in
      let above : fl.le nought (fl.sub nought limit) ≡ false =
        laws.lt-not-le (fl.sub nought limit) nought number (IsNumber-nought laws) below in
      ground arith

module _ {F S : Type 0} ⦃fl : Float F⦄ ⦃py : Python⦄ ⦃st : StateStore S⦄ (laws : IsBinary64 F)
    (codec : IsRoundTrip F) (store : IsStore S) where
  reset-HasZeros : (s : S) → HasZeros F (st.get_many (reset_daily_loss_limit F s) Keys.counter_keys)
  unfolding reset_daily_loss_limit reset_entries lookup
  reset-HasZeros s =
      let read : (k : String)
          → has_text k Keys.counter_keys ≡ true
          → raw_get (st.get_many (st.set_many s (reset_entries F)) Keys.counter_keys) k
            ≡ written (lookup k (reset_entries F)) (st.get s k) =
        λ k h.
          raw_get-get_many store (st.set_many s (reset_entries F)) Keys.counter_keys k h
          ∙ store.get-set_many s (reset_entries F) k (reset_entries-IsDict F) in
      record {
        live_pnl-text = read Keys.live_realized_pnl refl;
        simulated_pnl-text = read Keys.simulated_realized_pnl refl;
        live_peak-text = read Keys.live_peak_pnl refl;
        simulated_peak-text = read Keys.simulated_peak_pnl refl;
      }

  -- Whatever losses and peaks the store held, an engine that starts and loads after the operator's
  -- reset is not breached, if its loss limit is above zero.
  pub reset_daily_loss_limit-load :
      (limits : RiskLimits F) (is_live : Bool) (start : ℤ) (e : Engine F) (s : S) (now t : ℤ)
      (limit : F)
      → init limits is_live start ≡ ok e
      → limits.daily_loss_limit_usd ≡ some limit
      → fl.lt nought limit ≡ true
      → breached (load e (reset_daily_loss_limit F s) now).0 t ≡ false
  unfolding load
  reset_daily_loss_limit-load limits is_live start e s now t limit made set positive =
      let (start, same) = init-AtZero limits is_live start e made in
      AtZero-breached laws codec _ limit t
        (loaded-AtZero laws codec e _ now start (reset-HasZeros s))
        (ap (λ l. l.daily_loss_limit_usd) (loaded-limits e _ now ∙ same) ∙ set) positive
