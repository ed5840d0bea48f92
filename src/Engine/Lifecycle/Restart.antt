-- ===== src/Engine/Lifecycle/Restart.antt =====
-- A restart within the trading day: `persist`, then `load`.
pub mod Snapshot
use pretrade_risk_controls.Common.{
  String, ◌≡◌, refl, ◌∙◌, sym, ap, true, Option, some, ℤ, pos, ◌≤ℤ◌, ltb_ℤ, arith, Bool-cases, inl,
  inr,
}
use mathlib.Core.Path.{subst}
use text.Mathlib.TextPositions.{eq_refl as str_eq_refl}
use pretrade_risk_controls.Common.Dict.{Dict, lookup, IsDict}
use pretrade_risk_controls.Float.{Float, nought, max, IsExact, IsBinary64}
use pretrade_risk_controls.Float.Order.{eq-le-both, max_of_zero-eq, le-max-right, max-le}
use pretrade_risk_controls.Python.{Python}
use pretrade_risk_controls.Encoding.{encode_float}
use pretrade_risk_controls.Encoding.Printf.{IsRoundTrip}
use pretrade_risk_controls.Encoding.RoundTrip.{decode_float-encode_float}
use pretrade_risk_controls.Keys
use pretrade_risk_controls.Store.{StateStore, IsStore, raw_get, has_text, written}
use pretrade_risk_controls.Engine.Lifecycle.Restart.Snapshot.{IsSnapshot, persist-IsSnapshot}
use pretrade_risk_controls.Engine.State.{Engine, today}
use pretrade_risk_controls.Engine.Lifecycle.{
  as_count, float_or_zero, snapshot, persist, adopt, loaded, load,
}

-- A count that binary64 holds exactly.
abbrev pub IsCount : ℤ → Type 0
IsCount n = (pos 0 ≤ℤ n) × IsExact n

module _ {F : Type 0} ⦃fl : Float F⦄ where
  -- The peak of a leg is neither below zero nor below the profit of the leg.
  abbrev pub IsRatchet : F → F → Type 0
  IsRatchet pnl peak = (fl.le nought peak ≡ true) × (fl.le pnl peak ≡ true)

  -- Counters that the store can hold: finite amounts, counts, and ratchets.
  pub record IsStorable (e : Engine F) : Type 0 where
    pub live_pnl-is_finite : fl.is_finite e.live_pnl ≡ true
    pub simulated_pnl-is_finite : fl.is_finite e.simulated_pnl ≡ true
    pub live_peak-is_finite : fl.is_finite e.live_peak ≡ true
    pub simulated_peak-is_finite : fl.is_finite e.simulated_peak ≡ true
    pub daily_notional-is_finite : fl.is_finite e.daily_notional ≡ true
    pub rejects-IsCount : IsCount e.consecutive_rejects
    pub executions-IsCount : IsCount e.executions_since_rearm
    pub live-IsRatchet : IsRatchet e.live_pnl e.live_peak
    pub simulated-IsRatchet : IsRatchet e.simulated_pnl e.simulated_peak

  -- The same counters, amounts up to the sign of zero.
  pub record SameCounters (e f : Engine F) : Type 0 where
    pub same-trading_day : e.trading_day ≡ f.trading_day
    pub same-live_pnl : fl.eq e.live_pnl f.live_pnl ≡ true
    pub same-simulated_pnl : fl.eq e.simulated_pnl f.simulated_pnl ≡ true
    pub same-live_peak : fl.eq e.live_peak f.live_peak ≡ true
    pub same-simulated_peak : fl.eq e.simulated_peak f.simulated_peak ≡ true
    pub same-daily_notional : fl.eq e.daily_notional f.daily_notional ≡ true
    pub same-consecutive_rejects : e.consecutive_rejects ≡ f.consecutive_rejects
    pub same-executions : e.executions_since_rearm ≡ f.executions_since_rearm

module _ {F : Type 0} ⦃fl : Float F⦄ (laws : IsBinary64 F) (codec : IsRoundTrip F) where
  float_or_zero-encode :
      (x : F) → fl.is_finite x ≡ true → fl.eq (float_or_zero (some (encode_float x))) x ≡ true
  unfolding float_or_zero
  float_or_zero-encode x h =
      let number = laws.is_finite-IsNumber x h in
      let read = decode_float-encode_float codec x h in
      elim (Bool-cases (fl.eq x nought)) [
        | inl zero ↦ ground (arith, read, laws.eq-le x nought, laws.eq-le nought x)
        | inr other ↦ ground (arith, read, laws.eq-le x x)
      ]

  pub read-amount :
      (raw : Option String) (x : F)
      → raw ≡ some (encode_float x)
      → fl.is_finite x ≡ true
      → fl.eq (float_or_zero raw) x ≡ true
  read-amount raw x stored finite =
      subst (λ r. fl.eq (float_or_zero r) x ≡ true) (sym stored) (float_or_zero-encode x finite)

  pub as_count-encode : (n : ℤ) → IsCount n → as_count F (some (encode_float (fl.of_int n))) ≡ n
  unfolding as_count
  as_count-encode n (positive, exact) =
      let read = decode_float-encode_float codec (fl.of_int n) (laws.of_int-is_finite n exact) in
      let bound : fl.lt (fl.of_int n) nought ≡ ltb_ℤ n (pos 0) =
        laws.lt-of_int n (pos 0) exact (omega arith) in
      ground (arith, read, bound, laws.to_int-of_int n exact)

  -- The peak that `load` rebuilds from a profit and a peak that equal the stored ones.
  pub peak-rebuilt :
      (pnl peak pnl' peak' : F)
      → IsRatchet pnl peak
      → fl.eq pnl' pnl ≡ true
      → fl.eq peak' peak ≡ true
      → fl.eq (max (max nought pnl') peak') peak ≡ true
  peak-rebuilt pnl peak pnl' peak' (above_zero, above_pnl) same_pnl same_peak =
      let (pnl_le, _) = eq-le-both laws pnl' pnl same_pnl in
      let (peak_le, le_peak) = eq-le-both laws peak' peak same_peak in
      max_of_zero-eq laws pnl' peak' peak above_zero (laws.le_trans pnl' pnl peak pnl_le above_pnl)
        peak_le (inr le_peak)

module _ {F : Type 0} ⦃fl : Float F⦄ ⦃py : Python⦄ (laws : IsBinary64 F)
    (codec : IsRoundTrip F) where
  pub loaded-same_day :
      (f : Engine F) (raw : Dict (Option String)) (now : ℤ) (day : String)
      → raw_get raw Keys.trading_day ≡ some day
      → day ≡ today f.limits now
      → loaded f raw now
        ≡ record (adopt
            (record f {
              executions_since_rearm = as_count F (raw_get raw Keys.executions_since_rearm);
            })
            raw) { trading_day = day }
  unfolding loaded
  loaded-same_day f raw now day stored current = rw (stored, sym current, str_eq_refl day)

  adopted-SameCounters :
      (e f : Engine F) (raw : Dict (Option String))
      → IsStorable e
      → IsSnapshot raw e
      → SameCounters
          (record (adopt
            (record f {
              executions_since_rearm = as_count F (raw_get raw Keys.executions_since_rearm);
            })
            raw) { trading_day = e.trading_day })
          e
  unfolding adopt
  adopted-SameCounters e f raw storable texts =
      let live =
        read-amount laws codec _ e.live_pnl texts.live_pnl-text storable.live_pnl-is_finite in
      let simulated =
        read-amount laws codec _ e.simulated_pnl texts.simulated_pnl-text
          storable.simulated_pnl-is_finite in
      record {
        same-trading_day = refl;
        same-live_pnl = live;
        same-simulated_pnl = simulated;
        same-live_peak =
            peak-rebuilt laws codec e.live_pnl e.live_peak _ _ storable.live-IsRatchet live (
              read-amount laws codec _ e.live_peak texts.live_peak-text
                storable.live_peak-is_finite);
        same-simulated_peak =
            peak-rebuilt laws codec e.simulated_pnl e.simulated_peak _ _
              storable.simulated-IsRatchet simulated
              (read-amount laws codec _ e.simulated_peak texts.simulated_peak-text
                storable.simulated_peak-is_finite);
        same-daily_notional =
            read-amount laws codec _ e.daily_notional texts.notional-text
              storable.daily_notional-is_finite;
        same-consecutive_rejects =
            ap (as_count F) texts.rejects-text
            ∙ as_count-encode laws codec e.consecutive_rejects storable.rejects-IsCount;
        same-executions =
            ap (as_count F) texts.executions-text
            ∙ as_count-encode laws codec e.executions_since_rearm storable.executions-IsCount;
      }

  -- What `load` makes of a snapshot of its trading day, before it persists.
  pub loaded-SameCounters :
      (e f : Engine F) (raw : Dict (Option String)) (now : ℤ)
      → IsStorable e
      → IsSnapshot raw e
      → e.trading_day ≡ today f.limits now
      → SameCounters (loaded f raw now) e
  loaded-SameCounters e f raw now storable texts current =
      subst (λ g. SameCounters g e)
        (sym (loaded-same_day f raw now e.trading_day texts.day-text current))
        (adopted-SameCounters e f raw storable texts)

module _ {F S : Type 0} ⦃fl : Float F⦄ ⦃py : Python⦄ ⦃st : StateStore S⦄ (laws : IsBinary64 F)
    (codec : IsRoundTrip F) (store : IsStore S) where
  -- An engine over the same limits that loads what a recording engine persisted on the same trading
  -- day has its counters: the amounts up to the sign of zero, the counts exactly. The amounts must
  -- be finite, the counts integers that binary64 holds exactly.
  pub load-persist :
      (e f : Engine F) (s : S) (now : ℤ)
      → IsStorable e
      → e.trading_day ≡ today f.limits now
      → SameCounters (load f (persist e s) now).0 e
  unfolding load
  load-persist e f s now storable current =
      loaded-SameCounters laws codec e f _ now storable (persist-IsSnapshot store e s) current
