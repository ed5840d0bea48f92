-- ===== src/Engine/Lifecycle/Restart/Snapshot.antt =====
-- What `load` reads when the store holds a snapshot that `persist` wrote.
use pretrade_risk_controls.Common.{String, ◌≡◌, refl, ◌∙◌, true, Option, some}
use pretrade_risk_controls.Common.Dict.{Dict, lookup, IsDict}
use pretrade_risk_controls.Float.{Float}
use pretrade_risk_controls.Encoding.{encode_float}
use pretrade_risk_controls.Keys
use pretrade_risk_controls.Store.{raw_get-get_many, StateStore, IsStore, raw_get, has_text, written}
use pretrade_risk_controls.Engine.State.{Engine}
use pretrade_risk_controls.Engine.Lifecycle.{snapshot, persist}

module _ {F : Type 0} ⦃fl : Float F⦄ where
  -- What a read of the counters gives is the snapshot of an engine.
  pub record IsSnapshot (raw : Dict (Option String)) (e : Engine F) : Type 0 where
    pub day-text : raw_get raw Keys.trading_day ≡ some e.trading_day
    pub live_pnl-text : raw_get raw Keys.live_realized_pnl ≡ some (encode_float e.live_pnl)
    pub simulated_pnl-text :
        raw_get raw Keys.simulated_realized_pnl ≡ some (encode_float e.simulated_pnl)
    pub live_peak-text : raw_get raw Keys.live_peak_pnl ≡ some (encode_float e.live_peak)
    pub simulated_peak-text :
        raw_get raw Keys.simulated_peak_pnl ≡ some (encode_float e.simulated_peak)
    pub notional-text : raw_get raw Keys.daily_notional ≡ some (encode_float e.daily_notional)
    pub rejects-text :
        raw_get raw Keys.consecutive_rejects
        ≡ some (encode_float {F = F} (fl.of_int e.consecutive_rejects))
    pub executions-text :
        raw_get raw Keys.executions_since_rearm
        ≡ some (encode_float {F = F} (fl.of_int e.executions_since_rearm))

  -- A read that finds the snapshot written over what was there before, key by key.
  pub found-IsSnapshot :
      (raw : Dict (Option String)) (e : Engine F) (old : String → Option String)
      → ((k : String)
          → has_text k Keys.counter_keys ≡ true
          → raw_get raw k ≡ written (lookup k (snapshot e)) (old k))
      → IsSnapshot raw e
  unfolding snapshot lookup
  found-IsSnapshot raw e old found = record {
    day-text = found Keys.trading_day refl;
    live_pnl-text = found Keys.live_realized_pnl refl;
    simulated_pnl-text = found Keys.simulated_realized_pnl refl;
    live_peak-text = found Keys.live_peak_pnl refl;
    simulated_peak-text = found Keys.simulated_peak_pnl refl;
    notional-text = found Keys.daily_notional refl;
    rejects-text = found Keys.consecutive_rejects refl;
    executions-text = found Keys.executions_since_rearm refl;
  }

  pub snapshot-IsDict : (e : Engine F) → IsDict (snapshot e)
  unfolding snapshot lookup
  snapshot-IsDict e = (refl, (refl, (refl, (refl, (refl, (refl, (refl, (refl, tt))))))))

module _ {F S : Type 0} ⦃fl : Float F⦄ ⦃st : StateStore S⦄ (store : IsStore S) where
  -- What `load` reads after `persist`.
  pub persist-IsSnapshot :
      (e : Engine F) (s : S) → IsSnapshot (st.get_many (persist e s) Keys.counter_keys) e
  unfolding persist
  persist-IsSnapshot e s = found-IsSnapshot _ e (st.get s) λ k h.
      raw_get-get_many store (st.set_many s (snapshot e)) Keys.counter_keys k h
      ∙ store.get-set_many s (snapshot e) k (snapshot-IsDict e)
