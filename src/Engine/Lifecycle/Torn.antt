-- ===== src/Engine/Lifecycle/Torn.antt =====
-- A crash within `persist` over the sequential batches of store.py, which write key by key.
pub mod Prefix
pub mod Leg
pub mod Either
use mathlib.Core.Path.{subst}
use pretrade_risk_controls.Common.{
  ℕ, zero, suc, [], ◌∷◌, String, str_eq, ◌≡◌, refl, sym, ◌∙◌, ap, true, Option, none, some, ◌⊎◌,
  inl, inr, ℤ, if◌then◌else◌,
}
use pretrade_risk_controls.Common.Dict.{Dict, lookup}
use pretrade_risk_controls.Float.{Float, nought, max, IsBinary64}
use pretrade_risk_controls.Python.{Python}
use pretrade_risk_controls.Encoding.{encode_float}
use pretrade_risk_controls.Encoding.Printf.{IsRoundTrip}
use pretrade_risk_controls.Keys
use pretrade_risk_controls.Store.{raw_get-get_many, StateStore, IsStore, raw_get, has_text, written}
use pretrade_risk_controls.Store.Sequential.{set_many, sequential_store, sequential_store-IsStore}
use pretrade_risk_controls.Engine.State.{Engine, today}
use pretrade_risk_controls.Engine.Lifecycle.{
  as_count, snapshot, persist, adopt, float_or_zero, loaded, load,
}
use pretrade_risk_controls.Engine.Lifecycle.Restart.{IsStorable, loaded-same_day}
use pretrade_risk_controls.Engine.Lifecycle.Restart.Snapshot.{
  IsSnapshot, persist-IsSnapshot, snapshot-IsDict,
}
use pretrade_risk_controls.Engine.Lifecycle.Torn.Prefix.{
  pick, pick-either, pick-stages, first, first-IsDict, index, lookup-first, written-pick,
}
use pretrade_risk_controls.Engine.Lifecycle.Torn.Leg.{IsStep}
use pretrade_risk_controls.Engine.Lifecycle.Torn.Either.{
  SameLeg, amount-either, count-either, leg-either,
}

-- Each counter after `n` of the writes of a snapshot.
abbrev mixed : {F : Type 0} → ℕ → Engine F → Engine F → Engine F
mixed n old new = record old {
  trading_day = pick 0 n old.trading_day new.trading_day;
  live_pnl = pick 1 n old.live_pnl new.live_pnl;
  simulated_pnl = pick 2 n old.simulated_pnl new.simulated_pnl;
  live_peak = pick 3 n old.live_peak new.live_peak;
  simulated_peak = pick 4 n old.simulated_peak new.simulated_peak;
  daily_notional = pick 5 n old.daily_notional new.daily_notional;
  consecutive_rejects = pick 6 n old.consecutive_rejects new.consecutive_rejects;
  executions_since_rearm = pick 7 n old.executions_since_rearm new.executions_since_rearm;
}

module _ {S : Type 0} (get : S → String → Option String) (set : S → String → String → S) where
  -- The backend of a process that ends after so many single writes: its state is the backend's, and
  -- how many are left.
  abbrev get_left : S × ℕ → String → Option String
  get_left (s, left) k = get s k

  abbrev set_left : S × ℕ → String → String → S × ℕ
  set_left (s, zero) k v = (s, zero)
  set_left (s, suc left) k v = (set s k v, left)

  -- The mixin writes in order, so the first `n` entries have arrived.
  set_many-left :
      (entries : Dict String) (s : S) (n : ℕ)
      → (set_many get_left set_left (s, n) entries).0 ≡ set_many get set s (first n entries)
  unfolding set_many first
  set_many-left [] s zero = refl
  set_many-left [] s (suc n) = refl
  set_many-left (entry ∷ entries) s zero = set_many-left entries s zero
  set_many-left ((k, v) ∷ entries) s (suc n) = set_many-left entries (set s k v) n

module _ {F S : Type 0} ⦃fl : Float F⦄ (get : S → String → Option String)
    (set : S → String → String → S) where
  -- The store when the process ends behind `n` of the single writes of `persist`.
  unfoldable pub torn : ℕ → Engine F → S → S
  torn n e s = (persist ⦃st = sequential_store (get_left get set) (set_left get set)⦄ e (s, n)).0

  torn-first :
      (n : ℕ) (e : Engine F) (s : S) → torn n e s ≡ set_many get set s (first n (snapshot e))
  unfolding torn persist
  torn-first n e s = set_many-left get set (snapshot e) s n

  module _
      (get-set : (s : S) (k v j : String)
        → get (set s k v) j ≡ (if str_eq k j then some v else get s j)) where
    torn-text :
        (n : ℕ) (new : Engine F) (s : S) (k : String)
        → has_text k Keys.counter_keys ≡ true
        → raw_get ((sequential_store get set).get_many (torn n new s) Keys.counter_keys) k
          ≡ written
              (pick (index k (snapshot new)) n none (lookup k (snapshot new)))
              (raw_get ((sequential_store get set).get_many s Keys.counter_keys) k)
    torn-text n new s k h =
        let store = sequential_store-IsStore get set get-set in
        raw_get-get_many ⦃st = sequential_store get set⦄ store _ Keys.counter_keys k h
        ∙ ap (λ left. get left k) (torn-first n new s)
        ∙ store.get-set_many s (first n (snapshot new)) k
            (first-IsDict n (snapshot new) (snapshot-IsDict new))
        ∙ ap (λ o. written o (get s k)) (lookup-first k n (snapshot new))
        ∙ ap (written _)
            (sym (raw_get-get_many ⦃st = sequential_store get set⦄ store s Keys.counter_keys k h))

    torn-IsSnapshot :
        (n : ℕ) (old new : Engine F) (s : S)
        → IsSnapshot ((sequential_store get set).get_many s Keys.counter_keys) old
        → IsSnapshot
            ((sequential_store get set).get_many (torn n new s) Keys.counter_keys)
            (mixed n old new)
    unfolding snapshot lookup index
    torn-IsSnapshot n old new s held =
        let count : ℤ → String = λ m. encode_float {F = F} (fl.of_int m) in
        record {
          day-text =
              torn-text n new s Keys.trading_day refl
              ∙ written-pick 0 n (λ d. d) old.trading_day new.trading_day _ held.day-text;
          live_pnl-text =
              torn-text n new s Keys.live_realized_pnl refl
              ∙ written-pick 1 n encode_float old.live_pnl new.live_pnl _ held.live_pnl-text;
          simulated_pnl-text =
              torn-text n new s Keys.simulated_realized_pnl refl
              ∙ written-pick 2 n encode_float old.simulated_pnl new.simulated_pnl _
                  held.simulated_pnl-text;
          live_peak-text =
              torn-text n new s Keys.live_peak_pnl refl
              ∙ written-pick 3 n encode_float old.live_peak new.live_peak _ held.live_peak-text;
          simulated_peak-text =
              torn-text n new s Keys.simulated_peak_pnl refl
              ∙ written-pick 4 n encode_float old.simulated_peak new.simulated_peak _
                  held.simulated_peak-text;
          notional-text =
              torn-text n new s Keys.daily_notional refl
              ∙ written-pick 5 n encode_float old.daily_notional new.daily_notional _
                  held.notional-text;
          rejects-text =
              torn-text n new s Keys.consecutive_rejects refl
              ∙ written-pick 6 n count old.consecutive_rejects new.consecutive_rejects _
                  held.rejects-text;
          executions-text =
              torn-text n new s Keys.executions_since_rearm refl
              ∙ written-pick 7 n count old.executions_since_rearm new.executions_since_rearm _
                  held.executions-text;
        }

module _ {F : Type 0} ⦃fl : Float F⦄ where
  -- Each counter is the one of `old` or the one of `new`, a leg with its profit and its peak
  -- together: the amounts up to the sign of zero, the counts exactly.
  pub record IsOldOrNew (e old new : Engine F) : Type 0 where
    pub live-either :
        SameLeg e.live_pnl e.live_peak old.live_pnl old.live_peak
        ⊎ SameLeg e.live_pnl e.live_peak new.live_pnl new.live_peak
    pub simulated-either :
        SameLeg e.simulated_pnl e.simulated_peak old.simulated_pnl old.simulated_peak
        ⊎ SameLeg e.simulated_pnl e.simulated_peak new.simulated_pnl new.simulated_peak
    pub notional-either :
        (fl.eq e.daily_notional old.daily_notional ≡ true)
        ⊎ (fl.eq e.daily_notional new.daily_notional ≡ true)
    pub rejects-either :
        (e.consecutive_rejects ≡ old.consecutive_rejects)
        ⊎ (e.consecutive_rejects ≡ new.consecutive_rejects)
    pub executions-either :
        (e.executions_since_rearm ≡ old.executions_since_rearm)
        ⊎ (e.executions_since_rearm ≡ new.executions_since_rearm)

module _ {F : Type 0} ⦃fl : Float F⦄ ⦃py : Python⦄ (laws : IsBinary64 F)
    (codec : IsRoundTrip F) where
  adopted-IsOldOrNew :
      (n : ℕ) (old new f : Engine F) (raw : Dict (Option String)) (day : String)
      → IsStorable old
      → IsStorable new
      → IsStep old.live_peak new.live_pnl new.live_peak
      → IsStep old.simulated_peak new.simulated_pnl new.simulated_peak
      → IsSnapshot raw (mixed n old new)
      → IsOldOrNew
          (record (adopt
            (record f {
              executions_since_rearm = as_count F (raw_get raw Keys.executions_since_rearm);
            })
            raw) { trading_day = day })
          old
          new
  unfolding adopt
  adopted-IsOldOrNew n old new f raw day o m live simulated texts = record {
    live-either =
        leg-either laws codec 1 n _ _ old.live_pnl new.live_pnl old.live_peak new.live_peak
          o.live_pnl-is_finite m.live_pnl-is_finite o.live_peak-is_finite m.live_peak-is_finite
          o.live-IsRatchet m.live-IsRatchet live texts.live_pnl-text texts.live_peak-text;
    simulated-either =
        leg-either laws codec 2 n _ _ old.simulated_pnl new.simulated_pnl old.simulated_peak
          new.simulated_peak o.simulated_pnl-is_finite m.simulated_pnl-is_finite
          o.simulated_peak-is_finite m.simulated_peak-is_finite o.simulated-IsRatchet
          m.simulated-IsRatchet simulated texts.simulated_pnl-text texts.simulated_peak-text;
    notional-either =
        amount-either laws codec 5 n _ old.daily_notional new.daily_notional
          o.daily_notional-is_finite m.daily_notional-is_finite texts.notional-text;
    rejects-either =
        count-either laws codec 6 n _ old.consecutive_rejects new.consecutive_rejects
          o.rejects-IsCount m.rejects-IsCount texts.rejects-text;
    executions-either =
        count-either laws codec 7 n _ old.executions_since_rearm new.executions_since_rearm
          o.executions-IsCount m.executions-IsCount texts.executions-text;
  }

module _ {F S : Type 0} ⦃fl : Float F⦄ ⦃py : Python⦄ (get : S → String → Option String)
    (set : S → String → String → S) where
  -- Over a backend with single calls only, one recording method has persisted and the next crashes
  -- behind any number of the single writes of its `persist`. An engine that loads on the same
  -- trading day then has each counter, and each leg with its profit and its peak together, as the
  -- one or as the other left it. The amounts of both must be finite, the counts integers that
  -- binary64 holds exactly, the peaks above the profits, and each peak stays or rises to the profit.
  pub load-torn :
      (get-set : (s : S) (k v j : String)
        → get (set s k v) j ≡ (if str_eq k j then some v else get s j))
      (laws : IsBinary64 F) (codec : IsRoundTrip F) (n : ℕ) (old new f : Engine F) (s : S) (now : ℤ)
      → IsStorable old
      → IsStorable new
      → IsStep old.live_peak new.live_pnl new.live_peak
      → IsStep old.simulated_peak new.simulated_pnl new.simulated_peak
      → old.trading_day ≡ today f.limits now
      → new.trading_day ≡ today f.limits now
      → let store : StateStore S = sequential_store get set in
        IsOldOrNew
          (load ⦃st = store⦄ f (torn get set n new (persist ⦃st = store⦄ old s)) now).0
          old
          new
  unfolding load
  load-torn get-set laws codec n old new f s now storable storable' live simulated current
        current' =
      let store : StateStore S = sequential_store get set in
      let kept = sequential_store-IsStore get set get-set in
      let texts =
        torn-IsSnapshot get set get-set n old new _
          (persist-IsSnapshot ⦃st = sequential_store get set⦄ kept old s) in
      let raw =
        (sequential_store get set).get_many
          (torn get set n new (persist ⦃st = sequential_store get set⦄ old s)) Keys.counter_keys in
      let day : (mixed n old new).trading_day ≡ today f.limits now =
        elim (pick-either 0 n old.trading_day new.trading_day) [
          | inl before ↦ before ∙ current
          | inr behind ↦ behind ∙ current'
        ] in
      subst (λ e. IsOldOrNew e old new)
        (sym
          (loaded-same_day laws codec f raw now (mixed n old new).trading_day texts.day-text day))
        (adopted-IsOldOrNew laws codec n old new f raw _ storable storable' live simulated texts)
