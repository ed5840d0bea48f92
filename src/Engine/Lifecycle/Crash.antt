-- ===== src/Engine/Lifecycle/Crash.antt =====
-- A crash within `persist` over the SQLite store, and the restart behind it.
use pretrade_risk_controls.Common.{ℕ, String, ◌≡◌, refl, sym, ◌∙◌, ◌⊎◌, inl, inr, true, Option, ℤ}
use mathlib.Core.Path.{subst}
use pretrade_risk_controls.Common.Dict.{Dict}
use pretrade_risk_controls.Float.{Float, IsBinary64}
use pretrade_risk_controls.Python.{Python}
use pretrade_risk_controls.Encoding.Printf.{IsRoundTrip}
use pretrade_risk_controls.Keys
use pretrade_risk_controls.Database.{Database, IsDatabase}
use pretrade_risk_controls.Store.{raw_get-get_many, StateStore, IsStore, raw_get, has_text}
use pretrade_risk_controls.Store.Sqlite.{sqlite_store}
use pretrade_risk_controls.Store.Sqlite.Contract.{sqlite_store-IsStore, get-committed}
use pretrade_risk_controls.Store.Sqlite.Atomic.{crash_store, spend, set_many-atomic}
use pretrade_risk_controls.Engine.State.{Engine, today}
use pretrade_risk_controls.Engine.Lifecycle.{snapshot, persist, adopt, loaded, load}
use pretrade_risk_controls.Engine.Lifecycle.Restart.{IsStorable, SameCounters, load-persist}
use pretrade_risk_controls.Engine.Lifecycle.Restart.Snapshot.{snapshot-IsDict}

module _ {F : Type 0} ⦃fl : Float F⦄ ⦃py : Python⦄ where
  -- Of what it reads, `load` uses the texts of the counters.
  loaded-cong :
      (f : Engine F) (raw raw' : Dict (Option String)) (now : ℤ)
      → ((k : String) → has_text k Keys.counter_keys ≡ true → raw_get raw k ≡ raw_get raw' k)
      → loaded f raw now ≡ loaded f raw' now
  unfolding loaded adopt
  loaded-cong f raw raw' now same =
      rw
        (
          same Keys.trading_day refl,
          same Keys.live_realized_pnl refl,
          same Keys.simulated_realized_pnl refl,
          same Keys.live_peak_pnl refl,
          same Keys.simulated_peak_pnl refl,
          same Keys.daily_notional refl,
          same Keys.consecutive_rejects refl,
          same Keys.executions_since_rearm refl,
        )
        refl

module _ {F S : Type 0} ⦃fl : Float F⦄ ⦃py : Python⦄ ⦃st : StateStore S⦄ (store : IsStore S) where
  -- Two stores with the same values load alike.
  load-cong :
      (f : Engine F) (s s' : S) (now : ℤ)
      → ((k : String) → st.get s k ≡ st.get s' k)
      → (load f s now).0 ≡ (load f s' now).0
  unfolding load
  load-cong f s s' now same = loaded-cong f _ _ now λ k h.
      raw_get-get_many store s Keys.counter_keys k h
      ∙ same k
      ∙ sym (raw_get-get_many store s' Keys.counter_keys k h)

module _ {F D C : Type 0} ⦃fl : Float F⦄ ⦃py : Python⦄ (db : Database D C)
    (clock : D → String) where
  -- `load` and `persist` over the file
  abbrev pub load_file : Engine F → D → ℤ → Engine F
  load_file f file now = (load ⦃st = sqlite_store db clock⦄ f file now).0

  abbrev pub persist_file : Engine F → D → D
  persist_file e file = persist ⦃st = sqlite_store db clock⦄ e file

  -- The file when the process ends after `n` calls on the database in `persist`; if the next call
  -- is `executemany`, after `m` of its rows.
  abbrev pub crashed : ℕ → ℕ → Engine F → D → D
  crashed n m e file = (persist ⦃st = crash_store db clock m⦄ e (file, n)).0

module _ {F D C : Type 0} ⦃fl : Float F⦄ ⦃py : Python⦄ (db : Database D C)
    (laws : IsDatabase D C db) (clock : D → String) where
  -- An engine that loads after a crash anywhere in `persist` starts as if `persist` had not begun,
  -- or as if it had returned.
  interrupted-load :
      (e f : Engine F) (file : D) (n m : ℕ) (now : ℤ)
      → (load_file db clock f (crashed db clock n m e file) now ≡ load_file db clock f file now)
        ⊎ (load_file db clock f (crashed db clock n m e file) now
            ≡ load_file db clock f (persist_file db clock e file) now)
  unfolding persist spend
  interrupted-load e f file n m now =
      let store = sqlite_store-IsStore db laws clock in
      let once = snapshot-IsDict e in
      let read = get-committed db laws in
      let (left, done) = set_many-atomic db laws n m (clock file) file (snapshot e) once in
      elim left [
        | inl unchanged ↦ inl (
            load-cong ⦃st = sqlite_store db clock⦄ store f _ file now
              λ k. read _ k ∙ unchanged k ∙ sym (read file k))
        | inr updated ↦ inr (
            load-cong ⦃st = sqlite_store db clock⦄ store f _ _ now
              λ k. read _ k ∙ updated k ∙ sym (done k) ∙ sym (read _ k))
      ]

  -- If one recording method has persisted and the next crashes within its `persist`, behind any
  -- of the calls on the database or within `executemany` behind any of its rows, an
  -- engine over the same limits that loads on the same trading day has the counters of the one or
  -- those of the other, all of them: the amounts up to the sign of zero, if the amounts of both are
  -- finite, the counts integers that binary64 holds exactly, and the peaks above the profits.
  pub load-crashed :
      (numbers : IsBinary64 F) (codec : IsRoundTrip F) (old e f : Engine F) (file : D) (n m : ℕ)
      (now : ℤ)
      → IsStorable old
      → IsStorable e
      → old.trading_day ≡ today f.limits now
      → e.trading_day ≡ today f.limits now
      → let restarted =
          load_file db clock f (crashed db clock n m e (persist_file db clock old file)) now in
        SameCounters restarted old ⊎ SameCounters restarted e
  load-crashed numbers codec old e f file n m now storable storable' current current' =
      let store = sqlite_store-IsStore db laws clock in
      let kept : (g : Engine F) (d : D) → _ =
        λ g d. load-persist ⦃st = sqlite_store db clock⦄ numbers codec store g f d now in
      elim (interrupted-load e f (persist_file db clock old file) n m now) [
        | inl before ↦
            inl (subst (λ g. SameCounters g old) (sym before) (kept old file storable current))
        | inr behind ↦
            inr (subst (λ g. SameCounters g e) (sym behind) (kept e _ storable' current'))
      ]
