-- ===== src/Engine/Session/Accepted.antt =====
-- What an acceptance says of the orders that were sent before.
use mathlib.Core.Path.{subst}
use pretrade_risk_controls.Common.{
  String, ◌≡◌, refl, sym, ◌∙◌, ap, true, false, Option, none, some, is_some, List, [], Bool, ℤ, pos,
  ◌-ℤ◌, ◌<ℤ◌, keep, length,
}
use pretrade_risk_controls.Common.Dict.{Dict, only}
use pretrade_risk_controls.Float.{Float, IsBinary64}
use pretrade_risk_controls.Python.{Python, ok}
use pretrade_risk_controls.Decision.{ControlId, accepted_decision}
use pretrade_risk_controls.Limits.{RiskLimits, is_disabled}
use pretrade_risk_controls.Order.{OrderRequest, fingerprint}
use pretrade_risk_controls.Store.{StateStore}
use pretrade_risk_controls.Windows.Rate.Order
use pretrade_risk_controls.Windows.Rate.History as RateHistory
use pretrade_risk_controls.Windows.Duplicate
use pretrade_risk_controls.Windows.Duplicate.{DuplicateWindow}
use pretrade_risk_controls.Windows.Duplicate.History
use pretrade_risk_controls.Engine.State.{Engine, init, roll_trading_day}
use pretrade_risk_controls.Engine.Sequence.{evaluate, runs, is_armed, decided}
use pretrade_risk_controls.Engine.Sequence.Permits.{Needs}
use pretrade_risk_controls.Engine.Sequence.Total.{IsConsistent}
use pretrade_risk_controls.Engine.Sequence.Decisions.{Allows, evaluate-accepts_iff}
use pretrade_risk_controls.Engine.Session
use pretrade_risk_controls.Engine.Session.Sends.{IsForward, sent_orders, sent_instants, run-Tracks}
use pretrade_risk_controls.Engine.Session.Sends.Windows.{Tracks, KeepsOrders, roll-Tracks}
use pretrade_risk_controls.Engine.Session.Sends.Start.{init-Tracks}
use pretrade_risk_controls.Engine.Session.Cap.Held.{KeepsOrders-is_some, allowed-below}

-- A fingerprint that the window does not show was not sent inside it.
KeepsOrders-apart :
    (span : ℤ) (d : Option DuplicateWindow) (orders : Dict ℤ) (f : String) (now : ℤ)
    → KeepsOrders (some span) d orders now
    → Needs d (λ w. (Duplicate.seen_within_window w f now).1 ≡ false)
    → is_some (only (History.is_inside (now -ℤ span) now) (History.last_sent f orders)) ≡ false
unfolding Duplicate.seen_within_window
KeepsOrders-apart span none orders f now h unseen = elim unseen [ ]
KeepsOrders-apart span (some w) orders f now (wide, (u, h, past)) unseen =
    sym (ap is_some (History.prune-lookup h now past f)) ∙ unseen

module _ {F : Type 0} ⦃fl : Float F⦄ ⦃py : Python⦄ where
  Tracks-IsConsistent :
      (limits : RiskLimits F) (e : Engine F) (instants : List ℤ) (orders : Dict ℤ) (now : ℤ)
      → Tracks limits e instants orders now
      → IsConsistent e
  Tracks-IsConsistent limits e instants orders now (rate, duplicates, same) =
      KeepsOrders-is_some limits.duplicate_window_millis e.duplicate_window orders now duplicates
      ∙ ap (λ l. is_some l.duplicate_window_millis) (sym same)

  duplicate-allowed :
      (limits : RiskLimits F) (exists : String → Option Bool) (e : Engine F) (r : OrderRequest F)
      (instants : List ℤ) (orders : Dict ℤ) (now span : ℤ)
      → Tracks limits e instants orders now
      → limits.duplicate_window_millis ≡ some span
      → is_disabled limits ControlId.duplicate_order ≡ false
      → Allows exists e r now ControlId.duplicate_order
      → is_some
          (only (History.is_inside (now -ℤ span) now) (History.last_sent (fingerprint r) orders))
        ≡ false
  unfolding runs is_armed
  duplicate-allowed limits exists e r instants orders now span tracked watched enabled allows =
      let consistent = Tracks-IsConsistent limits e instants orders now tracked in
      let (rate, duplicates, same) = tracked in
      let configured : is_some e.duplicate_window ≡ true =
        consistent ∙ ap (λ l. is_some l.duplicate_window_millis) same ∙ ap is_some watched in
      let on = ap (λ l. is_disabled l ControlId.duplicate_order) same ∙ enabled in
      KeepsOrders-apart span e.duplicate_window orders (fingerprint r) now
        (subst (λ o. KeepsOrders o e.duplicate_window orders now) watched duplicates)
        (allows (rw (on, configured) refl))

module _ {F S : Type 0} ⦃fl : Float F⦄ ⦃py : Python⦄ ⦃st : StateStore S⦄ where
  -- After any calls in any order, while the clock does not step back, an order that `evaluate`
  -- accepts finds room: fewer than `most` orders were sent inside the trailing window of the order
  -- rate control, and the order's fingerprint was last sent outside the duplicate window, if ever.
  -- Both controls must be configured and not disabled.
  pub accepted-sent :
      (laws : IsBinary64 F) (limits : RiskLimits F) (is_live : Bool) (start now span most : ℤ)
      (e : Engine F) (cs : List (Session.Call F S)) (s : S) (exists : String → Option Bool)
      (r : OrderRequest F)
      → init limits is_live start ≡ ok e
      → IsForward start cs now
      → limits.max_orders_per_window ≡ some most
      → is_disabled limits ControlId.order_rate ≡ false
      → limits.duplicate_window_millis ≡ some span
      → is_disabled limits ControlId.duplicate_order ≡ false
      → (evaluate exists (Session.run cs e s).0 r now).1 ≡ decided accepted_decision
      → let width = limits.order_rate_window_millis in
        (pos (length (keep (Order.is_inside (now -ℤ width) now) (sent_instants cs))) <ℤ most)
        × (is_some (
              only
                (History.is_inside (now -ℤ span) now)
                (History.last_sent (fingerprint r) (sent_orders cs)))
            ≡ false)
  accepted-sent laws limits is_live start now span most e cs s exists r made forward capped on
        watched on' accepted =
      let e' = (Session.run cs e s).0 in
      let fresh = init-Tracks limits is_live start e made in
      let tracked = run-Tracks limits cs e s start now [] [] fresh forward in
      let rolled = roll-Tracks limits e' now now _ _ tracked in
      let consistent = Tracks-IsConsistent limits e' _ _ now tracked in
      let (
        _,
        (_, (_, (_, (_, (_, (_, (_, (_, (_, (_, (_, (_, (_, (duplicate, (rate, _))))))))))))))),
      ) =
        (evaluate-accepts_iff laws exists e' r now consistent).0 accepted in
      let ((_, (u, h, past)), _, same) = rolled in
      let below =
        allowed-below most exists (roll_trading_day e' now) r now
          (ap (λ l. l.max_orders_per_window) same ∙ capped)
          (ap (λ l. is_disabled l ControlId.order_rate) same ∙ on) rate in
      (
        subst (λ es. pos (length es) <ℤ most) (RateHistory.prune-eq-keep h now past) below,
        duplicate-allowed limits exists (roll_trading_day e' now) r _ _ now span rolled watched on'
            duplicate,
      )
