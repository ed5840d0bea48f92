-- ===== src/Engine/Session/Release.antt =====
-- The throttles once everything that was sent lies outside their windows.
use pretrade_risk_controls.Common.{
  String, ◌≡◌, refl, ◌∙◌, Bool, false, Option, none, some, is_some, List, [], ◌∷◌, ℤ, pos, ◌-ℤ◌,
  -ℤ_parts, ◌≤ℤ◌, keep, All, arith,
}
use pretrade_risk_controls.Common.Keep.{All-map}
use pretrade_risk_controls.Common.Dict.{Dict, only}
use pretrade_risk_controls.Float.{Float}
use pretrade_risk_controls.Python.{Python, ok}
use pretrade_risk_controls.Limits.{RiskLimits}
use pretrade_risk_controls.Order.{OrderRequest, fingerprint}
use pretrade_risk_controls.Store.{StateStore}
use pretrade_risk_controls.Windows.Rate.Order
use pretrade_risk_controls.Windows.Duplicate.History
use pretrade_risk_controls.Windows.Duplicate.History.{last_sent, last_sent-le}
use pretrade_risk_controls.Engine.State.{Engine, init}
use pretrade_risk_controls.Engine.Checks.Conduct.{check_duplicate, check_order_rate, rate_at}
use pretrade_risk_controls.Engine.Checks.Outcome.{satisfied}
use pretrade_risk_controls.Engine.Session
use pretrade_risk_controls.Engine.Session.Sends.{
  IsForward, sent_orders, sent_instants, throttles-run,
}

keep-outside :
    (cutoff now : ℤ) (instants : List ℤ)
    → All (λ t. t ≤ℤ cutoff) instants
    → keep (Order.is_inside cutoff now) instants ≡ []
keep-outside cutoff now [] h = refl
keep-outside cutoff now (t ∷ instants) (h, hs) = ground (arith, keep-outside cutoff now instants hs)

module _ {F S : Type 0} ⦃fl : Float F⦄ where
  instants-past :
      (cutoff : ℤ) (cs : List (Session.Call F S))
      → All (λ e. e.1 ≤ℤ cutoff) (sent_orders cs)
      → All (λ t. t ≤ℤ cutoff) (sent_instants cs)
  unfolding sent_orders sent_instants
  instants-past cutoff [] h = tt
  instants-past cutoff (Session.order_sent r now ∷ cs) (h, hs) = (h, instants-past cutoff cs hs)
  instants-past cutoff (c ∷ cs) h = instants-past cutoff cs h

-- A last sending that lies behind the window is not inside it.
outside-last_sent :
    (cutoff now : ℤ) (f : String) (orders : Dict ℤ)
    → All (λ e. e.1 ≤ℤ cutoff) orders
    → is_some (only (History.is_inside cutoff now) (last_sent f orders)) ≡ false
outside-last_sent cutoff now f orders past =
    last (last_sent f orders) (last_sent-le f cutoff orders past)
  where
    last :
        (o : Option ℤ)
        → ((u : ℤ) → o ≡ some u → u ≤ℤ cutoff)
        → is_some (only (History.is_inside cutoff now) o) ≡ false
    last none h = refl
    last (some u) h = ground (arith, h u refl)

All-earlier :
    (cutoff cutoff' : ℤ) (orders : Dict ℤ)
    → cutoff ≤ℤ cutoff'
    → All (λ e. e.1 ≤ℤ cutoff) orders
    → All (λ e. e.1 ≤ℤ cutoff') orders
All-earlier cutoff cutoff' orders le h = All-map (λ e p. omega arith) orders h

module _ {F S : Type 0} ⦃fl : Float F⦄ ⦃py : Python⦄ ⦃st : StateStore S⦄ where
  -- Neither throttle holds for ever: whatever was sent and asked before, once no order has been sent
  -- for the length of both windows, the order rate control, if its cap allows any order at all, and
  -- the duplicate control let every order pass. The clock must not step back, and both controls must
  -- be configured.
  pub throttles-release :
      (limits : RiskLimits F) (is_live : Bool) (start now wait span most : ℤ) (e : Engine F)
      (cs : List (Session.Call F S)) (s : S) (r : OrderRequest F)
      → init limits is_live start ≡ ok e
      → IsForward start cs now
      → limits.max_orders_per_window ≡ some most
      → pos 1 ≤ℤ most
      → limits.order_rate_window_millis ≤ℤ wait
      → limits.duplicate_window_millis ≡ some span
      → span ≤ℤ wait
      → All (λ e. e.1 ≤ℤ (now -ℤ wait)) (sent_orders cs)
      → let e' = (Session.run cs e s).0 in
        ((check_order_rate e' now).1 ≡ satisfied) × ((check_duplicate e' r now).1 ≡ satisfied)
  unfolding rate_at
  throttles-release limits is_live start now wait span most e cs s r made forward capped some_order
        narrow watched narrow' past =
      let (rate, duplicate) = throttles-run limits is_live start now e cs s r made forward in
      let width = limits.order_rate_window_millis in
      let at : now -ℤ wait ≤ℤ now -ℤ width = omega (arith, -ℤ_parts now wait, -ℤ_parts now width) in
      let at' : now -ℤ wait ≤ℤ now -ℤ span = omega (arith, -ℤ_parts now wait, -ℤ_parts now span) in
      let instants =
        instants-past (now -ℤ width) cs (All-earlier _ (now -ℤ width) (sent_orders cs) at past) in
      let orders = All-earlier _ (now -ℤ span) (sent_orders cs) at' past in
      (
        rate
            ∙ rw (keep-outside (now -ℤ width) now (sent_instants cs) instants, capped)
                (ground arith),
        duplicate
            ∙ rw
                (
                  watched,
                  outside-last_sent (now -ℤ span) now (fingerprint r) (sent_orders cs) orders,
                )
                refl,
      )
