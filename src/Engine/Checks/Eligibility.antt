-- ===== src/Engine/Checks/Eligibility.antt =====
-- Eligibility and compliance.
use pretrade_risk_controls.Common.{
  Bool, true, false, not, ◌||◌, none, some, List, [], ◌∷◌, ℕ, ◌==◌, if◌then◌else◌,
}
use pretrade_risk_controls.Python.{Python}
use pretrade_risk_controls.Decision.{RejectCode, reject}
use pretrade_risk_controls.Order.{
  OrderRequest, Side, buy, sell, sell_short, SessionState, open_trading, auction, pre_open, closed,
  halted, unknown,
}
use pretrade_risk_controls.Store.{has_text}
use pretrade_risk_controls.Engine.State.{Engine}
use pretrade_risk_controls.Engine.Messages.{
  universe_message, restricted_message, session_message, locate_message,
}
use pretrade_risk_controls.Engine.Checks.Outcome.{Outcome, satisfied, refused, raises}

-- The place of a session state in its enumeration, by which states are compared.
abbrev pub place : SessionState → ℕ
place open_trading = 0
place auction = 1
place pre_open = 2
place closed = 3
place halted = 4
place unknown = 5

-- `state in states`
unfoldable pub has_state : SessionState → List SessionState → Bool
has_state s [] = false
has_state s (t ∷ ts) = place t == place s || has_state s ts

abbrev pub is_sell_short : Side → Bool
is_sell_short buy = false
is_sell_short sell = false
is_sell_short sell_short = true

module _ {F : Type 0} where
  unfoldable pub check_instrument_permitted : Engine F → OrderRequest F → Outcome F
  check_instrument_permitted e r = elim e.limits.permitted_instruments [
    | none ↦ raises
    | some permitted ↦
        if has_text r.symbol permitted
        then satisfied
        else refused (
            reject RejectCode.instrument_not_permitted "instrument universe"
              (universe_message r.symbol) none none)
  ]

  unfoldable pub check_instrument_restricted : Engine F → OrderRequest F → Outcome F
  check_instrument_restricted e r =
      if not (has_text r.symbol e.limits.restricted_instruments)
      then satisfied
      else refused (
          reject RejectCode.instrument_restricted "restricted list" (restricted_message r.symbol)
            none none)

  unfoldable pub check_short_sale_locate : OrderRequest F → Outcome F
  check_short_sale_locate r =
      if not (is_sell_short r.side) || r.locate_secured
      then satisfied
      else refused (
          reject RejectCode.short_sale_locate_missing "short sale locate" (locate_message r.symbol)
            none none)

module _ {F : Type 0} ⦃py : Python⦄ where
  unfoldable pub check_session_state : Engine F → OrderRequest F → Outcome F
  check_session_state e r = elim e.limits.tradeable_session_states [
    | none ↦ raises
    | some tradeable ↦
        if has_state r.session_state tradeable
        then satisfied
        else refused (
            reject RejectCode.market_session_not_open "session state"
              (session_message r.symbol r.session_state tradeable) none none)
  ]
