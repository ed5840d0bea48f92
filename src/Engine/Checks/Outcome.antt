-- ===== src/Engine/Checks/Outcome.antt =====
-- What a check gives back: `None`, a rejection, or an exception, which an unset limit would raise.
use pretrade_risk_controls.Common.{String, none}
use pretrade_risk_controls.Decision.{RiskDecision, RejectCode, reject}
use pretrade_risk_controls.Order.{OrderRequest}
use pretrade_risk_controls.Engine.Messages.{unpriced_message}

pub data Outcome (F : Type 0) : Type 0 where
  satisfied : Outcome F
  refused : RiskDecision F → Outcome F
  raises : Outcome F

module _ {F : Type 0} where
  -- `_unpriced(request, control)`
  unfoldable pub unpriced : OrderRequest F → String → Outcome F
  unpriced r control = refused (
      reject RejectCode.market_data_unavailable control (unpriced_message r.symbol control) none
        none)
