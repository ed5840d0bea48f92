-- ===== src/Engine/Checks/Prices.antt =====
-- Price reasonableness: quote age, price band, execution slippage.
use pretrade_risk_controls.Common.{Option, none, some, ℤ, leb_ℤ, if◌then◌else◌}
use pretrade_risk_controls.Float.{Float, nought}
use pretrade_risk_controls.Python.{Python}
use pretrade_risk_controls.Decision.{RejectCode, reject}
use pretrade_risk_controls.Order.{OrderRequest, is_sell, touch, band_reference_price}
use pretrade_risk_controls.Engine.State.{Engine}
use pretrade_risk_controls.Engine.Messages.{
  quote_age_missing, stale_message, reference_missing, band_message, slippage_message,
}
use pretrade_risk_controls.Engine.Checks.Outcome.{Outcome, satisfied, refused, raises, unpriced}

module _ {F : Type 0} ⦃fl : Float F⦄ where
  -- An armed control whose input is missing.
  abbrev quote_age_refusal : Outcome F
  quote_age_refusal =
      refused (reject RejectCode.market_data_unavailable "quote age" quote_age_missing none none)

  abbrev reference_refusal : Outcome F
  reference_refusal =
      refused (reject RejectCode.market_data_unavailable "price band" reference_missing none none)

  -- The band at a reference price: division by zero raises, and so does an unset band.
  unfoldable pub band_at : F → F → Option F → Outcome F
  band_at price reference limit = if fl.eq reference nought then raises else elim limit [
    | none ↦ raises
    | some band ↦
        let deviation = fl.div (fl.abs (fl.sub price reference)) reference in
        if fl.le deviation band
        then satisfied
        else refused (
            reject RejectCode.price_band_exceeded "price band"
              (band_message price deviation reference band) (some band) (some deviation))
  ]

  unfoldable pub check_price_band : Engine F → OrderRequest F → Outcome F
  unfolding band_at
  check_price_band e r = elim r.limit_price [
    | none ↦ satisfied
    | some price ↦ elim (band_reference_price r) [
      | none ↦ reference_refusal
      | some reference ↦
          if fl.le reference nought
          then reference_refusal
          else band_at price reference e.limits.price_band_fraction
    ]
  ]

  -- The adverse drift: down for a sell, up for a buy.
  abbrev pub drift : OrderRequest F → F → F → F
  drift r decision market =
      if is_sell r.side then fl.sub decision market else fl.sub market decision

  unfoldable pub slippage_at : OrderRequest F → F → F → Option F → Outcome F
  slippage_at r decision market none = raises
  slippage_at r decision market (some most) =
      if fl.le (drift r decision market) most
      then satisfied
      else refused (
          reject RejectCode.execution_slippage_exceeded "execution slippage"
            (slippage_message (drift r decision market) decision most) (some most)
            (some (drift r decision market)))

  unfoldable pub check_execution_slippage : Engine F → OrderRequest F → Outcome F
  unfolding slippage_at unpriced
  check_execution_slippage e r = elim r.decision_price [
    | none ↦ unpriced r "execution slippage"
    | some decision ↦ elim (touch r) [
      | none ↦ unpriced r "execution slippage"
      | some market ↦ slippage_at r decision market e.limits.max_execution_slippage
    ]
  ]

module _ {F : Type 0} ⦃fl : Float F⦄ ⦃py : Python⦄ where
  unfoldable pub age_at : ℤ → Option ℤ → Outcome F
  age_at age none = raises
  age_at age (some max_age) =
      if leb_ℤ age max_age
      then satisfied
      else refused (
          reject RejectCode.market_data_stale "quote age" (stale_message age max_age)
            (some (fl.of_int max_age)) (some (fl.of_int age)))

  unfoldable pub check_quote_age : Engine F → OrderRequest F → Outcome F
  unfolding age_at
  check_quote_age e r = elim r.quote_age_millis [
    | none ↦ quote_age_refusal
    | some age ↦ age_at age e.limits.max_quote_age_millis
  ]
