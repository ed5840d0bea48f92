-- ===== src/Engine/Messages.antt =====
-- The operator's sentence of each rejection. Every number is rendered by the interface of floats or
-- of Python; no theorem depends on the wording.
use pretrade_risk_controls.Common.{String, ◌<>◌, Bool, List, [], ◌∷◌, map, ℤ, if◌then◌else◌}
use pretrade_risk_controls.Float.{Float}
use pretrade_risk_controls.Python.{Python}
use pretrade_risk_controls.Order.{SessionState, session_text}

pub concat : List String → String
concat [] = ""
concat (s ∷ ss) = s <> concat ss

-- `", ".join(texts)`
pub join_comma : List String → String
join_comma [] = ""
join_comma (s ∷ []) = s
join_comma (s ∷ t ∷ ss) = s <> ", " <> join_comma (t ∷ ss)

pub kill_switch_message : String → String
kill_switch_message path = "kill switch engaged at " <> path

pub universe_message : String → String
universe_message symbol = symbol <> " is not in the permitted trading universe"

pub restricted_message : String → String
restricted_message symbol = symbol <> " is on the restricted list"

pub locate_message : String → String
locate_message symbol = concat ("short sale of " ∷ symbol ∷ " carries no secured locate" ∷ [])

pub quote_age_missing : String
quote_age_missing = "the staleness control requires a quote age and none was supplied"

pub reference_missing : String
reference_missing = "no reference price was available to measure the price band against"

pub unpriced_message : String → String → String
unpriced_message symbol control = concat (
    "the " ∷ control ∷ " control needs a price for " ∷ symbol
    ∷ " and none was available (no limit price, decision price or touch)" ∷ [])

module _ ⦃py : Python⦄ where
  pub session_message : String → SessionState → List SessionState → String
  session_message symbol state tradeable = concat (
      symbol
      ∷ " session state is "
      ∷ session_text state
      ∷ "; order entry is permitted only in "
      ∷ join_comma (py.sorted (map session_text tradeable))
      ∷ [])

  pub stale_message : ℤ → ℤ → String
  stale_message age max_age = concat (
      "quotes are "
      ∷ py.format_int age
      ∷ " ms old, over the "
      ∷ py.format_int max_age
      ∷ " ms limit"
      ∷ [])

  pub duplicate_message : String → ℤ → String
  duplicate_message symbol span = concat (
      "an identical order for "
      ∷ symbol
      ∷ " was sent within the last "
      ∷ py.format_int span
      ∷ " ms"
      ∷ [])

  pub rate_message : ℤ → ℤ → ℤ → String
  rate_message sent span most = concat (
      py.format_int sent
      ∷ " orders already sent in the last "
      ∷ py.format_int span
      ∷ " ms, at the "
      ∷ py.format_int most
      ∷ " limit"
      ∷ [])

  pub rejects_message : ℤ → ℤ → String
  rejects_message rejects most = concat (
      py.format_int rejects
      ∷ " consecutive venue rejections, at the "
      ∷ py.format_int most
      ∷ " limit; the strategy must be re-armed"
      ∷ [])

  pub executions_message : ℤ → ℤ → String
  executions_message executions most = concat (
      py.format_int executions
      ∷ " executions since the strategy was last re-armed, at the "
      ∷ py.format_int most
      ∷ " limit; it must be reviewed before trading again"
      ∷ [])

  pub working_message : ℤ → ℤ → String
  working_message working most = concat (
      py.format_int working
      ∷ " orders already working, at the "
      ∷ py.format_int most
      ∷ " limit"
      ∷ [])

  pub positions_message : ℤ → ℤ → String
  positions_message positions most = concat (
      py.format_int positions
      ∷ " positions already open, at the "
      ∷ py.format_int most
      ∷ " limit"
      ∷ [])

module _ {F : Type 0} ⦃fl : Float F⦄ where
  pub loss_limit_message : Bool → F → F → F → F → String
  loss_limit_message is_live pnl level peak limit = concat (
      "daily loss limit: "
      ∷ (if is_live then "live" else "simulated")
      ∷ " realized "
      ∷ fl.format_signed_2f pnl
      ∷ " USD is at or below the trailing floor "
      ∷ fl.format_signed_2f level
      ∷ " (peak "
      ∷ fl.format_signed_2f peak
      ∷ " less "
      ∷ fl.format_2f limit
      ∷ " limit)"
      ∷ [])

  pub quantity_message : F → String
  quantity_message quantity = "order quantity must be positive, got " <> fl.format_g quantity

  pub price_message : F → String
  price_message price = "limit price must be positive, got " <> fl.format_g price

  pub notional_message : F → String
  notional_message notional =
      concat ("order notional must be positive, got " ∷ fl.format_2f notional ∷ " USD" ∷ [])

  pub quantity_cap_message : F → F → String
  quantity_cap_message quantity most =
      concat (
        "order quantity " ∷ fl.format_g quantity ∷ " exceeds the " ∷ fl.format_g most ∷ " cap" ∷ [])

  pub notional_cap_message : F → F → String
  notional_cap_message notional most = concat (
      "order notional "
      ∷ fl.format_2f notional
      ∷ " USD exceeds the "
      ∷ fl.format_2f most
      ∷ " USD cap"
      ∷ [])

  pub band_message : F → F → F → F → String
  band_message price deviation reference band = concat (
      "limit price "
      ∷ fl.format_g price
      ∷ " deviates "
      ∷ fl.format_percent deviation
      ∷ " from the reference "
      ∷ fl.format_g reference
      ∷ ", over the "
      ∷ fl.format_percent band
      ∷ " band"
      ∷ [])

  pub slippage_message : F → F → F → String
  slippage_message drift decision most = concat (
      "the market has moved "
      ∷ fl.format_signed_4g drift
      ∷ " against the "
      ∷ fl.format_g decision
      ∷ " decision price (limit "
      ∷ fl.format_g most
      ∷ "); the opportunity that justified this order no longer exists"
      ∷ [])

  pub position_message : String → F → F → F → String
  position_message symbol current projected most = concat (
      "this order would take "
      ∷ symbol
      ∷ " from "
      ∷ fl.format_g current
      ∷ " to "
      ∷ fl.format_g projected
      ∷ ", outside the "
      ∷ fl.format_g most
      ∷ " position limit"
      ∷ [])

  pub self_match_message : String → F → String
  self_match_message symbol resting = concat (
      fl.format_g resting
      ∷ " of the firm's own quantity rests on the opposite side of "
      ∷ symbol
      ∷ "; this order could trade against it"
      ∷ [])

  pub exposure_message : F → F → F → F → String
  exposure_message projected exposure notional most = concat (
      "gross exposure would reach "
      ∷ fl.format_2f projected
      ∷ " USD ("
      ∷ fl.format_2f exposure
      ∷ " plus "
      ∷ fl.format_2f (fl.abs notional)
      ∷ "), over the "
      ∷ fl.format_2f most
      ∷ " USD limit"
      ∷ [])

  pub daily_notional_message : F → F → F → F → String
  daily_notional_message projected notional_today notional most = concat (
      "today's notional would reach "
      ∷ fl.format_2f projected
      ∷ " USD ("
      ∷ fl.format_2f notional_today
      ∷ " plus "
      ∷ fl.format_2f (fl.abs notional)
      ∷ "), over the "
      ∷ fl.format_2f most
      ∷ " USD limit"
      ∷ [])
