-- ===== src/Order.antt =====
-- src/pretrade_risk/order.py: the order under evaluation and its context.
pub mod Fingerprint
use pretrade_risk_controls.Common.{
  String, ◌<>◌, Bool, true, false, Option, none, some, ℤ, pos, negsuc, if◌then◌else◌,
}
use pretrade_risk_controls.Float.{Float}
use pretrade_risk_controls.Encoding.{encode_float}

pub data Side : Type 0 where
  buy sell sell_short : Side

abbrev pub is_sell : Side → Bool
is_sell buy = false
is_sell sell = true
is_sell sell_short = true

-- `Side.value`
unfoldable pub side_text : Side → String
side_text buy = "BUY"
side_text sell = "SELL"
side_text sell_short = "SELL_SHORT"

pub data SessionState : Type 0 where
  open_trading auction pre_open closed halted unknown : SessionState

unfoldable pub session_text : SessionState → String
session_text open_trading = "OPEN"
session_text auction = "AUCTION"
session_text pre_open = "PRE_OPEN"
session_text closed = "CLOSED"
session_text halted = "HALTED"
session_text unknown = "UNKNOWN"

pub record OrderRequest (F : Type 0) : Type 0 where
  pub symbol : String
  pub side : Side
  pub quantity : F
  pub limit_price : Option F
  pub decision_price : Option F
  pub best_bid : Option F
  pub best_ask : Option F
  pub reference_price : Option F
  pub quote_age_millis : Option ℤ
  pub session_state : SessionState
  pub open_positions : ℤ
  pub working_orders : ℤ
  pub position_quantity : F
  pub gross_exposure_usd : F
  pub opposing_resting_quantity : F
  pub locate_secured : Bool

module _ {F : Type 0} ⦃fl : Float F⦄ where
  -- `+1.0` for buys, `-1.0` for sells
  abbrev pub signed_multiplier : Side → F
  signed_multiplier s = if is_sell s then fl.of_int (negsuc 0) else fl.of_int (pos 1)

  -- The far touch: the bid for a sell, the ask for a buy.
  abbrev pub touch : OrderRequest F → Option F
  touch r = if is_sell r.side then r.best_bid else r.best_ask

  unfoldable pub valuation_price : OrderRequest F → Option F
  valuation_price r = elim r.limit_price [
    | some price ↦ some price
    | none ↦ elim r.decision_price [ some price ↦ some price | none ↦ touch r ]
  ]

  unfoldable pub notional_usd : OrderRequest F → Option F
  unfolding valuation_price
  notional_usd r = elim (valuation_price r) [
    | none ↦ none
    | some price ↦ some (fl.mul r.quantity price)
  ]

  abbrev mid : Option F → Option F → Option F
  mid (some bid) (some ask) = some (fl.div (fl.add bid ask) (fl.of_int (pos 2)))
  mid _ _ = none

  unfoldable pub band_reference_price : OrderRequest F → Option F
  band_reference_price r = elim r.reference_price [
    | some price ↦ some price
    | none ↦ mid r.best_bid r.best_ask
  ]

  unfoldable pub projected_position : OrderRequest F → F
  projected_position r = fl.add r.position_quantity (fl.mul (signed_multiplier r.side) r.quantity)

  -- The identity of an order for duplicate suppression.
  unfoldable pub fingerprint : OrderRequest F → String
  fingerprint r =
      let price : String = elim r.limit_price [ none ↦ "MKT" | some p ↦ encode_float p ] in
      r.symbol <> "|" <> side_text r.side <> "|" <> encode_float r.quantity <> "|" <> price
