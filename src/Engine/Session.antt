-- ===== src/Engine/Session.antt =====
-- The life of one engine: the calls of its methods in any order, at any instants, with anything the
-- operator or another process does to the store in between.
pub mod Consistency
pub mod Watermark
pub mod Throttle
pub mod Durability
pub mod Sends
pub mod Release
pub mod Counts
pub mod Cap
pub mod Accepted
pub mod Tally
use pretrade_risk_controls.Common.{Option, String, Bool, List, [], ◌∷◌, ℤ}
use pretrade_risk_controls.Float.{Float}
use pretrade_risk_controls.Python.{Python}
use pretrade_risk_controls.Order.{OrderRequest}
use pretrade_risk_controls.Store.{StateStore}
use pretrade_risk_controls.Engine.State.{Engine, roll_trading_day}
use pretrade_risk_controls.Engine.Counters.{record_order_sent}
use pretrade_risk_controls.Engine.Lifecycle
use pretrade_risk_controls.Engine.Sequence.{evaluate}

pub data Call (F S : Type 0) : Type 0 where
  order_sent : OrderRequest F → ℤ → Call F S
  realized_pnl : F → Bool → ℤ → Call F S
  notional_traded : F → ℤ → Call F S
  order_rejected : ℤ → Call F S
  order_accepted : ℤ → Call F S
  executed : ℤ → Call F S
  rearmed : ℤ → Call F S
  loaded_at : ℤ → Call F S
  persisted : Call F S
  overrides_refreshed : Call F S
  -- with what `Path.exists` answers at the time
  evaluated : (String → Option Bool) → OrderRequest F → ℤ → Call F S
  -- one of the readings of the loss limit
  loss_limit_read : ℤ → Call F S
  -- another writer leaves this store
  store_written : S → Call F S

module _ {F S : Type 0} ⦃fl : Float F⦄ ⦃py : Python⦄ ⦃st : StateStore S⦄ where
  unfoldable pub call : Call F S → Engine F → S → Engine F × S
  call (order_sent r now) e s = (record_order_sent e r now, s)
  call (realized_pnl pnl is_live now) e s = Lifecycle.record_realized_pnl e s pnl is_live now
  call (notional_traded notional now) e s = Lifecycle.record_notional e s notional now
  call (order_rejected now) e s = Lifecycle.record_order_rejected e s now
  call (order_accepted now) e s = Lifecycle.record_order_accepted e s now
  call (executed now) e s = Lifecycle.record_execution e s now
  call (rearmed now) e s = Lifecycle.rearm e s now
  call (loaded_at now) e s = Lifecycle.load e s now
  call persisted e s = (e, Lifecycle.persist e s)
  call overrides_refreshed e s = (Lifecycle.refresh_overrides e s, s)
  call (evaluated exists r now) e s = ((evaluate exists e r now).0, s)
  call (loss_limit_read now) e s = (roll_trading_day e now, s)
  call (store_written s') e s = (e, s')

  unfoldable pub run : List (Call F S) → Engine F → S → Engine F × S
  unfolding call
  run [] e s = (e, s)
  run (c ∷ cs) e s = let after = call c e s in run cs after.0 after.1

  -- What every call keeps, every sequence of calls keeps.
  pub run-invariant :
      (P : Engine F → Type 0)
      → ((c : Call F S) (e : Engine F) (s : S) → P e → P (call c e s).0)
      → (cs : List (Call F S)) (e : Engine F) (s : S) → P e
      → P (run cs e s).0
  unfolding run
  run-invariant P keeps [] e s h = h
  run-invariant P keeps (c ∷ cs) e s h =
      run-invariant P keeps cs (call c e s).0 (call c e s).1 (keeps c e s h)
