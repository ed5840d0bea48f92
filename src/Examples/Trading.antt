-- ===== src/Examples/Trading.antt =====
-- Orders that go out through a session, and the throttles on them.
use pretrade_risk_controls.Common.{
  Option, ◌≡◌, refl, true, some, List, ◌∷◌, pos, All, ◌+ℤ◌, ◌-ℤ◌, false, arith, ◌≤ℤ◌, ℤ, [], keep,
  length, String, ◌<ℤ◌, Bool, is_some,
}
use pretrade_risk_controls.Float.Whole.{Whole, whole_float, Whole-IsBinary64}
use pretrade_risk_controls.Python.Plain.{plain_python}
use pretrade_risk_controls.Decision.{ControlId, accepted_decision, has_control}
use pretrade_risk_controls.Engine.State.{roll_trading_day, today}
use pretrade_risk_controls.Common.Dict.{lookup, insert, only}
use pretrade_risk_controls.Encoding.{encode_float}
use pretrade_risk_controls.Float.Whole.Decimal
use pretrade_risk_controls.Clock.{session_date}
use pretrade_risk_controls.Limits.{is_disabled}
use pretrade_risk_controls.Order.{
  notional_usd, fingerprint, side_text, projected_position, OrderRequest,
}
use pretrade_risk_controls.Windows.Rate
use pretrade_risk_controls.Windows.Duplicate
use pretrade_risk_controls.Engine.Derived.{
  breached, bypass_active, floor, leg_pnl, leg_peak, effective_max_order_quantity,
  effective_max_order_notional,
}
use pretrade_risk_controls.Engine.Checks.Stops.{check_kill_switch, check_loss_limit}
use pretrade_risk_controls.Engine.Checks.Eligibility.{
  check_instrument_permitted, check_instrument_restricted, check_session_state,
  check_short_sale_locate, has_state,
}
use pretrade_risk_controls.Engine.Checks.Validation.{
  check_quantity_sign, check_price_sign, check_notional_sign, check_max_quantity,
  check_max_notional,
}
use pretrade_risk_controls.Engine.Checks.Prices.{check_quote_age}
use pretrade_risk_controls.Engine.Checks.Conduct.{
  check_duplicate, check_order_rate, check_consecutive_rejects, check_repeated_execution, rate_at,
}
use pretrade_risk_controls.Engine.Checks.Exposure.{
  check_position_limit, check_self_match, check_gross_exposure, check_daily_notional,
}
use pretrade_risk_controls.Engine.Sequence.{is_armed, look, check, runs, evaluate, decided}
use pretrade_risk_controls.Examples.Data.{order, present, limits, empty_store, engine}
use pretrade_risk_controls.Store.Memory.{Memory, memory_store}
use pretrade_risk_controls.Windows.Rate.Order
use pretrade_risk_controls.Engine.Counters.{record_order_sent}
use pretrade_risk_controls.Engine.Checks.Outcome.{satisfied}
use pretrade_risk_controls.Engine.Session.{
  Call, order_sent, executed, evaluated, loaded_at, store_written, run, call,
}
use pretrade_risk_controls.Engine.Session.Sends.{
  sent_instants, sent_orders, duplicate_answer, throttles-run,
}
use pretrade_risk_controls.Engine.Session.Release.{throttles-release}
use pretrade_risk_controls.Engine.Session.Counts.{HasCounts, run-HasCounts}
use pretrade_risk_controls.Engine.Session.Cap.{IsDisciplined, sent-within_cap}
use pretrade_risk_controls.Examples.Fresh.{fresh, fresh-init}
use pretrade_risk_controls.Windows.Duplicate.History
use pretrade_risk_controls.Engine.Sequence.Repeat.{asked, evaluate-asked}
use pretrade_risk_controls.Engine.Session.Accepted.{accepted-sent}

-- An order, a fill, another writer, and a restart.
abbrev calls : List (Call Whole Memory)
calls =
    evaluated present order (pos 9500)
    ∷ order_sent order (pos 9600)
    ∷ executed (pos 9700)
    ∷ store_written empty_store
    ∷ loaded_at (pos 9800)
    ∷ []

throttles-run_example :
    let sent = keep (Order.is_inside (pos 10000 -ℤ pos 1000) (pos 10000)) (sent_instants calls) in
    ((check_order_rate (run calls fresh empty_store).0 (pos 10000)).1
      ≡ rate_at (pos (length sent)) (pos 1000) (some (pos 2)))
    × ((check_duplicate (run calls fresh empty_store).0 order (pos 10000)).1
        ≡ duplicate_answer order (sent_orders calls) (pos 10000) (some (pos 2000)))
throttles-run_example =
    throttles-run limits true (pos 9000) (pos 10000) fresh calls empty_store order fresh-init
      (omega arith, (omega arith, (omega arith, (omega arith, (omega arith, omega arith)))))

calls-past : All (λ (e : String × ℤ). e.1 ≤ℤ (pos 12000 -ℤ pos 2000)) (sent_orders calls)
unfolding sent_orders ◌-ℤ◌
calls-past = (omega arith, tt)

throttles-release_example :
    ((check_order_rate (run calls fresh empty_store).0 (pos 12000)).1 ≡ satisfied)
    × ((check_duplicate (run calls fresh empty_store).0 order (pos 12000)).1 ≡ satisfied)
throttles-release_example =
    throttles-release limits true (pos 9000) (pos 12000) (pos 2000) (pos 2000) (pos 2) fresh calls
      empty_store order fresh-init
      (omega arith, (omega arith, (omega arith, (omega arith, (omega arith, omega arith))))) refl
      (omega arith) (omega arith) refl (omega arith) calls-past

run-HasCounts_example : HasCounts (run calls fresh empty_store).0
run-HasCounts_example =
    run-HasCounts Whole-IsBinary64 limits true (pos 9000) fresh calls empty_store fresh-init

-- The order goes out as the engine accepts it.
abbrev cleared : List (Call Whole Memory)
cleared = order_sent order (pos 10000) ∷ []

fresh-accepts : (evaluate present fresh order (pos 10000)).1 ≡ decided accepted_decision
unfolding evaluate look runs is_disabled has_control is_armed check roll_trading_day today
    session_date ◌+ℤ◌ Decimal.show_int check_kill_switch check_loss_limit breached bypass_active
    floor leg_pnl leg_peak ◌-ℤ◌ check_instrument_permitted check_instrument_restricted
    check_session_state has_state check_short_sale_locate check_quantity_sign check_price_sign
    check_notional_sign notional_usd check_max_quantity check_max_notional check_quote_age
    check_duplicate check_order_rate check_consecutive_rejects check_repeated_execution
    check_position_limit check_self_match check_gross_exposure check_daily_notional
    effective_max_order_notional effective_max_order_quantity Duplicate.seen_within_window
    Duplicate.prune fingerprint lookup Rate.count Rate.prune Rate.drop_expired Rate.drop_future
    encode_float side_text projected_position
fresh-accepts = refl

cleared-IsDisciplined : IsDisciplined cleared fresh empty_store
cleared-IsDisciplined = ((present, fresh-accepts), tt)

not_disabled : is_disabled limits ControlId.order_rate ≡ false
unfolding is_disabled has_control
not_disabled = refl

sent-within_cap_example :
    pos
      (length (keep (Order.is_inside (pos 10500 -ℤ pos 1000) (pos 10500)) (sent_instants cleared)))
    ≤ℤ pos 2
sent-within_cap_example =
    sent-within_cap Whole-IsBinary64 limits true (pos 9000) (pos 10500) (pos 2) fresh cleared
      empty_store fresh-init refl (omega arith) not_disabled (omega arith, omega arith)
      cleared-IsDisciplined

-- A larger order goes out first.
abbrev larger : OrderRequest Whole
larger = record order { quantity = some (pos 20) }

abbrev first : List (Call Whole Memory)
first = order_sent larger (pos 9500) ∷ []

first-accepts :
    (evaluate present (run first fresh empty_store).0 order (pos 10000)).1
    ≡ decided accepted_decision
unfolding evaluate look runs is_disabled has_control is_armed check roll_trading_day today
    session_date ◌+ℤ◌ Decimal.show_int check_kill_switch check_loss_limit breached bypass_active
    floor leg_pnl leg_peak ◌-ℤ◌ check_instrument_permitted check_instrument_restricted
    check_session_state has_state check_short_sale_locate check_quantity_sign check_price_sign
    check_notional_sign notional_usd check_max_quantity check_max_notional check_quote_age
    check_duplicate check_order_rate check_consecutive_rejects check_repeated_execution
    check_position_limit check_self_match check_gross_exposure check_daily_notional
    effective_max_order_notional effective_max_order_quantity Duplicate.seen_within_window
    Duplicate.prune fingerprint lookup Rate.count Rate.prune Rate.drop_expired Rate.drop_future
    encode_float side_text projected_position run call record_order_sent Rate.record_event
    Duplicate.record_order insert
first-accepts = refl

duplicates_enabled : is_disabled limits ControlId.duplicate_order ≡ false
unfolding is_disabled has_control
duplicates_enabled = refl

accepted-sent_example :
    (pos (length (keep (Order.is_inside (pos 10000 -ℤ pos 1000) (pos 10000)) (sent_instants first)))
      <ℤ pos 2)
    × (is_some (
          only
            (History.is_inside (pos 10000 -ℤ pos 2000) (pos 10000))
            (History.last_sent (fingerprint order) (sent_orders first)))
        ≡ false)
accepted-sent_example =
    accepted-sent Whole-IsBinary64 limits true (pos 9000) (pos 10000) (pos 2000) (pos 2) fresh first
      empty_store present order fresh-init (omega arith, omega arith) refl not_disabled refl
      duplicates_enabled first-accepts

-- Two questions before the order.
abbrev questions : List ((String → Option Bool) × OrderRequest Whole)
questions = (present, larger) ∷ (present, order) ∷ []

evaluate-asked_example :
    (evaluate present (asked questions engine (pos 10000)) order (pos 10000)).1
    ≡ (evaluate present engine order (pos 10000)).1
evaluate-asked_example = evaluate-asked questions present engine order (pos 10000)
