-- ===== src/Engine/Checks/Conduct.antt =====
-- Message conduct. The two window controls prune their window as they look, so they return the
-- engine too.
use pretrade_risk_controls.Common.{Option, none, some, ℤ, ltb_ℤ, if◌then◌else◌}
use pretrade_risk_controls.Float.{Float}
use pretrade_risk_controls.Python.{Python}
use pretrade_risk_controls.Decision.{RejectCode, reject}
use pretrade_risk_controls.Order.{OrderRequest, fingerprint}
use pretrade_risk_controls.Windows.Rate
use pretrade_risk_controls.Windows.Duplicate
use pretrade_risk_controls.Engine.State.{Engine}
use pretrade_risk_controls.Engine.Messages.{
  duplicate_message, rate_message, rejects_message, executions_message,
}
use pretrade_risk_controls.Engine.Checks.Outcome.{Outcome, satisfied, refused, raises}

module _ {F : Type 0} ⦃fl : Float F⦄ ⦃py : Python⦄ where
  unfoldable pub refuse_duplicate : OrderRequest F → Option ℤ → Outcome F
  refuse_duplicate r none = raises
  refuse_duplicate r (some span) = refused (
      reject RejectCode.duplicate_order "duplicate order" (duplicate_message r.symbol span)
        (some (fl.of_int span)) none)

  unfoldable pub check_duplicate : Engine F → OrderRequest F → ℤ → Engine F × Outcome F
  unfolding refuse_duplicate
  check_duplicate e r now = elim e.duplicate_window [
    | none ↦ (e, raises)
    | some w ↦
        let (w', seen) = Duplicate.seen_within_window w (fingerprint r) now in
        (
          record e { duplicate_window = some w' },
          if seen then refuse_duplicate r e.limits.duplicate_window_millis else satisfied,
        )
  ]

  -- `sent < cap`
  unfoldable pub rate_at : ℤ → ℤ → Option ℤ → Outcome F
  rate_at sent span none = raises
  rate_at sent span (some most) =
      if ltb_ℤ sent most
      then satisfied
      else refused (
          reject RejectCode.order_rate_exceeded "order rate" (rate_message sent span most)
            (some (fl.of_int most)) (some (fl.of_int sent)))

  unfoldable pub check_order_rate : Engine F → ℤ → Engine F × Outcome F
  unfolding rate_at
  check_order_rate e now =
      let (w', sent) = Rate.count e.rate_window now in
      (
        record e { rate_window = w' },
        rate_at sent e.limits.order_rate_window_millis e.limits.max_orders_per_window,
      )

  unfoldable pub check_consecutive_rejects : Engine F → Outcome F
  check_consecutive_rejects e = elim e.limits.max_consecutive_rejects [
    | none ↦ raises
    | some most ↦
        if ltb_ℤ e.consecutive_rejects most
        then satisfied
        else refused (
            reject RejectCode.consecutive_reject_limit_exceeded "consecutive rejections"
              (rejects_message e.consecutive_rejects most) (some (fl.of_int most))
              (some (fl.of_int e.consecutive_rejects)))
  ]

  unfoldable pub check_repeated_execution : Engine F → Outcome F
  check_repeated_execution e = elim e.limits.max_executions_without_review [
    | none ↦ raises
    | some most ↦
        if ltb_ℤ e.executions_since_rearm most
        then satisfied
        else refused (
            reject RejectCode.repeated_execution_throttle "repeated execution throttle"
              (executions_message e.executions_since_rearm most) (some (fl.of_int most))
              (some (fl.of_int e.executions_since_rearm)))
  ]
