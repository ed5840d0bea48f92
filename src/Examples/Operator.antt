-- ===== src/Examples/Operator.antt =====
-- The operator's functions on an empty in-memory store.
use pretrade_risk_controls.Common.{
  ◌≡◌, ◌↔◌, ◌⊎◌, refl, false, Option, some, ℤ, pos, ◌+ℤ◌, ◌≤ℤ◌, ◌<ℤ◌, ltb_ℤ, arith,
}
use pretrade_risk_controls.Float.Whole.{Whole, whole_float, Whole-IsBinary64, Whole-IsRoundTrip}
use pretrade_risk_controls.Python.{value_error, ok}
use pretrade_risk_controls.Python.Plain.{plain_python, is_space, plain_python-IsStrip}
use pretrade_risk_controls.Store.Memory.{Memory, memory_store, Memory-IsStore}
use pretrade_risk_controls.Engine.Derived.{bypass_active, effective_max_order_notional}
use pretrade_risk_controls.Engine.Lifecycle.{refresh_overrides}
use pretrade_risk_controls.Operator.{
  bypass_loss_limit, bypass_entries, clear_loss_limit_bypass, clear_entries,
  max_bypass_duration_millis, set_runtime_max_order_notional, get_runtime_max_order_notional,
  active_at, read_loss_limit_bypass,
}
use pretrade_risk_controls.Operator.Bypass.{
  active_at-read_loss_limit_bypass, bypass_loss_limit-refresh, IsWhitespace,
  clear_loss_limit_bypass-refresh, bypass_loss_limit-refused_iff,
}
use pretrade_risk_controls.Operator.Caps.{cap_of, or_else, set_runtime_max_order_notional-refresh}
use pretrade_risk_controls.Examples.Data.{engine, empty_store}

-- An hour's bypass at the tenth second.
abbrev bypassed : Memory
bypassed =
    memory_store.set_many empty_store
      (bypass_entries Whole (pos 10000) (pos 3610000) "desk" "feed outage")

bypass_goes_through :
    bypass_loss_limit Whole empty_store (pos 3600000) "desk" "feed outage" (pos 10000)
    ≡ ok (bypassed, pos 3610000)
unfolding bypass_loss_limit ◌+ℤ◌
bypass_goes_through = refl

bypass_loss_limit-refresh_example :
    (pos 1 ≤ℤ pos 3600000)
    × (pos 3600000 ≤ℤ pos max_bypass_duration_millis)
    × (pos 3610000 ≡ pos 10000 +ℤ pos 3600000)
    × ((t : ℤ) → bypass_active (refresh_overrides engine bypassed) t ≡ ltb_ℤ t (pos 3610000))
bypass_loss_limit-refresh_example =
    bypass_loss_limit-refresh Whole-IsBinary64 Whole-IsRoundTrip Memory-IsStore engine empty_store
      (pos 3600000) "desk" "feed outage" (pos 10000) bypassed (pos 3610000) bypass_goes_through
      (omega arith, omega arith)

abbrev cleared : Memory
cleared = memory_store.set_many bypassed (clear_entries Whole (pos 20000) "desk")

clear_goes_through : clear_loss_limit_bypass Whole bypassed "desk" (pos 20000) ≡ ok cleared
unfolding clear_loss_limit_bypass
clear_goes_through = refl

clear_loss_limit_bypass-refresh_example :
    bypass_active (refresh_overrides engine cleared) (pos 20001) ≡ false
clear_loss_limit_bypass-refresh_example =
    clear_loss_limit_bypass-refresh Whole-IsBinary64 Whole-IsRoundTrip Memory-IsStore engine
      bypassed "desk" (pos 20000) cleared clear_goes_through (pos 20001)

bypass_loss_limit-refused_iff_example :
    ((bypass_loss_limit Whole empty_store (pos 90000000) "desk" "  " (pos 10000) ≡ value_error) ↔ (
      (pos 90000000 ≤ℤ pos 0)
      ⊎ (pos 86_400_000 <ℤ pos 90000000)
      ⊎ IsWhitespace is_space "desk"
      ⊎ IsWhitespace is_space "  "))
    × ((clear_loss_limit_bypass Whole empty_store "desk" (pos 10000) ≡ value_error)
        ↔ IsWhitespace is_space "desk")
bypass_loss_limit-refused_iff_example =
    bypass_loss_limit-refused_iff Whole is_space plain_python-IsStrip empty_store (pos 90000000)
      "desk" "  " (pos 10000)

abbrev tight_cap : Option Whole
tight_cap = some (some (pos 800))

set_runtime_max_order_notional-refresh_example :
    (effective_max_order_notional
        (refresh_overrides engine (set_runtime_max_order_notional empty_store tight_cap))
      ≡ or_else (cap_of tight_cap) (some (some (pos 5000))))
    × (get_runtime_max_order_notional (set_runtime_max_order_notional empty_store tight_cap)
        ≡ cap_of tight_cap)
set_runtime_max_order_notional-refresh_example =
    set_runtime_max_order_notional-refresh Whole-IsBinary64 Whole-IsRoundTrip Memory-IsStore engine
      empty_store tight_cap

active_at-read_loss_limit_bypass_example :
    active_at {F = Whole} (read_loss_limit_bypass bypassed) (pos 20000)
    ≡ bypass_active (refresh_overrides engine bypassed) (pos 20000)
active_at-read_loss_limit_bypass_example =
    active_at-read_loss_limit_bypass Whole-IsBinary64 Whole-IsRoundTrip Memory-IsStore engine
      bypassed (pos 20000)
