-- ===== src/Engine/Lifecycle/Torn/Leg.antt =====
-- One leg of a torn snapshot: its profit, and its peak two keys later.
use pretrade_risk_controls.Common.{◌≡◌, true, ◌⊎◌, inl, inr}
use pretrade_risk_controls.Float.{Float, nought, max, IsBinary64}
use pretrade_risk_controls.Float.Order.{eq-le-both, max_of_zero-eq}
use pretrade_risk_controls.Engine.Lifecycle.Restart.{IsRatchet}

module _ {F : Type 0} ⦃fl : Float F⦄ where
  -- From one snapshot to the next a peak stays, or rises to the profit.
  abbrev pub IsStep : F → F → F → Type 0
  IsStep peak pnl' peak' =
      (fl.le peak peak' ≡ true) × ((fl.eq peak' peak ≡ true) ⊎ (fl.eq peak' pnl' ≡ true))

module _ {F : Type 0} ⦃fl : Float F⦄ (laws : IsBinary64 F) where
  -- The new profit is read, and the old peak: the new peak is rebuilt.
  pub rebuilt-step :
      (peak pnl' peak' read_pnl read_peak : F)
      → IsRatchet pnl' peak'
      → IsStep peak pnl' peak'
      → fl.eq read_pnl pnl' ≡ true
      → fl.eq read_peak peak ≡ true
      → fl.eq (max (max nought read_pnl) read_peak) peak' ≡ true
  rebuilt-step peak pnl' peak' read_pnl read_peak (above, below) (rises, reaches) same_pnl
        same_peak =
      let (pnl_le, le_pnl) = eq-le-both laws read_pnl pnl' same_pnl in
      let (peak_le, le_peak) = eq-le-both laws read_peak peak same_peak in
      max_of_zero-eq laws read_pnl read_peak peak' above
        (laws.le_trans read_pnl pnl' peak' pnl_le below)
        (laws.le_trans read_peak peak peak' peak_le rises)
        (elim reaches [
          | inl stays ↦
              inr (laws.le_trans peak' peak read_peak (eq-le-both laws peak' peak stays).0 le_peak)
          | inr rises' ↦
              inl (laws.le_trans peak' pnl' read_pnl (eq-le-both laws peak' pnl' rises').0 le_pnl)
        ])
