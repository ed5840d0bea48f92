-- ===== src/Windows/Duplicate.antt =====
-- `DuplicateWindow`: when each fingerprint was last sent, a `dict` as a list of its items.
pub mod History
pub mod Idempotent
use pretrade_risk_controls.Common.{
  String, Bool, not, ◌||◌, [], ℤ, pos, ◌-ℤ◌, leb_ℤ, ltb_ℤ, keep, is_some,
}
use pretrade_risk_controls.Common.Dict.{Dict, lookup, insert}
use pretrade_risk_controls.Python.{Result, ok, ◌>>◌, raise_if}

pub record DuplicateWindow : Type 0 where
  pub window_millis : ℤ
  pub seen : Dict ℤ

unfoldable pub init : ℤ → Result DuplicateWindow
init span = do raise_if (leb_ℤ span (pos 0)); ok (record { window_millis = span; seen = [] })

-- `seen_at <= cutoff or seen_at > now_millis`
abbrev pub is_expired : ℤ → ℤ → String × ℤ → Bool
is_expired cutoff now entry = leb_ℤ entry.1 cutoff || ltb_ℤ now entry.1

unfoldable pub prune : DuplicateWindow → ℤ → DuplicateWindow
prune w now = record w {
  seen = keep (λ entry. not (is_expired (now -ℤ w.window_millis) now entry)) w.seen;
}

-- `fingerprint in self._seen`, behind the pruning
unfoldable pub seen_within_window : DuplicateWindow → String → ℤ → DuplicateWindow × Bool
seen_within_window w fingerprint now =
    let w' = prune w now in (w', is_some (lookup fingerprint w'.seen))

-- `DuplicateWindow.record`
unfoldable pub record_order : DuplicateWindow → String → ℤ → DuplicateWindow
record_order w fingerprint now =
    let w' = prune w now in record w' { seen = insert fingerprint now w'.seen }

unfoldable pub reset : DuplicateWindow → DuplicateWindow
reset w = record w { seen = [] }
