-- ===== src/Store/Guard/Row/Changes.antt =====
-- What may happen to a row of the quota guard: every statement of internal/store/upstream_quota_guard.go
-- that writes it.
use codex_gateway.Base.{ℕ, Bool, Option, none, some, List, [], ◌∷◌, Text}
use codex_gateway.Base.Int.{ℤ}
use codex_gateway.Store.Guard.{Observation}
use codex_gateway.Store.Guard.Row.{Row, record_observation, set_status, claim_upstream_quota_check}
use codex_gateway.Store.Guard.Row.Settings.{set_guard_settings}

pub data Change : Type 0 where
  reading : (percent : ℕ) → Observation → (automatic : Bool) → (at : ℕ) → Change
  choice : (wanted : Bool) → (at : ℕ) → Change
  settings : (percent : ℤ) → (actor : Text) → (at : ℕ) → Change
  attempt : (at : ℕ) → Change

-- A call that fails leaves the row.
unfoldable pub or_same : Row → Option Row → Row
or_same r none = r
or_same r (some changed) = changed

unfoldable pub change : Change → Row → Row
unfolding or_same
change (reading percent o automatic at) r = record_observation percent o automatic at r
change (choice wanted at) r = set_status wanted at r
change (settings percent actor at) r = or_same r (set_guard_settings percent actor at r)
change (attempt at) r = (claim_upstream_quota_check at r).1

unfoldable pub changes : List Change → Row → Row
unfolding change
changes [] r = r
changes (c ∷ cs) r = changes cs (change c r)
