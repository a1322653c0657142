-- ===== src/Store/Guard/Row/Settings.antt =====
-- `SetUpstreamQuotaGuardSettings` on one of the stored rows of the quota guard.
use codex_gateway.Base.{ℕ, not, ◌||◌, ltb, if◌then◌else◌, Option, none, some, [], Text}
use codex_gateway.Base.Int.{ℤ, pos, negsuc}
use codex_gateway.Billing.Decimal.{text_eq, trim_space}
use codex_gateway.Store.Guard.{Observation, Decision, evaluate_upstream_quota_guard}
use codex_gateway.Store.Guard.Row.{
  Row, available, limited, limited_at, snapshot, is_manual, bool_eq,
}

-- MaxUpstreamQuotaGuardPercent.
abbrev pub max_percent : ℕ
max_percent = 50

-- The columns that the round of one row writes.
unfoldable pub apply_settings : ℕ → Decision → Row → Row
unfolding limited_at bool_eq
apply_settings at d r = record {
  status = if d.limited then limited else available;
  source = r.source;
  limited_window = if d.limited then some d.window else none;
  reset_at = d.reset_at;
  restore_at = d.restore_at;
  changed_at = if not (bool_eq (limited_at r at) d.limited) then some at else r.changed_at;
  observed_at = r.observed_at;
  five_hour = r.five_hour;
  seven_day = r.seven_day;
  auto_checked_at = r.auto_checked_at;
  next_check_at = if d.limited then some d.next_check_at else none;
}

unfoldable pub apply_snapshot : ℕ → ℕ → Option Observation → Row → Row
unfolding apply_settings
apply_snapshot percent at none r = r
apply_snapshot percent at (some o) r =
    apply_settings at (evaluate_upstream_quota_guard o none percent at) r

-- The automatic rows that have a reading: WHERE source = 'auto' AND observed_at IS NOT NULL.
unfoldable pub reapply : ℕ → ℕ → Row → Row
unfolding is_manual apply_snapshot snapshot
reapply percent at r = if is_manual r.source then r else apply_snapshot percent at (snapshot r) r

-- `none` for ErrInvalid, which leaves every row.
unfoldable pub set_guard_settings : ℤ → Text → ℕ → Row → Option Row
unfolding trim_space text_eq reapply
set_guard_settings (negsuc n) actor at r = none
set_guard_settings (pos percent) actor at r =
    if ltb max_percent percent || text_eq (trim_space actor) []
    then none
    else some (reapply percent at r)
