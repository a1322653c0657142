-- ===== src/Store/Guard/Row.antt =====
-- The stored row of the quota guard: `RecordUpstreamQuotaObservation`, `SetUpstreamQuotaGuardStatus`,
-- `ClaimUpstreamQuotaCheck` and what is read of it.
pub mod Settings
pub mod Changes
pub mod Claims
use codex_gateway.Base.{
  ℕ, ◌+◌, ◌-◌, ◌≤◌, ◌<◌, ◌≡◌, refl, sym, ap, ◌∙◌, String, Bool, true, false, not, ◌||◌, ◌&&◌, ltb,
  leb, if◌then◌else◌, Option, none, some, List, [], ◌∷◌, arith, Bool-cases, inl, inr,
}
use codex_gateway.Store.Guard.{
  min_interval, restore_delay, Window, Observation, Decision, evaluate_upstream_quota_guard,
  is_later,
}

pub data Status : Type 0 where
  available limited : Status

pub data Source : Type 0 where
  auto manual : Source

-- `upstreamQuotaGuardRow` without the account's id.
pub record Row : Type 0 where
  pub status : Status
  pub source : Source
  pub limited_window : Option String
  pub reset_at : Option ℕ
  pub restore_at : Option ℕ
  pub changed_at : Option ℕ
  pub observed_at : Option ℕ
  pub five_hour : Option Window
  pub seven_day : Option Window
  pub auto_checked_at : Option ℕ
  pub next_check_at : Option ℕ

-- `limitedAt`.
holds : ℕ → Option ℕ → Bool
holds at none = true
holds at (some restore) = ltb at restore

unfoldable pub limited_at : Row → ℕ → Bool
unfolding holds
limited_at r at = elim r.status [ limited ↦ holds at r.restore_at | available ↦ false ]

-- `snapshot`.
unfoldable pub snapshot : Row → Option Observation
snapshot r = elim r.observed_at [
  | none ↦ none
  | some at ↦ some (record { observed_at = at; five_hour = r.five_hour; seven_day = r.seven_day })
]

-- `NextAutomaticCheck`; the zero time is 0.
or_zero_time : Option ℕ → ℕ
or_zero_time none = 0
or_zero_time (some at) = at

unfoldable pub next_automatic_check : Row → ℕ
unfolding or_zero_time
next_automatic_check r = elim r.auto_checked_at [
  | none ↦ or_zero_time r.next_check_at
  | some checked ↦
      if ltb (or_zero_time r.next_check_at) (checked + min_interval)
      then checked + min_interval
      else or_zero_time r.next_check_at
]

-- A reading of a manual row that an Owner or member asked for: the snapshot alone changes.
store_snapshot : Observation → Row → Row
store_snapshot o r = record {
  status = r.status;
  source = r.source;
  limited_window = r.limited_window;
  reset_at = r.reset_at;
  restore_at = r.restore_at;
  changed_at = r.changed_at;
  observed_at = some o.observed_at;
  five_hour = o.five_hour;
  seven_day = o.seven_day;
  auto_checked_at = r.auto_checked_at;
  next_check_at = r.next_check_at;
}

is_manual : Source → Bool
is_manual manual = true
is_manual auto = false

bool_eq : Bool → Bool → Bool
bool_eq true b = b
bool_eq false b = not b

apply_decision : Observation → ℕ → Decision → Row → Row
unfolding limited_at is_manual bool_eq
apply_decision o at d r = record {
  status = if d.limited then limited else available;
  source = auto;
  limited_window = if d.limited then some d.window else none;
  reset_at = d.reset_at;
  restore_at = d.restore_at;
  changed_at =
      if not (bool_eq (limited_at r at) d.limited) || is_manual r.source
      then some at
      else r.changed_at;
  observed_at = some o.observed_at;
  five_hour = o.five_hour;
  seven_day = o.seven_day;
  auto_checked_at = r.auto_checked_at;
  next_check_at = some d.next_check_at;
}

-- `RecordUpstreamQuotaObservation` on the locked row.
unfoldable pub record_observation : ℕ → Observation → Bool → ℕ → Row → Row
unfolding store_snapshot is_manual apply_decision snapshot
record_observation percent o automatic at r =
    if not automatic && is_manual r.source
    then store_snapshot o r
    else apply_decision o at (evaluate_upstream_quota_guard o (snapshot r) percent at) r

-- `soonestUpstreamQuotaReset`.
sooner : ℕ → String → Option Window → Option (String × ℕ) → Option (String × ℕ)
sooner now name none best = best
sooner now name (some w) best = elim w.reset_at [
  | none ↦ best
  | some reset ↦ if not (ltb now reset) then best else elim best [
    | none ↦ some (name, reset)
    | some b ↦ if ltb reset b.1 then some (name, reset) else some b
  ]
]

unfoldable pub soonest_upstream_quota_reset : Row → ℕ → Option (String × ℕ)
unfolding sooner
soonest_upstream_quota_reset r now =
    sooner now "seven_day" r.seven_day (sooner now "five_hour" r.five_hour none)

-- The columns that `SetUpstreamQuotaGuardStatus` writes.
set_row : Status → Option String → Option ℕ → Option ℕ → Option ℕ → ℕ → Row → Row
set_row status window reset restore next at r = record {
  status = status;
  source = manual;
  limited_window = window;
  reset_at = reset;
  restore_at = restore;
  changed_at = some at;
  observed_at = r.observed_at;
  five_hour = r.five_hour;
  seven_day = r.seven_day;
  auto_checked_at = r.auto_checked_at;
  next_check_at = next;
}

limit_row : ℕ → Option (String × ℕ) → Row → Row
unfolding set_row
limit_row at none r = set_row limited none none none none at r
limit_row at (some (name, reset)) r =
    set_row limited (some name) (some reset) (some (reset + restore_delay))
      (some (reset + restore_delay)) at r

reopen_at : ℕ → Option ℕ → ℕ
reopen_at at none = at
reopen_at at (some checked) = if ltb at (checked + min_interval) then checked + min_interval else at

unfoldable pub set_status : Bool → ℕ → Row → Row
unfolding limited_at bool_eq limit_row reopen_at set_row soonest_upstream_quota_reset
set_status wanted at r =
    if bool_eq (limited_at r at) wanted
    then r
    else if wanted
    then limit_row at (soonest_upstream_quota_reset r at) r
    else set_row available none none none (some (reopen_at at r.auto_checked_at)) at r

-- The guard of the statement of `ClaimUpstreamQuotaCheck`, and its update of a row that is there.
due : ℕ → Option ℕ → Bool
due at none = true
due at (some next) = leb next at

rested : ℕ → Option ℕ → Bool
rested at none = true
rested at (some checked) = leb (checked + min_interval) at

mark_checked : ℕ → Row → Row
mark_checked at r = record {
  status = r.status;
  source = r.source;
  limited_window = r.limited_window;
  reset_at = r.reset_at;
  restore_at = r.restore_at;
  changed_at = r.changed_at;
  observed_at = r.observed_at;
  five_hour = r.five_hour;
  seven_day = r.seven_day;
  auto_checked_at = some at;
  next_check_at = r.next_check_at;
}

unfoldable pub claim_upstream_quota_check : ℕ → Row → Bool × Row
unfolding due rested mark_checked
claim_upstream_quota_check at r =
    if due at r.next_check_at && rested at r.auto_checked_at
    then (true, mark_checked at r)
    else (false, r)
