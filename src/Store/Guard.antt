-- ===== src/Store/Guard.antt =====
-- internal/store/upstream_quota_guard.go: when an upstream account is kept out of allocation, and
-- when it is looked at again. A time is a number of nanoseconds, and so is a duration; the usage of
-- a window is a percentage, which `validUpstreamQuotaObservation` has bounded by 100.
pub mod Rule
pub mod Row
use codex_gateway.Base.{
  ℕ, ◌+◌, ◌-◌, ◌*◌, ◌/◌, String, str_eq, Bool, true, false, not, ◌||◌, ◌&&◌, ltb, leb,
  if◌then◌else◌, Option, none, some, List, [], ◌∷◌,
}

abbrev pub minute : ℕ
minute = 60_000_000_000

abbrev pub min_interval : ℕ
min_interval = 10 * minute

abbrev pub max_interval : ℕ
max_interval = 60 * minute

abbrev pub restore_delay : ℕ
restore_delay = 5 * minute

abbrev pub unknown_reset_hold : ℕ
unknown_reset_hold = 60 * minute

abbrev pub same_period : ℕ
same_period = 2 * minute

-- `UpstreamQuotaWindow`, `UpstreamQuotaObservation`.
pub record Window : Type 0 where
  pub used_percent : ℕ
  pub reset_at : Option ℕ

pub record Observation : Type 0 where
  pub observed_at : ℕ
  pub five_hour : Option Window
  pub seven_day : Option Window

abbrev valid_window : Option Window → Bool
valid_window none = true
valid_window (some w) = leb w.used_percent 100

unfoldable pub valid_observation : Observation → Bool
valid_observation o = valid_window o.five_hour && valid_window o.seven_day

-- `upstreamQuotaGuardDecision`.
pub record Decision : Type 0 where
  pub limited : Bool
  pub window : String
  pub reset_at : Option ℕ
  pub restore_at : Option ℕ
  pub next_check_at : ℕ

-- The variables of the loop; a margin that is absent is -1 there.
pub record Scan : Type 0 where
  pub limited : Bool
  pub window : String
  pub reset_at : Option ℕ
  pub unknown_reset : Bool
  pub margin : Option ℕ
  pub interval : ℕ

abbrev pub min_ℕ : ℕ → ℕ → ℕ
min_ℕ a b = if ltb b a then b else a

abbrev pub max_ℕ : ℕ → ℕ → ℕ
max_ℕ a b = if ltb a b then b else a

-- The window has no reset time, or one that lies ahead.
unfoldable pub is_current : ℕ → Option ℕ → Bool
is_current now none = true
is_current now (some reset) = ltb now reset

-- A tripped window whose reset time is known is the last to reset so far.
unfoldable pub is_later : ℕ → Option ℕ → Bool
is_later reset none = true
is_later reset (some other) = ltb other reset

trip : String → Option ℕ → Scan → Scan
unfolding is_later
trip name none st = record {
  limited = true;
  window = if str_eq st.window "" then name else st.window;
  reset_at = st.reset_at;
  unknown_reset = true;
  margin = st.margin;
  interval = st.interval;
}
trip name (some reset) st = record {
  limited = true;
  window =
      if is_later reset st.reset_at then name else if str_eq st.window "" then name else st.window;
  reset_at = if is_later reset st.reset_at then some reset else st.reset_at;
  unknown_reset = st.unknown_reset;
  margin = st.margin;
  interval = st.interval;
}

unfoldable pub smaller : ℕ → Option ℕ → ℕ
smaller n none = n
smaller n (some m) = min_ℕ n m

-- Two reset times of the same period.
is_same_period : Option ℕ → Option ℕ → Bool
is_same_period (some a) (some b) = leb (a - b) same_period && leb (b - a) same_period
is_same_period a b = false

-- Half the time until the margin runs out, where usage rose since the previous reading.
predict : ℕ → ℕ → ℕ → Window → Option Observation → Option Window → ℕ
unfolding is_same_period
predict interval margin observed current (some previous) (some prior) =
    if ltb prior.used_percent current.used_percent
      && ltb previous.observed_at observed
      && is_same_period current.reset_at prior.reset_at
    then min_ℕ interval (
        (observed - previous.observed_at)
        * margin
        / (current.used_percent - prior.used_percent)
        / 2)
    else interval
predict interval margin observed current previous prior = interval

-- A window with margin left narrows the margin and the interval.
spare : ℕ → ℕ → Window → Option Observation → Option Window → Scan → Scan
unfolding smaller predict
spare margin observed current previous prior st = record {
  limited = st.limited;
  window = st.window;
  reset_at = st.reset_at;
  unknown_reset = st.unknown_reset;
  margin = some (smaller margin st.margin);
  interval = predict st.interval margin observed current previous prior;
}

-- The window counts, and its remaining share is at most the percentage.
unfoldable pub is_tripped : ℕ → ℕ → Window → Bool
unfolding is_current
is_tripped percent now w = is_current now w.reset_at && leb (100 - w.used_percent) percent

-- One round of the loop over the windows.
scan_window : ℕ → ℕ → ℕ → Option Observation → String → Option Window → Option Window → Scan → Scan
unfolding is_current trip spare
scan_window percent now observed previous name none prior st = st
scan_window percent now observed previous name (some w) prior st =
    if not (is_current now w.reset_at)
    then st
    else if leb (100 - w.used_percent) percent
    then trip name w.reset_at st
    else spare (100 - w.used_percent - percent) observed w previous prior st

unfoldable pub start_scan : Scan
start_scan = record {
  limited = false;
  window = "";
  reset_at = none;
  unknown_reset = false;
  margin = none;
  interval = max_interval;
}

prior_five : Option Observation → Option Window
prior_five none = none
prior_five (some o) = o.five_hour

prior_seven : Option Observation → Option Window
prior_seven none = none
prior_seven (some o) = o.seven_day

unfoldable pub scan : Observation → Option Observation → ℕ → ℕ → Scan
unfolding scan_window start_scan prior_five prior_seven
scan o previous percent now =
    scan_window percent now o.observed_at previous "seven_day" o.seven_day (prior_seven previous) (
      scan_window percent now o.observed_at previous "five_hour" o.five_hour (prior_five previous)
        start_scan)

-- When a limited account returns.
unfoldable pub restore_time : ℕ → Bool → Option ℕ → ℕ
restore_time now unknown_reset none = now + unknown_reset_hold
restore_time now unknown_reset (some reset) =
    if not unknown_reset || ltb (now + unknown_reset_hold) (reset + restore_delay)
    then reset + restore_delay
    else now + unknown_reset_hold

-- The interval by the smallest margin, and its bounds.
by_margin : Option ℕ → ℕ → ℕ
by_margin none interval = min_interval
by_margin (some margin) interval =
    if leb margin 10
    then min_ℕ interval min_interval
    else if leb margin 20
    then min_ℕ interval (15 * minute)
    else if leb margin 35
    then min_ℕ interval (30 * minute)
    else interval

unfoldable pub next_interval : Option ℕ → ℕ → ℕ
unfolding by_margin
next_interval margin interval = max_ℕ min_interval (min_ℕ max_interval (by_margin margin interval))

decide : ℕ → Scan → Decision
unfolding restore_time next_interval
decide now st =
    if st.limited
    then record {
      limited = true;
      window = st.window;
      reset_at = st.reset_at;
      restore_at = some (restore_time now st.unknown_reset st.reset_at);
      next_check_at = restore_time now st.unknown_reset st.reset_at;
    }
    else record {
      limited = false;
      window = st.window;
      reset_at = st.reset_at;
      restore_at = none;
      next_check_at = now + next_interval st.margin st.interval;
    }

-- `evaluateUpstreamQuotaGuard`.
unfoldable pub evaluate_upstream_quota_guard : Observation → Option Observation → ℕ → ℕ → Decision
unfolding scan decide
evaluate_upstream_quota_guard o previous percent now = decide now (scan o previous percent now)
