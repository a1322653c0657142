-- ===== src/Limit/Limiter.antt =====
-- internal/limit/limiter.go: the counters behind the mutex. Each function is one critical section
-- of `Limiter.mu`, from the state before it to the state after it.
use codex_gateway.Base.{
  ℕ, suc, ◌-◌, ◌%◌, String, Bool, true, ◌||◌, ◌&&◌, Option, none, some, ◌==◌, ltb, if◌then◌else◌,
  Result, ok, err,
}
use codex_gateway.Base.Int.{ℤ, pos, negsuc, ◌+ℤ◌, ◌-ℤ◌, is_negative}
use codex_gateway.Limit.Types.{
  Identity, Config, ConfigError, invalid_config, daily_store_required, LimitError, Scope, Reason,
  default_window, default_concurrency_retry_after, invalid_limits, has_daily_limits, positive,
  reached, update,
}

pub record WindowCounter : Type 0 where
  pub start : ℕ
  pub count : ℕ

pub record LocalReservation : Type 0 where
  pub identity : Identity
  pub window : ℕ
  pub key_rpm : Bool
  pub user_rpm : Bool
  pub concurrent : Bool

-- The maps of the source: a key that is missing from a concurrency map reads as 0.
pub record Limiter : Type 0 where
  pub config : Config
  pub key_rpm : String → Option WindowCounter
  pub user_rpm : String → Option WindowCounter
  pub key_concurrent : String → ℕ
  pub user_concurrent : String → ℕ
  pub global_current : ℕ

pub record Snapshot : Type 0 where
  pub key_rpm : ℕ
  pub user_rpm : ℕ
  pub key_concurrent : ℕ
  pub user_concurrent : ℕ
  pub global_concurrent : ℕ
  pub window_ends : ℤ

unfoldable pub validate_config : Config → Option ConfigError
unfolding invalid_limits has_daily_limits
validate_config c =
    if is_negative c.window
      || is_negative c.concurrency_retry_after
      || is_negative c.global_concurrent
      || invalid_limits c.key
      || invalid_limits c.user
    then some invalid_config
    else if has_daily_limits c.key || has_daily_limits c.user
    then if c.has_daily_store then none else some daily_store_required
    else none

abbrev or_default : ℤ → ℤ → ℤ
or_default (pos n) d = if n == 0 then d else pos n
or_default (negsuc n) d = negsuc n

unfoldable pub new : Config → Result ConfigError Limiter
unfolding validate_config
new c = elim (validate_config c) [
  | some e ↦ err e
  | none ↦ ok (record {
    config = record c {
      window = or_default c.window default_window;
      concurrency_retry_after =
          or_default c.concurrency_retry_after default_concurrency_retry_after;
    };
    key_rpm = λ _. none;
    user_rpm = λ _. none;
    key_concurrent = λ _. 0;
    user_concurrent = λ _. 0;
    global_current = 0;
  })
]

-- time.Time.Truncate: down to a multiple of `d` since the zero time; unchanged where d ≤ 0.
abbrev pub truncate : ℕ → ℤ → ℕ
truncate t (pos d) = if d == 0 then t else t - t % d
truncate t (negsuc d) = t

-- The counter of `activeCounter`, which the caller writes back: the source updates it in place.
unfoldable pub active_counter : Option WindowCounter → ℕ → WindowCounter
active_counter none window = record { start = window; count = 0 }
active_counter (some c) window =
    if c.start == window then c else record { start = window; count = 0 }

abbrev pub bump : Bool → WindowCounter → WindowCounter
bump enabled c = if enabled then record c { count = suc c.count } else c

unfoldable pub reserve_local : Limiter → Identity → ℕ → Limiter × Result LimitError LocalReservation
unfolding active_counter
reserve_local l identity now =
    let window = truncate now l.config.window in
    let key_counter = active_counter (l.key_rpm identity.key_id) window in
    let user_counter = active_counter (l.user_rpm identity.user_id) window in
    let touched = record l {
      key_rpm = update l.key_rpm identity.key_id (some key_counter);
      user_rpm = update l.user_rpm identity.user_id (some user_counter);
    } in
    let refuse = λ (scope : Scope) (reason : Reason) (retry limit : ℤ).
      let e : LimitError = record {
        scope = scope;
        reason = reason;
        retry_after = retry;
        limit = limit;
      } in
      e in
    let retry = pos window +ℤ l.config.window -ℤ pos now in
    let hold = l.config.concurrency_retry_after in
    if reached l.config.key.requests_per_minute key_counter.count
    then (touched, err (refuse Scope.key Reason.rpm retry l.config.key.requests_per_minute))
    else if reached l.config.user.requests_per_minute user_counter.count
    then (touched, err (refuse Scope.user Reason.rpm retry l.config.user.requests_per_minute))
    else if reached l.config.key.concurrent (l.key_concurrent identity.key_id)
    then (touched, err (refuse Scope.key Reason.concurrency hold l.config.key.concurrent))
    else if reached l.config.user.concurrent (l.user_concurrent identity.user_id)
    then (touched, err (refuse Scope.user Reason.concurrency hold l.config.user.concurrent))
    else if reached l.config.global_concurrent l.global_current
    then (touched, err (refuse Scope.global Reason.concurrency hold l.config.global_concurrent))
    else (
      record l {
        key_rpm =
            update l.key_rpm identity.key_id
              (some (bump (positive l.config.key.requests_per_minute) key_counter));
        user_rpm =
            update l.user_rpm identity.user_id
              (some (bump (positive l.config.user.requests_per_minute) user_counter));
        key_concurrent =
            update l.key_concurrent identity.key_id (suc (l.key_concurrent identity.key_id));
        user_concurrent =
            update l.user_concurrent identity.user_id (suc (l.user_concurrent identity.user_id));
        global_current = suc l.global_current;
      },
      ok (record {
        identity = identity;
        window = window;
        key_rpm = positive l.config.key.requests_per_minute;
        user_rpm = positive l.config.user.requests_per_minute;
        concurrent = true;
      }),
    )

-- A count above 1 falls by one, any other entry is deleted.
abbrev pub lower : ℕ → ℕ
lower n = if ltb 1 n then n - 1 else 0

unfoldable pub release_concurrent_locked : Limiter → Identity → Limiter
release_concurrent_locked l identity = record l {
  key_concurrent =
      update l.key_concurrent identity.key_id (lower (l.key_concurrent identity.key_id));
  user_concurrent =
      update l.user_concurrent identity.user_id (lower (l.user_concurrent identity.user_id));
  global_current = if ltb 0 l.global_current then l.global_current - 1 else l.global_current;
}

abbrev pub uncount : Bool → ℕ → Option WindowCounter → Option WindowCounter
uncount counted window none = none
uncount counted window (some c) =
    if counted && c.start == window && ltb 0 c.count
    then some (record c { count = c.count - 1 })
    else some c

-- The counts of the request's window, where that window is still the active one.
unfoldable pub uncount_rates : Limiter → LocalReservation → Limiter
uncount_rates l r = record l {
  key_rpm =
      update l.key_rpm r.identity.key_id (uncount r.key_rpm r.window (l.key_rpm r.identity.key_id));
  user_rpm =
      update l.user_rpm r.identity.user_id
        (uncount r.user_rpm r.window (l.user_rpm r.identity.user_id));
}

unfoldable pub rollback_local : Limiter → LocalReservation → Limiter
unfolding release_concurrent_locked uncount_rates
rollback_local l r =
    if r.concurrent
    then release_concurrent_locked (uncount_rates l r) r.identity
    else uncount_rates l r

-- The release function of one admission; `used` is the state of its sync.Once.
pub record Ticket : Type 0 where
  pub identity : Identity
  pub used : Bool

unfoldable pub release : Limiter → Ticket → Limiter × Ticket
unfolding release_concurrent_locked
release l t =
    if t.used then (l, t) else (release_concurrent_locked l t.identity, record t { used = true })

abbrev pub in_window : Option WindowCounter → ℕ → ℕ
in_window none window = 0
in_window (some c) window = if c.start == window then c.count else 0

-- `Limiter.Snapshot`.
unfoldable pub snapshot : Limiter → Identity → ℕ → Snapshot
snapshot l identity now =
    let window = truncate now l.config.window in
    record {
      key_rpm = in_window (l.key_rpm identity.key_id) window;
      user_rpm = in_window (l.user_rpm identity.user_id) window;
      key_concurrent = l.key_concurrent identity.key_id;
      user_concurrent = l.user_concurrent identity.user_id;
      global_concurrent = l.global_current;
      window_ends = pos window +ℤ l.config.window;
    }
