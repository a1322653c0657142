-- ===== src/Limit/Types.antt =====
-- internal/limit/types.go: the values of the in-process admission control.
-- A time is the number of nanoseconds since Go's zero time, a duration a signed number of them;
-- `int` and `int64` are integers, which the limiter never brings near their bounds.
use codex_gateway.Base.{
  ℕ, ◌+◌, ◌*◌, ◌/◌, ◌%◌, String, Bool, false, ◌||◌, ◌==◌, ltb, leb, if◌then◌else◌, str_eq,
}
use codex_gateway.Base.Int.{ℤ, pos, negsuc, is_negative}

-- ScopeKey, ScopeUser, ScopeGlobal.
pub data Scope : Type 0 where
  key user global : Scope

-- ReasonRPM, ReasonConcurrency, ReasonDailyRequests.
pub data Reason : Type 0 where
  rpm concurrency daily_requests : Reason

pub record Identity : Type 0 where
  pub key_id : String
  pub user_id : String

-- Zero disables a limit.
pub record Limits : Type 0 where
  pub requests_per_minute : ℤ
  pub concurrent : ℤ
  pub requests_per_day : ℤ

-- Whether a DailyStore is given; the store itself is an argument of `acquire`. The clock is the
-- argument `now`.
pub record Config : Type 0 where
  pub key : Limits
  pub user : Limits
  pub global_concurrent : ℤ
  pub window : ℤ
  pub concurrency_retry_after : ℤ
  pub has_daily_store : Bool

pub record LimitError : Type 0 where
  pub scope : Scope
  pub reason : Reason
  pub retry_after : ℤ
  pub limit : ℤ

pub data ConfigError : Type 0 where
  invalid_config daily_store_required : ConfigError

abbrev pub second : ℕ
second = 1_000_000_000

abbrev pub minute : ℕ
minute = 60 * second

-- DefaultWindow, DefaultConcurrencyRetryAfter.
abbrev pub default_window : ℤ
default_window = pos minute

abbrev pub default_concurrency_retry_after : ℤ
default_concurrency_retry_after = pos second

unfoldable pub default_config : Bool → Config
default_config store = record {
  key = record { requests_per_minute = pos 30; concurrent = pos 16; requests_per_day = pos 1000 };
  user = record { requests_per_minute = pos 60; concurrent = pos 16; requests_per_day = pos 2000 };
  global_concurrent = pos 32;
  window = pos 0;
  concurrency_retry_after = pos 0;
  has_daily_store = store;
}

-- Go's `/` and `%` on a positive duration.
unfoldable pub retry_after_seconds : ℤ → ℕ
retry_after_seconds (negsuc n) = 1
retry_after_seconds (pos n) =
    if n == 0
    then 1
    else let seconds = n / second in
      let rounded = if n % second == 0 then seconds else seconds + 1 in
      if ltb rounded 1 then 1 else rounded

unfoldable pub invalid_limits : Limits → Bool
invalid_limits v =
    is_negative v.requests_per_minute || is_negative v.concurrent || is_negative v.requests_per_day

abbrev pub positive : ℤ → Bool
positive (pos n) = ltb 0 n
positive (negsuc n) = false

unfoldable pub has_daily_limits : Limits → Bool
has_daily_limits v = positive v.requests_per_day

-- A limit that is enabled and that the count has reached: `limit > 0 && count >= limit`.
abbrev pub reached : ℤ → ℕ → Bool
reached (pos n) count = if ltb 0 n then leb n count else false
reached (negsuc n) count = false

-- A Go map as a function, and the write of one key.
abbrev pub update {ℓ} : {A : Type ℓ} → (String → A) → String → A → String → A
update f k v j = if str_eq k j then v else f j
