-- ===== src/Store/Quota/Rows.antt =====
-- The rows and parameters of the quota transactions.
use codex_gateway.Base.{ℕ, String, Option, List}

pub data Error : Type 0 where
  conflict not_found affected invalid : Error
  exceeded : (scope dimension : String) → (limit current retry_after : ℕ) → Error

-- `QuotaLimits`.
pub record Limits : Type 0 where
  pub key_rpm : ℕ
  pub user_rpm : ℕ
  pub key_concurrent : ℕ
  pub user_concurrent : ℕ
  pub global_concurrent : ℕ
  pub key_daily : ℕ
  pub user_daily : ℕ

pub data State : Type 0 where
  reserved settled released : State

-- quota_reservations.
pub record Reservation : Type 0 where
  pub request_id : String
  pub day : String
  pub user_id : String
  pub api_key_id : String
  pub reserved_tokens : ℕ
  pub state : State
  pub actual_tokens : Option ℕ

-- concurrency_leases.
pub record Lease : Type 0 where
  pub request_id : String
  pub user_id : String
  pub api_key_id : String
  pub expires : ℕ

-- quota_counters.
pub record Counter : Type 0 where
  pub requests_reserved : ℕ
  pub requests_completed : ℕ
  pub tokens_reserved : ℕ
  pub tokens_used : ℕ

-- The tables. Counters go by day and id, rate windows by their start and id; a row that is not there
-- counts nothing.
pub record Tables : Type 0 where
  pub key_counters : String → String → Counter
  pub user_counters : String → String → Counter
  pub key_rates : ℕ → String → ℕ
  pub user_rates : ℕ → String → ℕ
  pub leases : List Lease
  pub reservations : List Reservation

-- `ReserveQuotaParams`, normalized.
pub record Params : Type 0 where
  pub request_id : String
  pub day : String
  pub user_id : String
  pub api_key_id : String
  pub reserved_tokens : ℕ
  pub now : ℕ
  pub lease_ttl : ℕ
  pub limits : Limits
