-- ===== src/Store/Funding/Types.antt =====
-- The rows and records that a settlement reads and writes.
use codex_gateway.Base.{ℕ, String, Bool, Option, List}

pub data Error : Type 0 where
  invalid conflict not_found : Error

-- `fundingLayer`.
pub record FundingLayer : Type 0 where
  pub group_id : String
  pub group_period_id : String
  pub all_accounts : Bool
  pub account_ids : List String

-- `BillingFundingSource`.
pub record FundingSource : Type 0 where
  pub source_type : String
  pub subscription_id : String
  pub period_id : String
  pub cash_lot_cutoff : ℕ
  pub priority : ℕ
  pub period_days : ℕ
  pub remaining_usd : ℕ

-- billing_subscription_periods.
pub record Period : Type 0 where
  pub id : String
  pub user_id : String
  pub subscription_id : String
  pub tier : String
  pub remaining : ℕ

-- billing_cash_credit_lots.
pub record Lot : Type 0 where
  pub id : ℕ
  pub user_id : String
  pub sequence : ℕ
  pub remaining : ℕ

-- group_usage_periods.
pub record GroupPeriod : Type 0 where
  pub id : String
  pub group_id : String
  pub limit : ℕ
  pub used : ℕ
  pub member_limit : Option ℕ

-- group_member_usage and billing_accounts by their keys, and the three tables.
pub record Funds : Type 0 where
  pub periods : List Period
  pub lots : List Lot
  pub group_periods : List GroupPeriod
  pub member_used : String → String → ℕ
  pub balances : String → ℕ

pub data State : Type 0 where
  reserved settled released : State

-- The part of `BillingReservation` that funding is about.
pub record Reservation : Type 0 where
  pub user_id : String
  pub state : State
  pub funding_rule_version : ℕ
  pub group_id : Option String
  pub group_period_id : Option String
  pub day_period_id : Option String
  pub week_period_id : Option String
  pub month_period_id : Option String
  pub cash_lot_cutoff : Option ℕ
  pub ordered_funding_sources : List FundingSource
  pub charged : ℕ
  pub uncovered : ℕ
  pub group_charged : ℕ

-- billing_charge_allocations.
pub data Target : Type 0 where
  group_period subscription_period : String → Target
  cash_lot : ℕ → Target

pub record Allocation : Type 0 where
  pub order : ℕ
  pub target : Target
  pub amount : ℕ

-- The variables `remaining`, `charged`, `cashCharged`, `allocationOrder` and what was inserted.
pub record Payment : Type 0 where
  pub remaining : ℕ
  pub charged : ℕ
  pub cash_charged : ℕ
  pub order : ℕ
  pub allocations : List Allocation
