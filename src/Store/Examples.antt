-- ===== src/Store/Examples.antt =====
-- Runs of the funding and of the quota guard, and their theorems at concrete rows.
use codex_gateway.Base.{
  ℕ, ◌+◌, ◌-◌, ◌*◌, ◌≤◌, ◌≡◌, refl, ◌⊎◌, inl, inr, str_eq, codes, true, false, ◌||◌, ◌&&◌, none,
  some, List, [], ◌∷◌, All, ok, if◌then◌else◌,
}
use codex_gateway.Base.Int.{pos}
use codex_gateway.Store.Funding.Types.{
  FundingSource, Period, Lot, GroupPeriod, Funds, Reservation, reserved, settled, Payment,
  subscription_period, cash_lot, group_period,
}
use codex_gateway.Store.Funding.Layers.{find_group_period, group_member_remaining}
use codex_gateway.Store.Funding.Sources.{billing_settlement_sources}
use codex_gateway.Store.Funding.Settle.{
  settle_open, charge_group, pay_sources, debit_account, Settlement, start_payment, legacy_usage,
  find_period, group_amount, pay_group,
}
use codex_gateway.Store.Funding.Settle.Conservation.{
  IsBacked, settle_open-IsPaying, settle_open-IsBacked,
}
use codex_gateway.Store.Funding.Settle.Moves.{total, lots_cash}
use codex_gateway.Store.Funding.Settle.Returns.{settle_open-returns}
use codex_gateway.Store.Guard.{
  minute, min_interval, max_interval, restore_delay, Window, Observation, is_tripped,
  evaluate_upstream_quota_guard,
}
use codex_gateway.Store.Guard.Rule.{trips, evaluate-limited, evaluate-next_check, evaluate-restore}
use codex_gateway.Store.Guard.Row.{
  Row, available, auto, claim_upstream_quota_check, record_observation, set_status,
}
use codex_gateway.Store.Guard.Row.Settings.{set_guard_settings}
use codex_gateway.Store.Guard.Row.Changes.{Change, reading, choice, settings, changes}
use codex_gateway.Store.Guard.Row.Claims.{claims-apart}

abbrev subscription : FundingSource
subscription = record {
  source_type = "subscription";
  subscription_id = "s1";
  period_id = "p1";
  cash_lot_cutoff = 0;
  priority = 10;
  period_days = 30;
  remaining_usd = 30;
}

abbrev cash : FundingSource
cash = record {
  source_type = "cash";
  subscription_id = "";
  period_id = "";
  cash_lot_cutoff = 2;
  priority = 20;
  period_days = 0;
  remaining_usd = 140;
}

abbrev reservation : Reservation
reservation = record {
  user_id = "u";
  state = reserved;
  funding_rule_version = 3;
  group_id = some "g";
  group_period_id = some "gp";
  day_period_id = none;
  week_period_id = none;
  month_period_id = none;
  cash_lot_cutoff = none;
  ordered_funding_sources = subscription ∷ cash ∷ [];
  charged = 0;
  uncovered = 0;
  group_charged = 0;
}

abbrev lot : ℕ → ℕ → Lot
lot id remaining = record { id = id; user_id = "u"; sequence = id; remaining = remaining }

abbrev period : ℕ → Period
period remaining = record {
  id = "p1";
  user_id = "u";
  subscription_id = "s1";
  tier = "month";
  remaining = remaining;
}

abbrev bound_group : GroupPeriod
bound_group = record { id = "gp"; group_id = "g"; limit = 100; used = 90; member_limit = some 6 }

abbrev funds : Funds
funds = record {
  periods = period 30 ∷ [];
  lots = lot 1 40 ∷ lot 2 100 ∷ lot 3 7 ∷ [];
  group_periods = bound_group ∷ [];
  member_used = λ p u. 0;
  balances = λ u. if str_eq u "u" then 147 else 0;
}

abbrev grouped : Payment × Funds
grouped = pay_group "u" bound_group (start_payment 100) funds

charged : charge_group reservation (start_payment 100) funds ≡ ok grouped
unfolding charge_group find_group_period
charged = refl

valid : billing_settlement_sources reservation ≡ ok (subscription ∷ cash ∷ [])
unfolding billing_settlement_sources
valid = refl

backed : IsBacked funds "u"
unfolding IsBacked lots_cash
backed = refl

rows :
    All
      (λ (s : FundingSource).
        (str_eq s.source_type "cash" ≡ true)
        ⊎ ((n : ℕ) × (find_period "u" s funds.periods ≡ some n)))
      (subscription ∷ cash ∷ [])
unfolding find_period
rows = (inr (30, refl), (inl refl, tt))

settle_open-returns_example : (s : Settlement) × (settle_open reservation 100 funds ≡ ok s)
settle_open-returns_example =
    settle_open-returns reservation 100 funds (subscription ∷ cash ∷ []) grouped backed charged
      valid rows

-- The group pays 6, the subscription 30, the first cash lot 40 and the second the last 24.
abbrev paid : Payment
paid = record {
  remaining = 0;
  charged = 100;
  cash_charged = 64;
  order = 4;
  allocations =
      record { order = 1; target = group_period "gp"; amount = 6 }
      ∷ record { order = 2; target = subscription_period "p1"; amount = 30 }
      ∷ record { order = 3; target = cash_lot 1; amount = 40 }
      ∷ record { order = 4; target = cash_lot 2; amount = 24 }
      ∷ [];
}

abbrev settlement : Settlement
settlement = record {
  reservation = record reservation { state = settled; charged = 100; group_charged = 6 };
  payment = paid;
  funds = record {
    periods = period 0 ∷ [];
    lots = lot 1 0 ∷ lot 2 76 ∷ lot 3 7 ∷ [];
    group_periods = record bound_group { used = 96 } ∷ [];
    member_used = λ p u. 0 + (if str_eq p "gp" && str_eq u "u" then 6 else 0);
    balances = λ u. (if str_eq u "u" then 147 else 0) - (if str_eq u "u" then 64 else 0);
  };
}

settles : settle_open reservation 100 funds ≡ ok settlement
unfolding settle_open charge_group billing_settlement_sources pay_sources debit_account legacy_usage
    pay_group group_amount find_group_period find_period group_member_remaining
settles = refl

settle_open-IsPaying_example : (100 + 0 ≡ 100) × (total paid.allocations ≡ 100)
settle_open-IsPaying_example = settle_open-IsPaying reservation 100 funds settlement settles

settle_open-IsBacked_example : IsBacked settlement.funds "u"
settle_open-IsBacked_example =
    settle_open-IsBacked reservation 100 funds settlement "u" backed settles

-- Four percent are left of the first window, forty of the second.
abbrev low : Window
low = record { used_percent = 96; reset_at = some (200 * minute) }

abbrev reading_one : Observation
reading_one = record {
  observed_at = 100 * minute;
  five_hour = some low;
  seven_day = some (record { used_percent = 60; reset_at = some (900 * minute) });
}

abbrev reading_two : Observation
reading_two = record reading_one { five_hour = none }

evaluate-limited_example :
    (evaluate_upstream_quota_guard reading_one none 5 (100 * minute)).limited
    ≡ (trips 5 (100 * minute) (some low) || trips 5 (100 * minute) reading_one.seven_day)
evaluate-limited_example = evaluate-limited reading_one none 5 (100 * minute)

open_two : (evaluate_upstream_quota_guard reading_two none 5 (100 * minute)).limited ≡ false
unfolding evaluate_upstream_quota_guard
open_two = refl

evaluate-next_check_example :
    (100 * minute + min_interval
      ≤ (evaluate_upstream_quota_guard reading_two none 5 (100 * minute)).next_check_at)
    × ((evaluate_upstream_quota_guard reading_two none 5 (100 * minute)).next_check_at
        ≤ 100 * minute + max_interval)
evaluate-next_check_example = evaluate-next_check reading_two none 5 (100 * minute) open_two

low_trips : is_tripped 5 (100 * minute) low ≡ true
unfolding is_tripped
low_trips = refl

evaluate-restore_example :
    (at : ℕ) × ((evaluate_upstream_quota_guard reading_one none 5 (100 * minute)).restore_at
      ≡ some at)
    × (200 * minute + restore_delay ≤ at)
evaluate-restore_example =
    evaluate-restore reading_one none 5 (100 * minute) low (200 * minute) (inl refl) low_trips refl

abbrev row : Row
row = record {
  status = available;
  source = auto;
  limited_window = none;
  reset_at = none;
  restore_at = none;
  changed_at = none;
  observed_at = none;
  five_hour = none;
  seven_day = none;
  auto_checked_at = none;
  next_check_at = none;
}

-- A reading that leaves the account open, an owner's limit that is lifted, and a larger margin.
abbrev between : List Change
between =
    reading 5 reading_two true (100 * minute)
    ∷ choice true (101 * minute)
    ∷ choice false (102 * minute)
    ∷ settings (pos 50) (codes "owner") (103 * minute)
    ∷ []

first_claim : (claim_upstream_quota_check (99 * minute) row).0 ≡ true
unfolding claim_upstream_quota_check
first_claim = refl

second_claim :
    (claim_upstream_quota_check
      (170 * minute)
      (changes between (claim_upstream_quota_check (99 * minute) row).1)).0
    ≡ true
unfolding claim_upstream_quota_check changes record_observation set_status set_guard_settings
    evaluate_upstream_quota_guard
second_claim = refl

claims-apart_example : 99 * minute + min_interval ≤ 170 * minute
claims-apart_example =
    claims-apart (99 * minute) (170 * minute) between row first_claim second_claim
