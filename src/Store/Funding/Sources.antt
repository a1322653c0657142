-- ===== src/Store/Funding/Sources.antt =====
-- Ordering and validating the funding sources: internal/store/billing_funding.go.
use codex_gateway.Base.{
  ℕ, String, str_eq, Bool, true, false, not, ◌||◌, ◌&&◌, ltb, ◌==◌, if◌then◌else◌, Option, none,
  some, List, [], ◌∷◌, ◌++◌, Result, ok, err, any,
}
use codex_gateway.Store.Funding.Types.{Error, invalid, conflict, FundingSource, Reservation}

-- The comparison of `sort.SliceStable`; `id_less` is the order of Go's strings.
unfoldable pub source_less : (String → String → Bool) → FundingSource → FundingSource → Bool
source_less id_less a b =
    if not (a.priority == b.priority)
    then ltb a.priority b.priority
    else if not (str_eq a.source_type b.source_type)
    then str_eq a.source_type "subscription"
    else if not (a.period_days == b.period_days)
    then ltb b.period_days a.period_days
    else if not (a.remaining_usd == b.remaining_usd)
    then ltb b.remaining_usd a.remaining_usd
    else id_less a.subscription_id b.subscription_id

-- `sort.SliceStable` by insertion: an element goes before the first that is greater.
unfoldable pub insert :
    (String → String → Bool) → FundingSource → List FundingSource → List FundingSource
insert id_less s [] = s ∷ []
insert id_less s (t ∷ ts) =
    let rest = insert id_less s ts in if source_less id_less t s then t ∷ rest else s ∷ t ∷ ts

unfoldable pub sort : (String → String → Bool) → List FundingSource → List FundingSource
unfolding insert
sort id_less [] = []
sort id_less (s ∷ ss) = insert id_less s (sort id_less ss)

invalid_priority : FundingSource → Bool
invalid_priority s = ltb s.priority 1 || ltb 100 s.priority

-- `sortBillingFundingSources`.
unfoldable pub sort_billing_funding_sources :
    (String → String → Bool) → List FundingSource → Result Error (List FundingSource)
unfolding invalid_priority
sort_billing_funding_sources id_less sources =
    if any invalid_priority sources then err invalid else ok (sort id_less sources)

-- The key of a source that is well formed.
source_key : FundingSource → Option String
source_key s =
    if str_eq s.source_type "subscription"
    then if str_eq s.period_id "" || str_eq s.subscription_id "" || not (s.cash_lot_cutoff == 0)
      then none
      else some s.period_id
    else if str_eq s.source_type "cash"
    then if ltb s.cash_lot_cutoff 1
        || not (str_eq s.period_id "")
        || not (str_eq s.subscription_id "")
      then none
      else some "cash"
    else none

-- The loop over the snapshot, with the keys seen before.
unfoldable pub valid_snapshot : List String → List FundingSource → Bool
unfolding source_key
valid_snapshot seen [] = true
valid_snapshot seen (s ∷ ss) = elim (source_key s) [
  | none ↦ false
  | some key ↦ not (any (λ (k : String). str_eq k key) seen) && valid_snapshot (key ∷ seen) ss
]

tier_source : String → Option String → List FundingSource
tier_source tier none = []
tier_source tier (some id) =
    record {
      source_type = tier;
      subscription_id = "";
      period_id = id;
      cash_lot_cutoff = 0;
      priority = 0;
      period_days = 0;
      remaining_usd = 0;
    }
    ∷ []

cash_source : Option ℕ → List FundingSource
cash_source none = []
cash_source (some cutoff) =
    record {
      source_type = "cash";
      subscription_id = "";
      period_id = "";
      cash_lot_cutoff = cutoff;
      priority = 0;
      period_days = 0;
      remaining_usd = 0;
    }
    ∷ []

-- `billingSettlementSources`.
unfoldable pub billing_settlement_sources : Reservation → Result Error (List FundingSource)
unfolding valid_snapshot tier_source cash_source
billing_settlement_sources r =
    if r.funding_rule_version == 3 || r.funding_rule_version == 4
    then if valid_snapshot [] r.ordered_funding_sources
      then ok r.ordered_funding_sources
      else err conflict
    else if not (r.funding_rule_version == 1) && not (r.funding_rule_version == 2)
    then err conflict
    else ok (
        tier_source "day" r.day_period_id
        ++ tier_source "week" r.week_period_id
        ++ tier_source "month" r.month_period_id
        ++ cash_source r.cash_lot_cutoff)
