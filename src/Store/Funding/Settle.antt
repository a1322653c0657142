-- ===== src/Store/Funding/Settle.antt =====
-- The funding part of `settleBillingTx`: the group pays first, then the sources in order, each at
-- most what it has left and what is still to pay.
pub mod Moves
pub mod Conservation
pub mod Returns
use codex_gateway.Base.{
  ℕ, suc, ◌+◌, ◌-◌, ◌<◌, String, str_eq, Bool, true, false, not, ◌||◌, ◌&&◌, ltb, leb, ◌==◌,
  if◌then◌else◌, Option, none, some, List, [], ◌∷◌, ◌++◌, Result, ok, err, ◌>>=◌, ◌>>◌, guard,
  or_fail,
}
use codex_gateway.Store.Funding.Types.{
  Error, conflict, not_found, FundingLayer, FundingSource, Period, Lot, GroupPeriod, Funds, State,
  reserved, settled, released, Reservation, Target, group_period, subscription_period, cash_lot,
  Allocation, Payment,
}
use codex_gateway.Store.Funding.Layers.{
  Candidates, settlement_layer_candidates, bind_settlement_layer, find_group_period,
  group_member_remaining,
}
use codex_gateway.Store.Funding.Sources.{billing_settlement_sources}

-- `billingMin` and `billingPositive`. `billingSubtract` is only taken of the minimum of two amounts
-- from one of them, so that `-` on ℕ is what it computes.
unfoldable pub billing_min : ℕ → ℕ → ℕ
billing_min left right = if ltb right left then right else left

abbrev pub billing_positive : ℕ → Bool
billing_positive n = ltb 0 n

abbrev pub start_payment : ℕ → Payment
start_payment cost = record {
  remaining = cost;
  charged = 0;
  cash_charged = 0;
  order = 0;
  allocations = [];
}

-- `amount` is paid by `target` and recorded.
unfoldable pub pay : Target → ℕ → ℕ → Payment → Payment
pay target amount cash p = record {
  remaining = p.remaining - amount;
  charged = p.charged + amount;
  cash_charged = p.cash_charged + cash;
  order = suc p.order;
  allocations =
      p.allocations ++ record { order = suc p.order; target = target; amount = amount } ∷ [];
}

-- One cash lot. Its row is in the query where the lot belongs to the user, is not newer than the
-- cutoff and has funds; the loop stops when all is paid.
is_bound : String → ℕ → Lot → Bool
is_bound user cutoff l = str_eq l.user_id user && leb l.sequence cutoff && ltb 0 l.remaining

unfoldable pub debit_lot : ℕ → Lot → Lot
debit_lot amount l = record {
  id = l.id;
  user_id = l.user_id;
  sequence = l.sequence;
  remaining = l.remaining - amount;
}

pay_lot : String → ℕ → Lot → Payment → Payment × Lot
unfolding is_bound billing_min debit_lot pay
pay_lot user cutoff l p =
    let amount = billing_min l.remaining p.remaining in
    if is_bound user cutoff l && billing_positive p.remaining && billing_positive amount
    then (pay (cash_lot l.id) amount amount p, debit_lot amount l)
    else (p, l)

cons_lot : Lot → Payment × List Lot → Payment × List Lot
cons_lot l (p, ls) = (p, l ∷ ls)

unfoldable pub pay_lots : String → ℕ → List Lot → Payment → Payment × List Lot
unfolding pay_lot cons_lot
pay_lots user cutoff [] p = (p, [])
pay_lots user cutoff (l ∷ ls) p =
    let (paid, left) = pay_lot user cutoff l p in cons_lot left (pay_lots user cutoff ls paid)

-- The row of a bound subscription period.
is_period : String → FundingSource → Period → Bool
is_period user s q =
    str_eq q.id s.period_id
    && str_eq q.user_id user
    && (str_eq s.source_type "subscription" && str_eq q.subscription_id s.subscription_id
        || str_eq q.tier s.source_type)

unfoldable pub find_period : String → FundingSource → List Period → Option ℕ
unfolding is_period
find_period user s [] = none
find_period user s (q ∷ qs) =
    let rest = find_period user s qs in if is_period user s q then some q.remaining else rest

-- UPDATE billing_subscription_periods SET remaining_usd = remaining_usd - $2 WHERE id = $1.
debit_period : String → ℕ → Period → Period
debit_period id amount q =
    if str_eq q.id id
    then record {
      id = q.id;
      user_id = q.user_id;
      subscription_id = q.subscription_id;
      tier = q.tier;
      remaining = q.remaining - amount;
    }
    else q

unfoldable pub debit_periods : String → ℕ → List Period → List Period
unfolding debit_period
debit_periods id amount [] = []
debit_periods id amount (q ∷ qs) = debit_period id amount q ∷ debit_periods id amount qs

unfoldable pub with_periods : List Period → Funds → Funds
with_periods ps f = record {
  periods = ps;
  lots = f.lots;
  group_periods = f.group_periods;
  member_used = f.member_used;
  balances = f.balances;
}

unfoldable pub with_lots : List Lot → Funds → Funds
with_lots ls f = record {
  periods = f.periods;
  lots = ls;
  group_periods = f.group_periods;
  member_used = f.member_used;
  balances = f.balances;
}

pay_period : FundingSource → ℕ → Payment → Funds → Payment × Funds
unfolding billing_min pay debit_periods with_periods
pay_period s available p f =
    let amount = billing_min available p.remaining in
    if billing_positive amount
    then (
      pay (subscription_period s.period_id) amount 0 p,
      with_periods (debit_periods s.period_id amount f.periods) f,
    )
    else (p, f)

pay_cash : String → ℕ → Payment → Funds → Payment × Funds
unfolding pay_lots with_lots
pay_cash user cutoff p f =
    let (paid, left) = pay_lots user cutoff f.lots p in (paid, with_lots left f)

unfoldable pub pay_source :
    String → FundingSource → Payment → Funds → Result Error (Payment × Funds)
unfolding pay_cash pay_period
pay_source user s p f =
    if str_eq s.source_type "cash"
    then ok (pay_cash user s.cash_lot_cutoff p f)
    else elim (find_period user s f.periods) [
      | none ↦ err not_found
      | some available ↦ ok (pay_period s available p f)
    ]

-- The loop over the sources, which breaks when nothing remains.
unfoldable pub pay_sources :
    String → List FundingSource → Payment → Funds → Result Error (Payment × Funds)
unfolding pay_source
pay_sources user [] p f = ok (p, f)
pay_sources user (s ∷ ss) p f =
    if billing_positive p.remaining
    then elim (pay_source user s p f) [ err e ↦ err e | ok (q, g) ↦ pay_sources user ss q g ]
    else ok (p, f)

-- UPDATE group_usage_periods SET used_usd = used_usd + $2 WHERE id = $1.
unfoldable pub use_group : String → ℕ → List GroupPeriod → List GroupPeriod
use_group id amount [] = []
use_group id amount (g ∷ gs) =
    (if str_eq g.id id
      then record {
        id = g.id;
        group_id = g.group_id;
        limit = g.limit;
        used = g.used + amount;
        member_limit = g.member_limit;
      }
      else g)
    ∷ use_group id amount gs

with_group : String → String → ℕ → Funds → Funds
unfolding use_group
with_group period user amount f = record {
  periods = f.periods;
  lots = f.lots;
  group_periods = use_group period amount f.group_periods;
  member_used = λ (q u : String).
      f.member_used q u + (if str_eq q period && str_eq u user then amount else 0);
  balances = f.balances;
}

-- What the bound group period can pay.
unfoldable pub group_amount : Funds → String → GroupPeriod → ℕ → ℕ
unfolding billing_min group_member_remaining
group_amount f user g remaining =
    let available = billing_min (g.limit - g.used) remaining in
    elim (group_member_remaining f g.id user g.member_limit) [
      | none ↦ available
      | some member ↦ billing_min available member
    ]

unfoldable pub pay_group : String → GroupPeriod → Payment → Funds → Payment × Funds
unfolding pay with_group
pay_group user g p f =
    let amount = group_amount f user g p.remaining in
    if billing_positive amount
    then (pay (group_period g.id) amount 0 p, with_group g.id user amount f)
    else (p, f)

unfoldable pub charge_group : Reservation → Payment → Funds → Result Error (Payment × Funds)
charge_group r p f =
    if leb 2 r.funding_rule_version && billing_positive p.remaining
    then elim r.group_period_id [
      | none ↦ ok (p, f)
      | some id ↦ elim r.group_id [
        | none ↦ err conflict
        | some group ↦ elim (find_group_period id group f.group_periods) [
          | none ↦ err not_found
          | some g ↦ ok (pay_group r.user_id g p f)
        ]
      ]
    ]
    else ok (p, f)

-- UPDATE billing_accounts … WHERE user_id = $1 AND balance_usd >= $2.
unfoldable pub debit_account : String → ℕ → Funds → Result Error Funds
debit_account user amount f =
    if leb amount (f.balances user)
    then ok (record {
      periods = f.periods;
      lots = f.lots;
      group_periods = f.group_periods;
      member_used = f.member_used;
      balances = λ (u : String). f.balances u - (if str_eq u user then amount else 0);
    })
    else err not_found

-- The first funding rule only counts what a group's members spent.
unfoldable pub legacy_usage : Reservation → ℕ → Funds → Funds
unfolding use_group
legacy_usage r cost f = elim r.group_period_id [
  | none ↦ f
  | some id ↦
      if r.funding_rule_version == 1
      then record {
        periods = f.periods;
        lots = f.lots;
        group_periods = use_group id cost f.group_periods;
        member_used = f.member_used;
        balances = f.balances;
      }
      else f
]

settle_reservation : Reservation → Payment → ℕ → Reservation
settle_reservation r p group_charged = record {
  user_id = r.user_id;
  state = settled;
  funding_rule_version = r.funding_rule_version;
  group_id = r.group_id;
  group_period_id = r.group_period_id;
  day_period_id = r.day_period_id;
  week_period_id = r.week_period_id;
  month_period_id = r.month_period_id;
  cash_lot_cutoff = r.cash_lot_cutoff;
  ordered_funding_sources = r.ordered_funding_sources;
  charged = p.charged;
  uncovered = p.remaining;
  group_charged = group_charged;
}

-- What a settlement hands back: the reservation, the payment it made and the funds left.
pub record Settlement : Type 0 where
  pub reservation : Reservation
  pub payment : Payment
  pub funds : Funds

-- A reservation that is still open: from the cost to the updated rows.
unfoldable pub settle_open : Reservation → ℕ → Funds → Result Error Settlement
unfolding legacy_usage settle_reservation
settle_open r cost f = do
  grouped ← charge_group r (start_payment cost) f
  sources ← billing_settlement_sources r
  paid ← pay_sources r.user_id sources grouped.0 grouped.1
  debited ← debit_account r.user_id paid.0.cash_charged paid.1
  ok (record {
    reservation = settle_reservation r paid.0 grouped.0.charged;
    payment = paid.0;
    funds = legacy_usage r cost debited;
  })

-- `reservation.GroupID`, `reservation.GroupPeriodID` after `bindSettlementLayerTx`.
bind : Reservation → Option FundingLayer → Reservation
bind r layer = record {
  user_id = r.user_id;
  state = r.state;
  funding_rule_version = r.funding_rule_version;
  group_id = elim layer [ none ↦ none | some l ↦ some l.group_id ];
  group_period_id = elim layer [ none ↦ none | some l ↦ some l.group_period_id ];
  day_period_id = r.day_period_id;
  week_period_id = r.week_period_id;
  month_period_id = r.month_period_id;
  cash_lot_cutoff = r.cash_lot_cutoff;
  ordered_funding_sources = r.ordered_funding_sources;
  charged = r.charged;
  uncovered = r.uncovered;
  group_charged = r.group_charged;
}

unfoldable pub bind_layer :
    List FundingLayer → String → Reservation → Funds → Result Error Reservation
unfolding bind
bind_layer layers account r f =
    let c = settlement_layer_candidates layers account in
    if r.funding_rule_version == 4
    then elim (bind_settlement_layer f r.user_id c.groups c.personal) [
      | err e ↦ err e
      | ok l ↦ ok (bind r l)
    ]
    else ok r

-- `settleBillingTx` after the request has been priced. A settled reservation is handed back as it is.
unfoldable pub settle_billing :
    List FundingLayer → String → Reservation → ℕ → Funds → Result Error Settlement
unfolding settle_open bind_layer
settle_billing layers account r cost f = elim r.state [
  | settled ↦ ok (record { reservation = r; payment = start_payment 0; funds = f })
  | released ↦ err conflict
  | reserved ↦ elim (bind_layer layers account r f) [
    | err e ↦ err e
    | ok bound ↦ settle_open bound cost f
  ]
]
