-- ===== src/Store/Funding/Settle/Conservation.antt =====
-- Lemmas on the sums that a settlement moves.
use codex_gateway.Base.{
  ℕ, ◌+◌, ◌-◌, ◌≤◌, ◌≡◌, refl, sym, ap, String, str_eq, eq_iff, ◌&&◌, leb, ◌==◌, if◌then◌else◌,
  List, ok, >>=-eq-ok, arith, leb→le, Bool-cases, Option-cases, ok-eq, err-ok, ◌⊎◌, inl, inr,
}
use codex_gateway.Store.Funding.Types.{
  FundingSource, GroupPeriod, Funds, Reservation, Target, group_period, Payment,
}
use codex_gateway.Store.Funding.Settle.{
  billing_min, billing_positive, start_payment, pay, pay_sources, pay_group, group_amount,
  charge_group, debit_account, legacy_usage, Settlement, settle_open, with_group,
}
use codex_gateway.Store.Funding.Layers.{find_group_period, group_member_remaining}
use codex_gateway.Store.Funding.Sources.{billing_settlement_sources}
use codex_gateway.Store.Funding.Settle.Moves.{
  same-Step, pay_sources-Step, pay-IsPaying, billing_min-le, Step-trans, Step, total, lots_cash,
  share,
}

group_amount-le :
    (f : Funds) (user : String) (g : GroupPeriod) (n : ℕ) → group_amount f user g n ≤ n
unfolding group_amount
group_amount-le f user g n =
    elim (Option-cases (group_member_remaining f g.id user g.member_limit)) [
      | inl none_set ↦ rw (group_amount, none_set) (billing_min-le (g.limit - g.used) n).1
      | inr (m, found) ↦
          rw (group_amount, found)
            (omega (
              arith,
              (billing_min-le (billing_min (g.limit - g.used) n) m).0,
              (billing_min-le (g.limit - g.used) n).1,
            ))
    ]

grouped-Step :
    (cost : ℕ) (payer : String) (t : Target) (amount : ℕ) (p : Payment) (f : Funds)
    (period : String)
    → amount ≤ p.remaining
    → Step cost payer p f (pay t amount 0 p) (with_group period payer amount f)
unfolding pay with_group
grouped-Step cost payer t amount p f period h = (
  record {
    paying = pay-IsPaying cost amount 0 t p h;
    lots = λ u.
        ap (λ (n : ℕ). lots_cash u f.lots + share u payer n) {x = p.cash_charged + 0} (omega arith);
  },
  refl,
)

pay_group-Step :
    (cost : ℕ) (payer : String) (g : GroupPeriod) (p : Payment) (f : Funds)
    → Step cost payer p f (pay_group payer g p f).0 (pay_group payer g p f).1
unfolding pay_group
pay_group-Step cost payer g p f =
    let amount = group_amount f payer g p.remaining in
    elim (Bool-cases (billing_positive amount)) [
      | inl paid ↦ rw paid (
          grouped-Step cost payer (group_period g.id) amount p f g.id
            (group_amount-le f payer g p.remaining))
      | inr kept ↦ rw kept (same-Step cost payer p f)
    ]

-- Who asks for the group's charge gets the funds as they are, or with the bound period's payment.
pub charge_group-cases :
    (r : Reservation) (p : Payment) (f : Funds) (s : Payment × Funds)
    → charge_group r p f ≡ ok s
    → ((p, f) ≡ s) ⊎ ((g : GroupPeriod) × (pay_group r.user_id g p f ≡ s))
unfolding charge_group
charge_group-cases r p f s h =
    elim (Bool-cases (leb 2 r.funding_rule_version && billing_positive p.remaining)) [
      | inr skipped ↦ inl (ok-eq (rw skipped at h))
      | inl asked ↦ elim (Option-cases r.group_period_id) [
        | inl none_bound ↦ inl (ok-eq (rw (asked, none_bound) at h))
        | inr (id, bound) ↦ elim (Option-cases r.group_id) [
          | inl none_named ↦ err-ok (rw (asked, bound, none_named) at h)
          | inr (group, named) ↦ elim (Option-cases (find_group_period id group f.group_periods)) [
            | inl missing ↦ err-ok (rw (asked, bound, named, missing) at h)
            | inr (g, found) ↦ inr (g, ok-eq (rw (asked, bound, named, found) at h))
          ]
        ]
      ]
    ]

pub charge_group-Step :
    (cost : ℕ) (r : Reservation) (p : Payment) (f : Funds) (s : Payment × Funds)
    → charge_group r p f ≡ ok s
    → Step cost r.user_id p f s.0 s.1
charge_group-Step cost r p f s h = elim (charge_group-cases r p f s h) [
  | inl same ↦ rw (← same) (same-Step cost r.user_id p f)
  | inr (g, paid) ↦ rw (← paid) (pay_group-Step cost r.user_id g p f)
]

legacy-same :
    (r : Reservation) (cost : ℕ) (f : Funds)
    → ((legacy_usage r cost f).lots ≡ f.lots) × ((legacy_usage r cost f).balances ≡ f.balances)
unfolding legacy_usage
legacy-same r cost f = elim (Option-cases r.group_period_id) [
  | inl none_bound ↦ rw none_bound (refl, refl)
  | inr (id, bound) ↦ elim (Bool-cases (r.funding_rule_version == 1)) [
    | inl first ↦ rw (bound, first) (refl, refl)
    | inr later ↦ rw (bound, later) (refl, refl)
  ]
]

-- The parts of a settlement that was made.
pub record Parts (r : Reservation) (cost : ℕ) (f : Funds) (s : Settlement) : Type 0 where
  pub sources : List FundingSource
  pub grouped : Payment × Funds
  pub paid : Payment × Funds
  pub debited : Funds
  pub group_ok : charge_group r (start_payment cost) f ≡ ok grouped
  pub sources_ok : billing_settlement_sources r ≡ ok sources
  pub paid_ok : pay_sources r.user_id sources grouped.0 grouped.1 ≡ ok paid
  pub debit_ok : debit_account r.user_id paid.0.cash_charged paid.1 ≡ ok debited
  pub payment : s.payment ≡ paid.0
  pub funds : s.funds ≡ legacy_usage r cost debited

pub settle_open-Parts :
    (r : Reservation) (cost : ℕ) (f : Funds) (s : Settlement)
    → settle_open r cost f ≡ ok s
    → Parts r cost f s
unfolding settle_open
settle_open-Parts r cost f s h =
    let (grouped, group_ok, h1) = >>=-eq-ok (charge_group r (start_payment cost) f) _ h in
    let (sources, sources_ok, h2) = >>=-eq-ok (billing_settlement_sources r) _ h1 in
    let (paid, paid_ok, h3) = >>=-eq-ok (pay_sources r.user_id sources grouped.0 grouped.1) _ h2 in
    let (debited, debit_ok, h4) =
      >>=-eq-ok (debit_account r.user_id paid.0.cash_charged paid.1) _ h3 in
    record {
      sources = sources;
      grouped = grouped;
      paid = paid;
      debited = debited;
      group_ok = group_ok;
      sources_ok = sources_ok;
      paid_ok = paid_ok;
      debit_ok = debit_ok;
      payment = ap (λ (x : Settlement). x.payment) (sym (ok-eq h4));
      funds = ap (λ (x : Settlement). x.funds) (sym (ok-eq h4));
    }

Parts-Step :
    (r : Reservation) (cost : ℕ) (f : Funds) (s : Settlement) (p : Parts r cost f s)
    → Step cost r.user_id (start_payment cost) f p.paid.0 p.paid.1
Parts-Step r cost f s p =
    Step-trans cost r.user_id (start_payment cost) f p.grouped.0 p.grouped.1 p.paid.0 p.paid.1
      (charge_group-Step cost r (start_payment cost) f p.grouped p.group_ok)
      (pay_sources-Step cost r.user_id p.sources p.grouped.0 p.grouped.1 p.paid p.paid_ok)

-- What was charged and what stays uncovered add up to the cost, and the recorded allocations add up
-- to what was charged.
pub settle_open-IsPaying :
    (r : Reservation) (cost : ℕ) (f : Funds) (s : Settlement)
    → settle_open r cost f ≡ ok s
    → (s.payment.charged + s.payment.remaining ≡ cost)
      × (total s.payment.allocations ≡ s.payment.charged)
unfolding total
settle_open-IsPaying r cost f s h =
    let p = settle_open-Parts r cost f s h in
    let paying =
      (Parts-Step r cost f s p).0.paying (record { whole = omega arith; recorded = refl }) in
    rw (p.payment) (paying.whole, paying.recorded)

pub share_zero : (u payer : String) → share u payer 0 ≡ 0
share_zero u payer = elim (Bool-cases (str_eq payer u)) [ inl e ↦ rw e refl | inr e ↦ rw e refl ]

-- The account balance of a user is the cash that the user's lots hold.
unfoldable pub IsBacked : Funds → String → Type 0
IsBacked f u = f.balances u ≡ lots_cash u f.lots

debited :
    (b : String → ℕ) (user u : String) (amount : ℕ)
    → amount ≤ b user
    → b u - (if str_eq u user then amount else 0) + share u user amount ≡ b u
debited b user u amount h = elim (Bool-cases (str_eq u user)) [
  | inl same ↦
      let one : u ≡ user = (eq_iff u user).0 same in rw one (ground (arith, eq_iff user user))
  | inr other ↦ ground (arith, eq_iff u user, eq_iff user u)
]

debit_account-balance :
    (user u : String) (amount : ℕ) (f g : Funds)
    → debit_account user amount f ≡ ok g
    → (g.lots ≡ f.lots) × (g.balances u + share u user amount ≡ f.balances u)
unfolding debit_account
debit_account-balance user u amount f g h = elim (Bool-cases (leb amount (f.balances user))) [
  | inl enough ↦
      rw (← ok-eq (rw enough at h))
        (refl, debited f.balances user u amount (leb→le amount (f.balances user) enough))
  | inr short ↦ err-ok (rw short at h)
]

-- A settlement debits each account by what its cash lots lose: where the balances were the cash in
-- the lots, they still are, for every user.
pub settle_open-IsBacked :
    (r : Reservation) (cost : ℕ) (f : Funds) (s : Settlement) (u : String)
    → IsBacked f u
    → settle_open r cost f ≡ ok s
    → IsBacked s.funds u
unfolding IsBacked
settle_open-IsBacked r cost f s u backed h =
    let p = settle_open-Parts r cost f s h in
    let step = Parts-Step r cost f s p in
    let (lots, balance) =
      debit_account-balance r.user_id u p.paid.0.cash_charged p.paid.1 p.debited p.debit_ok in
    let (lots2, balances2) = legacy-same r cost p.debited in
    rw (p.funds, lots2, balances2, lots)
      (omega (
        arith,
        step.0.lots u,
        share_zero u r.user_id,
        balance,
        backed,
        ap (λ (b : String → ℕ). b u) step.1,
      ))
