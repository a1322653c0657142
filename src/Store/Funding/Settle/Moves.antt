-- ===== src/Store/Funding/Settle/Moves.antt =====
-- How one payment, and a list of them, move the payment and the cash lots.
use codex_gateway.Base.{
  ℕ, suc, ◌+◌, ◌≤◌, ◌≡◌, refl, ap, ◌∙◌, String, str_eq, eq_iff, ◌&&◌, if◌then◌else◌, List, [], ◌∷◌,
  ◌++◌, ok, arith, Bool-cases, Option-cases, Result-cases, ok-eq, err-ok, inl, inr,
}
use codex_gateway.Store.Funding.Types.{
  FundingSource, Period, Lot, Funds, Target, cash_lot, subscription_period, Allocation, Payment,
}
use codex_gateway.Store.Funding.Settle.{
  billing_min, billing_positive, debit_periods, pay, debit_lot, is_bound, pay_lot, cons_lot,
  pay_lots, pay_period, pay_cash, pay_source, pay_sources, find_period, with_lots, with_periods,
}

-- The amounts of the recorded allocations.
unfoldable pub total : List Allocation → ℕ
total [] = 0
total (a ∷ rest) = a.amount + total rest

-- What is paid, and what the allocations say was paid, is the cost less what remains.
pub record IsPaying (cost : ℕ) (p : Payment) : Type 0 where
  pub whole : p.charged + p.remaining ≡ cost
  pub recorded : total p.allocations ≡ p.charged

total-append : (xs : List Allocation) (a : Allocation) → total (xs ++ a ∷ []) ≡ total xs + a.amount
unfolding total
total-append [] a = omega arith
total-append (b ∷ xs) a = omega (arith, total-append xs a)

pub pay-IsPaying :
    (cost amount cash : ℕ) (t : Target) (p : Payment)
    → amount ≤ p.remaining
    → IsPaying cost p
    → IsPaying cost (pay t amount cash p)
unfolding pay
pay-IsPaying cost amount cash t p h v = record {
  whole = omega (arith, v.whole);
  recorded = omega (
    arith,
    total-append p.allocations (record { order = suc p.order; target = t; amount = amount }),
    v.recorded,
  );
}

pub billing_min-le : (a b : ℕ) → (billing_min a b ≤ a) × (billing_min a b ≤ b)
unfolding billing_min
billing_min-le a b = ground arith

-- The cash that the lots of a user hold.
lot_cash : String → Lot → ℕ
lot_cash user l = if str_eq l.user_id user then l.remaining else 0

unfoldable pub lots_cash : String → List Lot → ℕ
unfolding lot_cash
lots_cash user [] = 0
lots_cash user (l ∷ ls) = lot_cash user l + lots_cash user ls

-- The part of an amount that a user pays, when `payer` pays.
abbrev pub share : String → String → ℕ → ℕ
share user payer n = if str_eq payer user then n else 0

-- One payment from cash lots: from `p` to `q`, the lots going from `before` to `after` units.
pub record Moves (cost : ℕ) (payer : String) (before after : String → ℕ) (p q : Payment)
    : Type 0 where
  pub paying : IsPaying cost p → IsPaying cost q
  pub lots :
      (u : String)
      → after u + share u payer q.cash_charged ≡ before u + share u payer p.cash_charged

pay_lot-cash :
    (payer u : String) (cutoff : ℕ) (l : Lot) (p : Payment)
    → lot_cash u (pay_lot payer cutoff l p).1
        + share u payer (pay_lot payer cutoff l p).0.cash_charged
      ≡ lot_cash u l + share u payer p.cash_charged
unfolding pay_lot is_bound lot_cash debit_lot pay billing_min
pay_lot-cash payer u cutoff l p =
    ground (arith, eq_iff l.user_id payer, eq_iff l.user_id u, eq_iff payer u)

pay_lot-IsPaying :
    (cost : ℕ) (payer : String) (cutoff : ℕ) (l : Lot) (p : Payment)
    → IsPaying cost p
    → IsPaying cost (pay_lot payer cutoff l p).0
unfolding pay_lot
pay_lot-IsPaying cost payer cutoff l p v =
    let amount = billing_min l.remaining p.remaining in
    elim (Bool-cases
      (is_bound payer cutoff l && billing_positive p.remaining && billing_positive amount)) [
        | inl paid ↦ rw paid (
            pay-IsPaying cost amount amount (cash_lot l.id) p
              (billing_min-le l.remaining p.remaining).1 v)
        | inr kept ↦ rw kept v
      ]

pay_lots-Moves :
    (cost : ℕ) (payer : String) (cutoff : ℕ) (ls : List Lot) (p : Payment)
    → Moves cost payer
        (λ u. lots_cash u ls)
        (λ u. lots_cash u (pay_lots payer cutoff ls p).1)
        p
        (pay_lots payer cutoff ls p).0
unfolding pay_lots cons_lot lots_cash
pay_lots-Moves cost payer cutoff [] p = record { paying = λ v. v; lots = λ u. refl }
pay_lots-Moves cost payer cutoff (l ∷ ls) p =
    let rest = pay_lots-Moves cost payer cutoff ls (pay_lot payer cutoff l p).0 in
    record {
      paying = λ v. rest.paying (pay_lot-IsPaying cost payer cutoff l p v);
      lots = λ u. omega (arith, rest.lots u, pay_lot-cash payer u cutoff l p);
    }

-- One source, and then all: the cash lots of the funds and the payment move together.
abbrev pub Step : ℕ → String → Payment → Funds → Payment → Funds → Type 0
Step cost payer p f q g =
    Moves cost payer (λ u. lots_cash u f.lots) (λ u. lots_cash u g.lots) p q
    × (f.balances ≡ g.balances)

pub Step-trans :
    (cost : ℕ) (payer : String) (p : Payment) (f : Funds) (q : Payment) (g : Funds) (r : Payment)
    (h : Funds)
    → Step cost payer p f q g
    → Step cost payer q g r h
    → Step cost payer p f r h
Step-trans cost payer p f q g r h (a, b) (c, d) = (
  record { paying = λ v. c.paying (a.paying v); lots = λ u. omega (arith, a.lots u, c.lots u) },
  b ∙ d,
)

pay_cash-Step :
    (cost : ℕ) (payer : String) (cutoff : ℕ) (p : Payment) (f : Funds)
    → Step cost payer p f (pay_cash payer cutoff p f).0 (pay_cash payer cutoff p f).1
unfolding pay_cash with_lots
pay_cash-Step cost payer cutoff p f = (pay_lots-Moves cost payer cutoff f.lots p, refl)

paid-Step :
    (cost : ℕ) (payer : String) (t : Target) (amount : ℕ) (p : Payment) (f : Funds)
    (ps : List Period)
    → amount ≤ p.remaining
    → Step cost payer p f (pay t amount 0 p) (with_periods ps f)
unfolding pay with_periods
paid-Step cost payer t amount p f ps h = (
  record {
    paying = pay-IsPaying cost amount 0 t p h;
    lots = λ u.
        ap (λ (n : ℕ). lots_cash u f.lots + share u payer n) {x = p.cash_charged + 0} (omega arith);
  },
  refl,
)

pub same-Step : (cost : ℕ) (payer : String) (p : Payment) (f : Funds) → Step cost payer p f p f
same-Step cost payer p f = (record { paying = λ v. v; lots = λ u. refl }, refl)

pay_period-Step :
    (cost : ℕ) (payer : String) (s : FundingSource) (available : ℕ) (p : Payment) (f : Funds)
    → Step cost payer p f (pay_period s available p f).0 (pay_period s available p f).1
unfolding pay_period
pay_period-Step cost payer s available p f =
    let amount = billing_min available p.remaining in
    elim (Bool-cases (billing_positive amount)) [
      | inl paid ↦ rw paid (
          paid-Step cost payer (subscription_period s.period_id) amount p f
            (debit_periods s.period_id amount f.periods) (billing_min-le available p.remaining).1)
      | inr kept ↦ rw kept (same-Step cost payer p f)
    ]

pay_source-Step :
    (cost : ℕ) (payer : String) (s : FundingSource) (p : Payment) (f : Funds) (r : Payment × Funds)
    → pay_source payer s p f ≡ ok r
    → Step cost payer p f r.0 r.1
unfolding pay_source
pay_source-Step cost payer s p f r h = elim (Bool-cases (str_eq s.source_type "cash")) [
  | inl cash ↦
      let same : pay_cash payer s.cash_lot_cutoff p f ≡ r = ok-eq (rw cash at h) in
      rw (← same) (pay_cash-Step cost payer s.cash_lot_cutoff p f)
  | inr other ↦ elim (Option-cases (find_period payer s f.periods)) [
    | inl missing ↦ err-ok (rw (other, missing) at h)
    | inr (available, found) ↦
        let same : pay_period s available p f ≡ r = ok-eq (rw (other, found) at h) in
        rw (← same) (pay_period-Step cost payer s available p f)
  ]
]

pub pay_sources-Step :
    (cost : ℕ) (payer : String) (ss : List FundingSource) (p : Payment) (f : Funds)
    (r : Payment × Funds)
    → pay_sources payer ss p f ≡ ok r
    → Step cost payer p f r.0 r.1
unfolding pay_sources
pay_sources-Step cost payer [] p f r h = rw (← ok-eq h) (same-Step cost payer p f)
pay_sources-Step cost payer (s ∷ ss) p f r h = elim (Bool-cases (billing_positive p.remaining)) [
  | inl more ↦ elim (Result-cases (pay_source payer s p f)) [
    | inl (mid, paid) ↦
        Step-trans cost payer p f mid.0 mid.1 r.0 r.1 (pay_source-Step cost payer s p f mid paid)
          (pay_sources-Step cost payer ss mid.0 mid.1 r (rw (more, paid) at h))
    | inr (e, failed) ↦ err-ok (rw (more, failed) at h)
  ]
  | inr none_left ↦
      let same : (p, f) ≡ r = ok-eq (rw none_left at h) in rw (← same) (same-Step cost payer p f)
]
