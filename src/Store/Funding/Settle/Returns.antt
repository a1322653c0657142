-- ===== src/Store/Funding/Settle/Returns.antt =====
-- Lemmas on the rows that a settlement asks for.
use codex_gateway.Base.{
  ℕ, ◌≡◌, refl, sym, ap, ◌∙◌, String, str_eq, eq_iff, Bool, true, leb, if◌then◌else◌, some, List,
  [], ◌∷◌, All, Result, ok, err, ◌>>=◌, arith, le→leb, Bool-cases, ◌⊎◌, inl, inr,
}
use codex_gateway.Store.Funding.Types.{
  FundingSource, Period, GroupPeriod, Funds, Reservation, Payment,
}
use codex_gateway.Store.Funding.Settle.{
  billing_min, billing_positive, start_payment, debit_period, debit_periods, pay_period, pay_cash,
  pay_source, pay_sources, pay_group, group_amount, charge_group, debit_account, Settlement,
  settle_open, find_period, is_period, with_lots, with_periods, with_group,
}
use codex_gateway.Store.Funding.Sources.{billing_settlement_sources}
use codex_gateway.Store.Funding.Settle.Conservation.{
  charge_group-Step, charge_group-cases, IsBacked,
}
use codex_gateway.Store.Funding.Settle.Moves.{Step, Step-trans, pay_sources-Step, share}

bind_ok :
    {E A B : Type 0} {m : Result E A} {a : A} (f : A → Result E B)
    → m ≡ ok a
    → (b : B) × (f a ≡ ok b)
    → (b : B) × ((m >>= f) ≡ ok b)
bind_ok f e (b, rest) = (b, ap (λ m. m >>= f) e ∙ rest)

ok-if :
    {E A : Type 0} {x : A} (e : E) (b : Bool)
    → b ≡ true
    → ◌≡◌ {A = Result E A} (if b then ok x else err e) (ok x)
ok-if e b h = rw h refl

-- The row of a source that is not cash is there.
abbrev pub HasRow : String → List Period → FundingSource → Type 0
HasRow user ps s =
    (str_eq s.source_type "cash" ≡ true) ⊎ ((n : ℕ) × (find_period user s ps ≡ some n))

is_period-debit :
    (user id : String) (amount : ℕ) (s : FundingSource) (q : Period)
    → is_period user s (debit_period id amount q) ≡ is_period user s q
unfolding is_period debit_period
is_period-debit user id amount s q = elim (Bool-cases (str_eq q.id id)) [
  | inl e ↦ rw e refl
  | inr e ↦ rw e refl
]

find-debit :
    (user id : String) (amount : ℕ) (s : FundingSource) (ps : List Period) (n : ℕ)
    → find_period user s ps ≡ some n
    → (m : ℕ) × (find_period user s (debit_periods id amount ps) ≡ some m)
unfolding find_period debit_periods
find-debit user id amount s [] n h = cc
find-debit user id amount s (q ∷ qs) n h = elim (Bool-cases (is_period user s q)) [
  | inl here ↦
      ((debit_period id amount q).remaining, rw (is_period-debit user id amount s q ∙ here) refl)
  | inr later ↦
      let (m, found) = find-debit user id amount s qs n (rw later at h) in
      (m, rw (is_period-debit user id amount s q ∙ later) found)
]

HasRow-debit :
    (user id : String) (amount : ℕ) (s : FundingSource) (ps : List Period)
    → HasRow user ps s
    → HasRow user (debit_periods id amount ps) s
HasRow-debit user id amount s ps (inl cash) = inl cash
HasRow-debit user id amount s ps (inr (n, found)) = inr (find-debit user id amount s ps n found)

All-debit :
    (user id : String) (amount : ℕ) (ss : List FundingSource) (ps : List Period)
    → All (HasRow user ps) ss
    → All (HasRow user (debit_periods id amount ps)) ss
All-debit user id amount [] ps h = tt
All-debit user id amount (s ∷ ss) ps h =
    (HasRow-debit user id amount s ps h.0, All-debit user id amount ss ps h.1)

pay_period-rows :
    (user : String) (s : FundingSource) (available : ℕ) (p : Payment) (f : Funds)
    (ss : List FundingSource)
    → All (HasRow user f.periods) ss
    → All (HasRow user (pay_period s available p f).1.periods) ss
unfolding pay_period with_periods
pay_period-rows user s available p f ss h =
    elim (Bool-cases (billing_positive (billing_min available p.remaining))) [
      | inl paid ↦
          rw paid (All-debit user s.period_id (billing_min available p.remaining) ss f.periods h)
      | inr kept ↦ rw kept h
    ]

-- Each source is paid from, and the rows of the others stay.
pay_source-returns :
    (user : String) (s : FundingSource) (p : Payment) (f : Funds) (ss : List FundingSource)
    → HasRow user f.periods s
    → All (HasRow user f.periods) ss
    → (r : Payment × Funds) × (pay_source user s p f ≡ ok r) × All (HasRow user r.1.periods) ss
unfolding pay_source
pay_source-returns user s p f ss row h = elim (Bool-cases (str_eq s.source_type "cash")) [
  | inl cash ↦ (pay_cash user s.cash_lot_cutoff p f, rw cash refl, unfold pay_cash with_lots in h)
  | inr other ↦ elim row [
    | inl cash ↦ absurd cc
    | inr (n, found) ↦
        (pay_period s n p f, rw (other, found) refl, pay_period-rows user s n p f ss h)
  ]
]

pay_sources-returns :
    (user : String) (ss : List FundingSource) (p : Payment) (f : Funds)
    → All (HasRow user f.periods) ss
    → (r : Payment × Funds) × (pay_sources user ss p f ≡ ok r)
unfolding pay_sources
pay_sources-returns user [] p f h = ((p, f), refl)
pay_sources-returns user (s ∷ ss) p f h = elim (Bool-cases (billing_positive p.remaining)) [
  | inl more ↦
      let (mid, paid, rows) = pay_source-returns user s p f ss h.0 h.1 in
      let (r, rest) = pay_sources-returns user ss mid.0 mid.1 rows in (r, rw (more, paid) rest)
  | inr done ↦ ((p, f), rw done refl)
]

pay_group-periods :
    (user : String) (g : GroupPeriod) (p : Payment) (f : Funds)
    → (pay_group user g p f).1.periods ≡ f.periods
unfolding pay_group with_group
pay_group-periods user g p f =
    elim (Bool-cases (billing_positive (group_amount f user g p.remaining))) [
      | inl paid ↦ rw paid refl
      | inr kept ↦ rw kept refl
    ]

charge_group-periods :
    (r : Reservation) (p : Payment) (f : Funds) (s : Payment × Funds)
    → charge_group r p f ≡ ok s
    → s.1.periods ≡ f.periods
charge_group-periods r p f s h = elim (charge_group-cases r p f s h) [
  | inl same ↦ rw (← same) refl
  | inr (g, paid) ↦ rw (← paid) (pay_group-periods r.user_id g p f)
]

start-cash : (cost : ℕ) (u : String) → (start_payment cost).cash_charged ≡ 0
start-cash cost u = refl

share_self : (u : String) (n : ℕ) → share u u n ≡ n
share_self u n = rw ((eq_iff u u).1 refl) refl

-- What the lots lost is never more than what the account held.
enough_balance :
    (cost : ℕ) (u : String) (f g : Funds) (q : Payment)
    → IsBacked f u
    → Step cost u (start_payment cost) f q g
    → leb q.cash_charged (g.balances u) ≡ true
unfolding IsBacked
enough_balance cost u f g q backed (moves, same) = le→leb q.cash_charged (g.balances u) (
    omega (
      arith,
      moves.lots u,
      share_self u q.cash_charged,
      share_self u 0,
      backed,
      ap (λ (b : String → ℕ). b u) same,
    ))

debit_account-returns :
    (u : String) (amount : ℕ) (f : Funds)
    → leb amount (f.balances u) ≡ true
    → (g : Funds) × (debit_account u amount f ≡ ok g)
unfolding debit_account
debit_account-returns u amount f h = (_, ok-if _ (leb amount (f.balances u)) h)

-- A settlement returns where its sources are valid, their rows and the bound group are there, and
-- the user's balance is the cash in the lots: the check of the balance never refuses it.
pub settle_open-returns :
    (r : Reservation) (cost : ℕ) (f : Funds) (ss : List FundingSource) (grouped : Payment × Funds)
    → IsBacked f r.user_id
    → charge_group r (start_payment cost) f ≡ ok grouped
    → billing_settlement_sources r ≡ ok ss
    → All (HasRow r.user_id f.periods) ss
    → (s : Settlement) × (settle_open r cost f ≡ ok s)
unfolding settle_open
settle_open-returns r cost f ss grouped backed charged valid rows =
    let kept : f.periods ≡ grouped.1.periods =
      sym (charge_group-periods r (start_payment cost) f grouped charged) in
    let (paid, paid_ok) = pay_sources-returns r.user_id ss grouped.0 grouped.1 (rw kept at rows) in
    let step =
      Step-trans cost r.user_id (start_payment cost) f grouped.0 grouped.1 paid.0 paid.1
        (charge_group-Step cost r (start_payment cost) f grouped charged)
        (pay_sources-Step cost r.user_id ss grouped.0 grouped.1 paid paid_ok) in
    let enough = enough_balance cost r.user_id f paid.1 paid.0 backed step in
    let (debited, debit_ok) = debit_account-returns r.user_id paid.0.cash_charged paid.1 enough in
    bind_ok _ charged (bind_ok _ valid (bind_ok _ paid_ok (bind_ok _ debit_ok (_, refl))))
