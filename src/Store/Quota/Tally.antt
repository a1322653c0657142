-- ===== src/Store/Quota/Tally.antt =====
-- Lemmas on the sums of reservations.
use codex_gateway.Base.{
  some-eq, ℕ, ◌+◌, ◌≤◌, ◌≡◌, refl, sym, ap, ◌∙◌, String, str_eq, eq_iff, Bool, true, false, ◌&&◌,
  if◌then◌else◌, Option, none, some, List, [], ◌∷◌, arith, Bool-cases, inl, inr,
}
use codex_gateway.Store.Quota.{
  on_row, find, mark, replace, close, settle_counter, release_counter, reserve_counter,
}
use codex_gateway.Store.Quota.Rows.{
  State, reserved, settled, released, Reservation, Counter, Tables,
}

-- What a reservation counts in its rows: requests not released, requests settled, tokens held, tokens
-- used.
counts_reserved : State → ℕ
counts_reserved released = 0
counts_reserved reserved = 1
counts_reserved settled = 1

counts_completed : State → ℕ
counts_completed settled = 1
counts_completed reserved = 0
counts_completed released = 0

tokens_held : State → ℕ → ℕ
tokens_held reserved n = n
tokens_held settled n = 0
tokens_held released n = 0

tokens_spent : State → Option ℕ → ℕ
tokens_spent settled (some n) = n
tokens_spent s o = 0

weight : Reservation → Counter
unfolding counts_reserved counts_completed tokens_held tokens_spent
weight r = record {
  requests_reserved = counts_reserved r.state;
  requests_completed = counts_completed r.state;
  tokens_reserved = tokens_held r.state r.reserved_tokens;
  tokens_used = tokens_spent r.state r.actual_tokens;
}

-- The sum over the reservations that a test selects.
unfoldable pub sum : (Reservation → Bool) → (Counter → ℕ) → List Reservation → ℕ
unfolding weight
sum sel field [] = 0
sum sel field (r ∷ rs) = (if sel r then field (weight r) else 0) + sum sel field rs

-- One row is the sum over its reservations.
pub record IsTallied (sel : Reservation → Bool) (rs : List Reservation) (c : Counter) : Type 0 where
  pub requests_reserved : c.requests_reserved ≡ sum sel (λ (w : Counter). w.requests_reserved) rs
  pub requests_completed : c.requests_completed ≡ sum sel (λ (w : Counter). w.requests_completed) rs
  pub tokens_reserved : c.tokens_reserved ≡ sum sel (λ (w : Counter). w.tokens_reserved) rs
  pub tokens_used : c.tokens_used ≡ sum sel (λ (w : Counter). w.tokens_used) rs

-- The reservations of a key, or of a user, on a day.
abbrev pub of_key : String → String → Reservation → Bool
of_key day id r = str_eq day r.day && str_eq id r.api_key_id

abbrev pub of_user : String → String → Reservation → Bool
of_user day id r = str_eq day r.day && str_eq id r.user_id

-- Every counter of the tables is the sum over the reservations of its key or user and day.
pub record IsConsistent (t : Tables) : Type 0 where
  pub keys : (day id : String) → IsTallied (of_key day id) t.reservations (t.key_counters day id)
  pub users : (day id : String) → IsTallied (of_user day id) t.reservations (t.user_counters day id)

-- Replacing a reservation by one that the same rows count moves the sum by the two weights.
sum-replace :
    (sel : Reservation → Bool) (field : Counter → ℕ) (id : String) (s : State) (actual : Option ℕ)
    (rs : List Reservation) (r : Reservation)
    → sel (mark s actual r) ≡ sel r
    → find id rs ≡ some r
    → sum sel field (replace id (mark s actual) rs) + (if sel r then field (weight r) else 0)
      ≡ sum sel field rs + (if sel r then field (weight (mark s actual r)) else 0)
unfolding sum find replace
sum-replace sel field id s actual [] r same h = cc
sum-replace sel field id s actual (q ∷ qs) r same h = elim (Bool-cases (str_eq q.request_id id)) [
  | inl here ↦ let one : q ≡ r = some-eq (rw here at h) in rw (here, one, same) (omega arith)
  | inr later ↦
      rw later (omega (arith, sum-replace sel field id s actual qs r same (rw later at h)))
]

-- How the sums of one row move when an open reservation that it counts is marked.
module _ (sel : Reservation → Bool) (id : String) (s : State) (actual : Option ℕ)
    (rs : List Reservation) (r : Reservation) (same : sel (mark s actual r) ≡ sel r)
    (found : find id rs ≡ some r) where
  counted-moves :
      sel r ≡ true
      → r.state ≡ reserved
      → (sum sel (λ (w : Counter). w.requests_reserved) (replace id (mark s actual) rs) + 1
          ≡ sum sel (λ (w : Counter). w.requests_reserved) rs + counts_reserved s)
        × (sum sel (λ (w : Counter). w.requests_completed) (replace id (mark s actual) rs) + 0
            ≡ sum sel (λ (w : Counter). w.requests_completed) rs + counts_completed s)
        × (sum sel (λ (w : Counter). w.tokens_reserved) (replace id (mark s actual) rs)
              + r.reserved_tokens
            ≡ sum sel (λ (w : Counter). w.tokens_reserved) rs + tokens_held s r.reserved_tokens)
        × (sum sel (λ (w : Counter). w.tokens_used) (replace id (mark s actual) rs) + 0
            ≡ sum sel (λ (w : Counter). w.tokens_used) rs + tokens_spent s actual)
  unfolding weight mark counts_reserved counts_completed tokens_held tokens_spent
  counted-moves counted held = (
    rw (counted, held) at
        (sum-replace sel (λ (w : Counter). w.requests_reserved) id s actual rs r same found),
    rw (counted, held) at
        (sum-replace sel (λ (w : Counter). w.requests_completed) id s actual rs r same found),
    rw (counted, held) at
        (sum-replace sel (λ (w : Counter). w.tokens_reserved) id s actual rs r same found),
    rw (counted, held) at
        (sum-replace sel (λ (w : Counter). w.tokens_used) id s actual rs r same found),
  )

  other-moves :
      (field : Counter → ℕ)
      → sel r ≡ false
      → sum sel field (replace id (mark s actual) rs) ≡ sum sel field rs
  other-moves field other =
      omega (arith, rw other at (sum-replace sel field id s actual rs r same found))

  other-IsTallied :
      (c : Counter)
      → sel r ≡ false
      → IsTallied sel rs c
      → IsTallied sel (replace id (mark s actual) rs) c
  other-IsTallied c other v = record {
    requests_reserved =
        v.requests_reserved ∙ sym (other-moves (λ (w : Counter). w.requests_reserved) other);
    requests_completed =
        v.requests_completed ∙ sym (other-moves (λ (w : Counter). w.requests_completed) other);
    tokens_reserved =
        v.tokens_reserved ∙ sym (other-moves (λ (w : Counter). w.tokens_reserved) other);
    tokens_used = v.tokens_used ∙ sym (other-moves (λ (w : Counter). w.tokens_used) other);
  }

-- One row, when a reservation that it may count is settled.
settle-IsTallied :
    (sel : Reservation → Bool) (id : String) (actual : ℕ) (rs : List Reservation) (r : Reservation)
    (c : Counter)
    → sel (mark settled (some actual) r) ≡ sel r
    → find id rs ≡ some r
    → r.state ≡ reserved
    → IsTallied sel rs c
    → IsTallied sel
        (replace id (mark settled (some actual)) rs)
        (if sel r then settle_counter r.reserved_tokens actual c else c)
unfolding settle_counter counts_reserved counts_completed tokens_held tokens_spent
settle-IsTallied sel id actual rs r c same found held v = elim (Bool-cases (sel r)) [
  | inl counted ↦
      let (a, b, d, e) = counted-moves sel id settled (some actual) rs r same found counted held in
      rw counted (record {
        requests_reserved = omega (arith, a, v.requests_reserved);
        requests_completed = omega (arith, b, v.requests_completed);
        tokens_reserved = omega (arith, d, v.tokens_reserved);
        tokens_used = omega (arith, e, v.tokens_used);
      })
  | inr other ↦ rw other (other-IsTallied sel id settled (some actual) rs r same found c other v)
]

-- And when it is released.
release-IsTallied :
    (sel : Reservation → Bool) (id : String) (rs : List Reservation) (r : Reservation) (c : Counter)
    → sel (mark released none r) ≡ sel r
    → find id rs ≡ some r
    → r.state ≡ reserved
    → IsTallied sel rs c
    → IsTallied sel
        (replace id (mark released none) rs)
        (if sel r then release_counter r.reserved_tokens c else c)
unfolding release_counter counts_reserved counts_completed tokens_held tokens_spent
release-IsTallied sel id rs r c same found held v = elim (Bool-cases (sel r)) [
  | inl counted ↦
      let (a, b, d, e) = counted-moves sel id released none rs r same found counted held in
      rw counted (record {
        requests_reserved = omega (arith, a, v.requests_reserved);
        requests_completed = omega (arith, b, v.requests_completed);
        tokens_reserved = omega (arith, d, v.tokens_reserved);
        tokens_used = omega (arith, e, v.tokens_used);
      })
  | inr other ↦ rw other (other-IsTallied sel id released none rs r same found c other v)
]

find-id :
    (id : String) (rs : List Reservation) (r : Reservation)
    → find id rs ≡ some r
    → r.request_id ≡ id
unfolding find
find-id id [] r h = cc
find-id id (q ∷ qs) r h = elim (Bool-cases (str_eq q.request_id id)) [
  | inl here ↦
      ap (λ (x : Reservation). x.request_id) (sym (some-eq (rw here at h)))
      ∙ (eq_iff q.request_id id).0 here
  | inr later ↦ find-id id qs r (rw later at h)
]

pub settled-IsConsistent :
    (id : String) (actual : ℕ) (t : Tables) (r : Reservation)
    → find id t.reservations ≡ some r
    → r.state ≡ reserved
    → IsConsistent t
    → IsConsistent
        (close r (settle_counter r.reserved_tokens actual) (mark settled (some actual)) t)
unfolding close on_row
settled-IsConsistent id actual t r found held v =
    let own = find-id id t.reservations r found in
    rw own (record {
      keys = λ day i.
          unfold mark in
          settle-IsTallied (of_key day i) id actual t.reservations r (t.key_counters day i) refl
            found held (v.keys day i);
      users = λ day i.
          unfold mark in
          settle-IsTallied (of_user day i) id actual t.reservations r (t.user_counters day i) refl
            found held (v.users day i);
    })

pub released-IsConsistent :
    (id : String) (t : Tables) (r : Reservation)
    → find id t.reservations ≡ some r
    → r.state ≡ reserved
    → IsConsistent t
    → IsConsistent (close r (release_counter r.reserved_tokens) (mark released none) t)
unfolding close on_row
released-IsConsistent id t r found held v =
    let own = find-id id t.reservations r found in
    rw own (record {
      keys = λ day i.
          unfold mark in
          release-IsTallied (of_key day i) id t.reservations r (t.key_counters day i) refl found
            held (v.keys day i);
      users = λ day i.
          unfold mark in
          release-IsTallied (of_user day i) id t.reservations r (t.user_counters day i) refl found
            held (v.users day i);
    })

completed_counts : (s : State) → counts_completed s ≤ counts_reserved s
unfolding counts_completed counts_reserved
completed_counts reserved = omega arith
completed_counts settled = omega arith
completed_counts released = omega arith

sum-completed :
    (sel : Reservation → Bool) (rs : List Reservation)
    → sum sel (λ (w : Counter). w.requests_completed) rs
      ≤ sum sel (λ (w : Counter). w.requests_reserved) rs
unfolding sum weight
sum-completed sel [] = omega arith
sum-completed sel (r ∷ rs) = elim (Bool-cases (sel r)) [
  | inl counted ↦ rw counted (omega (arith, sum-completed sel rs, completed_counts r.state))
  | inr other ↦ rw other (omega (arith, sum-completed sel rs))
]

-- A row holds the tokens of an open reservation that it counts, and its request, which is not yet
-- among the completed ones.
pub counted-held :
    (sel : Reservation → Bool) (id : String) (rs : List Reservation) (r : Reservation) (c : Counter)
    → sel (mark released none r) ≡ sel r
    → sel r ≡ true
    → find id rs ≡ some r
    → r.state ≡ reserved
    → IsTallied sel rs c
    → (r.reserved_tokens ≤ c.tokens_reserved) × (c.requests_completed + 1 ≤ c.requests_reserved)
unfolding counts_reserved counts_completed tokens_held
counted-held sel id rs r c same counted found held v =
    let (a, b, d, e) = counted-moves sel id released none rs r same found counted held in
    (
      omega (arith, d, v.tokens_reserved),
      omega (
        arith,
        a,
        b,
        v.requests_reserved,
        v.requests_completed,
        sum-completed sel (replace id (mark released none) rs),
      ),
    )

sum-cons :
    (sel : Reservation → Bool) (field : Counter → ℕ) (rs : List Reservation) (r : Reservation)
    → sel r ≡ true
    → sum sel field (r ∷ rs) ≡ field (weight r) + sum sel field rs
unfolding sum
sum-cons sel field rs r counted = rw counted refl

sum-other :
    (sel : Reservation → Bool) (field : Counter → ℕ) (rs : List Reservation) (r : Reservation)
    → sel r ≡ false
    → sum sel field (r ∷ rs) ≡ sum sel field rs
unfolding sum
sum-other sel field rs r other = rw other (omega arith)

-- One row, when a reservation is added.
pub reserve-IsTallied :
    (sel : Reservation → Bool) (rs : List Reservation) (r : Reservation) (c : Counter)
    → r.state ≡ reserved
    → IsTallied sel rs c
    → IsTallied sel (r ∷ rs) (if sel r then reserve_counter r.reserved_tokens c else c)
unfolding weight reserve_counter counts_reserved counts_completed tokens_held tokens_spent
reserve-IsTallied sel rs r c open_state v =
    let a : counts_reserved r.state ≡ 1 = ap counts_reserved open_state in
    let b : counts_completed r.state ≡ 0 = ap counts_completed open_state in
    let d : tokens_held r.state r.reserved_tokens ≡ r.reserved_tokens =
      ap (λ (s : State). tokens_held s r.reserved_tokens) open_state in
    let e : tokens_spent r.state r.actual_tokens ≡ 0 =
      ap (λ (s : State). tokens_spent s r.actual_tokens) open_state in
    elim (Bool-cases (sel r)) [
      | inl counted ↦ rw counted (record {
        requests_reserved = omega (
          arith,
          a,
          v.requests_reserved,
          sum-cons sel (λ (w : Counter). w.requests_reserved) rs r counted,
        );
        requests_completed = omega (
          arith,
          b,
          v.requests_completed,
          sum-cons sel (λ (w : Counter). w.requests_completed) rs r counted,
        );
        tokens_reserved = omega (
          arith,
          d,
          v.tokens_reserved,
          sum-cons sel (λ (w : Counter). w.tokens_reserved) rs r counted,
        );
        tokens_used =
            omega
              (arith, e, v.tokens_used, sum-cons sel (λ (w : Counter). w.tokens_used) rs r counted);
      })
      | inr other ↦ rw other (record {
        requests_reserved =
            v.requests_reserved
            ∙ sym (sum-other sel (λ (w : Counter). w.requests_reserved) rs r other);
        requests_completed =
            v.requests_completed
            ∙ sym (sum-other sel (λ (w : Counter). w.requests_completed) rs r other);
        tokens_reserved =
            v.tokens_reserved ∙ sym (sum-other sel (λ (w : Counter). w.tokens_reserved) rs r other);
        tokens_used =
            v.tokens_used ∙ sym (sum-other sel (λ (w : Counter). w.tokens_used) rs r other);
      })
    ]
