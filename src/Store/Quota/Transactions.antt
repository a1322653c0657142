-- ===== src/Store/Quota/Transactions.antt =====
-- Lemmas on sequences of quota transactions.
use codex_gateway.Base.{
  ℕ, ◌+◌, ◌*◌, ◌/◌, ◌≤◌, ◌<◌, ◌≡◌, refl, sym, ap, ◌∙◌, String, str_eq, eq_iff, true, ◌&&◌, ◌==◌,
  some, List, [], ◌∷◌, ok, guard_then, >>=-eq-ok, arith, le→leb, Bool-cases, Option-cases,
  Result-cases, ok-eq, err-ok, inl, inr,
}
use codex_gateway.Store.Quota.{
  on_row, find, mark, close, settle_counter, second, minute, admit, reserve_counter, settle_quota,
  settle_as, settle_row, settled_again, release_quota, release_as, release_row, reserve_quota,
  Transaction, reserves, settles, releases, transact, transact_all, or_rollback, empty,
  enforce_quota, expire, count_leases, retry_minute, is_new, reserve_fits, settle_fits,
  release_fits, max_int64,
}
use codex_gateway.Store.Quota.Rows.{
  State, reserved, settled, released, Reservation, Tables, Params, Lease, Counter, conflict,
  affected, invalid,
}
use codex_gateway.Store.Quota.Tally.{
  IsConsistent, of_key, of_user, sum, settled-IsConsistent, released-IsConsistent, counted-held,
  reserve-IsTallied,
}

admit-IsConsistent :
    (p : Params) (window : ℕ) (live : List Lease) (t : Tables)
    → IsConsistent t
    → IsConsistent (admit p window live t)
unfolding admit on_row
admit-IsConsistent p window live t v = record {
  keys = λ day i.
      reserve-IsTallied (of_key day i) t.reservations _ (t.key_counters day i) refl (v.keys day i);
  users = λ day i.
      reserve-IsTallied (of_user day i) t.reservations _ (t.user_counters day i) refl
        (v.users day i);
}

-- What an admitted request says of the checks before it.
pub record Admission (p : Params) (t u : Tables) : Type 0 where
  pub window : ℕ
  pub live : List Lease
  pub key_daily :
      enforce_quota "key" "daily_requests" p.limits.key_daily
        (t.key_counters p.day p.api_key_id).requests_reserved
        (86_400 * second)
      ≡ ok tt
  pub user_daily :
      enforce_quota "user" "daily_requests" p.limits.user_daily
        (t.user_counters p.day p.user_id).requests_reserved
        (86_400 * second)
      ≡ ok tt
  pub result : u ≡ admit p window live t

reserve_quota-Admission : (p : Params) (t u : Tables) → reserve_quota p t ≡ ok u → Admission p t u
unfolding reserve_quota
reserve_quota-Admission p t u h =
    let window = p.now / minute * minute in
    let live = expire p.now t.leases in
    let keys = count_leases (λ (l : Lease). str_eq l.api_key_id p.api_key_id) live in
    let users = count_leases (λ (l : Lease). str_eq l.user_id p.user_id) live in
    let wait = retry_minute window p.now in
    let (_, _, h1) =
      >>=-eq-ok (enforce_quota "key" "concurrency" p.limits.key_concurrent keys second) _ h in
    let (_, _, h2) =
      >>=-eq-ok (enforce_quota "user" "concurrency" p.limits.user_concurrent users second) _ h1 in
    let (_, _, h3) =
      >>=-eq-ok
        (enforce_quota "global" "concurrency" p.limits.global_concurrent
          (count_leases (λ (l : Lease). true) live) second)
        _ h2 in
    let (_, _, h4) =
      >>=-eq-ok (enforce_quota "key" "rpm" p.limits.key_rpm (t.key_rates window p.api_key_id) wait)
        _ h3 in
    let (_, _, h5) =
      >>=-eq-ok (enforce_quota "user" "rpm" p.limits.user_rpm (t.user_rates window p.user_id) wait)
        _ h4 in
    let (_, key_ok, h6) =
      >>=-eq-ok
        (enforce_quota "key" "daily_requests" p.limits.key_daily
          (t.key_counters p.day p.api_key_id).requests_reserved (86_400 * second))
        _ h5 in
    let (_, user_ok, h7) =
      >>=-eq-ok
        (enforce_quota "user" "daily_requests" p.limits.user_daily
          (t.user_counters p.day p.user_id).requests_reserved (86_400 * second))
        _ h6 in
    let (_, h8) =
      guard_then
        (reserve_fits p.reserved_tokens (t.key_counters p.day p.api_key_id)
            (t.key_rates window p.api_key_id)
          && reserve_fits p.reserved_tokens (t.user_counters p.day p.user_id)
              (t.user_rates window p.user_id))
        invalid h7 in
    let (_, h9) = guard_then (is_new (find p.request_id t.reservations)) conflict h8 in
    record {
      window = window;
      live = live;
      key_daily = key_ok;
      user_daily = user_ok;
      result = sym (ok-eq h9);
    }

settle_as-IsConsistent :
    (s : State) (id : String) (actual : ℕ) (r : Reservation) (t u : Tables)
    → r.state ≡ s
    → find id t.reservations ≡ some r
    → IsConsistent t
    → settle_as s actual r t ≡ ok u
    → IsConsistent u
unfolding settle_as settled_again
settle_as-IsConsistent released id actual r t u state found v h = err-ok h
settle_as-IsConsistent settled id actual r t u state found v h =
    elim (Option-cases r.actual_tokens) [
      | inl unknown ↦ err-ok (rw unknown at h)
      | inr (before, known) ↦ elim (Bool-cases (before == actual)) [
        | inl again ↦ rw (← ok-eq (rw (known, again) at h)) v
        | inr other ↦ err-ok (rw (known, other) at h)
      ]
    ]
settle_as-IsConsistent reserved id actual r t u state found v h =
    let key = t.key_counters r.day r.api_key_id in
    let user = t.user_counters r.day r.user_id in
    let (_, h1) =
      guard_then
        (settle_fits r.reserved_tokens actual key && settle_fits r.reserved_tokens actual user)
        invalid h in
    let (_, h2) =
      guard_then (settle_row r.reserved_tokens key && settle_row r.reserved_tokens user) affected
        h1 in
    rw (← ok-eq h2) (settled-IsConsistent id actual t r found state v)

release_as-IsConsistent :
    (s : State) (id : String) (r : Reservation) (t u : Tables)
    → r.state ≡ s
    → find id t.reservations ≡ some r
    → IsConsistent t
    → release_as s r t ≡ ok u
    → IsConsistent u
unfolding release_as
release_as-IsConsistent released id r t u state found v h = rw (← ok-eq h) v
release_as-IsConsistent settled id r t u state found v h = err-ok h
release_as-IsConsistent reserved id r t u state found v h =
    let key = t.key_counters r.day r.api_key_id in
    let user = t.user_counters r.day r.user_id in
    let (_, h1) =
      guard_then (release_fits r.reserved_tokens key && release_fits r.reserved_tokens user) invalid
        h in
    let (_, h2) =
      guard_then (release_row r.reserved_tokens key && release_row r.reserved_tokens user) affected
        h1 in
    rw (← ok-eq h2) (released-IsConsistent id t r found state v)

transact-IsConsistent :
    (x : Transaction) (t u : Tables) → IsConsistent t → transact x t ≡ ok u → IsConsistent u
unfolding transact settle_quota release_quota
transact-IsConsistent (reserves p) t u v h =
    let a = reserve_quota-Admission p t u h in
    rw (a.result) (admit-IsConsistent p a.window a.live t v)
transact-IsConsistent (settles id actual) t u v h = elim (Option-cases (find id t.reservations)) [
  | inl missing ↦ err-ok (rw (settle_quota, missing) at h)
  | inr (r, found) ↦
      settle_as-IsConsistent r.state id actual r t u refl found v (rw (settle_quota, found) at h)
]
transact-IsConsistent (releases id) t u v h = elim (Option-cases (find id t.reservations)) [
  | inl missing ↦ err-ok (rw (release_quota, missing) at h)
  | inr (r, found) ↦
      release_as-IsConsistent r.state id r t u refl found v (rw (release_quota, found) at h)
]

-- After any sequence of reservations, settlements and releases, those that fail included, every
-- counter of consistent tables is still the sum over the reservations of its key or user and day.
pub transact_all-IsConsistent :
    (xs : List Transaction) (t : Tables) → IsConsistent t → IsConsistent (transact_all xs t)
unfolding transact_all or_rollback
transact_all-IsConsistent [] t v = v
transact_all-IsConsistent (x ∷ xs) t v = elim (Result-cases (transact x t)) [
  | inl (u, done) ↦ rw done (transact_all-IsConsistent xs u (transact-IsConsistent x t u v done))
  | inr (e, failed) ↦ rw failed (transact_all-IsConsistent xs t v)
]

pub IsConsistent-empty : IsConsistent empty
IsConsistent-empty =
    unfold sum in
    record {
      keys = λ day id. record {
        requests_reserved = refl;
        requests_completed = refl;
        tokens_reserved = refl;
        tokens_used = refl;
      };
      users = λ day id. record {
        requests_reserved = refl;
        requests_completed = refl;
        tokens_reserved = refl;
        tokens_used = refl;
      };
    }

row_of : (a b : String) → (str_eq a a && str_eq b b) ≡ true
row_of a b = ground (arith, eq_iff a a, eq_iff b b)

-- The row holds what is settled, and the update stays in the range of its columns.
settle_row-fits :
    (tokens actual : ℕ) (c : Counter)
    → tokens ≤ c.tokens_reserved
    → c.requests_completed + 1 ≤ c.requests_reserved
    → c.requests_reserved ≤ max_int64
    → c.tokens_used + actual ≤ max_int64
    → (settle_fits tokens actual c ≡ true) × (settle_row tokens c ≡ true)
unfolding settle_fits settle_row
settle_row-fits tokens actual c held open_request range room =
    let completed = le→leb (c.requests_completed + 1) max_int64 (omega arith) in
    let used = le→leb (c.tokens_used + actual) max_int64 room in
    let kept = le→leb (c.requests_completed + 1) c.requests_reserved open_request in
    let enough = le→leb tokens c.tokens_reserved held in
    (rw (enough, completed, used, kept) refl, enough)

-- On consistent tables an open reservation is settled where in the rows of its key and its user the
-- requests are in the range of a BIGINT and the tokens used and the settled ones together are: the rows
-- always hold what it reserved, its completion keeps their check, and no other error is left.
pub settle_quota-returns :
    (id : String) (actual : ℕ) (t : Tables) (r : Reservation)
    → IsConsistent t
    → find id t.reservations ≡ some r
    → r.state ≡ reserved
    → (t.key_counters r.day r.api_key_id).requests_reserved ≤ max_int64
    → (t.user_counters r.day r.user_id).requests_reserved ≤ max_int64
    → (t.key_counters r.day r.api_key_id).tokens_used + actual ≤ max_int64
    → (t.user_counters r.day r.user_id).tokens_used + actual ≤ max_int64
    → (u : Tables) × (settle_quota id actual t ≡ ok u)
unfolding settle_quota settle_as
settle_quota-returns id actual t r v found state key_range user_range key_room user_room =
    let key_row = t.key_counters r.day r.api_key_id in
    let user_row = t.user_counters r.day r.user_id in
    let key =
      counted-held (of_key r.day r.api_key_id) id t.reservations r key_row (unfold mark in refl)
        (row_of r.day r.api_key_id) found state (v.keys r.day r.api_key_id) in
    let user =
      counted-held (of_user r.day r.user_id) id t.reservations r user_row (unfold mark in refl)
        (row_of r.day r.user_id) found state (v.users r.day r.user_id) in
    let (key_fits, key_enough) =
      settle_row-fits r.reserved_tokens actual key_row key.0 key.1 key_range key_room in
    let (user_fits, user_enough) =
      settle_row-fits r.reserved_tokens actual user_row user.0 user.1 user_range user_room in
    (
      close r (settle_counter r.reserved_tokens actual) (mark settled (some actual)) t,
      rw (settle_quota, found)
          (ap (λ (s : State). settle_as s actual r t) state
            ∙ rw (key_fits, user_fits, key_enough, user_enough) refl),
    )

below_limit :
    (scope dimension : String) (limit current retry : ℕ)
    → enforce_quota scope dimension limit current retry ≡ ok tt
    → 0 < limit
    → current + 1 ≤ limit
unfolding enforce_quota
below_limit scope dimension limit current retry h p = ground arith

-- After a request is admitted, the requests of its key and of its user on its day are within their
-- daily limits, where these are set.
pub reserve_quota-within :
    (p : Params) (t u : Tables)
    → reserve_quota p t ≡ ok u
    → (0 < p.limits.key_daily
        → (u.key_counters p.day p.api_key_id).requests_reserved ≤ p.limits.key_daily)
      × (0 < p.limits.user_daily
          → (u.user_counters p.day p.user_id).requests_reserved ≤ p.limits.user_daily)
unfolding admit on_row reserve_counter
reserve_quota-within p t u h =
    let a = reserve_quota-Admission p t u h in
    rw (a.result, row_of p.day p.api_key_id, row_of p.day p.user_id)
      (
        λ set. below_limit _ _ p.limits.key_daily _ _ a.key_daily set,
        λ set. below_limit _ _ p.limits.user_daily _ _ a.user_daily set,
      )
