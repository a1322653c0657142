-- ===== src/Store/Quota.antt =====
-- The request quotas of internal/store/quota.go: the transactions that reserve, settle and release a
-- request, on the rows of the tables. Counts are natural numbers, as the checks of the columns say, and
-- the columns are BIGINT: an update that takes one past `max_int64`, or that breaks the check that no more
-- requests are completed than reserved, fails, which mapDBError makes ErrInvalid. Request ids are unique,
-- so that an update by request id meets one row.
pub mod Rows
pub mod Tally
pub mod Transactions
mod Examples
use codex_gateway.Base.{
  ℕ, suc, ◌+◌, ◌-◌, ◌*◌, ◌/◌, String, str_eq, Bool, true, false, not, ◌||◌, ◌&&◌, ltb, leb, ◌==◌,
  if◌then◌else◌, Option, none, some, List, [], ◌∷◌, Result, ok, err, ◌>>=◌, ◌>>◌, guard, length,
}
use codex_gateway.Store.Quota.Rows.{
  Error, Limits, State, Reservation, Lease, Counter, Tables, Params, conflict, not_found, affected,
  invalid, exceeded, reserved, settled, released,
}

-- `enforceQuota`, for one request more.
unfoldable pub enforce_quota : String → String → ℕ → ℕ → ℕ → Result Error (Unit {0})
enforce_quota scope dimension limit current retry =
    guard (limit == 0 || leb (current + 1) limit) (exceeded scope dimension limit current retry)

-- DELETE … WHERE lease_expires_at <= now.
unfoldable pub expire : ℕ → List Lease → List Lease
expire now [] = []
expire now (l ∷ ls) = let rest = expire now ls in if leb l.expires now then rest else l ∷ rest

unfoldable pub count_leases : (Lease → Bool) → List Lease → ℕ
count_leases p [] = 0
count_leases p (l ∷ ls) = (if p l then 1 else 0) + count_leases p ls

-- An update of the row of one id on one day, and of one id in one window.
unfoldable pub on_row :
    String → String → (Counter → Counter) → (String → String → Counter) → String → String → Counter
on_row day id f rows d i = if str_eq d day && str_eq i id then f (rows d i) else rows d i

unfoldable pub on_rate : ℕ → String → (ℕ → String → ℕ) → ℕ → String → ℕ
on_rate window id rates w i = if (w == window) && str_eq i id then suc (rates w i) else rates w i

unfoldable pub reserve_counter : ℕ → Counter → Counter
reserve_counter tokens c = record {
  requests_reserved = c.requests_reserved + 1;
  requests_completed = c.requests_completed;
  tokens_reserved = c.tokens_reserved + tokens;
  tokens_used = c.tokens_used;
}

unfoldable pub settle_counter : ℕ → ℕ → Counter → Counter
settle_counter tokens actual c = record {
  requests_reserved = c.requests_reserved;
  requests_completed = c.requests_completed + 1;
  tokens_reserved = c.tokens_reserved - tokens;
  tokens_used = c.tokens_used + actual;
}

unfoldable pub release_counter : ℕ → Counter → Counter
release_counter tokens c = record {
  requests_reserved = c.requests_reserved - 1;
  requests_completed = c.requests_completed;
  tokens_reserved = c.tokens_reserved - tokens;
  tokens_used = c.tokens_used;
}

abbrev pub max_int64 : ℕ
max_int64 = 9_223_372_036_854_775_807

-- The values that `reserveQuotaLockedTx` writes are in the range of their columns.
unfoldable pub reserve_fits : ℕ → Counter → ℕ → Bool
reserve_fits tokens c rate =
    leb (rate + 1) max_int64
    && leb (c.requests_reserved + 1) max_int64
    && leb (c.tokens_reserved + tokens) max_int64

unfoldable pub find : String → List Reservation → Option Reservation
find id [] = none
find id (r ∷ rs) = let rest = find id rs in if str_eq r.request_id id then some r else rest

is_new : Option Reservation → Bool
is_new none = true
is_new (some r) = false

abbrev pub second : ℕ
second = 1_000_000_000

abbrev pub minute : ℕ
minute = 60 * second

-- The rows after the checks.
pub admit : Params → ℕ → List Lease → Tables → Tables
unfolding on_row on_rate reserve_counter
admit p window live t = record {
  key_counters = on_row p.day p.api_key_id (reserve_counter p.reserved_tokens) t.key_counters;
  user_counters = on_row p.day p.user_id (reserve_counter p.reserved_tokens) t.user_counters;
  key_rates = on_rate window p.api_key_id t.key_rates;
  user_rates = on_rate window p.user_id t.user_rates;
  leases =
      record {
        request_id = p.request_id;
        user_id = p.user_id;
        api_key_id = p.api_key_id;
        expires = p.now + p.lease_ttl;
      }
      ∷ live;
  reservations =
      record {
        request_id = p.request_id;
        day = p.day;
        user_id = p.user_id;
        api_key_id = p.api_key_id;
        reserved_tokens = p.reserved_tokens;
        state = reserved;
        actual_tokens = none;
      }
      ∷ t.reservations;
}

retry_minute : ℕ → ℕ → ℕ
retry_minute window now =
    if ltb (window + minute - now) second then second else window + minute - now

-- `reserveQuotaLockedTx`.
unfoldable pub reserve_quota : Params → Tables → Result Error Tables
unfolding expire count_leases enforce_quota retry_minute reserve_fits find is_new admit
reserve_quota p t = do
  let window = p.now / minute * minute
  let live = expire p.now t.leases
  enforce_quota "key" "concurrency" p.limits.key_concurrent
      (count_leases (λ (l : Lease). str_eq l.api_key_id p.api_key_id) live) second
  enforce_quota "user" "concurrency" p.limits.user_concurrent
      (count_leases (λ (l : Lease). str_eq l.user_id p.user_id) live) second
  enforce_quota "global" "concurrency" p.limits.global_concurrent
      (count_leases (λ (l : Lease). true) live) second
  enforce_quota "key" "rpm" p.limits.key_rpm (t.key_rates window p.api_key_id)
      (retry_minute window p.now)
  enforce_quota "user" "rpm" p.limits.user_rpm (t.user_rates window p.user_id)
      (retry_minute window p.now)
  enforce_quota "key" "daily_requests" p.limits.key_daily
      (t.key_counters p.day p.api_key_id).requests_reserved (86_400 * second)
  enforce_quota "user" "daily_requests" p.limits.user_daily
      (t.user_counters p.day p.user_id).requests_reserved (86_400 * second)
  guard
      (reserve_fits p.reserved_tokens (t.key_counters p.day p.api_key_id)
          (t.key_rates window p.api_key_id)
        && reserve_fits p.reserved_tokens (t.user_counters p.day p.user_id)
            (t.user_rates window p.user_id))
      invalid
  guard (is_new (find p.request_id t.reservations)) conflict
  ok (admit p window live t)

-- UPDATE quota_reservations SET state, actual_tokens WHERE request_id = $1.
unfoldable pub mark : State → Option ℕ → Reservation → Reservation
mark s actual r = record {
  request_id = r.request_id;
  day = r.day;
  user_id = r.user_id;
  api_key_id = r.api_key_id;
  reserved_tokens = r.reserved_tokens;
  state = s;
  actual_tokens = actual;
}

unfoldable pub replace : String → (Reservation → Reservation) → List Reservation → List Reservation
replace id f [] = []
replace id f (r ∷ rs) =
    let rest = replace id f rs in if str_eq r.request_id id then f r ∷ rs else r ∷ rest

-- DELETE FROM concurrency_leases WHERE request_id = $1.
unfoldable pub drop_lease : String → List Lease → List Lease
drop_lease id [] = []
drop_lease id (l ∷ ls) =
    let rest = drop_lease id ls in if str_eq l.request_id id then rest else l ∷ rest

-- The rows of both scopes change, the reservation is marked and the lease goes.
pub close : Reservation → (Counter → Counter) → (Reservation → Reservation) → Tables → Tables
unfolding on_row replace drop_lease
close r f g t = record {
  key_counters = on_row r.day r.api_key_id f t.key_counters;
  user_counters = on_row r.day r.user_id f t.user_counters;
  key_rates = t.key_rates;
  user_rates = t.user_rates;
  leases = drop_lease r.request_id t.leases;
  reservations = replace r.request_id g t.reservations;
}

-- A settled reservation may be settled again with the same number of tokens.
settled_again : ℕ → Option ℕ → Tables → Result Error Tables
settled_again actual none t = err conflict
settled_again actual (some before) t = if before == actual then ok t else err conflict

-- Both rows have the tokens that the reservation holds.
settle_row : ℕ → Counter → Bool
settle_row tokens c = leb tokens c.tokens_reserved

-- The update of a row that has them is in the range of the columns and keeps the check of the counts.
settle_fits : ℕ → ℕ → Counter → Bool
unfolding settle_row
settle_fits tokens actual c =
    not (settle_row tokens c)
    || leb (c.requests_completed + 1) max_int64
      && leb (c.tokens_used + actual) max_int64
      && leb (c.requests_completed + 1) c.requests_reserved

settle_as : State → ℕ → Reservation → Tables → Result Error Tables
unfolding settled_again settle_row settle_fits close settle_counter mark
settle_as settled actual r t = settled_again actual r.actual_tokens t
settle_as released actual r t = err conflict
settle_as reserved actual r t = do
  let key = t.key_counters r.day r.api_key_id
  let user = t.user_counters r.day r.user_id
  guard (settle_fits r.reserved_tokens actual key && settle_fits r.reserved_tokens actual user)
      invalid
  guard (settle_row r.reserved_tokens key && settle_row r.reserved_tokens user) affected
  ok (close r (settle_counter r.reserved_tokens actual) (mark settled (some actual)) t)

-- `settleQuotaTx`.
unfoldable pub settle_quota : String → ℕ → Tables → Result Error Tables
unfolding settle_as
settle_quota id actual t = elim (find id t.reservations) [
  | none ↦ err not_found
  | some r ↦ settle_as r.state actual r t
]

release_row : ℕ → Counter → Bool
release_row tokens c = ltb 0 c.requests_reserved && leb tokens c.tokens_reserved

-- The update of such a row keeps the check of the counts.
release_fits : ℕ → Counter → Bool
unfolding release_row
release_fits tokens c =
    not (release_row tokens c) || leb c.requests_completed (c.requests_reserved - 1)

release_as : State → Reservation → Tables → Result Error Tables
unfolding release_row release_fits close release_counter mark
release_as released r t = ok t
release_as settled r t = err conflict
release_as reserved r t = do
  let key = t.key_counters r.day r.api_key_id
  let user = t.user_counters r.day r.user_id
  guard (release_fits r.reserved_tokens key && release_fits r.reserved_tokens user) invalid
  guard (release_row r.reserved_tokens key && release_row r.reserved_tokens user) affected
  ok (close r (release_counter r.reserved_tokens) (mark released none) t)

-- `releaseQuotaTx`.
unfoldable pub release_quota : String → Tables → Result Error Tables
unfolding release_as
release_quota id t = elim (find id t.reservations) [
  | none ↦ err not_found
  | some r ↦ release_as r.state r t
]

-- The transactions of the gateway on these tables, one after another; one that fails is rolled back.
pub data Transaction : Type 0 where
  reserves : Params → Transaction
  settles : String → ℕ → Transaction
  releases : String → Transaction

unfoldable pub transact : Transaction → Tables → Result Error Tables
transact (reserves p) t = reserve_quota p t
transact (settles id actual) t = settle_quota id actual t
transact (releases id) t = release_quota id t

or_rollback : Tables → Result Error Tables → Tables
or_rollback t (ok u) = u
or_rollback t (err e) = t

unfoldable pub transact_all : List Transaction → Tables → Tables
unfolding transact or_rollback
transact_all [] t = t
transact_all (x ∷ xs) t = transact_all xs (or_rollback t (transact x t))

abbrev pub no_requests : Counter
no_requests = record {
  requests_reserved = 0;
  requests_completed = 0;
  tokens_reserved = 0;
  tokens_used = 0;
}

abbrev pub empty : Tables
empty = record {
  key_counters = λ (day id : String). no_requests;
  user_counters = λ (day id : String). no_requests;
  key_rates = λ (w : ℕ) (id : String). 0;
  user_rates = λ (w : ℕ) (id : String). 0;
  leases = [];
  reservations = [];
}
