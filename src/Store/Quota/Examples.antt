-- ===== src/Store/Quota/Examples.antt =====
-- Runs of the quota transactions, and their theorems at concrete requests.
use codex_gateway.Base.{
  ◌+◌, ◌-◌, arith, ◌*◌, ◌≤◌, ◌<◌, ◌≡◌, refl, String, none, some, List, [], ◌∷◌, ok, err,
}
use codex_gateway.Store.Quota.{
  Transaction, reserves, settles, releases, transact_all, empty, reserve_quota, settle_quota, find,
  second, minute, admit, expire, count_leases, on_row, on_rate, max_int64, reserve_counter,
}
use codex_gateway.Store.Quota.Rows.{
  Params, Limits, Tables, Reservation, exceeded, reserved, invalid,
}
use codex_gateway.Store.Quota.Tally.{IsConsistent}
use codex_gateway.Store.Quota.Transactions.{
  transact_all-IsConsistent, IsConsistent-empty, settle_quota-returns, reserve_quota-within,
}

abbrev limits : Limits
limits = record {
  key_rpm = 30;
  user_rpm = 60;
  key_concurrent = 16;
  user_concurrent = 16;
  global_concurrent = 32;
  key_daily = 1;
  user_daily = 20000;
}

abbrev request : String → Params
request id = record {
  request_id = id;
  day = "2025-01-31";
  user_id = "u";
  api_key_id = "k";
  reserved_tokens = 500;
  now = 90 * second;
  lease_ttl = 300 * second;
  limits = limits;
}

abbrev open_tables : Tables
open_tables = admit (request "r1") minute [] empty

reserve_one : reserve_quota (request "r1") empty ≡ ok open_tables
unfolding reserve_quota
reserve_one = refl

abbrev open_reservation : Reservation
open_reservation = record {
  request_id = "r1";
  day = "2025-01-31";
  user_id = "u";
  api_key_id = "k";
  reserved_tokens = 500;
  state = reserved;
  actual_tokens = none;
}

find_one : find "r1" open_tables.reservations ≡ some open_reservation
unfolding find admit
find_one = refl

-- The second request of the day is one too many for the key.
refused_one :
    reserve_quota (request "r2") open_tables
    ≡ err (exceeded "key" "daily_requests" 1 1 (86_400 * second))
unfolding reserve_quota admit on_row on_rate expire count_leases
refused_one = refl

reserve_quota-within_example :
    (0 < 1 → (open_tables.key_counters "2025-01-31" "k").requests_reserved ≤ 1)
    × (0 < 20000 → (open_tables.user_counters "2025-01-31" "u").requests_reserved ≤ 20000)
reserve_quota-within_example = reserve_quota-within (request "r1") empty open_tables reserve_one

abbrev day_of_requests : List Transaction
day_of_requests =
    reserves (request "r1") ∷ reserves (request "r2") ∷ settles "r1" 700 ∷ releases "r1" ∷ []

transact_all-IsConsistent_example : IsConsistent (transact_all day_of_requests empty)
transact_all-IsConsistent_example =
    transact_all-IsConsistent day_of_requests empty IsConsistent-empty

found_one :
    find "r1" (transact_all (reserves (request "r1") ∷ []) empty).reservations
    ≡ some open_reservation
unfolding find transact_all reserve_quota admit
found_one = refl

abbrev after_one : Tables
after_one = transact_all (reserves (request "r1") ∷ []) empty

small_rows :
    ((after_one.key_counters "2025-01-31" "k").requests_reserved ≤ max_int64)
    × ((after_one.user_counters "2025-01-31" "u").requests_reserved ≤ max_int64)
    × ((after_one.key_counters "2025-01-31" "k").tokens_used + 700 ≤ max_int64)
    × ((after_one.user_counters "2025-01-31" "u").tokens_used + 700 ≤ max_int64)
unfolding transact_all reserve_quota admit on_row reserve_counter
small_rows = (omega arith, omega arith, omega arith, omega arith)

settle_quota-returns_example : (u : Tables) × (settle_quota "r1" 700 after_one ≡ ok u)
settle_quota-returns_example =
    settle_quota-returns "r1" 700 after_one open_reservation
      (transact_all-IsConsistent (reserves (request "r1") ∷ []) empty IsConsistent-empty) found_one
      refl small_rows.0 small_rows.1 small_rows.2 small_rows.3

-- One token less than the column holds is used: two more do not fit.
full_one :
    settle_quota "r1" 2 (record open_tables {
      user_counters = λ (day id : String). record {
        requests_reserved = 1;
        requests_completed = 0;
        tokens_reserved = 500;
        tokens_used = max_int64 - 1;
      };
    })
    ≡ err invalid
unfolding settle_quota find admit on_row reserve_counter
full_one = refl
