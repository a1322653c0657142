-- ===== src/Limit/Examples.antt =====
-- Tests of the admission control, and its theorems at concrete inputs.
use codex_gateway.Base.{
  ℕ, ◌+◌, ◌≤◌, String, true, false, ◌&&◌, none, some, List, [], ◌∷◌, ◌≡◌, refl, ◌↔◌, arith,
  if◌then◌else◌, str_eq, ok, err, All,
}
use codex_gateway.Base.Int.{pos, negsuc}
use codex_gateway.Limit.Types.{
  Scope, Reason, Identity, Config, LimitError, positive, second, minute, retry_after_seconds,
}
use codex_gateway.Limit.Limiter.{Limiter, LocalReservation, new, reserve_local, snapshot}
use codex_gateway.Limit.Reserve.{exceeds}
use codex_gateway.Limit.Daily.{
  Context, DailyReservation, Usage, new_memory_daily_store, reserve_requests, validate_context,
  validate_day, validate_reservations, refused, count_all, max_int64,
}
use codex_gateway.Limit.DailyLaws.{is_listed, reserve_requests-counts, reserve_requests-within}
use codex_gateway.Limit.Admission.{
  Location, DailyStore, AcquireError, acquire, here, next, start, reserves,
}
use codex_gateway.Limit.Admission.StoreReply.{failed}
use codex_gateway.Limit.Admission.Bounds.{Holds, reachable-Holds}
use codex_gateway.Limit.Admission.Rejection.{HasRoom, reserve_local-HasRoom, acquire-snapshot}
use codex_gateway.Limit.Admission.Retry.{Seconds, retry_after_seconds_ceil, acquire-retry_after}

abbrev alice : Identity
alice = record { key_id = "k1"; user_id = "alice" }

abbrev one_slot : Config
one_slot = record {
  key = record { requests_per_minute = pos 2; concurrent = pos 1; requests_per_day = pos 5 };
  user = record { requests_per_minute = pos 0; concurrent = pos 0; requests_per_day = pos 0 };
  global_concurrent = pos 3;
  window = pos 0;
  concurrency_retry_after = pos 0;
  has_daily_store = true;
}

abbrev fresh : Limiter
fresh = record {
  config = record one_slot { window = pos minute; concurrency_retry_after = pos second };
  key_rpm = λ _. none;
  user_rpm = λ _. none;
  key_concurrent = λ _. 0;
  user_concurrent = λ _. 0;
  global_current = 0;
}

new-one_slot : new one_slot ≡ ok fresh
unfolding new
new-one_slot = refl

abbrev held : Limiter
held = (reserve_local fresh alice 90_000_000_000).0

abbrev slot : LocalReservation
slot = record {
  identity = alice;
  window = minute;
  key_rpm = true;
  user_rpm = false;
  concurrent = true;
}

first_fits : (reserve_local fresh alice 90_000_000_000).1 ≡ ok slot
unfolding reserve_local
first_fits = refl

-- The second request of the same key is refused, with the wait of a concurrency limit.
second_refused :
    (reserve_local held alice 90_000_000_000).1
    ≡ err (record {
      scope = Scope.key;
      reason = Reason.concurrency;
      retry_after = pos second;
      limit = pos 1;
    })
unfolding reserve_local
second_refused = refl

reachable-Holds_example :
    Holds fresh.config (record { limiter = held; pending = slot ∷ []; tickets = [] })
unfolding start
reachable-Holds_example =
    reachable-Holds one_slot fresh (record { limiter = held; pending = slot ∷ []; tickets = [] })
      new-one_slot (next here (reserves alice 90_000_000_000 slot first_fits))

abbrev closed : DailyStore
closed = record { State = ℕ; reserve = λ st ctx day rs. (st, failed) }

abbrev utc : Location
utc = record { day_at = λ _. "2026-01-02"; next_day = λ t. t + 1 }

abbrev live : Context
live = some none

closed_fails :
    (acquire closed utc fresh 0 live alice 90_000_000_000).2 ≡ err AcquireError.daily_failed
unfolding acquire validate_context reserve_local
closed_fails = refl

acquire-snapshot_example :
    snapshot (acquire closed utc fresh 0 live alice 90_000_000_000).0 alice 90_000_000_000
    ≡ snapshot fresh alice 90_000_000_000
acquire-snapshot_example =
    acquire-snapshot closed utc 90_000_000_000 alice alice live fresh 0 AcquireError.daily_failed
      closed_fails

reserve_local-HasRoom_example :
    ((r : LocalReservation) × ((reserve_local held alice 90_000_000_000).1 ≡ ok r))
    ↔ HasRoom held.config (snapshot held alice 90_000_000_000)
reserve_local-HasRoom_example = reserve_local-HasRoom held alice 90_000_000_000

-- A wait that is over, and one of a second and a half.
past_wait : retry_after_seconds (negsuc 7) ≡ 1
unfolding retry_after_seconds
past_wait = refl

long_wait : retry_after_seconds (pos 1_500_000_000) ≡ 2
unfolding retry_after_seconds
long_wait = refl

retry_after_seconds_ceil_example :
    (1 ≤ retry_after_seconds (pos 1_500_000_000))
    × Seconds (pos 1_500_000_000) (retry_after_seconds (pos 1_500_000_000))
retry_after_seconds_ceil_example = retry_after_seconds_ceil (pos 1_500_000_000)

abbrev busy_reply : LimitError
busy_reply = record {
  scope = Scope.key;
  reason = Reason.concurrency;
  retry_after = pos second;
  limit = pos 1;
}

acquire_refused :
    (acquire closed utc held 0 live alice 90_000_000_000).2 ≡ err (AcquireError.limit busy_reply)
unfolding acquire validate_context reserve_local
acquire_refused = refl

acquire-retry_after_example : positive (pos second) ≡ true
unfolding reserve_local
acquire-retry_after_example =
    acquire-retry_after closed utc 90_000_000_000 alice live one_slot fresh held 0 busy_reply
      new-one_slot refl acquire_refused

abbrev wanted : List DailyReservation
wanted =
    record { scope = Scope.key; id = "k1"; request_limit = pos 1 }
    ∷ record { scope = Scope.user; id = "alice"; request_limit = pos 9 }
    ∷ []

reserve_wanted :
    reserve_requests new_memory_daily_store live none "2026-02-28" wanted
    ≡ ok (count_all new_memory_daily_store "2026-02-28" wanted)
unfolding reserve_requests validate_context validate_day validate_reservations refused
    new_memory_daily_store
reserve_wanted = refl

zero_fits : (scope : Scope) (id : String) → new_memory_daily_store "2026-02-28" scope id ≤ max_int64
unfolding new_memory_daily_store
zero_fits scope id = omega arith

abbrev counted : Usage
counted = count_all new_memory_daily_store "2026-02-28" wanted

reserve_requests-counts_example :
    (counted "2026-02-28" Scope.key "k1" ≡ (
      if str_eq "2026-02-28" "2026-02-28" && is_listed wanted Scope.key "k1"
      then new_memory_daily_store "2026-02-28" Scope.key "k1" + 1
      else new_memory_daily_store "2026-02-28" Scope.key "k1"))
    × (counted "2026-02-28" Scope.key "k1" ≤ max_int64)
reserve_requests-counts_example =
    reserve_requests-counts new_memory_daily_store live none "2026-02-28" wanted counted
      "2026-02-28" Scope.key "k1" (zero_fits Scope.key "k1") reserve_wanted

reserve_requests-within_example :
    All (λ r. exceeds r.request_limit (counted "2026-02-28" r.scope r.id) ≡ false) wanted
reserve_requests-within_example =
    reserve_requests-within new_memory_daily_store live none "2026-02-28" wanted counted zero_fits
      reserve_wanted
