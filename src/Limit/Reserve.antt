-- ===== src/Limit/Reserve.antt =====
-- When `reserveLocal` admits a request, and the state that it leaves.
use codex_gateway.Base.{ltb, ℕ, suc, Bool, true, false, some, ◌≡◌, arith, if◌then◌else◌, ok, err}
use codex_gateway.Base.Int.{ℤ, pos, negsuc}
use codex_gateway.Limit.Types.{Identity, LimitError, positive, reached, update}
use codex_gateway.Limit.Limiter.{
  Limiter, LocalReservation, active_counter, truncate, bump, reserve_local,
}

-- More than an enabled limit allows.
abbrev pub exceeds : ℤ → ℕ → Bool
exceeds (pos n) count = if ltb 0 n then ltb n count else false
exceeds (negsuc n) count = false

-- Every enabled limit has room for one request more.
pub record Admits (l : Limiter) (identity : Identity) (now : ℕ) : Type 0 where
  pub key_rate :
      reached l.config.key.requests_per_minute
        (active_counter (l.key_rpm identity.key_id) (truncate now l.config.window)).count
      ≡ false
  pub user_rate :
      reached l.config.user.requests_per_minute
        (active_counter (l.user_rpm identity.user_id) (truncate now l.config.window)).count
      ≡ false
  pub key_free : reached l.config.key.concurrent (l.key_concurrent identity.key_id) ≡ false
  pub user_free : reached l.config.user.concurrent (l.user_concurrent identity.user_id) ≡ false
  pub global_free : reached l.config.global_concurrent l.global_current ≡ false

module _ (l : Limiter) (identity : Identity) (now : ℕ) where
  window_of : ℕ
  window_of = truncate now l.config.window

  -- The counters with the two of this request moved to the current window.
  abbrev pub touched : Limiter
  touched = record l {
    key_rpm =
        update l.key_rpm identity.key_id
          (some (active_counter (l.key_rpm identity.key_id) (truncate now l.config.window)));
    user_rpm =
        update l.user_rpm identity.user_id
          (some (active_counter (l.user_rpm identity.user_id) (truncate now l.config.window)));
  }

  abbrev pub admitted : Limiter
  admitted = record l {
    key_rpm = update l.key_rpm identity.key_id (
        some (
          bump (positive l.config.key.requests_per_minute)
            (active_counter (l.key_rpm identity.key_id) (truncate now l.config.window))));
    user_rpm = update l.user_rpm identity.user_id (
        some (
          bump (positive l.config.user.requests_per_minute)
            (active_counter (l.user_rpm identity.user_id) (truncate now l.config.window))));
    key_concurrent =
        update l.key_concurrent identity.key_id (suc (l.key_concurrent identity.key_id));
    user_concurrent =
        update l.user_concurrent identity.user_id (suc (l.user_concurrent identity.user_id));
    global_current = suc l.global_current;
  }

  abbrev pub reservation : LocalReservation
  reservation = record {
    identity = identity;
    window = truncate now l.config.window;
    key_rpm = positive l.config.key.requests_per_minute;
    user_rpm = positive l.config.user.requests_per_minute;
    concurrent = true;
  }

  pub reserved : Admits l identity now → reserve_local l identity now ≡ (admitted, ok reservation)
  unfolding reserve_local
  reserved a = rw (a.key_rate, a.user_rate, a.key_free, a.user_free, a.global_free)

  pub admission :
      (r : LocalReservation) → (reserve_local l identity now).1 ≡ ok r → Admits l identity now
  unfolding reserve_local
  admission r h = ground arith

  pub refused :
      (e : LimitError)
      → (reserve_local l identity now).1 ≡ err e
      → reserve_local l identity now ≡ (touched, err e)
  unfolding reserve_local
  refused e h = ground arith
