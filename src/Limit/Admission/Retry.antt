-- ===== src/Limit/Admission/Retry.antt =====
-- How long a rejection asks the client to wait.
use codex_gateway.Base.{
  ℕ, zero, suc, ◌+◌, ◌*◌, ◌≤◌, ◌<◌, true, ◌||◌, List, [], ◌∷◌, ◌≡◌, ◌⊎◌, inl, inr, arith, str_eq,
  Result, ok, err, Bool-cases, Option-cases,
}
use native.Mathlib.Nat.{mod-lt}
use codex_gateway.Base.Int.{ℤ, pos, negsuc, ◌+ℤ◌, ◌-ℤ◌}
use codex_gateway.Limit.Types.{Identity, Config, LimitError, positive, second, retry_after_seconds}
use codex_gateway.Limit.Daily.{Context, DailyReservation, validate_context}
use codex_gateway.Limit.Limiter.{Limiter, LocalReservation, truncate, reserve_local, new}
use codex_gateway.Limit.Admission.{
  Location, DailyStore, StoreReply, until_next_day, after_store, ask_store, after_local, acquire,
}
use codex_gateway.Limit.Admission.AcquireError.{limit as over}

-- The seconds of a wait: 1 where nothing is left to wait for, and else the wait rounded up.
pub data Seconds : ℤ → ℕ → Type 0 where
  overdue : (n : ℕ) → Seconds (negsuc n) 1
  none_left : Seconds (pos 0) 1
  rounded_up : (n s : ℕ) → 0 < n → n ≤ s * second → s * second < n + second → Seconds (pos n) s

-- The Retry-After header of a wait is never 0: it is 1 where the wait is zero or negative, and else the
-- wait in whole seconds, rounded up.
pub retry_after_seconds_ceil :
    (w : ℤ) → (1 ≤ retry_after_seconds w) × Seconds w (retry_after_seconds w)
unfolding retry_after_seconds
retry_after_seconds_ceil (negsuc n) = (omega arith, Seconds.overdue n)
retry_after_seconds_ceil (pos zero) = (omega arith, Seconds.none_left)
retry_after_seconds_ceil (pos (suc n)) = (
  ground arith,
  Seconds.rounded_up (suc n) (retry_after_seconds (pos (suc n))) (omega arith) (ground arith)
      (ground arith),
)

new-positive :
    (c : Config) (l : Limiter)
    → new c ≡ ok l
    → (positive l.config.window ≡ true) × (positive l.config.concurrency_retry_after ≡ true)
unfolding new
new-positive c l h = ground arith

window_wait :
    (w : ℤ) (now : ℕ) → positive w ≡ true → positive (pos (truncate now w) +ℤ w -ℤ pos now) ≡ true
unfolding ◌+ℤ◌ ◌-ℤ◌
window_wait (pos d) now h = ground (arith, λ (above : 0 < d). mod-lt now above)
window_wait (negsuc d) now h = cc

until_next_day-positive : (loc : Location) (now : ℕ) → positive (until_next_day loc now) ≡ true
unfolding until_next_day
until_next_day-positive loc now = ground arith

reserve_local-retry :
    (l : Limiter) (identity : Identity) (now : ℕ) (e : LimitError)
    → (reserve_local l identity now).1 ≡ err e
    → (e.retry_after ≡ pos (truncate now l.config.window) +ℤ l.config.window -ℤ pos now)
      ⊎ (e.retry_after ≡ l.config.concurrency_retry_after)
unfolding reserve_local
reserve_local-retry l identity now e h = ground arith

module _ (store : DailyStore) (loc : Location) (now : ℕ) (identity : Identity) (ctx : Context) where
  open store use {State}

  after_store-retry :
      (l : Limiter) (r : LocalReservation) (p : State × StoreReply) (e : LimitError)
      → (after_store store loc l r now p).2 ≡ err (over e)
      → e.retry_after ≡ until_next_day loc now
  unfolding after_store
  after_store-retry l r (st, reply) e h = ground arith

  ask_store-retry :
      (l : Limiter) (st : State) (r : LocalReservation) (ds : List DailyReservation)
      (e : LimitError)
      → (ask_store store loc l st ctx now r ds).2 ≡ err (over e)
      → e.retry_after ≡ until_next_day loc now
  unfolding ask_store
  ask_store-retry l st r [] e h = cc
  ask_store-retry l st r (d ∷ ds) e h = after_store-retry l r _ e h

  after_local-retry :
      (st : State) (p : Limiter × Result LimitError LocalReservation) (e : LimitError)
      → (after_local store loc st ctx now identity p).2 ≡ err (over e)
      → (p.1 ≡ err e) ⊎ (e.retry_after ≡ until_next_day loc now)
  unfolding after_local
  after_local-retry st (l, err x) e h = inl (cc)
  after_local-retry st (l, ok r) e h = inr (ask_store-retry l st r _ e h)

  acquire-local :
      (l : Limiter) (st : State) (e : LimitError)
      → (acquire store loc l st ctx identity now).2 ≡ err (over e)
      → ((reserve_local l identity now).1 ≡ err e) ⊎ (e.retry_after ≡ until_next_day loc now)
  unfolding acquire
  acquire-local l st e h = elim (Option-cases (validate_context ctx)) [
    | inr (bad, wrong) ↦ cc (rw (wrong, acquire) at h)
    | inl fine ↦ elim (Bool-cases (str_eq identity.key_id "" || str_eq identity.user_id "")) [
      | inl empty ↦ cc (rw empty at (rw (fine, acquire) at h))
      | inr named ↦
          after_local-retry st (reserve_local l identity now) e
            (rw named at (rw (fine, acquire) at h))
    ]
  ]

  -- With the settings of a new limiter, a call of `Acquire` that a limit rejects asks the client to
  -- wait for a positive time, whichever limit it is and wherever in the window the call falls.
  pub acquire-retry_after :
      (c : Config) (fresh l : Limiter) (st : State) (e : LimitError)
      → new c ≡ ok fresh
      → l.config ≡ fresh.config
      → (acquire store loc l st ctx identity now).2 ≡ err (over e)
      → positive e.retry_after ≡ true
  acquire-retry_after c fresh l st e made same h =
      let (window, hold) = new-positive c fresh made in
      elim (acquire-local l st e h) [
        | inr until ↦ rw until (until_next_day-positive loc now)
        | inl local ↦ elim (reserve_local-retry l identity now e local) [
          | inl wait ↦ rw (wait, same) (window_wait fresh.config.window now window)
          | inr wait ↦ rw (wait, same) hold
        ]
      ]
