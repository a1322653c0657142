-- ===== src/Limit/Admission/Rejection.antt =====
-- What a rejected call of `Acquire` leaves behind, and how long it asks the client to wait.
use codex_gateway.Base.{
  ℕ, suc, ◌-◌, String, false, ◌||◌, Option, none, some, List, [], ◌∷◌, ◌≡◌, refl, ap, ◌∙◌, ◌↔◌, inl,
  inr, arith, if◌then◌else◌, str_eq, eq_iff, ltb, ok, err, Bool-cases, Option-cases, Result-cases,
}
use codex_gateway.Base.Int.{ℤ, pos, ◌+ℤ◌}
use codex_gateway.Limit.Types.{Identity, Config, positive, reached, update}
use codex_gateway.Limit.Daily.{Context, DailyReservation, validate_context}
use codex_gateway.Limit.Limiter.{
  Limiter, LocalReservation, WindowCounter, Snapshot, active_counter, truncate, bump, lower,
  uncount, in_window, uncount_rates, reserve_local, rollback_local, release_concurrent_locked,
  snapshot,
}
use codex_gateway.Limit.Reserve.{
  Admits, admission, touched, admitted, reservation, reserved, refused,
}
use codex_gateway.Limit.Admission.{
  Location, DailyStore, StoreReply, AcquireError, after_store, ask_store, after_local, acquire,
}

count_active :
    (o : Option WindowCounter) (window : ℕ) → (active_counter o window).count ≡ in_window o window
unfolding active_counter
count_active none window = refl
count_active (some c) window = ground arith

start_active : (o : Option WindowCounter) (window : ℕ) → (active_counter o window).start ≡ window
unfolding active_counter
start_active none window = refl
start_active (some c) window = ground arith

-- The diagnostic view shows room below every enabled limit.
pub record HasRoom (c : Config) (view : Snapshot) : Type 0 where
  pub key_rate : reached c.key.requests_per_minute view.key_rpm ≡ false
  pub user_rate : reached c.user.requests_per_minute view.user_rpm ≡ false
  pub key_free : reached c.key.concurrent view.key_concurrent ≡ false
  pub user_free : reached c.user.concurrent view.user_concurrent ≡ false
  pub global_free : reached c.global_concurrent view.global_concurrent ≡ false

module _ (l : Limiter) (identity : Identity) (now : ℕ) where
  HasRoom-Admits : HasRoom l.config (snapshot l identity now) → Admits l identity now
  unfolding snapshot
  HasRoom-Admits r = record {
    key_rate = rw (count_active (l.key_rpm identity.key_id) _) r.key_rate;
    user_rate = rw (count_active (l.user_rpm identity.user_id) _) r.user_rate;
    key_free = r.key_free;
    user_free = r.user_free;
    global_free = r.global_free;
  }

  Admits-HasRoom : Admits l identity now → HasRoom l.config (snapshot l identity now)
  unfolding snapshot
  Admits-HasRoom a = record {
    key_rate = rw (← count_active (l.key_rpm identity.key_id) _) a.key_rate;
    user_rate = rw (← count_active (l.user_rpm identity.user_id) _) a.user_rate;
    key_free = a.key_free;
    user_free = a.user_free;
    global_free = a.global_free;
  }

  -- `reserveLocal` admits a request exactly when the diagnostic view of its key and user shows
  -- room below each of the five enabled limits.
  pub reserve_local-HasRoom :
      ((r : LocalReservation) × ((reserve_local l identity now).1 ≡ ok r))
      ↔ HasRoom l.config (snapshot l identity now)
  reserve_local-HasRoom = (
    λ (r, h). Admits-HasRoom (admission l identity now r h),
    λ room.
        (reservation l identity now, ap (λ p. p.1) (reserved l identity now (HasRoom-Admits room))),
  )

  -- A refusal only moves the two counters to the current window.
  snapshot-touched : (i : Identity) → snapshot (touched l identity now) i now ≡ snapshot l i now
  unfolding snapshot active_counter
  snapshot-touched i =
      ground (arith, eq_iff identity.key_id i.key_id, eq_iff identity.user_id i.user_id)

-- Taking back an admission that has just been made.
unbump :
    (enabled : ℤ) (o : Option WindowCounter) (window : ℕ)
    → in_window
        (uncount
          (positive enabled)
          window
          (some (bump (positive enabled) (active_counter o window))))
        window
      ≡ in_window o window
unfolding active_counter
unbump enabled none window = ground arith
unbump enabled (some c) window = ground arith

rate_back :
    (enabled : ℤ) (f : String → Option WindowCounter) (k : String) (window : ℕ) (j : String)
    → let g = update f k (some (bump (positive enabled) (active_counter (f k) window))) in
      in_window (update g k (uncount (positive enabled) window (g k)) j) window
      ≡ in_window (f j) window
rate_back enabled f k window j = ground (arith, eq_iff k j, eq_iff k k, unbump enabled (f k) window)

slot_back :
    (f : String → ℕ) (k j : String)
    → let g = update f k (suc (f k)) in update g k (lower (g k)) j ≡ f j
slot_back f k j = ground (arith, eq_iff k j, eq_iff k k)

global_back : (n : ℕ) → (if ltb 0 (suc n) then suc n - 1 else suc n) ≡ n
global_back n = ground arith

module _ (l : Limiter) (identity : Identity) (now : ℕ) where
  snapshot-rollback :
      (i : Identity)
      → snapshot (rollback_local (admitted l identity now) (reservation l identity now)) i now
        ≡ snapshot l i now
  unfolding snapshot rollback_local uncount_rates release_concurrent_locked
  snapshot-rollback i = λ t. record {
    key_rpm =
        rate_back l.config.key.requests_per_minute l.key_rpm identity.key_id
          (truncate now l.config.window) i.key_id t;
    user_rpm =
        rate_back l.config.user.requests_per_minute l.user_rpm identity.user_id
          (truncate now l.config.window) i.user_id t;
    key_concurrent = slot_back l.key_concurrent identity.key_id i.key_id t;
    user_concurrent = slot_back l.user_concurrent identity.user_id i.user_id t;
    global_concurrent = global_back l.global_current t;
    window_ends = pos (truncate now l.config.window) +ℤ l.config.window;
  }

module _ (store : DailyStore) (loc : Location) (now : ℕ) (i identity : Identity)
    (ctx : Context) where
  open store use {State}

  after_store-snapshot :
      (l : Limiter) (r : LocalReservation) (p : State × StoreReply) (e : AcquireError)
      → (after_store store loc l r now p).2 ≡ err e
      → (after_store store loc l r now p).0 ≡ rollback_local l r
  unfolding after_store
  after_store-snapshot l r (st, reply) e h = ground arith

  ask_store-snapshot :
      (l : Limiter) (st : State) (r : LocalReservation) (ds : List DailyReservation)
      (e : AcquireError)
      → (ask_store store loc l st ctx now r ds).2 ≡ err e
      → (ask_store store loc l st ctx now r ds).0 ≡ rollback_local l r
  unfolding ask_store
  ask_store-snapshot l st r [] e h = cc
  ask_store-snapshot l st r (d ∷ ds) e h = after_store-snapshot l r _ e h

  after_local-snapshot :
      (l : Limiter) (st : State) (e : AcquireError)
      → (after_local store loc st ctx now identity (reserve_local l identity now)).2 ≡ err e
      → snapshot (after_local store loc st ctx now identity (reserve_local l identity now)).0 i now
        ≡ snapshot l i now
  unfolding after_local
  after_local-snapshot l st e h = elim (Result-cases (reserve_local l identity now).1) [
    | inl (r, fits) ↦
        let whole = reserved l identity now (admission l identity now r fits) in
        rw whole (
          ap (λ x. snapshot x i now)
            (ask_store-snapshot (admitted l identity now) st (reservation l identity now) _ e
              (rw whole at h))
          ∙ snapshot-rollback l identity now i)
    | inr (reason, full) ↦
        rw (refused l identity now reason full) (snapshot-touched l identity now i)
  ]

  -- A rejected `Acquire`, whatever rejects it, leaves every diagnostic view of the same instant as
  -- it was: nothing is counted and no slot is held.
  pub acquire-snapshot :
      (l : Limiter) (st : State) (e : AcquireError)
      → (acquire store loc l st ctx identity now).2 ≡ err e
      → snapshot (acquire store loc l st ctx identity now).0 i now ≡ snapshot l i now
  unfolding acquire
  acquire-snapshot l st e h = elim (Option-cases (validate_context ctx)) [
    | inr (bad, wrong) ↦ rw (wrong, acquire) refl
    | inl fine ↦ elim (Bool-cases (str_eq identity.key_id "" || str_eq identity.user_id "")) [
      | inl empty ↦ rw (fine, acquire) (rw empty refl)
      | inr named ↦
          rw (fine, acquire)
            (rw named (after_local-snapshot l st e (rw named at (rw (fine, acquire) at h))))
    ]
  ]
