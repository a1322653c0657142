-- ===== src/Limit/Admission/Bounds.antt =====
-- The counters of the limiter in every interleaving of requests.
use codex_gateway.Base.{
  ℕ, suc, ◌≤◌, String, Bool, false, Option, none, some, ap, ◌∙◌, ◌≡◌, refl, inl, inr, arith, ok,
  err, Bool-cases, ap, ◌∙◌,
}
use codex_gateway.Base.Int.{ℤ, pos, negsuc}
use codex_gateway.Limit.Types.{Identity, Config, LimitError, positive, reached, update}
use codex_gateway.Limit.Limiter.{
  Limiter, LocalReservation, WindowCounter, Ticket, active_counter, reserve_local,
  release_concurrent_locked, truncate, bump, lower, uncount, new, rollback_local, uncount_rates,
  release,
}
use codex_gateway.Limit.Admission.{
  System, Step, reserves, refuses, commits, rolls_back, releases, Reach, here, next, start,
}
use codex_gateway.Limit.Reserve.{Admits, exceeds, admission, reserved, refused}
use codex_gateway.Limit.Admission.Slots.{IsCounted, Step-IsCounted}

-- The requests counted in a window, 0 where no counter is kept.
abbrev pub count_in : Option WindowCounter → ℕ
count_in none = 0
count_in (some c) = c.count

-- No counter is above its limit.
pub record IsWithin (l : Limiter) : Type 0 where
  pub key_within : (k : String) → exceeds l.config.key.concurrent (l.key_concurrent k) ≡ false
  pub user_within : (u : String) → exceeds l.config.user.concurrent (l.user_concurrent u) ≡ false
  pub global_within : exceeds l.config.global_concurrent l.global_current ≡ false
  pub key_rate_within :
      (k : String) → exceeds l.config.key.requests_per_minute (count_in (l.key_rpm k)) ≡ false
  pub user_rate_within :
      (u : String) → exceeds l.config.user.requests_per_minute (count_in (l.user_rpm u)) ≡ false

-- What only falls stays within its limit.
exceeds_mono : (limit : ℤ) {m n : ℕ} → m ≤ n → exceeds limit n ≡ false → exceeds limit m ≡ false
exceeds_mono (pos l) h e = ground arith
exceeds_mono (negsuc l) h e = refl

exceeds-suc : (limit : ℤ) (n : ℕ) → reached limit n ≡ false → exceeds limit (suc n) ≡ false
exceeds-suc (pos l) n h = ground arith
exceeds-suc (negsuc l) n h = refl

-- A counter that starts anew is within every limit.
exceeds-zero : (limit : ℤ) → exceeds limit 0 ≡ false
exceeds-zero (pos l) = ground arith
exceeds-zero (negsuc l) = refl

module _ (limit : ℤ) (f : String → ℕ) (held : (k : String) → exceeds limit (f k) ≡ false) where
  update_within :
      (k : String) (n : ℕ)
      → exceeds limit n ≡ false
      → (j : String) → exceeds limit (update f k n j) ≡ false
  update_within k n h j = ground (arith, held j)

exceeds-bump :
    (limit : ℤ) (c : WindowCounter)
    → exceeds limit c.count ≡ false
    → reached limit c.count ≡ false
    → exceeds limit (bump (positive limit) c).count ≡ false
exceeds-bump (pos l) c h r = ground arith
exceeds-bump (negsuc l) c h r = refl

uncount-le :
    (counted : Bool) (window : ℕ) (o : Option WindowCounter)
    → count_in (uncount counted window o) ≤ count_in o
uncount-le counted window none = omega arith
uncount-le counted window (some c) = ground arith

module _ (limit : ℤ) (f : String → Option WindowCounter)
    (held : (k : String) → exceeds limit (count_in (f k)) ≡ false) where
  active_within :
      (k : String) (window : ℕ) → exceeds limit (active_counter (f k) window).count ≡ false
  unfolding active_counter
  active_within k window = ground (arith, held k, exceeds-zero limit)

  update_rate_within :
      (k : String) (o : Option WindowCounter)
      → exceeds limit (count_in o) ≡ false
      → (j : String) → exceeds limit (count_in (update f k o j)) ≡ false
  update_rate_within k o h j = ground (arith, held j)

  rate-touch :
      (k : String) (window : ℕ) (j : String)
      → exceeds limit (count_in (update f k (some (active_counter (f k) window)) j)) ≡ false
  rate-touch k window = update_rate_within k _ (active_within k window)

  rate-bump :
      (k : String) (window : ℕ)
      → reached limit (active_counter (f k) window).count ≡ false
      → (j : String)
      → exceeds limit
          (count_in (update f k (some (bump (positive limit) (active_counter (f k) window))) j))
        ≡ false
  rate-bump k window below =
      update_rate_within k _
        (exceeds-bump limit (active_counter (f k) window) (active_within k window) below)

  uncount_within :
      (k : String) (counted : Bool) (window : ℕ) (j : String)
      → exceeds limit (count_in (update f k (uncount counted window (f k)) j)) ≡ false
  uncount_within k counted window =
      update_rate_within k _ (exceeds_mono limit (uncount-le counted window (f k)) (held k))

reserves-IsWithin :
    (l : Limiter) (identity : Identity) (now : ℕ)
    → Admits l identity now
    → IsWithin l
    → IsWithin (reserve_local l identity now).0
reserves-IsWithin l identity now a w = rw (reserved l identity now a) (record {
  key_within =
      update_within l.config.key.concurrent l.key_concurrent w.key_within identity.key_id _
        (exceeds-suc l.config.key.concurrent (l.key_concurrent identity.key_id) a.key_free);
  user_within =
      update_within l.config.user.concurrent l.user_concurrent w.user_within identity.user_id _
        (exceeds-suc l.config.user.concurrent (l.user_concurrent identity.user_id) a.user_free);
  global_within = exceeds-suc l.config.global_concurrent l.global_current a.global_free;
  key_rate_within =
      rate-bump l.config.key.requests_per_minute l.key_rpm w.key_rate_within identity.key_id
        (truncate now l.config.window) a.key_rate;
  user_rate_within =
      rate-bump l.config.user.requests_per_minute l.user_rpm w.user_rate_within identity.user_id
        (truncate now l.config.window) a.user_rate;
})

refuses-IsWithin :
    (l : Limiter) (identity : Identity) (now : ℕ) (e : LimitError)
    → (reserve_local l identity now).1 ≡ err e
    → IsWithin l
    → IsWithin (reserve_local l identity now).0
refuses-IsWithin l identity now e h w = rw (refused l identity now e h) (record {
  key_within = w.key_within;
  user_within = w.user_within;
  global_within = w.global_within;
  key_rate_within =
      rate-touch l.config.key.requests_per_minute l.key_rpm w.key_rate_within identity.key_id
        (truncate now l.config.window);
  user_rate_within =
      rate-touch l.config.user.requests_per_minute l.user_rpm w.user_rate_within identity.user_id
        (truncate now l.config.window);
})

lower-le : (n : ℕ) → lower n ≤ n
lower-le n = ground arith

lowers-IsWithin :
    (l : Limiter) (identity : Identity)
    → IsWithin l
    → IsWithin (release_concurrent_locked l identity)
unfolding release_concurrent_locked
lowers-IsWithin l identity w = record {
  key_within =
      update_within l.config.key.concurrent l.key_concurrent w.key_within identity.key_id
        (lower (l.key_concurrent identity.key_id))
        (exceeds_mono l.config.key.concurrent (lower-le _) (w.key_within identity.key_id));
  user_within =
      update_within l.config.user.concurrent l.user_concurrent w.user_within identity.user_id
        (lower (l.user_concurrent identity.user_id))
        (exceeds_mono l.config.user.concurrent (lower-le _) (w.user_within identity.user_id));
  global_within =
      exceeds_mono l.config.global_concurrent {n = l.global_current} (ground arith) w.global_within;
  key_rate_within = w.key_rate_within;
  user_rate_within = w.user_rate_within;
}

rates-IsWithin : (l : Limiter) (r : LocalReservation) → IsWithin l → IsWithin (uncount_rates l r)
unfolding uncount_rates
rates-IsWithin l r w = record {
  key_within = w.key_within;
  user_within = w.user_within;
  global_within = w.global_within;
  key_rate_within =
      uncount_within l.config.key.requests_per_minute l.key_rpm w.key_rate_within r.identity.key_id
        r.key_rpm r.window;
  user_rate_within =
      uncount_within l.config.user.requests_per_minute l.user_rpm w.user_rate_within
        r.identity.user_id r.user_rpm r.window;
}

rolls_back-IsWithin :
    (l : Limiter) (r : LocalReservation) → IsWithin l → IsWithin (rollback_local l r)
unfolding rollback_local
rolls_back-IsWithin l r w = elim (Bool-cases r.concurrent) [
  | inl held ↦
      rw (held, rollback_local)
        (lowers-IsWithin (uncount_rates l r) r.identity (rates-IsWithin l r w))
  | inr free ↦ rw (free, rollback_local) (rates-IsWithin l r w)
]

releases-IsWithin : (l : Limiter) (t : Ticket) → IsWithin l → IsWithin (release l t).0
unfolding release
releases-IsWithin l t w = elim (Bool-cases t.used) [
  | inl used ↦ rw (used, release) w
  | inr fresh ↦ rw (fresh, release) (lowers-IsWithin l t.identity w)
]

Step-IsWithin : {s t : System} → Step s t → IsWithin s.limiter → IsWithin t.limiter
Step-IsWithin {s} (reserves identity now r h) w =
    reserves-IsWithin s.limiter identity now (admission s.limiter identity now r h) w
Step-IsWithin {s} (refuses identity now e h) w = refuses-IsWithin s.limiter identity now e h w
Step-IsWithin (commits before r rest split) w = w
Step-IsWithin {s} (rolls_back before r rest split) w = rolls_back-IsWithin s.limiter r w
Step-IsWithin {s} (releases before t rest split) w = releases-IsWithin s.limiter t w

Step-config : {s t : System} → Step s t → t.limiter.config ≡ s.limiter.config
unfolding reserve_local rollback_local uncount_rates release release_concurrent_locked
Step-config {s} (reserves identity now r h) = ground arith
Step-config {s} (refuses identity now e h) = ground arith
Step-config (commits before r rest split) = refl
Step-config {s} (rolls_back before r rest split) = ground arith
Step-config {s} (releases before t rest split) = ground arith

pub record Holds (c : Config) (s : System) : Type 0 where
  pub settings : s.limiter.config ≡ c
  pub counted : IsCounted s
  pub within : IsWithin s.limiter

new_empty :
    (c : Config) (l : Limiter)
    → new c ≡ ok l
    → (l.key_concurrent ≡ λ _. 0)
      × (l.user_concurrent ≡ λ _. 0)
      × (l.global_current ≡ 0)
      × (l.key_rpm ≡ λ _. none)
      × (l.user_rpm ≡ λ _. none)
unfolding new
new_empty c l h = ground arith

new-Holds : (c : Config) (l : Limiter) → new c ≡ ok l → Holds l.config (start l)
unfolding start
new-Holds c l h =
    let (keys, users, everyone, key_rates, user_rates) = new_empty c l h in
    record {
      settings = refl;
      counted = record {
        key_held = λ k. ap (λ f. f k) keys;
        user_held = λ u. ap (λ f. f u) users;
        slots = tt;
        global_held = everyone;
      };
      within = record {
        key_within = λ k. rw (keys, exceeds-zero l.config.key.concurrent) refl;
        user_within = λ u. rw (users, exceeds-zero l.config.user.concurrent) refl;
        global_within = rw (everyone, exceeds-zero l.config.global_concurrent) refl;
        key_rate_within = λ k. rw (key_rates, exceeds-zero l.config.key.requests_per_minute) refl;
        user_rate_within =
            λ u. rw (user_rates, exceeds-zero l.config.user.requests_per_minute) refl;
      };
    }

Reach-Holds : (c : Config) {s t : System} → Holds c s → Reach s t → Holds c t
Reach-Holds c h here = h
Reach-Holds c h (next r st) =
    let before = Reach-Holds c h r in
    record {
      settings = Step-config st ∙ before.settings;
      counted = Step-IsCounted st before.counted;
      within = Step-IsWithin st before.within;
    }

-- In every interleaving of requests that starts from a new limiter, each concurrency counter is the
-- number of requests that hold a slot, and no counter exceeds its enabled limit.
pub reachable-Holds :
    (c : Config) (l : Limiter) (t : System) → new c ≡ ok l → Reach (start l) t → Holds l.config t
reachable-Holds c l t h r = Reach-Holds l.config (new-Holds c l h) r
