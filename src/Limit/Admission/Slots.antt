-- ===== src/Limit/Admission/Slots.antt =====
-- Lemmas on the requests that hold a slot, in every interleaving.
use codex_gateway.Base.{
  ℕ, ◌+◌, String, Bool, true, false, List, All, All-split, subst, ap, ◌∙◌, ◌∷◌, ◌++◌, ◌≡◌, refl,
  inl, inr, arith, if◌then◌else◌, str_eq, eq_iff, ok, err, Bool-cases,
}
use codex_gateway.Limit.Types.{Identity, LimitError}
use codex_gateway.Limit.Limiter.{
  Limiter, LocalReservation, Ticket, reserve_local, release_concurrent_locked, rollback_local,
  uncount_rates, release,
}
use codex_gateway.Limit.Admission.{System, Step, reserves, refuses, commits, rolls_back, releases}
use codex_gateway.Limit.Admission.Counting.{
  count_by-append, pending_key, pending_user, pending_any, ticket_key, ticket_user, ticket_any,
  holders,
}

-- Each concurrency counter is the number of requests that hold a slot.
pub record IsCounted (s : System) : Type 0 where
  pub key_held :
      (k : String)
      → s.limiter.key_concurrent k ≡ holders (pending_key k) (ticket_key k) s.pending s.tickets
  pub user_held :
      (u : String)
      → s.limiter.user_concurrent u ≡ holders (pending_user u) (ticket_user u) s.pending s.tickets
  pub slots : All (λ r. r.concurrent ≡ true) s.pending
  pub global_held : s.limiter.global_current ≡ holders pending_any ticket_any s.pending s.tickets

module _ (l : Limiter) (identity : Identity) (now : ℕ) (r : LocalReservation)
    (h : (reserve_local l identity now).1 ≡ ok r) where
  reserves_key :
      (k : String)
      → (reserve_local l identity now).0.key_concurrent k
        ≡ (if str_eq identity.key_id k then 1 else 0) + l.key_concurrent k
  unfolding reserve_local
  reserves_key k = ground (arith, eq_iff identity.key_id k)

  reserves_user :
      (u : String)
      → (reserve_local l identity now).0.user_concurrent u
        ≡ (if str_eq identity.user_id u then 1 else 0) + l.user_concurrent u
  unfolding reserve_local
  reserves_user u = ground (arith, eq_iff identity.user_id u)

  reserves_global : (reserve_local l identity now).0.global_current ≡ 1 + l.global_current
  unfolding reserve_local
  reserves_global = ground arith

  reserves_ticket : (r.identity ≡ identity) × (r.concurrent ≡ true)
  unfolding reserve_local
  reserves_ticket = ground arith

  reserves-IsCounted :
      (pending : List LocalReservation) (tickets : List Ticket)
      → IsCounted (record { limiter = l; pending = pending; tickets = tickets })
      → IsCounted (record {
        limiter = (reserve_local l identity now).0;
        pending = r ∷ pending;
        tickets = tickets;
      })
  reserves-IsCounted pending tickets c = record {
    key_held = λ k. ground (arith, reserves_key k, reserves_ticket, c.key_held k);
    user_held = λ u. ground (arith, reserves_user u, reserves_ticket, c.user_held u);
    global_held = ground (arith, reserves_global, reserves_ticket, c.global_held);
    slots = (reserves_ticket.1, c.slots);
  }

-- A refusal may start a new window, and changes nothing else.
refuses_counters :
    (l : Limiter) (identity : Identity) (now : ℕ) (e : LimitError)
    → (reserve_local l identity now).1 ≡ err e
    → ((reserve_local l identity now).0.key_concurrent ≡ l.key_concurrent)
      × ((reserve_local l identity now).0.user_concurrent ≡ l.user_concurrent)
      × ((reserve_local l identity now).0.global_current ≡ l.global_current)
unfolding reserve_local
refuses_counters l identity now e h = ground arith

module _ (l : Limiter) (identity : Identity) where
  lowers_key :
      (k : String) (rest : ℕ)
      → l.key_concurrent k ≡ (if str_eq identity.key_id k then 1 else 0) + rest
      → (release_concurrent_locked l identity).key_concurrent k ≡ rest
  unfolding release_concurrent_locked
  lowers_key k rest h = ground (arith, eq_iff identity.key_id k)

  lowers_user :
      (u : String) (rest : ℕ)
      → l.user_concurrent u ≡ (if str_eq identity.user_id u then 1 else 0) + rest
      → (release_concurrent_locked l identity).user_concurrent u ≡ rest
  unfolding release_concurrent_locked
  lowers_user u rest h = ground (arith, eq_iff identity.user_id u)

  lowers_global :
      (rest : ℕ)
      → l.global_current ≡ 1 + rest
      → (release_concurrent_locked l identity).global_current ≡ rest
  unfolding release_concurrent_locked
  lowers_global rest h = ground arith

-- A limiter whose counters are `base` and the slots of one request more, which it gives back.
lowers-IsCounted :
    (l : Limiter) (identity : Identity) (s : System)
    → ((k : String)
        → l.key_concurrent k
          ≡ (if str_eq identity.key_id k then 1 else 0)
            + holders (pending_key k) (ticket_key k) s.pending s.tickets)
    → ((u : String)
        → l.user_concurrent u
          ≡ (if str_eq identity.user_id u then 1 else 0)
            + holders (pending_user u) (ticket_user u) s.pending s.tickets)
    → l.global_current ≡ 1 + holders pending_any ticket_any s.pending s.tickets
    → All (λ r. r.concurrent ≡ true) s.pending
    → IsCounted (record s { limiter = release_concurrent_locked l identity })
lowers-IsCounted l identity s hk hu hg hs = record {
  slots = hs;
  key_held = λ k. lowers_key l identity k _ (hk k);
  user_held = λ u. lowers_user l identity u _ (hu u);
  global_held = lowers_global l identity _ hg;
}

module _ (pending before rest : List LocalReservation) (tickets : List Ticket)
    (r : LocalReservation) (split : pending ≡ before ++ r ∷ rest) where
  holders_pending :
      (p : LocalReservation → Bool) (q : Ticket → Bool)
      → holders p q pending tickets ≡ (if p r then 1 else 0) + holders p q (before ++ rest) tickets
  holders_pending p q = rw split (omega (arith, count_by-append p before r rest))

module _ (pending : List LocalReservation) (tickets before rest : List Ticket) (t : Ticket)
    (split : tickets ≡ before ++ t ∷ rest) where
  holders_ticket :
      (p : LocalReservation → Bool) (q : Ticket → Bool)
      → holders p q pending tickets ≡ (if q t then 1 else 0) + holders p q pending (before ++ rest)
  holders_ticket p q = rw split (omega (arith, count_by-append q before t rest))

module _ (s : System) (before : List LocalReservation) (r : LocalReservation)
    (rest : List LocalReservation) (split : s.pending ≡ before ++ r ∷ rest) (c : IsCounted s) where
  slots_split : (r.concurrent ≡ true) × All (λ x. x.concurrent ≡ true) (before ++ rest)
  slots_split = All-split _ before r rest (subst (All (λ x. x.concurrent ≡ true)) split c.slots)

  left_holders :
      (p : LocalReservation → Bool) (q : Ticket → Bool)
      → holders p q s.pending s.tickets
        ≡ (if p r then 1 else 0) + holders p q (before ++ rest) s.tickets
  left_holders = holders_pending s.pending before rest s.tickets r split

  key_split :
      (k : String)
      → s.limiter.key_concurrent k
        ≡ (if str_eq r.identity.key_id k then 1 else 0)
          + holders (pending_key k) (ticket_key k) (before ++ rest) s.tickets
  key_split k =
      ground (arith, c.key_held k, left_holders (pending_key k) (ticket_key k), slots_split.0)

  user_split :
      (u : String)
      → s.limiter.user_concurrent u
        ≡ (if str_eq r.identity.user_id u then 1 else 0)
          + holders (pending_user u) (ticket_user u) (before ++ rest) s.tickets
  user_split u =
      ground (arith, c.user_held u, left_holders (pending_user u) (ticket_user u), slots_split.0)

  global_split :
      s.limiter.global_current ≡ 1 + holders pending_any ticket_any (before ++ rest) s.tickets
  global_split = ground (arith, c.global_held, left_holders pending_any ticket_any, slots_split.0)

  rolls_back-IsCounted :
      IsCounted (record s { limiter = rollback_local s.limiter r; pending = before ++ rest })
  unfolding rollback_local
  rolls_back-IsCounted =
      rw (slots_split.0, rollback_local)
        (lowers-IsCounted (uncount_rates s.limiter r) r.identity
          (record s { pending = before ++ rest }) key_split user_split global_split slots_split.1)

  commits-IsCounted : IsCounted (record s {
    pending = before ++ rest;
    tickets = record { identity = r.identity; used = false } ∷ s.tickets;
  })
  commits-IsCounted = record {
    key_held = λ k. ground (arith, key_split k);
    user_held = λ u. ground (arith, user_split u);
    slots = slots_split.1;
    global_held = ground (arith, global_split);
  }

release_used : (l : Limiter) (t : Ticket) → t.used ≡ true → release l t ≡ (l, t)
unfolding release
release_used l t h = ground arith

release_fresh :
    (l : Limiter) (t : Ticket)
    → t.used ≡ false
    → release l t ≡ (release_concurrent_locked l t.identity, record t { used = true })
unfolding release
release_fresh l t h = rw (h, release)

module _ (s : System) (before : List Ticket) (t : Ticket) (rest : List Ticket)
    (split : s.tickets ≡ before ++ t ∷ rest) (c : IsCounted s) where
  -- The holders without `t`, and then with another ticket `x` in its place.
  swap_ticket :
      (x : Ticket) (p : LocalReservation → Bool) (q : Ticket → Bool)
      → holders p q s.pending (before ++ x ∷ rest) + (if q t then 1 else 0)
        ≡ holders p q s.pending s.tickets + (if q x then 1 else 0)
  swap_ticket x p q = omega (
    arith,
    holders_ticket s.pending s.tickets before rest t split p q,
    holders_ticket s.pending (before ++ x ∷ rest) before rest x refl p q,
  )

  releases-IsCounted : IsCounted (record s {
    limiter = (release s.limiter t).0;
    tickets = before ++ (release s.limiter t).1 ∷ rest;
  })
  releases-IsCounted = elim (Bool-cases t.used) [
    | inl used ↦ rw (release_used s.limiter t used) (record {
      key_held = λ k. ground (arith, c.key_held k, swap_ticket t (pending_key k) (ticket_key k));
      user_held =
          λ u. ground (arith, c.user_held u, swap_ticket t (pending_user u) (ticket_user u));
      slots = c.slots;
      global_held = ground (arith, c.global_held, swap_ticket t pending_any ticket_any);
    })
    | inr fresh ↦
        let spent : Ticket = record t { used = true } in
        rw (release_fresh s.limiter t fresh) (
          lowers-IsCounted s.limiter t.identity (record s { tickets = before ++ spent ∷ rest })
            (λ k. ground (arith, c.key_held k, swap_ticket spent (pending_key k) (ticket_key k)))
            (λ u. ground (arith, c.user_held u, swap_ticket spent (pending_user u) (ticket_user u)))
            (ground (arith, c.global_held, swap_ticket spent pending_any ticket_any)) c.slots)
  ]

pub Step-IsCounted : {s t : System} → Step s t → IsCounted s → IsCounted t
Step-IsCounted {s} (reserves identity now r h) c =
    reserves-IsCounted s.limiter identity now r h s.pending s.tickets c
Step-IsCounted {s} (refuses identity now e h) c =
    let (keys, users, all_held) = refuses_counters s.limiter identity now e h in
    record {
      key_held = λ k. ap (λ f. f k) keys ∙ c.key_held k;
      user_held = λ u. ap (λ f. f u) users ∙ c.user_held u;
      slots = c.slots;
      global_held = all_held ∙ c.global_held;
    }
Step-IsCounted {s} (commits before r rest split) c = commits-IsCounted s before r rest split c
Step-IsCounted {s} (rolls_back before r rest split) c = rolls_back-IsCounted s before r rest split c
Step-IsCounted {s} (releases before t rest split) c = releases-IsCounted s before t rest split c
