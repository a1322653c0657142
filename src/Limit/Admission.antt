-- ===== src/Limit/Admission.antt =====
-- `Limiter.Acquire` of internal/limit/limiter.go, over any daily store, and the interleavings of
-- its critical sections by concurrent requests.
pub mod Counting
pub mod Slots
pub mod Bounds
pub mod Rejection
pub mod Retry
use codex_gateway.Base.{
  ℕ, ◌+◌, String, Bool, true, false, not, ◌||◌, ◌&&◌, Option, none, some, List, [], ◌∷◌, ◌++◌, ◌≡◌,
  if◌then◌else◌, str_eq, ltb, Result, ok, err,
}
use codex_gateway.Base.Int.{ℤ, pos, negsuc, ◌-ℤ◌}
use codex_gateway.Limit.Types.{
  Scope, Identity, Config, LimitError, has_daily_limits, positive, second,
}
use codex_gateway.Limit.Daily.{
  Context, ContextFailure, Day, DailyReservation, DailyLimitError, validate_context,
}
use codex_gateway.Limit.Limiter.{
  Limiter, LocalReservation, Ticket, reserve_local, rollback_local, release,
}

-- time.Location, from the time package: the calendar day of a time, and the start of the next day.
pub record Location : Type 0 where
  pub day_at : ℕ → Day
  pub next_day : ℕ → ℕ

-- What `DailyStore.ReserveRequests` answers: nil, a DailyLimitError, or another error.
pub data StoreReply : Type 0 where
  admitted failed : StoreReply
  limited : DailyLimitError → StoreReply

-- The interface `DailyStore`, over the state of the store.
pub record DailyStore : Type 1 where
  pub State : Type 0
  pub reserve : State → Context → Day → List DailyReservation → State × StoreReply

pub data AcquireError : Type 0 where
  context : ContextFailure → AcquireError
  invalid_identity daily_failed : AcquireError
  limit : LimitError → AcquireError

unfoldable pub daily_reservations : Config → Identity → List DailyReservation
unfolding has_daily_limits
daily_reservations c identity =
    let key : DailyReservation = record {
      scope = Scope.key;
      id = identity.key_id;
      request_limit = c.key.requests_per_day;
    } in
    let user : DailyReservation = record {
      scope = Scope.user;
      id = identity.user_id;
      request_limit = c.user.requests_per_day;
    } in
    let users = if has_daily_limits c.user then user ∷ [] else [] in
    if has_daily_limits c.key then key ∷ users else users

unfoldable pub until_next_day : Location → ℕ → ℤ
until_next_day loc now =
    let retry = pos (loc.next_day now) -ℤ pos now in if positive retry then retry else pos second

fresh_ticket : Identity → Ticket
fresh_ticket identity = record { identity = identity; used = false }

module _ (store : DailyStore) (loc : Location) where
  open store use {State, reserve}

  -- What follows the reply of the store: the rollback, or the release function.
  after_store :
      Limiter
      → LocalReservation
      → ℕ
      → State × StoreReply
      → Limiter × State × Result AcquireError Ticket
  unfolding rollback_local fresh_ticket until_next_day
  after_store l r now (st, admitted) = (l, st, ok (fresh_ticket r.identity))
  after_store l r now (st, failed) = (rollback_local l r, st, err daily_failed)
  after_store l r now (st, limited e) = (
    rollback_local l r,
    st,
    err (
        limit (record {
          scope = e.scope;
          reason = e.reason;
          retry_after = until_next_day loc now;
          limit = e.limit;
        })),
  )

  ask_store :
      Limiter
      → State
      → Context
      → ℕ
      → LocalReservation
      → List DailyReservation
      → Limiter × State × Result AcquireError Ticket
  unfolding after_store
  ask_store l st ctx now r [] = (l, st, ok (fresh_ticket r.identity))
  ask_store l st ctx now r (d ∷ ds) = after_store l r now (reserve st ctx (loc.day_at now) (d ∷ ds))

  after_local :
      State
      → Context
      → ℕ
      → Identity
      → Limiter × Result LimitError LocalReservation
      → Limiter × State × Result AcquireError Ticket
  unfolding ask_store daily_reservations
  after_local st ctx now identity (l, err e) = (l, st, err (limit e))
  after_local st ctx now identity (l, ok r) =
      ask_store l st ctx now r (daily_reservations l.config identity)

  -- `Limiter.Acquire`. The goroutine that it starts calls the release function when the context
  -- ends: one more caller of `release`.
  unfoldable pub acquire :
      Limiter → State → Context → Identity → ℕ → Limiter × State × Result AcquireError Ticket
  unfolding after_local
  acquire l st ctx identity now = elim (validate_context ctx) [
    | some e ↦ (l, st, err (context e))
    | none ↦
        if str_eq identity.key_id "" || str_eq identity.user_id ""
        then (l, st, err invalid_identity)
        else after_local st ctx now identity (reserve_local l identity now)
  ]

-- The limiter among requests that run at once: those between their reservation and the reply of
-- the daily store, and the release functions that have been handed out.
pub record System : Type 0 where
  pub limiter : Limiter
  pub pending : List LocalReservation
  pub tickets : List Ticket

-- One critical section of some request. The daily store may answer either way, and a release
-- function may be called at any time and more than once.
pub data Step (s : System) : System → Type 0 where
  reserves :
      (identity : Identity) (now : ℕ) (r : LocalReservation)
      → (reserve_local s.limiter identity now).1 ≡ ok r
      → Step s
          (record s { limiter = (reserve_local s.limiter identity now).0; pending = r ∷ s.pending })
  refuses :
      (identity : Identity) (now : ℕ) (e : LimitError)
      → (reserve_local s.limiter identity now).1 ≡ err e
      → Step s (record s { limiter = (reserve_local s.limiter identity now).0 })
  commits :
      (before : List LocalReservation) (r : LocalReservation) (rest : List LocalReservation)
      → s.pending ≡ before ++ r ∷ rest
      → Step s (record s {
        pending = before ++ rest;
        tickets = record { identity = r.identity; used = false } ∷ s.tickets;
      })
  rolls_back :
      (before : List LocalReservation) (r : LocalReservation) (rest : List LocalReservation)
      → s.pending ≡ before ++ r ∷ rest
      → Step s (record s { limiter = rollback_local s.limiter r; pending = before ++ rest })
  releases :
      (before : List Ticket) (t : Ticket) (rest : List Ticket)
      → s.tickets ≡ before ++ t ∷ rest
      → Step s (record s {
        limiter = (release s.limiter t).0;
        tickets = before ++ (release s.limiter t).1 ∷ rest;
      })

pub data Reach (s : System) : System → Type 0 where
  here : Reach s s
  next : {t u : System} → Reach s t → Step t u → Reach s u

unfoldable pub start : Limiter → System
start l = record { limiter = l; pending = []; tickets = [] }
