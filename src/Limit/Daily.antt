-- ===== src/Limit/Daily.antt =====
-- internal/limit/daily.go: daily counters, and the reference store in memory.
use codex_gateway.Base.{
  ℕ, ◌+◌, ◌-◌, ◌*◌, ◌%◌, ◌^◌, String, Bool, true, false, not, ◌||◌, ◌&&◌, Option, none, some, List,
  [], ◌∷◌, ◌==◌, ltb, leb, if◌then◌else◌, str_eq, Result, ok, err, ◌>>◌, guard, any, Text, codes,
  ◌≡◌, refl,
}
use codex_gateway.Base.Int.{ℤ, is_negative}
use codex_gateway.Limit.Types.{Scope, Reason, reached}

-- What `ctx.Err()` returns.
pub data ContextError : Type 0 where
  canceled deadline_exceeded : ContextError

-- A context, `none` if it is nil, with what its `Err()` returns.
abbrev pub Context : Type 0
Context = Option (Option ContextError)

pub data ContextFailure : Type 0 where
  nil_context : ContextFailure
  ended : ContextError → ContextFailure

unfoldable pub validate_context : Context → Option ContextFailure
validate_context none = some nil_context
validate_context (some none) = none
validate_context (some (some e)) = some (ended e)

-- A day is a text; `day < other` compares its bytes.
abbrev pub Day : Type 0
Day = String

pub record DailyReservation : Type 0 where
  pub scope : Scope
  pub id : String
  pub request_limit : ℤ

pub record DailyLimitError : Type 0 where
  pub scope : Scope
  pub id : String
  pub reason : Reason
  pub current : ℕ
  pub limit : ℤ

pub data DailyError : Type 0 where
  context : ContextFailure → DailyError
  invalid_day invalid_daily_entry duplicate_daily_entry counter_overflow : DailyError
  over_limit : DailyLimitError → DailyError

-- MemoryDailyStore: the counters, 0 where the map has no entry.
abbrev pub Usage : Type 0
Usage = Day → Scope → String → ℕ

unfoldable pub new_memory_daily_store : Usage
new_memory_daily_store day scope id = 0

unfoldable pub scope_eq : Scope → Scope → Bool
scope_eq Scope.key Scope.key = true
scope_eq Scope.user Scope.user = true
scope_eq Scope.global Scope.global = true
scope_eq _ _ = false

unfoldable pub valid_daily_scope : Scope → Bool
unfolding scope_eq
valid_daily_scope s = scope_eq s Scope.key || scope_eq s Scope.user

is_digit : ℕ → Bool
is_digit c = leb b'0' c && leb c b'9'

two : ℕ → ℕ → ℕ
two a b = (a - b'0') * 10 + (b - b'0')

is_leap : ℕ → Bool
is_leap y = y % 4 == 0 && (not (y % 100 == 0) || y % 400 == 0)

days_in : ℕ → ℕ → ℕ
unfolding is_leap
days_in year month =
    if month == 2
    then if is_leap year then 29 else 28
    else if month == 4 || month == 6 || month == 9 || month == 11
    then 30
    else 31

-- A calendar day in the layout 2006-01-02, all that `time.Parse` takes and prints back unchanged.
is_calendar_day : Text → Bool
unfolding is_digit two days_in
is_calendar_day (a ∷ b ∷ c ∷ d ∷ dash ∷ e ∷ f ∷ dash' ∷ g ∷ h ∷ []) =
    let year = two a b * 100 + two c d in
    let month = two e f in
    let day = two g h in
    is_digit a
    && is_digit b
    && is_digit c
    && is_digit d
    && dash == b'-'
    && is_digit e
    && is_digit f
    && dash' == b'-'
    && is_digit g
    && is_digit h
    && ltb 0 month
    && leb month 12
    && ltb 0 day
    && leb day (days_in year month)
is_calendar_day _ = false

unfoldable pub validate_day : Day → Bool
unfolding is_calendar_day
validate_day day = is_calendar_day (codes day)

unfoldable pub same_entry : Scope → String → DailyReservation → Bool
unfolding scope_eq
same_entry scope id r = scope_eq r.scope scope && str_eq r.id id

-- The loop of `validateReservations` over its set `seen`.
unfoldable pub validate_from : List DailyReservation → List DailyReservation → Option DailyError
unfolding valid_daily_scope same_entry
validate_from seen [] = none
validate_from seen (r ∷ rs) =
    let rest = validate_from (r ∷ seen) rs in
    if not (valid_daily_scope r.scope) || str_eq r.id "" || is_negative r.request_limit
    then some invalid_daily_entry
    else if any (same_entry r.scope r.id) seen
    then some duplicate_daily_entry
    else rest

unfoldable pub validate_reservations : List DailyReservation → Option DailyError
unfolding validate_from
validate_reservations rs = validate_from [] rs

-- math.MaxInt64.
abbrev pub max_int64 : ℕ
max_int64 = 2 ^ 63 - 1

-- The first loop of `ReserveRequests`: the first reservation that cannot be admitted.
unfoldable pub refused : Usage → Day → List DailyReservation → Option DailyError
refused usage day [] = none
refused usage day (r ∷ rs) =
    let current = usage day r.scope r.id in
    let rest = refused usage day rs in
    if reached r.request_limit current
    then some (
        over_limit (record {
          scope = r.scope;
          id = r.id;
          reason = Reason.daily_requests;
          current = current;
          limit = r.request_limit;
        }))
    else if current == max_int64
    then some counter_overflow
    else rest

-- `current.Requests++` on the 64-bit pattern of the counter.
unfoldable pub increment : Usage → Day → Scope → String → Usage
unfolding scope_eq
increment usage day scope id d s i =
    if str_eq day d && scope_eq scope s && str_eq id i
    then (usage day scope id + 1) % 2 ^ 64
    else usage d s i

-- The second loop.
unfoldable pub count_all : Usage → Day → List DailyReservation → Usage
unfolding increment
count_all usage day [] = usage
count_all usage day (r ∷ rs) = count_all (increment usage day r.scope r.id) day rs

abbrev fail_on : {A : Type 0} → Option A → (A → DailyError) → Result DailyError (Unit {0})
fail_on none f = ok tt
fail_on (some a) f = err (f a)

-- `MemoryDailyStore.ReserveRequests`: the counters after the call, or the error. The context is
-- asked once more under the lock, where it returns `at_lock`.
unfoldable pub reserve_requests :
    Usage → Context → Option ContextError → Day → List DailyReservation → Result DailyError Usage
reserve_requests usage ctx at_lock day rs = do
  fail_on (validate_context ctx) context
  guard (validate_day day) invalid_day
  fail_on (validate_reservations rs) (λ e. e)
  fail_on at_lock (λ e. context (ended e))
  fail_on (refused usage day rs) (λ e. e)
  ok (count_all usage day rs)

-- `MemoryDailyStore.Usage`.
unfoldable pub usage_of :
    Usage → Context → Option ContextError → Day → Scope → String → Result DailyError ℕ
unfolding validate_context validate_day valid_daily_scope
usage_of usage ctx at_lock day scope id = do
  fail_on (validate_context ctx) context
  guard (validate_day day) invalid_day
  guard (valid_daily_scope scope && not (str_eq id "")) invalid_daily_entry
  fail_on at_lock (λ e. context (ended e))
  ok (usage day scope id)

-- `<` on texts, by their bytes.
unfoldable pub text_lt : Text → Text → Bool
text_lt xs [] = false
text_lt [] (y ∷ ys) = true
text_lt (x ∷ xs) (y ∷ ys) = let rest = text_lt xs ys in if x == y then rest else ltb x y

-- `MemoryDailyStore.DeleteBefore`.
unfoldable pub delete_before : Usage → Day → Result DailyError Usage
unfolding validate_day text_lt
delete_before usage day = do
  guard (validate_day day) invalid_day
  ok (λ d s i. if text_lt (codes d) (codes day) then 0 else usage d s i)

-- A leap day is a day, and the day after it in another year is not.
leap_days : (validate_day "2024-02-29" ≡ true) × (validate_day "2100-02-29" ≡ false)
unfolding validate_day
leap_days = (refl, refl)
