-- ===== src/Limit/DailyLaws.antt =====
-- Lemmas on the daily store.
use codex_gateway.Base.{
  ℕ, ◌+◌, ◌%◌, ◌^◌, ◌≤◌, String, Bool, true, false, ◌&&◌, Option, none, List, [], ◌∷◌, ◌≡◌, refl,
  ap, ◌∙◌, inl, inr, arith, if◌then◌else◌, str_eq, eq_iff, ◌==◌, ok, any, All, Bool-cases,
}
use codex_gateway.Base.Int.{ℤ, pos, negsuc}
use codex_gateway.Limit.Types.{Scope, reached}
use codex_gateway.Limit.Reserve.{exceeds}
use codex_gateway.Limit.Daily.{
  Context, ContextError, Day, DailyReservation, Usage, scope_eq, same_entry, max_int64,
  validate_from, validate_reservations, refused, increment, count_all, reserve_requests,
}

-- The text of an entry, and whether a list of reservations has it.
abbrev pub is_listed : List DailyReservation → Scope → String → Bool
is_listed rs scope id = any (same_entry scope id) rs

scope_eq_refl : (s : Scope) → scope_eq s s ≡ true
unfolding scope_eq
scope_eq_refl Scope.key = refl
scope_eq_refl Scope.user = refl
scope_eq_refl Scope.global = refl

scope_eq_sound : (s t : Scope) → scope_eq s t ≡ true → s ≡ t
unfolding scope_eq
scope_eq_sound Scope.key Scope.key h = refl
scope_eq_sound Scope.user Scope.user h = refl
scope_eq_sound Scope.global Scope.global h = refl
scope_eq_sound _ _ h = cc

same_entry_sound :
    (scope : Scope) (id : String) (r : DailyReservation)
    → same_entry scope id r ≡ true
    → (r.scope ≡ scope) × (r.id ≡ id)
unfolding same_entry
same_entry_sound scope id r h = ground (arith, scope_eq_sound r.scope scope, eq_iff r.id id)

-- The entries that the loop of `validateReservations` accepts are not among those seen before.
validate_from-fresh :
    (seen rs : List DailyReservation) (scope : Scope) (id : String)
    → validate_from seen rs ≡ none
    → is_listed rs scope id ≡ true
    → is_listed seen scope id ≡ false
unfolding validate_from
validate_from-fresh seen [] scope id h l = cc
validate_from-fresh seen (r ∷ rs) scope id h l = elim (Bool-cases (same_entry scope id r)) [
  | inl same ↦
      let (scopes, ids) = same_entry_sound scope id r same in rw (← scopes, ← ids) (ground arith)
  | inr other ↦ ground (arith, validate_from-fresh (r ∷ seen) rs scope id)
]

validate_from-rest :
    (seen rs : List DailyReservation) (r : DailyReservation)
    → validate_from seen (r ∷ rs) ≡ none
    → validate_from (r ∷ seen) rs ≡ none
unfolding validate_from
validate_from-rest seen rs r h = ground arith

increment_at :
    (usage : Usage) (day : Day) (r : DailyReservation) (scope : Scope) (id : String)
    → increment usage day r.scope r.id day scope id
      ≡ (if same_entry scope id r then (usage day scope id + 1) % 2 ^ 64 else usage day scope id)
unfolding increment same_entry
increment_at usage day r scope id =
    ground (arith, eq_iff day day, scope_eq_sound r.scope scope, eq_iff r.id id)

count_all_at :
    (usage : Usage) (day : Day) (rs seen : List DailyReservation) (scope : Scope) (id : String)
    → validate_from seen rs ≡ none
    → count_all usage day rs day scope id
      ≡ (if is_listed rs scope id then (usage day scope id + 1) % 2 ^ 64 else usage day scope id)
unfolding count_all
count_all_at usage day [] seen scope id h = refl
count_all_at usage day (r ∷ rs) seen scope id h = ground (
  arith,
  count_all_at (increment usage day r.scope r.id) day rs (r ∷ seen) scope id
      (validate_from-rest seen rs r h),
  increment_at usage day r scope id,
  validate_from-fresh (r ∷ seen) rs scope id (validate_from-rest seen rs r h),
)

count_all-other :
    (usage : Usage) (day : Day) (rs : List DailyReservation) (d : Day) (scope : Scope) (id : String)
    → str_eq day d ≡ false
    → count_all usage day rs d scope id ≡ usage d scope id
unfolding count_all increment
count_all-other usage day [] d scope id h = refl
count_all-other usage day (r ∷ rs) d scope id h =
    count_all-other (increment usage day r.scope r.id) day rs d scope id h ∙ ground arith

refused-room :
    (usage : Usage) (day : Day) (rs : List DailyReservation) (scope : Scope) (id : String)
    → refused usage day rs ≡ none
    → is_listed rs scope id ≡ true
    → (usage day scope id == max_int64) ≡ false
unfolding refused
refused-room usage day [] scope id h l = cc
refused-room usage day (r ∷ rs) scope id h l = elim (Bool-cases (same_entry scope id r)) [
  | inl same ↦
      let (scopes, ids) = same_entry_sound scope id r same in rw (← scopes, ← ids) (ground arith)
  | inr other ↦ ground (arith, refused-room usage day rs scope id)
]

-- What a successful call says of its five tests.
reserve_requests-ok :
    (usage : Usage) (ctx : Context) (at_lock : Option ContextError) (day : Day)
    (rs : List DailyReservation) (after : Usage)
    → reserve_requests usage ctx at_lock day rs ≡ ok after
    → (validate_from [] rs ≡ none)
      × (refused usage day rs ≡ none)
      × (after ≡ count_all usage day rs)
unfolding reserve_requests validate_reservations
reserve_requests-ok usage ctx at_lock day rs after h = ground arith

-- A call of `ReserveRequests` that succeeds counts one request for each reservation of its list, on
-- its day and nowhere else, without overflow.
pub reserve_requests-counts :
    (usage : Usage) (ctx : Context) (at_lock : Option ContextError) (day : Day)
    (rs : List DailyReservation) (after : Usage) (d : Day) (scope : Scope) (id : String)
    → usage d scope id ≤ max_int64
    → reserve_requests usage ctx at_lock day rs ≡ ok after
    → (after d scope id ≡ (
        if str_eq day d && is_listed rs scope id then usage d scope id + 1 else usage d scope id))
      × (after d scope id ≤ max_int64)
reserve_requests-counts usage ctx at_lock day rs after d scope id fits h =
    let (valid, room, counted) = reserve_requests-ok usage ctx at_lock day rs after h in
    elim (Bool-cases (str_eq day d)) [
      | inl same ↦
          rw (← (eq_iff day d).0 same, counted)
            (ground (
              arith,
              eq_iff day day,
              count_all_at usage day rs [] scope id valid,
              refused-room usage day rs scope id room,
              ap (λ x. usage x scope id) ((eq_iff day d).0 same),
            ))
      | inr other ↦ rw counted (ground (arith, count_all-other usage day rs d scope id other))
    ]

exceeds-next : (limit : ℤ) (m n : ℕ) → m ≤ n + 1 → reached limit n ≡ false → exceeds limit m ≡ false
exceeds-next (pos l) m n h r = ground arith
exceeds-next (negsuc l) m n h r = refl

refused-within :
    (usage : Usage) (day : Day) (rs : List DailyReservation) (after : Usage)
    → refused usage day rs ≡ none
    → ((scope : Scope) (id : String) → after day scope id ≤ usage day scope id + 1)
    → All (λ r. exceeds r.request_limit (after day r.scope r.id) ≡ false) rs
unfolding refused
refused-within usage day [] after h step = tt
refused-within usage day (r ∷ rs) after h step = (
  exceeds-next r.request_limit _ (usage day r.scope r.id) (step r.scope r.id) (ground arith),
  refused-within usage day rs after (ground arith) step,
)

-- After a call of `ReserveRequests` that succeeds, no counter of its list exceeds the limit that was
-- asked for it, where no counter was above the largest int64 before.
pub reserve_requests-within :
    (usage : Usage) (ctx : Context) (at_lock : Option ContextError) (day : Day)
    (rs : List DailyReservation) (after : Usage)
    → ((scope : Scope) (id : String) → usage day scope id ≤ max_int64)
    → reserve_requests usage ctx at_lock day rs ≡ ok after
    → All (λ r. exceeds r.request_limit (after day r.scope r.id) ≡ false) rs
reserve_requests-within usage ctx at_lock day rs after fits h =
    refused-within usage day rs after (reserve_requests-ok usage ctx at_lock day rs after h).1
      λ scope id.
        let counts =
          reserve_requests-counts usage ctx at_lock day rs after day scope id (fits scope id) h in
        ground (arith, counts.0)
