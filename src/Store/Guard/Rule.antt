-- ===== src/Store/Guard/Rule.antt =====
-- What a decision of the quota guard says: which windows limit an account, for how long, and when
-- the next check is.
use codex_gateway.Base.{
  ℕ, ◌+◌, ◌-◌, ◌≤◌, ◌≡◌, refl, sym, ap, ◌∙◌, String, Bool, true, false, ◌||◌, ltb, leb,
  if◌then◌else◌, Option, none, some, arith, &&-true, Bool-cases, inl, inr, ◌⊎◌,
}
use codex_gateway.Store.Guard.{
  min_interval, max_interval, restore_delay, Window, Observation, Scan, is_current, is_tripped,
  is_later, trip, spare, scan_window, start_scan, scan, restore_time, next_interval, decide,
  evaluate_upstream_quota_guard, prior_five, prior_seven,
}

-- A window that was reported trips the guard.
unfoldable pub trips : ℕ → ℕ → Option Window → Bool
trips percent now none = false
trips percent now (some w) = is_tripped percent now w

scan_window-limited :
    (percent now observed : ℕ) (previous : Option Observation) (name : String)
    (w prior : Option Window) (st : Scan)
    → (scan_window percent now observed previous name w prior st).limited
      ≡ (st.limited || trips percent now w)
unfolding scan_window trips is_tripped trip spare
scan_window-limited percent now observed previous name none prior st = ground arith
scan_window-limited percent now observed previous name (some w) prior st = ground arith

decide-limited : (now : ℕ) (st : Scan) → (decide now st).limited ≡ st.limited
unfolding decide
decide-limited now st = elim (Bool-cases st.limited) [ inl e ↦ rw e refl | inr e ↦ rw e refl ]

next_interval-bounds :
    (margin : Option ℕ) (interval : ℕ)
    → (min_interval ≤ next_interval margin interval)
      × (next_interval margin interval ≤ max_interval)
unfolding next_interval
next_interval-bounds margin interval = ground arith

scan-limited :
    (o : Observation) (previous : Option Observation) (percent now : ℕ)
    → (scan o previous percent now).limited
      ≡ (trips percent now o.five_hour || trips percent now o.seven_day)
unfolding scan start_scan
scan-limited o previous percent now =
    scan_window-limited percent now o.observed_at previous "seven_day" o.seven_day
      (prior_seven previous)
      (scan_window percent now o.observed_at previous "five_hour" o.five_hour (prior_five previous)
        start_scan)
    ∙ ap (λ (b : Bool). b || trips percent now o.seven_day)
        (scan_window-limited percent now o.observed_at previous "five_hour" o.five_hour
          (prior_five previous) start_scan)

-- An account is limited when and only when a reported window trips: it has no reset time or one
-- that lies ahead, and what remains of it is at most the percentage.
pub evaluate-limited :
    (o : Observation) (previous : Option Observation) (percent now : ℕ)
    → (evaluate_upstream_quota_guard o previous percent now).limited
      ≡ (trips percent now o.five_hour || trips percent now o.seven_day)
unfolding evaluate_upstream_quota_guard
evaluate-limited o previous percent now =
    decide-limited now (scan o previous percent now) ∙ scan-limited o previous percent now

-- The next check of an open account is between ten minutes and one hour away.
pub evaluate-next_check :
    (o : Observation) (previous : Option Observation) (percent now : ℕ)
    → (evaluate_upstream_quota_guard o previous percent now).limited ≡ false
    → (now + min_interval ≤ (evaluate_upstream_quota_guard o previous percent now).next_check_at)
      × ((evaluate_upstream_quota_guard o previous percent now).next_check_at ≤ now + max_interval)
unfolding evaluate_upstream_quota_guard decide
evaluate-next_check o previous percent now h =
    let st = scan o previous percent now in
    let not_limited : st.limited ≡ false = sym (decide-limited now st) ∙ h in
    let bounds = next_interval-bounds st.margin st.interval in
    rw not_limited (omega (arith, bounds.0), omega (arith, bounds.1))

||-true : (b : Bool) → (b || true) ≡ true
||-true true = refl
||-true false = refl

-- What the scan has kept of a tripped window: its reset time is at most the last one kept.
AtMost : Option ℕ → Option ℕ → Type 0
AtMost none kept = Unit {0}
AtMost (some reset) none = ⊥
AtMost (some reset) (some last) = reset ≤ last

AtMost-later :
    (reset : ℕ) (old kept : Option ℕ)
    → AtMost (some reset) (if is_later reset kept then some reset else kept)
      × (AtMost old kept → AtMost old (if is_later reset kept then some reset else kept))
unfolding AtMost is_later
AtMost-later reset none none = (omega arith, λ h. tt)
AtMost-later reset (some old) none = (omega arith, λ h. absurd h)
AtMost-later reset none (some kept) = elim (Bool-cases (ltb kept reset)) [
  | inl later ↦ rw later (omega arith, λ h. tt)
  | inr sooner ↦ rw sooner (ground arith, λ h. tt)
]
AtMost-later reset (some old) (some kept) = elim (Bool-cases (ltb kept reset)) [
  | inl later ↦ rw later (omega arith, λ h. ground arith)
  | inr sooner ↦ rw sooner (ground arith, λ h. h)
]

trip-keeps :
    (name : String) (reset old : Option ℕ) (st : Scan)
    → (AtMost reset (trip name reset st).reset_at)
      × (AtMost old st.reset_at → AtMost old (trip name reset st).reset_at)
unfolding trip
trip-keeps name none old st = (unfold AtMost in tt, λ h. h)
trip-keeps name (some reset) old st = AtMost-later reset old st.reset_at

scan_window-keeps :
    (percent now observed : ℕ) (previous : Option Observation) (name : String)
    (w prior : Option Window) (st : Scan) (old : Option ℕ)
    → AtMost old st.reset_at
    → AtMost old (scan_window percent now observed previous name w prior st).reset_at
unfolding scan_window spare
scan_window-keeps percent now observed previous name none prior st old h = h
scan_window-keeps percent now observed previous name (some w) prior st old h =
    elim (Bool-cases (is_current now w.reset_at)) [
      | inr passed ↦ rw passed h
      | inl current ↦ elim (Bool-cases (leb (100 - w.used_percent) percent)) [
        | inl low ↦ rw (current, low) ((trip-keeps name w.reset_at old st).1 h)
        | inr margin ↦ rw (current, margin) h
      ]
    ]

scan_window-reset :
    (percent now observed : ℕ) (previous : Option Observation) (name : String) (w : Window)
    (prior : Option Window) (st : Scan)
    → is_tripped percent now w ≡ true
    → AtMost w.reset_at (scan_window percent now observed previous name (some w) prior st).reset_at
unfolding scan_window is_tripped
scan_window-reset percent now observed previous name w prior st h =
    let (current, low) = &&-true (is_current now w.reset_at) _ h in
    rw (current, low) (trip-keeps name w.reset_at none st).0

scan-reset :
    (o : Observation) (previous : Option Observation) (percent now : ℕ) (w : Window)
    → (o.five_hour ≡ some w) ⊎ (o.seven_day ≡ some w)
    → is_tripped percent now w ≡ true
    → AtMost w.reset_at (scan o previous percent now).reset_at
unfolding scan
scan-reset o previous percent now w (inl five) h =
    scan_window-keeps percent now o.observed_at previous "seven_day" o.seven_day
      (prior_seven previous) _ w.reset_at
      (rw five (
        scan_window-reset percent now o.observed_at previous "five_hour" w (prior_five previous)
          start_scan h))
scan-reset o previous percent now w (inr seven) h =
    rw seven (
      scan_window-reset percent now o.observed_at previous "seven_day" w (prior_seven previous) _ h)

one-trips :
    (o : Observation) (percent now : ℕ) (w : Window)
    → (o.five_hour ≡ some w) ⊎ (o.seven_day ≡ some w)
    → is_tripped percent now w ≡ true
    → (trips percent now o.five_hour || trips percent now o.seven_day) ≡ true
unfolding trips
one-trips o percent now w (inl five) h = rw (five, h) refl
one-trips o percent now w (inr seven) h = rw (seven, h) (||-true (trips percent now o.five_hour))

restore-after :
    (now reset : ℕ) (unknown : Bool) (kept : Option ℕ)
    → AtMost (some reset) kept
    → reset + restore_delay ≤ restore_time now unknown kept
unfolding AtMost restore_time
restore-after now reset unknown none h = absurd h
restore-after now reset unknown (some last) h = ground arith

decide-restore :
    (now : ℕ) (st : Scan)
    → st.limited ≡ true
    → (decide now st).restore_at ≡ some (restore_time now st.unknown_reset st.reset_at)
unfolding decide
decide-restore now st h = rw h refl

-- A limited account returns no earlier than five minutes after the reset of every window that
-- tripped.
pub evaluate-restore :
    (o : Observation) (previous : Option Observation) (percent now : ℕ) (w : Window) (reset : ℕ)
    → (o.five_hour ≡ some w) ⊎ (o.seven_day ≡ some w)
    → is_tripped percent now w ≡ true
    → w.reset_at ≡ some reset
    → (at : ℕ) × ((evaluate_upstream_quota_guard o previous percent now).restore_at ≡ some at)
      × (reset + restore_delay ≤ at)
unfolding evaluate_upstream_quota_guard
evaluate-restore o previous percent now w reset which tripped known =
    let st = scan o previous percent now in
    let kept = scan-reset o previous percent now w which tripped in
    (
      restore_time now st.unknown_reset st.reset_at,
      decide-restore now st
          (scan-limited o previous percent now ∙ one-trips o percent now w which tripped),
      restore-after now reset st.unknown_reset st.reset_at (rw known at kept),
    )
