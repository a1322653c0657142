-- ===== src/Store/Guard/Row/Claims.antt =====
-- Lemmas on the times of automatic checks.
use codex_gateway.Base.{
  ℕ, ◌+◌, ◌≤◌, ◌≡◌, refl, Bool, true, false, not, ◌&&◌, Option, none, some, List, [], ◌∷◌, arith,
  &&-true, leb→le, Bool-cases, inl, inr, String, Text, ltb, ◌||◌,
}
use codex_gateway.Base.Int.{ℤ, pos, negsuc}
use codex_gateway.Billing.Decimal.{text_eq, trim_space}
use codex_gateway.Store.Guard.{min_interval, Observation}
use codex_gateway.Store.Guard.Row.{
  Row, snapshot, claim_upstream_quota_check, record_observation, set_status, limit_row, rested, due,
  store_snapshot, apply_decision, mark_checked, set_row, is_manual, bool_eq, limited_at,
  soonest_upstream_quota_reset,
}
use codex_gateway.Store.Guard.Row.Settings.{
  max_percent, apply_settings, apply_snapshot, reapply, set_guard_settings,
}
use codex_gateway.Store.Guard.Row.Changes.{
  Change, reading, choice, settings, attempt, or_same, change, changes,
}

-- The last automatic check was at `t` or later.
abbrev IsChecked : ℕ → Row → Type 0
IsChecked t r = (checked : ℕ) × (r.auto_checked_at ≡ some checked) × (t ≤ checked)

record_observation-checked :
    (percent : ℕ) (o : Observation) (automatic : Bool) (at : ℕ) (r : Row)
    → (record_observation percent o automatic at r).auto_checked_at ≡ r.auto_checked_at
unfolding record_observation store_snapshot apply_decision
record_observation-checked percent o automatic at r =
    elim (Bool-cases (not automatic && is_manual r.source)) [
      | inl e ↦ rw e refl
      | inr e ↦ rw e refl
    ]

limit_row-checked :
    (at : ℕ) (soonest : Option (String × ℕ)) (r : Row)
    → (limit_row at soonest r).auto_checked_at ≡ r.auto_checked_at
unfolding limit_row set_row
limit_row-checked at none r = refl
limit_row-checked at (some (name, reset)) r = refl

set_status-checked :
    (wanted : Bool) (at : ℕ) (r : Row)
    → (set_status wanted at r).auto_checked_at ≡ r.auto_checked_at
unfolding set_status set_row
set_status-checked wanted at r = elim (Bool-cases (bool_eq (limited_at r at) wanted)) [
  | inl same ↦ rw same refl
  | inr other ↦ elim (Bool-cases wanted) [
    | inl closing ↦ rw (other, closing) (limit_row-checked at (soonest_upstream_quota_reset r at) r)
    | inr opening ↦ rw (other, opening) refl
  ]
]

rested-later :
    (t at : ℕ) (r : Row)
    → IsChecked t r
    → rested at r.auto_checked_at ≡ true
    → t + min_interval ≤ at
unfolding rested
rested-later t at r (checked, known, later) h =
    omega (arith, later, leb→le (checked + min_interval) at (rw known at h))

claim-IsChecked :
    (t at : ℕ) (r : Row) → IsChecked t r → IsChecked t (claim_upstream_quota_check at r).1
unfolding claim_upstream_quota_check mark_checked
claim-IsChecked t at r v =
    elim (Bool-cases (due at r.next_check_at && rested at r.auto_checked_at)) [
      | inl claimed ↦
          let (_, calm) = &&-true (due at r.next_check_at) (rested at r.auto_checked_at) claimed in
          rw claimed (at, refl, omega (arith, rested-later t at r v calm))
      | inr refused ↦ rw refused v
    ]

apply_snapshot-checked :
    (percent at : ℕ) (o : Option Observation) (r : Row)
    → (apply_snapshot percent at o r).auto_checked_at ≡ r.auto_checked_at
unfolding apply_snapshot apply_settings
apply_snapshot-checked percent at none r = refl
apply_snapshot-checked percent at (some o) r = refl

reapply-checked :
    (percent at : ℕ) (r : Row) → (reapply percent at r).auto_checked_at ≡ r.auto_checked_at
unfolding reapply
reapply-checked percent at r = elim (Bool-cases (is_manual r.source)) [
  | inl e ↦ rw e refl
  | inr e ↦ rw e (apply_snapshot-checked percent at (snapshot r) r)
]

set_guard_settings-checked :
    (percent : ℤ) (actor : Text) (at : ℕ) (r : Row)
    → (or_same r (set_guard_settings percent actor at r)).auto_checked_at ≡ r.auto_checked_at
unfolding set_guard_settings or_same
set_guard_settings-checked (negsuc n) actor at r = refl
set_guard_settings-checked (pos percent) actor at r =
    elim (Bool-cases (ltb max_percent percent || text_eq (trim_space actor) [])) [
      | inl e ↦ rw e refl
      | inr e ↦ rw e (reapply-checked percent at r)
    ]

change-IsChecked : (t : ℕ) (c : Change) (r : Row) → IsChecked t r → IsChecked t (change c r)
unfolding change
change-IsChecked t (reading percent o automatic at) r v =
    rw (record_observation-checked percent o automatic at r) v
change-IsChecked t (choice wanted at) r v = rw (set_status-checked wanted at r) v
change-IsChecked t (settings percent actor at) r v =
    rw (set_guard_settings-checked percent actor at r) v
change-IsChecked t (attempt at) r v = claim-IsChecked t at r v

changes-IsChecked :
    (t : ℕ) (cs : List Change) (r : Row) → IsChecked t r → IsChecked t (changes cs r)
unfolding changes
changes-IsChecked t [] r v = v
changes-IsChecked t (c ∷ cs) r v = changes-IsChecked t cs (change c r) (change-IsChecked t c r v)

not_claimed : {A : Type 0} → false ≡ true → A
not_claimed h = cc

claim-true :
    (at : ℕ) (r : Row)
    → (claim_upstream_quota_check at r).0 ≡ true
    → (rested at r.auto_checked_at ≡ true) × IsChecked at (claim_upstream_quota_check at r).1
unfolding claim_upstream_quota_check mark_checked
claim-true at r h = elim (Bool-cases (due at r.next_check_at && rested at r.auto_checked_at)) [
  | inl claimed ↦ rw claimed (
    (&&-true (due at r.next_check_at) (rested at r.auto_checked_at) claimed).1,
    (at, refl, omega arith),
  )
  | inr refused ↦ not_claimed (rw refused at h)
]

-- Two automatic checks of an account are at least ten minutes apart, whatever readings, owner's
-- choices, changes of the settings and attempts come between them, and at whatever times they are dated.
pub claims-apart :
    (first second : ℕ) (cs : List Change) (r : Row)
    → (claim_upstream_quota_check first r).0 ≡ true
    → (claim_upstream_quota_check second (changes cs (claim_upstream_quota_check first r).1)).0
      ≡ true
    → first + min_interval ≤ second
claims-apart first second cs r h k =
    let later = changes cs (claim_upstream_quota_check first r).1 in
    rested-later first second later
      (changes-IsChecked first cs (claim_upstream_quota_check first r).1 (claim-true first r h).1)
      (claim-true second later k).0
