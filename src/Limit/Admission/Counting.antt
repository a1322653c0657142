-- ===== src/Limit/Admission/Counting.antt =====
-- Counting the requests that hold a slot.
use codex_gateway.Base.{
  ℕ, ◌+◌, String, Bool, not, ◌&&◌, List, [], ◌∷◌, ◌++◌, ◌≡◌, refl, arith, if◌then◌else◌, str_eq,
}
use codex_gateway.Limit.Limiter.{LocalReservation, Ticket}

module _ {A : Type 0} (p : A → Bool) where
  abbrev pub count_by : List A → ℕ
  count_by [] = 0
  count_by (x ∷ xs) = (if p x then 1 else 0) + count_by xs

  -- Wherever an entry stands, it counts for itself.
  pub count_by-append :
      (xs : List A) (x : A) (ys : List A)
      → count_by (xs ++ x ∷ ys) ≡ (if p x then 1 else 0) + count_by (xs ++ ys)
  count_by-append [] x ys = refl
  count_by-append (z ∷ xs) x ys = omega (arith, count_by-append xs x ys)

-- A pending reservation or an unused release function holds a slot of its key, of its user, and
-- of the gateway.
abbrev pub pending_key : String → LocalReservation → Bool
pending_key k r = r.concurrent && str_eq r.identity.key_id k

abbrev pub pending_user : String → LocalReservation → Bool
pending_user u r = r.concurrent && str_eq r.identity.user_id u

abbrev pub pending_any : LocalReservation → Bool
pending_any r = r.concurrent

abbrev pub ticket_key : String → Ticket → Bool
ticket_key k t = not t.used && str_eq t.identity.key_id k

abbrev pub ticket_user : String → Ticket → Bool
ticket_user u t = not t.used && str_eq t.identity.user_id u

abbrev pub ticket_any : Ticket → Bool
ticket_any t = not t.used

abbrev pub holders :
    (LocalReservation → Bool) → (Ticket → Bool) → List LocalReservation → List Ticket → ℕ
holders p q rs ts = count_by p rs + count_by q ts
