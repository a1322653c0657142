-- ===== src/Security/RecoveryCodes/Laws.antt =====
-- Lemmas on recovery codes.
use codex_gateway.Base.{
  ℕ, zero, suc, ◌+◌, ◌/◌, ◌%◌, ◌<◌, ◌≡◌, refl, true, false, not, ◌&&◌, ◌||◌, ltb, ◌==◌, some, List,
  [], ◌∷◌, ◌++◌, ok, ok-eq, guard_then, or_fail_then, >>=-eq-ok, length, length-append, All,
  All-append, Text, codes, arith, subst, Bool-cases, inl, inr, ◌⊎◌,
}
use codex_gateway.Billing.Decimal.{text_eq}
use codex_gateway.Billing.Decimal.Canonical.{text_eq_refl}
use codex_gateway.Security.Encoding.{Encoding, IsEncoding, read_full, decode_exactly-encode}
use codex_gateway.Security.Tokens.{domain_digest}
use codex_gateway.Security.RecoveryCodes.{
  random_collision, no_randomness, recovery_code_bytes, raw_length, group_from, group_recovery_code,
  is_alphabet, cons_some, ungroup_from, of_length, ungroup_recovery_code, digest_recovery_code,
  matches_code, verify_recovery_code, Code, was_seen, generate_from, generate_recovery_codes_from,
}

abbrev IsDigit32 : ℕ → Type 0
IsDigit32 c = is_alphabet c ≡ true

-- Where the reader stands when the writer stands before a character.
abbrev InStep : ℕ → ℕ → Type 0
InStep i p = ((i ≡ 0) × (p % 5 ≡ 0)) ⊎ ((0 < i) × (p % 5 ≡ (i + 3) % 4 + 1))

ungroup_from-plain :
    (p c : ℕ) (t s : Text)
    → p % 5 < 4
    → IsDigit32 c
    → ungroup_from (suc p) t ≡ some s
    → ungroup_from p (c ∷ t) ≡ some (c ∷ s)
unfolding ungroup_from
ungroup_from-plain p c t s low d h =
    let there : (suc p % 5 == 0) ≡ false = ground (arith, low) in rw (there, d, h, cons_some) refl

ungroup_from-dash :
    (p c : ℕ) (t s : Text)
    → p % 5 ≡ 4
    → IsDigit32 c
    → ungroup_from (suc (suc p)) t ≡ some s
    → ungroup_from p (b'-' ∷ c ∷ t) ≡ some (c ∷ s)
unfolding ungroup_from
ungroup_from-dash p c t s low d h =
    let here : (suc p % 5 == 0) ≡ true = ground (arith, low) in
    rw here (ungroup_from-plain (suc p) c t s (omega (arith, low)) d h)

dash_at :
    (i p : ℕ)
    → (ltb 0 i && i % 4 == 0) ≡ true
    → InStep i p
    → (p % 5 ≡ 4) × InStep (suc i) (suc (suc p))
dash_at i p h (inl k) = absurd (ground (arith, k.0, h))
dash_at i p h (inr k) =
    let whole : i % 4 ≡ 0 = ground (arith, h) in
    (omega (arith, k.1, whole), inr (omega arith, omega (arith, k.1, whole)))

plain_at :
    (i p : ℕ) → (ltb 0 i && i % 4 == 0) ≡ false → InStep i p → (p % 5 < 4) × InStep (suc i) (suc p)
plain_at i p h (inl k) = (omega (arith, k.1), inr (omega arith, omega (arith, k.0, k.1)))
plain_at i p h (inr k) =
    let part : 0 < i % 4 = ground (arith, h, k.0) in
    (omega (arith, k.1, part), inr (omega arith, omega (arith, k.1, part)))

ungroup_from-end : (p : ℕ) → ungroup_from p [] ≡ some []
unfolding ungroup_from
ungroup_from-end p = refl

ungroup-group :
    (i p : ℕ) (s : Text) → All IsDigit32 s → InStep i p → ungroup_from p (group_from i s) ≡ some s
unfolding group_from
ungroup-group i p [] h k = ungroup_from-end p
ungroup-group i p (c ∷ s) h k = elim (Bool-cases (ltb 0 i && i % 4 == 0)) [
  | inl dash ↦
      let (at, next) = dash_at i p dash k in
      rw dash (
        ungroup_from-dash p c (group_from (suc i) s) s at h.0
          (ungroup-group (suc i) (suc (suc p)) s h.1 next))
  | inr plain ↦
      let (at, next) = plain_at i p plain k in
      rw plain (
        ungroup_from-plain p c (group_from (suc i) s) s at h.0
          (ungroup-group (suc i) (suc p) s h.1 next))
]

-- Behind the first character, one dash for every four.
length-group_from :
    (i : ℕ) (s : Text)
    → 0 < i
    → length (group_from i s) + (i + 3) / 4 ≡ length s + (i + length s + 3) / 4
unfolding group_from
length-group_from i [] h = omega arith
length-group_from i (c ∷ s) h = elim (Bool-cases (ltb 0 i && i % 4 == 0)) [
  | inl dash ↦
      let whole : i % 4 ≡ 0 = ground (arith, dash) in
      rw dash (omega (arith, length-group_from (suc i) s (omega arith), whole))
  | inr plain ↦
      let part : 0 < i % 4 = ground (arith, plain, h) in
      rw plain (omega (arith, length-group_from (suc i) s (omega arith), part))
]

length-group : (s : Text) → length s ≡ 24 → length (group_recovery_code s) ≡ 29
unfolding group_recovery_code group_from
length-group [] h = absurd (omega (arith, h))
length-group (c ∷ s) h = omega (arith, length-group_from 1 s (omega arith), h)

-- Of 24 characters of the alphabet, the grouped code is read back as they are.
ungroup_recovery_code-group :
    (s : Text)
    → length s ≡ 24
    → All IsDigit32 s
    → ungroup_recovery_code (group_recovery_code s) ≡ some s
unfolding ungroup_recovery_code group_recovery_code
ungroup_recovery_code-group s h k =
    let long : (length (group_from 0 s) == raw_length + 5) ≡ true =
      ground (arith, length-group s h) in
    let size : (length s == raw_length) ≡ true = ground (arith, h) in
    rw (long, ungroup-group 0 0 s k (inl (refl, refl)), of_length, size) refl

-- Where base32 encodes 15 bytes in 24 characters of its alphabet that decode to them, the grouped code
-- of 15 bytes is accepted.
pub digest_recovery_code-group :
    (e : Encoding) (hash : List ℕ → List ℕ) (b : List ℕ)
    → IsEncoding e 15 24
    → All (λ (c : ℕ). is_alphabet c ≡ true) (e.encode b)
    → length b ≡ 15
    → digest_recovery_code e hash (group_recovery_code (e.encode b))
      ≡ ok (
          domain_digest hash
            (codes "codex-gateway/recovery-code/v1")
            (group_recovery_code (e.encode b)))
unfolding digest_recovery_code
digest_recovery_code-group e hash b laws digits size =
    rw
      (
        ungroup_recovery_code-group (e.encode b) (laws.sized b size) digits,
        decode_exactly-encode e 15 24 b laws size,
      )
      refl

text_eq_sym : (s t : Text) → text_eq s t ≡ text_eq t s
unfolding text_eq
text_eq_sym [] [] = refl
text_eq_sym [] (d ∷ t) = refl
text_eq_sym (c ∷ s) [] = refl
text_eq_sym (c ∷ s) (d ∷ t) = ground (arith, text_eq_sym s t)

-- No code stands there twice.
pub AreDistinct : List Code → Type 0
AreDistinct [] = Unit
AreDistinct ((code, digest) ∷ rest) = (was_seen code rest ≡ false) × AreDistinct rest

was_seen-append :
    (code other : Text) (digest : List ℕ) (made : List Code)
    → was_seen other (made ++ ((code, digest) ∷ [])) ≡ (was_seen other made || text_eq other code)
unfolding was_seen
was_seen-append code other digest [] = ground arith
was_seen-append code other digest ((c, d) ∷ made) =
    ground (arith, was_seen-append code other digest made)

AreDistinct-append :
    (code : Text) (digest : List ℕ) (made : List Code)
    → AreDistinct made
    → was_seen code made ≡ false
    → AreDistinct (made ++ ((code, digest) ∷ []))
unfolding AreDistinct was_seen
AreDistinct-append code digest [] h k = (refl, tt)
AreDistinct-append code digest ((c, d) ∷ made) h k = (
  ground (arith, was_seen-append code c digest made, h.0, text_eq_sym c code, k),
  AreDistinct-append code digest made h.1 (ground (arith, k)),
)

-- What the loop has made.
record Made (e : Encoding) (hash : List ℕ → List ℕ) (n : ℕ) (made : List Code) : Type 0 where
  count : length made ≡ n
  distinct : AreDistinct made
  verify : All (λ (c : Code). verify_recovery_code e hash c.0 c.1 ≡ true) made

digest-verify :
    (e : Encoding) (hash : List ℕ → List ℕ) (code : Text) (digest : List ℕ)
    → digest_recovery_code e hash code ≡ ok digest
    → verify_recovery_code e hash code digest ≡ true
unfolding verify_recovery_code matches_code
digest-verify e hash code digest h = rw h (text_eq_refl digest)

generate_from-Made :
    (e : Encoding) (hash : List ℕ → List ℕ) (n k : ℕ) (random : List ℕ) (made result : List Code)
    → Made e hash k made
    → generate_from e hash n random made ≡ ok result
    → Made e hash (n + k) result
unfolding generate_from
generate_from-Made e hash zero k random made result m h =
    subst (λ (x : ℕ). Made e hash x result) {x = k} (omega arith)
      (subst (Made e hash k) (ok-eq h) m)
generate_from-Made e hash (suc n) k random made result m h =
    let (entropy, read, h1) = or_fail_then (read_full recovery_code_bytes random) no_randomness h in
    let code = group_recovery_code (e.encode entropy.0) in
    let (new, h2) = guard_then (not (was_seen code made)) random_collision h1 in
    let (digest, digested, h3) = >>=-eq-ok (digest_recovery_code e hash code) _ h2 in
    subst (λ (x : ℕ). Made e hash x result) {x = n + suc k} (omega arith)
      (generate_from-Made e hash n (suc k) entropy.1 (made ++ ((code, digest) ∷ [])) result
        (record {
          count = omega (arith, length-append made ((code, digest) ∷ []), m.count);
          distinct = AreDistinct-append code digest made m.distinct (ground (arith, new));
          verify =
              All-append (λ (c : Code). verify_recovery_code e hash c.0 c.1 ≡ true) made
                ((code, digest) ∷ []) m.verify (digest-verify e hash code digest digested, tt);
        })
        h3)

-- Where GenerateRecoveryCodes succeeds, it returns ten codes that differ, each of which verifies with
-- its digest.
pub generate_recovery_codes_from_lem :
    (e : Encoding) (hash : List ℕ → List ℕ) (random : List ℕ) (result : List Code)
    → generate_recovery_codes_from e hash random ≡ ok result
    → (length result ≡ 10)
      × AreDistinct result
      × All (λ (c : Code). verify_recovery_code e hash c.0 c.1 ≡ true) result
unfolding generate_recovery_codes_from AreDistinct
generate_recovery_codes_from_lem e hash random result h =
    let m =
      generate_from-Made e hash 10 0 random [] result
        (record { count = refl; distinct = tt; verify = tt }) h in
    (m.count, m.distinct, m.verify)
