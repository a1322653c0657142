-- ===== src/Security/RecoveryCodes.antt =====
-- Recovery codes of internal/security/tokens.go.
pub mod Laws
use codex_gateway.Base.{
  ℕ, zero, suc, ◌+◌, ◌-◌, ◌*◌, ◌/◌, ◌%◌, ◌≤◌, ◌<◌, ◌≡◌, refl, sym, ap, ◌∙◌, Bool, true, false, not,
  ◌&&◌, ltb, leb, ◌==◌, if◌then◌else◌, Option, none, some, List, [], ◌∷◌, ◌++◌, Result, ok, err,
  ◌>>=◌, ◌>>◌, guard, or_fail, ok-eq, some-eq, guard_then, or_fail_then, >>=-eq-ok, &&-true, ◌||◌,
  length, any, All, Text, codes, arith, subst, Bool-cases, inl, inr, ◌⊎◌,
}
use codex_gateway.Billing.Decimal.{text_eq}
use codex_gateway.Billing.Decimal.Canonical.{text_eq_refl}
use codex_gateway.Security.Encoding.{
  Encoding, read_full, read_full-length, decode_exactly, text_eq-≡,
}
use codex_gateway.Security.Tokens.{domain_digest}

abbrev pub recovery_code_count : ℕ
recovery_code_count = 10

abbrev pub recovery_code_bytes : ℕ
recovery_code_bytes = 15

abbrev pub raw_length : ℕ
raw_length = 24

pub data RecoveryError : Type 0 where
  invalid_recovery_code random_collision no_randomness : RecoveryError

-- The loop of `groupRecoveryCode` from an index on.
unfoldable pub group_from : ℕ → Text → Text
group_from i [] = []
group_from i (c ∷ s) =
    let rest = group_from (suc i) s in if ltb 0 i && i % 4 == 0 then b'-' ∷ c ∷ rest else c ∷ rest

-- `groupRecoveryCode`.
unfoldable pub group_recovery_code : Text → Text
unfolding group_from
group_recovery_code raw = group_from 0 raw

-- Crockford's base32 digits.
unfoldable pub alphabet : Text
alphabet = codes "0123456789ABCDEFGHJKMNPQRSTVWXYZ"

unfoldable pub is_alphabet : ℕ → Bool
unfolding alphabet
is_alphabet c = any (λ (d : ℕ). d == c) alphabet

cons_some : ℕ → Option Text → Option Text
cons_some c none = none
cons_some c (some s) = some (c ∷ s)

-- The loop of `ungroupRecoveryCode` from an index on.
unfoldable pub ungroup_from : ℕ → Text → Option Text
unfolding is_alphabet cons_some
ungroup_from i [] = some []
ungroup_from i (c ∷ s) =
    let rest = ungroup_from (suc i) s in
    if suc i % 5 == 0
    then if c == b'-' then rest else none
    else if is_alphabet c
    then cons_some c rest
    else none

of_length : ℕ → Option Text → Option Text
of_length n none = none
of_length n (some s) = if length s == n then some s else none

-- `ungroupRecoveryCode`.
unfoldable pub ungroup_recovery_code : Text → Option Text
unfolding ungroup_from of_length
ungroup_recovery_code code =
    if length code == raw_length + 5 then of_length raw_length (ungroup_from 0 code) else none

-- `DigestRecoveryCode`.
unfoldable pub digest_recovery_code :
    Encoding → (List ℕ → List ℕ) → Text → Result RecoveryError (List ℕ)
unfolding ungroup_recovery_code decode_exactly domain_digest
digest_recovery_code e hash code = do
  raw ← or_fail (ungroup_recovery_code code) invalid_recovery_code
  bytes ← or_fail (decode_exactly e recovery_code_bytes raw) invalid_recovery_code
  ok (domain_digest hash (codes "codex-gateway/recovery-code/v1") code)

matches_code : List ℕ → Result RecoveryError (List ℕ) → Bool
unfolding text_eq
matches_code expected (ok actual) = text_eq actual expected
matches_code expected (err e) = false

-- `VerifyRecoveryCode`.
unfoldable pub verify_recovery_code : Encoding → (List ℕ → List ℕ) → Text → List ℕ → Bool
unfolding digest_recovery_code matches_code
verify_recovery_code e hash code expected = matches_code expected (digest_recovery_code e hash code)

-- A code with its digest.
abbrev pub Code : Type 0
Code = Text × List ℕ

unfoldable pub was_seen : Text → List Code → Bool
unfolding text_eq
was_seen code [] = false
was_seen code ((c, d) ∷ rest) = text_eq code c || was_seen code rest

-- The loop of `GenerateRecoveryCodesFrom`, which still makes so many codes: each round adds one or
-- fails.
unfoldable pub generate_from :
    Encoding → (List ℕ → List ℕ) → ℕ → List ℕ → List Code → Result RecoveryError (List Code)
unfolding read_full group_recovery_code was_seen digest_recovery_code
generate_from e hash zero random made = ok made
generate_from e hash (suc n) random made = do
  entropy ← or_fail (read_full recovery_code_bytes random) no_randomness
  let code = group_recovery_code (e.encode entropy.0)
  guard (not (was_seen code made)) random_collision
  digest ← digest_recovery_code e hash code
  generate_from e hash n entropy.1 (made ++ ((code, digest) ∷ []))

-- `GenerateRecoveryCodesFrom`.
unfoldable pub generate_recovery_codes_from :
    Encoding → (List ℕ → List ℕ) → List ℕ → Result RecoveryError (List Code)
unfolding generate_from
generate_recovery_codes_from e hash random = generate_from e hash recovery_code_count random []
