-- ===== src/Security/Tokens.antt =====
-- Opaque tokens of internal/security/tokens.go. A hash of the standard library is an argument.
use codex_gateway.Base.{
  ℕ, ◌+◌, ◌≡◌, refl, sym, ap, ◌∙◌, Bool, true, false, not, ◌&&◌, ltb, ◌==◌, Option, none, some,
  List, [], ◌∷◌, ◌++◌, Result, ok, err, ◌>>=◌, ◌>>◌, guard, or_fail, ok-eq, some-eq, guard_then,
  or_fail_then, >>=-eq-ok, &&-true, length, length-append, drop, drop-append, Text, codes, arith,
  subst,
}
use codex_gateway.Billing.Decimal.{text_eq}
use codex_gateway.Billing.Decimal.Canonical.{text_eq_refl}
use codex_gateway.Security.Encoding.{
  Encoding, IsEncoding, read_full, decode_exactly, decode_exactly-encode,
}
use codex_gateway.Security.ApiKey.{has_prefix, minimum_pepper_bytes}
use codex_gateway.Security.ApiKey.Laws.{has_prefix-append, has_prefix-≡, both_hold}

abbrev pub opaque_token_bytes : ℕ
opaque_token_bytes = 32

-- `TokenKind`; a number that is none of the three is `other_kind`.
pub data TokenKind : Type 0 where
  invitation_token session_token recovery_token other_kind : TokenKind

pub data TokenError : Type 0 where
  invalid_token invalid_token_kind no_randomness token_pepper_too_short : TokenError

-- `prefix` and `domain`.
unfoldable pub token_prefix : TokenKind → Option Text
token_prefix invitation_token = some (codes "cgi_v1_")
token_prefix session_token = some (codes "cgs_v1_")
token_prefix recovery_token = some (codes "cgr_v1_")
token_prefix other_kind = none

unfoldable pub token_domain : TokenKind → Text
token_domain invitation_token = codes "codex-gateway/invitation-token/v1"
token_domain session_token = codes "codex-gateway/session-token/v1"
token_domain recovery_token = codes "codex-gateway/recovery-token/v1"
token_domain other_kind = []

-- `domainDigest`.
unfoldable pub domain_digest : (List ℕ → List ℕ) → Text → Text → List ℕ
domain_digest hash domain value = hash (domain ++ (0 ∷ value))

-- `PepperTokenDigest`.
unfoldable pub pepper_token_digest :
    (List ℕ → List ℕ → List ℕ) → List ℕ → List ℕ → Result TokenError (List ℕ)
pepper_token_digest hmac pepper digest = do
  guard (not (ltb (length pepper) minimum_pepper_bytes)) token_pepper_too_short
  ok (hmac pepper (codes "codex-gateway/token-digest-pepper/v1" ++ (0 ∷ digest)))

-- `DigestOpaqueToken`.
unfoldable pub digest_opaque_token :
    Encoding → (List ℕ → List ℕ) → TokenKind → Text → Result TokenError (List ℕ)
unfolding token_prefix token_domain has_prefix decode_exactly domain_digest
digest_opaque_token e hash kind token = do
  prefix ← or_fail (token_prefix kind) invalid_token_kind
  guard (length token == length prefix + 43 && has_prefix token prefix) invalid_token
  raw ← or_fail (decode_exactly e opaque_token_bytes (drop (length prefix) token)) invalid_token
  ok (domain_digest hash (token_domain kind) token)

-- `GenerateOpaqueTokenFrom`: the token and its digest.
unfoldable pub generate_opaque_token_from :
    Encoding → (List ℕ → List ℕ) → TokenKind → List ℕ → Result TokenError (Text × List ℕ)
unfolding token_prefix read_full digest_opaque_token
generate_opaque_token_from e hash kind random = do
  prefix ← or_fail (token_prefix kind) invalid_token_kind
  entropy ← or_fail (read_full opaque_token_bytes random) no_randomness
  digest ← digest_opaque_token e hash kind (prefix ++ e.encode entropy.0)
  ok (prefix ++ e.encode entropy.0, digest)

matches : List ℕ → Result TokenError (List ℕ) → Bool
unfolding text_eq
matches expected (ok actual) = text_eq actual expected
matches expected (err e) = false

-- `VerifyOpaqueToken`.
unfoldable pub verify_opaque_token : Encoding → (List ℕ → List ℕ) → TokenKind → Text → List ℕ → Bool
unfolding digest_opaque_token matches
verify_opaque_token e hash kind token expected =
    matches expected (digest_opaque_token e hash kind token)

generated_size :
    (e : Encoding) (prefix : Text) (entropy : List ℕ)
    → IsEncoding e 32 43
    → length entropy ≡ 32
    → (length (prefix ++ e.encode entropy) == length prefix + 43
        && has_prefix (prefix ++ e.encode entropy) prefix)
      ≡ true
generated_size e prefix entropy laws size =
    both_hold (length (prefix ++ e.encode entropy) == length prefix + 43)
      (has_prefix (prefix ++ e.encode entropy) prefix)
      (ground (arith, length-append prefix (e.encode entropy), laws.sized entropy size))
      (has_prefix-append prefix (e.encode entropy))

generated_digest :
    (e : Encoding) (hash : List ℕ → List ℕ) (kind : TokenKind) (prefix : Text) (entropy : List ℕ)
    → IsEncoding e 32 43
    → token_prefix kind ≡ some prefix
    → length entropy ≡ 32
    → digest_opaque_token e hash kind (prefix ++ e.encode entropy)
      ≡ ok (domain_digest hash (token_domain kind) (prefix ++ e.encode entropy))
unfolding digest_opaque_token
generated_digest e hash kind prefix entropy laws known size =
    rw
      (
        known,
        generated_size e prefix entropy laws size,
        drop-append prefix (e.encode entropy),
        decode_exactly-encode e 32 43 entropy laws size,
      )
      refl

-- The third code of a token tells its kind.
third : Text → ℕ
third (a ∷ b ∷ c ∷ s) = c
third other = 0

code_of : TokenKind → ℕ
code_of invitation_token = b'i'
code_of session_token = b's'
code_of recovery_token = b'r'
code_of other_kind = 0

code_of-injective : (k l : TokenKind) → code_of k ≡ code_of l → k ≡ l
unfolding code_of
code_of-injective invitation_token invitation_token h = refl
code_of-injective invitation_token session_token h = absurd (omega (arith, h))
code_of-injective invitation_token recovery_token h = absurd (omega (arith, h))
code_of-injective invitation_token other_kind h = absurd (omega (arith, h))
code_of-injective session_token invitation_token h = absurd (omega (arith, h))
code_of-injective session_token session_token h = refl
code_of-injective session_token recovery_token h = absurd (omega (arith, h))
code_of-injective session_token other_kind h = absurd (omega (arith, h))
code_of-injective recovery_token invitation_token h = absurd (omega (arith, h))
code_of-injective recovery_token session_token h = absurd (omega (arith, h))
code_of-injective recovery_token recovery_token h = refl
code_of-injective recovery_token other_kind h = absurd (omega (arith, h))
code_of-injective other_kind invitation_token h = absurd (omega (arith, h))
code_of-injective other_kind session_token h = absurd (omega (arith, h))
code_of-injective other_kind recovery_token h = absurd (omega (arith, h))
code_of-injective other_kind other_kind h = refl

third-prefix :
    (kind : TokenKind) (prefix rest : Text)
    → token_prefix kind ≡ some prefix
    → third (prefix ++ rest) ≡ code_of kind
unfolding token_prefix third code_of
third-prefix invitation_token prefix rest h =
    subst (λ (p : Text). third (p ++ rest) ≡ b'i') (some-eq h) refl
third-prefix session_token prefix rest h =
    subst (λ (p : Text). third (p ++ rest) ≡ b's') (some-eq h) refl
third-prefix recovery_token prefix rest h =
    subst (λ (p : Text). third (p ++ rest) ≡ b'r') (some-eq h) refl
third-prefix other_kind prefix rest h = cc

third-accepted :
    (e : Encoding) (hash : List ℕ → List ℕ) (kind : TokenKind) (token digest : List ℕ)
    → digest_opaque_token e hash kind token ≡ ok digest
    → third token ≡ code_of kind
unfolding digest_opaque_token
third-accepted e hash kind token digest h =
    let (prefix, known, h1) = or_fail_then (token_prefix kind) invalid_token_kind h in
    let (good, _) =
      guard_then (length token == length prefix + 43 && has_prefix token prefix) invalid_token h1 in
    let (_, starts) = &&-true (length token == length prefix + 43) (has_prefix token prefix) good in
    ap third (has_prefix-≡ token prefix starts)
    ∙ third-prefix kind prefix (drop (length prefix) token) known

-- A token that DigestOpaqueToken accepts for two kinds does so for one: a token of one kind is refused
-- for every other.
pub digest_opaque_token-kind :
    (e : Encoding) (hash : List ℕ → List ℕ) (k l : TokenKind) (token first second : List ℕ)
    → digest_opaque_token e hash k token ≡ ok first
    → digest_opaque_token e hash l token ≡ ok second
    → k ≡ l
digest_opaque_token-kind e hash k l token first second hk hl =
    code_of-injective k l
      (sym (third-accepted e hash k token first hk) ∙ third-accepted e hash l token second hl)

verified :
    (e : Encoding) (hash : List ℕ → List ℕ) (kind : TokenKind) (token digest : List ℕ)
    → digest_opaque_token e hash kind token ≡ ok digest
    → verify_opaque_token e hash kind token digest ≡ true
unfolding verify_opaque_token matches
verified e hash kind token digest h = rw h (text_eq_refl digest)

-- A generated token verifies with the digest that comes with it.
pub generate_opaque_token-verify :
    (e : Encoding) (hash : List ℕ → List ℕ) (kind : TokenKind) (random token digest : List ℕ)
    → generate_opaque_token_from e hash kind random ≡ ok (token, digest)
    → verify_opaque_token e hash kind token digest ≡ true
unfolding generate_opaque_token_from
generate_opaque_token-verify e hash kind random token digest h =
    let (prefix, known, h1) = or_fail_then (token_prefix kind) invalid_token_kind h in
    let (entropy, read, h2) = or_fail_then (read_full opaque_token_bytes random) no_randomness h1 in
    let (d, digested, last) =
      >>=-eq-ok (digest_opaque_token e hash kind (prefix ++ e.encode entropy.0)) _ h2 in
    subst (λ (r : Text × List ℕ). verify_opaque_token e hash kind r.0 r.1 ≡ true) (ok-eq last)
      (verified e hash kind (prefix ++ e.encode entropy.0) d digested)
