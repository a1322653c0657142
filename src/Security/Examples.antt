-- ===== src/Security/Examples.antt =====
-- Keys, tokens and codes under simple encodings that keep the sizes of base64 and base32.
use codex_gateway.Base.{
  ℕ, zero, suc, ◌+◌, ◌≡◌, ◌↔◌, refl, ap, true, ◌==◌, if◌then◌else◌, none, some, List, [], ◌∷◌, ◌++◌,
  Result, ok, err, length, length-append, length-replicate, all, All, &&-true, replicate, drop,
  Text, codes, arith,
}
use codex_gateway.Security.Encoding.{Encoding, IsEncoding}
use codex_gateway.Security.ApiKey.{ParsedApiKey, prefix_of, parse_api_key}
use codex_gateway.Security.ApiKey.Laws.{IsKey, parse_api_key-IsKey}
use codex_gateway.Security.Tokens.{
  invitation_token, session_token, invalid_token, digest_opaque_token, digest_opaque_token-kind,
}
use codex_gateway.Security.RecoveryCodes.{
  Code, is_alphabet, group_recovery_code, digest_recovery_code, verify_recovery_code,
  generate_recovery_codes_from, RecoveryError, random_collision,
}
use codex_gateway.Security.RecoveryCodes.Laws.{
  AreDistinct, generate_recovery_codes_from_lem, digest_recovery_code-group,
}
use codex_gateway.Security.Tokens.{domain_digest}

-- The number of bytes, and zeros up to the size that base64 has.
abbrev filler : ℕ → ℕ
filler n = if n == 12 then 3 else 10

abbrev toy : Encoding
toy = record {
  encode = λ b. length b ∷ replicate (filler (length b)) b'0' ++ b;
  decode = λ t. elim t [ [] ↦ none | n ∷ rest ↦ some (drop (filler n) rest) ];
}

drop_filler : (n : ℕ) (b : List ℕ) → drop n (replicate n b'0' ++ b) ≡ b
drop_filler zero b = refl
drop_filler (suc n) b = drop_filler n b

length-filler : (n : ℕ) (b : List ℕ) → length (replicate n b'0' ++ b) ≡ n + length b
length-filler n b =
    omega (arith, length-append (replicate n b'0') b, length-replicate {A = ℕ} n b'0')

toy_decoded : (b : List ℕ) → toy.decode (toy.encode b) ≡ some b
toy_decoded b = ap some (drop_filler (filler (length b)) b)

toy-IsEncoding_id : IsEncoding toy 12 16
toy-IsEncoding_id = record {
  decoded = toy_decoded;
  sized = λ b h. rw h (omega (arith, length-filler 3 b, h));
}

toy-IsEncoding_secret : IsEncoding toy 32 43
toy-IsEncoding_secret = record {
  decoded = toy_decoded;
  sized = λ b h. rw h (omega (arith, length-filler 10 b, h));
}

abbrev id_bytes : List ℕ
id_bytes = replicate 12 5

abbrev secret_bytes : List ℕ
secret_bytes = replicate 32 9

abbrev sample_key : ParsedApiKey
sample_key = record { public_id = toy.encode id_bytes; secret = secret_bytes; valid = true }

abbrev sample_token : Text
sample_token = prefix_of (toy.encode id_bytes) ++ toy.encode secret_bytes

sample_token_parses : parse_api_key toy sample_token ≡ ok sample_key
unfolding parse_api_key
sample_token_parses = refl

parse_api_key-IsKey_example :
    (parse_api_key toy sample_token ≡ ok sample_key) ↔ IsKey toy sample_token sample_key
parse_api_key-IsKey_example =
    parse_api_key-IsKey toy sample_token sample_key toy-IsEncoding_id toy-IsEncoding_secret

abbrev same_hash : List ℕ → List ℕ
same_hash m = m

abbrev invitation : Text
invitation = codes "cgi_v1_" ++ toy.encode secret_bytes

invitation_digest :
    digest_opaque_token toy same_hash invitation_token invitation
    ≡ ok (domain_digest same_hash (codes "codex-gateway/invitation-token/v1") invitation)
unfolding digest_opaque_token
invitation_digest = refl

invitation_no_session :
    digest_opaque_token toy same_hash session_token invitation ≡ err invalid_token
unfolding digest_opaque_token
invitation_no_session = refl

digest_opaque_token-kind_example : invitation_token ≡ invitation_token
digest_opaque_token-kind_example =
    digest_opaque_token-kind toy same_hash invitation_token invitation_token invitation
      (domain_digest same_hash (codes "codex-gateway/invitation-token/v1") invitation)
      (domain_digest same_hash (codes "codex-gateway/invitation-token/v1") invitation)
      invitation_digest invitation_digest

-- Nine zeros before the bytes.
abbrev toy_32 : Encoding
toy_32 = record { encode = λ b. replicate 9 b'0' ++ b; decode = λ t. some (drop 9 t) }

toy_32-IsEncoding : IsEncoding toy_32 15 24
toy_32-IsEncoding = record { decoded = λ b. refl; sized = λ b h. omega (arith, h) }

abbrev chunk : ℕ → List ℕ
chunk d = replicate 14 b'0' ++ (d ∷ [])

abbrev entropy : List ℕ → List ℕ
entropy [] = []
entropy (d ∷ ds) = chunk d ++ entropy ds

abbrev codes_of : Result RecoveryError (List Code) → List Code
codes_of (ok cs) = cs
codes_of (err e) = []

abbrev ten : List ℕ
ten = codes "0123456789"

ten_codes : List Code
ten_codes = codes_of (generate_recovery_codes_from toy_32 same_hash (entropy ten))

ten_codes_made : generate_recovery_codes_from toy_32 same_hash (entropy ten) ≡ ok ten_codes
unfolding ten_codes generate_recovery_codes_from
ten_codes_made = refl

collision :
    generate_recovery_codes_from toy_32 same_hash (entropy (codes "0120456789"))
    ≡ err random_collision
unfolding generate_recovery_codes_from
collision = refl

generate_recovery_codes_from_lem_example :
    (length ten_codes ≡ 10)
    × AreDistinct ten_codes
    × All (λ (c : Code). verify_recovery_code toy_32 same_hash c.0 c.1 ≡ true) ten_codes
generate_recovery_codes_from_lem_example =
    generate_recovery_codes_from_lem toy_32 same_hash (entropy ten) ten_codes ten_codes_made

all-IsAlphabet : (s : Text) → all is_alphabet s ≡ true → All (λ (c : ℕ). is_alphabet c ≡ true) s
all-IsAlphabet [] h = tt
all-IsAlphabet (c ∷ s) h =
    let (first, rest) = &&-true (is_alphabet c) (all is_alphabet s) h in
    (first, all-IsAlphabet s rest)

grouped : group_recovery_code (toy_32.encode (chunk b'7')) ≡ codes "0000-0000-0000-0000-0000-0007"
unfolding group_recovery_code
grouped = refl

digest_recovery_code-group_example :
    digest_recovery_code toy_32 same_hash (group_recovery_code (toy_32.encode (chunk b'7')))
    ≡ ok (
        domain_digest same_hash
          (codes "codex-gateway/recovery-code/v1")
          (group_recovery_code (toy_32.encode (chunk b'7'))))
unfolding is_alphabet
digest_recovery_code-group_example =
    digest_recovery_code-group toy_32 same_hash (chunk b'7') toy_32-IsEncoding
      (all-IsAlphabet (toy_32.encode (chunk b'7')) refl) refl
