-- ===== src/Security/ApiKey.antt =====
-- internal/security/apikey.go. A string is the list of its bytes; the text of a generated key is ASCII.
-- HMAC-SHA256 is an argument, of the pepper and the message.
pub mod Laws
use codex_gateway.Base.{
  ℕ, ◌+◌, ◌≡◌, refl, Bool, true, false, not, ◌&&◌, ◌||◌, ltb, leb, ◌==◌, if◌then◌else◌, Option,
  none, some, List, [], ◌∷◌, ◌++◌, Result, ok, err, ◌>>=◌, ◌>>◌, guard, or_fail, length, take, drop,
  Text, codes,
}
use codex_gateway.Billing.Decimal.{text_eq}
use codex_gateway.Security.Encoding.{Encoding, read_full, decode_exactly}

abbrev pub api_key_version_prefix : Text
api_key_version_prefix = codes "cgk_v1_"

abbrev pub api_key_public_id_bytes : ℕ
api_key_public_id_bytes = 12

abbrev pub api_key_secret_bytes : ℕ
api_key_secret_bytes = 32

abbrev pub minimum_pepper_bytes : ℕ
minimum_pepper_bytes = 32

abbrev pub public_id_encoded_len : ℕ
public_id_encoded_len = 16

abbrev pub secret_encoded_len : ℕ
secret_encoded_len = 43

pub data Error : Type 0 where
  invalid_api_key pepper_too_short no_randomness : Error

-- `GeneratedAPIKey`.
pub record GeneratedApiKey : Type 0 where
  pub token : Text
  pub public_id : Text
  pub prefix : Text

-- `ParsedAPIKey`.
pub record ParsedApiKey : Type 0 where
  pub public_id : Text
  pub secret : List ℕ
  pub valid : Bool

abbrev pub separator : Text
separator = b'_' ∷ []

-- The token of an encoded id and an encoded secret, and its prefix.
abbrev pub prefix_of : Text → Text
prefix_of public_id = api_key_version_prefix ++ public_id ++ separator

generated : Encoding → List ℕ → List ℕ → GeneratedApiKey
generated e public_id secret = record {
  token = prefix_of (e.encode public_id) ++ e.encode secret;
  public_id = e.encode public_id;
  prefix = prefix_of (e.encode public_id);
}

-- `GenerateAPIKeyFrom`.
unfoldable pub generate_api_key_from : Encoding → List ℕ → Result Error GeneratedApiKey
unfolding read_full generated
generate_api_key_from e random = do
  first ← or_fail (read_full api_key_public_id_bytes random) no_randomness
  second ← or_fail (read_full api_key_secret_bytes first.1) no_randomness
  ok (generated e first.0 second.0)

-- strings.HasPrefix.
unfoldable pub has_prefix : Text → Text → Bool
unfolding text_eq
has_prefix s prefix = text_eq (take (length prefix) s) prefix

parsed : Text → List ℕ → ParsedApiKey
parsed public_id secret = record { public_id = public_id; secret = secret; valid = true }

-- `ParseAPIKey`.
unfoldable pub parse_api_key : Encoding → Text → Result Error ParsedApiKey
unfolding has_prefix text_eq decode_exactly parsed
parse_api_key e raw = do
  guard
      (length raw == length api_key_version_prefix + public_id_encoded_len + 1 + secret_encoded_len
        && has_prefix raw api_key_version_prefix)
      invalid_api_key
  let remainder = drop (length api_key_version_prefix) raw
  guard (has_prefix (drop public_id_encoded_len remainder) separator) invalid_api_key
  let public_encoded = take public_id_encoded_len remainder
  let secret_encoded = drop 1 (drop public_id_encoded_len remainder)
  public_raw ← or_fail (decode_exactly e api_key_public_id_bytes public_encoded) invalid_api_key
  secret_raw ← or_fail (decode_exactly e api_key_secret_bytes secret_encoded) invalid_api_key
  ok (parsed public_encoded secret_raw)

-- `Prefix`.
unfoldable pub key_prefix : ParsedApiKey → Text
key_prefix k = if k.valid then prefix_of k.public_id else []

-- What `HashParsedAPIKey` writes to the HMAC.
unfoldable pub key_message : ParsedApiKey → List ℕ
key_message k = codes "codex-gateway/api-key/v1" ++ (0 ∷ k.public_id) ++ (0 ∷ k.secret)

-- `HashParsedAPIKey`.
unfoldable pub hash_parsed_api_key :
    (List ℕ → List ℕ → List ℕ) → List ℕ → ParsedApiKey → Result Error (List ℕ)
unfolding key_message
hash_parsed_api_key hmac pepper k = do
  guard (not (ltb (length pepper) minimum_pepper_bytes)) pepper_too_short
  guard k.valid invalid_api_key
  ok (hmac pepper (key_message k))

-- `HashAPIKey`.
unfoldable pub hash_api_key :
    Encoding → (List ℕ → List ℕ → List ℕ) → List ℕ → Text → Result Error (List ℕ)
unfolding parse_api_key hash_parsed_api_key
hash_api_key e hmac pepper raw = do k ← parse_api_key e raw; hash_parsed_api_key hmac pepper k

-- `VerifyParsedAPIKey`.
unfoldable pub verify_parsed_api_key :
    (List ℕ → List ℕ → List ℕ) → List ℕ → ParsedApiKey → List ℕ → Result Error Bool
unfolding hash_parsed_api_key text_eq
verify_parsed_api_key hmac pepper k expected = do
  actual ← hash_parsed_api_key hmac pepper k
  ok (text_eq actual expected)

-- `VerifyAPIKey`: a key that is malformed is an ordinary failure, without an error.
unfoldable pub verify_api_key :
    Encoding
    → (List ℕ → List ℕ → List ℕ)
    → List ℕ
    → Text
    → List ℕ
    → Result Error (Option ParsedApiKey × Bool)
unfolding parse_api_key verify_parsed_api_key
verify_api_key e hmac pepper raw expected = do
  guard (not (ltb (length pepper) minimum_pepper_bytes)) pepper_too_short
  elim (parse_api_key e raw) [
    | err failure ↦ ok (none, false)
    | ok k ↦ verify_parsed_api_key hmac pepper k expected >>= (λ same. ok (some k, same))
  ]

-- `APIKeyPrefixForLog`.
unfoldable pub api_key_prefix_for_log : Encoding → Text → Result Error Text
unfolding parse_api_key key_prefix
api_key_prefix_for_log e raw = do k ← parse_api_key e raw; ok (key_prefix k)
