-- ===== src/Security/ApiKey/Laws.antt =====
-- Lemmas on the texts that are API keys.
use codex_gateway.Base.{
  ℕ, ◌+◌, ◌≡◌, ◌↔◌, refl, sym, ap, ◌∙◌, Bool, true, false, ◌&&◌, ◌==◌, some, List, [], ◌∷◌, ◌++◌,
  ok, ok-eq, guard_then, or_fail_then, &&-true, length, take, drop, Text, arith, subst, take-append,
  drop-append, take-append-drop, length-append,
}
use codex_gateway.Billing.Decimal.Canonical.{text_eq_refl}
use codex_gateway.Security.Encoding.{
  Encoding, IsEncoding, decode_exactly, decode_exactly-encode, decode_exactly-some, text_eq-≡,
}
use codex_gateway.Security.ApiKey.{
  invalid_api_key, ParsedApiKey, api_key_version_prefix, public_id_encoded_len, secret_encoded_len,
  separator, prefix_of, has_prefix, parsed, parse_api_key,
}

append_assoc : (a b c : Text) → (a ++ b) ++ c ≡ a ++ (b ++ c)
append_assoc [] b c = refl
append_assoc (x ∷ a) b c = ap (λ (t : Text). x ∷ t) (append_assoc a b c)

sep_append : (s : Text) → separator ++ s ≡ b'_' ∷ s
sep_append s = refl

take_sized : (n : ℕ) (a b : Text) → length a ≡ n → take n (a ++ b) ≡ a
take_sized n a b h = subst (λ (k : ℕ). take k (a ++ b) ≡ a) h (take-append a b)

drop_sized : (n : ℕ) (a b : Text) → length a ≡ n → drop n (a ++ b) ≡ b
drop_sized n a b h = subst (λ (k : ℕ). drop k (a ++ b) ≡ b) h (drop-append a b)

pub has_prefix-append : (s t : Text) → has_prefix (s ++ t) s ≡ true
unfolding has_prefix
has_prefix-append s t = rw (take-append s t) (text_eq_refl s)

pub has_prefix-≡ :
    (s prefix : Text) → has_prefix s prefix ≡ true → s ≡ prefix ++ drop (length prefix) s
unfolding has_prefix
has_prefix-≡ s prefix h =
    sym (take-append-drop (length prefix) s)
    ∙ ap (λ (t : Text). t ++ drop (length prefix) s) (text_eq-≡ (take (length prefix) s) prefix h)

-- The text of a key: its id and its secret, each in its one encoding.
pub record IsKey (e : Encoding) (raw : Text) (k : ParsedApiKey) : Type 0 where
  pub id : List ℕ
  pub encoded : k.public_id ≡ e.encode id
  pub id_size : length id ≡ 12
  pub secret_size : length k.secret ≡ 32
  pub valid : k.valid ≡ true
  pub token : raw ≡ prefix_of k.public_id ++ e.encode k.secret

parts_accepted :
    (e : Encoding) (raw public_encoded secret_encoded : Text) (id secret : List ℕ)
    → (length raw == length api_key_version_prefix + public_id_encoded_len + 1 + secret_encoded_len
        && has_prefix raw api_key_version_prefix)
      ≡ true
    → has_prefix (drop public_id_encoded_len (drop (length api_key_version_prefix) raw)) separator
      ≡ true
    → take public_id_encoded_len (drop (length api_key_version_prefix) raw) ≡ public_encoded
    → drop 1 (drop public_id_encoded_len (drop (length api_key_version_prefix) raw))
      ≡ secret_encoded
    → decode_exactly e 12 public_encoded ≡ some id
    → decode_exactly e 32 secret_encoded ≡ some secret
    → parse_api_key e raw ≡ ok (parsed public_encoded secret)
unfolding parse_api_key
parts_accepted e raw public_encoded secret_encoded id secret size mark i s di ds =
    rw (parse_api_key, size, mark, i, s, di, ds) refl

pub both_hold : (a b : Bool) → a ≡ true → b ≡ true → (a && b) ≡ true
both_hold true true h k = refl
both_hold true false h k = k
both_hold false b h k = h

starts :
    (t : Text)
    → length t ≡ 60
    → (length (api_key_version_prefix ++ t)
          == length api_key_version_prefix + public_id_encoded_len + 1 + secret_encoded_len
        && has_prefix (api_key_version_prefix ++ t) api_key_version_prefix)
      ≡ true
starts t h =
    both_hold
      (length (api_key_version_prefix ++ t)
        == length api_key_version_prefix + public_id_encoded_len + 1 + secret_encoded_len)
      (has_prefix (api_key_version_prefix ++ t) api_key_version_prefix) (ground (arith, h))
      (has_prefix-append api_key_version_prefix t)

token_accepted :
    (e : Encoding) (id secret : List ℕ)
    → IsEncoding e 12 16
    → IsEncoding e 32 43
    → length id ≡ 12
    → length secret ≡ 32
    → parse_api_key e (prefix_of (e.encode id) ++ e.encode secret)
      ≡ ok (parsed (e.encode id) secret)
token_accepted e id secret laws_id laws_secret hi hs =
    let i = e.encode id in
    let s = e.encode secret in
    let behind : (i ++ separator) ++ s ≡ i ++ b'_' ∷ s =
      append_assoc i separator s ∙ ap (λ (t : Text). i ++ t) (sep_append s) in
    let rest : drop 16 ((i ++ separator) ++ s) ≡ b'_' ∷ s =
      ap (drop 16) behind ∙ drop_sized 16 i (b'_' ∷ s) (laws_id.sized id hi) in
    let size : length ((i ++ separator) ++ s) ≡ 60 = omega (
      arith,
      length-append (i ++ separator) s,
      length-append i separator,
      laws_id.sized id hi,
      laws_secret.sized secret hs,
    ) in
    parts_accepted e (prefix_of i ++ s) i s id secret (starts ((i ++ separator) ++ s) size)
      (subst (λ (t : Text). has_prefix t separator ≡ true) (sym rest)
        (has_prefix-append separator s))
      (ap (take 16) behind ∙ take_sized 16 i (b'_' ∷ s) (laws_id.sized id hi)) (ap (drop 1) rest)
      (decode_exactly-encode e 12 16 id laws_id hi)
      (decode_exactly-encode e 32 43 secret laws_secret hs)

split_rest :
    (remainder s : Text)
    → has_prefix (drop 16 remainder) separator ≡ true
    → s ≡ drop 1 (drop 16 remainder)
    → remainder ≡ (take 16 remainder ++ separator) ++ s
split_rest remainder s mark h =
    sym (take-append-drop 16 remainder)
    ∙ ap (λ (t : Text). take 16 remainder ++ t)
        (has_prefix-≡ (drop 16 remainder) separator mark
          ∙ ap (λ (t : Text). separator ++ t) (sym h))
    ∙ sym (append_assoc (take 16 remainder) separator s)

parts-IsKey :
    (e : Encoding) (raw remainder : Text) (id secret : List ℕ)
    → remainder ≡ drop (length api_key_version_prefix) raw
    → has_prefix raw api_key_version_prefix ≡ true
    → has_prefix (drop public_id_encoded_len remainder) separator ≡ true
    → decode_exactly e 12 (take public_id_encoded_len remainder) ≡ some id
    → decode_exactly e 32 (drop 1 (drop public_id_encoded_len remainder)) ≡ some secret
    → IsKey e raw (parsed (take public_id_encoded_len remainder) secret)
unfolding parsed
parts-IsKey e raw remainder id secret rest version mark id_ok secret_ok =
    let (i, id_size) = decode_exactly-some e 12 (take 16 remainder) id id_ok in
    let (s, secret_size) = decode_exactly-some e 32 (drop 1 (drop 16 remainder)) secret secret_ok in
    record {
      id = id;
      encoded = sym i;
      id_size = id_size;
      secret_size = secret_size;
      valid = refl;
      token =
          has_prefix-≡ raw api_key_version_prefix version
          ∙ ap (λ (t : Text). api_key_version_prefix ++ t)
              (sym rest ∙ split_rest remainder (e.encode secret) mark s);
    }

accepted_token :
    (e : Encoding) (raw : Text) (k : ParsedApiKey) → parse_api_key e raw ≡ ok k → IsKey e raw k
unfolding parse_api_key
accepted_token e raw k h =
    let remainder = drop (length api_key_version_prefix) raw in
    let (start, h1) =
      guard_then
        (length raw
            == length api_key_version_prefix + public_id_encoded_len + 1 + secret_encoded_len
          && has_prefix raw api_key_version_prefix)
        invalid_api_key h in
    let (mark, h2) =
      guard_then (has_prefix (drop public_id_encoded_len remainder) separator) invalid_api_key h1 in
    let (id, id_ok, h3) =
      or_fail_then (decode_exactly e 12 (take public_id_encoded_len remainder)) invalid_api_key
        h2 in
    let (secret, secret_ok, last) =
      or_fail_then (decode_exactly e 32 (drop 1 (drop public_id_encoded_len remainder)))
        invalid_api_key h3 in
    let (_, version) =
      &&-true
        (length raw
          == length api_key_version_prefix + public_id_encoded_len + 1 + secret_encoded_len)
        (has_prefix raw api_key_version_prefix) start in
    subst (IsKey e raw) (ok-eq last)
      (parts-IsKey e raw remainder id secret refl version mark id_ok secret_ok)

parsed_of :
    (e : Encoding) (raw public_id encoded : Text) (secret : List ℕ) (valid : Bool)
    → public_id ≡ encoded
    → valid ≡ true
    → raw ≡ prefix_of public_id ++ e.encode secret
    → parse_api_key e (prefix_of encoded ++ e.encode secret) ≡ ok (parsed encoded secret)
    → parse_api_key e raw ≡ ok (record { public_id = public_id; secret = secret; valid = valid })
unfolding parsed
parsed_of e raw public_id encoded secret valid same good token h = rw (token, same, good) h

token_parsed :
    (e : Encoding) (raw : Text) (k : ParsedApiKey)
    → IsEncoding e 12 16
    → IsEncoding e 32 43
    → IsKey e raw k
    → parse_api_key e raw ≡ ok k
token_parsed e raw k laws_id laws_secret key =
    parsed_of e raw k.public_id (e.encode key.id) k.secret k.valid key.encoded key.valid key.token
      (token_accepted e key.id k.secret laws_id laws_secret key.id_size key.secret_size)

-- ParseAPIKey accepts exactly the version prefix, the encoding of 12 bytes, an underscore and the
-- encoding of 32 bytes, and returns the encoded id and the secret's bytes, where base64 encodes 12 and
-- 32 bytes in 16 and 43 characters that decode to them.
pub parse_api_key-IsKey :
    (e : Encoding) (raw : Text) (k : ParsedApiKey)
    → IsEncoding e 12 16
    → IsEncoding e 32 43
    → (parse_api_key e raw ≡ ok k) ↔ IsKey e raw k
parse_api_key-IsKey e raw k laws_id laws_secret =
    (accepted_token e raw k, token_parsed e raw k laws_id laws_secret)
