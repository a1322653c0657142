-- ===== src/Config/Pricing/Validate.antt =====
-- The checks of a decoded catalogue: `ParseUsagePricing`, `ParsePricingSnapshot` and what they call.
-- A catalogue comes decoded from encoding/json, which has refused unknown fields and trailing data; with
-- it come the names of the fields that each model's object has. A stored snapshot is bytes, which
-- `SnapshotJson` reads and writes.
use codex_gateway.Base.{
  ℕ, String, str_eq, Bool, true, false, not, ◌||◌, ◌&&◌, ltb, leb, ◌==◌, if◌then◌else◌, Option,
  none, some, List, [], ◌∷◌, Result, ok, err, ◌>>=◌, ◌>>◌, guard, or_fail, length, any, all, Text,
  codes,
}
use codex_gateway.Base.Int.{ℤ, to_ℕ, leb_ℤ}
use codex_gateway.Billing.Decimal.{Error as DecimalError, parse_price, parse_rate, is_digit}
use codex_gateway.Limit.Daily.{validate_day}
use codex_gateway.Config.Pricing.{
  TokenPricing, ServiceTierPricing, ModelPricing, FallbackPolicy, UsagePricing, PricingSnapshot,
  lookup,
}

pub data Error : Type 0 where
  schema_version catalog_date fx_date exchange_rate no_models too_many_models fallback_policy :
      Error
  model_name mixed_fields invalid_price cache_write_mode boundaries no_tiers invalid_tier : Error
  no_context_price cache_write_price ttl_price invalid_header undecoded : Error

-- `billing.ParsePrice` returns no error.
unfoldable pub is_price : Text → Bool
is_price p = elim (parse_price p) [ ok c ↦ true | err e ↦ false ]

unfoldable pub is_absent : Option Text → Bool
is_absent none = true
is_absent (some p) = false

-- A price that must be there.
unfoldable pub is_present_price : Option Text → Bool
is_present_price none = false
is_present_price (some p) = is_price p

-- `validateTokenPricing`.
unfoldable pub validate_token_pricing : String → TokenPricing → Result Error (Unit {0})
unfolding is_absent
validate_token_pricing mode p = do
  guard (is_price p.input && is_price p.cached_input && is_price p.output) invalid_price
  guard (if str_eq mode "separate" then is_present_price p.cache_write else is_absent p.cache_write)
      cache_write_price
  guard
      (if str_eq mode "separate_by_ttl"
        then is_present_price p.cache_write_5m && is_present_price p.cache_write_1h
        else is_absent p.cache_write_5m && is_absent p.cache_write_1h)
      ttl_price

unfoldable pub validate_context : String → Option TokenPricing → Result Error (Unit {0})
validate_context mode none = ok tt
validate_context mode (some p) = validate_token_pricing mode p

unfoldable pub has_context : Option TokenPricing → Option TokenPricing → Bool
has_context none none = false
has_context short long = true

-- One round of the loop over the service tiers.
unfoldable pub validate_tier : String → String × ServiceTierPricing → Result Error (Unit {0})
unfolding has_context
validate_tier mode (tier, contexts) = do
  guard (str_eq tier "standard" || str_eq tier "flex" || str_eq tier "fast") invalid_tier
  guard (has_context contexts.short contexts.long) no_context_price
  validate_context mode contexts.short
  validate_context mode contexts.long

unfoldable pub validate_tiers :
    String → List (String × ServiceTierPricing) → Result Error (Unit {0})
validate_tiers mode [] = ok tt
validate_tiers mode (t ∷ ts) = do validate_tier mode t; validate_tiers mode ts

abbrev pub is_positive : ℤ → Bool
is_positive n = elim (to_ℕ n) [ none ↦ false | some m ↦ ltb 0 m ]

unfoldable pub is_empty : Text → Bool
is_empty [] = true
is_empty (c ∷ s) = false

unfoldable pub no_tier : List (String × ServiceTierPricing) → Bool
no_tier [] = true
no_tier (t ∷ ts) = false

-- `validateV2ModelPricing`.
unfoldable pub validate_v2_model_pricing : ModelPricing → Result Error (Unit {0})
unfolding is_empty no_tier
validate_v2_model_pricing m = do
  guard (is_empty m.input && is_empty m.cached_input && is_empty m.output) mixed_fields
  guard
      (str_eq m.cache_write_mode "separate"
        || str_eq m.cache_write_mode "separate_by_ttl"
        || str_eq m.cache_write_mode "included_in_input")
      cache_write_mode
  guard
      (is_positive m.max_input_tokens
        && is_positive m.long_context_threshold_tokens
        && leb_ℤ m.long_context_threshold_tokens m.max_input_tokens)
      boundaries
  guard (not (no_tier m.service_tiers)) no_tiers
  validate_tiers m.cache_write_mode m.service_tiers

abbrev pub is_zero_ℤ : ℤ → Bool
is_zero_ℤ n = elim (to_ℕ n) [ none ↦ false | some m ↦ m == 0 ]

-- `validateV1ModelPricing`.
unfoldable pub validate_v1_model_pricing : ModelPricing → Result Error (Unit {0})
unfolding no_tier
validate_v1_model_pricing m = do
  guard
      (str_eq m.cache_write_mode ""
        && is_zero_ℤ m.max_input_tokens
        && is_zero_ℤ m.long_context_threshold_tokens
        && no_tier m.service_tiers)
      mixed_fields
  guard (is_price m.input && is_price m.cached_input && is_price m.output) invalid_price

-- `validateV2FallbackPolicy`.
unfoldable pub validate_v2_fallback_policy : FallbackPolicy → Bool
validate_v2_fallback_policy p =
    str_eq p.unknown_service_tier "max_published"
    && str_eq p.missing_price_combination "max_published"
    && str_eq p.missing_cache_write_tokens "all_uncached_as_write"

-- `validateModelPricingFieldPresence`: no field of the other version.
unfoldable pub has_any : List String → List String → Bool
has_any names [] = false
has_any names (f ∷ fs) = any (str_eq f) names || has_any names fs

unfoldable pub v1_fields : List String
v1_fields = "input_usd_per_million" ∷ "cached_input_usd_per_million" ∷ "output_usd_per_million" ∷ []

v2_fields : List String
v2_fields =
    "cache_write_mode" ∷ "max_input_tokens" ∷ "long_context_threshold_tokens" ∷ "service_tiers" ∷ []

unfoldable pub validate_field_presence : ℕ → List String → Bool
unfolding has_any v1_fields v2_fields
validate_field_presence version fields =
    not (version == 2 && has_any v1_fields fields) && not (version == 1 && has_any v2_fields fields)

-- `usagePricingModelPattern`: ^[A-Za-z0-9._:-]{1,128}$.
is_name_code : ℕ → Bool
unfolding is_digit
is_name_code c =
    leb b'A' c && leb c b'Z'
    || leb b'a' c && leb c b'z'
    || is_digit c
    || c == b'.'
    || c == b'_'
    || c == b':'
    || c == b'-'

unfoldable pub is_model_name : String → Bool
unfolding is_name_code
is_model_name name =
    let s = codes name in all is_name_code s && ltb 0 (length s) && leb (length s) 128

-- One round of the loop over the models: the name of an entry, its object's fields, and its prices.
unfoldable pub validate_model :
    ℕ → (String → List String) → String × ModelPricing → Result Error (Unit {0})
validate_model version fields (model, price) = do
  guard (is_model_name model) model_name
  guard (validate_field_presence version (fields model)) mixed_fields
  if version == 1 then validate_v1_model_pricing price else validate_v2_model_pricing price

unfoldable pub validate_models :
    ℕ → (String → List String) → List (String × ModelPricing) → Result Error (Unit {0})
validate_models version fields [] = ok tt
validate_models version fields (m ∷ ms) = do
  validate_model version fields m
  validate_models version fields ms

unfoldable pub is_ok : Result DecimalError Text → Bool
is_ok (ok s) = true
is_ok (err e) = false

-- `ParseUsagePricing` on the decoded document: version 0, where none is given, means 1.
unfoldable pub default_version : ℕ → ℕ
default_version v = if v == 0 then 1 else v

unfoldable pub with_version : ℕ → UsagePricing → UsagePricing
with_version v p = record p { schema_version = v }

unfoldable pub parse_usage_pricing :
    (String → List String) → Bool → UsagePricing → Result Error UsagePricing
unfolding default_version is_ok with_version
parse_usage_pricing fields policy_present p = do
  let version = default_version p.schema_version
  guard (version == 1 || version == 2) schema_version
  guard (validate_day p.catalog_as_of) catalog_date
  guard (validate_day p.fx_as_of) fx_date
  guard (is_ok (parse_rate p.usd_cny_rate)) exchange_rate
  guard (ltb 0 (length p.models)) no_models
  guard (leb (length p.models) 1000) too_many_models
  guard (if version == 1 then not policy_present else validate_v2_fallback_policy p.fallback_policy)
      fallback_policy
  validate_models version fields p.models
  ok (with_version version p)

-- The fields of the object that json.Marshal writes for a `ModelPricing`: those of the struct's tags, each
-- with `omitempty`, which leaves a field out where it has its type's zero value.
unfoldable pub omit_empty : Bool → String → List String → List String
omit_empty empty name rest = if empty then rest else name ∷ rest

unfoldable pub encoded_fields : ModelPricing → List String
unfolding omit_empty is_empty no_tier
encoded_fields m = omit_empty (is_empty m.input) "input_usd_per_million" (
    omit_empty (is_empty m.cached_input) "cached_input_usd_per_million" (
      omit_empty (is_empty m.output) "output_usd_per_million" (
        omit_empty (str_eq m.cache_write_mode "") "cache_write_mode" (
          omit_empty (is_zero_ℤ m.max_input_tokens) "max_input_tokens" (
            omit_empty (is_zero_ℤ m.long_context_threshold_tokens) "long_context_threshold_tokens"
              (omit_empty (no_tier m.service_tiers) "service_tiers" []))))))

-- What the code takes from encoding/json for a snapshot: json.Marshal, a strict Decode up to the end of
-- the file, and the keys of the object `rule` that json.Unmarshal finds.
pub record SnapshotJson : Type 1 where
  pub Raw : Type 0
  pub marshal : PricingSnapshot → Raw
  pub decode : Raw → Option PricingSnapshot
  pub rule_keys : Raw → Option (List String)

-- `ParsePricingSnapshot`.
unfoldable pub parse_pricing_snapshot : (j : SnapshotJson) → j.Raw → Result Error PricingSnapshot
parse_pricing_snapshot j raw = do
  s ← or_fail (j.decode raw) undecoded
  guard (s.schema_version == 2 && is_model_name s.model) invalid_header
  fields ← or_fail (j.rule_keys raw) undecoded
  guard (validate_field_presence 2 fields) mixed_fields
  guard (validate_v2_fallback_policy s.fallback_policy) fallback_policy
  validate_v2_model_pricing s.rule
  ok s

-- `ModelSnapshot`: the rule, and under version 2 the snapshot that json.Marshal encodes.
unfoldable pub model_snapshot :
    UsagePricing → String → Option (Option PricingSnapshot × ModelPricing)
model_snapshot p model = elim (lookup model p.models) [
  | none ↦ none
  | some rule ↦ some (
      if p.schema_version == 2
      then (
        some (record {
          schema_version = 2;
          fallback_policy = p.fallback_policy;
          model = model;
          rule = rule;
        }),
        rule,
      )
      else (none, rule))
]
