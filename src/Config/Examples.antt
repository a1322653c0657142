-- ===== src/Config/Examples.antt =====
-- A small catalogue, and the theorems on it.
use codex_gateway.Base.{◌≡◌, refl, String, true, none, some, List, [], ◌∷◌, ok, codes, All, ◌⊎◌}
use codex_gateway.Base.Int.{pos}
use codex_gateway.Billing.Decimal.{parse_price, parse_rate, text_eq, trim_space}
use codex_gateway.Billing.Rounding.{split_dot}
use codex_gateway.Limit.Daily.{validate_day, text_lt}
use codex_gateway.Config.Pricing.{
  lookup, normalize_service_tier, TokenPricing, ModelPricing, FallbackPolicy, UsagePricing,
  PricingSnapshot, PricingDecision,
}
use codex_gateway.Config.Pricing.Validate.{
  validate_v2_fallback_policy, validate_models, validate_model, is_model_name,
  validate_field_presence, validate_tiers, validate_tier, validate_context, validate_token_pricing,
  is_price, is_present_price, validate_v2_model_pricing, parse_usage_pricing,
  parse_pricing_snapshot, SnapshotJson, encoded_fields, model_snapshot,
}
use codex_gateway.Config.Pricing.Reason.{
  append_fallback_reason, join_comma, insert_text, insert_pieces, split_comma,
}
use codex_gateway.Config.Pricing.Select.{
  select_price, exact_price, read_tier, context_price, fall_back, max_published, prepend,
  max_published_for_context, raise_all, raise, max_decimal, component_maximum, select, above,
  prices_of_context, all_prices,
}
use codex_gateway.Config.Pricing.Select.Larger.{Larger, max_decimal-Larger}
use codex_gateway.Config.Pricing.Select.Maximum.{Covers, component_maximum-Covers}
use codex_gateway.Config.Pricing.Select.Raise.{Valid}
use codex_gateway.Config.Pricing.Select.Published.{
  validate_v2_model_pricing-Valid, all_prices-Valid,
}
use codex_gateway.Config.Pricing.Select.Total.{OwnPrice}
use codex_gateway.Config.Pricing.Select.Decision.{IsPriced, NotBelow, select-NotBelow}
use codex_gateway.Config.Pricing.Select.Charges.{Charges}
use codex_gateway.Config.Pricing.Select.Catalogue.{model_snapshot-parse, model_snapshot-select}

abbrev cheap : TokenPricing
cheap = record {
  input = codes "1.25";
  cached_input = codes "0.125";
  cache_write = none;
  cache_write_5m = some (codes "1.5");
  cache_write_1h = some (codes "2.5");
  output = codes "10";
}

abbrev dear : TokenPricing
dear = record {
  input = codes "2.5";
  cached_input = codes "0.05";
  cache_write = none;
  cache_write_5m = some (codes "3");
  cache_write_1h = some (codes "2");
  output = codes "9.99";
}

abbrev small_rule : ModelPricing
small_rule = record {
  input = [];
  cached_input = [];
  output = [];
  cache_write_mode = "separate_by_ttl";
  max_input_tokens = pos 1000;
  long_context_threshold_tokens = pos 200;
  service_tiers =
      ("standard", record { short = some cheap; long = some dear })
      ∷ ("fast", record { short = some dear; long = none })
      ∷ [];
}

abbrev small_policy : FallbackPolicy
small_policy = record {
  unknown_service_tier = "max_published";
  missing_price_combination = "max_published";
  missing_cache_write_tokens = "all_uncached_as_write";
}

abbrev small_catalogue : UsagePricing
small_catalogue = record {
  schema_version = 2;
  catalog_as_of = "2026-07-01";
  fx_as_of = "2026-07-01";
  usd_cny_rate = codes "7.1";
  fallback_policy = small_policy;
  models = ("m-1", small_rule) ∷ [];
}

abbrev small_fields : String → List String
small_fields model =
    "cache_write_mode" ∷ "max_input_tokens" ∷ "long_context_threshold_tokens" ∷ "service_tiers" ∷ []

abbrev small_snapshot : PricingSnapshot
small_snapshot = record {
  schema_version = 2;
  fallback_policy = small_policy;
  model = "m-1";
  rule = small_rule;
}

catalogue_loads : parse_usage_pricing small_fields true small_catalogue ≡ ok small_catalogue
unfolding parse_usage_pricing validate_day parse_rate validate_v2_fallback_policy validate_models
    validate_model is_model_name validate_field_presence validate_v2_model_pricing validate_tiers
    validate_tier validate_context validate_token_pricing is_price parse_price is_present_price
catalogue_loads = refl

catalogue_gives : model_snapshot small_catalogue "m-1" ≡ some (some small_snapshot, small_rule)
unfolding model_snapshot lookup
catalogue_gives = refl

rule_loads : validate_v2_model_pricing small_rule ≡ ok tt
unfolding validate_v2_model_pricing validate_tiers validate_tier validate_context
    validate_token_pricing is_price parse_price is_present_price
rule_loads = refl

-- A tier that nobody knows is charged as the dearest of each component of the context.
unknown_decision : PricingDecision
unknown_decision = record {
  pricing_service_tier = "max_published";
  context_class = "short";
  input = codes "2.5";
  cached_input = codes "0.125";
  cache_write = codes "3";
  cache_write_5m = codes "3";
  cache_write_1h = codes "2.5";
  output = codes "10";
  fallback_reason = codes "unknown_service_tier";
}

unknown_tier : select small_snapshot (codes "turbo") (pos 100) ≡ ok unknown_decision
unfolding select unknown_decision select_price exact_price read_tier trim_space
    normalize_service_tier text_eq lookup context_price fall_back max_published component_maximum
    all_prices prepend max_published_for_context prices_of_context raise_all raise max_decimal
    append_fallback_reason text_lt join_comma split_dot parse_price insert_text insert_pieces
    split_comma
unknown_tier = refl

-- The same for a tier without a price in the long context.
no_long_price : (d : PricingDecision) × (select small_snapshot (codes "FAST ") (pos 500) ≡ ok d)
unfolding select select_price exact_price read_tier trim_space normalize_service_tier text_eq lookup
    context_price fall_back max_published component_maximum all_prices prepend
no_long_price = (_, refl)

max_decimal-Larger_example :
    Larger (codes "9.99") (codes "10") (max_decimal (codes "9.99") (codes "10"))
max_decimal-Larger_example =
    max_decimal-Larger (codes "9.99") (codes "10") (codes "9.99") (codes "10")
      (unfold parse_price in refl) (unfold parse_price in refl)

small_maximum : TokenPricing
small_maximum = record {
  input = codes "2.5";
  cached_input = codes "0.125";
  cache_write = none;
  cache_write_5m = some (codes "3");
  cache_write_1h = some (codes "2.5");
  output = codes "10";
}

small_maximum_lem : component_maximum (cheap ∷ dear ∷ []) "separate_by_ttl" ≡ some small_maximum
unfolding component_maximum small_maximum raise_all raise max_decimal text_lt split_dot parse_price
small_maximum_lem = refl

small_prices-Valid : All (Valid "separate_by_ttl") (cheap ∷ dear ∷ [])
unfolding all_prices prepend
small_prices-Valid =
    let valid =
      all_prices-Valid "separate_by_ttl" small_rule.service_tiers
        (validate_v2_model_pricing-Valid small_rule rule_loads).1 in
    (valid.0, (valid.1.0, tt))

component_maximum-Covers_example :
    Valid "separate_by_ttl" small_maximum × All (Covers small_maximum) (cheap ∷ dear ∷ [])
component_maximum-Covers_example =
    component_maximum-Covers (cheap ∷ dear ∷ []) "separate_by_ttl" small_maximum small_prices-Valid
      small_maximum_lem

select-NotBelow_example :
    ((p : TokenPricing) × OwnPrice small_rule (above 100 (pos 200)) (codes "turbo") p
      × Charges "separate_by_ttl" unknown_decision p)
    ⊎ All
        (NotBelow unknown_decision)
        (prices_of_context (above 100 (pos 200)) small_rule.service_tiers)
select-NotBelow_example =
    select-NotBelow small_snapshot (codes "turbo") 100 unknown_decision rule_loads unknown_tier

abbrev kept : SnapshotJson
kept = record {
  Raw = PricingSnapshot;
  marshal = λ s. s;
  decode = λ s. some s;
  rule_keys = λ s. some (encoded_fields s.rule);
}

small_keys :
    encoded_fields small_rule
    ≡ "cache_write_mode" ∷ "max_input_tokens" ∷ "long_context_threshold_tokens" ∷ "service_tiers"
      ∷ []
unfolding encoded_fields
small_keys = refl

model_snapshot-parse_example : parse_pricing_snapshot kept small_snapshot ≡ ok small_snapshot
model_snapshot-parse_example =
    model_snapshot-parse kept small_fields true small_catalogue small_catalogue "m-1" small_snapshot
      small_rule catalogue_loads catalogue_gives refl refl

model_snapshot-select_example :
    (d : PricingDecision) × (select small_snapshot (codes "turbo") (pos 5000) ≡ ok d)
    × IsPriced "separate_by_ttl" d
model_snapshot-select_example =
    model_snapshot-select small_fields true small_catalogue small_catalogue "m-1" small_snapshot
      small_rule (codes "turbo") 5000 catalogue_loads catalogue_gives
