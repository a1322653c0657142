-- ===== src/Config/Pricing.antt =====
-- The values of internal/config/pricing.go. A price is the text of a decimal; a map is the list of
-- its entries, whose keys differ.
pub mod Validate
pub mod Reason
pub mod Select
pub mod Requested
use codex_gateway.Base.{
  ℕ, ◌+◌, String, str_eq, Bool, true, false, ◌&&◌, leb, ◌==◌, if◌then◌else◌, Option, none, some,
  List, [], ◌∷◌, Text, codes,
}
use codex_gateway.Base.Int.{ℤ}
use codex_gateway.Billing.Decimal.{text_eq, trim_space}

-- `TokenPricing`.
pub record TokenPricing : Type 0 where
  pub input : Text
  pub cached_input : Text
  pub cache_write : Option Text
  pub cache_write_5m : Option Text
  pub cache_write_1h : Option Text
  pub output : Text

-- `ServiceTierPricing`.
pub record ServiceTierPricing : Type 0 where
  pub short : Option TokenPricing
  pub long : Option TokenPricing

-- `ModelPricing`; an absent field of the document is the zero value of its type.
pub record ModelPricing : Type 0 where
  pub input : Text
  pub cached_input : Text
  pub output : Text
  pub cache_write_mode : String
  pub max_input_tokens : ℤ
  pub long_context_threshold_tokens : ℤ
  pub service_tiers : List (String × ServiceTierPricing)

-- `PricingFallbackPolicy`.
pub record FallbackPolicy : Type 0 where
  pub unknown_service_tier : String
  pub missing_price_combination : String
  pub missing_cache_write_tokens : String

-- `UsagePricing`. A negative schema version is refused like every one but 1 and 2, so a natural number stands for it.
pub record UsagePricing : Type 0 where
  pub schema_version : ℕ
  pub catalog_as_of : String
  pub fx_as_of : String
  pub usd_cny_rate : Text
  pub fallback_policy : FallbackPolicy
  pub models : List (String × ModelPricing)

-- `PricingSnapshot`.
pub record PricingSnapshot : Type 0 where
  pub schema_version : ℕ
  pub fallback_policy : FallbackPolicy
  pub model : String
  pub rule : ModelPricing

-- `PricingDecision`.
pub record PricingDecision : Type 0 where
  pub pricing_service_tier : String
  pub context_class : String
  pub input : Text
  pub cached_input : Text
  pub cache_write : Text
  pub cache_write_5m : Text
  pub cache_write_1h : Text
  pub output : Text
  pub fallback_reason : Text

-- A look-up by key.
unfoldable pub lookup {ℓ} : {A : Type ℓ} → String → List (String × A) → Option A
lookup key [] = none
lookup key ((k, v) ∷ rest) = let later = lookup key rest in if str_eq k key then some v else later

-- strings.ToLower, on the code points that it takes to an ASCII letter: the capital letters, the
-- dotted capital I and the Kelvin sign. What it makes of others is no ASCII letter either.
abbrev lower_code : ℕ → ℕ
lower_code c =
    if leb b'A' c && leb c b'Z'
    then c + 32
    else if c == 0x130
    then b'i'
    else if c == 0x212a
    then b'k'
    else c

unfoldable pub to_lower : Text → Text
to_lower [] = []
to_lower (c ∷ s) = lower_code c ∷ to_lower s

one_of : Text → String → String → Bool
one_of t a b = if text_eq t (codes a) then true else text_eq t (codes b)

-- `NormalizeServiceTier`.
unfoldable pub normalize_service_tier : Text → Option String
unfolding one_of to_lower
normalize_service_tier value =
    let name = to_lower (trim_space value) in
    if one_of name "default" "standard"
    then some "standard"
    else if text_eq name (codes "flex")
    then some "flex"
    else if one_of name "priority" "fast"
    then some "fast"
    else none
