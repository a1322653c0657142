-- ===== src/Config/Pricing/Select.antt =====
-- `PricingSnapshot.Select` and the prices that it falls back to.
pub mod Order
pub mod Larger
pub mod Raise
pub mod Maximum
pub mod Published
pub mod Total
pub mod Charges
pub mod Decision
pub mod Catalogue
use codex_gateway.Base.{
  ℕ, ◌+◌, ◌-◌, ◌≡◌, refl, String, str_eq, Bool, true, false, not, ◌||◌, ◌&&◌, ltb, leb, ◌==◌,
  if◌then◌else◌, Option, none, some, List, [], ◌∷◌, ◌++◌, Result, ok, err, length, replicate, Text,
  codes,
}
use codex_gateway.Base.Int.{ℤ, pos, negsuc}
use codex_gateway.Billing.Decimal.{Error as DecimalError, parse_price, text_eq, trim_space}
use codex_gateway.Billing.Rounding.{split_dot}
use codex_gateway.Limit.Daily.{text_lt}
use codex_gateway.Config.Pricing.{
  TokenPricing, ServiceTierPricing, ModelPricing, PricingSnapshot, PricingDecision, lookup,
  normalize_service_tier,
}
use codex_gateway.Config.Pricing.Reason.{append_fallback_reason}

-- The text that a failed `ParsePrice` returns is empty.
or_empty : Result DecimalError Text → Text
or_empty (ok s) = s
or_empty (err e) = []

-- fmt's %018s and %-012s: zeros on the left, blanks on the right.
pad_left : Text → Text
pad_left s = replicate (18 - length s) b'0' ++ s

pad_right : Text → Text
pad_right s = s ++ replicate (12 - length s) b' '

-- The function `parts` of `maxDecimal`.
parts : Text → Text
unfolding pad_left pad_right
parts value = let (whole, fraction) = split_dot value in pad_left whole ++ pad_right fraction

-- `maxDecimal`.
unfoldable pub max_decimal : Text → Text → Text
unfolding or_empty parts
max_decimal left right =
    let l = or_empty (parse_price left) in
    let r = or_empty (parse_price right) in if text_lt (parts l) (parts r) then r else l

-- The variables of the loop of `componentMaximum`.
pub record Components : Type 0 where
  pub input : Text
  pub cached_input : Text
  pub output : Text
  pub cache_write : Text
  pub cache_write_5m : Text
  pub cache_write_1h : Text

unfoldable pub max_present : Text → Option Text → Text
max_present left none = left
max_present left (some right) = max_decimal left right

unfoldable pub raise : Components → TokenPricing → Components
unfolding max_present
raise m v = record {
  input = max_decimal m.input v.input;
  cached_input = max_decimal m.cached_input v.cached_input;
  output = max_decimal m.output v.output;
  cache_write = max_present m.cache_write v.cache_write;
  cache_write_5m = max_present m.cache_write_5m v.cache_write_5m;
  cache_write_1h = max_present m.cache_write_1h v.cache_write_1h;
}

unfoldable pub raise_all : Components → List TokenPricing → Components
raise_all m [] = m
raise_all m (v ∷ vs) = raise_all (raise m v) vs

abbrev zero_text : Text
zero_text = b'0' ∷ []

abbrev pub zeros : Components
zeros = record {
  input = zero_text;
  cached_input = zero_text;
  output = zero_text;
  cache_write = zero_text;
  cache_write_5m = zero_text;
  cache_write_1h = zero_text;
}

-- `componentMaximum`.
unfoldable pub published : String → Components → TokenPricing
published mode m = record {
  input = m.input;
  cached_input = m.cached_input;
  cache_write = if str_eq mode "separate" then some m.cache_write else none;
  cache_write_5m = if str_eq mode "separate_by_ttl" then some m.cache_write_5m else none;
  cache_write_1h = if str_eq mode "separate_by_ttl" then some m.cache_write_1h else none;
  output = m.output;
}

unfoldable pub component_maximum : List TokenPricing → String → Option TokenPricing
unfolding published
component_maximum [] mode = none
component_maximum (v ∷ vs) mode = some (published mode (raise_all zeros (v ∷ vs)))

-- `contextPrice`, for the long context or the short one.
unfoldable pub context_price : Bool → ServiceTierPricing → Option TokenPricing
context_price true t = t.long
context_price false t = t.short

unfoldable pub prepend : Option TokenPricing → List TokenPricing → List TokenPricing
prepend none vs = vs
prepend (some v) vs = v ∷ vs

-- The prices of one context, and all prices.
unfoldable pub prices_of_context : Bool → List (String × ServiceTierPricing) → List TokenPricing
prices_of_context long [] = []
prices_of_context long ((tier, t) ∷ ts) = prepend (context_price long t) (prices_of_context long ts)

unfoldable pub all_prices : List (String × ServiceTierPricing) → List TokenPricing
all_prices [] = []
all_prices ((tier, t) ∷ ts) = prepend t.short (prepend t.long (all_prices ts))

-- `maxPublishedForContext` and `maxPublished`.
unfoldable pub max_published_for_context : ModelPricing → Bool → Option TokenPricing
max_published_for_context rule long =
    component_maximum (prices_of_context long rule.service_tiers) rule.cache_write_mode

unfoldable pub max_published : ModelPricing → Option TokenPricing
max_published rule = component_maximum (all_prices rule.service_tiers) rule.cache_write_mode

abbrev missing_combination : Text
missing_combination = codes "missing_price_combination"

-- The tier of a request, as the response names it.
pub data Tier : Type 0 where
  missing unknown : Tier
  known : String → Tier

tier_of : Text → Option String → Tier
tier_of [] tier = missing
tier_of (c ∷ s) none = unknown
tier_of (c ∷ s) (some tier) = known tier

unfoldable pub read_tier : Text → Tier
unfolding tier_of
read_tier actual = tier_of (trim_space actual) (normalize_service_tier actual)

unfoldable pub tier_reason : Tier → Text → Text
tier_reason missing reason = append_fallback_reason reason (codes "missing_service_tier")
tier_reason unknown reason = append_fallback_reason reason (codes "unknown_service_tier")
tier_reason (known tier) reason = reason

-- The published price of the tier and context, within the maximum of input tokens.
unfoldable pub configured : ModelPricing → Bool → String → Option TokenPricing
configured rule long tier = elim (lookup tier rule.service_tiers) [
  | none ↦ none
  | some contexts ↦ context_price long contexts
]

unfoldable pub exact_price : ModelPricing → Bool → Bool → Tier → Option TokenPricing
unfolding configured
exact_price rule over long missing = none
exact_price rule over long unknown = none
exact_price rule over long (known tier) = if over then none else configured rule long tier

-- The tier was known and the combination has no price.
unfoldable pub combination_reason : Bool → Tier → Text → Text
combination_reason over (known tier) reason =
    if over then reason else append_fallback_reason reason missing_combination
combination_reason over other reason = reason

-- The first fallback: the maximum of the context, where the tier is not known.
unfoldable pub context_maximum : ModelPricing → Bool → Bool → Tier → Option TokenPricing
context_maximum rule over long (known tier) = none
context_maximum rule over long other = if over then none else max_published_for_context rule long

unfoldable pub or_zero_price : Option Text → Text
or_zero_price none = zero_text
or_zero_price (some p) = p

-- A TTL price of the selected prices; the code dereferences it, which validation has made possible.
unfoldable pub required : Option Text → Text
required none = []
required (some p) = p

abbrev class_of : Bool → String
class_of true = "long"
class_of false = "short"

unfoldable pub decide : String → Bool → String → Text → TokenPricing → PricingDecision
unfolding or_zero_price required
decide mode long tier reason p = record {
  pricing_service_tier = tier;
  context_class = class_of long;
  input = p.input;
  cached_input = p.cached_input;
  cache_write =
      if str_eq mode "separate_by_ttl"
      then max_decimal (required p.cache_write_5m) (required p.cache_write_1h)
      else or_zero_price p.cache_write;
  cache_write_5m = if str_eq mode "separate_by_ttl" then required p.cache_write_5m else [];
  cache_write_1h = if str_eq mode "separate_by_ttl" then required p.cache_write_1h else [];
  output = p.output;
  fallback_reason = reason;
}

pub data SelectError : Type 0 where
  negative_tokens no_published_price : SelectError

unfoldable pub tier_name : Tier → String
tier_name (known tier) = tier
tier_name other = ""

-- The maximum of the context, or else the maximum of all prices with one reason more.
unfoldable pub fall_back :
    ModelPricing → Bool → Bool → Tier → Text → Result SelectError (TokenPricing × Text)
unfolding context_maximum
fall_back rule over long tier reason = elim (context_maximum rule over long tier) [
  | some p ↦ ok (p, reason)
  | none ↦ elim (max_published rule) [
    | some p ↦ ok (p, append_fallback_reason reason missing_combination)
    | none ↦ err no_published_price
  ]
]

abbrev pub above : ℕ → ℤ → Bool
above tokens (pos n) = ltb n tokens
above tokens (negsuc n) = true

unfoldable pub select_price : ModelPricing → ℕ → Text → Result SelectError PricingDecision
unfolding tier_reason combination_reason tier_name decide
select_price rule tokens actual =
    let long = above tokens rule.long_context_threshold_tokens in
    let over = above tokens rule.max_input_tokens in
    let tier = read_tier actual in
    let reason =
      tier_reason tier (if over then append_fallback_reason [] missing_combination else []) in
    elim (exact_price rule over long tier) [
      | some p ↦ ok (decide rule.cache_write_mode long (tier_name tier) reason p)
      | none ↦ elim (fall_back rule over long tier (combination_reason over tier reason)) [
        | err e ↦ err e
        | ok (p, why) ↦ ok (decide rule.cache_write_mode long "max_published" why p)
      ]
    ]

-- `Select`.
unfoldable pub select : PricingSnapshot → Text → ℤ → Result SelectError PricingDecision
select s actual (negsuc n) = err negative_tokens
select s actual (pos tokens) = select_price s.rule tokens actual
