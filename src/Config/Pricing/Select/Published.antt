-- ===== src/Config/Pricing/Select/Published.antt =====
-- What the checks of a rule say of its published prices.
use codex_gateway.Base.{
  ◌≡◌, refl, sym, ◌∙◌, String, str_eq, Bool, true, false, not, ◌&&◌, ◌||◌, Option, none, some, List,
  [], ◌∷◌, ok, guard_then, >>-ok, arith, All, inl, inr, Bool-cases, Option-cases, subst, some-eq,
}
use codex_gateway.Base.Int.{leb_ℤ}
use codex_gateway.Config.Pricing.{TokenPricing, ServiceTierPricing, ModelPricing, lookup}
use codex_gateway.Config.Pricing.Validate.{
  validate_context, validate_tier, validate_tiers, validate_v2_model_pricing, has_context, no_tier,
  is_empty, mixed_fields, cache_write_mode, boundaries, no_tiers, invalid_tier, no_context_price,
  is_positive,
}
use codex_gateway.Config.Pricing.Select.{
  context_price, prepend, prices_of_context, all_prices, configured,
}
use codex_gateway.Config.Pricing.Select.Raise.{Valid, validate_token_pricing-Valid}

-- A price that is there is valid.
abbrev pub ValidContext : String → Option TokenPricing → Type 0
ValidContext mode none = Unit
ValidContext mode (some p) = Valid mode p

validate_context-Valid :
    (mode : String) (p : Option TokenPricing)
    → validate_context mode p ≡ ok tt
    → ValidContext mode p
unfolding validate_context
validate_context-Valid mode none h = tt
validate_context-Valid mode (some p) h = validate_token_pricing-Valid mode p h

-- What `validateV2ModelPricing` grants of a tier: a price in one context, and valid ones only.
pub record ValidTier (mode : String) (t : ServiceTierPricing) : Type 0 where
  pub some_context : has_context t.short t.long ≡ true
  pub short : ValidContext mode t.short
  pub long : ValidContext mode t.long

validate_tier-Valid :
    (mode tier : String) (t : ServiceTierPricing)
    → validate_tier mode (tier, t) ≡ ok tt
    → ValidTier mode t
unfolding validate_tier
validate_tier-Valid mode tier t h =
    let (_, h1) =
      guard_then (str_eq tier "standard" || str_eq tier "flex" || str_eq tier "fast") invalid_tier
        h in
    let (present, h2) = guard_then (has_context t.short t.long) no_context_price h1 in
    let (short, long) = >>-ok (validate_context mode t.short) h2 in
    record {
      some_context = present;
      short = validate_context-Valid mode t.short short;
      long = validate_context-Valid mode t.long long;
    }

abbrev pub ValidTiers : String → List (String × ServiceTierPricing) → Type 0
ValidTiers mode ts = All (λ (t : String × ServiceTierPricing). ValidTier mode t.1) ts

validate_tiers-Valid :
    (mode : String) (ts : List (String × ServiceTierPricing))
    → validate_tiers mode ts ≡ ok tt
    → ValidTiers mode ts
unfolding validate_tiers
validate_tiers-Valid mode [] h = tt
validate_tiers-Valid mode ((tier, t) ∷ ts) h =
    let (first, rest) = >>-ok (validate_tier mode (tier, t)) h in
    (validate_tier-Valid mode tier t first, validate_tiers-Valid mode ts rest)

-- A rule of the second version that passes the checks has tiers, and they are valid.
pub validate_v2_model_pricing-Valid :
    (m : ModelPricing)
    → validate_v2_model_pricing m ≡ ok tt
    → (no_tier m.service_tiers ≡ false) × ValidTiers m.cache_write_mode m.service_tiers
unfolding validate_v2_model_pricing
validate_v2_model_pricing-Valid m h =
    let (_, h1) =
      guard_then (is_empty m.input && is_empty m.cached_input && is_empty m.output) mixed_fields
        h in
    let (_, h2) =
      guard_then
        (str_eq m.cache_write_mode "separate"
          || str_eq m.cache_write_mode "separate_by_ttl"
          || str_eq m.cache_write_mode "included_in_input")
        cache_write_mode h1 in
    let (_, h3) =
      guard_then
        (is_positive m.max_input_tokens
          && is_positive m.long_context_threshold_tokens
          && leb_ℤ m.long_context_threshold_tokens m.max_input_tokens)
        boundaries h2 in
    let (present, h4) = guard_then (not (no_tier m.service_tiers)) no_tiers h3 in
    (ground (arith, present), validate_tiers-Valid m.cache_write_mode m.service_tiers h4)

prepend-All :
    {P : TokenPricing → Type 0} (p : Option TokenPricing) (vs : List TokenPricing)
    → ((v : TokenPricing) → p ≡ some v → P v)
    → All P vs
    → All P (prepend p vs)
unfolding prepend
prepend-All none vs h k = k
prepend-All (some v) vs h k = (h v refl, k)

context-Valid :
    (mode : String) (p : Option TokenPricing)
    → ValidContext mode p
    → (v : TokenPricing) → p ≡ some v
    → Valid mode v
context-Valid mode none h v e = cc
context-Valid mode (some p) h v e = subst (Valid mode) (some-eq e) h

pub all_prices-Valid :
    (mode : String) (ts : List (String × ServiceTierPricing))
    → ValidTiers mode ts
    → All (Valid mode) (all_prices ts)
unfolding all_prices
all_prices-Valid mode [] h = tt
all_prices-Valid mode ((tier, t) ∷ ts) h =
    prepend-All t.short (prepend t.long (all_prices ts)) (context-Valid mode t.short (h.0).short) (
      prepend-All t.long (all_prices ts) (context-Valid mode t.long (h.0).long)
        (all_prices-Valid mode ts h.1))

prepend_some :
    (short long : Option TokenPricing) (rest : List TokenPricing)
    → has_context short long ≡ true
    → (v : TokenPricing) × (vs : List TokenPricing) × (prepend short (prepend long rest) ≡ v ∷ vs)
unfolding prepend has_context
prepend_some none none rest h = cc
prepend_some none (some v) rest h = (v, rest, refl)
prepend_some (some v) long rest h = (v, prepend long rest, refl)

-- There is a price where there is a valid tier.
pub all_prices-some :
    (mode : String) (ts : List (String × ServiceTierPricing))
    → no_tier ts ≡ false
    → ValidTiers mode ts
    → (v : TokenPricing) × (vs : List TokenPricing) × (all_prices ts ≡ v ∷ vs)
unfolding all_prices no_tier
all_prices-some mode [] h k = cc
all_prices-some mode ((tier, t) ∷ ts) h k =
    prepend_some t.short t.long (all_prices ts) (k.0).some_context

-- What holds of all prices holds of those of a context.
prepend-All_inv :
    {P : TokenPricing → Type 0} (p : Option TokenPricing) (vs : List TokenPricing)
    → All P (prepend p vs)
    → ((v : TokenPricing) → p ≡ some v → P v) × All P vs
unfolding prepend
prepend-All_inv none vs h = (λ v e. absurd (ground arith), h)
prepend-All_inv {P = P} (some p) vs h = (λ v e. subst P (some-eq e) h.0, h.1)

of_context :
    {P : TokenPricing → Type 0} (long : Bool) (t : ServiceTierPricing)
    → ((v : TokenPricing) → t.short ≡ some v → P v)
    → ((v : TokenPricing) → t.long ≡ some v → P v)
    → (v : TokenPricing) → context_price long t ≡ some v
    → P v
unfolding context_price
of_context true t short other = other
of_context false t short other = short

pub prices_of_context-All :
    (P : TokenPricing → Type 0) (long : Bool) (ts : List (String × ServiceTierPricing))
    → All P (all_prices ts)
    → All P (prices_of_context long ts)
unfolding all_prices prices_of_context context_price
prices_of_context-All P long [] h = tt
prices_of_context-All P long ((tier, t) ∷ ts) h =
    let (short, h1) = prepend-All_inv t.short (prepend t.long (all_prices ts)) h in
    let (other, h2) = prepend-All_inv t.long (all_prices ts) h1 in
    prepend-All (context_price long t) (prices_of_context long ts) (of_context long t short other)
      (prices_of_context-All P long ts h2)

-- The price of a tier is valid.
pub lookup-Valid :
    (mode tier : String) (ts : List (String × ServiceTierPricing)) (t : ServiceTierPricing)
    → ValidTiers mode ts
    → lookup tier ts ≡ some t
    → ValidTier mode t
unfolding lookup
lookup-Valid mode tier [] t k h = cc
lookup-Valid mode tier ((name, u) ∷ ts) t k h = elim (Bool-cases (str_eq name tier)) [
  | inl e ↦ subst (ValidTier mode) (some-eq (rw e at h)) k.0
  | inr e ↦ lookup-Valid mode tier ts t k.1 (rw e at h)
]

context_price-Valid :
    (mode : String) (long : Bool) (t : ServiceTierPricing)
    → ValidTier mode t
    → ValidContext mode (context_price long t)
unfolding context_price
context_price-Valid mode true t k = k.long
context_price-Valid mode false t k = k.short

configured-none :
    (rule : ModelPricing) (long : Bool) (tier : String)
    → lookup tier rule.service_tiers ≡ none
    → configured rule long tier ≡ none
unfolding configured
configured-none rule long tier e = rw (configured, e) refl

configured-some :
    (rule : ModelPricing) (long : Bool) (tier : String) (t : ServiceTierPricing)
    → lookup tier rule.service_tiers ≡ some t
    → configured rule long tier ≡ context_price long t
unfolding configured
configured-some rule long tier t e = rw (configured, e) refl

pub configured-Valid :
    (rule : ModelPricing) (long : Bool) (tier : String) (p : TokenPricing)
    → ValidTiers rule.cache_write_mode rule.service_tiers
    → configured rule long tier ≡ some p
    → Valid rule.cache_write_mode p
configured-Valid rule long tier p k h =
    let mode = rule.cache_write_mode in
    elim (Option-cases (lookup tier rule.service_tiers)) [
      | inl e ↦ absurd (ground (arith, configured-none rule long tier e))
      | inr (t, e) ↦
          context-Valid mode (context_price long t)
            (context_price-Valid mode long t (lookup-Valid mode tier rule.service_tiers t k e)) p
            (sym (configured-some rule long tier t e) ∙ h)
    ]
