-- ===== src/Config/Pricing/Select/Total.antt =====
-- Lemmas on `Select` with a rule that passes the checks.
use codex_gateway.Base.{
  ℕ, ◌≡◌, refl, String, Bool, true, false, if◌then◌else◌, Option, none, some, List, [], ◌∷◌, ok,
  Text, All, inl, inr, ◌⊎◌, Option-cases,
}
use codex_gateway.Config.Pricing.{TokenPricing, ServiceTierPricing, ModelPricing}
use codex_gateway.Config.Pricing.Validate.{validate_v2_model_pricing, no_tier}
use codex_gateway.Config.Pricing.Reason.{append_fallback_reason}
use codex_gateway.Config.Pricing.Select.{
  all_prices, prices_of_context, component_maximum, max_published, max_published_for_context,
  context_maximum, fall_back, missing_combination, Tier, exact_price, configured, above, read_tier,
  decide, select_price, tier_reason, combination_reason, tier_name,
}
use codex_gateway.Config.Pricing.Select.Maximum.{Covers, component_maximum-Covers}
use codex_gateway.Config.Pricing.Select.Raise.{Valid}
use codex_gateway.Config.Pricing.Select.Published.{
  ValidTiers, validate_v2_model_pricing-Valid, all_prices-Valid, all_prices-some,
  prices_of_context-All, configured-Valid,
}

pub prices_of_context-Valid :
    (mode : String) (long : Bool) (ts : List (String × ServiceTierPricing))
    → ValidTiers mode ts
    → All (Valid mode) (prices_of_context long ts)
prices_of_context-Valid mode long ts k =
    prices_of_context-All (Valid mode) long ts (all_prices-Valid mode ts k)

-- A valid price that covers the prices of the context.
abbrev Covering : ModelPricing → Bool → TokenPricing → Type 0
Covering rule long p =
    Valid rule.cache_write_mode p × All (Covers p) (prices_of_context long rule.service_tiers)

max_published-Covering :
    (rule : ModelPricing) (long : Bool) (p : TokenPricing)
    → ValidTiers rule.cache_write_mode rule.service_tiers
    → max_published rule ≡ some p
    → Covering rule long p
unfolding max_published
max_published-Covering rule long p k h =
    let ts = rule.service_tiers in
    let mode = rule.cache_write_mode in
    let (valid, covers) =
      component_maximum-Covers (all_prices ts) mode p (all_prices-Valid mode ts k) h in
    (valid, prices_of_context-All (Covers p) long ts covers)

max_published_for_context-Covering :
    (rule : ModelPricing) (long : Bool) (p : TokenPricing)
    → ValidTiers rule.cache_write_mode rule.service_tiers
    → max_published_for_context rule long ≡ some p
    → Covering rule long p
unfolding max_published_for_context
max_published_for_context-Covering rule long p k h =
    let ts = rule.service_tiers in
    let mode = rule.cache_write_mode in
    component_maximum-Covers (prices_of_context long ts) mode p
      (prices_of_context-Valid mode long ts k) h

unless_some :
    (over : Bool) (m : Option TokenPricing) (p : TokenPricing)
    → (if over then none else m) ≡ some p
    → m ≡ some p
unless_some true m p h = cc
unless_some false m p h = h

context_maximum-Covering :
    (rule : ModelPricing) (over long : Bool) (tier : Tier) (p : TokenPricing)
    → ValidTiers rule.cache_write_mode rule.service_tiers
    → context_maximum rule over long tier ≡ some p
    → Covering rule long p
unfolding context_maximum
context_maximum-Covering rule over long (Tier.known t) p k h = cc
context_maximum-Covering rule over long Tier.missing p k h =
    max_published_for_context-Covering rule long p k
      (unless_some over (max_published_for_context rule long) p h)
context_maximum-Covering rule over long Tier.unknown p k h =
    max_published_for_context-Covering rule long p k
      (unless_some over (max_published_for_context rule long) p h)

component_maximum-some :
    (vs : List TokenPricing) (mode : String) (v : TokenPricing) (rest : List TokenPricing)
    → vs ≡ v ∷ rest
    → (p : TokenPricing) × (component_maximum vs mode ≡ some p)
unfolding component_maximum
component_maximum-some [] mode v rest e = cc
component_maximum-some (w ∷ ws) mode v rest e = (_, refl)

max_published-some :
    (rule : ModelPricing)
    → no_tier rule.service_tiers ≡ false
    → ValidTiers rule.cache_write_mode rule.service_tiers
    → (p : TokenPricing) × (max_published rule ≡ some p)
unfolding max_published
max_published-some rule present k =
    let (v, vs, e) = all_prices-some rule.cache_write_mode rule.service_tiers present k in
    component_maximum-some (all_prices rule.service_tiers) rule.cache_write_mode v vs e

-- The fallback finds a price, and it covers the context.
fall_back-Covering :
    (rule : ModelPricing) (over long : Bool) (tier : Tier) (reason : Text)
    → no_tier rule.service_tiers ≡ false
    → ValidTiers rule.cache_write_mode rule.service_tiers
    → (p : TokenPricing) × (why : Text) × (fall_back rule over long tier reason ≡ ok (p, why))
      × Covering rule long p
unfolding fall_back
fall_back-Covering rule over long tier reason present k =
    elim (Option-cases (context_maximum rule over long tier)) [
      | inr (p, found) ↦ (
        p,
        reason,
        rw (fall_back, found) refl,
        context_maximum-Covering rule over long tier p k found,
      )
      | inl absent ↦
          let (p, found) = max_published-some rule present k in
          (
            p,
            append_fallback_reason reason missing_combination,
            rw (fall_back, absent) (rw found refl),
            max_published-Covering rule long p k found,
          )
    ]

-- The price that the combination of tier and context has of its own.
abbrev pub OwnPrice : ModelPricing → Bool → Text → TokenPricing → Type 0
OwnPrice rule long actual p =
    (tier : String) × (read_tier actual ≡ Tier.known tier) × (configured rule long tier ≡ some p)

exact_price-OwnPrice :
    (rule : ModelPricing) (over long : Bool) (actual : Text) (tier : Tier) (p : TokenPricing)
    → read_tier actual ≡ tier
    → exact_price rule over long tier ≡ some p
    → OwnPrice rule long actual p
unfolding exact_price
exact_price-OwnPrice rule over long actual Tier.missing p e h = cc
exact_price-OwnPrice rule over long actual Tier.unknown p e h = cc
exact_price-OwnPrice rule over long actual (Tier.known t) p e h =
    (t, e, unless_some over (configured rule long t) p h)

-- What `Select` decides on.
pub record Decided (rule : ModelPricing) (tokens : ℕ) (actual : Text) : Type 0 where
  pub price : TokenPricing
  pub tier : String
  pub reason : Text
  pub returned :
      select_price rule tokens actual
      ≡ ok (
          decide rule.cache_write_mode
            (above tokens rule.long_context_threshold_tokens)
            tier
            reason
            price)
  pub valid : Valid rule.cache_write_mode price
  pub source :
      OwnPrice rule (above tokens rule.long_context_threshold_tokens) actual price
      ⊎ All
          (Covers price)
          (prices_of_context (above tokens rule.long_context_threshold_tokens) rule.service_tiers)

pub select_price-Decided :
    (rule : ModelPricing) (tokens : ℕ) (actual : Text)
    → validate_v2_model_pricing rule ≡ ok tt
    → Decided rule tokens actual
select_price-Decided rule tokens actual h =
    let (present, k) = validate_v2_model_pricing-Valid rule h in
    let long = above tokens rule.long_context_threshold_tokens in
    let over = above tokens rule.max_input_tokens in
    let tier = read_tier actual in
    let reason =
      tier_reason tier (if over then append_fallback_reason [] missing_combination else []) in
    elim (Option-cases (exact_price rule over long tier)) [
      | inr (p, found) ↦
          let own = exact_price-OwnPrice rule over long actual tier p refl found in
          record {
            price = p;
            tier = tier_name tier;
            reason = reason;
            returned = unfold select_price in rw (select_price, found) refl;
            valid = configured-Valid rule long own.0 p k (own.2);
            source = inl own;
          }
      | inl absent ↦
          let (p, why, found, covering) =
            fall_back-Covering rule over long tier (combination_reason over tier reason) present
              k in
          record {
            price = p;
            tier = "max_published";
            reason = why;
            returned = unfold select_price in rw (select_price, absent) (rw found refl);
            valid = covering.0;
            source = inr covering.1;
          }
    ]
