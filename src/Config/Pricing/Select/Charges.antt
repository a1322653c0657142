-- ===== src/Config/Pricing/Select/Charges.antt =====
-- Lemmas on a decision that charges a published price of its own.
use codex_gateway.Base.{
  ◌≡◌, refl, sym, String, str_eq, eq_iff, Bool, true, ◌&&◌, ◌||◌, Option, none, some, [], ok, Text,
  codes, inl, inr, Bool-cases, subst, guard_then,
}
use codex_gateway.Config.Pricing.{TokenPricing, ModelPricing, PricingDecision}
use codex_gateway.Config.Pricing.Validate.{
  is_present_price, is_absent, is_empty, mixed_fields, cache_write_mode, validate_v2_model_pricing,
}
use codex_gateway.Config.Pricing.Select.{decide, or_zero_price, required}
use codex_gateway.Config.Pricing.Select.Larger.{Larger}
use codex_gateway.Config.Pricing.Select.Raise.{Valid, Larger-of}

-- The prices of a cache write that a decision takes from a published price, under each of the modes:
-- its own, the two by the life of the write with the larger of them, or 0.
pub data Writes (d : PricingDecision) (p : TokenPricing) : String → Type 0 where
  separate :
      p.cache_write ≡ some d.cache_write
      → d.cache_write_5m ≡ []
      → d.cache_write_1h ≡ []
      → Writes d p "separate"
  by_ttl :
      p.cache_write_5m ≡ some d.cache_write_5m
      → p.cache_write_1h ≡ some d.cache_write_1h
      → Larger d.cache_write_5m d.cache_write_1h d.cache_write
      → Writes d p "separate_by_ttl"
  included :
      d.cache_write ≡ codes "0"
      → d.cache_write_5m ≡ []
      → d.cache_write_1h ≡ []
      → Writes d p "included_in_input"

-- The decision charges the components of a published price.
pub record Charges (mode : String) (d : PricingDecision) (p : TokenPricing) : Type 0 where
  pub input : d.input ≡ p.input
  pub cached_input : d.cached_input ≡ p.cached_input
  pub output : d.output ≡ p.output
  pub writes : Writes d p mode

present-or_zero : (o : Option Text) → is_present_price o ≡ true → o ≡ some (or_zero_price o)
unfolding is_present_price or_zero_price
present-or_zero none h = cc
present-or_zero (some p) h = refl

present-required : (o : Option Text) → is_present_price o ≡ true → o ≡ some (required o)
unfolding is_present_price required
present-required none h = cc
present-required (some p) h = refl

required-is_price :
    (o : Option Text) → is_present_price o ≡ true → is_present_price (some (required o)) ≡ true
unfolding is_present_price required
required-is_price none h = cc
required-is_price (some p) h = h

absent-or_zero : (o : Option Text) → is_absent o ≡ true → or_zero_price o ≡ codes "0"
unfolding is_absent or_zero_price
absent-or_zero none h = refl
absent-or_zero (some p) h = cc

module _ (long : Bool) (tier : String) (reason : Text) (p : TokenPricing) where
  separate-Charges :
      Valid "separate" p → Charges "separate" (decide "separate" long tier reason p) p
  unfolding decide
  separate-Charges k = record {
    input = refl;
    cached_input = refl;
    output = refl;
    writes = Writes.separate (present-or_zero p.cache_write k.write) refl refl;
  }

  by_ttl-Charges :
      Valid "separate_by_ttl" p
      → Charges "separate_by_ttl" (decide "separate_by_ttl" long tier reason p) p
  unfolding decide is_present_price
  by_ttl-Charges k = record {
    input = refl;
    cached_input = refl;
    output = refl;
    writes =
        Writes.by_ttl (present-required p.cache_write_5m k.five)
          (present-required p.cache_write_1h k.hour)
          (Larger-of (required p.cache_write_5m) (required p.cache_write_1h)
            (required-is_price p.cache_write_5m k.five)
            (required-is_price p.cache_write_1h k.hour));
  }

  included-Charges :
      Valid "included_in_input" p
      → Charges "included_in_input" (decide "included_in_input" long tier reason p) p
  unfolding decide
  included-Charges k = record {
    input = refl;
    cached_input = refl;
    output = refl;
    writes = Writes.included (absent-or_zero p.cache_write k.write) refl refl;
  }

  mode_is :
      (mode known : String)
      → str_eq mode known ≡ true
      → (Valid known p → Charges known (decide known long tier reason p) p)
      → Valid mode p
      → Charges mode (decide mode long tier reason p) p
  mode_is mode known e =
      subst
        (λ (m : String).
          (Valid known p → Charges known (decide known long tier reason p) p)
          → Valid m p
          → Charges m (decide m long tier reason p) p)
        {x = known} (sym ((eq_iff mode known).0 e)) (λ f. f)

  pub decide-Charges :
      (mode : String)
      → (str_eq mode "separate" || str_eq mode "separate_by_ttl" || str_eq mode "included_in_input")
        ≡ true
      → Valid mode p
      → Charges mode (decide mode long tier reason p) p
  decide-Charges mode h k = elim (Bool-cases (str_eq mode "separate")) [
    | inl e ↦ mode_is mode "separate" e separate-Charges k
    | inr apart ↦ elim (Bool-cases (str_eq mode "separate_by_ttl")) [
      | inl e ↦ mode_is mode "separate_by_ttl" e by_ttl-Charges k
      | inr other ↦ mode_is mode "included_in_input" (rw (apart, other) at h) included-Charges k
    ]
  ]

pub validate_v2_model_pricing-mode :
    (m : ModelPricing)
    → validate_v2_model_pricing m ≡ ok tt
    → (str_eq m.cache_write_mode "separate"
        || str_eq m.cache_write_mode "separate_by_ttl"
        || str_eq m.cache_write_mode "included_in_input")
      ≡ true
unfolding validate_v2_model_pricing
validate_v2_model_pricing-mode m h =
    let (_, h1) =
      guard_then (is_empty m.input && is_empty m.cached_input && is_empty m.output) mixed_fields
        h in
    (guard_then
      (str_eq m.cache_write_mode "separate"
        || str_eq m.cache_write_mode "separate_by_ttl"
        || str_eq m.cache_write_mode "included_in_input")
      cache_write_mode h1).0
