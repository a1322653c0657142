-- ===== src/Config/Pricing/Select/Decision.antt =====
-- Lemmas on the decision that `Select` returns.
use codex_gateway.Base.{
  ℕ, ◌≤◌, ◌≡◌, refl, sym, ◌∙◌, String, str_eq, eq_iff, Bool, true, false, if◌then◌else◌, Option,
  none, some, List, [], ◌∷◌, ok, ok-eq, Text, arith, All, inl, inr, ◌⊎◌, subst,
}
use codex_gateway.Base.Int.{pos}
use codex_gateway.Billing.Decimal.{parse_price}
use codex_gateway.Billing.Decimal.Value.{units}
use codex_gateway.Config.Pricing.{TokenPricing, PricingSnapshot, PricingDecision}
use codex_gateway.Config.Pricing.Validate.{
  is_price, is_present_price, is_absent, validate_v2_model_pricing,
}
use codex_gateway.Config.Pricing.Select.{
  prices_of_context, above, decide, select, or_zero_price, required, max_decimal,
}
use codex_gateway.Config.Pricing.Select.Maximum.{Covers}
use codex_gateway.Config.Pricing.Select.Raise.{Valid, Below, Fits, Larger-of, ok-is_price}
use codex_gateway.Config.Pricing.Select.Charges.{
  Charges, decide-Charges, validate_v2_model_pricing-mode,
}
use codex_gateway.Config.Pricing.Select.Published.{validate_v2_model_pricing-Valid}
use codex_gateway.Config.Pricing.Select.Total.{
  OwnPrice, prices_of_context-Valid, select_price-Decided,
}

-- Every price of the decision is a text that `ParsePrice` accepts; those by the life of a cache write
-- are there under the mode that has them.
pub record IsPriced (mode : String) (d : PricingDecision) : Type 0 where
  pub input : is_price d.input ≡ true
  pub cached_input : is_price d.cached_input ≡ true
  pub output : is_price d.output ≡ true
  pub cache_write : is_price d.cache_write ≡ true
  pub cache_write_5m : str_eq mode "separate_by_ttl" ≡ true → is_price d.cache_write_5m ≡ true
  pub cache_write_1h : str_eq mode "separate_by_ttl" ≡ true → is_price d.cache_write_1h ≡ true

-- No component of the decision is below the published one; a cache write of unknown life is charged
-- at least as each of the two lives.
pub record NotBelow (d : PricingDecision) (v : TokenPricing) : Type 0 where
  pub input : units v.input ≤ units d.input
  pub cached_input : units v.cached_input ≤ units d.cached_input
  pub output : units v.output ≤ units d.output
  pub cache_write : Below v.cache_write d.cache_write
  pub cache_write_5m : Below v.cache_write_5m d.cache_write_5m
  pub cache_write_1h : Below v.cache_write_1h d.cache_write_1h
  pub any_5m : Below v.cache_write_5m d.cache_write
  pub any_1h : Below v.cache_write_1h d.cache_write

present : (p : Option Text) → is_present_price p ≡ true → is_price (required p) ≡ true
unfolding is_present_price required
present none h = cc
present (some p) h = h

absent_or_present : (b : Bool) (p : Option Text) → Fits b p → is_price (or_zero_price p) ≡ true
unfolding is_present_price is_absent or_zero_price
absent_or_present true none h = cc
absent_or_present true (some p) h = h
absent_or_present false none h = unfold is_price parse_price in refl
absent_or_present false (some p) h = cc

modes_apart :
    (mode : String) → str_eq mode "separate_by_ttl" ≡ true → str_eq mode "separate" ≡ false
modes_apart mode h =
    subst (λ (m : String). str_eq m "separate" ≡ false) (sym ((eq_iff mode "separate_by_ttl").0 h))
      refl

Below-absent : (p : Option Text) (t : Text) → Fits false p → Below p t
unfolding is_absent
Below-absent none t h = tt
Below-absent (some p) t h = cc

Below-more : (p : Option Text) (s t : Text) → Below p s → units s ≤ units t → Below p t
Below-more none s t h k = tt
Below-more (some p) s t h k = omega (arith, h, k)

-- The price of a cache write in a decision.
abbrev write_price : Bool → Option Text → Option Text → Option Text → Text
write_price b five hour write =
    if b then max_decimal (required five) (required hour) else or_zero_price write

write_price-is_price :
    (b sep : Bool) (five hour write : Option Text)
    → Fits b five
    → Fits b hour
    → Fits sep write
    → is_price (write_price b five hour write) ≡ true
write_price-is_price true sep five hour write hf hh hw =
    let m = max_decimal (required five) (required hour) in
    ok-is_price m m
      (Larger-of (required five) (required hour) (present five hf) (present hour hh)).accepted
write_price-is_price false sep five hour write hf hh hw = absent_or_present sep write hw

life_present :
    (b : Bool) (p : Option Text)
    → Fits b p
    → b ≡ true
    → is_price (if b then required p else []) ≡ true
life_present true p h e = present p h
life_present false p h e = cc

decide-IsPriced :
    (mode : String) (long : Bool) (tier : String) (reason : Text) (p : TokenPricing)
    → Valid mode p
    → IsPriced mode (decide mode long tier reason p)
unfolding decide
decide-IsPriced mode long tier reason p k =
    let ttl = str_eq mode "separate_by_ttl" in
    record {
      input = k.input;
      cached_input = k.cached_input;
      output = k.output;
      cache_write =
          write_price-is_price ttl (str_eq mode "separate") p.cache_write_5m p.cache_write_1h
            p.cache_write k.five k.hour k.write;
      cache_write_5m = life_present ttl p.cache_write_5m k.five;
      cache_write_1h = life_present ttl p.cache_write_1h k.hour;
    }

life-Below :
    (b : Bool) (p v : Option Text)
    → Fits b v
    → Below v (required p)
    → Below v (if b then required p else [])
life-Below true p v k h = h
life-Below false p v k h = Below-absent v [] k

any-Below :
    (b : Bool) (five hour write v w : Option Text)
    → Fits b five
    → Fits b hour
    → Fits b v
    → Fits b w
    → Below v (required five)
    → Below w (required hour)
    → Below v (write_price b five hour write) × Below w (write_price b five hour write)
any-Below true five hour write v w hf hh hv hw h k =
    let m = max_decimal (required five) (required hour) in
    let larger = Larger-of (required five) (required hour) (present five hf) (present hour hh) in
    (
      Below-more v (required five) m h larger.not_left,
      Below-more w (required hour) m k larger.not_right,
    )
any-Below false five hour write v w hf hh hv hw h k =
    (Below-absent v (or_zero_price write) hv, Below-absent w (or_zero_price write) hw)

write-Below :
    (b sep : Bool) (five hour write v : Option Text)
    → (b ≡ true → sep ≡ false)
    → Fits sep v
    → Below v (or_zero_price write)
    → Below v (write_price b five hour write)
write-Below true sep five hour write v apart k h =
    Below-absent v (max_decimal (required five) (required hour)) (rw (apart refl) at k)
write-Below false sep five hour write v apart k h = h

decide-NotBelow :
    (mode : String) (long : Bool) (tier : String) (reason : Text) (p v : TokenPricing)
    → Valid mode p
    → Valid mode v
    → Covers p v
    → NotBelow (decide mode long tier reason p) v
unfolding decide
decide-NotBelow mode long tier reason p v kp kv c =
    let ttl = str_eq mode "separate_by_ttl" in
    let (five, hour) =
      any-Below ttl p.cache_write_5m p.cache_write_1h p.cache_write v.cache_write_5m
        v.cache_write_1h kp.five kp.hour kv.five kv.hour c.five c.hour in
    record {
      input = c.input;
      cached_input = c.cached_input;
      output = c.output;
      cache_write =
          write-Below ttl (str_eq mode "separate") p.cache_write_5m p.cache_write_1h p.cache_write
            v.cache_write (modes_apart mode) kv.write c.write;
      cache_write_5m = life-Below ttl p.cache_write_5m v.cache_write_5m kv.five c.five;
      cache_write_1h = life-Below ttl p.cache_write_1h v.cache_write_1h kv.hour c.hour;
      any_5m = five;
      any_1h = hour;
    }

decide-All-NotBelow :
    (mode : String) (long : Bool) (tier : String) (reason : Text) (p : TokenPricing)
    (vs : List TokenPricing)
    → Valid mode p
    → All (Valid mode) vs
    → All (Covers p) vs
    → All (NotBelow (decide mode long tier reason p)) vs
decide-All-NotBelow mode long tier reason p [] kp kv c = tt
decide-All-NotBelow mode long tier reason p (v ∷ vs) kp kv c = (
  decide-NotBelow mode long tier reason p v kp kv.0 c.0,
  decide-All-NotBelow mode long tier reason p vs kp kv.1 c.1,
)

-- On a rule that validateV2ModelPricing accepts, Select returns a decision for every response tier and
-- every number of tokens that is not negative, and ParsePrice accepts the decision's prices.
pub select-returns :
    (s : PricingSnapshot) (actual : Text) (tokens : ℕ)
    → validate_v2_model_pricing s.rule ≡ ok tt
    → (d : PricingDecision) × (select s actual (pos tokens) ≡ ok d)
      × IsPriced s.rule.cache_write_mode d
unfolding select
select-returns s actual tokens h =
    let r = select_price-Decided s.rule tokens actual h in
    let mode = s.rule.cache_write_mode in
    let long = above tokens s.rule.long_context_threshold_tokens in
    (
      decide mode long r.tier r.reason r.price,
      r.returned,
      decide-IsPriced mode long r.tier r.reason r.price r.valid,
    )

-- The decision of Select on an accepted rule either charges every component of the price that the
-- response's tier has in the context of the request, the cache writes as the rule's mode has them, or
-- no component of it is below that of any price published for the context.
pub select-NotBelow :
    (s : PricingSnapshot) (actual : Text) (tokens : ℕ) (d : PricingDecision)
    → validate_v2_model_pricing s.rule ≡ ok tt
    → select s actual (pos tokens) ≡ ok d
    → ((p : TokenPricing) × OwnPrice s.rule
          (above tokens s.rule.long_context_threshold_tokens)
          actual
          p
        × Charges s.rule.cache_write_mode d p)
      ⊎ All (NotBelow d) (
          prices_of_context
            (above tokens s.rule.long_context_threshold_tokens)
            s.rule.service_tiers)
unfolding select
select-NotBelow s actual tokens d h found =
    let r = select_price-Decided s.rule tokens actual h in
    let mode = s.rule.cache_write_mode in
    let long = above tokens s.rule.long_context_threshold_tokens in
    let e : decide mode long r.tier r.reason r.price ≡ d = ok-eq (sym r.returned ∙ found) in
    subst
      (λ (q : PricingDecision).
        ((p : TokenPricing) × OwnPrice s.rule long actual p × Charges mode q p)
        ⊎ All (NotBelow q) (prices_of_context long s.rule.service_tiers))
      e
      (elim r.source [
        | inl own ↦ inl (
          r.price,
          own,
          decide-Charges long r.tier r.reason r.price mode (validate_v2_model_pricing-mode s.rule h)
              r.valid,
        )
        | inr covers ↦ inr (
            decide-All-NotBelow mode long r.tier r.reason r.price
              (prices_of_context long s.rule.service_tiers) r.valid
              (prices_of_context-Valid mode long s.rule.service_tiers
                (validate_v2_model_pricing-Valid s.rule h).1)
              covers)
      ])
