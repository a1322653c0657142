-- ===== src/Config/Pricing/Select/Catalogue.antt =====
-- Lemmas on a catalogue, from its checks to the price of a request.
use codex_gateway.Base.{
  ℕ, ◌≡◌, refl, sym, ap, String, str_eq, eq_iff, ◌==◌, ltb, leb, length, Bool, true, false, not,
  ◌||◌, ◌&&◌, &&-true, any, if◌then◌else◌, Option, none, some, List, [], ◌∷◌, ok, ok-eq, guard_then,
  >>-ok, Text, arith, inl, inr, Bool-cases, Option-cases, subst, some-eq,
}
use codex_gateway.Base.Int.{pos}
use codex_gateway.Billing.Decimal.{parse_rate}
use codex_gateway.Limit.Daily.{validate_day}
use codex_gateway.Config.Pricing.{
  ModelPricing, UsagePricing, PricingSnapshot, PricingDecision, lookup,
}
use codex_gateway.Config.Pricing.Validate.{
  schema_version, catalog_date, fx_date, exchange_rate, no_models, too_many_models, fallback_policy,
  model_name, mixed_fields, validate_v2_model_pricing, validate_v1_model_pricing,
  validate_v2_fallback_policy, validate_field_presence, is_model_name, validate_model,
  validate_models, parse_usage_pricing, parse_pricing_snapshot, model_snapshot, default_version,
  is_ok, with_version, SnapshotJson, encoded_fields, omit_empty, has_any, v1_fields, is_empty,
  no_tier, is_zero_ℤ,
}
use codex_gateway.Config.Pricing.Select.{select}
use codex_gateway.Config.Pricing.Select.Decision.{IsPriced, select-returns}

-- What the checks of a catalogue grant of each of its models.
record Loaded (version : ℕ) (fields : String → List String) (model : String) (m : ModelPricing)
    : Type 0 where
  name : is_model_name model ≡ true
  presence : validate_field_presence version (fields model) ≡ true
  rule : version ≡ 2 → validate_v2_model_pricing m ≡ ok tt

second :
    (version : ℕ) (m : ModelPricing)
    → (if version == 1 then validate_v1_model_pricing m else validate_v2_model_pricing m) ≡ ok tt
    → version ≡ 2
    → validate_v2_model_pricing m ≡ ok tt
second version m h e = rw e at h

validate_model-Loaded :
    (version : ℕ) (fields : String → List String) (model : String) (m : ModelPricing)
    → validate_model version fields (model, m) ≡ ok tt
    → Loaded version fields model m
unfolding validate_model
validate_model-Loaded version fields model m h =
    let (name, h1) = guard_then (is_model_name model) model_name h in
    let (presence, h2) =
      guard_then (validate_field_presence version (fields model)) mixed_fields h1 in
    record { name = name; presence = presence; rule = second version m h2 }

lookup-Loaded :
    (version : ℕ) (fields : String → List String) (model : String)
    (ms : List (String × ModelPricing)) (m : ModelPricing)
    → validate_models version fields ms ≡ ok tt
    → lookup model ms ≡ some m
    → Loaded version fields model m
unfolding validate_models lookup
lookup-Loaded version fields model [] m h found = cc
lookup-Loaded version fields model ((name, n) ∷ ms) m h found =
    let (first, rest) = >>-ok (validate_model version fields (name, n)) h in
    elim (Bool-cases (str_eq name model)) [
      | inl e ↦
          subst (λ (x : String). Loaded version fields x m) {x = name} ((eq_iff name model).0 e)
            (subst (Loaded version fields name) (some-eq (rw e at found))
              (validate_model-Loaded version fields name n first))
      | inr e ↦ lookup-Loaded version fields model ms m rest (rw e at found)
    ]

-- What a catalogue that loads is known to hold.
record IsLoaded (fields : String → List String) (q : UsagePricing) : Type 0 where
  policy : q.schema_version ≡ 2 → validate_v2_fallback_policy q.fallback_policy ≡ true
  models : validate_models q.schema_version fields q.models ≡ ok tt

policy_of : (v : ℕ) (a b : Bool) → (if v == 1 then a else b) ≡ true → v ≡ 2 → b ≡ true
policy_of v a b h e = ground arith

parse_usage_pricing-IsLoaded :
    (fields : String → List String) (policy_present : Bool) (p q : UsagePricing)
    → parse_usage_pricing fields policy_present p ≡ ok q
    → IsLoaded fields q
unfolding parse_usage_pricing
parse_usage_pricing-IsLoaded fields policy_present p q h =
    let v = default_version p.schema_version in
    let (_, h1) = guard_then (v == 1 || v == 2) schema_version h in
    let (_, h2) = guard_then (validate_day p.catalog_as_of) catalog_date h1 in
    let (_, h3) = guard_then (validate_day p.fx_as_of) fx_date h2 in
    let (_, h4) = guard_then (is_ok (parse_rate p.usd_cny_rate)) exchange_rate h3 in
    let (_, h5) = guard_then (ltb 0 (length p.models)) no_models h4 in
    let (_, h6) = guard_then (leb (length p.models) 1000) too_many_models h5 in
    let (policy, h7) =
      guard_then
        (if v == 1 then not policy_present else validate_v2_fallback_policy p.fallback_policy)
        fallback_policy h6 in
    let (models, last) = >>-ok (validate_models v fields p.models) h7 in
    subst (IsLoaded fields) {x = with_version v p} (ok-eq last) (
      unfold with_version in
      record {
        policy =
            policy_of v (not policy_present) (validate_v2_fallback_policy p.fallback_policy) policy;
        models = models;
      })

snapshot_of : UsagePricing → String → ModelPricing → PricingSnapshot
snapshot_of q model rule = record {
  schema_version = 2;
  fallback_policy = q.fallback_policy;
  model = model;
  rule = rule;
}

-- A snapshot that is given out is that of a rule of a catalogue of the second version.
record Given (q : UsagePricing) (model : String) (s : PricingSnapshot) : Type 0 where
  rule : ModelPricing
  found : lookup model q.models ≡ some rule
  version : q.schema_version ≡ 2
  snapshot : s ≡ snapshot_of q model rule

given :
    (b : Bool) (s t : PricingSnapshot) (r m : ModelPricing)
    → ◌≡◌ {A = Option (Option PricingSnapshot × ModelPricing)}
        (some (if b then (some t, m) else (none, m)))
        (some (some s, r))
    → (b ≡ true) × (s ≡ t)
given true s t r m h =
    (refl, some-eq (ap (λ (x : Option PricingSnapshot × ModelPricing). x.0) (some-eq (sym h))))
given false s t r m h = cc

model_snapshot-Given :
    (q : UsagePricing) (model : String) (s : PricingSnapshot) (r : ModelPricing)
    → model_snapshot q model ≡ some (some s, r)
    → Given q model s
unfolding model_snapshot snapshot_of
model_snapshot-Given q model s r h = elim (Option-cases (lookup model q.models)) [
  | inl e ↦ absurd (ground (arith, rw (model_snapshot, e) at h))
  | inr (m, e) ↦
      let (two, same) =
        given (q.schema_version == 2) s (snapshot_of q model m) r m (rw (model_snapshot, e) at h) in
      record { rule = m; found = e; version = ground arith; snapshot = same }
]

-- A field that version 2 may have is no field of version 1, and an empty one is left out.
omit_empty-absent :
    (empty : Bool) (name : String) (rest : List String)
    → (empty ≡ false → any (str_eq name) v1_fields ≡ false)
    → has_any v1_fields rest ≡ false
    → has_any v1_fields (omit_empty empty name rest) ≡ false
unfolding omit_empty has_any
omit_empty-absent true name rest h k = k
omit_empty-absent false name rest h k = rw (h refl) k

encoded_fields-presence :
    (m : ModelPricing)
    → validate_v2_model_pricing m ≡ ok tt
    → validate_field_presence 2 (encoded_fields m) ≡ true
unfolding validate_field_presence validate_v2_model_pricing encoded_fields has_any v1_fields
encoded_fields-presence m h =
    let (empty, _) =
      guard_then (is_empty m.input && is_empty m.cached_input && is_empty m.output) mixed_fields
        h in
    let (pair, output) =
      &&-true (is_empty m.input && is_empty m.cached_input) (is_empty m.output) empty in
    let (input, cached) = &&-true (is_empty m.input) (is_empty m.cached_input) pair in
    let absent : has_any v1_fields (encoded_fields m) ≡ false =
      omit_empty-absent (is_empty m.input) _ _ (λ e. absurd (ground (arith, input, e)))
        (omit_empty-absent (is_empty m.cached_input) _ _ (λ e. absurd (ground (arith, cached, e)))
          (omit_empty-absent (is_empty m.output) _ _ (λ e. absurd (ground (arith, output, e)))
            (omit_empty-absent (str_eq m.cache_write_mode "") _ _ (λ e. refl)
              (omit_empty-absent (is_zero_ℤ m.max_input_tokens) _ _ (λ e. refl)
                (omit_empty-absent (is_zero_ℤ m.long_context_threshold_tokens) _ _ (λ e. refl)
                  (omit_empty-absent (no_tier m.service_tiers) _ _ (λ e. refl) refl)))))) in
    rw absent refl

module _ (j : SnapshotJson) where
  open j use {marshal, decode, rule_keys}

  snapshot_of-parse :
      (q : UsagePricing) (model : String) (rule : ModelPricing)
      → decode (marshal (snapshot_of q model rule)) ≡ some (snapshot_of q model rule)
      → rule_keys (marshal (snapshot_of q model rule)) ≡ some (encoded_fields rule)
      → is_model_name model ≡ true
      → validate_v2_fallback_policy q.fallback_policy ≡ true
      → validate_v2_model_pricing rule ≡ ok tt
      → parse_pricing_snapshot j (marshal (snapshot_of q model rule))
        ≡ ok (snapshot_of q model rule)
  unfolding parse_pricing_snapshot snapshot_of
  snapshot_of-parse q model rule back keys name policy valid =
      rw (back, keys, name, encoded_fields-presence rule valid, policy, valid) refl

  -- Of a snapshot that a loaded catalogue gives out for a model, ParsePricingSnapshot accepts what
  -- json.Marshal writes, and returns the snapshot: where json decodes what it has encoded, and the
  -- keys that it writes for the rule are those of the struct's tags, without those of empty fields.
  pub model_snapshot-parse :
      (fields : String → List String) (policy_present : Bool) (p q : UsagePricing) (model : String)
      (s : PricingSnapshot) (r : ModelPricing)
      → parse_usage_pricing fields policy_present p ≡ ok q
      → model_snapshot q model ≡ some (some s, r)
      → decode (marshal s) ≡ some s
      → rule_keys (marshal s) ≡ some (encoded_fields s.rule)
      → parse_pricing_snapshot j (marshal s) ≡ ok s
  model_snapshot-parse fields policy_present p q model s r loaded given_out back keys =
      let l = parse_usage_pricing-IsLoaded fields policy_present p q loaded in
      let g = model_snapshot-Given q model s r given_out in
      let m = lookup-Loaded q.schema_version fields model q.models g.rule l.models g.found in
      rw g.snapshot (
        snapshot_of-parse q model g.rule (rw g.snapshot at back)
          (unfold snapshot_of in rw g.snapshot at keys) m.name (l.policy g.version)
          (m.rule g.version))

-- With a snapshot that a loaded catalogue gives out for a model, Select returns a decision for every
-- response tier and every number of tokens that is not negative, and ParsePrice accepts its prices.
pub model_snapshot-select :
    (fields : String → List String) (policy_present : Bool) (p q : UsagePricing) (model : String)
    (s : PricingSnapshot) (r : ModelPricing) (actual : Text) (tokens : ℕ)
    → parse_usage_pricing fields policy_present p ≡ ok q
    → model_snapshot q model ≡ some (some s, r)
    → (d : PricingDecision) × (select s actual (pos tokens) ≡ ok d)
      × IsPriced s.rule.cache_write_mode d
model_snapshot-select fields policy_present p q model s r actual tokens loaded given_out =
    let l = parse_usage_pricing-IsLoaded fields policy_present p q loaded in
    let g = model_snapshot-Given q model s r given_out in
    let m = lookup-Loaded q.schema_version fields model q.models g.rule l.models g.found in
    select-returns s actual tokens (
      unfold snapshot_of in
      subst (λ (t : PricingSnapshot). validate_v2_model_pricing t.rule ≡ ok tt) (sym g.snapshot)
        (m.rule g.version))
