-- ===== src/Config/Pricing/Requested.antt =====
-- The service tier that a request asks for.
use codex_gateway.Base.{
  ℕ, String, str_eq, ◌==◌, if◌then◌else◌, Option, none, some, [], ◌∷◌, Result, ok, err, Text,
}
use codex_gateway.Billing.Decimal.{trim_space}
use codex_gateway.Config.Pricing.{UsagePricing, ModelPricing, lookup, normalize_service_tier}

pub data RequestError : Type 0 where
  unknown_tier unknown_model not_in_v1 not_configured : RequestError

requested_rule : ℕ → String → ModelPricing → Result RequestError (Unit {0})
requested_rule version tier rule =
    if version == 1
    then if str_eq tier "standard" then ok tt else err not_in_v1
    else elim (lookup tier rule.service_tiers) [ none ↦ err not_configured | some contexts ↦ ok tt ]

requested_tier : UsagePricing → String → Option String → Result RequestError (Unit {0})
unfolding requested_rule
requested_tier p model none = err unknown_tier
requested_tier p model (some tier) = elim (lookup model p.models) [
  | none ↦ err unknown_model
  | some rule ↦ requested_rule p.schema_version tier rule
]

named_tier : UsagePricing → String → Text → Text → Result RequestError (Unit {0})
unfolding requested_tier
named_tier p model raw [] = ok tt
named_tier p model raw (c ∷ s) = requested_tier p model (normalize_service_tier raw)

-- `ValidateRequestedServiceTier`.
unfoldable pub validate_requested_service_tier :
    UsagePricing → String → Text → Result RequestError (Unit {0})
unfolding named_tier
validate_requested_service_tier p model raw = named_tier p model raw (trim_space raw)
