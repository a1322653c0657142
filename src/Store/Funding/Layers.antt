-- ===== src/Store/Funding/Layers.antt =====
-- Which layer pays: internal/store/billing_layers.go.
use codex_gateway.Base.{
  ℕ, ◌-◌, String, str_eq, Bool, true, false, not, ◌||◌, ◌&&◌, ltb, if◌then◌else◌, Option, none,
  some, List, [], ◌∷◌, Result, ok, err, any,
}
use codex_gateway.Store.Funding.Types.{Error, conflict, not_found, FundingLayer, GroupPeriod, Funds}

-- `contains`.
unfoldable pub contains : FundingLayer → String → Bool
contains l account = l.all_accounts || any (λ (id : String). str_eq id account) l.account_ids

-- The loop of `settlementLayerCandidates`.
pub record Candidates : Type 0 where
  pub groups : List FundingLayer
  pub personal : Bool
  pub attributed : Bool

collect : FundingLayer → List FundingLayer × Bool → List FundingLayer × Bool
collect l (groups, personal) = if l.all_accounts then (groups, true) else (l ∷ groups, personal)

unfoldable pub serving : String → List FundingLayer → List FundingLayer × Bool
unfolding collect
serving account [] = ([], false)
serving account (l ∷ ls) =
    let rest = serving account ls in
    if str_eq account "" || not (contains l account) then rest else collect l rest

-- No layer serves the account: the first one pays.
fallback : List FundingLayer → Candidates
fallback [] = record { groups = []; personal = false; attributed = false }
fallback (l ∷ ls) = record {
  groups = if l.all_accounts then [] else l ∷ [];
  personal = l.all_accounts;
  attributed = false;
}

attribute : List FundingLayer → List FundingLayer × Bool → Candidates
unfolding fallback
attribute layers ([], false) = fallback layers
attribute layers ([], true) = record { groups = []; personal = true; attributed = true }
attribute layers (g ∷ gs, personal) = record {
  groups = g ∷ gs;
  personal = personal;
  attributed = true;
}

unfoldable pub settlement_layer_candidates : List FundingLayer → String → Candidates
unfolding attribute serving
settlement_layer_candidates layers account = attribute layers (serving account layers)

-- SELECT … FROM group_usage_periods WHERE id=$1 AND group_id=$2.
unfoldable pub find_group_period : String → String → List GroupPeriod → Option GroupPeriod
find_group_period id group [] = none
find_group_period id group (p ∷ ps) =
    let rest = find_group_period id group ps in
    if str_eq p.id id && str_eq p.group_id group then some p else rest

-- `groupMemberRemainingTx`: GREATEST(limit - used, 0).
unfoldable pub group_member_remaining : Funds → String → String → Option ℕ → Option ℕ
group_member_remaining f period user none = none
group_member_remaining f period user (some n) = some (n - f.member_used period user)

has_room : Option ℕ → Bool
has_room none = true
has_room (some n) = ltb 0 n

-- The period has funds, for this member too.
unfoldable pub is_usable : Funds → String → GroupPeriod → Bool
unfolding has_room group_member_remaining
is_usable f user p =
    ltb 0 (p.limit - p.used) && has_room (group_member_remaining f p.id user p.member_limit)

-- The first candidate with funds left.
unfoldable pub first_funded :
    Funds → String → List FundingLayer → Result Error (Option FundingLayer)
unfolding is_usable
first_funded f user [] = ok none
first_funded f user (l ∷ ls) =
    let rest = first_funded f user ls in
    elim (find_group_period l.group_period_id l.group_id f.group_periods) [
      | none ↦ err not_found
      | some p ↦ if is_usable f user p then ok (some l) else rest
    ]

or_first : List FundingLayer → Bool → Option FundingLayer → Result Error (Option FundingLayer)
or_first candidates personal (some l) = ok (some l)
or_first (l ∷ ls) personal none = ok (some l)
or_first [] personal none = if personal then ok none else err conflict

-- `bindSettlementLayerTx`: the group layer that pays, or none for the personal layer.
unfoldable pub bind_settlement_layer :
    Funds → String → List FundingLayer → Bool → Result Error (Option FundingLayer)
unfolding first_funded or_first
bind_settlement_layer f user candidates personal = elim (first_funded f user candidates) [
  | err e ↦ err e
  | ok chosen ↦ or_first candidates personal chosen
]
