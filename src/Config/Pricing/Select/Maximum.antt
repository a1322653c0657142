-- ===== src/Config/Pricing/Select/Maximum.antt =====
-- Lemmas on `componentMaximum`.
use codex_gateway.Base.{
  some-eq, ◌≤◌, ◌≡◌, refl, String, str_eq, Bool, true, false, if◌then◌else◌, Option, none, some,
  List, [], ◌∷◌, Text, arith, All, subst,
}
use codex_gateway.Billing.Decimal.Value.{units}
use codex_gateway.Config.Pricing.{TokenPricing}
use codex_gateway.Config.Pricing.Validate.{is_present_price, is_absent}
use codex_gateway.Config.Pricing.Select.{
  Components, raise_all, zeros, published, component_maximum, or_zero_price, required,
}
use codex_gateway.Config.Pricing.Select.Raise.{
  Fits, Valid, IsAccepted, ok-is_price, Below, AreAccepted, CoversAll, raise_all_lem,
  zeros-AreAccepted,
}

-- No component of one price is above the other's.
pub record Covers (q v : TokenPricing) : Type 0 where
  pub input : units v.input ≤ units q.input
  pub cached_input : units v.cached_input ≤ units q.cached_input
  pub output : units v.output ≤ units q.output
  pub write : Below v.cache_write (or_zero_price q.cache_write)
  pub five : Below v.cache_write_5m (required q.cache_write_5m)
  pub hour : Below v.cache_write_1h (required q.cache_write_1h)

Fits-published : (b : Bool) (t : Text) → IsAccepted t → Fits b (if b then some t else none)
unfolding is_present_price is_absent
Fits-published true t h = ok-is_price t t h
Fits-published false t h = refl

Below-zero :
    (b : Bool) (p : Option Text) (t : Text)
    → Fits b p
    → Below p t
    → Below p (or_zero_price (if b then some t else none))
unfolding or_zero_price is_present_price is_absent
Below-zero true p t k h = h
Below-zero false none t k h = tt
Below-zero false (some p) t k h = absurd (ground arith)

Below-required :
    (b : Bool) (p : Option Text) (t : Text)
    → Fits b p
    → Below p t
    → Below p (required (if b then some t else none))
unfolding required is_present_price is_absent
Below-required true p t k h = h
Below-required false none t k h = tt
Below-required false (some p) t k h = absurd (ground arith)

published-Covers :
    (mode : String) (m : Components) (v : TokenPricing)
    → Valid mode v
    → CoversAll m v
    → Covers (published mode m) v
unfolding published
published-Covers mode m v k c = record {
  input = c.input;
  cached_input = c.cached_input;
  output = c.output;
  write = Below-zero (str_eq mode "separate") v.cache_write m.cache_write k.write c.write;
  five =
      Below-required (str_eq mode "separate_by_ttl") v.cache_write_5m m.cache_write_5m k.five
        c.five;
  hour =
      Below-required (str_eq mode "separate_by_ttl") v.cache_write_1h m.cache_write_1h k.hour
        c.hour;
}

published-Valid : (mode : String) (m : Components) → AreAccepted m → Valid mode (published mode m)
unfolding published
published-Valid mode m a = record {
  input = ok-is_price m.input m.input a.input;
  cached_input = ok-is_price m.cached_input m.cached_input a.cached_input;
  output = ok-is_price m.output m.output a.output;
  write = Fits-published (str_eq mode "separate") m.cache_write a.write;
  five = Fits-published (str_eq mode "separate_by_ttl") m.cache_write_5m a.five;
  hour = Fits-published (str_eq mode "separate_by_ttl") m.cache_write_1h a.hour;
}

All-covered :
    (mode : String) (m : Components) (vs : List TokenPricing)
    → All (Valid mode) vs
    → All (CoversAll m) vs
    → All (Covers (published mode m)) vs
All-covered mode m [] k c = tt
All-covered mode m (v ∷ vs) k c = (published-Covers mode m v k.0 c.0, All-covered mode m vs k.1 c.1)

-- The maximum of valid prices is a valid price, and no component of any of them is above the maximum's.
pub component_maximum-Covers :
    (vs : List TokenPricing) (mode : String) (q : TokenPricing)
    → All (Valid mode) vs
    → component_maximum vs mode ≡ some q
    → Valid mode q × All (Covers q) vs
unfolding component_maximum
component_maximum-Covers [] mode q k h = cc
component_maximum-Covers (v ∷ vs) mode q k h =
    let (accepted, _, covered) = raise_all_lem mode zeros (v ∷ vs) zeros-AreAccepted k in
    let most = raise_all zeros (v ∷ vs) in
    subst (λ (r : TokenPricing). Valid mode r × All (Covers r) (v ∷ vs)) {x = published mode most}
      (some-eq h) (published-Valid mode most accepted, All-covered mode most (v ∷ vs) k covered)
