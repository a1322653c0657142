-- ===== src/Config/Pricing/Select/Raise.antt =====
-- Lemmas on the loop of `componentMaximum`.
use codex_gateway.Base.{
  ◌≤◌, ◌≡◌, refl, String, str_eq, Bool, true, false, ◌&&◌, if◌then◌else◌, Option, none, some, List,
  [], ◌∷◌, ok, err, guard-ok, guard_then, &&-true, Text, arith, All, inl, inr, Result-cases,
}
use codex_gateway.Billing.Decimal.{Error as DecimalError, parse_price}
use codex_gateway.Billing.Decimal.Value.{units}
use codex_gateway.Config.Pricing.{TokenPricing}
use codex_gateway.Config.Pricing.Validate.{
  is_price, is_present_price, is_absent, invalid_price, cache_write_price, ttl_price,
  validate_token_pricing,
}
use codex_gateway.Config.Pricing.Select.{
  max_decimal, max_present, Components, raise, raise_all, zeros,
}
use codex_gateway.Config.Pricing.Select.Larger.{Larger, max_decimal-Larger}

-- The presence of a price that a mode asks for, or refuses.
abbrev pub Fits : Bool → Option Text → Type 0
Fits b p = (if b then is_present_price p else is_absent p) ≡ true

-- What `validateTokenPricing` grants.
pub record Valid (mode : String) (p : TokenPricing) : Type 0 where
  pub input : is_price p.input ≡ true
  pub cached_input : is_price p.cached_input ≡ true
  pub output : is_price p.output ≡ true
  pub write : Fits (str_eq mode "separate") p.cache_write
  pub five : Fits (str_eq mode "separate_by_ttl") p.cache_write_5m
  pub hour : Fits (str_eq mode "separate_by_ttl") p.cache_write_1h

both_present :
    (b : Bool) (p q : Option Text)
    → (if b then is_present_price p && is_present_price q else is_absent p && is_absent q) ≡ true
    → Fits b p × Fits b q
both_present true p q h = ground arith
both_present false p q h = ground arith

pub validate_token_pricing-Valid :
    (mode : String) (p : TokenPricing) → validate_token_pricing mode p ≡ ok tt → Valid mode p
unfolding validate_token_pricing
validate_token_pricing-Valid mode p h =
    let (prices, h1) =
      guard_then (is_price p.input && is_price p.cached_input && is_price p.output) invalid_price
        h in
    let (write, h2) =
      guard_then
        (if str_eq mode "separate" then is_present_price p.cache_write else is_absent p.cache_write)
        cache_write_price h1 in
    let lives =
      guard-ok
        (if str_eq mode "separate_by_ttl"
          then is_present_price p.cache_write_5m && is_present_price p.cache_write_1h
          else is_absent p.cache_write_5m && is_absent p.cache_write_1h)
        ttl_price h2 in
    let (five, hour) =
      both_present (str_eq mode "separate_by_ttl") p.cache_write_5m p.cache_write_1h lives in
    let (pair, output) =
      &&-true (is_price p.input && is_price p.cached_input) (is_price p.output) prices in
    let (input, cached) = &&-true (is_price p.input) (is_price p.cached_input) pair in
    record {
      input = input;
      cached_input = cached;
      output = output;
      write = write;
      five = five;
      hour = hour;
    }

-- A text that `ParsePrice` returns, and so accepts as it is.
abbrev pub IsAccepted : Text → Type 0
IsAccepted p = parse_price p ≡ ok p

not_ok : (p : Text) (e : DecimalError) → parse_price p ≡ err e → is_price p ≡ false
unfolding is_price
not_ok p e failed = rw (is_price, failed) refl

is_price-ok : (p : Text) → is_price p ≡ true → (c : Text) × (parse_price p ≡ ok c)
unfolding is_price
is_price-ok p h = elim (Result-cases (parse_price p)) [
  | inl found ↦ found
  | inr (e, failed) ↦ absurd (ground (arith, not_ok p e failed))
]

pub ok-is_price : (p c : Text) → parse_price p ≡ ok c → is_price p ≡ true
unfolding is_price
ok-is_price p c h = rw (is_price, h) refl

-- `maxDecimal` on accepted prices.
pub Larger-of : (l r : Text) → is_price l ≡ true → is_price r ≡ true → Larger l r (max_decimal l r)
Larger-of l r hl hr =
    let (c, el) = is_price-ok l hl in
    let (d, er) = is_price-ok r hr in max_decimal-Larger l r c d el er

-- A price that is there is not above another.
abbrev pub Below : Option Text → Text → Type 0
Below none t = Unit
Below (some p) t = units p ≤ units t

max_present_lem :
    (b : Bool) (left : Text) (right : Option Text)
    → IsAccepted left
    → Fits b right
    → IsAccepted (max_present left right)
      × (units left ≤ units (max_present left right))
      × Below right (max_present left right)
unfolding max_present is_present_price is_absent
max_present_lem true left none h k = absurd (ground arith)
max_present_lem true left (some p) h k =
    let m = Larger-of left p (ok-is_price left left h) k in (m.accepted, m.not_left, m.not_right)
max_present_lem false left none h k = (h, omega arith, tt)
max_present_lem false left (some p) h k = absurd (ground arith)

-- The loop's variables hold accepted prices.
pub record AreAccepted (m : Components) : Type 0 where
  pub input : IsAccepted m.input
  pub cached_input : IsAccepted m.cached_input
  pub output : IsAccepted m.output
  pub write : IsAccepted m.cache_write
  pub five : IsAccepted m.cache_write_5m
  pub hour : IsAccepted m.cache_write_1h

pub record Grows (m n : Components) : Type 0 where
  pub input : units m.input ≤ units n.input
  pub cached_input : units m.cached_input ≤ units n.cached_input
  pub output : units m.output ≤ units n.output
  pub write : units m.cache_write ≤ units n.cache_write
  pub five : units m.cache_write_5m ≤ units n.cache_write_5m
  pub hour : units m.cache_write_1h ≤ units n.cache_write_1h

pub record CoversAll (m : Components) (v : TokenPricing) : Type 0 where
  pub input : units v.input ≤ units m.input
  pub cached_input : units v.cached_input ≤ units m.cached_input
  pub output : units v.output ≤ units m.output
  pub write : Below v.cache_write m.cache_write
  pub five : Below v.cache_write_5m m.cache_write_5m
  pub hour : Below v.cache_write_1h m.cache_write_1h

Below-trans : (p : Option Text) (s t : Text) → Below p s → units s ≤ units t → Below p t
Below-trans none s t h k = tt
Below-trans (some p) s t h k = omega (arith, h, k)

CoversAll-Grows : (m n : Components) (v : TokenPricing) → CoversAll m v → Grows m n → CoversAll n v
CoversAll-Grows m n v c g = record {
  input = omega (arith, c.input, g.input);
  cached_input = omega (arith, c.cached_input, g.cached_input);
  output = omega (arith, c.output, g.output);
  write = Below-trans v.cache_write m.cache_write n.cache_write c.write g.write;
  five = Below-trans v.cache_write_5m m.cache_write_5m n.cache_write_5m c.five g.five;
  hour = Below-trans v.cache_write_1h m.cache_write_1h n.cache_write_1h c.hour g.hour;
}

Grows-refl : (m : Components) → Grows m m
Grows-refl m = record {
  input = omega arith;
  cached_input = omega arith;
  output = omega arith;
  write = omega arith;
  five = omega arith;
  hour = omega arith;
}

Grows-trans : (m n o : Components) → Grows m n → Grows n o → Grows m o
Grows-trans m n o g h = record {
  input = omega (arith, g.input, h.input);
  cached_input = omega (arith, g.cached_input, h.cached_input);
  output = omega (arith, g.output, h.output);
  write = omega (arith, g.write, h.write);
  five = omega (arith, g.five, h.five);
  hour = omega (arith, g.hour, h.hour);
}

-- One round of the loop.
raise_lem :
    (mode : String) (m : Components) (v : TokenPricing)
    → AreAccepted m
    → Valid mode v
    → AreAccepted (raise m v) × Grows m (raise m v) × CoversAll (raise m v) v
unfolding raise
raise_lem mode m v a k =
    let input = Larger-of m.input v.input (ok-is_price m.input m.input a.input) k.input in
    let cached =
      Larger-of m.cached_input v.cached_input
        (ok-is_price m.cached_input m.cached_input a.cached_input) k.cached_input in
    let output = Larger-of m.output v.output (ok-is_price m.output m.output a.output) k.output in
    let (write, more, above) =
      max_present_lem (str_eq mode "separate") m.cache_write v.cache_write a.write k.write in
    let (five, more5, above5) =
      max_present_lem (str_eq mode "separate_by_ttl") m.cache_write_5m v.cache_write_5m a.five
        k.five in
    let (hour, more1, above1) =
      max_present_lem (str_eq mode "separate_by_ttl") m.cache_write_1h v.cache_write_1h a.hour
        k.hour in
    (
      record {
        input = input.accepted;
        cached_input = cached.accepted;
        output = output.accepted;
        write = write;
        five = five;
        hour = hour;
      },
      record {
        input = input.not_left;
        cached_input = cached.not_left;
        output = output.not_left;
        write = more;
        five = more5;
        hour = more1;
      },
      record {
        input = input.not_right;
        cached_input = cached.not_right;
        output = output.not_right;
        write = above;
        five = above5;
        hour = above1;
      },
    )

pub raise_all_lem :
    (mode : String) (m : Components) (vs : List TokenPricing)
    → AreAccepted m
    → All (Valid mode) vs
    → AreAccepted (raise_all m vs) × Grows m (raise_all m vs) × All (CoversAll (raise_all m vs)) vs
unfolding raise_all
raise_all_lem mode m [] a k = (a, Grows-refl m, tt)
raise_all_lem mode m (v ∷ vs) a k =
    let (accepted, more, above) = raise_lem mode m v a k.0 in
    let (rest, grown, covered) = raise_all_lem mode (raise m v) vs accepted k.1 in
    (
      rest,
      Grows-trans m (raise m v) (raise_all (raise m v) vs) more grown,
      (CoversAll-Grows (raise m v) (raise_all (raise m v) vs) v above grown, covered),
    )

pub zeros-AreAccepted : AreAccepted zeros
zeros-AreAccepted =
    let zero_price : IsAccepted (b'0' ∷ []) = unfold parse_price in refl in
    record {
      input = zero_price;
      cached_input = zero_price;
      output = zero_price;
      write = zero_price;
      five = zero_price;
      hour = zero_price;
    }
