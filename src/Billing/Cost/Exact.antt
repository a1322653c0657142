-- ===== src/Billing/Cost/Exact.antt =====
-- The closed form of a cost: exact token charges, one rounding at the end.
use native.Mathlib.Nat.{mul-pos}
use mathlib.Core.Path.{◌≡⟨◌⟩◌, ◌∎, ap₂}
use codex_gateway.Base.{
  ℕ, ◌+◌, ◌-◌, ◌*◌, ◌^◌, ◌≤◌, ◌<◌, ◌≡◌, ap, ◌∙◌, true, false, leb, Result, ok, err, guard,
  >>=-eq-ok, Text, arith,
}
use codex_gateway.Base.Int.{ℤ, pos, +ℤ-pos, *ℤ-pos}
use codex_gateway.Billing.Decimal.{Error, amount_scale, parse_price, parse_multiplier}
use codex_gateway.Billing.Decimal.Value.{IsValue, units, parse_bounded-IsValue}
use codex_gateway.Billing.Rounding.{
  Rat, rat_of, rat_mul, rat_add, rat_int, rat_quo, round_amount, round_fixed, round_quotient,
}
use codex_gateway.Billing.Rounding.Laws.{
  half_up, half_up-eq, round_quotient-half_up, rat_of-scaled_integer_string,
}
use codex_gateway.Billing.Cost.{
  wrap, price, charge, million, multiply_cost_and_round, calculate_cost_with_multiplier,
}

-- One unit is 10^-12.
abbrev pub unit : ℕ
unit = 10 ^ amount_scale

wrap-ok : (e : Error) (r : Result Error Text) (s : Text) → wrap e r ≡ ok s → r ≡ ok s
wrap-ok e (ok t) s h = h
wrap-ok e (err x) s h = cc

pub price-IsValue : (p q : Text) → price p ≡ ok q → IsValue (rat_of q) (units p) unit
unfolding price parse_price
price-IsValue p q h = parse_bounded-IsValue p q amount_scale true (omega arith) (wrap-ok _ _ q h)

cross_mul : (n t e u d : ℕ) → t * e ≡ u * d → n * t * e ≡ n * u * (1 * d)
cross_mul n t e u d h = omega (arith, ap (λ (x : ℕ). n * x) h)

pub charge-IsValue :
    (n : ℕ) (p : Text) (u : ℕ) → IsValue (rat_of p) u unit → IsValue (charge n p) (n * u) unit
unfolding charge rat_mul rat_int
charge-IsValue n p u v = record {
  top = n * v.top;
  num = rw (v.num) (*ℤ-pos n v.top);
  den = omega (arith, v.den);
  cross = cross_mul n v.top unit u (rat_of p).den v.cross;
}

cross_add :
    (s t a b u w e : ℕ) → s * e ≡ u * a → t * e ≡ w * b → (s * b + t * a) * e ≡ (u + w) * (a * b)
cross_add s t a b u w e h k = omega (arith, ap (λ (x : ℕ). x * b) h, ap (λ (x : ℕ). x * a) k)

pub rat_add-IsValue :
    (x y : Rat) (u w e : ℕ) → IsValue x u e → IsValue y w e → IsValue (rat_add x y) (u + w) e
unfolding rat_add
rat_add-IsValue x y u w e a b = record {
  top = a.top * y.den + b.top * x.den;
  num =
      rw (a.num, b.num, *ℤ-pos a.top y.den, *ℤ-pos b.top x.den)
        (+ℤ-pos (a.top * y.den) (b.top * x.den));
  den = mul-pos a.den b.den;
  cross = cross_add a.top b.top x.den y.den u w e a.cross b.cross;
}

pub rat_quo-IsValue :
    (x : Rat) (m u e : ℕ) → 0 < m → IsValue x u e → IsValue (rat_quo x m) u (e * m)
unfolding rat_quo
rat_quo-IsValue x m u e p a = record {
  top = a.top;
  num = a.num;
  den = mul-pos a.den p;
  cross = omega (arith, ap (λ (k : ℕ). k * m) a.cross);
}

cross_product :
    (s t a b u w e f : ℕ) → s * e ≡ u * a → t * f ≡ w * b → s * t * (e * f) ≡ u * w * (a * b)
cross_product s t a b u w e f h k =
    s * t * (e * f)
    ≡⟨ omega arith ⟩ s * e * (t * f)
    ≡⟨ ap₂ (λ (x y : ℕ). x * y) h k ⟩ u * a * (w * b)
    ≡⟨ omega arith ⟩ u * w * (a * b) ∎

pub rat_mul-IsValue :
    (x y : Rat) (u w e f : ℕ)
    → IsValue x u e
    → IsValue y w f
    → IsValue (rat_mul x y) (u * w) (e * f)
unfolding rat_mul
rat_mul-IsValue x y u w e f a b = record {
  top = a.top * b.top;
  num = rw (a.num, b.num) (*ℤ-pos a.top b.top);
  den = mul-pos a.den b.den;
  cross = cross_product a.top b.top x.den y.den u w e f a.cross b.cross;
}

-- u / e rounded half up to the twelfth place.
abbrev pub rounded_to_unit : ℕ → ℕ → Rat
rounded_to_unit u e = record { num = pos (half_up u e amount_scale); den = 10 ^ amount_scale }

round_amount-fixed : (r : Rat) (s : Text) → round_amount r ≡ ok s → s ≡ round_fixed r amount_scale
unfolding round_amount
round_amount-fixed r s h = ground arith

round_fixed-value :
    (r : Rat) (u e : ℕ)
    → 0 < e
    → IsValue r u e
    → rat_of (round_fixed r amount_scale) ≡ rounded_to_unit u e
unfolding round_fixed
round_fixed-value r u e p v =
    let same : round_quotient r amount_scale ≡ pos (half_up v.top r.den amount_scale) =
      ap (λ (n : ℤ). round_quotient (record { num = n; den = r.den }) amount_scale) v.num
      ∙ round_quotient-half_up v.top r.den amount_scale v.den in
    rw (same, half_up-eq v.top r.den u e amount_scale v.den p v.cross)
      (rat_of-scaled_integer_string (half_up u e amount_scale) amount_scale)

-- What a cost is, once the token charges `u` are summed in units per million.
pub multiply_cost_and_round-value :
    (total : Rat) (u : ℕ) (m s : Text)
    → IsValue total u (unit * million)
    → multiply_cost_and_round total m ≡ ok s
    → rat_of s ≡ rounded_to_unit (u * units m) (unit * million * unit)
unfolding multiply_cost_and_round parse_multiplier
multiply_cost_and_round-value total u m s v h =
    let (canonical, parsed, rounded) = >>=-eq-ok (wrap _ (parse_multiplier m)) _ h in
    let factor =
      parse_bounded-IsValue m canonical amount_scale false (omega arith)
        (wrap-ok _ _ canonical parsed) in
    let product =
      rat_mul-IsValue total (rat_of canonical) u (units m) (unit * million) unit v factor in
    ap rat_of (round_amount-fixed (rat_mul total (rat_of canonical)) s rounded)
    ∙ round_fixed-value (rat_mul total (rat_of canonical)) (u * units m) (unit * million * unit)
        (omega arith) product

-- Token charges of the two kinds that every rule has.
abbrev pub base_units : ℕ → ℕ → Text → Text → ℕ
base_units ordinary cached input_price cached_price =
    ordinary * units input_price + cached * units cached_price

pub base-IsValue :
    (n c : ℕ) (p0 p1 q0 q1 : Text)
    → price p0 ≡ ok q0
    → price p1 ≡ ok q1
    → IsValue (rat_add (charge n q0) (charge c q1)) (base_units n c p0 p1) unit
base-IsValue n c p0 p1 q0 q1 h0 h1 =
    rat_add-IsValue (charge n q0) (charge c q1) (n * units p0) (c * units p1) unit
      (charge-IsValue n q0 (units p0) (price-IsValue p0 q0 h0))
      (charge-IsValue c q1 (units p1) (price-IsValue p1 q1 h1))

pub with_charge-IsValue :
    (x : Rat) (u n : ℕ) (p q : Text)
    → IsValue x u unit
    → price p ≡ ok q
    → IsValue (rat_add x (charge n q)) (u + n * units p) unit
with_charge-IsValue x u n p q v h =
    rat_add-IsValue x (charge n q) u (n * units p) unit v
      (charge-IsValue n q (units p) (price-IsValue p q h))

-- The whole cost, of the charge in units per million tokens and the multiplier's units.
abbrev pub cost_of : ℕ → Text → Rat
cost_of u m = rounded_to_unit (u * units m) (unit * million * unit)

pub final-value :
    (x : Rat) (u : ℕ) (m s : Text)
    → IsValue x u unit
    → multiply_cost_and_round (rat_quo x million) m ≡ ok s
    → rat_of s ≡ cost_of u m
final-value x u m s v h =
    multiply_cost_and_round-value (rat_quo x million) u m s
      (rat_quo-IsValue x million u unit (omega arith) v) h

-- In an accepted cost of the first pricing rule, cached tokens are part of the input, and the cost is
-- the exact sum of the three token charges, in units of 10^-12 per million tokens, times the
-- multiplier, rounded half up once.
pub calculate_cost_with_multiplier-value :
    (i c o : ℕ) (p0 p1 p2 m s : Text)
    → calculate_cost_with_multiplier (pos i) (pos c) (pos o) p0 p1 p2 m ≡ ok s
    → (c ≤ i) × (rat_of s ≡ cost_of (base_units (i - c) c p0 p1 + o * units p2) m)
unfolding calculate_cost_with_multiplier
calculate_cost_with_multiplier-value i c o p0 p1 p2 m s h =
    let (_, within, h1) = >>=-eq-ok (guard (leb c i) _) _ h in
    let (q0, ok0, h2) = >>=-eq-ok (price p0) _ h1 in
    let (q1, ok1, h3) = >>=-eq-ok (price p1) _ h2 in
    let (q2, ok2, h4) = >>=-eq-ok (price p2) _ h3 in
    let base = base-IsValue (i - c) c p0 p1 q0 q1 ok0 ok1 in
    let total =
      with_charge-IsValue (rat_add (charge (i - c) q0) (charge c q1)) (base_units (i - c) c p0 p1) o
        p2 q2 base ok2 in
    (ground arith, final-value _ _ m s total h4)
