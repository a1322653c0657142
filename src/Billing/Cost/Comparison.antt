-- ===== src/Billing/Cost/Comparison.antt =====
-- The costs with cache writes: their closed forms, and what they have to do with each other.
use native.Mathlib.Nat.{
  mul-pos, mul-lt-mul_of_pos_right, mul-le-mul_right, mul-le-mul_left, le-div_iff_mul-le,
}
use codex_gateway.Base.{
  ℕ, ◌+◌, ◌-◌, ◌*◌, ◌/◌, ◌^◌, ◌≤◌, ◌<◌, ◌≡◌, ap, ◌∙◌, Bool, true, false, not, ◌||◌, ◌&&◌, ◌==◌, ltb,
  leb, if◌then◌else◌, String, str_eq, ok, guard, >>=-eq-ok, Text, arith, ltb→lt, Bool-cases, inl,
  inr,
}
use codex_gateway.Base.Int.{pos, ◌-ℤ◌, *ℤ-pos, is_negative}
use codex_gateway.Billing.Decimal.{amount_scale}
use codex_gateway.Billing.Decimal.Value.{IsValue, units}
use codex_gateway.Billing.Rounding.{Rat, rat_of, rat_add, rat_gt}
use codex_gateway.Billing.Rounding.Laws.{half_up}
use codex_gateway.Billing.Cost.{
  price, charge, calculate_cost_v2_with_multiplier, calculate_cost_v2_ttl_with_multiplier,
}
use codex_gateway.Billing.Cost.Exact.{
  unit, base_units, cost_of, rounded_to_unit, base-IsValue, with_charge-IsValue, charge-IsValue,
  price-IsValue, rat_add-IsValue, final-value,
}

-- The charge in units per million tokens where cache writes are priced apart or with the input.
abbrev pub v2_units : Bool → ℕ → ℕ → ℕ → ℕ → Text → Text → Text → Text → ℕ
v2_units true i c w o p0 p1 p2 p3 = base_units (i - c - w) c p0 p1 + w * units p2 + o * units p3
v2_units false i c w o p0 p1 p2 p3 = base_units (i - c) c p0 p1 + o * units p3

written-IsValue :
    (separate : Bool) (i c w o : ℕ) (p0 p1 p2 p3 q0 q1 q2 q3 : Text)
    → price p0 ≡ ok q0
    → price p1 ≡ ok q1
    → price p2 ≡ ok q2
    → price p3 ≡ ok q3
    → IsValue
        (rat_add
          (if separate
            then rat_add
                (rat_add (charge (if separate then i - c - w else i - c) q0) (charge c q1))
                (charge w q2)
            else rat_add (charge (if separate then i - c - w else i - c) q0) (charge c q1))
          (charge o q3))
        (v2_units separate i c w o p0 p1 p2 p3)
        unit
written-IsValue true i c w o p0 p1 p2 p3 q0 q1 q2 q3 h0 h1 h2 h3 =
    with_charge-IsValue _ _ o p3 q3
      (with_charge-IsValue _ _ w p2 q2 (base-IsValue (i - c - w) c p0 p1 q0 q1 h0 h1) h2) h3
written-IsValue false i c w o p0 p1 p2 p3 q0 q1 q2 q3 h0 h1 h2 h3 =
    with_charge-IsValue _ _ o p3 q3 (base-IsValue (i - c) c p0 p1 q0 q1 h0 h1) h3

-- An accepted cost of the second rule: cached tokens, and cache writes where they are priced
-- apart, are parts of the input; the cost is the exact sum of the charges, rounded once.
pub calculate_cost_v2_with_multiplier-value :
    (i c w o : ℕ) (mode : String) (p0 p1 p2 p3 m s : Text)
    → calculate_cost_v2_with_multiplier (pos i) (pos c) (pos w) (pos o) mode p0 p1 p2 p3 m ≡ ok s
    → (c ≤ i)
      × ((not (str_eq mode "separate") || leb w (i - c)) ≡ true)
      × (rat_of s ≡ cost_of (v2_units (str_eq mode "separate") i c w o p0 p1 p2 p3) m)
unfolding calculate_cost_v2_with_multiplier
calculate_cost_v2_with_multiplier-value i c w o mode p0 p1 p2 p3 m s h =
    let separate = str_eq mode "separate" in
    let (_, within, h1) = >>=-eq-ok (guard (leb c i) _) _ h in
    let (_, known, h2) = >>=-eq-ok (guard (separate || str_eq mode "included_in_input") _) _ h1 in
    let (_, parts, h3) = >>=-eq-ok (guard (not separate || leb w (i - c)) _) _ h2 in
    let (q0, ok0, h4) = >>=-eq-ok (price p0) _ h3 in
    let (q1, ok1, h5) = >>=-eq-ok (price p1) _ h4 in
    let (q2, ok2, h6) = >>=-eq-ok (price p2) _ h5 in
    let (q3, ok3, h7) = >>=-eq-ok (price p3) _ h6 in
    (
      ground arith,
      ground arith,
      final-value _ _ m s (written-IsValue separate i c w o p0 p1 p2 p3 q0 q1 q2 q3 ok0 ok1 ok2 ok3)
          h7,
    )

sub_negative : (a b : ℕ) → is_negative (pos a -ℤ pos b) ≡ ltb a b
unfolding ◌-ℤ◌
sub_negative a b = ground arith

-- Comparing fractions compares their units.
scaled_lt :
    (s t a b u w : ℕ)
    → 0 < a
    → 0 < b
    → s * unit ≡ u * a
    → t * unit ≡ w * b
    → ltb (t * a) (s * b) ≡ ltb w u
scaled_lt s t a b u w pa pb h k =
    let left : t * a * unit ≡ w * (a * b) = omega (arith, ap (λ (x : ℕ). x * a) k) in
    let right : s * b * unit ≡ u * (a * b) = omega (arith, ap (λ (x : ℕ). x * b) h) in
    elim (Bool-cases (ltb w u)) [
      | inl below ↦
          let strict : w * (a * b) < u * (a * b) =
            mul-lt-mul_of_pos_right (ltb→lt w u below) (mul-pos pa pb) in
          rw below (ground (arith, left, right, strict))
      | inr above ↦
          let other : u * (a * b) ≤ w * (a * b) = mul-le-mul_right (a * b) (ground arith) in
          rw above (ground (arith, left, right, other))
    ]

-- The dearer of two prices.
abbrev pub max_units : ℕ → ℕ → ℕ
max_units u w = if ltb u w then w else u

rat_gt-units : (x y : Rat) (u w : ℕ) → IsValue x u unit → IsValue y w unit → rat_gt x y ≡ ltb w u
unfolding rat_gt
rat_gt-units x y u w a b =
    rw (a.num, b.num, *ℤ-pos b.top x.den, *ℤ-pos a.top y.den)
      (sub_negative (b.top * x.den) (a.top * y.den)
        ∙ scaled_lt a.top b.top x.den y.den u w a.den b.den a.cross b.cross)

maximum-IsValue :
    (p q p5 p1 : Text)
    → price p5 ≡ ok p
    → price p1 ≡ ok q
    → IsValue
        (rat_of (if rat_gt (rat_of q) (rat_of p) then q else p))
        (max_units (units p5) (units p1))
        unit
maximum-IsValue p q p5 p1 h5 h1 =
    let v5 = price-IsValue p5 p h5 in
    let v1 = price-IsValue p1 q h1 in
    rw (rat_gt-units (rat_of q) (rat_of p) (units p1) (units p5) v1 v5)
      (elim (Bool-cases (ltb (units p5) (units p1))) [
        | inl more ↦ rw more v1
        | inr less ↦ rw less v5
      ])

-- The charge where cache writes are priced by how long they live: without the breakdown all writes
-- are charged at the dearer price.
abbrev pub ttl_units : Bool → ℕ → ℕ → ℕ → ℕ → ℕ → ℕ → Text → Text → Text → Text → Text → ℕ
ttl_units true i c w w5 w1 o p0 p1 p2 p3 p4 =
    base_units (i - c - w) c p0 p1 + w5 * units p2 + w1 * units p3 + o * units p4
ttl_units false i c w w5 w1 o p0 p1 p2 p3 p4 =
    base_units (i - c - w) c p0 p1 + w * max_units (units p2) (units p3) + o * units p4

ttl-IsValue :
    (present : Bool) (i c w w5 w1 o : ℕ) (p0 p1 p2 p3 p4 q0 q1 q2 q3 q4 : Text)
    → price p0 ≡ ok q0
    → price p1 ≡ ok q1
    → price p2 ≡ ok q2
    → price p3 ≡ ok q3
    → price p4 ≡ ok q4
    → IsValue
        (rat_add
          (if present
            then rat_add
                (rat_add (rat_add (charge (i - c - w) q0) (charge c q1)) (charge w5 q2))
                (charge w1 q3)
            else rat_add
                (rat_add (charge (i - c - w) q0) (charge c q1))
                (charge w (if rat_gt (rat_of q3) (rat_of q2) then q3 else q2)))
          (charge o q4))
        (ttl_units present i c w w5 w1 o p0 p1 p2 p3 p4)
        unit
ttl-IsValue true i c w w5 w1 o p0 p1 p2 p3 p4 q0 q1 q2 q3 q4 h0 h1 h2 h3 h4 =
    with_charge-IsValue _ _ o p4 q4
      (with_charge-IsValue _ _ w1 p3 q3
        (with_charge-IsValue _ _ w5 p2 q2 (base-IsValue (i - c - w) c p0 p1 q0 q1 h0 h1) h2) h3)
      h4
ttl-IsValue false i c w w5 w1 o p0 p1 p2 p3 p4 q0 q1 q2 q3 q4 h0 h1 h2 h3 h4 =
    with_charge-IsValue _ _ o p4 q4
      (rat_add-IsValue _ _ _ _ unit (base-IsValue (i - c - w) c p0 p1 q0 q1 h0 h1)
        (charge-IsValue w _ _ (maximum-IsValue q2 q3 p2 p3 h2 h3)))
      h4

-- In an accepted cost with a price for each life of a cache write, cached tokens and writes are parts
-- of the input, the two kinds of writes add up to the writes where the breakdown is given, and the
-- cost is the exact sum of the charges times the multiplier, rounded half up once; without the
-- breakdown every write is charged at the dearer price.
pub calculate_cost_v2_ttl_with_multiplier-value :
    (i c w w5 w1 o : ℕ) (present : Bool) (p0 p1 p2 p3 p4 m s : Text)
    → calculate_cost_v2_ttl_with_multiplier
        (pos i)
        (pos c)
        (pos w)
        (pos w5)
        (pos w1)
        (pos o)
        present
        p0
        p1
        p2
        p3
        p4
        m
      ≡ ok s
    → (c + w ≤ i)
      × (w5 + w1 ≡ (if present then w else 0))
      × (rat_of s ≡ cost_of (ttl_units present i c w w5 w1 o p0 p1 p2 p3 p4) m)
unfolding calculate_cost_v2_ttl_with_multiplier
calculate_cost_v2_ttl_with_multiplier-value i c w w5 w1 o present p0 p1 p2 p3 p4 m s h =
    let (_, within, h1) = >>=-eq-ok (guard (leb c i && leb w (i - c)) _) _ h in
    let (_, split, h2) = >>=-eq-ok (guard (not present || leb w5 w && w1 == w - w5) _) _ h1 in
    let (_, observed, h3) = >>=-eq-ok (guard (present || w5 == 0 && w1 == 0) _) _ h2 in
    let (q0, ok0, h4) = >>=-eq-ok (price p0) _ h3 in
    let (q1, ok1, h5) = >>=-eq-ok (price p1) _ h4 in
    let (q2, ok2, h6) = >>=-eq-ok (price p2) _ h5 in
    let (q3, ok3, h7) = >>=-eq-ok (price p3) _ h6 in
    let (q4, ok4, h8) = >>=-eq-ok (price p4) _ h7 in
    (
      ground arith,
      ground arith,
      final-value _ _ m s
          (ttl-IsValue present i c w w5 w1 o p0 p1 p2 p3 p4 q0 q1 q2 q3 q4 ok0 ok1 ok2 ok3 ok4) h8,
    )

mix : (w5 w1 a b : ℕ) → w5 * a + w1 * b ≤ (w5 + w1) * max_units a b
mix w5 w1 a b = elim (Bool-cases (ltb a b)) [
  | inl below ↦ rw below (omega (arith, mul-le-mul_left {m = a} {n = b} w5 (ground arith)))
  | inr above ↦ rw above (omega (arith, mul-le-mul_left {m = b} {n = a} w1 (ground arith)))
]

div_le_div : (a b k : ℕ) → 0 < k → a ≤ b → a / k ≤ b / k
div_le_div a b k p h =
    let below : a / k * k ≤ a = (le-div_iff_mul-le {k = k} {x = a / k} {y = a} p).0 (omega arith) in
    (le-div_iff_mul-le {k = k} {x = a / k} {y = b} p).1 (omega (arith, below))

half_up-le : (x y e scale : ℕ) → 0 < e → x ≤ y → half_up x e scale ≤ half_up y e scale
half_up-le x y e scale p h =
    div_le_div _ _ (2 * e) (omega arith)
      (omega (arith, mul-le-mul_right {m = x} {n = y} (10 ^ scale) h))

not_greater :
    (x y e : ℕ) → 0 < e → x ≤ y → rat_gt (rounded_to_unit x e) (rounded_to_unit y e) ≡ false
unfolding rat_gt
not_greater x y e p h =
    let le : half_up x e amount_scale ≤ half_up y e amount_scale =
      half_up-le x y e amount_scale p h in
    rw (*ℤ-pos (half_up y e amount_scale) unit, *ℤ-pos (half_up x e amount_scale) unit)
      (sub_negative (half_up y e amount_scale * unit) (half_up x e amount_scale * unit)
        ∙ ground (arith, le))

-- The charge without the breakdown of the cache writes is never below the charge with it, whatever
-- the breakdown was: what the provider leaves out does not make a request cheaper.
pub missing_ttl-conservative :
    (i c w w5 w1 o : ℕ) (p0 p1 p2 p3 p4 m s t : Text)
    → calculate_cost_v2_ttl_with_multiplier
        (pos i)
        (pos c)
        (pos w)
        (pos w5)
        (pos w1)
        (pos o)
        true
        p0
        p1
        p2
        p3
        p4
        m
      ≡ ok s
    → calculate_cost_v2_ttl_with_multiplier
        (pos i)
        (pos c)
        (pos w)
        (pos 0)
        (pos 0)
        (pos o)
        false
        p0
        p1
        p2
        p3
        p4
        m
      ≡ ok t
    → rat_gt (rat_of s) (rat_of t) ≡ false
missing_ttl-conservative i c w w5 w1 o p0 p1 p2 p3 p4 m s t h k =
    let (_, parts, value) =
      calculate_cost_v2_ttl_with_multiplier-value i c w w5 w1 o true p0 p1 p2 p3 p4 m s h in
    let (_, _, bound) =
      calculate_cost_v2_ttl_with_multiplier-value i c w 0 0 o false p0 p1 p2 p3 p4 m t k in
    let le : ttl_units true i c w w5 w1 o p0 p1 p2 p3 p4
        ≤ ttl_units false i c w 0 0 o p0 p1 p2 p3 p4 =
      omega (
        arith,
        mix w5 w1 (units p2) (units p3),
        ap (λ (n : ℕ). n * max_units (units p2) (units p3)) parts,
      ) in
    rw (value, bound) (not_greater _ _ _ (omega arith) (mul-le-mul_right (units m) le))
