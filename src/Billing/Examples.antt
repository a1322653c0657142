-- ===== src/Billing/Examples.antt =====
-- Runs of internal/billing/amount.go, and its theorems at concrete amounts.
use codex_gateway.Base.{
  ℕ, ◌+◌, ◌-◌, ◌*◌, ◌^◌, ◌≤◌, ◌≡◌, refl, Bool, true, false, not, ◌||◌, leb, str_eq, Result, ok, err,
  Text, codes, arith,
}
use codex_gateway.Base.Int.{pos, negsuc, ◌*ℤ◌, ◌+ℤ◌, ◌-ℤ◌}
use codex_gateway.Billing.Decimal.{
  Error, invalid_decimal, invalid_token_counts, parse_price, parse_rate, parse_input,
  parse_multiplier, parse_bounded, amount_scale,
}
use codex_gateway.Billing.Decimal.Value.{IsValue, units, parse_bounded-IsValue}
use codex_gateway.Billing.Decimal.Canonical.{parse_bounded-canonical}
use codex_gateway.Billing.Rounding.{
  rat_of, rat_mul, rat_int, rat_add, rat_quo, rat_gt, round_amount, round_quotient,
  scaled_integer_string,
}
use codex_gateway.Billing.Rounding.Laws.{
  half_up, half_up-eq, round_quotient-half_up, rat_of-scaled_integer_string,
}
use codex_gateway.Billing.Cost.{
  price, charge, multiply_cost_and_round, calculate_cost, calculate_cost_with_multiplier,
  calculate_cost_v2_with_multiplier, calculate_cost_v2_ttl_with_multiplier,
}
use codex_gateway.Billing.Cost.Exact.{cost_of, base_units, calculate_cost_with_multiplier-value}
use codex_gateway.Billing.Cost.Comparison.{
  v2_units, ttl_units, calculate_cost_v2_with_multiplier-value,
  calculate_cost_v2_ttl_with_multiplier-value, missing_ttl-conservative,
}

parsed :
    (parse_price (codes "12.50") ≡ ok (codes "12.5"))
    × (parse_price (codes "0.000") ≡ ok (codes "0"))
    × (parse_price (codes "01") ≡ err invalid_decimal)
    × (parse_price (codes " 1") ≡ err invalid_decimal)
    × (parse_rate (codes "0") ≡ err invalid_decimal)
    × (parse_input (codes "-3.10") true false ≡ ok (codes "-3.1"))
    × (parse_input (codes "1.2345678") true false ≡ err invalid_decimal)
unfolding parse_price parse_rate parse_input
parsed = (refl, refl, refl, refl, refl, refl, refl)

rounded :
    (round_amount (record { num = pos 1; den = 3 }) ≡ ok (codes "0.333333333333"))
    × (round_amount (record { num = negsuc 4; den = 10 ^ 13 }) ≡ ok (codes "-0.000000000001"))
    × (round_amount (rat_of (codes "12.5")) ≡ ok (codes "12.500000000000"))
unfolding round_amount rat_of
rounded = (refl, refl, refl)

cheap :
    calculate_cost_with_multiplier
      (pos 1000)
      (pos 400)
      (pos 50)
      (codes "1.25")
      (codes "0.125")
      (codes "10")
      (codes "1")
    ≡ ok (codes "0.001300000000")
unfolding calculate_cost_with_multiplier multiply_cost_and_round price parse_price parse_multiplier
    charge rat_mul rat_int rat_of rat_add rat_quo round_amount ◌*ℤ◌ ◌+ℤ◌
cheap = refl

miscounted :
    calculate_cost (pos 1) (pos 2) (pos 0) (codes "1") (codes "1") (codes "1")
    ≡ err invalid_token_counts
unfolding calculate_cost
miscounted = refl

separate :
    calculate_cost_v2_with_multiplier
      (pos 1000)
      (pos 400)
      (pos 100)
      (pos 50)
      "separate"
      (codes "1.25")
      (codes "0.125")
      (codes "2")
      (codes "10")
      (codes "1.5")
    ≡ ok (codes "0.002062500000")
unfolding calculate_cost_v2_with_multiplier multiply_cost_and_round price parse_price
    parse_multiplier charge rat_mul rat_int rat_of rat_add rat_quo round_amount ◌*ℤ◌ ◌+ℤ◌
separate = refl

abbrev ttl : ℕ → ℕ → Bool → Result Error Text
ttl w5 w1 present =
    calculate_cost_v2_ttl_with_multiplier (pos 1000) (pos 400) (pos 100) (pos w5) (pos w1) (pos 50)
      present (codes "1.25") (codes "0.125") (codes "2") (codes "4") (codes "10") (codes "1")

with_ttl : ttl 60 40 true ≡ ok (codes "0.001455000000")
unfolding calculate_cost_v2_ttl_with_multiplier multiply_cost_and_round price parse_price
    parse_multiplier charge rat_mul rat_int rat_of rat_add rat_quo round_amount rat_gt ◌*ℤ◌ ◌+ℤ◌
with_ttl = refl

without_ttl : ttl 0 0 false ≡ ok (codes "0.001575000000")
unfolding calculate_cost_v2_ttl_with_multiplier multiply_cost_and_round price parse_price
    parse_multiplier charge rat_mul rat_int rat_of rat_add rat_quo round_amount rat_gt ◌*ℤ◌ ◌+ℤ◌
    ◌-ℤ◌
without_ttl = refl

twelve_fifty : parse_bounded (codes "12.50") amount_scale false true ≡ ok (codes "12.5")
unfolding parse_bounded
twelve_fifty = refl

parse_bounded-IsValue_example :
    IsValue (rat_of (codes "12.5")) (units (codes "12.50")) (10 ^ amount_scale)
parse_bounded-IsValue_example =
    parse_bounded-IsValue (codes "12.50") (codes "12.5") amount_scale true (omega arith)
      twelve_fifty

round_quotient-half_up_example :
    round_quotient (record { num = pos 5; den = 2 }) 0 ≡ pos (half_up 5 2 0)
round_quotient-half_up_example = round_quotient-half_up 5 2 0 (omega arith)

half_up-eq_example : half_up 5 2 3 ≡ half_up 10 4 3
half_up-eq_example = half_up-eq 5 2 10 4 3 (omega arith) (omega arith) refl

rat_of-scaled_integer_string_example :
    rat_of (scaled_integer_string (pos 1250) 3) ≡ record { num = pos 1250; den = 10 ^ 3 }
rat_of-scaled_integer_string_example = rat_of-scaled_integer_string 1250 3

calculate_cost_with_multiplier-value_example :
    (400 ≤ 1000)
    × (rat_of (codes "0.001300000000")
        ≡ cost_of
            (base_units (1000 - 400) 400 (codes "1.25") (codes "0.125") + 50 * units (codes "10"))
            (codes "1"))
calculate_cost_with_multiplier-value_example =
    calculate_cost_with_multiplier-value 1000 400 50 (codes "1.25") (codes "0.125") (codes "10")
      (codes "1") (codes "0.001300000000") cheap

calculate_cost_v2_with_multiplier-value_example :
    (400 ≤ 1000)
    × ((not (str_eq "separate" "separate") || leb 100 (1000 - 400)) ≡ true)
    × (rat_of (codes "0.002062500000")
        ≡ cost_of
            (v2_units
              (str_eq "separate" "separate")
              1000
              400
              100
              50
              (codes "1.25")
              (codes "0.125")
              (codes "2")
              (codes "10"))
            (codes "1.5"))
calculate_cost_v2_with_multiplier-value_example =
    calculate_cost_v2_with_multiplier-value 1000 400 100 50 "separate" (codes "1.25")
      (codes "0.125") (codes "2") (codes "10") (codes "1.5") (codes "0.002062500000") separate

calculate_cost_v2_ttl_with_multiplier-value_example :
    (400 + 100 ≤ 1000)
    × (60 + 40 ≡ 100)
    × (rat_of (codes "0.001455000000")
        ≡ cost_of
            (ttl_units true 1000 400 100 60 40 50
              (codes "1.25")
              (codes "0.125")
              (codes "2")
              (codes "4")
              (codes "10"))
            (codes "1"))
calculate_cost_v2_ttl_with_multiplier-value_example =
    calculate_cost_v2_ttl_with_multiplier-value 1000 400 100 60 40 50 true (codes "1.25")
      (codes "0.125") (codes "2") (codes "4") (codes "10") (codes "1") (codes "0.001455000000")
      with_ttl

missing_ttl-conservative_example :
    rat_gt (rat_of (codes "0.001455000000")) (rat_of (codes "0.001575000000")) ≡ false
missing_ttl-conservative_example =
    missing_ttl-conservative 1000 400 100 60 40 50 (codes "1.25") (codes "0.125") (codes "2")
      (codes "4") (codes "10") (codes "1") (codes "0.001455000000") (codes "0.001575000000")
      with_ttl without_ttl

parse_bounded-canonical_example : parse_bounded (codes "1.5") 12 false true ≡ ok (codes "1.5")
parse_bounded-canonical_example =
    parse_bounded-canonical (codes "1.5000") (codes "1.5") 12 true (unfold parse_bounded in refl)
