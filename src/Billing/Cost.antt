-- ===== src/Billing/Cost.antt =====
-- The charges of internal/billing/amount.go. Token counts are int64, so the differences that the
-- code takes after its checks do not overflow.
pub mod Exact
pub mod Comparison
use codex_gateway.Base.{
  ℕ, ◌+◌, ◌-◌, ◌^◌, ◌≡◌, refl, String, str_eq, Bool, true, false, not, ◌||◌, ◌&&◌, ◌==◌, leb,
  if◌then◌else◌, Result, ok, err, ◌>>=◌, ◌>>◌, guard, or_fail, Text, codes,
}
use codex_gateway.Base.Int.{ℤ, pos, to_ℕ}
use codex_gateway.Billing.Decimal.{
  Error, invalid_amount, invalid_rate, invalid_token_counts, invalid_price,
  invalid_cache_write_mode, invalid_cache_write_counts, invalid_ttl_totals, unobserved_ttl_counts,
  invalid_multiplier, parse_input, parse_rate, parse_price, parse_multiplier,
}
use codex_gateway.Billing.Rounding.{
  Rat, rat_of, rat_mul, rat_add, rat_int, rat_quo, rat_gt, round_amount,
}

-- `fmt.Errorf("…: %w", err)`.
abbrev pub wrap : Error → Result Error Text → Result Error Text
wrap e (ok s) = ok s
wrap e (err _) = err e

-- `MultiplyToAmount`.
unfoldable pub multiply_to_amount : Text → Text → Result Error Text
multiply_to_amount left right = do
  l ← wrap invalid_amount (parse_input left false false)
  r ← wrap invalid_rate (parse_rate right)
  round_amount (rat_mul (rat_of l) (rat_of r))

-- `multiplyCostAndRound`.
unfoldable pub multiply_cost_and_round : Rat → Text → Result Error Text
multiply_cost_and_round total multiplier = do
  canonical ← wrap invalid_multiplier (parse_multiplier multiplier)
  round_amount (rat_mul total (rat_of canonical))

-- One round of the loop that parses the prices.
unfoldable pub price : Text → Result Error Text
price value = wrap invalid_price (parse_price value)

-- `n` tokens at a price.
unfoldable pub charge : ℕ → Text → Rat
charge n p = rat_mul (rat_int n) (rat_of p)

abbrev pub million : ℕ
million = 1_000_000

-- A count that must not be negative.
abbrev pub tokens : ℤ → Result Error ℕ
tokens n = or_fail (to_ℕ n) invalid_token_counts

unfoldable pub calculate_cost_with_multiplier :
    ℤ → ℤ → ℤ → Text → Text → Text → Text → Result Error Text
calculate_cost_with_multiplier input_tokens cached_tokens output_tokens input_price cached_price
      output_price multiplier =
    do
      input ← tokens input_tokens
      cached ← tokens cached_tokens
      output ← tokens output_tokens
      guard (leb cached input) invalid_token_counts
      p0 ← price input_price
      p1 ← price cached_price
      p2 ← price output_price
      let total =
          rat_add (rat_add (charge (input - cached) p0) (charge cached p1)) (charge output p2)
      multiply_cost_and_round (rat_quo total million) multiplier

unfoldable pub calculate_cost : ℤ → ℤ → ℤ → Text → Text → Text → Result Error Text
unfolding calculate_cost_with_multiplier
calculate_cost input_tokens cached_tokens output_tokens input_price cached_price output_price =
    calculate_cost_with_multiplier input_tokens cached_tokens output_tokens input_price cached_price
      output_price (codes "1")

unfoldable pub calculate_cost_v2_with_multiplier :
    ℤ → ℤ → ℤ → ℤ → String → Text → Text → Text → Text → Text → Result Error Text
calculate_cost_v2_with_multiplier input_tokens cached_tokens write_tokens output_tokens mode
      input_price cached_price write_price output_price multiplier =
    do
      input ← tokens input_tokens
      cached ← tokens cached_tokens
      write ← tokens write_tokens
      output ← tokens output_tokens
      guard (leb cached input) invalid_token_counts
      let separate = str_eq mode "separate"
      guard (separate || str_eq mode "included_in_input") invalid_cache_write_mode
      guard (not separate || leb write (input - cached)) invalid_cache_write_counts
      p0 ← price input_price
      p1 ← price cached_price
      p2 ← price write_price
      p3 ← price output_price
      let ordinary = if separate then input - cached - write else input - cached
      let read = rat_add (charge ordinary p0) (charge cached p1)
      let written = if separate then rat_add read (charge write p2) else read
      multiply_cost_and_round (rat_quo (rat_add written (charge output p3)) million) multiplier

unfoldable pub calculate_cost_v2 :
    ℤ → ℤ → ℤ → ℤ → String → Text → Text → Text → Text → Result Error Text
unfolding calculate_cost_v2_with_multiplier
calculate_cost_v2 input_tokens cached_tokens write_tokens output_tokens mode input_price
      cached_price write_price output_price =
    calculate_cost_v2_with_multiplier input_tokens cached_tokens write_tokens output_tokens mode
      input_price cached_price write_price output_price (codes "1")

unfoldable pub calculate_cost_v2_ttl_with_multiplier :
    ℤ → ℤ → ℤ → ℤ → ℤ → ℤ → Bool → Text → Text → Text → Text → Text → Text → Result Error Text
calculate_cost_v2_ttl_with_multiplier input_tokens cached_tokens write_tokens write_5m_tokens
      write_1h_tokens output_tokens ttl_present input_price cached_price write_5m_price
      write_1h_price output_price multiplier =
    do
      input ← tokens input_tokens
      cached ← tokens cached_tokens
      write ← tokens write_tokens
      write_5m ← tokens write_5m_tokens
      write_1h ← tokens write_1h_tokens
      output ← tokens output_tokens
      guard (leb cached input && leb write (input - cached)) invalid_token_counts
      guard (not ttl_present || leb write_5m write && write_1h == write - write_5m)
          invalid_ttl_totals
      guard (ttl_present || write_5m == 0 && write_1h == 0) unobserved_ttl_counts
      p0 ← price input_price
      p1 ← price cached_price
      p2 ← price write_5m_price
      p3 ← price write_1h_price
      p4 ← price output_price
      let read = rat_add (charge (input - cached - write) p0) (charge cached p1)
      let maximum = if rat_gt (rat_of p3) (rat_of p2) then p3 else p2
      let written =
          if ttl_present
          then rat_add (rat_add read (charge write_5m p2)) (charge write_1h p3)
          else rat_add read (charge write maximum)
      multiply_cost_and_round (rat_quo (rat_add written (charge output p4)) million) multiplier
