-- ===== src/Billing/Rounding.antt =====
-- Rationals, rounding and printing of internal/billing/amount.go.
-- A big.Rat is a fraction that need not be in lowest terms; `round_fixed` gives the same on every
-- fraction of one value.
pub mod Digits
pub mod Laws
use codex_gateway.Base.{
  ℕ, zero, suc, ◌+◌, ◌-◌, ◌*◌, ◌/◌, ◌%◌, ◌^◌, ◌≤◌, ◌<◌, ◌≡◌, refl, Bool, true, false, ◌||◌, ◌&&◌,
  Option, none, some, List, [], ◌∷◌, ◌++◌, ◌==◌, ltb, leb, if◌then◌else◌, Result, ok, err, length,
  take, drop, replicate, Text, codes,
}
use codex_gateway.Base.Int.{ℤ, pos, negsuc, ◌+ℤ◌, ◌-ℤ◌, ◌*ℤ◌, is_negative, abs}
use codex_gateway.Billing.Decimal.{Error, exceeds_numeric, amount_scale, parse_bounded}
unfoldable use Digits.{decimal, read_digits}

-- big.Rat: a numerator over a positive denominator.
pub record Rat : Type 0 where
  pub num : ℤ
  pub den : ℕ

-- The parts of a text before and after its first dot.
cons_left : ℕ → Text × Text → Text × Text
cons_left c (left, right) = (c ∷ left, right)

unfoldable pub split_dot : Text → Text × Text
unfolding cons_left
split_dot [] = ([], [])
split_dot (c ∷ s) = let rest = split_dot s in if c == b'.' then ([], s) else cons_left c rest

-- -n.
abbrev pub negate : ℕ → ℤ
negate zero = pos 0
negate (suc n) = negsuc n

unsigned_rat : Text × Text → ℕ × ℕ
unfolding read_digits
unsigned_rat (integer, fraction) = (read_digits (integer ++ fraction), 10 ^ length fraction)

positive_rat : ℕ × ℕ → Rat
positive_rat (n, d) = record { num = pos n; den = d }

negative_rat : ℕ × ℕ → Rat
negative_rat (n, d) = record { num = negate n; den = d }

-- `new(big.Rat).SetString` on a canonical decimal.
unfoldable pub rat_of : Text → Rat
unfolding split_dot unsigned_rat positive_rat negative_rat
rat_of [] = positive_rat (unsigned_rat ([], []))
rat_of (c ∷ s) =
    if c == b'-'
    then negative_rat (unsigned_rat (split_dot s))
    else positive_rat (unsigned_rat (split_dot (c ∷ s)))

unfoldable pub rat_mul : Rat → Rat → Rat
rat_mul a b = record { num = a.num *ℤ b.num; den = a.den * b.den }

unfoldable pub rat_add : Rat → Rat → Rat
rat_add a b = record { num = a.num *ℤ pos b.den +ℤ b.num *ℤ pos a.den; den = a.den * b.den }

-- big.NewRat(n, 1), and the quotient by a whole number.
unfoldable pub rat_int : ℕ → Rat
rat_int n = record { num = pos n; den = 1 }

unfoldable pub rat_quo : Rat → ℕ → Rat
rat_quo a n = record { num = a.num; den = a.den * n }

-- `a.Cmp(b) > 0`.
unfoldable pub rat_gt : Rat → Rat → Bool
rat_gt a b = is_negative (b.num *ℤ pos a.den -ℤ a.num *ℤ pos b.den)

-- `roundFixed` up to its printing: QuoRem, which truncates, and a step away from zero where twice
-- the remainder reaches the denominator.
unfoldable pub round_quotient : Rat → ℕ → ℤ
round_quotient v scale =
    let scaled = abs v.num * 10 ^ scale in
    let quotient = scaled / v.den in
    let remainder = scaled % v.den in
    let away =
      if remainder == 0
      then quotient
      else if leb v.den (2 * remainder)
      then quotient + 1
      else quotient in
    if is_negative v.num then negate away else pos away

-- `scaledIntegerString`.
pad : ℕ → Text → Text
pad scale digits =
    if leb (length digits) scale
    then replicate (scale - length digits + 1) b'0' ++ digits
    else digits

insert_dot : ℕ → Text → Text
insert_dot scale digits =
    take (length digits - scale) digits ++ b'.' ∷ drop (length digits - scale) digits

unfoldable pub scaled_integer_string : ℤ → ℕ → Text
unfolding pad insert_dot decimal
scaled_integer_string value scale =
    let formatted = insert_dot scale (pad scale (decimal (abs value))) in
    if is_negative value then b'-' ∷ formatted else formatted

unfoldable pub round_fixed : Rat → ℕ → Text
unfolding round_quotient scaled_integer_string
round_fixed v scale = scaled_integer_string (round_quotient v scale) scale

unfoldable pub round_amount : Rat → Result Error Text
unfolding round_fixed parse_bounded
round_amount v =
    let result = round_fixed v amount_scale in
    elim (parse_bounded result amount_scale true true) [
      | ok s ↦ ok result
      | err e ↦ err exceeds_numeric
    ]
