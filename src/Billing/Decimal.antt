-- ===== src/Billing/Decimal.antt =====
-- The parser of internal/billing/amount.go: `parseBounded` and its callers. A string is the list of
-- its code points; what `len` counts there are ASCII digits.
pub mod Laws
pub mod Value
pub mod Matched
pub mod Canonical
use codex_gateway.Base.{
  ℕ, zero, suc, ◌+◌, ◌-◌, ◌*◌, ◌^◌, ◌≡◌, refl, Bool, true, false, not, ◌||◌, ◌&&◌, Option, none,
  some, List, [], ◌∷◌, ◌++◌, ◌==◌, ltb, leb, if◌then◌else◌, Result, ok, err, ◌>>=◌, ◌>>◌, guard,
  length, all, Text, codes,
}

-- AmountScale, InputScale, RateScale, maxIntegerDigits.
abbrev pub amount_scale : ℕ
amount_scale = 12

abbrev pub input_scale : ℕ
input_scale = 6

abbrev pub rate_scale : ℕ
rate_scale = 12

abbrev pub max_integer_digits : ℕ
max_integer_digits = 18

-- The errors, all of which wrap ErrInvalidDecimal, by the message around it.
pub data Error : Type 0 where
  invalid_decimal invalid_amount invalid_rate invalid_token_counts invalid_price : Error
  invalid_cache_write_mode invalid_cache_write_counts invalid_ttl_totals : Error
  unobserved_ttl_counts invalid_multiplier exceeds_numeric : Error

unfoldable pub is_digit : ℕ → Bool
is_digit c = leb b'0' c && leb c b'9'

unfoldable pub text_eq : Text → Text → Bool
text_eq [] [] = true
text_eq [] (y ∷ ys) = false
text_eq (x ∷ xs) [] = false
text_eq (x ∷ xs) (y ∷ ys) = x == y && text_eq xs ys

-- unicode.IsSpace.
unfoldable pub is_space : ℕ → Bool
is_space c =
    leb 9 c && leb c 13
    || c == 0x20
    || c == 0x85
    || c == 0xa0
    || c == 0x1680
    || leb 0x2000 c && leb c 0x200a
    || c == 0x2028
    || c == 0x2029
    || c == 0x202f
    || c == 0x205f
    || c == 0x3000

-- Cutting what satisfies a test off the left or the right end.
unfoldable pub trim_left : (ℕ → Bool) → Text → Text
trim_left p [] = []
trim_left p (c ∷ s) = let rest = trim_left p s in if p c then rest else c ∷ s

keep : (ℕ → Bool) → ℕ → Text → Text
keep p c [] = if p c then [] else c ∷ []
keep p c (d ∷ s) = c ∷ d ∷ s

unfoldable pub trim_right : (ℕ → Bool) → Text → Text
unfolding keep
trim_right p [] = []
trim_right p (c ∷ s) = keep p c (trim_right p s)

unfoldable pub trim_space : Text → Text
unfolding trim_left trim_right is_space
trim_space s = trim_right is_space (trim_left is_space s)

abbrev pub is_zero : ℕ → Bool
is_zero c = c == b'0'

-- The longest run of digits at the front, and the rest.
cons_digit : ℕ → Text × Text → Text × Text
cons_digit c (digits, rest) = (c ∷ digits, rest)

unfoldable pub span_digits : Text → Text × Text
unfolding cons_digit is_digit
span_digits [] = ([], [])
span_digits (c ∷ s) =
    let rest = span_digits s in if is_digit c then cons_digit c rest else ([], c ∷ s)

-- The first group of the pattern, `0|[1-9][0-9]*`, of a run of digits.
unfoldable pub is_integer : Text → Bool
is_integer [] = false
is_integer (c ∷ []) = true
is_integer (c ∷ d ∷ s) = not (c == b'0')

-- The second group, `(?:\.([0-9]+))?` up to the end: the text of the group, empty where it is absent.
unfoldable pub match_fraction : Text → Option Text
unfolding is_digit
match_fraction [] = some []
match_fraction (c ∷ []) = none
match_fraction (c ∷ d ∷ s) = if c == b'.' && all is_digit (d ∷ s) then some (d ∷ s) else none

match_groups : Text × Text → Option (Text × Text)
unfolding is_integer match_fraction
match_groups (integer, rest) = elim (match_fraction rest) [
  | none ↦ none
  | some fraction ↦ if is_integer integer then some (integer, fraction) else none
]

-- `decimalPattern.FindStringSubmatch`: the two groups of ^(0|[1-9][0-9]*)(?:\.([0-9]+))?$.
unfoldable pub match_decimal : Text → Option (Text × Text)
unfolding match_groups span_digits
match_decimal s = match_groups (span_digits s)

-- The sign and what follows it; none where a sign stands that is not allowed.
unfoldable pub split_sign : Bool → Text → Option (Bool × Text)
split_sign signed [] = some (false, [])
split_sign signed (c ∷ s) =
    if c == b'-'
    then if signed then some (true, s) else none
    else if c == b'+'
    then if signed then some (false, s) else none
    else some (false, c ∷ s)

unfoldable pub or_zero : Text → Text
or_zero [] = b'0' ∷ []
or_zero (c ∷ s) = c ∷ s

unfoldable pub with_fraction : Text → Text → Text
with_fraction integer [] = integer
with_fraction integer (c ∷ s) = integer ++ b'.' ∷ c ∷ s

-- The canonical digits of the two groups.
unfoldable pub canonical : Text → Text → Text
unfolding or_zero with_fraction trim_left trim_right
canonical integer fraction =
    with_fraction (or_zero (trim_left is_zero integer)) (trim_right is_zero fraction)

pub finish : Bool → Bool → Text → Result Error Text
unfolding text_eq
finish negative allow_zero s =
    if text_eq s (b'0' ∷ [])
    then if allow_zero then ok s else err invalid_decimal
    else ok (if negative then b'-' ∷ s else s)

bounded_groups : ℕ → Bool → Bool → Option (Text × Text) → Result Error Text
unfolding canonical finish
bounded_groups scale negative allow_zero none = err invalid_decimal
bounded_groups scale negative allow_zero (some (integer, fraction)) =
    if ltb max_integer_digits (length integer) || ltb scale (length fraction)
    then err invalid_decimal
    else finish negative allow_zero (canonical integer fraction)

bounded_sign : ℕ → Bool → Option (Bool × Text) → Result Error Text
unfolding match_decimal bounded_groups
bounded_sign scale allow_zero none = err invalid_decimal
bounded_sign scale allow_zero (some (negative, unsigned)) =
    bounded_groups scale negative allow_zero (match_decimal unsigned)

unfoldable pub parse_bounded : Text → ℕ → Bool → Bool → Result Error Text
unfolding trim_space text_eq split_sign bounded_sign
parse_bounded value scale signed allow_zero =
    if text_eq value [] || not (text_eq (trim_space value) value)
    then err invalid_decimal
    else bounded_sign scale allow_zero (split_sign signed value)

unfoldable pub parse_input : Text → Bool → Bool → Result Error Text
unfolding parse_bounded
parse_input value signed allow_zero = parse_bounded value input_scale signed allow_zero

unfoldable pub parse_rate : Text → Result Error Text
unfolding parse_bounded
parse_rate value = parse_bounded value rate_scale false false

unfoldable pub parse_multiplier : Text → Result Error Text
unfolding parse_bounded
parse_multiplier value = parse_bounded value amount_scale false false

unfoldable pub parse_price : Text → Result Error Text
unfolding parse_bounded
parse_price value = parse_bounded value amount_scale false true
