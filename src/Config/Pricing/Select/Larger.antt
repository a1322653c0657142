-- ===== src/Config/Pricing/Select/Larger.antt =====
-- Lemmas on `maxDecimal`, which compares padded texts.
use codex_gateway.Base.{
  ℕ, zero, suc, ◌-◌, ◌*◌, ◌^◌, ◌≤◌, ◌≡◌, sym, ap, ◌∙◌, Bool, true, false, ◌++◌, if◌then◌else◌, ok,
  length, replicate, Text, arith, All, All-append, inl, inr, ◌⊎◌, length-append, length-replicate,
}
use codex_gateway.Billing.Decimal.{parse_price, amount_scale}
use codex_gateway.Billing.Decimal.Value.{units}
use codex_gateway.Billing.Decimal.Canonical.{
  parse_bounded-Accepted, parse_bounded-canonical, units-canonical, split_dot-canonical,
}
use codex_gateway.Billing.Rounding.{split_dot}
use codex_gateway.Billing.Rounding.Digits.{IsDigit, read_digits, read_from, read_from-append}
use codex_gateway.Billing.Rounding.Laws.{read_zeros}
use codex_gateway.Limit.Daily.{text_lt}
use codex_gateway.Config.Pricing.Select.{max_decimal, parts, pad_left, pad_right}
use codex_gateway.Config.Pricing.Select.Order.{
  Ordered, filled, filled_lem, filled-IsLow, length-filled, read-filled, SameOrder-filled,
  SameOrder-append,
}

zeros-IsDigit : (n : ℕ) → All IsDigit (replicate n b'0')
zeros-IsDigit zero = tt
zeros-IsDigit (suc n) = ((omega arith, omega arith), zeros-IsDigit n)

pad_left-IsDigit : (s : Text) → All IsDigit s → All IsDigit (pad_left s)
unfolding pad_left
pad_left-IsDigit s h =
    All-append IsDigit (replicate (18 - length s) b'0') s (zeros-IsDigit (18 - length s)) h

length-pad_left : (s : Text) → length s ≤ 18 → length (pad_left s) ≡ 18
unfolding pad_left
length-pad_left s h = omega (
  arith,
  length-append (replicate (18 - length s) b'0') s,
  length-replicate {A = ℕ} (18 - length s) b'0',
)

parts_lem :
    (c integer part : Text)
    → split_dot c ≡ (integer, part)
    → length part ≤ 12
    → parts c ≡ pad_left integer ++ filled 12 part
unfolding parts pad_right
parts_lem c integer part split h =
    rw split (ap (λ (t : Text). pad_left integer ++ t) (filled_lem 12 part h))

read_padded :
    (integer part : Text)
    → length part ≤ 12
    → read_from 0 (pad_left integer ++ filled 12 part)
      ≡ read_digits (integer ++ part) * 10 ^ (12 - length part)
unfolding pad_left read_digits
read_padded integer part h =
    let scale = 10 ^ (12 - length part) in
    read_from-append 0 (pad_left integer) (filled 12 part)
    ∙ read-filled (read_from 0 (pad_left integer)) 12 part h
    ∙ ap (λ (n : ℕ). read_from n part * scale) (read_zeros (18 - length integer) integer)
    ∙ ap (λ (n : ℕ). n * scale) (sym (read_from-append 0 integer part))

-- What the comparison uses of an accepted price: its padded text, read as a number.
record Padded (v c : Text) : Type 0 where
  left : Text
  right : Text
  digits : All IsDigit left
  part : All IsDigit right
  long : length left ≡ 18
  fits : length right ≤ 12
  text : parts c ≡ left ++ filled 12 right
  value : read_from 0 (left ++ filled 12 right) ≡ units v

parse_price-Padded : (v c : Text) → parse_price v ≡ ok c → Padded v c
unfolding parse_price
parse_price-Padded v c h =
    let a = parse_bounded-Accepted v c amount_scale true h in
    record {
      left = pad_left a.integer;
      right = a.part;
      digits = pad_left-IsDigit a.integer a.matched.digits;
      part = a.matched.part;
      long = length-pad_left a.integer a.short;
      fits = a.fits;
      text = parts_lem c a.integer a.part (split_dot-canonical v c amount_scale true h) a.fits;
      value = read_padded a.integer a.part a.fits ∙ a.value (omega arith);
    }

parts-Ordered :
    (v c w d : Text)
    → Padded v c
    → Padded w d
    → Ordered (text_lt (parts c) (parts d)) (units v) (units w)
parts-Ordered v c w d p q =
    let order =
      SameOrder-append 0 p.left q.left (filled 12 p.right) (filled 12 q.right) p.digits q.digits
        (p.long ∙ sym q.long) (filled-IsLow 12 p.right p.part) (filled-IsLow 12 q.right q.part)
        (length-filled 12 p.right p.fits ∙ sym (length-filled 12 q.right q.fits))
        (λ n. SameOrder-filled n 12 p.right q.right p.part q.part p.fits q.fits) in
    rw (p.text, q.text, sym p.value, sym q.value) order

-- What `maxDecimal` returns of two accepted prices.
pub record Larger (left right m : Text) : Type 0 where
  pub accepted : parse_price m ≡ ok m
  pub either : (parse_price left ≡ ok m) ⊎ (parse_price right ≡ ok m)
  pub not_left : units left ≤ units m
  pub not_right : units right ≤ units m

larger :
    (b : Bool) (l r c d : Text)
    → parse_price l ≡ ok c
    → parse_price r ≡ ok d
    → Ordered b (units l) (units r)
    → Larger l r (if b then d else c)
unfolding parse_price
larger true l r c d hl hr order =
    let same = units-canonical r d amount_scale true (omega arith) hr in
    record {
      accepted = parse_bounded-canonical r d amount_scale true hr;
      either = inr hr;
      not_left = omega (arith, same, order);
      not_right = omega (arith, same);
    }
larger false l r c d hl hr order =
    let same = units-canonical l c amount_scale true (omega arith) hl in
    record {
      accepted = parse_bounded-canonical l c amount_scale true hl;
      either = inl hl;
      not_left = omega (arith, same);
      not_right = omega (arith, same, order);
    }

-- Of two accepted prices, maxDecimal returns the canonical text of one, which is accepted in turn and
-- whose amount is not below either amount.
pub max_decimal-Larger :
    (l r c d : Text) → parse_price l ≡ ok c → parse_price r ≡ ok d → Larger l r (max_decimal l r)
unfolding max_decimal
max_decimal-Larger l r c d hl hr =
    rw (hl, hr)
      (larger (text_lt (parts c) (parts d)) l r c d hl hr
        (parts-Ordered l c r d (parse_price-Padded l c hl) (parse_price-Padded r d hr)))
