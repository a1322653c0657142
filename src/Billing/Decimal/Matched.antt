-- ===== src/Billing/Decimal/Matched.antt =====
-- Lemmas on what matches the pattern of an amount.
use codex_gateway.Base.{
  ℕ, ◌≡◌, refl, ap, true, some, [], ◌∷◌, ◌++◌, all, Text, arith, All, inl, inr, Bool-cases,
}
use codex_gateway.Billing.Decimal.{
  is_digit, trim_left, is_zero, span_digits, cons_digit, is_integer, match_fraction, match_groups,
  match_decimal, or_zero, with_fraction,
}
use codex_gateway.Billing.Decimal.Laws.{span_digits_lem, all-IsDigit}
use codex_gateway.Billing.Rounding.Digits.{IsDigit}

-- The integer of a match has no zero to cut.
pub integer-trim : (s : Text) → is_integer s ≡ true → or_zero (trim_left is_zero s) ≡ s
unfolding is_integer or_zero trim_left
integer-trim [] h = cc
integer-trim (c ∷ []) h = elim (Bool-cases (is_zero c)) [
  | inl e ↦ rw e (ap (λ (n : ℕ). n ∷ []) {x = b'0'} (ground arith))
  | inr e ↦ rw e refl
]
integer-trim (c ∷ d ∷ s) h = elim (Bool-cases (is_zero c)) [
  | inl e ↦ absurd (ground arith)
  | inr e ↦ rw e refl
]

-- What a match says of the parts of the text.
pub record Matched (integer fraction : Text) : Type 0 where
  pub whole : is_integer integer ≡ true
  pub digits : All IsDigit integer
  pub part : All IsDigit fraction

match_groups-Matched :
    (digits rest integer fraction : Text)
    → All IsDigit digits
    → match_groups (digits, rest) ≡ some (integer, fraction)
    → Matched integer fraction
unfolding match_groups match_fraction
match_groups-Matched digits [] integer fraction h m = record {
  whole = ground arith;
  digits = ground arith;
  part = ground arith;
}
match_groups-Matched digits (c ∷ []) integer fraction h m = cc
match_groups-Matched digits (c ∷ d ∷ s) integer fraction h m = record {
  whole = ground arith;
  digits = ground arith;
  part = ground (arith, all-IsDigit (d ∷ s));
}

pub match_decimal-Matched :
    (s integer fraction : Text)
    → match_decimal s ≡ some (integer, fraction)
    → Matched integer fraction
unfolding match_decimal
match_decimal-Matched s integer fraction m =
    match_groups-Matched (span_digits s).0 (span_digits s).1 integer fraction (span_digits_lem s).1
      m

IsDigit-is_digit : (c : ℕ) → IsDigit c → is_digit c ≡ true
unfolding is_digit
IsDigit-is_digit c h = ground arith

All-all : (s : Text) → All IsDigit s → all is_digit s ≡ true
All-all [] h = refl
All-all (c ∷ s) h = rw (IsDigit-is_digit c h.0, All-all s h.1) refl

span-digits : (s : Text) → All IsDigit s → span_digits s ≡ (s, [])
unfolding span_digits cons_digit
span-digits [] h = refl
span-digits (c ∷ s) h = rw (IsDigit-is_digit c h.0, span-digits s h.1) refl

span-dot : (s rest : Text) → All IsDigit s → span_digits (s ++ b'.' ∷ rest) ≡ (s, b'.' ∷ rest)
unfolding span_digits cons_digit
span-dot [] rest h = unfold is_digit in refl
span-dot (c ∷ s) rest h = rw (IsDigit-is_digit c h.0, span-dot s rest h.1) refl

groups-with :
    (integer rest fraction : Text)
    → is_integer integer ≡ true
    → match_fraction rest ≡ some fraction
    → match_groups (integer, rest) ≡ some (integer, fraction)
unfolding match_groups
groups-with integer rest fraction w f = rw (match_groups, f, w) refl

fraction-with :
    (c : ℕ) (s : Text) → All IsDigit (c ∷ s) → match_fraction (b'.' ∷ c ∷ s) ≡ some (c ∷ s)
unfolding match_fraction
fraction-with c s h = rw (All-all (c ∷ s) h) refl

-- Digits with a part behind the dot, or none, match as these.
pub match_decimal-with_fraction :
    (integer fraction : Text)
    → Matched integer fraction
    → match_decimal (with_fraction integer fraction) ≡ some (integer, fraction)
unfolding match_decimal with_fraction
match_decimal-with_fraction integer [] m =
    rw (span-digits integer m.digits)
      (groups-with integer [] [] m.whole (unfold match_fraction in refl))
match_decimal-with_fraction integer (c ∷ s) m =
    rw (span-dot integer (c ∷ s) m.digits)
      (groups-with integer (b'.' ∷ c ∷ s) (c ∷ s) m.whole (fraction-with c s m.part))
