-- ===== src/Billing/Decimal/Laws.antt =====
-- What the parser of amounts accepts, and the value of what it returns.
use native.Mathlib.Nat.{pow-suc, pow-zero, add-zero, add-suc}
use mathlib.Core.List.{append-nil}
use mathlib.Core.Path.{◌≡⟨◌⟩◌, ◌∎, ap₂}
use codex_gateway.Base.{
  ℕ, zero, suc, ◌+◌, ◌-◌, ◌*◌, ◌^◌, ◌≤◌, ◌<◌, ◌≡◌, refl, sym, ap, ◌∙◌, true, some, [], ◌∷◌, ◌++◌,
  length, all, Text, arith, All, inl, inr, Bool-cases,
}
use codex_gateway.Base.Int.{pos}
use codex_gateway.Billing.Decimal.{
  is_digit, trim_left, trim_right, keep, is_zero, span_digits, is_integer, match_fraction,
  match_groups, match_decimal, or_zero, with_fraction, canonical,
}
use codex_gateway.Billing.Rounding.{Rat, split_dot, rat_of}
use codex_gateway.Billing.Rounding.Digits.{IsDigit, read_digits, read_from, read_from-append}
use codex_gateway.Billing.Rounding.Laws.{split_dot-append, rat_of-digits}

pub pow_add : (b k m : ℕ) → b ^ (k + m) ≡ b ^ k * b ^ m
pow_add b k zero = rw (pow-zero b) (omega (arith, ap (λ (n : ℕ). b ^ n) (add-zero k)))
pow_add b k (suc m) = omega (
  arith,
  ap (λ (n : ℕ). b ^ n) (add-suc k m),
  pow-suc b (k + m),
  ap (λ (n : ℕ). n * b) (pow_add b k m),
  ap (λ (n : ℕ). b ^ k * n) (pow-suc b m),
)

is_digit-IsDigit : (c : ℕ) → is_digit c ≡ true → IsDigit c
unfolding is_digit
is_digit-IsDigit c h = ground arith

pub all-IsDigit : (s : Text) → all is_digit s ≡ true → All IsDigit s
all-IsDigit [] h = tt
all-IsDigit (c ∷ s) h = ground (arith, is_digit-IsDigit c, all-IsDigit s)

pub span_digits_lem :
    (s : Text) → (((span_digits s).0 ++ (span_digits s).1) ≡ s) × All IsDigit (span_digits s).0
unfolding span_digits
span_digits_lem [] = (refl, tt)
span_digits_lem (c ∷ s) = ground (arith, span_digits_lem s, is_digit-IsDigit c)

split_dot-digits : (s : Text) → All IsDigit s → split_dot s ≡ (s, [])
unfolding split_dot
split_dot-digits [] h = refl
split_dot-digits (c ∷ s) h = ground (arith, split_dot-digits s h.1)

is_integer-length : (s : Text) → is_integer s ≡ true → 0 < length s
unfolding is_integer
is_integer-length [] h = cc
is_integer-length (c ∷ s) h = omega arith

-- What the pattern matches is digits, with a fraction behind a dot or none.
dotted_groups :
    (digits : Text) (c d : ℕ) (s integer fraction : Text)
    → match_groups (digits, c ∷ d ∷ s) ≡ some (integer, fraction)
    → (c ≡ b'.')
      × (fraction ≡ d ∷ s)
      × All IsDigit (d ∷ s)
      × (digits ≡ integer)
      × (is_integer digits ≡ true)
unfolding match_groups match_fraction
dotted_groups digits c d s integer fraction m = ground (arith, all-IsDigit (d ∷ s))

match_groups_lem :
    (digits rest integer fraction : Text)
    → All IsDigit digits
    → match_groups (digits, rest) ≡ some (integer, fraction)
    → (split_dot (digits ++ rest) ≡ (integer, fraction))
      × All IsDigit integer
      × All IsDigit fraction
      × (0 < length integer)
unfolding match_groups
match_groups_lem digits [] integer fraction h m =
    ground (arith, split_dot-digits digits h, append-nil digits, is_integer-length digits)
match_groups_lem digits (c ∷ []) integer fraction h m = cc
match_groups_lem digits (c ∷ d ∷ s) integer fraction h m =
    let (dot, same, tail_digits, ints, whole) = dotted_groups digits c d s integer fraction m in
    rw (same, ← ints, dot)
      (split_dot-append digits (d ∷ s) h, h, tail_digits, is_integer-length digits whole)

-- A match splits the text at its dot, into digits.
pub match_decimal_lem :
    (s integer fraction : Text)
    → match_decimal s ≡ some (integer, fraction)
    → (split_dot s ≡ (integer, fraction))
      × All IsDigit integer
      × All IsDigit fraction
      × (0 < length integer)
unfolding match_decimal
match_decimal_lem s integer fraction m =
    let (whole, digits) = span_digits_lem s in
    rw whole at (match_groups_lem (span_digits s).0 (span_digits s).1 integer fraction digits m)

-- Zeros cut off the left of the integer do not change the number.
read-trim_left :
    (integer rest : Text)
    → read_digits (or_zero (trim_left is_zero integer) ++ rest) ≡ read_digits (integer ++ rest)
unfolding read_digits read_from or_zero trim_left
read-trim_left [] rest = refl
read-trim_left (c ∷ s) rest = elim (Bool-cases (is_zero c)) [
  | inl zero_digit ↦
      rw (zero_digit, or_zero)
        (read-trim_left s rest
          ∙ ap (λ (n : ℕ). read_from n (s ++ rest)) {x = 0} {y = 0 + (c - b'0')} (ground arith))
  | inr other ↦ rw (other, or_zero) refl
]

ground_zero : (acc c : ℕ) → is_zero c ≡ true → acc * 10 + (c - b'0') ≡ acc * 10
ground_zero acc c h = ground arith

shift_zero :
    (acc c n : ℕ)
    → is_zero c ≡ true
    → (acc * 10 + (c - b'0')) * 10 ^ (n - 0) ≡ acc * 10 ^ (suc n - 0)
shift_zero acc c n h =
    (acc * 10 + (c - b'0')) * 10 ^ (n - 0)
    ≡⟨ ap₂ (λ (k m : ℕ). k * 10 ^ m) (ground_zero acc c h) (omega arith) ⟩ acc * 10 * 10 ^ n
    ≡⟨ omega (arith, ap (λ (k : ℕ). acc * k) (pow-suc 10 n)) ⟩ acc * 10 ^ suc n
    ≡⟨ ap (λ (m : ℕ). acc * 10 ^ m) (omega arith) ⟩ acc * 10 ^ (suc n - 0) ∎

keep_lem :
    (acc c n : ℕ) (t : Text)
    → length t ≤ n
    → (length (keep is_zero c t) ≤ suc n)
      × (read_from (acc * 10 + (c - b'0')) t * 10 ^ (n - length t)
          ≡ read_from acc (keep is_zero c t) * 10 ^ (suc n - length (keep is_zero c t)))
unfolding keep read_from
keep_lem acc c n [] h = elim (Bool-cases (is_zero c)) [
  | inl zero_digit ↦ rw (zero_digit, keep) (omega arith, shift_zero acc c n zero_digit)
  | inr other ↦
      rw (other, keep) (omega arith, ap (λ (k : ℕ). (acc * 10 + (c - b'0')) * 10 ^ k) (omega arith))
]
keep_lem acc c n (d ∷ t) h =
    (omega arith, ap (λ (k : ℕ). read_from acc (c ∷ d ∷ t) * 10 ^ k) (omega arith))

-- Zeros cut off the right of the fraction divide the number by a power of ten.
pub read-trim_right :
    (acc : ℕ) (s : Text)
    → (length (trim_right is_zero s) ≤ length s)
      × (read_from acc s
          ≡ read_from acc (trim_right is_zero s) * 10 ^ (length s - length (trim_right is_zero s)))
unfolding read_from trim_right
read-trim_right acc [] = (omega arith, omega arith)
read-trim_right acc (c ∷ s) =
    let (shorter, scaled) = read-trim_right (acc * 10 + (c - b'0')) s in
    let (fits, same) = keep_lem acc c (length s) (trim_right is_zero s) shorter in
    (fits, scaled ∙ same)

trim-All :
    (integer : Text) → All IsDigit integer → All IsDigit (or_zero (trim_left is_zero integer))
unfolding or_zero trim_left
trim-All [] h = (omega arith, tt)
trim-All (c ∷ s) h = ground (arith, trim-All s h.1)

keep-All : (c : ℕ) (s : Text) → IsDigit c → All IsDigit s → All IsDigit (keep is_zero c s)
unfolding keep
keep-All c [] hc h = ground arith
keep-All c (d ∷ s) hc h = (hc, h)

pub trim_right-All : (s : Text) → All IsDigit s → All IsDigit (trim_right is_zero s)
unfolding trim_right keep
trim_right-All [] h = tt
trim_right-All (c ∷ s) h = keep-All c (trim_right is_zero s) h.0 (trim_right-All s h.1)

or_zero-pos : (s : Text) → 0 < length (or_zero s)
unfolding or_zero
or_zero-pos [] = omega arith
or_zero-pos (c ∷ s) = omega arith

-- The fraction that digits with a part behind the dot stand for.
abbrev pub fraction_of : Text → Text → Rat
fraction_of integer fraction = record {
  num = pos (read_digits (integer ++ fraction));
  den = 10 ^ length fraction;
}

rat_of-whole :
    (integer : Text)
    → All IsDigit integer
    → 0 < length integer
    → rat_of integer ≡ fraction_of integer []
unfolding rat_of
rat_of-whole [] h p = absurd (omega arith)
rat_of-whole (c ∷ s) h p = ground (arith, split_dot-digits (c ∷ s) h)

rat_of-with_fraction :
    (integer fraction : Text)
    → All IsDigit integer
    → All IsDigit fraction
    → 0 < length integer
    → rat_of (with_fraction integer fraction) ≡ fraction_of integer fraction
unfolding with_fraction
rat_of-with_fraction integer [] hi hf p = rat_of-whole integer hi p
rat_of-with_fraction integer (c ∷ s) hi hf p = rat_of-digits integer (c ∷ s) hi p

-- The canonical text has the value of the groups of the match: n / 10^k with k digits cut off.
pub rat_of-canonical :
    (integer fraction : Text)
    → All IsDigit integer
    → All IsDigit fraction
    → 0 < length integer
    → (n : ℕ) × (k : ℕ) × (rat_of (canonical integer fraction)
        ≡ record { num = pos n; den = 10 ^ k })
      × (k ≤ length fraction)
      × (read_digits (integer ++ fraction) ≡ n * 10 ^ (length fraction - k))
unfolding canonical read_digits
rat_of-canonical integer fraction hi hf p =
    let whole : Text = or_zero (trim_left is_zero integer) in
    let part : Text = trim_right is_zero fraction in
    let (shorter, scaled) = read-trim_right (read_from 0 whole) fraction in
    (
      read_digits (whole ++ part),
      length part,
      rat_of-with_fraction whole part (trim-All integer hi) (trim_right-All fraction hf)
          (or_zero-pos (trim_left is_zero integer)),
      shorter,
      sym (read-trim_left integer fraction)
          ∙ read_from-append 0 whole fraction
          ∙ scaled
          ∙ ap (λ (m : ℕ). m * 10 ^ (length fraction - length part))
              (sym (read_from-append 0 whole part)),
    )
