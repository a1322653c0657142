-- ===== src/Billing/Rounding/Digits.antt =====
-- `big.Int.String` on a natural number, and reading digits back.
use codex_gateway.Base.{
  ℕ, zero, suc, ◌+◌, ◌-◌, ◌*◌, ◌/◌, ◌%◌, ◌≤◌, ◌<◌, ◌≡◌, refl, ◌∙◌, inl, inr, Bool-cases, [], ◌∷◌,
  ◌++◌, ◌==◌, if◌then◌else◌, Text, arith, All,
}

-- The digits of `n` in front of `out`; the fuel is the number of digits left at most.
digits_from : ℕ → ℕ → Text → Text
digits_from zero n out = out
digits_from (suc fuel) n out =
    let rest = digits_from fuel (n / 10) ((b'0' + n % 10) ∷ out) in
    if n / 10 == 0 then (b'0' + n % 10) ∷ out else rest

unfoldable pub decimal : ℕ → Text
unfolding digits_from
decimal n = digits_from (suc n) n []

unfoldable pub read_from : ℕ → Text → ℕ
read_from acc [] = acc
read_from acc (c ∷ s) = read_from (acc * 10 + (c - b'0')) s

-- The number that digits spell.
unfoldable pub read_digits : Text → ℕ
unfolding read_from
read_digits s = read_from 0 s

abbrev pub IsDigit : ℕ → Type 0
IsDigit c = (b'0' ≤ c) × (c ≤ b'9')

pub read_from-append :
    (acc : ℕ) (xs ys : Text) → read_from acc (xs ++ ys) ≡ read_from (read_from acc xs) ys
unfolding read_from
read_from-append acc [] ys = refl
read_from-append acc (x ∷ xs) ys = read_from-append (acc * 10 + (x - b'0')) xs ys

read_from-digits :
    (fuel n : ℕ) (out : Text) → n < fuel → read_from 0 (digits_from fuel n out) ≡ read_from n out
unfolding read_from digits_from
read_from-digits zero n out h = absurd (omega arith)
read_from-digits (suc fuel) n out h = elim (Bool-cases (n / 10 == 0)) [
  | inl last ↦ rw last (ground arith)
  | inr more ↦
      rw more (read_from-digits fuel (n / 10) ((b'0' + n % 10) ∷ out) (ground arith) ∙ ground arith)
]

digits_from-All : (fuel n : ℕ) (out : Text) → All IsDigit out → All IsDigit (digits_from fuel n out)
unfolding digits_from
digits_from-All zero n out h = h
digits_from-All (suc fuel) n out h =
    ground (arith, digits_from-All fuel (n / 10) ((b'0' + n % 10) ∷ out) (omega arith, h))

-- The print of a number reads back as that number.
pub read_digits-decimal : (n : ℕ) → read_digits (decimal n) ≡ n
unfolding read_digits decimal
read_digits-decimal n = read_from-digits (suc n) n [] (omega arith) ∙ unfold read_from in refl

pub decimal-digits : (n : ℕ) → All IsDigit (decimal n)
unfolding decimal
decimal-digits n = digits_from-All (suc n) n [] tt
