-- ===== src/Billing/Rounding/Laws.antt =====
-- Lemmas on rounding and on reading a print back.
use native.Mathlib.Nat.{mod-lt, div-add-mod, div-eq_of_lt-le, mul-div-mul_left}
use codex_gateway.Base.{
  ℕ, zero, suc, ◌+◌, ◌-◌, ◌*◌, ◌/◌, ◌%◌, ◌^◌, ◌≤◌, ◌<◌, ◌≡◌, refl, sym, ap, ◌∙◌, inl, inr,
  Bool-cases, [], ◌∷◌, ◌++◌, ◌==◌, leb, if◌then◌else◌, length, take, drop, replicate, Text, arith,
  All, All-append, length-append, length-replicate, length-drop, take-append-drop,
}
use mathlib.Core.Path.{◌≡⟨◌⟩◌, ◌∎, ap₂}
use codex_gateway.Base.Int.{pos}
use codex_gateway.Billing.Rounding.{
  rat_of, split_dot, round_quotient, pad, insert_dot, scaled_integer_string,
}
use codex_gateway.Billing.Rounding.Digits.{
  IsDigit, decimal, read_digits, read_from, read_digits-decimal, decimal-digits,
}

-- n / d rounded to `scale` decimal places, half up.
abbrev pub half_up : ℕ → ℕ → ℕ → ℕ
half_up n d scale = (2 * (n * 10 ^ scale) + d) / (2 * d)

near_half : (q r x d : ℕ) → x ≡ d * q + r → 0 < d → 2 * r < d → q ≡ (2 * x + d) / (2 * d)
near_half q r x d e h below =
    sym (div-eq_of_lt-le (2 * d) {m = 2 * x + d} (omega arith) (omega arith))

past_half : (q r x d : ℕ) → x ≡ d * q + r → r < d → d ≤ 2 * r → q + 1 ≡ (2 * x + d) / (2 * d)
past_half q r x d e h above =
    sym (div-eq_of_lt-le (2 * d) {m = 2 * x + d} (omega arith) (omega arith))

quotient_half_up :
    (x d : ℕ)
    → 0 < d
    → (if x % d == 0 then x / d else if leb d (2 * (x % d)) then x / d + 1 else x / d)
      ≡ (2 * x + d) / (2 * d)
quotient_half_up x d h =
    let exact : x ≡ d * (x / d) + x % d = sym (div-add-mod x d) in
    let below : x % d < d = mod-lt x h in
    elim (Bool-cases (x % d == 0)) [
      | inl whole ↦ rw whole (near_half (x / d) (x % d) x d exact (ground arith) (ground arith))
      | inr rest ↦ elim (Bool-cases (leb d (2 * (x % d)))) [
        | inl up ↦ rw rest (rw up (past_half (x / d) (x % d) x d exact below (ground arith)))
        | inr down ↦
            rw rest (rw down (near_half (x / d) (x % d) x d exact (ground arith) (ground arith)))
      ]
    ]

-- On an amount that is not negative, `roundFixed` rounds half up.
pub round_quotient-half_up :
    (n d scale : ℕ)
    → 0 < d
    → round_quotient (record { num = pos n; den = d }) scale ≡ pos (half_up n d scale)
unfolding round_quotient
round_quotient-half_up n d scale h = ap pos (quotient_half_up (n * 10 ^ scale) d h)

cross : (a b c d k : ℕ) → a * d ≡ c * b → d * (2 * (a * k) + b) ≡ b * (2 * (c * k) + d)
cross a b c d k e = omega (arith, ap (λ (t : ℕ). t * (2 * k)) e)

-- Fractions of one value round alike, so that lowest terms do not matter.
pub half_up-eq :
    (a b c d scale : ℕ) → 0 < b → 0 < d → a * d ≡ c * b → half_up a b scale ≡ half_up c d scale
half_up-eq a b c d scale hb hd e =
    half_up a b scale
    ≡⟨ sym (mul-div-mul_left (2 * (a * 10 ^ scale) + b) (2 * b) hd) ⟩
      d * (2 * (a * 10 ^ scale) + b) / (d * (2 * b))
    ≡⟨ ap₂ (λ p q. p / q) (cross a b c d (10 ^ scale) e) (omega arith) ⟩
      b * (2 * (c * 10 ^ scale) + d) / (b * (2 * d))
    ≡⟨ mul-div-mul_left (2 * (c * 10 ^ scale) + d) (2 * d) hb ⟩ half_up c d scale ∎

All-take : (k : ℕ) (s : Text) → All IsDigit s → All IsDigit (take k s)
All-take zero s h = tt
All-take (suc k) [] h = tt
All-take (suc k) (c ∷ s) h = (h.0, All-take k s h.1)

pub split_dot-append :
    (left right : Text) → All IsDigit left → split_dot (left ++ b'.' ∷ right) ≡ (left, right)
unfolding split_dot
split_dot-append [] right h = refl
split_dot-append (c ∷ left) right h = ground (arith, split_dot-append left right)

pub rat_of-digits :
    (left right : Text)
    → All IsDigit left
    → 0 < length left
    → rat_of (left ++ b'.' ∷ right)
      ≡ record { num = pos (read_digits (left ++ right)); den = 10 ^ length right }
unfolding rat_of
rat_of-digits [] right h p = absurd (omega arith)
rat_of-digits (c ∷ left) right h p = ground (arith, split_dot-append (c ∷ left) right h)

zeros-All : (k : ℕ) → All IsDigit (replicate k b'0')
zeros-All zero = tt
zeros-All (suc k) = (omega arith, zeros-All k)

pub read_zeros : (k : ℕ) (s : Text) → read_digits (replicate k b'0' ++ s) ≡ read_digits s
unfolding read_digits read_from
read_zeros zero s = refl
read_zeros (suc k) s = read_zeros k s

pad_lem :
    (scale : ℕ) (s : Text)
    → All IsDigit s
    → All IsDigit (pad scale s)
      × (scale < length (pad scale s))
      × (read_digits (pad scale s) ≡ read_digits s)
unfolding pad
pad_lem scale s h = elim (Bool-cases (leb (length s) scale)) [
  | inl short ↦
      let zeros = scale - length s + 1 in
      rw (short, pad)
        (
          All-append IsDigit (replicate zeros b'0') s (zeros-All zeros) h,
          omega
              (arith, length-append (replicate zeros b'0') s, length-replicate {A = ℕ} zeros b'0'),
          read_zeros zeros s,
        )
  | inr long ↦ rw (long, pad) (h, ground arith, refl)
]

length-take : (k : ℕ) (s : Text) → k ≤ length s → length (take k s) ≡ k
length-take zero s h = refl
length-take (suc k) [] h = absurd (omega arith)
length-take (suc k) (c ∷ s) h = ap suc (length-take k s (omega arith))

rat_of-insert_dot :
    (scale : ℕ) (s : Text)
    → All IsDigit s
    → scale < length s
    → rat_of (insert_dot scale s) ≡ record { num = pos (read_digits s); den = 10 ^ scale }
unfolding insert_dot
rat_of-insert_dot scale s h p =
    let k = length s - scale in
    rw
      (
        rat_of-digits (take k s) (drop k s) (All-take k s h)
            (omega (arith, length-take k s (omega arith))),
        take-append-drop k s,
        length-drop k s,
      )
      (ap (λ (n : ℕ). record { num = pos (read_digits s); den = 10 ^ n }) (omega arith))

-- A printed amount that is not negative is read back as the number of units that was printed.
pub rat_of-scaled_integer_string :
    (n scale : ℕ)
    → rat_of (scaled_integer_string (pos n) scale) ≡ record { num = pos n; den = 10 ^ scale }
unfolding scaled_integer_string
rat_of-scaled_integer_string n scale =
    let (digits, long, value) = pad_lem scale (decimal n) (decimal-digits n) in
    rat_of-insert_dot scale (pad scale (decimal n)) digits long
    ∙ ap (λ (m : ℕ). record { num = pos m; den = 10 ^ scale }) (value ∙ read_digits-decimal n)
