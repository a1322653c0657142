-- ===== src/Config/Pricing/Select/Order.antt =====
-- Lemmas on the order of texts of digits, with blanks behind them.
use native.Mathlib.Nat.{pow-suc, mul-le-mul_right}
use codex_gateway.Base.{
  ℕ, zero, suc, ◌+◌, ◌-◌, ◌*◌, ◌^◌, ◌≤◌, ◌<◌, ◌≡◌, refl, sym, ap, ◌∙◌, Bool, true, false, [], ◌∷◌,
  ◌++◌, ◌==◌, ltb, if◌then◌else◌, subst, length, replicate, Text, arith, All, All-append, inl, inr,
  Bool-cases, length-append,
}
use codex_gateway.Billing.Rounding.Digits.{IsDigit, read_from}
use codex_gateway.Limit.Daily.{text_lt}

-- What a comparison says of two numbers.
abbrev pub Ordered : Bool → ℕ → ℕ → Type 0
Ordered true x y = x ≤ y
Ordered false x y = y ≤ x

Ordered-same : (b : Bool) (x : ℕ) → Ordered b x x
Ordered-same true x = omega arith
Ordered-same false x = omega arith

-- A digit, or a blank that is read as 0.
abbrev pub IsLow : ℕ → Type 0
IsLow c = c ≤ b'9'

-- What digits and blanks behind `acc` can make of it.
read_bounds :
    (acc : ℕ) (s : Text)
    → All IsLow s
    → (acc * 10 ^ length s ≤ read_from acc s) × (read_from acc s < (acc + 1) * 10 ^ length s)
unfolding read_from
read_bounds acc [] h = (omega arith, omega arith)
read_bounds acc (c ∷ s) h =
    let (low, high) = read_bounds (acc * 10 + (c - b'0')) s h.1 in
    let power : 10 ^ suc (length s) ≡ 10 ^ length s * 10 = pow-suc 10 (length s) in
    let more : acc * 10 * 10 ^ length s ≤ (acc * 10 + (c - b'0')) * 10 ^ length s =
      mul-le-mul_right (10 ^ length s) (omega arith) in
    let less : (acc * 10 + (c - b'0') + 1) * 10 ^ length s ≤ (acc + 1) * 10 * 10 ^ length s =
      mul-le-mul_right (10 ^ length s) (omega (arith, h.0)) in
    (
      omega (arith, low, more, ap (λ (n : ℕ). acc * n) power),
      omega (arith, high, less, ap (λ (n : ℕ). acc * n) power, power),
    )

abbrev pub SameOrder : ℕ → Text → Text → Type 0
SameOrder acc s t = Ordered (text_lt s t) (read_from acc s) (read_from acc t)

-- A smaller first digit makes the smaller number, whatever follows.
digit_decides :
    (acc x y : ℕ) (s t : Text)
    → All IsLow s
    → All IsLow t
    → length s ≡ length t
    → b'0' ≤ x
    → x < y
    → read_from acc (x ∷ s) ≤ read_from acc (y ∷ t)
unfolding read_from
digit_decides acc x y s t hs ht same low less =
    let high = (read_bounds (acc * 10 + (x - b'0')) s hs).1 in
    let start = (read_bounds (acc * 10 + (y - b'0')) t ht).0 in
    let between : (acc * 10 + (x - b'0') + 1) * 10 ^ length s
        ≤ (acc * 10 + (y - b'0')) * 10 ^ length s =
      mul-le-mul_right (10 ^ length s) (omega (arith, low, less)) in
    omega (arith, high, start, between, ap (λ (n : ℕ). (acc * 10 + (y - b'0')) * 10 ^ n) same)

text_lt-cons :
    (x y : ℕ) (s t : Text) → text_lt (x ∷ s) (y ∷ t) ≡ (if x == y then text_lt s t else ltb x y)
unfolding text_lt
text_lt-cons x y s t = refl

same_digit :
    (acc x y : ℕ) (s t : Text)
    → (x == y) ≡ true
    → SameOrder (acc * 10 + (x - b'0')) s t
    → Ordered (text_lt s t) (read_from acc (x ∷ s)) (read_from acc (y ∷ t))
unfolding read_from
same_digit acc x y s t e h =
    subst
      (λ (d : ℕ).
        Ordered (text_lt s t) (read_from (acc * 10 + (x - b'0')) s)
          (read_from (acc * 10 + (d - b'0')) t))
      {x = x} (ground arith) h

-- Different first digits decide, the same leave it to the rest.
SameOrder-digit :
    (acc x y : ℕ) (s t : Text)
    → All IsLow s
    → All IsLow t
    → length s ≡ length t
    → IsDigit x
    → IsDigit y
    → ((a : ℕ) → SameOrder a s t)
    → SameOrder acc (x ∷ s) (y ∷ t)
SameOrder-digit acc x y s t hs ht same dx dy rest = elim (Bool-cases (x == y)) [
  | inl e ↦ rw (text_lt-cons x y s t, e) (same_digit acc x y s t e (rest (acc * 10 + (x - b'0'))))
  | inr differ ↦ elim (Bool-cases (ltb x y)) [
    | inl less ↦
        rw (text_lt-cons x y s t, differ, less)
          (digit_decides acc x y s t hs ht same dx.0 (ground arith))
    | inr more ↦
        rw (text_lt-cons x y s t, differ, more)
          (digit_decides acc y x t s ht hs (sym same) dy.0 (ground arith))
  ]
]

-- Text filled up with blanks on the right, one code at a time.
pub filled : ℕ → Text → Text
filled zero s = s
filled (suc n) [] = b' ' ∷ filled n []
filled (suc n) (c ∷ s) = c ∷ filled n s

blanks_lem : (n : ℕ) → replicate n b' ' ≡ filled n []
unfolding filled
blanks_lem zero = refl
blanks_lem (suc n) = ap (λ (t : Text). b' ' ∷ t) (blanks_lem n)

pub filled_lem : (n : ℕ) (s : Text) → length s ≤ n → s ++ replicate (n - length s) b' ' ≡ filled n s
unfolding filled
filled_lem zero [] h = refl
filled_lem zero (c ∷ s) h = absurd (omega arith)
filled_lem (suc n) [] h =
    ap (λ (m : ℕ). replicate m b' ') {y = suc n} (omega arith)
    ∙ ap (λ (t : Text). b' ' ∷ t) (blanks_lem n)
filled_lem (suc n) (c ∷ s) h =
    ap (λ (m : ℕ). c ∷ s ++ replicate m b' ') {y = n - length s} (omega arith)
    ∙ ap (λ (t : Text). c ∷ t) (filled_lem n s (omega (arith, h)))

pub filled-IsLow : (n : ℕ) (s : Text) → All IsDigit s → All IsLow (filled n s)
unfolding filled
filled-IsLow zero [] h = tt
filled-IsLow zero (c ∷ s) h = ((h.0).1, filled-IsLow zero s h.1)
filled-IsLow (suc n) [] h = (omega arith, filled-IsLow n [] tt)
filled-IsLow (suc n) (c ∷ s) h = ((h.0).1, filled-IsLow n s h.1)

pub length-filled : (n : ℕ) (s : Text) → length s ≤ n → length (filled n s) ≡ n
unfolding filled
length-filled zero [] h = refl
length-filled zero (c ∷ s) h = absurd (omega arith)
length-filled (suc n) [] h = ap suc (length-filled n [] (omega arith))
length-filled (suc n) (c ∷ s) h = ap suc (length-filled n s (omega (arith, h)))

-- Blanks are read as zeros.
read-blanks : (acc n : ℕ) → read_from acc (filled n []) ≡ acc * 10 ^ n
unfolding filled read_from
read-blanks acc zero = omega arith
read-blanks acc (suc n) =
    read-blanks (acc * 10 + (b' ' - b'0')) n ∙ omega (arith, ap (λ (m : ℕ). acc * m) (pow-suc 10 n))

pub read-filled :
    (acc n : ℕ) (s : Text)
    → length s ≤ n
    → read_from acc (filled n s) ≡ read_from acc s * 10 ^ (n - length s)
unfolding filled read_from
read-filled acc zero [] h = omega arith
read-filled acc zero (c ∷ s) h = absurd (omega arith)
read-filled acc (suc n) [] h =
    read-blanks acc (suc n) ∙ ap (λ (m : ℕ). acc * 10 ^ m) {x = suc n} {y = suc n - 0} (omega arith)
read-filled acc (suc n) (c ∷ s) h =
    rw (read-filled (acc * 10 + (c - b'0')) n s (omega (arith, h))) (
      ap (λ (m : ℕ). read_from (acc * 10 + (c - b'0')) s * 10 ^ m) {y = suc n - suc (length s)}
        (omega arith))

-- Nothing is below blanks.
blanks_least :
    (acc n c : ℕ) (s : Text)
    → IsDigit c
    → All IsLow s
    → length s ≡ n
    → read_from acc (filled (suc n) []) ≤ read_from acc (c ∷ s)
blanks_least acc n c s d low same =
    let least = (read_bounds acc (c ∷ s) (d.1, low)).0 in
    omega (arith, read-blanks acc (suc n), least, ap (λ (m : ℕ). acc * 10 ^ suc m) same)

blank_first :
    (d : ℕ) (s t : Text)
    → IsDigit d
    → (text_lt (b' ' ∷ s) (d ∷ t) ≡ true) × (text_lt (d ∷ t) (b' ' ∷ s) ≡ false)
blank_first d s t h =
    (rw (text_lt-cons b' ' d s t) (ground arith), rw (text_lt-cons d b' ' t s) (ground arith))

SameOrder-equal : (acc : ℕ) (s : Text) → SameOrder acc s s
SameOrder-equal acc s = Ordered-same (text_lt s s) (read_from acc s)

pub SameOrder-filled :
    (acc n : ℕ) (s t : Text)
    → All IsDigit s
    → All IsDigit t
    → length s ≤ n
    → length t ≤ n
    → SameOrder acc (filled n s) (filled n t)
unfolding filled
SameOrder-filled acc zero [] [] hs ht ls lt = Ordered-same (text_lt [] []) (read_from acc [])
SameOrder-filled acc zero (c ∷ s) t hs ht ls lt = absurd (omega arith)
SameOrder-filled acc zero [] (d ∷ t) hs ht ls lt = absurd (omega arith)
SameOrder-filled acc (suc n) [] [] hs ht ls lt = SameOrder-equal acc (filled (suc n) [])
SameOrder-filled acc (suc n) [] (d ∷ t) hs ht ls lt =
    rw ((blank_first d (filled n []) (filled n t) ht.0).0) (
      blanks_least acc n d (filled n t) ht.0 (filled-IsLow n t ht.1)
        (length-filled n t (omega (arith, lt))))
SameOrder-filled acc (suc n) (c ∷ s) [] hs ht ls lt =
    rw ((blank_first c (filled n []) (filled n s) hs.0).1) (
      blanks_least acc n c (filled n s) hs.0 (filled-IsLow n s hs.1)
        (length-filled n s (omega (arith, ls))))
SameOrder-filled acc (suc n) (c ∷ s) (d ∷ t) hs ht ls lt =
    SameOrder-digit acc c d (filled n s) (filled n t) (filled-IsLow n s hs.1)
      (filled-IsLow n t ht.1)
      (length-filled n s (omega (arith, ls)) ∙ sym (length-filled n t (omega (arith, lt)))) hs.0
      ht.0 (λ a. SameOrder-filled a n s t hs.1 ht.1 (omega (arith, ls)) (omega (arith, lt)))

digits-IsLow : (s : Text) → All IsDigit s → All IsLow s
digits-IsLow [] h = tt
digits-IsLow (c ∷ s) h = ((h.0).1, digits-IsLow s h.1)

IsLow-append : (a s : Text) → All IsDigit a → All IsLow s → All IsLow (a ++ s)
IsLow-append a s ha hs = All-append IsLow a s (digits-IsLow a ha) hs

-- Digits of one length in front of texts that are ordered.
pub SameOrder-append :
    (acc : ℕ) (a b s t : Text)
    → All IsDigit a
    → All IsDigit b
    → length a ≡ length b
    → All IsLow s
    → All IsLow t
    → length s ≡ length t
    → ((n : ℕ) → SameOrder n s t)
    → SameOrder acc (a ++ s) (b ++ t)
SameOrder-append acc [] [] s t ha hb same hs ht long rest = rest acc
SameOrder-append acc [] (d ∷ b) s t ha hb same hs ht long rest = absurd (omega arith)
SameOrder-append acc (c ∷ a) [] s t ha hb same hs ht long rest = absurd (omega arith)
SameOrder-append acc (c ∷ a) (d ∷ b) s t ha hb same hs ht long rest =
    SameOrder-digit acc c d (a ++ s) (b ++ t) (IsLow-append a s ha.1 hs) (IsLow-append b t hb.1 ht)
      (omega (arith, length-append a s, length-append b t, same, long)) ha.0 hb.0
      (λ n. SameOrder-append n a b s t ha.1 hb.1 (omega (arith, same)) hs ht long rest)
