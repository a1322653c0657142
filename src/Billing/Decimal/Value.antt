-- ===== src/Billing/Decimal/Value.antt =====
-- Lemmas on the value of an accepted unsigned amount.
use native.Mathlib.Nat.{pow-suc}
use mathlib.Core.Path.{◌≡⟨◌⟩◌, ◌∎}
use codex_gateway.Base.{
  ℕ, zero, suc, ◌+◌, ◌-◌, ◌*◌, ◌^◌, ◌≤◌, ◌<◌, ◌≡◌, refl, sym, ap, ◌∙◌, Bool, false, Option, none,
  some, [], ◌∷◌, ◌++◌, ok, length, Text, arith,
}
use codex_gateway.Base.Int.{pos}
use codex_gateway.Billing.Decimal.{
  match_decimal, canonical, split_sign, finish, bounded_groups, bounded_sign, parse_bounded,
  max_integer_digits, amount_scale,
}
use codex_gateway.Billing.Decimal.Laws.{match_decimal_lem, rat_of-canonical, pow_add}
use codex_gateway.Billing.Rounding.{Rat, split_dot, rat_of}
use codex_gateway.Billing.Rounding.Digits.{read_digits}

-- A rational that is u / e.
pub record IsValue (r : Rat) (u e : ℕ) : Type 0 where
  pub top : ℕ
  pub num : r.num ≡ pos top
  pub den : 0 < r.den
  pub cross : top * e ≡ u * r.den

-- What an unsigned text stands for, in units of 10^-12: its digits without the dot, shifted.
abbrev pub units : Text → ℕ
units s =
    let (integer, fraction) = split_dot s in
    read_digits (integer ++ fraction) * 10 ^ (amount_scale - length fraction)

split_sign-unsigned : (v : Text) (r : Bool × Text) → split_sign false v ≡ some r → r ≡ (false, v)
unfolding split_sign
split_sign-unsigned [] r h = ground arith
split_sign-unsigned (c ∷ s) r h = ground arith

finish-false : (az : Bool) (s c : Text) → finish false az s ≡ ok c → c ≡ s
unfolding finish
finish-false az s c h = ground arith

-- The groups behind an accepted unsigned amount.
pub record Groups (v c : Text) (scale : ℕ) (az : Bool) : Type 0 where
  pub integer : Text
  pub fraction : Text
  pub matched : match_decimal v ≡ some (integer, fraction)
  pub short : length integer ≤ max_integer_digits
  pub fits : length fraction ≤ scale
  pub result : c ≡ canonical integer fraction
  pub finished : finish false az (canonical integer fraction) ≡ ok c

Groups-of :
    (v c : Text) (scale : ℕ) (az : Bool) (m : Option (Text × Text))
    → match_decimal v ≡ m
    → bounded_groups scale false az m ≡ ok c
    → Groups v c scale az
unfolding bounded_groups
Groups-of v c scale az none e h = cc
Groups-of v c scale az (some (integer, fraction)) e h = record {
  integer = integer;
  fraction = fraction;
  matched = e;
  short = ground arith;
  fits = ground arith;
  result = finish-false az (canonical integer fraction) c (ground arith);
  finished = ground arith;
}

signed-Groups :
    (v c : Text) (scale : ℕ) (az : Bool) (o : Option (Bool × Text))
    → split_sign false v ≡ o
    → bounded_sign scale az o ≡ ok c
    → Groups v c scale az
unfolding bounded_sign
signed-Groups v c scale az none e h = cc
signed-Groups v c scale az (some (negative, unsigned)) e h =
    let same = split_sign-unsigned v (negative, unsigned) e in
    let h1 : bounded_groups scale false az (match_decimal v) ≡ ok c =
      ap (λ (r : Bool × Text). bounded_groups scale r.0 az (match_decimal r.1)) (sym same) ∙ h in
    Groups-of v c scale az (match_decimal v) refl h1

pub parse_bounded-Groups :
    (v c : Text) (scale : ℕ) (az : Bool)
    → parse_bounded v scale false az ≡ ok c
    → Groups v c scale az
unfolding parse_bounded
parse_bounded-Groups v c scale az h =
    signed-Groups v c scale az (split_sign false v) refl (ground arith)

pow_split :
    (f k : ℕ)
    → k ≤ f
    → f ≤ amount_scale
    → 10 ^ amount_scale ≡ 10 ^ (f - k) * 10 ^ (amount_scale - f) * 10 ^ k
pow_split f k h1 h2 =
    10 ^ amount_scale
    ≡⟨ ap (λ (m : ℕ). 10 ^ m) {x = amount_scale} {y = f - k + (amount_scale - f) + k}
        (omega arith) ⟩
      10 ^ (f - k + (amount_scale - f) + k)
    ≡⟨ pow_add 10 (f - k + (amount_scale - f)) k ⟩ 10 ^ (f - k + (amount_scale - f)) * 10 ^ k
    ≡⟨ ap (λ (m : ℕ). m * 10 ^ k) (pow_add 10 (f - k) (amount_scale - f)) ⟩
      10 ^ (f - k) * 10 ^ (amount_scale - f) * 10 ^ k ∎

pub pow_pos : (k : ℕ) → 0 < 10 ^ k
pow_pos zero = omega arith
pow_pos (suc k) = omega (arith, pow_pos k, pow-suc 10 k)

shifted :
    (n r f k : ℕ)
    → k ≤ f
    → f ≤ amount_scale
    → r ≡ n * 10 ^ (f - k)
    → n * 10 ^ amount_scale ≡ r * 10 ^ (amount_scale - f) * 10 ^ k
shifted n r f k h1 h2 e = rw (e) (ap (λ (m : ℕ). n * m) (pow_split f k h1 h2) ∙ omega arith)

-- The canonical text of an accepted unsigned amount of at most twelve decimal places has the value of
-- the input: nothing is rounded.
pub parse_bounded-IsValue :
    (v c : Text) (scale : ℕ) (az : Bool)
    → scale ≤ amount_scale
    → parse_bounded v scale false az ≡ ok c
    → IsValue (rat_of c) (units v) (10 ^ amount_scale)
parse_bounded-IsValue v c scale az small h =
    let g = parse_bounded-Groups v c scale az h in
    let (split, hi, hf, p) = match_decimal_lem v g.integer g.fraction g.matched in
    let (n, k, value, shorter, scaled) = rat_of-canonical g.integer g.fraction hi hf p in
    rw (g.result, value, split)
      (record {
        top = n;
        num = refl;
        den = pow_pos k;
        cross =
            shifted n (read_digits (g.integer ++ g.fraction)) (length g.fraction) k shorter
              (omega (arith, g.fits)) scaled;
      })
