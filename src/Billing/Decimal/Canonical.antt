-- ===== src/Billing/Decimal/Canonical.antt =====
-- Lemmas on the canonical text of an accepted amount.
use mathlib.Core.Path.{◌≡⟨◌⟩◌, ◌∎}
use codex_gateway.Base.{
  ℕ, ◌+◌, ◌-◌, ◌*◌, ◌^◌, ◌≤◌, ◌≡◌, refl, sym, ap, ◌∙◌, Bool, true, false, ◌||◌, some, [], ◌∷◌, ◌++◌,
  ltb, ok, length, Text, arith, All, inl, inr, Bool-cases, All-append,
}
use codex_gateway.Billing.Decimal.{
  is_space, trim_left, trim_right, keep, is_zero, is_integer, with_fraction, canonical, split_sign,
  finish, bounded_groups, bounded_sign, parse_bounded, max_integer_digits, amount_scale, text_eq,
  trim_space,
}
use codex_gateway.Billing.Decimal.Laws.{match_decimal_lem, pow_add, trim_right-All, read-trim_right}
use codex_gateway.Billing.Decimal.Value.{Groups, units, parse_bounded-Groups}
use codex_gateway.Billing.Rounding.Digits.{IsDigit, read_digits, read_from, read_from-append}
use codex_gateway.Billing.Rounding.{split_dot}
use codex_gateway.Billing.Decimal.Matched.{
  integer-trim, Matched, match_decimal-Matched, match_decimal-with_fraction,
}

finish-ok : (az : Bool) (s c : Text) → finish false az s ≡ ok c → finish false az s ≡ ok s
unfolding finish
finish-ok az s c h = ground arith

-- A digit and a dot are no space, and no sign.
IsPlain : ℕ → Type 0
IsPlain c = is_space c ≡ false

digit-IsPlain : (c : ℕ) → IsDigit c → IsPlain c
unfolding IsPlain is_space
digit-IsPlain c h = ground arith

digits-IsPlain : (s : Text) → All IsDigit s → All IsPlain s
digits-IsPlain [] h = tt
digits-IsPlain (c ∷ s) h = (digit-IsPlain c h.0, digits-IsPlain s h.1)

with_fraction-IsPlain :
    (integer fraction : Text)
    → All IsDigit integer
    → All IsDigit fraction
    → All IsPlain (with_fraction integer fraction)
unfolding with_fraction IsPlain
with_fraction-IsPlain integer [] h k = digits-IsPlain integer h
with_fraction-IsPlain integer (c ∷ s) h k =
    All-append IsPlain integer (b'.' ∷ c ∷ s) (digits-IsPlain integer h)
      (unfold is_space in refl, digits-IsPlain (c ∷ s) k)

trim_left-plain : (s : Text) → All IsPlain s → trim_left is_space s ≡ s
unfolding trim_left IsPlain
trim_left-plain [] h = refl
trim_left-plain (c ∷ s) h = rw (h.0) refl

trim_right-plain : (s : Text) → All IsPlain s → trim_right is_space s ≡ s
unfolding trim_right IsPlain keep
trim_right-plain [] h = refl
trim_right-plain (c ∷ []) h = rw (h.0) refl
trim_right-plain (c ∷ d ∷ s) h = rw (trim_right-plain (d ∷ s) h.1) refl

trim_space-plain : (s : Text) → All IsPlain s → trim_space s ≡ s
unfolding trim_space
trim_space-plain s h = rw (trim_left-plain s h) (trim_right-plain s h)

pub text_eq_refl : (s : Text) → text_eq s s ≡ true
unfolding text_eq
text_eq_refl [] = refl
text_eq_refl (c ∷ s) = ground (arith, text_eq_refl s)

-- Text that begins with a digit has no sign.
split_sign-digits :
    (integer fraction : Text)
    → is_integer integer ≡ true
    → All IsDigit integer
    → (split_sign false (with_fraction integer fraction)
        ≡ some (false, with_fraction integer fraction))
      × (text_eq (with_fraction integer fraction) [] ≡ false)
unfolding split_sign with_fraction is_integer text_eq
split_sign-digits [] fraction w h = cc
split_sign-digits (c ∷ s) [] w h = (ground arith, refl)
split_sign-digits (c ∷ s) (d ∷ f) w h = (ground arith, refl)

keep-fixed :
    (c : ℕ) (t : Text)
    → trim_right is_zero t ≡ t
    → trim_right is_zero (keep is_zero c t) ≡ keep is_zero c t
unfolding trim_right keep
keep-fixed c [] h = elim (Bool-cases (is_zero c)) [
  | inl e ↦ rw (e, keep) refl
  | inr e ↦ rw (e, keep) (rw e refl)
]
keep-fixed c (d ∷ t) h = rw h refl

trim_zero-fixed : (s : Text) → trim_right is_zero (trim_right is_zero s) ≡ trim_right is_zero s
unfolding trim_right
trim_zero-fixed [] = refl
trim_zero-fixed (c ∷ s) = keep-fixed c (trim_right is_zero s) (trim_zero-fixed s)

same_units :
    (n m f p : ℕ)
    → p ≤ f
    → f ≤ amount_scale
    → n ≡ m * 10 ^ (f - p)
    → m * 10 ^ (amount_scale - p) ≡ n * 10 ^ (amount_scale - f)
same_units n m f p h k e =
    m * 10 ^ (amount_scale - p)
    ≡⟨ ap (λ (x : ℕ). m * 10 ^ x) {y = f - p + (amount_scale - f)} (omega arith) ⟩
      m * 10 ^ (f - p + (amount_scale - f))
    ≡⟨ ap (λ (x : ℕ). m * x) (pow_add 10 (f - p) (amount_scale - f)) ⟩
      m * (10 ^ (f - p) * 10 ^ (amount_scale - f))
    ≡⟨ omega (arith, ap (λ (x : ℕ). x * 10 ^ (amount_scale - f)) e) ⟩ n * 10 ^ (amount_scale - f) ∎

Groups-units :
    (v c : Text) (scale : ℕ) (az : Bool) (g : Groups v c scale az)
    → scale ≤ amount_scale
    → read_digits (g.integer ++ trim_right is_zero g.fraction)
        * 10 ^ (amount_scale - length (trim_right is_zero g.fraction))
      ≡ units v
unfolding read_digits
Groups-units v c scale az g small =
    let part = trim_right is_zero g.fraction in
    let (shorter, scaled) = read-trim_right (read_from 0 g.integer) g.fraction in
    rw ((match_decimal_lem v g.integer g.fraction g.matched).0) (
      same_units (read_digits (g.integer ++ g.fraction)) (read_digits (g.integer ++ part))
        (length g.fraction) (length part) shorter (omega (arith, g.fits))
        (read_from-append 0 g.integer g.fraction
          ∙ scaled
          ∙ ap (λ (m : ℕ). m * 10 ^ (length g.fraction - length part))
              (sym (read_from-append 0 g.integer part))))

-- What is known of the canonical text of an accepted amount.
pub record Accepted (v c : Text) (scale : ℕ) (az : Bool) : Type 0 where
  pub integer : Text
  pub part : Text
  pub matched : Matched integer part
  pub short : length integer ≤ max_integer_digits
  pub fits : length part ≤ scale
  pub trimmed : trim_right is_zero part ≡ part
  pub result : c ≡ with_fraction integer part
  pub finished : finish false az c ≡ ok c
  pub value :
      scale ≤ amount_scale
      → read_digits (integer ++ part) * 10 ^ (amount_scale - length part) ≡ units v

canonical-parts :
    (integer fraction : Text)
    → is_integer integer ≡ true
    → canonical integer fraction ≡ with_fraction integer (trim_right is_zero fraction)
unfolding canonical
canonical-parts integer fraction w =
    ap (λ (s : Text). with_fraction s (trim_right is_zero fraction)) (integer-trim integer w)

pub parse_bounded-Accepted :
    (v c : Text) (scale : ℕ) (az : Bool)
    → parse_bounded v scale false az ≡ ok c
    → Accepted v c scale az
parse_bounded-Accepted v c scale az h =
    let g = parse_bounded-Groups v c scale az h in
    let m = match_decimal-Matched v g.integer g.fraction g.matched in
    record {
      integer = g.integer;
      part = trim_right is_zero g.fraction;
      matched = record {
        whole = m.whole;
        digits = m.digits;
        part = trim_right-All g.fraction m.part;
      };
      short = g.short;
      fits = omega (arith, g.fits, (read-trim_right 0 g.fraction).0);
      trimmed = trim_zero-fixed g.fraction;
      finished = finish-ok az c c (ap (finish false az) g.result ∙ g.finished);
      value = Groups-units v c scale az g;
      result = g.result ∙ canonical-parts g.integer g.fraction m.whole;
    }

in_bounds :
    (integer part : Text) (scale : ℕ)
    → length integer ≤ max_integer_digits
    → length part ≤ scale
    → (ltb max_integer_digits (length integer) || ltb scale (length part)) ≡ false
in_bounds integer part scale h k = ground arith

-- The canonical text of an accepted unsigned amount is accepted as it is.
pub parse_bounded-canonical :
    (v c : Text) (scale : ℕ) (az : Bool)
    → parse_bounded v scale false az ≡ ok c
    → parse_bounded c scale false az ≡ ok c
unfolding parse_bounded with_fraction
parse_bounded-canonical v c scale az h =
    let a = parse_bounded-Accepted v c scale az h in
    let text = with_fraction a.integer a.part in
    let (no_sign, not_empty) =
      split_sign-digits a.integer a.part a.matched.whole a.matched.digits in
    let plain =
      trim_space-plain text
        (with_fraction-IsPlain a.integer a.part a.matched.digits a.matched.part) in
    let again =
      canonical-parts a.integer a.part a.matched.whole ∙ ap (with_fraction a.integer) a.trimmed in
    let short = in_bounds a.integer a.part scale a.short a.fits in
    rw
      (
        a.result,
        parse_bounded,
        not_empty,
        plain,
        text_eq_refl text,
        no_sign,
        bounded_sign,
        match_decimal-with_fraction a.integer a.part a.matched,
        bounded_groups,
        short,
        again,
      )
      (rw a.result at a.finished)

-- The two parts of an accepted amount and of its canonical text.
pub split_dot-canonical :
    (v c : Text) (scale : ℕ) (az : Bool) (h : parse_bounded v scale false az ≡ ok c)
    → split_dot c ≡ (
      (parse_bounded-Accepted v c scale az h).integer,
      (parse_bounded-Accepted v c scale az h).part,
    )
split_dot-canonical v c scale az h =
    let a = parse_bounded-Accepted v c scale az h in
    ap split_dot a.result
    ∙ (match_decimal_lem (with_fraction a.integer a.part) a.integer a.part
        (match_decimal-with_fraction a.integer a.part a.matched)).0

-- The canonical text stands for the amount.
pub units-canonical :
    (v c : Text) (scale : ℕ) (az : Bool)
    → scale ≤ amount_scale
    → parse_bounded v scale false az ≡ ok c
    → units c ≡ units v
units-canonical v c scale az small h =
    rw (split_dot-canonical v c scale az h) ((parse_bounded-Accepted v c scale az h).value small)
