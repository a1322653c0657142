-- ===== src/Base/Tests.antt =====
-- Boolean tests on native numbers, the conditional, and results with an error.
use Prim.Native.Char.{code}
use Prim.Native.Nat.{ℕ, ◌≤◌, ◌<◌, compare, Ordering}
use Prim.Native.String.{String}
use mathlib.Core.Bool.{Bool, true, false, ◌&&◌}
use mathlib.Core.List.{List, [], ◌∷◌}
use mathlib.Core.Logic.{◌↔◌, ◌⊎◌, inl, inr}
use mathlib.Core.Option.{Option, none, some}
use mathlib.Core.Path.{◌≡◌, refl}
use native.Mathlib.Omega.{arith}

abbrev pub ltb : ℕ → ℕ → Bool
ltb a b = elim (compare a b) [ Ordering.lt ↦ true | _ ↦ false ]

abbrev pub leb : ℕ → ℕ → Bool
leb a b = elim (compare a b) [ Ordering.gt ↦ false | _ ↦ true ]

infix 50 ◌==◌
abbrev pub ◌==◌ : ℕ → ℕ → Bool
a == b = elim (compare a b) [ Ordering.eq ↦ true | _ ↦ false ]

infix 1 if◌then◌else◌
abbrev pub if◌then◌else◌ {ℓ} : {A : Type ℓ} → Bool → A → A → A
if true then x else y = x
if false then x else y = y

pub ltb→lt : (a b : ℕ) → ltb a b ≡ true → a < b
ltb→lt a b h = ground arith

pub leb→le : (a b : ℕ) → leb a b ≡ true → a ≤ b
leb→le a b h = ground arith

pub le→leb : (a b : ℕ) → a ≤ b → leb a b ≡ true
le→leb a b h = ground arith

pub ==_iff : (a b : ℕ) → ((a == b) ≡ true) ↔ (a ≡ b)
==_iff a b = ground arith

-- A split on a computed value that keeps the equation.
pub Bool-cases : (b : Bool) → (b ≡ true) ⊎ (b ≡ false)
Bool-cases true = inl refl
Bool-cases false = inr refl

pub Option-cases {ℓ} : {A : Type ℓ} (o : Option A) → (o ≡ none) ⊎ ((a : A) × (o ≡ some a))
Option-cases none = inl refl
Option-cases (some a) = inr (a, refl)

-- A value or an error, `(T, error)` of the source.
pub data Result {ℓ} (E A : Type ℓ) : Type ℓ where
  ok : A → Result E A
  err : E → Result E A

module _ {ℓ} {E : Type ℓ} where
  abbrev pub or_fail : {A : Type ℓ} → Option A → E → Result E A
  or_fail none e = err e
  or_fail (some a) e = ok a

  pub Result-cases :
      {A : Type ℓ} (r : Result E A) → ((a : A) × (r ≡ ok a)) ⊎ ((e : E) × (r ≡ err e))
  Result-cases (ok a) = inl (a, refl)
  Result-cases (err e) = inr (e, refl)

  infixl 5 ◌>>=◌
  abbrev pub ◌>>=◌ : {A B : Type ℓ} → Result E A → (A → Result E B) → Result E B
  err e >>= f = err e
  ok a >>= f = f a

  -- What a successful bind says of its two parts.
  pub >>=-eq-ok :
      {A B : Type ℓ} (first : Result E A) (rest : A → Result E B) {result : B}
      → (first >>= rest) ≡ ok result
      → (mid : A) × (first ≡ ok mid) × (rest mid ≡ ok result)
  >>=-eq-ok (err failure) rest h = cc
  >>=-eq-ok (ok mid) rest h = (mid, refl, h)

module _ {E : Type 0} where
  -- An early return with an error where a test fails.
  abbrev pub guard : Bool → E → Result E (Unit {0})
  guard false failure = err failure
  guard true failure = ok tt

  infixl 5 ◌>>◌
  abbrev pub ◌>>◌ : {B : Type 0} → Result E (Unit {0}) → Result E B → Result E B
  first >> rest = first >>= λ _. rest

-- What a passed guard says of its test.
pub guard-ok : {E : Type 0} (b : Bool) (e : E) → guard b e ≡ ok tt → b ≡ true
guard-ok true e h = refl
guard-ok false e h = cc

pub guard_then :
    {E B : Type 0} (b : Bool) (e : E) {rest : Result E B} {r : B}
    → (guard b e >> rest) ≡ ok r
    → (b ≡ true) × (rest ≡ ok r)
guard_then true e h = (refl, h)
guard_then false e h = cc

pub or_fail_then :
    {E A B : Type 0} (o : Option A) (e : E) {rest : A → Result E B} {r : B}
    → (or_fail o e >>= rest) ≡ ok r
    → (a : A) × (o ≡ some a) × (rest a ≡ ok r)
or_fail_then none e h = cc
or_fail_then (some a) e h = (a, refl, h)

-- Two steps in a row that both succeed.
pub >>-ok :
    {E B : Type 0} (first : Result E (Unit {0})) {rest : Result E B} {r : B}
    → (first >> rest) ≡ ok r
    → (first ≡ ok tt) × (rest ≡ ok r)
>>-ok (ok u) h = (refl, h)
>>-ok (err e) h = cc

pub ok-eq {ℓ} : {E A : Type ℓ} {a b : A} → ◌≡◌ {A = Result E A} (ok a) (ok b) → a ≡ b
ok-eq h = cc

pub some-eq {ℓ} : {A : Type ℓ} {a b : A} → ◌≡◌ {A = Option A} (some a) (some b) → a ≡ b
some-eq h = cc

pub err-ok {ℓ ℓ'} :
    {E A : Type ℓ} {e : E} {a : A} {P : Type ℓ'} → ◌≡◌ {A = Result E A} (err e) (ok a) → P
err-ok h = cc

pub &&-true : (a b : Bool) → (a && b) ≡ true → (a ≡ true) × (b ≡ true)
&&-true true b h = (refl, h)
&&-true false b h = cc

-- A text is the list of its code points.
abbrev pub Text : Type 0
Text = List ℕ

abbrev pub codes : String → Text
codes String.[] = []
codes (String.◌∷◌ c s) = code c ∷ codes s
